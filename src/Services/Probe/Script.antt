-- ===== src/Services/Probe/Script.antt =====
-- app/services/remote_probe.py: the shell scripts that the program runs on the remote host, as text.
use remote_ai_bridge.Prelude.{ℕ, String, Bool, not, List, [], ◌∷◌, ◌++◌, map, if◌then◌else◌}
use remote_ai_bridge.Text.{format, show}
use remote_ai_bridge.Domain.Errors.{Result, ok, value_error, refuse, ◌>>◌}
use remote_ai_bridge.Domain.Python.{Python}
use remote_ai_bridge.Domain.Profile.{is_port}
use remote_ai_bridge.Domain.Runtime.{RemoteTunnelIdentity, is_canonical_uuid}

-- `"\n".join(lines)`
unfoldable pub join_lines : List String → String
join_lines [] = ""
join_lines (line ∷ []) = line
join_lines (line ∷ next ∷ rest) = format (line ∷ "\n" ∷ join_lines (next ∷ rest) ∷ [])

abbrev pub marker_of : String → String
marker_of tunnel_id = format ("$HOME/.remote-ai-bridge/runtime/" ∷ tunnel_id ∷ ".state" ∷ [])

identity_lines : String → ℕ → List String
identity_lines tunnel_id port =
    "set -eu"
    ∷ "umask 077"
    ∷ "base=\"$HOME/.remote-ai-bridge\""
    ∷ "runtime_dir=\"$base/runtime\""
    ∷ "mkdir -p -- \"$runtime_dir\""
    ∷ "chmod 700 -- \"$base\" \"$runtime_dir\""
    ∷ format ("marker=\"" ∷ marker_of tunnel_id ∷ "\"" ∷ [])
    ∷ "sshd_pid=$PPID"
    ∷ "sshd_start_ticks=$(awk \"{print \\$22}\" \"/proc/$sshd_pid/stat\")"
    ∷ "boot_id=$(cat /proc/sys/kernel/random/boot_id)"
    ∷ "remote_user=$(id -un)"
    ∷ "ssh_connection=${SSH_CONNECTION:-}"
    ∷ "[ -n \"$ssh_connection\" ] || { echo \"missing SSH_CONNECTION\" >&2; exit 71; }"
    ∷ "attempt=0"
    ∷ "while [ \"$attempt\" -lt 50 ]; do"
    ∷ format ("  listener_line=$(ss -ltnH 'sport = :" ∷ show port ∷ "' 2>/dev/null || true)" ∷ [])
    ∷ format (
        "  printf '%s\\n' \"$listener_line\" | grep -F -- '127.0.0.1:"
        ∷ show port
        ∷ "' >/dev/null && break"
        ∷ [])
    ∷ "  attempt=$((attempt + 1))"
    ∷ "  sleep 0.1"
    ∷ "done"
    ∷ format (
        "printf '%s\\n' \"$listener_line\" | grep -F -- '127.0.0.1:"
        ∷ show port
        ∷ "' >/dev/null || { echo \"reverse listener was not established on the required loopback port\" >&2; exit 72; }"
        ∷ [])
    ∷ "temporary=\"$marker.$$\""
    ∷ "{"
    ∷ "  printf '%s\\n' 'schema_version=1'"
    ∷ format ("  printf 'tunnel_id=%s\\n' '" ∷ tunnel_id ∷ "'" ∷ [])
    ∷ format ("  printf 'remote_port=%s\\n' '" ∷ show port ∷ "'" ∷ [])
    ∷ "  printf 'remote_user=%s\\n' \"$remote_user\""
    ∷ "  printf 'sshd_pid=%s\\n' \"$sshd_pid\""
    ∷ "  printf 'sshd_start_ticks=%s\\n' \"$sshd_start_ticks\""
    ∷ "  printf 'boot_id=%s\\n' \"$boot_id\""
    ∷ "  printf 'ssh_connection=%s\\n' \"$ssh_connection\""
    ∷ "} > \"$temporary\""
    ∷ "chmod 600 -- \"$temporary\""
    ∷ "mv -f -- \"$temporary\" \"$marker\""
    ∷ "cleanup_marker() { rm -f -- \"$marker\" \"$temporary\"; }"
    ∷ "trap 'cleanup_marker; exit 0' HUP INT TERM"
    ∷ "trap cleanup_marker EXIT"
    ∷ "while :; do sleep 30; done"
    ∷ []

unfoldable pub build_remote_identity_command : Python → String → ℕ → Result String
unfolding identity_lines
build_remote_identity_command py tunnel_id port = do
  refuse (not (is_canonical_uuid py tunnel_id)) value_error
  refuse (not (is_port port)) value_error
  ok (join_lines (identity_lines tunnel_id port))

-- the fields of the marker, with the values that they must have
expected : RemoteTunnelIdentity → List (String × String)
expected i =
    ("tunnel_id", i.tunnel_id)
    ∷ ("remote_port", show i.remote_port)
    ∷ ("remote_user", i.remote_user)
    ∷ ("sshd_pid", show i.sshd_pid)
    ∷ ("sshd_start_ticks", show i.sshd_start_ticks)
    ∷ ("boot_id", i.boot_id)
    ∷ ("ssh_connection", i.ssh_connection)
    ∷ []

field_check : Python → String × String → String
field_check py (key, value) = format (
    "[ \"$(field "
    ∷ py.quote key
    ∷ ")\" = "
    ∷ py.quote value
    ∷ " ] || { echo \"marker "
    ∷ key
    ∷ " mismatch\" >&2; exit 84; }"
    ∷ [])

marker_lines : RemoteTunnelIdentity → List String
marker_lines i =
    "set -eu"
    ∷ format ("marker=\"" ∷ marker_of i.tunnel_id ∷ "\"" ∷ [])
    ∷ "[ -f \"$marker\" ] || { echo \"identity marker unavailable\" >&2; exit 81; }"
    ∷ "[ \"$(stat -c %u -- \"$marker\")\" = \"$(id -u)\" ] || { echo \"marker owner mismatch\" >&2; exit 82; }"
    ∷ "[ \"$(stat -c %a -- \"$marker\")\" = \"600\" ] || { echo \"marker mode mismatch\" >&2; exit 83; }"
    ∷ "field() { sed -n \"s/^$1=//p\" \"$marker\" | head -n 1; }"
    ∷ []

process_lines : RemoteTunnelIdentity → List String
process_lines i =
    format ("pid=" ∷ show i.sshd_pid ∷ [])
    ∷ format ("port=" ∷ show i.remote_port ∷ [])
    ∷ "[ \"$(id -un)\" = \"$(field remote_user)\" ] || { echo \"remote user mismatch\" >&2; exit 85; }"
    ∷ "[ -r \"/proc/$pid/stat\" ] || { echo \"sshd process unavailable\" >&2; exit 86; }"
    ∷ "[ \"$(stat -c %u -- \"/proc/$pid\")\" = \"$(id -u)\" ] || { echo \"sshd process owner mismatch\" >&2; exit 87; }"
    ∷ "[ \"$(awk \"{print \\$22}\" \"/proc/$pid/stat\")\" = \"$(field sshd_start_ticks)\" ] || { echo \"sshd start time mismatch\" >&2; exit 88; }"
    ∷ "[ \"$(cat /proc/sys/kernel/random/boot_id)\" = \"$(field boot_id)\" ] || { echo \"remote boot ID mismatch\" >&2; exit 89; }"
    ∷ "comm=$(cat \"/proc/$pid/comm\")"
    ∷ "case \"$comm\" in sshd|sshd-session) ;; *) echo \"process is not sshd\" >&2; exit 90;; esac"
    ∷ "listener_line=$(ss -ltnH \"sport = :$port\" 2>/dev/null || true)"
    ∷ "printf \"%s\\n\" \"$listener_line\" | grep -F -- \"127.0.0.1:$port\" >/dev/null || { echo \"loopback listener mismatch\" >&2; exit 91; }"
    ∷ []

-- the marker is read again immediately before the signal
terminate_lines : Python → RemoteTunnelIdentity → List String
terminate_lines py i =
    format ("[ \"$(field tunnel_id)\" = " ∷ py.quote i.tunnel_id ∷ " ] || exit 92" ∷ [])
    ∷ "[ \"$(awk \"{print \\$22}\" \"/proc/$pid/stat\")\" = \"$(field sshd_start_ticks)\" ] || exit 93"
    ∷ "kill -TERM -- \"$pid\""
    ∷ "attempt=0"
    ∷ "while [ \"$attempt\" -lt 50 ]; do"
    ∷ "  listener_line=$(ss -ltnH \"sport = :$port\" 2>/dev/null || true)"
    ∷ "  if [ -z \"$listener_line\" ]; then rm -f -- \"$marker\"; printf \"CLEANED\\n\"; exit 0; fi"
    ∷ "  attempt=$((attempt + 1))"
    ∷ "  sleep 0.1"
    ∷ "done"
    ∷ "echo \"verified sshd session did not release listener\" >&2"
    ∷ "exit 94"
    ∷ []

unfoldable pub build_identity_validation_command : Python → RemoteTunnelIdentity → Bool → String
unfolding marker_lines process_lines terminate_lines expected field_check
build_identity_validation_command py i terminate = join_lines (
    marker_lines i
    ++ (map (field_check py) (expected i)
        ++ (process_lines i
            ++ (if terminate then terminate_lines py i else "printf 'VERIFIED\\n'" ∷ []))))
