-- ===== src/Services/Probe/Identity.antt =====
-- app/services/remote_probe.py: the marker file of a tunnel, read as "key=value" lines.
use remote_ai_bridge.Prelude.{
  ℕ, String, none, some, List, [], ◌∷◌, Dict, get, put, is_some, if◌then◌else◌,
}
use remote_ai_bridge.Text.{partition}
use remote_ai_bridge.Domain.Errors.{Result, ok, raised, value_error, ◌>>=◌, ◌>>◌}
use remote_ai_bridge.Domain.Python.{Python}
use remote_ai_bridge.Domain.Runtime.{RemoteTunnelIdentity, validate_identity}

-- the first value of each key of "key=value" lines
unfoldable pub read_fields : Dict String → List String → Dict String
read_fields fields [] = fields
read_fields fields (line ∷ rest) = elim (partition b'=' line) [
  | none ↦ read_fields fields rest
  | some (key, value) ↦
      read_fields (if is_some (get key fields) then fields else put key value fields) rest
]

-- `fields[key]`
abbrev field : Dict String → String → Result String
field fields key = elim (get key fields) [ none ↦ raised value_error | some v ↦ ok v ]

abbrev int_field : Python → Dict String → String → Result ℕ
int_field py fields key = elim (get key fields) [
  | none ↦ raised value_error
  | some v ↦ elim (py.parse_int v) [ none ↦ raised value_error | some n ↦ ok n ]
]

-- `RemoteTunnelIdentity(…)` from the fields, validated; the caller catches KeyError and ValueError
unfoldable pub parse_identity : Python → Dict String → Result RemoteTunnelIdentity
parse_identity py fields = do
  tunnel_id ← field fields "tunnel_id"
  remote_port ← int_field py fields "remote_port"
  remote_user ← field fields "remote_user"
  sshd_pid ← int_field py fields "sshd_pid"
  sshd_start_ticks ← int_field py fields "sshd_start_ticks"
  boot_id ← field fields "boot_id"
  ssh_connection ← field fields "ssh_connection"
  let identity : RemoteTunnelIdentity = record {
    tunnel_id = tunnel_id;
    remote_port = remote_port;
    remote_user = remote_user;
    sshd_pid = sshd_pid;
    sshd_start_ticks = sshd_start_ticks;
    boot_id = boot_id;
    ssh_connection = ssh_connection;
  }
  validate_identity py identity
  ok identity
