-- ===== src/Services/Probe.antt =====
-- app/services/remote_probe.py: questions to the remote host, each one SSH command.
mod Script
mod Identity
pub mod Laws
pub use Script.{
  marker_of, join_lines, build_remote_identity_command, build_identity_validation_command,
}
use remote_ai_bridge.Prelude.{
  ℕ, zero, suc, ◌+◌, ◌-◌, String, Bool, true, false, not, ◌&&◌, ◌||◌, Option, none, some, List, [],
  ◌∷◌, ◌++◌, Dict, get, put, ◌==◌, ltb, leb, nat_eq, has_code, is_some, or_else, if◌then◌else◌,
}
use remote_ai_bridge.Text.{
  format, show, strip, clip, contains, ends_with, or_text, lines, last, partition, in_range,
}
use remote_ai_bridge.Domain.Errors.{Result, ok, raised, value_error}
use Identity.{read_fields, parse_identity}
use remote_ai_bridge.Domain.Health.{CheckResult, CheckStatus, pass, fail, skip, check, passed}
use remote_ai_bridge.Domain.Python.{Python}
use remote_ai_bridge.Domain.Profile.{Profile}
use remote_ai_bridge.Domain.Runtime.{
  RemoteTunnelIdentity, RuntimeState, has_remote_identity, remote_identity, validate_identity,
  is_canonical_uuid,
}
use remote_ai_bridge.Exec.{Env, Exec, pure, raise, lift, given, ◌>>=◌, ◌>>◌}
use remote_ai_bridge.Infrastructure.Process.{ProcessResult, succeeded, run}
use remote_ai_bridge.Services.Options.{Config, managed_ssh_options}

-- `(first.strip() or second.strip() or default)[:300]`
abbrev pub first_text : String → String → String → String
first_text a b default = clip 300 (or_text (strip a) (or_text (strip b) default))

abbrev pub min : ℕ → ℕ → ℕ
min a b = if leb a b then a else b

-- the addresses on which `check_listener` accepts a listener
abbrev pub binding : Profile → ℕ → String
binding p port = format (p.remote_bind_host ∷ ":" ∷ show port ∷ [])

unfoldable pub listener_result : Profile → ℕ → ProcessResult → CheckResult
unfolding succeeded contains strip
listener_result p port r =
    if not (succeeded r)
    then check "Remote listener" fail (first_text r.stderr r.stdout "remote listener check failed")
        (some "REMOTE_CHECK_FAILED")
    else if not (strip r.stdout == "")
    then (if not (contains (binding p port) r.stdout)
        then check "Remote listener" fail
            (format (
              "port "
              ∷ show port
              ∷ " is listening but not on the required "
              ∷ binding p port
              ∷ " binding"
              ∷ []))
            (some "UNSAFE_REMOTE_BINDING")
        else check "Remote listener" pass (format (binding p port ∷ " is listening" ∷ [])) none)
    else check "Remote listener" fail (format ("no listener on " ∷ binding p port ∷ []))
        (some "LISTENER_ABSENT")

-- `status in (401, 403) or 200 <= status < 300`
abbrev pub is_healthy_status : ℕ → Bool
is_healthy_status n = nat_eq n 401 || nat_eq n 403 || (leb 200 n && ltb n 300)

unfoldable pub status_result : Option ℕ → CheckResult
status_result none =
    check "Remote endpoint probe" fail "curl returned no HTTP status" (some "INVALID_PROBE_OUTPUT")
status_result (some status) =
    if is_healthy_status status
    then record {
      name = "Remote endpoint probe";
      status = pass;
      detail =
          format ("endpoint returned HTTP " ∷ show status ∷ "; bridge networking is healthy" ∷ []);
      error_code = none;
      http_status = some status;
    }
    else record {
      name = "Remote endpoint probe";
      status = fail;
      detail = format ("unexpected endpoint response HTTP " ∷ show status ∷ []);
      error_code = some "ENDPOINT_UNEXPECTED_STATUS";
      http_status = some status;
    }

unfoldable pub endpoint_result : Python → ProcessResult → CheckResult
unfolding succeeded status_result
endpoint_result py r =
    if not (succeeded r)
    then check "Remote endpoint probe" fail
        (first_text r.stderr r.stdout "remote endpoint probe failed")
        (some (if r.timed_out then "REMOTE_ENDPOINT_TIMEOUT" else "REMOTE_ENDPOINT_UNREACHABLE"))
    else status_result (py.parse_int (last 3 (strip r.stdout)))

-- the answer to a marker that was read
unfoldable pub marker_result :
    Python → Profile → String → String → Option RemoteTunnelIdentity × CheckResult
unfolding read_fields parse_identity
marker_result py p tunnel_id stdout = elim (parse_identity py (read_fields [] (lines stdout))) [
  | raised e ↦ (
    none,
    check "Remote tunnel identity" fail "invalid remote identity marker"
        (some "REMOTE_IDENTITY_INVALID"),
  )
  | ok i ↦
      if not (i.tunnel_id == tunnel_id) || not (nat_eq i.remote_port p.remote_port)
      then (
        none,
        check "Remote tunnel identity" fail
            "remote identity does not match the requested tunnel and port"
            (some "REMOTE_IDENTITY_MISMATCH"),
      )
      else (
        some i,
        check "Remote tunnel identity" pass
            (format (
              "verified marker for remote user "
              ∷ i.remote_user
              ∷ " and sshd PID "
              ∷ show i.sshd_pid
              ∷ []))
            none,
      )
]

abbrev action_name : Bool → String
action_name terminate =
    if terminate then "Remote stale session cleanup" else "Remote stale session ownership"

unfoldable pub action_result : RemoteTunnelIdentity → Bool → ProcessResult → CheckResult
unfolding succeeded
action_result i terminate r =
    if succeeded r && ends_with (if terminate then "CLEANED" else "VERIFIED") (strip r.stdout)
    then check (action_name terminate) pass
        (if terminate
          then format ("terminated verified stale sshd session PID " ∷ show i.sshd_pid ∷ [])
          else format (
              "listener and sshd session PID "
              ∷ show i.sshd_pid
              ∷ " match saved tunnel ownership"
              ∷ []))
        none
    else check (action_name terminate) fail
        (first_text r.stderr r.stdout "remote identity could not be verified")
        (some (if terminate then "REMOTE_STALE_CLEANUP_FAILED" else "REMOTE_IDENTITY_MISMATCH"))

module _ (env : Env) (cfg : Config) where
  unfoldable pub ssh_prefix : Profile → Result (List String)
  ssh_prefix p = elim (managed_ssh_options env.python p cfg.state_root) [
    | raised e ↦ raised e
    | ok options ↦ ok (
        (cfg.ssh_executable
          ∷ "-T"
          ∷ "-o"
          ∷ "BatchMode=yes"
          ∷ "-o"
          ∷ "StrictHostKeyChecking=yes"
          ∷ "-o"
          ∷ format ("ConnectTimeout=" ∷ show cfg.connect_timeout ∷ [])
          ∷ [])
        ++ (options ++ p.ssh_target ∷ []))
  ]

  unfoldable pub run_remote : Profile → String → Exec ProcessResult
  run_remote p command = do prefix ← lift (ssh_prefix p); run env (prefix ++ command ∷ [])

  unfoldable pub check_listener : Profile → ℕ → Exec CheckResult
  check_listener p port = do
    result ← run_remote p (format ("ss -ltnH 'sport = :" ∷ show port ∷ "'" ∷ []))
    pure (listener_result p port result)

  abbrev curl_command : Profile → String
  curl_command p =
      let q = env.python.quote in
      format (
        "curl --disable --silent --show-error --output /dev/null --write-out "
        ∷ q "%{http_code}"
        ∷ " --max-time "
        ∷ show cfg.connect_timeout
        ∷ " --proxy "
        ∷ q (format ("http://" ∷ binding p p.remote_port ∷ []))
        ∷ " --noproxy "
        ∷ q ""
        ∷ " "
        ∷ q p.endpoint_probe_url
        ∷ [])

  unfoldable pub check_endpoint : Profile → Exec CheckResult
  check_endpoint p = do
    result ← run_remote p (curl_command p)
    pure (endpoint_result env.python result)

  unfoldable pub read_tunnel_identity :
      Profile → String → Exec (Option RemoteTunnelIdentity × CheckResult)
  read_tunnel_identity p tunnel_id = do
    lift (if is_canonical_uuid env.python tunnel_id then ok tt else raised value_error)
    let marker = marker_of tunnel_id
    result ← run_remote p (format ("test -f \"" ∷ marker ∷ "\" && cat -- \"" ∷ marker ∷ "\"" ∷ []))
    pure (
        if succeeded result then marker_result env.python p tunnel_id result.stdout else (
          none,
          check "Remote tunnel identity" fail
              (first_text result.stderr "" "remote tunnel identity is not available")
              (some "REMOTE_IDENTITY_UNAVAILABLE"),
        ))

  unfoldable pub run_identity_action : Profile → RemoteTunnelIdentity → Bool → Exec CheckResult
  run_identity_action p i terminate = do
    lift (validate_identity env.python i)
    result ← run_remote p (build_identity_validation_command env.python i terminate)
    pure (action_result i terminate result)

  -- a state with a remote user has the other four values too: it was validated
  unfoldable pub identity_action : Profile → RuntimeState → Bool → Exec CheckResult
  identity_action p state terminate =
      given (remote_identity state)
        (pure (
          check (action_name terminate) fail "runtime has no verified remote session identity"
            (some "REMOTE_IDENTITY_UNAVAILABLE")))
        λ i. run_identity_action p i terminate

  unfoldable pub verify_stale_session_ownership : Profile → RuntimeState → Exec CheckResult
  verify_stale_session_ownership p state = identity_action p state false

  unfoldable pub terminate_verified_stale_session : Profile → RuntimeState → Exec CheckResult
  terminate_verified_stale_session p state = identity_action p state true

  -- the loop of `find_free_port` over the candidates from `port` on
  unfoldable pub free_port_from : Profile → ℕ → ℕ → Exec (Option ℕ)
  free_port_from p zero port = pure none
  free_port_from p (suc left) port = do
    result ← check_listener p port
    if has_code result.error_code "LISTENER_ABSENT"
        then pure (some port)
        else if has_code result.error_code "REMOTE_CHECK_FAILED"
        then pure none
        else free_port_from p left (port + 1)

  -- range(remote_port + 1, min(65536, remote_port + attempts + 1)), with 20 attempts
  unfoldable pub find_free_port : Profile → Exec (Option ℕ)
  find_free_port p =
      free_port_from p (min 65536 (p.remote_port + 20 + 1) - (p.remote_port + 1))
        (p.remote_port + 1)
