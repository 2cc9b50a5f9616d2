-- ===== src/Services/RemotePort.antt =====
-- app/services/remote_port.py: the remote port of a new managed profile, the first of a bounded range
-- without a listener. A port is a natural number, so the `isinstance` tests hold by typing.
pub mod Laws
use remote_ai_bridge.Prelude.{
  ℕ, zero, suc, ◌+◌, ◌-◌, String, Bool, true, false, not, ◌||◌, List, [], ◌∷◌, ◌==◌, nat_eq,
  has_code, or_else, if◌then◌else◌,
}
use remote_ai_bridge.Domain.Errors.{Exn, Detail, text, number, Result, rab_error, refuse, ◌>>◌}
use remote_ai_bridge.Domain.Health.{CheckResult, passed}
use remote_ai_bridge.Domain.Profile.{Profile, is_port, loopback}
use remote_ai_bridge.Exec.{Env, Exec, pure, raise, lift, ◌>>=◌}
use remote_ai_bridge.Services.Options.{Config}
use remote_ai_bridge.Services.Probe.{min, check_listener}

abbrev selection_invalid : Exn
selection_invalid = rab_error "REMOTE_PORT_SELECTION_INVALID" false []

unfoldable pub validate_scan_parameters : ℕ → ℕ → Result (Unit {0})
validate_scan_parameters start_port max_attempts = do
  refuse (not (is_port start_port)) selection_invalid
  refuse (nat_eq max_attempts 0) selection_invalid

-- the tests at the beginning of `select`
unfoldable pub validate_selection : Profile → ℕ → ℕ → Result (Unit {0})
validate_selection p start_port max_attempts = do
  refuse (not (nat_eq p.schema_version 2) || not (p.profile_type == "managed")) selection_invalid
  refuse (not (p.remote_bind_host == loopback)) (rab_error "UNSAFE_REMOTE_BINDING" false [])
  validate_scan_parameters start_port max_attempts

abbrev check_failed : ℕ → CheckResult → Exn
check_failed port result = rab_error "REMOTE_PORT_CHECK_FAILED" true (
    ("remote_bind_host", text loopback)
    ∷ ("port", number port)
    ∷ ("remote_error", text (or_else result.error_code "UNKNOWN"))
    ∷ [])

abbrev exhausted : ℕ → ℕ → Exn
exhausted start_port max_attempts = rab_error "REMOTE_PORT_RANGE_EXHAUSTED" true (
    ("start_port", number start_port)
    ∷ ("max_attempts", number max_attempts)
    ∷ ("attempt_count", number (min max_attempts (65536 - start_port)))
    ∷ [])

module _ (env : Env) (cfg : Config) where
  -- the loop over the candidates from `port` on; `none_left` is raised where it ends
  unfoldable pub select_from : Profile → Exn → ℕ → ℕ → Exec ℕ
  select_from p none_left zero port = raise none_left
  select_from p none_left (suc left) port = do
    result ← check_listener env cfg p port
    if has_code result.error_code "LISTENER_ABSENT"
        then pure port
        else if passed result || has_code result.error_code "UNSAFE_REMOTE_BINDING"
        then select_from p none_left left (port + 1)
        else raise (check_failed port result)

  -- RemotePortSelector.select
  unfoldable pub select : Profile → ℕ → ℕ → Exec ℕ
  select p start_port max_attempts = do
    _ ← lift (validate_selection p start_port max_attempts)
    select_from p (exhausted start_port max_attempts) (min max_attempts (65536 - start_port))
        start_port
