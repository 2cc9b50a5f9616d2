-- ===== src/Services/Supervisor/Publish.antt =====
-- `_publish`, `_backoff` and the policy of app/services/tunnel_supervisor.py. Delays are whole
-- seconds.
use remote_ai_bridge.Prelude.{
  ℕ, zero, suc, ◌-◌, String, Bool, true, Option, none, some, List, [], ◌∷◌, length, is_some,
  when_some,
}
use remote_ai_bridge.Domain.Runtime.{RuntimeState, ActiveTunnel}
use remote_ai_bridge.Domain.Snapshot.{SupervisorState, SupervisorSnapshot}
use remote_ai_bridge.Exec.{Env, Exec, pure, modify, given, ◌>>=◌, ◌>>◌}
use remote_ai_bridge.Infrastructure.Store.{load_runtime}
use remote_ai_bridge.Services.Probe.{min}

pub record Policy : Type 0 where
  pub backoff_seconds : List ℕ
  pub health_interval_seconds : ℕ

-- `values[index]`; 0 stands for an IndexError
unfoldable pub get_or : List ℕ → ℕ → ℕ
get_or [] i = 0
get_or (x ∷ xs) zero = x
get_or (x ∷ xs) (suc i) = get_or xs i

unfoldable pub backoff : Policy → ℕ → ℕ
unfolding get_or
backoff policy index = get_or policy.backoff_seconds (min index (length policy.backoff_seconds - 1))

-- the keyword arguments of `_publish`
pub record Report : Type 0 where
  pub attempt : ℕ
  pub error_code : Option String
  pub retry_in_seconds : Option ℕ
  pub suggested_port : Option ℕ
  pub active : Option ActiveTunnel
  pub process_alive : Option Bool

abbrev pub report : Report
report = record {
  attempt = 0;
  error_code = none;
  retry_in_seconds = none;
  suggested_port = none;
  active = none;
  process_alive = none;
}

abbrev probe_time : Option RuntimeState → Option String
probe_time none = none
probe_time (some s) = s.last_successful_probe_at

unfoldable pub snapshot_of :
    String → SupervisorState → Report → Option RuntimeState → SupervisorSnapshot
snapshot_of name state r runtime = record {
  profile_name = name;
  state = state;
  attempt = r.attempt;
  error_code = r.error_code;
  retry_in_seconds = r.retry_in_seconds;
  pid = when_some (λ (s : RuntimeState). s.pid) runtime;
  tunnel_id = when_some (λ (s : RuntimeState). s.tunnel_id) runtime;
  remote_port = when_some (λ (s : RuntimeState). s.remote_port) runtime;
  last_successful_probe_at = probe_time runtime;
  suggested_port = r.suggested_port;
  supervised = true;
  runtime_present = is_some runtime;
  process_alive = r.process_alive;
}

unfoldable pub set_active : Option ActiveTunnel → Exec (Unit {0})
set_active t = modify (λ s. record s { active = t })

module _ (env : Env) where
  unfoldable pub shown_runtime : String → Option ActiveTunnel → Exec (Option RuntimeState)
  shown_runtime name t = given t (load_runtime env name) λ active. pure (some active.state)

  unfoldable pub publish : String → SupervisorState → Report → Exec SupervisorSnapshot
  publish name state r = do
    runtime ← shown_runtime name r.active
    let snapshot = snapshot_of name state r runtime
    modify (λ s. record s { snapshots = snapshot ∷ s.snapshots })
    pure snapshot
