-- ===== src/Domain/Snapshot.antt =====
-- app/domain/supervisor.py: what a supervisor publishes. The texts of `message` and the time
-- `updated_at` are left out; a delay is a number of seconds.
use remote_ai_bridge.Prelude.{ℕ, String, Bool, true, false, Option, none}

pub data SupervisorState : Type 0 where
  starting connecting ready degraded stopping stopped failed unsupervised : SupervisorState

abbrev pub is_stopped : SupervisorState → Bool
is_stopped stopped = true
is_stopped _ = false

abbrev pub is_failed : SupervisorState → Bool
is_failed failed = true
is_failed _ = false

pub record SupervisorSnapshot : Type 0 where
  pub profile_name : String
  pub state : SupervisorState
  pub attempt : ℕ
  pub error_code : Option String
  pub retry_in_seconds : Option ℕ
  pub pid : Option ℕ
  pub tunnel_id : Option String
  pub remote_port : Option ℕ
  pub last_successful_probe_at : Option String
  pub suggested_port : Option ℕ
  pub supervised : Bool
  pub runtime_present : Bool
  pub process_alive : Option Bool

-- the defaults of the dataclass
abbrev pub blank : String → SupervisorState → SupervisorSnapshot
blank name state = record {
  profile_name = name;
  state = state;
  attempt = 0;
  error_code = none;
  retry_in_seconds = none;
  pid = none;
  tunnel_id = none;
  remote_port = none;
  last_successful_probe_at = none;
  suggested_port = none;
  supervised = true;
  runtime_present = false;
  process_alive = none;
}
