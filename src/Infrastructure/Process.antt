-- ===== src/Infrastructure/Process.antt =====
-- app/infrastructure/process_runner.py: commands run to their end, and the SSH process that the
-- program starts and keeps. What the processes print is text; their output files are not modelled.
use remote_ai_bridge.Prelude.{
  ℕ, zero, suc, String, Bool, true, false, not, ◌&&◌, Option, none, some, List, nat_eq, is_some,
  if◌then◌else◌,
}
use remote_ai_bridge.Domain.Errors.{os_error}
use remote_ai_bridge.Domain.Runtime.{RuntimeState}
use remote_ai_bridge.Exec.{
  Env, Exec, Completed, exited, timeout, Spawned, process, ran, spawned, child_polled,
  child_stopped, asked, pure, raise, ask, ◌>>=◌, ◌>>◌,
}

pub record ProcessResult : Type 0 where
  pub exit_code : Option ℕ
  pub stdout : String
  pub stderr : String
  pub error_code : Option String
  pub timed_out : Bool

abbrev is_zero : Option ℕ → Bool
is_zero none = false
is_zero (some n) = nat_eq n 0

unfoldable pub succeeded : ProcessResult → Bool
succeeded r = not r.timed_out && not (is_some r.error_code) && is_zero r.exit_code

abbrev failure : String → ProcessResult
failure code = record {
  exit_code = none;
  stdout = "";
  stderr = "";
  error_code = some code;
  timed_out = false;
}

unfoldable pub result_of : Completed → ProcessResult
result_of (exited n out err) = record {
  exit_code = some n;
  stdout = out;
  stderr = err;
  error_code = if nat_eq n 0 then none else some "PROCESS_EXIT_NONZERO";
  timed_out = false;
}
result_of (timeout out err) = record {
  exit_code = none;
  stdout = out;
  stderr = err;
  error_code = some "PROCESS_TIMEOUT";
  timed_out = true;
}
result_of Completed.missing = failure "EXECUTABLE_NOT_FOUND"
result_of Completed.refused = failure "PROCESS_START_FAILED"

-- A started process, or why it did not start.
pub data Started : Type 0 where
  managed : ℕ → Started
  not_started : String → Started

unfoldable pub started_of : Spawned → Started
started_of (process pid) = managed pid
started_of Spawned.missing = not_started "EXECUTABLE_NOT_FOUND"
started_of Spawned.refused = not_started "PROCESS_START_FAILED"

module _ (env : Env) where
  -- ProcessRunner.run
  unfoldable pub run : List String → Exec ProcessResult
  run argv = do completed ← ask (λ t. env.run t argv) (ran argv); pure (result_of completed)

  -- ProcessRunner.start_managed
  unfoldable pub start_managed : List String → Exec Started
  start_managed argv = do
    result ← ask (λ t. env.spawn t argv) (spawned argv)
    pure (started_of result)

  -- ManagedProcess.poll: the process has exited
  unfoldable pub poll_child : ℕ → Exec Bool
  poll_child pid = ask (λ t. env.child_exited t pid) (child_polled pid)

  -- `terminate` and `kill` on the program's own child; `state` only says what the child is for
  unfoldable pub signal_child : ℕ → Option RuntimeState → Exec (Unit {0})
  signal_child pid state = ask (λ t. tt) (λ _. child_stopped pid state)

  -- ManagedProcess.stop; a `wait` asks whether the process exited within its timeout
  unfoldable pub stop_child : ℕ → Option RuntimeState → Exec (Unit {0})
  stop_child pid state = do
    gone ← poll_child pid
    (if gone then pure tt else signal_child pid state)
    waited ← poll_child pid
    if waited then pure tt else do
      signal_child pid state
      killed ← poll_child pid
      if killed then pure tt else raise os_error

  unfoldable pub early_exit : ℕ → ℕ → Exec Bool
  early_exit pid zero = pure false
  early_exit pid (suc rounds) = do
    gone ← poll_child pid
    if gone then pure true else early_exit pid rounds

  -- `wait_for_start`: the process exited within the startup window
  unfoldable pub wait_for_start : ℕ → Exec Bool
  wait_for_start pid = do rounds ← ask env.rounds (λ _. asked); early_exit pid rounds
