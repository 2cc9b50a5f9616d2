-- ===== src/Services/Runtime/Unsupervised.antt =====
-- The parts of app/services/runtime_manager.py that work on a profile which no thread of the program
-- supervises: `status`, `_stop_unsupervised`, and what `shutdown` makes of a worker that finished.
-- What that worker's supervisor published last is an argument.
pub mod Laws
pub mod Others
pub mod Shutdown
use remote_ai_bridge.Prelude.{
  ℕ, String, Bool, true, false, not, ◌&&◌, Option, none, some, List, [], ◌∷◌, is_some, or_else, all,
  if◌then◌else◌,
}
use remote_ai_bridge.Domain.Errors.{Exn, RabError, Result, ok, raised, rab, profile_lock}
use remote_ai_bridge.Domain.Health.{CheckResult, passed}
use remote_ai_bridge.Domain.Runtime.{RuntimeState}
use remote_ai_bridge.Domain.Snapshot.{
  SupervisorSnapshot, SupervisorState, stopped, failed, unsupervised, blank, is_stopped,
}
use remote_ai_bridge.Exec.{Env, Exec, pure, raise, catch, given, ◌>>=◌, ◌>>◌}
use remote_ai_bridge.Infrastructure.Inspector.{matches}
use remote_ai_bridge.Infrastructure.Store.{load_runtime, save_runtime, supervisor_lock}
use remote_ai_bridge.Services.Profiles.{get_profile}
use remote_ai_bridge.Services.Tunnel.{disconnect}

pub record RuntimeStopResult : Type 0 where
  pub profile_name : String
  pub stop_requested : Bool
  pub worker_exited : Bool
  pub snapshot : SupervisorSnapshot

-- a snapshot that says `supervised=False`
abbrev pub unwatched : String → SupervisorState → SupervisorSnapshot
unwatched name state = record (blank name state) { supervised = false }

-- what the recorded state says of the process
abbrev pub evidence :
    String → SupervisorState → Option String → RuntimeState → Bool → SupervisorSnapshot
evidence name state code r alive = record (unwatched name state) {
  error_code = code;
  pid = some r.pid;
  tunnel_id = some r.tunnel_id;
  remote_port = some r.remote_port;
  last_successful_probe_at = r.last_successful_probe_at;
  runtime_present = true;
  process_alive = some alive;
}

abbrev pub exited_with : String → SupervisorSnapshot → RuntimeStopResult
exited_with name snapshot = record {
  profile_name = name;
  stop_requested = true;
  worker_exited = true;
  snapshot = snapshot;
}

abbrev pub already_stopped : String → RuntimeStopResult
already_stopped name = record {
  profile_name = name;
  stop_requested = false;
  worker_exited = true;
  snapshot = unwatched name stopped;
}

-- `SupervisorSnapshot(profile_name=name, state=FAILED, error_code=code, runtime_present=…)`
abbrev pub failed_with : String → String → Bool → RuntimeStopResult
failed_with name code present =
    exited_with name
      (record (unwatched name failed) { error_code = some code; runtime_present = present })

-- the recorded process is not there, or another one
abbrev pub mismatched : String → RuntimeState → RuntimeStopResult
mismatched name state =
    exited_with name (evidence name failed (some "PROCESS_IDENTITY_MISMATCH") state false)

module _ (env : Env) where
  -- `if self.store.load_runtime(name) is None: self.store.save_runtime(state)`
  unfoldable pub retain : String → RuntimeState → Exec (Unit {0})
  retain name state = do
    found ← load_runtime env name
    given found (save_runtime env state) (λ _. pure tt)

  -- the process was not stopped, and its evidence stays
  unfoldable pub stop_failed : String → RuntimeState → String → Exec RuntimeStopResult
  stop_failed name state code = do
    retain name state
    alive ← matches env state
    pure (exited_with name (evidence name failed (some code) state alive))

  -- after `disconnect` returned or raised
  unfoldable pub stop_outcome : String → RuntimeState → Result CheckResult → Exec RuntimeStopResult
  stop_outcome name state (raised e) = stop_failed name state "PROCESS_STOP_FAILED"
  stop_outcome name state (ok result) =
      if passed result
      then pure (exited_with name (unwatched name stopped))
      else stop_failed name state (or_else result.error_code "PROCESS_STOP_FAILED")

  unfoldable pub stop_recorded : String → RuntimeState → Exec RuntimeStopResult
  stop_recorded name state = do
    owned ← matches env state
    if not owned then pure (mismatched name state) else do
      outcome ← catch (do result ← disconnect env name; pure (ok result)) (λ e. pure (raised e))
      stop_outcome name state outcome

  unfoldable pub stop_found : String → Option RuntimeState → Exec RuntimeStopResult
  stop_found name none = pure (already_stopped name)
  stop_found name (some state) = stop_recorded name state

  -- the part of `_stop_unsupervised` under the lock
  unfoldable pub stop_locked : String → Exec RuntimeStopResult
  stop_locked name = do found ← load_runtime env name; stop_found name found

  -- `except ProfileLockError`
  unfoldable pub when_busy : String → Exn → Exec RuntimeStopResult
  when_busy name profile_lock = do
    found ← load_runtime env name
    pure (failed_with name "PROFILE_BUSY" (is_some found))
  when_busy name e = raise e

  unfoldable pub stop_unsupervised : String → Exec RuntimeStopResult
  stop_unsupervised name = do
    profile ← get_profile env name
    catch (supervisor_lock env name (stop_locked name)) (when_busy name)

  -- the second part of `status`, for a profile without a worker
  unfoldable pub status_unsupervised : String → Exec SupervisorSnapshot
  status_unsupervised name = do
    profile ← get_profile env name
    found ← load_runtime env name
    given found (pure (unwatched name unsupervised))
        λ state. do alive ← matches env state; pure (evidence name unsupervised none state alive)

  -- `status`, given the profile's worker where it has one: what its supervisor published last, and
  -- whether it finished
  unfoldable pub status : String → Option (SupervisorSnapshot × Bool) → Exec SupervisorSnapshot
  status name none = status_unsupervised name
  status name (some (snapshot, finished)) = pure (record snapshot { supervised = not finished })

  -- `except RABError`
  unfoldable pub when_refused : String → Bool → Exn → Exec RuntimeStopResult
  when_refused name present (rab e) = pure (failed_with name e.code present)
  when_refused name present e = raise e

  -- `_shutdown_unsupervised`, given what `_begin_profile_stop` answered. Its end in the registry is
  -- `end_guarded`.
  unfoldable pub shutdown_unsupervised : String → Bool → Result (Unit {0}) → Exec RuntimeStopResult
  shutdown_unsupervised name present (raised e) = when_refused name present e
  shutdown_unsupervised name present (ok _) =
      catch (stop_unsupervised name) (when_refused name present)

  -- a worker that finished, given what its supervisor published last and whether a stop of the
  -- profile was in progress
  unfoldable pub settle_finished :
      String
      → SupervisorSnapshot
      → Result (Unit {0})
      → Result (Option RuntimeState)
      → Exec RuntimeStopResult
  settle_finished name snapshot begun (raised e) =
      pure (failed_with name "RUNTIME_STATE_UNAVAILABLE" false)
  settle_finished name snapshot begun (ok found) =
      if is_stopped snapshot.state && not (is_some found)
      then pure (exited_with name (record snapshot { supervised = false }))
      else shutdown_unsupervised name (is_some found) begun

  -- the check for a runtime state, whose failure is caught
  unfoldable pub checked_runtime : String → Exec (Result (Option RuntimeState))
  checked_runtime name =
      catch (do found ← load_runtime env name; pure (ok found)) (λ e. pure (raised e))

  unfoldable pub shutdown_finished :
      String → SupervisorSnapshot → Result (Unit {0}) → Exec RuntimeStopResult
  shutdown_finished name snapshot begun = do
    found ← checked_runtime name
    settle_finished name snapshot begun found

-- A worker as `shutdown` finds it when it has waited for it.
pub record Waited : Type 0 where
  pub name : String
  pub is_finished : Bool
  pub snapshot : SupervisorSnapshot
  pub begun : Result (Unit {0})

module _ (env : Env) where
  unfoldable pub shutdown_one : Waited → Exec RuntimeStopResult
  shutdown_one w =
      if w.is_finished
      then shutdown_finished env w.name w.snapshot w.begun
      else pure (record {
        profile_name = w.name;
        stop_requested = true;
        worker_exited = false;
        snapshot = w.snapshot;
      })

  -- the loop of `shutdown`
  unfoldable pub shutdown_all : List Waited → Exec (List RuntimeStopResult)
  shutdown_all [] = pure []
  shutdown_all (w ∷ ws) = do
    result ← shutdown_one w
    results ← shutdown_all ws
    pure (result ∷ results)

-- `RuntimeShutdownResult.completed`
unfoldable pub completed : List RuntimeStopResult → Bool
completed results = all (λ r. r.worker_exited && is_stopped r.snapshot.state) results
