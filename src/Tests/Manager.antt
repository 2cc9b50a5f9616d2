-- ===== src/Tests/Manager.antt =====
-- Runs of the runtime manager and of the routes over it.
use remote_ai_bridge.Prelude.{
  ℕ, String, ◌≡◌, ◌≢◌, ◌⊎◌, ◌↔◌, ◌≤◌, refl, inl, inr, ◌==◌, get, length, true, false, Option, none,
  some, List, [], ◌∷◌, or_else, arith,
}
use remote_ai_bridge.Domain.Errors.{ok, RabError}
use remote_ai_bridge.Domain.Registry.{Worker}
use remote_ai_bridge.Domain.Health.{passed}
use remote_ai_bridge.Domain.Snapshot.{SupervisorSnapshot, blank, stopped, failed}
use remote_ai_bridge.Exec.{Sys}
use remote_ai_bridge.Exec.Yields.{Holds}
use remote_ai_bridge.Infrastructure.Store.{save_profile, save_runtime}
use remote_ai_bridge.Invariant.Trace.{IsSound}
use remote_ai_bridge.Invariant.Files.{Sound-save_profile, Sound-save_runtime}
use remote_ai_bridge.Invariant.Reachable.{Reachable, fresh, Reachable-IsSound}
use remote_ai_bridge.Services.Doctor.{diagnose, diagnose-passed}
use remote_ai_bridge.Services.Runtime.Threads.{
  Thread, Machine, idle, start, begin_stop, shutdown, Step, Reach, initial, later, started,
}
use remote_ai_bridge.Services.Runtime.Threads.Laws.{In, running as running_threads}
use remote_ai_bridge.Services.Runtime.Threads.Safety.{Reach-single}
use remote_ai_bridge.Services.Runtime.Threads.Closing.{start-refused, Step-closed, begin_stop-told}
use remote_ai_bridge.Services.Runtime.Unsupervised.{
  Waited, stop_unsupervised, shutdown_all, completed,
}
use remote_ai_bridge.Services.Runtime.Unsupervised.Laws.{IsTruthful, stop_unsupervised-IsTruthful}
use remote_ai_bridge.Services.Runtime.Unsupervised.Shutdown.{
  Distinct, AllCleared, shutdown-AllCleared,
}
use remote_ai_bridge.Api.{status_code, stop_failure_error, disconnect_route}
use remote_ai_bridge.Api.Laws.{
  cause, IsTransient, stop_failure_error-IsTold, disconnect_route-stopped,
}
use remote_ai_bridge.Tests.{cfg, dev, recorded, running}

abbrev started_dev : Machine
started_dev = start "dev" idle

abbrev thread : Thread
thread = record { id = 0; profile = "dev"; finished = false }

reached : Reach started_dev
reached = later initial (started idle "dev")

is_there : In thread started_dev.threads
unfolding start remote_ai_bridge.Services.Runtime.Threads.launch
    remote_ai_bridge.Services.Runtime.Threads.live_worker
    remote_ai_bridge.Domain.Registry.start_region get
is_there = inl refl

not_stopping :
    remote_ai_bridge.Domain.Registry.contains_name "dev" started_dev.registry.stopping ≡ false
unfolding remote_ai_bridge.Domain.Registry.contains_name start
    remote_ai_bridge.Domain.Registry.start_region get
not_stopping = refl

Reach-single_example :
    (running_threads "dev" started_dev.threads ≤ 1)
    × ((t : Thread)
        → In t started_dev.threads
        → t.finished ≡ false
        → (w : Worker) × (get t.profile started_dev.registry.workers ≡ some w)
          × (w.id ≡ t.id)
          × (started_dev.registry.closed ≡ true → w.stop_event ≡ true))
Reach-single_example = Reach-single started_dev "dev" reached

begin_stop-told_example :
    (w : Worker) × (get "dev" (begin_stop "dev" started_dev).registry.workers ≡ some w)
    × (w.id ≡ 0)
    × (w.stop_event ≡ true)
begin_stop-told_example = begin_stop-told started_dev thread reached is_there refl not_stopping

is_closed : (shutdown started_dev).registry.closed ≡ true
unfolding shutdown remote_ai_bridge.Domain.Registry.close
is_closed = refl

refused_now :
    (remote_ai_bridge.Prelude.◌||◌ (shutdown started_dev).registry.closed (
      remote_ai_bridge.Domain.Registry.contains_name "new"
        (shutdown started_dev).registry.stopping))
    ≡ true
unfolding shutdown remote_ai_bridge.Domain.Registry.close
refused_now = refl

start-refused_example : start "new" (shutdown started_dev) ≡ shutdown started_dev
start-refused_example = start-refused (shutdown started_dev) "new" refused_now

Step-closed_example :
    ((start "new" (shutdown started_dev)).registry.closed ≡ true)
    × (length (start "new" (shutdown started_dev)).threads ≡ length (shutdown started_dev).threads)
Step-closed_example = Step-closed (started (shutdown started_dev) "new") is_closed

-- a profile and the runtime state of a process that still runs
abbrev recorded_dev : Sys
recorded_dev = (save_runtime running recorded (save_profile running dev true fresh).1).1

recorded_dev-IsSound : IsSound running 0 recorded_dev
recorded_dev-IsSound = (Sound-save_runtime running 0 recorded).at _ (
    (Sound-save_profile running 0 dev true).at fresh
      (Reachable-IsSound running cfg fresh Reachable.started))

stop_unsupervised-IsTruthful_example :
    Holds (IsTruthful "dev") (stop_unsupervised running "dev" recorded_dev)
stop_unsupervised-IsTruthful_example =
    stop_unsupervised-IsTruthful running "dev" recorded_dev recorded_dev-IsSound

abbrev waited : Waited
waited = record { name = "dev"; is_finished = true; snapshot = blank "dev" failed; begun = ok tt }

distinct : Distinct (waited ∷ [])
unfolding Distinct
distinct = (tt, tt)

shutdown-AllCleared_example :
    Holds
      (λ rs t. completed rs ≡ true → AllCleared (waited ∷ []) t)
      (shutdown_all running (waited ∷ []) recorded_dev)
shutdown-AllCleared_example =
    shutdown-AllCleared running (waited ∷ []) recorded_dev recorded_dev-IsSound distinct

disconnect_route-stopped_example :
    Holds
      (λ n t. (n.state ≡ stopped) × (get "dev" t.runtimes ≡ none))
      (disconnect_route (stop_unsupervised running) "dev" recorded_dev)
disconnect_route-stopped_example =
    disconnect_route-stopped running "dev" recorded_dev recorded_dev-IsSound

abbrev not_stopped : SupervisorSnapshot
not_stopped = record (blank "dev" failed) { error_code = some "PROCESS_STOP_FAILED" }

stop_failure_error-IsTold_example :
    (e : RabError) × (stop_failure_error not_stopped ≡ ok e)
    × (cause e ≡ "PROCESS_STOP_FAILED")
    × ((e.retryable ≡ true) ↔ IsTransient "PROCESS_STOP_FAILED")
    × ((status_code e.code ≡ 409) ⊎ (status_code e.code ≡ 503) ⊎ (status_code e.code ≡ 500))
stop_failure_error-IsTold_example = stop_failure_error-IsTold not_stopped refl

diagnose-passed_example :
    Holds
      (λ r _.
        passed r.remote_endpoint ≡ true
        → (passed r.ssh ≡ true) × (passed r.tunnel ≡ true) × (passed r.remote_listener ≡ true))
      (diagnose running cfg dev recorded_dev)
diagnose-passed_example = diagnose-passed running cfg dev recorded_dev
