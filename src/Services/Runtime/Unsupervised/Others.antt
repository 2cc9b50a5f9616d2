-- ===== src/Services/Runtime/Unsupervised/Others.antt =====
-- Stopping one profile of app/services/runtime_manager.py brings back no evidence of another one.
use remote_ai_bridge.Prelude.{
  String, ◌≡◌, ◌≢◌, Bool, Option, none, some, get, put, remove, get-put, get-remove, arith, eq_iff,
}
use remote_ai_bridge.Domain.Errors.{
  Exn, Result, ok, raised, rab, profile_validation, profile_not_found, profile_lock, file_exists,
  tunnel, port_conflict, value_error, os_error,
}
use remote_ai_bridge.Domain.Health.{CheckResult}
use remote_ai_bridge.Domain.Runtime.{RuntimeState}
use remote_ai_bridge.Domain.Snapshot.{SupervisorSnapshot}
use remote_ai_bridge.Exec.{Env, Sys, Exec, Trace, pure, modify, file_operation}
use remote_ai_bridge.Infrastructure.Inspector.{matches, terminate_owned}
use remote_ai_bridge.Exec.Keeps.{Keeps, Keeps-modify, Keeps-if, Keeps-pure, keeps_rules}
use remote_ai_bridge.Exec.Yields.{Keeps-bind-Yields}
use remote_ai_bridge.Services.Profiles.{get_profile}
use remote_ai_bridge.Services.Runtime.Unsupervised.Laws.{loaded, get_profile-Keeps}
use remote_ai_bridge.Infrastructure.Inspector.Reads.{matches-Keeps, terminate_owned-Keeps}
use remote_ai_bridge.Infrastructure.Store.{
  path_of, save_runtime, clear_runtime, load_runtime, supervisor_lock,
}
use remote_ai_bridge.Infrastructure.Store.Reads.{
  path_of-Keeps, file_operation-Keeps, load_runtime-Keeps, supervisor_lock-Keeps,
}
use remote_ai_bridge.Services.Tunnel.{disconnect, disconnect_state}
use remote_ai_bridge.Services.Runtime.Unsupervised.{
  retain, stop_failed, stop_outcome, stop_recorded, stop_found, stop_locked, when_busy,
  stop_unsupervised, Waited, when_refused, shutdown_unsupervised, settle_finished, checked_runtime,
  shutdown_finished, shutdown_one,
}

-- no evidence of `other`, and that of `name` is its own
pub record IsApart (other name : String) (s : Sys) : Type 0 where
  pub absent : get other s.runtimes ≡ none
  pub own : (r : RuntimeState) → get name s.runtimes ≡ some r → r.profile_name ≡ name

module _ (env : Env) (other name : String) where
  stable :
      (s : Sys) (t : Trace) → IsApart other name s → IsApart other name (record s { trace = t })
  stable s t h = record { absent = h.absent; own = h.own }

  abbrev Apart : {A : Type 0} → Exec A → Type 0
  Apart m = Keeps (IsApart other name) m

  Apart-path_of : Apart (path_of name)
  Apart-path_of = path_of-Keeps env (IsApart other name) stable name

  Apart-file_operation : Apart (file_operation env)
  Apart-file_operation = file_operation-Keeps env (IsApart other name) stable

  Apart-load_runtime : Apart (load_runtime env name)
  Apart-load_runtime = load_runtime-Keeps env (IsApart other name) stable name

  Apart-matches : (r : RuntimeState) → Apart (matches env r)
  Apart-matches r = matches-Keeps env (IsApart other name) stable r

  Apart-terminate_owned : (r : RuntimeState) → Apart (terminate_owned env r)
  Apart-terminate_owned r = terminate_owned-Keeps env (IsApart other name) stable r

  Apart-remove : Apart (modify (λ s. record s { runtimes = remove name s.runtimes }))
  Apart-remove = Keeps-modify _ λ s h. record {
    absent = ground (arith, get-remove name other s.runtimes, h.absent);
    own = λ r e. ground (arith, get-remove name name s.runtimes, eq_iff name name, e);
  }

  ruleset apart_rules = (
    keeps_rules, Apart-path_of, Apart-file_operation, Apart-load_runtime, Apart-matches,
    Apart-terminate_owned, Apart-remove,
  )

  Apart-clear_runtime : Apart (clear_runtime env name)
  unfolding clear_runtime
  Apart-clear_runtime = search apart_rules depth 8

  Apart-disconnect_state : (r : RuntimeState) → Apart (disconnect_state env name r)
  unfolding disconnect_state
  Apart-disconnect_state r = search (apart_rules, Apart-clear_runtime) depth 12

  Apart-disconnect : Apart (disconnect env name)
  unfolding disconnect
  Apart-disconnect = search (apart_rules, Apart-disconnect_state) depth 8

  module _ (differs : name ≢ other) where
    module _ (state : RuntimeState) (own : state.profile_name ≡ name) where
      IsApart-put :
          (s : Sys)
          → IsApart other name s
          → IsApart other name (record s { runtimes = put state.profile_name state s.runtimes })
      IsApart-put s h = record {
        absent = ground (
          arith,
          get-put state.profile_name other state s.runtimes,
          h.absent,
          own,
          differs,
          eq_iff state.profile_name other,
        );
        own = λ r e. ground (
          arith,
          get-put state.profile_name name state s.runtimes,
          eq_iff state.profile_name name,
          e,
          own,
        );
      }

      Apart-put :
          Apart (modify (λ s. record s { runtimes = put state.profile_name state s.runtimes }))
      Apart-put = Keeps-modify _ IsApart-put

      Apart-save_path : Apart (path_of state.profile_name)
      Apart-save_path = path_of-Keeps env (IsApart other name) stable state.profile_name

      Apart-save_runtime : Apart (save_runtime env state)
      unfolding save_runtime
      Apart-save_runtime = search (apart_rules, Apart-save_path, Apart-put) depth 8

      Apart-retain : Apart (retain env name state)
      unfolding retain
      Apart-retain = search (apart_rules, Apart-save_runtime) depth 8

      Apart-stop_failed : (code : String) → Apart (stop_failed env name state code)
      unfolding stop_failed
      Apart-stop_failed code = search (apart_rules, Apart-retain) depth 8

      Apart-stop_outcome : (r : Result CheckResult) → Apart (stop_outcome env name state r)
      unfolding stop_outcome
      Apart-stop_outcome (ok c) = search (apart_rules, Apart-stop_failed) depth 8
      Apart-stop_outcome (raised e) = Apart-stop_failed _

      Apart-stop_recorded : Apart (stop_recorded env name state)
      unfolding stop_recorded
      Apart-stop_recorded = search (apart_rules, Apart-disconnect, Apart-stop_outcome) depth 10

    -- what was loaded is the profile's own state
    Apart-stop_loaded :
        (found : Option RuntimeState) (s : Sys)
        → get name s.runtimes ≡ found
        → IsApart other name s
        → IsApart other name (stop_found env name found s).1
    unfolding stop_found pure
    Apart-stop_loaded none s e h = h
    Apart-stop_loaded (some r) s e h = (Apart-stop_recorded r (h.own r e)).at s h

    Apart-stop_locked : Apart (stop_locked env name)
    unfolding stop_locked
    Apart-stop_locked = Keeps-bind-Yields _ _ Apart-load_runtime (loaded env name) Apart-stop_loaded

    Apart-when_busy : (e : Exn) → Apart (when_busy env name e)
    unfolding when_busy
    Apart-when_busy profile_lock = search apart_rules
    Apart-when_busy (rab e) = search apart_rules
    Apart-when_busy (profile_validation t) = search apart_rules
    Apart-when_busy profile_not_found = search apart_rules
    Apart-when_busy file_exists = search apart_rules
    Apart-when_busy (tunnel t) = search apart_rules
    Apart-when_busy (port_conflict p o) = search apart_rules
    Apart-when_busy value_error = search apart_rules
    Apart-when_busy os_error = search apart_rules

    Apart-get_profile : Apart (get_profile env name)
    Apart-get_profile = get_profile-Keeps env (IsApart other name) stable name

    Apart-lock : Apart (supervisor_lock env name (stop_locked env name))
    Apart-lock = supervisor_lock-Keeps env (IsApart other name) stable name _ Apart-stop_locked

    Apart-stop_unsupervised : Apart (stop_unsupervised env name)
    unfolding stop_unsupervised
    Apart-stop_unsupervised =
        search (apart_rules, Apart-get_profile, Apart-lock, Apart-when_busy) depth 8

    Apart-when_refused : (b : Bool) (e : Exn) → Apart (when_refused env name b e)
    unfolding when_refused
    Apart-when_refused b (rab e) = search apart_rules
    Apart-when_refused b profile_lock = search apart_rules
    Apart-when_refused b (profile_validation t) = search apart_rules
    Apart-when_refused b profile_not_found = search apart_rules
    Apart-when_refused b file_exists = search apart_rules
    Apart-when_refused b (tunnel t) = search apart_rules
    Apart-when_refused b (port_conflict p o) = search apart_rules
    Apart-when_refused b value_error = search apart_rules
    Apart-when_refused b os_error = search apart_rules

    Apart-shutdown_unsupervised :
        (b : Bool) (r : Result Unit) → Apart (shutdown_unsupervised env name b r)
    unfolding shutdown_unsupervised
    Apart-shutdown_unsupervised b (raised e) = Apart-when_refused b e
    Apart-shutdown_unsupervised b (ok _) =
        search (apart_rules, Apart-stop_unsupervised, Apart-when_refused)

    Apart-settle_finished :
        (n : SupervisorSnapshot) (r : Result Unit) (f : Result (Option RuntimeState))
        → Apart (settle_finished env name n r f)
    unfolding settle_finished
    Apart-settle_finished n r (raised e) = Keeps-pure _
    Apart-settle_finished n r (ok f) = search (apart_rules, Apart-shutdown_unsupervised)

    Apart-checked_runtime : Apart (checked_runtime env name)
    unfolding checked_runtime
    Apart-checked_runtime = search apart_rules depth 8

    Apart-shutdown_finished :
        (n : SupervisorSnapshot) (r : Result Unit) → Apart (shutdown_finished env name n r)
    unfolding shutdown_finished
    Apart-shutdown_finished n r = search (apart_rules, Apart-checked_runtime, Apart-settle_finished)

-- the end of one worker brings back no evidence of another profile
pub shutdown_one-IsApart :
    (env : Env) (other : String) (w : Waited)
    → w.name ≢ other
    → Keeps (IsApart other w.name) (shutdown_one env w)
unfolding shutdown_one
shutdown_one-IsApart env other w differs =
    Keeps-if w.is_finished _ _ (Apart-shutdown_finished env other w.name differs w.snapshot w.begun)
      (Keeps-pure _)
