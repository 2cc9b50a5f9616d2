-- ===== src/Invariant/Runtime.antt =====
-- What the runtime manager does on a profile that is not supervised keeps the invariant.
use remote_ai_bridge.Prelude.{ℕ, String, Bool, Option, none, some, List, [], ◌∷◌}
use remote_ai_bridge.Domain.Errors.{
  Exn, Result, ok, raised, rab, profile_validation, profile_not_found, profile_lock, file_exists,
  tunnel, port_conflict, value_error, os_error,
}
use remote_ai_bridge.Domain.Health.{CheckResult}
use remote_ai_bridge.Domain.Runtime.{RuntimeState}
use remote_ai_bridge.Domain.Snapshot.{SupervisorSnapshot}
use remote_ai_bridge.Exec.{Env}
use remote_ai_bridge.Exec.Keeps.{Keeps-bind, Keeps-pure}
use remote_ai_bridge.Invariant.Trace.{Sound, trace_rules}
use remote_ai_bridge.Invariant.Files.{file_rules}
use remote_ai_bridge.Invariant.Tunnels.{Sound-disconnect}
use remote_ai_bridge.Services.Profiles.{get_profile}
use remote_ai_bridge.Services.Runtime.Unsupervised.{
  Waited, retain, stop_failed, stop_outcome, stop_recorded, stop_found, stop_locked, when_busy,
  stop_unsupervised, status_unsupervised, status, when_refused, shutdown_unsupervised,
  settle_finished, checked_runtime, shutdown_finished, shutdown_one, shutdown_all,
}

module _ (env : Env) (k : ℕ) where
  Sound-get_profile : (name : String) → Sound env k (get_profile env name)
  unfolding get_profile
  Sound-get_profile name = search (trace_rules, file_rules)

  Sound-retain : (name : String) (r : RuntimeState) → Sound env k (retain env name r)
  unfolding retain
  Sound-retain name r = search (trace_rules, file_rules) depth 8

  Sound-stop_failed :
      (name : String) (r : RuntimeState) (code : String) → Sound env k (stop_failed env name r code)
  unfolding stop_failed
  Sound-stop_failed name r code = search (trace_rules, Sound-retain) depth 8

  Sound-stop_outcome :
      (name : String) (r : RuntimeState) (c : Result CheckResult)
      → Sound env k (stop_outcome env name r c)
  unfolding stop_outcome
  Sound-stop_outcome name r (ok c) = search (trace_rules, Sound-stop_failed)
  Sound-stop_outcome name r (raised e) = Sound-stop_failed name r _

  Sound-stop_recorded : (name : String) (r : RuntimeState) → Sound env k (stop_recorded env name r)
  unfolding stop_recorded
  Sound-stop_recorded name r = search (trace_rules, Sound-disconnect, Sound-stop_outcome) depth 10

  Sound-stop_found : (name : String) (o : Option RuntimeState) → Sound env k (stop_found env name o)
  unfolding stop_found
  Sound-stop_found name none = Keeps-pure _
  Sound-stop_found name (some r) = Sound-stop_recorded name r

  Sound-stop_locked : (name : String) → Sound env k (stop_locked env name)
  unfolding stop_locked
  Sound-stop_locked name = search (trace_rules, file_rules, Sound-stop_found) depth 8

  Sound-when_busy : (name : String) (e : Exn) → Sound env k (when_busy env name e)
  unfolding when_busy
  Sound-when_busy name profile_lock = search (trace_rules, file_rules)
  Sound-when_busy name (rab e) = search trace_rules
  Sound-when_busy name (profile_validation t) = search trace_rules
  Sound-when_busy name profile_not_found = search trace_rules
  Sound-when_busy name file_exists = search trace_rules
  Sound-when_busy name (tunnel t) = search trace_rules
  Sound-when_busy name (port_conflict p o) = search trace_rules
  Sound-when_busy name value_error = search trace_rules
  Sound-when_busy name os_error = search trace_rules

  pub Sound-stop_unsupervised : (name : String) → Sound env k (stop_unsupervised env name)
  unfolding stop_unsupervised
  Sound-stop_unsupervised name =
      search (trace_rules, file_rules, Sound-get_profile, Sound-stop_locked, Sound-when_busy) depth
        8

  Sound-status_unsupervised : (name : String) → Sound env k (status_unsupervised env name)
  unfolding status_unsupervised
  Sound-status_unsupervised name = search (trace_rules, file_rules, Sound-get_profile) depth 9

  pub Sound-status :
      (name : String) (o : Option (SupervisorSnapshot × Bool)) → Sound env k (status env name o)
  unfolding status
  Sound-status name none = Sound-status_unsupervised name
  Sound-status name (some w) = Keeps-pure _

  Sound-when_refused :
      (name : String) (b : Bool) (e : Exn) → Sound env k (when_refused env name b e)
  unfolding when_refused
  Sound-when_refused name b (rab e) = search trace_rules
  Sound-when_refused name b profile_lock = search trace_rules
  Sound-when_refused name b (profile_validation t) = search trace_rules
  Sound-when_refused name b profile_not_found = search trace_rules
  Sound-when_refused name b file_exists = search trace_rules
  Sound-when_refused name b (tunnel t) = search trace_rules
  Sound-when_refused name b (port_conflict p o) = search trace_rules
  Sound-when_refused name b value_error = search trace_rules
  Sound-when_refused name b os_error = search trace_rules

  Sound-shutdown_unsupervised :
      (name : String) (b : Bool) (r : Result Unit)
      → Sound env k (shutdown_unsupervised env name b r)
  unfolding shutdown_unsupervised
  Sound-shutdown_unsupervised name b (raised e) = Sound-when_refused name b e
  Sound-shutdown_unsupervised name b (ok _) =
      search (trace_rules, Sound-stop_unsupervised, Sound-when_refused)

  Sound-settle_finished :
      (name : String) (n : SupervisorSnapshot) (r : Result Unit) (f : Result (Option RuntimeState))
      → Sound env k (settle_finished env name n r f)
  unfolding settle_finished
  Sound-settle_finished name n r (raised e) = Keeps-pure _
  Sound-settle_finished name n r (ok f) = search (trace_rules, Sound-shutdown_unsupervised)

  Sound-checked_runtime : (name : String) → Sound env k (checked_runtime env name)
  unfolding checked_runtime
  Sound-checked_runtime name = search (trace_rules, file_rules) depth 8

  Sound-shutdown_finished :
      (name : String) (n : SupervisorSnapshot) (r : Result Unit)
      → Sound env k (shutdown_finished env name n r)
  unfolding shutdown_finished
  Sound-shutdown_finished name n r =
      search (trace_rules, Sound-checked_runtime, Sound-settle_finished)

  pub Sound-shutdown_one : (w : Waited) → Sound env k (shutdown_one env w)
  unfolding shutdown_one
  Sound-shutdown_one w = search (trace_rules, Sound-shutdown_finished)

  pub Sound-shutdown_all : (ws : List Waited) → Sound env k (shutdown_all env ws)
  unfolding shutdown_all
  Sound-shutdown_all [] = Keeps-pure []
  Sound-shutdown_all (w ∷ ws) =
      Keeps-bind _ _ (Sound-shutdown_one w)
        λ _. Keeps-bind _ _ (Sound-shutdown_all ws) (λ _. Keeps-pure _)
