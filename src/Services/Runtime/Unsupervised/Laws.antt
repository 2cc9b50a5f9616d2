-- ===== src/Services/Runtime/Unsupervised/Laws.antt =====
-- What `_stop_unsupervised` of app/services/runtime_manager.py reports is what it leaves behind.
use remote_ai_bridge.Prelude.{
  String, ◌≡◌, refl, sym, ap, ◌⊎◌, inl, inr, true, false, not, Option, none, some, Dict, get,
  get-put_self, is_some, arith,
}
use mathlib.Core.Path.{◌∙◌, subst}
use remote_ai_bridge.Domain.Errors.{
  Exn, Result, ok, raised, rab, profile_validation, profile_not_found, profile_lock, file_exists,
  tunnel, port_conflict, value_error, os_error,
}
use remote_ai_bridge.Domain.Health.{CheckResult, passed}
use remote_ai_bridge.Domain.Runtime.{RuntimeState}
use remote_ai_bridge.Domain.Snapshot.{stopped, failed}
use remote_ai_bridge.Exec.{Env, Sys, Trace}
use remote_ai_bridge.Exec.Keeps.{Keeps, Keeps-catch, Keeps-raise}
use remote_ai_bridge.Exec.Yields.{
  Anything, Holds, Yields, Yields-pure, Yields-modify, Yields-bind, Yields-after, Yields-if_cases,
  Yields-given_cases, Yields-kept, Yields-raise, Yields-catch, Yields-post, Yields-weaken,
  Yields-mono,
}
use remote_ai_bridge.Infrastructure.Inspector.Reads.{matches-Keeps}
use remote_ai_bridge.Infrastructure.Store.{load_runtime, save_runtime}
use remote_ai_bridge.Infrastructure.Store.Reads.{
  load_profile-Keeps, load_runtime-Yields, supervisor_lock-Yields,
}
use remote_ai_bridge.Invariant.Trace.{IsSound}
use remote_ai_bridge.Services.Profiles.{get_profile}
use remote_ai_bridge.Services.Supervisor.Ending.{disconnect-Yields}
use remote_ai_bridge.Services.Runtime.Unsupervised.{
  RuntimeStopResult, retain, stop_failed, stop_outcome, stop_recorded, stop_found, stop_locked,
  when_busy, stop_unsupervised, mismatched, already_stopped, failed_with,
}

-- the result says of the profile's evidence what is on disk
pub record IsTruthful (name : String) (r : RuntimeStopResult) (s : Sys) : Type 0 where
  pub exited : r.worker_exited ≡ true
  pub present : r.snapshot.runtime_present ≡ is_some (get name s.runtimes)
  pub ended : (r.snapshot.state ≡ stopped) ⊎ (r.snapshot.state ≡ failed)
  pub when_stopped : r.snapshot.state ≡ stopped → get name s.runtimes ≡ none

stopped-IsTruthful :
    (name : String) (r : RuntimeStopResult) (s : Sys)
    → r.worker_exited ≡ true
    → r.snapshot.state ≡ stopped
    → r.snapshot.runtime_present ≡ false
    → get name s.runtimes ≡ none
    → IsTruthful name r s
stopped-IsTruthful name r s e f p h = record {
  exited = e;
  present = ground (arith, p, h);
  ended = inl f;
  when_stopped = λ _. h;
}

failed-IsTruthful :
    (name : String) (r : RuntimeStopResult) (s : Sys)
    → r.worker_exited ≡ true
    → r.snapshot.state ≡ failed
    → r.snapshot.runtime_present ≡ is_some (get name s.runtimes)
    → IsTruthful name r s
failed-IsTruthful name r s e f p = record {
  exited = e;
  present = p;
  ended = inr f;
  when_stopped = λ q. ground (arith, f, q);
}

module _ (env : Env) where
  module _ (P : Sys → Type 0)
      (stable : (s : Sys) (t : Trace) → P s → P (record s { trace = t })) where
    pub get_profile-Keeps : (name : String) → Keeps P (get_profile env name)
    unfolding get_profile
    get_profile-Keeps name =
        Keeps-catch _ _ (load_profile-Keeps env P stable name) (λ e. Keeps-raise _)

  save_runtime-Yields :
      (r : RuntimeState)
      → Yields Anything (λ _ s. get r.profile_name s.runtimes ≡ some r) (save_runtime env r)
  unfolding save_runtime
  save_runtime-Yields r = Yields-after _ _ λ _.
      Yields-after _ _
        λ _. Yields-after _ _ λ _. Yields-modify _ (λ s _. get-put_self r.profile_name r s.runtimes)

  module _ (name : String) where
    Present : Sys → Type 0
    Present s = is_some (get name s.runtimes) ≡ true

    Present-stable : (s : Sys) (t : Trace) → Present s → Present (record s { trace = t })
    unfolding Present
    Present-stable s t h = h

    -- what is loaded is what is stored
    pub loaded : Yields Anything (λ r s. get name s.runtimes ≡ r) (load_runtime env name)
    loaded = record {
      at = λ s _.
          (Yields-post _ (λ r s h. ap (get name) h.1 ∙ h.0)
              (load_runtime-Yields env (λ t. t.runtimes ≡ s.runtimes) (λ t _ h. h) name
                s.runtimes)).at
            s (refl, refl);
    }

    module _ (state : RuntimeState) (own : state.profile_name ≡ name) where
      retain-Yields : Yields Anything (λ _ s. Present s) (retain env name state)
      unfolding retain Present
      retain-Yields = Yields-bind _ _ loaded λ found.
          Yields-given_cases found _ _
            (λ _. Yields-weaken _ (
              Yields-post _ (λ _ s h. ap is_some (subst (λ n. get n s.runtimes ≡ some state) own h))
                (save_runtime-Yields state)))
            (λ r e. Yields-pure tt (λ s h. ap is_some (h ∙ e)))

      stop_failed-Yields :
          (code : String) → Yields Anything (IsTruthful name) (stop_failed env name state code)
      unfolding stop_failed Present
      stop_failed-Yields code = Yields-bind _ _ retain-Yields λ _.
          Yields-bind _ _ (Yields-kept _ (matches-Keeps env Present Present-stable state))
            λ alive. Yields-pure _ (λ s h. failed-IsTruthful name _ s refl refl (sym h))

      Settled : Result CheckResult → Sys → Type 0
      Settled (ok c) s = passed c ≡ true → get name s.runtimes ≡ none
      Settled (raised e) s = Unit

      stop_outcome-Yields :
          (r : Result CheckResult)
          → Yields (Settled r) (IsTruthful name) (stop_outcome env name state r)
      unfolding stop_outcome Settled
      stop_outcome-Yields (raised e) = Yields-weaken _ (stop_failed-Yields _)
      stop_outcome-Yields (ok c) =
          Yields-if_cases (passed c) _ _
            (λ e. Yields-pure _ (λ s h. stopped-IsTruthful name _ s refl refl refl (h e)))
            (λ _. Yields-weaken _ (stop_failed-Yields _))

      stop_recorded-Yields :
          Yields
            (λ s. get name s.runtimes ≡ some state)
            (IsTruthful name)
            (stop_recorded env name state)
      unfolding stop_recorded Settled
      stop_recorded-Yields =
          Yields-bind _ _
            (Yields-kept _
              (matches-Keeps env (λ s. get name s.runtimes ≡ some state) (λ s t h. h) state))
            λ owned.
              Yields-if_cases (not owned) _ _
                (λ _. Yields-pure (mismatched name state) (λ s h.
                  failed-IsTruthful name (mismatched name state) s refl refl (sym (ap is_some h))))
                (λ _. Yields-weaken _ (
                  Yields-bind {R = Settled} _ _
                    (Yields-catch _ _
                      (Yields-bind _ _ (disconnect-Yields env name)
                        (λ c. Yields-pure (ok c) (λ s h. h)))
                      (λ e. Yields-pure (raised e) (λ s h. tt)))
                    stop_outcome-Yields))

    module _ (d : Dict RuntimeState)
        (own : (r : RuntimeState) → get name d ≡ some r → r.profile_name ≡ name) where
      Same : Sys → Type 0
      Same s = s.runtimes ≡ d

      Same-stable : (s : Sys) (t : Trace) → Same s → Same (record s { trace = t })
      unfolding Same
      Same-stable s t h = h

      stop_found-Yields :
          (found : Option RuntimeState)
          → Yields
              (λ s. (get name d ≡ found) × Same s)
              (IsTruthful name)
              (stop_found env name found)
      unfolding stop_found Same
      stop_found-Yields none =
          Yields-pure (already_stopped name)
            (λ s h. stopped-IsTruthful name _ s refl refl refl (ap (get name) h.1 ∙ h.0))
      stop_found-Yields (some state) = record {
        at = λ s h. (stop_recorded-Yields state (own state h.0)).at s (ap (get name) h.1 ∙ h.0);
      }

      stop_locked-Yields : Yields Same (IsTruthful name) (stop_locked env name)
      unfolding stop_locked Same
      stop_locked-Yields =
          Yields-bind _ _
            (Yields-mono _ (λ s h. (h, h)) (load_runtime-Yields env Same Same-stable name d))
            stop_found-Yields

    when_busy-Yields : (e : Exn) → Yields Anything (IsTruthful name) (when_busy env name e)
    unfolding when_busy
    when_busy-Yields profile_lock = Yields-bind _ _ loaded λ found.
        Yields-pure (failed_with name "PROFILE_BUSY" (is_some found))
          (λ s h. failed-IsTruthful name _ s refl refl (sym (ap is_some h)))
    when_busy-Yields (rab e) = Yields-raise _
    when_busy-Yields (profile_validation t) = Yields-raise _
    when_busy-Yields profile_not_found = Yields-raise _
    when_busy-Yields file_exists = Yields-raise _
    when_busy-Yields (tunnel t) = Yields-raise _
    when_busy-Yields (port_conflict p o) = Yields-raise _
    when_busy-Yields value_error = Yields-raise _
    when_busy-Yields os_error = Yields-raise _

    IsTruthful-stable :
        (r : RuntimeStopResult) (s : Sys) (t : Trace)
        → IsTruthful name r s
        → IsTruthful name r (record s { trace = t })
    IsTruthful-stable r s t h = record {
      exited = h.exited;
      present = h.present;
      ended = h.ended;
      when_stopped = h.when_stopped;
    }

    module _ (d : Dict RuntimeState)
        (own : (r : RuntimeState) → get name d ≡ some r → r.profile_name ≡ name) where
      stop_unsupervised-Yields : Yields (Same d own) (IsTruthful name) (stop_unsupervised env name)
      unfolding stop_unsupervised
      stop_unsupervised-Yields =
          Yields-bind _ _ (Yields-kept _ (get_profile-Keeps (Same d own) (Same-stable d own) name))
            λ profile.
              Yields-catch _ _
                (supervisor_lock-Yields env (Same d own) (Same-stable d own) name (IsTruthful name)
                  _ IsTruthful-stable (stop_locked-Yields d own))
                when_busy-Yields

-- When a profile that no thread supervises is stopped and the call returns, the result tells the
-- truth about the state directory, whatever the process, the files and the lock did: it says that a
-- runtime state is there exactly when one is, and that the tunnel is stopped only when none is.
pub stop_unsupervised-IsTruthful :
    (env : Env) (name : String) (s : Sys)
    → IsSound env 0 s
    → Holds (IsTruthful name) (stop_unsupervised env name s)
unfolding Same
stop_unsupervised-IsTruthful env name s h =
    (stop_unsupervised-Yields env name s.runtimes (λ r e. (h.runtimes name r e).0)).at s refl
