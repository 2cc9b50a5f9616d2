-- ===== src/Services/Supervisor/Termination.antt =====
-- That a run of the supervisor ends: the rounds of `_run_locked` in
-- app/services/tunnel_supervisor.py stop once the stop event is set.
use remote_ai_bridge.Prelude.{
  ℕ, zero, suc, ◌+◌, ◌≤◌, length, String, ◌≡◌, refl, ◌≢◌, ◌⊎◌, inl, inr, Bool, true, false, Option,
  none, some, is_some, arith, if◌then◌else◌,
}
use mathlib.Core.Path.{subst}
use remote_ai_bridge.Domain.Errors.{Exn, ok, profile_lock}
use remote_ai_bridge.Domain.Profile.{Profile}
use remote_ai_bridge.Domain.Runtime.{ActiveTunnel}
use remote_ai_bridge.Domain.Snapshot.{SupervisorSnapshot}
use remote_ai_bridge.Exec.{Env, Sys, Exec, Trace, with_lock, asked, ask, pure, ◌>>=◌}
use remote_ai_bridge.Exec.Yields.{
  Anything, Holds, Yields, Yields-pure, Yields-bind, Yields-after, Yields-if, Yields-finally,
  Yields-raise, Yields-catch, Yields-given, Yields-kept,
}
use remote_ai_bridge.Infrastructure.Store.{supervisor_lock}
use remote_ai_bridge.Invariant.Trace.{IsSound, Sound-event}
use remote_ai_bridge.Invariant.Files.{
  Sound-path_of, Sound-file_operation, Sound-lock, Sound-set_active,
}
use remote_ai_bridge.Invariant.Supervision.{Sound-round, Sound-say, Sound-found}
use remote_ai_bridge.Services.Options.{Config}
use remote_ai_bridge.Services.Supervisor.{
  Policy, Report, Loop, Step, again, leave, done, Cleanup, cleaned, kept, is_stopping, stop_run,
  after_round, loop, report_crash, crashed, run_locked, give, run_profile, run_handler, run,
}

abbrev Returned : Option SupervisorSnapshot → Sys → Type 0
Returned o s = is_some o ≡ true

module _ (env : Env) (cfg : Config) (policy : Policy) (name : String) (n : ℕ)
    (stops : (t : Trace) → n ≤ length t → env.stop_set t ≡ true) where
  -- the stop event was looked up: there is one more event, and it is set if there were n
  looked_up :
      (k : ℕ)
      → Yields
          (IsSound env k)
          (λ b s. IsSound env (suc k) s × (n ≤ k → b ≡ true))
          (is_stopping env cfg policy name)
  unfolding is_stopping ask
  looked_up k = record {
    at = λ s h.
        let h' = Sound-event env k s asked h.owned h in
        (
          record {
            grown = omega (arith, h.grown);
            owned = h'.owned;
            profiles = h'.profiles;
            runtimes = h'.runtimes;
          },
          λ e. stops s.trace (omega (arith, e, h.grown)),
        );
  }

  stop_run-Returned :
      {P : Sys → Type 0}
      → Yields P Returned (do snapshot ← stop_run env cfg policy name; pure (some snapshot))
  stop_run-Returned = Yields-after _ _ (λ r. Yields-pure (some r) (λ s _. refl))

  after_round-Returned :
      {P : Sys → Type 0} (f : Loop → Exec (Option SupervisorSnapshot)) (step : Step)
      → ((l : Loop) → Yields P Returned (f l))
      → Yields P Returned (after_round env cfg policy name f step)
  unfolding after_round
  after_round-Returned f (again l) h = h l
  after_round-Returned f leave h = stop_run-Returned
  after_round-Returned f (done r) h = Yields-pure (some r) (λ s _. refl)

  impossible : (k : ℕ) → n ≤ k → (n ≤ k → false ≡ true) → ⊥
  impossible k e h = ground (arith, h e)

  -- the rest of the loop only runs where fewer than n events had happened
  go_on :
      (k : ℕ) (b : Bool) (m : Exec (Option SupervisorSnapshot))
      → (n ≤ k) ⊎ Yields (IsSound env (suc k)) Returned m
      → Yields
          (λ s. IsSound env (suc k) s × (n ≤ k → b ≡ true))
          Returned
          (if b then (do snapshot ← stop_run env cfg policy name; pure (some snapshot)) else m)
  go_on k true m h = stop_run-Returned
  go_on k false m (inl e) = record { at = λ s h. elim (impossible k e h.1) [ ] }
  go_on k false m (inr y) = record { at = λ s h. y.at s h.0 }

  -- Fuel for every event that may still be missing is enough.
  loop-Returned :
      (fuel k : ℕ) (p : Profile) (l : Loop)
      → n ≤ k + fuel
      → Yields (IsSound env k) Returned (loop env cfg policy name (suc fuel) p l)
  unfolding loop
  loop-Returned zero k p l e =
      Yields-bind _ _ (looked_up k) λ b. go_on k b _ (inl (omega (arith, e)))
  loop-Returned (suc fuel) k p l e = Yields-bind _ _ (looked_up k) λ b. go_on k b _ (
      inr (
        Yields-bind _ _ (Yields-kept _ (Sound-round env (suc k) cfg policy name p l)) λ step.
          after_round-Returned _ step (λ l'. loop-Returned fuel (suc k) p l' (omega (arith, e)))))

  said : (r : Report) → Yields Anything Returned (give env cfg policy name r)
  unfolding give
  said r = Yields-after _ _ (λ a. Yields-pure (some a) (λ s _. refl))

  report_crash-Returned :
      (c : Cleanup) (t : Option ActiveTunnel)
      → Yields Anything Returned (report_crash env cfg policy name c t)
  unfolding report_crash
  report_crash-Returned (kept code) t = Yields-after _ _ (λ a. Yields-pure (some a) (λ s _. refl))
  report_crash-Returned cleaned t = Yields-after _ _ (λ a. Yields-pure (some a) (λ s _. refl))

  crashed-Returned : Yields Anything Returned (crashed env cfg policy name)
  unfolding crashed
  crashed-Returned = Yields-after _ _ λ shown. Yields-after _ _ λ c. report_crash-Returned c shown

  run_locked-Returned :
      (fuel : ℕ) (p : Profile)
      → n ≤ fuel
      → Yields (IsSound env 0) Returned (run_locked env cfg policy name (suc fuel) p)
  unfolding run_locked
  run_locked-Returned fuel p e =
      Yields-bind _ _ (Yields-kept _ (Sound-set_active env 0 none))
        λ _. Yields-catch _ _ (loop-Returned fuel 0 p _ (omega (arith, e))) (λ _. crashed-Returned)

  run_profile-Returned :
      (fuel : ℕ)
      → n ≤ fuel
      → Yields (IsSound env 0) Returned (run_profile env cfg policy name (suc fuel))
  unfolding run_profile
  run_profile-Returned fuel e =
      Yields-bind _ _ (Yields-kept _ (Sound-found env 0 cfg policy name)) λ found.
        Yields-given found _ _ (record { at = λ s _. (said _).at s tt })
          (λ p. run_locked-Returned fuel p e)

  run_handler-Returned : (e : Exn) → Yields Anything Returned (run_handler env cfg policy name e)
  unfolding run_handler
  run_handler-Returned profile_lock = said _
  run_handler-Returned e = said _

  -- the lock is taken and released; what precedes it keeps the invariant
  locked-Returned :
      (m : Exec (Option SupervisorSnapshot))
      → Yields (IsSound env 0) Returned m
      → Yields (IsSound env 0) Returned (supervisor_lock env name m)
  unfolding supervisor_lock with_lock
  locked-Returned m h = Yields-bind _ _ (Yields-kept _ (Sound-path_of env 0 name)) λ _.
      Yields-bind _ _ (Yields-kept _ (Sound-file_operation env 0)) λ _.
        Yields-bind _ _ (Yields-kept _ (Sound-lock env 0 name)) λ taken.
          Yields-if taken _ _ (Yields-raise profile_lock) (Yields-finally m _ (λ o s q. q) h)

  run-Returned :
      (fuel : ℕ) → n ≤ fuel → Yields (IsSound env 0) Returned (run env cfg policy name (suc fuel))
  unfolding run
  run-Returned fuel e =
      Yields-bind _ _ (Yields-kept _ (Sound-say env 0 cfg policy name _ _))
        λ _. Yields-catch _ _ (locked-Returned _ (run_profile-Returned fuel e)) run_handler-Returned

  -- If the stop event is set at the latest when n events have happened, then a supervisor with more
  -- than n rounds of fuel, started on a sound system, never runs out of it: it returns a snapshot,
  -- or it raises.
  pub run-ends :
      (fuel : ℕ) (s s' : Sys)
      → n ≤ fuel
      → IsSound env 0 s
      → run env cfg policy name (suc fuel) s ≢ (ok none, s')
  run-ends fuel s s' e h q = ground (arith, subst (Holds Returned) q ((run-Returned fuel e).at s h))
