-- ===== src/Services/Runtime/Unsupervised/Shutdown.antt =====
-- What `shutdown` of app/services/runtime_manager.py leaves behind, where it says that it completed.
use remote_ai_bridge.Prelude.{
  String, ◌≡◌, ◌≢◌, refl, Bool, true, false, not, ◌&&◌, Option, none, List, [], ◌∷◌, get, All,
  Bool-cases, inl, inr, is_some, arith,
}
use mathlib.Core.Path.{◌∙◌}
use remote_ai_bridge.Domain.Errors.{
  Exn, Result, ok, raised, rab, profile_validation, profile_not_found, profile_lock, file_exists,
  tunnel, port_conflict, value_error, os_error,
}
use remote_ai_bridge.Domain.Runtime.{RuntimeState}
use remote_ai_bridge.Domain.Snapshot.{SupervisorSnapshot, SupervisorState, stopped, is_stopped}
use remote_ai_bridge.Exec.{Env, Sys, pure, ◌>>=◌}
use remote_ai_bridge.Exec.Keeps.{Keeps, Keeps-bind, Keeps-pure}
use remote_ai_bridge.Exec.Yields.{
  Anything, Holds, Yields, Yields-pure, Yields-bind, Yields-if_cases, Yields-raise, Yields-catch,
  Yields-post, Yields-weaken, Yields-mono, Yields-both, Yields-pair, Yields-after,
}
use remote_ai_bridge.Invariant.Trace.{IsSound}
use remote_ai_bridge.Invariant.Files.{Sound-load_runtime}
use remote_ai_bridge.Invariant.Runtime.{Sound-shutdown_one}
use remote_ai_bridge.Services.Runtime.Unsupervised.{
  RuntimeStopResult, Waited, when_refused, shutdown_unsupervised, checked_runtime, settle_finished,
  shutdown_finished, shutdown_one, shutdown_all, completed, stop_unsupervised,
}
use remote_ai_bridge.Services.Runtime.Unsupervised.Laws.{stop_unsupervised-IsTruthful, loaded}
use remote_ai_bridge.Services.Runtime.Unsupervised.Others.{shutdown_one-IsApart}

abbrev is_done : RuntimeStopResult → Bool
is_done r = r.worker_exited && is_stopped r.snapshot.state

-- where the result says that the worker is done, no evidence is left
abbrev Cleared : String → RuntimeStopResult → Sys → Type 0
Cleared name r s = is_done r ≡ true → get name s.runtimes ≡ none

stopped-only : (st : SupervisorState) → is_stopped st ≡ true → st ≡ stopped
stopped-only stopped h = refl
stopped-only SupervisorState.starting h = ground (arith, h)
stopped-only SupervisorState.connecting h = ground (arith, h)
stopped-only SupervisorState.ready h = ground (arith, h)
stopped-only SupervisorState.degraded h = ground (arith, h)
stopped-only SupervisorState.stopping h = ground (arith, h)
stopped-only SupervisorState.failed h = ground (arith, h)
stopped-only SupervisorState.unsupervised h = ground (arith, h)

module _ (env : Env) (name : String) where
  when_refused-Cleared :
      (b : Bool) (e : Exn) → Yields Anything (Cleared name) (when_refused env name b e)
  unfolding when_refused
  when_refused-Cleared b (rab e) = Yields-pure _ (λ s _ h. ground (arith, h))
  when_refused-Cleared b profile_lock = Yields-raise _
  when_refused-Cleared b (profile_validation t) = Yields-raise _
  when_refused-Cleared b profile_not_found = Yields-raise _
  when_refused-Cleared b file_exists = Yields-raise _
  when_refused-Cleared b (tunnel t) = Yields-raise _
  when_refused-Cleared b (port_conflict p o) = Yields-raise _
  when_refused-Cleared b value_error = Yields-raise _
  when_refused-Cleared b os_error = Yields-raise _

  stop-Cleared : Yields (IsSound env 0) (Cleared name) (stop_unsupervised env name)
  stop-Cleared =
      Yields-post _ (λ r s t h. t.when_stopped (stopped-only _ (ground (arith, h))))
        (record { at = stop_unsupervised-IsTruthful env name })

  shutdown_unsupervised-Cleared :
      (b : Bool) (r : Result Unit)
      → Yields (IsSound env 0) (Cleared name) (shutdown_unsupervised env name b r)
  unfolding shutdown_unsupervised
  shutdown_unsupervised-Cleared b (raised e) = Yields-weaken _ (when_refused-Cleared b e)
  shutdown_unsupervised-Cleared b (ok _) = Yields-catch _ _ stop-Cleared (when_refused-Cleared b)

  -- what the check for a runtime state found
  Checked : Result (Option RuntimeState) → Sys → Type 0
  Checked (ok f) s = (get name s.runtimes ≡ f) × IsSound env 0 s
  Checked (raised e) s = Unit

  settle_finished-Cleared :
      (n : SupervisorSnapshot) (r : Result Unit) (f : Result (Option RuntimeState))
      → Yields (Checked f) (Cleared name) (settle_finished env name n r f)
  unfolding settle_finished Checked
  settle_finished-Cleared n r (raised e) = Yields-pure _ (λ s _ h. ground (arith, h))
  settle_finished-Cleared n r (ok f) =
      Yields-if_cases _ _ _ (λ e. Yields-pure _ (λ s h _. h.0 ∙ absent f e))
        (λ _. Yields-mono _ (λ s h. h.1) (shutdown_unsupervised-Cleared _ r))
    where
      absent : (f : Option RuntimeState) → (is_stopped n.state && not (is_some f)) ≡ true → f ≡ none
      absent f e = ground (arith, e)

  check-Checked : Yields (IsSound env 0) Checked (checked_runtime env name)
  unfolding checked_runtime Checked
  check-Checked =
      Yields-catch _ _
        (Yields-bind _ _
          (Yields-both _ (Yields-weaken _ (loaded env name)) (Sound-load_runtime env 0 name))
          (λ f. Yields-pure (ok f) (λ s h. h)))
        (λ e. Yields-pure (raised e) (λ s h. tt))

  shutdown_finished-Cleared :
      (n : SupervisorSnapshot) (r : Result Unit)
      → Yields (IsSound env 0) (Cleared name) (shutdown_finished env name n r)
  unfolding shutdown_finished
  shutdown_finished-Cleared n r = Yields-bind _ _ check-Checked (settle_finished-Cleared n r)

module _ (env : Env) where
  shutdown_one-Cleared : (w : Waited) → Yields (IsSound env 0) (Cleared w.name) (shutdown_one env w)
  unfolding shutdown_one
  shutdown_one-Cleared w =
      Yields-if_cases w.is_finished _ _
        (λ _. shutdown_finished-Cleared env w.name w.snapshot w.begun)
        (λ _. Yields-pure _ (λ s _ h. ground (arith, h)))

  abbrev Absent : String → Sys → Type 0
  Absent other s = (get other s.runtimes ≡ none) × IsSound env 0 s

  shutdown_one-Absent :
      (other : String) (w : Waited) → w.name ≢ other → Keeps (Absent other) (shutdown_one env w)
  shutdown_one-Absent other w differs = record {
    at = λ s h. (
      ((shutdown_one-IsApart env other w differs).at s
          (record { absent = h.0; own = λ r e. (h.1.runtimes w.name r e).0 })).absent,
      (Sound-shutdown_one env 0 w).at s h.1,
    );
  }

  shutdown_all-Absent :
      (other : String) (ws : List Waited)
      → All (λ w. w.name ≢ other) ws
      → Keeps (Absent other) (shutdown_all env ws)
  unfolding shutdown_all
  shutdown_all-Absent other [] d = Keeps-pure []
  shutdown_all-Absent other (w ∷ ws) (d, ds) =
      Keeps-bind _ _ (shutdown_one-Absent other w d)
        λ _. Keeps-bind _ _ (shutdown_all-Absent other ws ds) (λ _. Keeps-pure _)

-- the workers are those of a dictionary
unfoldable pub Distinct : List Waited → Type 0
Distinct [] = Unit
Distinct (w ∷ ws) = All (λ v. v.name ≢ w.name) ws × Distinct ws

abbrev pub AllCleared : List Waited → Sys → Type 0
AllCleared ws s = All (λ (w : Waited). get w.name s.runtimes ≡ none) ws

abbrev Completed : List Waited → List RuntimeStopResult → Sys → Type 0
Completed ws rs s = completed rs ≡ true → AllCleared ws s

module _ (env : Env) where
  after_one :
      (w : Waited) (ws : List Waited) (r : RuntimeStopResult)
      → All (λ v. v.name ≢ w.name) ws
      → Yields (IsSound env 0) (Completed ws) (shutdown_all env ws)
      → Yields
          (λ s. Cleared w.name r s × IsSound env 0 s)
          (Completed (w ∷ ws))
          (do results ← shutdown_all env ws; pure (r ∷ results))
  unfolding completed
  after_one w ws r d y = elim (Bool-cases (is_done r)) [
    | inl e ↦
        Yields-bind {R = λ rs s. Completed ws rs s × (get w.name s.runtimes ≡ none)} _ _
          (record {
            at = λ s h.
                (Yields-post _ (λ rs t q. (q.0, q.1.0))
                    (Yields-pair _ y (shutdown_all-Absent env w.name ws d))).at
                  s (h.1, (h.0 e, h.1));
          })
          (λ rs. Yields-pure (r ∷ rs) (λ s h c. (h.1, h.0 (ground (arith, c)))))
    | inr e ↦ Yields-after _ _ λ rs. Yields-pure (r ∷ rs) (λ s _ c. elim (clash _ e c) [ ])
  ]
    where
      clash : (b : Bool) → is_done r ≡ false → (is_done r && b) ≡ true → ⊥
      clash b e c = ground (arith, e, c)

  shutdown_all-Completed :
      (ws : List Waited) → Distinct ws → Yields (IsSound env 0) (Completed ws) (shutdown_all env ws)
  unfolding shutdown_all Distinct
  shutdown_all-Completed [] d = Yields-pure [] (λ s _ _. tt)
  shutdown_all-Completed (w ∷ ws) (d, ds) =
      Yields-bind _ _ (one w) λ r. after_one w ws r d (shutdown_all-Completed ws ds)
    where
      one :
          (w : Waited)
          → Yields
              (IsSound env 0)
              (λ r s. Cleared w.name r s × IsSound env 0 s)
              (shutdown_one env w)
      one w = Yields-both _ (shutdown_one-Cleared env w) (Sound-shutdown_one env 0 w)

-- When the program shuts down and reports that it completed, no runtime state is left of any worker
-- that it had.
pub shutdown-AllCleared :
    (env : Env) (workers : List Waited) (s : Sys)
    → IsSound env 0 s
    → Distinct workers
    → Holds (λ rs t. completed rs ≡ true → AllCleared workers t) (shutdown_all env workers s)
shutdown-AllCleared env workers s h d = (shutdown_all-Completed env workers d).at s h
