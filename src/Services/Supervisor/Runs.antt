-- ===== src/Services/Supervisor/Runs.antt =====
-- How a run of the supervisor ends (`run`, `_run_locked` and `_stop` of
-- app/services/tunnel_supervisor.py): with a terminal snapshot, and within the rounds that the stop
-- event leaves it.
use remote_ai_bridge.Prelude.{
  ℕ, zero, suc, String, ◌≡◌, refl, ◌⊎◌, get, Bool, true, false, Option, none, some, if◌then◌else◌,
}
use mathlib.Core.Path.{subst}
use remote_ai_bridge.Domain.Errors.{Exn, ok, profile_lock}
use remote_ai_bridge.Domain.Health.{passed}
use remote_ai_bridge.Domain.Profile.{Profile}
use remote_ai_bridge.Domain.Runtime.{RuntimeState, ActiveTunnel}
use remote_ai_bridge.Domain.Snapshot.{SupervisorSnapshot, failed, stopped}
use remote_ai_bridge.Exec.{Env, Sys, Exec, with_lock, unlocked, ask, pure, ◌>>=◌}
use remote_ai_bridge.Exec.Yields.{
  Anything, Holds, Yields, Yields-pure, Yields-bind, Yields-after, Yields-if, Yields-finally,
  Yields-raise, Yields-catch, yields_rules,
}
use remote_ai_bridge.Infrastructure.Store.{supervisor_lock}
use remote_ai_bridge.Services.Options.{Config}
use remote_ai_bridge.Services.Supervisor.Ending.{
  latest, IsFinal, Ended, EndedStep, NoRuntime, Gone, clear_runtime-Yields, load_runtime-Yields,
  disconnect-Yields, publish-stopped, say-failed, round-Ended,
}
use remote_ai_bridge.Services.Supervisor.{
  Policy, Report, Loop, Step, again, leave, done, Cleanup, cleaned, kept, say, cleanup_owned,
  cleanup_recorded, cleanup_active, after_stop, stop_run, after_round, loop, report_crash, crashed,
  run_locked, give, run_profile, run_handler, run,
}

module _ (env : Env) (cfg : Config) (policy : Policy) (name : String) where
  cleanup_owned-Gone :
      (t : ActiveTunnel) (b : Bool)
      → Yields Anything (Gone name) (cleanup_owned env cfg policy name t b)
  unfolding cleanup_owned
  cleanup_owned-Gone t false = Yields-pure _ (λ s _. tt)
  cleanup_owned-Gone t true = Yields-after _ _ λ gone.
      Yields-if gone _ _
        (Yields-bind _ _ (clear_runtime-Yields env name) (λ _. Yields-pure cleaned (λ s h. h)))
        (Yields-pure _ (λ s _. tt))

  -- the outcome of `disconnect` for a recorded tunnel
  released :
      (b : Bool) (code : String)
      → Yields
          (λ s. b ≡ true → NoRuntime name s)
          (Gone name)
          (pure (if b then cleaned else kept code))
  released true code = Yields-pure cleaned (λ s h. h refl)
  released false code = Yields-pure (kept code) (λ s _. tt)

  cleanup_recorded-Gone :
      (o : Option RuntimeState)
      → Yields
          (λ s. o ≡ none → NoRuntime name s)
          (Gone name)
          (cleanup_recorded env cfg policy name o)
  unfolding cleanup_recorded
  cleanup_recorded-Gone none = Yields-pure cleaned (λ s h. h refl)
  cleanup_recorded-Gone (some r) = Yields-after _ _ λ owned.
      Yields-if _ _ _ (Yields-pure _ (λ s _. tt))
        (Yields-bind _ _ (disconnect-Yields env name) (λ c. released (passed c) _))

  cleanup_active-Gone :
      (t : Option ActiveTunnel) → Yields Anything (Gone name) (cleanup_active env cfg policy name t)
  unfolding cleanup_active
  cleanup_active-Gone (some t) = Yields-after _ _ (cleanup_owned-Gone t)
  cleanup_active-Gone none = Yields-bind _ _ (load_runtime-Yields env name) cleanup_recorded-Gone

  after_stop-Final :
      (c : Cleanup) (t : Option ActiveTunnel)
      → Yields (Gone name c) (IsFinal name) (after_stop env cfg policy name c t)
  unfolding after_stop say
  after_stop-Final (kept code) t = record { at = λ s _. (say-failed env cfg policy name _).at s tt }
  after_stop-Final cleaned t = publish-stopped env name

  stop_run-Final : Yields Anything (IsFinal name) (stop_run env cfg policy name)
  unfolding stop_run
  stop_run-Final = Yields-after _ _ λ shown.
      Yields-after _ _
        λ _. Yields-bind _ _ (cleanup_active-Gone shown) (λ c. after_stop-Final c shown)

  stop_run-Ended :
      Yields Anything
        (Ended name)
        (do snapshot ← stop_run env cfg policy name; pure (some snapshot))
  stop_run-Ended = Yields-bind _ _ stop_run-Final (λ n. Yields-pure (some n) (λ s h. h))

  after_round-Ended :
      (f : Loop → Exec (Option SupervisorSnapshot)) (step : Step)
      → ((l : Loop) → Yields Anything (Ended name) (f l))
      → Yields (EndedStep name step) (Ended name) (after_round env cfg policy name f step)
  unfolding after_round
  after_round-Ended f (again l) h = h l
  after_round-Ended f leave h = stop_run-Ended
  after_round-Ended f (done n) h = Yields-pure (some n) (λ s e. e)

  loop-Ended :
      (fuel : ℕ) (p : Profile) (l : Loop)
      → Yields Anything (Ended name) (loop env cfg policy name fuel p l)
  unfolding loop
  loop-Ended zero p l = Yields-pure none (λ s _. tt)
  loop-Ended (suc fuel) p l = Yields-after _ _ λ b. Yields-if b _ _ stop_run-Ended (
      Yields-bind _ _ (round-Ended env cfg policy name p l)
        (λ step. after_round-Ended _ step (loop-Ended fuel p)))

  said :
      (r : Report)
      → Yields Anything
          (Ended name)
          (do snapshot ← say env cfg policy name failed r; pure (some snapshot))
  said r = Yields-bind _ _ (say-failed env cfg policy name r) (λ n. Yields-pure (some n) (λ s h. h))

  report_crash-Ended :
      (c : Cleanup) (t : Option ActiveTunnel)
      → Yields Anything (Ended name) (report_crash env cfg policy name c t)
  unfolding report_crash
  report_crash-Ended (kept code) t = said _
  report_crash-Ended cleaned t = said _

  crashed-Ended : Yields Anything (Ended name) (crashed env cfg policy name)
  unfolding crashed
  crashed-Ended = Yields-after _ _ λ shown. Yields-after _ _ λ c. report_crash-Ended c shown

  run_locked-Ended :
      (fuel : ℕ) (p : Profile)
      → Yields Anything (Ended name) (run_locked env cfg policy name fuel p)
  unfolding run_locked
  run_locked-Ended fuel p = search (yields_rules, loop-Ended, crashed-Ended)

  give-Ended : (r : Report) → Yields Anything (Ended name) (give env cfg policy name r)
  unfolding give
  give-Ended r = said r

  run_profile-Ended :
      (fuel : ℕ) → Yields Anything (Ended name) (run_profile env cfg policy name fuel)
  unfolding run_profile
  run_profile-Ended fuel = search (yields_rules, give-Ended, run_locked-Ended)

  run_handler-Ended : (e : Exn) → Yields Anything (Ended name) (run_handler env cfg policy name e)
  unfolding run_handler
  run_handler-Ended profile_lock = give-Ended _
  run_handler-Ended e = give-Ended _

  unlocked-Ended :
      (o : Option SupervisorSnapshot) (s : Sys)
      → Ended name o s
      → Ended name o (ask (λ t. tt {0}) (λ _. unlocked name) s).1
  unfolding ask
  unlocked-Ended none s h = tt
  unlocked-Ended (some n) s h = h

  locked-Ended :
      (m : Exec (Option SupervisorSnapshot))
      → Yields Anything (Ended name) m
      → Yields Anything (Ended name) (supervisor_lock env name m)
  unfolding supervisor_lock with_lock
  locked-Ended m h = Yields-after _ _ λ _. Yields-after _ _ λ _.
      Yields-after _ _ λ taken.
        Yields-if taken _ _ (Yields-raise profile_lock) (Yields-finally m _ unlocked-Ended h)

  run-Ended : (fuel : ℕ) → Yields Anything (Ended name) (run env cfg policy name fuel)
  unfolding run
  run-Ended fuel =
      Yields-after _ _
        λ _. Yields-catch _ _ (locked-Ended _ (run_profile-Ended fuel)) run_handler-Ended

  -- A supervisor that returns a snapshot has published it last, and the snapshot is FAILED, or it is
  -- STOPPED and the profile has no runtime state any more.
  pub run-IsFinal :
      (fuel : ℕ) (s s' : Sys) (n : SupervisorSnapshot)
      → run env cfg policy name fuel s ≡ (ok (some n), s')
      → (latest s'.snapshots ≡ some n)
        × ((n.state ≡ failed) ⊎ ((n.state ≡ stopped) × (get name s'.runtimes ≡ none)))
  run-IsFinal fuel s s' n h = subst (Holds (Ended name)) h ((run-Ended fuel).at s tt)
