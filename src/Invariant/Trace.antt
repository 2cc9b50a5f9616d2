-- ===== src/Invariant/Trace.antt =====
-- The invariant: a recorded process is only signalled or stopped right after its identity was
-- compared with the recorded one, the state directory holds valid files, each under its own name, and the trace has at
-- least k events. The rules for the actions that ask the environment.
use remote_ai_bridge.Prelude.{
  ℕ, zero, suc, ◌≤◌, length, String, ◌≡◌, refl, Bool, true, false, some, none, List, [], ◌∷◌, get,
  is_some, arith,
}
use remote_ai_bridge.Domain.Errors.{ok, os_error}
use remote_ai_bridge.Domain.Python.{Python}
use remote_ai_bridge.Domain.Profile.{Profile, validate}
use remote_ai_bridge.Domain.Runtime.{RuntimeState, validate_runtime}
use remote_ai_bridge.Exec.{
  Env, Sys, Exec, Event, Trace, ran, spawned, looked, signalled, child_polled, child_stopped,
  waited, asked, ask, pure, ◌>>=◌,
}
use remote_ai_bridge.Exec.Keeps.{
  Keeps, Keeps-ask, Keeps-bind, Keeps-if, Keeps-pure, Keeps-raise, Keeps-then, keeps_rules,
}
use remote_ai_bridge.Infrastructure.Inspector.{
  get_identity, matches, signal, await_exit, confirm_exit, terminate_matching, terminate_owned,
  identity_matches,
}
use remote_ai_bridge.Infrastructure.Process.{
  run, start_managed, poll_child, signal_child, stop_child, early_exit, wait_for_start,
}

-- the last event looked up the recorded pid and found the recorded process
abbrev pub JustMatched : Python → RuntimeState → Trace → Type 0
JustMatched py state [] = ⊥
JustMatched py state (looked pid identity ∷ _) =
    (pid ≡ state.pid) × (identity_matches py identity state ≡ true)
JustMatched py state (_ ∷ _) = ⊥

-- Since a look-up of the recorded pid found the recorded process, nothing happened but that this child
-- was polled and stopped.
abbrev pub StillMatched : Python → ℕ → RuntimeState → Trace → Type 0
StillMatched py pid state (child_polled p _ ∷ t) = (p ≡ pid) × StillMatched py pid state t
StillMatched py pid state (child_stopped p _ ∷ t) = (p ≡ pid) × StillMatched py pid state t
StillMatched py pid state t = JustMatched py state t

JustMatched-StillMatched :
    (py : Python) (pid : ℕ) (state : RuntimeState) (t : Trace)
    → JustMatched py state t
    → StillMatched py pid state t
JustMatched-StillMatched py pid state (child_polled p b ∷ t) m = elim m [ ]
JustMatched-StillMatched py pid state (child_stopped p o ∷ t) m = elim m [ ]
JustMatched-StillMatched py pid state t m = m

-- every process that is recorded, the program's own child or another one, had just been identified
-- when it was signalled, terminated or killed
abbrev pub IsOwned : Python → Trace → Type 0
IsOwned py [] = Unit
IsOwned py (signalled state _ ∷ t) = JustMatched py state t × IsOwned py t
IsOwned py (child_stopped pid (some state) ∷ t) = StillMatched py pid state t × IsOwned py t
IsOwned py (_ ∷ t) = IsOwned py t

pub record IsSound (env : Env) (k : ℕ) (s : Sys) : Type 0 where
  pub grown : k ≤ length s.trace
  pub owned : IsOwned env.python s.trace
  pub profiles :
      (name : String) (p : Profile)
      → get name s.profiles ≡ some p
      → (p.name ≡ name) × (validate env.python p ≡ ok tt)
  pub runtimes :
      (name : String) (r : RuntimeState)
      → get name s.runtimes ≡ some r
      → (r.profile_name ≡ name) × (validate_runtime env.python r ≡ ok tt)

module _ (env : Env) (k : ℕ) where
  abbrev pub Sound {ℓ} : {A : Type ℓ} → Exec A → Type ℓ
  Sound m = Keeps (IsSound env k) m

  -- an event that is no signal changes nothing
  pub Sound-event :
      (s : Sys) (e : Event)
      → IsOwned env.python (e ∷ s.trace)
      → IsSound env k s
      → IsSound env k (record s { trace = e ∷ s.trace })
  Sound-event s e o h = record {
    grown = omega (arith, h.grown);
    owned = o;
    profiles = h.profiles;
    runtimes = h.runtimes;
  }

  pub Sound-asked : {A : Type 0} (f : Trace → A) → Sound (ask f (λ _. asked))
  Sound-asked f = Keeps-ask f _ (λ s a h. Sound-event s asked h.owned h)

  pub Sound-waited : (n : ℕ) → Sound (ask (λ t. tt {0}) (λ _. waited n))
  Sound-waited n = Keeps-ask _ _ (λ s a h. Sound-event s (waited n) h.owned h)

  pub Sound-get_identity : (pid : ℕ) → Sound (get_identity env pid)
  unfolding get_identity
  Sound-get_identity pid = Keeps-ask _ _ (λ s a h. Sound-event s (looked pid a) h.owned h)

  Sound-ran : (argv : List String) → Sound (ask (λ t. env.run t argv) (ran argv))
  Sound-ran argv = Keeps-ask _ _ (λ s a h. Sound-event s (ran argv a) h.owned h)

  Sound-spawned : (argv : List String) → Sound (ask (λ t. env.spawn t argv) (spawned argv))
  Sound-spawned argv = Keeps-ask _ _ (λ s a h. Sound-event s (spawned argv a) h.owned h)

  pub Sound-run : (argv : List String) → Sound (run env argv)
  unfolding run
  Sound-run argv = search (keeps_rules, Sound-ran argv)

  pub Sound-start_managed : (argv : List String) → Sound (start_managed env argv)
  unfolding start_managed
  Sound-start_managed argv = search (keeps_rules, Sound-spawned argv)

  pub Sound-poll_child : (pid : ℕ) → Sound (poll_child env pid)
  unfolding poll_child
  Sound-poll_child pid = Keeps-ask _ _ (λ s a h. Sound-event s (child_polled pid a) h.owned h)

  Sound-signal_child : (pid : ℕ) → Sound (signal_child env pid none)
  unfolding signal_child
  Sound-signal_child pid = Keeps-ask _ _ (λ s a h. Sound-event s (child_stopped pid none) h.owned h)

  -- a child that has not become a tunnel
  pub Sound-stop_child : (pid : ℕ) → Sound (stop_child env pid none)
  unfolding stop_child
  Sound-stop_child pid = search (keeps_rules, Sound-poll_child, Sound-signal_child) depth 12

  -- the invariant, and the child of a tunnel was identified before it is stopped
  abbrev IsGuarded : ℕ → RuntimeState → Sys → Type 0
  IsGuarded pid state s = IsSound env k s × StillMatched env.python pid state s.trace

  Guarded-poll_child :
      (pid : ℕ) (state : RuntimeState) → Keeps (IsGuarded pid state) (poll_child env pid)
  unfolding poll_child
  Guarded-poll_child pid state =
      Keeps-ask _ _ λ s a h. (Sound-event s (child_polled pid a) (h.0).owned h.0, (refl, h.1))

  Guarded-signal_child :
      (pid : ℕ) (state : RuntimeState)
      → Keeps (IsGuarded pid state) (signal_child env pid (some state))
  unfolding signal_child
  Guarded-signal_child pid state =
      Keeps-ask _ _ λ s a h.
        (Sound-event s (child_stopped pid (some state)) (h.1, (h.0).owned) h.0, (refl, h.1))

  Guarded-stop_child :
      (pid : ℕ) (state : RuntimeState)
      → Keeps (IsGuarded pid state) (stop_child env pid (some state))
  unfolding stop_child
  Guarded-stop_child pid state =
      search (keeps_rules, Guarded-poll_child, Guarded-signal_child) depth 12

  -- A tunnel's child is only stopped after a look-up that was positive.
  pub Sound-stop_identified :
      (pid : ℕ) (state : RuntimeState) (s : Sys)
      → JustMatched env.python state s.trace
      → IsSound env k s
      → IsSound env k ((stop_child env pid (some state) >>= λ _. poll_child env pid) s).1
  Sound-stop_identified pid state s m h =
      ((Keeps-bind _ _ (Guarded-stop_child pid state) (λ _. Guarded-poll_child pid state)).at s
        (h, JustMatched-StillMatched env.python pid state s.trace m)).0

  Sound-early_exit : (pid rounds : ℕ) → Sound (early_exit env pid rounds)
  unfolding early_exit
  Sound-early_exit pid zero = search keeps_rules
  Sound-early_exit pid (suc rounds) =
      Keeps-bind _ _ (Sound-poll_child pid)
        λ gone. Keeps-if gone _ _ (Keeps-pure true) (Sound-early_exit pid rounds)

  pub Sound-wait_for_start : (pid : ℕ) → Sound (wait_for_start env pid)
  unfolding wait_for_start
  Sound-wait_for_start pid = search (keeps_rules, Sound-asked, Sound-early_exit)

  Sound-await_exit : (pid rounds : ℕ) → Sound (await_exit env pid rounds)
  unfolding await_exit
  Sound-await_exit pid zero = search keeps_rules
  Sound-await_exit pid (suc rounds) =
      Keeps-bind _ _ (Sound-get_identity pid)
        λ i. Keeps-if (is_some i) _ _ (Sound-await_exit pid rounds) (Keeps-pure true)

  Sound-confirm_exit : (state : RuntimeState) (b : Bool) → Sound (confirm_exit env state b)
  unfolding confirm_exit
  Sound-confirm_exit state false = search keeps_rules
  Sound-confirm_exit state true = search (keeps_rules, Sound-asked, Sound-await_exit)

  pub Sound-matches : (state : RuntimeState) → Sound (matches env state)
  unfolding matches
  Sound-matches state = search (keeps_rules, Sound-get_identity)

  -- The signal of `terminate_owned` follows the look-up of `matches`, which was positive.
  Sound-signal :
      (state : RuntimeState) (s : Sys)
      → JustMatched env.python state s.trace
      → IsSound env k s
      → IsSound env k (signal env state s).1
  unfolding signal ask
  Sound-signal state s j h =
      Keeps-then {P = IsSound env k} (ask (λ t. env.signal t state) (signalled state)) _ s
        (Sound-event s (signalled state (env.signal s.trace state)) (j, h.owned) h)
        λ delivered.
          Keeps-if delivered _ _ (Keeps-pure true)
            (Keeps-if env.windows _ _ (Keeps-pure false) (Keeps-raise os_error))

  Sound-terminate_matching :
      (state : RuntimeState) (b : Bool) (s : Sys)
      → (b ≡ true → JustMatched env.python state s.trace)
      → IsSound env k s
      → IsSound env k (terminate_matching env state b s).1
  unfolding terminate_matching
  Sound-terminate_matching state false s j h = (Keeps-pure {P = IsSound env k} false).at s h
  Sound-terminate_matching state true s j h =
      Keeps-then (signal env state) _ s (Sound-signal state s (j refl) h) (Sound-confirm_exit state)

  pub Sound-terminate_owned : (state : RuntimeState) → Sound (terminate_owned env state)
  unfolding terminate_owned matches get_identity ◌>>=◌ ask pure
  Sound-terminate_owned state = record {
    at = λ s h.
        let identity = env.identity s.trace state.pid in
        Sound-terminate_matching state (identity_matches env.python identity state) _
          (λ e. (refl, e)) (Sound-event s (looked state.pid identity) h.owned h);
  }

pub ruleset trace_rules = (
  keeps_rules, Sound-asked, Sound-waited, Sound-run, Sound-start_managed, Sound-poll_child,
  Sound-stop_child, Sound-wait_for_start, Sound-get_identity, Sound-matches, Sound-terminate_owned,
)
