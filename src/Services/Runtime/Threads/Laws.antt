-- ===== src/Services/Runtime/Threads/Laws.antt =====
-- Whatever order the regions and the ends of threads of app/services/runtime_manager.py come in, a
-- profile has at most one supervisor that runs, and the registry can reach it.
use mathlib.Core.Path.{subst, ◌∙◌}
use remote_ai_bridge.Prelude.{
  ℕ, ◌+◌, ◌≤◌, String, ◌≡◌, ◌≢◌, ◌⊎◌, refl, sym, ap, inl, inr, true, false, not, ◌&&◌, Option, none,
  some, List, [], ◌∷◌, get, ◌==◌, arith, eq_iff, if◌then◌else◌, Bool-cases,
}
use remote_ai_bridge.Domain.Errors.{Exn, Result, ok, raised}
use remote_ai_bridge.Domain.Registry.{
  Worker, Registry, ensure_start_allowed, register, start_region,
}
use remote_ai_bridge.Domain.Registry.Laws.{get-assign}
use remote_ai_bridge.Services.Runtime.Threads.{
  Thread, Machine, runs, live_worker, current, launch, start,
}

abbrev pub In : Thread → List Thread → Type 0
In t [] = ⊥
In t (u ∷ us) = (t ≡ u) ⊎ In t us

-- how many threads of a profile have not finished
unfoldable pub running : String → List Thread → ℕ
running name [] = 0
running name (t ∷ ts) = (if t.profile == name && not t.finished then 1 else 0) + running name ts

-- the registry has the thread's worker, and has told it to stop if the registry is closed
abbrev pub Has : Registry → Thread → Type 0
Has r t =
    (w : Worker) × (get t.profile r.workers ≡ some w)
    × (w.id ≡ t.id)
    × (r.closed ≡ true → w.stop_event ≡ true)

pub record Inv (m : Machine) : Type 0 where
  pub owned : (t : Thread) → In t m.threads → t.finished ≡ false → Has m.registry t
  pub single : (name : String) → running name m.threads ≤ 1

pub In-runs : (t : Thread) (ts : List Thread) → In t ts → t.finished ≡ false → runs t.id ts ≡ true
unfolding runs
In-runs t [] i h = elim i [ ]
In-runs t (u ∷ us) (inl e) h =
    ground (arith, ap (λ (v : Thread). v.id) e, ap (λ (v : Thread). v.finished) e, h)
In-runs t (u ∷ us) (inr i) h = ground (arith, In-runs t us i h)

pub In-current :
    (m : Machine) (t : Thread)
    → In t m.threads
    → t.finished ≡ false
    → ((w : Worker) × (get t.profile m.registry.workers ≡ some w) × (w.id ≡ t.id))
    → current m t.profile ≢ none
unfolding live_worker
In-current m t i h (w, e, d) = ground (arith, e, d, In-runs t m.threads i h)

running-zero :
    (name : String) (ts : List Thread)
    → ((t : Thread) → In t ts → t.finished ≡ false → t.profile ≢ name)
    → running name ts ≡ 0
unfolding running
running-zero name [] h = refl
running-zero name (t ∷ ts) h = elim (Bool-cases t.finished) [
  | inl e ↦ ground (arith, e, running-zero name ts (λ u i. h u (inr i)))
  | inr e ↦
      ground (
        arith,
        e,
        h t (inl refl) e,
        eq_iff t.profile name,
        running-zero name ts (λ u i. h u (inr i)),
      )
]

-- the other facts of the invariant follow where the workers of the running threads are kept
pub Inv-registry :
    (m : Machine) (r : Registry)
    → Inv m
    → ((t : Thread) → Has m.registry t → In t m.threads → t.finished ≡ false → Has r t)
    → Inv (record m { registry = r })
Inv-registry m r v h = record { owned = λ t i f. h t (v.owned t i f) i f; single = v.single }

pub Result-cases : (q : Result (Unit {0})) → ((e : Exn) × (q ≡ raised e)) ⊎ (q ≡ ok tt)
Result-cases (raised e) = inl (e, refl)
Result-cases (ok tt) = inr refl

allowed : (name : String) (r : Registry) → ensure_start_allowed r name ≡ ok tt → r.closed ≡ false
unfolding ensure_start_allowed
allowed name r h = ground (arith, h)

start_new :
    (name : String) (r : Registry)
    → ((e : Exn) × (start_region none name r ≡ raised e))
      ⊎ ((r.closed ≡ false)
          × (start_region none name r
              ≡ ok (record { id = r.next_id; stop_event = false }, register name r)))
unfolding start_region
start_new name r = elim (Result-cases (ensure_start_allowed r name)) [
  | inl (x, q) ↦ inl (x, simp q)
  | inr q ↦ inr (allowed name r q, simp q)
]

start_again :
    (w : Worker) (name : String) (r : Registry)
    → ((e : Exn) × (start_region (some w) name r ≡ raised e))
      ⊎ (start_region (some w) name r ≡ ok (w, r))
unfolding start_region
start_again w name r = elim (Result-cases (ensure_start_allowed r name)) [
  | inl (x, q) ↦ inl (x, simp q)
  | inr q ↦ inr (simp q)
]

module _ (m : Machine) (v : Inv m) (name : String) where
  abbrev fresh_thread : Thread
  fresh_thread = record { id = m.registry.next_id; profile = name; finished = false }

  -- where the profile has no worker that runs, it has no thread that runs
  none_runs :
      current m name ≡ none → (t : Thread) → In t m.threads → t.finished ≡ false → t.profile ≢ name
  none_runs e t i f q =
      let (w, g, d, _) = v.owned t i f in In-current m t i f (w, g, d) (ap (current m) q ∙ e)

  launched-Has :
      current m name ≡ none
      → m.registry.closed ≡ false
      → (t : Thread) → In t (fresh_thread ∷ m.threads)
      → t.finished ≡ false
      → Has (register name m.registry) t
  unfolding register
  launched-Has e c t (inl q) f = (
    record { id = m.registry.next_id; stop_event = false },
    ground (
      arith,
      get-assign name t.profile (record { id = m.registry.next_id; stop_event = false })
          m.registry.workers,
      ap (λ (u : Thread). u.profile) q,
      eq_iff name t.profile,
    ),
    sym (ap (λ (u : Thread). u.id) q),
    λ k. ground (arith, k, c),
  )
  launched-Has e c t (inr i) f =
      let (w, g, d, k) = v.owned t i f in
      (
        w,
        ground (
          arith,
          get-assign name t.profile (record { id = m.registry.next_id; stop_event = false })
              m.registry.workers,
          g,
          none_runs e t i f,
          eq_iff name t.profile,
        ),
        d,
        k,
      )

  launched-single : current m name ≡ none → (n : String) → running n (fresh_thread ∷ m.threads) ≤ 1
  unfolding running
  launched-single e n =
      ground (arith, running-zero name m.threads (none_runs e), v.single n, eq_iff name n)

  launch-Inv :
      (c : Option Worker)
      → current m name ≡ c
      → Inv (launch name c m (start_region c name m.registry))
  unfolding launch
  launch-Inv none e = elim (start_new name m.registry) [
    | inl (x, q) ↦ subst (λ r. Inv (launch name none m r)) (sym q) v
    | inr (c, q) ↦
        subst (λ r. Inv (launch name none m r)) (sym q)
          (record { owned = launched-Has e c; single = launched-single e })
  ]
  launch-Inv (some w) e = elim (start_again w name m.registry) [
    | inl (x, q) ↦ subst (λ r. Inv (launch name (some w) m r)) (sym q) v
    | inr q ↦
        subst (λ r. Inv (launch name (some w) m r)) (sym q)
          (record { owned = v.owned; single = v.single })
  ]

  pub start-Inv : Inv (start name m)
  unfolding start
  start-Inv = launch-Inv (current m name) refl
