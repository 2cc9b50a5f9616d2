-- ===== src/Services/Runtime/Threads/Safety.antt =====
-- Every region and every end of a thread of app/services/runtime_manager.py keeps what the registry
-- promises of the running supervisors.
use mathlib.Core.Path.{subst, ◌∙◌}
use remote_ai_bridge.Prelude.{
  ℕ, ◌≤◌, String, ◌≡◌, ◌≢◌, ◌⊎◌, refl, sym, ap, inl, inr, Bool, true, false, not, ◌&&◌, Option,
  none, some, List, [], ◌∷◌, get, remove, get-remove, ◌==◌, nat_eq, is_some, arith, eq_iff,
  if◌then◌else◌, Bool-cases,
}
use remote_ai_bridge.Domain.Errors.{Exn, ok, raised}
use remote_ai_bridge.Domain.Registry.{
  Worker, Registry, contains_name, in_progress, stop_region, begin_profile_stop, request_stop,
  end_profile_stop, end_guarded, close,
}
use remote_ai_bridge.Domain.Registry.Laws.{get-set_stop, get-set_stops, told}
use remote_ai_bridge.Services.Runtime.Threads.{
  Thread, Machine, idle, runs, current, replace, begin_stop, end_stop, end_unsupervised, shutdown,
  finish_all, finish, Step, started, stop_begun, stop_ended, unsupervised_ended, closed, finished,
  Reach, initial, later,
}
use remote_ai_bridge.Services.Runtime.Threads.Laws.{
  In, running, Has, Inv, In-runs, In-current, Inv-registry, start-Inv,
}

pub stop_cases :
    (b : Bool) (name : String) (r : Registry)
    → ((e : Exn) × (stop_region b name r ≡ raised e))
      ⊎ (stop_region b name r
          ≡ ok (
              if b
              then request_stop name (record r { stopping = name ∷ r.stopping })
              else record r { stopping = name ∷ r.stopping }))
unfolding stop_region begin_profile_stop
stop_cases b name r = elim (Bool-cases (contains_name name r.stopping)) [
  | inl e ↦ inl (in_progress name, simp e)
  | inr e ↦ inr (simp e)
]

Has-request_stop :
    (name : String) (r : Registry) (t : Thread) → Has r t → Has (request_stop name r) t
unfolding request_stop
Has-request_stop name r t (w, g, d, k) = elim (Bool-cases (name == t.profile)) [
  | inl e ↦ (told w, ground (arith, get-set_stop name t.profile r.workers, g, e), d, λ _. refl)
  | inr e ↦ (w, ground (arith, get-set_stop name t.profile r.workers, g, e), d, k)
]

Has-requested :
    (b : Bool) (name : String) (r : Registry) (t : Thread)
    → Has r t
    → Has (if b then request_stop name r else r) t
Has-requested true name r t h = Has-request_stop name r t h
Has-requested false name r t h = h

begin_stop-Inv : (m : Machine) (name : String) → Inv m → Inv (begin_stop name m)
unfolding begin_stop replace
begin_stop-Inv m name v =
    let b = is_some (current m name) in
    elim (stop_cases b name m.registry) [
      | inl (e, q) ↦ subst (λ r. Inv (replace m r)) (sym q) v
      | inr q ↦
          subst (λ r. Inv (replace m r)) (sym q)
            (Inv-registry m _ v (λ t h _ _.
              Has-requested b name (record m.registry { stopping = name ∷ m.registry.stopping }) t
                h))
    ]

end_stop-Inv : (m : Machine) (name : String) → Inv m → Inv (end_stop name m)
unfolding end_stop end_profile_stop
end_stop-Inv m name v = Inv-registry m _ v (λ t h _ _. h)

Has-removed :
    (pop : Bool) (name : String) (r : Registry) (t : Thread)
    → (pop ≡ true → t.profile ≢ name)
    → Has r t
    → Has (if pop then record r { workers = remove name r.workers } else r) t
Has-removed true name r t n (w, g, d, k) =
    (w, ground (arith, get-remove name t.profile r.workers, g, n refl, eq_iff name t.profile), d, k)
Has-removed false name r t n h = h

not_live : (a : Bool) (o : Option Worker) → (a && not (is_some o)) ≡ true → o ≡ none
not_live a o h = ground (arith, h)

-- a finished worker that is taken out of the registry is no running thread's
end_unsupervised-Inv :
    (m : Machine) (name : String) (expected : Option Worker)
    → Inv m
    → Inv (end_unsupervised name expected m)
unfolding end_unsupervised end_guarded end_profile_stop
end_unsupervised-Inv m name expected v = Inv-registry m _ v λ t h i f.
    let (w, g, d, _) = h in
    Has-removed _ name m.registry t
      (λ pop q. In-current m t i f (w, g, d) (ap (current m) q ∙ not_live _ (current m name) pop)) h

shutdown-Inv : (m : Machine) → Inv m → Inv (shutdown m)
unfolding shutdown close
shutdown-Inv m v = Inv-registry m _ v λ t (w, g, d, k) i f.
    let e = In-runs t m.threads i f in
    (
      told w,
      ground
          (arith, get-set_stops (λ w. runs w.id m.threads) t.profile m.registry.workers, g, d, e),
      d,
      λ _. refl,
    )

unfinished :
    (b : Bool) (t u : Thread)
    → t ≡ (if b then record u { finished = true } else u)
    → t.finished ≡ false
    → t ≡ u
unfinished true t u e f = elim (contradiction f (ap (λ (x : Thread). x.finished) e)) [ ]
  where
    contradiction : {b : Bool} → b ≡ false → b ≡ true → ⊥
    contradiction p q = ground (arith, p, q)
unfinished false t u e f = e

In-finish_all :
    (id : ℕ) (t : Thread) (ts : List Thread)
    → In t (finish_all id ts)
    → t.finished ≡ false
    → In t ts
unfolding finish_all
In-finish_all id t [] i f = i
In-finish_all id t (u ∷ us) (inr i) f = inr (In-finish_all id t us i f)
In-finish_all id t (u ∷ us) (inl e) f = inl (unfinished (nat_eq u.id id) t u e f)

running-finish_all :
    (id : ℕ) (name : String) (ts : List Thread) → running name (finish_all id ts) ≤ running name ts
unfolding finish_all running
running-finish_all id name [] = omega arith
running-finish_all id name (t ∷ ts) = ground (arith, running-finish_all id name ts)

finish-Inv : (m : Machine) (id : ℕ) → Inv m → Inv (finish id m)
unfolding finish
finish-Inv m id v = record {
  owned = λ t i f. v.owned t (In-finish_all id t m.threads i f) f;
  single = λ name. omega (arith, running-finish_all id name m.threads, v.single name);
}

Step-Inv : {m n : Machine} → Step m n → Inv m → Inv n
Step-Inv (started m name) v = start-Inv m v name
Step-Inv (stop_begun m name) v = begin_stop-Inv m name v
Step-Inv (stop_ended m name) v = end_stop-Inv m name v
Step-Inv (unsupervised_ended m name expected) v = end_unsupervised-Inv m name expected v
Step-Inv (closed m) v = shutdown-Inv m v
Step-Inv (finished m id) v = finish-Inv m id v

idle-Inv : Inv idle
unfolding running
idle-Inv = record { owned = λ t i f. elim i [ ]; single = λ name. omega arith }

Reach-Inv : {m : Machine} → Reach m → Inv m
Reach-Inv initial = idle-Inv
Reach-Inv (later r st) = Step-Inv st (Reach-Inv r)

-- In every order of the regions and of the ends of threads, at most one supervisor of a profile
-- runs, and the registry has its worker under the profile's name; once the manager is closed, that
-- worker has been told to stop.
pub Reach-single :
    (m : Machine) (name : String)
    → Reach m
    → (running name m.threads ≤ 1)
      × ((t : Thread)
          → In t m.threads
          → t.finished ≡ false
          → (w : Worker) × (get t.profile m.registry.workers ≡ some w)
            × (w.id ≡ t.id)
            × (m.registry.closed ≡ true → w.stop_event ≡ true))
Reach-single m name r = let v = Reach-Inv r in (v.single name, v.owned)
