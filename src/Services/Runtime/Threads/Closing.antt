-- ===== src/Services/Runtime/Threads/Closing.antt =====
-- What a closed manager and a profile that is being stopped refuse in
-- app/services/runtime_manager.py.
use mathlib.Core.Path.{subst, ◌∙◌}
use remote_ai_bridge.Prelude.{
  ℕ, length, String, ◌≡◌, ◌≢◌, refl, sym, ap, inl, inr, Bool, true, false, ◌||◌, Option, none, some,
  List, [], ◌∷◌, get, remove, is_some, arith, if◌then◌else◌, Bool-cases,
}
use remote_ai_bridge.Domain.Errors.{Exn, Result, raised, rab_error}
use remote_ai_bridge.Domain.Registry.{
  Worker, Registry, ensure_start_allowed, contains_name, start_region, in_progress, stop_region,
  begin_profile_stop, request_stop, end_profile_stop, end_guarded, close,
}
use remote_ai_bridge.Domain.Registry.Laws.{get-set_stop, told}
use remote_ai_bridge.Services.Runtime.Threads.{
  Thread, Machine, current, launch, start, replace, begin_stop, end_stop, end_unsupervised,
  shutdown, finish_all, finish, Step, started, stop_begun, stop_ended, unsupervised_ended, closed,
  finished, Reach,
}
use remote_ai_bridge.Services.Runtime.Threads.Safety.{stop_cases, Reach-single}
use remote_ai_bridge.Services.Runtime.Threads.Laws.{In, In-current}
use text.Mathlib.TextPositions.{eq_refl}

refused :
    (c : Option Worker) (name : String) (r : Registry)
    → (r.closed || contains_name name r.stopping) ≡ true
    → (e : Exn) × (start_region c name r ≡ raised e)
unfolding start_region ensure_start_allowed
refused c name r h = elim (Bool-cases r.closed) [
  | inl e ↦ (rab_error "RUNTIME_MANAGER_SHUTTING_DOWN" false [], refused_closed c name r e)
  | inr e ↦ (in_progress name, refused_stopping c name r e (ground (arith, h, e)))
]
  where
    refused_closed :
        (c : Option Worker) (name : String) (r : Registry)
        → r.closed ≡ true
        → start_region c name r ≡ raised (rab_error "RUNTIME_MANAGER_SHUTTING_DOWN" false [])
    refused_closed none name r e = simp e
    refused_closed (some w) name r e = simp e

    refused_stopping :
        (c : Option Worker) (name : String) (r : Registry)
        → r.closed ≡ false
        → contains_name name r.stopping ≡ true
        → start_region c name r ≡ raised (in_progress name)
    refused_stopping none name r e f = simp (e, f)
    refused_stopping (some w) name r e f = simp (e, f)

-- A manager that is closed, or on which a stop of the profile is in progress, starts no supervisor
-- for it and changes nothing.
pub start-refused :
    (m : Machine) (name : String)
    → (m.registry.closed || contains_name name m.registry.stopping) ≡ true
    → start name m ≡ m
unfolding start launch
start-refused m name h =
    let (e, q) = refused (current m name) name m.registry h in ap (launch name (current m name) m) q

request-closed :
    (b : Bool) (name : String) (r : Registry)
    → (if b then request_stop name r else r).closed ≡ r.closed
unfolding request_stop
request-closed true name r = refl
request-closed false name r = refl

stop-closed :
    (b : Bool) (name : String) (m : Machine) (r : Result Registry)
    → r ≡ stop_region b name m.registry
    → m.registry.closed ≡ true
    → ((replace m r).registry.closed ≡ true) × (length (replace m r).threads ≡ length m.threads)
unfolding replace
stop-closed b name m r q h = elim (stop_cases b name m.registry) [
  | inl (e, k) ↦
      subst
        (λ x.
          ((replace m x).registry.closed ≡ true)
          × (length (replace m x).threads ≡ length m.threads))
        (sym (q ∙ k)) (h, refl)
  | inr k ↦
      subst
        (λ x.
          ((replace m x).registry.closed ≡ true)
          × (length (replace m x).threads ≡ length m.threads))
        (sym (q ∙ k))
        (
          request-closed b name (record m.registry { stopping = name ∷ m.registry.stopping }) ∙ h,
          refl,
        )
]

removed-closed :
    (b : Bool) (name : String) (r : Registry)
    → (if b then record r { workers = remove name r.workers } else r).closed ≡ r.closed
removed-closed true name r = refl
removed-closed false name r = refl

length-finish_all : (id : ℕ) (ts : List Thread) → length (finish_all id ts) ≡ length ts
unfolding finish_all
length-finish_all id [] = refl
length-finish_all id (t ∷ ts) = simp (length-finish_all id ts)

-- A manager that is closed stays closed, whatever happens next, and no other thread is started.
pub Step-closed :
    {m n : Machine}
    → Step m n
    → m.registry.closed ≡ true
    → (n.registry.closed ≡ true) × (length n.threads ≡ length m.threads)
unfolding end_stop end_profile_stop end_unsupervised end_guarded shutdown close finish begin_stop
Step-closed (started m name) h =
    subst (λ n. (n.registry.closed ≡ true) × (length n.threads ≡ length m.threads))
      (sym (start-refused m name (ground (arith, h)))) (h, refl)
Step-closed (stop_begun m name) h = stop-closed _ name m _ refl h
Step-closed (stop_ended m name) h = (h, refl)
Step-closed (unsupervised_ended m name expected) h = (removed-closed _ name m.registry ∙ h, refl)
Step-closed (closed m) h = (refl, refl)
Step-closed (finished m id) h = (h, length-finish_all id m.threads)

-- A call of `stop` reaches the supervisor: where a thread of the profile runs, and no other stop of
-- the profile is in progress, the worker that the registry has for the profile is that thread's, and
-- its stop event is set afterwards.
pub begin_stop-told :
    (m : Machine) (t : Thread)
    → Reach m
    → In t m.threads
    → t.finished ≡ false
    → contains_name t.profile m.registry.stopping ≡ false
    → (w : Worker) × (get t.profile (begin_stop t.profile m).registry.workers ≡ some w)
      × (w.id ≡ t.id)
      × (w.stop_event ≡ true)
unfolding begin_stop stop_region begin_profile_stop request_stop replace
begin_stop-told m t r i f c =
    let (w, g, d, _) = (Reach-single m t.profile r).1 t i f in
    (
      told w,
      found (is_some (current m t.profile)) w g c (live _ (In-current m t i f (w, g, d))),
      d,
      refl,
    )
  where
    live : (o : Option Worker) → o ≢ none → is_some o ≡ true
    live o n = ground (arith, n)

    found :
        (b : Bool) (w : Worker)
        → get t.profile m.registry.workers ≡ some w
        → contains_name t.profile m.registry.stopping ≡ false
        → b ≡ true
        → get t.profile (replace m (stop_region b t.profile m.registry)).registry.workers
          ≡ some (told w)
    found b w g c e = simp (c, e, get-set_stop, g, eq_refl)
