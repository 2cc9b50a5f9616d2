-- ===== src/Services/Profiles/Laws.antt =====
-- What the methods of app/services/profile_service.py have done when they return.
use mathlib.Core.Path.{subst, ◌∙◌}
use remote_ai_bridge.Prelude.{
  String, ◌≡◌, refl, sym, ap, not, ◌&&◌, Dict, false, Option, none, some, List, [], ◌∷◌, get,
  is_some, arith,
}
use remote_ai_bridge.Domain.Errors.{ok}
use remote_ai_bridge.Domain.Profile.{Profile}
use remote_ai_bridge.Domain.Runtime.{RuntimeState}
use remote_ai_bridge.Exec.{Env, Sys}
use remote_ai_bridge.Exec.Keeps.{Keeps-lift}
use remote_ai_bridge.Exec.Yields.{
  Holds, Yields, Yields-pure, Yields-bind, Yields-raise, Yields-catch, Yields-kept, Yields-if_cases,
  Yields-weaken, Yields-with, Yields-mono, Yields-gets,
}
use remote_ai_bridge.Infrastructure.Store.{save_profile}
use remote_ai_bridge.Infrastructure.Store.Reads.{
  path_of-Keeps, load_profile-Yields, load_runtime-Yields, supervisor_lock-Yields,
}
use remote_ai_bridge.Infrastructure.Store.Laws.{write_profile-Yields, update_profile-Yields}
use remote_ai_bridge.Services.Profiles.{
  Change, apply_changes, create, update_locked, update_fields, update_checked, update,
}

abbrev IsStored : Profile → Sys → Type 0
IsStored p s = get p.name s.profiles ≡ some p

module _ (env : Env) where
  -- the profile is stored, and there was none of its name in the dictionary
  IsCreated : Profile → Dict Profile → Profile → Sys → Type 0
  IsCreated p d q s = (q ≡ p) × (get p.name d ≡ none) × IsStored p s

  no_profile : (o : Option Profile) → (is_some o && not false) ≡ false → o ≡ none
  no_profile none h = refl
  no_profile (some p) h = ground (arith, h)

  save_new-Yields :
      (p : Profile) (d : Dict Profile)
      → Yields
          (λ s. s.profiles ≡ d)
          (λ _ s. (get p.name d ≡ none) × IsStored p s)
          (save_profile env p false)
  unfolding save_profile
  save_new-Yields p d = Yields-bind _ _ (Yields-kept _ (Keeps-lift _)) λ _.
      Yields-bind _ _ (Yields-kept _ (path_of-Keeps env _ (λ s t h. h) p.name)) λ _.
        Yields-bind {R = λ o s. o ≡ get p.name d} _ _ (Yields-gets _ (λ s h. ap (get p.name) h))
          λ o.
            Yields-if_cases _ _ _ (λ _. Yields-raise _)
              (λ new.
                Yields-with _ (λ s h. sym h ∙ no_profile o new)
                  (Yields-weaken _ (write_profile-Yields env p)))

  create-Yields :
      (p : Profile) (d : Dict Profile) → Yields (λ s. s.profiles ≡ d) (IsCreated p d) (create env p)
  unfolding create IsCreated
  create-Yields p d =
      Yields-catch _ _
        (Yields-bind _ _ (Yields-kept _ (Keeps-lift _)) λ _.
          Yields-bind _ _
            (supervisor_lock-Yields env _ (λ s t h. h) p.name _ _ (λ a s t h. h)
              (save_new-Yields p d))
            (λ _. Yields-pure p (λ s h. (refl, h.0, h.1))))
        (λ e. Yields-raise _)

  -- A `create` that returns has stored the given profile under a name that had none before.
  pub create-IsStored :
      (p q : Profile) (s s' : Sys)
      → create env p s ≡ (ok q, s')
      → (q ≡ p) × (get p.name s.profiles ≡ none) × (get p.name s'.profiles ≡ some p)
  unfolding IsCreated
  create-IsStored p q s s' h =
      subst (Holds (IsCreated p s.profiles)) h ((create-Yields p s.profiles).at s refl)

  IsUpdated : String → List Change → Dict Profile → Dict RuntimeState → Profile → Sys → Type 0
  IsUpdated name changes d e q s =
      (get name e ≡ none)
      × ((p : Profile) × (get name d ≡ some p) × (q ≡ apply_changes p changes))
      × IsStored q s

  absent : (o : Option RuntimeState) → is_some o ≡ false → o ≡ none
  absent none h = refl
  absent (some r) h = ground (arith, h)

  update_locked-Yields :
      (name : String) (changes : List Change) (d : Dict Profile) (e : Dict RuntimeState)
      → Yields
          (λ s. (s.profiles ≡ d) × (s.runtimes ≡ e))
          (IsUpdated name changes d e)
          (update_locked env name changes)
  unfolding update_locked IsUpdated
  update_locked-Yields name changes d e =
      Yields-bind _ _ (load_profile-Yields env (λ s. s.runtimes ≡ e) (λ s t h. h) name d) λ p.
        Yields-bind _ _
          (Yields-mono _ (λ s h. (h.1, h.0))
            (load_runtime-Yields env (λ _. get name d ≡ some p) (λ s t h. h) name e))
          λ r.
            Yields-if_cases _ _ _ (λ _. Yields-raise _)
              λ free. Yields-bind _ _ (Yields-kept _ (Keeps-lift _)) λ _.
                Yields-bind _ _
                  (Yields-with _ (λ s h. h)
                    (Yields-weaken _ (update_profile-Yields env (apply_changes p changes))))
                  λ _. Yields-pure _ (λ s h. (h.0.0 ∙ absent r free, (p, h.0.1, refl), h.1))

  update_fields-Yields :
      (name : String) (changes : List Change) (d : Dict Profile) (e : Dict RuntimeState)
      → Yields
          (λ s. (s.profiles ≡ d) × (s.runtimes ≡ e))
          (IsUpdated name changes d e)
          (update_fields env name changes)
  unfolding update_fields IsUpdated
  update_fields-Yields name changes d e =
      Yields-catch _ _
        (supervisor_lock-Yields env _ (λ s t h. h) name _ _ (λ a s t h. h)
          (update_locked-Yields name changes d e))
        (λ e. Yields-raise _)

  update_checked-Yields :
      (name : String) (changes : List Change) (fields : List String) (d : Dict Profile)
      (e : Dict RuntimeState)
      → Yields
          (λ s. (s.profiles ≡ d) × (s.runtimes ≡ e))
          (IsUpdated name changes d e)
          (update_checked env name changes fields)
  unfolding update_checked
  update_checked-Yields name changes [] d e = update_fields-Yields name changes d e
  update_checked-Yields name changes (f ∷ fs) d e = Yields-raise _

  update-Yields :
      (name : String) (changes : List Change) (d : Dict Profile) (e : Dict RuntimeState)
      → Yields
          (λ s. (s.profiles ≡ d) × (s.runtimes ≡ e))
          (IsUpdated name changes d e)
          (update env name changes)
  unfolding update
  update-Yields name [] d e = Yields-raise _
  update-Yields name (c ∷ cs) d e = update_checked-Yields name (c ∷ cs) _ d e

  -- An `update` that returns has found no runtime state of the profile, and has stored the stored
  -- profile with the changes applied, which is what it returns.
  pub update-IsStored :
      (name : String) (changes : List Change) (q : Profile) (s s' : Sys)
      → update env name changes s ≡ (ok q, s')
      → (get name s.runtimes ≡ none)
        × ((p : Profile) × (get name s.profiles ≡ some p) × (q ≡ apply_changes p changes))
        × (get q.name s'.profiles ≡ some q)
  unfolding IsUpdated
  update-IsStored name changes q s s' h =
      subst (Holds (IsUpdated name changes s.profiles s.runtimes)) h
        ((update-Yields name changes s.profiles s.runtimes).at s (refl, refl))
