-- ===== src/Services/Profiles/Deletion.antt =====
-- What `delete` of app/services/profile_service.py has done when it returns.
use mathlib.Core.Path.{subst}
use remote_ai_bridge.Prelude.{
  String, ◌≡◌, refl, false, ◌||◌, Option, none, some, ◌==◌, nat_eq, Dict, get, is_some,
  get-remove_self, arith,
}
use remote_ai_bridge.Domain.Errors.{ok}
use remote_ai_bridge.Domain.Profile.{Profile}
use remote_ai_bridge.Domain.Runtime.{RuntimeState}
use remote_ai_bridge.Exec.{Env, Sys}
use remote_ai_bridge.Exec.Yields.{
  Holds, Yields, Yields-pure, Yields-bind, Yields-after, Yields-raise, Yields-catch, Yields-kept,
  Yields-if, Yields-if_cases, Yields-with, Yields-mono, Yields-modify, Yields-gets,
}
use remote_ai_bridge.Infrastructure.Store.{delete_profile}
use remote_ai_bridge.Infrastructure.Store.Reads.{
  path_of-Keeps, file_operation-Keeps, load_profile-Yields, supervisor_lock-Yields,
}
use remote_ai_bridge.Services.Options.{Config}
use remote_ai_bridge.Services.Supervisor.Ending.{load_runtime-Yields}
use remote_ai_bridge.Services.Profiles.{DeleteResult, delete_locked, delete}

module _ (env : Env) (name : String) where
  IsGone : Sys → Type 0
  IsGone s = (get name s.profiles ≡ none) × (get name s.runtimes ≡ none)

  delete_profile-IsGone :
      Yields (λ s. get name s.runtimes ≡ none) (λ _. IsGone) (delete_profile env name)
  unfolding delete_profile IsGone
  delete_profile-IsGone =
      Yields-bind _ _ (Yields-kept _ (path_of-Keeps env _ (λ s t h. h) name)) λ _.
        Yields-bind {R = λ _ s. get name s.runtimes ≡ none} _ _ (Yields-gets _ (λ s h. h)) λ found.
          Yields-if _ _ _
            (Yields-bind _ _ (Yields-kept _ (file_operation-Keeps env _ (λ s t h. h)))
              λ _. Yields-modify _ (λ s h. (get-remove_self name s.profiles, h)))
            (Yields-raise _)

  -- the profile was there and not managed
  IsLegacy : Dict Profile → Type 0
  IsLegacy d =
      (p : Profile) × (get name d ≡ some p)
      × (nat_eq p.schema_version 2 ≡ false)
      × ((p.profile_type == "managed") ≡ false)

  legacy :
      (d : Dict Profile) (p : Profile)
      → get name d ≡ some p
      → (nat_eq p.schema_version 2 || p.profile_type == "managed") ≡ false
      → IsLegacy d
  unfolding IsLegacy
  legacy d p e h = (p, e, ground (arith, h), ground (arith, h))

  none_left : (r : Option RuntimeState) → is_some r ≡ false → r ≡ none
  none_left none h = refl
  none_left (some r) h = ground (arith, h)

  module _ (cfg : Config) where
    delete_locked-Yields :
        (d : Dict Profile)
        → Yields (λ s. s.profiles ≡ d) (λ _ s. IsLegacy d × IsGone s) (delete_locked env cfg name)
    unfolding delete_locked
    delete_locked-Yields d =
        Yields-bind _ _
          (Yields-mono _ (λ s h. (h, tt))
            (load_profile-Yields env (λ _. Unit {0}) (λ s t h. h) name d))
          λ p.
            Yields-if_cases _ _ _ (λ _. Yields-raise _)
              λ h.
                Yields-with _ (λ s e. legacy d p e.0 h)
                  (Yields-after _ _ λ state. Yields-after _ _ λ flags.
                    Yields-bind _ _ (load_runtime-Yields env name) λ r.
                      Yields-if_cases _ _ _ (λ _. Yields-raise _)
                        λ e.
                          Yields-bind _ _
                            (Yields-mono _ (λ s f. f (none_left r e)) delete_profile-IsGone)
                            (λ _. Yields-pure _ (λ s g. g)))

    delete-Yields :
        (d : Dict Profile)
        → Yields (λ s. s.profiles ≡ d) (λ _ s. IsLegacy d × IsGone s) (delete env cfg name)
    unfolding delete IsGone
    delete-Yields d =
        Yields-catch _ _
          (supervisor_lock-Yields env _ (λ s t h. h) name _ _ (λ a s t h. h)
            (delete_locked-Yields d))
          (λ e. Yields-raise _)

    -- A `delete` that returns has found a profile of that name that is not managed, and has left
    -- neither a profile nor a runtime state of that name.
    pub delete-removes :
        (r : DeleteResult) (s s' : Sys)
        → delete env cfg name s ≡ (ok r, s')
        → ((p : Profile) × (get name s.profiles ≡ some p)
            × (nat_eq p.schema_version 2 ≡ false)
            × ((p.profile_type == "managed") ≡ false))
          × (get name s'.profiles ≡ none)
          × (get name s'.runtimes ≡ none)
    unfolding IsLegacy IsGone
    delete-removes r s s' h =
        let (l, g) =
          subst (Holds (λ _ s'. IsLegacy s.profiles × IsGone s')) h
            ((delete-Yields s.profiles).at s refl) in
        (l, g.0, g.1)
