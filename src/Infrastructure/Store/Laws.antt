-- ===== src/Infrastructure/Store/Laws.antt =====
-- What the operations of app/infrastructure/profile_store.py establish, and a profile's name is one
-- that a path is made of.
use Prim.Native.Char.{Char}
use Prim.Native.String.{[], ◌∷◌}
use remote_ai_bridge.Prelude.{
  String, Bool-cases, ap, eq_iff, ◌==◌, inl, inr, ◌≡◌, Bool, true, false, none, some, get,
  get-put_self, get-remove_self, arith,
}
use remote_ai_bridge.Domain.Profile.{Profile}
use remote_ai_bridge.Domain.Profile.Rules.{is_valid_profile_name}
use remote_ai_bridge.Text.{matches_class, every}
use remote_ai_bridge.Exec.{Env}
use remote_ai_bridge.Exec.Yields.{
  Anything, Yields, Yields-modify, Yields-after, Yields-if, Yields-raise, yields_rules,
}
use remote_ai_bridge.Infrastructure.Store.{
  is_safe_name, write_profile, save_profile, update_profile, delete_profile,
}

module _ (env : Env) where
  pub write_profile-Yields :
      (p : Profile) → Yields Anything (λ _ s. get p.name s.profiles ≡ some p) (write_profile env p)
  unfolding write_profile
  write_profile-Yields p =
      Yields-after _ _ λ _. Yields-modify _ (λ s _. get-put_self p.name p s.profiles)

  pub save_profile-Yields :
      (p : Profile) (overwrite : Bool)
      → Yields Anything (λ _ s. get p.name s.profiles ≡ some p) (save_profile env p overwrite)
  unfolding save_profile
  save_profile-Yields p overwrite = search (yields_rules, write_profile-Yields)

  pub update_profile-Yields :
      (p : Profile) → Yields Anything (λ _ s. get p.name s.profiles ≡ some p) (update_profile env p)
  unfolding update_profile
  update_profile-Yields p = search (yields_rules, write_profile-Yields)

  pub delete_profile-Yields :
      (name : String)
      → Yields Anything (λ _ s. get name s.profiles ≡ none) (delete_profile env name)
  unfolding delete_profile
  delete_profile-Yields name = Yields-after _ _ λ _. Yields-after _ _ λ found.
      Yields-if _ _ _
        (Yields-after _ _ λ _. Yields-modify _ (λ s _. get-remove_self name s.profiles))
        (Yields-raise _)

abbrev is_empty : String → Bool
is_empty [] = true
is_empty (c ∷ s) = false

nonempty : (c : Char) (s : String) → ((c ∷ s) == "") ≡ false
nonempty c s = elim (Bool-cases ((c ∷ s) == "")) [
  | inl e ↦ ground (arith, ap is_empty ((eq_iff (c ∷ s) "").0 e))
  | inr e ↦ e
]

-- Every name that PROFILE_NAME_RE accepts is one that `_profile_path` and `_runtime_path` accept.
pub is_valid_profile_name-is_safe_name :
    (name : String) → is_valid_profile_name name ≡ true → is_safe_name name ≡ true
unfolding is_valid_profile_name is_safe_name matches_class every
is_valid_profile_name-is_safe_name [] h = ground (arith, h)
is_valid_profile_name-is_safe_name (c ∷ s) h = ground (arith, h, nonempty c s)
