-- ===== src/Domain/Profile/RoundTrip.antt =====
-- What `to_dict` writes of a profile of app/domain/profile.py, `from_dict` reads.
use mathlib.Core.Path.{◌∙◌, subst}
use remote_ai_bridge.Prelude.{
  ℕ, String, ◌≡◌, refl, sym, ap, false, Option, none, some, arith, get, remove, inl, inr, is_some,
  ◌||◌, ◌⊎◌,
}
use remote_ai_bridge.Domain.Errors.{ok, ◌>>=◌}
use remote_ai_bridge.Domain.Python.{Python}
use remote_ai_bridge.Domain.Profile.{Profile, validate}
use remote_ai_bridge.Domain.Profile.Laws.{IsLegacyProfile, IsManagedProfile, validate_iff}
use remote_ai_bridge.Domain.Profile.Fields.{
  text, asdict, pop_all, managed_keys, setdefault, read_text, read_number, read_flag,
  read_nullable_text, read_nullable_number, are_fields, construct, schema_of, nullable_text,
  nullable_number, to_dict, from_dict,
}

read_nullable_text-nullable_text :
    (o : Option String) → read_nullable_text (some (nullable_text o)) ≡ ok o
unfolding read_nullable_text
read_nullable_text-nullable_text none = refl
read_nullable_text-nullable_text (some s) = refl

read_nullable_number-nullable_number :
    (o : Option ℕ) → read_nullable_number (some (nullable_number o)) ≡ ok o
unfolding read_nullable_number
read_nullable_number-nullable_number none = refl
read_nullable_number-nullable_number (some n) = refl

construct-asdict : (p : Profile) → construct p.schema_version (asdict p) ≡ ok p
unfolding construct asdict are_fields read_text read_number read_flag get
construct-asdict p = simp (read_nullable_text-nullable_text, read_nullable_number-nullable_number)

-- a profile of schema version 1 without the fields that it does not write
abbrev legacy : Profile → Profile
legacy p = record p {
  schema_version = 1;
  profile_type = "legacy";
  host = none;
  username = none;
  ssh_port = none;
  key_id = none;
  host_key_type = none;
  host_key_fingerprint = none;
}

construct-pop_all :
    (p : Profile)
    → construct 1 (setdefault "profile_type" (text "legacy") (pop_all managed_keys (asdict p)))
      ≡ ok (legacy p)
unfolding construct asdict are_fields read_text read_number read_flag get pop_all remove setdefault
    read_nullable_text read_nullable_number
construct-pop_all p = refl

nothing_managed :
    (a b d e g : Option String) (c : Option ℕ)
    → (is_some a || is_some b || is_some c || is_some d || is_some e || is_some g) ≡ false
    → (a ≡ none) × (b ≡ none) × (c ≡ none) × (d ≡ none) × (e ≡ none) × (g ≡ none)
nothing_managed none none none none none none h = (refl, refl, refl, refl, refl, refl)
nothing_managed (some _) b d e g c h = ground (arith, h)
nothing_managed none (some _) d e g c h = ground (arith, h)
nothing_managed none none d e g (some _) h = ground (arith, h)
nothing_managed none none (some _) e g none h = ground (arith, h)
nothing_managed none none none (some _) g none h = ground (arith, h)
nothing_managed none none none none (some _) none h = ground (arith, h)

legacy-same : (p : Profile) → IsLegacyProfile p → legacy p ≡ p
legacy-same p (v, t, m) =
    let (a, b, c, d, e, g) =
      nothing_managed p.host p.username p.key_id p.host_key_type p.host_key_fingerprint p.ssh_port
        m in
    λ i. record p {
      schema_version = sym v i;
      profile_type = sym t i;
      host = sym a i;
      username = sym b i;
      ssh_port = sym c i;
      key_id = sym d i;
      host_key_type = sym e i;
      host_key_fingerprint = sym g i;
    }

abbrev current : Profile → Profile
current p = record p { schema_version = 2 }

current-same : (p : Profile) → p.schema_version ≡ 2 → current p ≡ p
current-same p v = λ i. record p { schema_version = sym v i }

module _ (py : Python) where
  abbrev IsReread : Profile → Type 0
  IsReread p = (to_dict py p >>= from_dict py) ≡ ok p

  legacy-IsReread : (p : Profile) → validate py (legacy p) ≡ ok tt → IsReread (legacy p)
  unfolding to_dict from_dict schema_of pop_all remove asdict get construct are_fields setdefault
  legacy-IsReread p v = simp (v, construct-pop_all p)

  current-IsReread : (p : Profile) → validate py (current p) ≡ ok tt → IsReread (current p)
  unfolding to_dict from_dict schema_of asdict get
  current-IsReread p v = simp (v, construct-asdict (current p))

  -- both kinds of profiles are read back
  reread :
      (p : Profile) → validate py p ≡ ok tt → IsLegacyProfile p ⊎ IsManagedProfile p → IsReread p
  reread p v (inl h) =
      let same = legacy-same p h in
      subst IsReread same (legacy-IsReread p (ap (validate py) same ∙ v))
  reread p v (inr (m, e, t, values, h)) =
      let same = current-same p e in
      subst IsReread same (current-IsReread p (ap (validate py) same ∙ v))

-- A profile that `validate` accepts can be written, and what `to_dict` writes of it, without the seven
-- managed fields where its schema version is 1, `from_dict` reads as the same profile.
pub to_dict-from_dict :
    (py : Python) (p : Profile) → validate py p ≡ ok tt → (to_dict py p >>= from_dict py) ≡ ok p
to_dict-from_dict py p v = reread py p v ((validate_iff py p).0 v).kind
