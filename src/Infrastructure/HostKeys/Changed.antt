-- ===== src/Infrastructure/HostKeys/Changed.antt =====
-- When the known_hosts file of app/infrastructure/host_key_store.py names a host by other keys only.
use mathlib.Core.List
use mathlib.Core.Path.{◌∙◌}
use text.Mathlib.TextEquality.{eq_iff}
use text.Mathlib.TextPositions.{eq_refl}
use remote_ai_bridge.Prelude.{
  String, ◌≡◌, ◌≢◌, ◌⊎◌, refl, sym, ap, Bool, true, false, ◌&&◌, [], ◌∷◌, ◌++◌, ◌==◌, arith, any,
  Bool-cases, inl, inr, if◌then◌else◌,
}
use remote_ai_bridge.Text.{words}
use remote_ai_bridge.Infrastructure.HostKeys.{
  HostKeyInfo, host_token, entry_of, entries_for, confirmed, changed, judge,
}
use remote_ai_bridge.Infrastructure.HostKeys.Laws.{right-empty}

-- one of the lines names the host: its first word is the host's, and a type and a key follow
unfoldable pub IsNamed : String → List.List String → Type 0
IsNamed token [] = ⊥
IsNamed token (l ∷ ls) =
    ((key_type : String) × (key : String) × (rest : List.List String) × (words l
        ≡ token ∷ key_type ∷ key ∷ rest))
    ⊎ IsNamed token ls

-- none of the lines gives this key for the host
unfoldable pub IsNotGiven : HostKeyInfo → List.List String → Type 0
IsNotGiven info [] = Unit
IsNotGiven info (l ∷ ls) =
    ((rest : List.List String) → words l ≢ host_token info ∷ info.key_type ∷ info.key_base64 ∷ rest)
    × IsNotGiven info ls

named_entry :
    (token key_type key : String) (rest : List.List String)
    → entry_of token (token ∷ key_type ∷ key ∷ rest) ≡ ((key_type, key) ∷ [])
unfolding entry_of
named_entry token key_type key rest = simp (eq_refl)

entries_for-IsNamed :
    (token : String) (ls : List.List String) → IsNamed token ls → entries_for token ls ≢ []
unfolding entries_for entry_of IsNamed
entries_for-IsNamed token [] named h = elim named [ ]
entries_for-IsNamed token (l ∷ ls) (inl (t, k, rest, e)) h = clash (
    sym (ap (λ es. es ++ entries_for token ls) (ap (entry_of token) e ∙ named_entry token t k rest))
    ∙ h)
  where
    clash : {x : String × String} {xs : List.List (String × String)} → (x ∷ xs) ≡ [] → ⊥
    clash h = ground (arith, h)
entries_for-IsNamed token (l ∷ ls) (inr n) h =
    entries_for-IsNamed token ls n (right-empty (entry_of token (words l)) _ h)

module _ (info : HostKeyInfo) where
  abbrev is_same : String × String → Bool
  is_same entry = entry.0 == info.key_type && entry.1 == info.key_base64

  any-append :
      (es fs : List.List (String × String))
      → any is_same es ≡ false
      → any is_same fs ≡ false
      → any is_same (es ++ fs) ≡ false
  any-append [] fs h k = k
  any-append (e ∷ es) fs h k = ground (arith, h, any-append es fs, k)

  entry_of-differs :
      (ws : List.List String)
      → ((rest : List.List String) → ws ≢ host_token info ∷ info.key_type ∷ info.key_base64 ∷ rest)
      → any is_same (entry_of (host_token info) ws) ≡ false
  unfolding entry_of
  entry_of-differs [] n = refl
  entry_of-differs (a ∷ []) n = refl
  entry_of-differs (a ∷ b ∷ []) n = refl
  entry_of-differs (a ∷ b ∷ c ∷ rest) n = elim (Bool-cases (a == host_token info)) [
    | inr e ↦ simp e
    | inl e ↦ elim (Bool-cases (is_same (b, c))) [
      | inr d ↦ simp (e, d)
      | inl d ↦ elim (n rest (same e (both.0 d) (both.1 d))) [ ]
    ]
  ]
    where
      both : {x y : Bool} → ((x && y) ≡ true → x ≡ true) × ((x && y) ≡ true → y ≡ true)
      both = (λ h. ground (arith, h), λ h. ground (arith, h))

      same :
          (a == host_token info) ≡ true
          → (b == info.key_type) ≡ true
          → (c == info.key_base64) ≡ true
          → (a ∷ b ∷ c ∷ rest) ≡ host_token info ∷ info.key_type ∷ info.key_base64 ∷ rest
      same e f g =
          ap (λ x. x ∷ b ∷ c ∷ rest) ((eq_iff a (host_token info)).0 e)
          ∙ ap (λ x. host_token info ∷ x ∷ c ∷ rest) ((eq_iff b info.key_type).0 f)
          ∙ ap (λ x. host_token info ∷ info.key_type ∷ x ∷ rest) ((eq_iff c info.key_base64).0 g)

  any-IsNotGiven :
      (ls : List.List String)
      → IsNotGiven info ls
      → any is_same (entries_for (host_token info) ls) ≡ false
  unfolding entries_for IsNotGiven
  any-IsNotGiven [] n = refl
  any-IsNotGiven (l ∷ ls) (n, ns) =
      any-append (entry_of (host_token info) (words l)) _ (entry_of-differs (words l) n)
        (any-IsNotGiven ls ns)

  judge-changed :
      (es : List.List (String × String))
      → es ≢ []
      → any is_same es ≡ false
      → judge info es ≡ changed
  unfolding judge
  judge-changed [] n h = elim (n refl) [ ]
  judge-changed (e ∷ es) n h = ap (λ (b : Bool). if b then confirmed else changed) h

  pub judge-IsNamed :
      (ls : List.List String)
      → IsNamed (host_token info) ls
      → IsNotGiven info ls
      → judge info (entries_for (host_token info) ls) ≡ changed
  judge-IsNamed ls named n = judge-changed _ (entries_for-IsNamed _ ls named) (any-IsNotGiven ls n)
