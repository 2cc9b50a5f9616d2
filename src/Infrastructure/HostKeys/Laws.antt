-- ===== src/Infrastructure/HostKeys/Laws.antt =====
-- The lines of the known_hosts file of app/infrastructure/host_key_store.py as entries.

use mathlib.Core.List
use mathlib.Core.Path.{◌∙◌}
use text.Mathlib.TextEquality.{eq_iff}
use text.Mathlib.TextPositions.{eq_refl}
use remote_ai_bridge.Prelude.{
  String, ◌≡◌, refl, sym, ap, Bool, true, false, ◌&&◌, ◌||◌, Option, none, some, [], ◌∷◌, ◌++◌,
  ◌==◌, arith, any, Bool-cases, inl, inr, if◌then◌else◌,
}
use remote_ai_bridge.Text.{words, format, strip}
use remote_ai_bridge.Text.Words.{is_word, words-three, strip-word}
use remote_ai_bridge.Infrastructure.HostKeys.{
  HostKeyInfo, host_token, exact_line, nonblank, entry_of, entries_for, unknown, confirmed, changed,
  judge, has_line, remove_line,
}

-- the parts of the entry are words, so that they can be told apart again
pub record IsPlain (info : HostKeyInfo) : Type 0 where
  pub token : is_word (host_token info) ≡ true
  pub key_type : is_word info.key_type ≡ true
  pub key : is_word info.key_base64 ≡ true

-- the lines that `_read_lines` returns
unfoldable pub known_lines : Option (List.List String) → List.List String
unfolding nonblank
known_lines none = []
known_lines (some lines) = nonblank lines

nonblank-append : (ls ms : List.List String) → nonblank (ls ++ ms) ≡ nonblank ls ++ nonblank ms
unfolding nonblank
nonblank-append [] ms = refl
nonblank-append (l ∷ ls) ms = elim (Bool-cases (strip l == "")) [
  | inl e ↦ simp (e, nonblank-append ls ms)
  | inr e ↦ simp (e, nonblank-append ls ms)
]

nonblank-nonblank : (ls : List.List String) → nonblank (nonblank ls) ≡ nonblank ls
unfolding nonblank
nonblank-nonblank [] = refl
nonblank-nonblank (l ∷ ls) = elim (Bool-cases (strip l == "")) [
  | inl e ↦ simp (e, nonblank-nonblank ls)
  | inr e ↦ simp (e, nonblank-nonblank ls)
]

known_lines-nonblank :
    (file : Option (List.List String)) → nonblank (known_lines file) ≡ known_lines file
unfolding known_lines nonblank
known_lines-nonblank none = refl
known_lines-nonblank (some ls) = nonblank-nonblank ls

entries_for-append :
    (token : String) (ls ms : List.List String)
    → entries_for token (ls ++ ms) ≡ entries_for token ls ++ entries_for token ms
unfolding entries_for
entries_for-append token [] ms = refl
entries_for-append token (l ∷ ls) ms = simp (entries_for-append token ls ms, List.append_assoc)

any-last :
    {A : Type 0} (p : A → Bool) (es : List.List A) (e : A)
    → p e ≡ true
    → any p (es ++ (e ∷ [])) ≡ true
any-last p [] e h = ground (arith, h)
any-last p (x ∷ es) e h = ground (arith, any-last p es e h)

neither :
    ((a b : Bool) → (a || b) ≡ false → a ≡ false) × ((a b : Bool) → (a || b) ≡ false → b ≡ false)
neither = (λ a b h. ground (arith, h), λ a b h. ground (arith, h))

pub right-empty : {A : Type 0} (xs ys : List.List A) → xs ++ ys ≡ [] → ys ≡ []
right-empty [] ys h = h
right-empty (x ∷ xs) ys h = ground (arith, h)

module _ (info : HostKeyInfo) where
  judge-last :
      (es : List.List (String × String))
      → judge info (es ++ ((info.key_type, info.key_base64) ∷ [])) ≡ confirmed
  unfolding judge
  judge-last [] = simp (eq_refl)
  judge-last (e ∷ es) =
      ap (λ b. if b then confirmed else changed)
        (any-last (λ entry. entry.0 == info.key_type && entry.1 == info.key_base64) (e ∷ es)
          (info.key_type, info.key_base64) (simp (eq_refl)))

  pub judge-unknown : (es : List.List (String × String)) → judge info es ≡ unknown → es ≡ []
  unfolding judge
  judge-unknown [] h = refl
  judge-unknown (e ∷ es) h = ground (arith, h)

  pub remove_line-last :
      (exact : String) (ls : List.List String)
      → has_line exact ls ≡ false
      → remove_line exact (ls ++ (exact ∷ [])) ≡ ls
  unfolding has_line remove_line
  remove_line-last exact [] h = simp (eq_refl)
  remove_line-last exact (l ∷ ls) h = simp (
    neither.0 (l == exact) (has_line exact ls) h,
    remove_line-last exact ls (neither.1 (l == exact) (has_line exact ls) h),
  )

  module _ (plain : IsPlain info) where
    exact_entry :
        entry_of (host_token info) (words (exact_line info))
        ≡ ((info.key_type, info.key_base64) ∷ [])
    unfolding entry_of
    exact_entry =
        ap (entry_of (host_token info)) (words-three _ _ _ plain.token plain.key_type plain.key)
        ∙ simp (eq_refl)

    -- the host's own line is among those of a host without entries at no place
    pub absent :
        (ls : List.List String)
        → entries_for (host_token info) ls ≡ []
        → has_line (exact_line info) ls ≡ false
    unfolding entries_for has_line
    absent [] h = refl
    absent (l ∷ ls) h = elim (Bool-cases (l == exact_line info)) [
      | inl e ↦ elim (clash (sym (own ((eq_iff l (exact_line info)).0 e) ls) ∙ h)) [ ]
      | inr e ↦ simp (e, absent ls (right-empty (entry_of (host_token info) (words l)) _ h))
    ]
      where
        own :
            l ≡ exact_line info
            → (ls : List.List String)
            → entry_of (host_token info) (words l) ++ entries_for (host_token info) ls
              ≡ ((info.key_type, info.key_base64) ∷ []) ++ entries_for (host_token info) ls
        own e ls =
            ap (λ t. entry_of (host_token info) (words t) ++ entries_for (host_token info) ls) e
            ∙ ap (λ es. es ++ entries_for (host_token info) ls) exact_entry

        clash : {x : String × String} {xs : List.List (String × String)} → (x ∷ xs) ≡ [] → ⊥
        clash h = ground (arith, h)

    line-nonblank : nonblank (exact_line info ∷ []) ≡ (exact_line info ∷ [])
    unfolding nonblank format
    line-nonblank =
        ap (λ (b : Bool). if b then [] else exact_line info ∷ [])
          (strip-word (host_token info) _ plain.token)

    -- what is read back after the line was added
    pub nonblank-added :
        (file : Option (List.List String))
        → known_lines (some (known_lines file ++ (exact_line info ∷ [])))
          ≡ known_lines file ++ (exact_line info ∷ [])
    unfolding known_lines
    nonblank-added file =
        nonblank-append (known_lines file) (exact_line info ∷ [])
        ∙ ap (λ ls. ls ++ nonblank (exact_line info ∷ [])) (known_lines-nonblank file)
        ∙ ap (λ ls. known_lines file ++ ls) line-nonblank

    -- the added line is an entry of the host, and the blank lines do not count
    pub judge-added :
        (file : Option (List.List String))
        → judge info (
            entries_for
              (host_token info)
              (known_lines (some (known_lines file ++ (exact_line info ∷ [])))))
          ≡ confirmed
    unfolding known_lines entries_for
    judge-added file =
        ap (λ ls. judge info (entries_for (host_token info) ls)) (nonblank-added file)
        ∙ ap (judge info) (
            entries_for-append (host_token info) (known_lines file) (exact_line info ∷ [])
            ∙ ap (λ es. entries_for (host_token info) (known_lines file) ++ (es ++ [])) exact_entry)
        ∙ judge-last (entries_for (host_token info) (known_lines file))

pub has_line-last :
    (exact : String) (ls : List.List String) → has_line exact (ls ++ (exact ∷ [])) ≡ true
unfolding has_line
has_line-last exact [] = simp (eq_refl)
has_line-last exact (l ∷ ls) = ground (arith, has_line-last exact ls)
