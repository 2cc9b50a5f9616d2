-- ===== src/Text/Words.antt =====
-- What `text.split()` gives for words that were joined by single spaces.
use Prim.Native.Char.{Char, code}
use Prim.Native.String
use Prim.Native.String.{[], ◌∷◌}
use mathlib.Core.List
use mathlib.Core.Path.{◌∙◌}
use text.Mathlib.TextLemmas.{append_assoc, append-nil, nil-append, cons-append, cons-ne-nil}
use remote_ai_bridge.Prelude.{
  String, ◌≡◌, refl, ap, Bool, true, false, not, ◌&&◌, ◌==◌, arith, eq_iff, Bool-cases, inl, inr,
}
use remote_ai_bridge.Text.{every, is_space, words, words_from, format, strip, lstrip, rstrip}

-- a word: not empty, and without white space
abbrev pub is_word : String → Bool
is_word s = not (s == "") && every (λ c. not (is_space c)) s

words_from-append :
    (cur s t : String)
    → every (λ c. not (is_space c)) s ≡ true
    → words_from cur (String.◌++◌ s t) ≡ words_from (String.◌++◌ cur s) t
unfolding words_from every
words_from-append cur [] t h = simp (nil-append, append-nil)
words_from-append cur (c ∷ s) t h = simp (
  cons-append,
  (not_space (is_space (code c)) (every (λ d. not (is_space d)) s) h),
  words_from-append (String.◌++◌ cur (c ∷ [])) s t (rest (not (is_space (code c))) _ h),
  append_assoc,
  nil-append,
)
  where
    not_space : (a b : Bool) → (not a && b) ≡ true → a ≡ false
    not_space a b h = ground (arith, h)

    rest : (a b : Bool) → (a && b) ≡ true → b ≡ true
    rest a b h = ground (arith, h)

and_false : (a : Bool) → (a && false) ≡ false
and_false a = ground arith

blank :
    (c : Char) (cur s : String)
    → is_space (code c) ≡ true
    → (cur == "") ≡ false
    → words_from cur (String.◌++◌ (c ∷ "") s) ≡ List.◌∷◌ cur (words_from "" s)
unfolding words_from
blank c cur s e h = simp (cons-append, nil-append, e, h)

-- the first of some words that a space ends
words_from-space :
    (cur s : String)
    → (cur == "") ≡ false
    → words_from cur (String.◌++◌ " " s) ≡ List.◌∷◌ cur (words_from "" s)
words_from-space cur s h = blank _ cur s refl h

words_from-last : (cur : String) → (cur == "") ≡ false → words_from cur "" ≡ List.◌∷◌ cur List.[]
unfolding words_from
words_from-last cur h = simp h

before : (a b : Bool) → (not a && b) ≡ true → a ≡ false
before a b h = ground (arith, h)

after : (a b : Bool) → (a && b) ≡ true → b ≡ true
after a b h = ground (arith, h)

word-space :
    (w s : String)
    → is_word w ≡ true
    → words_from "" (String.◌++◌ w (String.◌++◌ " " s)) ≡ List.◌∷◌ w (words_from "" s)
word-space w s h =
    words_from-append "" w (String.◌++◌ " " s) (after _ _ h)
    ∙ ap (λ v. words_from v (String.◌++◌ " " s)) (nil-append w)
    ∙ words_from-space w s (before _ _ h)

word-last : (w : String) → is_word w ≡ true → words_from "" (String.◌++◌ w "") ≡ List.◌∷◌ w List.[]
word-last w h =
    words_from-append "" w "" (after _ _ h)
    ∙ ap (λ v. words_from v "") (nil-append w)
    ∙ words_from-last w (before _ _ h)

-- Three words that single spaces join are split into the same three words.
pub words-three :
    (a b c : String)
    → is_word a ≡ true
    → is_word b ≡ true
    → is_word c ≡ true
    → words (format (List.◌∷◌ a (List.◌∷◌ " " (List.◌∷◌ b (List.◌∷◌ " " (List.◌∷◌ c List.[]))))))
      ≡ List.◌∷◌ a (List.◌∷◌ b (List.◌∷◌ c List.[]))
unfolding words format
words-three a b c ha hb hc =
    word-space a _ ha ∙ ap (List.◌∷◌ a) (word-space b _ hb ∙ ap (List.◌∷◌ b) (word-last c hc))

-- no text with a first character is the empty one
pub nonempty : (c : Char) (s : String) → ((c ∷ s) == "") ≡ false
nonempty c s = elim (Bool-cases ((c ∷ s) == "")) [
  | inl e ↦ elim (cons-ne-nil c s ((eq_iff (c ∷ s) "").0 e)) [ ]
  | inr e ↦ e
]

strip-first : (c : Char) (s : String) → is_space (code c) ≡ false → (strip (c ∷ s) == "") ≡ false
unfolding strip lstrip rstrip
strip-first c s h = simp (h, and_false, nonempty)

first-letter : (a b : Bool) (d : Bool) → (d && (not a && b)) ≡ true → a ≡ false
first-letter a b d h = ground (arith, h)

-- A line that begins with a word is not blank.
pub strip-word : (w s : String) → is_word w ≡ true → (strip (String.◌++◌ w s) == "") ≡ false
unfolding every
strip-word [] s h = ground (arith, h)
strip-word (c ∷ w) s h =
    ap (λ t. strip t == "") (cons-append c w s)
    ∙ strip-first c (String.◌++◌ w s) (first-letter (is_space (code c)) _ _ h)
