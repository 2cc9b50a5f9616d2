-- ===== src/Text.antt =====
-- Texts as Python's `str` methods treat them, over code points, with the ASCII white space and
-- the ASCII letters; `str(n)` of a number and f-strings. They stand for Python's own library.
pub mod Words
use Prim.Native.Char.{code}
use Prim.Native.String
use Prim.Native.String.{[], ◌∷◌, slice}
use mathlib.Core.List
use remote_ai_bridge.Prelude.{
  ℕ, zero, suc, ◌+◌, ◌-◌, ◌/◌, ◌%◌, String, Bool, true, false, ◌&&◌, ◌||◌, Option, none, some, ◌==◌,
  ltb, leb, nat_eq, when_some, if◌then◌else◌,
}
use text.Mathlib.Text.{starts_with}

-- An f-string: its pieces in a row.
unfoldable pub format : List.List String → String
format List.[] = ""
format (List.◌∷◌ s rest) = String.◌++◌ s (format rest)

abbrev digit : ℕ → String
digit d = slice "0123456789" d (d + 1)

-- `str(n)` by repeated division; n + 1 rounds are enough.
show_from : ℕ → ℕ → String → String
show_from zero n acc = acc
show_from (suc f) n acc =
    let more = show_from f (n / 10) (String.◌++◌ (digit (n % 10)) acc) in
    if ltb n 10 then String.◌++◌ (digit n) acc else more

unfoldable pub show : ℕ → String
unfolding show_from
show n = show_from (suc n) n ""

abbrev pub in_range : ℕ → ℕ → ℕ → Bool
in_range lo hi c = leb lo c && leb c hi

abbrev pub is_digit : ℕ → Bool
is_digit c = in_range b'0' b'9' c

-- [A-Za-z0-9]
abbrev pub is_alnum : ℕ → Bool
is_alnum c = in_range b'A' b'Z' c || in_range b'a' b'z' c || is_digit c

-- [A-Za-z_]
abbrev pub is_word_start : ℕ → Bool
is_word_start c = in_range b'A' b'Z' c || in_range b'a' b'z' c || nat_eq c b'_'

abbrev pub is_space : ℕ → Bool
is_space c = nat_eq c b' ' || in_range 9 13 c

-- every character satisfies the test
unfoldable pub every : (ℕ → Bool) → String → Bool
every p [] = true
every p (c ∷ s) = p (code c) && every p s

unfoldable pub count : String → ℕ
count [] = 0
count (c ∷ s) = suc (count s)

-- `[head][tail]{lo,hi}` as a full match
unfoldable pub matches_class : (ℕ → Bool) → (ℕ → Bool) → ℕ → String → Bool
unfolding every count
matches_class head tail most [] = false
matches_class head tail most (c ∷ s) = head (code c) && every tail s && leb (count s) most

-- `needle in text`
unfoldable pub contains : String → String → Bool
contains needle [] = needle == ""
contains needle (c ∷ s) = starts_with (c ∷ s) needle || contains needle s

unfoldable pub ends_with : String → String → Bool
ends_with tail [] = tail == ""
ends_with tail (c ∷ s) = (c ∷ s) == tail || ends_with tail s

lstrip : String → String
lstrip [] = ""
lstrip (c ∷ s) = let rest = lstrip s in if is_space (code c) then rest else c ∷ s

rstrip : String → String
rstrip [] = ""
rstrip (c ∷ s) = let rest = rstrip s in if rest == "" && is_space (code c) then "" else c ∷ rest

unfoldable pub strip : String → String
unfolding lstrip rstrip
strip s = rstrip (lstrip s)

-- `text[:n]`
unfoldable pub clip : ℕ → String → String
clip zero s = ""
clip (suc n) [] = ""
clip (suc n) (c ∷ s) = c ∷ clip n s

-- `a or b` on texts
abbrev pub or_text : String → String → String
or_text a b = if a == "" then b else a

-- the text before and after the first character with the given code
unfoldable pub partition : ℕ → String → Option (String × String)
partition sep [] = none
partition sep (c ∷ s) =
    let rest = when_some (λ (t : String × String). (c ∷ t.0, t.1)) (partition sep s) in
    if nat_eq (code c) sep then some ("", s) else rest

words_from : String → String → List.List String
words_from cur [] = if cur == "" then List.[] else List.◌∷◌ cur List.[]
words_from cur (c ∷ s) =
    let closed = words_from "" s in
    let longer = words_from (String.◌++◌ cur (c ∷ [])) s in
    if is_space (code c) then (if cur == "" then closed else List.◌∷◌ cur closed) else longer

-- `text.split()`
unfoldable pub words : String → List.List String
unfolding words_from
words s = words_from "" s

-- `text.lower()`
unfoldable pub lower : String → String
lower [] = ""
lower (c ∷ s) =
    let rest = lower s in
    if in_range b'A' b'Z' (code c)
    then String.◌++◌ (let k = code c - b'A' in slice "abcdefghijklmnopqrstuvwxyz" k (k + 1)) rest
    else c ∷ rest

lines_from : String → String → List.List String
lines_from cur [] = if cur == "" then List.[] else List.◌∷◌ cur List.[]
lines_from cur (c ∷ s) =
    let closed = List.◌∷◌ cur (lines_from "" s) in
    let longer = lines_from (String.◌++◌ cur (c ∷ [])) s in
    if nat_eq (code c) 10 || nat_eq (code c) 13 then closed else longer

-- `text.splitlines()` at line feeds and carriage returns; the callers drop empty lines
unfoldable pub lines : String → List.List String
unfolding lines_from
lines s = lines_from "" s

-- `text[-n:]`
unfoldable pub last : ℕ → String → String
unfolding count
last n [] = ""
last n (c ∷ s) = let rest = last n s in if leb (count (c ∷ s)) n then c ∷ s else rest

-- `data.split(b"\r\n", 1)[0]`
unfoldable pub first_line : String → String
first_line [] = ""
first_line (c ∷ s) = let rest = first_line s in if starts_with (c ∷ s) "\r\n" then "" else c ∷ rest
