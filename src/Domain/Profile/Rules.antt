-- ===== src/Domain/Profile/Rules.antt =====
-- The regular expressions of app/domain/profile.py and app/domain/ssh_bootstrap.py under
-- `fullmatch`. Each is deterministic, so it is a test on the characters from left to right.
use Prim.Native.Char.{code}
use Prim.Native.String.{[], ◌∷◌}
use remote_ai_bridge.Prelude.{
  ℕ, ◌-◌, String, Bool, false, not, ◌&&◌, ◌||◌, none, some, ◌==◌, nat_eq, if◌then◌else◌,
}
use remote_ai_bridge.Text.{
  in_range, is_alnum, is_digit, is_word_start, every, count, matches_class, partition,
}

-- [A-Za-z0-9_.-]
abbrev pub is_name_char : ℕ → Bool
is_name_char c = is_alnum c || nat_eq c b'_' || nat_eq c b'.' || nat_eq c b'-'

-- [A-Za-z0-9_.:-]
abbrev pub is_target_char : ℕ → Bool
is_target_char c = is_name_char c || nat_eq c b':'

-- PROFILE_NAME_RE
unfoldable pub is_valid_profile_name : String → Bool
unfolding matches_class
is_valid_profile_name s = matches_class is_alnum is_name_char 63 s

-- REMOTE_USER_RE
unfoldable pub is_valid_user : String → Bool
unfolding matches_class
is_valid_user s = matches_class is_word_start is_name_char 63 s

-- MANAGED_HOST_RE
unfoldable pub is_valid_host : String → Bool
unfolding matches_class
is_valid_host s = matches_class is_alnum (λ c. is_alnum c || nat_eq c b'.' || nat_eq c b'-') 252 s

-- HOST_KEY_TYPE_RE of ssh_bootstrap.py
unfoldable pub is_valid_host_key_type : String → Bool
unfolding matches_class
is_valid_host_key_type s =
    matches_class is_alnum (λ c. is_name_char c || nat_eq c b'@' || nat_eq c b'+') 127 s

-- MANAGED_KEY_ID_RE
unfoldable pub is_valid_key_id : String → Bool
unfolding every count
is_valid_key_id s = every (λ c. is_digit c || in_range b'a' b'f' c) s && nat_eq (count s) 32

-- the part of SSH_TARGET_RE after the optional user
unfoldable pub is_target_host : String → Bool
unfolding every
is_target_host [] = false
is_target_host (c ∷ s) = is_alnum (code c) && every is_target_char s

-- SSH_TARGET_RE: no class holds "@", so the first "@" ends the user
unfoldable pub is_valid_target : String → Bool
unfolding every partition is_target_host
is_valid_target s = elim (partition b'@' s) [
  | none ↦ is_target_host s
  | some (user, host) ↦ not (user == "") && every is_name_char user && is_target_host host
]

-- [A-Za-z0-9+/]
abbrev is_base64_char : ℕ → Bool
is_base64_char c = is_alnum c || nat_eq c b'+' || nat_eq c b'/'

-- `[A-Za-z0-9+/]{n,}={0,2}` with n characters of the class still to come
unfoldable pub is_digest : ℕ → String → Bool
is_digest n [] = nat_eq n 0
is_digest n (c ∷ s) =
    let more = is_digest (n - 1) s in
    if is_base64_char (code c) then more else nat_eq n 0 && (c ∷ s == "=" || c ∷ s == "==")

-- HOST_KEY_FINGERPRINT_RE
unfoldable pub is_valid_fingerprint : String → Bool
unfolding is_digest partition
is_valid_fingerprint s = elim (partition b':' s) [
  | none ↦ false
  | some (algorithm, digest) ↦ algorithm == "SHA256" && is_digest 20 digest
]
