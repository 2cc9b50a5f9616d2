-- ===== src/Domain/Errors.antt =====
-- app/domain/errors.py and the other exception classes of the core, as values. The texts of the
-- messages are left out, except those of a profile's validation.
use remote_ai_bridge.Prelude.{ℕ, String, Bool, true, false, Option, none, some, List}

-- What a `details` entry of a RABError holds.
pub data Detail : Type 0 where
  text : String → Detail
  number : ℕ → Detail
  nothing : Detail
  texts : List String → Detail
  proxies : List (String × ℕ) → Detail

pub record RabError : Type 0 where
  pub code : String
  pub retryable : Bool
  pub details : List (String × Detail)

pub data Exn : Type 0 where
  rab : RabError → Exn
  profile_validation : String → Exn
  profile_not_found : Exn
  profile_lock : Exn
  file_exists : Exn
  tunnel : String → Exn
  port_conflict : ℕ → Option ℕ → Exn
  value_error : Exn
  os_error : Exn

pub data Result {ℓ} (A : Type ℓ) : Type ℓ where
  ok : A → Result A
  raised : Exn → Result A

-- `raise RABError(code, …, retryable=…, details=…)`
abbrev pub rab_error : String → Bool → List (String × Detail) → Exn
rab_error c r d = rab (record { code = c; retryable = r; details = d })

abbrev pub nullable : Option String → Detail
nullable none = nothing
nullable (some s) = text s

infixl 5 ◌>>=◌ ◌>>◌
abbrev pub ◌>>=◌ {ℓ κ} : {X : Type ℓ} {Y : Type κ} → Result X → (X → Result Y) → Result Y
ok value >>= rest = rest value
raised e >>= rest = raised e

abbrev pub ◌>>◌ {ℓ} : {Y : Type ℓ} → Result (Unit {0}) → Result Y → Result Y
first >> rest = first >>= λ _. rest

-- `if test: raise exn`
abbrev pub refuse : Bool → Exn → Result (Unit {0})
refuse true e = raised e
refuse false e = ok tt
