-- ===== src/Infrastructure/HostKeys.antt =====
-- app/infrastructure/host_key_store.py: the host keys that the user confirmed, in the program's own
-- known_hosts file, and HostKeyInfo of app/domain/ssh_bootstrap.py. The file is a list of lines, or
-- not there; reading and writing it may fail.
pub mod Laws
pub mod Changed
pub mod Confirmation
use remote_ai_bridge.Prelude.{
  ℕ, String, Bool, true, false, not, ◌&&◌, ◌||◌, Option, none, some, List, [], ◌∷◌, ◌++◌, any, ◌==◌,
  nat_eq, if◌then◌else◌,
}
use remote_ai_bridge.Text.{format, show, strip, words}
use remote_ai_bridge.Domain.Errors.{
  Exn, Detail, text, number, Result, ok, raised, rab_error, refuse,
}
use remote_ai_bridge.Domain.Python.{Python}
use remote_ai_bridge.Domain.Profile.Rules.{is_valid_host_key_type}
use remote_ai_bridge.Exec.{
  Env, Exec, pure, raise, lift, catch, gets, modify, file_operation, ◌>>=◌, ◌>>◌,
}

pub record HostKeyInfo : Type 0 where
  pub host : String
  pub port : ℕ
  pub key_type : String
  pub fingerprint : String
  pub key_base64 : String

unfoldable pub host_token : HostKeyInfo → String
unfolding format show
host_token info =
    if nat_eq info.port 22 then info.host else format ("[" ∷ info.host ∷ "]:" ∷ show info.port ∷ [])

abbrev pub entry_line : String → String → String → String
entry_line token key_type key = format (token ∷ " " ∷ key_type ∷ " " ∷ key ∷ [])

-- the line that `confirm` adds and `remove_if_matches` looks for
abbrev pub exact_line : HostKeyInfo → String
exact_line info = entry_line (host_token info) info.key_type info.key_base64

abbrev endpoint : HostKeyInfo → List (String × Detail)
endpoint info = ("host", text info.host) ∷ ("port", number info.port) ∷ []

abbrev key_invalid : Exn
key_invalid = rab_error "HOST_KEY_INVALID" false []

abbrev pub host_key_changed : HostKeyInfo → Exn
host_key_changed info = rab_error "HOST_KEY_CHANGED" false (
    endpoint info ++ ("key_type", text info.key_type) ∷ ("fingerprint", text info.fingerprint) ∷ [])

-- `_validate_key`
unfoldable pub validate_key : Python → HostKeyInfo → Result (Unit {0})
validate_key py info =
    refuse (not (is_valid_host_key_type info.key_type) || not (py.is_base64 info.key_base64))
      key_invalid

-- `[line for line in lines if line.strip()]`
unfoldable pub nonblank : List String → List String
unfolding strip
nonblank [] = []
nonblank (l ∷ ls) = let rest = nonblank ls in if strip l == "" then rest else l ∷ rest

unfoldable pub entry_of : String → List String → List (String × String)
entry_of token (first ∷ key_type ∷ key ∷ _) = if first == token then (key_type, key) ∷ [] else []
entry_of token _ = []

-- the loop of `_entries_for`
unfoldable pub entries_for : String → List String → List (String × String)
unfolding words entry_of
entries_for token [] = []
entries_for token (l ∷ ls) = entry_of token (words l) ++ entries_for token ls

-- what `status` makes of the entries for the host
pub data HostStatus : Type 0 where
  unknown confirmed changed : HostStatus

unfoldable pub judge : HostKeyInfo → List (String × String) → HostStatus
judge info [] = unknown
judge info (e ∷ es) =
    if any (λ entry. entry.0 == info.key_type && entry.1 == info.key_base64) (e ∷ es)
    then confirmed
    else changed

-- `exact in lines`
unfoldable pub has_line : String → List String → Bool
has_line exact [] = false
has_line exact (l ∷ ls) = l == exact || has_line exact ls

-- `lines.remove(exact)`: its first occurrence
unfoldable pub remove_line : String → List String → List String
remove_line exact [] = []
remove_line exact (l ∷ ls) = let rest = remove_line exact ls in if l == exact then ls else l ∷ rest

module _ (env : Env) where
  unfoldable pub read_existing : Option (List String) → Exec (List String)
  read_existing none = pure []
  read_existing (some lines) = do
    catch (file_operation env) (λ e. raise (rab_error "KNOWN_HOSTS_UNAVAILABLE" false []))
    pure (nonblank lines)

  -- `_read_lines`
  unfoldable pub read_lines : Exec (List String)
  read_lines = do file ← gets (λ s. s.known_hosts); read_existing file

  -- `_write_lines`: the folder and the temporary file are made, then it is written and put in place
  unfoldable pub write_lines : List String → Exec (Unit {0})
  write_lines lines = do
    file_operation env
    catch (file_operation env) (λ e. raise (rab_error "KNOWN_HOSTS_WRITE_FAILED" false []))
    modify (λ s. record s { known_hosts = some lines })

  unfoldable pub conclude_status : HostKeyInfo → HostStatus → Exec Bool
  conclude_status info unknown = pure false
  conclude_status info confirmed = pure true
  conclude_status info changed = raise (host_key_changed info)

  -- `status(observed) == "confirmed"`; the other answer is "unknown"
  unfoldable pub is_confirmed : HostKeyInfo → Exec Bool
  is_confirmed info = do
    lift (validate_key env.python info)
    lines ← read_lines
    conclude_status info (judge info (entries_for (host_token info) lines))

  unfoldable pub add_line : HostKeyInfo → Exec Bool
  add_line info = do
    lift (validate_key env.python info)
    lines ← read_lines
    write_lines (lines ++ (exact_line info ∷ []))
    pure true

  unfoldable pub confirm : HostKeyInfo → Bool → Exec Bool
  confirm info false = raise (rab_error "HOST_KEY_REJECTED" false (endpoint info))
  confirm info true = do known ← is_confirmed info; if known then pure false else add_line info

  unfoldable pub remove_if_matches : HostKeyInfo → Exec Bool
  remove_if_matches info = do
    lines ← read_lines
    if has_line (exact_line info) lines
        then (do write_lines (remove_line (exact_line info) lines); pure true)
        else pure false
