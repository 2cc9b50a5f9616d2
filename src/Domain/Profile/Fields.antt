-- ===== src/Domain/Profile/Fields.antt =====
-- app/domain/profile.py: `to_dict` and `from_dict`, by which a profile is written to its JSON file and
-- read again. The JSON values are those that a profile holds; its text is Python's `json`. A value of
-- another type than its field has is refused here; the source refuses it too, with another message,
-- except that an `ssh_target` which is no text raises TypeError and that a number of 32 digits passes
-- as a key id.
use remote_ai_bridge.Prelude.{
  ℕ, String, Bool, true, not, ◌||◌, Option, none, some, List, [], ◌∷◌, Dict, get, remove, any, all,
  is_some, ◌==◌, nat_eq, if◌then◌else◌,
}
use remote_ai_bridge.Domain.Errors.{
  Exn, Result, ok, raised, profile_validation, refuse, ◌>>=◌, ◌>>◌,
}
use remote_ai_bridge.Domain.Python.{Python}
use remote_ai_bridge.Domain.Profile.{Profile, loopback, validate}

pub data Json : Type 0 where
  null : Json
  flag : Bool → Json
  number : ℕ → Json
  text : String → Json

abbrev pub nullable_text : Option String → Json
nullable_text none = null
nullable_text (some s) = text s

abbrev pub nullable_number : Option ℕ → Json
nullable_number none = null
nullable_number (some n) = number n

-- `asdict(self)`
unfoldable pub asdict : Profile → Dict Json
asdict p =
    ("schema_version", number p.schema_version)
    ∷ ("name", text p.name)
    ∷ ("ssh_target", text p.ssh_target)
    ∷ ("local_proxy_host", text p.local_proxy_host)
    ∷ ("local_proxy_port", number p.local_proxy_port)
    ∷ ("remote_bind_host", text p.remote_bind_host)
    ∷ ("remote_port", number p.remote_port)
    ∷ ("auto_reconnect", flag p.auto_reconnect)
    ∷ ("endpoint_probe_url", text p.endpoint_probe_url)
    ∷ ("profile_type", text p.profile_type)
    ∷ ("host", nullable_text p.host)
    ∷ ("username", nullable_text p.username)
    ∷ ("ssh_port", nullable_number p.ssh_port)
    ∷ ("key_id", nullable_text p.key_id)
    ∷ ("host_key_type", nullable_text p.host_key_type)
    ∷ ("host_key_fingerprint", nullable_text p.host_key_fingerprint)
    ∷ []

-- the keys that a profile of schema version 1 does not write
abbrev pub managed_keys : List String
managed_keys =
    "profile_type" ∷ "host" ∷ "username" ∷ "ssh_port" ∷ "key_id" ∷ "host_key_type"
    ∷ "host_key_fingerprint" ∷ []

-- the fields of Profile
abbrev field_names : List String
field_names =
    "schema_version" ∷ "name" ∷ "ssh_target" ∷ "local_proxy_host" ∷ "local_proxy_port"
    ∷ "remote_bind_host" ∷ "remote_port" ∷ "auto_reconnect" ∷ "endpoint_probe_url" ∷ managed_keys

-- `for key in keys: values.pop(key)`
unfoldable pub pop_all : List String → Dict Json → Dict Json
pop_all [] values = values
pop_all (key ∷ keys) values = pop_all keys (remove key values)

unfoldable pub to_dict : Python → Profile → Result (Dict Json)
to_dict py p = do
  validate py p
  ok (if nat_eq p.schema_version 1 then pop_all managed_keys (asdict p) else asdict p)

abbrev unsupported : Exn
unsupported = profile_validation "unsupported profile schema_version"

abbrev invalid_fields : Exn
invalid_fields = profile_validation "invalid profile fields"

-- `data.get("schema_version")`, where it is one of the supported versions; True counts as 1
unfoldable pub schema_of : Option Json → Result ℕ
schema_of (some (number n)) = if nat_eq n 1 || nat_eq n 2 then ok n else raised unsupported
schema_of (some (flag true)) = ok 1
schema_of _ = raised unsupported

-- `values.setdefault(key, value)`
unfoldable pub setdefault : String → Json → Dict Json → Dict Json
setdefault key value values = if is_some (get key values) then values else (key, value) ∷ values

-- the value of a field: its type is tested, and a field without a default must be there
unfoldable pub read_text : Option String → Option Json → Result String
read_text default (some (text s)) = ok s
read_text (some d) none = ok d
read_text _ _ = raised invalid_fields

unfoldable pub read_number : ℕ → Option Json → Result ℕ
read_number default (some (number n)) = ok n
read_number default none = ok default
read_number default _ = raised invalid_fields

unfoldable pub read_flag : Bool → Option Json → Result Bool
read_flag default (some (flag b)) = ok b
read_flag default none = ok default
read_flag default _ = raised invalid_fields

unfoldable pub read_nullable_text : Option Json → Result (Option String)
read_nullable_text (some (text s)) = ok (some s)
read_nullable_text (some null) = ok none
read_nullable_text none = ok none
read_nullable_text _ = raised invalid_fields

unfoldable pub read_nullable_number : Option Json → Result (Option ℕ)
read_nullable_number (some (number n)) = ok (some n)
read_nullable_number (some null) = ok none
read_nullable_number none = ok none
read_nullable_number _ = raised invalid_fields

-- every key is the name of a field
unfoldable pub are_fields : Dict Json → Bool
are_fields values = all (λ entry. any (λ name. name == entry.0) field_names) values

-- `cls(**values)`
unfoldable pub construct : ℕ → Dict Json → Result Profile
construct schema_version values = do
  refuse (not (are_fields values)) invalid_fields
  name ← read_text none (get "name" values)
  ssh_target ← read_text none (get "ssh_target" values)
  local_proxy_host ← read_text (some loopback) (get "local_proxy_host" values)
  local_proxy_port ← read_number 7897 (get "local_proxy_port" values)
  remote_bind_host ← read_text (some loopback) (get "remote_bind_host" values)
  remote_port ← read_number 17890 (get "remote_port" values)
  auto_reconnect ← read_flag true (get "auto_reconnect" values)
  endpoint_probe_url ←
      read_text (some "https://api.openai.com/v1/models") (get "endpoint_probe_url" values)
  profile_type ← read_text (some "legacy") (get "profile_type" values)
  host ← read_nullable_text (get "host" values)
  username ← read_nullable_text (get "username" values)
  ssh_port ← read_nullable_number (get "ssh_port" values)
  key_id ← read_nullable_text (get "key_id" values)
  host_key_type ← read_nullable_text (get "host_key_type" values)
  host_key_fingerprint ← read_nullable_text (get "host_key_fingerprint" values)
  ok (record {
    schema_version = schema_version;
    name = name;
    ssh_target = ssh_target;
    local_proxy_host = local_proxy_host;
    local_proxy_port = local_proxy_port;
    remote_bind_host = remote_bind_host;
    remote_port = remote_port;
    auto_reconnect = auto_reconnect;
    endpoint_probe_url = endpoint_probe_url;
    profile_type = profile_type;
    host = host;
    username = username;
    ssh_port = ssh_port;
    key_id = key_id;
    host_key_type = host_key_type;
    host_key_fingerprint = host_key_fingerprint;
  })

unfoldable pub from_dict : Python → Dict Json → Result Profile
from_dict py values = do
  schema_version ← schema_of (get "schema_version" values)
  p ←
      construct schema_version (
        if nat_eq schema_version 1
        then setdefault "profile_type" (text "legacy") values
        else values)
  validate py p
  ok p
