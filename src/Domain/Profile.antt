-- ===== src/Domain/Profile.antt =====
-- app/domain/profile.py: the checks of a profile. The fields have the types that the dataclass
-- declares; ports are natural numbers, so `isinstance` tests hold by typing. The `is_valid…` tests
-- are the regular expressions of the file, as tests on characters.
pub mod Rules
pub mod Fields
pub mod RoundTrip
pub mod Laws
use Prim.Native.Char.{code}
use remote_ai_bridge.Prelude.{
  ℕ, zero, suc, String, Bool, true, false, not, ◌&&◌, ◌||◌, Option, none, some, List, [], ◌∷◌, ◌==◌,
  leb, nat_eq, is_some, any, if◌then◌else◌,
}
use remote_ai_bridge.Text.{is_alnum, in_range, every, count, format}
use remote_ai_bridge.Domain.Errors.{Exn, Result, ok, profile_validation, refuse, ◌>>=◌, ◌>>◌}
use remote_ai_bridge.Domain.Python.{Python, SplitUrl}
use text.Mathlib.Text.{starts_with}
use Rules.{
  is_valid_profile_name, is_valid_target, is_valid_user, is_valid_host, is_valid_key_id,
  is_valid_fingerprint, is_valid_host_key_type,
}

pub record Profile : Type 0 where
  pub schema_version : ℕ
  pub name : String
  pub ssh_target : String
  pub local_proxy_host : String
  pub local_proxy_port : ℕ
  pub remote_bind_host : String
  pub remote_port : ℕ
  pub auto_reconnect : Bool
  pub endpoint_probe_url : String
  pub profile_type : String
  pub host : Option String
  pub username : Option String
  pub ssh_port : Option ℕ
  pub key_id : Option String
  pub host_key_type : Option String
  pub host_key_fingerprint : Option String

abbrev pub loopback : String
loopback = "127.0.0.1"

abbrev pub is_port : ℕ → Bool
is_port n = in_range 1 65535 n

abbrev pub invalid : Bool → String → Result (Unit {0})
invalid test message = refuse test (profile_validation message)

unfoldable pub validate_profile_name : String → Result (Unit {0})
validate_profile_name name = invalid (not (is_valid_profile_name name)) "invalid profile name"

unfoldable pub is_probe_url : SplitUrl → Bool
is_probe_url u = not (
    not (u.scheme == "https")
    || u.hostname == ""
    || not (u.username == "")
    || not (u.password == "")
    || not (u.query == "")
    || not (u.fragment == ""))

unfoldable pub validate_endpoint_probe_url : Python → String → Result (Unit {0})
unfolding is_probe_url
validate_endpoint_probe_url py value = elim (py.urlsplit value) [
  | none ↦ refuse true (profile_validation "endpoint probe URL has an invalid port")
  | some parsed ↦
      invalid (not (is_probe_url parsed))
        "endpoint probe URL must be an HTTPS URL without credentials, query, or fragment"
]

unfoldable pub validate_managed_profile_setup_inputs :
    Python → String → String → String → ℕ → String → Result (Unit {0})
validate_managed_profile_setup_inputs py name host username ssh_port endpoint_probe_url = do
  validate_profile_name name
  invalid (not (is_valid_host host)) "invalid managed SSH host"
  invalid (not (is_valid_user username)) "invalid managed SSH username"
  invalid (not (is_port ssh_port)) "managed SSH port must be an integer from 1 to 65535"
  validate_endpoint_probe_url py endpoint_probe_url

-- The managed metadata of a profile, when all six values are present.
pub record Managed : Type 0 where
  pub host : String
  pub username : String
  pub ssh_port : ℕ
  pub key_id : String
  pub host_key_type : String
  pub host_key_fingerprint : String

abbrev all_six :
    Option String
    → Option String
    → Option ℕ
    → Option String
    → Option String
    → Option String
    → Option Managed
all_six (some h) (some u) (some p) (some k) (some t) (some f) = some (record {
  host = h;
  username = u;
  ssh_port = p;
  key_id = k;
  host_key_type = t;
  host_key_fingerprint = f;
})
all_six _ _ _ _ _ _ = none

abbrev pub managed_values : Profile → Option Managed
managed_values p =
    all_six p.host p.username p.ssh_port p.key_id p.host_key_type p.host_key_fingerprint

-- `any(value is not None for value in managed_values)`
abbrev pub has_managed_value : Profile → Bool
has_managed_value p =
    is_some p.host
    || is_some p.username
    || is_some p.ssh_port
    || is_some p.key_id
    || is_some p.host_key_type
    || is_some p.host_key_fingerprint

-- the checks of a managed profile with its six values
unfoldable pub validate_managed : Python → Profile → Managed → Result (Unit {0})
validate_managed py p m = do
  validate_managed_profile_setup_inputs py p.name m.host m.username m.ssh_port p.endpoint_probe_url
  invalid (not (is_valid_key_id m.key_id)) "invalid managed SSH key ID"
  invalid (not (is_valid_host_key_type m.host_key_type)) "invalid managed SSH host key type"
  invalid (not (is_valid_fingerprint m.host_key_fingerprint))
      "invalid managed SSH host key fingerprint"
  invalid (not (p.ssh_target == format (m.username ∷ "@" ∷ m.host ∷ [])))
      "managed ssh_target must match username and host"

-- the checks by schema version
unfoldable pub validate_schema : Python → Profile → Result (Unit {0})
validate_schema py p =
    if nat_eq p.schema_version 1
    then invalid (not (p.profile_type == "legacy") || has_managed_value p)
        "legacy v1 profiles cannot contain managed SSH metadata"
    else do
      invalid (not (p.profile_type == "managed")) "schema v2 profiles must use managed profile_type"
      elim (managed_values p) [
        | none ↦ refuse true (profile_validation "managed profile SSH metadata is incomplete")
        | some m ↦ validate_managed py p m
      ]

unfoldable pub validate : Python → Profile → Result (Unit {0})
validate py p = do
  invalid (not (nat_eq p.schema_version 1 || nat_eq p.schema_version 2))
      "unsupported profile schema_version"
  validate_profile_name p.name
  invalid (not (is_valid_target p.ssh_target) || starts_with p.ssh_target "-")
      "invalid or unsafe SSH target"
  invalid (not (p.local_proxy_host == loopback)) "local proxy must bind to 127.0.0.1"
  invalid (not (p.remote_bind_host == loopback)) "remote forwarding must bind to 127.0.0.1"
  invalid (not (is_port p.local_proxy_port)) "local_proxy_port must be an integer from 1 to 65535"
  invalid (not (is_port p.remote_port)) "remote_port must be an integer from 1 to 65535"
  validate_endpoint_probe_url py p.endpoint_probe_url
  validate_schema py p
