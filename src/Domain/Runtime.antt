-- ===== src/Domain/Runtime.antt =====
-- app/domain/profile.py: the remote identity of a tunnel and the runtime state that the program
-- keeps as its evidence of ownership. A creation time is a number of milliseconds;
-- the text `started_at` is left out.
pub mod Laws
use remote_ai_bridge.Prelude.{
  ℕ, String, Bool, false, not, ◌&&◌, ◌||◌, Option, none, some, List, [], ◌∷◌, ◌==◌, nat_eq, is_some,
  if◌then◌else◌,
}
use remote_ai_bridge.Text.{words, lower}
use remote_ai_bridge.Domain.Errors.{Result, ok, raised, profile_validation, ◌>>◌}
use remote_ai_bridge.Domain.Python.{Python}
use remote_ai_bridge.Domain.Profile.{is_port, invalid}
use remote_ai_bridge.Domain.Profile.Rules.{is_valid_profile_name, is_valid_user}

pub record RemoteTunnelIdentity : Type 0 where
  pub tunnel_id : String
  pub remote_port : ℕ
  pub remote_user : String
  pub sshd_pid : ℕ
  pub sshd_start_ticks : ℕ
  pub boot_id : String
  pub ssh_connection : String

-- `uuid.UUID(text)` returns, and prints as the text in lower case
unfoldable pub is_canonical_uuid : Python → String → Bool
is_canonical_uuid py text = elim (py.canonical_uuid text) [
  | none ↦ false
  | some printed ↦ printed == lower text
]

abbrev is_port_text : Python → String → Bool
is_port_text py text = elim (py.parse_int text) [ none ↦ false | some n ↦ is_port n ]

-- "<address> <port> <address> <port>"
unfoldable pub is_ssh_connection : Python → List String → Bool
is_ssh_connection py (source ∷ source_port ∷ destination ∷ destination_port ∷ []) =
    py.is_ip source
    && is_port_text py source_port
    && py.is_ip destination
    && is_port_text py destination_port
is_ssh_connection py _ = false

unfoldable pub validate_identity : Python → RemoteTunnelIdentity → Result (Unit {0})
validate_identity py i = do
  invalid (not (is_canonical_uuid py i.tunnel_id)) "remote tunnel ID must be a canonical UUID"
  invalid (not (is_port i.remote_port)) "invalid remote identity port"
  invalid (not (is_valid_user i.remote_user)) "invalid remote user"
  invalid (nat_eq i.sshd_pid 0) "invalid remote process identity"
  invalid (nat_eq i.sshd_start_ticks 0) "invalid remote sshd start time"
  invalid (not (is_canonical_uuid py i.boot_id)) "remote boot ID must be a canonical UUID"
  invalid (not (is_ssh_connection py (words i.ssh_connection))) "invalid SSH_CONNECTION identity"

pub record RuntimeState : Type 0 where
  pub schema_version : ℕ
  pub profile_name : String
  pub pid : ℕ
  pub process_creation_time : ℕ
  pub executable_path : String
  pub tunnel_id : String
  pub supervisor_pid : ℕ
  pub remote_port : ℕ
  pub last_successful_probe_at : Option String
  pub remote_user : Option String
  pub remote_sshd_pid : Option ℕ
  pub remote_sshd_start_ticks : Option ℕ
  pub remote_boot_id : Option String
  pub remote_ssh_connection : Option String

-- ActiveTunnel of app/services/tunnel.py: `process` is the pid of the child that this program
-- started, if it did.
pub record ActiveTunnel : Type 0 where
  pub state : RuntimeState
  pub process : Option ℕ

abbrev pub has_remote_identity : RuntimeState → Bool
has_remote_identity s = is_some s.remote_user

abbrev identity_of :
    String
    → ℕ
    → Option String
    → Option ℕ
    → Option ℕ
    → Option String
    → Option String
    → Option RemoteTunnelIdentity
identity_of t p (some u) (some d) (some k) (some b) (some c) = some (record {
  tunnel_id = t;
  remote_port = p;
  remote_user = u;
  sshd_pid = d;
  sshd_start_ticks = k;
  boot_id = b;
  ssh_connection = c;
})
identity_of _ _ _ _ _ _ _ = none

-- the identity of a state that has all five remote values
abbrev pub remote_identity : RuntimeState → Option RemoteTunnelIdentity
remote_identity s =
    identity_of s.tunnel_id s.remote_port s.remote_user s.remote_sshd_pid s.remote_sshd_start_ticks
      s.remote_boot_id s.remote_ssh_connection

abbrev pub has_remote_value : RuntimeState → Bool
has_remote_value s =
    is_some s.remote_user
    || is_some s.remote_sshd_pid
    || is_some s.remote_sshd_start_ticks
    || is_some s.remote_boot_id
    || is_some s.remote_ssh_connection

unfoldable pub validate_remote : Python → RuntimeState → Result (Unit {0})
validate_remote py s =
    if has_remote_value s
    then elim (remote_identity s) [
      | none ↦ raised (profile_validation "incomplete remote tunnel identity")
      | some i ↦ validate_identity py i
    ]
    else ok tt

unfoldable pub validate_runtime : Python → RuntimeState → Result (Unit {0})
validate_runtime py s = do
  invalid (not (nat_eq s.schema_version 1)) "runtime schema_version must be 1"
  invalid (not (is_valid_profile_name s.profile_name)) "invalid runtime profile name"
  invalid (nat_eq s.pid 0 || nat_eq s.supervisor_pid 0) "runtime PIDs must be positive"
  invalid (nat_eq s.process_creation_time 0) "invalid process creation time"
  invalid (s.tunnel_id == "") "missing tunnel ID"
  invalid (not (is_port s.remote_port)) "invalid runtime remote port"
  validate_remote py s
