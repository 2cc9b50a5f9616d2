-- ===== src/Services/Setup.antt =====
-- app/services/setup_service.py: `prepare` and `confirm_host_key`, by which the user sees and accepts
-- the key of a host, with the handshake of app/infrastructure/ssh_bootstrap.py. What the SSH library
-- gets from the server is the environment's; the library is there, and
-- closing the session does not fail.
pub mod Laws
use remote_ai_bridge.Prelude.{
  ℕ, String, Bool, true, false, not, ◌||◌, Option, none, some, List, [], ◌∷◌, ◌==◌, if◌then◌else◌,
}
use remote_ai_bridge.Domain.Errors.{
  Exn, Detail, text, number, Result, ok, raised, rab_error, refuse,
}
use remote_ai_bridge.Domain.Profile.{is_port}
use remote_ai_bridge.Domain.Profile.Rules.{is_valid_host, is_valid_user}
use remote_ai_bridge.Exec.{Env, Exec, asked, pure, raise, lift, ask, finally, given, ◌>>=◌, ◌>>◌}
use remote_ai_bridge.Infrastructure.HostKeys.{HostKeyInfo, is_confirmed, confirm}

-- HostPreparation of app/domain/ssh_bootstrap.py; its status is always READY_TO_AUTH
pub record HostPreparation : Type 0 where
  pub host : String
  pub port : ℕ
  pub key_type : String
  pub fingerprint : String

abbrev preparation : HostKeyInfo → HostPreparation
preparation info = record {
  host = info.host;
  port = info.port;
  key_type = info.key_type;
  fingerprint = info.fingerprint;
}

abbrev confirmation_required : HostKeyInfo → Exn
confirmation_required info = rab_error "HOST_KEY_CONFIRMATION_REQUIRED" false (
    ("host", text info.host)
    ∷ ("port", number info.port)
    ∷ ("key_type", text info.key_type)
    ∷ ("fingerprint", text info.fingerprint)
    ∷ [])

abbrev target_invalid : Exn
target_invalid = rab_error "SSH_TARGET_INVALID" false []

-- `_validate_target`
unfoldable pub validate_target : String → ℕ → Result (Unit {0})
validate_target host port = refuse (not (is_valid_host host) || not (is_port port)) target_invalid

-- `_validate_username`
unfoldable pub validate_username : String → Result (Unit {0})
validate_username username = refuse (not (is_valid_user username)) target_invalid

abbrev pub info_of : String → ℕ → String × String × String → HostKeyInfo
info_of host port (key_type, fingerprint, key) = record {
  host = host;
  port = port;
  key_type = key_type;
  fingerprint = fingerprint;
  key_base64 = key;
}

-- the host key is another one than the user was shown
abbrev shown_changed : HostKeyInfo → Exn
shown_changed info = rab_error "HOST_KEY_CHANGED" false (
    ("host", text info.host)
    ∷ ("port", number info.port)
    ∷ ("fingerprint", text info.fingerprint)
    ∷ [])

module _ (env : Env) where
  unfoldable pub handshake : String → ℕ → Exec HostKeyInfo
  handshake host port = do
    lift (validate_target host port)
    shown ← ask (λ t. env.server_key t host port) (λ _. asked)
    given shown
        (raise (
          rab_error "SSH_HANDSHAKE_FAILED" true (("host", text host) ∷ ("port", number port) ∷ [])))
        (λ key. pure (info_of host port key))

  unfoldable pub close_session : Exec (Unit {0})
  close_session = ask (λ t. tt) (λ _. asked)

  unfoldable pub prepare_key : HostKeyInfo → Exec HostPreparation
  prepare_key info = do
    known ← is_confirmed env info
    if known then pure (preparation info) else raise (confirmation_required info)

  unfoldable pub prepare : String → String → ℕ → Exec HostPreparation
  prepare host username port = do
    lift (validate_username username)
    info ← handshake host port
    finally (prepare_key info) close_session

  -- `confirm(info, accepted=False)` where the user did not accept
  unfoldable pub reject_unless : Bool → HostKeyInfo → Exec (Unit {0})
  reject_unless true info = pure tt
  reject_unless false info = do added ← confirm env info false; pure tt

  unfoldable pub confirm_shown : HostKeyInfo → Exec HostPreparation
  confirm_shown info = do added ← confirm env info true; pure (preparation info)

  unfoldable pub confirm_key : String → Bool → HostKeyInfo → Exec HostPreparation
  confirm_key expected accepted info = do
    reject_unless accepted info
    if expected == info.fingerprint then confirm_shown info else raise (shown_changed info)

  unfoldable pub confirm_host_key : String → ℕ → String → Bool → Exec HostPreparation
  confirm_host_key host port expected accepted = do
    info ← handshake host port
    finally (confirm_key expected accepted info) close_session
