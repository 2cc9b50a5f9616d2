-- ===== src/Services/Profiles.antt =====
-- app/services/profile_service.py: creating, changing and deleting profiles. Every change is made
-- under the profile's lock, and a deletion only after the tunnel of the profile is settled.
mod Changes
pub mod Laws
pub mod Deletion
pub use Changes.{Change}
unfoldable pub use Changes.{apply_changes, invalid_fields}
use remote_ai_bridge.Prelude.{
  ℕ, String, Bool, true, false, not, ◌&&◌, ◌||◌, Option, none, some, List, [], ◌∷◌, ◌++◌, ◌==◌,
  nat_eq, has_code, is_some, or_else, if◌then◌else◌,
}
use remote_ai_bridge.Text.{contains}
use remote_ai_bridge.Domain.Errors.{
  Exn, Detail, text, number, nothing, texts, proxies, rab_error, nullable, profile_not_found,
  profile_lock, file_exists, profile_validation,
}
use remote_ai_bridge.Domain.Health.{CheckResult, passed}
use remote_ai_bridge.Domain.Profile.{Profile, validate, validate_profile_name}
use remote_ai_bridge.Domain.Runtime.{RuntimeState, has_remote_identity}
use remote_ai_bridge.Exec.{Env, Exec, pure, raise, lift, catch, ◌>>=◌, ◌>>◌}
use remote_ai_bridge.Infrastructure.Inspector.{matches, terminate_owned}
use remote_ai_bridge.Infrastructure.Store.{
  supervisor_lock, load_profile, save_profile, profile_exists, update_profile, delete_profile,
  load_runtime, clear_runtime,
}
use remote_ai_bridge.Services.Options.{Config}
use remote_ai_bridge.Services.Probe.{check_listener}
use remote_ai_bridge.Services.Tunnel.{disconnect}

pub record DeleteResult : Type 0 where
  pub name : String
  pub stopped_owned_process : Bool
  pub removed_stale_runtime : Bool

abbrev named : String → List (String × Detail)
named name = ("name", text name) ∷ []

-- the entry `reason`, the text of the exception, is left out
abbrev pub busy : String → Exn
busy name = rab_error "PROFILE_BUSY" true (named name)

abbrev pub not_found : String → Exn
not_found name = rab_error "PROFILE_NOT_FOUND" false (named name)

abbrev pub invalid_profile : String → Exn
invalid_profile name = rab_error "PROFILE_INVALID" false (named name)

-- the `except` clauses of each method; any other exception goes on
unfoldable pub translate_create : String → Exn → Exn
translate_create name profile_lock = busy name
translate_create name file_exists = rab_error "PROFILE_EXISTS" false (named name)
translate_create name (profile_validation _) = invalid_profile name
translate_create name e = e

unfoldable pub translate_ensure : String → Exn → Exn
translate_ensure name profile_lock = busy name
translate_ensure name (profile_validation _) = invalid_profile name
translate_ensure name e = e

unfoldable pub translate_update : String → Exn → Exn
translate_update name profile_lock = busy name
translate_update name profile_not_found = not_found name
translate_update name (profile_validation _) = invalid_profile name
translate_update name e = e

unfoldable pub translate_delete : String → Exn → Exn
translate_delete name profile_lock = busy name
translate_delete name profile_not_found = not_found name
translate_delete name e = e

unfoldable pub translate_get : String → Exn → Exn
translate_get name profile_not_found = not_found name
translate_get name e = e

abbrev stop_failed : List (String × Detail) → Exn
stop_failed details = rab_error "PROFILE_DELETE_TUNNEL_STOP_FAILED" true details

abbrev pub unresolved : String → List (String × Detail) → Exn
unresolved name more = rab_error "PROFILE_DELETE_REMOTE_STATE_UNRESOLVED" true (named name ++ more)

module _ (env : Env) where
  unfoldable pub get_profile : String → Exec Profile
  get_profile name = catch (load_profile env name) (λ e. raise (translate_get name e))

  unfoldable pub create : Profile → Exec Profile
  create p =
      catch
        (do
          lift (validate env.python p)
          supervisor_lock env p.name (save_profile env p false)
          pure p)
        (λ e. raise (translate_create p.name e))

  unfoldable pub ensure_create_available : String → Exec (Unit {0})
  ensure_create_available name =
      catch
        (do
          lift (validate_profile_name name)
          supervisor_lock env name (do
            exists ← profile_exists env name
            if exists then raise (rab_error "PROFILE_EXISTS" false (named name)) else pure tt))
        (λ e. raise (translate_ensure name e))

  -- the part of `update` under the lock
  unfoldable pub update_locked : String → List Change → Exec Profile
  update_locked name changes = do
    current ← load_profile env name
    runtime ← load_runtime env name
    if is_some runtime then raise (rab_error "PROFILE_RUNTIME_ACTIVE" true (named name)) else do
      let updated = apply_changes current changes
      lift (validate env.python updated)
      update_profile env updated
      pure updated

  unfoldable pub update_fields : String → List Change → Exec Profile
  update_fields name changes =
      catch (supervisor_lock env name (update_locked name changes))
        (λ e. raise (translate_update name e))

  unfoldable pub update_checked : String → List Change → List String → Exec Profile
  update_checked name changes [] = update_fields name changes
  update_checked name changes (field ∷ more) = raise (
      rab_error "PROFILE_FIELD_NOT_UPDATABLE" false
        (named name ++ ("fields", texts (field ∷ more)) ∷ []))

  unfoldable pub update : String → List Change → Exec Profile
  update name [] = raise (rab_error "PROFILE_UPDATE_EMPTY" false (named name))
  update name (change ∷ changes) =
      update_checked name (change ∷ changes) (invalid_fields (change ∷ changes))

  module _ (cfg : Config) where
    -- the remote listener after the owned process was stopped
    unfoldable pub confirm_release : Profile → Exec Bool
    confirm_release p = do
      listener ←
          catch (check_listener env cfg p p.remote_port)
            (λ e. raise (unresolved p.name (("remote_check", text "REMOTE_CHECK_EXCEPTION") ∷ [])))
      if has_code listener.error_code "LISTENER_ABSENT"
          then (do clear_runtime env p.name; pure true)
          else raise (
              unresolved p.name (
                ("remote_check", text (or_else listener.error_code "LISTENER_PRESENT"))
                ∷ ("detail", text listener.detail)
                ∷ []))

    unfoldable pub stop_owned_and_confirm_remote_release : Profile → RuntimeState → Exec Bool
    stop_owned_and_confirm_remote_release p state = do
      owned ← matches env state
      if not owned then raise (unresolved p.name []) else do
        stopped ← terminate_owned env state
        if stopped then confirm_release p else do
          still ← matches env state
          if still then raise (stop_failed (named p.name)) else raise (unresolved p.name [])

    -- the two flags of the result, from the answer of `disconnect` for a legacy runtime
    unfoldable pub settle_legacy : String → CheckResult → Exec (Bool × Bool)
    settle_legacy name result =
        if passed result
        then pure (contains "stopped owned SSH process" result.detail, false)
        else if has_code result.error_code "PROCESS_IDENTITY_MISMATCH"
        then (do clear_runtime env name; pure (false, true))
        else raise (stop_failed (named name ++ ("tunnel_error", nullable result.error_code) ∷ []))

    unfoldable pub settle_tunnel : Profile → Option RuntimeState → String → Exec (Bool × Bool)
    settle_tunnel p none name = pure (false, false)
    settle_tunnel p (some state) name =
        if has_remote_identity state
        then (do stopped ← stop_owned_and_confirm_remote_release p state; pure (stopped, false))
        else (do result ← disconnect env name; settle_legacy name result)

    -- the part of `delete` under the lock
    unfoldable pub delete_locked : String → Exec DeleteResult
    delete_locked name = do
      p ← load_profile env name
      if nat_eq p.schema_version 2 || p.profile_type == "managed"
          then raise (
              rab_error "MANAGED_PROFILE_CREDENTIAL_CLEANUP_REQUIRED" false
                (named name ++ ("key_id", nullable p.key_id) ∷ []))
          else do
            state ← load_runtime env name
            flags ← settle_tunnel p state name
            remaining ← load_runtime env name
            if is_some remaining
                then raise (rab_error "PROFILE_DELETE_RUNTIME_REMAINS" true (named name))
                else do
                  delete_profile env name
                  pure (record {
                    name = name;
                    stopped_owned_process = flags.0;
                    removed_stale_runtime = flags.1;
                  })

    unfoldable pub delete : String → Exec DeleteResult
    delete name =
        catch (supervisor_lock env name (delete_locked name)) (λ e. raise (translate_delete name e))
