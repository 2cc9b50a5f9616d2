-- ===== src/Api.antt =====
-- app/api: what a client of the HTTP API gets, from errors.py and the routes of routes.py that work
-- on a profile. A response is the value that the route returns or the error body; the schemas,
-- which copy fields, and the texts of messages are left out.
pub mod Laws
use remote_ai_bridge.Prelude.{
  ℕ, String, Bool, true, false, not, ◌||◌, Option, none, some, List, [], ◌∷◌, Dict, get, any,
  or_else, ◌==◌, if◌then◌else◌,
}
use remote_ai_bridge.Domain.Errors.{
  Exn, Detail, text, RabError, Result, ok, raised, rab, rab_error, profile_validation, value_error,
}
use remote_ai_bridge.Domain.Profile.{Profile, validate_profile_name}
use remote_ai_bridge.Domain.Snapshot.{SupervisorSnapshot, SupervisorState, failed, is_failed}
use remote_ai_bridge.Exec.{Env, Sys, Exec, pure, raise, lift, ◌>>=◌}
use remote_ai_bridge.Services.Options.{Config}
use remote_ai_bridge.Services.Profiles.{Change, DeleteResult, get_profile, update, delete}
use remote_ai_bridge.Services.Doctor.{DoctorReport, diagnose}
use remote_ai_bridge.Services.Runtime.Unsupervised.{RuntimeStopResult}

-- HTTP_STATUS_BY_ERROR_CODE
abbrev pub status_table : Dict ℕ
status_table =
    ("PROFILE_NOT_FOUND", 404)
    ∷ ("PROFILE_EXISTS", 409)
    ∷ ("PROFILE_BUSY", 409)
    ∷ ("RUNTIME_STOP_IN_PROGRESS", 409)
    ∷ ("PROCESS_IDENTITY_MISMATCH", 409)
    ∷ ("PROCESS_STOP_TIMEOUT", 503)
    ∷ ("RUNTIME_STOP_FAILED", 500)
    ∷ ("REMOTE_PORT_CONFLICT", 409)
    ∷ ("PROFILE_INVALID", 422)
    ∷ ("PROFILE_UPDATE_EMPTY", 422)
    ∷ ("PROFILE_FIELD_NOT_UPDATABLE", 422)
    ∷ ("PROFILE_RUNTIME_ACTIVE", 409)
    ∷ ("MANAGED_PROFILE_CREDENTIAL_CLEANUP_REQUIRED", 409)
    ∷ ("PROFILE_DELETE_REMOTE_STATE_UNRESOLVED", 409)
    ∷ ("PROFILE_DELETE_RUNTIME_REMAINS", 409)
    ∷ ("PROFILE_DELETE_TUNNEL_STOP_FAILED", 503)
    ∷ ("HOST_KEY_CONFIRMATION_REQUIRED", 409)
    ∷ ("HOST_KEY_CHANGED", 409)
    ∷ ("LOCAL_PROXY_SELECTION_REQUIRED", 409)
    ∷ ("MANAGED_SETUP_UNAVAILABLE", 503)
    ∷ ("SETUP_ROLLBACK_FAILED", 500)
    ∷ ("SSH_BOOTSTRAP_FAILED", 503)
    ∷ ("RUNTIME_MANAGER_SHUTTING_DOWN", 503)
    ∷ []

unfoldable pub status_code : String → ℕ
unfolding get
status_code code = or_else (get code status_table) 400

abbrev pub is_one_of : List String → String → Bool
is_one_of codes code = any (λ c. c == code) codes

-- `in PUBLIC_STOP_FAILURES`
abbrev pub is_public : String → Bool
is_public = is_one_of (
    "PROFILE_BUSY" ∷ "RUNTIME_STOP_IN_PROGRESS" ∷ "PROCESS_IDENTITY_MISMATCH"
    ∷ "PROCESS_STOP_TIMEOUT" ∷ [])

-- `in RETRYABLE_STOP_FAILURES`
abbrev pub is_retryable : String → Bool
is_retryable = is_one_of ("PROFILE_BUSY" ∷ "RUNTIME_STOP_IN_PROGRESS" ∷ "PROCESS_STOP_TIMEOUT" ∷ [])

-- the error for a stop that failed with the code
unfoldable pub stop_error : String → String → RabError
stop_error name original =
    if is_public original
    then record {
      code = original;
      retryable = is_retryable original;
      details = ("name", text name) ∷ [];
    }
    else record {
      code = "RUNTIME_STOP_FAILED";
      retryable = is_retryable "RUNTIME_STOP_FAILED";
      details =
          if "RUNTIME_STOP_FAILED" == original
          then ("name", text name) ∷ []
          else ("name", text name) ∷ ("stop_error_code", text original) ∷ [];
    }

unfoldable pub stop_failure_error : SupervisorSnapshot → Result RabError
unfolding stop_error
stop_failure_error n =
    if is_failed n.state
    then ok (stop_error n.profile_name (or_else n.error_code "RUNTIME_STOP_FAILED"))
    else raised value_error

unfoldable pub translate_name : String → Result (Unit {0}) → Result String
translate_name name (ok _) = ok name
translate_name name (raised (profile_validation t)) =
    raised (rab_error "PROFILE_INVALID" false (("name", text name) ∷ []))
translate_name name (raised e) = raised e

unfoldable pub validated_profile_name : String → Result String
unfolding translate_name
validated_profile_name name = translate_name name (validate_profile_name name)

-- What the client gets: the value, or an error with its status and code.
pub data Response (A : Type 0) : Type 0 where
  answer : A → Response A
  failure : ℕ → RabError → Response A

abbrev internal_error : RabError
internal_error = record { code = "INTERNAL_SERVER_ERROR"; retryable = false; details = [] }

-- `rab_error_handler`, and `internal_server_error_response` behind the error boundary of app.py
unfoldable pub respond : {A : Type 0} → Result A → Response A
respond (ok a) = answer a
respond (raised (rab e)) = failure (status_code e.code) e
respond (raised _) = failure 500 internal_error

module _ (env : Env) where
  unfoldable pub get_route : String → Exec Profile
  get_route name = do selected ← lift (validated_profile_name name); get_profile env selected

  unfoldable pub update_route : String → List Change → Exec Profile
  update_route name changes = do
    selected ← lift (validated_profile_name name)
    update env selected changes

  unfoldable pub delete_route : Config → String → Exec DeleteResult
  delete_route cfg name = do selected ← lift (validated_profile_name name); delete env cfg selected

  unfoldable pub doctor_route : Config → String → Exec DoctorReport
  doctor_route cfg name = do
    selected ← lift (validated_profile_name name)
    p ← get_profile env selected
    diagnose env cfg p

-- the snapshot of a stop, or the error for it
unfoldable pub conclude_stop : RuntimeStopResult → Exec SupervisorSnapshot
conclude_stop r =
    if is_failed r.snapshot.state
    then (do e ← lift (stop_failure_error r.snapshot); raise (rab e))
    else pure r.snapshot

-- `disconnect_runtime`, over the manager's `stop`
unfoldable pub disconnect_route :
    (String → Exec RuntimeStopResult) → String → Exec SupervisorSnapshot
disconnect_route stop name = do
  selected ← lift (validated_profile_name name)
  result ← stop selected
  conclude_stop result
