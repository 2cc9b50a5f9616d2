-- ===== src/Invariant/Profiles.antt =====
-- Every method of the profile service keeps the invariant.
use remote_ai_bridge.Prelude.{ℕ, String, Option, none, some, List, [], ◌∷◌}
use remote_ai_bridge.Domain.Health.{CheckResult}
use remote_ai_bridge.Domain.Profile.{Profile}
use remote_ai_bridge.Domain.Runtime.{RuntimeState}
use remote_ai_bridge.Exec.{Env}
use remote_ai_bridge.Invariant.Trace.{Sound, trace_rules}
use remote_ai_bridge.Invariant.Files.{file_rules}
use remote_ai_bridge.Invariant.Tunnels.{Sound-check_listener, Sound-disconnect}
use remote_ai_bridge.Services.Options.{Config}
use remote_ai_bridge.Services.Profiles.{
  Change, get_profile, create, ensure_create_available, update_locked, update_fields,
  update_checked, update, confirm_release, stop_owned_and_confirm_remote_release, settle_legacy,
  settle_tunnel, delete_locked, delete,
}

module _ (env : Env) (k : ℕ) where
  pub Sound-get_profile : (name : String) → Sound env k (get_profile env name)
  unfolding get_profile
  Sound-get_profile name = search (trace_rules, file_rules) depth 8

  pub Sound-create : (p : Profile) → Sound env k (create env p)
  unfolding create
  Sound-create p = search (trace_rules, file_rules) depth 9

  pub Sound-ensure_create_available :
      (name : String) → Sound env k (ensure_create_available env name)
  unfolding ensure_create_available
  Sound-ensure_create_available name = search (trace_rules, file_rules) depth 9

  Sound-update_locked :
      (name : String) (changes : List Change) → Sound env k (update_locked env name changes)
  unfolding update_locked
  Sound-update_locked name changes = search (trace_rules, file_rules) depth 10

  Sound-update_fields :
      (name : String) (changes : List Change) → Sound env k (update_fields env name changes)
  unfolding update_fields
  Sound-update_fields name changes = search (trace_rules, file_rules, Sound-update_locked) depth 8

  Sound-update_checked :
      (name : String) (changes : List Change) (fields : List String)
      → Sound env k (update_checked env name changes fields)
  unfolding update_checked
  Sound-update_checked name changes [] = Sound-update_fields name changes
  Sound-update_checked name changes (f ∷ fs) = search trace_rules

  pub Sound-update : (name : String) (changes : List Change) → Sound env k (update env name changes)
  unfolding update
  Sound-update name [] = search trace_rules
  Sound-update name (c ∷ cs) = Sound-update_checked name _ _

  module _ (cfg : Config) where
    Sound-confirm_release : (p : Profile) → Sound env k (confirm_release env cfg p)
    unfolding confirm_release
    Sound-confirm_release p = search (trace_rules, file_rules, Sound-check_listener) depth 9

    Sound-stop_owned :
        (p : Profile) (r : RuntimeState)
        → Sound env k (stop_owned_and_confirm_remote_release env cfg p r)
    unfolding stop_owned_and_confirm_remote_release
    Sound-stop_owned p r = search (trace_rules, Sound-confirm_release) depth 12

    Sound-settle_legacy :
        (name : String) (c : CheckResult) → Sound env k (settle_legacy env cfg name c)
    unfolding settle_legacy
    Sound-settle_legacy name c = search (trace_rules, file_rules) depth 8

    Sound-settle_tunnel :
        (p : Profile) (o : Option RuntimeState) (name : String)
        → Sound env k (settle_tunnel env cfg p o name)
    unfolding settle_tunnel
    Sound-settle_tunnel p none name = search trace_rules
    Sound-settle_tunnel p (some r) name =
        search (trace_rules, Sound-stop_owned, Sound-disconnect, Sound-settle_legacy) depth 8

    Sound-delete_locked : (name : String) → Sound env k (delete_locked env cfg name)
    unfolding delete_locked
    Sound-delete_locked name = search (trace_rules, file_rules, Sound-settle_tunnel) depth 14

    pub Sound-delete : (name : String) → Sound env k (delete env cfg name)
    unfolding delete
    Sound-delete name = search (trace_rules, file_rules, Sound-delete_locked) depth 8
