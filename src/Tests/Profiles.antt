-- ===== src/Tests/Profiles.antt =====
-- Runs of the store and of the profile service.
use remote_ai_bridge.Prelude.{
  ℕ, String, ◌≡◌, ◌≢◌, ◌⊎◌, ◌↔◌, ◌-◌, ◌+◌, ◌<◌, nat_eq, ◌==◌, get, refl, inl, inr, Bool, true,
  false, Option, none, some, List, [], ◌∷◌, ◌≤◌, arith, length,
}
use remote_ai_bridge.Domain.Errors.{ok}
use remote_ai_bridge.Domain.Profile.{Profile, validate}
use remote_ai_bridge.Services.Profiles.Laws.{create-IsStored, update-IsStored}
use remote_ai_bridge.Services.Profiles.Deletion.{delete-removes}
use remote_ai_bridge.Services.Profiles.{Change, DeleteResult, apply_changes, create, update, delete}
use remote_ai_bridge.Exec.{
  Env, Sys, Trace, Completed, Spawned, Connected, Exchanged, Fetched, exited,
}
use remote_ai_bridge.Domain.Profile.Laws.{IsValid, validate_iff}
use remote_ai_bridge.Domain.Profile.Rules.{is_valid_profile_name}
use remote_ai_bridge.Infrastructure.Store.{is_safe_name, save_profile, load_profile}
use remote_ai_bridge.Infrastructure.Store.Laws.{is_valid_profile_name-is_safe_name}
use remote_ai_bridge.Domain.Errors as Errors
use remote_ai_bridge.Domain.Profile.Fields.{to_dict, from_dict}
use remote_ai_bridge.Domain.Profile.RoundTrip.{to_dict-from_dict}
use remote_ai_bridge.Invariant.Reachable.{fresh}
use remote_ai_bridge.Exec.{◌>>=◌}
use remote_ai_bridge.Tests.{python, env, cfg, dev, stored, dev-valid}

validate_iff_example : (validate python dev ≡ ok tt) ↔ IsValid python dev
validate_iff_example = validate_iff python dev

no_dev : get "dev" fresh.profiles ≡ none
unfolding get
no_dev = refl

dev_name : is_valid_profile_name "dev" ≡ true
unfolding is_valid_profile_name
dev_name = refl

to_dict-from_dict_example : Errors.◌>>=◌ (to_dict python dev) (from_dict python) ≡ ok dev
to_dict-from_dict_example = to_dict-from_dict python dev dev-valid

is_safe_name_example : is_safe_name "dev" ≡ true
is_safe_name_example = is_valid_profile_name-is_safe_name "dev" dev_name

created_dev : create env dev fresh ≡ (ok dev, (create env dev fresh).1)
unfolding validate remote_ai_bridge.Domain.Profile.validate_profile_name
    remote_ai_bridge.Domain.Profile.Rules.is_valid_profile_name
    remote_ai_bridge.Domain.Profile.Rules.is_valid_target
    remote_ai_bridge.Domain.Profile.validate_endpoint_probe_url
    remote_ai_bridge.Domain.Profile.validate_schema remote_ai_bridge.Exec.pure
    remote_ai_bridge.Exec.raise remote_ai_bridge.Exec.lift remote_ai_bridge.Exec.ask
    remote_ai_bridge.Exec.catch remote_ai_bridge.Exec.finally remote_ai_bridge.Exec.gets
    remote_ai_bridge.Exec.modify remote_ai_bridge.Exec.given remote_ai_bridge.Exec.with_lock
    remote_ai_bridge.Exec.file_operation remote_ai_bridge.Exec.◌>>=◌
    remote_ai_bridge.Infrastructure.Store.is_safe_name remote_ai_bridge.Infrastructure.Store.path_of
    remote_ai_bridge.Infrastructure.Store.write_profile
    remote_ai_bridge.Infrastructure.Store.save_profile
    remote_ai_bridge.Infrastructure.Store.read_profile
    remote_ai_bridge.Infrastructure.Store.load_profile
    remote_ai_bridge.Infrastructure.Store.update_profile
    remote_ai_bridge.Infrastructure.Store.delete_profile
    remote_ai_bridge.Infrastructure.Store.read_runtime
    remote_ai_bridge.Infrastructure.Store.load_runtime
    remote_ai_bridge.Infrastructure.Store.clear_runtime
    remote_ai_bridge.Infrastructure.Store.supervisor_lock remote_ai_bridge.Prelude.get
    remote_ai_bridge.Prelude.put remote_ai_bridge.Prelude.remove
    remote_ai_bridge.Services.Profiles.create remote_ai_bridge.Services.Profiles.update
    remote_ai_bridge.Services.Profiles.update_checked
    remote_ai_bridge.Services.Profiles.update_fields
    remote_ai_bridge.Services.Profiles.update_locked remote_ai_bridge.Services.Profiles.delete
    remote_ai_bridge.Services.Profiles.delete_locked
    remote_ai_bridge.Services.Profiles.settle_tunnel
    remote_ai_bridge.Services.Profiles.apply_changes
    remote_ai_bridge.Services.Profiles.invalid_fields
created_dev = refl

create-IsStored_example :
    (dev ≡ dev)
    × (get dev.name fresh.profiles ≡ none)
    × (get dev.name (create env dev fresh).1.profiles ≡ some dev)
create-IsStored_example = create-IsStored env dev dev fresh (create env dev fresh).1 created_dev

abbrev moved : Profile
moved = record dev { remote_port = 18000 }

updated_dev :
    update env "dev" (Change.remote_port 18000 ∷ []) stored
    ≡ (ok moved, (update env "dev" (Change.remote_port 18000 ∷ []) stored).1)
unfolding validate remote_ai_bridge.Domain.Profile.validate_profile_name
    remote_ai_bridge.Domain.Profile.Rules.is_valid_profile_name
    remote_ai_bridge.Domain.Profile.Rules.is_valid_target
    remote_ai_bridge.Domain.Profile.validate_endpoint_probe_url
    remote_ai_bridge.Domain.Profile.validate_schema remote_ai_bridge.Exec.pure
    remote_ai_bridge.Exec.raise remote_ai_bridge.Exec.lift remote_ai_bridge.Exec.ask
    remote_ai_bridge.Exec.catch remote_ai_bridge.Exec.finally remote_ai_bridge.Exec.gets
    remote_ai_bridge.Exec.modify remote_ai_bridge.Exec.given remote_ai_bridge.Exec.with_lock
    remote_ai_bridge.Exec.file_operation remote_ai_bridge.Exec.◌>>=◌
    remote_ai_bridge.Infrastructure.Store.is_safe_name remote_ai_bridge.Infrastructure.Store.path_of
    remote_ai_bridge.Infrastructure.Store.write_profile
    remote_ai_bridge.Infrastructure.Store.save_profile
    remote_ai_bridge.Infrastructure.Store.read_profile
    remote_ai_bridge.Infrastructure.Store.load_profile
    remote_ai_bridge.Infrastructure.Store.update_profile
    remote_ai_bridge.Infrastructure.Store.delete_profile
    remote_ai_bridge.Infrastructure.Store.read_runtime
    remote_ai_bridge.Infrastructure.Store.load_runtime
    remote_ai_bridge.Infrastructure.Store.clear_runtime
    remote_ai_bridge.Infrastructure.Store.supervisor_lock remote_ai_bridge.Prelude.get
    remote_ai_bridge.Prelude.put remote_ai_bridge.Prelude.remove
    remote_ai_bridge.Services.Profiles.create remote_ai_bridge.Services.Profiles.update
    remote_ai_bridge.Services.Profiles.update_checked
    remote_ai_bridge.Services.Profiles.update_fields
    remote_ai_bridge.Services.Profiles.update_locked remote_ai_bridge.Services.Profiles.delete
    remote_ai_bridge.Services.Profiles.delete_locked
    remote_ai_bridge.Services.Profiles.settle_tunnel
    remote_ai_bridge.Services.Profiles.apply_changes
    remote_ai_bridge.Services.Profiles.invalid_fields
updated_dev = refl

update-IsStored_example :
    (get "dev" stored.runtimes ≡ none)
    × ((p : Profile) × (get "dev" stored.profiles ≡ some p)
        × (moved ≡ apply_changes p (Change.remote_port 18000 ∷ [])))
    × (get "dev" (update env "dev" (Change.remote_port 18000 ∷ []) stored).1.profiles ≡ some moved)
update-IsStored_example =
    update-IsStored env "dev" (Change.remote_port 18000 ∷ []) moved stored
      (update env "dev" (Change.remote_port 18000 ∷ []) stored).1 updated_dev

abbrev deletion : DeleteResult
deletion = record { name = "dev"; stopped_owned_process = false; removed_stale_runtime = false }

deleted_dev : delete env cfg "dev" stored ≡ (ok deletion, (delete env cfg "dev" stored).1)
unfolding validate remote_ai_bridge.Domain.Profile.validate_profile_name
    remote_ai_bridge.Domain.Profile.Rules.is_valid_profile_name
    remote_ai_bridge.Domain.Profile.Rules.is_valid_target
    remote_ai_bridge.Domain.Profile.validate_endpoint_probe_url
    remote_ai_bridge.Domain.Profile.validate_schema remote_ai_bridge.Exec.pure
    remote_ai_bridge.Exec.raise remote_ai_bridge.Exec.lift remote_ai_bridge.Exec.ask
    remote_ai_bridge.Exec.catch remote_ai_bridge.Exec.finally remote_ai_bridge.Exec.gets
    remote_ai_bridge.Exec.modify remote_ai_bridge.Exec.given remote_ai_bridge.Exec.with_lock
    remote_ai_bridge.Exec.file_operation remote_ai_bridge.Exec.◌>>=◌
    remote_ai_bridge.Infrastructure.Store.is_safe_name remote_ai_bridge.Infrastructure.Store.path_of
    remote_ai_bridge.Infrastructure.Store.write_profile
    remote_ai_bridge.Infrastructure.Store.save_profile
    remote_ai_bridge.Infrastructure.Store.read_profile
    remote_ai_bridge.Infrastructure.Store.load_profile
    remote_ai_bridge.Infrastructure.Store.update_profile
    remote_ai_bridge.Infrastructure.Store.delete_profile
    remote_ai_bridge.Infrastructure.Store.read_runtime
    remote_ai_bridge.Infrastructure.Store.load_runtime
    remote_ai_bridge.Infrastructure.Store.clear_runtime
    remote_ai_bridge.Infrastructure.Store.supervisor_lock remote_ai_bridge.Prelude.get
    remote_ai_bridge.Prelude.put remote_ai_bridge.Prelude.remove
    remote_ai_bridge.Services.Profiles.create remote_ai_bridge.Services.Profiles.update
    remote_ai_bridge.Services.Profiles.update_checked
    remote_ai_bridge.Services.Profiles.update_fields
    remote_ai_bridge.Services.Profiles.update_locked remote_ai_bridge.Services.Profiles.delete
    remote_ai_bridge.Services.Profiles.delete_locked
    remote_ai_bridge.Services.Profiles.settle_tunnel
    remote_ai_bridge.Services.Profiles.apply_changes
    remote_ai_bridge.Services.Profiles.invalid_fields
deleted_dev = refl

delete-removes_example :
    ((p : Profile) × (get "dev" stored.profiles ≡ some p)
      × (nat_eq p.schema_version 2 ≡ false)
      × ((p.profile_type == "managed") ≡ false))
    × (get "dev" (delete env cfg "dev" stored).1.profiles ≡ none)
    × (get "dev" (delete env cfg "dev" stored).1.runtimes ≡ none)
delete-removes_example =
    delete-removes env "dev" cfg deletion stored (delete env cfg "dev" stored).1 deleted_dev
