-- ===== src/Infrastructure/Store.antt =====
-- app/infrastructure/profile_store.py: the profiles and the runtime states on disk. `Sys` holds one
-- entry for each file `profiles/<name>.json` and `runtime/<name>.json`; any read or write may raise
-- OSError, and what is read is validated again, as `from_dict` does. An entry is the profile or the state
-- that the file's JSON stands for: what `to_dict` writes of a profile, `from_dict` reads as the same
-- profile (Domain/Profile/RoundTrip). The replacement of the file by `os.replace` is taken as given:
-- a write is done whole or not at all. Two names stand for two files, so names that differ in case
-- only are left out where the file system does not tell them apart.
pub mod Laws
pub mod Reads
pub mod Listing
use remote_ai_bridge.Prelude.{
  String, Bool, true, false, not, ◌&&◌, ◌||◌, Option, none, some, List, [], ◌∷◌, Dict, get, put,
  remove, is_some, ◌==◌, if◌then◌else◌,
}
use remote_ai_bridge.Text.{every}
use remote_ai_bridge.Domain.Errors.{value_error, file_exists, profile_not_found}
use remote_ai_bridge.Domain.Python.{Python}
use remote_ai_bridge.Domain.Profile.{Profile, validate}
use remote_ai_bridge.Domain.Profile.Rules.{is_name_char}
use remote_ai_bridge.Domain.Runtime.{RuntimeState, validate_runtime}
use remote_ai_bridge.Exec.{
  Env, Exec, pure, raise, lift, gets, modify, with_lock, file_operation, ◌>>=◌, ◌>>◌,
}

-- the test of `_profile_path` and `_runtime_path`
unfoldable pub is_safe_name : String → Bool
unfolding every
is_safe_name name = not (name == "") && every is_name_char name

-- `_profile_path`, `_runtime_path`: the file is the entry of that name
unfoldable pub path_of : String → Exec (Unit {0})
path_of name = if is_safe_name name then pure tt else raise value_error

-- `sorted(profiles_dir.glob("*.json"))`, each file with what is in it
unfoldable pub insert_file : Python → String → Profile → Dict Profile → Dict Profile
insert_file py name p [] = (name, p) ∷ []
insert_file py name p ((n, q) ∷ files) =
    let rest = insert_file py name p files in
    if py.path_before n name then (n, q) ∷ rest else (name, p) ∷ (n, q) ∷ files

unfoldable pub sorted_files : Python → Dict Profile → Dict Profile
unfolding insert_file
sorted_files py [] = []
sorted_files py ((n, q) ∷ files) = insert_file py n q (sorted_files py files)

module _ (env : Env) where
  unfoldable pub write_profile : Profile → Exec (Unit {0})
  write_profile p = do
    file_operation env
    modify (λ s. record s { profiles = put p.name p s.profiles })

  unfoldable pub save_profile : Profile → Bool → Exec (Unit {0})
  save_profile p overwrite = do
    lift (validate env.python p)
    path_of p.name
    existing ← gets (λ s. get p.name s.profiles)
    if is_some existing && not overwrite then raise file_exists else write_profile p

  unfoldable pub read_profile : Option Profile → Exec Profile
  read_profile none = raise profile_not_found
  read_profile (some p) = do file_operation env; lift (validate env.python p); pure p

  unfoldable pub load_profile : String → Exec Profile
  load_profile name = do path_of name; found ← gets (λ s. get name s.profiles); read_profile found

  unfoldable pub profile_exists : String → Exec Bool
  profile_exists name = do path_of name; gets (λ s. is_some (get name s.profiles))

  unfoldable pub update_profile : Profile → Exec (Unit {0})
  update_profile p = do
    lift (validate env.python p)
    path_of p.name
    existing ← gets (λ s. get p.name s.profiles)
    if is_some existing then write_profile p else raise profile_not_found

  unfoldable pub delete_profile : String → Exec (Unit {0})
  delete_profile name = do
    path_of name
    existing ← gets (λ s. get name s.profiles)
    if is_some existing
        then (do file_operation env; modify (λ s. record s { profiles = remove name s.profiles }))
        else raise profile_not_found

  unfoldable pub read_files : Dict Profile → Exec (List Profile)
  read_files [] = pure []
  read_files ((name, p) ∷ files) = do
    file_operation env
    lift (validate env.python p)
    rest ← read_files files
    pure (p ∷ rest)

  -- a folder that is not there has no files
  unfoldable pub list_profiles : Exec (List Profile)
  list_profiles = do files ← gets (λ s. s.profiles); read_files (sorted_files env.python files)

  unfoldable pub save_runtime : RuntimeState → Exec (Unit {0})
  save_runtime state = do
    lift (validate_runtime env.python state)
    path_of state.profile_name
    file_operation env
    modify (λ s. record s { runtimes = put state.profile_name state s.runtimes })

  unfoldable pub read_runtime : Option RuntimeState → Exec (Option RuntimeState)
  read_runtime none = pure none
  read_runtime (some state) = do
    file_operation env
    lift (validate_runtime env.python state)
    pure (some state)

  unfoldable pub load_runtime : String → Exec (Option RuntimeState)
  load_runtime name = do path_of name; found ← gets (λ s. get name s.runtimes); read_runtime found

  unfoldable pub clear_runtime : String → Exec (Unit {0})
  clear_runtime name = do
    path_of name
    file_operation env
    modify (λ s. record s { runtimes = remove name s.runtimes })

  -- `with supervisor_lock(name): m`; the lock file is opened, and the lock is not waited for
  unfoldable pub supervisor_lock {ℓ} : {A : Type ℓ} → String → Exec A → Exec A
  supervisor_lock name m = do path_of name; file_operation env; with_lock env name m
