-- ===== src/Invariant/Files.antt =====
-- The operations of the state directory and of the lock keep the invariant.
use remote_ai_bridge.Prelude.{
  ℕ, String, ◌≡◌, Bool, true, false, Option, none, some, ◌∷◌, put, remove, arith, eq_iff, get-put,
  get-remove, if◌then◌else◌,
}
use remote_ai_bridge.Domain.Errors.{ok}
use remote_ai_bridge.Domain.Profile.{Profile, validate}
use remote_ai_bridge.Domain.Runtime.{RuntimeState, ActiveTunnel, validate_runtime}
use remote_ai_bridge.Exec.{
  Env, Sys, Exec, locked, unlocked, touched, asked, ask, modify, with_lock, file_operation,
}
use remote_ai_bridge.Exec.Keeps.{Keeps-ask, Keeps-bind, Keeps-bind-lift, Keeps-modify, keeps_rules}
use remote_ai_bridge.Infrastructure.Store.{
  path_of, write_profile, save_profile, read_profile, load_profile, profile_exists, update_profile,
  delete_profile, save_runtime, read_runtime, load_runtime, clear_runtime, supervisor_lock,
}
use remote_ai_bridge.Services.Supervisor.Publish.{set_active}
use remote_ai_bridge.Invariant.Trace.{IsSound, Sound, Sound-event}

module _ (env : Env) (k : ℕ) where
  Sound-touched : Sound env k (ask env.io_fails (λ _. touched))
  Sound-touched = Keeps-ask _ _ (λ s a h. Sound-event env k s touched h.owned h)

  pub Sound-file_operation : Sound env k (file_operation env)
  unfolding file_operation
  Sound-file_operation = search (keeps_rules, Sound-touched)

  pub Sound-path_of : (name : String) → Sound env k (path_of name)
  unfolding path_of
  Sound-path_of name = search keeps_rules

  -- a profile that was validated may be written
  IsSound-put_profile :
      (p : Profile) (s : Sys)
      → validate env.python p ≡ ok tt
      → IsSound env k s
      → IsSound env k (record s { profiles = put p.name p s.profiles })
  IsSound-put_profile p s v h = record {
    grown = h.grown;
    owned = h.owned;
    profiles =
        λ j q e. ground (arith, get-put p.name j p s.profiles, eq_iff p.name j, h.profiles j q);
    runtimes = h.runtimes;
  }

  IsSound-remove_profile :
      (name : String) (s : Sys)
      → IsSound env k s
      → IsSound env k (record s { profiles = remove name s.profiles })
  IsSound-remove_profile name s h = record {
    grown = h.grown;
    owned = h.owned;
    profiles = λ j q e. ground (arith, get-remove name j s.profiles, h.profiles j q);
    runtimes = h.runtimes;
  }

  IsSound-put_runtime :
      (r : RuntimeState) (s : Sys)
      → validate_runtime env.python r ≡ ok tt
      → IsSound env k s
      → IsSound env k (record s { runtimes = put r.profile_name r s.runtimes })
  IsSound-put_runtime r s v h = record {
    grown = h.grown;
    owned = h.owned;
    profiles = h.profiles;
    runtimes = λ j q e.
        ground
          (arith, get-put r.profile_name j r s.runtimes, eq_iff r.profile_name j, h.runtimes j q);
  }

  IsSound-remove_runtime :
      (name : String) (s : Sys)
      → IsSound env k s
      → IsSound env k (record s { runtimes = remove name s.runtimes })
  IsSound-remove_runtime name s h = record {
    grown = h.grown;
    owned = h.owned;
    profiles = h.profiles;
    runtimes = λ j q e. ground (arith, get-remove name j s.runtimes, h.runtimes j q);
  }

  Sound-write_profile :
      (p : Profile) → validate env.python p ≡ ok tt → Sound env k (write_profile env p)
  unfolding write_profile
  Sound-write_profile p v =
      Keeps-bind _ _ Sound-file_operation λ _. Keeps-modify _ (λ s. IsSound-put_profile p s v)

  pub Sound-save_profile : (p : Profile) (b : Bool) → Sound env k (save_profile env p b)
  unfolding save_profile
  Sound-save_profile p b =
      Keeps-bind-lift (validate env.python p) _
        λ _ v. search (keeps_rules, Sound-path_of, Sound-write_profile) depth 8

  Sound-read_profile : (o : Option Profile) → Sound env k (read_profile env o)
  unfolding read_profile
  Sound-read_profile none = search keeps_rules
  Sound-read_profile (some p) = search (keeps_rules, Sound-file_operation) depth 8

  pub Sound-load_profile : (name : String) → Sound env k (load_profile env name)
  unfolding load_profile
  Sound-load_profile name = search (keeps_rules, Sound-path_of, Sound-read_profile) depth 8

  pub Sound-profile_exists : (name : String) → Sound env k (profile_exists env name)
  unfolding profile_exists
  Sound-profile_exists name = search (keeps_rules, Sound-path_of) depth 8

  pub Sound-update_profile : (p : Profile) → Sound env k (update_profile env p)
  unfolding update_profile
  Sound-update_profile p =
      Keeps-bind-lift (validate env.python p) _
        λ _ v. search (keeps_rules, Sound-path_of, Sound-write_profile) depth 8

  Sound-remove_profile :
      (name : String) → Sound env k (modify (λ s. record s { profiles = remove name s.profiles }))
  Sound-remove_profile name = Keeps-modify _ (IsSound-remove_profile name)

  pub Sound-delete_profile : (name : String) → Sound env k (delete_profile env name)
  unfolding delete_profile
  Sound-delete_profile name =
      search (keeps_rules, Sound-path_of, Sound-file_operation, Sound-remove_profile) depth 9

  Sound-put_runtime :
      (r : RuntimeState)
      → validate_runtime env.python r ≡ ok tt
      → Sound env k (modify (λ s. record s { runtimes = put r.profile_name r s.runtimes }))
  Sound-put_runtime r v = Keeps-modify _ (λ s. IsSound-put_runtime r s v)

  pub Sound-save_runtime : (r : RuntimeState) → Sound env k (save_runtime env r)
  unfolding save_runtime
  Sound-save_runtime r =
      Keeps-bind-lift (validate_runtime env.python r) _
        λ _ v. search (keeps_rules, Sound-path_of, Sound-file_operation, Sound-put_runtime) depth 8

  Sound-read_runtime : (o : Option RuntimeState) → Sound env k (read_runtime env o)
  unfolding read_runtime
  Sound-read_runtime none = search keeps_rules
  Sound-read_runtime (some r) = search (keeps_rules, Sound-file_operation) depth 8

  pub Sound-load_runtime : (name : String) → Sound env k (load_runtime env name)
  unfolding load_runtime
  Sound-load_runtime name = search (keeps_rules, Sound-path_of, Sound-read_runtime) depth 8

  Sound-remove_runtime :
      (name : String) → Sound env k (modify (λ s. record s { runtimes = remove name s.runtimes }))
  Sound-remove_runtime name = Keeps-modify _ (IsSound-remove_runtime name)

  pub Sound-clear_runtime : (name : String) → Sound env k (clear_runtime env name)
  unfolding clear_runtime
  Sound-clear_runtime name =
      search (keeps_rules, Sound-path_of, Sound-file_operation, Sound-remove_runtime) depth 8

  pub Sound-lock :
      (name : String)
      → Sound env k (ask (λ t. env.lock_taken t name) (λ b. if b then asked else locked name))
  Sound-lock name = Keeps-ask _ _ λ s b h.
      elim b
        as (λ b.
          IsSound env k (record s { trace = (if b then asked else locked name) ∷ s.trace })) [
            | true ↦ Sound-event env k s asked h.owned h
            | false ↦ Sound-event env k s (locked name) h.owned h
          ]

  Sound-unlock : (name : String) → Sound env k (ask (λ t. tt {0}) (λ _. unlocked name))
  Sound-unlock name = Keeps-ask _ _ (λ s a h. Sound-event env k s (unlocked name) h.owned h)

  pub Sound-supervisor_lock :
      {A : Type 0} (name : String) (m : Exec A)
      → Sound env k m
      → Sound env k (supervisor_lock env name m)
  unfolding supervisor_lock with_lock
  Sound-supervisor_lock name m km =
      search (keeps_rules, Sound-path_of, Sound-file_operation, Sound-lock, Sound-unlock) depth 9

  pub Sound-set_active : (t : Option ActiveTunnel) → Sound env k (set_active t)
  unfolding set_active
  Sound-set_active t = Keeps-modify _ λ s h. record {
    grown = h.grown;
    owned = h.owned;
    profiles = h.profiles;
    runtimes = h.runtimes;
  }

pub ruleset file_rules = (
  Sound-load_profile, Sound-save_profile, Sound-profile_exists, Sound-update_profile,
  Sound-delete_profile, Sound-save_runtime, Sound-load_runtime, Sound-clear_runtime,
  Sound-supervisor_lock, Sound-set_active,
)
