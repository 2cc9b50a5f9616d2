-- ===== src/Infrastructure/Store/Reads.antt =====
-- The reads of app/infrastructure/profile_store.py and the lock change nothing but the trace: they
-- keep whatever does not speak of it.
use remote_ai_bridge.Prelude.{String, ◌≡◌, sym, ap, Dict, if◌then◌else◌, Option, none, some, get}
use remote_ai_bridge.Domain.Errors.{profile_lock}
use remote_ai_bridge.Domain.Profile.{Profile}
use remote_ai_bridge.Domain.Runtime.{RuntimeState}
use remote_ai_bridge.Exec.{
  Env, Sys, Exec, Trace, Event, ask, asked, locked, with_lock, file_operation,
}
use remote_ai_bridge.Exec.Keeps.{
  Keeps, Keeps-ask, Keeps-bind, Keeps-if, Keeps-raise, Keeps-pure, Keeps-lift, keeps_rules,
}
use remote_ai_bridge.Exec.Yields.{
  Yields, Yields-bind, Yields-gets, Yields-kept, Yields-if, Yields-raise, Yields-finally,
  Yields-pure,
}
use remote_ai_bridge.Infrastructure.Store.{
  path_of, read_profile, load_profile, read_runtime, load_runtime, supervisor_lock,
}

module _ (env : Env) (P : Sys → Type 0)
    (stable : (s : Sys) (t : Trace) → P s → P (record s { trace = t })) where
  pub path_of-Keeps : (name : String) → Keeps P (path_of name)
  unfolding path_of
  path_of-Keeps name = search keeps_rules

  pub file_operation-Keeps : Keeps P (file_operation env)
  unfolding file_operation
  file_operation-Keeps =
      Keeps-bind _ _ (Keeps-ask _ _ (λ s a h. stable s _ h))
        λ b. Keeps-if b _ _ (Keeps-raise _) (Keeps-pure _)

  read_profile-Keeps : (o : Option Profile) → Keeps P (read_profile env o)
  unfolding read_profile
  read_profile-Keeps none = search keeps_rules
  read_profile-Keeps (some p) = search (keeps_rules, file_operation-Keeps) depth 8

  pub load_profile-Keeps : (name : String) → Keeps P (load_profile env name)
  unfolding load_profile
  load_profile-Keeps name = search (keeps_rules, path_of-Keeps, read_profile-Keeps) depth 8

  read_runtime-Keeps : (o : Option RuntimeState) → Keeps P (read_runtime env o)
  unfolding read_runtime
  read_runtime-Keeps none = search keeps_rules
  read_runtime-Keeps (some r) = search (keeps_rules, file_operation-Keeps) depth 8

  pub load_runtime-Keeps : (name : String) → Keeps P (load_runtime env name)
  unfolding load_runtime
  load_runtime-Keeps name = search (keeps_rules, path_of-Keeps, read_runtime-Keeps) depth 8

  asked-Keeps : {A : Type 0} (f : Trace → A) (e : A → Event) → Keeps P (ask f e)
  asked-Keeps f e = Keeps-ask f e (λ s a h. stable s _ h)

  -- the lock keeps what the code under it keeps
  pub supervisor_lock-Keeps :
      {A : Type 0} (name : String) (m : Exec A) → Keeps P m → Keeps P (supervisor_lock env name m)
  unfolding supervisor_lock with_lock
  supervisor_lock-Keeps name m k =
      search (keeps_rules, path_of-Keeps, file_operation-Keeps, asked-Keeps) depth 9

  -- what the code under the lock establishes from P, it establishes with the lock around it
  pub supervisor_lock-Yields :
      {A : Type 0} (name : String) (Q : A → Sys → Type 0) (m : Exec A)
      → ((a : A) (s : Sys) (t : Trace) → Q a s → Q a (record s { trace = t }))
      → Yields P Q m
      → Yields P Q (supervisor_lock env name m)
  unfolding supervisor_lock with_lock ask
  supervisor_lock-Yields name Q m st y = Yields-bind _ _ (Yields-kept _ (path_of-Keeps name)) λ _.
      Yields-bind _ _ (Yields-kept _ file_operation-Keeps) λ _.
        Yields-bind _ _
          (Yields-kept _
            (Keeps-ask _ (λ b. if b then asked else locked name) (λ s a h. stable s _ h)))
          λ taken.
            Yields-if taken _ _ (Yields-raise profile_lock)
              (Yields-finally m _ (λ a s h. st a s _ h) y)

module _ (env : Env) (C : Sys → Type 0)
    (stable : (s : Sys) (t : Trace) → C s → C (record s { trace = t })) (name : String) where
  read_profile-Yields :
      (d : Dict Profile) (o : Option Profile)
      → Yields
          (λ s. (get name d ≡ o) × C s)
          (λ p s. (get name d ≡ some p) × C s)
          (read_profile env o)
  unfolding read_profile
  read_profile-Yields d none = Yields-raise _
  read_profile-Yields d (some p) =
      Yields-bind _ _
        (Yields-kept _ (
          file_operation-Keeps env (λ s. (get name d ≡ some p) × C s)
            (λ s t h. (h.0, stable s t h.1))))
        λ _. Yields-bind _ _ (Yields-kept _ (Keeps-lift _)) λ _. Yields-pure p (λ s h. h)

  -- a profile that was loaded is the one that is stored
  pub load_profile-Yields :
      (d : Dict Profile)
      → Yields
          (λ s. (s.profiles ≡ d) × C s)
          (λ p s. (get name d ≡ some p) × C s)
          (load_profile env name)
  unfolding load_profile
  load_profile-Yields d =
      Yields-bind _ _ (Yields-kept _ (path_of-Keeps env _ (λ s t h. (h.0, stable s t h.1)) name))
        λ _.
          Yields-bind _ _ (Yields-gets _ (λ s h. (sym (ap (get name) h.0), h.1)))
            (read_profile-Yields d)

  read_runtime-Yields :
      (d : Dict RuntimeState) (o : Option RuntimeState)
      → Yields (λ s. (get name d ≡ o) × C s) (λ r s. (get name d ≡ r) × C s) (read_runtime env o)
  unfolding read_runtime
  read_runtime-Yields d none = Yields-pure none (λ s h. h)
  read_runtime-Yields d (some r) =
      Yields-bind _ _
        (Yields-kept _ (
          file_operation-Keeps env (λ s. (get name d ≡ some r) × C s)
            (λ s t h. (h.0, stable s t h.1))))
        λ _. Yields-bind _ _ (Yields-kept _ (Keeps-lift _)) λ _. Yields-pure (some r) (λ s h. h)

  -- a runtime state that was loaded is the one that is stored, and none if there is none
  pub load_runtime-Yields :
      (d : Dict RuntimeState)
      → Yields (λ s. (s.runtimes ≡ d) × C s) (λ r s. (get name d ≡ r) × C s) (load_runtime env name)
  unfolding load_runtime
  load_runtime-Yields d =
      Yields-bind _ _ (Yields-kept _ (path_of-Keeps env _ (λ s t h. (h.0, stable s t h.1)) name))
        λ _.
          Yields-bind _ _ (Yields-gets _ (λ s h. (sym (ap (get name) h.0), h.1)))
            (read_runtime-Yields d)
