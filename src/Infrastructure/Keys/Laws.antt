-- ===== src/Infrastructure/Keys/Laws.antt =====
-- Which files SSHKeyStore of app/infrastructure/ssh_key_store.py takes away.
use mathlib.Core.Path.{◌∙◌, subst}
use remote_ai_bridge.Prelude.{
  String, ◌≡◌, ◌⊎◌, inl, inr, refl, sym, ap, true, Option, List, [], ◌∷◌, Dict, get, ◌==◌, arith,
  eq_iff, if-cases,
}
use remote_ai_bridge.Text.{strip, words}
use remote_ai_bridge.Domain.Errors.{
  Exn, ok, rab, profile_validation, profile_not_found, profile_lock, file_exists, tunnel,
  port_conflict, value_error, os_error,
}
use remote_ai_bridge.Domain.Python.{Python}
use remote_ai_bridge.Exec.{Env, Sys, Exec, KeyFiles, Trace, pure, catch, ◌>>=◌, file_operation}
use remote_ai_bridge.Exec.Keeps.{Keeps, Keeps-catch, Keeps-lift, Keeps-raise, keeps_rules}
use remote_ai_bridge.Exec.Yields.{
  Anything, Yields, Yields-gets, Yields-bind, Yields-after, Yields-bind_lift, Yields-lift,
  Yields-catch, Yields-raise,
}
use remote_ai_bridge.Exec.Leads.{Leads, Leads-raise, Leads-if, Leads-mono, Leads-bind}
use remote_ai_bridge.Infrastructure.Store.Reads.{file_operation-Keeps}
use remote_ai_bridge.Infrastructure.Keys.{
  SshKeyPair, parse_public, public_text, files_of, guarded, validate_files, read_and_validate_pair,
  remove_current, when_unverified, remove_verified, remove_generated, has_own_paths,
}

-- the public file of the key is the given public key
pub IsOwnKey : Dict KeyFiles → String → String → Type 0
IsOwnKey keys key_id public_key =
    (t : String) × (public_text (files_of (get key_id keys)).private_file
        (files_of (get key_id keys)).public_file
      ≡ ok t)
    × (strip t ≡ public_key)

parse_public-same :
    (py : Python) (key_id value found : String) (ws : List String)
    → parse_public py key_id value ws ≡ ok found
    → value ≡ found
unfolding parse_public
parse_public-same py key_id value found [] h = ground (arith, h)
parse_public-same py key_id value found (a ∷ []) h = ground (arith, h)
parse_public-same py key_id value found (a ∷ b ∷ []) h = ground (arith, h)
parse_public-same py key_id value found (a ∷ b ∷ c ∷ []) h = ground (arith, h)
parse_public-same py key_id value found (a ∷ b ∷ c ∷ d ∷ ws) h = ground (arith, h)

module _ (env : Env) (keys : Dict KeyFiles) (key_id : String) where
  Same : Sys → Type 0
  Same s = s.keys ≡ keys

  stable : (s : Sys) (t : Trace) → Same s → Same (record s { trace = t })
  unfolding Same
  stable s t h = h

  Same-file_operation : Keeps Same (file_operation env)
  Same-file_operation = file_operation-Keeps env Same stable

  Same-guarded : (code : String) → Keeps Same (guarded env code)
  unfolding guarded
  Same-guarded code = Keeps-catch _ _ Same-file_operation (λ e. Keeps-raise _)

  Same-validate_files : (files : KeyFiles) → Keeps Same (validate_files env key_id files)
  unfolding validate_files
  Same-validate_files files = search (keeps_rules, Same-guarded) depth 12

  Same-read : Keeps Same (read_and_validate_pair env key_id)
  unfolding read_and_validate_pair
  Same-read = search (keeps_rules, Same-validate_files) depth 8

  validate_files-IsOwnKey :
      (files : KeyFiles)
      → files ≡ files_of (get key_id keys)
      → Yields Anything (λ v _. IsOwnKey keys key_id v) (validate_files env key_id files)
  unfolding validate_files IsOwnKey
  validate_files-IsOwnKey files e = Yields-after _ _ λ _. Yields-after _ _ λ _.
      Yields-bind_lift _ _ λ t q. Yields-after _ _ λ _. Yields-lift _ λ v r s _. (
        t,
        ap (λ (f : KeyFiles). public_text f.private_file f.public_file) (sym e) ∙ q,
        parse_public-same env.python key_id (strip t) v (words (strip t)) r,
      )

  read-IsOwnKey : Yields Same (λ v _. IsOwnKey keys key_id v) (read_and_validate_pair env key_id)
  unfolding read_and_validate_pair Same
  read-IsOwnKey =
      Yields-bind {R = λ f _. f ≡ files_of (get key_id keys)} _ _
        (Yields-gets _ (λ s h. ap (λ (k : Dict KeyFiles). files_of (get key_id k)) h))
        λ files. record { at = λ s e. (validate_files-IsOwnKey files e).at s tt }

  module _ (root : String) (keygen : Option String) where
    when_unverified-Same : (e : Exn) → Keeps Same (when_unverified env root keygen e)
    unfolding when_unverified
    when_unverified-Same (rab e) = Keeps-raise _
    when_unverified-Same (profile_validation t) = Keeps-raise _
    when_unverified-Same profile_not_found = Keeps-raise _
    when_unverified-Same profile_lock = Keeps-raise _
    when_unverified-Same file_exists = Keeps-raise _
    when_unverified-Same (tunnel t) = Keeps-raise _
    when_unverified-Same (port_conflict p o) = Keeps-raise _
    when_unverified-Same value_error = Keeps-raise _
    when_unverified-Same os_error = Keeps-raise _

    when_unverified-Yields :
        (e : Exn)
        → Yields Anything (λ v _. IsOwnKey keys key_id v) (when_unverified env root keygen e)
    unfolding when_unverified
    when_unverified-Yields (rab e) = Yields-raise _
    when_unverified-Yields (profile_validation t) = Yields-raise _
    when_unverified-Yields profile_not_found = Yields-raise _
    when_unverified-Yields profile_lock = Yields-raise _
    when_unverified-Yields file_exists = Yields-raise _
    when_unverified-Yields (tunnel t) = Yields-raise _
    when_unverified-Yields (port_conflict p o) = Yields-raise _
    when_unverified-Yields value_error = Yields-raise _
    when_unverified-Yields os_error = Yields-raise _

module _ (env : Env) (root : String) (keygen : Option String) (pair : SshKeyPair)
    (keys : Dict KeyFiles) where
  abbrev Ends : Sys → Type 0
  Ends s = (s.keys ≡ keys) ⊎ IsOwnKey keys pair.key_id pair.public_key

  abbrev Own : String → Sys → Type 0
  Own current s = IsOwnKey keys pair.key_id current × (s.keys ≡ keys)

  remove_current-Leads :
      (current : String) → Leads (Own current) Ends (remove_current env root keygen pair current)
  unfolding remove_current
  remove_current-Leads current =
      Leads-if (current == pair.public_key) _ _
        (λ e. record {
          at = λ s h.
              inr (subst (IsOwnKey keys pair.key_id) ((eq_iff current pair.public_key).0 e) h.0);
        })
        (λ _. Leads-raise _ (λ s h. inl h.1))

  read-Leads : Leads (Same env keys pair.key_id) Ends (
      catch (read_and_validate_pair env pair.key_id) (when_unverified env root keygen)
      >>= remove_current env root keygen pair)
  unfolding Same
  read-Leads =
      Leads-bind {R = λ v _. IsOwnKey keys pair.key_id v} _ _ (λ t h. inl h)
        (Keeps-catch _ _ (Same-read env keys pair.key_id)
          (when_unverified-Same env keys pair.key_id root keygen))
        (Yields-catch _ _ (read-IsOwnKey env keys pair.key_id)
          (when_unverified-Yields env keys pair.key_id root keygen))
        remove_current-Leads

  verified-Leads : Leads (Same env keys pair.key_id) Ends (remove_verified env root keygen pair)
  unfolding remove_verified Same
  verified-Leads =
      Leads-bind {R = λ _ _. Unit {0}} _ _ (λ t h. inl h) (Keeps-lift _)
        (Yields-lift _ (λ _ _ _ _. tt))
        λ _.
          Leads-if (has_own_paths env root keygen pair) _ _
            (λ _. Leads-mono _ (λ s h. h.1) read-Leads) (λ _. Leads-raise _ (λ s h. inl h.1))

-- Rolling back a key touches no key file unless the key was generated by this set-up and the public
-- file on disk is the one that was generated, whatever is raised.
pub remove_generated-IsOwnKey :
    (env : Env) (root : String) (keygen : Option String) (pair : SshKeyPair) (s : Sys)
    → ((remove_generated env root keygen pair s).1.keys ≡ s.keys)
      ⊎ ((pair.generated ≡ true) × IsOwnKey s.keys pair.key_id pair.public_key)
unfolding remove_generated pure Same
remove_generated-IsOwnKey env root keygen pair s =
    if-cases
      (λ (m : Exec Unit).
        ((m s).1.keys ≡ s.keys)
        ⊎ ((pair.generated ≡ true) × IsOwnKey s.keys pair.key_id pair.public_key))
      pair.generated _ _
      (λ g. with_generated g ((verified-Leads env root keygen pair s.keys).at s refl))
      (λ _. inl refl)
  where
    with_generated :
        {A B : Type 0} → pair.generated ≡ true → A ⊎ B → A ⊎ ((pair.generated ≡ true) × B)
    with_generated g (inl a) = inl a
    with_generated g (inr b) = inr (g, b)
