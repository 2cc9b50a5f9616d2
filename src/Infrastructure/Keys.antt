-- ===== src/Infrastructure/Keys.antt =====
-- SSHKeyStore of app/infrastructure/ssh_key_store.py: the program's own SSH keys, each a pair of
-- files under the key's id. A key is only loaded or removed where its public file is that of the id,
-- and ssh-keygen leaves what the environment says.
pub mod Laws
use remote_ai_bridge.Prelude.{
  ℕ, String, Bool, true, false, not, ◌&&◌, ◌||◌, Option, none, some, List, [], ◌∷◌, get, put,
  is_some, or_else, ◌==◌, if◌then◌else◌,
}
use remote_ai_bridge.Text.{format, strip, words}
use remote_ai_bridge.Domain.Errors.{Exn, RabError, Result, ok, raised, rab, rab_error, refuse}
use remote_ai_bridge.Domain.Python.{Python}
use remote_ai_bridge.Domain.Profile.Rules.{is_valid_key_id}
use remote_ai_bridge.Exec.{
  Env, Exec, File, regular, symlink, KeyFiles, asked, pure, raise, lift, ask, catch, gets, given,
  modify, file_operation, ◌>>=◌, ◌>>◌,
}
use remote_ai_bridge.Infrastructure.Process.{succeeded, run}

-- SSHKeyPair of app/domain/ssh_bootstrap.py
pub record SshKeyPair : Type 0 where
  pub key_id : String
  pub private_key_path : String
  pub public_key_path : String
  pub public_key : String
  pub generated : Bool

abbrev pub key_error : String → Exn
key_error code = rab_error code false []

abbrev pub no_files : KeyFiles
no_files = record { private_file = none; public_file = none }

abbrev pub comment : String → String
comment key_id = format ("remote-ai-bridge:" ∷ key_id ∷ [])

-- the public key in the text of the file, where it is one of the id
unfoldable pub parse_public : Python → String → String → List String → Result String
parse_public py key_id value (kind ∷ body ∷ note ∷ []) =
    if not (kind == "ssh-ed25519") || not (note == comment key_id) || not (py.is_base64 body)
    then raised (key_error "SSH_KEY_INVALID")
    else ok value
parse_public py key_id value _ = raised (key_error "SSH_KEY_INVALID")

abbrev is_symlink : Option File → Bool
is_symlink (some symlink) = true
is_symlink _ = false

unfoldable pub no_symlinks : KeyFiles → Result (Unit {0})
no_symlinks f =
    refuse (is_symlink f.private_file || is_symlink f.public_file) (key_error "SSH_KEY_UNSAFE")

-- the text of the public file, where both files are regular
unfoldable pub public_text : Option File → Option File → Result String
public_text none _ = raised (key_error "SSH_KEY_NOT_FOUND")
public_text (some _) none = raised (key_error "SSH_KEY_NOT_FOUND")
public_text (some (regular _)) (some (regular t)) = ok t
public_text (some _) (some _) = raised (key_error "SSH_KEY_UNSAFE")

abbrev pub files_of : Option KeyFiles → KeyFiles
files_of o = or_else o no_files

-- one of the two files of a key
pub data Part : Type 0 where
  private_part public_part : Part

abbrev pub part_of : Part → KeyFiles → Option File
part_of private_part f = f.private_file
part_of public_part f = f.public_file

abbrev pub without : Part → KeyFiles → KeyFiles
without private_part f = record f { private_file = none }
without public_part f = record f { public_file = none }

module _ (env : Env) where
  -- a file operation whose OSError becomes the given error
  unfoldable pub guarded : String → Exec (Unit {0})
  guarded code = catch (file_operation env) (λ e. raise (key_error code))

  unfoldable pub validate_files : String → KeyFiles → Exec String
  validate_files key_id files = do
    lift (no_symlinks files)
    guarded "SSH_KEY_NOT_FOUND"
    value ← lift (public_text files.private_file files.public_file)
    guarded "SSH_KEY_INVALID"
    lift (parse_public env.python key_id (strip value) (words (strip value)))

  -- `_read_and_validate_pair`
  unfoldable pub read_and_validate_pair : String → Exec String
  read_and_validate_pair key_id = do
    files ← gets (λ s. files_of (get key_id s.keys))
    validate_files key_id files

  -- `path.unlink()` where a file that is not there is no error
  unfoldable pub unlink : Part → String → Exec (Unit {0})
  unlink part key_id = do
    files ← gets (λ s. files_of (get key_id s.keys))
    if is_some (part_of part files)
        then (do
          file_operation env
          modify (λ s. record s { keys = put key_id (without part files) s.keys }))
        else pure tt

  -- `unlink` whose OSError becomes the given error
  unfoldable pub remove_part : Part → String → String → Exec (Unit {0})
  remove_part part key_id code = catch (unlink part key_id) (λ e. raise (key_error code))

  -- `_remove_paths`
  unfoldable pub remove_paths : String → Exec (Unit {0})
  remove_paths key_id = do
    catch (unlink private_part key_id) (λ e. pure tt)
    catch (unlink public_part key_id) (λ e. pure tt)

  module _ (root : String) (ssh_keygen : Option String) where
    abbrev private_path : String → String
    private_path key_id =
        env.python.join (env.python.join (env.python.join root "ssh") "keys")
          (format ("id_ed25519_" ∷ key_id ∷ []))

    abbrev public_path : String → String
    public_path key_id = format (private_path key_id ∷ ".pub" ∷ [])

    abbrev pub pair_of : String → String → Bool → SshKeyPair
    pair_of key_id public_key generated = record {
      key_id = key_id;
      private_key_path = private_path key_id;
      public_key_path = public_path key_id;
      public_key = public_key;
      generated = generated;
    }

    unfoldable pub validate_key_id : String → Result (Unit {0})
    validate_key_id key_id = refuse (not (is_valid_key_id key_id)) (key_error "SSH_KEY_ID_INVALID")

    unfoldable pub load : String → Exec SshKeyPair
    load key_id = do
      lift (validate_key_id key_id)
      public_key ← read_and_validate_pair key_id
      pure (pair_of key_id public_key false)

    unfoldable pub remove_key : String → String → Exec (Unit {0})
    remove_key key_id expected = do
      pair ← load key_id
      if pair.public_key == expected
          then (do
            remove_part private_part key_id "SSH_KEY_DELETE_FAILED"
            remove_part public_part key_id "SSH_KEY_DELETE_FAILED")
          else raise (key_error "SSH_KEY_IDENTITY_MISMATCH")

    abbrev rollback_failed : Exn
    rollback_failed = key_error "SETUP_ROLLBACK_FAILED"

    -- `except RABError`
    unfoldable pub when_unverified : Exn → Exec String
    when_unverified (rab e) = raise rollback_failed
    when_unverified e = raise e

    unfoldable pub remove_current : SshKeyPair → String → Exec (Unit {0})
    remove_current pair current =
        if current == pair.public_key
        then (do
          remove_part public_part pair.key_id "SETUP_ROLLBACK_FAILED"
          remove_part private_part pair.key_id "SETUP_ROLLBACK_FAILED")
        else raise rollback_failed

    abbrev pub has_own_paths : SshKeyPair → Bool
    has_own_paths pair =
        private_path pair.key_id == pair.private_key_path
        && public_path pair.key_id == pair.public_key_path

    -- the part of `remove_generated` for a key that was generated
    unfoldable pub remove_verified : SshKeyPair → Exec (Unit {0})
    remove_verified pair = do
      lift (validate_key_id pair.key_id)
      if has_own_paths pair
          then (do
            current ← catch (read_and_validate_pair pair.key_id) when_unverified
            remove_current pair current)
          else raise rollback_failed

    unfoldable pub remove_generated : SshKeyPair → Exec (Unit {0})
    remove_generated pair = if pair.generated then remove_verified pair else pure tt

    abbrev keygen_argv : String → String → List String
    keygen_argv executable key_id =
        executable
        ∷ "-q"
        ∷ "-t"
        ∷ "ed25519"
        ∷ "-N"
        ∷ ""
        ∷ "-C"
        ∷ comment key_id
        ∷ "-f"
        ∷ private_path key_id
        ∷ []

    -- `except RABError: self._remove_paths(...); raise`
    unfoldable pub when_rejected : String → Exn → Exec String
    when_rejected key_id (rab e) = do remove_paths key_id; raise (rab e)
    when_rejected key_id e = raise e

    -- after ssh-keygen ran
    unfoldable pub check_generated : String → Exec SshKeyPair
    check_generated key_id = do
      public_key ←
          catch
            (do
              value ← read_and_validate_pair key_id
              guarded "SSH_KEY_PERMISSION_FAILED"
              pure value)
            (when_rejected key_id)
      pure (pair_of key_id public_key true)

    unfoldable pub run_keygen : String → String → Exec SshKeyPair
    run_keygen key_id executable = do
      result ← run env (keygen_argv executable key_id)
      files ← ask (λ t. env.keygen_files t key_id) (λ _. asked)
      modify (λ s. record s { keys = put key_id files s.keys })
      if succeeded result
          then check_generated key_id
          else do remove_paths key_id; raise (key_error "SSH_KEY_GENERATION_FAILED")

    -- `_generate`, given the program that was found
    unfoldable pub generate : Exec SshKeyPair
    generate = do
      key_id ← ask env.new_hex (λ _. asked)
      lift (validate_key_id key_id)
      file_operation env
      given ssh_keygen (raise (key_error "SSH_KEY_GENERATION_FAILED"))
          (λ executable. run_keygen key_id executable)

    unfoldable pub ensure_key : Option String → Exec SshKeyPair
    ensure_key none = generate
    ensure_key (some key_id) = load key_id
