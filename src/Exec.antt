-- ===== src/Exec.antt =====
-- The core's methods change files, processes and locks, and may raise. A method is an action
-- `Exec A`: from a system to a result and the system that it leaves, also where it raised.
-- What the operating system, the remote host and other threads answer is given by `Env`, and may
-- depend on everything that was done before (`trace`, newest first). What the program writes is
-- in the system itself.
pub mod Keeps
pub mod Yields
pub mod Leads
pub mod Runs
use remote_ai_bridge.Prelude.{
  ℕ, String, ◌≡◌, Bool, true, false, Option, none, some, List, [], ◌∷◌, Dict, if◌then◌else◌,
}
use remote_ai_bridge.Domain.Errors.{Exn, Result, ok, raised, os_error, profile_lock}
use remote_ai_bridge.Domain.Python.{Python}
use remote_ai_bridge.Domain.Profile.{Profile}
use remote_ai_bridge.Domain.Runtime.{RuntimeState, ActiveTunnel}
use remote_ai_bridge.Domain.Snapshot.{SupervisorSnapshot}

-- ProcessIdentity of app/infrastructure/process_identity.py
pub record ProcessIdentity : Type 0 where
  pub pid : ℕ
  pub creation_time : ℕ
  pub executable_path : String

-- What `subprocess.run` does: the process exits, is cut off by the timeout, or is not started.
pub data Completed : Type 0 where
  exited : ℕ → String → String → Completed
  timeout : String → String → Completed
  missing refused : Completed

-- What `subprocess.Popen` does: a process with a pid, or FileNotFoundError, or OSError.
pub data Spawned : Type 0 where
  process : ℕ → Spawned
  missing refused : Spawned

-- What a TCP connection attempt does, a CONNECT request to a proxy, a GET through one.
pub data Connected : Type 0 where
  accepted declined timed_out unreachable : Connected

pub data Exchanged : Type 0 where
  answered : String → Exchanged
  silent broken : Exchanged

pub data Fetched : Type 0 where
  status : ℕ → Fetched
  url_timeout url_failed io_failed : Fetched

-- What stands under the path of a key file.
pub data File : Type 0 where
  regular : String → File
  symlink irregular : File

pub record KeyFiles : Type 0 where
  pub private_file : Option File
  pub public_file : Option File

pub data Event : Type 0 where
  ran : List String → Completed → Event
  spawned : List String → Spawned → Event
  looked : ℕ → Option ProcessIdentity → Event
  signalled : RuntimeState → Bool → Event
  child_polled : ℕ → Bool → Event
  -- a child is terminated or killed, with the runtime state of the tunnel that it carries, if it has
  -- become one
  child_stopped : ℕ → Option RuntimeState → Event
  locked unlocked : String → Event
  waited : ℕ → Event
  touched : Event
  asked : Event

abbrev pub Trace : Type 0
Trace = List Event

pub record Env : Type 0 where
  pub python : Python
  pub windows : Bool
  pub run : Trace → List String → Completed
  pub spawn : Trace → List String → Spawned
  -- ProcessInspector.get_identity
  pub identity : Trace → ℕ → Option ProcessIdentity
  -- TerminateProcess succeeds, or os.kill does not raise
  pub signal : Trace → RuntimeState → Bool
  -- `Popen.poll()` is not None
  pub child_exited : Trace → ℕ → Bool
  -- a file operation raises OSError
  pub io_fails : Trace → Bool
  -- another holder has the profile's lock
  pub lock_taken : Trace → String → Bool
  -- how often a polling loop finds its deadline not passed
  pub rounds : Trace → ℕ
  -- the stop event is set
  pub stop_set : Trace → Bool
  pub new_uuid : Trace → String
  -- `uuid.uuid4().hex`
  pub new_hex : Trace → String
  -- the type, the fingerprint and the data of the key that an SSH server shows, where the
  -- handshake succeeds
  pub server_key : Trace → String → ℕ → Option (String × String × String)
  -- the files that ssh-keygen leaves for a key
  pub keygen_files : Trace → String → KeyFiles
  pub utc_now : Trace → String
  -- the output and error texts of a child that exited
  pub child_output : Trace → ℕ → String × String
  pub connect : Trace → String → ℕ → Connected
  pub exchange : Trace → String → ℕ → String → Exchanged
  pub fetch : Trace → String → ℕ → String → Fetched

pub record Sys : Type 0 where
  pub profiles : Dict Profile
  pub runtimes : Dict RuntimeState
  pub trace : Trace
  -- the variable `active` of the running supervisor
  pub active : Option ActiveTunnel
  -- what it has published, newest first
  pub snapshots : List SupervisorSnapshot
  -- the lines of the program's known_hosts file, if it is there
  pub known_hosts : Option (List String)
  -- the files of the SSH keys, by the key's id
  pub keys : Dict KeyFiles

abbrev pub Exec {ℓ} : Type ℓ → Type ℓ
Exec A = Sys → Result A × Sys

module _ {ℓ} {A : Type ℓ} where
  unfoldable pub pure : A → Exec A
  pure a s = (ok a, s)

  unfoldable pub raise : Exn → Exec A
  raise e s = (raised e, s)

  unfoldable pub lift : Result A → Exec A
  lift r s = (r, s)

  -- A question to the environment, and its record in the trace.
  unfoldable pub ask : (Trace → A) → (A → Event) → Exec A
  ask f e s = let a = f s.trace in (ok a, record s { trace = e a ∷ s.trace })

  abbrev pub handle : Result A → (Exn → Exec A) → Exec A
  handle (ok a) h s = (ok a, s)
  handle (raised e) h s = h e s

  -- `try: m except: h`
  unfoldable pub catch : Exec A → (Exn → Exec A) → Exec A
  catch m h s = let (r, s') = m s in handle r h s'

  abbrev conclude : Result A → Result (Unit {0}) → Result A
  conclude r (ok _) = r
  conclude r (raised e) = raised e

  -- `try: m finally: f`
  unfoldable pub finally : Exec A → Exec (Unit {0}) → Exec A
  finally m f s = let (r, s') = m s in let (q, s'') = f s' in (conclude r q, s'')

unfoldable pub gets {ℓ} : {A : Type ℓ} → (Sys → A) → Exec A
gets f s = (ok (f s), s)

unfoldable pub modify : (Sys → Sys) → Exec (Unit {0})
modify f s = (ok tt, f s)

module _ {ℓ κ} {A : Type ℓ} {B : Type κ} where
  abbrev pub continue : Result A → (A → Exec B) → Exec B
  continue (ok a) f s = f a s
  continue (raised e) f s = (raised e, s)

  infixl 5 ◌>>=◌
  unfoldable pub ◌>>=◌ : Exec A → (A → Exec B) → Exec B
  ◌>>=◌ m f s = let (r, s') = m s in continue r f s'

module _ {ℓ κ} {A : Type ℓ} {B : Type κ} where
  -- `m if value is None else f(value)`
  unfoldable pub given : Option A → Exec B → (A → Exec B) → Exec B
  given none m f = m
  given (some a) m f = f a

infixl 5 ◌>>◌
abbrev pub ◌>>◌ {ℓ} : {B : Type ℓ} → Exec (Unit {0}) → Exec B → Exec B
m >> n = m >>= λ _. n

-- `with store.supervisor_lock(name): m`; the lock is not waited for.
module _ (env : Env) where
  unfoldable pub with_lock {ℓ} : {A : Type ℓ} → String → Exec A → Exec A
  with_lock name m = do
    taken ← ask (λ t. env.lock_taken t name) (λ b. if b then asked else locked name)
    if taken then raise profile_lock else finally m (ask (λ t. tt) (λ _. unlocked name))

  -- A read or a write of a file of the state directory.
  unfoldable pub file_operation : Exec (Unit {0})
  file_operation = do
    failed ← ask env.io_fails (λ _. touched)
    if failed then raise os_error else pure tt
