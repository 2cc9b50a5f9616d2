-- ===== src/Infrastructure/Inspector.antt =====
-- app/infrastructure/process_identity.py: a recorded process is identified by its pid, creation
-- time and executable, and only signalled after that.
pub mod Reads
use remote_ai_bridge.Prelude.{
  ℕ, zero, suc, ◌-◌, ◌+◌, Bool, true, false, ◌&&◌, Option, none, some, ◌==◌, ltb, is_some,
  if◌then◌else◌,
}
use remote_ai_bridge.Domain.Errors.{os_error}
use remote_ai_bridge.Domain.Python.{Python}
use remote_ai_bridge.Domain.Runtime.{RuntimeState}
use remote_ai_bridge.Exec.{
  Env, Exec, ProcessIdentity, looked, signalled, asked, pure, raise, ask, ◌>>=◌,
}

-- `abs(a - b)`
abbrev distance : ℕ → ℕ → ℕ
distance a b = (a - b) + (b - a)

-- within 0.1 seconds, and the same executable
unfoldable pub same_process : Python → ProcessIdentity → RuntimeState → Bool
same_process py identity state =
    ltb (distance identity.creation_time state.process_creation_time) 100
    && py.normalise_path identity.executable_path == py.normalise_path state.executable_path

abbrev pub identity_matches : Python → Option ProcessIdentity → RuntimeState → Bool
identity_matches py none state = false
identity_matches py (some identity) state = same_process py identity state

module _ (env : Env) where
  unfoldable pub get_identity : ℕ → Exec (Option ProcessIdentity)
  get_identity pid = ask (λ t. env.identity t pid) (looked pid)

  unfoldable pub matches : RuntimeState → Exec Bool
  matches state = do
    identity ← get_identity state.pid
    pure (identity_matches env.python identity state)

  unfoldable pub await_exit : ℕ → ℕ → Exec Bool
  await_exit pid zero = pure false
  await_exit pid (suc rounds) = do
    identity ← get_identity pid
    if is_some identity then await_exit pid rounds else pure true

  -- `_terminate_windows_process` or `os.kill`; the latter raises where it fails
  unfoldable pub signal : RuntimeState → Exec Bool
  signal state = do
    delivered ← ask (λ t. env.signal t state) (signalled state)
    if delivered then pure true else if env.windows then pure false else raise os_error

  -- the poll loop after a signal that was delivered
  unfoldable pub confirm_exit : RuntimeState → Bool → Exec Bool
  confirm_exit state false = pure false
  confirm_exit state true = do rounds ← ask env.rounds (λ _. asked); await_exit state.pid rounds

  unfoldable pub terminate_matching : RuntimeState → Bool → Exec Bool
  terminate_matching state false = pure false
  terminate_matching state true = do delivered ← signal state; confirm_exit state delivered

  unfoldable pub terminate_owned : RuntimeState → Exec Bool
  terminate_owned state = do owned ← matches state; terminate_matching state owned
