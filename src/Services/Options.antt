-- ===== src/Services/Options.antt =====
-- `managed_ssh_options` of app/infrastructure/ssh_key_store.py, and the settings of the services:
-- the SSH executable, the state directory and the timeouts.
use remote_ai_bridge.Prelude.{
  ℕ, String, Option, List, [], ◌∷◌, nat_eq, or_else, when_some, if◌then◌else◌,
}
use remote_ai_bridge.Text.{format, show}
use remote_ai_bridge.Domain.Errors.{Result, ok, ◌>>◌}
use remote_ai_bridge.Domain.Python.{Python}
use remote_ai_bridge.Domain.Profile.{Profile, validate}

pub record Config : Type 0 where
  pub ssh_executable : String
  pub state_root : String
  -- `max(1, int(timeout))`
  pub connect_timeout : ℕ
  -- `str(Path(ssh_executable).resolve())`
  pub resolved_executable : String
  -- `os.getpid()`
  pub own_pid : ℕ

-- `str(value)` of an optional text
abbrev pub text_of : Option String → String
text_of o = or_else o "None"

-- the options of a managed profile; `ssh_dir` is the directory `root / "ssh"`
unfoldable pub managed_options : Python → String → Profile → List String
managed_options py ssh_dir p =
    "-F"
    ∷ py.join ssh_dir "empty_config"
    ∷ "-o"
    ∷ format ("UserKnownHostsFile=" ∷ py.join ssh_dir "known_hosts" ∷ [])
    ∷ "-o"
    ∷ format ("GlobalKnownHostsFile=" ∷ py.join ssh_dir "empty_global_known_hosts" ∷ [])
    ∷ "-o"
    ∷ "IdentitiesOnly=yes"
    ∷ "-o"
    ∷ "PasswordAuthentication=no"
    ∷ "-o"
    ∷ "KbdInteractiveAuthentication=no"
    ∷ "-i"
    ∷ py.join (py.join ssh_dir "keys") (format ("id_ed25519_" ∷ text_of p.key_id ∷ []))
    ∷ "-p"
    ∷ text_of (when_some show p.ssh_port)
    ∷ []

unfoldable pub managed_ssh_options : Python → Profile → String → Result (List String)
managed_ssh_options py p root = do
  validate py p
  ok (if nat_eq p.schema_version 1 then [] else managed_options py (py.join root "ssh") p)
