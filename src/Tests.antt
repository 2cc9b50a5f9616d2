-- ===== src/Tests.antt =====
-- The values on which the model is run, which show that the theorems' hypotheses can hold.
pub mod Supervision
pub mod Profiles
pub mod Search
pub mod Manager
pub mod Files
pub mod Signals
use Prim.Native.String
use remote_ai_bridge.Prelude.{
  ℕ, String, ◌≡◌, ◌≢◌, ◌⊎◌, ◌↔◌, ◌-◌, ◌+◌, ◌<◌, nat_eq, ◌==◌, get, refl, inl, inr, Bool, true,
  false, Option, none, some, List, [], ◌∷◌, ◌≤◌, arith, length,
}
use remote_ai_bridge.Domain.Errors.{ok}
use remote_ai_bridge.Domain.Python.{Python}
use remote_ai_bridge.Domain.Profile.{Profile, validate}
use remote_ai_bridge.Domain.Health.{
  check, pass, fail, HealthReport, health, ready, disconnected, health_exact,
}
use remote_ai_bridge.Domain.Runtime.{ActiveTunnel, RuntimeState, validate_runtime}
use remote_ai_bridge.Services.Probe.{find_free_port}
use remote_ai_bridge.Services.Tunnel.{acquire}
use remote_ai_bridge.Services.Tunnel.Laws.{acquire-IsRecorded}
use remote_ai_bridge.Services.LocalProxy.Choice.{
  LocalProxyDiscovery, candidate, is_healthy, healthy,
}
use remote_ai_bridge.Services.LocalProxy.Discovery.{discover}
use remote_ai_bridge.Services.LocalProxy.Discovery.Laws.{discover-is_healthy}
use remote_ai_bridge.Services.RemotePort.{select}
use remote_ai_bridge.Services.RemotePort.Laws.{select-JustAbsent}
use remote_ai_bridge.Services.Probe.Laws.{JustAbsent, find_free_port-JustAbsent}
use remote_ai_bridge.Services.Profiles.Laws.{create-IsStored, update-IsStored}
use remote_ai_bridge.Services.Profiles.Deletion.{delete-removes}
use remote_ai_bridge.Services.Profiles.{Change, DeleteResult, apply_changes, create, update, delete}
use remote_ai_bridge.Exec.{
  regular, Env, Sys, Trace, Completed, Spawned, Connected, Exchanged, Fetched, exited,
}
use remote_ai_bridge.Services.Options.{Config}
use remote_ai_bridge.Services.Supervisor.{Policy, run}
use remote_ai_bridge.Services.Supervisor.Publish.{backoff, get_or}
use remote_ai_bridge.Services.Supervisor.Ending.{latest}
use remote_ai_bridge.Services.Supervisor.Runs.{run-IsFinal}
use remote_ai_bridge.Services.Supervisor.Termination.{run-ends}
use remote_ai_bridge.Services.Supervisor.Backoff.{backoff-All}
use remote_ai_bridge.Domain.Snapshot.{blank, stopped, failed}
use remote_ai_bridge.Domain.Profile.Laws.{IsValid, validate_iff}
use remote_ai_bridge.Domain.Profile.Rules.{is_valid_profile_name}
use remote_ai_bridge.Infrastructure.Store.{is_safe_name, save_profile, load_profile}
use remote_ai_bridge.Infrastructure.Store.Laws.{is_valid_profile_name-is_safe_name}
use remote_ai_bridge.Invariant.Trace.{IsOwned}
use remote_ai_bridge.Invariant.Reachable.{
  Reachable, fresh, Reachable-IsSound, Reachable-IsOwned, Reachable-IsValid,
}
use remote_ai_bridge.Exec.{◌>>=◌}

abbrev python : Python
python = record {
  urlsplit = λ _. some (record {
    scheme = "https";
    hostname = "api.openai.com";
    username = "";
    password = "";
    query = "";
    fragment = "";
    port = none;
  });
  canonical_uuid = λ u. some u;
  is_ip = λ _. true;
  parse_int = λ _. none;
  is_base64 = λ _. true;
  path_before = λ a b. a == b;
  normalise_path = λ p. p;
  quote = λ s. s;
  join = λ a b. b;
}

-- nothing listens on the remote host, and the stop event is set
abbrev env : Env
env = record {
  python = python;
  windows = false;
  run = λ _ _. exited 0 "" "";
  spawn = λ _ _. Spawned.missing;
  identity = λ _ _. none;
  signal = λ _ _. true;
  child_exited = λ _ _. true;
  io_fails = λ _. false;
  lock_taken = λ _ _. false;
  rounds = λ _. 3;
  stop_set = λ _. true;
  new_uuid = λ _. "u";
  new_hex = λ _. "0123456789abcdef0123456789abcdef";
  server_key = λ _ _ _. some ("ssh-ed25519", "SHA256:x", "AAAA");
  keygen_files = λ _ id. record {
    private_file = some (regular "secret");
    public_file = some (regular (String.◌++◌ "ssh-ed25519 AAAA remote-ai-bridge:" id));
  };
  utc_now = λ _. "now";
  child_output = λ _ _. ("", "");
  connect = λ _ _ _. Connected.accepted;
  exchange = λ _ _ _ _. Exchanged.answered "HTTP/1.1 200 OK";
  fetch = λ _ _ _ _. Fetched.status 401;
}

abbrev cfg : Config
cfg = record {
  ssh_executable = "ssh";
  state_root = "root";
  connect_timeout = 5;
  resolved_executable = "/usr/bin/ssh";
  own_pid = 7;
}

abbrev policy : Policy
policy = record { backoff_seconds = 1 ∷ 2 ∷ 5 ∷ []; health_interval_seconds = 15 }

abbrev dev : Profile
dev = record {
  schema_version = 1;
  name = "dev";
  ssh_target = "ada@host";
  local_proxy_host = "127.0.0.1";
  local_proxy_port = 7890;
  remote_bind_host = "127.0.0.1";
  remote_port = 17890;
  auto_reconnect = true;
  endpoint_probe_url = "https://api.openai.com";
  profile_type = "legacy";
  host = none;
  username = none;
  ssh_port = none;
  key_id = none;
  host_key_type = none;
  host_key_fingerprint = none;
}

abbrev stored : Sys
stored = record {
  profiles = ("dev", dev) ∷ [];
  runtimes = [];
  trace = [];
  active = none;
  snapshots = [];
  known_hosts = none;
  keys = [];
}

abbrev recorded : RuntimeState
recorded = record {
  schema_version = 1;
  profile_name = "dev";
  pid = 42;
  process_creation_time = 1000;
  executable_path = "/usr/bin/ssh";
  tunnel_id = "t";
  supervisor_pid = 7;
  remote_port = 17890;
  last_successful_probe_at = none;
  remote_user = none;
  remote_sshd_pid = none;
  remote_sshd_start_ticks = none;
  remote_boot_id = none;
  remote_ssh_connection = none;
}

-- the recorded process still runs
abbrev running : Env
running = record env {
  identity =
      λ _ pid. some (record { pid = pid; creation_time = 1050; executable_path = "/usr/bin/ssh" });
}

dev-valid : validate python dev ≡ ok tt
unfolding validate remote_ai_bridge.Domain.Profile.validate_profile_name
    remote_ai_bridge.Domain.Profile.Rules.is_valid_profile_name
    remote_ai_bridge.Domain.Profile.Rules.is_valid_target
    remote_ai_bridge.Domain.Profile.validate_endpoint_probe_url
    remote_ai_bridge.Domain.Profile.validate_schema
dev-valid = refl
