-- ===== src/Tests/Search.antt =====
-- Runs of the searches for ports and for a local proxy.
use remote_ai_bridge.Prelude.{◌≡◌, ◌+◌, ◌<◌, refl, true, none, some, [], ◌∷◌, ◌≤◌, arith}
use remote_ai_bridge.Domain.Errors.{ok}
use remote_ai_bridge.Domain.Profile.{Profile, validate}
use remote_ai_bridge.Services.Probe.{find_free_port}
use remote_ai_bridge.Services.LocalProxy.Choice.{
  LocalProxyDiscovery, candidate, is_healthy, healthy,
}
use remote_ai_bridge.Services.LocalProxy.Discovery.{discover}
use remote_ai_bridge.Services.LocalProxy.Discovery.Laws.{discover-is_healthy}
use remote_ai_bridge.Services.RemotePort.{select}
use remote_ai_bridge.Services.RemotePort.Laws.{select-JustAbsent}
use remote_ai_bridge.Services.Probe.Laws.{JustAbsent, find_free_port-JustAbsent}
use remote_ai_bridge.Exec.{
  Env, Sys, Trace, Completed, Spawned, Connected, Exchanged, Fetched, exited,
}
use remote_ai_bridge.Services.Options.{Config}
use remote_ai_bridge.Domain.Profile.Rules.{is_valid_profile_name}
use remote_ai_bridge.Exec.{◌>>=◌}
use remote_ai_bridge.Tests.{env, cfg, dev, stored}

free_port :
    find_free_port env cfg dev stored ≡ (ok (some 17891), (find_free_port env cfg dev stored).1)
unfolding validate remote_ai_bridge.Domain.Profile.validate_profile_name
    remote_ai_bridge.Domain.Profile.Rules.is_valid_profile_name
    remote_ai_bridge.Domain.Profile.Rules.is_valid_target
    remote_ai_bridge.Domain.Profile.validate_endpoint_probe_url
    remote_ai_bridge.Domain.Profile.validate_schema remote_ai_bridge.Exec.pure
    remote_ai_bridge.Exec.raise remote_ai_bridge.Exec.lift remote_ai_bridge.Exec.ask
    remote_ai_bridge.Exec.catch remote_ai_bridge.Exec.finally remote_ai_bridge.Exec.gets
    remote_ai_bridge.Exec.modify remote_ai_bridge.Exec.given remote_ai_bridge.Exec.with_lock
    remote_ai_bridge.Exec.file_operation remote_ai_bridge.Exec.◌>>=◌
    remote_ai_bridge.Services.Probe.find_free_port remote_ai_bridge.Services.Probe.free_port_from
    remote_ai_bridge.Services.Probe.check_listener remote_ai_bridge.Services.Probe.run_remote
    remote_ai_bridge.Services.Probe.ssh_prefix remote_ai_bridge.Services.Probe.listener_result
    remote_ai_bridge.Infrastructure.Process.run remote_ai_bridge.Infrastructure.Process.result_of
    remote_ai_bridge.Services.Options.managed_ssh_options
free_port = refl

find_free_port-JustAbsent_example :
    (17890 < 17891)
    × (17891 ≤ 65535)
    × (17891 ≤ 17890 + 20)
    × JustAbsent env cfg dev 17891 (find_free_port env cfg dev stored).1.trace
find_free_port-JustAbsent_example =
    find_free_port-JustAbsent env cfg dev stored (find_free_port env cfg dev stored).1 17891
      (omega arith) free_port

abbrev managed : Profile
managed = record {
  schema_version = 2;
  name = "lab";
  ssh_target = "ada@host";
  local_proxy_host = "127.0.0.1";
  local_proxy_port = 7890;
  remote_bind_host = "127.0.0.1";
  remote_port = 17890;
  auto_reconnect = true;
  endpoint_probe_url = "https://api.openai.com";
  profile_type = "managed";
  host = some "host";
  username = some "ada";
  ssh_port = some 22;
  key_id = some "0123456789abcdef0123456789abcdef";
  host_key_type = some "ssh-ed25519";
  host_key_fingerprint = some "SHA256:AAAAAAAAAAAAAAAAAAAAAAAAAAAAAAAAAAAAAAAAAAA";
}

selected_port :
    select env cfg managed 17890 20 stored ≡ (ok 17890, (select env cfg managed 17890 20 stored).1)
unfolding select validate remote_ai_bridge.Domain.Profile.validate_profile_name
    remote_ai_bridge.Domain.Profile.Rules.is_valid_profile_name
    remote_ai_bridge.Domain.Profile.Rules.is_valid_target
    remote_ai_bridge.Domain.Profile.validate_endpoint_probe_url
    remote_ai_bridge.Domain.Profile.validate_schema remote_ai_bridge.Exec.pure
    remote_ai_bridge.Exec.raise remote_ai_bridge.Exec.lift remote_ai_bridge.Exec.ask
    remote_ai_bridge.Exec.catch remote_ai_bridge.Exec.finally remote_ai_bridge.Exec.gets
    remote_ai_bridge.Exec.modify remote_ai_bridge.Exec.given remote_ai_bridge.Exec.with_lock
    remote_ai_bridge.Exec.file_operation remote_ai_bridge.Exec.◌>>=◌
    remote_ai_bridge.Services.Probe.find_free_port remote_ai_bridge.Services.Probe.free_port_from
    remote_ai_bridge.Services.Probe.check_listener remote_ai_bridge.Services.Probe.run_remote
    remote_ai_bridge.Services.Probe.ssh_prefix remote_ai_bridge.Services.Probe.listener_result
    remote_ai_bridge.Infrastructure.Process.run remote_ai_bridge.Infrastructure.Process.result_of
    remote_ai_bridge.Services.Options.managed_ssh_options
    remote_ai_bridge.Services.RemotePort.select_from
    remote_ai_bridge.Services.RemotePort.validate_selection
    remote_ai_bridge.Services.RemotePort.validate_scan_parameters
    remote_ai_bridge.Domain.Profile.validate_managed
    remote_ai_bridge.Domain.Profile.validate_managed_profile_setup_inputs
    remote_ai_bridge.Domain.Profile.Rules.is_valid_host
    remote_ai_bridge.Domain.Profile.Rules.is_valid_user
    remote_ai_bridge.Domain.Profile.Rules.is_valid_key_id
    remote_ai_bridge.Domain.Profile.Rules.is_valid_host_key_type
    remote_ai_bridge.Domain.Profile.Rules.is_valid_fingerprint
    remote_ai_bridge.Services.Options.managed_options remote_ai_bridge.Text.format
selected_port = refl

select-JustAbsent_example :
    (managed.schema_version ≡ 2)
    × (managed.profile_type ≡ "managed")
    × (managed.remote_bind_host ≡ "127.0.0.1")
    × (17890 ≤ 17890)
    × (17890 < 17890 + 20)
    × (17890 ≤ 65535)
    × JustAbsent env cfg managed 17890 (select env cfg managed 17890 20 stored).1.trace
select-JustAbsent_example =
    select-JustAbsent env cfg managed 17890 20 17890 stored
      (select env cfg managed 17890 20 stored).1 selected_port

-- the candidate at port 7890, whose endpoint answers 401
abbrev found : LocalProxyDiscovery
found = record {
  selected = candidate "127.0.0.1" 7890 true true true none;
  candidates = candidate "127.0.0.1" 7890 true true true none ∷ [];
}

selected_found :
    discover env "https://api.openai.com" "127.0.0.1" (7890 ∷ []) (some 7890) stored ≡ (
      ok found,
      (discover env "https://api.openai.com" "127.0.0.1" (7890 ∷ []) (some 7890) stored).1,
    )
unfolding remote_ai_bridge.Services.LocalProxy.Discovery.discover
    remote_ai_bridge.Services.LocalProxy.Discovery.scan
    remote_ai_bridge.Services.LocalProxy.Discovery.inspect_candidate
    remote_ai_bridge.Services.LocalProxy.Choice.healthy
    remote_ai_bridge.Services.LocalProxy.Choice.without
    remote_ai_bridge.Services.LocalProxy.Choice.fromkeys
    remote_ai_bridge.Services.LocalProxy.Choice.validate_discovery_inputs
    remote_ai_bridge.Services.LocalProxy.Choice.validate_selected
    remote_ai_bridge.Services.LocalProxy.Choice.find_port
    remote_ai_bridge.Services.LocalProxy.Choice.only_one
    remote_ai_bridge.Services.LocalProxy.Choice.explicit
    remote_ai_bridge.Services.LocalProxy.Choice.choose
    remote_ai_bridge.Services.LocalProxy.check_tcp
    remote_ai_bridge.Services.LocalProxy.check_http_proxy
    remote_ai_bridge.Services.LocalProxy.check_proxied
    remote_ai_bridge.Services.LocalProxy.tcp_result
    remote_ai_bridge.Services.LocalProxy.handshake_result
    remote_ai_bridge.Services.LocalProxy.fetch_result
    remote_ai_bridge.Services.LocalProxy.endpoint_target
    remote_ai_bridge.Domain.Profile.validate_endpoint_probe_url remote_ai_bridge.Exec.pure
    remote_ai_bridge.Exec.raise remote_ai_bridge.Exec.lift remote_ai_bridge.Exec.ask
    remote_ai_bridge.Exec.◌>>=◌
selected_found = refl

discover-is_healthy_example : (is_healthy found.selected ≡ true) × (found.selected.port ≡ 7890)
discover-is_healthy_example =
    discover-is_healthy env "https://api.openai.com" "127.0.0.1" (7890 ∷ []) 7890 found stored
      (discover env "https://api.openai.com" "127.0.0.1" (7890 ∷ []) (some 7890) stored).1
      selected_found
