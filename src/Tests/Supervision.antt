-- ===== src/Tests/Supervision.antt =====
-- Runs of the supervisor, of `acquire` and of the health report.
use remote_ai_bridge.Prelude.{
  ℕ, String, ◌≡◌, ◌≢◌, ◌⊎◌, ◌↔◌, ◌-◌, ◌+◌, ◌<◌, nat_eq, ◌==◌, get, refl, inl, inr, Bool, true,
  false, Option, none, some, List, [], ◌∷◌, ◌≤◌, arith, length,
}
use remote_ai_bridge.Domain.Errors.{ok}
use remote_ai_bridge.Domain.Profile.{Profile, validate}
use remote_ai_bridge.Domain.Health.{
  check, pass, fail, HealthReport, health, ready, disconnected, health_exact,
}
use remote_ai_bridge.Domain.Runtime.{ActiveTunnel, RuntimeState, validate_runtime}
use remote_ai_bridge.Services.Tunnel.{acquire}
use remote_ai_bridge.Services.Tunnel.Laws.{acquire-IsRecorded}
use remote_ai_bridge.Services.Profiles.{create}
use remote_ai_bridge.Exec.{
  Env, Sys, Trace, Completed, Spawned, Connected, Exchanged, Fetched, exited,
}
use remote_ai_bridge.Services.Supervisor.{Policy, run}
use remote_ai_bridge.Services.Supervisor.Publish.{backoff, get_or}
use remote_ai_bridge.Services.Supervisor.Ending.{latest}
use remote_ai_bridge.Services.Supervisor.Runs.{run-IsFinal}
use remote_ai_bridge.Services.Supervisor.Backoff.{backoff-All}
use remote_ai_bridge.Domain.Snapshot.{blank, stopped, failed}
use remote_ai_bridge.Domain.Profile.Rules.{is_valid_profile_name}
use remote_ai_bridge.Infrastructure.Store.{is_safe_name, save_profile, load_profile}
use remote_ai_bridge.Invariant.Reachable.{Reachable, fresh, Reachable-IsValid}
use remote_ai_bridge.Exec.{◌>>=◌}
use remote_ai_bridge.Tests.{python, env, cfg, policy, dev, stored, recorded, running}

stopped_run :
    run env cfg policy "dev" 3 stored
    ≡ (ok (some (blank "dev" stopped)), (run env cfg policy "dev" 3 stored).1)
unfolding validate remote_ai_bridge.Domain.Profile.validate_profile_name
    remote_ai_bridge.Domain.Profile.Rules.is_valid_profile_name
    remote_ai_bridge.Domain.Profile.Rules.is_valid_target
    remote_ai_bridge.Domain.Profile.validate_endpoint_probe_url
    remote_ai_bridge.Domain.Profile.validate_schema remote_ai_bridge.Exec.pure
    remote_ai_bridge.Exec.raise remote_ai_bridge.Exec.lift remote_ai_bridge.Exec.ask
    remote_ai_bridge.Exec.catch remote_ai_bridge.Exec.finally remote_ai_bridge.Exec.gets
    remote_ai_bridge.Exec.modify remote_ai_bridge.Exec.given remote_ai_bridge.Exec.with_lock
    remote_ai_bridge.Exec.file_operation remote_ai_bridge.Exec.◌>>=◌
    remote_ai_bridge.Infrastructure.Store.is_safe_name remote_ai_bridge.Infrastructure.Store.path_of
    remote_ai_bridge.Infrastructure.Store.write_profile
    remote_ai_bridge.Infrastructure.Store.save_profile
    remote_ai_bridge.Infrastructure.Store.read_profile
    remote_ai_bridge.Infrastructure.Store.load_profile
    remote_ai_bridge.Infrastructure.Store.update_profile
    remote_ai_bridge.Infrastructure.Store.delete_profile
    remote_ai_bridge.Infrastructure.Store.read_runtime
    remote_ai_bridge.Infrastructure.Store.load_runtime
    remote_ai_bridge.Infrastructure.Store.clear_runtime
    remote_ai_bridge.Infrastructure.Store.supervisor_lock remote_ai_bridge.Prelude.get
    remote_ai_bridge.Prelude.put remote_ai_bridge.Prelude.remove
    remote_ai_bridge.Services.Supervisor.run remote_ai_bridge.Services.Supervisor.say
    remote_ai_bridge.Services.Supervisor.run_profile remote_ai_bridge.Services.Supervisor.run_locked
    remote_ai_bridge.Services.Supervisor.loop remote_ai_bridge.Services.Supervisor.is_stopping
    remote_ai_bridge.Services.Supervisor.stop_run
    remote_ai_bridge.Services.Supervisor.cleanup_active
    remote_ai_bridge.Services.Supervisor.cleanup_recorded
    remote_ai_bridge.Services.Supervisor.after_stop
    remote_ai_bridge.Services.Supervisor.Publish.publish
    remote_ai_bridge.Services.Supervisor.Publish.shown_runtime
    remote_ai_bridge.Services.Supervisor.Publish.snapshot_of
    remote_ai_bridge.Services.Supervisor.Publish.set_active
stopped_run = refl

run-IsFinal_example :
    (latest (run env cfg policy "dev" 3 stored).1.snapshots ≡ some (blank "dev" stopped))
    × ((stopped ≡ failed)
        ⊎ ((stopped ≡ stopped) × (get "dev" (run env cfg policy "dev" 3 stored).1.runtimes ≡ none)))
run-IsFinal_example =
    run-IsFinal env cfg policy "dev" 3 stored (run env cfg policy "dev" 3 stored).1
      (blank "dev" stopped) stopped_run

backoff-All_example :
    (backoff policy 7 ≤ 5)
    × (3 ≤ 7 → backoff policy 7 ≡ get_or policy.backoff_seconds (length policy.backoff_seconds - 1))
backoff-All_example =
    backoff-All policy (λ d. d ≤ 5) 7 (omega arith) (omega arith, (omega arith, (omega arith, tt)))

abbrev sample : HealthReport
sample = record {
  local_tcp = check "TCP reachable" pass "" none;
  proxy_handshake = check "HTTP proxy handshake" pass "" none;
  tunnel_process = check "Tunnel process" pass "" none;
  remote_listener = check "Remote listener" pass "" none;
  endpoint_probe = check "Remote endpoint probe" fail "" (some "ENDPOINT_TIMEOUT");
}

health_exact_example :
    ((health sample ≡ ready)
      ↔ ((true ≡ true) × (true ≡ true) × (true ≡ true) × (true ≡ true) × (false ≡ true)))
    × ((health sample ≡ disconnected) ↔ (true ≡ false))
health_exact_example = health_exact sample

supervised_dev : Reachable env cfg (run env cfg policy "dev" 3 (create env dev fresh).1).1
supervised_dev = Reachable.supervised (Reachable.created Reachable.started dev) policy "dev" 3

Reachable-IsValid_example :
    ((name : String) (p : Profile)
      → get name (run env cfg policy "dev" 3 (create env dev fresh).1).1.profiles ≡ some p
      → (p.name ≡ name) × (validate python p ≡ ok tt))
    × ((name : String) (r : RuntimeState)
        → get name (run env cfg policy "dev" 3 (create env dev fresh).1).1.runtimes ≡ some r
        → (r.profile_name ≡ name) × (validate_runtime python r ≡ ok tt))
Reachable-IsValid_example = Reachable-IsValid env cfg _ supervised_dev

abbrev tunnelled : Sys
tunnelled = record stored { runtimes = ("dev", recorded) ∷ [] }

abbrev reused : ActiveTunnel
reused = record { state = recorded; process = none }

acquired : acquire running cfg dev tunnelled ≡ (ok reused, (acquire running cfg dev tunnelled).1)
unfolding remote_ai_bridge.Services.Tunnel.acquire remote_ai_bridge.Services.Tunnel.reusable
    remote_ai_bridge.Services.Tunnel.reuse_or remote_ai_bridge.Infrastructure.Store.path_of
    remote_ai_bridge.Infrastructure.Store.is_safe_name
    remote_ai_bridge.Infrastructure.Store.load_runtime
    remote_ai_bridge.Infrastructure.Store.read_runtime
    remote_ai_bridge.Infrastructure.Inspector.matches
    remote_ai_bridge.Infrastructure.Inspector.get_identity
    remote_ai_bridge.Domain.Runtime.validate_remote
    remote_ai_bridge.Infrastructure.Inspector.same_process
    remote_ai_bridge.Domain.Runtime.validate_runtime
    remote_ai_bridge.Domain.Profile.Rules.is_valid_profile_name remote_ai_bridge.Prelude.get
    remote_ai_bridge.Exec.pure remote_ai_bridge.Exec.raise remote_ai_bridge.Exec.lift
    remote_ai_bridge.Exec.ask remote_ai_bridge.Exec.gets remote_ai_bridge.Exec.file_operation
    remote_ai_bridge.Exec.◌>>=◌
acquired = refl

acquire-IsRecorded_example :
    (get "dev" (acquire running cfg dev tunnelled).1.runtimes ≡ some recorded)
    × (recorded.remote_port ≡ dev.remote_port)
acquire-IsRecorded_example =
    acquire-IsRecorded running cfg dev reused tunnelled (acquire running cfg dev tunnelled).1
      acquired
