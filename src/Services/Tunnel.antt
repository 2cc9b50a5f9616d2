-- ===== src/Services/Tunnel.antt =====
-- app/services/tunnel.py: the SSH tunnel of a profile. A tunnel is acquired, verified and
-- disconnected on the evidence of its runtime state; a port that someone else holds is a conflict.
mod Command
pub mod Laws
pub use Command.{build_tunnel_command}
use remote_ai_bridge.Prelude.{
  ℕ, zero, suc, String, Bool, true, false, not, ◌&&◌, ◌||◌, Option, none, some, List, [], ◌∷◌, ◌==◌,
  nat_eq, has_code, any, or_else, if◌then◌else◌,
}
use remote_ai_bridge.Text.{format, show, strip, clip, or_text, contains, lower}
use remote_ai_bridge.Domain.Errors.{tunnel, port_conflict}
use remote_ai_bridge.Domain.Health.{CheckResult, pass, fail, skip, check, passed}
use remote_ai_bridge.Domain.Profile.{Profile}
use remote_ai_bridge.Domain.Runtime.{
  RuntimeState, RemoteTunnelIdentity, ActiveTunnel, validate_runtime,
}
use remote_ai_bridge.Exec.{
  Env, Exec, ProcessIdentity, asked, pure, raise, lift, ask, modify, given, ◌>>=◌, ◌>>◌,
}
use remote_ai_bridge.Infrastructure.Process.{
  Started, managed, not_started, start_managed, poll_child, stop_child, wait_for_start,
}
use remote_ai_bridge.Infrastructure.Inspector.{get_identity, matches, terminate_owned}
use remote_ai_bridge.Infrastructure.Store.{load_runtime, save_runtime, clear_runtime}
use remote_ai_bridge.Services.Options.{Config}
use remote_ai_bridge.Services.Probe.{
  check_listener, check_endpoint, read_tunnel_identity, verify_stale_session_ownership,
  terminate_verified_stale_session, find_free_port,
}

abbrev pub with_probe_time : RuntimeState → String → RuntimeState
with_probe_time s now = record s { last_successful_probe_at = some now }

abbrev is_denied : String → Bool
is_denied lowered =
    any (λ marker. contains marker lowered)
      ("administratively prohibited" ∷ "remote port forwarding failed" ∷ "forwarding disabled" ∷ [])

abbrev skipped : CheckResult
skipped = check "Remote endpoint probe" skip "listener unavailable" none

unfoldable pub exit_check : Option (String × String) → CheckResult
unfolding contains lower strip
exit_check none = check "Remote listener" fail "SSH tunnel exited" (some "TUNNEL_EXITED")
exit_check (some (out, err)) =
    let detail = or_text (strip err) (or_text (strip out) "SSH tunnel exited") in
    check "Remote listener" fail (clip 500 detail)
      (some (if is_denied (lower detail) then "SSH_FORWARDING_DENIED" else "TUNNEL_EXITED"))

-- What `verify` returns. The tunnel that it is given is the supervisor's `active`, which it updates.
pub record Verified : Type 0 where
  pub listener : CheckResult
  pub endpoint : CheckResult

-- How the wait for the listener ends: with a last check, or with the tunnel's exit.
pub data Awaited : Type 0 where
  checked : CheckResult → Awaited
  exited : CheckResult → Awaited

abbrev is_absent : CheckResult → Bool
is_absent c = not (passed c) && has_code c.error_code "LISTENER_ABSENT"

module _ (env : Env) where
  -- ActiveTunnel.poll: the process is gone
  unfoldable pub poll : ActiveTunnel → Exec Bool
  poll t =
      given t.process (do owned ← matches env t.state; pure (not owned)) λ pid. poll_child env pid

  unfoldable pub stop_matching : ActiveTunnel → Exec Bool
  stop_matching t =
      given t.process (terminate_owned env t.state)
        λ pid. do stop_child env pid (some t.state); poll_child env pid

  -- ActiveTunnel.stop
  unfoldable pub stop : ActiveTunnel → Exec Bool
  stop t = do owned ← matches env t.state; if owned then stop_matching t else poll t

  -- ActiveTunnel.exit_result, of a process that was found to have exited
  unfoldable pub exit_output : ActiveTunnel → Exec (Option (String × String))
  exit_output t =
      given t.process (pure none) λ pid. ask (λ h. some (env.child_output h pid)) (λ _. asked)

  unfoldable pub wait_for_identity : ℕ → ℕ → Exec (Option ProcessIdentity)
  wait_for_identity pid zero = pure none
  wait_for_identity pid (suc rounds) = do
    identity ← get_identity env pid
    given identity (wait_for_identity pid rounds) λ i. pure (some i)

  module _ (cfg : Config) where
    unfoldable pub wait_for_remote_identity :
        Profile → String → ℕ → CheckResult → Exec (Option RemoteTunnelIdentity × CheckResult)
    wait_for_remote_identity p tunnel_id zero last = pure (none, last)
    wait_for_remote_identity p tunnel_id (suc rounds) last = do
      answer ← read_tunnel_identity env cfg p tunnel_id
      given answer.0 (wait_for_remote_identity p tunnel_id rounds answer.1) λ _. pure answer

    abbrev new_state : Profile → String → ProcessIdentity → RemoteTunnelIdentity → RuntimeState
    new_state p tunnel_id identity remote = record {
      schema_version = 1;
      profile_name = p.name;
      pid = identity.pid;
      process_creation_time = identity.creation_time;
      executable_path = identity.executable_path;
      tunnel_id = tunnel_id;
      supervisor_pid = cfg.own_pid;
      remote_port = p.remote_port;
      last_successful_probe_at = none;
      remote_user = some remote.remote_user;
      remote_sshd_pid = some remote.sshd_pid;
      remote_sshd_start_ticks = some remote.sshd_start_ticks;
      remote_boot_id = some remote.boot_id;
      remote_ssh_connection = some remote.ssh_connection;
    }

    -- `started.stop(…)` and `raise TunnelError(…, code)`
    unfoldable pub abandon {ℓ} : {A : Type ℓ} → ℕ → String → Exec A
    abandon pid code = do stop_child env pid none; raise (tunnel code)

    unfoldable pub record_tunnel : ℕ → RuntimeState → CheckResult → Exec ActiveTunnel
    record_tunnel pid state ownership =
        if passed ownership
        then (do save_runtime env state; pure (record { state = state; process = some pid }))
        else abandon pid (or_else ownership.error_code "REMOTE_IDENTITY_MISMATCH")

    unfoldable pub confirm_remote : Profile → String → ℕ → ProcessIdentity → Exec ActiveTunnel
    confirm_remote p tunnel_id pid identity = do
      rounds ← ask env.rounds (λ _. asked)
      remote ← wait_for_remote_identity p tunnel_id rounds (
          check "Remote tunnel identity" fail
            "remote tunnel identity was not created before timeout"
            (some "REMOTE_IDENTITY_UNAVAILABLE"))
      given remote.0 (abandon pid (or_else remote.1.error_code "REMOTE_IDENTITY_UNAVAILABLE")) λ r.
          do
            let state = new_state p tunnel_id identity r
            ownership ← verify_stale_session_ownership env cfg p state
            record_tunnel pid state ownership

    unfoldable pub after_start : Profile → String → ℕ → Exec ActiveTunnel
    after_start p tunnel_id pid = do
      early ← wait_for_start env pid
      if early then raise (tunnel "TUNNEL_START_FAILED") else do
        rounds ← ask env.rounds (λ _. asked)
        found ← wait_for_identity pid rounds
        given found (abandon pid "PROCESS_IDENTITY_UNAVAILABLE") λ i.
            if env.python.normalise_path i.executable_path
              == env.python.normalise_path cfg.resolved_executable
            then confirm_remote p tunnel_id pid i
            else abandon pid "PROCESS_IDENTITY_MISMATCH"

    unfoldable pub when_started : Profile → String → Started → Exec ActiveTunnel
    when_started p tunnel_id (not_started code) = raise (tunnel code)
    when_started p tunnel_id (managed pid) = after_start p tunnel_id pid

    unfoldable pub start_tunnel : Profile → Exec ActiveTunnel
    start_tunnel p = do
      clear_runtime env p.name
      tunnel_id ← ask env.new_uuid (λ _. asked)
      argv ← lift (build_tunnel_command env.python cfg p tunnel_id)
      started ← start_managed env argv
      when_started p tunnel_id started

    -- A stale session that is proved to be the program's own is ended, and must free the port.
    unfoldable pub release_stale : Profile → RuntimeState → Exec CheckResult
    release_stale p existing = do
      ownership ← verify_stale_session_ownership env cfg p existing
      if not (passed ownership) then raise (port_conflict p.remote_port none) else do
        cleanup ← terminate_verified_stale_session env cfg p existing
        if not (passed cleanup) then raise (port_conflict p.remote_port none) else do
          released ← check_listener env cfg p p.remote_port
          if has_code released.error_code "LISTENER_ABSENT"
              then (do clear_runtime env p.name; pure released)
              else raise (port_conflict p.remote_port none)

    unfoldable pub report_conflict : Profile → Exec CheckResult
    report_conflict p = do
      suggestion ← find_free_port env cfg p
      raise (port_conflict p.remote_port suggestion)

    unfoldable pub resolve_occupied : Profile → Option RuntimeState → Exec CheckResult
    resolve_occupied p none = report_conflict p
    resolve_occupied p (some existing) =
        if nat_eq existing.remote_port p.remote_port
        then release_stale p existing
        else report_conflict p

    unfoldable pub resolve_listener : Profile → Option RuntimeState → CheckResult → Exec CheckResult
    resolve_listener p existing listener =
        if passed listener || has_code listener.error_code "UNSAFE_REMOTE_BINDING"
        then resolve_occupied p existing
        else pure listener

    -- an existing runtime for the same port whose process matches
    unfoldable pub reusable : Profile → Option RuntimeState → Exec Bool
    reusable p none = pure false
    reusable p (some existing) =
        if nat_eq existing.remote_port p.remote_port then matches env existing else pure false

    unfoldable pub acquire_new : Profile → Option RuntimeState → Exec ActiveTunnel
    acquire_new p existing = do
      observed ← check_listener env cfg p p.remote_port
      listener ← resolve_listener p existing observed
      if has_code listener.error_code "LISTENER_ABSENT"
          then start_tunnel p
          else raise (tunnel (or_else listener.error_code "REMOTE_CHECK_FAILED"))

    unfoldable pub reuse_or : Profile → Option RuntimeState → Bool → Exec ActiveTunnel
    reuse_or p (some existing) true = pure (record { state = existing; process = none })
    reuse_or p existing _ = acquire_new p existing

    unfoldable pub acquire : Profile → Exec ActiveTunnel
    acquire p = do
      existing ← load_runtime env p.name
      reuse ← reusable p existing
      reuse_or p existing reuse

    unfoldable pub await_listener : Profile → ActiveTunnel → ℕ → CheckResult → Exec Awaited
    await_listener p t zero listener = pure (checked listener)
    await_listener p t (suc rounds) listener =
        if not (is_absent listener) then pure (checked listener) else do
          gone ← poll t
          if gone then (do output ← exit_output t; pure (exited (exit_check output))) else (do
            again ← check_listener env cfg p p.remote_port
            await_listener p t rounds again)

    unfoldable pub verify_endpoint : Profile → ActiveTunnel → CheckResult → Exec Verified
    verify_endpoint p t listener = do
      endpoint ← check_endpoint env cfg p
      if not (passed endpoint)
          then pure (record { listener = listener; endpoint = endpoint })
          else do
            lift (validate_runtime env.python t.state)
            now ← ask env.utc_now (λ _. asked)
            let probed : ActiveTunnel = record t { state = with_probe_time t.state now }
            modify (λ s. record s { active = some probed })
            save_runtime env probed.state
            pure (record { listener = listener; endpoint = endpoint })

    unfoldable pub when_awaited : Profile → ActiveTunnel → Awaited → Exec Verified
    when_awaited p t (exited listener) = pure (record { listener = listener; endpoint = skipped })
    when_awaited p t (checked listener) =
        if passed listener
        then verify_endpoint p t listener
        else pure (record { listener = listener; endpoint = skipped })

    unfoldable pub verify : Profile → ActiveTunnel → Exec Verified
    verify p t = do
      first ← check_listener env cfg p p.remote_port
      rounds ← ask env.rounds (λ _. asked)
      awaited ← await_listener p t rounds first
      when_awaited p t awaited

  abbrev process_result : String → CheckResult
  process_result detail = check "Tunnel process" pass detail none

  unfoldable pub process_check : String → Exec CheckResult
  process_check name = do
    found ← load_runtime env name
    given found (pure (check "Tunnel process" fail "no recorded tunnel" (some "NO_RUNTIME_STATE")))
        λ state. do
          owned ← matches env state
          pure (
              if owned
              then process_result (
                  format
                    ("PID " ∷ show state.pid ∷ " identity matches tunnel " ∷ state.tunnel_id ∷ []))
              else check "Tunnel process" fail "recorded PID is absent or identity does not match"
                  (some "PROCESS_IDENTITY_MISMATCH"))

  unfoldable pub disconnect_state : String → RuntimeState → Exec CheckResult
  disconnect_state name state = do
    owned ← matches env state
    if not owned
        then (do
          clear_runtime env name
          pure (
              check "Tunnel process" fail
                "recorded PID identity did not match; no process was terminated; stale state removed"
                (some "PROCESS_IDENTITY_MISMATCH")))
        else do
          stopped ← terminate_owned env state
          if not stopped
              then pure (
                  check "Tunnel process" fail "owned process did not exit before timeout"
                    (some "PROCESS_STOP_TIMEOUT"))
              else do
                clear_runtime env name
                pure (
                    process_result
                      (format ("stopped owned SSH process PID " ∷ show state.pid ∷ [])))

  unfoldable pub disconnect : String → Exec CheckResult
  disconnect name = do
    found ← load_runtime env name
    given found (pure (process_result "already disconnected")) λ state. disconnect_state name state
