-- ===== src/Invariant/Tunnels.antt =====
-- The probes, the tunnel manager and the profile service keep the invariant.
use remote_ai_bridge.Prelude.{
  ℕ, zero, suc, String, ◌≡◌, refl, if◌then◌else◌, Bool, true, false, Option, none, some, has_code,
}
use remote_ai_bridge.Domain.Health.{CheckResult}
use remote_ai_bridge.Domain.Profile.{Profile}
use remote_ai_bridge.Domain.Runtime.{RuntimeState, RemoteTunnelIdentity, ActiveTunnel}
use remote_ai_bridge.Exec.{Env, Sys, ProcessIdentity, looked, ask, pure, given, modify, ◌>>=◌}
use remote_ai_bridge.Exec.Keeps.{Keeps-bind, Keeps-pure, Keeps-if, Keeps-given, Keeps-modify}
use remote_ai_bridge.Invariant.Trace.{
  IsSound, JustMatched, Sound, Sound-event, Sound-get_identity, Sound-terminate_owned,
  Sound-stop_identified, trace_rules,
}
use remote_ai_bridge.Invariant.Files.{file_rules}
use remote_ai_bridge.Infrastructure.Process.{Started, managed, not_started, stop_child, poll_child}
use remote_ai_bridge.Infrastructure.Inspector.{
  get_identity, matches, terminate_owned, identity_matches,
}
use remote_ai_bridge.Services.Options.{Config}
use remote_ai_bridge.Services.Probe.{
  run_remote, check_listener, check_endpoint, read_tunnel_identity, run_identity_action,
  identity_action, verify_stale_session_ownership, terminate_verified_stale_session, free_port_from,
  find_free_port,
}
use remote_ai_bridge.Services.Tunnel.{
  Awaited, checked, exited, poll, stop_matching, stop, wait_for_identity, wait_for_remote_identity,
  abandon, record_tunnel, confirm_remote, after_start, when_started, when_awaited, start_tunnel,
  release_stale, report_conflict, resolve_occupied, resolve_listener, reusable, acquire_new,
  acquire, await_listener, verify_endpoint, verify, process_check, disconnect_state, disconnect,
  reuse_or, exit_output,
}

module _ (env : Env) (k : ℕ) where
  module _ (cfg : Config) (p : Profile) where
    Sound-run_remote : (command : String) → Sound env k (run_remote env cfg p command)
    unfolding run_remote
    Sound-run_remote command = search trace_rules

    pub Sound-check_listener : (port : ℕ) → Sound env k (check_listener env cfg p port)
    unfolding check_listener
    Sound-check_listener port = search (trace_rules, Sound-run_remote)

    pub Sound-check_endpoint : Sound env k (check_endpoint env cfg p)
    unfolding check_endpoint
    Sound-check_endpoint = search (trace_rules, Sound-run_remote)

    Sound-read_tunnel_identity :
        (tunnel_id : String) → Sound env k (read_tunnel_identity env cfg p tunnel_id)
    unfolding read_tunnel_identity
    Sound-read_tunnel_identity tunnel_id = search (trace_rules, Sound-run_remote) depth 8

    Sound-run_identity_action :
        (i : RemoteTunnelIdentity) (b : Bool) → Sound env k (run_identity_action env cfg p i b)
    unfolding run_identity_action
    Sound-run_identity_action i b = search (trace_rules, Sound-run_remote) depth 8

    Sound-identity_action :
        (r : RuntimeState) (b : Bool) → Sound env k (identity_action env cfg p r b)
    unfolding identity_action
    Sound-identity_action r b = search (trace_rules, Sound-run_identity_action) depth 8

    Sound-verify_ownership :
        (r : RuntimeState) → Sound env k (verify_stale_session_ownership env cfg p r)
    unfolding verify_stale_session_ownership
    Sound-verify_ownership r = Sound-identity_action r false

    Sound-terminate_session :
        (r : RuntimeState) → Sound env k (terminate_verified_stale_session env cfg p r)
    unfolding terminate_verified_stale_session
    Sound-terminate_session r = Sound-identity_action r true

    Sound-free_port_from : (left port : ℕ) → Sound env k (free_port_from env cfg p left port)
    unfolding free_port_from
    Sound-free_port_from zero port = Keeps-pure none
    Sound-free_port_from (suc left) port = Keeps-bind _ _ (Sound-check_listener port) λ r.
        Keeps-if (has_code r.error_code "LISTENER_ABSENT") _ _ (Keeps-pure _) (
          Keeps-if (has_code r.error_code "REMOTE_CHECK_FAILED") _ _ (Keeps-pure none)
            (Sound-free_port_from left _))

    Sound-find_free_port : Sound env k (find_free_port env cfg p)
    unfolding find_free_port
    Sound-find_free_port = Sound-free_port_from _ _

  pub Sound-poll : (t : ActiveTunnel) → Sound env k (poll env t)
  unfolding poll
  Sound-poll t = search trace_rules depth 8

  Sound-stop_process :
      (t : ActiveTunnel) (o : Option ℕ) (s : Sys)
      → JustMatched env.python t.state s.trace
      → IsSound env k s
      → IsSound env k
          (given o
            (terminate_owned env t.state)
            (λ pid. stop_child env pid (some t.state) >>= λ _. poll_child env pid)
            s).1
  unfolding given
  Sound-stop_process t none s m h = (Sound-terminate_owned env k t.state).at s h
  Sound-stop_process t (some pid) s m h = Sound-stop_identified env k pid t.state s m h

  -- The stop follows the look-up of `matches`, which was positive.
  Sound-stop_owned :
      (t : ActiveTunnel) (b : Bool) (s : Sys)
      → (b ≡ true → JustMatched env.python t.state s.trace)
      → IsSound env k s
      → IsSound env k ((if b then stop_matching env t else poll env t) s).1
  unfolding stop_matching
  Sound-stop_owned t true s m h = Sound-stop_process t t.process s (m refl) h
  Sound-stop_owned t false s m h = (Sound-poll t).at s h

  pub Sound-stop : (t : ActiveTunnel) → Sound env k (stop env t)
  unfolding stop matches get_identity ask pure ◌>>=◌
  Sound-stop t = record {
    at = λ s h.
        let identity = env.identity s.trace t.state.pid in
        Sound-stop_owned t (identity_matches env.python identity t.state) _ (λ e. (refl, e))
          (Sound-event env k s (looked t.state.pid identity) h.owned h);
  }

  Sound-exit_output : (t : ActiveTunnel) → Sound env k (exit_output env t)
  unfolding exit_output
  Sound-exit_output t = search trace_rules

  Sound-wait_for_identity : (pid rounds : ℕ) → Sound env k (wait_for_identity env pid rounds)
  unfolding wait_for_identity
  Sound-wait_for_identity pid zero = Keeps-pure none
  Sound-wait_for_identity pid (suc rounds) =
      Keeps-bind _ _ (Sound-get_identity env k pid)
        λ i. Keeps-given i _ _ (Sound-wait_for_identity pid rounds) (λ j. Keeps-pure (some j))

  pub Sound-disconnect_state :
      (name : String) (r : RuntimeState) → Sound env k (disconnect_state env name r)
  unfolding disconnect_state
  Sound-disconnect_state name r = search (trace_rules, file_rules) depth 12

  pub Sound-disconnect : (name : String) → Sound env k (disconnect env name)
  unfolding disconnect
  Sound-disconnect name = search (trace_rules, file_rules, Sound-disconnect_state) depth 8

  pub Sound-process_check : (name : String) → Sound env k (process_check env name)
  unfolding process_check
  Sound-process_check name = search (trace_rules, file_rules) depth 9

  module _ (cfg : Config) where
    Sound-wait_for_remote_identity :
        (p : Profile) (tunnel_id : String) (rounds : ℕ) (last : CheckResult)
        → Sound env k (wait_for_remote_identity env cfg p tunnel_id rounds last)
    unfolding wait_for_remote_identity
    Sound-wait_for_remote_identity p tunnel_id zero last = Keeps-pure (none, last)
    Sound-wait_for_remote_identity p tunnel_id (suc rounds) last =
        Keeps-bind _ _ (Sound-read_tunnel_identity cfg p tunnel_id) λ a.
          Keeps-given (a.0) _ _ (Sound-wait_for_remote_identity p tunnel_id rounds (a.1))
            (λ _. Keeps-pure a)

    Sound-abandon :
        {A : Type 0} (pid : ℕ) (code : String) → Sound env k (abandon env cfg {A = A} pid code)
    unfolding abandon
    Sound-abandon pid code = search trace_rules

    Sound-record_tunnel :
        (pid : ℕ) (state : RuntimeState) (c : CheckResult)
        → Sound env k (record_tunnel env cfg pid state c)
    unfolding record_tunnel
    Sound-record_tunnel pid state c = search (trace_rules, file_rules, Sound-abandon) depth 8

    Sound-confirm_remote :
        (p : Profile) (tunnel_id : String) (pid : ℕ) (i : ProcessIdentity)
        → Sound env k (confirm_remote env cfg p tunnel_id pid i)
    unfolding confirm_remote
    Sound-confirm_remote p tunnel_id pid i =
        search
          (
            trace_rules, Sound-wait_for_remote_identity, Sound-verify_ownership,
            Sound-record_tunnel, Sound-abandon,
          )
          depth 10

    Sound-after_start :
        (p : Profile) (tunnel_id : String) (pid : ℕ)
        → Sound env k (after_start env cfg p tunnel_id pid)
    unfolding after_start
    Sound-after_start p tunnel_id pid =
        search (trace_rules, Sound-wait_for_identity, Sound-confirm_remote, Sound-abandon) depth 10

    Sound-when_started :
        (p : Profile) (tunnel_id : String) (o : Started)
        → Sound env k (when_started env cfg p tunnel_id o)
    unfolding when_started
    Sound-when_started p tunnel_id (not_started code) = search trace_rules
    Sound-when_started p tunnel_id (managed pid) = Sound-after_start p tunnel_id pid

    Sound-start_tunnel : (p : Profile) → Sound env k (start_tunnel env cfg p)
    unfolding start_tunnel
    Sound-start_tunnel p = search (trace_rules, file_rules, Sound-when_started) depth 10

    Sound-release_stale : (p : Profile) (r : RuntimeState) → Sound env k (release_stale env cfg p r)
    unfolding release_stale
    Sound-release_stale p r =
        search
          (
            trace_rules, file_rules, Sound-verify_ownership, Sound-terminate_session,
            Sound-check_listener,
          )
          depth 14

    Sound-report_conflict : (p : Profile) → Sound env k (report_conflict env cfg p)
    unfolding report_conflict
    Sound-report_conflict p = search (trace_rules, Sound-find_free_port)

    Sound-resolve_occupied :
        (p : Profile) (o : Option RuntimeState) → Sound env k (resolve_occupied env cfg p o)
    unfolding resolve_occupied
    Sound-resolve_occupied p none = Sound-report_conflict p
    Sound-resolve_occupied p (some r) =
        search (trace_rules, Sound-report_conflict, Sound-release_stale)

    Sound-resolve_listener :
        (p : Profile) (o : Option RuntimeState) (c : CheckResult)
        → Sound env k (resolve_listener env cfg p o c)
    unfolding resolve_listener
    Sound-resolve_listener p o c = search (trace_rules, Sound-resolve_occupied)

    Sound-reusable : (p : Profile) (o : Option RuntimeState) → Sound env k (reusable env cfg p o)
    unfolding reusable
    Sound-reusable p none = search trace_rules
    Sound-reusable p (some r) = search trace_rules

    Sound-acquire_new :
        (p : Profile) (o : Option RuntimeState) → Sound env k (acquire_new env cfg p o)
    unfolding acquire_new
    Sound-acquire_new p o =
        search (trace_rules, Sound-check_listener, Sound-resolve_listener, Sound-start_tunnel) depth
          10

    Sound-reuse_or :
        (p : Profile) (o : Option RuntimeState) (b : Bool) → Sound env k (reuse_or env cfg p o b)
    unfolding reuse_or
    Sound-reuse_or p (some r) true = search trace_rules
    Sound-reuse_or p (some r) false = Sound-acquire_new p (some r)
    Sound-reuse_or p none true = Sound-acquire_new p none
    Sound-reuse_or p none false = Sound-acquire_new p none

    pub Sound-acquire : (p : Profile) → Sound env k (acquire env cfg p)
    unfolding acquire
    Sound-acquire p = search (trace_rules, file_rules, Sound-reusable, Sound-reuse_or) depth 8

    Sound-await_listener :
        (p : Profile) (t : ActiveTunnel) (rounds : ℕ) (c : CheckResult)
        → Sound env k (await_listener env cfg p t rounds c)
    unfolding await_listener
    Sound-await_listener p t zero c = Keeps-pure (checked c)
    Sound-await_listener p t (suc rounds) c = Keeps-if _ _ _ (Keeps-pure (checked c)) (
        Keeps-bind _ _ (Sound-poll t) λ gone.
          Keeps-if gone _ _ (Keeps-bind _ _ (Sound-exit_output t) (λ _. Keeps-pure _)) (
            Keeps-bind _ _ (Sound-check_listener cfg p p.remote_port)
              (Sound-await_listener p t rounds)))

    Sound-modify_active :
        (t : ActiveTunnel) → Sound env k (modify (λ s. record s { active = some t }))
    Sound-modify_active t = Keeps-modify _ λ s h. record {
      grown = h.grown;
      owned = h.owned;
      profiles = h.profiles;
      runtimes = h.runtimes;
    }

    Sound-verify_endpoint :
        (p : Profile) (t : ActiveTunnel) (c : CheckResult)
        → Sound env k (verify_endpoint env cfg p t c)
    unfolding verify_endpoint
    Sound-verify_endpoint p t c =
        search (trace_rules, file_rules, Sound-check_endpoint, Sound-modify_active) depth 14

    Sound-when_awaited :
        (p : Profile) (t : ActiveTunnel) (a : Awaited) → Sound env k (when_awaited env cfg p t a)
    unfolding when_awaited
    Sound-when_awaited p t (exited c) = search trace_rules
    Sound-when_awaited p t (checked c) = search (trace_rules, Sound-verify_endpoint)

    pub Sound-verify : (p : Profile) (t : ActiveTunnel) → Sound env k (verify env cfg p t)
    unfolding verify
    Sound-verify p t =
        search (trace_rules, Sound-check_listener, Sound-await_listener, Sound-when_awaited) depth 8
