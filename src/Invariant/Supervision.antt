-- ===== src/Invariant/Supervision.antt =====
-- The supervisor keeps the invariant, round by round and as a whole.
use remote_ai_bridge.Prelude.{ℕ, zero, suc, String, Bool, true, false, Option, none, some, ◌∷◌}
use remote_ai_bridge.Domain.Errors.{Exn, profile_not_found, profile_lock, port_conflict, tunnel}
use remote_ai_bridge.Domain.Health.{CheckResult}
use remote_ai_bridge.Domain.Profile.{Profile}
use remote_ai_bridge.Domain.Runtime.{RuntimeState, ActiveTunnel}
use remote_ai_bridge.Domain.Snapshot.{SupervisorState, SupervisorSnapshot}
use remote_ai_bridge.Exec.{Env, Exec, pure, catch, modify, ◌>>=◌}
use remote_ai_bridge.Infrastructure.Store.{load_profile}
use remote_ai_bridge.Exec.Keeps.{Keeps-bind, Keeps-if, Keeps-pure, Keeps-modify}
use remote_ai_bridge.Invariant.Trace.{Sound, Sound-asked, trace_rules}
use remote_ai_bridge.Invariant.Files.{file_rules}
use remote_ai_bridge.Invariant.Tunnels.{
  Sound-poll, Sound-stop, Sound-acquire, Sound-verify, Sound-disconnect,
}
use remote_ai_bridge.Services.Options.{Config}
use remote_ai_bridge.Services.LocalProxy.{check_tcp, check_http_proxy, check_proxied, inspect}
use remote_ai_bridge.Services.Supervisor.Publish.{Policy, Report, shown_runtime, publish}
use remote_ai_bridge.Services.Supervisor.{
  Loop, Step, again, leave, done, Acquired, got, conflict, refused, Cleanup, cleaned, kept,
  acquired_handler, say, finish, is_stopping, wait_stop, retry_later, cleanup_owned,
  cleanup_recorded, cleanup_active, give_up, verify_failed, report_ready, verify_active,
  health_round, acquired_round, connect_round, local_failed, proxy_round, exited_round, round,
  after_stop, stop_run, after_round, loop, report_crash, crashed, run_locked, give, missing_profile,
  run_profile, run_handler, run,
}

module _ (env : Env) (k : ℕ) where
  Sound-check_tcp : (host : String) (port : ℕ) → Sound env k (check_tcp env host port)
  unfolding check_tcp
  Sound-check_tcp host port = search trace_rules

  Sound-check_http_proxy :
      (host : String) (port : ℕ) (target : String × ℕ)
      → Sound env k (check_http_proxy env host port target)
  unfolding check_http_proxy
  Sound-check_http_proxy host port target = search trace_rules

  Sound-check_proxied :
      (host : String) (port : ℕ) (url : String) → Sound env k (check_proxied env host port url)
  unfolding check_proxied
  Sound-check_proxied host port url = search trace_rules

  pub Sound-inspect : (p : Profile) → Sound env k (inspect env p)
  unfolding inspect
  Sound-inspect p =
      search (trace_rules, Sound-check_tcp, Sound-check_http_proxy, Sound-check_proxied) depth 12

  Sound-shown_runtime :
      (name : String) (t : Option ActiveTunnel) → Sound env k (shown_runtime env name t)
  unfolding shown_runtime
  Sound-shown_runtime name t = search (trace_rules, file_rules) depth 8

  Sound-push :
      (n : SupervisorSnapshot)
      → Sound env k (modify (λ s. record s { snapshots = n ∷ s.snapshots }))
  Sound-push n = Keeps-modify _ λ s h. record {
    grown = h.grown;
    owned = h.owned;
    profiles = h.profiles;
    runtimes = h.runtimes;
  }

  pub Sound-publish :
      (name : String) (state : SupervisorState) (r : Report)
      → Sound env k (publish env name state r)
  unfolding publish
  Sound-publish name state r = search (trace_rules, Sound-shown_runtime, Sound-push) depth 8

  module _ (cfg : Config) (policy : Policy) (name : String) where
    pub Sound-say :
        (state : SupervisorState) (r : Report) → Sound env k (say env cfg policy name state r)
    unfolding say
    Sound-say state r = Sound-publish name state r

    Sound-finish :
        (state : SupervisorState) (r : Report) → Sound env k (finish env cfg policy name state r)
    unfolding finish
    Sound-finish state r = search (trace_rules, Sound-say)

    Sound-is_stopping : Sound env k (is_stopping env cfg policy name)
    unfolding is_stopping
    Sound-is_stopping = Sound-asked env k env.stop_set

    Sound-wait_stop : (delay : ℕ) → Sound env k (wait_stop env cfg policy name delay)
    unfolding wait_stop
    Sound-wait_stop delay = search trace_rules

    ruleset supervisor_rules =
        (trace_rules, file_rules, Sound-say, Sound-finish, Sound-is_stopping, Sound-wait_stop)

    Sound-retry_later :
        (l : Loop) (code : String) (t : Option ActiveTunnel)
        → Sound env k (retry_later env cfg policy name l code t)
    unfolding retry_later
    Sound-retry_later l code t = search supervisor_rules depth 8

    Sound-cleanup_owned :
        (t : ActiveTunnel) (b : Bool) → Sound env k (cleanup_owned env cfg policy name t b)
    unfolding cleanup_owned
    Sound-cleanup_owned t false = search trace_rules
    Sound-cleanup_owned t true = search (supervisor_rules, Sound-stop) depth 8

    Sound-cleanup_recorded :
        (o : Option RuntimeState) → Sound env k (cleanup_recorded env cfg policy name o)
    unfolding cleanup_recorded
    Sound-cleanup_recorded none = search trace_rules
    Sound-cleanup_recorded (some r) = search (supervisor_rules, Sound-disconnect) depth 8

    pub Sound-cleanup_active :
        (t : Option ActiveTunnel) → Sound env k (cleanup_active env cfg policy name t)
    unfolding cleanup_active
    Sound-cleanup_active (some t) = search (supervisor_rules, Sound-cleanup_owned)
    Sound-cleanup_active none = search (supervisor_rules, Sound-cleanup_recorded)

    Sound-give_up :
        (l : Loop) (code : String) (t : Option ActiveTunnel) (c : Cleanup)
        → Sound env k (give_up env cfg policy name l code t c)
    unfolding give_up
    Sound-give_up l code t (kept _) = search supervisor_rules
    Sound-give_up l code t cleaned = search supervisor_rules

    Sound-verify_failed :
        (p : Profile) (l : Loop) (t : ActiveTunnel) (c : CheckResult)
        → Sound env k (verify_failed env cfg policy name p l t c)
    unfolding verify_failed
    Sound-verify_failed p l t c =
        search
          (supervisor_rules, Sound-poll, Sound-cleanup_active, Sound-give_up, Sound-retry_later)
          depth 12

    Sound-report_ready : (p : Profile) → Sound env k (report_ready env cfg policy name p)
    unfolding report_ready
    Sound-report_ready p = search supervisor_rules depth 9

    Sound-verify_active :
        (p : Profile) (l : Loop) (t : ActiveTunnel)
        → Sound env k (verify_active env cfg policy name p l t)
    unfolding verify_active
    Sound-verify_active p l t =
        search (supervisor_rules, Sound-verify, Sound-verify_failed, Sound-report_ready) depth 8

    Sound-health_round :
        (p : Profile) (l : Loop) (t : ActiveTunnel)
        → Sound env k (health_round env cfg policy name p l t)
    unfolding health_round
    Sound-health_round p l t = search (supervisor_rules, Sound-verify_active) depth 8

    Sound-acquired_round :
        (p : Profile) (l : Loop) (a : Acquired)
        → Sound env k (acquired_round env cfg policy name p l a)
    unfolding acquired_round
    Sound-acquired_round p l (got t) = search (supervisor_rules, Sound-health_round) depth 8
    Sound-acquired_round p l (conflict _) = search supervisor_rules
    Sound-acquired_round p l (refused code) = search (supervisor_rules, Sound-retry_later)

    Sound-acquired_handler : (e : Exn) → Sound env k (acquired_handler e)
    unfolding acquired_handler
    Sound-acquired_handler (port_conflict _ _) = search trace_rules
    Sound-acquired_handler (tunnel _) = search trace_rules
    Sound-acquired_handler e = search trace_rules

    Sound-connect_round :
        (p : Profile) (l : Loop) (t : Option ActiveTunnel)
        → Sound env k (connect_round env cfg policy name p l t)
    unfolding connect_round
    Sound-connect_round p l (some t) = Sound-health_round p l t
    Sound-connect_round p l none =
        search (supervisor_rules, Sound-acquire, Sound-acquired_handler, Sound-acquired_round) depth
          10

    Sound-local_failed :
        (p : Profile) (l : Loop) (c : CheckResult) (t : Option ActiveTunnel)
        → Sound env k (local_failed env cfg policy name p l c t)
    unfolding local_failed
    Sound-local_failed p l c t =
        search (supervisor_rules, Sound-retry_later, Sound-cleanup_active, Sound-give_up) depth 9

    Sound-proxy_round : (p : Profile) (l : Loop) → Sound env k (proxy_round env cfg policy name p l)
    unfolding proxy_round
    Sound-proxy_round p l =
        search (supervisor_rules, Sound-inspect, Sound-local_failed, Sound-connect_round) depth 10

    Sound-exited_round :
        (p : Profile) (l : Loop) → Sound env k (exited_round env cfg policy name p l)
    unfolding exited_round
    Sound-exited_round p l = search (supervisor_rules, Sound-proxy_round) depth 12

    pub Sound-round : (p : Profile) (l : Loop) → Sound env k (round env cfg policy name p l)
    unfolding round
    Sound-round p l =
        search (supervisor_rules, Sound-poll, Sound-exited_round, Sound-proxy_round) depth 10

    Sound-after_stop :
        (c : Cleanup) (t : Option ActiveTunnel) → Sound env k (after_stop env cfg policy name c t)
    unfolding after_stop
    Sound-after_stop (kept _) t = search supervisor_rules
    Sound-after_stop cleaned t = search supervisor_rules

    Sound-stop_run : Sound env k (stop_run env cfg policy name)
    unfolding stop_run
    Sound-stop_run = search (supervisor_rules, Sound-cleanup_active, Sound-after_stop) depth 10

    Sound-after_round :
        (f : Loop → Exec (Option SupervisorSnapshot)) (step : Step)
        → ((l : Loop) → Sound env k (f l))
        → Sound env k (after_round env cfg policy name f step)
    unfolding after_round
    Sound-after_round f (again l) h = h l
    Sound-after_round f leave h = search (supervisor_rules, Sound-stop_run)
    Sound-after_round f (done n) h = search trace_rules

    Sound-loop :
        (fuel : ℕ) (p : Profile) (l : Loop) → Sound env k (loop env cfg policy name fuel p l)
    unfolding loop
    Sound-loop zero p l = Keeps-pure none
    Sound-loop (suc fuel) p l = Keeps-bind _ _ Sound-is_stopping λ b.
        Keeps-if b _ _ (Keeps-bind _ _ Sound-stop_run (λ n. Keeps-pure (some n)))
          (Keeps-bind _ _ (Sound-round p l) (λ step. Sound-after_round _ step (Sound-loop fuel p)))

    Sound-report_crash :
        (c : Cleanup) (t : Option ActiveTunnel) → Sound env k (report_crash env cfg policy name c t)
    unfolding report_crash
    Sound-report_crash (kept _) t = search supervisor_rules
    Sound-report_crash cleaned t = search supervisor_rules

    Sound-crashed : Sound env k (crashed env cfg policy name)
    unfolding crashed
    Sound-crashed = search (supervisor_rules, Sound-cleanup_active, Sound-report_crash) depth 8

    Sound-run_locked :
        (fuel : ℕ) (p : Profile) → Sound env k (run_locked env cfg policy name fuel p)
    unfolding run_locked
    Sound-run_locked fuel p = search (supervisor_rules, Sound-loop, Sound-crashed) depth 8

    Sound-give : (r : Report) → Sound env k (give env cfg policy name r)
    unfolding give
    Sound-give r = search supervisor_rules

    Sound-missing_profile : (e : Exn) → Sound env k (missing_profile env cfg policy name e)
    unfolding missing_profile
    Sound-missing_profile profile_not_found = search trace_rules
    Sound-missing_profile e = search trace_rules

    Sound-run_handler : (e : Exn) → Sound env k (run_handler env cfg policy name e)
    unfolding run_handler
    Sound-run_handler profile_lock = search (trace_rules, Sound-give)
    Sound-run_handler e = search (trace_rules, Sound-give)

    pub Sound-found :
        Sound env k (
          catch (do p ← load_profile env name; pure (some p)) (missing_profile env cfg policy name))
    Sound-found = search (supervisor_rules, Sound-missing_profile) depth 8

    Sound-run_profile : (fuel : ℕ) → Sound env k (run_profile env cfg policy name fuel)
    unfolding run_profile
    Sound-run_profile fuel =
        search (supervisor_rules, Sound-missing_profile, Sound-run_locked, Sound-give) depth 10

    -- A supervisor keeps the invariant, however long it runs and however it ends: it signals a
    -- process, or stops its child, only right after its identity was found to match the recorded one, and it leaves only
    -- valid files in the state directory, each under its own name.
    pub Sound-run : (fuel : ℕ) → Sound env k (run env cfg policy name fuel)
    unfolding run
    Sound-run fuel = search (supervisor_rules, Sound-run_profile, Sound-run_handler) depth 8
