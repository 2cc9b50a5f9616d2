-- ===== src/Services/Supervisor.antt =====
-- app/services/tunnel_supervisor.py: the state machine that keeps one profile's tunnel alive. The
-- variables `attempt` and `backoff_index` of the loop are a `Loop`; `active` is in the system, since
-- the handler of exceptions reads it. A round of the loop ends with one of the outcomes of `Step`.
-- The loop itself takes fuel, one unit a round; its end is up to the stop event.
pub mod Publish
pub mod Backoff
pub mod Ending
pub mod Runs
pub mod Termination
pub use Publish.{Policy, Report, backoff, publish}
use Publish.{report, set_active}
use remote_ai_bridge.Prelude.{
  ℕ, zero, suc, ◌+◌, String, Bool, true, false, not, Option, none, some, or_else, is_some,
  if◌then◌else◌,
}
use remote_ai_bridge.Domain.Errors.{Exn, profile_not_found, profile_lock, port_conflict, tunnel}
use remote_ai_bridge.Domain.Health.{CheckResult, passed}
use remote_ai_bridge.Domain.Profile.{Profile}
use remote_ai_bridge.Domain.Runtime.{RuntimeState, ActiveTunnel}
use remote_ai_bridge.Domain.Snapshot.{
  SupervisorState, SupervisorSnapshot, starting, connecting, ready, degraded, stopping, stopped,
  failed,
}
use remote_ai_bridge.Exec.{
  Env, Exec, waited, asked, pure, raise, ask, gets, given, catch, ◌>>=◌, ◌>>◌,
}
use remote_ai_bridge.Infrastructure.Inspector.{matches}
use remote_ai_bridge.Infrastructure.Store.{
  load_profile, load_runtime, clear_runtime, supervisor_lock,
}
use remote_ai_bridge.Services.Options.{Config}
use remote_ai_bridge.Services.LocalProxy.{LocalProxyReport, inspect}
use remote_ai_bridge.Services.Tunnel.{Verified, acquire, verify, disconnect, poll, stop}

pub record Loop : Type 0 where
  pub attempt : ℕ
  pub backoff_index : ℕ

pub data Step : Type 0 where
  again : Loop → Step
  leave : Step
  done : SupervisorSnapshot → Step

-- how `acquire` ended, of the exceptions that the loop catches
pub data Acquired : Type 0 where
  got : ActiveTunnel → Acquired
  conflict : Option ℕ → Acquired
  refused : String → Acquired

-- the answer of `_cleanup_active`: the tunnel is gone, or an error code
pub data Cleanup : Type 0 where
  cleaned : Cleanup
  kept : String → Cleanup

abbrev pub next : Loop → Loop
next l = record { attempt = l.attempt + 1; backoff_index = l.backoff_index + 1 }

-- `_local_failure`
unfoldable pub local_failure : LocalProxyReport → Option CheckResult
local_failure r =
    if not (passed r.tcp)
    then some r.tcp
    else if not (passed r.handshake)
    then some r.handshake
    else if not (passed r.endpoint)
    then some r.endpoint
    else none

-- the check that failed, of the two that `verify` returns
unfoldable pub failed_check : Verified → Option CheckResult
failed_check v =
    if not (passed v.listener)
    then some v.listener
    else if not (passed v.endpoint)
    then some v.endpoint
    else none

unfoldable pub acquired_handler : Exn → Exec Acquired
acquired_handler (port_conflict port suggestion) = pure (conflict suggestion)
acquired_handler (tunnel code) = pure (refused code)
acquired_handler e = raise e

abbrev cleanup_code : Cleanup → String → String
cleanup_code cleaned code = code
cleanup_code (kept code) _ = code

module _ (env : Env) (cfg : Config) (policy : Policy) (name : String) where
  unfoldable pub say : SupervisorState → Report → Exec SupervisorSnapshot
  say state r = publish env name state r

  unfoldable pub finish : SupervisorState → Report → Exec Step
  finish state r = do snapshot ← say state r; pure (done snapshot)

  -- `stop_event.is_set()`
  unfoldable pub is_stopping : Exec Bool
  is_stopping = ask env.stop_set (λ _. asked)

  -- `stop_event.wait(delay)`: the event is set when the wait ends
  unfoldable pub wait_stop : ℕ → Exec Bool
  wait_stop delay = do ask (λ t. tt) (λ _. waited delay); ask env.stop_set (λ _. asked)

  -- publish DEGRADED, wait for the backoff, and go on unless the stop event was set
  unfoldable pub retry_later : Loop → String → Option ActiveTunnel → Exec Step
  retry_later l code shown = do
    let delay = backoff policy l.backoff_index
    _ ← say degraded (record report {
      attempt = l.attempt + 1;
      error_code = some code;
      retry_in_seconds = some delay;
      active = shown;
    })
    stop_now ← wait_stop delay
    pure (if stop_now then leave else again (next l))

  unfoldable pub cleanup_owned : ActiveTunnel → Bool → Exec Cleanup
  cleanup_owned t false = pure (kept "PROCESS_IDENTITY_MISMATCH")
  cleanup_owned t true = do
    gone ← stop env t
    if gone then (do clear_runtime env name; pure cleaned) else pure (kept "PROCESS_STOP_TIMEOUT")

  unfoldable pub cleanup_recorded : Option RuntimeState → Exec Cleanup
  cleanup_recorded none = pure cleaned
  cleanup_recorded (some state) = do
    owned ← matches env state
    if not owned then pure (kept "PROCESS_IDENTITY_MISMATCH") else do
      result ← disconnect env name
      pure (
          if passed result then cleaned else kept (or_else result.error_code "PROCESS_STOP_FAILED"))

  -- `_cleanup_active`
  unfoldable pub cleanup_active : Option ActiveTunnel → Exec Cleanup
  cleanup_active (some t) = do owned ← matches env t.state; cleanup_owned t owned
  cleanup_active none = do found ← load_runtime env name; cleanup_recorded found

  -- A failure that is not retried: clean up, and report either failure. The report of a cleanup
  -- that failed has no attempt (`_cleanup_failure`).
  unfoldable pub give_up : Loop → String → Option ActiveTunnel → Cleanup → Exec Step
  give_up l code shown (kept cleanup) =
      finish failed (record report { error_code = some cleanup; active = shown })
  give_up l code shown cleaned = do
    set_active none
    finish failed (record report { attempt = l.attempt; error_code = some code })

  unfoldable pub verify_failed : Profile → Loop → ActiveTunnel → CheckResult → Exec Step
  verify_failed p l t c = do
    gone ← poll env t
    (if gone then set_active none else pure tt)
    shown ← gets (λ s. s.active)
    let code = or_else c.error_code "TUNNEL_UNHEALTHY"
    if p.auto_reconnect
        then retry_later l code shown
        else do cleanup ← cleanup_active shown; give_up l code shown cleanup

  unfoldable pub report_ready : Profile → Exec Step
  report_ready p = do
    shown ← gets (λ s. s.active)
    _ ← say ready (record report { active = shown; process_alive = some true })
    stop_now ← wait_stop policy.health_interval_seconds
    pure (if stop_now then leave else again (record { attempt = 0; backoff_index = 0 }))

  unfoldable pub verify_active : Profile → Loop → ActiveTunnel → Exec Step
  verify_active p l t = do
    v ← verify env cfg p t
    given (failed_check v) (report_ready p) λ c. verify_failed p l t c

  -- after the tunnel is there: `if stop_event.is_set(): break`, then the verification
  unfoldable pub health_round : Profile → Loop → ActiveTunnel → Exec Step
  health_round p l t = do
    stop_now ← is_stopping
    if stop_now then pure leave else verify_active p l t

  unfoldable pub acquired_round : Profile → Loop → Acquired → Exec Step
  acquired_round p l (got t) = do set_active (some t); health_round p l t
  acquired_round p l (conflict suggestion) = finish failed (record report {
    attempt = l.attempt;
    error_code = some "REMOTE_PORT_CONFLICT";
    suggested_port = suggestion;
  })
  acquired_round p l (refused code) =
      if p.auto_reconnect
      then retry_later l code none
      else finish failed (record report { attempt = l.attempt; error_code = some code })

  unfoldable pub connect_round : Profile → Loop → Option ActiveTunnel → Exec Step
  connect_round p l (some t) = health_round p l t
  connect_round p l none = do
    _ ← say connecting (record report { attempt = l.attempt })
    outcome ← catch (do t ← acquire env cfg p; pure (got t)) acquired_handler
    acquired_round p l outcome

  -- the local proxy failed: `_local_failure` returned a check
  unfoldable pub local_failed : Profile → Loop → CheckResult → Option ActiveTunnel → Exec Step
  local_failed p l c shown =
      let code = or_else c.error_code "LOCAL_PROXY_UNHEALTHY" in
      if p.auto_reconnect
      then retry_later l code shown
      else given shown
          (finish failed (record report { attempt = l.attempt; error_code = some code }))
          λ t. do cleanup ← cleanup_active (some t); give_up l code (some t) cleanup

  unfoldable pub proxy_round : Profile → Loop → Exec Step
  proxy_round p l = do
    checked ← inspect env p
    shown ← gets (λ s. s.active)
    given (local_failure checked)
        (do stop_now ← is_stopping; if stop_now then pure leave else connect_round p l shown)
        λ c. local_failed p l c shown

  -- the owned process was found to have exited
  unfoldable pub exited_round : Profile → Loop → Exec Step
  exited_round p l = do
    set_active none
    let delay = backoff policy l.backoff_index
    _ ← say degraded (record report {
      attempt = l.attempt + 1;
      error_code = some "TUNNEL_EXITED";
      retry_in_seconds = some delay;
    })
    if not p.auto_reconnect
        then finish failed
            (record report { attempt = l.attempt + 1; error_code = some "TUNNEL_EXITED" })
        else do stop_now ← wait_stop delay; if stop_now then pure leave else proxy_round p (next l)

  -- the body of `while not stop_event.is_set()`
  unfoldable pub round : Profile → Loop → Exec Step
  round p l = do
    shown ← gets (λ s. s.active)
    given shown (proxy_round p l)
        λ t. do gone ← poll env t; if gone then exited_round p l else proxy_round p l

  unfoldable pub after_stop : Cleanup → Option ActiveTunnel → Exec SupervisorSnapshot
  after_stop (kept code) shown =
      say failed (record report { error_code = some code; active = shown })
  after_stop cleaned shown = say stopped report

  -- `_stop`
  unfoldable pub stop_run : Exec SupervisorSnapshot
  stop_run = do
    shown ← gets (λ s. s.active)
    _ ← say stopping (record report { active = shown })
    cleanup ← cleanup_active shown
    after_stop cleanup shown

  -- a round's outcome: go on, leave the loop, or return
  unfoldable pub after_round :
      (Loop → Exec (Option SupervisorSnapshot)) → Step → Exec (Option SupervisorSnapshot)
  after_round continue (again l) = continue l
  after_round continue leave = do snapshot ← stop_run; pure (some snapshot)
  after_round continue (done snapshot) = pure (some snapshot)

  -- the `while` loop and what follows it; `none` means that the fuel ran out
  unfoldable pub loop : ℕ → Profile → Loop → Exec (Option SupervisorSnapshot)
  loop zero p l = pure none
  loop (suc fuel) p l = do
    stop_now ← is_stopping
    if stop_now
        then (do snapshot ← stop_run; pure (some snapshot))
        else do step ← round p l; after_round (loop fuel p) step

  unfoldable pub report_crash : Cleanup → Option ActiveTunnel → Exec (Option SupervisorSnapshot)
  report_crash (kept code) shown = do
    snapshot ← say failed (record report { error_code = some code; active = shown })
    pure (some snapshot)
  report_crash cleaned shown = do
    snapshot ← say failed (record report { error_code = some "SUPERVISOR_FAILED" })
    pure (some snapshot)

  -- `except Exception` of `_run_locked`; with no active tunnel there is nothing to clean up
  unfoldable pub crashed : Exec (Option SupervisorSnapshot)
  crashed = do
    shown ← gets (λ s. s.active)
    cleanup ← given shown (pure cleaned) (λ t. cleanup_active (some t))
    report_crash cleanup shown

  -- `_run_locked`
  unfoldable pub run_locked : ℕ → Profile → Exec (Option SupervisorSnapshot)
  run_locked fuel p = do
    set_active none
    catch (loop fuel p (record { attempt = 0; backoff_index = 0 })) (λ _. crashed)

  unfoldable pub give : Report → Exec (Option SupervisorSnapshot)
  give r = do snapshot ← say failed r; pure (some snapshot)

  unfoldable pub missing_profile : Exn → Exec (Option Profile)
  missing_profile profile_not_found = pure none
  missing_profile e = raise e

  unfoldable pub run_profile : ℕ → Exec (Option SupervisorSnapshot)
  run_profile fuel = do
    found ← catch (do p ← load_profile env name; pure (some p)) missing_profile
    given found (give (record report { error_code = some "PROFILE_NOT_FOUND" }))
        λ p. run_locked fuel p

  -- the `except` clauses of `run`, and `fail_unexpected`
  unfoldable pub run_handler : Exn → Exec (Option SupervisorSnapshot)
  run_handler profile_lock = give (record report { error_code = some "PROFILE_BUSY" })
  run_handler e = give (record report { error_code = some "SUPERVISOR_FAILED" })

  unfoldable pub run : ℕ → Exec (Option SupervisorSnapshot)
  run fuel = do
    _ ← say starting report
    catch (supervisor_lock env name (run_profile fuel)) run_handler
