-- ===== src/Services/Doctor.antt =====
-- app/services/doctor.py and app/services/ssh_config.py: the checks of a profile, one after the
-- other, and the one of the SSH configuration that `ssh -G` prints.
use remote_ai_bridge.Prelude.{
  String, ◌≡◌, refl, Bool, true, false, ◌&&◌, none, some, [], ◌∷◌, ◌++◌, arith, or_else,
  if◌then◌else◌,
}
use remote_ai_bridge.Text.{format, strip, clip, or_text, contains, lower}
use remote_ai_bridge.Domain.Health.{CheckResult, check, pass, fail, skip, passed}
use remote_ai_bridge.Domain.Profile.{Profile}
use remote_ai_bridge.Exec.{Env, Sys, Exec, pure, lift, ◌>>=◌}
use remote_ai_bridge.Exec.Yields.{
  Anything, Holds, Yields, Yields-pure, Yields-bind, Yields-after, Yields-if_cases,
}
use remote_ai_bridge.Infrastructure.Process.{ProcessResult, succeeded, run}
use remote_ai_bridge.Services.Options.{Config, managed_ssh_options}
use remote_ai_bridge.Services.LocalProxy.{LocalProxyReport, inspect}
use remote_ai_bridge.Services.Probe.{check_listener, check_endpoint}
use remote_ai_bridge.Services.Tunnel.{process_check}

-- `result.error_code or "SSH_CONFIG_INVALID"`
unfoldable pub config_result : String → ProcessResult → CheckResult
config_result target result =
    if succeeded result && contains "hostname " (lower result.stdout)
    then check "SSH configuration" pass (format ("SSH target '" ∷ target ∷ "' resolves" ∷ [])) none
    else check "SSH configuration" fail
        (clip 300 (or_text (strip result.stderr) (or_text (strip result.stdout) "ssh -G failed")))
        (some (or_else result.error_code "SSH_CONFIG_INVALID"))

pub record DoctorReport : Type 0 where
  pub local : LocalProxyReport
  pub ssh : CheckResult
  pub tunnel : CheckResult
  pub remote_listener : CheckResult
  pub remote_endpoint : CheckResult

abbrev skipped : String → String → CheckResult
skipped name why = check name skip why none

module _ (env : Env) (cfg : Config) where
  -- SSHConfigService.check of a profile
  unfoldable pub check_config : Profile → Exec CheckResult
  check_config p = do
    options ← lift (managed_ssh_options env.python p cfg.state_root)
    result ← run env (cfg.ssh_executable ∷ "-G" ∷ options ++ (p.ssh_target ∷ []))
    pure (config_result p.ssh_target result)

  -- the two remote checks
  unfoldable pub check_remote : Profile → Bool → Exec (CheckResult × CheckResult)
  check_remote p false = pure (
    skipped "Remote listener" "active owned tunnel unavailable",
    skipped "Remote endpoint probe" "active owned tunnel unavailable",
  )
  check_remote p true = do
    listener ← check_listener env cfg p p.remote_port
    if passed listener
        then (do endpoint ← check_endpoint env cfg p; pure (listener, endpoint))
        else pure (listener, skipped "Remote endpoint probe" "remote listener unavailable")

  -- DoctorService.run
  unfoldable pub diagnose : Profile → Exec DoctorReport
  diagnose p = do
    local ← inspect env p
    ssh ← check_config p
    tunnel ← process_check env p.name
    remote ← check_remote p (passed tunnel && passed ssh)
    pure (record {
      local = local;
      ssh = ssh;
      tunnel = tunnel;
      remote_listener = remote.0;
      remote_endpoint = remote.1;
    })

  check_remote-Yields :
      (p : Profile) (up : Bool)
      → Yields Anything
          (λ r s. passed r.1 ≡ true → (up ≡ true) × (passed r.0 ≡ true))
          (check_remote p up)
  unfolding check_remote
  check_remote-Yields p false = Yields-pure _ (λ s _ h. ground (arith, h))
  check_remote-Yields p true = Yields-after _ _ λ listener.
      Yields-if_cases (passed listener) _ _
        (λ e. Yields-after _ _ λ endpoint. Yields-pure (listener, endpoint) (λ s _ h. (refl, e)))
        (λ _. Yields-pure _ (λ s _ h. ground (arith, h)))

  diagnose-Yields :
      (p : Profile)
      → Yields Anything
          (λ r s.
            passed r.remote_endpoint ≡ true
            → (passed r.ssh ≡ true) × (passed r.tunnel ≡ true) × (passed r.remote_listener ≡ true))
          (diagnose p)
  unfolding diagnose
  diagnose-Yields p = Yields-after _ _ λ local. Yields-after _ _ λ ssh. Yields-after _ _ λ tunnel.
      Yields-bind _ _ (check_remote-Yields p (passed tunnel && passed ssh)) λ remote.
        Yields-pure _ λ s h e. (
          (both (passed tunnel) (passed ssh) (h e).0).1,
          (both (passed tunnel) (passed ssh) (h e).0).0,
          (h e).1,
        )
    where
      both : (a b : Bool) → (a && b) ≡ true → (a ≡ true) × (b ≡ true)
      both a b h = ground (arith, h)

-- A report of the doctor whose remote endpoint passed has the SSH configuration, the tunnel process
-- and the remote listener passed too.
pub diagnose-passed :
    (env : Env) (cfg : Config) (p : Profile) (s : Sys)
    → Holds
        (λ r _.
          passed r.remote_endpoint ≡ true
          → (passed r.ssh ≡ true) × (passed r.tunnel ≡ true) × (passed r.remote_listener ≡ true))
        (diagnose env cfg p s)
diagnose-passed env cfg p s = (diagnose-Yields env cfg p).at s tt
