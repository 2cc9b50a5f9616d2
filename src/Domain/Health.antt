-- ===== src/Domain/Health.antt =====
-- app/domain/health.py: the result of one check, and the health that five of them add up to.
use remote_ai_bridge.Prelude.{
  ℕ, String, ◌≡◌, ◌↔◌, Bool, true, false, Option, none, [], ◌∷◌, arith, all, if◌then◌else◌,
}

pub data CheckStatus : Type 0 where
  pass fail skip : CheckStatus

pub data BridgeHealth : Type 0 where
  disconnected degraded ready : BridgeHealth

pub record CheckResult : Type 0 where
  pub name : String
  pub status : CheckStatus
  pub detail : String
  pub error_code : Option String
  pub http_status : Option ℕ

abbrev pub is_pass : CheckStatus → Bool
is_pass pass = true
is_pass _ = false

abbrev pub passed : CheckResult → Bool
passed c = is_pass c.status

-- `CheckResult(name, status, detail, error_code)`
abbrev pub check : String → CheckStatus → String → Option String → CheckResult
check n s d e = record { name = n; status = s; detail = d; error_code = e; http_status = none }

pub record HealthReport : Type 0 where
  pub local_tcp : CheckResult
  pub proxy_handshake : CheckResult
  pub tunnel_process : CheckResult
  pub remote_listener : CheckResult
  pub endpoint_probe : CheckResult

unfoldable pub health : HealthReport → BridgeHealth
health r =
    let checks =
      r.local_tcp ∷ r.proxy_handshake ∷ r.tunnel_process ∷ r.remote_listener ∷ r.endpoint_probe
      ∷ [] in
    if all passed checks then ready else if passed r.tunnel_process then degraded else disconnected

-- The bridge is ready exactly when each of the five checks passed, and disconnected exactly when
-- the tunnel process check did not pass.
pub health_exact :
    (r : HealthReport)
    → ((health r ≡ ready) ↔ (
        (passed r.local_tcp ≡ true)
        × (passed r.proxy_handshake ≡ true)
        × (passed r.tunnel_process ≡ true)
        × (passed r.remote_listener ≡ true)
        × (passed r.endpoint_probe ≡ true)))
      × ((health r ≡ disconnected) ↔ (passed r.tunnel_process ≡ false))
unfolding health
health_exact r = ((λ h. ground arith, λ h. ground arith), (λ h. ground arith, λ h. ground arith))
