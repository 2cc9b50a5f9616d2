-- ===== src/Services/LocalProxy/Discovery.antt =====
-- `discover` and `_inspect_candidate` of app/services/local_proxy.py: the search for a healthy local
-- proxy.
pub mod Laws
use remote_ai_bridge.Prelude.{
  ℕ, String, Bool, true, false, not, Option, List, [], ◌∷◌, if◌then◌else◌,
}
use remote_ai_bridge.Domain.Health.{passed}
use remote_ai_bridge.Exec.{Env, Exec, pure, lift, ◌>>=◌}
use remote_ai_bridge.Services.LocalProxy.Choice.{
  LocalProxyCandidate, LocalProxyDiscovery, candidate, when_failed, scan_ports,
  validate_discovery_inputs, validate_selected, choose,
}
use remote_ai_bridge.Services.LocalProxy.{
  endpoint_target, check_tcp, check_http_proxy, check_proxied,
}

module _ (env : Env) where
  -- `_inspect_candidate`
  unfoldable pub inspect_candidate : String → ℕ → String → Exec LocalProxyCandidate
  inspect_candidate host port url = do
    tcp ← check_tcp env host port
    if not (passed tcp) then pure (candidate host port false false false tcp.error_code) else do
      target ← lift (endpoint_target env.python url)
      shaken ← check_http_proxy env host port target
      if not (passed shaken)
          then pure (candidate host port true false false shaken.error_code)
          else do
            fetched ← check_proxied env host port url
            pure (candidate host port true true (passed fetched) (when_failed fetched))

  unfoldable pub scan : String → String → List ℕ → Exec (List LocalProxyCandidate)
  scan host url [] = pure []
  scan host url (port ∷ ports) = do
    c ← inspect_candidate host port url
    cs ← scan host url ports
    pure (c ∷ cs)

  -- LocalProxyService.discover
  unfoldable pub discover : String → String → List ℕ → Option ℕ → Exec LocalProxyDiscovery
  discover url host candidate_ports selected_port = do
    ports ← lift (validate_discovery_inputs env.python url host candidate_ports)
    _ ← lift (validate_selected host ports selected_port)
    candidates ← scan host url (scan_ports ports selected_port)
    lift (choose host selected_port candidates)
