-- ===== src/Services/LocalProxy/Choice.antt =====
-- The pure parts of `discover` of app/services/local_proxy.py: `validate_discovery_inputs` and the
-- choice among the candidates. Ports are natural numbers, so the `isinstance` tests hold by
-- typing. Of the candidates that an error names, its details keep the host and the port.
use remote_ai_bridge.Prelude.{
  ℕ, String, Bool, true, false, not, ◌&&◌, ◌||◌, Option, none, some, List, [], ◌∷◌, map, ◌==◌,
  nat_eq, any, all, length, if◌then◌else◌,
}
use remote_ai_bridge.Domain.Errors.{
  Exn, Detail, text, number, proxies, Result, ok, raised, profile_validation, rab_error, refuse,
  ◌>>◌,
}
use remote_ai_bridge.Domain.Health.{CheckResult, passed}
use remote_ai_bridge.Domain.Profile.{is_port, loopback, validate_endpoint_probe_url}
use remote_ai_bridge.Domain.Python.{Python}

pub record LocalProxyCandidate : Type 0 where
  pub host : String
  pub port : ℕ
  pub tcp_reachable : Bool
  pub connect_reachable : Bool
  pub endpoint_reachable : Bool
  pub error_code : Option String

abbrev pub is_healthy : LocalProxyCandidate → Bool
is_healthy c = c.tcp_reachable && c.connect_reachable && c.endpoint_reachable

pub record LocalProxyDiscovery : Type 0 where
  pub selected : LocalProxyCandidate
  pub candidates : List LocalProxyCandidate

unfoldable pub healthy : List LocalProxyCandidate → List LocalProxyCandidate
healthy [] = []
healthy (c ∷ cs) = let rest = healthy cs in if is_healthy c then c ∷ rest else rest

unfoldable pub without : ℕ → List ℕ → List ℕ
without port [] = []
without port (q ∷ qs) = let rest = without port qs in if nat_eq q port then rest else q ∷ rest

-- `tuple(dict.fromkeys(ports))`: each port once, in the order of the first ones
unfoldable pub fromkeys : List ℕ → List ℕ
unfolding without
fromkeys [] = []
fromkeys (q ∷ qs) = q ∷ without q (fromkeys qs)

abbrev invalid_inputs : Exn
invalid_inputs = rab_error "LOCAL_PROXY_DISCOVERY_INVALID" false []

abbrev translate_url : Result (Unit {0}) → Result (Unit {0})
translate_url (raised (profile_validation _)) = raised invalid_inputs
translate_url r = r

unfoldable pub validate_discovery_inputs : Python → String → String → List ℕ → Result (List ℕ)
unfolding fromkeys
validate_discovery_inputs py url host ports = do
  refuse (not (host == loopback)) invalid_inputs
  translate_url (validate_endpoint_probe_url py url)
  refuse (nat_eq (length ports) 0 || not (all is_port ports)) invalid_inputs
  ok (fromkeys ports)

-- the test of `selected_port`
unfoldable pub validate_selected : String → List ℕ → Option ℕ → Result (Unit {0})
validate_selected host ports none = ok tt
validate_selected host ports (some q) =
    refuse (not (is_port q) || not (any (λ port. nat_eq port q) ports))
      (rab_error "LOCAL_PROXY_SELECTION_INVALID" false (("host", text host) ∷ []))

abbrev pub scan_ports : List ℕ → Option ℕ → List ℕ
scan_ports ports none = ports
scan_ports ports (some q) = q ∷ []

unfoldable pub find_port : ℕ → List LocalProxyCandidate → Option LocalProxyCandidate
find_port q [] = none
find_port q (c ∷ cs) = let rest = find_port q cs in if nat_eq c.port q then some c else rest

abbrev addresses : List LocalProxyCandidate → Detail
addresses cs = proxies (map (λ (c : LocalProxyCandidate). (c.host, c.port)) cs)

unfoldable pub only_one :
    List LocalProxyCandidate → List LocalProxyCandidate → Result LocalProxyDiscovery
only_one candidates [] =
    raised (rab_error "LOCAL_PROXY_NOT_FOUND" true (("candidates", addresses candidates) ∷ []))
only_one candidates (c ∷ []) = ok (record { selected = c; candidates = candidates })
only_one candidates valid =
    raised (rab_error "LOCAL_PROXY_SELECTION_REQUIRED" true (("candidates", addresses valid) ∷ []))

unfoldable pub explicit :
    String → ℕ → List LocalProxyCandidate → Option LocalProxyCandidate → Result LocalProxyDiscovery
explicit host q candidates none =
    raised (
      rab_error "LOCAL_PROXY_SELECTION_INVALID" true
        (("host", text host) ∷ ("port", number q) ∷ []))
explicit host q candidates (some c) = ok (record { selected = c; candidates = candidates })

-- the choice among the candidates that were inspected
unfoldable pub choose : String → Option ℕ → List LocalProxyCandidate → Result LocalProxyDiscovery
unfolding healthy find_port
choose host none candidates = only_one candidates (healthy candidates)
choose host (some q) candidates = explicit host q candidates (find_port q (healthy candidates))

abbrev pub when_failed : CheckResult → Option String
when_failed c = if passed c then none else c.error_code

abbrev pub candidate : String → ℕ → Bool → Bool → Bool → Option String → LocalProxyCandidate
candidate host port tcp connect endpoint code = record {
  host = host;
  port = port;
  tcp_reachable = tcp;
  connect_reachable = connect;
  endpoint_reachable = endpoint;
  error_code = code;
}
