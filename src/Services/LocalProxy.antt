-- ===== src/Services/LocalProxy.antt =====
-- app/services/local_proxy.py: the checks of the local HTTP proxy, and the discovery of one.
pub mod Choice
pub mod Discovery
use remote_ai_bridge.Prelude.{
  ℕ, String, Bool, false, not, Option, none, some, List, [], ◌∷◌, ◌==◌, nat_eq, ltb, if◌then◌else◌,
}
use remote_ai_bridge.Text.{format, show, clip, words, contains, first_line, every}
use remote_ai_bridge.Domain.Errors.{Result, ok, raised, rab_error, value_error}
use remote_ai_bridge.Domain.Health.{CheckResult, pass, fail, skip, check, passed}
use remote_ai_bridge.Domain.Python.{Python}
use remote_ai_bridge.Domain.Profile.{Profile}
use remote_ai_bridge.Exec.{
  Env, Exec, Connected, accepted, declined, timed_out, unreachable, Exchanged, answered, silent,
  broken, Fetched, status, url_timeout, url_failed, io_failed, asked, pure, lift, ask, ◌>>=◌, ◌>>◌,
}
use remote_ai_bridge.Services.Probe.{is_healthy_status}
use text.Mathlib.Text.{starts_with}

pub record LocalProxyReport : Type 0 where
  pub tcp : CheckResult
  pub handshake : CheckResult
  pub endpoint : CheckResult

unfoldable pub tcp_result : Connected → CheckResult
tcp_result accepted = check "TCP reachable" pass "accepted a connection" none
tcp_result declined = check "TCP reachable" fail "connection refused" (some "LOCAL_PROXY_REFUSED")
tcp_result timed_out =
    check "TCP reachable" fail "connection timed out" (some "LOCAL_PROXY_TIMEOUT")
tcp_result unreachable = check "TCP reachable" fail "" (some "LOCAL_PROXY_UNREACHABLE")

-- the second word of the status line is "200"
abbrev is_established : List String → Bool
is_established (_ ∷ code ∷ _) = code == "200"
is_established _ = false

unfoldable pub handshake_result : Exchanged → CheckResult
unfolding first_line words clip
handshake_result silent =
    check "HTTP proxy handshake" fail "proxy did not answer in time"
      (some "PROXY_HANDSHAKE_TIMEOUT")
handshake_result broken = check "HTTP proxy handshake" fail "" (some "PROXY_HANDSHAKE_IO_ERROR")
handshake_result (answered received) =
    let line = first_line received in
    let safe_line = clip 160 line in
    if not (starts_with line "HTTP/")
    then check "HTTP proxy handshake" fail "listener did not return an HTTP response"
        (some "NOT_HTTP_PROXY")
    else if is_established (words safe_line)
    then check "HTTP proxy handshake" pass safe_line none
    else check "HTTP proxy handshake" fail
        (format ("proxy CONNECT was not established: " ∷ safe_line ∷ []))
        (some "PROXY_CONNECT_REJECTED")

unfoldable pub fetch_result : Fetched → CheckResult
fetch_result url_timeout = check "AI endpoint probe" fail "" (some "ENDPOINT_TIMEOUT")
fetch_result url_failed = check "AI endpoint probe" fail "" (some "ENDPOINT_UNREACHABLE")
fetch_result io_failed = check "AI endpoint probe" fail "" (some "ENDPOINT_UNREACHABLE")
fetch_result (status n) =
    if is_healthy_status n
    then record {
      name = "AI endpoint probe";
      status = pass;
      detail = format ("endpoint returned HTTP " ∷ show n ∷ "; network path is healthy" ∷ []);
      error_code = none;
      http_status = some n;
    }
    else record {
      name = "AI endpoint probe";
      status = fail;
      detail = format ("unexpected endpoint response HTTP " ∷ show n ∷ []);
      error_code = some "ENDPOINT_UNEXPECTED_STATUS";
      http_status = some n;
    }

-- `parsed.port or 443`
abbrev port_or_443 : Option ℕ → ℕ
port_or_443 none = 443
port_or_443 (some n) = if nat_eq n 0 then 443 else n

unfoldable pub endpoint_target : Python → String → Result (String × ℕ)
endpoint_target py url = elim (py.urlsplit url) [
  | none ↦ raised (rab_error "LOCAL_PROXY_DISCOVERY_INVALID" false [])
  | some parsed ↦
      if parsed.hostname == ""
      then raised (rab_error "LOCAL_PROXY_DISCOVERY_INVALID" false [])
      else ok (parsed.hostname, port_or_443 parsed.port)
]

abbrev is_ascii : ℕ → Bool
is_ascii c = ltb c 128

-- the CONNECT request; an IPv6 address stands in brackets
unfoldable pub connect_request : String → ℕ → String
unfolding contains
connect_request host port =
    let named = if contains ":" host then format ("[" ∷ host ∷ "]" ∷ []) else host in
    let authority = format (named ∷ ":" ∷ show port ∷ []) in
    format (
      "CONNECT " ∷ authority ∷ " HTTP/1.1\r\nHost: " ∷ authority ∷ "\r\nConnection: close\r\n\r\n"
      ∷ [])

module _ (env : Env) where
  unfoldable pub check_tcp : String → ℕ → Exec CheckResult
  check_tcp host port = do
    answer ← ask (λ t. env.connect t host port) (λ _. asked)
    pure (tcp_result answer)

  -- the encoding of the request raises where the host has a character outside ASCII
  unfoldable pub check_http_proxy : String → ℕ → String × ℕ → Exec CheckResult
  unfolding every
  check_http_proxy host port target = do
    lift (if every is_ascii target.0 then ok tt else raised value_error)
    answer ← ask (λ t. env.exchange t host port (connect_request target.0 target.1)) (λ _. asked)
    pure (handshake_result answer)

  unfoldable pub check_proxied : String → ℕ → String → Exec CheckResult
  check_proxied host port url = do
    answer ← ask (λ t. env.fetch t host port url) (λ _. asked)
    pure (fetch_result answer)

  abbrev skip_handshake : CheckResult
  skip_handshake = check "HTTP proxy handshake" skip "TCP check failed" none

  abbrev skip_endpoint : String → CheckResult
  skip_endpoint why = check "AI endpoint probe" skip why none

  -- LocalProxyService.inspect
  unfoldable pub inspect : Profile → Exec LocalProxyReport
  inspect p = do
    tcp ← check_tcp p.local_proxy_host p.local_proxy_port
    if not (passed tcp)
        then pure (record {
          tcp = tcp;
          handshake = skip_handshake;
          endpoint = skip_endpoint "TCP check failed";
        })
        else do
          target ← lift (endpoint_target env.python p.endpoint_probe_url)
          shaken ← check_http_proxy p.local_proxy_host p.local_proxy_port target
          if not (passed shaken)
              then pure (record {
                tcp = tcp;
                handshake = shaken;
                endpoint = skip_endpoint "proxy handshake failed";
              })
              else do
                fetched ← check_proxied p.local_proxy_host p.local_proxy_port p.endpoint_probe_url
                pure (record { tcp = tcp; handshake = shaken; endpoint = fetched })
