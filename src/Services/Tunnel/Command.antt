-- ===== src/Services/Tunnel/Command.antt =====
-- `build_tunnel_command` of app/services/tunnel.py.
use remote_ai_bridge.Prelude.{String, List, [], ◌∷◌, ◌++◌}
use remote_ai_bridge.Text.{format, show}
use remote_ai_bridge.Domain.Errors.{Result, ok, ◌>>=◌, ◌>>◌}
use remote_ai_bridge.Domain.Python.{Python}
use remote_ai_bridge.Domain.Profile.{Profile, validate}
use remote_ai_bridge.Services.Options.{Config, managed_ssh_options}
use remote_ai_bridge.Services.Probe.{build_remote_identity_command}

abbrev forward : Profile → String
forward p = format (
    p.remote_bind_host
    ∷ ":"
    ∷ show p.remote_port
    ∷ ":"
    ∷ p.local_proxy_host
    ∷ ":"
    ∷ show p.local_proxy_port
    ∷ [])

abbrev fixed_options : List String
fixed_options =
    "-o" ∷ "BatchMode=yes" ∷ "-o" ∷ "StrictHostKeyChecking=yes" ∷ "-o" ∷ "ExitOnForwardFailure=yes"
    ∷ "-o" ∷ "ServerAliveInterval=30" ∷ "-o" ∷ "ServerAliveCountMax=3" ∷ []

unfoldable pub build_tunnel_command : Python → Config → Profile → String → Result (List String)
build_tunnel_command py cfg p tunnel_id = do
  validate py p
  options ← managed_ssh_options py p cfg.state_root
  script ← build_remote_identity_command py tunnel_id p.remote_port
  ok (
      cfg.ssh_executable
      ∷ "-T"
      ∷ (fixed_options ++ (options ++ "-R" ∷ forward p ∷ p.ssh_target ∷ script ∷ [])))
