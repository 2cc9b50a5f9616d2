-- ===== src/Invariant/Reachable.antt =====
-- The systems that calls of the core's methods can lead to, one call after the other, whatever each
-- call returns or raises.
use remote_ai_bridge.Prelude.{ℕ, String, Bool, Option, ◌≡◌, none, List, [], get, some, arith}
use remote_ai_bridge.Domain.Errors.{ok}
use remote_ai_bridge.Domain.Profile.{Profile, validate}
use remote_ai_bridge.Domain.Runtime.{RuntimeState, ActiveTunnel, validate_runtime}
use remote_ai_bridge.Exec.{Env, Sys}
use remote_ai_bridge.Invariant.Trace.{IsSound, IsOwned}
use remote_ai_bridge.Invariant.Tunnels.{Sound-acquire, Sound-verify, Sound-disconnect}
use remote_ai_bridge.Invariant.Profiles.{
  Sound-create, Sound-update, Sound-delete, Sound-ensure_create_available,
}
use remote_ai_bridge.Invariant.Supervision.{Sound-run}
use remote_ai_bridge.Invariant.Runtime.{Sound-stop_unsupervised, Sound-status, Sound-shutdown_all}
use remote_ai_bridge.Domain.Snapshot.{SupervisorSnapshot}
use remote_ai_bridge.Services.Runtime.Unsupervised.{Waited, stop_unsupervised, status, shutdown_all}
use remote_ai_bridge.Services.Options.{Config}
use remote_ai_bridge.Services.Profiles.{Change, create, update, delete, ensure_create_available}
use remote_ai_bridge.Services.Tunnel.{acquire, verify, disconnect}
use remote_ai_bridge.Services.Supervisor.{Policy, run}

-- an empty state directory
abbrev pub fresh : Sys
fresh = record {
  profiles = [];
  runtimes = [];
  trace = [];
  active = none;
  snapshots = [];
  known_hosts = none;
  keys = [];
}

pub data Reachable (env : Env) (cfg : Config) : Sys → Type 0 where
  started : Reachable env cfg fresh
  created : {s : Sys} → Reachable env cfg s → (p : Profile) → Reachable env cfg (create env p s).1
  checked :
      {s : Sys}
      → Reachable env cfg s
      → (name : String) → Reachable env cfg (ensure_create_available env name s).1
  updated :
      {s : Sys}
      → Reachable env cfg s
      → (name : String) (changes : List Change) → Reachable env cfg (update env name changes s).1
  deleted :
      {s : Sys}
      → Reachable env cfg s
      → (name : String) → Reachable env cfg (delete env cfg name s).1
  acquired :
      {s : Sys} → Reachable env cfg s → (p : Profile) → Reachable env cfg (acquire env cfg p s).1
  verified :
      {s : Sys}
      → Reachable env cfg s
      → (p : Profile) (t : ActiveTunnel) → Reachable env cfg (verify env cfg p t s).1
  disconnected :
      {s : Sys}
      → Reachable env cfg s
      → (name : String) → Reachable env cfg (disconnect env name s).1
  supervised :
      {s : Sys}
      → Reachable env cfg s
      → (policy : Policy) (name : String) (fuel : ℕ)
      → Reachable env cfg (run env cfg policy name fuel s).1
  stopped :
      {s : Sys}
      → Reachable env cfg s
      → (name : String) → Reachable env cfg (stop_unsupervised env name s).1
  inspected :
      {s : Sys}
      → Reachable env cfg s
      → (name : String) (worker : Option (SupervisorSnapshot × Bool))
      → Reachable env cfg (status env name worker s).1
  shut_down :
      {s : Sys}
      → Reachable env cfg s
      → (workers : List Waited) → Reachable env cfg (shutdown_all env workers s).1

fresh-IsSound : (env : Env) → IsSound env 0 fresh
unfolding get
fresh-IsSound env = record {
  grown = omega arith;
  owned = tt;
  profiles = λ name p h. ground (arith, h);
  runtimes = λ name r h. ground (arith, h);
}

pub Reachable-IsSound : (env : Env) (cfg : Config) (s : Sys) → Reachable env cfg s → IsSound env 0 s
Reachable-IsSound env cfg _ started = fresh-IsSound env
Reachable-IsSound env cfg _ (created r p) =
    (Sound-create env 0 p).at _ (Reachable-IsSound env cfg _ r)
Reachable-IsSound env cfg _ (checked r name) =
    (Sound-ensure_create_available env 0 name).at _ (Reachable-IsSound env cfg _ r)
Reachable-IsSound env cfg _ (updated r name changes) =
    (Sound-update env 0 name changes).at _ (Reachable-IsSound env cfg _ r)
Reachable-IsSound env cfg _ (deleted r name) =
    (Sound-delete env 0 cfg name).at _ (Reachable-IsSound env cfg _ r)
Reachable-IsSound env cfg _ (acquired r p) =
    (Sound-acquire env 0 cfg p).at _ (Reachable-IsSound env cfg _ r)
Reachable-IsSound env cfg _ (verified r p t) =
    (Sound-verify env 0 cfg p t).at _ (Reachable-IsSound env cfg _ r)
Reachable-IsSound env cfg _ (disconnected r name) =
    (Sound-disconnect env 0 name).at _ (Reachable-IsSound env cfg _ r)
Reachable-IsSound env cfg _ (supervised r policy name fuel) =
    (Sound-run env 0 cfg policy name fuel).at _ (Reachable-IsSound env cfg _ r)
Reachable-IsSound env cfg _ (stopped r name) =
    (Sound-stop_unsupervised env 0 name).at _ (Reachable-IsSound env cfg _ r)
Reachable-IsSound env cfg _ (inspected r name worker) =
    (Sound-status env 0 name worker).at _ (Reachable-IsSound env cfg _ r)
Reachable-IsSound env cfg _ (shut_down r workers) =
    (Sound-shutdown_all env 0 workers).at _ (Reachable-IsSound env cfg _ r)

-- However the methods were called, and whatever they returned or raised: every signal to a recorded
-- process directly follows a look-up of its pid that found the recorded creation time and
-- executable, and where the child that carries a recorded tunnel is terminated or killed, nothing
-- but polls and stops of this child came after such a look-up.
pub Reachable-IsOwned :
    (env : Env) (cfg : Config) (s : Sys) → Reachable env cfg s → IsOwned env.python s.trace
Reachable-IsOwned env cfg s r = (Reachable-IsSound env cfg s r).owned

-- However the methods were called, every profile and every runtime state on disk passes its
-- validation and is stored under its own name.
pub Reachable-IsValid :
    (env : Env) (cfg : Config) (s : Sys)
    → Reachable env cfg s
    → ((name : String) (p : Profile)
        → get name s.profiles ≡ some p
        → (p.name ≡ name) × (validate env.python p ≡ ok tt))
      × ((name : String) (r : RuntimeState)
          → get name s.runtimes ≡ some r
          → (r.profile_name ≡ name) × (validate_runtime env.python r ≡ ok tt))
Reachable-IsValid env cfg s r =
    let sound = Reachable-IsSound env cfg s r in (sound.profiles, sound.runtimes)
