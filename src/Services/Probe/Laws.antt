-- ===== src/Services/Probe/Laws.antt =====
-- What `find_free_port` of app/services/remote_probe.py promises of the port it suggests.
use mathlib.Core.Path.{subst}
use remote_ai_bridge.Prelude.{
  ℕ, zero, suc, ◌+◌, ◌-◌, ◌≤◌, ◌<◌, String, ◌≡◌, refl, true, Option, none, some, List, [], ◌∷◌,
  ◌++◌, has_code, arith, eq_iff,
}
use remote_ai_bridge.Text.{format, show, strip}
use remote_ai_bridge.Domain.Errors.{ok}
use remote_ai_bridge.Domain.Profile.{Profile}
use remote_ai_bridge.Exec.{
  Env, Sys, Trace, Completed, exited, timeout, missing, refused, ran, pure, ask, ◌>>=◌,
}
use remote_ai_bridge.Exec.Yields.{
  Anything, Holds, Yields, Yields-pure, Yields-bind, Yields-bind_lift, Yields-if, Yields-if_cases,
  Yields-weaken,
}
use remote_ai_bridge.Infrastructure.Process.{result_of, succeeded, run}
use remote_ai_bridge.Services.Options.{Config}
use remote_ai_bridge.Services.Probe.{
  min, listener_result, ssh_prefix, run_remote, check_listener, free_port_from, find_free_port,
}

-- the command ended with exit code 0 and printed nothing but white space
abbrev pub IsSilent : Completed → Type 0
IsSilent (exited code out _) = (code ≡ 0) × (strip out ≡ "")
IsSilent _ = ⊥

-- the arguments of the SSH command that lists the listeners on one port of the profile's host
abbrev pub AsksFor : Env → Config → Profile → ℕ → List String → Type 0
AsksFor env cfg p port argv =
    (prefix : List String) × (ssh_prefix env cfg p ≡ ok prefix)
    × (argv ≡ prefix ++ (format ("ss -ltnH 'sport = :" ∷ show port ∷ "'" ∷ []) ∷ []))

-- the last thing that happened is that the host was asked for listeners on this port and listed none
abbrev pub JustAbsent : Env → Config → Profile → ℕ → Trace → Type 0
JustAbsent env cfg p port (ran argv c ∷ _) = AsksFor env cfg p port argv × IsSilent c
JustAbsent env cfg p port _ = ⊥

silent :
    (p : Profile) (port : ℕ) (c : Completed)
    → has_code (listener_result p port (result_of c)).error_code "LISTENER_ABSENT" ≡ true
    → IsSilent c
unfolding listener_result result_of succeeded
silent p port (exited code out err) h = ground (arith, h, eq_iff (strip out) "")
silent p port (timeout out err) h = ground (arith, h)
silent p port missing h = ground (arith, h)
silent p port refused h = ground (arith, h)

module _ (env : Env) (cfg : Config) (p : Profile) where
  abbrev IsFree : ℕ → ℕ → Option ℕ → Sys → Type 0
  IsFree lo hi none s = Unit
  IsFree lo hi (some port) s = (lo ≤ port) × (port < hi) × JustAbsent env cfg p port s.trace

  run-Yields :
      (port : ℕ) (argv : List String)
      → AsksFor env cfg p port argv
      → Yields Anything
          (λ r s.
            has_code (listener_result p port r).error_code "LISTENER_ABSENT" ≡ true
            → JustAbsent env cfg p port s.trace)
          (run env argv)
  unfolding run ask ◌>>=◌ pure
  run-Yields port argv asks = record {
    at = λ s _ h. (asks, silent p port (env.run s.trace argv) h);
  }

  pub check_listener-Yields :
      (port : ℕ)
      → Yields Anything
          (λ r s.
            has_code r.error_code "LISTENER_ABSENT" ≡ true → JustAbsent env cfg p port s.trace)
          (check_listener env cfg p port)
  unfolding check_listener run_remote
  check_listener-Yields port =
      Yields-bind _ _ (Yields-bind_lift _ _ (λ prefix e. run-Yields port _ (prefix, e, refl)))
        (λ r. Yields-pure _ (λ s h. h))

  free_port_from-IsFree :
      (lo hi left port : ℕ)
      → lo ≤ port
      → port + left ≤ hi
      → Yields Anything (IsFree lo hi) (free_port_from env cfg p left port)
  unfolding free_port_from
  free_port_from-IsFree lo hi zero port e f = Yields-pure none (λ s _. tt)
  free_port_from-IsFree lo hi (suc left) port e f =
      Yields-bind _ _ (check_listener-Yields port) λ r.
        Yields-if_cases _ _ _
          (λ absent. Yields-pure (some port) (λ s h. (e, omega (arith, f), h absent)))
          (λ _. Yields-if _ _ _ (Yields-pure none (λ s _. tt)) (
            Yields-weaken _
              (free_port_from-IsFree lo hi left (port + 1) (omega (arith, e)) (omega (arith, f)))))

  range_end :
      p.remote_port ≤ 65535
      → p.remote_port + 1 + (min 65536 (p.remote_port + 20 + 1) - (p.remote_port + 1))
        ≤ suc (min 65535 (p.remote_port + 20))
  range_end e = ground arith

  find_free_port-IsFree :
      p.remote_port ≤ 65535
      → Yields Anything
          (IsFree (p.remote_port + 1) (suc (min 65535 (p.remote_port + 20))))
          (find_free_port env cfg p)
  unfolding find_free_port
  find_free_port-IsFree e = free_port_from-IsFree _ _ _ _ (omega arith) (range_end e)

  -- The port that `find_free_port` suggests lies above the profile's, at most 20 above it and at most
  -- 65535, and the last thing that was done was to ask the profile's host for the listeners on this
  -- very port, which answered that there are none.
  pub find_free_port-JustAbsent :
      (s s' : Sys) (port : ℕ)
      → p.remote_port ≤ 65535
      → find_free_port env cfg p s ≡ (ok (some port), s')
      → (p.remote_port < port)
        × (port ≤ 65535)
        × (port ≤ p.remote_port + 20)
        × JustAbsent env cfg p port s'.trace
  find_free_port-JustAbsent s s' port e h =
      let (lo, hi, absent) = subst (Holds (IsFree _ _)) h ((find_free_port-IsFree e).at s tt) in
      (omega (arith, lo), ground (arith, hi), ground (arith, hi), absent)
