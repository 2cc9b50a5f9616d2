-- ===== src/Services/RemotePort/Laws.antt =====
-- What `select` of app/services/remote_port.py promises of the port that it returns.
use mathlib.Core.Path.{subst}
use remote_ai_bridge.Prelude.{ℕ, zero, suc, ◌+◌, ◌-◌, ◌≤◌, ◌<◌, ◌≡◌, arith, eq_iff}
use remote_ai_bridge.Domain.Errors.{Exn, ok}
use remote_ai_bridge.Domain.Profile.{Profile, loopback}
use remote_ai_bridge.Exec.{Env, Sys}
use remote_ai_bridge.Exec.Yields.{
  Anything, Holds, Yields, Yields-pure, Yields-bind, Yields-if, Yields-if_cases, Yields-weaken,
  Yields-raise, Yields-with, Yields-bind_lift,
}
use remote_ai_bridge.Services.Options.{Config}
use remote_ai_bridge.Services.Probe.{min}
use remote_ai_bridge.Services.Probe.Laws.{JustAbsent, check_listener-Yields}
use remote_ai_bridge.Services.RemotePort.{
  validate_scan_parameters, validate_selection, select_from, select,
}

module _ (env : Env) (cfg : Config) (p : Profile) where
  IsSelected : ℕ → ℕ → ℕ → Sys → Type 0
  IsSelected lo hi port s = (lo ≤ port) × (port < hi) × JustAbsent env cfg p port s.trace

  select_from-IsSelected :
      (e : Exn) (lo hi left port : ℕ)
      → lo ≤ port
      → port + left ≤ hi
      → Yields Anything (IsSelected lo hi) (select_from env cfg p e left port)
  unfolding select_from IsSelected
  select_from-IsSelected e lo hi zero port a b = Yields-raise e
  select_from-IsSelected e lo hi (suc left) port a b =
      Yields-bind _ _ (check_listener-Yields env cfg p port) λ r.
        Yields-if_cases _ _ _ (λ absent. Yields-pure port (λ s h. (a, omega (arith, b), h absent)))
          (λ _.
            Yields-if _ _ _
              (Yields-weaken _ (
                select_from-IsSelected e lo hi left (port + 1) (omega (arith, a))
                  (omega (arith, b))))
              (Yields-raise _))

  -- what the tests at the beginning have established
  IsManagedScan : ℕ → ℕ → Type 0
  IsManagedScan start_port max_attempts =
      (p.schema_version ≡ 2)
      × (p.profile_type ≡ "managed")
      × (p.remote_bind_host ≡ loopback)
      × (1 ≤ start_port)
      × (start_port ≤ 65535)

  managed_scan :
      (start_port max_attempts : ℕ)
      → validate_selection p start_port max_attempts ≡ ok tt
      → IsManagedScan start_port max_attempts
  unfolding validate_selection validate_scan_parameters IsManagedScan
  managed_scan start_port max_attempts h =
      ground (arith, h, eq_iff p.profile_type "managed", eq_iff p.remote_bind_host loopback)

  last_start :
      (start_port max_attempts : ℕ) → IsManagedScan start_port max_attempts → start_port ≤ 65535
  unfolding IsManagedScan
  last_start start_port max_attempts (v, t, b, lo, hi) = hi

  range_end :
      (start_port max_attempts : ℕ)
      → start_port ≤ 65535
      → start_port + min max_attempts (65536 - start_port) ≤ min (start_port + max_attempts) 65536
  range_end start_port max_attempts e = ground arith

  select-Yields :
      (start_port max_attempts : ℕ)
      → Yields Anything
          (λ port s.
            IsManagedScan start_port max_attempts
            × IsSelected start_port (min (start_port + max_attempts) 65536) port s)
          (select env cfg p start_port max_attempts)
  unfolding select
  select-Yields start_port max_attempts = Yields-bind_lift _ _ λ _ h.
      let managed = managed_scan start_port max_attempts h in
      Yields-with _ (λ s _. managed)
        (select_from-IsSelected _ start_port _ _ start_port (omega arith)
          (range_end start_port max_attempts (last_start start_port max_attempts managed)))

  -- The port that `select` returns lies in the range that is scanned and is at most 65535, the last
  -- thing that was done was to ask the profile's host for the listeners on this very port, which
  -- answered that there are none, and the profile is a managed one bound to 127.0.0.1.
  pub select-JustAbsent :
      (start_port max_attempts port : ℕ) (s s' : Sys)
      → select env cfg p start_port max_attempts s ≡ (ok port, s')
      → (p.schema_version ≡ 2)
        × (p.profile_type ≡ "managed")
        × (p.remote_bind_host ≡ loopback)
        × (start_port ≤ port)
        × (port < start_port + max_attempts)
        × (port ≤ 65535)
        × JustAbsent env cfg p port s'.trace
  unfolding IsManagedScan IsSelected
  select-JustAbsent start_port max_attempts port s s' h =
      let (m, sel) =
        subst
          (Holds (λ port s.
            IsManagedScan start_port max_attempts
            × IsSelected start_port (min (start_port + max_attempts) 65536) port s))
          h ((select-Yields start_port max_attempts).at s tt) in
      (m.0, m.1, m.2, sel.0, ground (arith, sel.1), ground (arith, sel.1), sel.2)
