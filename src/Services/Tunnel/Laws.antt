-- ===== src/Services/Tunnel/Laws.antt =====
-- What `acquire` of app/services/tunnel.py has recorded when it returns a tunnel.
use mathlib.Core.Path.{subst, ◌∙◌}
use remote_ai_bridge.Prelude.{
  ℕ, String, ◌≡◌, refl, Bool, true, false, Option, none, some, Dict, get, ap, get-put_self, nat_eq,
  arith,
}
use remote_ai_bridge.Domain.Errors.{ok}
use remote_ai_bridge.Domain.Profile.{Profile}
use remote_ai_bridge.Domain.Runtime.{RuntimeState, ActiveTunnel}
use remote_ai_bridge.Exec.{Env, Sys, ProcessIdentity}
use remote_ai_bridge.Exec.Keeps.{Keeps, Keeps-ask, Keeps-bind, Keeps-pure}
use remote_ai_bridge.Exec.Yields.{
  Anything, Holds, Yields, Yields-pure, Yields-bind, Yields-after, Yields-if, Yields-if_cases,
  Yields-given, Yields-raise, Yields-modify, Yields-kept, Yields-weaken, Yields-post, Yields-mono,
}
use remote_ai_bridge.Infrastructure.Process.{Started, managed, not_started}
use remote_ai_bridge.Infrastructure.Inspector.{get_identity, matches}
use remote_ai_bridge.Infrastructure.Store.{save_runtime}
use remote_ai_bridge.Infrastructure.Store.Reads.{load_runtime-Yields}
use remote_ai_bridge.Services.Options.{Config}
use remote_ai_bridge.Services.Tunnel.{
  abandon, record_tunnel, confirm_remote, after_start, when_started, start_tunnel, reusable,
  acquire_new, reuse_or, acquire,
}

abbrev port_of : Option RuntimeState → ℕ
port_of none = 0
port_of (some r) = r.remote_port

module _ (env : Env) (cfg : Config) (p : Profile) where
  IsRecorded : ActiveTunnel → Sys → Type 0
  IsRecorded t s = (get p.name s.runtimes ≡ some t.state) × (t.state.remote_port ≡ p.remote_port)

  abandon-IsRecorded :
      (pid : ℕ) (code : String) → Yields Anything IsRecorded (abandon env cfg pid code)
  unfolding abandon
  abandon-IsRecorded pid code = Yields-after _ _ (λ _. Yields-raise _)

  save_runtime-Yields :
      (state : RuntimeState)
      → Yields Anything
          (λ _ s. get state.profile_name s.runtimes ≡ some state)
          (save_runtime env state)
  unfolding save_runtime
  save_runtime-Yields state = Yields-after _ _ λ _. Yields-after _ _ λ _.
      Yields-after _ _
        λ _. Yields-modify _ (λ s _. get-put_self state.profile_name state s.runtimes)

  confirm_remote-IsRecorded :
      (tunnel_id : String) (pid : ℕ) (i : ProcessIdentity)
      → Yields Anything IsRecorded (confirm_remote env cfg p tunnel_id pid i)
  unfolding confirm_remote record_tunnel IsRecorded
  confirm_remote-IsRecorded tunnel_id pid i = Yields-after _ _ λ rounds. Yields-after _ _ λ remote.
      Yields-given _ _ _ (abandon-IsRecorded pid _) λ r. Yields-after _ _ λ ownership.
        Yields-if _ _ _
          (Yields-bind _ _ (save_runtime-Yields _) (λ _. Yields-pure _ (λ s h. (h, refl))))
          (abandon-IsRecorded pid _)

  after_start-IsRecorded :
      (tunnel_id : String) (pid : ℕ)
      → Yields Anything IsRecorded (after_start env cfg p tunnel_id pid)
  unfolding after_start
  after_start-IsRecorded tunnel_id pid = Yields-after _ _ λ early.
      Yields-if _ _ _ (Yields-raise _) (
        Yields-after _ _ λ rounds. Yields-after _ _ λ found.
          Yields-given _ _ _ (abandon-IsRecorded pid _) λ i.
            Yields-if _ _ _ (confirm_remote-IsRecorded tunnel_id pid i) (abandon-IsRecorded pid _))

  when_started-IsRecorded :
      (tunnel_id : String) (started : Started)
      → Yields Anything IsRecorded (when_started env cfg p tunnel_id started)
  unfolding when_started
  when_started-IsRecorded tunnel_id (not_started code) = Yields-raise _
  when_started-IsRecorded tunnel_id (managed pid) = after_start-IsRecorded tunnel_id pid

  acquire_new-IsRecorded :
      (existing : Option RuntimeState) → Yields Anything IsRecorded (acquire_new env cfg p existing)
  unfolding acquire_new start_tunnel
  acquire_new-IsRecorded existing = Yields-after _ _ λ observed. Yields-after _ _ λ listener.
      Yields-if _ _ _
        (Yields-after _ _ λ _. Yields-after _ _ λ tunnel_id.
          Yields-after _ _
            λ argv. Yields-after _ _ λ started. when_started-IsRecorded tunnel_id started)
        (Yields-raise _)

  -- an existing state that may be used again is for the profile's port
  IsReusable : Option RuntimeState → Bool → Type 0
  IsReusable o b = (r : RuntimeState) → o ≡ some r → b ≡ true → r.remote_port ≡ p.remote_port

  matches-Keeps :
      (r : RuntimeState) (o : Option RuntimeState)
      → Keeps (λ s. get p.name s.runtimes ≡ o) (matches env r)
  unfolding matches get_identity
  matches-Keeps r o = Keeps-bind _ _ (Keeps-ask _ _ (λ s a h. h)) (λ i. Keeps-pure _)

  same_port :
      (r r' : RuntimeState)
      → nat_eq r.remote_port p.remote_port ≡ true
      → some r ≡ some r'
      → r'.remote_port ≡ p.remote_port
  same_port r r' e e' = ground (arith, e, ap port_of e')

  reusable-Yields :
      (o : Option RuntimeState)
      → Yields
          (λ s. get p.name s.runtimes ≡ o)
          (λ b s. IsReusable o b × (get p.name s.runtimes ≡ o))
          (reusable env cfg p o)
  unfolding reusable IsReusable
  reusable-Yields none = Yields-pure false (λ s h. (λ r e f. ground (arith, f), h))
  reusable-Yields (some r) =
      Yields-if_cases _ _ _
        (λ e.
          Yields-post _ (λ b s h. (λ r' e' _. same_port r r' e e', h))
            (Yields-kept _ (matches-Keeps r (some r))))
        (λ _. Yields-pure false (λ s h. (λ r e f. ground (arith, f), h)))

  reuse_or-IsRecorded :
      (o : Option RuntimeState) (b : Bool)
      → Yields
          (λ s. IsReusable o b × (get p.name s.runtimes ≡ o))
          IsRecorded
          (reuse_or env cfg p o b)
  unfolding reuse_or IsRecorded IsReusable
  reuse_or-IsRecorded (some r) true = Yields-pure _ (λ s h. (h.1, h.0 r refl refl))
  reuse_or-IsRecorded (some r) false = Yields-weaken _ (acquire_new-IsRecorded (some r))
  reuse_or-IsRecorded none b = Yields-weaken _ (acquire_new-IsRecorded none)

  acquire-Yields :
      (d : Dict RuntimeState) → Yields (λ s. s.runtimes ≡ d) IsRecorded (acquire env cfg p)
  unfolding acquire
  acquire-Yields d =
      Yields-bind _ _
        (Yields-mono _ (λ s h. (h, h))
          (load_runtime-Yields env (λ s. s.runtimes ≡ d) (λ s t h. h) p.name d))
        λ existing.
          Yields-bind _ _
            (Yields-mono _ (λ s h. ap (get p.name) h.1 ∙ h.0) (reusable-Yields existing))
            (reuse_or-IsRecorded existing)

  -- When `acquire` returns a tunnel, its runtime state is the one that is recorded for the profile,
  -- and it is for the profile's remote port.
  pub acquire-IsRecorded :
      (t : ActiveTunnel) (s s' : Sys)
      → acquire env cfg p s ≡ (ok t, s')
      → (get p.name s'.runtimes ≡ some t.state) × (t.state.remote_port ≡ p.remote_port)
  unfolding IsRecorded
  acquire-IsRecorded t s s' h = subst (Holds IsRecorded) h ((acquire-Yields s.runtimes).at s refl)
