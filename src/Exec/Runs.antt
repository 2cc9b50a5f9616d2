-- ===== src/Exec/Runs.antt =====
-- What an action does from one system, step by step.
use remote_ai_bridge.Prelude.{◌≡◌, ap, false, ◌∷◌}
use remote_ai_bridge.Domain.Errors.{Exn, Result, ok, raised}
use remote_ai_bridge.Exec.{
  Env, Sys, Exec, touched, lift, continue, file_operation, ask, pure, raise, ◌>>=◌,
}

module _ {ℓ κ} {A : Type ℓ} {B : Type κ} where
  pub bind-ok :
      (m : Exec A) (f : A → Exec B) (s s' : Sys) (a : A) → m s ≡ (ok a, s') → (m >>= f) s ≡ f a s'
  unfolding ◌>>=◌
  bind-ok m f s s' a q = ap (λ x. continue x.0 f x.1) q

  pub bind-raised :
      (m : Exec A) (f : A → Exec B) (s s' : Sys) (e : Exn)
      → m s ≡ (raised e, s')
      → (m >>= f) s ≡ (raised e, s')
  unfolding ◌>>=◌
  bind-raised m f s s' e q = ap (λ x. continue x.0 f x.1) q

  pub bind-lift :
      (r : Result A) (f : A → Exec B) (s : Sys) (a : A) → r ≡ ok a → (lift r >>= f) s ≡ f a s
  unfolding lift
  bind-lift r f s a q = bind-ok _ f s s a (ap (λ x. (x, s)) q)

module _ (env : Env) where
  -- a file operation that works
  pub file_operation-works :
      (s : Sys)
      → env.io_fails s.trace ≡ false
      → file_operation env s ≡ (ok tt, record s { trace = touched ∷ s.trace })
  unfolding file_operation ask pure raise ◌>>=◌
  file_operation-works s h = simp h
