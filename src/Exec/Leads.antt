-- ===== src/Exec/Leads.antt =====
-- Where actions lead: `Leads P Q m` says that `m`, from a system with `P`, ends in one with `Q`, whether
-- it returns or raises.
use remote_ai_bridge.Prelude.{◌≡◌, refl, Bool, true, false, if◌then◌else◌}
use remote_ai_bridge.Domain.Errors.{Exn, Result, ok, raised}
use remote_ai_bridge.Exec.{Sys, Exec, raise, finally, continue, ◌>>=◌}
use remote_ai_bridge.Exec.Keeps.{Keeps, Keeps-then}
use remote_ai_bridge.Exec.Yields.{Holds, Yields}

-- from a system with P, the action ends in one with Q, whether it returns or raises
pub record Leads {ℓ} {A : Type ℓ} (P Q : Sys → Type 0) (m : Exec A) : Type ℓ where
  pub at : (s : Sys) → P s → Q (m s).1

module _ {ℓ} {A : Type ℓ} {P Q : Sys → Type 0} where
  pub Leads-raise : (e : Exn) → ((s : Sys) → P s → Q s) → Leads P Q (raise {A = A} e)
  unfolding raise
  Leads-raise e w = record { at = w }

  pub Leads-mono :
      {P' : Sys → Type 0} (m : Exec A) → ((s : Sys) → P s → P' s) → Leads P' Q m → Leads P Q m
  Leads-mono m f l = record { at = λ s p. l.at s (f s p) }

  pub Leads-if :
      (b : Bool) (m n : Exec A)
      → (b ≡ true → Leads P Q m)
      → (b ≡ false → Leads P Q n)
      → Leads P Q (if b then m else n)
  Leads-if true m n lm ln = lm refl
  Leads-if false m n lm ln = ln refl

  -- a cleanup at the end changes nothing that Q speaks of
  pub Leads-finally :
      (m : Exec A) (f : Exec (Unit {0})) → Leads P Q m → Keeps Q f → Leads P Q (finally m f)
  unfolding finally
  Leads-finally m f l k = record { at = λ s p. k.at (m s).1 (l.at s p) }

module _ {ℓ κ} {A : Type ℓ} {B : Type κ} {P Q : Sys → Type 0} where
  -- the second of two actions changes nothing that Q speaks of
  pub Leads-then :
      (m : Exec A) (f : A → Exec B) → Leads P Q m → ((a : A) → Keeps Q (f a)) → Leads P Q (m >>= f)
  Leads-then m f l k = record { at = λ s p. Keeps-then m f s (l.at s p) k }

module _ {ℓ κ} {A : Type ℓ} {B : Type κ} {P Q : Sys → Type 0} {R : A → Sys → Type 0} where
  Leads-continue :
      (r : Result A) (f : A → Exec B) (s : Sys)
      → ((t : Sys) → P t → Q t)
      → Holds R (r, s)
      → P s
      → ((a : A) → Leads (λ t. R a t × P t) Q (f a))
      → Q (continue r f s).1
  Leads-continue (ok a) f s w h p k = (k a).at s (h, p)
  Leads-continue (raised e) f s w h p k = w s p

  -- what the first of two actions returns from this system, where it changes nothing that P speaks of
  pub Leads-from :
      (m : Exec A) (f : A → Exec B) (s : Sys)
      → ((t : Sys) → P t → Q t)
      → Keeps P m
      → P s
      → Holds R (m s)
      → ((a : A) → Leads (λ t. R a t × P t) Q (f a))
      → Q ((m >>= f) s).1
  unfolding ◌>>=◌
  Leads-from m f s w km p h k = let (r, s') = m s in Leads-continue r f s' w h (km.at s p) k

  -- the first of two actions changes nothing that P speaks of
  pub Leads-bind :
      (m : Exec A) (f : A → Exec B)
      → ((t : Sys) → P t → Q t)
      → Keeps P m
      → Yields P R m
      → ((a : A) → Leads (λ t. R a t × P t) Q (f a))
      → Leads P Q (m >>= f)
  unfolding ◌>>=◌
  Leads-bind m f w km ym k = record {
    at = λ s p. let (r, s') = m s in Leads-continue r f s' w (ym.at s p) (km.at s p) k;
  }
