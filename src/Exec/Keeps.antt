-- ===== src/Exec/Keeps.antt =====
-- Invariants of actions: `Keeps P m` says that `m` leads from a system with `P` to one with `P`,
-- whether it returns or raises. One rule for each way to build an action.
use remote_ai_bridge.Prelude.{◌≡◌, refl, Bool, true, false, Option, none, some, ◌∷◌, if◌then◌else◌}
use remote_ai_bridge.Domain.Errors.{Exn, Result, ok, raised}
use remote_ai_bridge.Exec.{
  Sys, Exec, Event, Trace, pure, raise, lift, ask, handle, catch, finally, gets, modify, given,
  continue, ◌>>=◌, ◌>>◌,
}

pub record Keeps {ℓ} {A : Type ℓ} (P : Sys → Type 0) (m : Exec A) : Type ℓ where
  pub at : (s : Sys) → P s → P (m s).1

module _ {ℓ} {A : Type ℓ} {P : Sys → Type 0} where
  pub Keeps-pure : (a : A) → Keeps P (pure a)
  unfolding pure
  Keeps-pure a = record { at = λ s h. h }

  pub Keeps-raise : (e : Exn) → Keeps P (raise {A = A} e)
  unfolding raise
  Keeps-raise e = record { at = λ s h. h }

  pub Keeps-gets : (f : Sys → A) → Keeps P (gets f)
  unfolding gets
  Keeps-gets f = record { at = λ s h. h }

  pub Keeps-ask :
      (f : Trace → A) (e : A → Event)
      → ((s : Sys) (a : A) → P s → P (record s { trace = e a ∷ s.trace }))
      → Keeps P (ask f e)
  unfolding ask
  Keeps-ask f e k = record { at = λ s h. k s (f s.trace) h }

  pub Keeps-if : (b : Bool) (m n : Exec A) → Keeps P m → Keeps P n → Keeps P (if b then m else n)
  Keeps-if true m n km kn = km
  Keeps-if false m n km kn = kn

  pub Keeps-lift : (result : Result A) → Keeps P (lift result)
  unfolding lift
  Keeps-lift result = record { at = λ s kept. kept }

  Keeps-handle :
      (r : Result A) (h : Exn → Exec A)
      → ((e : Exn) → Keeps P (h e))
      → (s : Sys) → P s
      → P (handle r h s).1
  Keeps-handle (ok a) h kh s p = p
  Keeps-handle (raised e) h kh s p = (kh e).at s p

  pub Keeps-catch :
      (m : Exec A) (h : Exn → Exec A)
      → Keeps P m
      → ((e : Exn) → Keeps P (h e))
      → Keeps P (catch m h)
  unfolding catch
  Keeps-catch m h km kh = record {
    at = λ s p. let (r, s') = m s in Keeps-handle r h kh s' (km.at s p);
  }

  pub Keeps-finally :
      (m : Exec A) (f : Exec (Unit {0})) → Keeps P m → Keeps P f → Keeps P (finally m f)
  unfolding finally
  Keeps-finally m f km kf = record { at = λ s p. kf.at (m s).1 (km.at s p) }

pub Keeps-modify :
    {P : Sys → Type 0} (f : Sys → Sys) → ((s : Sys) → P s → P (f s)) → Keeps P (modify f)
unfolding modify
Keeps-modify f k = record { at = k }

module _ {ℓ κ} {A : Type ℓ} {B : Type κ} {P : Sys → Type 0} where
  Keeps-continue :
      (r : Result A) (f : A → Exec B)
      → ((a : A) → Keeps P (f a))
      → (s : Sys) → P s
      → P (continue r f s).1
  Keeps-continue (ok a) f kf s p = (kf a).at s p
  Keeps-continue (raised e) f kf s p = p

  pub Keeps-bind :
      (m : Exec A) (rest : A → Exec B)
      → Keeps P m
      → ((a : A) → Keeps P (rest a))
      → Keeps P (m >>= rest)
  unfolding ◌>>=◌
  Keeps-bind m rest first each = record {
    at = λ s p. let (r, s') = m s in Keeps-continue r rest each s' (first.at s p);
  }

  -- the rest of a block may use that a pure computation did not raise
  pub Keeps-bind-lift :
      (r : Result A) (f : A → Exec B)
      → ((a : A) → r ≡ ok a → Keeps P (f a))
      → Keeps P (lift r >>= f)
  unfolding ◌>>=◌ lift
  Keeps-bind-lift (ok a) f kf = record { at = (kf a refl).at }
  Keeps-bind-lift (raised e) f kf = record { at = λ s p. p }

  -- the rest of a block keeps what its first action has established
  pub Keeps-then :
      (m : Exec A) (f : A → Exec B) (s : Sys)
      → P (m s).1
      → ((a : A) → Keeps P (f a))
      → P ((m >>= f) s).1
  unfolding ◌>>=◌
  Keeps-then m f s p kf = let (r, s') = m s in Keeps-continue r f kf s' p

  pub Keeps-given :
      (o : Option A) (m : Exec B) (f : A → Exec B)
      → Keeps P m
      → ((a : A) → Keeps P (f a))
      → Keeps P (given o m f)
  unfolding given
  Keeps-given none m f km kf = record { at = km.at }
  Keeps-given (some a) m f km kf = record { at = (kf a).at }

pub Keeps-seq {ℓ} :
    {B : Type ℓ} {P : Sys → Type 0} (m : Exec (Unit {0})) (n : Exec B)
    → Keeps P m
    → Keeps P n
    → Keeps P (m >> n)
Keeps-seq m n km kn = Keeps-bind m (λ _. n) km (λ _. kn)

pub ruleset keeps_rules = (
  Keeps-seq, Keeps-pure, Keeps-raise, Keeps-lift, Keeps-gets, Keeps-if, Keeps-bind, Keeps-catch,
  Keeps-finally, Keeps-given,
)
