-- ===== src/Exec/Yields.antt =====
-- What actions establish: `Yields P Q m` says that when `m`, from a system with `P`, returns a value,
-- that value and the system left have `Q`. One rule for each way to build an action.
use remote_ai_bridge.Prelude.{◌≡◌, refl, Bool, true, false, Option, none, some, if◌then◌else◌}
use remote_ai_bridge.Domain.Errors.{Exn, Result, ok, raised}
use remote_ai_bridge.Exec.{
  Sys, Exec, pure, raise, lift, handle, catch, finally, conclude, gets, modify, given, continue,
  ◌>>=◌,
}
use remote_ai_bridge.Exec.Keeps.{Keeps}

abbrev pub Anything : Sys → Type 0
Anything _ = Unit

abbrev pub Holds {ℓ} : {A : Type ℓ} → (A → Sys → Type 0) → Result A × Sys → Type 0
Holds Q (ok a, s) = Q a s
Holds Q (raised e, s) = Unit

pub record Yields {ℓ} {A : Type ℓ} (P : Sys → Type 0) (Q : A → Sys → Type 0) (m : Exec A)
    : Type ℓ where
  pub at : (s : Sys) → P s → Holds Q (m s)

module _ {ℓ} {A : Type ℓ} (Q : A → Sys → Type 0) where
  Holds-handle :
      (r : Result A) (h : Exn → Exec A) (s : Sys)
      → Holds Q (r, s)
      → ((e : Exn) → Yields Anything Q (h e))
      → Holds Q (handle r h s)
  Holds-handle (ok a) h s q yh = q
  Holds-handle (raised e) h s q yh = (yh e).at s tt

  Holds-finally :
      (r : Result A) (s : Sys) (q : Result Unit) (s' : Sys)
      → ((a : A) → Q a s → Q a s')
      → Holds Q (r, s)
      → Holds Q (conclude r q, s')
  Holds-finally (ok a) s (ok _) s' st h = st a h
  Holds-finally (raised e) s (ok _) s' st h = tt
  Holds-finally r s (raised e) s' st h = tt

module _ {ℓ} {A : Type ℓ} (Q : A → Sys → Type 0) where
  Holds-with :
      (C : Type 0) (r : Result A) (s : Sys) → C → Holds Q (r, s) → Holds (λ a t. C × Q a t) (r, s)
  Holds-with C (ok a) s c h = (c, h)
  Holds-with C (raised e) s c h = tt

module _ {ℓ κ} {A : Type ℓ} {B : Type κ} (Q : B → Sys → Type 0) where
  Holds-continue :
      (R : A → Sys → Type 0) (r : Result A) (f : A → Exec B) (s : Sys)
      → Holds R (r, s)
      → ((a : A) → Yields (R a) Q (f a))
      → Holds Q (continue r f s)
  Holds-continue R (ok a) f s h yf = (yf a).at s h
  Holds-continue R (raised e) f s h yf = tt

  Holds-after :
      (r : Result A) (f : A → Exec B) (s : Sys)
      → ((a : A) → Yields Anything Q (f a))
      → Holds Q (continue r f s)
  Holds-after (ok a) f s yf = (yf a).at s tt
  Holds-after (raised e) f s yf = tt

module _ {ℓ} {A : Type ℓ} (Q Q' : A → Sys → Type 0) where
  Holds-post :
      (r : Result A) (s : Sys)
      → ((a : A) (s : Sys) → Q a s → Q' a s)
      → Holds Q (r, s)
      → Holds Q' (r, s)
  Holds-post (ok a) s f h = f a s h
  Holds-post (raised e) s f h = tt

module _ {ℓ} {A : Type ℓ} (P : Sys → Type 0) where
  Holds-kept : (r : Result A) (s : Sys) → P s → Holds (λ _. P) (r, s)
  Holds-kept (ok a) s p = p
  Holds-kept (raised e) s p = tt

module _ {ℓ} {A : Type ℓ} {P : Sys → Type 0} {Q : A → Sys → Type 0} where
  pub Yields-pure : (a : A) → ((s : Sys) → P s → Q a s) → Yields P Q (pure a)
  unfolding pure
  Yields-pure a h = record { at = h }

  pub Yields-raise : (e : Exn) → Yields P Q (raise e)
  unfolding raise
  Yields-raise e = record { at = λ s p. tt }

  pub Yields-lift :
      (r : Result A) → ((a : A) → r ≡ ok a → (s : Sys) → P s → Q a s) → Yields P Q (lift r)
  unfolding lift
  Yields-lift (ok a) h = record { at = h a refl }
  Yields-lift (raised e) h = record { at = λ s p. tt }

  pub Yields-gets : (f : Sys → A) → ((s : Sys) → P s → Q (f s) s) → Yields P Q (gets f)
  unfolding gets
  Yields-gets f h = record { at = h }

  pub Yields-if :
      (b : Bool) (m n : Exec A) → Yields P Q m → Yields P Q n → Yields P Q (if b then m else n)
  Yields-if true m n ym yn = ym
  Yields-if false m n ym yn = yn

  -- the branches may use which one it is
  pub Yields-if_cases :
      (b : Bool) (m n : Exec A)
      → (b ≡ true → Yields P Q m)
      → (b ≡ false → Yields P Q n)
      → Yields P Q (if b then m else n)
  Yields-if_cases true m n ym yn = ym refl
  Yields-if_cases false m n ym yn = yn refl

  -- what holds before does not matter
  pub Yields-weaken : (m : Exec A) → Yields Anything Q m → Yields P Q m
  Yields-weaken m y = record { at = λ s _. y.at s tt }

  -- a fact that does not change
  pub Yields-with :
      {C : Type 0} (m : Exec A)
      → ((s : Sys) → P s → C)
      → Yields P Q m
      → Yields P (λ a s. C × Q a s) m
  Yields-with m c y = record {
    at = λ s p. let (r, s') = m s in Holds-with Q _ r s' (c s p) (y.at s p);
  }

  pub Yields-post :
      {Q' : A → Sys → Type 0} (m : Exec A)
      → ((a : A) (s : Sys) → Q' a s → Q a s)
      → Yields P Q' m
      → Yields P Q m
  Yields-post m f y = record { at = λ s p. let (r, s') = m s in Holds-post _ Q r s' f (y.at s p) }

  pub Yields-mono :
      {P' : Sys → Type 0} (m : Exec A) → ((s : Sys) → P s → P' s) → Yields P' Q m → Yields P Q m
  Yields-mono m f y = record { at = λ s p. y.at s (f s p) }

  pub Yields-catch :
      (m : Exec A) (h : Exn → Exec A)
      → Yields P Q m
      → ((e : Exn) → Yields Anything Q (h e))
      → Yields P Q (catch m h)
  unfolding catch
  Yields-catch m h ym yh = record {
    at = λ s p. let (r, s') = m s in Holds-handle Q r h s' (ym.at s p) yh;
  }

  -- an action at the end that changes nothing that Q speaks of
  pub Yields-finally :
      (m : Exec A) (f : Exec (Unit {0}))
      → ((a : A) (s : Sys) → Q a s → Q a (f s).1)
      → Yields P Q m
      → Yields P Q (finally m f)
  unfolding finally
  Yields-finally m f st ym = record {
    at = λ s p.
        let (r, s') = m s in
        let (q, s'') = f s' in Holds-finally Q r s' q s'' (λ a. st a s') (ym.at s p);
  }

pub Yields-modify :
    {P : Sys → Type 0} {Q : Unit → Sys → Type 0} (f : Sys → Sys)
    → ((s : Sys) → P s → Q tt (f s))
    → Yields P Q (modify f)
unfolding modify
Yields-modify f h = record { at = h }

module _ {ℓ κ} {A : Type ℓ} {B : Type κ} {P : Sys → Type 0} {Q : B → Sys → Type 0} where
  pub Yields-bind :
      {R : A → Sys → Type 0} (m : Exec A) (f : A → Exec B)
      → Yields P R m
      → ((a : A) → Yields (R a) Q (f a))
      → Yields P Q (m >>= f)
  unfolding ◌>>=◌
  Yields-bind m f ym yf = record {
    at = λ s p. let (r, s') = m s in Holds-continue Q _ r f s' (ym.at s p) yf;
  }

  -- what the first action did does not matter
  pub Yields-after :
      (m : Exec A) (f : A → Exec B) → ((a : A) → Yields Anything Q (f a)) → Yields P Q (m >>= f)
  unfolding ◌>>=◌
  Yields-after m f yf = record { at = λ s p. let (r, s') = m s in Holds-after Q r f s' yf }

  -- the rest of a block may use that a pure computation did not raise
  pub Yields-bind_lift :
      (r : Result A) (f : A → Exec B)
      → ((a : A) → r ≡ ok a → Yields P Q (f a))
      → Yields P Q (lift r >>= f)
  unfolding ◌>>=◌ lift
  Yields-bind_lift (ok a) f yf = record { at = (yf a refl).at }
  Yields-bind_lift (raised e) f yf = record { at = λ s p. tt }

  pub Yields-given :
      (o : Option A) (m : Exec B) (f : A → Exec B)
      → Yields P Q m
      → ((a : A) → Yields P Q (f a))
      → Yields P Q (given o m f)
  unfolding given
  Yields-given none m f ym yf = record { at = ym.at }
  Yields-given (some a) m f ym yf = record { at = (yf a).at }

module _ {ℓ κ} {A : Type ℓ} {B : Type κ} {P : Sys → Type 0} {Q : B → Sys → Type 0} where
  -- the branches may use which one it is
  pub Yields-given_cases :
      (o : Option A) (m : Exec B) (f : A → Exec B)
      → (o ≡ none → Yields P Q m)
      → ((a : A) → o ≡ some a → Yields P Q (f a))
      → Yields P Q (given o m f)
  unfolding given
  Yields-given_cases none m f ym yf = record { at = (ym refl).at }
  Yields-given_cases (some a) m f ym yf = record { at = (yf a refl).at }

module _ {ℓ} {A : Type ℓ} {P : Sys → Type 0} where
  -- an invariant is what an action yields
  pub Yields-kept : (m : Exec A) → Keeps P m → Yields P (λ _. P) m
  Yields-kept m k = record { at = λ s p. let (r, s') = m s in Holds-kept P r s' (k.at s p) }

-- what an action yields from P and what it keeps of I
pub Yields-pair {ℓ} :
    {A : Type ℓ} {P I : Sys → Type 0} {Q : A → Sys → Type 0} (m : Exec A)
    → Yields P Q m
    → Keeps I m
    → Yields (λ s. P s × I s) (λ a s. Q a s × I s) m
Yields-pair {A} {P} {I} {Q} m y k = record {
  at = λ s p. let (r, s') = m s in both r s' (y.at s p.0) (k.at s p.1);
}
  where
    both : (r : Result A) (s : Sys) → Holds Q (r, s) → I s → Holds (λ a s. Q a s × I s) (r, s)
    both (ok a) s q p = (q, p)
    both (raised e) s q p = tt

-- what an action yields, with its invariant
pub Yields-both {ℓ} :
    {A : Type ℓ} {P : Sys → Type 0} {Q : A → Sys → Type 0} (m : Exec A)
    → Yields P Q m
    → Keeps P m
    → Yields P (λ a s. Q a s × P s) m
Yields-both m y k = record { at = λ s p. (Yields-pair m y k).at s (p, p) }

module _ {ℓ κ} {A : Type ℓ} {B : Type κ} {P : Sys → Type 0} {R : A → Sys → Type 0} where
  Keeps-continue-Yields :
      (r : Result A) (f : A → Exec B) (s : Sys)
      → Holds R (r, s)
      → P s
      → ((a : A) (s : Sys) → R a s → P s → P (f a s).1)
      → P (continue r f s).1
  Keeps-continue-Yields (ok a) f s h p k = k a s h p
  Keeps-continue-Yields (raised e) f s h p k = p

  -- an invariant whose second part needs what the first one established
  pub Keeps-bind-Yields :
      (m : Exec A) (f : A → Exec B)
      → Keeps P m
      → Yields Anything R m
      → ((a : A) (s : Sys) → R a s → P s → P (f a s).1)
      → Keeps P (m >>= f)
  unfolding ◌>>=◌
  Keeps-bind-Yields m f km ym k = record {
    at = λ s p. let (r, s') = m s in Keeps-continue-Yields r f s' (ym.at s tt) (km.at s p) k;
  }

pub ruleset yields_rules = (Yields-raise, Yields-if, Yields-after, Yields-given, Yields-catch)
