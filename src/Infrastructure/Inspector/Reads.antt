-- ===== src/Infrastructure/Inspector/Reads.antt =====
-- The inspector of app/infrastructure/process_identity.py changes nothing but the trace: it keeps
-- whatever does not speak of it.
use remote_ai_bridge.Prelude.{ℕ, zero, suc, Bool, true, false, is_some}
use remote_ai_bridge.Domain.Runtime.{RuntimeState}
use remote_ai_bridge.Exec.{Env, Sys, Trace, Event, ask}
use remote_ai_bridge.Exec.Keeps.{Keeps, Keeps-ask, Keeps-bind, Keeps-if, Keeps-pure, keeps_rules}
use remote_ai_bridge.Infrastructure.Inspector.{
  get_identity, matches, await_exit, signal, confirm_exit, terminate_matching, terminate_owned,
}

module _ (env : Env) (P : Sys → Type 0)
    (stable : (s : Sys) (t : Trace) → P s → P (record s { trace = t })) where
  asked-Keeps : {A : Type 0} (f : Trace → A) (e : A → Event) → Keeps P (ask f e)
  asked-Keeps f e = Keeps-ask f e (λ s a h. stable s _ h)

  get_identity-Keeps : (pid : ℕ) → Keeps P (get_identity env pid)
  unfolding get_identity
  get_identity-Keeps pid = asked-Keeps _ _

  pub matches-Keeps : (r : RuntimeState) → Keeps P (matches env r)
  unfolding matches
  matches-Keeps r = search (keeps_rules, get_identity-Keeps)

  await_exit-Keeps : (pid rounds : ℕ) → Keeps P (await_exit env pid rounds)
  unfolding await_exit
  await_exit-Keeps pid zero = Keeps-pure false
  await_exit-Keeps pid (suc rounds) =
      Keeps-bind _ _ (get_identity-Keeps pid)
        λ found. Keeps-if (is_some found) _ _ (await_exit-Keeps pid rounds) (Keeps-pure true)

  signal-Keeps : (r : RuntimeState) → Keeps P (signal env r)
  unfolding signal
  signal-Keeps r = search (keeps_rules, asked-Keeps) depth 8

  confirm_exit-Keeps : (r : RuntimeState) (b : Bool) → Keeps P (confirm_exit env r b)
  unfolding confirm_exit
  confirm_exit-Keeps r true = search (keeps_rules, asked-Keeps, await_exit-Keeps)
  confirm_exit-Keeps r false = Keeps-pure false

  terminate_matching-Keeps : (r : RuntimeState) (b : Bool) → Keeps P (terminate_matching env r b)
  unfolding terminate_matching
  terminate_matching-Keeps r true = search (keeps_rules, signal-Keeps, confirm_exit-Keeps)
  terminate_matching-Keeps r false = Keeps-pure false

  pub terminate_owned-Keeps : (r : RuntimeState) → Keeps P (terminate_owned env r)
  unfolding terminate_owned
  terminate_owned-Keeps r = search (keeps_rules, matches-Keeps, terminate_matching-Keeps)
