-- ===== src/Api/Laws.antt =====
-- What app/api tells a client of a stop that failed, and what an answer of the disconnect route means.
use remote_ai_bridge.Prelude.{
  ℕ, String, ◌≡◌, ◌⊎◌, ◌↔◌, refl, sym, ap, inl, inr, true, false, Option, none, some, [], ◌∷◌, get,
  or_else, ◌==◌, arith, Bool-cases, eq_iff, if◌then◌else◌,
}
use mathlib.Core.Path.{◌∙◌, subst}
use remote_ai_bridge.Domain.Errors.{
  Detail, text, RabError, Result, ok, raised, rab, profile_validation, profile_not_found,
  profile_lock, file_exists, tunnel, port_conflict, os_error, value_error,
}
use remote_ai_bridge.Domain.Snapshot.{SupervisorSnapshot, stopped, failed, is_failed}
use remote_ai_bridge.Exec.{Env, Sys}
use remote_ai_bridge.Exec.Yields.{
  Holds, Yields, Yields-pure, Yields-bind, Yields-bind_lift, Yields-after, Yields-if_cases,
  Yields-raise,
}
use remote_ai_bridge.Invariant.Trace.{IsSound}
use remote_ai_bridge.Services.Runtime.Unsupervised.{RuntimeStopResult, stop_unsupervised}
use remote_ai_bridge.Services.Runtime.Unsupervised.Laws.{IsTruthful, stop_unsupervised-IsTruthful}
use remote_ai_bridge.Api.{
  status_code, is_public, is_retryable, stop_error, stop_failure_error, conclude_stop,
  disconnect_route, translate_name, validated_profile_name,
}

text_or : Option Detail → String → String
text_or (some (text t)) d = t
text_or _ d = d

-- the code that the stop failed with, from the error alone
pub cause : RabError → String
cause e = text_or (get "stop_error_code" e.details) e.code

IsStopStatus : ℕ → Type 0
IsStopStatus n = (n ≡ 409) ⊎ (n ≡ 503) ⊎ (n ≡ 500)

-- a failure after which the client may try again: the profile is busy, a stop is in progress, or the
-- process did not exit in time
abbrev pub IsTransient : String → Type 0
IsTransient code =
    (code ≡ "PROFILE_BUSY") ⊎ (code ≡ "RUNTIME_STOP_IN_PROGRESS") ⊎ (code ≡ "PROCESS_STOP_TIMEOUT")

is_retryable_iff : (code : String) → (is_retryable code ≡ true) ↔ IsTransient code
is_retryable_iff code = ground (
  arith,
  eq_iff "PROFILE_BUSY" code,
  eq_iff "RUNTIME_STOP_IN_PROGRESS" code,
  eq_iff "PROCESS_STOP_TIMEOUT" code,
)

IsTold : String → RabError → Type 0
IsTold original e =
    (cause e ≡ original) × (e.retryable ≡ is_retryable original) × IsStopStatus (status_code e.code)

IsTold-at :
    (name code original : String)
    → (code == original) ≡ true
    → IsTold code (stop_error name code)
    → IsTold original (stop_error name original)
IsTold-at name code original e h =
    subst (λ o. IsTold o (stop_error name o)) ((eq_iff code original).0 e) h

-- a code that is not public
hidden-IsTold :
    (name original : String)
    → is_public original ≡ false
    → is_retryable original ≡ false
    → ("RUNTIME_STOP_FAILED" == original) ≡ false
    → IsTold original (stop_error name original)
unfolding IsTold cause text_or stop_error status_code IsStopStatus get
hidden-IsTold name original p r e =
    subst
      (λ (x : RabError).
        (cause x ≡ original)
        × (x.retryable ≡ is_retryable original)
        × IsStopStatus (status_code x.code))
      (sym shape) (refl, sym r, inr (inr refl))
  where
    shape : stop_error name original ≡ record {
      code = "RUNTIME_STOP_FAILED";
      retryable = false;
      details = ("name", text name) ∷ ("stop_error_code", text original) ∷ [];
    }
    shape = simp (p, e)

stop_error-IsTold : (name original : String) → IsTold original (stop_error name original)
unfolding IsTold cause text_or stop_error status_code IsStopStatus get
stop_error-IsTold name original = elim (Bool-cases ("PROFILE_BUSY" == original)) [
  | inl e ↦ IsTold-at name "PROFILE_BUSY" original e (refl, refl, inl refl)
  | inr a ↦ elim (Bool-cases ("RUNTIME_STOP_IN_PROGRESS" == original)) [
    | inl e ↦ IsTold-at name "RUNTIME_STOP_IN_PROGRESS" original e (refl, refl, inl refl)
    | inr b ↦ elim (Bool-cases ("PROCESS_IDENTITY_MISMATCH" == original)) [
      | inl e ↦ IsTold-at name "PROCESS_IDENTITY_MISMATCH" original e (refl, refl, inl refl)
      | inr c ↦ elim (Bool-cases ("PROCESS_STOP_TIMEOUT" == original)) [
        | inl e ↦ IsTold-at name "PROCESS_STOP_TIMEOUT" original e (refl, refl, inr (inl refl))
        | inr d ↦ elim (Bool-cases ("RUNTIME_STOP_FAILED" == original)) [
          | inl e ↦ IsTold-at name "RUNTIME_STOP_FAILED" original e (refl, refl, inr (inr refl))
          | inr e ↦
              hidden-IsTold name original (ground (arith, a, b, c, d)) (ground (arith, a, b, d)) e
        ]
      ]
    ]
  ]
]

-- A stop that failed is told as an error with the status 409, 503 or 500, from which the code of the
-- failure can be read, whether it is public or not; it is retryable exactly when the failure is one
-- of a busy profile, a stop in progress or a process that did not exit in time.
pub stop_failure_error-IsTold :
    (n : SupervisorSnapshot)
    → n.state ≡ failed
    → (e : RabError) × (stop_failure_error n ≡ ok e)
      × (cause e ≡ or_else n.error_code "RUNTIME_STOP_FAILED")
      × ((e.retryable ≡ true) ↔ IsTransient (or_else n.error_code "RUNTIME_STOP_FAILED"))
      × ((status_code e.code ≡ 409) ⊎ (status_code e.code ≡ 503) ⊎ (status_code e.code ≡ 500))
unfolding stop_failure_error IsTold IsStopStatus
stop_failure_error-IsTold n h =
    let original = or_else n.error_code "RUNTIME_STOP_FAILED" in
    let (c, r, k) = stop_error-IsTold n.profile_name original in
    (
      stop_error n.profile_name original,
      ap
          (λ st.
            if is_failed st then ok (stop_error n.profile_name original) else raised value_error)
          h,
      c,
      subst (λ b. (b ≡ true) ↔ IsTransient original) (sym r) (is_retryable_iff original),
      k,
    )

not-failed :
    (r : RuntimeStopResult) → is_failed r.snapshot.state ≡ false → r.snapshot.state ≡ failed → ⊥
not-failed r h e = ground (arith, sym (ap is_failed e) ∙ h)

conclude_stop-Yields :
    (name : String) (r : RuntimeStopResult)
    → Yields
        (IsTruthful name r)
        (λ n s. (n.state ≡ stopped) × (get name s.runtimes ≡ none))
        (conclude_stop r)
unfolding conclude_stop
conclude_stop-Yields name r =
    Yields-if_cases (is_failed r.snapshot.state) _ _ (λ _. Yields-after _ _ (λ e. Yields-raise _))
      (λ h. Yields-pure r.snapshot (λ s t. over h s t t.ended))
  where
    over :
        is_failed r.snapshot.state ≡ false
        → (s : Sys) → IsTruthful name r s
        → (r.snapshot.state ≡ stopped) ⊎ (r.snapshot.state ≡ failed)
        → (r.snapshot.state ≡ stopped) × (get name s.runtimes ≡ none)
    over h s t (inl e) = (e, t.when_stopped e)
    over h s t (inr e) = elim (not-failed r h e) [ ]

translate_name-same :
    (name selected : String) (r : Result Unit)
    → translate_name name r ≡ ok selected
    → selected ≡ name
unfolding translate_name
translate_name-same name selected (ok _) h = ground (arith, h)
translate_name-same name selected (raised (profile_validation t)) h = ground (arith, h)
translate_name-same name selected (raised (rab e)) h = ground (arith, h)
translate_name-same name selected (raised profile_not_found) h = ground (arith, h)
translate_name-same name selected (raised profile_lock) h = ground (arith, h)
translate_name-same name selected (raised file_exists) h = ground (arith, h)
translate_name-same name selected (raised (tunnel t)) h = ground (arith, h)
translate_name-same name selected (raised (port_conflict p o)) h = ground (arith, h)
translate_name-same name selected (raised value_error) h = ground (arith, h)
translate_name-same name selected (raised os_error) h = ground (arith, h)

-- When no thread supervises a profile and the route that disconnects it answers with a snapshot, the
-- tunnel is stopped and no runtime state of it is left.
pub disconnect_route-stopped :
    (env : Env) (name : String) (s : Sys)
    → IsSound env 0 s
    → Holds
        (λ n t. (n.state ≡ stopped) × (get name t.runtimes ≡ none))
        (disconnect_route (stop_unsupervised env) name s)
unfolding disconnect_route validated_profile_name
disconnect_route-stopped env name s h =
    (Yields-bind_lift _ _ λ selected e.
        Yields-bind _ _ (stopping selected (translate_name-same name selected _ e))
          (conclude_stop-Yields name)).at
      s h
  where
    stopping :
        (selected : String)
        → selected ≡ name
        → Yields (IsSound env 0) (IsTruthful name) (stop_unsupervised env selected)
    stopping selected e =
        subst (λ m. Yields (IsSound env 0) (IsTruthful name) (stop_unsupervised env m)) (sym e)
          (record { at = stop_unsupervised-IsTruthful env name })
