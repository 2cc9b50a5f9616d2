-- ===== src/Services/Setup/Laws.antt =====
-- What the confirmation of a host key in app/services/setup_service.py may write.
use mathlib.Core.List
use mathlib.Core.Path.{◌∙◌, subst}
use remote_ai_bridge.Prelude.{
  ℕ, String, ◌≡◌, ◌⊎◌, inl, inr, refl, sym, ap, Bool, true, false, Option, none, some, [], ◌∷◌,
  ◌++◌, ◌==◌, eq_iff,
}
use remote_ai_bridge.Exec.{Env, Sys, Exec, Trace, pure, ask, modify, file_operation, ◌>>◌}
use remote_ai_bridge.Exec.Keeps.{
  Keeps, Keeps-ask, Keeps-bind, Keeps-catch, Keeps-lift, Keeps-raise, Keeps-pure, Keeps-given,
  keeps_rules,
}
use remote_ai_bridge.Exec.Yields.{
  Anything, Yields, Yields-gets, Yields-pure, Yields-bind, Yields-after, Yields-weaken, Yields-kept,
  Yields-raise, Yields-bind_lift, Yields-given_cases,
}
use remote_ai_bridge.Exec.Leads.{
  Leads, Leads-then, Leads-finally, Leads-raise, Leads-if, Leads-mono, Leads-bind, Leads-from,
}
use remote_ai_bridge.Infrastructure.Store.Reads.{file_operation-Keeps}
use remote_ai_bridge.Infrastructure.HostKeys.{
  HostKeyInfo, exact_line, read_existing, read_lines, write_lines, HostStatus, unknown, confirmed,
  changed, conclude_status, is_confirmed, add_line, confirm,
}
use remote_ai_bridge.Infrastructure.HostKeys.Laws.{known_lines}
use remote_ai_bridge.Services.Setup.{
  confirm_host_key, confirm_key, confirm_shown, reject_unless, handshake, close_session, info_of,
}

module _ (env : Env) (file : Option (List.List String)) where
  Same : Sys → Type 0
  Same s = s.known_hosts ≡ file

  stable : (s : Sys) (t : Trace) → Same s → Same (record s { trace = t })
  unfolding Same
  stable s t h = h

  Same-file_operation : Keeps Same (file_operation env)
  Same-file_operation = file_operation-Keeps env Same stable

  nothing : {A : Type 0} {P : Sys → Type 0} (m : Exec A) → Yields P (λ _ _. Unit {0}) m
  nothing m = Yields-weaken m (Yields-kept m (record { at = λ s h. tt }))

  with_unit : {A : Type 0} (m : Exec A) → Keeps Same m → Keeps (λ s. Unit {0} × Same s) m
  with_unit m k = record { at = λ s h. (tt, k.at s h.1) }

  Same-read_existing : (o : Option (List.List String)) → Keeps Same (read_existing env o)
  unfolding read_existing
  Same-read_existing none = Keeps-pure _
  Same-read_existing (some ls) = search (keeps_rules, Same-file_operation) depth 8

  Same-read_lines : Keeps Same (read_lines env)
  unfolding read_lines
  Same-read_lines = search (keeps_rules, Same-read_existing)

  Same-conclude_status :
      (info : HostKeyInfo) (j : HostStatus) → Keeps Same (conclude_status env info j)
  unfolding conclude_status
  Same-conclude_status info unknown = Keeps-pure _
  Same-conclude_status info confirmed = Keeps-pure _
  Same-conclude_status info changed = Keeps-raise _

  Same-is_confirmed : (info : HostKeyInfo) → Keeps Same (is_confirmed env info)
  unfolding is_confirmed
  Same-is_confirmed info = search (keeps_rules, Same-read_lines, Same-conclude_status) depth 8

  read_existing-Yields :
      (o : Option (List.List String))
      → Yields Anything (λ ls _. ls ≡ known_lines o) (read_existing env o)
  unfolding read_existing known_lines
  read_existing-Yields none = Yields-pure _ (λ s _. refl)
  read_existing-Yields (some ls) = Yields-after _ _ λ _. Yields-pure _ (λ s _. refl)

  read_lines-Yields : Yields Same (λ ls _. ls ≡ known_lines file) (read_lines env)
  unfolding read_lines Same
  read_lines-Yields =
      Yields-bind {R = λ o _. o ≡ file} _ _ (Yields-gets _ (λ s h. h))
        λ o. record { at = λ s e. (reads o e).at s tt }
    where
      reads :
          (o : Option (List.List String))
          → o ≡ file
          → Yields Anything (λ ls _. ls ≡ known_lines file) (read_existing env o)
      reads o e =
          subst (λ f. Yields Anything (λ ls _. ls ≡ known_lines f) (read_existing env o)) e
            (read_existing-Yields o)

  Written : HostKeyInfo → Sys → Type 0
  Written info s = s.known_hosts ≡ some (known_lines file ++ (exact_line info ∷ []))

  Ends : HostKeyInfo → Sys → Type 0
  Ends info s = Same s ⊎ Written info s

  write_lines-Leads :
      (info : HostKeyInfo) (ls : List.List String)
      → ls ≡ known_lines file ++ (exact_line info ∷ [])
      → Leads Same (Ends info) (write_lines env ls)
  unfolding write_lines modify Ends Written
  write_lines-Leads info ls e =
      Leads-bind {R = λ _ _. Unit {0}} _ _ (λ t h. inl h) Same-file_operation (nothing _)
        λ _.
          Leads-bind {R = λ _ _. Unit {0}} _ _ (λ t h. inl h.1)
            (Keeps-catch _ _ (with_unit _ Same-file_operation) (λ x. Keeps-raise _)) (nothing _)
            λ _. record { at = λ s h. inr (ap some e) }

  add_line-Leads : (info : HostKeyInfo) → Leads Same (Ends info) (add_line env info)
  unfolding add_line Ends
  add_line-Leads info =
      Leads-bind {R = λ _ _. Unit {0}} _ _ (λ t h. inl h) (Keeps-lift _) (nothing _)
        λ _.
          Leads-mono _ (λ s h. h.1)
            (Leads-bind _ _ (λ t h. inl h) Same-read_lines read_lines-Yields
              λ ls. record { at = λ s h. (added ls h.0).at s h.1 })
    where
      added :
          (ls : List.List String)
          → ls ≡ known_lines file
          → Leads Same (Ends info) (write_lines env (ls ++ (exact_line info ∷ [])) >> pure true)
      added ls e =
          Leads-then _ _ (write_lines-Leads info _ (ap (λ l. l ++ (exact_line info ∷ [])) e))
            (λ _. Keeps-pure true)

  confirm-Leads : (info : HostKeyInfo) → Leads Same (Ends info) (confirm env info true)
  unfolding confirm Ends pure
  confirm-Leads info =
      Leads-bind {R = λ _ _. Unit {0}} _ _ (λ t h. inl h) (Same-is_confirmed info) (nothing _)
        λ known.
          Leads-mono _ (λ s h. h.1)
            (Leads-if known _ _ (λ _. record { at = λ s h. inl h }) (λ _. add_line-Leads info))

  confirm_shown-Leads : (info : HostKeyInfo) → Leads Same (Ends info) (confirm_shown env info)
  unfolding confirm_shown
  confirm_shown-Leads info = Leads-then _ _ (confirm-Leads info) (λ _. Keeps-pure _)

  -- the file as before, or with the line of an accepted key that has the expected fingerprint
  Decided : String → Bool → HostKeyInfo → Sys → Type 0
  Decided expected accepted info s =
      (s.known_hosts ≡ file)
      ⊎ ((accepted ≡ true)
          × (info.fingerprint ≡ expected)
          × (s.known_hosts ≡ some (known_lines file ++ (exact_line info ∷ []))))

  decided :
      (expected : String) (accepted : Bool) (info : HostKeyInfo) (s : Sys)
      → accepted ≡ true
      → info.fingerprint ≡ expected
      → Ends info s
      → Decided expected accepted info s
  unfolding Ends Decided Same Written
  decided expected accepted info s a f (inl h) = inl h
  decided expected accepted info s a f (inr h) = inr (a, f, h)

  reject_unless-Keeps :
      (accepted : Bool) (info : HostKeyInfo) → Keeps Same (reject_unless env accepted info)
  unfolding reject_unless confirm
  reject_unless-Keeps true info = Keeps-pure tt
  reject_unless-Keeps false info = Keeps-bind _ _ (Keeps-raise _) (λ _. Keeps-pure tt)

  reject_unless-Yields :
      (accepted : Bool) (info : HostKeyInfo)
      → Yields Same (λ _ _. accepted ≡ true) (reject_unless env accepted info)
  unfolding reject_unless confirm
  reject_unless-Yields true info = Yields-pure tt (λ s h. refl)
  reject_unless-Yields false info =
      Yields-bind {R = λ _ _. false ≡ true} _ _ (Yields-raise _) (λ _. Yields-pure tt (λ s h. h))

  confirm_key-Leads :
      (expected : String) (accepted : Bool) (info : HostKeyInfo)
      → Leads Same (Decided expected accepted info) (confirm_key env expected accepted info)
  unfolding confirm_key Decided Same
  confirm_key-Leads expected accepted info =
      Leads-bind _ _ (λ t h. inl h) (reject_unless-Keeps accepted info)
        (reject_unless-Yields accepted info)
        λ _.
          Leads-if (expected == info.fingerprint) _ _
            (λ e. record {
              at = λ s h.
                  decided expected accepted info _ h.0
                    (sym ((eq_iff expected info.fingerprint).0 e))
                    ((confirm_shown-Leads info).at s h.1);
            })
            (λ _. Leads-raise _ (λ s h. inl h.1))

  Same-handshake : (host : String) (port : ℕ) → Keeps Same (handshake env host port)
  unfolding handshake
  Same-handshake host port = Keeps-bind _ _ (Keeps-lift _) λ _.
      Keeps-bind _ _ (Keeps-ask _ _ (λ s a h. stable s _ h))
        λ shown. Keeps-given shown _ _ (Keeps-raise _) (λ key. Keeps-pure _)

  close_session-Keeps :
      (expected : String) (accepted : Bool) (info : HostKeyInfo)
      → Keeps (Decided expected accepted info) (close_session env)
  unfolding close_session Decided
  close_session-Keeps expected accepted info = Keeps-ask _ _ (λ s a h. h)

  -- the key that the server shows after these events
  IsShown : Trace → String → ℕ → HostKeyInfo → Type 0
  IsShown t host port info =
      (key : String × String × String) × (env.server_key t host port ≡ some key)
      × (info ≡ info_of host port key)

  handshake-IsShown :
      (host : String) (port : ℕ) (t : Trace)
      → Yields (λ s. s.trace ≡ t) (λ info _. IsShown t host port info) (handshake env host port)
  unfolding handshake IsShown ask
  handshake-IsShown host port t = Yields-bind_lift _ _ λ _ _.
      Yields-bind {R = λ shown _. shown ≡ env.server_key t host port} _ _
        (record { at = λ s e. ap (λ h. env.server_key h host port) e })
        λ shown.
          Yields-given_cases shown _ _ (λ _. Yields-raise _)
            (λ key e. Yields-pure _ (λ s h. (key, sym h ∙ e, refl)))

  -- what the confirmation ends with, of the key that the server showed
  IsConfirmed : Trace → String → ℕ → String → Bool → Sys → Type 0
  IsConfirmed t host port expected accepted s =
      (s.known_hosts ≡ file)
      ⊎ ((accepted ≡ true)
          × ((key_type : String) × (key : String) × (env.server_key t host port
                ≡ some (key_type, expected, key))
              × (s.known_hosts
                  ≡ some (
                      known_lines file
                      ++ (exact_line (info_of host port (key_type, expected, key)) ∷ [])))))

  shown-Decided :
      (host : String) (port : ℕ) (expected : String) (accepted : Bool) (t : Trace)
      (info : HostKeyInfo) (s : Sys)
      → IsShown t host port info
      → Decided expected accepted info s
      → IsConfirmed t host port expected accepted s
  unfolding IsShown Decided IsConfirmed
  shown-Decided host port expected accepted t info s shown (inl h) = inl h
  shown-Decided host port expected accepted t info s (key, shown, e) (inr (a, f, h)) =
      let q = sym (ap (λ i. i.fingerprint) e) ∙ f in
      inr (
        a,
        (
          key.0,
          key.2,
          shown ∙ ap (λ x. some (key.0, x, key.2)) q,
          h
              ∙ ap (λ i. some (known_lines file ++ (exact_line i ∷ [])))
                  (e ∙ ap (λ x. info_of host port (key.0, x, key.2)) q),
        ),
      )

  confirm_host_key-Leads :
      (host : String) (port : ℕ) (expected : String) (accepted : Bool) (s : Sys)
      → Same s
      → IsConfirmed s.trace host port expected accepted
          (confirm_host_key env host port expected accepted s).1
  unfolding confirm_host_key Same IsConfirmed
  confirm_host_key-Leads host port expected accepted s same =
      Leads-from {P = Same} {Q = IsConfirmed s.trace host port expected accepted}
        {R = λ info _. IsShown s.trace host port info} _ _ s (λ t h. inl h)
        (Same-handshake host port) same ((handshake-IsShown host port s.trace).at s refl)
        λ info. record {
          at = λ u h. shown-Decided host port expected accepted s.trace info _ h.0 (
              (Leads-finally _ _ (confirm_key-Leads expected accepted info)
                  (close_session-Keeps expected accepted info)).at
                u h.1);
        }

-- Whatever the server, the files and the user do: confirming a host key leaves the known_hosts file
-- as it is, or makes it its lines but the blank ones and one more at the end, and then the user
-- accepted, and the line is that of the key which the server showed in this call's handshake, whose
-- fingerprint was the one that the user was shown before.
pub confirm_host_key-Decided :
    (env : Env) (host : String) (port : ℕ) (expected : String) (accepted : Bool) (s : Sys)
    → let t = (confirm_host_key env host port expected accepted s).1 in
      (t.known_hosts ≡ s.known_hosts)
      ⊎ ((accepted ≡ true)
          × ((key_type : String) × (key : String) × (env.server_key s.trace host port
                ≡ some (key_type, expected, key))
              × (t.known_hosts
                  ≡ some (
                      known_lines s.known_hosts
                      ++ (exact_line (info_of host port (key_type, expected, key)) ∷ [])))))
unfolding IsConfirmed Same
confirm_host_key-Decided env host port expected accepted s =
    confirm_host_key-Leads env s.known_hosts host port expected accepted s refl
