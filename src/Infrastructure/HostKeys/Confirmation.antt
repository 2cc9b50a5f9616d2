-- ===== src/Infrastructure/HostKeys/Confirmation.antt =====
-- What confirming a host key, asking for it and taking it back in
-- app/infrastructure/host_key_store.py do to the known_hosts file.
use mathlib.Core.List
use mathlib.Core.Path.{◌∙◌}
use remote_ai_bridge.Prelude.{
  String, ◌≡◌, ◌≢◌, refl, ap, true, false, Option, none, some, [], ◌∷◌, ◌++◌, if◌then◌else◌,
}
use remote_ai_bridge.Domain.Errors.{Exn, ok, raised}
use remote_ai_bridge.Exec.{
  Env, Sys, Exec, Trace, touched, pure, raise, catch, gets, modify, file_operation, ◌>>=◌,
}
use remote_ai_bridge.Exec.Runs.{bind-ok, bind-raised, bind-lift, file_operation-works}
use remote_ai_bridge.Infrastructure.HostKeys.{
  HostKeyInfo, host_token, exact_line, entries_for, HostStatus, unknown, confirmed, changed, judge,
  validate_key, read_lines, read_existing, write_lines, conclude_status, is_confirmed, add_line,
  confirm, remove_if_matches, has_line, remove_line, host_key_changed,
}
use remote_ai_bridge.Infrastructure.HostKeys.Laws.{
  IsPlain, known_lines, has_line-last, remove_line-last, judge-added, judge-unknown, absent,
  nonblank-added,
}
use remote_ai_bridge.Infrastructure.HostKeys.Changed.{IsNamed, IsNotGiven, judge-IsNamed}

module _ (env : Env) (working : (t : Trace) → env.io_fails t ≡ false) where
  caught :
      (h : Exn → Exec Unit) (s : Sys)
      → catch (file_operation env) h s ≡ (ok tt, record s { trace = touched ∷ s.trace })
  unfolding catch
  caught h s = simp (file_operation-works env s (working s.trace))

  read_existing-run :
      (file : Option (List.List String)) (s : Sys)
      → (t : Trace) × (read_existing env file s ≡ (ok (known_lines file), record s { trace = t }))
  unfolding read_existing known_lines pure
  read_existing-run none s = (s.trace, refl)
  read_existing-run (some ls) s =
      (touched ∷ s.trace, bind-ok _ _ s (record s { trace = touched ∷ s.trace }) tt (caught _ s))

  read_lines-run :
      (s : Sys)
      → (t : Trace) × (read_lines env s ≡ (ok (known_lines s.known_hosts), record s { trace = t }))
  unfolding read_lines gets
  read_lines-run s =
      let (t, q) = read_existing-run s.known_hosts s in
      (t, bind-ok (gets (λ s. s.known_hosts)) (read_existing env) s s s.known_hosts refl ∙ q)

  write_lines-run :
      (ls : List.List String) (s : Sys)
      → (t : Trace) × (write_lines env ls s
          ≡ (ok tt, record s { trace = t; known_hosts = some ls }))
  unfolding write_lines modify
  write_lines-run ls s =
      let s' = record s { trace = touched ∷ s.trace } in
      let s'' = record s { trace = touched ∷ touched ∷ s.trace } in
      (
        touched ∷ touched ∷ s.trace,
        bind-ok _ _ s s' tt (file_operation-works env s (working s.trace))
            ∙ bind-ok _ _ s' s'' tt (caught _ s'),
      )

  module _ (info : HostKeyInfo) (v : validate_key env.python info ≡ ok tt) where
    is_confirmed-run :
        (s : Sys)
        → (t : Trace) × (is_confirmed env info s
            ≡ conclude_status env info
                (judge info (entries_for (host_token info) (known_lines s.known_hosts)))
                (record s { trace = t }))
    unfolding is_confirmed
    is_confirmed-run s =
        let (t, q) = read_lines-run s in (t, bind-lift _ _ s tt v ∙ bind-ok _ _ s _ _ q)

    abbrev status_of : Sys → HostStatus
    status_of s = judge info (entries_for (host_token info) (known_lines s.known_hosts))

    is_confirmed-as :
        (s : Sys) (j : HostStatus)
        → status_of s ≡ j
        → (t : Trace) × (is_confirmed env info s
            ≡ conclude_status env info j (record s { trace = t }))
    is_confirmed-as s j e =
        let (t, q) = is_confirmed-run s in
        (t, q ∙ ap (λ j. conclude_status env info j (record s { trace = t })) e)

    abbrev with_key : Sys → List.List String
    with_key s = known_lines s.known_hosts ++ (exact_line info ∷ [])

    add_line-run :
        (s : Sys)
        → (t : Trace) × (add_line env info s
            ≡ (ok true, record s { trace = t; known_hosts = some (with_key s) }))
    unfolding add_line pure
    add_line-run s =
        let (t, q) = read_lines-run s in
        let (t', q') = write_lines-run (with_key s) (record s { trace = t }) in
        (
          t',
          bind-lift _ _ s tt v ∙ bind-ok _ _ s _ _ q ∙ bind-ok _ _ (record s { trace = t }) _ tt q',
        )

    pub confirm-added :
        (s : Sys)
        → status_of s ≡ unknown
        → (t : Trace) × (confirm env info true s
            ≡ (ok true, record s { trace = t; known_hosts = some (with_key s) }))
    unfolding confirm conclude_status pure
    confirm-added s e =
        let (t, q) = is_confirmed-as s unknown e in
        let (t', q') = add_line-run (record s { trace = t }) in
        (t', bind-ok _ _ s (record s { trace = t }) false q ∙ q')

    pub confirm-known :
        (s : Sys)
        → status_of s ≡ confirmed
        → (t : Trace) × (confirm env info true s ≡ (ok false, record s { trace = t }))
    unfolding confirm conclude_status pure
    confirm-known s e =
        let (t, q) = is_confirmed-as s confirmed e in
        (t, bind-ok _ _ s (record s { trace = t }) true q)

    confirmed-answer : (s : Sys) → status_of s ≡ confirmed → (is_confirmed env info s).0 ≡ ok true
    unfolding conclude_status pure
    confirmed-answer s e = let (t, q) = is_confirmed-as s confirmed e in ap (λ x. x.0) q

    removed-run :
        (s : Sys) (ls : List.List String)
        → known_lines s.known_hosts ≡ ls ++ (exact_line info ∷ [])
        → has_line (exact_line info) ls ≡ false
        → (t : Trace) × (remove_if_matches env info s
            ≡ (ok true, record s { trace = t; known_hosts = some ls }))
    unfolding remove_if_matches pure
    removed-run s ls e h =
        let (t, q) = read_lines-run s in
        let (t', q') = write_lines-run ls (record s { trace = t }) in
        (
          t',
          bind-ok _ _ s (record s { trace = t }) _ (q ∙ ap (λ l. (ok l, record s { trace = t })) e)
              ∙ ap
                  (λ b.
                    (if b
                        then write_lines env
                            (remove_line (exact_line info) (ls ++ (exact_line info ∷ [])))
                          >>= (λ _. pure true)
                        else pure false)
                      (record s { trace = t }))
                  (has_line-last (exact_line info) ls)
              ∙ ap (λ l. (write_lines env l >>= (λ _. pure true)) (record s { trace = t }))
                  (remove_line-last info (exact_line info) ls h)
              ∙ bind-ok _ _ (record s { trace = t }) _ tt q',
        )

    confirm-status :
        (plain : IsPlain info) (s : Sys) (j : HostStatus)
        → status_of s ≡ j
        → j ≢ changed
        → ((confirm env info true >>= λ _. is_confirmed env info) s).0 ≡ ok true
    confirm-status plain s unknown e n =
        let (t, q) = confirm-added s e in
        ap (λ x. x.0) (bind-ok _ _ s _ true q)
        ∙ confirmed-answer (record s { trace = t; known_hosts = some (with_key s) })
            (judge-added info plain s.known_hosts)
    confirm-status plain s confirmed e n =
        let (t, q) = confirm-known s e in
        ap (λ x. x.0) (bind-ok _ _ s _ false q) ∙ confirmed-answer (record s { trace = t }) e
    confirm-status plain s changed e n = elim (n refl) [ ]

-- On a file system that does not fail, once the user accepted a host key that does not contradict an
-- earlier one, asking for its status says that it is confirmed.
pub confirm-is_confirmed :
    (env : Env) (info : HostKeyInfo) (s : Sys)
    → ((t : Trace) → env.io_fails t ≡ false)
    → validate_key env.python info ≡ ok tt
    → IsPlain info
    → judge info (entries_for (host_token info) (known_lines s.known_hosts)) ≢ changed
    → ((confirm env info true >>= λ _. is_confirmed env info) s).0 ≡ ok true
confirm-is_confirmed env info s working v plain n =
    confirm-status env working info v plain s _ refl n

-- On a file system that does not fail, taking back the key of a host that was not known before it was
-- confirmed reports that a line was removed, and leaves the lines that were there before, in their
-- order.
pub confirm-remove_if_matches :
    (env : Env) (info : HostKeyInfo) (s : Sys)
    → ((t : Trace) → env.io_fails t ≡ false)
    → validate_key env.python info ≡ ok tt
    → IsPlain info
    → judge info (entries_for (host_token info) (known_lines s.known_hosts)) ≡ unknown
    → (((confirm env info true >>= λ _. remove_if_matches env info) s).0 ≡ ok true)
      × (((confirm env info true >>= λ _. remove_if_matches env info) s).1.known_hosts
          ≡ some (known_lines s.known_hosts))
confirm-remove_if_matches env info s working v plain e =
    let (t, q) = confirm-added env working info v s e in
    let (t', q') =
      removed-run env working info v
        (record s {
          trace = t;
          known_hosts = some (known_lines s.known_hosts ++ (exact_line info ∷ []));
        })
        (known_lines s.known_hosts) (nonblank-added info plain s.known_hosts)
        (absent info plain (known_lines s.known_hosts) (judge-unknown info _ e)) in
    let run = bind-ok (confirm env info true) (λ _. remove_if_matches env info) s _ true q ∙ q' in
    (ap (λ x. x.0) run, ap (λ x. x.1.known_hosts) run)

-- On a file system that does not fail, confirming a key for a host that a line of the known_hosts
-- file names, where no line gives this type and key for it, raises HOST_KEY_CHANGED, and the file
-- stays as it is.
pub confirm-changed :
    (env : Env) (info : HostKeyInfo) (s : Sys)
    → ((t : Trace) → env.io_fails t ≡ false)
    → validate_key env.python info ≡ ok tt
    → IsNamed (host_token info) (known_lines s.known_hosts)
    → IsNotGiven info (known_lines s.known_hosts)
    → ((confirm env info true s).0 ≡ raised (host_key_changed info))
      × ((confirm env info true s).1.known_hosts ≡ s.known_hosts)
unfolding confirm conclude_status raise
confirm-changed env info s working v named n =
    let (t, q) = is_confirmed-as env working info v s changed (judge-IsNamed info _ named n) in
    let run = bind-raised _ _ s (record s { trace = t }) (host_key_changed info) q in
    (ap (λ x. x.0) run, ap (λ x. x.1.known_hosts) run)
