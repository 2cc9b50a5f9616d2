-- ===== src/Services/Supervisor/Ending.antt =====
-- How a run of the supervisor ends: the snapshot that `run` of app/services/tunnel_supervisor.py
-- returns, and what is then recorded.
use remote_ai_bridge.Prelude.{
  String, ◌≡◌, refl, ◌⊎◌, inl, inr, Bool, true, false, Option, none, some, List, [], ◌∷◌, get,
  get-remove_self, arith, if◌then◌else◌,
}
use remote_ai_bridge.Domain.Health.{CheckResult, passed}
use remote_ai_bridge.Domain.Profile.{Profile}
use remote_ai_bridge.Domain.Runtime.{RuntimeState, ActiveTunnel}
use remote_ai_bridge.Domain.Snapshot.{SupervisorSnapshot, stopped, failed}
use remote_ai_bridge.Exec.{Env, Sys, pure, file_operation}
use remote_ai_bridge.Exec.Keeps.{
  Keeps, Keeps-ask, Keeps-bind, Keeps-if, Keeps-raise, Keeps-pure, keeps_rules,
}
use remote_ai_bridge.Exec.Yields.{
  Anything, Yields, Yields-pure, Yields-gets, Yields-modify, Yields-bind, Yields-after, Yields-if,
  Yields-given_cases, Yields-kept, yields_rules,
}
use remote_ai_bridge.Infrastructure.Store.{clear_runtime, load_runtime, read_runtime, path_of}
use remote_ai_bridge.Services.Options.{Config}
use remote_ai_bridge.Services.Tunnel.{disconnect, disconnect_state}
use remote_ai_bridge.Services.Supervisor.Publish.{
  Policy, Report, report, shown_runtime, publish, snapshot_of,
}
use remote_ai_bridge.Services.Supervisor.{
  Loop, Step, again, leave, done, Acquired, got, conflict, refused, Cleanup, cleaned, kept, say,
  finish, retry_later, give_up, verify_failed, report_ready, verify_active, health_round,
  acquired_round, connect_round, local_failed, proxy_round, exited_round, round,
}

abbrev pub latest : List SupervisorSnapshot → Option SupervisorSnapshot
latest [] = none
latest (n ∷ _) = some n

-- the published snapshot is terminal, and STOPPED only when nothing is recorded any more
abbrev pub IsFinal : String → SupervisorSnapshot → Sys → Type 0
IsFinal name n s =
    (latest s.snapshots ≡ some n)
    × ((n.state ≡ failed) ⊎ ((n.state ≡ stopped) × (get name s.runtimes ≡ none)))

abbrev pub Ended : String → Option SupervisorSnapshot → Sys → Type 0
Ended name none s = Unit
Ended name (some n) s = IsFinal name n s

abbrev pub EndedStep : String → Step → Sys → Type 0
EndedStep name (done n) s = IsFinal name n s
EndedStep name _ s = Unit

abbrev pub NoRuntime : String → Sys → Type 0
NoRuntime name s = get name s.runtimes ≡ none

abbrev pub Gone : String → Cleanup → Sys → Type 0
Gone name cleaned s = NoRuntime name s
Gone name (kept _) s = Unit

module _ (env : Env) where
  pub clear_runtime-Yields :
      (name : String) → Yields Anything (λ _. NoRuntime name) (clear_runtime env name)
  unfolding clear_runtime
  clear_runtime-Yields name =
      Yields-after _ _
        λ _. Yields-after _ _ λ _. Yields-modify _ (λ s _. get-remove_self name s.runtimes)

  read_runtime-Yields :
      (name : String) (o : Option RuntimeState)
      → Yields
          (λ s. get name s.runtimes ≡ o)
          (λ found s. found ≡ none → get name s.runtimes ≡ none)
          (read_runtime env o)
  unfolding read_runtime
  read_runtime-Yields name none = Yields-pure none (λ s h _. h)
  read_runtime-Yields name (some r) =
      Yields-after _ _ λ _. Yields-after _ _ λ _. Yields-pure (some r) (λ s _ h. ground (arith, h))

  pub load_runtime-Yields :
      (name : String)
      → Yields Anything
          (λ found s. found ≡ none → get name s.runtimes ≡ none)
          (load_runtime env name)
  unfolding load_runtime
  load_runtime-Yields name =
      Yields-after _ _ λ _. Yields-bind _ _ (Yields-gets _ (λ s _. refl)) (read_runtime-Yields name)

  disconnect_state-Yields :
      (name : String) (r : RuntimeState)
      → Yields Anything
          (λ c s. passed c ≡ true → get name s.runtimes ≡ none)
          (disconnect_state env name r)
  unfolding disconnect_state
  disconnect_state-Yields name r = Yields-after _ _ λ owned.
      Yields-if _ _ _
        (Yields-bind _ _ (clear_runtime-Yields name) (λ _. Yields-pure _ (λ s h _. h)))
        (Yields-after _ _ λ gone.
          Yields-if _ _ _ (Yields-pure _ (λ s _ h. ground (arith, h)))
            (Yields-bind _ _ (clear_runtime-Yields name) (λ _. Yields-pure _ (λ s h _. h))))

  pub disconnect-Yields :
      (name : String)
      → Yields Anything (λ c s. passed c ≡ true → get name s.runtimes ≡ none) (disconnect env name)
  unfolding disconnect
  disconnect-Yields name = Yields-bind _ _ (load_runtime-Yields name) λ found.
      Yields-given_cases found _ _ (λ e. Yields-pure _ (λ s h _. h e))
        (λ r _. record { at = λ s _. (disconnect_state-Yields name r).at s tt })

  publish-failed :
      (name : String) (r : Report)
      → Yields Anything (λ n s. IsFinal name n s) (publish env name failed r)
  unfolding publish snapshot_of
  publish-failed name r = Yields-after _ _ λ runtime.
      Yields-bind _ _
        (Yields-modify {Q = λ _ s. latest s.snapshots ≡ some (snapshot_of name failed r runtime)} _
          (λ s _. refl))
        λ _. Yields-pure _ (λ s h. (h, inl refl))

  module _ (name : String) where
    NoRuntime-path_of : Keeps (NoRuntime name) (path_of name)
    unfolding path_of
    NoRuntime-path_of = search keeps_rules

    NoRuntime-file_operation : Keeps (NoRuntime name) (file_operation env)
    unfolding file_operation
    NoRuntime-file_operation =
        Keeps-bind _ _ (Keeps-ask _ _ (λ s a h. h))
          (λ b. Keeps-if b _ _ (Keeps-raise _) (Keeps-pure _))

    NoRuntime-read_runtime : (o : Option RuntimeState) → Keeps (NoRuntime name) (read_runtime env o)
    unfolding read_runtime
    NoRuntime-read_runtime none = search keeps_rules
    NoRuntime-read_runtime (some r) = search (keeps_rules, NoRuntime-file_operation) depth 8

    NoRuntime-shown_runtime :
        (t : Option ActiveTunnel) → Keeps (NoRuntime name) (shown_runtime env name t)
    unfolding shown_runtime load_runtime
    NoRuntime-shown_runtime t =
        search (keeps_rules, NoRuntime-path_of, NoRuntime-read_runtime) depth 9

    pub publish-stopped :
        Yields (NoRuntime name) (λ n s. IsFinal name n s) (publish env name stopped report)
    unfolding publish snapshot_of
    publish-stopped = Yields-bind _ _ (Yields-kept _ (NoRuntime-shown_runtime none)) λ runtime.
        Yields-bind _ _
          (Yields-modify
            {Q = λ _ s.
              (latest s.snapshots ≡ some (snapshot_of name stopped report runtime))
              × (get name s.runtimes ≡ none)}
            _ (λ s h. (refl, h)))
          λ _. Yields-pure _ (λ s h. (h.0, inr (refl, h.1)))

  module _ (cfg : Config) (policy : Policy) (name : String) where
    pub say-failed :
        (r : Report) → Yields Anything (λ n s. IsFinal name n s) (say env cfg policy name failed r)
    unfolding say
    say-failed r = publish-failed name r

    finish-failed :
        (r : Report) → Yields Anything (EndedStep name) (finish env cfg policy name failed r)
    unfolding finish
    finish-failed r = Yields-bind _ _ (say-failed r) (λ n. Yields-pure (done n) (λ s h. h))

    going :
        (b : Bool) (l : Loop)
        → Yields Anything (EndedStep name) (pure (if b then leave else again l))
    going true l = Yields-pure leave (λ s _. tt)
    going false l = Yields-pure (again l) (λ s _. tt)

    leaving : Yields Anything (EndedStep name) (pure leave)
    leaving = Yields-pure leave (λ s _. tt)

    ruleset ending_rules = (yields_rules, going, leaving, finish-failed)

    retry_later-Ended :
        (l : Loop) (code : String) (t : Option ActiveTunnel)
        → Yields Anything (EndedStep name) (retry_later env cfg policy name l code t)
    unfolding retry_later
    retry_later-Ended l code t = search ending_rules depth 8

    give_up-Ended :
        (l : Loop) (code : String) (t : Option ActiveTunnel) (c : Cleanup)
        → Yields Anything (EndedStep name) (give_up env cfg policy name l code t c)
    unfolding give_up
    give_up-Ended l code t (kept _) = search ending_rules
    give_up-Ended l code t cleaned = search ending_rules

    verify_failed-Ended :
        (p : Profile) (l : Loop) (t : ActiveTunnel) (c : CheckResult)
        → Yields Anything (EndedStep name) (verify_failed env cfg policy name p l t c)
    unfolding verify_failed
    verify_failed-Ended p l t c = search (ending_rules, give_up-Ended, retry_later-Ended) depth 10

    report_ready-Ended :
        (p : Profile) → Yields Anything (EndedStep name) (report_ready env cfg policy name p)
    unfolding report_ready
    report_ready-Ended p = search ending_rules depth 8

    verify_active-Ended :
        (p : Profile) (l : Loop) (t : ActiveTunnel)
        → Yields Anything (EndedStep name) (verify_active env cfg policy name p l t)
    unfolding verify_active
    verify_active-Ended p l t = search (ending_rules, verify_failed-Ended, report_ready-Ended)

    health_round-Ended :
        (p : Profile) (l : Loop) (t : ActiveTunnel)
        → Yields Anything (EndedStep name) (health_round env cfg policy name p l t)
    unfolding health_round
    health_round-Ended p l t = search (ending_rules, verify_active-Ended)

    acquired_round-Ended :
        (p : Profile) (l : Loop) (a : Acquired)
        → Yields Anything (EndedStep name) (acquired_round env cfg policy name p l a)
    unfolding acquired_round
    acquired_round-Ended p l (got t) = search (ending_rules, health_round-Ended)
    acquired_round-Ended p l (conflict _) = search ending_rules
    acquired_round-Ended p l (refused _) = search (ending_rules, retry_later-Ended)

    connect_round-Ended :
        (p : Profile) (l : Loop) (t : Option ActiveTunnel)
        → Yields Anything (EndedStep name) (connect_round env cfg policy name p l t)
    unfolding connect_round
    connect_round-Ended p l (some t) = health_round-Ended p l t
    connect_round-Ended p l none = search (ending_rules, acquired_round-Ended) depth 8

    local_failed-Ended :
        (p : Profile) (l : Loop) (c : CheckResult) (t : Option ActiveTunnel)
        → Yields Anything (EndedStep name) (local_failed env cfg policy name p l c t)
    unfolding local_failed
    local_failed-Ended p l c t = search (ending_rules, retry_later-Ended, give_up-Ended) depth 8

    proxy_round-Ended :
        (p : Profile) (l : Loop)
        → Yields Anything (EndedStep name) (proxy_round env cfg policy name p l)
    unfolding proxy_round
    proxy_round-Ended p l = search (ending_rules, local_failed-Ended, connect_round-Ended) depth 9

    exited_round-Ended :
        (p : Profile) (l : Loop)
        → Yields Anything (EndedStep name) (exited_round env cfg policy name p l)
    unfolding exited_round
    exited_round-Ended p l = search (ending_rules, proxy_round-Ended) depth 10

    pub round-Ended :
        (p : Profile) (l : Loop) → Yields Anything (EndedStep name) (round env cfg policy name p l)
    unfolding round
    round-Ended p l = search (ending_rules, proxy_round-Ended, exited_round-Ended) depth 8
