-- ===== src/Tests/Signals.antt =====
-- Histories of calls on a host where a tunnel can be started.
use remote_ai_bridge.Prelude.{
  String, ◌≢◌, leb, length, arith, Bool, true, false, not, some, none, List, [], ◌∷◌, ◌==◌,
  if◌then◌else◌,
}
use remote_ai_bridge.Text.{contains}
use remote_ai_bridge.Domain.Errors.{ok}
use remote_ai_bridge.Services.Supervisor.Termination.{run-ends}
use remote_ai_bridge.Domain.Python.{Python}
use remote_ai_bridge.Exec.{
  Env, Sys, Trace, Completed, exited, Spawned, spawned, signalled, child_stopped,
}
use remote_ai_bridge.Services.Supervisor.{run}
use remote_ai_bridge.Services.Profiles.{create}
use remote_ai_bridge.Services.Tunnel.{acquire, disconnect}
use remote_ai_bridge.Invariant.Trace.{IsOwned}
use remote_ai_bridge.Invariant.Reachable.{Reachable, fresh, Reachable-IsSound, Reachable-IsOwned}
use remote_ai_bridge.Tests.{python, env, cfg, policy, dev}

-- a process was spawned, and neither signalled nor stopped since
abbrev is_alive : Trace → Bool
is_alive [] = false
is_alive (spawned _ (Spawned.process _) ∷ _) = true
is_alive (signalled _ _ ∷ _) = false
is_alive (child_stopped _ _ ∷ _) = false
is_alive (_ ∷ t) = is_alive t

abbrev reading : Python
reading = record python { parse_int = λ s. if s == "17890" then some 17890 else some 9 }

-- what the remote host answers to the commands of `acquire`
abbrev answer : List String → Completed
answer [] = exited 0 "" ""
answer (command ∷ []) =
    if contains "ss -ltnH 'sport" command
    then exited 0 "" ""
    else if contains "cat -- " command
    then exited 0
        "tunnel_id=u\nremote_port=17890\nremote_user=ada\nsshd_pid=9\nsshd_start_ticks=9\nboot_id=b\nssh_connection=1.1.1.1 9 2.2.2.2 9\n"
        ""
    else exited 0 "VERIFIED" ""
answer (_ ∷ argv) = answer argv

-- the SSH process starts, and runs until it is signalled or stopped
abbrev bridging : Env
bridging = record env {
  python = reading;
  run = λ _ argv. answer argv;
  spawn = λ _ _. Spawned.process 42;
  identity = λ t pid.
      if is_alive t
      then some (record { pid = pid; creation_time = 1000; executable_path = "/usr/bin/ssh" })
      else none;
  child_exited = λ t _. not (is_alive t);
  stop_set = is_alive;
}

-- A tunnel is acquired and disconnected, which signals its process; then a supervisor starts another
-- one and is stopped, which stops its child.
abbrev first : Sys
first = (disconnect bridging "dev" (acquire bridging cfg dev (create bridging dev fresh).1).1).1

abbrev second : Sys
second = (run bridging cfg policy "dev" 3 first).1

reached : Reachable bridging cfg second
reached =
    Reachable.supervised
      (Reachable.disconnected (Reachable.acquired (Reachable.created Reachable.started dev) dev)
        "dev")
      policy "dev" 3

Reachable-IsOwned_example : IsOwned reading second.trace
Reachable-IsOwned_example = Reachable-IsOwned bridging cfg second reached

-- the stop event is set when 60 events have happened
abbrev patient : Env
patient = record bridging { stop_set = λ t. leb 60 (length t) }

abbrev created : Sys
created = (create patient dev fresh).1

run-ends_example :
    run patient cfg policy "dev" 61 created ≢ (ok none, (run patient cfg policy "dev" 61 created).1)
run-ends_example =
    run-ends patient cfg policy "dev" 60 (λ t e. ground (arith, e)) 60 created
      (run patient cfg policy "dev" 61 created).1 (omega arith)
      (Reachable-IsSound patient cfg created (Reachable.created Reachable.started dev))
