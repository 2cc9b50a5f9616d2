-- ===== src/Lib.antt =====
-- Remote AI Bridge: a model of its Python core and the theorems that make it correct.
--
-- The program keeps an SSH reverse tunnel from a remote host to an HTTP proxy on this machine. A
-- profile describes a bridge; a supervisor per profile checks the proxy, starts and watches the SSH
-- process, and records the evidence (process identity, remote session identity) by which a later run
-- may reuse or stop it. The profile service creates, changes and deletes profiles.
--
-- Files, and the code that each is about:
--   Domain           app/domain: Profile (profile.py: Profile.validate; Profile/Rules its regular
--                    expressions, Profile/Fields to_dict and from_dict), Runtime (profile.py:
--                    RemoteTunnelIdentity, RuntimeState), Health (health.py), Snapshot
--                    (supervisor.py), Errors (errors.py and the exceptions of the other modules),
--                    Python (the standard library calls, as parameters),
--                    Registry (the tables of app/services/runtime_manager.py and what is done to
--                    them under their lock)
--   Exec             actions on the state directory, the trace of events and the supervisor's
--                    variables, with exceptions; Exec/Keeps, Exec/Yields and Exec/Leads have
--                    the rules for invariants and for what an action establishes, Exec/Runs for
--                    single runs
--   Infrastructure   app/infrastructure: Store (profile_store.py), Process (process_runner.py),
--                    Inspector (process_identity.py), HostKeys (host_key_store.py and HostKeyInfo
--                    of app/domain/ssh_bootstrap.py), Keys (SSHKeyStore of
--                    ssh_key_store.py)
--   Services         app/services: Probe (remote_probe.py), Tunnel (tunnel.py), Profiles
--                    (profile_service.py), LocalProxy (local_proxy.py), RemotePort
--                    (remote_port.py), Supervisor (tunnel_supervisor.py), Options (managed_ssh_options of
--                    app/infrastructure/ssh_key_store.py), Doctor (doctor.py and ssh_config.py),
--                    Setup (prepare and confirm_host_key of setup_service.py, with the handshake of
--                    app/infrastructure/ssh_bootstrap.py),
--                    Runtime (runtime_manager.py): Threads its threads and the regions under its
--                    lock in any order, Unsupervised its work on profiles without a thread
--   Api              app/api: the errors of errors.py and the routes of routes.py on one profile
--   Invariant        the invariant of the whole core, operation by operation, and Reachable, the
--                    histories of calls
--   Tests            runs on concrete values
--   Prelude, Text    shared names; Python's methods on texts
--
-- State. `Sys` has the files of the state directory as dictionaries by name, the trace of what was
-- asked of the environment and done to it (newest first), the supervisor's `active` and the
-- snapshots it has published. An action takes a system to a result, a value or an exception, and the
-- system left. The environment `Env` answers commands, process look-ups, connections, locks and the
-- stop event as functions of the trace, so an answer may depend on all that was done before and
-- change from one question to the next.
--
-- The known_hosts file is a list of lines; under each of a key's two paths stands nothing, a regular
-- file, a symbolic link or something else.
--
-- Choices. Message texts, time stamps of snapshots and the redaction of texts are left out. Ports
-- and pids are natural numbers and creation times are whole milliseconds; the fields of records have
-- their declared types, so isinstance tests hold. Texts are sequences of code points with ASCII
-- white space and letter case. A loop that polls until a deadline takes the number of rounds from
-- the environment. The supervisor's loop takes fuel, one unit a round: it looks up the stop event
-- once a round, so fuel for every event before the stop event is set is enough
-- (Supervisor/Termination). One call runs after the other; what other programs do shows in the
-- environment's answers, and another holder of a profile's lock in `lock_taken`. A file is written
-- whole or not at all, as os.replace promises. What the store keeps of a profile is the profile that
-- its JSON stands for; two names stand for two files, so names that differ in case only are left out
-- where the file system does not tell them apart. A child is stopped with the runtime state of the
-- tunnel that it carries, which only the trace shows. A child that is not gone after it was killed
-- raises `os_error` in place of TimeoutExpired, which no handler of the core tells apart.
--
-- Threads. The runtime manager runs a supervisor in a thread and guards its tables with a lock.
-- Services/Runtime/Threads has one step for each region under that lock and one for the end of a
-- thread; a call of a method is a sequence of such steps, with the steps of others between them. The
-- work of `stop` and `shutdown` on files is in Services/Runtime/Unsupervised, where what a finished
-- supervisor published last, and whether another stop is in progress, are arguments.
--
-- Not modelled: the bootstrap of the setup service with the remote authorized keys, the listing of the
-- supervisors' states, the manager's waits for a thread and a thread that cannot be started; the
-- schemas and the set-up routes of the HTTP API, the command line and the redaction, which carry
-- texts between the core and libraries; the web front end.
pub mod Prelude
pub mod Text
pub mod Domain
pub mod Exec
pub mod Infrastructure
pub mod Services
pub mod Api
pub mod Invariant
pub mod Tests
