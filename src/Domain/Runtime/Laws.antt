-- ===== src/Domain/Runtime/Laws.antt =====
-- What `RuntimeState.validate` of app/domain/profile.py accepts, against a description that does not
-- follow its order of tests.
use remote_ai_bridge.Prelude.{
  ◌≡◌, ◌≢◌, ◌↔◌, ◌⊎◌, inl, inr, true, false, none, some, arith, eq_iff, Option-cases, Bool-cases,
}
use remote_ai_bridge.Text.{words}
use remote_ai_bridge.Domain.Errors.{ok}
use remote_ai_bridge.Domain.Python.{Python}
use remote_ai_bridge.Domain.Profile.Laws.{IsPort}
use remote_ai_bridge.Domain.Profile.Rules.{is_valid_profile_name, is_valid_user}
use remote_ai_bridge.Domain.Runtime.{
  RemoteTunnelIdentity, RuntimeState, is_canonical_uuid, is_ssh_connection, validate_identity,
  remote_identity, has_remote_value, validate_remote, validate_runtime,
}

-- the remote end of a tunnel that can be told apart from every other
pub record IsIdentity (py : Python) (i : RemoteTunnelIdentity) : Type 0 where
  pub tunnel_id : is_canonical_uuid py i.tunnel_id ≡ true
  pub port : IsPort i.remote_port
  pub user : is_valid_user i.remote_user ≡ true
  pub pid : i.sshd_pid ≢ 0
  pub start : i.sshd_start_ticks ≢ 0
  pub boot : is_canonical_uuid py i.boot_id ≡ true
  pub connection : is_ssh_connection py (words i.ssh_connection) ≡ true

-- no remote value at all
pub record IsPlainState (s : RuntimeState) : Type 0 where
  pub user : s.remote_user ≡ none
  pub sshd_pid : s.remote_sshd_pid ≡ none
  pub start_ticks : s.remote_sshd_start_ticks ≡ none
  pub boot_id : s.remote_boot_id ≡ none
  pub ssh_connection : s.remote_ssh_connection ≡ none

-- evidence by which a process may be stopped
pub record IsEvidence (py : Python) (s : RuntimeState) : Type 0 where
  pub version : s.schema_version ≡ 1
  pub name : is_valid_profile_name s.profile_name ≡ true
  pub pid : s.pid ≢ 0
  pub supervisor : s.supervisor_pid ≢ 0
  pub created : s.process_creation_time ≢ 0
  pub tunnel_id : s.tunnel_id ≢ ""
  pub port : IsPort s.remote_port
  pub remote :
      IsPlainState s ⊎ ((i : RemoteTunnelIdentity) × (remote_identity s ≡ some i) × IsIdentity py i)

module _ (py : Python) where
  module _ (i : RemoteTunnelIdentity) where
    IsIdentity-sound : validate_identity py i ≡ ok tt → IsIdentity py i
    unfolding validate_identity
    IsIdentity-sound h = record {
      tunnel_id = ground arith;
      port = ground arith;
      user = ground arith;
      pid = ground arith;
      start = ground arith;
      boot = ground arith;
      connection = ground arith;
    }

    IsIdentity-complete : IsIdentity py i → validate_identity py i ≡ ok tt
    unfolding validate_identity
    IsIdentity-complete h =
        ground (arith, h.tunnel_id, h.port, h.user, h.pid, h.start, h.boot, h.connection)

  module _ (s : RuntimeState) where
    no_value : has_remote_value s ≡ false → IsPlainState s
    no_value v = record {
      user = ground (arith, v);
      sshd_pid = ground (arith, v);
      start_ticks = ground (arith, v);
      boot_id = ground (arith, v);
      ssh_connection = ground (arith, v);
    }

    value : (i : RemoteTunnelIdentity) → remote_identity s ≡ some i → has_remote_value s ≡ true
    value i e = elim (Option-cases s.remote_user) [
      | inl n ↦ ground (arith, n, e)
      | inr (u, n) ↦ ground (arith, n)
    ]

    remote_sound :
        validate_remote py s ≡ ok tt
        → IsPlainState s
          ⊎ ((i : RemoteTunnelIdentity) × (remote_identity s ≡ some i) × IsIdentity py i)
    unfolding validate_remote
    remote_sound h = elim (Option-cases (remote_identity s)) [
      | inl e ↦ inl (plain e)
      | inr (i, e) ↦ inr (i, e, IsIdentity-sound i (accepted i e))
    ]
      where
        plain : remote_identity s ≡ none → IsPlainState s
        plain e = elim (Bool-cases (has_remote_value s)) [
          | inl v ↦ ground (arith, v, e, h)
          | inr v ↦ no_value v
        ]

        accepted :
            (i : RemoteTunnelIdentity) → remote_identity s ≡ some i → validate_identity py i ≡ ok tt
        accepted i e = ground (arith, value i e, e, h)

    remote_complete :
        IsPlainState s
          ⊎ ((i : RemoteTunnelIdentity) × (remote_identity s ≡ some i) × IsIdentity py i)
        → validate_remote py s ≡ ok tt
    unfolding validate_remote
    remote_complete (inl h) =
        ground (arith, h.user, h.sshd_pid, h.start_ticks, h.boot_id, h.ssh_connection)
    remote_complete (inr (i, e, h)) = ground (arith, value i e, e, IsIdentity-complete i h)

    IsEvidence-sound : validate_runtime py s ≡ ok tt → IsEvidence py s
    unfolding validate_runtime
    IsEvidence-sound h = record {
      version = ground arith;
      name = ground arith;
      pid = ground arith;
      supervisor = ground arith;
      created = ground arith;
      tunnel_id = ground (arith, eq_iff s.tunnel_id "");
      port = ground arith;
      remote = remote_sound (ground arith);
    }

    IsEvidence-complete : IsEvidence py s → validate_runtime py s ≡ ok tt
    unfolding validate_runtime
    IsEvidence-complete h = ground (
      arith,
      h.version,
      h.name,
      h.pid,
      h.supervisor,
      h.created,
      h.tunnel_id,
      h.port,
      eq_iff s.tunnel_id "",
      remote_complete h.remote,
    )

    -- `RuntimeState.validate` accepts a state exactly when it is evidence: of schema version 1, of a
    -- valid name, with pids, a creation time, a tunnel and a port in range, and with either no remote
    -- value at all or all five of them, which identify the remote session.
    pub validate_runtime_iff : (validate_runtime py s ≡ ok tt) ↔ IsEvidence py s
    validate_runtime_iff = (IsEvidence-sound, IsEvidence-complete)
