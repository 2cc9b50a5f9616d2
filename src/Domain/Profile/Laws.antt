-- ===== src/Domain/Profile/Laws.antt =====
-- What `Profile.validate` accepts, against a description that does not follow its order of tests.
use remote_ai_bridge.Prelude.{
  ℕ, ◌≤◌, String, ◌≡◌, ◌≢◌, ◌↔◌, ◌⊎◌, inl, inr, true, false, some, [], ◌∷◌, arith, eq_iff,
  Option-cases,
}
use remote_ai_bridge.Text.{format}
use remote_ai_bridge.Domain.Errors.{ok}
use remote_ai_bridge.Domain.Python.{Python, SplitUrl}
use remote_ai_bridge.Domain.Profile.{
  Profile, Managed, loopback, managed_values, has_managed_value, validate, validate_managed,
  validate_schema, validate_profile_name, validate_endpoint_probe_url, is_probe_url,
  validate_managed_profile_setup_inputs,
}
use remote_ai_bridge.Domain.Profile.Rules.{
  is_valid_profile_name, is_valid_target, is_valid_user, is_valid_host, is_valid_key_id,
  is_valid_fingerprint, is_valid_host_key_type,
}
use text.Mathlib.Text.{starts_with}

abbrev pub IsPort : ℕ → Type 0
IsPort n = (1 ≤ n) × (n ≤ 65535)

-- an HTTPS URL with a host and without credentials, query or fragment
pub record IsPlainHttps (u : SplitUrl) : Type 0 where
  pub scheme : u.scheme ≡ "https"
  pub hostname : u.hostname ≢ ""
  pub username : u.username ≡ ""
  pub password : u.password ≡ ""
  pub query : u.query ≡ ""
  pub fragment : u.fragment ≡ ""

abbrev pub IsProbeUrl : Python → String → Type 0
IsProbeUrl py s = (u : SplitUrl) × (py.urlsplit s ≡ some u) × IsPlainHttps u

-- What the managed metadata of a valid profile satisfies.
pub record IsManaged (p : Profile) (m : Managed) : Type 0 where
  pub host : is_valid_host m.host ≡ true
  pub username : is_valid_user m.username ≡ true
  pub ssh_port : IsPort m.ssh_port
  pub key_id : is_valid_key_id m.key_id ≡ true
  pub host_key_type : is_valid_host_key_type m.host_key_type ≡ true
  pub fingerprint : is_valid_fingerprint m.host_key_fingerprint ≡ true
  pub target : p.ssh_target ≡ format (m.username ∷ "@" ∷ m.host ∷ [])

abbrev pub IsLegacyProfile : Profile → Type 0
IsLegacyProfile p =
    (p.schema_version ≡ 1) × (p.profile_type ≡ "legacy") × (has_managed_value p ≡ false)

abbrev pub IsManagedProfile : Profile → Type 0
IsManagedProfile p =
    (m : Managed) × (p.schema_version ≡ 2)
    × (p.profile_type ≡ "managed")
    × (managed_values p ≡ some m)
    × IsManaged p m

pub record IsValid (py : Python) (p : Profile) : Type 0 where
  pub name : is_valid_profile_name p.name ≡ true
  pub target : is_valid_target p.ssh_target ≡ true
  pub no_option : starts_with p.ssh_target "-" ≡ false
  pub local_host : p.local_proxy_host ≡ loopback
  pub remote_host : p.remote_bind_host ≡ loopback
  pub local_port : IsPort p.local_proxy_port
  pub remote_port : IsPort p.remote_port
  pub probe_url : IsProbeUrl py p.endpoint_probe_url
  pub kind : IsLegacyProfile p ⊎ IsManagedProfile p

module _ (u : SplitUrl) where
  is_probe_url_sound : is_probe_url u ≡ true → IsPlainHttps u
  unfolding is_probe_url
  is_probe_url_sound h = ground (
    arith,
    eq_iff u.scheme "https",
    eq_iff u.hostname "",
    eq_iff u.username "",
    eq_iff u.password "",
    eq_iff u.query "",
    eq_iff u.fragment "",
  )

  is_probe_url_complete : IsPlainHttps u → is_probe_url u ≡ true
  unfolding is_probe_url
  is_probe_url_complete h = ground (
    arith,
    eq_iff u.scheme "https",
    eq_iff u.hostname "",
    eq_iff u.username "",
    eq_iff u.password "",
    eq_iff u.query "",
    eq_iff u.fragment "",
  )

module _ (py : Python) where
  IsProbeUrl-sound : (s : String) → validate_endpoint_probe_url py s ≡ ok tt → IsProbeUrl py s
  unfolding validate_endpoint_probe_url
  IsProbeUrl-sound s h = elim (Option-cases (py.urlsplit s)) [
    | inl e ↦ ground arith
    | inr (u, e) ↦ (u, e, is_probe_url_sound u (ground arith))
  ]

  IsProbeUrl-complete : (s : String) → IsProbeUrl py s → validate_endpoint_probe_url py s ≡ ok tt
  unfolding validate_endpoint_probe_url
  IsProbeUrl-complete s (u, e, h) = ground (arith, is_probe_url_complete u h)

  module _ (p : Profile) where
    managed_sound : (m : Managed) → validate_managed py p m ≡ ok tt → IsManaged p m
    unfolding validate_managed validate_managed_profile_setup_inputs validate_profile_name
    managed_sound m h =
        ground (arith, eq_iff p.ssh_target (format (m.username ∷ "@" ∷ m.host ∷ [])))

    managed_complete :
        (m : Managed)
        → validate_profile_name p.name ≡ ok tt
        → validate_endpoint_probe_url py p.endpoint_probe_url ≡ ok tt
        → IsManaged p m
        → validate_managed py p m ≡ ok tt
    unfolding validate_managed validate_managed_profile_setup_inputs
    managed_complete m name url h =
        ground (arith, eq_iff p.ssh_target (format (m.username ∷ "@" ∷ m.host ∷ [])))

    schema_sound :
        (p.schema_version ≡ 1) ⊎ (p.schema_version ≡ 2)
        → validate_schema py p ≡ ok tt
        → IsLegacyProfile p ⊎ IsManagedProfile p
    unfolding validate_schema
    schema_sound (inl v) h = inl (v, ground (arith, eq_iff p.profile_type "legacy"), ground arith)
    schema_sound (inr v) h = elim (Option-cases (managed_values p)) [
      | inl e ↦ ground arith
      | inr (m, e) ↦
          inr (
            m,
            v,
            ground (arith, eq_iff p.profile_type "managed"),
            e,
            managed_sound m (ground arith),
          )
    ]

    schema_complete :
        validate_profile_name p.name ≡ ok tt
        → validate_endpoint_probe_url py p.endpoint_probe_url ≡ ok tt
        → IsLegacyProfile p ⊎ IsManagedProfile p
        → validate_schema py p ≡ ok tt
    unfolding validate_schema
    schema_complete name url (inl h) = ground (arith, eq_iff p.profile_type "legacy")
    schema_complete name url (inr (m, v, t, e, h)) =
        ground (arith, eq_iff p.profile_type "managed", managed_complete m name url h)

    validate_sound : validate py p ≡ ok tt → IsValid py p
    unfolding validate validate_profile_name
    validate_sound h = record {
      name = ground arith;
      target = ground arith;
      no_option = ground arith;
      local_host = ground (arith, eq_iff p.local_proxy_host loopback);
      remote_host = ground (arith, eq_iff p.remote_bind_host loopback);
      local_port = ground arith;
      remote_port = ground arith;
      probe_url = IsProbeUrl-sound p.endpoint_probe_url (ground arith);
      kind = schema_sound (ground arith) (ground arith);
    }

    known_version :
        IsLegacyProfile p ⊎ IsManagedProfile p → (p.schema_version ≡ 1) ⊎ (p.schema_version ≡ 2)
    known_version (inl h) = inl h.0
    known_version (inr h) = inr h.1

    name_accepted : is_valid_profile_name p.name ≡ true → validate_profile_name p.name ≡ ok tt
    unfolding validate_profile_name
    name_accepted h = ground arith

    validate_complete : IsValid py p → validate py p ≡ ok tt
    unfolding validate
    validate_complete h = ground (
      arith,
      known_version h.kind,
      name_accepted h.name,
      eq_iff p.local_proxy_host loopback,
      eq_iff p.remote_bind_host loopback,
      IsProbeUrl-complete p.endpoint_probe_url h.probe_url,
      schema_complete (name_accepted h.name) (IsProbeUrl-complete p.endpoint_probe_url h.probe_url)
          h.kind,
    )

    -- `Profile.validate` accepts a profile exactly when it is valid: a safe name and target, both
    -- ends on 127.0.0.1, ports in range, a plain HTTPS probe URL, and either schema version 1
    -- without managed metadata or schema version 2 with all of it, well formed.
    pub validate_iff : (validate py p ≡ ok tt) ↔ IsValid py p
    validate_iff = (validate_sound, validate_complete)
