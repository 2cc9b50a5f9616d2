-- ===== src/Tests/Files.antt =====
-- Runs of the profile store and of the host key store.
use remote_ai_bridge.Prelude.{
  ◌++◌, String, ◌⊎◌, none, ◌↔◌, ◌≡◌, ◌≢◌, refl, ap, inl, Bool, ◌==◌, true, false, some, List, [],
  ◌∷◌, arith,
}
use remote_ai_bridge.Domain.Errors.{ok, raised}
use remote_ai_bridge.Exec.{Sys, ◌>>=◌}
use remote_ai_bridge.Infrastructure.HostKeys.{
  HostKeyInfo, host_token, entries_for, judge, unknown, changed, validate_key, is_confirmed,
  confirm, remove_if_matches, host_key_changed,
}
use remote_ai_bridge.Infrastructure.HostKeys.Laws.{IsPlain, known_lines}
use remote_ai_bridge.Infrastructure.HostKeys.Changed.{IsNamed, IsNotGiven}
use remote_ai_bridge.Infrastructure.HostKeys.Confirmation.{
  confirm-is_confirmed, confirm-remove_if_matches, confirm-changed,
}
use mathlib.Core.List.{Perm}
use remote_ai_bridge.Domain.Profile.{Profile, validate}
use remote_ai_bridge.Domain.Runtime.{validate_runtime}
use remote_ai_bridge.Domain.Runtime.Laws.{IsEvidence, validate_runtime_iff}
use remote_ai_bridge.Infrastructure.Store.{list_profiles}
use remote_ai_bridge.Infrastructure.Store.Listing.{AllValid, contents, list_profiles-Perm}
use remote_ai_bridge.Exec.{regular}
use remote_ai_bridge.Infrastructure.Keys.{SshKeyPair, pair_of, remove_generated}
use remote_ai_bridge.Infrastructure.Keys.Laws.{IsOwnKey, remove_generated-IsOwnKey}
use remote_ai_bridge.Infrastructure.HostKeys.{exact_line}
use remote_ai_bridge.Services.Setup.{confirm_host_key, info_of}
use remote_ai_bridge.Services.Setup.Laws.{confirm_host_key-Decided}
use remote_ai_bridge.Tests.{python, env, dev, dev-valid, stored, recorded}

abbrev host_key : HostKeyInfo
host_key = record {
  host = "example.org";
  port = 2222;
  key_type = "ssh-ed25519";
  fingerprint = "SHA256:x";
  key_base64 = "AAAA";
}

-- another host is known, and the file has a blank line
abbrev with_other : Sys
with_other = record stored { known_hosts = some ("example.com ssh-rsa BBBB" ∷ " " ∷ []) }

-- the host is known by another key
abbrev with_changed : Sys
with_changed = record stored { known_hosts = some ("[example.org]:2222 ssh-ed25519 BBBB" ∷ []) }

plain : IsPlain host_key
unfolding host_token remote_ai_bridge.Text.every remote_ai_bridge.Text.format
    remote_ai_bridge.Text.show
plain = record { token = refl; key_type = refl; key = refl }

valid : validate_key python host_key ≡ ok tt
unfolding validate_key remote_ai_bridge.Domain.Profile.Rules.is_valid_host_key_type
valid = refl

is_unknown :
    judge host_key (entries_for (host_token host_key) (known_lines with_other.known_hosts))
    ≡ unknown
unfolding judge entries_for known_lines host_token
is_unknown = refl

is_named : IsNamed (host_token host_key) (known_lines with_changed.known_hosts)
unfolding IsNamed known_lines host_token remote_ai_bridge.Text.words
is_named = inl ("ssh-ed25519", "BBBB", [], refl)

abbrev is_other : List String → Bool
is_other (host ∷ key_type ∷ key ∷ _) = key == "BBBB"
is_other _ = false

not_same : (true ≡ false) → ⊥
not_same h = ground (arith, h)

not_given : IsNotGiven host_key (known_lines with_changed.known_hosts)
unfolding IsNotGiven known_lines host_token remote_ai_bridge.Text.words
not_given = (λ rest h. not_same (ap is_other h), tt)

not_changed :
    judge host_key (entries_for (host_token host_key) (known_lines with_other.known_hosts))
    ≢ changed
not_changed e = ground (arith, is_unknown, e)

confirm-is_confirmed_example :
    ((confirm env host_key true >>= λ _. is_confirmed env host_key) with_other).0 ≡ ok true
confirm-is_confirmed_example =
    confirm-is_confirmed env host_key with_other (λ t. refl) valid plain not_changed

confirm-remove_if_matches_example :
    (((confirm env host_key true >>= λ _. remove_if_matches env host_key) with_other).0 ≡ ok true)
    × (((confirm env host_key true >>= λ _. remove_if_matches env host_key)
          with_other).1.known_hosts
        ≡ some (known_lines with_other.known_hosts))
confirm-remove_if_matches_example =
    confirm-remove_if_matches env host_key with_other (λ t. refl) valid plain is_unknown

confirm-changed_example :
    ((confirm env host_key true with_changed).0 ≡ raised (host_key_changed host_key))
    × ((confirm env host_key true with_changed).1.known_hosts ≡ with_changed.known_hosts)
confirm-changed_example =
    confirm-changed env host_key with_changed (λ t. refl) valid is_named not_given

abbrev other : Profile
other = record dev { name = "other" }

abbrev two_profiles : Sys
two_profiles = record stored { profiles = ("dev", dev) ∷ ("other", other) ∷ [] }

other-valid : validate python other ≡ ok tt
unfolding validate remote_ai_bridge.Domain.Profile.validate_profile_name
    remote_ai_bridge.Domain.Profile.Rules.is_valid_profile_name
    remote_ai_bridge.Domain.Profile.Rules.is_valid_target
    remote_ai_bridge.Domain.Profile.validate_endpoint_probe_url
    remote_ai_bridge.Domain.Profile.validate_schema
other-valid = refl

all_valid : AllValid python (contents two_profiles.profiles)
unfolding contents
all_valid = (dev-valid, (other-valid, tt))

list_profiles-Perm_example :
    (ps : List Profile) × ((list_profiles env two_profiles).0 ≡ ok ps)
    × Perm ps (contents two_profiles.profiles)
list_profiles-Perm_example = list_profiles-Perm env two_profiles (λ t. refl) all_valid

validate_runtime_iff_example :
    (validate_runtime python recorded ≡ ok tt) ↔ IsEvidence python recorded
validate_runtime_iff_example = validate_runtime_iff python recorded

abbrev key_id : String
key_id = "0123456789abcdef0123456789abcdef"

abbrev public_key : String
public_key = "ssh-ed25519 AAAA remote-ai-bridge:0123456789abcdef0123456789abcdef"

abbrev with_key : Sys
with_key = record stored {
  keys =
      (
        key_id,
        record { private_file = some (regular "secret"); public_file = some (regular public_key) },
      )
      ∷ [];
}

abbrev generated_pair : SshKeyPair
generated_pair = pair_of env "root" none key_id public_key true

remove_generated-IsOwnKey_example :
    ((remove_generated env "root" none generated_pair with_key).1.keys ≡ with_key.keys)
    ⊎ ((true ≡ true) × IsOwnKey with_key.keys key_id public_key)
remove_generated-IsOwnKey_example =
    remove_generated-IsOwnKey env "root" none generated_pair with_key

confirm_host_key-Decided_example :
    ((confirm_host_key env "example.org" 2222 "SHA256:x" true with_other).1.known_hosts
      ≡ with_other.known_hosts)
    ⊎ ((true ≡ true)
        × ((key_type : String) × (key : String) × (env.server_key with_other.trace "example.org"
                2222
              ≡ some (key_type, "SHA256:x", key))
            × ((confirm_host_key env "example.org" 2222 "SHA256:x" true with_other).1.known_hosts
                ≡ some (
                    known_lines with_other.known_hosts
                    ++ (exact_line (info_of "example.org" 2222 (key_type, "SHA256:x", key))
                        ∷ [])))))
confirm_host_key-Decided_example =
    confirm_host_key-Decided env "example.org" 2222 "SHA256:x" true with_other
