-- ===== src/Services/Profiles/Changes.antt =====
-- The changes that `ProfileService.update` is given: `dataclasses.replace` with one value for each
-- updatable field, and the names of the other fields. Values have the types of the fields.
use Prim.Native.Nat.{Ordering}
use Prim.Native.String.{compare}
use remote_ai_bridge.Prelude.{ℕ, String, Bool, true, false, List, [], ◌∷◌, if◌then◌else◌}
use remote_ai_bridge.Domain.Profile.{Profile}

pub data Change : Type 0 where
  ssh_target : String → Change
  local_proxy_port : ℕ → Change
  remote_port : ℕ → Change
  auto_reconnect : Bool → Change
  endpoint_probe_url : String → Change
  other : String → Change

unfoldable pub apply_change : Profile → Change → Profile
apply_change p (ssh_target v) = record p { ssh_target = v }
apply_change p (local_proxy_port v) = record p { local_proxy_port = v }
apply_change p (remote_port v) = record p { remote_port = v }
apply_change p (auto_reconnect v) = record p { auto_reconnect = v }
apply_change p (endpoint_probe_url v) = record p { endpoint_probe_url = v }
apply_change p (other _) = p

unfoldable pub apply_changes : Profile → List Change → Profile
unfolding apply_change
apply_changes p [] = p
apply_changes p (c ∷ cs) = apply_changes (apply_change p c) cs

abbrev text_lt : String → String → Bool
text_lt a b = elim (compare a b) [ Ordering.lt ↦ true | _ ↦ false ]

insert_sorted : String → List String → List String
insert_sorted a [] = a ∷ []
insert_sorted a (b ∷ l) =
    let rest = insert_sorted a l in if text_lt b a then b ∷ rest else a ∷ b ∷ l

-- `sorted(set(changes) - UPDATABLE_PROFILE_FIELDS)`; the keys of a mapping are distinct
unfoldable pub invalid_fields : List Change → List String
unfolding insert_sorted
invalid_fields [] = []
invalid_fields (other name ∷ cs) = insert_sorted name (invalid_fields cs)
invalid_fields (_ ∷ cs) = invalid_fields cs
