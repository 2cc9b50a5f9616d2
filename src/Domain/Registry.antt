-- ===== src/Domain/Registry.antt =====
-- The tables of the RuntimeManager of app/services/runtime_manager.py, and what the methods do to
-- them in one go, while they hold the registry's lock. A worker's number stands for the identity of
-- the object, so that two workers of one profile differ.
pub mod Laws
use remote_ai_bridge.Prelude.{
  ℕ, ◌+◌, String, Bool, true, false, not, ◌&&◌, Option, none, some, List, [], ◌∷◌, Dict, get,
  remove, any, ◌==◌, nat_eq, if◌then◌else◌,
}
use remote_ai_bridge.Domain.Errors.{Exn, text, Result, ok, raised, rab_error, refuse, ◌>>=◌, ◌>>◌}

-- `_Worker`: its number and whether its stop event is set
pub record Worker : Type 0 where
  pub id : ℕ
  pub stop_event : Bool

pub record Registry : Type 0 where
  pub workers : Dict Worker
  pub stopping : List String
  pub closed : Bool
  -- the number of the next worker
  pub next_id : ℕ

abbrev pub empty_registry : Registry
empty_registry = record { workers = []; stopping = []; closed = false; next_id = 0 }

unfoldable pub contains_name : String → List String → Bool
contains_name name [] = false
contains_name name (n ∷ ns) = let rest = contains_name name ns in if n == name then true else rest

-- `names.discard(name)`
unfoldable pub discard : String → List String → List String
discard name [] = []
discard name (n ∷ ns) = let rest = discard name ns in if n == name then rest else n ∷ rest

-- `workers[name] = worker`: in its old place where the name is there, or at the end
unfoldable pub assign : String → Worker → Dict Worker → Dict Worker
assign name w [] = (name, w) ∷ []
assign name w ((n, v) ∷ d) =
    let rest = assign name w d in if n == name then (n, w) ∷ d else (n, v) ∷ rest

abbrev pub in_progress : String → Exn
in_progress name = rab_error "RUNTIME_STOP_IN_PROGRESS" true (("name", text name) ∷ [])

-- `_ensure_start_allowed`
unfoldable pub ensure_start_allowed : Registry → String → Result (Unit {0})
unfolding contains_name
ensure_start_allowed r name = do
  refuse r.closed (rab_error "RUNTIME_MANAGER_SHUTTING_DOWN" false [])
  refuse (contains_name name r.stopping) (in_progress name)

-- a new worker, which is the profile's from now on
unfoldable pub register : String → Registry → Registry
unfolding assign
register name r = record r {
  workers = assign name (record { id = r.next_id; stop_event = false }) r.workers;
  next_id = r.next_id + 1;
}

-- the second region of `start`, given the profile's worker where it is there and not finished
unfoldable pub start_region : Option Worker → String → Registry → Result (Worker × Registry)
unfolding ensure_start_allowed register
start_region (some w) name r = do ensure_start_allowed r name; ok (w, r)
start_region none name r = do
  ensure_start_allowed r name
  ok (record { id = r.next_id; stop_event = false }, register name r)

-- `_begin_profile_stop`
unfoldable pub begin_profile_stop : String → Registry → Result Registry
unfolding contains_name
begin_profile_stop name r = do
  refuse (contains_name name r.stopping) (in_progress name)
  ok (record r { stopping = name ∷ r.stopping })

unfoldable pub end_profile_stop : String → Registry → Registry
unfolding discard
end_profile_stop name r = record r { stopping = discard name r.stopping }

-- `worker.stop_event.set()` for the profile's worker
unfoldable pub set_stop : String → Dict Worker → Dict Worker
set_stop name [] = []
set_stop name ((n, w) ∷ d) =
    let rest = set_stop name d in
    if n == name then (n, record w { stop_event = true }) ∷ d else (n, w) ∷ rest

unfoldable pub request_stop : String → Registry → Registry
unfolding set_stop
request_stop name r = record r { workers = set_stop name r.workers }

-- the region of `stop`; the flag says that the profile's worker is there and not finished
unfoldable pub stop_region : Bool → String → Registry → Result Registry
unfolding begin_profile_stop request_stop
stop_region is_live name r = do
  marked ← begin_profile_stop name r
  ok (if is_live then request_stop name marked else marked)

-- `current is expected_worker` and finished, where `is_live` says that it is not
abbrev pub is_expected : Option Worker → Option Worker → Bool
is_expected (some w) (some v) = nat_eq w.id v.id
is_expected _ _ = false

-- the region at the end of `_stop_unsupervised_guarded`
unfoldable pub end_guarded : Bool → String → Option Worker → Registry → Registry
unfolding end_profile_stop
end_guarded is_live name expected r = end_profile_stop name (
    if is_expected (get name r.workers) expected && not is_live
    then record r { workers = remove name r.workers }
    else r)

-- `worker.stop_event.set()` for each worker that is not finished
unfoldable pub set_stops : (Worker → Bool) → Dict Worker → Dict Worker
set_stops is_live [] = []
set_stops is_live ((n, w) ∷ d) =
    (n, if is_live w then record w { stop_event = true } else w) ∷ set_stops is_live d

-- the region of `shutdown`
unfoldable pub close : (Worker → Bool) → Registry → Registry
unfolding set_stops
close is_live r = record r { closed = true; workers = set_stops is_live r.workers }
