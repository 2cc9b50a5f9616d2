-- ===== src/Services/Runtime/Threads.antt =====
-- The threads that app/services/runtime_manager.py starts, and the orders in which the regions under
-- the registry's lock and the ends of the threads may follow each other. A call of a method is a
-- sequence of such regions, between which any others may come.
pub mod Laws
pub mod Safety
pub mod Closing
use remote_ai_bridge.Prelude.{
  ℕ, String, Bool, true, false, not, ◌&&◌, ◌||◌, Option, none, some, List, [], ◌∷◌, get, nat_eq,
  ◌==◌, is_some, if◌then◌else◌,
}
use remote_ai_bridge.Domain.Errors.{Result, ok, raised}
use remote_ai_bridge.Domain.Registry.{
  Worker, Registry, empty_registry, start_region, stop_region, begin_profile_stop, end_profile_stop,
  end_guarded, close,
}

-- a thread that runs `_run_worker`: its worker's number, and whether its finished event is set
pub record Thread : Type 0 where
  pub id : ℕ
  pub profile : String
  pub finished : Bool

pub record Machine : Type 0 where
  pub registry : Registry
  pub threads : List Thread

abbrev pub idle : Machine
idle = record { registry = empty_registry; threads = [] }

-- a thread of the worker has not finished
unfoldable pub runs : ℕ → List Thread → Bool
runs id [] = false
runs id (t ∷ ts) = (nat_eq t.id id && not t.finished) || runs id ts

-- the profile's worker, where it is there and not finished
unfoldable pub live_worker : List Thread → Option Worker → Option Worker
unfolding runs
live_worker ts none = none
live_worker ts (some w) = if runs w.id ts then some w else none

abbrev pub current : Machine → String → Option Worker
current m name = live_worker m.threads (get name m.registry.workers)

-- `thread.start()` where `start` has made a new worker
unfoldable pub launch : String → Option Worker → Machine → Result (Worker × Registry) → Machine
launch name existing m (raised e) = m
launch name (some _) m (ok (w, r)) = record m { registry = r }
launch name none m (ok (w, r)) = record {
  registry = r;
  threads = record { id = w.id; profile = name; finished = false } ∷ m.threads;
}

unfoldable pub start : String → Machine → Machine
unfolding live_worker launch
start name m = launch name (current m name) m (start_region (current m name) name m.registry)

unfoldable pub replace : Machine → Result Registry → Machine
replace m (raised e) = m
replace m (ok r) = record m { registry = r }

unfoldable pub begin_stop : String → Machine → Machine
unfolding live_worker replace
begin_stop name m = replace m (stop_region (is_some (current m name)) name m.registry)

-- `finally: self._stopping_profiles.discard(name)`
unfoldable pub end_stop : String → Machine → Machine
end_stop name m = record m { registry = end_profile_stop name m.registry }

-- the end of `_stop_unsupervised_guarded`
unfoldable pub end_unsupervised : String → Option Worker → Machine → Machine
unfolding live_worker
end_unsupervised name expected m = record m {
  registry = end_guarded (is_some (current m name)) name expected m.registry;
}

unfoldable pub shutdown : Machine → Machine
unfolding runs
shutdown m = record m { registry = close (λ w. runs w.id m.threads) m.registry }

-- `finished_event.set()` of a worker
unfoldable pub finish_all : ℕ → List Thread → List Thread
finish_all id [] = []
finish_all id (t ∷ ts) =
    (if nat_eq t.id id then record t { finished = true } else t) ∷ finish_all id ts

unfoldable pub finish : ℕ → Machine → Machine
unfolding finish_all
finish id m = record m { threads = finish_all id m.threads }

-- what other threads and calls may do next
pub data Step : Machine → Machine → Type 0 where
  started : (m : Machine) (name : String) → Step m (start name m)
  stop_begun : (m : Machine) (name : String) → Step m (begin_stop name m)
  stop_ended : (m : Machine) (name : String) → Step m (end_stop name m)
  unsupervised_ended :
      (m : Machine) (name : String) (expected : Option Worker)
      → Step m (end_unsupervised name expected m)
  closed : (m : Machine) → Step m (shutdown m)
  finished : (m : Machine) (id : ℕ) → Step m (finish id m)

pub data Reach : Machine → Type 0 where
  initial : Reach idle
  later : {m n : Machine} → Reach m → Step m n → Reach n
