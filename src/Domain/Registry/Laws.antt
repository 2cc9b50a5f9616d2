-- ===== src/Domain/Registry/Laws.antt =====
-- What the registry's functions do to the worker of a name.
use remote_ai_bridge.Prelude.{
  String, ◌≡◌, refl, Bool, true, some, [], ◌∷◌, Dict, get, when_some, ◌==◌, arith, eq_iff,
  if◌then◌else◌,
}
use remote_ai_bridge.Domain.Registry.{Worker, assign, set_stop, set_stops}

pub get-assign :
    (k j : String) (w : Worker) (d : Dict Worker)
    → get j (assign k w d) ≡ (if k == j then some w else get j d)
unfolding get assign
get-assign k j w [] = ground arith
get-assign k j w ((i, v) ∷ d) =
    ground (arith, get-assign k j w d, eq_iff i k, eq_iff i j, eq_iff k j)

abbrev pub told : Worker → Worker
told w = record w { stop_event = true }

pub get-set_stop :
    (k j : String) (d : Dict Worker)
    → get j (set_stop k d) ≡ (if k == j then when_some told (get j d) else get j d)
unfolding get set_stop
get-set_stop k j [] = ground arith
get-set_stop k j ((i, v) ∷ d) =
    ground (arith, get-set_stop k j d, eq_iff i k, eq_iff i j, eq_iff k j)

abbrev pub told_if : (Worker → Bool) → Worker → Worker
told_if f w = if f w then told w else w

pub get-set_stops :
    (f : Worker → Bool) (j : String) (d : Dict Worker)
    → get j (set_stops f d) ≡ when_some (told_if f) (get j d)
unfolding get set_stops
get-set_stops f j [] = refl
get-set_stops f j ((i, v) ∷ d) = ground (arith, get-set_stops f j d)
