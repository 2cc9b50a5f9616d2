-- ===== src/Services/LocalProxy/Discovery/Laws.antt =====
-- What `discover` of app/services/local_proxy.py promises of the proxy that it selects.
use mathlib.Core.Path.{subst}
use remote_ai_bridge.Prelude.{
  ℕ, String, ◌≡◌, refl, Bool, true, false, Option, none, some, List, [], ◌∷◌, nat_eq, arith, All,
  if◌then◌else◌, Bool-cases, inl, inr,
}
use remote_ai_bridge.Domain.Errors.{Result, ok, raised}
use remote_ai_bridge.Exec.{Env, Sys}
use remote_ai_bridge.Exec.Yields.{Anything, Holds, Yields, Yields-after, Yields-lift}
use remote_ai_bridge.Services.LocalProxy.Choice.{
  LocalProxyCandidate, LocalProxyDiscovery, is_healthy, healthy, find_port, only_one, explicit,
  choose,
}
use remote_ai_bridge.Services.LocalProxy.Discovery.{discover}

abbrev Healthy : LocalProxyCandidate → Type 0
Healthy c = is_healthy c ≡ true

if-All :
    (b : Bool) (c : LocalProxyCandidate) (cs : List LocalProxyCandidate)
    → (b ≡ true → Healthy c)
    → All Healthy cs
    → All Healthy (if b then c ∷ cs else cs)
if-All true c cs h a = (h refl, a)
if-All false c cs h a = a

healthy-All : (cs : List LocalProxyCandidate) → All Healthy (healthy cs)
unfolding healthy
healthy-All [] = tt
healthy-All (c ∷ cs) = if-All (is_healthy c) c (healthy cs) (λ e. e) (healthy-All cs)

find_port-Healthy :
    (q : ℕ) (cs : List LocalProxyCandidate) (c : LocalProxyCandidate)
    → All Healthy cs
    → find_port q cs ≡ some c
    → Healthy c × (c.port ≡ q)
unfolding find_port
find_port-Healthy q [] c a h = ground (arith, h)
find_port-Healthy q (d ∷ cs) c a h = elim (Bool-cases (nat_eq d.port q)) [
  | inl e ↦ ground (arith, h, e, a.0)
  | inr e ↦ find_port-Healthy q cs c a.1 (ground (arith, h, e))
]

-- the selected candidate is healthy; it has the port that was asked for, or no other is healthy
abbrev IsChosen : Option ℕ → LocalProxyDiscovery → Type 0
IsChosen none d = Healthy d.selected × (healthy d.candidates ≡ d.selected ∷ [])
IsChosen (some q) d = Healthy d.selected × (d.selected.port ≡ q)

abbrev Chooses : Option ℕ → Result LocalProxyDiscovery → Type 0
Chooses k (ok d) = IsChosen k d
Chooses k (raised e) = Unit

only_one-Chooses :
    (cs valid : List LocalProxyCandidate)
    → healthy cs ≡ valid
    → All Healthy valid
    → Chooses none (only_one cs valid)
unfolding only_one
only_one-Chooses cs [] e a = tt
only_one-Chooses cs (c ∷ []) e a = (a.0, e)
only_one-Chooses cs (c ∷ c' ∷ rest) e a = tt

explicit-Chooses :
    (host : String) (q : ℕ) (cs : List LocalProxyCandidate) (found : Option LocalProxyCandidate)
    → ((c : LocalProxyCandidate) → found ≡ some c → Healthy c × (c.port ≡ q))
    → Chooses (some q) (explicit host q cs found)
unfolding explicit
explicit-Chooses host q cs none g = tt
explicit-Chooses host q cs (some c) g = g c refl

choose-Chooses :
    (host : String) (k : Option ℕ) (cs : List LocalProxyCandidate) → Chooses k (choose host k cs)
unfolding choose
choose-Chooses host none cs = only_one-Chooses cs (healthy cs) refl (healthy-All cs)
choose-Chooses host (some q) cs =
    explicit-Chooses host q cs _ (λ c. find_port-Healthy q (healthy cs) c (healthy-All cs))

module _ (env : Env) (url host : String) (ports : List ℕ) where
  discover-Yields :
      (k : Option ℕ) → Yields Anything (λ d _. IsChosen k d) (discover env url host ports k)
  unfolding discover
  discover-Yields k = Yields-after _ _ λ _. Yields-after _ _ λ _.
      Yields-after _ _
        λ cs. Yields-lift _ (λ d e _ _. subst (Chooses k) e (choose-Chooses host k cs))

  -- With a port to select, the proxy that `discover` returns is healthy and has that port.
  pub discover-is_healthy :
      (q : ℕ) (d : LocalProxyDiscovery) (s s' : Sys)
      → discover env url host ports (some q) s ≡ (ok d, s')
      → (is_healthy d.selected ≡ true) × (d.selected.port ≡ q)
  discover-is_healthy q d s s' h =
      subst (Holds (λ d _. IsChosen (some q) d)) h ((discover-Yields (some q)).at s tt)
