-- ===== src/Services/Supervisor/Backoff.antt =====
-- The delays between attempts (`_backoff` of app/services/tunnel_supervisor.py).
use remote_ai_bridge.Prelude.{
  ℕ, zero, suc, ◌≤◌, ◌-◌, ◌<◌, length, ◌≡◌, ap, List, [], ◌∷◌, All, arith,
}
use remote_ai_bridge.Services.Probe.{min}
use remote_ai_bridge.Services.Supervisor.Publish.{Policy, get_or, backoff}

get_or-All : (P : ℕ → Type 0) (xs : List ℕ) (i : ℕ) → i < length xs → All P xs → P (get_or xs i)
unfolding get_or
get_or-All P [] i e h = elim (none_below i e) [ ]
  where
    none_below : (i : ℕ) → i < 0 → ⊥
    none_below i e = omega (arith, e)
get_or-All P (x ∷ xs) zero e h = h.0
get_or-All P (x ∷ xs) (suc i) e h = get_or-All P xs i (omega (arith, e)) h.1

in_range : (i n : ℕ) → 0 < n → min i (n - 1) < n
in_range i n e = ground arith

past_end : (i n : ℕ) → n ≤ i → min i (n - 1) ≡ n - 1
past_end i n e = ground arith

-- With at least one delay in the policy, the index of `_backoff` is in range, so the delay is one of
-- the policy's (whatever holds of all of them holds of it), and from the end of the list on it stays
-- at the last one.
pub backoff-All :
    (policy : Policy) (P : ℕ → Type 0) (i : ℕ)
    → 0 < length policy.backoff_seconds
    → All P policy.backoff_seconds
    → P (backoff policy i)
      × (length policy.backoff_seconds ≤ i
          → backoff policy i ≡ get_or policy.backoff_seconds (length policy.backoff_seconds - 1))
unfolding backoff
backoff-All policy P i e h = (
  get_or-All P policy.backoff_seconds _ (in_range i (length policy.backoff_seconds) e) h,
  λ past. ap (get_or policy.backoff_seconds) (past_end i _ past),
)
