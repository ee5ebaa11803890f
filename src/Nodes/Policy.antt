-- ===== src/Nodes/Policy.antt =====
-- The pure decisions of src/nodes/supervisor.ts: the backoff delay and what follows an exit.
mod Tests
use mathlib.Core.Bool.{cond}
use native.Mathlib.Nat.{pow-suc}
use hellodac.Prelude.{
  ℕ, zero, suc, ◌+◌, ◌-◌, ◌*◌, ◌^◌, ◌≤◌, ◌<◌, ◌≡◌, refl, ap, ◌⊎◌, inl, inr, Bool, true, false,
  arith, leb, if◌then◌else◌,
}
use Prim.Native.Nat.{min}

pub data ExitDecision : Type 0 where
  to_cold to_restart to_offline : ExitDecision

-- `Math.max(0, attempt - 1)` is the truncated subtraction.
unfoldable pub backoff_delay_ms : ℕ → ℕ → ℕ → ℕ
backoff_delay_ms attempt base_delay max_delay = min (base_delay * 2 ^ (attempt - 1)) max_delay

unfoldable pub decide_after_exit : ℕ → ℕ → Bool → ExitDecision
decide_after_exit attempts max_attempts manual =
    if manual then to_cold else if leb max_attempts attempts then to_offline else to_restart

pow-pos : (n : ℕ) → 1 ≤ 2 ^ n
pow-pos zero = omega arith
pow-pos (suc n) = omega (arith, pow-suc 2 n, pow-pos n)

-- The delay never passes the maximum, is at least the base delay (or the maximum, if that is less),
-- and each further attempt waits twice as long up to the maximum.
backoff_delay_bounds :
    (attempt base_delay max_delay : ℕ)
    → (backoff_delay_ms attempt base_delay max_delay ≤ max_delay)
      × (min base_delay max_delay ≤ backoff_delay_ms attempt base_delay max_delay)
      × (backoff_delay_ms (suc (suc attempt)) base_delay max_delay
          ≡ min (2 * backoff_delay_ms (suc attempt) base_delay max_delay) max_delay)
unfolding backoff_delay_ms
backoff_delay_bounds attempt base_delay max_delay = (
  omega arith,
  grind (arith, pow-pos (attempt - 1)),
  (let e : suc (suc attempt) - 1 ≡ suc attempt = omega arith in
      let e' : suc attempt - 1 ≡ attempt = omega arith in
      rw (e, e') (omega (arith, ap (λ (t : ℕ). base_delay * t) (pow-suc 2 attempt)))),
)
