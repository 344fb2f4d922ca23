-- ===== src/Session/Backoff.antt =====
-- packages/core/src/session.ts: `backoffDelay`. `Math.random()` is `n / 2 ^ 53`; the arithmetic is
-- exact where the source rounds to a double.
use native.Mathlib.Nat.{mul-le-mul_left}
use Prim.Native.Nat.{◌^◌}
use hop_desk.Session.{ReconnectPolicy}
use hop_desk.Common.{max, min, ℕ, ◌*◌, ◌+◌, ◌/◌, ◌<◌, ◌≡◌, ◌≤◌, ◌⊎◌, arith}

-- Twice the exponential delay: after a success `attempt` is 0, and the delay half of the first.
unfoldable pub doubled : ReconnectPolicy → ℕ → ℕ
doubled policy tries = min (policy.base_delay_ms * 2 ^ tries) (2 * policy.max_delay_ms)

-- A delay `e / 2` with a jitter of `n / d`, rounded: `e / 2 * (1 + 1 / 4 * (2 * n / d - 1)) + 1 / 2`.
unfoldable pub jittered : (e n d : ℕ) → ℕ
jittered e n d = (e * (3 * d + 2 * n) + 4 * d) / (8 * d)

abbrev pub random_scale : ℕ
random_scale = 9_007_199_254_740_992

unfoldable pub backoff_delay : ReconnectPolicy → (tries n : ℕ) → ℕ
backoff_delay policy tries n = max 250 (jittered (doubled policy tries) n random_scale)

jittered_bounds :
    (e n : ℕ)
    → n < random_scale
    → (3 * e ≤ 8 * jittered e n random_scale + 4) × (8 * jittered e n random_scale ≤ 5 * e + 4)
unfolding jittered
jittered_bounds e n h =
    let e_n : e * n ≤ e * random_scale = mul-le-mul_left e (omega arith) in omega (arith, e_n)

-- For a draw below 1, the delay is at least 250 ms and stays within a quarter, rounded, of the
-- exponential delay: `doubled / 2`, which never exceeds the longest one.
backoff_delay_bounds :
    (policy : ReconnectPolicy) (tries n : ℕ)
    → n < random_scale
    → (250 ≤ backoff_delay policy tries n)
      × (3 * doubled policy tries ≤ 8 * backoff_delay policy tries n + 4)
      × ((backoff_delay policy tries n ≡ 250)
          ⊎ (8 * backoff_delay policy tries n ≤ 5 * doubled policy tries + 4))
      × (doubled policy tries ≤ 2 * policy.max_delay_ms)
unfolding backoff_delay jittered doubled
backoff_delay_bounds policy tries n h =
    let j = jittered_bounds (doubled policy tries) n h in ground (arith, j.0, j.1)
