-- ===== src/Client/Backoff.antt =====
-- crates/lumencast-client/src/backoff.rs; times in milliseconds. The scaling by a factor of the
-- wall clock is in floating point: a parameter, `jitter`.
mod Tests
use lumencast_rs.Prelude.{
  ℕ, zero, suc, ◌+◌, ◌*◌, ◌≤◌, ◌≡◌, refl, Bool, true, false, ◌==◌, ltb, leb, if◌then◌else◌, arith,
}

unfoldable pub base_ms : ℕ → ℕ
base_ms attempt =
    if leb attempt 1
    then 0
    else if attempt == 2
    then 500
    else if attempt == 3
    then 1000
    else if attempt == 4
    then 2000
    else if attempt == 5
    then 4000
    else if attempt == 6
    then 8000
    else if attempt == 7
    then 15000
    else if attempt == 8
    then 30000
    else 60000

unfoldable pub backoff_for_attempt_with_jitter : (ℕ → ℕ) → ℕ → Bool → ℕ
backoff_for_attempt_with_jitter jitter attempt jittered =
    if base_ms attempt == 0
    then 0
    else if jittered
    then jitter (base_ms attempt)
    else base_ms attempt

abbrev pub backoff_for_attempt : (ℕ → ℕ) → ℕ → ℕ
backoff_for_attempt jitter attempt = backoff_for_attempt_with_jitter jitter attempt true

-- Without jitter, a later attempt never waits less than an earlier one, and none waits more than
-- 60 seconds.
backoff-monotone :
    (jitter : ℕ → ℕ) (a b : ℕ)
    → a ≤ b
    → (backoff_for_attempt_with_jitter jitter a false
        ≤ backoff_for_attempt_with_jitter jitter b false)
      × (backoff_for_attempt_with_jitter jitter b false ≤ 60000)
unfolding backoff_for_attempt_with_jitter base_ms
backoff-monotone jitter a b le = ground arith

-- If the jitter stays within a quarter of the base, so does each wait, and no wait exceeds 75
-- seconds.
pub backoff-jittered :
    (jitter : ℕ → ℕ) (a : ℕ)
    → ((b : ℕ) → (3 * b ≤ 4 * jitter b) × (4 * jitter b ≤ 5 * b))
    → (3 * base_ms a ≤ 4 * backoff_for_attempt jitter a)
      × (4 * backoff_for_attempt jitter a ≤ 5 * base_ms a)
      × (backoff_for_attempt jitter a ≤ 75000)
unfolding backoff_for_attempt_with_jitter base_ms
backoff-jittered jitter a h = ground (arith, h (base_ms a))
