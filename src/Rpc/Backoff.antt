-- ===== src/Rpc/Backoff.antt =====
-- The delay between two attempts, and the xorshift generator of its jitter.
use Prim.Native.Nat.{bit_xor}
use soroban_fork.Prelude.{ℕ, ◌+◌, ◌*◌, ◌/◌, ◌%◌, ◌^◌, ◌≤◌, ◌<◌, min, arith, ◌==◌, if◌then◌else◌}
use soroban_fork.Prelude.Word.{u32_max, u64_max}

-- `Duration::MAX`, in nanoseconds.
abbrev pub duration_max : ℕ
duration_max = u64_max * 1000000000 + 999999999

-- The state after a draw, which is also what is drawn: three shifted copies are combined by xor.
unfoldable pub next_rng_u64 : ℕ → ℕ
next_rng_u64 s =
    let x = bit_xor s (s * 2 ^ 13 % 2 ^ 64) in
    let y = bit_xor x (x / 2 ^ 7) in bit_xor y (y * 2 ^ 17 % 2 ^ 64)

-- The duration, and the generator's state after it.
unfoldable pub jitter_under : ℕ → ℕ → ℕ × ℕ
jitter_under most rng =
    let max_nanos = most % 2 ^ 64 in
    let drawn = next_rng_u64 rng in if max_nanos == 0 then (0, rng) else (drawn % max_nanos, drawn)

unfoldable pub backoff_delay : ℕ → ℕ → ℕ → ℕ × ℕ
backoff_delay base attempt rng =
    let factor = min (2 ^ attempt) u32_max in
    let exponential = min (base * factor) duration_max in
    let (jitter, rng') = jitter_under base rng in (min (exponential + jitter) duration_max, rng')

-- A jitter is strictly below its bound when that fits a u64 with something left of it.
pub jitter_under_lem : (most rng : ℕ) → 0 < most % 2 ^ 64 → (jitter_under most rng).0 < most
unfolding jitter_under
jitter_under_lem most rng h = ground arith

jitter_under-le : (most rng : ℕ) → (jitter_under most rng).0 ≤ most
unfolding jitter_under
jitter_under-le most rng = ground arith

-- A delay is at least the doubled base, as long as that fits a duration, it exceeds it by at most the base, and it is
-- never more than the largest duration.
pub backoff_delay_lem :
    (base attempt rng : ℕ)
    → (min (base * min (2 ^ attempt) u32_max) duration_max ≤ (backoff_delay base attempt rng).0)
      × ((backoff_delay base attempt rng).0 ≤ base * min (2 ^ attempt) u32_max + base)
      × ((backoff_delay base attempt rng).0 ≤ duration_max)
unfolding backoff_delay
backoff_delay_lem base attempt rng =
    (ground arith, ground (arith, jitter_under-le base rng), ground arith)
