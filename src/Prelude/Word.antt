-- ===== src/Prelude/Word.antt =====
-- Arithmetic of Rust's fixed-width integers.
use Prim.Native.Nat.{ℕ, ◌+◌, ◌-◌, ◌^◌, ◌%◌, min}
use soroban_fork.Prelude.Tests.{◌==◌, if◌then◌else◌}
use soroban_fork.Prelude.Int.{ℤ, pos, negsuc}

abbrev pub u32_max : ℕ
u32_max = 2 ^ 32 - 1

abbrev pub u64_max : ℕ
u64_max = 2 ^ 64 - 1

abbrev pub i64_max : ℕ
i64_max = 2 ^ 63 - 1

-- u32::saturating_add, u64::saturating_add
abbrev pub saturating_add_u32 : ℕ → ℕ → ℕ
saturating_add_u32 a b = min (a + b) u32_max

abbrev pub saturating_add_u64 : ℕ → ℕ → ℕ
saturating_add_u64 a b = min (a + b) u64_max

-- AtomicU32::fetch_add and u32::wrapping_add
abbrev pub wrapping_add_u32 : ℕ → ℕ → ℕ
wrapping_add_u32 a b = (a + b) % 2 ^ 32

-- i64::wrapping_add(1)
abbrev pub wrapping_suc_i64 : ℤ → ℤ
wrapping_suc_i64 (pos n) = if n == i64_max then negsuc i64_max else pos (n + 1)
wrapping_suc_i64 (negsuc n) = if n == 0 then pos 0 else negsuc (n - 1)
