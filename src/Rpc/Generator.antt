-- ===== src/Rpc/Generator.antt =====
-- The random generator of src/rpc.rs over its life: its seed, and the states that the delays leave it in.
use Prim.Native.Nat.{bit_xor}
use soroban_fork.Prelude.{
  ℕ, zero, suc, ◌+◌, ◌*◌, ◌/◌, ◌%◌, ◌^◌, ◌<◌, ◌≡◌, ◌≢◌, Option, none, some, List, [], ◌∷◌, arith,
  ◌==◌, inl, inr, Bool-cases,
}
use soroban_fork.Prelude.Bits.{eq_of_bit_xor, bit_xor-lt}
use soroban_fork.Rpc.Backoff.{next_rng_u64, jitter_under, backoff_delay}

-- The state from the nanoseconds since 1970, or from a constant when the clock stands before that. `| 1` sets the
-- lowest bit.
unfoldable pub seed_rng : Option ℕ → ℕ
seed_rng none = 0xdeadbeefcafebabe / 2 * 2 + 1
seed_rng (some nanos) = (nanos % 2 ^ 64 * 0x9e3779b97f4a7c15 % 2 ^ 64) / 2 * 2 + 1

-- The states after some delays, each of its base and its attempt.
unfoldable pub after_delays : List (ℕ × ℕ) → ℕ → ℕ
after_delays [] rng = rng
after_delays ((base, attempt) ∷ rest) rng = after_delays rest (backoff_delay base attempt rng).1

-- A u64 that is not zero.
pub record IsState (rng : ℕ) : Type 0 where
  pub is_word : rng < 2 ^ 64
  pub positive : 0 < rng

positive_of_ne : (n : ℕ) → n ≢ 0 → 0 < n
positive_of_ne zero h = absurd (h (omega arith))
positive_of_ne (suc n) h = omega arith

-- A number is not its shift unless it is zero.
shift_left-IsState :
    (k s : ℕ)
    → ((t : ℕ) → t < 2 ^ 64 → t ≡ t * 2 ^ k % 2 ^ 64 → t ≡ 0)
    → IsState s
    → IsState (bit_xor s (s * 2 ^ k % 2 ^ 64))
shift_left-IsState k s fixed v = record {
  is_word = bit_xor-lt 64 s (s * 2 ^ k % 2 ^ 64) v.is_word (omega arith);
  positive = positive_of_ne _ (λ e.
      absurd
        (omega (arith, fixed s v.is_word (eq_of_bit_xor s (s * 2 ^ k % 2 ^ 64) e), v.positive)));
}

shift_right-IsState : (s : ℕ) → IsState s → IsState (bit_xor s (s / 2 ^ 7))
shift_right-IsState s v = record {
  is_word = bit_xor-lt 64 s (s / 2 ^ 7) v.is_word (omega (arith, v.is_word));
  positive =
      positive_of_ne _ (λ e. absurd (omega (arith, eq_of_bit_xor s (s / 2 ^ 7) e, v.positive)));
}

not_shifted_13 : (t : ℕ) → t < 2 ^ 64 → t ≡ t * 2 ^ 13 % 2 ^ 64 → t ≡ 0
not_shifted_13 t h e = omega arith

not_shifted_17 : (t : ℕ) → t < 2 ^ 64 → t ≡ t * 2 ^ 17 % 2 ^ 64 → t ≡ 0
not_shifted_17 t h e = omega arith

next_rng_u64-IsState : (s : ℕ) → IsState s → IsState (next_rng_u64 s)
unfolding next_rng_u64
next_rng_u64-IsState s v =
    shift_left-IsState 17 _ not_shifted_17
      (shift_right-IsState _ (shift_left-IsState 13 s not_shifted_13 v))

backoff_delay-IsState :
    (base attempt rng : ℕ) → IsState rng → IsState (backoff_delay base attempt rng).1
unfolding backoff_delay jitter_under
backoff_delay-IsState base attempt rng v = elim (Bool-cases (base % 2 ^ 64 == 0)) [
  | inl nothing ↦ rw nothing v
  | inr something ↦ rw something (next_rng_u64-IsState rng v)
]

after_delays-IsState : (ds : List (ℕ × ℕ)) (rng : ℕ) → IsState rng → IsState (after_delays ds rng)
unfolding after_delays
after_delays-IsState [] rng v = v
after_delays-IsState ((base, attempt) ∷ ds) rng v =
    after_delays-IsState ds (backoff_delay base attempt rng).1
      (backoff_delay-IsState base attempt rng v)

seed_rng-IsState : (clock : Option ℕ) → IsState (seed_rng clock)
unfolding seed_rng
seed_rng-IsState none = record { is_word = omega arith; positive = omega arith }
seed_rng-IsState (some nanos) = record { is_word = omega arith; positive = omega arith }

-- Whatever the clock says when the generator is seeded, and whatever delays it has served since, its state is a u64 that
-- is not zero, the one value that it would never leave.
pub after_delays-seed_rng :
    (clock : Option ℕ) (ds : List (ℕ × ℕ)) → IsState (after_delays ds (seed_rng clock))
after_delays-seed_rng clock ds = after_delays-IsState ds (seed_rng clock) (seed_rng-IsState clock)
