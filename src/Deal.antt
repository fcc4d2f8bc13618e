-- ===== src/Deal.antt =====
-- ForkedEnv::deal_token of src/lib.rs: a token's balance is set by calls of the token's contract.
pub mod Target
mod Examples
use soroban_fork.Prelude.{
  ℕ, zero, suc, ◌+◌, ◌-◌, ◌*◌, ◌/◌, ◌%◌, ◌^◌, ◌<◌, Bool, true, false, List, [], ◌∷◌, codes, ltb,
  if◌then◌else◌,
}
use soroban_fork.Prelude.Int.{ℤ, pos, negsuc, ◌-ℤ◌}
use soroban_fork.Prelude.Outcome.{Outcome, ok, panic, ◌>>=◌}
use soroban_fork.Xdr.{Bytes, ScAddress, ScVal}
use soroban_fork.Render.{i128_from_pieces}
use soroban_fork.Handlers.Token.{i128_to_scval, wrapping_sub_i128}

-- The Soroban host runs a function of a contract: a value and the host's next state, or a panic.
abbrev pub Invoke : Type 0 → Type 0
Invoke S = S → ScAddress → Bytes → List ScVal → Outcome (ScVal × S)

unfoldable pub fits_i128 : ℤ → Bool
fits_i128 (pos n) = ltb n (2 ^ 127)
fits_i128 (negsuc n) = ltb n (2 ^ 127)

-- `a - b` on i128: a build with overflow checks panics where another one wraps.
unfoldable pub sub_i128 : Bool → ℤ → ℤ → Outcome ℤ
sub_i128 checks a b =
    if fits_i128 (a -ℤ b) then ok (a -ℤ b) else if checks then panic else ok (wrapping_sub_i128 a b)

-- The SDK's reading of a result that is to be an i128, or `()`.
unfoldable pub as_i128 : ScVal → Outcome ℤ
as_i128 (ScVal.i128 hi lo) = ok (i128_from_pieces hi lo)
as_i128 _ = panic

unfoldable pub as_unit : {S : Type 0} → ScVal × S → Outcome S
as_unit (ScVal.void, s) = ok s
as_unit (_, s) = panic

-- A u128 as a value.
unfoldable pub u128_to_scval : ℕ → ScVal
u128_to_scval n = ScVal.u128 (n / 2 ^ 64) (n % 2 ^ 64)

-- The branches on the difference: no call, `mint`, or `burn` with its `unsigned_abs`.
unfoldable pub apply_delta : {S : Type 0} → Invoke S → ScAddress → ScAddress → ℤ → S → Outcome S
apply_delta invoke token holder (pos zero) s = ok s
apply_delta invoke token holder (pos (suc n)) s =
    invoke s token (codes "mint") (ScVal.address holder ∷ i128_to_scval (pos (suc n)) ∷ [])
    >>= as_unit
apply_delta invoke token holder (negsuc n) s =
    invoke s token (codes "burn") (ScVal.address holder ∷ u128_to_scval (suc n) ∷ []) >>= as_unit

unfoldable pub deal_token :
    {S : Type 0} → Invoke S → Bool → ScAddress → ScAddress → ℤ → S → Outcome S
deal_token invoke checks token holder amount s = do
  answer ← invoke s token (codes "balance") (ScVal.address holder ∷ [])
  current ← as_i128 answer.0
  delta ← sub_i128 checks amount current
  apply_delta invoke token holder delta answer.1
