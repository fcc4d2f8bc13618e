-- ===== src/Deal/Examples.antt =====
-- deal_token on a token whose only state is the holder's balance.
use soroban_fork.Prelude.{
  ◌≡◌, refl, ◌⊎◌, true, List, [], ◌∷◌, codes, bytes_eq, if◌then◌else◌, arith,
}
use soroban_fork.Prelude.Int.{ℤ, pos, ◌+ℤ◌, ◌-ℤ◌, ◌≤ℤ◌}
use soroban_fork.Prelude.Outcome.{Outcome, ok, panic}
use soroban_fork.Xdr.{ScAddress, ScVal}
use soroban_fork.Render.{i128_from_pieces}
use soroban_fork.Handlers.Token.{i128_to_scval}
use soroban_fork.Deal.{
  Invoke, deal_token, apply_delta, sub_i128, fits_i128, as_i128, as_unit, u128_to_scval,
}
use soroban_fork.Deal.Target.{IsToken, deal_token_lem}

abbrev token : ScAddress
token = ScAddress.contract (1 ∷ [])

abbrev alice : ScAddress
alice = ScAddress.account (2 ∷ [])

minted : ℤ → List ScVal → Outcome (ScVal × ℤ)
minted balance (holder ∷ ScVal.i128 hi lo ∷ []) = ok (ScVal.void, balance +ℤ i128_from_pieces hi lo)
minted balance args = panic

burned : ℤ → List ScVal → Outcome (ScVal × ℤ)
burned balance (holder ∷ ScVal.i128 hi lo ∷ []) = ok (ScVal.void, balance -ℤ i128_from_pieces hi lo)
burned balance args = panic

unfoldable invoke : Invoke ℤ
unfolding minted burned
invoke balance callee name args =
    if bytes_eq name (codes "balance")
    then ok (i128_to_scval balance, balance)
    else if bytes_eq name (codes "mint")
    then minted balance args
    else if bytes_eq name (codes "burn")
    then burned balance args
    else panic

invoke-IsToken : IsToken invoke token alice (λ balance. balance)
unfolding invoke bytes_eq i128_to_scval i128_from_pieces
invoke-IsToken = record {
  reports = λ s. refl;
  mints = λ s n h. (s +ℤ pos n, ground arith, refl);
  refuses_u128 = λ s hi lo. refl;
}

deal_token_lem_example :
    ((pos 10 ≤ℤ pos 25)
      × ((t : ℤ) × (deal_token invoke true token alice (pos 25) (pos 10) ≡ ok t) × (t ≡ pos 25)))
    ⊎ ((pos 1 +ℤ pos 25 ≤ℤ pos 10) × (deal_token invoke true token alice (pos 25) (pos 10) ≡ panic))
unfolding ◌-ℤ◌
deal_token_lem_example =
    deal_token_lem invoke token alice (λ balance. balance) invoke-IsToken true (pos 25) (pos 10)
      (omega arith) (omega arith)

raised : deal_token invoke true token alice (pos 25) (pos 10) ≡ ok (pos 25)
unfolding deal_token apply_delta sub_i128 fits_i128 as_i128 as_unit invoke bytes_eq i128_to_scval
    i128_from_pieces ◌-ℤ◌ ◌+ℤ◌
raised = refl

-- The balance is above the amount: the burn is refused.
not_lowered : deal_token invoke true token alice (pos 10) (pos 25) ≡ panic
unfolding deal_token apply_delta sub_i128 fits_i128 as_i128 as_unit invoke bytes_eq i128_to_scval
    i128_from_pieces ◌-ℤ◌ ◌+ℤ◌ u128_to_scval
not_lowered = refl
