-- ===== src/Deal/Target.antt =====
-- What deal_token does to the balance of a SEP-41 token.
use soroban_fork.Prelude.{
  ℕ, zero, suc, ◌/◌, ◌%◌, sym, ◌^◌, ◌≡◌, ◌⊎◌, inl, inr, Bool, true, [], ◌∷◌, codes, arith, ap, ◌∙◌,
  refl, subst,
}
use soroban_fork.Prelude.Int.{ℤ, pos, negsuc, ◌+ℤ◌, ◌-ℤ◌, ◌≤ℤ◌}
use soroban_fork.Prelude.Outcome.{ok, panic}
use soroban_fork.Xdr.{ScAddress, ScVal}
use soroban_fork.Render.{i128_from_pieces}
use soroban_fork.Handlers.Token.{i128_to_scval}
use soroban_fork.Handlers.Minted.{IsI128}
use soroban_fork.Deal.{
  Invoke, deal_token, apply_delta, sub_i128, fits_i128, as_i128, as_unit, u128_to_scval,
}

-- A token that keeps a holder's balance as SEP-41 says: `balance` reports it as an i128, `mint` of an i128 adds to it as
-- long as the sum is one. The SDK converts each argument by its declared type, so that a `burn` whose amount is a
-- u128 traps.
pub record IsToken {S : Type 0} (invoke : Invoke S) (token holder : ScAddress) (balance : S → ℤ)
    : Type 0 where
  pub reports :
      (s : S)
      → invoke s token (codes "balance") (ScVal.address holder ∷ [])
        ≡ ok (i128_to_scval (balance s), s)
  pub mints :
      (s : S) (n : ℕ)
      → IsI128 (balance s +ℤ pos n)
      → (t : S) × (invoke s token (codes "mint") (ScVal.address holder ∷ i128_to_scval (pos n) ∷ [])
          ≡ ok (ScVal.void, t))
        × (balance t ≡ balance s +ℤ pos n)
  pub refuses_u128 :
      (s : S) (hi lo : ℕ)
      → invoke s token (codes "burn") (ScVal.address holder ∷ ScVal.u128 hi lo ∷ []) ≡ panic

as_i128-i128_to_scval : (z : ℤ) → as_i128 (i128_to_scval z) ≡ ok z
unfolding as_i128 i128_to_scval i128_from_pieces
as_i128-i128_to_scval (pos n) = ap (λ m. ok (pos m)) (omega arith)
as_i128-i128_to_scval (negsuc n) = ap (λ m. ok (negsuc m)) (omega arith)

fits_i128-IsI128 : (z : ℤ) → IsI128 z → fits_i128 z ≡ true
unfolding fits_i128
fits_i128-IsI128 (pos n) h = ground arith
fits_i128-IsI128 (negsuc n) h = ground arith

sub_i128-fits : (checks : Bool) (a b : ℤ) → IsI128 (a -ℤ b) → sub_i128 checks a b ≡ ok (a -ℤ b)
unfolding sub_i128
sub_i128-fits checks a b h = rw (fits_i128-IsI128 (a -ℤ b) h) refl

difference_pos : (a b : ℤ) (n : ℕ) → a -ℤ b ≡ pos n → (b ≤ℤ a) × (b +ℤ pos n ≡ a)
unfolding ◌-ℤ◌ ◌+ℤ◌
difference_pos (pos a) (pos b) n h = ground (arith, h)
difference_pos (pos a) (negsuc b) n h = ground (arith, h)
difference_pos (negsuc a) (pos b) n h = ground (arith, h)
difference_pos (negsuc a) (negsuc b) n h = ground (arith, h)

difference_negsuc : (a b : ℤ) (n : ℕ) → a -ℤ b ≡ negsuc n → pos 1 +ℤ a ≤ℤ b
unfolding ◌-ℤ◌ ◌+ℤ◌
difference_negsuc (pos a) (pos b) n h = ground (arith, h)
difference_negsuc (pos a) (negsuc b) n h = ground (arith, h)
difference_negsuc (negsuc a) (pos b) n h = ground (arith, h)
difference_negsuc (negsuc a) (negsuc b) n h = ground (arith, h)

+ℤ_zero : (a : ℤ) → a +ℤ pos 0 ≡ a
unfolding ◌+ℤ◌
+ℤ_zero (pos a) = ground arith
+ℤ_zero (negsuc a) = ground arith

module _ {S : Type 0} (invoke : Invoke S) (token holder : ScAddress) (balance : S → ℤ)
    (laws : IsToken invoke token holder balance) where
  -- Up to the branches on the difference.
  deal_token-delta :
      (checks : Bool) (amount : ℤ) (s : S)
      → IsI128 (amount -ℤ balance s)
      → deal_token invoke checks token holder amount s
        ≡ apply_delta invoke token holder (amount -ℤ balance s) s
  unfolding deal_token
  deal_token-delta checks amount s fits =
      rw
        (
          laws.reports s,
          as_i128-i128_to_scval (balance s),
          sub_i128-fits checks amount (balance s) fits,
        )
        refl

  apply_delta-reaches :
      (amount : ℤ) (s : S) (delta : ℤ)
      → IsI128 amount
      → amount -ℤ balance s ≡ delta
      → ((balance s ≤ℤ amount)
          × ((t : S) × (apply_delta invoke token holder delta s ≡ ok t) × (balance t ≡ amount)))
        ⊎ ((pos 1 +ℤ amount ≤ℤ balance s) × (apply_delta invoke token holder delta s ≡ panic))
  unfolding apply_delta as_unit u128_to_scval
  apply_delta-reaches amount s (pos zero) in_range e =
      let (below, total) = difference_pos amount (balance s) 0 e in
      inl (below, (s, refl, sym (+ℤ_zero (balance s)) ∙ total))
  apply_delta-reaches amount s (pos (suc n)) in_range e =
      let (below, total) = difference_pos amount (balance s) (suc n) e in
      let (t, minted, after) = laws.mints s (suc n) (subst IsI128 (sym total) in_range) in
      inl (below, (t, rw minted refl, after ∙ total))
  apply_delta-reaches amount s (negsuc n) in_range e = inr (
    difference_negsuc amount (balance s) n e,
    rw (laws.refuses_u128 s (suc n / 2 ^ 64) (suc n % 2 ^ 64)) refl,
  )

  -- A balance is set exactly when it is not above the amount: when their difference and the amount are i128s, and the
  -- balance is at most the amount, the call returns and the balance is the amount; and when the balance
  -- is above it, the call panics, since the amount to burn is passed as a u128.
  pub deal_token_lem :
      (checks : Bool) (amount : ℤ) (s : S)
      → IsI128 amount
      → IsI128 (amount -ℤ balance s)
      → ((balance s ≤ℤ amount)
          × ((t : S) × (deal_token invoke checks token holder amount s ≡ ok t)
              × (balance t ≡ amount)))
        ⊎ ((pos 1 +ℤ amount ≤ℤ balance s)
            × (deal_token invoke checks token holder amount s ≡ panic))
  deal_token_lem checks amount s in_range fits =
      rw (deal_token-delta checks amount s fits)
        (apply_delta-reaches amount s (amount -ℤ balance s) in_range refl)
