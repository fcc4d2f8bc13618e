-- ===== src/Handlers/Minted.antt =====
-- The mint or burn that brings a token's balance to its target.
use soroban_fork.Prelude.{
  ℕ, zero, suc, ◌+◌, ◌-◌, ◌^◌, ◌≡◌, ◌<◌, ◌⊎◌, inl, inr, refl, subst, sym, ap, ◌∙◌, Option, none,
  some, Option-cases, [], ◌∷◌, arith, codes, true, false,
}
use soroban_fork.Prelude.Int.{ℤ, pos, negsuc, ◌+ℤ◌, ◌-ℤ◌}
use soroban_fork.Xdr.{Bytes, ScAddress, ScVal}
use soroban_fork.Render.{i128_from_pieces}
use soroban_fork.Prelude.Outcome.{ok, panic, Outcome-cases}
use soroban_fork.Env.{ledger_sequence}
use soroban_fork.Tx.{HostFunction, MuxedAccount, OperationBody, TransactionEnvelope}
use soroban_fork.Actor.{Worker, step, get_latest_ledger_reply}
use soroban_fork.Actor.Receipts.{step-send_tx}
use soroban_fork.Actor.Host.{World, Result, success, error, Result-cases}
use soroban_fork.Actor.Messages.{Command, Reply, SendReply, SimulationReply}
use soroban_fork.Handlers.{Answer, answered, refused, JsonRpcError, Wire, send, as_sent}
use soroban_fork.Handlers.Installed.{send-get_latest_ledger}
use soroban_fork.Handlers.Receipt.{zeros}
use soroban_fork.Handlers.Params.{Outside}
use soroban_fork.Handlers.Token.{
  to_bits_128, of_bits_128, wrapping_sub_i128, i128_to_scval, current_balance, mint_or_burn,
  mutate_call, is_zero, as_simulated, balance_call, zero_source, synthetic_envelope, sent_value,
  send_call, send_change, target_amount, handle_set_token_balance,
}

-- The range of an i128.
abbrev pub IsI128 : ℤ → Type 0
IsI128 (pos n) = n < 2 ^ 127
IsI128 (negsuc n) = n < 2 ^ 127

-- Every integer is read back from its two halves.
pub current_balance-i128_to_scval : (z : ℤ) → current_balance (success (i128_to_scval z)) ≡ some z
unfolding current_balance i128_to_scval i128_from_pieces
current_balance-i128_to_scval (pos n) = ground arith
current_balance-i128_to_scval (negsuc n) = ground arith

pub wrapping_sub_i128_lem :
    (a b : ℤ) → IsI128 a → IsI128 b → IsI128 (a -ℤ b) → wrapping_sub_i128 a b ≡ a -ℤ b
unfolding wrapping_sub_i128 to_bits_128 of_bits_128 ◌-ℤ◌
wrapping_sub_i128_lem (pos a) (pos b) ha hb hd = ground (arith, ha, hb, hd)
wrapping_sub_i128_lem (pos a) (negsuc b) ha hb hd = ground (arith, ha, hb, hd)
wrapping_sub_i128_lem (negsuc a) (pos b) ha hb hd = ground (arith, ha, hb, hd)
wrapping_sub_i128_lem (negsuc a) (negsuc b) ha hb hd = ground (arith, ha, hb, hd)

-- What a call of a SEP-41 token does to its holder's balance: `mint` adds its amount, `burn` takes it away.
pub data Effect (token holder : ScAddress) : HostFunction → ℤ → ℤ → Type 0 where
  minted :
      {value : ScVal} {amount balance : ℤ}
      → current_balance (success value) ≡ some amount
      → Effect token holder
          (HostFunction.invoke_contract token (codes "mint") (ScVal.address holder ∷ value ∷ []))
          balance
          (balance +ℤ amount)
  burned :
      {value : ScVal} {amount balance : ℤ}
      → current_balance (success value) ≡ some amount
      → Effect token holder
          (HostFunction.invoke_contract token (codes "burn") (ScVal.address holder ∷ value ∷ []))
          balance
          (balance -ℤ amount)

sub_zero : (target current : ℤ) → target -ℤ current ≡ pos 0 → current ≡ target
unfolding ◌-ℤ◌
sub_zero (pos t) (pos c) h = ground (arith, h)
sub_zero (pos t) (negsuc c) h = ground (arith, h)
sub_zero (negsuc t) (pos c) h = ground (arith, h)
sub_zero (negsuc t) (negsuc c) h = ground (arith, h)

add_difference :
    (target current : ℤ) (n : ℕ) → target -ℤ current ≡ pos n → current +ℤ pos n ≡ target
unfolding ◌-ℤ◌ ◌+ℤ◌
add_difference (pos t) (pos c) n h = ground (arith, h)
add_difference (pos t) (negsuc c) n h = ground (arith, h)
add_difference (negsuc t) (pos c) n h = ground (arith, h)
add_difference (negsuc t) (negsuc c) n h = ground (arith, h)

sub_difference :
    (target current : ℤ) (n : ℕ) → target -ℤ current ≡ negsuc n → current -ℤ pos (n + 1) ≡ target
unfolding ◌-ℤ◌
sub_difference (pos t) (pos c) n h = ground (arith, h)
sub_difference (pos t) (negsuc c) n h = ground (arith, h)
sub_difference (negsuc t) (pos c) n h = ground (arith, h)
sub_difference (negsuc t) (negsuc c) n h = ground (arith, h)

not_least :
    (t : ℕ) (current : ℤ) (n : ℕ) → IsI128 current → pos t -ℤ current ≡ negsuc n → n < 2 ^ 127 - 1
unfolding ◌-ℤ◌
not_least t (pos c) n range h = ground (arith, h, range)
not_least t (negsuc c) n range h = ground (arith, h, range)

-- A difference that is not zero, as a mint or a burn, leads from the one balance to the other.
change_lem :
    (token holder : ScAddress) (target : ℕ) (current delta : ℤ)
    → IsI128 current
    → pos target -ℤ current ≡ delta
    → ((is_zero delta ≡ true) × (current ≡ pos target))
      ⊎ ((is_zero delta ≡ false)
          × (name : Bytes) × (amount : ℤ) × (mint_or_burn delta ≡ some (name, amount))
          × Effect token holder (mutate_call token holder name amount) current (pos target))
unfolding is_zero mint_or_burn mutate_call
change_lem token holder target current (pos zero) range h =
    inl (ground arith, sub_zero (pos target) current h)
change_lem token holder target current (pos (suc n)) range h = inr (
  ground arith,
  codes "mint",
  pos (suc n),
  refl,
  subst
      (λ after.
        Effect token holder (mutate_call token holder (codes "mint") (pos (suc n))) current after)
      (add_difference (pos target) current (suc n) h)
      (Effect.minted (current_balance-i128_to_scval (pos (suc n)))),
)
change_lem token holder target current (negsuc n) range h = inr (
  ground arith,
  codes "burn",
  pos (n + 1),
  ground (arith, not_least target current n range h),
  subst
      (λ after.
        Effect token holder (mutate_call token holder (codes "burn") (pos (n + 1))) current after)
      (sub_difference (pos target) current n h)
      (Effect.burned (current_balance-i128_to_scval (pos (n + 1)))),
)

-- The envelope of a single call, unsigned, from an account whose key is zero.
abbrev pub one_call : HostFunction → TransactionEnvelope
one_call call =
    TransactionEnvelope.tx
      (record {
        source_account = MuxedAccount.ed25519 (zeros 32);
        fee = 0;
        seq_num = pos 0;
        operations =
            record { source_account = none; op_body = OperationBody.invoke_host_function call }
            ∷ [];
      })
      []

synthetic_envelope-one_call : (call : HostFunction) → synthetic_envelope call ≡ one_call call
unfolding synthetic_envelope zero_source
synthetic_envelope-one_call call = refl

module _ (w : World) (wire : Wire) (outside : Outside) (now : ℕ) where
  -- The answer to a call that the worker has run: the latest ledger, or a refusal when the call has failed.
  abbrev pub AnsweredFor : Result ScVal → Worker → Answer ℕ × Option Worker → Type 0
  AnsweredFor (success v) u result = result ≡ (answered u.env.info.sequence_number, some u)
  AnsweredFor (error message) u result = result ≡ (refused JsonRpcError.invalid_params, some u)

  -- The worker has run one command, which sends the call in its envelope, and nothing else: the result is that of the
  -- command, or the command has killed the worker.
  abbrev pub RanOnce : HostFunction → Bytes → Worker → Answer ℕ × Option Worker → Type 0
  RanOnce call bytes t result =
      ((step w now t (Command.send_tx bytes call (zeros 32)) ≡ panic)
        × (result ≡ (refused JsonRpcError.internal_error, none)))
      ⊎ ((sent : SendReply) × (u : Worker) × (step w now t (Command.send_tx bytes call (zeros 32))
            ≡ ok (Reply.sent sent, u))
          × AnsweredFor sent.receipt.tx_result u result)

  -- The same, or the envelope has no encoding and the worker has seen nothing of it.
  abbrev pub SentOnce : HostFunction → Worker → Answer ℕ × Option Worker → Type 0
  SentOnce call t result =
      ((outside.encode_envelope (one_call call) ≡ none)
        × (result ≡ (refused JsonRpcError.internal_error, some t)))
      ⊎ ((bytes : Bytes) × (outside.encode_envelope (one_call call) ≡ some bytes)
          × RanOnce call bytes t result)

  send-panic :
      (bytes : Bytes) (call : HostFunction) (t : Worker)
      → step w now t (Command.send_tx bytes call (zeros 32)) ≡ panic
      → send w wire now as_sent (Command.send_tx bytes call (zeros 32)) (some t)
        ≡ (refused JsonRpcError.internal_error, none)
  unfolding send
  send-panic bytes call t dead = rw (dead, send) refl

  send-sent :
      (bytes : Bytes) (call : HostFunction) (t : Worker) {sent : SendReply} {u : Worker}
      → step w now t (Command.send_tx bytes call (zeros 32)) ≡ ok (Reply.sent sent, u)
      → send w wire now as_sent (Command.send_tx bytes call (zeros 32)) (some t)
        ≡ (answered sent, some u)
  unfolding send as_sent
  send-sent bytes call t ran = rw (ran, send) refl

  latest_sequence :
      (u : Worker) → (get_latest_ledger_reply u.env).sequence ≡ u.env.info.sequence_number
  unfolding get_latest_ledger_reply ledger_sequence
  latest_sequence u = refl

  ran_send_call :
      (call : HostFunction) (t : Worker) {bytes : Bytes}
      → outside.encode_envelope (one_call call) ≡ some bytes
      → RanOnce call bytes t (send_call w wire outside now call (some t))
  unfolding send_call sent_value zero_source synthetic_envelope
  ran_send_call call t {bytes} encodes =
      elim (Outcome-cases (step w now t (Command.send_tx bytes call (zeros 32)))) [
        | inl dead ↦ inl (dead, rw (encodes, send-panic bytes call t dead) refl)
        | inr ((reply, u), ran) ↦
            let (sent, replied, _, _) = step-send_tx w now t bytes call (zeros 32) ran in
            let did : step w now t (Command.send_tx bytes call (zeros 32))
                ≡ ok (Reply.sent sent, u) =
              ran ∙ ap (λ r. ok (r, u)) replied in
            inr (
              sent,
              u,
              did,
              elim (Result-cases sent.receipt.tx_result) [
                | inl (v, e) ↦ rw e (
                    rw
                      (
                        encodes,
                        send-sent bytes call t did,
                        e,
                        send-get_latest_ledger w wire now u,
                        latest_sequence u,
                      )
                      refl)
                | inr (m, e) ↦ rw e (rw (encodes, send-sent bytes call t did, e) refl)
              ],
            )
      ]

  send_call-SentOnce :
      (call : HostFunction) (t : Worker)
      → SentOnce call t (send_call w wire outside now call (some t))
  unfolding send_call synthetic_envelope zero_source
  send_call-SentOnce call t = elim (Option-cases (outside.encode_envelope (one_call call))) [
    | inl e ↦ inl (e, rw e refl)
    | inr (bytes, e) ↦ inr (bytes, e, ran_send_call call t e)
  ]

  -- A token's balance is brought to a target that is not negative: when the simulation of `balance` answers with an
  -- i128 whose difference from the target is an i128 too, the method either finds the balance at its target, and
  -- then sends nothing and has done to the worker only what the simulation did, or it has the worker run a single command,
  -- which sends a call of the token, a mint or a burn whose effect on that balance is the target, and answers with the
  -- latest ledger, or with a refusal when the envelope does not encode, the call fails or the command panics.
  pub handle_set_token_balance_lem :
      (account amount_text contract_text : Bytes) (target : ℕ) (current : ℤ) (s t : Worker)
      (sim : SimulationReply) {id : Bytes}
      → outside.parse_i128 amount_text ≡ some (pos target)
      → outside.contract_strkey contract_text ≡ some id
      → send w wire now as_simulated
          (Command.simulate_tx
            (HostFunction.invoke_contract
              (ScAddress.contract id)
              (codes "balance")
              (ScVal.address (ScAddress.account account) ∷ []))
            (zeros 32)
            0)
          (some s)
        ≡ (answered sim, some t)
      → current_balance sim.sim_result ≡ some current
      → IsI128 (pos target)
      → IsI128 current
      → IsI128 (pos target -ℤ current)
      → ((current ≡ pos target)
          × (handle_set_token_balance w wire outside now account amount_text contract_text (some s)
              ≡ (answered sim.latest_ledger, some t)))
        ⊎ ((call : HostFunction) × Effect
              (ScAddress.contract id)
              (ScAddress.account account)
              call
              current
              (pos target)
            × SentOnce call t (
                handle_set_token_balance w wire outside now account amount_text contract_text
                  (some s)))
  unfolding handle_set_token_balance send_change target_amount balance_call zero_source
  handle_set_token_balance_lem account amount_text contract_text target current s t sim {id} parses
        strkey simulated found small range near =
      let token = ScAddress.contract id in
      let holder = ScAddress.account account in
      let delta = wrapping_sub_i128_lem (pos target) current small range near in
      elim (change_lem token holder target current (pos target -ℤ current) range refl) [
        | inl (zero_delta, same) ↦
            inl (same, rw (parses, strkey, simulated, found, delta, zero_delta) refl)
        | inr (nonzero, name, amount, chosen, effect) ↦ inr (
          mutate_call token holder name amount,
          effect,
          subst (SentOnce (mutate_call token holder name amount) t)
              (sym (rw (parses, strkey, simulated, found, delta, nonzero, chosen) refl))
              (send_call-SentOnce (mutate_call token holder name amount) t),
        )
      ]
