-- ===== src/Handlers/Token.antt =====
-- handle_set_token_balance of src/server/handlers.rs: the balance of a token's contract, by a mint or a burn.
use soroban_fork.Prelude.{
  ℕ, ◌+◌, ◌-◌, ◌/◌, ◌%◌, ◌^◌, Bool, false, Option, none, some, [], ◌∷◌, codes, ltb, leb,
  if◌then◌else◌,
}
use soroban_fork.Prelude.Int.{ℤ, pos, negsuc}
use soroban_fork.Xdr.{Bytes, ScAddress, ScVal}
use soroban_fork.Render.{i128_from_pieces}
use soroban_fork.Tx.{HostFunction, MuxedAccount, OperationBody, TransactionEnvelope}
use soroban_fork.Actor.Host.{World, Result, success, error}
use soroban_fork.Actor.Messages.{Command, Reply, SimulationReply}
use soroban_fork.Handlers.{
  Rpc, ◌>>=◌, respond, or_refuse, JsonRpcError, Wire, send, as_sent, as_latest_ledger,
}
use soroban_fork.Handlers.Params.{Outside}

-- An i128 as its 128 bits, and back.
unfoldable pub to_bits_128 : ℤ → ℕ
to_bits_128 (pos n) = n % 2 ^ 128
to_bits_128 (negsuc n) = 2 ^ 128 - 1 - n % 2 ^ 128

unfoldable pub of_bits_128 : ℕ → ℤ
of_bits_128 bits = if ltb bits (2 ^ 127) then pos bits else negsuc (2 ^ 128 - 1 - bits)

-- `a - b` on i128, which wraps in a release build.
unfoldable pub wrapping_sub_i128 : ℤ → ℤ → ℤ
wrapping_sub_i128 a b = of_bits_128 ((to_bits_128 a + 2 ^ 128 - to_bits_128 b) % 2 ^ 128)

-- The high half keeps the sign: the shift is arithmetic.
unfoldable pub i128_to_scval : ℤ → ScVal
i128_to_scval (pos n) = ScVal.i128 (pos (n / 2 ^ 64)) (n % 2 ^ 64)
i128_to_scval (negsuc n) = ScVal.i128 (negsuc (n / 2 ^ 64)) (2 ^ 64 - 1 - n % 2 ^ 64)

-- `checked_abs`, with the name of the function to call: none for i128::MIN. The difference is not zero.
unfoldable pub mint_or_burn : ℤ → Option (Bytes × ℤ)
mint_or_burn (pos n) = some (codes "mint", pos n)
mint_or_burn (negsuc n) = if ltb n (2 ^ 127 - 1) then some (codes "burn", pos (n + 1)) else none

unfoldable pub is_zero : ℤ → Bool
is_zero (pos n) = leb n 0
is_zero (negsuc n) = false

unfoldable pub zero_source : Bytes
zero_source =
    0 ∷ 0 ∷ 0 ∷ 0 ∷ 0 ∷ 0 ∷ 0 ∷ 0 ∷ 0 ∷ 0 ∷ 0 ∷ 0 ∷ 0 ∷ 0 ∷ 0 ∷ 0 ∷ 0 ∷ 0 ∷ 0 ∷ 0 ∷ 0 ∷ 0 ∷ 0 ∷ 0
    ∷ 0 ∷ 0 ∷ 0 ∷ 0 ∷ 0 ∷ 0 ∷ 0 ∷ 0 ∷ []

unfoldable pub balance_call : ScAddress → ScAddress → HostFunction
balance_call token holder =
    HostFunction.invoke_contract token (codes "balance") (ScVal.address holder ∷ [])

unfoldable pub mutate_call : ScAddress → ScAddress → Bytes → ℤ → HostFunction
mutate_call token holder name amount =
    HostFunction.invoke_contract token name (ScVal.address holder ∷ i128_to_scval amount ∷ [])

-- The envelope that wraps the call, unsigned and with an empty source.
unfoldable pub synthetic_envelope : HostFunction → TransactionEnvelope
synthetic_envelope call =
    TransactionEnvelope.tx
      (record {
        source_account = MuxedAccount.ed25519 zero_source;
        fee = 0;
        seq_num = pos 0;
        operations =
            record { source_account = none; op_body = OperationBody.invoke_host_function call }
            ∷ [];
      })
      []

unfoldable pub as_simulated : Reply → Option SimulationReply
as_simulated (Reply.simulated r) = some r
as_simulated _ = none

-- The balance that the simulation returned: any other value, and an error, is a refusal.
unfoldable pub current_balance : Result ScVal → Option ℤ
current_balance (success (ScVal.i128 hi lo)) = some (i128_from_pieces hi lo)
current_balance _ = none

-- `amount_str.parse()` and the test that it is not negative
unfoldable pub target_amount : Option ℤ → Option ℤ
target_amount none = none
target_amount (some (pos n)) = some (pos n)
target_amount (some (negsuc n)) = none

-- Whether the call went through.
unfoldable pub sent_value : Result ScVal → Option ScVal
sent_value (success v) = some v
sent_value (error e) = none

module _ (w : World) (wire : Wire) (outside : Outside) (now : ℕ) where
  -- The call in its envelope, through the worker.
  unfoldable pub send_call : HostFunction → Rpc ℕ
  send_call call = do
    envelope_bytes ←
        or_refuse JsonRpcError.internal_error (outside.encode_envelope (synthetic_envelope call))
    sent ← send w wire now as_sent (Command.send_tx envelope_bytes call zero_source)
    _ ← or_refuse JsonRpcError.invalid_params (sent_value sent.receipt.tx_result)
    latest ← send w wire now as_latest_ledger Command.get_latest_ledger
    respond latest.sequence

  unfoldable pub send_change : ScAddress → ScAddress → ℤ → Rpc ℕ
  send_change token holder delta = do
    (name, amount) ← or_refuse JsonRpcError.invalid_params (mint_or_burn delta)
    send_call (mutate_call token holder name amount)

  unfoldable pub handle_set_token_balance : Bytes → Bytes → Bytes → Rpc ℕ
  handle_set_token_balance account amount_text contract_text = do
    target ← or_refuse JsonRpcError.invalid_params (target_amount (outside.parse_i128 amount_text))
    id ← or_refuse JsonRpcError.invalid_params (outside.contract_strkey contract_text)
    let token = ScAddress.contract id
    let holder = ScAddress.account account
    sim ←
        send w wire now as_simulated (Command.simulate_tx (balance_call token holder) zero_source 0)
    current ← or_refuse JsonRpcError.invalid_params (current_balance sim.sim_result)
    let delta = wrapping_sub_i128 target current
    if is_zero delta then respond sim.latest_ledger else send_change token holder delta
