-- ===== src/Handlers/Runs.antt =====
-- The theorems on the methods that write state, on receipts and on routes, in a small world.
use soroban_fork.Prelude.{◌≢◌}
use soroban_fork.Prelude.{◌≡◌, ◌⊎◌, refl, none, some, [], ◌∷◌, arith, codes, ℕ_discrete}
use soroban_fork.Prelude.Int.{pos, ◌+ℤ◌, ◌-ℤ◌}
use soroban_fork.Prelude.Assoc.{lookup}
use soroban_fork.Xdr.{ScAddress, ContractExecutable}
use soroban_fork.Ledger.{key_eq}
use soroban_fork.Source.Guarded.{guarded_codec-IsCodec, encodes_to_itself}
use soroban_fork.Source.View.{known}
use soroban_fork.Env.{ledger_sequence, fee_configuration}
use soroban_fork.Render.{i128_from_pieces}
use soroban_fork.Tx.{HostFunction}
use soroban_fork.Hex.{hex_lower, parse_hex32, parse_pairs, hex_nibble, hex_digit}
use soroban_fork.Actor.{step, bytes_key_eq}
use soroban_fork.Actor.Simulation.{simulate_transaction, simulation_reply, compute_min_resource_fee}
use soroban_fork.Actor.Host.{run_host}
use soroban_fork.Handlers.{send, answered}
use soroban_fork.Handlers.Install.{instance_entry, handle_fork_etch}
use soroban_fork.Handlers.Installed.{stored, Reads}
use soroban_fork.Handlers.Etched.{
  handle_fork_etch_lem, instance_slot, code_slot, installed_code, running,
}
use soroban_fork.Handlers.Balance.{handle_fork_set_balance}
use soroban_fork.Handlers.Token.{handle_set_token_balance, current_balance, as_simulated}
use soroban_fork.Handlers.Minted.{Effect, SentOnce, handle_set_token_balance_lem}
use soroban_fork.Handlers.Replies.{handle_get_transaction}
use soroban_fork.Handlers.Responses.{GetTransactionResponse}
use soroban_fork.Handlers.Receipt.{Reports, handle_get_transaction_lem}
use soroban_fork.Handlers.Dispatch.{HttpReply, Body, jsonrpc_handler}
use soroban_fork.Handlers.Routes.{Serves, read_first, jsonrpc_handler-Serves}
use soroban_fork.Handlers.Sample.{
  token_address, counter, carol, to_bytes, of_bytes, world, wire, outside, worker, etch, deal, sim,
  encoders, encodings, digest, sent_before, readers, deal_request,
}

-- After the swap the counter is what it was.
handle_fork_etch_lem_example :
    let t =
      stored
        (instance_slot (5 ∷ []))
        (2 ∷ 9 ∷ [])
        (some 5000)
        (stored (code_slot (9 ∷ [])) (1 ∷ 0 ∷ 97 ∷ []) (some 5000) worker) in
    (handle_fork_etch world wire outside 0 etch (some worker) ≡ (
      answered (record { hash = hex_lower (9 ∷ []); latest_ledger = ledger_sequence worker.env }),
      some t,
    ))
    × Reads world t (code_slot (9 ∷ [])) (installed_code (9 ∷ []) (0 ∷ 97 ∷ [])) (some 5000)
    × Reads world t (instance_slot (5 ∷ [])) (running (5 ∷ []) (9 ∷ []) counter) (some 5000)
unfolding to_bytes of_bytes known lookup key_eq ℕ_discrete
handle_fork_etch_lem_example =
    handle_fork_etch_lem world wire outside 0 etch worker
      (some (instance_entry token_address (8 ∷ []) counter, none)) counter {wasm = 0 ∷ 97 ∷ []}
      (guarded_codec-IsCodec to_bytes of_bytes) refl refl (omega arith) refl
      (_, ContractExecutable.wasm (8 ∷ []), refl, refl)
      (encodes_to_itself to_bytes of_bytes (installed_code (9 ∷ []) (0 ∷ 97 ∷ [])) refl)
      (encodes_to_itself to_bytes of_bytes (running (5 ∷ []) (9 ∷ []) counter) refl)

-- From 70 to 100: a mint of 30.
handle_set_token_balance_lem_example :
    ((pos 70 ≡ pos 100)
      × (handle_set_token_balance world wire outside 0 carol (codes "100") (5 ∷ []) (some worker)
          ≡ (answered 1000, some worker)))
    ⊎ ((call : HostFunction) × Effect token_address
          (ScAddress.account carol)
          call
          (pos 70)
          (pos 100)
        × SentOnce world wire outside 0 call worker (
            handle_set_token_balance world wire outside 0 carol
              (codes "100")
              (5 ∷ [])
              (some worker)))
unfolding send step simulate_transaction run_host simulation_reply compute_min_resource_fee
    fee_configuration as_simulated ledger_sequence ◌+ℤ◌ current_balance i128_from_pieces ◌-ℤ◌
handle_set_token_balance_lem_example =
    handle_set_token_balance_lem world wire outside 0 carol (codes "100") (5 ∷ []) 100 (pos 70)
      worker worker sim refl refl refl refl (omega arith) (omega arith) (omega arith)

handle_get_transaction_lem_example :
    (response : GetTransactionResponse) × (handle_get_transaction world wire encoders 0
        (hex_lower digest)
        (some sent_before)
      ≡ (answered response, some sent_before))
    × Reports wire encoders encodings (lookup digest sent_before.receipts) response
    × (response.latest_ledger ≡ ledger_sequence sent_before.env)
unfolding parse_hex32 hex_lower parse_pairs hex_nibble hex_digit
handle_get_transaction_lem_example =
    handle_get_transaction_lem world wire encoders encodings 0 (hex_lower digest) sent_before
      {hash = digest} refl

jsonrpc_handler-Serves_example :
    let result =
      read_first Body.balance_set
        (some deal)
        (handle_fork_set_balance world wire outside 0)
        (some worker) in
    ((deal_request.jsonrpc ≡ codes "2.0")
      × (jsonrpc_handler world wire outside encoders readers 0 deal_request (some worker)
          ≡ (HttpReply.json_rpc (1 ∷ []) result.0, result.1)))
    ⊎ ((deal_request.jsonrpc ≢ codes "2.0")
        × (jsonrpc_handler world wire outside encoders readers 0 deal_request (some worker)
            ≡ (HttpReply.bad_request, some worker)))
jsonrpc_handler-Serves_example =
    jsonrpc_handler-Serves world wire outside encoders readers 0 deal_request (some worker)
      Serves.fork_set_balance
