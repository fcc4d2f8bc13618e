-- ===== src/Handlers/Routes.antt =====
-- Which handler a request reaches.
use soroban_fork.Prelude.{List, [], ◌∷◌, ◌≢◌, All, Bool-cases}
use soroban_fork.Prelude.{ℕ, Option, none, some, codes, bytes_eq}
use soroban_fork.Xdr.{Bytes}
use soroban_fork.Actor.{Worker}
use soroban_fork.Actor.Host.{World}
use soroban_fork.Handlers.{Rpc, Answer, JsonRpcError, Wire}
use soroban_fork.Handlers.Commands.{
  handle_send_transaction, handle_fork_set_ledger_entry, handle_fork_close_ledgers,
}
use soroban_fork.Handlers.Queries.{
  handle_get_health, handle_get_network, handle_get_latest_ledger, handle_get_ledgers,
  handle_get_ledger_entries,
}
use soroban_fork.Handlers.Params.{Outside}
use soroban_fork.Handlers.Install.{handle_fork_set_storage, handle_fork_set_code, handle_fork_etch}
use soroban_fork.Handlers.Balance.{handle_fork_set_balance}
use soroban_fork.Handlers.Replies.{handle_simulate_transaction, handle_get_transaction}
use soroban_fork.Handlers.Responses.{Encoders}
use soroban_fork.Prelude.{◌≡◌, refl, ◌⊎◌, inl, inr, true, false, bytes_eq_iff, arith}
use soroban_fork.Handlers.{answered, refused}
use soroban_fork.Handlers.Dispatch.{
  JsonRpcRequest, Body, HttpReply, Readers, ledger_range, close_ledgers_params, route,
  handle_get_version_info, with_params, without_params, methods, dispatch, jsonrpc_handler,
}

Answer-cases :
    {B : Type 0} (r : Answer B × Option Worker)
    → ((b : B) × (s : Option Worker) × (r ≡ (answered b, s)))
      ⊎ ((e : JsonRpcError) × (s : Option Worker) × (r ≡ (refused e, s)))
Answer-cases (answered b, s) = inl (b, s, refl)
Answer-cases (refused e, s) = inr (e, s, refl)

-- A body in its kind of response.
abbrev in_body : {B : Type 0} → (B → Body) → Answer B × Option Worker → Answer Body × Option Worker
in_body wrap (answered b, s) = (answered (wrap b), s)
in_body wrap (refused e, s) = (refused e, s)

-- Parameters that are not read are refused, and the worker sees nothing of the request.
abbrev pub read_first : {A B : Type 0} → (B → Body) → Option A → (A → Rpc B) → Rpc Body
read_first wrap none handler s = (refused JsonRpcError.invalid_params, s)
read_first wrap (some a) handler s = in_body wrap (handler a s)

-- What parameters that are left out stand for, or their reading.
abbrev unless_null : {A : Type 0} → A → (Bytes → Option A) → Bytes → Option A
unless_null left_out read params = elim (bytes_eq params (codes "null")) [
  | true ↦ some left_out
  | false ↦ read params
]

-- The names of the methods.
abbrev pub names : List Bytes
names =
    codes "getHealth"
    ∷ codes "getVersionInfo"
    ∷ codes "getNetwork"
    ∷ codes "getLatestLedger"
    ∷ codes "getLedgers"
    ∷ codes "getLedgerEntries"
    ∷ codes "simulateTransaction"
    ∷ codes "sendTransaction"
    ∷ codes "getTransaction"
    ∷ codes "fork_setLedgerEntry"
    ∷ codes "fork_setStorage"
    ∷ codes "fork_setCode"
    ∷ codes "fork_setBalance"
    ∷ codes "fork_etch"
    ∷ codes "fork_closeLedgers"
    ∷ []

route-none :
    {A : Type 0} (method : Bytes) (table : List (Bytes × A))
    → All (λ (entry : Bytes × A). entry.0 ≢ method) table
    → route method table ≡ none
unfolding route
route-none method [] others = refl
route-none method ((name, handler) ∷ rest) (other, others) =
    elim (Bool-cases (bytes_eq name method)) [
      | inl e ↦ absurd (other ((bytes_eq_iff name method).0 e))
      | inr e ↦ rw e (route-none method rest others)
    ]

module _ (w : World) (wire : Wire) (outside : Outside) (encoders : Encoders) (readers : Readers)
    (now : ℕ) where
  -- What the method of a name has to answer, and to do to the worker.
  pub data Serves (params : Bytes) (s : Option Worker)
      : Bytes → Answer Body × Option Worker → Type 0 where
    get_health :
        Serves params s (codes "getHealth") (in_body Body.health (handle_get_health w wire now s))
    get_version_info :
        Serves params s (codes "getVersionInfo") (
          in_body Body.version_info (handle_get_version_info w wire outside encoders readers now s))
    get_network :
        Serves params s
          (codes "getNetwork")
          (in_body Body.network (handle_get_network w wire now s))
    get_latest_ledger :
        Serves params s
          (codes "getLatestLedger")
          (in_body Body.latest_ledger (handle_get_latest_ledger w wire now s))
    get_ledgers : Serves params s (codes "getLedgers") (
        read_first Body.ledgers
          (unless_null tt readers.read_ledger_range params)
          (λ _. handle_get_ledgers w wire now)
          s)
    get_ledger_entries : Serves params s (codes "getLedgerEntries") (
        read_first Body.ledger_entries
          (readers.read_keys params)
          (handle_get_ledger_entries w wire now)
          s)
    simulate_transaction : Serves params s (codes "simulateTransaction") (
        read_first Body.simulated
          (readers.read_transaction params)
          (handle_simulate_transaction w wire encoders now)
          s)
    send_transaction : Serves params s (codes "sendTransaction") (
        read_first Body.sent
          (readers.read_transaction params)
          (handle_send_transaction w wire now)
          s)
    get_transaction : Serves params s (codes "getTransaction") (
        read_first Body.transaction
          (readers.read_hash params)
          (handle_get_transaction w wire encoders now)
          s)
    fork_set_ledger_entry : Serves params s (codes "fork_setLedgerEntry") (
        read_first Body.entry_set
          (readers.read_set_ledger_entry params)
          (λ p. handle_fork_set_ledger_entry w wire now p.key p.entry p.live_until_ledger_seq)
          s)
    fork_set_storage : Serves params s (codes "fork_setStorage") (
        read_first Body.entry_set
          (readers.read_set_storage params)
          (handle_fork_set_storage w wire outside now)
          s)
    fork_set_code : Serves params s (codes "fork_setCode") (
        read_first Body.code_set
          (readers.read_set_code params)
          (handle_fork_set_code w wire outside now)
          s)
    fork_set_balance : Serves params s (codes "fork_setBalance") (
        read_first Body.balance_set
          (readers.read_set_balance params)
          (handle_fork_set_balance w wire outside now)
          s)
    fork_etch : Serves params s (codes "fork_etch") (
        read_first Body.code_set (readers.read_etch params) (handle_fork_etch w wire outside now) s)
    fork_close_ledgers : Serves params s (codes "fork_closeLedgers") (
        read_first Body.ledgers_closed
          (unless_null
            (record { ledgers = none; timestamp_advance_seconds = none })
            readers.read_close_ledgers
            params)
          (λ p. handle_fork_close_ledgers w wire now p.ledgers p.timestamp_advance_seconds)
          s)
    unlisted :
        {method : Bytes}
        → All (λ name. name ≢ method) names
        → Serves params s method (refused JsonRpcError.method_not_found, s)

  wrapped :
      {B : Type 0} (wrap : B → Body) (handler : Rpc B) (s : Option Worker)
      → without_params w wire outside encoders readers now wrap handler s ≡ in_body wrap (handler s)
  unfolding without_params
  wrapped wrap handler s = elim (Answer-cases (handler s)) [
    | inl (b, t, e) ↦ rw e refl
    | inr (x, t, e) ↦ rw e refl
  ]

  read_and_wrapped :
      {A B : Type 0} (wrap : B → Body) (read : Option A) (handler : A → Rpc B) (s : Option Worker)
      → with_params w wire outside encoders readers now wrap read handler s
        ≡ read_first wrap read handler s
  unfolding with_params
  read_and_wrapped wrap none handler s = refl
  read_and_wrapped wrap (some a) handler s = elim (Answer-cases (handler a s)) [
    | inl (b, t, e) ↦ rw e refl
    | inr (x, t, e) ↦ rw e refl
  ]

  ledger_range-unless_null :
      (params : Bytes)
      → ledger_range readers.read_ledger_range params
        ≡ unless_null tt readers.read_ledger_range params
  unfolding ledger_range
  ledger_range-unless_null params = ground arith

  close_ledgers_params-unless_null :
      (params : Bytes)
      → close_ledgers_params readers.read_close_ledgers params
        ≡ unless_null
            (record { ledgers = none; timestamp_advance_seconds = none })
            readers.read_close_ledgers
            params
  unfolding close_ledgers_params
  close_ledgers_params-unless_null params = ground arith

  dispatch-unlisted :
      (params method : Bytes) (s : Option Worker)
      → All (λ name. name ≢ method) names
      → dispatch w wire outside encoders readers now method params s
        ≡ (refused JsonRpcError.method_not_found, s)
  unfolding dispatch methods
  dispatch-unlisted params method s others =
      rw (route-none method (methods w wire outside encoders readers now params) others, dispatch)
        refl

  dispatch-Serves :
      {params method : Bytes} {s : Option Worker} {result : Answer Body × Option Worker}
      → Serves params s method result
      → dispatch w wire outside encoders readers now method params s ≡ result
  unfolding dispatch route methods bytes_eq
  dispatch-Serves get_health = wrapped _ _ _
  dispatch-Serves get_version_info = wrapped _ _ _
  dispatch-Serves get_network = wrapped _ _ _
  dispatch-Serves get_latest_ledger = wrapped _ _ _
  dispatch-Serves {params} get_ledgers =
      rw (← ledger_range-unless_null params) (read_and_wrapped _ _ _ _)
  dispatch-Serves get_ledger_entries = read_and_wrapped _ _ _ _
  dispatch-Serves simulate_transaction = read_and_wrapped _ _ _ _
  dispatch-Serves send_transaction = read_and_wrapped _ _ _ _
  dispatch-Serves get_transaction = read_and_wrapped _ _ _ _
  dispatch-Serves fork_set_ledger_entry = read_and_wrapped _ _ _ _
  dispatch-Serves fork_set_storage = read_and_wrapped _ _ _ _
  dispatch-Serves fork_set_code = read_and_wrapped _ _ _ _
  dispatch-Serves fork_set_balance = read_and_wrapped _ _ _ _
  dispatch-Serves fork_etch = read_and_wrapped _ _ _ _
  dispatch-Serves {params} fork_close_ledgers =
      rw (← close_ledgers_params-unless_null params) (read_and_wrapped _ _ _ _)
  dispatch-Serves (unlisted others) = dispatch-unlisted _ _ _ others

  -- A request of JSON-RPC 2.0 for one of the fifteen methods is answered under its id by that method: its parameters
  -- are read first, and the request is refused without the worker's seeing it when they are not those of the method;
  -- for getLedgers and fork_closeLedgers they may be left out. A request for any other method is answered by an error,
  -- and one of another version is a bad request; neither does anything to the worker.
  pub jsonrpc_handler-Serves :
      (req : JsonRpcRequest) (s : Option Worker) {result : Answer Body × Option Worker}
      → Serves req.params s req.method result
      → ((req.jsonrpc ≡ codes "2.0")
          × (jsonrpc_handler w wire outside encoders readers now req s
              ≡ (HttpReply.json_rpc req.id result.0, result.1)))
        ⊎ ((req.jsonrpc ≢ codes "2.0")
            × (jsonrpc_handler w wire outside encoders readers now req s
                ≡ (HttpReply.bad_request, s)))
  unfolding jsonrpc_handler
  jsonrpc_handler-Serves req s served = elim (Bool-cases (bytes_eq req.jsonrpc (codes "2.0"))) [
    | inl e ↦
        inl ((bytes_eq_iff req.jsonrpc (codes "2.0")).0 e, rw (e, dispatch-Serves served) refl)
    | inr e ↦
        inr (λ same. ground (arith, e, (bytes_eq_iff req.jsonrpc (codes "2.0")).1 same), rw e refl)
  ]
