-- ===== src/Handlers/Extract.antt =====
-- `extract_invoke_op` against a description of the transactions that invoke a host function.
use soroban_fork.Prelude.{◌≡◌, ◌↔◌, refl, subst, Option, none, some, List, [], ◌∷◌, arith}
use soroban_fork.Xdr.{Bytes}
use soroban_fork.Tx.{
  HostFunction, MuxedAccount, OperationBody, Operation, Transaction, TransactionEnvelope,
  FeeBumpTransaction,
}
use soroban_fork.Handlers.Commands.{
  extract_invoke_op, extract_single, extract_op, inner_transaction, account_of,
}

-- The account `key` pays for the operation: it is the operation's own source, or else the transaction's.
pub data Pays (source : MuxedAccount) : Option MuxedAccount → Bytes → Type 0 where
  own_source : (own : MuxedAccount) → Pays source (some own) (account_of own)
  tx_source : Pays source none (account_of source)

-- The transaction has one operation, which invokes `f` for the account `key`.
pub record Calls (t : Transaction) (f : HostFunction) (key : Bytes) : Type 0 where
  pub op : Operation
  pub single : t.operations ≡ op ∷ []
  pub invokes : op.op_body ≡ OperationBody.invoke_host_function f
  pub pays : Pays t.source_account op.source_account key

pub data Invokes (f : HostFunction) (key : Bytes) : TransactionEnvelope → Type 0 where
  plain :
      (t : Transaction) (signatures : List Bytes)
      → Calls t f key
      → Invokes f key (TransactionEnvelope.tx t signatures)
  fee_bumped :
      (fb : FeeBumpTransaction) (signatures : List Bytes)
      → Calls fb.inner_tx f key
      → Invokes f key (TransactionEnvelope.tx_fee_bump fb signatures)

extract_op-Pays :
    (source : MuxedAccount) (own : Option MuxedAccount) (body : OperationBody) {f : HostFunction}
    {key : Bytes}
    → extract_op source (record { source_account = own; op_body = body }) ≡ some (f, key)
    → (body ≡ OperationBody.invoke_host_function f) × Pays source own key
unfolding extract_op
extract_op-Pays source own (OperationBody.other_operation n) h = absurd (ground arith)
extract_op-Pays source (some m) (OperationBody.invoke_host_function f) h =
    (ground arith, subst (Pays source (some m)) (ground arith) (own_source m))
extract_op-Pays source none (OperationBody.invoke_host_function f) h =
    (ground arith, subst (Pays source none) (ground arith) tx_source)

Pays-extract_op :
    (source : MuxedAccount) (own : Option MuxedAccount) (body : OperationBody) {f : HostFunction}
    {key : Bytes}
    → body ≡ OperationBody.invoke_host_function f
    → Pays source own key
    → extract_op source (record { source_account = own; op_body = body }) ≡ some (f, key)
unfolding extract_op
Pays-extract_op source own body e (own_source m) = ground arith
Pays-extract_op source own body e tx_source = ground arith

extract_single-Calls :
    (t : Transaction) (ops : List Operation) {f : HostFunction} {key : Bytes}
    → t.operations ≡ ops
    → extract_single t.source_account ops ≡ some (f, key)
    → Calls t f key
unfolding extract_single
extract_single-Calls t [] e h = absurd (ground arith)
extract_single-Calls t (op ∷ []) e h =
    let (body, pays) = extract_op-Pays t.source_account op.source_account op.op_body h in
    record { op = op; single = e; invokes = body; pays = pays }
extract_single-Calls t (op ∷ _ ∷ _) e h = absurd (ground arith)

Calls-extract_single :
    (t : Transaction) {f : HostFunction} {key : Bytes}
    → Calls t f key
    → extract_single t.source_account t.operations ≡ some (f, key)
unfolding extract_single
Calls-extract_single t c =
    rw c.single (Pays-extract_op t.source_account c.op.source_account c.op.op_body c.invokes c.pays)

Invokes-extract_invoke_op :
    {f : HostFunction} {key : Bytes} {env : TransactionEnvelope}
    → Invokes f key env
    → extract_invoke_op env ≡ some (f, key)
unfolding extract_invoke_op inner_transaction
Invokes-extract_invoke_op (plain t signatures c) = Calls-extract_single t c
Invokes-extract_invoke_op (fee_bumped fb signatures c) = Calls-extract_single fb.inner_tx c

extract_invoke_op-Invokes :
    (env : TransactionEnvelope) {f : HostFunction} {key : Bytes}
    → extract_invoke_op env ≡ some (f, key)
    → Invokes f key env
unfolding extract_invoke_op inner_transaction
extract_invoke_op-Invokes (TransactionEnvelope.tx_v0 n) h = absurd (ground arith)
extract_invoke_op-Invokes (TransactionEnvelope.tx t signatures) h =
    plain t signatures (extract_single-Calls t t.operations refl h)
extract_invoke_op-Invokes (TransactionEnvelope.tx_fee_bump fb signatures) h =
    fee_bumped fb signatures (extract_single-Calls fb.inner_tx fb.inner_tx.operations refl h)

-- An envelope gives a host function and an account exactly when it is a V1 envelope, or a fee bump of one,
-- whose only operation invokes that function, and the account is the operation's own source, or
-- else the transaction's, a muxed account standing for its key.
pub extract_invoke_op_lem :
    (env : TransactionEnvelope) (f : HostFunction) (key : Bytes)
    → (extract_invoke_op env ≡ some (f, key)) ↔ Invokes f key env
extract_invoke_op_lem env f key = (extract_invoke_op-Invokes env, Invokes-extract_invoke_op)
