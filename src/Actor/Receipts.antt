-- ===== src/Actor/Receipts.antt =====
-- The worker's store of receipts.
use soroban_fork.Prelude.{
  ℕ, ◌≡◌, ◌≢◌, ◌∙◌, ◌⊎◌, refl, ap, sym, subst, Option, some, List, arith, inl, inr, bytes_eq,
  bytes_eq_iff, Bool-cases, Option-cases,
}
use soroban_fork.Prelude.Outcome.{ok, >>=-eq-ok}
use soroban_fork.Prelude.Assoc.{lookup, insert, lookup-insert, lookup-insert_self}
use soroban_fork.Xdr.{Bytes}
use soroban_fork.Source.{set_entry}
use soroban_fork.Tx.{
  HostFunction, Transaction, FeeBumpTransaction, TransactionEnvelope, TaggedTransaction,
}
use soroban_fork.Actor.{Worker, step, bytes_key_eq}
use soroban_fork.Actor.Submission.{tagged, canonical_tx_hash, tx_hash, send_transaction}
use soroban_fork.Actor.Simulation.{simulate_transaction, resolve_ledger_entries}
use soroban_fork.Actor.Host.{World}
use soroban_fork.Actor.Messages.{Command, Reply, SendReply, TxReceipt}
use soroban_fork.Actor.Send.{send_transaction-eq-ok}

module _ (w : World) where
  -- The hash of an envelope on a network: the digest of the tagged transaction, or of the tagged fee bump, that it
  -- decodes to, and where there is no such payload the digest of its bytes.
  pub data IsHashOf (network envelope : Bytes) : Bytes → Type 0 where
    of_tx :
        (t : Transaction) (signatures : List Bytes) (payload : Bytes)
        → w.decode_envelope envelope ≡ some (TransactionEnvelope.tx t signatures)
        → w.encode_payload network (TaggedTransaction.tagged_tx t) ≡ some payload
        → IsHashOf network envelope (w.sha256 payload)
    of_fee_bump :
        (t : FeeBumpTransaction) (signatures : List Bytes) (payload : Bytes)
        → w.decode_envelope envelope ≡ some (TransactionEnvelope.tx_fee_bump t signatures)
        → w.encode_payload network (TaggedTransaction.tagged_fee_bump t) ≡ some payload
        → IsHashOf network envelope (w.sha256 payload)
    of_bytes :
        ((t : Transaction) (signatures : List Bytes) (payload : Bytes)
          → w.decode_envelope envelope ≡ some (TransactionEnvelope.tx t signatures)
          → ¬ (w.encode_payload network (TaggedTransaction.tagged_tx t) ≡ some payload))
        → ((t : FeeBumpTransaction) (signatures : List Bytes) (payload : Bytes)
            → w.decode_envelope envelope ≡ some (TransactionEnvelope.tx_fee_bump t signatures)
            → ¬ (w.encode_payload network (TaggedTransaction.tagged_fee_bump t) ≡ some payload))
        → IsHashOf network envelope (w.sha256 envelope)

  decoded-IsHashOf :
      (network envelope : Bytes) (d : TransactionEnvelope)
      → w.decode_envelope envelope ≡ some d
      → IsHashOf network envelope (tx_hash w envelope network)
  unfolding tx_hash canonical_tx_hash tagged
  decoded-IsHashOf network envelope (TransactionEnvelope.tx_v0 n) e =
      rw (e, tx_hash)
        (of_bytes (λ t signatures payload f q. cc (e, f)) (λ t signatures payload f q. cc (e, f)))
  decoded-IsHashOf network envelope (TransactionEnvelope.tx t signatures) e =
      elim (Option-cases (w.encode_payload network (TaggedTransaction.tagged_tx t))) [
        | inl missing ↦
            rw (e, tx_hash)
              (rw missing (
                of_bytes (λ t' signatures' payload f q. cc (e, f, missing, q))
                  (λ t' signatures' payload f q. cc (e, f))))
        | inr (payload, found) ↦ rw (e, tx_hash) (rw found (of_tx t signatures payload e found))
      ]
  decoded-IsHashOf network envelope (TransactionEnvelope.tx_fee_bump t signatures) e =
      elim (Option-cases (w.encode_payload network (TaggedTransaction.tagged_fee_bump t))) [
        | inl missing ↦
            rw (e, tx_hash)
              (rw missing (
                of_bytes (λ t' signatures' payload f q. cc (e, f))
                  (λ t' signatures' payload f q. cc (e, f, missing, q))))
        | inr (payload, found) ↦
            rw (e, tx_hash) (rw found (of_fee_bump t signatures payload e found))
      ]

  tx_hash-IsHashOf :
      (network envelope : Bytes) → IsHashOf network envelope (tx_hash w envelope network)
  unfolding tx_hash canonical_tx_hash
  tx_hash-IsHashOf network envelope = elim (Option-cases (w.decode_envelope envelope)) [
    | inr (d, e) ↦ decoded-IsHashOf network envelope d e
    | inl e ↦
        rw (e, tx_hash)
          (of_bytes (λ t signatures payload f q. cc (e, f)) (λ t signatures payload f q. cc (e, f)))
  ]

  -- A send that returned stored its receipt under its hash, and moved the environment as the send does.
  pub step-send_tx :
      (now : ℕ) (s : Worker) (envelope : Bytes) (f : HostFunction) (account : Bytes) {reply : Reply}
      {t : Worker}
      → step w now s (Command.send_tx envelope f account) ≡ ok (reply, t)
      → (sent : SendReply) × (reply ≡ Reply.sent sent)
        × (t.receipts ≡ insert sent.hash sent.receipt s.receipts)
        × (send_transaction w now s.env envelope f account ≡ ok (sent, t.env))
  unfolding step
  step-send_tx now s envelope f account {reply} {t} h =
      let ((sent, env), did, out) =
        >>=-eq-ok (send_transaction w now s.env envelope f account)
          (λ p. ok (
            Reply.sent p.0,
            record { env = p.1; receipts = insert p.0.hash p.0.receipt s.receipts },
          ))
          h in
      (sent, ground arith, ground arith, did ∙ ap (λ e. ok (sent, e)) (ground arith))

  -- The other commands leave the store as it is.
  pub step-same_receipts :
      (now : ℕ) (s : Worker) (c : Command) {reply : Reply} {t : Worker}
      → step w now s c ≡ ok (reply, t)
      → ((envelope : Bytes) × (f : HostFunction) × (account : Bytes) × (c
            ≡ Command.send_tx envelope f account))
        ⊎ (t.receipts ≡ s.receipts)
  unfolding step
  step-same_receipts now s Command.get_network h = inr (ground arith)
  step-same_receipts now s Command.get_latest_ledger h = inr (ground arith)
  step-same_receipts now s Command.get_ledgers_page h = inr (ground arith)
  step-same_receipts now s (Command.get_ledger_entries ks) h =
      let (p, did, out) = >>=-eq-ok (resolve_ledger_entries w ks s.env.source) _ h in
      inr (ground arith)
  step-same_receipts now s (Command.simulate_tx f account size) h =
      let (p, did, out) = >>=-eq-ok (simulate_transaction w s.env f account size) _ h in
      inr (ground arith)
  step-same_receipts now s (Command.send_tx envelope f account) h = inl (envelope, f, account, refl)
  step-same_receipts now s (Command.set_ledger_entry k e l) h =
      let (p, did, out) = >>=-eq-ok (set_entry w.codec s.env.source k e l) _ h in inr (ground arith)
  step-same_receipts now s (Command.close_ledgers n secs) h = inr (ground arith)
  step-same_receipts now s (Command.get_transaction hash) h = inr (ground arith)

  get_transaction-found :
      (now : ℕ) (s : Worker) (hash : Bytes) (o : Option TxReceipt)
      → lookup hash s.receipts ≡ o
      → step w now s (Command.get_transaction hash) ≡ ok (Reply.transaction o, s)
  unfolding step
  get_transaction-found now s hash o e = rw e

  -- After a send, `getTransaction` with the hash of its reply returns its receipt, whatever the time. The
  -- hash is the digest of the tagged transaction or fee bump that the envelope decodes to, on this network, and the
  -- digest of the envelope's bytes where there is none. A receipt of another hash is as it was.
  pub get_transaction-send_tx :
      (now later : ℕ) (s : Worker) (envelope : Bytes) (f : HostFunction) (account : Bytes)
      {sent : SendReply} {t : Worker}
      → step w now s (Command.send_tx envelope f account) ≡ ok (Reply.sent sent, t)
      → (step w later t (Command.get_transaction sent.hash)
          ≡ ok (Reply.transaction (some sent.receipt), t))
        × IsHashOf s.env.network_id envelope sent.hash
        × ((hash : Bytes) → sent.hash ≢ hash → lookup hash t.receipts ≡ lookup hash s.receipts)
  get_transaction-send_tx now later s envelope f account {sent} {t} h =
      let (sent', replied, stored, did) = step-send_tx now s envelope f account h in
      let same : sent' ≡ sent = cc in
      let kept : t.receipts ≡ insert sent.hash sent.receipt s.receipts =
        stored ∙ ap (λ (r : SendReply). insert r.hash r.receipt s.receipts) same in
      let (_, _, _, _, _, _, hashed, _) =
        send_transaction-eq-ok w now s.env envelope f account did in
      (
        get_transaction-found later t sent.hash (some sent.receipt)
            (ap (lookup sent.hash) kept ∙ lookup-insert_self sent.hash sent.receipt s.receipts),
        subst (IsHashOf s.env.network_id envelope)
            (sym (ap (λ (r : SendReply). r.hash) (sym same) ∙ hashed))
            (tx_hash-IsHashOf s.env.network_id envelope),
        λ hash ne. ap (lookup hash) kept ∙ other_hash hash sent.hash sent.receipt s.receipts ne,
      )
    where
      other_hash :
          (hash k : Bytes) (r : TxReceipt) (m : List (Bytes × TxReceipt))
          → k ≢ hash
          → lookup hash (insert k r m) ≡ lookup hash m
      other_hash hash k r m ne = ground (arith, lookup-insert k hash r m, bytes_eq_iff k hash)

  -- A receipt, once stored, is found by its hash after every command, unless that command is a send of the
  -- same hash.
  pub step-keeps_receipt :
      (now : ℕ) (s : Worker) (c : Command) (hash : Bytes) (r : TxReceipt) {reply : Reply}
      {t : Worker}
      → step w now s c ≡ ok (reply, t)
      → lookup hash s.receipts ≡ some r
      → (lookup hash t.receipts ≡ some r)
        ⊎ ((sent : SendReply) × (reply ≡ Reply.sent sent) × (sent.hash ≡ hash))
  step-keeps_receipt now s c hash r {reply} {t} h found = elim (step-same_receipts now s c h) [
    | inr same ↦ inl (ap (lookup hash) same ∙ found)
    | inl (envelope, f, account, e) ↦
        let (sent, replied, stored, _) =
          step-send_tx now s envelope f account (subst (λ d. step w now s d ≡ ok (reply, t)) e h) in
        elim (Bool-cases (bytes_eq sent.hash hash)) [
          | inl same ↦ inr (sent, replied, (bytes_eq_iff sent.hash hash).0 same)
          | inr other ↦ inl (
              ap (lookup hash) stored
              ∙ ground (arith, lookup-insert sent.hash hash sent.receipt s.receipts))
        ]
  ]
