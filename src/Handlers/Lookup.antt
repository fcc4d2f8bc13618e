-- ===== src/Handlers/Lookup.antt =====
-- The hash that `sendTransaction` returns, as a key of the worker's receipts.
use soroban_fork.Prelude.{
  ℕ, ◌≡◌, ◌∙◌, ◌<◌, ap, sym, subst, Option, some, arith, inl, inr, length, All, Option-cases,
}
use soroban_fork.Prelude.Outcome.{ok, Outcome-cases}
use soroban_fork.Prelude.Assoc.{lookup, insert, lookup-insert_self}
use soroban_fork.Xdr.{Bytes}
use soroban_fork.Tx.{HostFunction}
use soroban_fork.Env.{ForkedEnv, ledger_sequence}
use soroban_fork.Hex.{hex_lower, parse_hex32}
use soroban_fork.Hex.RoundTrip.{parse_hex32-hex_lower}
use soroban_fork.Actor.{Worker, step, bytes_key_eq, get_latest_ledger_reply}
use soroban_fork.Actor.Submission.{tx_hash, canonical_tx_hash, tagged}
use soroban_fork.Actor.Host.{World}
use soroban_fork.Actor.Messages.{Command, Reply, SendReply, TxReceipt, LatestLedgerReply}
use soroban_fork.Actor.Receipts.{step-send_tx}
use soroban_fork.Actor.Send.{send_transaction-eq-ok}
use soroban_fork.Handlers.{
  Rpc, Answer, answered, Wire, and_then, ◌>>=◌, send, as_sent, as_latest_ledger, as_ledgers_page,
  respond,
}
use soroban_fork.Handlers.Commands.{
  send_response, extract_invoke_op, handle_send_transaction, SendTransactionResponse,
}

-- SHA-256 gives 32 bytes.
abbrev pub IsDigest : (Bytes → Bytes) → Type 0
IsDigest sha256 = (b : Bytes) → (length (sha256 b) ≡ 32) × All (λ x. x < 256) (sha256 b)

answered-inj :
    {A : Type 0} {a b : A} {v t : Worker}
    → ◌≡◌ {A = Answer A × Option Worker} (answered a, some v) (answered b, some t)
    → (b ≡ a) × (t ≡ v)
answered-inj h = (ground arith, ground arith)

module _ (w : World) (wire : Wire) (now : ℕ) where
  -- The worker has run the command, its reply fits the channel, and the rest has run after it.
  send-eq-answered :
      {A B : Type 0} (channel : Reply → Option A) (c : Command) (next : A → Rpc B) (u : Worker)
      {b : B} {t : Option Worker}
      → and_then next (send w wire now channel c (some u)) ≡ (answered b, t)
      → (v : Worker) × (reply : Reply) × (a : A) × (step w now u c ≡ ok (reply, v))
        × (channel reply ≡ some a)
        × (next a (some v) ≡ (answered b, t))
  unfolding send
  send-eq-answered channel c next u h = elim (Outcome-cases (step w now u c)) [
    | inl e ↦ absurd (ground arith)
    | inr ((reply, v), e) ↦ elim (Option-cases (channel reply)) [
      | inl n ↦ absurd (ground arith)
      | inr (a, m) ↦ (v, reply, a, e, m, ground arith)
    ]
  ]

  digest_of :
      {h p : Bytes} → IsDigest w.sha256 → h ≡ w.sha256 p → (length h ≡ 32) × All (λ x. x < 256) h
  digest_of {p = p} digest e =
      subst (λ h. (length h ≡ 32) × All (λ x. x < 256) h) (sym e) (digest p)

  canonical_tx_hash-eq-some :
      (envelope network : Bytes) {h : Bytes}
      → canonical_tx_hash w envelope network ≡ some h
      → (payload : Bytes) × (h ≡ w.sha256 payload)
  unfolding canonical_tx_hash
  canonical_tx_hash-eq-some envelope network e = elim (Option-cases (w.decode_envelope envelope)) [
    | inl n ↦ absurd (ground arith)
    | inr (decoded, d) ↦ elim (Option-cases (tagged w decoded)) [
      | inl n ↦ absurd (ground arith)
      | inr (t, g) ↦ elim (Option-cases (w.encode_payload network t)) [
        | inl n ↦ absurd (ground arith)
        | inr (payload, q) ↦ (payload, ground arith)
      ]
    ]
  ]

  tx_hash-sha256 :
      (envelope network : Bytes) → (p : Bytes) × (tx_hash w envelope network ≡ w.sha256 p)
  unfolding tx_hash
  tx_hash-sha256 envelope network = elim (Option-cases (canonical_tx_hash w envelope network)) [
    | inl e ↦ (envelope, ground arith)
    | inr (h, e) ↦ let (p, same) = canonical_tx_hash-eq-some envelope network e in (p, ground arith)
  ]

  same_worker :
      (u v : Worker) {reply : Reply}
      → step w now u Command.get_latest_ledger ≡ ok (reply, v)
      → (v ≡ u)
        × ((l : LatestLedgerReply)
            → as_latest_ledger reply ≡ some l
            → l.sequence ≡ u.env.info.sequence_number)
  unfolding step get_latest_ledger_reply ledger_sequence as_latest_ledger
  same_worker u v h = (ground arith, λ l e. ground arith)

  same_worker_page :
      (u v : Worker) {reply : Reply} → step w now u Command.get_ledgers_page ≡ ok (reply, v) → v ≡ u
  unfolding step
  same_worker_page u v h = ground arith

  sent_of : (r : Reply) {a b : SendReply} → as_sent r ≡ some a → r ≡ Reply.sent b → b ≡ a
  unfolding as_sent
  sent_of r h e = ground arith

  page_then : Bytes → SendReply → LatestLedgerReply → Rpc SendTransactionResponse
  page_then text sent latest = do
    page ← send w wire now as_ledgers_page Command.get_ledgers_page
    respond (send_response w wire now text sent latest.sequence page.close_time)

  latest_then : Bytes → SendReply → Rpc SendTransactionResponse
  unfolding page_then
  latest_then text sent = do
    latest ← send w wire now as_latest_ledger Command.get_latest_ledger
    page_then text sent latest

  sent_then : Bytes → Bytes → HostFunction → Bytes → Rpc SendTransactionResponse
  unfolding latest_then
  sent_then text bytes f account = do
    sent ← send w wire now as_sent (Command.send_tx bytes f account)
    latest_then text sent

  handled :
      (text : Bytes) (s : Worker) {r : SendTransactionResponse} {t : Worker}
      → handle_send_transaction w wire now text (some s) ≡ (answered r, some t)
      → (bytes : Bytes) × (f : HostFunction) × (account : Bytes) × (sent_then text bytes f account
            (some s)
          ≡ (answered r, some t))
  unfolding handle_send_transaction sent_then latest_then page_then
  handled text s h = elim (Option-cases (wire.b64_decode text)) [
    | inl n ↦ absurd (ground arith)
    | inr (bytes, d) ↦ elim (Option-cases (w.decode_envelope bytes)) [
      | inl n ↦ absurd (ground arith)
      | inr (envelope, g) ↦ elim (Option-cases (extract_invoke_op envelope)) [
        | inl n ↦ absurd (ground arith)
        | inr ((f, account), x) ↦ (bytes, f, account, ground arith)
      ]
    ]
  ]

  sent_lem :
      (text bytes : Bytes) (f : HostFunction) (account : Bytes) (s : Worker)
      {r : SendTransactionResponse} {t : Worker}
      → sent_then text bytes f account (some s) ≡ (answered r, some t)
      → (sent : SendReply) × (t.receipts ≡ insert sent.hash sent.receipt s.receipts)
        × (sent.hash ≡ tx_hash w bytes s.env.network_id)
        × (r.hash ≡ hex_lower sent.hash)
        × (r.applied_changes ≡ sent.receipt.applied_changes)
        × (r.latest_ledger ≡ sent.receipt.ledger)
  unfolding sent_then latest_then page_then send_response
  sent_lem text bytes f account s {r} {t} h =
      let (u, reply, sent, did, fits, h1) =
        send-eq-answered as_sent (Command.send_tx bytes f account) (latest_then text) s h in
      let (u1, reply1, latest, did1, fits1, h2) =
        send-eq-answered as_latest_ledger Command.get_latest_ledger (page_then text sent) u h1 in
      let (u2, reply2, page, did2, fits2, h3) =
        send-eq-answered as_ledgers_page Command.get_ledgers_page
          (λ page. respond (send_response w wire now text sent latest.sequence page.close_time)) u1
          h2 in
      let (made, replied, stored, ran) = step-send_tx w now s bytes f account did in
      let same : made ≡ sent = sent_of reply fits replied in
      let (_, _, _, _, _, moved, hashed, ledger) =
        send_transaction-eq-ok w now s.env bytes f account ran in
      let (answer, end) = answered-inj h3 in
      let at_sequence = (same_worker u u1 did1).1 latest fits1 in
      let worker : t ≡ u = end ∙ same_worker_page u1 u2 did2 ∙ (same_worker u u1 did1).0 in
      (
        sent,
        ap (λ (v : Worker). v.receipts) worker
            ∙ stored
            ∙ ap (λ (m : SendReply). insert m.hash m.receipt s.receipts) same,
        ap (λ (m : SendReply). m.hash) (sym same) ∙ hashed,
        ap (λ (x : SendTransactionResponse). x.hash) answer,
        ap (λ (x : SendTransactionResponse). x.applied_changes) answer,
        ap (λ (x : SendTransactionResponse). x.latest_ledger) answer
            ∙ at_sequence
            ∙ ap (λ (e : ForkedEnv). e.info.sequence_number) moved
            ∙ sym ledger
            ∙ ap (λ (m : SendReply). m.receipt.ledger) same,
      )

  -- When SHA-256 gives 32 bytes, the hash in the response to a `sendTransaction` parses to the key of a
  -- receipt in the worker's store. The response has that receipt's count of changes, and the
  -- latest ledger that it reports is the one at which the receipt was made.
  pub handle_send_transaction-receipt :
      (text : Bytes) (s : Worker) {r : SendTransactionResponse} {t : Worker}
      → IsDigest w.sha256
      → handle_send_transaction w wire now text (some s) ≡ (answered r, some t)
      → (hash : Bytes) × (receipt : TxReceipt) × (parse_hex32 r.hash ≡ some hash)
        × (lookup hash t.receipts ≡ some receipt)
        × (r.applied_changes ≡ receipt.applied_changes)
        × (r.latest_ledger ≡ receipt.ledger)
  handle_send_transaction-receipt text s digest h =
      let (bytes, f, account, ran) = handled text s h in
      let (sent, stored, hashed, spelled, applied, latest) = sent_lem text bytes f account s ran in
      let (p, digested) = tx_hash-sha256 bytes s.env.network_id in
      let (size, fits) = digest_of digest (hashed ∙ digested) in
      (
        sent.hash,
        sent.receipt,
        ap parse_hex32 spelled ∙ parse_hex32-hex_lower sent.hash fits size,
        ap (lookup sent.hash) stored ∙ lookup-insert_self sent.hash sent.receipt s.receipts,
        applied,
        latest,
      )
