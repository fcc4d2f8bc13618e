-- ===== src/Actor/Send.antt =====
-- `sendTransaction`: what a failure and what a success leave in the source.
use soroban_fork.Prelude.{
  ℕ, ◌≡◌, ◌≢◌, ◌∙◌, refl, ap, sym, subst, min, none, some, arith, inl, inr, Option-cases,
}
use soroban_fork.Prelude.Outcome.{ok, >>=->>=-eq-ok, Outcome-cases}
use soroban_fork.Prelude.Assoc.{lookup}
use soroban_fork.Prelude.Word.{u32_max}
use soroban_fork.Xdr.{Bytes, ScVal}
use soroban_fork.Ledger.{LedgerKey, ledger_key_eq}
use soroban_fork.Source.{Source, Codec, bump_account_seq, bump_cached, apply_changes}
use soroban_fork.Source.Invariant.{bump_cached-eq-some}
use soroban_fork.Source.Writes.{writes, last_write, or_before, apply_changes_lem, other_key}
use soroban_fork.Env.{ForkedEnv, ledger_sequence}
use soroban_fork.Tx.{HostFunction}
use soroban_fork.Actor.Submission.{commit, send_transaction, tx_hash}
use soroban_fork.Actor.Simulation.{host_error}
use soroban_fork.Actor.Host.{
  World, HostOutput, Recording, Result, success, error, Result-cases, run_host,
}
use soroban_fork.Actor.Messages.{SendReply}
use soroban_fork.Actor.Resolve.{Keeps, with_source-Keeps, run_host-Extends}

module _ (codec : Codec) where
  bump-other_key :
      (s : Source) (account : Bytes) (j : LedgerKey)
      → LedgerKey.account account ≢ j
      → lookup j (bump_account_seq codec s account).0.cache ≡ lookup j s.cache
  unfolding bump_account_seq
  bump-other_key s id j ne = elim (Option-cases (lookup (LedgerKey.account id) s.cache)) [
    | inl e ↦ rw (e, bump_account_seq)
    | inr (none, e) ↦ rw (e, bump_account_seq)
    | inr (some c, e) ↦ elim (Option-cases (bump_cached codec s (LedgerKey.account id) c)) [
      | inl q ↦ rw (e, bump_account_seq) (rw (q, bump_account_seq))
      | inr ((t, n), q) ↦
          let (b, stored) = bump_cached-eq-some codec s (LedgerKey.account id) c q in
          rw (e, bump_account_seq)
            (rw (q, bump_account_seq) (rw stored (other_key codec s (LedgerKey.account id) j _ ne)))
    ]
  ]

module _ (w : World) where
  commit-error :
      (account : Bytes) (recorded : Result Recording) (s : Source) {m : Bytes} {n : ℕ} {t : Source}
      → commit w account recorded s ≡ ok ((error m, n), t)
      → (n ≡ 0) × (t ≡ s)
  unfolding commit host_error
  commit-error account (error e) s h = (ground arith, ground arith)
  commit-error account (success rec) s h = elim (Result-cases rec.invoke_result) [
    | inr (m, e) ↦ (ground arith, ground arith)
    | inl (v, e) ↦ elim (Outcome-cases (apply_changes w.codec s rec.ledger_changes)) [
      | inl dead ↦ absurd (ground arith)
      | inr ((t, n), applied) ↦ absurd (ground arith)
    ]
  ]

  commit-success :
      (account : Bytes) (recorded : Result Recording) (s : Source) {v : ScVal} {n : ℕ} {t : Source}
      → commit w account recorded s ≡ ok ((success v, n), t)
      → (rec : Recording) × (u : Source) × (recorded ≡ success rec)
        × (rec.invoke_result ≡ success v)
        × (apply_changes w.codec s rec.ledger_changes ≡ ok (u, n))
        × (t ≡ (bump_account_seq w.codec u account).0)
  unfolding commit host_error
  commit-success account (error e) s h = absurd (ground arith)
  commit-success account (success rec) s h = elim (Result-cases rec.invoke_result) [
    | inr (m, e) ↦ absurd (ground arith)
    | inl (v, e) ↦ elim (Outcome-cases (apply_changes w.codec s rec.ledger_changes)) [
      | inl dead ↦ absurd (ground arith)
      | inr ((u, n), applied) ↦ (rec, u, refl, ground arith, ground arith, ground arith)
    ]
  ]

  module _ (now : ℕ) (env : ForkedEnv) (envelope : Bytes) (f : HostFunction) (account : Bytes) where
    -- What a send that returned did: the host ran, and its outcome was committed.
    pub send_transaction-eq-ok :
        {reply : SendReply} {env' : ForkedEnv}
        → send_transaction w now env envelope f account ≡ ok (reply, env')
        → (out : HostOutput) × (s : Source) × (t : Source) × (run_host w.codec w.client
              (w.host f account env.info)
              env.source
            ≡ ok (out, s))
          × (commit w account out.recorded s
              ≡ ok ((reply.receipt.tx_result, reply.receipt.applied_changes), t))
          × (env' ≡ record env { source = t })
          × (reply.hash ≡ tx_hash w envelope env.network_id)
          × (reply.receipt.ledger ≡ env.info.sequence_number)
    unfolding send_transaction ledger_sequence
    send_transaction-eq-ok {reply} {env'} h =
        let ((out, s), ((result, n), t), ran, committed, made) =
          >>=->>=-eq-ok (run_host w.codec w.client (w.host f account env.info) env.source)
            (λ p. commit w account p.0.recorded p.1)
            (λ p q. (
              record {
                hash = tx_hash w envelope env.network_id;
                receipt = record {
                  tx_result = q.0.0;
                  envelope_bytes = envelope;
                  ledger = ledger_sequence env;
                  created_at = now;
                  applied_changes = q.0.1;
                };
              },
              record env { source = q.1 },
            ))
            h in
        (
          out,
          s,
          t,
          ran,
          committed
              ∙ ap (λ p. ok ((p.0.receipt.tx_result, p.0.receipt.applied_changes), t)) (sym made),
          ap (λ p. p.1) made,
          ap (λ p. p.0.hash) made,
          ap (λ p. p.0.receipt.ledger) made,
        )

    -- A send whose receipt is an error has written nothing: no change is counted, the clock and the network
    -- are as they were, and the source keeps all that it knew, the account's sequence number included.
    pub send_transaction-error :
        {reply : SendReply} {env' : ForkedEnv} {m : Bytes}
        → send_transaction w now env envelope f account ≡ ok (reply, env')
        → reply.receipt.tx_result ≡ error m
        → (reply.receipt.applied_changes ≡ 0) × Keeps w env env'
    send_transaction-error {reply} {env'} h failed =
        let (out, s, t, ran, committed, stored, _, _) = send_transaction-eq-ok h in
        let (none_applied, same) =
          commit-error account out.recorded s
            (committed ∙ ap (λ r. ok ((r, reply.receipt.applied_changes), t)) failed) in
        (
          none_applied,
          subst (Keeps w env) (sym (stored ∙ ap (λ u. record env { source = u }) same))
              (with_source-Keeps w env s (run_host-Extends w.codec w.client _ env.source ran)),
        )

    -- A send whose receipt is a success ran the host to that value. At every key but the account's, the
    -- source holds what the last of the host's changes wrote there, and what it held after the host's reads
    -- where no change wrote. The receipt counts the writing changes and is made at the current ledger.
    pub send_transaction-success :
        {reply : SendReply} {env' : ForkedEnv} {v : ScVal}
        → send_transaction w now env envelope f account ≡ ok (reply, env')
        → reply.receipt.tx_result ≡ success v
        → (out : HostOutput) × (s : Source) × (rec : Recording) × (run_host w.codec w.client
              (w.host f account env.info)
              env.source
            ≡ ok (out, s))
          × (out.recorded ≡ success rec)
          × (rec.invoke_result ≡ success v)
          × (reply.receipt.applied_changes ≡ min (writes w.codec rec.ledger_changes) u32_max)
          × (reply.receipt.ledger ≡ env.info.sequence_number)
          × ((j : LedgerKey)
              → LedgerKey.account account ≢ j
              → lookup j env'.source.cache
                ≡ or_before w.codec (last_write w.codec j rec.ledger_changes) (lookup j s.cache))
    send_transaction-success {reply} {env'} h succeeded =
        let (out, s, t, ran, committed, stored, _, ledger) = send_transaction-eq-ok h in
        let (rec, u, recorded, invoked, applied, bumped) =
          commit-success account out.recorded s
            (committed ∙ ap (λ r. ok ((r, reply.receipt.applied_changes), t)) succeeded) in
        let (wrote, counted, _) = apply_changes_lem w.codec s rec.ledger_changes applied in
        (
          out,
          s,
          rec,
          ran,
          recorded,
          invoked,
          counted,
          ledger,
          λ j ne.
              ap (λ e. lookup j e.source.cache) stored
              ∙ ap (λ x. lookup j x.cache) bumped
              ∙ bump-other_key w.codec u account j ne
              ∙ wrote j,
        )
