-- ===== src/Actor/Resolve.antt =====
-- `getLedgerEntries`, `simulateTransaction` and the runs of the host: reads of the source through `get`.
use soroban_fork.Prelude.{
  ℕ, ◌≡◌, ◌∙◌, refl, ap, sym, subst, Option, none, some, List, [], ◌∷◌, arith, inl, inr,
  Option-cases,
}
use soroban_fork.Prelude.Outcome.{ok, >>=-eq-ok, >>=->>=-eq-ok, Outcome-cases}
use soroban_fork.Prelude.Assoc.{lookup, beq_refl}
use soroban_fork.Prelude.Int.{ℤ}
use soroban_fork.Xdr.{Bytes}
use soroban_fork.Ledger.{LedgerKey, ledger_key_eq}
use soroban_fork.Source.{Source, Codec, Client, IsCodec, EntryWithLiveUntil, get}
use soroban_fork.Source.View.{unknown, known, view, settled, Extends, Extends-refl, Extends-trans}
use soroban_fork.Source.Reads.{get-Extends}
use soroban_fork.Source.Refines.{get-GetSpec}
use soroban_fork.Fees.{FeeConfiguration, fetch_fee_configuration}
use soroban_fork.Fees.Schedule.{fetch_fee_configuration-Extends}
use soroban_fork.Env.{ForkedEnv, fee_configuration, ledger_sequence}
use soroban_fork.Tx.{HostFunction}
use soroban_fork.Actor.Simulation.{
  resolve_ledger_entries, with_key, compute_min_resource_fee, simulation_reply,
  simulate_transaction, fee_of,
}
use soroban_fork.Actor.Host.{
  World, HostRun, finished, reads, HostOutput, run_host, SorobanResources, Result-cases,
}
use soroban_fork.Actor.Messages.{ResolvedEntry, SimulationReply}

module _ (codec : Codec) (client : Client) where
  -- However the host reads, the source keeps all that it knew.
  pub run_host-Extends :
      (h : HostRun) (s : Source) {out : HostOutput} {t : Source}
      → run_host codec client h s ≡ ok (out, t)
      → Extends s t
  unfolding run_host
  run_host-Extends (finished o) s {t = t} e =
      let same : t ≡ s = ground arith in rw same (Extends-refl s)
  run_host-Extends (reads k go) s e =
      let ((r, u), first, rest) =
        >>=-eq-ok (get codec client s k) (λ p. run_host codec client (go p.0) p.1) e in
      Extends-trans (get-Extends codec client s k first) (run_host-Extends (go r) u rest)

  settled-known : (r : Option EntryWithLiveUntil) → settled r ≡ unknown → ⊥
  settled-known none h = cc
  settled-known (some (e, l)) h = cc

  view-Extends :
      {s t : Source} (k : LedgerKey) (r : Option EntryWithLiveUntil)
      → Extends s t
      → view codec s k ≡ settled r
      → view codec t k ≡ settled r
  view-Extends {s} k r ext h = elim (Option-cases (lookup k s.cache)) [
    | inl e ↦ absurd (settled-known r (unfold known in ground arith))
    | inr (c, e) ↦ ap (known codec) (ext.kept k c e) ∙ ap (known codec) (sym e) ∙ h
  ]

  view-get :
      (s : Source) (k : LedgerKey) (r : Option EntryWithLiveUntil) (t : Source)
      → IsCodec codec
      → get codec client s k ≡ ok (r, t)
      → view codec t k ≡ settled r
  view-get s k r t laws h = (get-GetSpec codec client s k laws h).learned k ∙ rw (beq_refl k)

module _ (w : World) where
  -- The answer for a key: its entry with its live-until ledger under the key, or its absence.
  abbrev pub answer_for : LedgerKey → Option EntryWithLiveUntil → ResolvedEntry
  answer_for k none = none
  answer_for k (some (entry, live_until)) = some (k, entry, live_until)

  with_key-answer_for :
      (k : LedgerKey) (r : Option EntryWithLiveUntil) → with_key k r ≡ answer_for k r
  unfolding with_key
  with_key-answer_for k none = refl
  with_key-answer_for k (some (entry, live_until)) = refl

  -- The answers are for the keys, in their order, and each is what the source `t` knows of its key.
  abbrev pub AnsweredBy : Source → List LedgerKey → List ResolvedEntry → Type 0
  AnsweredBy t [] [] = Unit
  AnsweredBy t (k ∷ ks) (a ∷ rs) =
      ((r : Option EntryWithLiveUntil) × (a ≡ answer_for k r) × (view w.codec t k ≡ settled r))
      × AnsweredBy t ks rs
  AnsweredBy t _ _ = ⊥

  -- A batch of keys is answered in order, one answer to a key, and every answer is what the source knows
  -- of the key once the whole batch is resolved: the entry with its live-until ledger, or its absence. The
  -- source keeps all that it knew before.
  pub resolve_ledger_entries_lem :
      (ks : List LedgerKey) (s : Source) {rs : List ResolvedEntry} {t : Source}
      → IsCodec w.codec
      → resolve_ledger_entries w ks s ≡ ok (rs, t)
      → AnsweredBy t ks rs × Extends s t
  unfolding resolve_ledger_entries
  resolve_ledger_entries_lem [] s {rs} {t} laws h =
      let none_left : rs ≡ [] = ground arith in
      let same : t ≡ s = ground arith in rw (none_left, same) (tt, Extends-refl s)
  resolve_ledger_entries_lem (k ∷ ks) s {rs} {t} laws h =
      let ((r, u), (qs, v), first, rest, out) =
        >>=->>=-eq-ok (get w.codec w.client s k) (λ p. resolve_ledger_entries w ks p.1)
          (λ p q. (with_key k p.0 ∷ q.0, q.1)) h in
      let (answers, more) = resolve_ledger_entries_lem ks u laws rest in
      let now = view-get w.codec w.client s k r u laws first in
      subst (λ p. AnsweredBy p.1 (k ∷ ks) p.0 × Extends s p.1) (sym out)
        (
          ((r, with_key-answer_for k r, view-Extends w.codec w.client k r more now), answers),
          Extends-trans (get-Extends w.codec w.client s k first) more,
        )

  -- Everything but the source and the fee cell of an environment, and what its source knew, is kept.
  pub record Keeps (a b : ForkedEnv) : Type 0 where
    pub info_kept : b.info ≡ a.info
    pub network_kept : b.network_id ≡ a.network_id
    pub fork_kept : b.fork_sequence ≡ a.fork_sequence
    pub source_extends : Extends a.source b.source

  pub with_source-Keeps :
      (env : ForkedEnv) (t : Source) → Extends env.source t → Keeps env (record env { source = t })
  with_source-Keeps env t h = record {
    info_kept = refl;
    network_kept = refl;
    fork_kept = refl;
    source_extends = h;
  }

  pub Keeps-refl : (env : ForkedEnv) → Keeps env env
  Keeps-refl env = with_source-Keeps env env.source (Extends-refl env.source)

  Keeps-trans : {a b c : ForkedEnv} → Keeps a b → Keeps b c → Keeps a c
  Keeps-trans p q = record {
    info_kept = q.info_kept ∙ p.info_kept;
    network_kept = q.network_kept ∙ p.network_kept;
    fork_kept = q.fork_kept ∙ p.fork_kept;
    source_extends = Extends-trans p.source_extends q.source_extends;
  }

  fee_configuration-Keeps :
      (env : ForkedEnv) {cfg : Option FeeConfiguration} {env' : ForkedEnv}
      → fee_configuration w.codec w.client env ≡ ok (cfg, env')
      → Keeps env env'
  unfolding fee_configuration
  fee_configuration-Keeps env {cfg} {env'} h = elim (Option-cases env.fee_cell) [
    | inr (c, e) ↦ let same : env' ≡ env = ground arith in rw same (Keeps-refl env)
    | inl e ↦ elim (Outcome-cases (fetch_fee_configuration w.codec w.client env.source)) [
      | inl dead ↦ absurd (ground arith)
      | inr ((c, s), fetched) ↦
          let same : env' ≡ record env { source = s; fee_cell = c } = ground arith in
          subst (Keeps env) (sym same) (record {
            info_kept = refl;
            network_kept = refl;
            fork_kept = refl;
            source_extends = fetch_fee_configuration-Extends w.codec w.client env.source fetched;
          })
    ]
  ]

  compute-Keeps :
      (env : ForkedEnv) (r : SorobanResources) (events : List ℕ) (size : ℕ) {fee : Option ℤ}
      {env' : ForkedEnv}
      → compute_min_resource_fee w env r events size ≡ ok (fee, env')
      → Keeps env env'
  unfolding compute_min_resource_fee
  compute-Keeps env r events size {env' = env'} h =
      let ((cfg, e), fetched, out) =
        >>=-eq-ok (fee_configuration w.codec w.client env)
          (λ p. ok (fee_of w r events size p.0, p.1)) h in
      let same : env' ≡ e = ground arith in
      subst (Keeps env) (sym same) (fee_configuration-Keeps env fetched)

  reply-Keeps :
      (env : ForkedEnv) (out : HostOutput) (size : ℕ) {reply : SimulationReply} {env' : ForkedEnv}
      → simulation_reply w env out size ≡ ok (reply, env')
      → Keeps env env' × (reply.latest_ledger ≡ env.info.sequence_number)
  unfolding simulation_reply ledger_sequence
  reply-Keeps env out size {reply} {env'} h = elim (Result-cases out.recorded) [
    | inl (rec, e) ↦
        elim (Outcome-cases
          (compute_min_resource_fee w env rec.resources rec.contract_events size)) [
            | inl dead ↦ absurd (ground arith)
            | inr ((fee, c), computed) ↦
                let same : env' ≡ c = ground arith in
                (subst (Keeps env) (sym same) (compute-Keeps env _ _ size computed), ground arith)
          ]
    | inr (m, e) ↦
        let same : env' ≡ env = ground arith in
        (subst (Keeps env) (sym same) (Keeps-refl env), ground arith)
  ]

  -- A simulation leaves the clock, the network and the fork point as they were, and keeps all that the
  -- source knew. Its reply names the current ledger.
  pub simulate_transaction-Keeps :
      (env : ForkedEnv) (f : HostFunction) (account : Bytes) (size : ℕ) {reply : SimulationReply}
      {env' : ForkedEnv}
      → simulate_transaction w env f account size ≡ ok (reply, env')
      → Keeps env env' × (reply.latest_ledger ≡ env.info.sequence_number)
  unfolding simulate_transaction
  simulate_transaction-Keeps env f account size h =
      let ((out, s), ran, replied) =
        >>=-eq-ok (run_host w.codec w.client (w.host f account env.info) env.source)
          (λ p. simulation_reply w (record env { source = p.1 }) p.0 size) h in
      let reads_only =
        run_host-Extends w.codec w.client (w.host f account env.info) env.source ran in
      let (kept, ledger) = reply-Keeps (record env { source = s }) out size replied in
      (Keeps-trans (with_source-Keeps env s reads_only) kept, ledger)
