-- ===== src/Actor/Clock.antt =====
-- What the commands do to the reported ledger.
use soroban_fork.Prelude.{
  ℕ, ◌≡◌, ◌≤◌, ◌⊎◌, refl, ap, subst, List, [], ◌∷◌, arith, inl, inr, All, Bool-cases, bytes_eq,
}
use soroban_fork.Prelude.Outcome.{ok, >>=-eq-ok}
use soroban_fork.Prelude.Assoc.{insert}
use soroban_fork.Xdr.{Bytes}
use soroban_fork.Source.{set_entry}
use soroban_fork.Env.{ForkedEnv, warp, ledger_sequence, ledger_close_time}
use soroban_fork.Env.Clock.{IsClock, warp_bounds}
use soroban_fork.Tx.{HostFunction}
use soroban_fork.Actor.{Worker, step, bytes_key_eq}
use soroban_fork.Actor.Submission.{send_transaction}
use soroban_fork.Actor.Simulation.{simulate_transaction, resolve_ledger_entries}
use soroban_fork.Actor.Host.{World}
use soroban_fork.Actor.Messages.{Command, Reply, SendReply, TxReceipt}
use soroban_fork.Actor.Resolve.{simulate_transaction-Keeps}
use soroban_fork.Actor.Send.{send_transaction-eq-ok}
use soroban_fork.Actor.Receipts.{step-send_tx, step-same_receipts}

module _ (w : World) where
  send-same_info :
      (now : ℕ) (env : ForkedEnv) (envelope : Bytes) (f : HostFunction) (account : Bytes)
      {reply : SendReply} {env' : ForkedEnv}
      → send_transaction w now env envelope f account ≡ ok (reply, env')
      → env'.info ≡ env.info
  send-same_info now env envelope f account h =
      let (_, _, _, _, _, stored, _, _) = send_transaction-eq-ok w now env envelope f account h in
      ap (λ (e : ForkedEnv). e.info) stored

  -- Only `closeLedgers` moves the clock of the fork, and it moves it as `warp` does; its reply is the new
  -- clock. A send does not.
  pub step-info :
      (now : ℕ) (s : Worker) (c : Command) {reply : Reply} {t : Worker}
      → step w now s c ≡ ok (reply, t)
      → (t.env.info ≡ s.env.info)
        ⊎ ((ledgers seconds : ℕ) × (c ≡ Command.close_ledgers ledgers seconds)
            × (t.env ≡ warp s.env ledgers seconds)
            × (reply
                ≡ Reply.ledgers_closed (record {
                  new_sequence = t.env.info.sequence_number;
                  new_close_time = t.env.info.timestamp;
                })))
  unfolding step ledger_sequence ledger_close_time
  step-info now s Command.get_network h = inl (ground arith)
  step-info now s Command.get_latest_ledger h = inl (ground arith)
  step-info now s Command.get_ledgers_page h = inl (ground arith)
  step-info now s (Command.get_ledger_entries ks) h =
      let (p, did, out) = >>=-eq-ok (resolve_ledger_entries w ks s.env.source) _ h in
      inl (ground arith)
  step-info now s (Command.simulate_tx f account size) h =
      let ((reply, env), did, out) = >>=-eq-ok (simulate_transaction w s.env f account size) _ h in
      let (kept, _) = simulate_transaction-Keeps w s.env f account size did in
      inl (ground (arith, kept.info_kept))
  step-info now s (Command.send_tx envelope f account) h =
      let (sent, _, _, did) = step-send_tx w now s envelope f account h in
      inl (send-same_info now s.env envelope f account did)
  step-info now s (Command.set_ledger_entry k e l) h =
      let (p, did, out) = >>=-eq-ok (set_entry w.codec s.env.source k e l) _ h in inl (ground arith)
  step-info now s (Command.close_ledgers n secs) h = inr (n, secs, refl, ground arith, ground arith)
  step-info now s (Command.get_transaction hash) h = inl (ground arith)

  -- The clock is in its machine words, and no receipt is of a ledger to come.
  pub record IsSound (s : Worker) : Type 0 where
    pub clock : IsClock s.env.info
    pub past : All (λ (p : Bytes × TxReceipt). p.1.ledger ≤ s.env.info.sequence_number) s.receipts

  insert-past :
      (n : ℕ) (k : Bytes) (r : TxReceipt) (m : List (Bytes × TxReceipt))
      → r.ledger ≤ n
      → All (λ (p : Bytes × TxReceipt). p.1.ledger ≤ n) m
      → All (λ (p : Bytes × TxReceipt). p.1.ledger ≤ n) (insert k r m)
  unfolding insert
  insert-past n k r [] le h = (le, tt)
  insert-past n k r ((j, q) ∷ m) le h = elim (Bool-cases (bytes_eq j k)) [
    | inl same ↦ rw same (le, h.1)
    | inr other ↦ rw other (h.0, insert-past n k r m le h.1)
  ]

  later-past :
      (a b : ℕ) (m : List (Bytes × TxReceipt))
      → a ≤ b
      → All (λ (p : Bytes × TxReceipt). p.1.ledger ≤ a) m
      → All (λ (p : Bytes × TxReceipt). p.1.ledger ≤ b) m
  later-past a b [] le h = tt
  later-past a b (p ∷ m) le h = (omega (arith, h.0), later-past a b m le h.1)

  step-IsClock :
      (now : ℕ) (s : Worker) (c : Command) {reply : Reply} {t : Worker}
      → step w now s c ≡ ok (reply, t)
      → IsClock s.env.info
      → IsClock t.env.info × (s.env.info.sequence_number ≤ t.env.info.sequence_number)
  step-IsClock now s c {reply} {t} h clock = elim (step-info now s c h) [
    | inl same ↦ rw same (clock, omega arith)
    | inr (n, secs, _, moved, _) ↦
        let bounds = warp_bounds s.env n secs clock in rw moved (bounds.0, bounds.1)
  ]

  step-past :
      (now : ℕ) (s : Worker) (c : Command) {reply : Reply} {t : Worker}
      → step w now s c ≡ ok (reply, t)
      → IsSound s
      → All (λ (p : Bytes × TxReceipt). p.1.ledger ≤ t.env.info.sequence_number) t.receipts
  step-past now s c {reply} {t} h sound =
      let (_, later) = step-IsClock now s c h sound.clock in
      elim (step-same_receipts w now s c h) [
        | inr same ↦ rw same (later-past _ _ s.receipts later sound.past)
        | inl (envelope, f, account, e) ↦
            let (sent, _, stored, did) =
              step-send_tx w now s envelope f account
                (subst (λ d. step w now s d ≡ ok (reply, t)) e h) in
            let (_, _, _, _, _, _, _, made) =
              send_transaction-eq-ok w now s.env envelope f account did in
            rw stored (
              insert-past _ sent.hash sent.receipt s.receipts (omega (arith, made, later))
                (later-past _ _ s.receipts later sound.past))
      ]

  -- Every command keeps the clock in its machine words and no receipt of a ledger to come, and never
  -- moves the reported ledger back.
  pub step-IsSound :
      (now : ℕ) (s : Worker) (c : Command) {reply : Reply} {t : Worker}
      → step w now s c ≡ ok (reply, t)
      → IsSound s
      → IsSound t × (s.env.info.sequence_number ≤ t.env.info.sequence_number)
  step-IsSound now s c h sound =
      let (clock, later) = step-IsClock now s c h sound.clock in
      (record { clock = clock; past = step-past now s c h sound }, later)
