-- ===== src/Actor/Loop.antt =====
-- The worker's loop over its queue of commands.
use soroban_fork.Prelude.{ℕ, ◌≡◌, ◌≤◌, some, List, [], ◌∷◌, arith, inl, inr}
use soroban_fork.Prelude.Outcome.{Outcome-cases}
use soroban_fork.Actor.{Worker, step, worker_loop}
use soroban_fork.Actor.Host.{World}
use soroban_fork.Actor.Messages.{Command}
use soroban_fork.Actor.Clock.{IsSound, step-IsSound}

module _ (w : World) where
  -- Whatever the queue, a worker that starts with its clock in its machine words and no receipt of a ledger
  -- to come still has both when it has served it, and reports a ledger no earlier than at the start.
  pub worker_loop-IsSound :
      (cs : List (ℕ × Command)) (s : Worker) {t : Worker}
      → (worker_loop w s cs).1 ≡ some t
      → IsSound w s
      → IsSound w t × (s.env.info.sequence_number ≤ t.env.info.sequence_number)
  unfolding worker_loop
  worker_loop-IsSound [] s {t} h sound =
      let same : t ≡ s = ground arith in rw same (sound, omega arith)
  worker_loop-IsSound ((now, c) ∷ cs) s {t} h sound = elim (Outcome-cases (step w now s c)) [
    | inl e ↦ absurd (ground arith)
    | inr ((reply, u), e) ↦
        let (still, later) = step-IsSound w now s c e sound in
        let (end, latest) = worker_loop-IsSound cs u {t = t} (ground arith) still in
        (end, omega (arith, later, latest))
  ]
