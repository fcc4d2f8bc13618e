-- ===== src/Env/FeeCell.antt =====
-- `fee_configuration` and the cell that it fills.
use soroban_fork.Prelude.{◌≡◌, some, inl, inr, arith}
use soroban_fork.Prelude.Outcome.{ok, Outcome-cases}
use soroban_fork.Source.{Codec, Client}
use soroban_fork.Fees.{FeeConfiguration, fetch_fee_configuration}
use soroban_fork.Env.{ForkedEnv, fee_configuration}

module _ (codec : Codec) (client : Client) where
  cell_filled :
      (env : ForkedEnv) {cfg : FeeConfiguration}
      → env.fee_cell ≡ some cfg
      → fee_configuration codec client env ≡ ok (some cfg, env)
  unfolding fee_configuration
  cell_filled env e = ground arith

  cell_of_result :
      (env : ForkedEnv) {cfg : FeeConfiguration} {env' : ForkedEnv}
      → fee_configuration codec client env ≡ ok (some cfg, env')
      → env'.fee_cell ≡ some cfg
  unfolding fee_configuration
  cell_of_result env h = elim (Outcome-cases (fetch_fee_configuration codec client env.source)) [
    | inl e ↦ ground arith
    | inr ((c, s), e) ↦ ground arith
  ]

-- Once a schedule was returned, every later call returns it, and leaves the environment as it is: no
-- read reaches the source.
pub fee_configuration-fee_configuration :
    (codec : Codec) (client client' : Client) (env : ForkedEnv) {cfg : FeeConfiguration}
    {env' : ForkedEnv}
    → fee_configuration codec client env ≡ ok (some cfg, env')
    → fee_configuration codec client' env' ≡ ok (some cfg, env')
fee_configuration-fee_configuration codec client client' env {env' = env'} h =
    cell_filled codec client' env' (cell_of_result codec client env h)
