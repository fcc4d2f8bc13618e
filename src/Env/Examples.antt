-- ===== src/Env/Examples.antt =====
-- The theorems on the environment at a fork of ledger 60 000 000.
use soroban_fork.Prelude.{◌≡◌, ◌*◌, ◌+◌, ◌^◌, refl, none, some, [], ◌∷◌, arith, min}
use soroban_fork.Prelude.Outcome.{ok}
use soroban_fork.Prelude.Word.{u64_max}
use soroban_fork.Source.{FetchMode}
use soroban_fork.Source.Sample.{sample_codec, sample_client}
use soroban_fork.Fees.{default_fees}
use soroban_fork.Env.{ForkedEnv, warp_time, fee_configuration}
use soroban_fork.Env.Clock.{IsClock, warp_time_wraps}
use soroban_fork.Trace.{from_events}
use soroban_fork.Env.Debug.{LastInvocation, trace, diagnostic_events, auth_tree, auth_payloads}
use soroban_fork.Auth.{from_payloads}

abbrev fork : ForkedEnv
fork = record {
  info = record {
    protocol_version = 25;
    sequence_number = 60000000;
    timestamp = 1750000000;
    network_id = 7 ∷ [];
  };
  source = record { cache = []; fetches = 0; fetch_mode = FetchMode.strict };
  fork_sequence = 60000000;
  fork_timestamp = 1749996400;
  network_id = 7 ∷ [];
  protocol_version = 25;
  passphrase = none;
  fee_cell = some default_fees;
}

fork-IsClock : IsClock fork.info
fork-IsClock = record { sequence_fits = omega arith; timestamp_fits = omega arith }

-- A little over 680 years.
warp_time_wraps_example :
    ((warp_time fork (1 * (5 * 2 ^ 32) + 600)).info.sequence_number
      ≡ (warp_time fork 600).info.sequence_number)
    × ((warp_time fork (1 * (5 * 2 ^ 32) + 600)).info.timestamp
        ≡ min (fork.info.timestamp + (1 * (5 * 2 ^ 32) + 600)) u64_max)
warp_time_wraps_example = warp_time_wraps fork 1 600

cell : fee_configuration sample_codec sample_client fork ≡ ok (some default_fees, fork)
unfolding fee_configuration
cell = refl

-- A host that cannot be read has an empty trace and an empty authorization tree.
abbrev unreadable : LastInvocation
unreadable = record { get_diagnostic_events = none; get_recorded_auth_payloads = none }

nothing_traced : trace unreadable ≡ from_events []
unfolding trace diagnostic_events
nothing_traced = refl

nothing_authorized : auth_tree unreadable ≡ from_payloads []
unfolding auth_tree auth_payloads
nothing_authorized = refl
