-- ===== src/Env/Clock.antt =====
-- The clock of the fork: advancing it, and the bounds on what it reports.
use soroban_fork.Prelude.{
  ℕ, ◌+◌, ◌*◌, ◌/◌, ◌%◌, ◌^◌, ◌≤◌, ◌<◌, min, ◌≡◌, ap, refl, ◌↔◌, Option, none, some, arith,
}
use soroban_fork.Prelude.Word.{u32_max, u64_max}
use soroban_fork.Env.{
  LedgerInfo, ForkedEnv, warp, warp_time, warp_ledger, cap_protocol_version, build_timestamp,
}

-- The clock fits its machine words.
pub record IsClock (i : LedgerInfo) : Type 0 where
  pub sequence_fits : i.sequence_number ≤ u32_max
  pub timestamp_fits : i.timestamp ≤ u64_max

abbrev at_clock : ForkedEnv → ℕ → ℕ → ForkedEnv
at_clock env sequence time = record env {
  info = record env.info { sequence_number = sequence; timestamp = time };
}

at_clock-ext : (env : ForkedEnv) {a b s t : ℕ} → a ≡ b → s ≡ t → at_clock env a s ≡ at_clock env b t
at_clock-ext env p q = λ i. at_clock env (p i) (q i)

-- Two advances are one advance by the sums: saturating twice is saturating once.
pub warp-warp : (env : ForkedEnv) (a b s t : ℕ) → warp (warp env a s) b t ≡ warp env (a + b) (s + t)
unfolding warp
warp-warp env a b s t = at_clock-ext env (omega arith) (omega arith)

-- An advance never moves the clock back nor out of its machine words, and keeps the fork point, the
-- cache and the network of the environment.
pub warp_bounds :
    (env : ForkedEnv) (ledgers seconds : ℕ)
    → IsClock env.info
    → IsClock (warp env ledgers seconds).info
      × (env.info.sequence_number ≤ (warp env ledgers seconds).info.sequence_number)
      × (env.info.timestamp ≤ (warp env ledgers seconds).info.timestamp)
      × ((warp env ledgers seconds).fork_sequence ≡ env.fork_sequence)
      × ((warp env ledgers seconds).fork_timestamp ≡ env.fork_timestamp)
      × ((warp env ledgers seconds).source ≡ env.source)
      × ((warp env ledgers seconds).info.network_id ≡ env.info.network_id)
unfolding warp
warp_bounds env ledgers seconds h = (
  record { sequence_fits = omega arith; timestamp_fits = omega arith },
  omega arith,
  omega arith,
  refl,
  refl,
  refl,
  refl,
)

-- Advancing by a number of ledgers is advancing by the time that they take.
pub warp_time-warp_ledger :
    (env : ForkedEnv) (ledgers : ℕ)
    → ledgers < 2 ^ 32
    → warp_time env (ledgers * 5) ≡ warp_ledger env ledgers
unfolding warp_time warp_ledger
warp_time-warp_ledger env ledgers h =
    ap (λ (n : ℕ). warp env n (ledgers * 5))
      (let e : ledgers * 5 / 5 % 2 ^ 32 ≡ ledgers = omega arith in e)

-- From 5 * 2 ^ 32 seconds on the ledgers no longer keep step with the time: whole multiples of that
-- span move the time and not the sequence.
pub warp_time_wraps :
    (env : ForkedEnv) (k seconds : ℕ)
    → ((warp_time env (k * (5 * 2 ^ 32) + seconds)).info.sequence_number
        ≡ (warp_time env seconds).info.sequence_number)
      × ((warp_time env (k * (5 * 2 ^ 32) + seconds)).info.timestamp
          ≡ min (env.info.timestamp + (k * (5 * 2 ^ 32) + seconds)) u64_max)
unfolding warp_time
warp_time_wraps env k seconds = (omega arith, refl)

-- The reported protocol is the greatest version that neither the ledger, nor the host, nor a request
-- forbids.
pub cap_protocol_version_lem :
    (latest : ℕ) (requested : Option ℕ) (host_max n : ℕ)
    → (n ≤ cap_protocol_version latest requested host_max)
      ↔ ((n ≤ latest) × (n ≤ host_max) × ((m : ℕ) → requested ≡ some m → n ≤ m))
unfolding cap_protocol_version
cap_protocol_version_lem latest none host_max n =
    (λ h. (omega arith, omega arith, λ m e. cc), λ h. omega arith)
cap_protocol_version_lem latest (some r) host_max n =
    (λ h. (omega arith, omega arith, λ m e. ground arith), λ h. omega (arith, h.2 r refl))

-- The default clock is ahead of the close time of the fork point by an hour, unless that leaves the
-- machine word; a pinned timestamp is taken as it is.
pub build_timestamp_lem :
    (pinned : Option ℕ) (close_time : ℕ)
    → close_time + 3600 ≤ u64_max
    → (pinned ≡ none → build_timestamp pinned close_time ≡ close_time + 3600)
      × ((t : ℕ) → pinned ≡ some t → build_timestamp pinned close_time ≡ t)
unfolding build_timestamp
build_timestamp_lem none c h = (λ _. omega arith, λ t e. cc)
build_timestamp_lem (some p) c h = (λ e. cc, λ t e. ground arith)
