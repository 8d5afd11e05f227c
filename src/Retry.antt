-- ===== src/Retry.antt =====
-- src/retry.rs: the capped exponential backoff. A `Duration` is its nanoseconds.
pub mod Backoff
pub mod Runs
use nfs.Prelude.{ℕ, ◌+◌, ◌-◌, ◌*◌, ◌^◌, Option, none, some, ltb, leb, if◌then◌else◌, min}

-- `Duration::MAX`: u64::MAX seconds and 999,999,999 nanoseconds.
abbrev pub duration_max : ℕ
duration_max = (2 ^ 64 - 1) * 1_000_000_000 + 999_999_999

pub record RetryPolicy : Type 0 where
  pub max_retries : ℕ
  pub initial_delay : ℕ
  pub max_delay : ℕ

abbrev pub new : ℕ → ℕ → ℕ → RetryPolicy
new max_retries initial_delay max_delay = record {
  max_retries = max_retries;
  initial_delay = initial_delay;
  max_delay = max_delay;
}

abbrev pub disabled : RetryPolicy
disabled = record { max_retries = 0; initial_delay = 0; max_delay = 0 }

abbrev pub default : RetryPolicy
default = record { max_retries = 3; initial_delay = 50_000_000; max_delay = 1_000_000_000 }

-- `saturating_mul` of a duration by a `u32`.
unfoldable pub saturating_mul : ℕ → ℕ → ℕ
saturating_mul d n = if leb (d * n) duration_max then d * n else duration_max

-- The shift is at most 31, so `checked_shl` succeeds and gives the power.
unfoldable pub delay_for_retry : RetryPolicy → ℕ → Option ℕ
unfolding saturating_mul
delay_for_retry p retry =
    if leb p.max_retries retry
    then none
    else some (min (saturating_mul p.initial_delay (2 ^ min retry 31)) p.max_delay)
