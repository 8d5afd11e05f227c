-- ===== src/Retry/Runs.antt =====
-- Runs of the backoff with the default policy.
use nfs.Prelude.{◌*◌, ◌≡◌, refl, some, arith, min}
use nfs.Retry.{default, delay_for_retry, saturating_mul}
use nfs.Retry.Backoff.{delay_for_retry-doubles}

first_delay : delay_for_retry default 0 ≡ some 50_000_000
unfolding delay_for_retry saturating_mul
first_delay = refl

second_delay : delay_for_retry default 1 ≡ some 100_000_000
unfolding delay_for_retry saturating_mul
second_delay = refl

delay_for_retry-doubles_example : 100_000_000 ≡ min (2 * 50_000_000) 1_000_000_000
delay_for_retry-doubles_example =
    delay_for_retry-doubles default 0 50_000_000 100_000_000 (omega arith) (omega arith) first_delay
      second_delay
