-- ===== src/Retry/Backoff.antt =====
-- What the delays of src/retry.rs guarantee.
use nfs.Prelude.{ℕ, suc, ◌*◌, ◌^◌, ◌≤◌, ◌<◌, ◌≡◌, ◌↔◌, some, arith, min, ap}
use native.Mathlib.Nat.{pow-le-pow_right, pow-succ'}
use nfs.Retry.{RetryPolicy, delay_for_retry, saturating_mul, duration_max}

-- A delay is granted for the retries below max_retries, and for no others.
pub delay_for_retry-granted :
    (p : RetryPolicy) (retry : ℕ)
    → ((d : ℕ) × (delay_for_retry p retry ≡ some d)) ↔ (retry < p.max_retries)
unfolding delay_for_retry
delay_for_retry-granted p retry = (
  λ h. ground (arith, h.1),
  λ h. (min (saturating_mul p.initial_delay (2 ^ min retry 31)) p.max_delay, ground arith),
)

-- No delay passes max_delay.
pub delay_for_retry-le-max_delay :
    (p : RetryPolicy) (retry d : ℕ) → delay_for_retry p retry ≡ some d → d ≤ p.max_delay
unfolding delay_for_retry
delay_for_retry-le-max_delay p retry d e = ground arith

pow_mono : (a b : ℕ) → a ≤ b → 2 ^ a ≤ 2 ^ b
pow_mono a b h = pow-le-pow_right (omega arith) h

mul_mono : (d n m : ℕ) → n ≤ m → d * n ≤ d * m
mul_mono d n m h = grind arith

saturating_mul_mono : (d n m : ℕ) → n ≤ m → saturating_mul d n ≤ saturating_mul d m
unfolding saturating_mul
saturating_mul_mono d n m h = ground (arith, mul_mono d n m h)

-- Later retries never wait for less.
pub delay_for_retry_mono :
    (p : RetryPolicy) (r s d e : ℕ)
    → r ≤ s
    → delay_for_retry p r ≡ some d
    → delay_for_retry p s ≡ some e
    → d ≤ e
delay_for_retry_mono p r s d e h hd he =
    let m : saturating_mul p.initial_delay (2 ^ min r 31)
        ≤ saturating_mul p.initial_delay (2 ^ min s 31) =
      (saturating_mul_mono _ _ _ (pow_mono _ _ (omega arith))) in
    unfold delay_for_retry in ground (arith, m)

doubled : (r : ℕ) → r < 31 → 2 ^ min (suc r) 31 ≡ 2 * 2 ^ min r 31
doubled r h =
    let a : min (suc r) 31 ≡ suc r = omega arith in
    let b : min r 31 ≡ r = omega arith in rw (a, b) (pow-succ' 2 r)

saturating_mul-double :
    (d n cap : ℕ)
    → cap ≤ duration_max
    → min (saturating_mul d (2 * n)) cap ≡ min (2 * min (saturating_mul d n) cap) cap
unfolding saturating_mul
saturating_mul-double d n cap h = ground arith

-- Of two granted delays in a row, the second is twice the first, capped by max_delay, as long as the
-- retry is before the 31st; max_delay has to be a `Duration`.
pub delay_for_retry-doubles :
    (p : RetryPolicy) (r d e : ℕ)
    → p.max_delay ≤ duration_max
    → r < 31
    → delay_for_retry p r ≡ some d
    → delay_for_retry p (suc r) ≡ some e
    → e ≡ min (2 * d) p.max_delay
delay_for_retry-doubles p r d e hm h hd he =
    let q : min (saturating_mul p.initial_delay (2 ^ min (suc r) 31)) p.max_delay
        ≡ min (2 * min (saturating_mul p.initial_delay (2 ^ min r 31)) p.max_delay) p.max_delay =
      (rw (doubled r h) (saturating_mul-double p.initial_delay (2 ^ min r 31) p.max_delay hm)) in
    unfold delay_for_retry in ground (arith, q)

-- From retry 31 on the delay no longer grows, whether or not it has reached max_delay.
pub delay_for_retry-constant :
    (p : RetryPolicy) (r s d e : ℕ)
    → 31 ≤ r
    → 31 ≤ s
    → delay_for_retry p r ≡ some d
    → delay_for_retry p s ≡ some e
    → d ≡ e
delay_for_retry-constant p r s d e hr hs hd he =
    let q : min r 31 ≡ min s 31 = omega arith in
    unfold delay_for_retry in
    ground (arith, ap (λ (n : ℕ). saturating_mul p.initial_delay (2 ^ n)) q)
