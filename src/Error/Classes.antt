-- ===== src/Error/Classes.antt =====
-- How the classifiers of src/error.rs exclude and imply one another.
use nfs.Prelude.{◌≡◌, refl, ap₂, true, false, ◌||◌, arith}
use nfs.Error.{
  Error, cleanup, outcome_unknown, nfs_v4, is_outcome_unknown, is_retryable, is_transport_failure,
  requires_session_recovery, is_session_recoverable, is_lost_state,
}

-- An error with an unknown outcome is never reported as retryable, however deep it lies under failed
-- cleanups.
pub outcome_unknown-not_retryable :
    (e : Error) → is_outcome_unknown e ≡ true → is_retryable e ≡ false
unfolding is_outcome_unknown is_retryable
outcome_unknown-not_retryable (cleanup context primary failed) h =
    outcome_unknown-not_retryable primary h
outcome_unknown-not_retryable (outcome_unknown e) h = refl
outcome_unknown-not_retryable _ h = cc

-- The two session predicates agree on every error.
pub requires_session_recovery-eq-is_session_recoverable :
    (e : Error) → requires_session_recovery e ≡ is_session_recoverable e
unfolding requires_session_recovery is_session_recoverable
requires_session_recovery-eq-is_session_recoverable (cleanup context primary failed) =
    ap₂ ◌||◌ (requires_session_recovery-eq-is_session_recoverable primary)
      (requires_session_recovery-eq-is_session_recoverable failed)
requires_session_recovery-eq-is_session_recoverable _ = refl

-- A transport failure is never taken for a lost session or for a lost lock.
pub transport_failure_shape :
    (e : Error)
    → is_transport_failure e ≡ true
    → (is_session_recoverable e ≡ false) × (is_lost_state e ≡ false)
unfolding is_transport_failure is_session_recoverable is_lost_state
transport_failure_shape (cleanup context primary failed) h = cc
transport_failure_shape (nfs_v4 operation status) h = cc
transport_failure_shape _ h = ground arith
