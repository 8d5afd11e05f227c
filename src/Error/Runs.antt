-- ===== src/Error/Runs.antt =====
-- Runs of the classifiers.
use nfs.Prelude.{◌≡◌, refl, true, false}
use nfs.Error.{
  Error, IoErrorKind, cleanup, outcome_unknown, io, is_outcome_unknown, is_retryable,
  is_transport_failure, is_retryable_io_error, is_session_recoverable, is_lost_state,
}
use nfs.Error.Classes.{outcome_unknown-not_retryable, transport_failure_shape}

abbrev reset : Error
reset = io IoErrorKind.connection_reset

reset-unknown : is_outcome_unknown (cleanup "CLOSE" (outcome_unknown reset) reset) ≡ true
unfolding is_outcome_unknown
reset-unknown = refl

outcome_unknown-not_retryable_example :
    is_retryable (cleanup "CLOSE" (outcome_unknown reset) reset) ≡ false
outcome_unknown-not_retryable_example =
    outcome_unknown-not_retryable (cleanup "CLOSE" (outcome_unknown reset) reset) reset-unknown

reset-transport : is_transport_failure (outcome_unknown reset) ≡ true
unfolding is_transport_failure is_retryable_io_error
reset-transport = refl

transport_failure_shape_example :
    (is_session_recoverable (outcome_unknown reset) ≡ false)
    × (is_lost_state (outcome_unknown reset) ≡ false)
transport_failure_shape_example = transport_failure_shape (outcome_unknown reset) reset-transport
