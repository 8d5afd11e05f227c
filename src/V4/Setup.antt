-- ===== src/V4/Setup.antt =====
-- src/v4/blocking.rs: the making of a session: `raw_compound_with_rpc`, the loops that wait out delays, and
-- `connect_session`; with the validators of src/v4/mod.rs that it calls.
--
-- The network is a parameter: the opening of a connection, and one call on it with its encoding and
-- decoding. It has a state of any type N. `log` lists the COMPOUNDs sent; the source keeps no such
-- list. A sleep takes no step.
pub mod Options
pub mod Connect
pub mod Retries
pub mod Bounded
use nfs.Prelude.{
  ℕ, zero, suc, ◌+◌, ◌%◌, ◌^◌, Bool, true, false, ◌&&◌, Option, none, some, List, [], ◌∷◌, ◌++◌,
  max, String, map, length,
}
use nfs.Prelude.Outcome
use nfs.Prelude.Outcome.{Result, ok, err}
use nfs.Prelude.Exec.{Exec, pure, raise, lift, attempt, ◌>>=◌, ◌>>◌}
use nfs.Error.{Error}
use nfs.Retry
use nfs.Retry.{RetryPolicy}
use nfs.V4.Args.{Bytes}
use nfs.V4.Operation
use nfs.V4.Operation.{Operation}
use nfs.V4.Response.{CompoundResponse, ensure_ok}
use nfs.V4.Setup.Options.{ClientBuilder}
use nfs.V4.Policy.{
  sequence_succeeded, response_allows_delayed_retry, response_allows_delayed_retry_without_sequence,
  validate_session_compound_operation_count,
}
use nfs.V4.Extract.{cleanup_error}
use nfs.V4.Shape.{validate_compound_response_shape}

-- C names a connection.
pub record Network {ℓ} (C N : Type ℓ) : Type ℓ where
  -- with the timeout and the record limit that are set on it
  pub connect : ClientBuilder → N → Result Error C × N
  -- tag, minor_version, operations
  pub exchange : C → Bytes → ℕ → List Operation → N → Result Error CompoundResponse × N

pub record Wire {ℓ} (N : Type ℓ) : Type ℓ where
  pub log : List (List Operation)
  pub net : N

abbrev pub is_granted : Option ℕ → Bool
is_granted none = false
is_granted (some delay) = true

-- `wrapping_add(1).max(1)`
abbrev pub advance : ℕ → ℕ
advance n = max ((n + 1) % 2 ^ 32) 1

-- The end of a round: another one, or the response.
abbrev pub again_or {ℓ} :
    {S : Type ℓ}
    → Bool
    → Exec S Error CompoundResponse
    → CompoundResponse
    → Exec S Error CompoundResponse
again_or true again response = again
again_or false again response = pure response

-- The loop that waits out delays, with `round` for its body. `left` bounds the retries: where the
-- policy grants no more than that, the loop does what the source does.
unfoldable pub retrying {ℓ} :
    {S : Type ℓ}
    → (CompoundResponse → Bool)
    → Exec S Error CompoundResponse
    → RetryPolicy
    → ℕ
    → ℕ
    → Exec S Error CompoundResponse
retrying allows round policy zero retry = round
retrying allows round policy (suc left) retry = do
  response ← round
  again_or (allows response && is_granted (Retry.delay_for_retry policy retry))
      (retrying allows round policy left (suc retry)) response

abbrev pub exchange_id_tag : Bytes
exchange_id_tag = 101 ∷ 120 ∷ 99 ∷ 104 ∷ 97 ∷ 110 ∷ 103 ∷ 101 ∷ 45 ∷ 105 ∷ 100 ∷ []

abbrev pub create_session_tag : Bytes
create_session_tag =
    99 ∷ 114 ∷ 101 ∷ 97 ∷ 116 ∷ 101 ∷ 45 ∷ 115 ∷ 101 ∷ 115 ∷ 115 ∷ 105 ∷ 111 ∷ 110 ∷ []

abbrev pub reclaim_complete_tag : Bytes
reclaim_complete_tag =
    114 ∷ 101 ∷ 99 ∷ 108 ∷ 97 ∷ 105 ∷ 109 ∷ 45 ∷ 99 ∷ 111 ∷ 109 ∷ 112 ∷ 108 ∷ 101 ∷ 116 ∷ 101 ∷ []

abbrev pub destroy_session_tag : Bytes
destroy_session_tag =
    100 ∷ 101 ∷ 115 ∷ 116 ∷ 114 ∷ 111 ∷ 121 ∷ 45 ∷ 115 ∷ 101 ∷ 115 ∷ 115 ∷ 105 ∷ 111 ∷ 110 ∷ []

abbrev pub sequence_args : Bytes → ℕ → Operation
sequence_args session_id sequence_id = Operation.sequence (record {
  session_id = session_id;
  sequence_id = sequence_id;
  slot_id = 0;
  highest_slot_id = 0;
  cache_this = false;
})

module _ {ℓ} {C N : Type ℓ} (network : Network C N) where
  abbrev pub Acting {κ} : Type κ → Type (ℓ ⊔ κ)
  Acting A = Exec (Wire N) Error A

  -- `validate_compound_response_shape`, on what was decoded
  abbrev pub shaped : Bytes → List Operation → CompoundResponse → Result Error CompoundResponse
  shaped tag operations response =
      Outcome.◌>>◌
        (validate_compound_response_shape tag (map Operation.op_code operations) response)
        (ok response)

  unfoldable pub raw_compound_with_rpc : C → Bytes → ℕ → List Operation → Acting CompoundResponse
  raw_compound_with_rpc rpc tag minor_version operations w =
      let answer = network.exchange rpc tag minor_version operations w.net in
      (
        Outcome.◌>>=◌ answer.0 (shaped tag operations),
        record { log = w.log ++ (operations ∷ []); net = answer.1 },
      )

  unfoldable pub raw_compound_with_delayed_retry :
      C → Bytes → ℕ → List Operation → RetryPolicy → Acting CompoundResponse
  unfolding retrying raw_compound_with_rpc
  raw_compound_with_delayed_retry rpc tag minor_version operations policy =
      retrying (response_allows_delayed_retry_without_sequence operations)
        (raw_compound_with_rpc rpc tag minor_version operations) policy policy.max_retries 0

  -- A round within a session: the sequence id moves on when SEQUENCE succeeded.
  abbrev pub sequence_after : Result Error CompoundResponse → ℕ → ℕ
  sequence_after (err e) sequence_id = sequence_id
  sequence_after (ok response) sequence_id = elim (sequence_succeeded response) [
    | true ↦ advance sequence_id
    | false ↦ sequence_id
  ]

  unfoldable pub sequenced_round :
      C → Bytes → ℕ → Bytes → List Operation → Exec (ℕ × Wire N) Error CompoundResponse
  unfolding raw_compound_with_rpc
  sequenced_round rpc tag minor_version session_id operations s =
      let done =
        raw_compound_with_rpc rpc tag minor_version (sequence_args session_id s.0 ∷ operations)
          s.1 in
      (done.0, (sequence_after done.0 s.0, done.1))

  -- `validate_session_compound_operation_count` and the loop, on the sequence id and the network
  unfoldable pub sequenced_compound :
      C
      → Bytes
      → ℕ
      → Bytes
      → ℕ
      → RetryPolicy
      → List Operation
      → Exec (ℕ × Wire N) Error CompoundResponse
  unfolding retrying sequenced_round
  sequenced_compound rpc tag minor_version session_id max_operations policy operations = do
    lift (validate_session_compound_operation_count (length operations) max_operations)
    retrying (response_allows_delayed_retry operations)
        (sequenced_round rpc tag minor_version session_id operations) policy policy.max_retries 0

  unfoldable pub reclaim_complete_with_delayed_retry :
      C → ℕ → Bytes → ℕ → RetryPolicy → Exec (ℕ × Wire N) Error CompoundResponse
  unfolding sequenced_compound
  reclaim_complete_with_delayed_retry rpc minor_version session_id max_operations policy =
      sequenced_compound rpc reclaim_complete_tag minor_version session_id max_operations policy
        (Operation.reclaim_complete false ∷ [])

  unfoldable pub destroy_session_with_rpc : C → ℕ → Bytes → Acting (Unit {0})
  unfolding raw_compound_with_rpc
  destroy_session_with_rpc rpc minor_version session_id = do
    response ←
        raw_compound_with_rpc rpc destroy_session_tag minor_version
          (Operation.destroy_session session_id ∷ [])
    lift (ensure_ok response)

  -- `return Err(cleanup_session_setup_error(..))`
  unfoldable pub cleanup_session_setup_error {κ} : {A : Type κ} → C → ℕ → Bytes → Error → Acting A
  unfolding destroy_session_with_rpc
  cleanup_session_setup_error rpc minor_version session_id error = do
    destroyed ← attempt (destroy_session_with_rpc rpc minor_version session_id)
    raise (cleanup_error error "cleanup DESTROY_SESSION after failed NFSv4 session setup" destroyed)

  -- A result that is not ok destroys the new session again.
  abbrev pub or_cleanup {κ} : {A : Type κ} → C → ℕ → Bytes → Result Error A → Acting A
  or_cleanup rpc minor_version session_id (ok value) = pure value
  or_cleanup rpc minor_version session_id (err error) =
      cleanup_session_setup_error rpc minor_version session_id error
