-- ===== src/V4/Session.antt =====
-- src/v4/blocking.rs: `Client::compound_status`, the loop that sends the operations of a COMPOUND in a
-- session, recovers the session, and waits out delays.
--
-- What stands outside the loop is a parameter: the exchange of one COMPOUND with the server, the new
-- session that `recover_session` makes by connecting again and reclaiming the locks, and what
-- `check_revoked_locks` does. The last two change the locks also where they fail. Their own state is of
-- any type W. `log` is what the client has done so far; the source keeps no such list. A sleep takes no
-- step.
use nfs.Prelude.{
  ℕ, zero, suc, ◌+◌, ◌%◌, ◌^◌, Bool, true, false, not, ◌&&◌, Option, none, some, List, [], ◌∷◌,
  ◌++◌, max, if◌then◌else◌, length,
}
use nfs.Prelude.Outcome.{Result, ok, err}
use nfs.Error.{Error, cleanup, nfs_v4, is_transport_failure}
use nfs.Retry
use nfs.Retry.{RetryPolicy}
use nfs.V4.Status
use nfs.V4.Operation.{Operation, Bytes}
use nfs.V4.Response.{CompoundResponse}
use nfs.V4.Replay.{operations_can_replay_after_session_recovery, operations_release_state}
use nfs.V4.Policy.{
  validate_session_compound_operation_count, sequence_succeeded, response_revoked_lock_status,
  response_requires_session_recovery, session_recovery_error, response_allows_delayed_retry,
}
use nfs.V4.Locks
use nfs.V4.Locks.{LockRegistry}

pub data Event : Type 0 where
  sent : List Operation → Event
  recovery : Event

-- The session that a recovery makes.
pub record Rebuilt : Type 0 where
  pub session_id : Bytes
  pub sequence_id : ℕ
  pub max_operations : ℕ

pub record Client {ℓ} (W : Type ℓ) : Type ℓ where
  pub session_id : Bytes
  pub sequence_id : ℕ
  pub max_operations : ℕ
  pub recovery_pending : Bool
  pub lease_failed : Bool
  pub retry_policy : RetryPolicy
  pub locks : LockRegistry
  pub log : List Event
  pub world : W

-- The code around the loop.
pub record Surroundings {ℓ} (W : Type ℓ) : Type ℓ where
  pub raw_compound : List Operation → W → Result Error CompoundResponse × W
  pub rebuild : Client W → Result Error Rebuilt × (LockRegistry × W)
  -- with the sequence id, which the check's own compounds advance
  pub check_revoked : Client W → Result Error (Unit {0}) × (LockRegistry × (ℕ × W))

-- `wrapping_add(1).max(1)`
abbrev pub advance_sequence : ℕ → ℕ
advance_sequence sequence_id = max ((sequence_id + 1) % 2 ^ 32) 1

abbrev pub is_some {ℓ} : {A : Type ℓ} → Option A → Bool
is_some none = false
is_some (some a) = true

module _ {ℓ} {W : Type ℓ} (env : Surroundings W) where
  abbrev pub Outcome : Type ℓ
  Outcome = Option (Result Error CompoundResponse × Client W)

  abbrev pub sequenced : Client W → List Operation → List Operation
  sequenced c operations =
      Operation.sequence (record {
        session_id = c.session_id;
        sequence_id = c.sequence_id;
        slot_id = 0;
        highest_slot_id = 0;
        cache_this = false;
      })
      ∷ operations

  abbrev pub send : List Operation → Client W → Result Error CompoundResponse × Client W
  send operations c =
      let answer = env.raw_compound (sequenced c operations) c.world in
      (answer.0, record c { log = c.log ++ (sent (sequenced c operations) ∷ []); world = answer.1 })

  -- `recover_session` with the new session, which takes the place of the old one: the flag is cleared
  abbrev pub rebuilt_client :
      Result Error Rebuilt → LockRegistry → W → Client W → Result Error (Unit {0}) × Client W
  rebuilt_client (err e) locks w c =
      (err e, record c { recovery_pending = true; locks = locks; world = w })
  rebuilt_client (ok new) locks w c = (
    Locks.ensure_valid locks,
    record c {
      session_id = new.session_id;
      sequence_id = new.sequence_id;
      max_operations = new.max_operations;
      recovery_pending = false;
      lease_failed = false;
      locks = locks;
      world = w;
    },
  )

  unfoldable pub recover_session : Client W → Result Error (Unit {0}) × Client W
  recover_session c =
      let made = env.rebuild c in
      rebuilt_client made.0 (made.1).0 (made.1).1 (record c { log = c.log ++ (recovery ∷ []) })

  -- after a failure of the transport, with the session recovered
  abbrev pub after_failure :
      (Bool → Client W → Outcome) → Bool → Error → Result Error (Unit {0}) × Client W → Outcome
  after_failure again replay e (err recovery_err, c) =
      some (err (cleanup "NFSv4 session recovery" e recovery_err), c)
  after_failure again replay e (ok _, c) = elim replay [
    | true ↦ again true c
    | false ↦ some (err e, c)
  ]

  -- after a response that asks for a new session
  abbrev pub after_request :
      (Bool → Client W → Outcome) → Bool → Error → Result Error (Unit {0}) × Client W → Outcome
  after_request again replay e (err recovery_err, c) = some (err recovery_err, c)
  after_request again replay e (ok _, c) = elim replay [
    | true ↦ again true c
    | false ↦ some (err e, c)
  ]

  -- the end of a round: a delay is waited out while the policy grants it
  abbrev pub finish_round :
      (ℕ → Client W → Outcome) → List Operation → ℕ → CompoundResponse → Client W → Outcome
  finish_round again operations retry response c =
      elim (response_allows_delayed_retry operations response
        && is_some (Retry.delay_for_retry c.retry_policy retry)) [
          | true ↦ again (suc retry) c
          | false ↦ some (ok response, c)
        ]

  abbrev pub with_valid_locks : Bool → (Client W → Outcome) → Client W → Outcome
  with_valid_locks releases k c = elim releases [
    | true ↦ k c
    | false ↦ elim (Locks.ensure_valid c.locks) [ ok _ ↦ k c | err e ↦ some (err e, c) ]
  ]

  abbrev pub checked : Bool → (Client W → Outcome) → Result Error (Unit {0}) × Client W → Outcome
  checked releases k (err e, c) = some (err e, c)
  checked releases k (ok _, c) = with_valid_locks releases k c

  abbrev pub check_revoked_locks : Client W → Result Error (Unit {0}) × Client W
  check_revoked_locks c =
      let done = env.check_revoked c in
      (
        done.0,
        record c { locks = (done.1).0; sequence_id = ((done.1).1).0; world = ((done.1).1).1 },
      )

  abbrev pub check_locks : Bool → Bool → (Client W → Outcome) → Client W → Outcome
  check_locks revoked releases k c = elim revoked [
    | true ↦ checked releases k (check_revoked_locks c)
    | false ↦ k c
  ]

  abbrev pub sequence_done : CompoundResponse → Client W → Client W
  sequence_done response c =
      if sequence_succeeded response
      then record c { sequence_id = advance_sequence c.sequence_id }
      else c

  -- what the loop does with a response, from the check of the locks on
  unfoldable pub judge :
      (ℕ → Bool → Client W → Outcome)
      → List Operation
      → ℕ
      → Bool
      → CompoundResponse
      → Client W
      → Outcome
  judge again operations retry recovered response c =
      elim (response_requires_session_recovery response && not recovered) [
        | true ↦
            after_request (again retry) (operations_can_replay_after_session_recovery operations)
              (session_recovery_error response) (recover_session c)
        | false ↦ finish_round (λ n. again n recovered) operations retry response c
      ]

  unfoldable pub receive :
      (ℕ → Bool → Client W → Outcome)
      → List Operation
      → ℕ
      → Bool
      → Result Error CompoundResponse × Client W
      → Outcome
  unfolding judge
  receive again operations retry recovered (ok response, c) =
      check_locks (is_some (response_revoked_lock_status response))
        (operations_release_state operations) (judge again operations retry recovered response)
        (sequence_done response c)
  receive again operations retry recovered (err e, c) =
      elim (is_transport_failure e && not recovered) [
        | true ↦
            after_failure (again retry) (operations_can_replay_after_session_recovery operations) e
              (recover_session c)
        | false ↦ some (err e, c)
      ]

  -- the loop; none is for a run that needs more rounds than the fuel
  unfoldable pub compound_loop : ℕ → List Operation → ℕ → Bool → Client W → Outcome
  unfolding receive
  compound_loop zero operations retry recovered c = none
  compound_loop (suc fuel) operations retry recovered c =
      receive (compound_loop fuel operations) operations retry recovered (send operations c)

  abbrev pub enough_fuel : Client W → ℕ
  enough_fuel c = 2 + (c.retry_policy).max_retries

  abbrev pub start : List Operation → Client W → Outcome
  start operations c =
      with_valid_locks (operations_release_state operations)
        (λ c'. compound_loop (enough_fuel c') operations 0 false c') c

  abbrev pub after_pending : List Operation → Result Error (Unit {0}) × Client W → Outcome
  after_pending operations (err e, c) = some (err e, c)
  after_pending operations (ok _, c) =
      elim (operations_can_replay_after_session_recovery operations) [
        | true ↦ start operations c
        | false ↦ some (err (nfs_v4 "SEQUENCE" Status.bad_session), c)
      ]

  unfoldable pub compound_status : List Operation → Client W → Outcome
  unfolding compound_loop recover_session
  compound_status operations c =
      elim (validate_session_compound_operation_count (length operations) c.max_operations) [
        | err e ↦ some (err e, c)
        | ok _ ↦ elim c.recovery_pending [
          | true ↦ after_pending operations (recover_session c)
          | false ↦ elim c.lease_failed [
            | true ↦ after_pending operations (recover_session c)
            | false ↦ start operations c
          ]
        ]
      ]
