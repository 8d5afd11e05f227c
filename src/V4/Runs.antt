-- ===== src/V4/Runs.antt =====
-- Runs of the NFSv4 client's policies on small inputs.
use nfs.Prelude.{
  ℕ, ◌+◌, ◌≤◌, ◌≡◌, refl, true, false, ◌&&◌, not, none, some, String, List, [], ◌∷◌, arith,
  replicate,
}
use nfs.Prelude.Outcome.{ok, err}
use nfs.Error.{IoErrorKind, nfs_v4, protocol, io}
use nfs.Retry
use nfs.Retry.{RetryPolicy}
use nfs.V4.Status
use nfs.V4.Status.{Status}
use nfs.V4.OpCode
use nfs.V4.OpCode.{OpCode}
use nfs.V4.Operation
use nfs.V4.Operation.{Operation, Bytes, StateId}
use nfs.V4.Response
use nfs.V4.Response.{OperationResult, CompoundResponse, status_of, ensure_ok}
use nfs.V4.Replay
use nfs.V4.Policy
use nfs.V4.Policy.{status_allows_delayed_retry}
use nfs.V4.Recovery.{means_lost}
use nfs.V4.Shape
use nfs.V4.Shape.{validate_compound_response_shape}
use nfs.V4.WellShaped.{WellShaped, validate_compound_response_shape-WellShaped}
use nfs.V4.Delays.{response_allows_delayed_retry-replays}
use nfs.V4.Limits.{
  IsPayloadLimit, validate_session_channel_attrs-IsPayloadLimit,
  validate_session_compound_operation_count-fits, ensure_ok-status, status_classes-disjoint,
}
use nfs.V4.Args.{LockType, ChannelAttrs}
use nfs.V4.Locks
use nfs.V4.Locks.{LockState, LockRegistry, ByteRangeLock, get, register, remove, restore}
use nfs.V4.Tokens.{WellFormed, register-get-remove, restore-get, registry-WellFormed}
use nfs.V4.Session.{Client, Surroundings, compound_status}
use nfs.V4.Replays.{Ended, compound_status-Ended}

-- A server that breaks the connection each time, and a session that can be made again.
abbrev failing : Surroundings (Unit {0})
failing = record {
  raw_compound = λ operations w. (err (io IoErrorKind.connection_reset), w);
  rebuild = λ c. (
    ok (record { session_id = 2 ∷ []; sequence_id = 1; max_operations = 16 }),
    (c.locks, c.world),
  );
  check_revoked = λ c. (ok tt, (c.locks, (c.sequence_id, c.world)));
}

abbrev client : Client (Unit {0})
client = record {
  session_id = 1 ∷ [];
  sequence_id = 1;
  max_operations = 16;
  recovery_pending = false;
  lease_failed = false;
  retry_policy = Retry.default;
  locks = Locks.empty;
  log = [];
  world = tt;
}

abbrev removal : List Operation
removal = Operation.put_root_fh ∷ Operation.remove (97 ∷ []) ∷ []

compound_status-Ended_example :
    Ended failing removal client (compound_status failing removal client)
compound_status-Ended_example = compound_status-Ended failing removal client

abbrev tag : Bytes
tag = 110 ∷ 102 ∷ 115 ∷ []

abbrev expected : List OpCode
expected = OpCode.sequence ∷ OpCode.put_root_fh ∷ OpCode.get_attr ∷ []

abbrev delayed_response : CompoundResponse
delayed_response = record {
  status = Status.delay;
  tag = tag;
  results =
      OperationResult.sequence Status.ok none
      ∷ OperationResult.status_only OpCode.put_root_fh Status.ok
      ∷ OperationResult.get_attr Status.delay none
      ∷ [];
}

delayed_response-passes : validate_compound_response_shape tag expected delayed_response ≡ ok tt
unfolding validate_compound_response_shape Shape.check_operations Shape.check_statuses
    Shape.compound_result_matches_expected OpCode.eq OpCode.as_u32 Status.eq Status.as_u32
    Status.is_named Status.is_ok Response.op_code status_of
delayed_response-passes = refl

validate_compound_response_shape-WellShaped_example : WellShaped tag expected delayed_response
validate_compound_response_shape-WellShaped_example =
    validate_compound_response_shape-WellShaped tag expected delayed_response
      delayed_response-passes

abbrev reading : List Operation
reading = Operation.put_root_fh ∷ Operation.get_attr [] ∷ []

reading-retried : Policy.response_allows_delayed_retry reading delayed_response ≡ true
unfolding Policy.response_allows_delayed_retry
    Policy.response_allows_delayed_retry_after_leading_results
    Policy.first_delayed_retry_result_index Policy.status_allows_delayed_retry status_of
    Replay.operation_can_replay_after_successful_prefix
    Replay.operation_can_retry_after_delayed_result
reading-retried = refl

response_allows_delayed_retry-replays_example :
    Replay.operation_can_replay_after_successful_prefix Operation.put_root_fh ≡ true
unfolding status_of Status.is_ok
response_allows_delayed_retry-replays_example =
    response_allows_delayed_retry-replays tag expected reading delayed_response 0
      Operation.put_root_fh (OperationResult.status_only OpCode.put_root_fh Status.ok)
      (validate_compound_response_shape-WellShaped tag expected delayed_response
        delayed_response-passes)
      reading-retried refl refl refl

ensure_ok-status_example :
    (name : String) × (ensure_ok delayed_response ≡ err (nfs_v4 name Status.delay))
unfolding Status.is_ok
ensure_ok-status_example =
    ensure_ok-status tag expected delayed_response
      (validate_compound_response_shape-WellShaped tag expected delayed_response
        delayed_response-passes)
      refl

abbrev attrs : ChannelAttrs
attrs = record {
  header_pad_size = 0;
  max_request_size = 1048576;
  max_response_size = 8192;
  max_response_size_cached = 4096;
  max_operations = 16;
  max_requests = 64;
  rdma_ird = [];
}

attrs-accepted : Policy.validate_session_channel_attrs attrs ≡ ok tt
unfolding Policy.validate_session_channel_attrs Policy.validate_session_channel_size
attrs-accepted = refl

validate_session_channel_attrs-IsPayloadLimit_example : IsPayloadLimit 1048576 × IsPayloadLimit 8192
validate_session_channel_attrs-IsPayloadLimit_example =
    validate_session_channel_attrs-IsPayloadLimit attrs attrs-accepted

attrs-operations : Policy.session_max_operations attrs ≡ ok 16
unfolding Policy.session_max_operations
attrs-operations = refl

fifteen-counted : Policy.validate_session_compound_operation_count 15 16 ≡ ok tt
unfolding Policy.validate_session_compound_operation_count
fifteen-counted = refl

validate_session_compound_operation_count-fits_example : (15 + 1 ≤ 16) × (15 + 1 ≤ 128)
validate_session_compound_operation_count-fits_example =
    validate_session_compound_operation_count-fits attrs 16 15 attrs-operations fifteen-counted

abbrev anonymous : StateId
anonymous = record { seqid = 0; other = replicate 12 0 }

read-replayed :
    Replay.operation_can_replay_after_session_recovery (Operation.read anonymous 0 10) ≡ true
unfolding Replay.operation_can_replay_after_session_recovery Operation.is_anonymous
read-replayed = refl

status_classes-disjoint_example :
    ((status_allows_delayed_retry Status.grace && Status.requires_session_recovery Status.grace)
      ≡ false)
    × ((status_allows_delayed_retry Status.grace && means_lost Status.grace) ≡ false)
    × ((status_allows_delayed_retry Status.grace && not (Status.is_retryable Status.grace)) ≡ false)
    × ((Status.is_retryable Status.grace && Status.requires_session_recovery Status.grace) ≡ false)
    × ((Status.is_ok Status.grace && status_allows_delayed_retry Status.grace) ≡ false)
    × ((Status.is_ok Status.grace && Status.is_retryable Status.grace) ≡ false)
    × ((Status.is_ok Status.grace && Status.requires_session_recovery Status.grace) ≡ false)
    × ((Status.is_ok Status.grace && means_lost Status.grace) ≡ false)
    × ((Status.is_ok Status.grace && Status.indicates_lost_state Status.grace) ≡ false)
status_classes-disjoint_example = status_classes-disjoint Status.grace

abbrev lock_state : LockState
lock_state = record {
  client_id = 1;
  open_owner = 1 ∷ [];
  handle = 5 ∷ [];
  open_stateid = anonymous;
  lock_stateid = anonymous;
  lock_seqid = 1;
  lock_type = LockType.write;
  offset = 0;
  range_length = 10;
  owner = 2 ∷ [];
  lost = none;
}

abbrev lost_state : LockState
lost_state = record lock_state { lost = some Status.expired }

abbrev token : ℕ → ByteRangeLock
token cell = record {
  state = cell;
  lock_type = LockType.write;
  offset = 0;
  range_length = 10;
  owner = 2 ∷ [];
}

abbrev two_locks : LockRegistry
two_locks = record { heap = lock_state ∷ lock_state ∷ []; entries = 0 ∷ 1 ∷ [] }

two_locks-WellFormed : WellFormed two_locks
two_locks-WellFormed = record {
  in_heap = (omega arith, (omega arith, tt));
  distinct = ((λ e. absurd (omega (arith, e)), tt), (tt, tt));
}

restore-get_example :
    (get (restore two_locks 1 lost_state) (token 1) ≡ ok lost_state)
    × (get (restore two_locks 1 lost_state) (token 0) ≡ get two_locks (token 0))
restore-get_example =
    restore-get two_locks 1 lost_state (token 1) (token 0) two_locks-WellFormed refl
      (λ e. absurd (omega (arith, e)))

register-get-remove_example :
    (get (register two_locks lock_state).1 (register two_locks lock_state).0 ≡ ok lock_state)
    × (get
          (remove (register two_locks lock_state).1 (register two_locks lock_state).0)
          (register two_locks lock_state).0
        ≡ err (protocol "lock belongs to a different client or was already released"))
    × (get (remove (register two_locks lock_state).1 (register two_locks lock_state).0) (token 0)
        ≡ get (register two_locks lock_state).1 (token 0))
unfolding register
register-get-remove_example =
    register-get-remove two_locks lock_state (token 0) (λ e. absurd (omega (arith, e)))

registry-WellFormed_example :
    WellFormed (register two_locks lost_state).1
    × WellFormed (remove two_locks (token 0))
    × WellFormed (restore two_locks 1 lost_state)
registry-WellFormed_example =
    registry-WellFormed two_locks lost_state 1 (token 0) two_locks-WellFormed
