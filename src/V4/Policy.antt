-- ===== src/V4/Policy.antt =====
-- src/v4/client.rs: what the client reads off a COMPOUND response, and the limits of a session.
use nfs.Prelude.{
  ℕ, ◌-◌, ◌*◌, ◌/◌, ◌%◌, ◌^◌, Bool, true, false, ◌&&◌, ◌||◌, Option, none, some, List, ltb, leb,
  ◌==◌, if◌then◌else◌, length, get_elem?, take, all, any, first?, last?, position, min,
}
use nfs.Prelude.Outcome.{Result, ok, err, ◌>>◌}
use nfs.Xdr.{checked_add}
use nfs.Error.{Error, protocol, nfs_v4}
use nfs.V4.Status
use nfs.V4.Status.{Status}
use nfs.V4.OpCode
use nfs.V4.OpCode.{OpCode}
use nfs.V4.Args.{ChannelAttrs}
use nfs.V4.Operation.{Operation}
use nfs.V4.Response.{OperationResult, CompoundResponse, op_name, op_code, status_of, ensure_ok}
use nfs.V4.Replay.{
  is_empty, operation_can_replay_after_successful_prefix, operation_can_retry_after_delayed_result,
}

abbrev pub nfs4_max_ops : ℕ
nfs4_max_ops = 128

abbrev pub nfs4_max_io : ℕ
nfs4_max_io = 64 * 1024 * 1024

abbrev pub nfs4_compound_io_headroom : ℕ
nfs4_compound_io_headroom = 4096

abbrev pub sequence_with : (Status → Bool) → Option OperationResult → Bool
sequence_with p (some (OperationResult.sequence status result)) = p status
sequence_with p _ = false

unfoldable pub sequence_succeeded : CompoundResponse → Bool
sequence_succeeded response = sequence_with Status.is_ok (first? response.results)

-- The flags 0x20, 0x08 and 0x10 of `SEQ4_STATUS_*`.
abbrev pub has_flag : ℕ → ℕ → Bool
has_flag flags bit = flags / 2 ^ bit % 2 == 1

abbrev pub revoked_by : ℕ → Option Status
revoked_by flags =
    if has_flag flags 5
    then some Status.admin_revoked
    else if has_flag flags 3 || has_flag flags 4
    then some Status.expired
    else none

abbrev pub revoked_lock_status : Option OperationResult → Option Status
revoked_lock_status (some (OperationResult.sequence status (some sequence))) =
    revoked_by sequence.status_flags
revoked_lock_status _ = none

unfoldable pub response_revoked_lock_status : CompoundResponse → Option Status
response_revoked_lock_status response = revoked_lock_status (first? response.results)

unfoldable pub status_allows_delayed_retry : Status → Bool
status_allows_delayed_retry Status.delay = true
status_allows_delayed_retry Status.grace = true
status_allows_delayed_retry _ = false

unfoldable pub first_delayed_retry_result_index : CompoundResponse → Option ℕ
first_delayed_retry_result_index response =
    if is_empty response.results && status_allows_delayed_retry response.status
    then some 0
    else position (λ result. status_allows_delayed_retry (status_of result)) response.results

abbrev pub can_retry_at : Option Operation → Bool
can_retry_at none = false
can_retry_at (some operation) = operation_can_retry_after_delayed_result operation

-- The test behind the index: what stands before the delayed operation has been carried out.
abbrev pub allows_delayed_retry_at : List Operation → ℕ → Option ℕ → Bool
allows_delayed_retry_at operations leading none = false
allows_delayed_retry_at operations leading (some retry_index) =
    if ltb retry_index leading
    then true
    else ltb (retry_index - leading) (length operations)
      && (all operation_can_replay_after_successful_prefix (take (retry_index - leading) operations)
          && can_retry_at (get_elem? operations (retry_index - leading)))

unfoldable pub response_allows_delayed_retry_after_leading_results :
    List Operation → CompoundResponse → ℕ → Bool
response_allows_delayed_retry_after_leading_results operations response leading_result_count =
    allows_delayed_retry_at operations leading_result_count
      (first_delayed_retry_result_index response)

unfoldable pub response_allows_delayed_retry : List Operation → CompoundResponse → Bool
unfolding response_allows_delayed_retry_after_leading_results
response_allows_delayed_retry operations response =
    response_allows_delayed_retry_after_leading_results operations response 1

unfoldable pub response_allows_delayed_retry_without_sequence :
    List Operation → CompoundResponse → Bool
unfolding response_allows_delayed_retry_after_leading_results
response_allows_delayed_retry_without_sequence operations response =
    response_allows_delayed_retry_after_leading_results operations response 0

unfoldable pub response_requires_session_recovery : CompoundResponse → Bool
response_requires_session_recovery response =
    sequence_with Status.requires_session_recovery (first? response.results)
    || (is_empty response.results && Status.requires_session_recovery response.status)

abbrev pub recovery_error : Status → Option OperationResult → Error
recovery_error status none = nfs_v4 "COMPOUND" status
recovery_error status (some (OperationResult.sequence s result)) =
    if Status.requires_session_recovery s
    then nfs_v4 "SEQUENCE" s
    else nfs_v4 (op_name (OperationResult.sequence s result)) s
recovery_error status (some result) = nfs_v4 (op_name result) (status_of result)

unfoldable pub session_recovery_error : CompoundResponse → Error
session_recovery_error response = recovery_error response.status (first? response.results)

unfoldable pub owner_seqid_status_consumes : Status → Bool
owner_seqid_status_consumes Status.bad_seq_id = false
owner_seqid_status_consumes Status.bad_state_id = false
owner_seqid_status_consumes Status.bad_xdr = false
owner_seqid_status_consumes Status.moved = false
owner_seqid_status_consumes Status.no_file_handle = false
owner_seqid_status_consumes Status.resource = false
owner_seqid_status_consumes Status.stale_client_id = false
owner_seqid_status_consumes Status.stale_state_id = false
owner_seqid_status_consumes _ = true

unfoldable pub response_consumed_owner_seqid : CompoundResponse → OpCode → Bool
response_consumed_owner_seqid response op =
    any (λ result. OpCode.eq (op_code result) op && owner_seqid_status_consumes (status_of result))
      response.results

unfoldable pub response_operation_has_delayed_status : CompoundResponse → OpCode → Bool
response_operation_has_delayed_status response op =
    any (λ result. OpCode.eq (op_code result) op && status_allows_delayed_retry (status_of result))
      response.results

unfoldable pub response_operation_requires_session_recovery : CompoundResponse → OpCode → Bool
response_operation_requires_session_recovery response op =
    any
      (λ result.
        OpCode.eq (op_code result) op && Status.requires_session_recovery (status_of result))
      response.results

abbrev pub is_complete_already : Status → Bool
is_complete_already Status.complete_already = true
is_complete_already _ = false

abbrev pub last_is_complete_already : Option OperationResult → Bool
last_is_complete_already none = false
last_is_complete_already (some result) = is_complete_already (status_of result)

unfoldable pub ensure_reclaim_complete : CompoundResponse → Result Error (Unit {0})
unfolding ensure_ok
ensure_reclaim_complete response =
    if is_complete_already response.status || last_is_complete_already (last? response.results)
    then ok tt
    else ensure_ok response

unfoldable pub session_payload_limit : ℕ → ℕ
session_payload_limit channel_size = min (channel_size - nfs4_compound_io_headroom) nfs4_max_io

unfoldable pub session_max_operations : ChannelAttrs → Result Error ℕ
session_max_operations attrs =
    if attrs.max_operations == 0
    then err (protocol "NFSv4 session fore channel returned max_operations=0")
    else ok (min attrs.max_operations nfs4_max_ops)

unfoldable pub validate_session_channel_size : ℕ → Result Error (Unit {0})
validate_session_channel_size size =
    if leb size nfs4_compound_io_headroom
    then err (
        protocol
          "NFSv4 session fore channel returned {name}={size}, which leaves no payload capacity")
    else ok tt

unfoldable pub validate_session_channel_attrs : ChannelAttrs → Result Error (Unit {0})
unfolding validate_session_channel_size
validate_session_channel_attrs attrs = do
  validate_session_channel_size attrs.max_request_size
  validate_session_channel_size attrs.max_response_size
  (if attrs.max_requests == 0
      then err (protocol "NFSv4 session fore channel returned max_requests=0")
      else ok tt)

abbrev pub within_operations : ℕ → Option ℕ → Result Error (Unit {0})
within_operations max_operations none = err (protocol "NFSv4 COMPOUND operation count overflow")
within_operations max_operations (some total) =
    if ltb max_operations total
    then err (
        protocol
          "NFSv4 COMPOUND has {total} operations including SEQUENCE, but session allows {max_operations}")
    else ok tt

unfoldable pub validate_session_compound_operation_count : ℕ → ℕ → Result Error (Unit {0})
validate_session_compound_operation_count operation_count max_operations =
    within_operations max_operations (checked_add operation_count 1)
