-- ===== src/V4/Response.antt =====
-- src/v4/proto.rs, `OperationResult` and `CompoundResponse`: the replies to a COMPOUND. A result struct
-- that the client's policies never look into (`Xdr`) is the bytes that its `decode` reads.
use nfs.Prelude.{ℕ, Bool, Option, none, some, List, String, if◌then◌else◌, last?}
use nfs.Prelude.Outcome.{Result, ok, err}
use nfs.Error.{Error, nfs_v4}
use nfs.V4.OpCode
use nfs.V4.OpCode.{OpCode}
use nfs.V4.Status
use nfs.V4.Status.{Status}
use nfs.V4.Args.{Bytes, Xdr, StateId, Fattr, OpenDelegation, OpenResult}
use nfs.V4.Transfer.{
  ExchangeIdResult, CreateSessionResult, WriteResult, CommitResult, WriteResponse, CopyResult,
  ReadPlusResult, GetDeviceListResult,
}

pub record SequenceResult : Type 0 where
  pub session_id : Bytes
  pub sequence_id : ℕ
  pub slot_id : ℕ
  pub highest_slot_id : ℕ
  pub target_highest_slot_id : ℕ
  pub status_flags : ℕ

-- `proto::DirEntry`
pub record DirEntry : Type 0 where
  pub cookie : ℕ
  pub name : Bytes
  pub attrs : Fattr

pub data OperationResult : Type 0 where
  -- status, result, client_using
  set_client_id : Status → Option Xdr → Option Xdr → OperationResult
  -- status, result
  exchange_id : Status → Option ExchangeIdResult → OperationResult
  -- status, result
  create_session : Status → Option CreateSessionResult → OperationResult
  -- status, result
  bind_conn_to_session : Status → Option Xdr → OperationResult
  -- status, result
  sequence : Status → Option SequenceResult → OperationResult
  -- op, status
  status_only : OpCode → Status → OperationResult
  -- status, result
  open_file : Status → Option OpenResult → OperationResult
  -- status, stateid
  open_confirm : Status → Option StateId → OperationResult
  -- status, stateid
  close : Status → Option StateId → OperationResult
  -- status, stateid, denied
  lock : Status → Option StateId → Option Xdr → OperationResult
  -- status, denied
  lock_test : Status → Option Xdr → OperationResult
  -- status, stateid
  lock_unlock : Status → Option StateId → OperationResult
  -- status, stateid
  open_downgrade : Status → Option StateId → OperationResult
  -- status, statuses
  test_state_ids : Status → List Status → OperationResult
  -- status, result
  get_dir_delegation : Status → Option Xdr → OperationResult
  -- status, result, min_count
  get_device_info : Status → Option Xdr → Option ℕ → OperationResult
  -- status, result
  get_device_list : Status → Option GetDeviceListResult → OperationResult
  -- status, result
  layout_commit : Status → Option Xdr → OperationResult
  -- status, result, will_signal_layout_avail
  layout_get : Status → Option Xdr → Option Bool → OperationResult
  -- status, result
  layout_return : Status → Option Xdr → OperationResult
  -- status, result
  set_ssv : Status → Option Xdr → OperationResult
  -- status, delegation
  want_delegation : Status → Option OpenDelegation → OperationResult
  -- status, handle
  get_fh : Status → Option Bytes → OperationResult
  -- status, attrs
  get_attr : Status → Option Fattr → OperationResult
  -- status, result
  access : Status → Option Xdr → OperationResult
  -- op, status, flavors
  sec_info : OpCode → Status → List Xdr → OperationResult
  -- status, eof, data
  read : Status → Bool → Bytes → OperationResult
  -- status, result
  write : Status → Option WriteResult → OperationResult
  -- status, result
  commit : Status → Option CommitResult → OperationResult
  -- status, result
  io_advise : Status → Option Xdr → OperationResult
  -- status, result
  copy : Status → Option CopyResult → OperationResult
  -- status, result
  copy_notify : Status → Option Xdr → OperationResult
  -- status, result
  offload_status : Status → Option Xdr → OperationResult
  -- status, result
  read_plus : Status → Option ReadPlusResult → OperationResult
  -- status, result
  seek : Status → Option Xdr → OperationResult
  -- status, result
  write_same : Status → Option WriteResponse → OperationResult
  -- status, cookieverf, entries, eof
  read_dir : Status → Bytes → List DirEntry → Bool → OperationResult
  -- status, data
  read_link : Status → Option Bytes → OperationResult

unfoldable pub op_code : OperationResult → OpCode
op_code (set_client_id _ _ _) = OpCode.set_client_id
op_code (exchange_id _ _) = OpCode.exchange_id
op_code (create_session _ _) = OpCode.create_session
op_code (bind_conn_to_session _ _) = OpCode.bind_conn_to_session
op_code (sequence _ _) = OpCode.sequence
op_code (status_only op _) = op
op_code (open_file _ _) = OpCode.open_file
op_code (open_confirm _ _) = OpCode.open_confirm
op_code (close _ _) = OpCode.close
op_code (lock _ _ _) = OpCode.lock
op_code (lock_test _ _) = OpCode.lockt
op_code (lock_unlock _ _) = OpCode.locku
op_code (open_downgrade _ _) = OpCode.open_downgrade
op_code (test_state_ids _ _) = OpCode.test_state_id
op_code (get_dir_delegation _ _) = OpCode.get_dir_delegation
op_code (get_device_info _ _ _) = OpCode.get_device_info
op_code (get_device_list _ _) = OpCode.get_device_list
op_code (layout_commit _ _) = OpCode.layout_commit
op_code (layout_get _ _ _) = OpCode.layout_get
op_code (layout_return _ _) = OpCode.layout_return
op_code (set_ssv _ _) = OpCode.set_ssv
op_code (want_delegation _ _) = OpCode.want_delegation
op_code (get_fh _ _) = OpCode.get_fh
op_code (get_attr _ _) = OpCode.get_attr
op_code (access _ _) = OpCode.access
op_code (sec_info op _ _) = op
op_code (read _ _ _) = OpCode.read
op_code (write _ _) = OpCode.write
op_code (commit _ _) = OpCode.commit
op_code (io_advise _ _) = OpCode.io_advise
op_code (copy _ _) = OpCode.copy
op_code (copy_notify _ _) = OpCode.copy_notify
op_code (offload_status _ _) = OpCode.offload_status
op_code (read_plus _ _) = OpCode.read_plus
op_code (seek _ _) = OpCode.seek
op_code (write_same _ _) = OpCode.write_same
op_code (read_dir _ _ _ _) = OpCode.read_dir
op_code (read_link _ _) = OpCode.read_link

unfoldable pub op_name : OperationResult → String
unfolding op_code
op_name result = OpCode.name (op_code result)

unfoldable pub status_of : OperationResult → Status
status_of (set_client_id status _ _) = status
status_of (exchange_id status _) = status
status_of (create_session status _) = status
status_of (bind_conn_to_session status _) = status
status_of (sequence status _) = status
status_of (status_only _ status) = status
status_of (open_file status _) = status
status_of (open_confirm status _) = status
status_of (close status _) = status
status_of (lock status _ _) = status
status_of (lock_test status _) = status
status_of (lock_unlock status _) = status
status_of (open_downgrade status _) = status
status_of (test_state_ids status _) = status
status_of (get_dir_delegation status _) = status
status_of (get_device_info status _ _) = status
status_of (get_device_list status _) = status
status_of (layout_commit status _) = status
status_of (layout_get status _ _) = status
status_of (layout_return status _) = status
status_of (set_ssv status _) = status
status_of (want_delegation status _) = status
status_of (get_fh status _) = status
status_of (get_attr status _) = status
status_of (access status _) = status
status_of (sec_info _ status _) = status
status_of (read status _ _) = status
status_of (write status _) = status
status_of (commit status _) = status
status_of (io_advise status _) = status
status_of (copy status _) = status
status_of (copy_notify status _) = status
status_of (offload_status status _) = status
status_of (read_plus status _) = status
status_of (seek status _) = status
status_of (write_same status _) = status
status_of (read_dir status _ _ _) = status
status_of (read_link status _) = status

pub record CompoundResponse : Type 0 where
  pub status : Status
  pub tag : Bytes
  pub results : List OperationResult

-- The error of the last result, or of the whole where there is none.
abbrev pub last_error : Status → Option OperationResult → Error
last_error status none = nfs_v4 "COMPOUND" status
last_error status (some result) = nfs_v4 (op_name result) (status_of result)

unfoldable pub ensure_ok : CompoundResponse → Result Error (Unit {0})
ensure_ok response =
    if Status.is_ok response.status
    then ok tt
    else err (last_error response.status (last? response.results))
