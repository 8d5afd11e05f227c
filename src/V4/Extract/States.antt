-- ===== src/V4/Extract/States.antt =====
-- src/v4/client.rs: the results of OPEN, LOCK and the other operations on names and states.
use nfs.Prelude.{
  ℕ, Bool, true, false, ◌&&◌, Option, none, some, List, leb, ◌==◌, if◌then◌else◌, length,
}
use nfs.Prelude.Outcome.{Result, ok, err}
use nfs.Error.{Error, protocol, nfs_v4}
use nfs.V4.Status
use nfs.V4.Status.{Status}
use nfs.V4.OpCode
use nfs.V4.OpCode.{OpCode}
use nfs.V4.Args.{Bytes, Xdr, StateId, Fattr, OpenDelegation, OpenResult}
use nfs.V4.Response.{OperationResult, CompoundResponse}
use nfs.V4.Policy.{has_flag}
use nfs.V4.Extract.{find_answer, granted, granted_or}

abbrev pub open_answer : OperationResult → Option (Result Error (OpenResult))
open_answer (OperationResult.open_file status result) = some (granted "OPEN" status result)
open_answer _ = none

unfoldable pub response_open : CompoundResponse → Result Error (OpenResult)
response_open response =
    find_answer "COMPOUND did not include OPEN result" open_answer response.results

unfoldable pub open_delegation_stateid : OpenDelegation → Option StateId
open_delegation_stateid (OpenDelegation.read stateid recall permissions) = some stateid
open_delegation_stateid (OpenDelegation.write stateid recall space_limit permissions) = some stateid
open_delegation_stateid _ = none

-- OPEN4_RESULT_CONFIRM is 2.
unfoldable pub validate_open_result : OpenResult → ℕ → Result Error (Option StateId)
unfolding open_delegation_stateid
validate_open_result open_result minor_version =
    if leb 1 minor_version && has_flag open_result.result_flags 2
    then err (protocol "NFSv4 server requested OPEN_CONFIRM for a session minor version")
    else ok (open_delegation_stateid open_result.delegation)

abbrev pub getfh_answer : OperationResult → Option (Result Error (Bytes))
getfh_answer (OperationResult.get_fh status handle) = some (granted "GETFH" status handle)
getfh_answer _ = none

unfoldable pub response_getfh : CompoundResponse → Result Error (Bytes)
response_getfh response =
    find_answer "COMPOUND did not include GETFH result" getfh_answer response.results

abbrev pub getattr_answer : OperationResult → Option (Result Error (Fattr))
getattr_answer (OperationResult.get_attr status attrs) = some (granted "GETATTR" status attrs)
getattr_answer _ = none

unfoldable pub response_getattr : CompoundResponse → Result Error (Fattr)
response_getattr response =
    find_answer "COMPOUND did not include GETATTR result" getattr_answer response.results

abbrev pub access_answer : OperationResult → Option (Result Error (Xdr))
access_answer (OperationResult.access status result) = some (granted "ACCESS" status result)
access_answer _ = none

unfoldable pub response_access : CompoundResponse → Result Error (Xdr)
response_access response =
    find_answer "COMPOUND did not include ACCESS result" access_answer response.results

abbrev pub bind_conn_to_session_answer : OperationResult → Option (Result Error (Xdr))
bind_conn_to_session_answer (OperationResult.bind_conn_to_session status result) = some (
    granted_or (protocol "NFSv4 BIND_CONN_TO_SESSION returned OK without a result")
      "BIND_CONN_TO_SESSION" status result)
bind_conn_to_session_answer _ = none

unfoldable pub response_bind_conn_to_session : CompoundResponse → Result Error (Xdr)
response_bind_conn_to_session response =
    find_answer "COMPOUND did not include BIND_CONN_TO_SESSION result" bind_conn_to_session_answer
      response.results

abbrev pub set_ssv_answer : OperationResult → Option (Result Error (Xdr))
set_ssv_answer (OperationResult.set_ssv status result) =
    some
      (granted_or (protocol "NFSv4 SET_SSV returned OK without a result") "SET_SSV" status result)
set_ssv_answer _ = none

unfoldable pub response_set_ssv : CompoundResponse → Result Error (Xdr)
response_set_ssv response =
    find_answer "COMPOUND did not include SET_SSV result" set_ssv_answer response.results

abbrev pub readlink_answer : OperationResult → Option (Result Error (Bytes))
readlink_answer (OperationResult.read_link status target) = some (granted "READLINK" status target)
readlink_answer _ = none

unfoldable pub response_readlink : CompoundResponse → Result Error (Bytes)
response_readlink response =
    find_answer "COMPOUND did not include READLINK result" readlink_answer response.results

abbrev pub secinfo_answer : OpCode → OperationResult → Option (Result Error (List Xdr))
secinfo_answer expected (OperationResult.sec_info op status flavors) =
    if OpCode.eq op expected
    then some
        (if Status.is_ok status then ok flavors else err (nfs_v4 (OpCode.name expected) status))
    else none
secinfo_answer expected _ = none

unfoldable pub response_secinfo : CompoundResponse → OpCode → Result Error (List Xdr)
response_secinfo response expected =
    find_answer "COMPOUND did not include {} result" (secinfo_answer expected) response.results

abbrev pub verify_verdict : OpCode → Status → Status → Result Error Bool
verify_verdict expected false_status status =
    if Status.is_ok status
    then ok true
    else if Status.eq status false_status
    then ok false
    else err (nfs_v4 (OpCode.name expected) status)

abbrev pub verify_answer : OpCode → Status → OperationResult → Option (Result Error Bool)
verify_answer expected false_status (OperationResult.status_only op status) =
    if OpCode.eq op expected then some (verify_verdict expected false_status status) else none
verify_answer expected false_status _ = none

unfoldable pub response_verify : CompoundResponse → OpCode → Status → Result Error Bool
response_verify response expected false_status =
    find_answer "COMPOUND did not include {} result" (verify_answer expected false_status)
      response.results

-- The owner's locks are released, or it holds some.
abbrev pub release_verdict : Status → Result Error Bool
release_verdict Status.locks_held = ok false
release_verdict status =
    if Status.is_ok status then ok true else err (nfs_v4 "RELEASE_LOCKOWNER" status)

abbrev pub release_lock_owner_answer : OperationResult → Option (Result Error Bool)
release_lock_owner_answer (OperationResult.status_only OpCode.release_lock_owner status) =
    some (release_verdict status)
release_lock_owner_answer _ = none

unfoldable pub response_release_lock_owner : CompoundResponse → Result Error Bool
response_release_lock_owner response =
    find_answer "COMPOUND did not include RELEASE_LOCKOWNER result" release_lock_owner_answer
      response.results

-- A conflicting lock, or none.
abbrev pub lock_test_verdict : Status → Option Xdr → Result Error (Option Xdr)
lock_test_verdict Status.denied (some conflict) = ok (some conflict)
lock_test_verdict Status.denied none =
    err (protocol "NFSv4 LOCKT returned DENIED without conflicting lock details")
lock_test_verdict status conflict =
    if Status.is_ok status then ok none else err (nfs_v4 "LOCKT" status)

abbrev pub lock_test_answer : OperationResult → Option (Result Error (Option Xdr))
lock_test_answer (OperationResult.lock_test status conflict) =
    some (lock_test_verdict status conflict)
lock_test_answer _ = none

unfoldable pub response_lock_test : CompoundResponse → Result Error (Option Xdr)
response_lock_test response =
    find_answer "COMPOUND did not include LOCKT result" lock_test_answer response.results

abbrev pub lock_answer : OperationResult → Option (Result Error (StateId))
lock_answer (OperationResult.lock status stateid conflict) = some (
    granted_or (protocol "NFSv4 LOCK returned {status:?} without a stateid: {stateid:?}") "LOCK"
      status stateid)
lock_answer _ = none

unfoldable pub response_lock : CompoundResponse → Result Error (StateId)
response_lock response =
    find_answer "COMPOUND did not include LOCK result" lock_answer response.results

abbrev pub lock_unlock_answer : OperationResult → Option (Result Error (StateId))
lock_unlock_answer (OperationResult.lock_unlock status stateid) = some (
    granted_or (protocol "NFSv4 LOCKU returned {status:?} without a stateid: {stateid:?}") "LOCKU"
      status stateid)
lock_unlock_answer _ = none

unfoldable pub response_lock_unlock : CompoundResponse → Result Error (StateId)
response_lock_unlock response =
    find_answer "COMPOUND did not include LOCKU result" lock_unlock_answer response.results

abbrev pub stateids_verdict : ℕ → Status → List Status → Result Error (List Status)
stateids_verdict requested_count status statuses =
    if Status.is_ok status
    then if length statuses == requested_count
      then ok statuses
      else err (protocol "NFSv4 TEST_STATEID returned {} statuses for {requested_count} stateids")
    else err (nfs_v4 "TEST_STATEID" status)

abbrev pub test_stateids_answer : ℕ → OperationResult → Option (Result Error (List Status))
test_stateids_answer requested_count (OperationResult.test_state_ids status statuses) =
    some (stateids_verdict requested_count status statuses)
test_stateids_answer requested_count _ = none

unfoldable pub response_test_stateids : CompoundResponse → ℕ → Result Error (List Status)
response_test_stateids response requested_count =
    find_answer "COMPOUND did not include TEST_STATEID result"
      (test_stateids_answer requested_count) response.results
