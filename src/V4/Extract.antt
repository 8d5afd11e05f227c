-- ===== src/V4/Extract.antt =====
-- src/v4/client.rs: how the client takes a result out of a COMPOUND response: the first result of the
-- operation it asked for, with its status.
pub mod Transfers
pub mod States
pub mod Layouts
use nfs.Prelude.{
  ℕ, ◌+◌, Bool, true, false, not, ◌&&◌, ◌||◌, Option, none, some, String, List, [], ◌∷◌, ltb, ◌==◌,
  if◌then◌else◌, length, first?, last?,
}
use nfs.Prelude.Outcome.{Result, ok, err, ◌>>=◌, ◌>>◌}
use nfs.Xdr.{checked_add}
use nfs.Error.{Error, protocol, nfs_v4, cleanup}
use nfs.V4.Status
use nfs.V4.Status.{Status}
use nfs.V4.OpCode
use nfs.V4.OpCode.{OpCode}
use nfs.V4.Args.{Bytes, Xdr, StateId, Fattr, OpenDelegation, OpenResult}
use nfs.V4.Transfer.{
  ExchangeIdResult, CreateSessionResult, WriteResult, WriteResponse, CopyResult, ReadPlusResult,
  GetDeviceListResult, ReadPlusContent, data_at, hole,
}
use nfs.V4.Response
use nfs.V4.Response.{OperationResult, CompoundResponse, DirEntry, op_name, status_of}

-- `find_map(..).ok_or_else(..)?`: the first result that the closure answers.
abbrev pub find_answer {ℓ} :
    {A : Type ℓ}
    → String
    → (OperationResult → Option (Result Error A))
    → List OperationResult
    → Result Error A
find_answer missing pick [] = err (protocol missing)
find_answer missing pick (result ∷ results) =
    let rest = find_answer missing pick results in
    elim (pick result) [ none ↦ rest | some answer ↦ answer ]

-- A result without a value is refused with its status, also where that is OK.
abbrev pub granted {ℓ} : {A : Type ℓ} → String → Status → Option A → Result Error A
granted name status none = err (nfs_v4 name status)
granted name status (some value) =
    if Status.is_ok status then ok value else err (nfs_v4 name status)

-- Here a missing value in a result that is OK has an error of its own.
abbrev pub granted_or {ℓ} : {A : Type ℓ} → Error → String → Status → Option A → Result Error A
granted_or missing name status none =
    if Status.is_ok status then err missing else err (nfs_v4 name status)
granted_or missing name status (some value) =
    if Status.is_ok status then ok value else err (nfs_v4 name status)

unfoldable pub ensure_last_status : CompoundResponse → String → Result Error (Unit {0})
unfolding status_of
ensure_last_status response operation = elim (last? response.results) [
  | none ↦ err (protocol "{operation} returned no result")
  | some result ↦
      if Status.is_ok (status_of result) then ok tt else err (nfs_v4 operation (status_of result))
]

-- The setup of a session looks at the first result only.
abbrev pub first_granted {ℓ} :
    {A : Type ℓ}
    → Error
    → Error
    → (OperationResult → Option A)
    → Option OperationResult
    → Result Error A
first_granted failed missing value none = err missing
first_granted failed missing value (some result) = elim (value result) [
  | none ↦ err failed
  | some a ↦ if Status.is_ok (status_of result) then ok a else err failed
]

abbrev pub exchange_id_value : OperationResult → Option ExchangeIdResult
exchange_id_value (OperationResult.exchange_id status result) = result
exchange_id_value _ = none

unfoldable pub response_exchange_id : CompoundResponse → Result Error ExchangeIdResult
unfolding status_of
response_exchange_id response =
    first_granted (protocol "EXCHANGE_ID failed with {:?}")
      (protocol "EXCHANGE_ID returned no result") exchange_id_value (first? response.results)

abbrev pub create_session_value : OperationResult → Option CreateSessionResult
create_session_value (OperationResult.create_session status result) = result
create_session_value _ = none

unfoldable pub response_create_session : CompoundResponse → Result Error CreateSessionResult
unfolding status_of
response_create_session response =
    first_granted (protocol "CREATE_SESSION failed with {:?}")
      (protocol "CREATE_SESSION returned no result") create_session_value (first? response.results)

abbrev pub cleanup_error : Error → String → Result Error (Unit {0}) → Error
cleanup_error error cleanup_context (ok _) = error
cleanup_error error cleanup_context (err failure) = cleanup cleanup_context error failure
