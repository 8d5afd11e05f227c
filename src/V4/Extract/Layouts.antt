-- ===== src/V4/Extract/Layouts.antt =====
-- src/v4/client.rs: the results of the delegation, pNFS layout and hint operations.
use nfs.Prelude.{Option, none, some}
use nfs.Prelude.Outcome.{Result}
use nfs.Error.{Error, protocol}
use nfs.V4.Args.{Xdr, OpenDelegation}
use nfs.V4.Transfer.{GetDeviceListResult}
use nfs.V4.Response.{OperationResult, CompoundResponse}
use nfs.V4.Extract.{find_answer, granted, granted_or}

abbrev pub io_advise_answer : OperationResult → Option (Result Error (Xdr))
io_advise_answer (OperationResult.io_advise status result) =
    some (granted "IO_ADVISE" status result)
io_advise_answer _ = none

unfoldable pub response_io_advise : CompoundResponse → Result Error (Xdr)
response_io_advise response =
    find_answer "COMPOUND did not include IO_ADVISE result" io_advise_answer response.results

abbrev pub copy_notify_answer : OperationResult → Option (Result Error (Xdr))
copy_notify_answer (OperationResult.copy_notify status result) = some (
    granted_or (protocol "NFSv4 COPY_NOTIFY returned OK without a result") "COPY_NOTIFY" status
      result)
copy_notify_answer _ = none

unfoldable pub response_copy_notify : CompoundResponse → Result Error (Xdr)
response_copy_notify response =
    find_answer "COMPOUND did not include COPY_NOTIFY result" copy_notify_answer response.results

abbrev pub offload_status_answer : OperationResult → Option (Result Error (Xdr))
offload_status_answer (OperationResult.offload_status status result) = some (
    granted_or (protocol "NFSv4 OFFLOAD_STATUS returned OK without a result") "OFFLOAD_STATUS"
      status result)
offload_status_answer _ = none

unfoldable pub response_offload_status : CompoundResponse → Result Error (Xdr)
response_offload_status response =
    find_answer "COMPOUND did not include OFFLOAD_STATUS result" offload_status_answer
      response.results

abbrev pub get_device_info_answer : OperationResult → Option (Result Error (Xdr))
get_device_info_answer (OperationResult.get_device_info status result min_count) = some (
    granted_or
      (protocol "NFSv4 GETDEVICEINFO returned OK without a result (min_count={min_count:?})")
      "GETDEVICEINFO" status result)
get_device_info_answer _ = none

unfoldable pub response_get_device_info : CompoundResponse → Result Error (Xdr)
response_get_device_info response =
    find_answer "COMPOUND did not include GETDEVICEINFO result" get_device_info_answer
      response.results

abbrev pub get_device_list_answer : OperationResult → Option (Result Error (GetDeviceListResult))
get_device_list_answer (OperationResult.get_device_list status result) = some (
    granted_or (protocol "NFSv4 GETDEVICELIST returned OK without a result") "GETDEVICELIST" status
      result)
get_device_list_answer _ = none

unfoldable pub response_get_device_list : CompoundResponse → Result Error (GetDeviceListResult)
response_get_device_list response =
    find_answer "COMPOUND did not include GETDEVICELIST result" get_device_list_answer
      response.results

abbrev pub get_dir_delegation_answer : OperationResult → Option (Result Error (Xdr))
get_dir_delegation_answer (OperationResult.get_dir_delegation status result) = some (
    granted_or (protocol "NFSv4 GET_DIR_DELEGATION returned OK without a result")
      "GET_DIR_DELEGATION" status result)
get_dir_delegation_answer _ = none

unfoldable pub response_get_dir_delegation : CompoundResponse → Result Error (Xdr)
response_get_dir_delegation response =
    find_answer "COMPOUND did not include GET_DIR_DELEGATION result" get_dir_delegation_answer
      response.results

abbrev pub want_delegation_answer : OperationResult → Option (Result Error (OpenDelegation))
want_delegation_answer (OperationResult.want_delegation status delegation) = some (
    granted_or (protocol "NFSv4 WANT_DELEGATION returned OK without a delegation") "WANT_DELEGATION"
      status delegation)
want_delegation_answer _ = none

unfoldable pub response_want_delegation : CompoundResponse → Result Error (OpenDelegation)
response_want_delegation response =
    find_answer "COMPOUND did not include WANT_DELEGATION result" want_delegation_answer
      response.results

abbrev pub layout_commit_answer : OperationResult → Option (Result Error (Xdr))
layout_commit_answer (OperationResult.layout_commit status result) = some (
    granted_or (protocol "NFSv4 LAYOUTCOMMIT returned OK without a result") "LAYOUTCOMMIT" status
      result)
layout_commit_answer _ = none

unfoldable pub response_layout_commit : CompoundResponse → Result Error (Xdr)
response_layout_commit response =
    find_answer "COMPOUND did not include LAYOUTCOMMIT result" layout_commit_answer response.results

abbrev pub layout_get_answer : OperationResult → Option (Result Error (Xdr))
layout_get_answer (OperationResult.layout_get status result will_signal) = some (
    granted_or
      (protocol
        "NFSv4 LAYOUTGET returned OK without a result (will_signal_layout_avail={will_signal_layout_avail:?})")
      "LAYOUTGET" status result)
layout_get_answer _ = none

unfoldable pub response_layout_get : CompoundResponse → Result Error (Xdr)
response_layout_get response =
    find_answer "COMPOUND did not include LAYOUTGET result" layout_get_answer response.results

abbrev pub layout_return_answer : OperationResult → Option (Result Error (Xdr))
layout_return_answer (OperationResult.layout_return status result) = some (
    granted_or (protocol "NFSv4 LAYOUTRETURN returned OK without a result") "LAYOUTRETURN" status
      result)
layout_return_answer _ = none

unfoldable pub response_layout_return : CompoundResponse → Result Error (Xdr)
response_layout_return response =
    find_answer "COMPOUND did not include LAYOUTRETURN result" layout_return_answer response.results
