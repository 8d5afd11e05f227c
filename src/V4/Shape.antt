-- ===== src/V4/Shape.antt =====
-- src/v4/client.rs: `validate_compound_response_shape`, which every COMPOUND response has to pass. The
-- messages are the format strings.
use nfs.Prelude.{
  ℕ, suc, Bool, true, false, not, ◌&&◌, ◌||◌, Option, none, some, List, [], ◌∷◌, ltb, ◌==◌,
  if◌then◌else◌, length, get_elem?, position, bytes_eq,
}
use nfs.Prelude.Outcome.{Result, ok, err, ◌>>◌}
use nfs.Error.{Error, protocol}
use nfs.V4.Status
use nfs.V4.Status.{Status}
use nfs.V4.OpCode
use nfs.V4.OpCode.{OpCode}
use nfs.V4.Operation.{Bytes}
use nfs.V4.Response.{OperationResult, CompoundResponse, op_code, status_of}
use nfs.V4.Replay.{is_empty}

unfoldable pub compound_result_matches_expected : OperationResult → OpCode → Bool
compound_result_matches_expected result expected =
    OpCode.eq (op_code result) expected
    || (OpCode.eq (op_code result) OpCode.illegal && Status.eq (status_of result) Status.op_illegal)

-- the `for` loop over the results and the expected operations, zipped
unfoldable pub check_operations : List OperationResult → List OpCode → Result Error (Unit {0})
unfolding compound_result_matches_expected
check_operations [] expected = ok tt
check_operations (result ∷ results) [] = ok tt
check_operations (result ∷ results) (op ∷ expected) =
    let rest = check_operations results expected in
    if compound_result_matches_expected result op
    then rest
    else err (protocol "NFSv4 COMPOUND {tag:?} result {index} is {}, expected {}")

abbrev pub has_status : Option OperationResult → Status → Bool
has_status none status = false
has_status (some result) status = Status.eq (status_of result) status

-- the `match` on the status of the whole and the first failed result
unfoldable pub check_statuses : Bool → Option ℕ → CompoundResponse → Result Error (Unit {0})
check_statuses true (some index) response =
    err
      (protocol "NFSv4 COMPOUND {tag:?} has OK compound status but result {index} failed with {:?}")
check_statuses true none response = ok tt
check_statuses false (some index) response =
    if not (suc index == length response.results)
    then err (protocol "NFSv4 COMPOUND {tag:?} has non-final failed result {index} with {:?}")
    else if not (has_status (get_elem? response.results index) response.status)
    then err (protocol "NFSv4 COMPOUND {tag:?} status {:?} does not match final result status {:?}")
    else ok tt
check_statuses false none response =
    if not (is_empty response.results)
    then err (protocol "NFSv4 COMPOUND {tag:?} failed with {:?}, but all operation results were OK")
    else ok tt

abbrev pub failed_index : List OperationResult → Option ℕ
failed_index results = position (λ result. not (Status.is_ok (status_of result))) results

abbrev pub guard : Bool → Error → Result Error (Unit {0})
guard b e = if b then err e else ok tt

unfoldable pub validate_compound_response_shape :
    Bytes → List OpCode → CompoundResponse → Result Error (Unit {0})
unfolding check_operations check_statuses
validate_compound_response_shape tag expected response = do
  guard (not (bytes_eq response.tag tag))
      (protocol "NFSv4 COMPOUND response tag {:?} does not match request tag {tag:?}")
  guard (ltb (length expected) (length response.results))
      (protocol "NFSv4 COMPOUND {tag:?} returned {} operation results for {} requests")
  check_operations response.results expected
  guard (Status.is_ok response.status && not (length response.results == length expected))
      (protocol "NFSv4 COMPOUND {tag:?} succeeded with {} operation results for {} requests")
  check_statuses (Status.is_ok response.status) (failed_index response.results) response
