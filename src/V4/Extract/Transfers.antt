-- ===== src/V4/Extract/Transfers.antt =====
-- src/v4/client.rs: the results of the operations that move data, with the checks of what the server
-- reports.
use nfs.Prelude.{
  ℕ, Bool, true, false, not, ◌&&◌, Option, none, some, String, List, [], ◌∷◌, ltb, ◌==◌,
  if◌then◌else◌, length,
}
use nfs.Prelude.Outcome.{Result, ok, err, ◌>>=◌, ◌>>◌}
use nfs.Xdr.{checked_add}
use nfs.Error.{Error, protocol, nfs_v4}
use nfs.V4.Status
use nfs.V4.Status.{Status}
use nfs.V4.OpCode.{OpCode}
use nfs.V4.Args.{Bytes, Xdr}
use nfs.V4.Transfer.{
  WriteResult, CommitResult, WriteResponse, CopyResult, ReadPlusResult, ReadPlusContent, data_at,
  hole,
}
use nfs.V4.Response.{OperationResult, CompoundResponse, DirEntry}
use nfs.V4.Extract.{find_answer, granted, granted_or}

abbrev pub is_none {ℓ} : {A : Type ℓ} → Option A → Bool
is_none none = true
is_none (some a) = false

unfoldable pub validate_read_result_size : ℕ → ℕ → Bool → Result Error (Unit {0})
validate_read_result_size requested_count data_len eof =
    if ltb requested_count data_len
    then err (protocol "NFSv4 READ returned {data_len} bytes for a {requested_count} byte request")
    else if ltb 0 requested_count && (data_len == 0 && not eof)
    then err (protocol "NFSv4 READ returned no data before EOF")
    else ok tt

abbrev pub content_len : ReadPlusContent → ℕ
content_len (data_at offset bytes) = length bytes
content_len (hole offset range) = range

-- the sum of the contents' lengths, from `returned` on
abbrev pub add_contents : ℕ → List ReadPlusContent → Result Error ℕ
add_contents returned [] = ok returned
add_contents returned (content ∷ contents) = elim (checked_add returned (content_len content)) [
  | none ↦ err (protocol "NFSv4 READ_PLUS returned content length overflow")
  | some total ↦ add_contents total contents
]

abbrev pub contents_within : ℕ → Bool → ℕ → Result Error (Unit {0})
contents_within requested_count eof returned =
    if ltb requested_count returned
    then err
        (protocol "NFSv4 READ_PLUS returned {returned} bytes for a {requested_count} byte request")
    else if ltb 0 requested_count && (returned == 0 && not eof)
    then err (protocol "NFSv4 READ_PLUS returned no content before EOF")
    else ok tt

unfoldable pub validate_read_plus_result : ℕ → ReadPlusResult → Result Error (Unit {0})
validate_read_plus_result requested_count result =
    add_contents 0 result.contents >>= contents_within requested_count result.eof

unfoldable pub validate_write_result_count : ℕ → ℕ → Result Error (Unit {0})
validate_write_result_count requested_count returned_count =
    if ltb requested_count returned_count
    then err (
        protocol "NFSv4 WRITE reported {returned_count} bytes for a {requested_count} byte request")
    else if ltb 0 requested_count && returned_count == 0
    then err (protocol "NFSv4 WRITE accepted zero bytes")
    else ok tt

unfoldable pub validate_u64_write_result_count : String → ℕ → ℕ → Result Error (Unit {0})
validate_u64_write_result_count operation requested_count returned_count =
    if ltb requested_count returned_count
    then err (
        protocol
          "NFSv4 {operation} reported {returned_count} bytes for a {requested_count} byte request")
    else if ltb 0 requested_count && returned_count == 0
    then err (protocol "NFSv4 {operation} accepted zero bytes")
    else ok tt

-- An asynchronous copy, which has a callback id, may have moved nothing yet.
abbrev pub copy_response_within : ℕ → WriteResponse → Result Error (Unit {0})
copy_response_within requested_count write =
    if ltb requested_count write.count
    then err (protocol "NFSv4 COPY reported {} bytes for a {requested_count} byte request")
    else if ltb 0 requested_count && (write.count == 0 && is_none write.callback_id)
    then err (protocol "NFSv4 COPY accepted zero bytes")
    else ok tt

unfoldable pub validate_copy_result : ℕ → CopyResult → Result Error (Unit {0})
validate_copy_result requested_count copy = elim copy.response [
  | none ↦ err (protocol "NFSv4 COPY returned OK without a write response")
  | some write ↦ copy_response_within requested_count write
]

abbrev pub read_answer : ℕ → OperationResult → Option (Result Error (Bool × Bytes))
read_answer requested_count (OperationResult.read status eof bytes) = some (
    if Status.is_ok status
    then validate_read_result_size requested_count (length bytes) eof >> ok (eof, bytes)
    else err (nfs_v4 "READ" status))
read_answer requested_count _ = none

unfoldable pub response_read : CompoundResponse → ℕ → Result Error (Bool × Bytes)
unfolding validate_read_result_size
response_read response requested_count =
    find_answer "COMPOUND did not include READ result" (read_answer requested_count)
      response.results

abbrev pub read_plus_answer : ℕ → OperationResult → Option (Result Error ReadPlusResult)
read_plus_answer requested_count (OperationResult.read_plus status result) = some (
    granted "READ_PLUS" status result >>= λ value.
    validate_read_plus_result requested_count value >> ok value)
read_plus_answer requested_count _ = none

unfoldable pub response_read_plus : CompoundResponse → ℕ → Result Error ReadPlusResult
unfolding validate_read_plus_result
response_read_plus response requested_count =
    find_answer "COMPOUND did not include READ_PLUS result" (read_plus_answer requested_count)
      response.results

abbrev pub write_answer : ℕ → OperationResult → Option (Result Error WriteResult)
write_answer requested_count (OperationResult.write status result) = some (
    granted "WRITE" status result >>= λ value.
    validate_write_result_count requested_count value.count >> ok value)
write_answer requested_count _ = none

unfoldable pub response_write : CompoundResponse → ℕ → Result Error WriteResult
unfolding validate_write_result_count
response_write response requested_count =
    find_answer "COMPOUND did not include WRITE result" (write_answer requested_count)
      response.results

abbrev pub copy_answer : ℕ → OperationResult → Option (Result Error CopyResult)
copy_answer requested_count (OperationResult.copy status result) = some (
    granted_or (protocol "NFSv4 COPY returned OK without a result") "COPY" status result
    >>= λ value. validate_copy_result requested_count value >> ok value)
copy_answer requested_count _ = none

unfoldable pub response_copy : CompoundResponse → ℕ → Result Error CopyResult
unfolding validate_copy_result
response_copy response requested_count =
    find_answer "COMPOUND did not include COPY result" (copy_answer requested_count)
      response.results

abbrev pub write_same_answer : ℕ → OperationResult → Option (Result Error WriteResponse)
write_same_answer requested_count (OperationResult.write_same status result) = some (
    granted "WRITE_SAME" status result >>= λ value.
    validate_u64_write_result_count "WRITE_SAME" requested_count value.count >> ok value)
write_same_answer requested_count _ = none

unfoldable pub response_write_same : CompoundResponse → ℕ → Result Error WriteResponse
unfolding validate_u64_write_result_count
response_write_same response requested_count =
    find_answer "COMPOUND did not include WRITE_SAME result" (write_same_answer requested_count)
      response.results

abbrev pub commit_answer : OperationResult → Option (Result Error CommitResult)
commit_answer (OperationResult.commit status result) = some (granted "COMMIT" status result)
commit_answer _ = none

unfoldable pub response_commit : CompoundResponse → Result Error CommitResult
response_commit response =
    find_answer "COMPOUND did not include COMMIT result" commit_answer response.results

abbrev pub seek_answer : OperationResult → Option (Result Error (Xdr))
seek_answer (OperationResult.seek status result) = some (granted "SEEK" status result)
seek_answer _ = none

unfoldable pub response_seek : CompoundResponse → Result Error (Xdr)
response_seek response =
    find_answer "COMPOUND did not include SEEK result" seek_answer response.results

abbrev pub readdir_answer : OperationResult → Option (Result Error (Bytes × (List DirEntry × Bool)))
readdir_answer (OperationResult.read_dir status cookieverf entries eof) =
    some (
      if Status.is_ok status
      then ok (cookieverf, (entries, eof))
      else err (nfs_v4 "READDIR" status))
readdir_answer _ = none

unfoldable pub response_readdir : CompoundResponse → Result Error (Bytes × (List DirEntry × Bool))
response_readdir response =
    find_answer "COMPOUND did not include READDIR result" readdir_answer response.results

-- the loop of `response_openattr_readdir`: an OPENATTR that failed ends it
abbrev pub openattr_readdir_from :
    Bool → List OperationResult → Result Error (Bytes × (List DirEntry × Bool))
openattr_readdir_from saw_openattr [] =
    if saw_openattr
    then err (protocol "COMPOUND did not include READDIR result after OPENATTR")
    else err (protocol "COMPOUND did not include OPENATTR result")
openattr_readdir_from saw_openattr (OperationResult.status_only OpCode.open_attr status ∷ results) =
    let rest = openattr_readdir_from true results in
    if Status.is_ok status then rest else err (nfs_v4 "OPENATTR" status)
openattr_readdir_from saw_openattr
      (OperationResult.read_dir status cookieverf entries eof ∷ results) =
    if Status.is_ok status then ok (cookieverf, (entries, eof)) else err (nfs_v4 "READDIR" status)
openattr_readdir_from saw_openattr (_ ∷ results) = openattr_readdir_from saw_openattr results

unfoldable pub response_openattr_readdir :
    CompoundResponse → Result Error (Bytes × (List DirEntry × Bool))
response_openattr_readdir response = openattr_readdir_from false response.results
