-- ===== src/V4/Files.antt =====
-- src/v4/blocking.rs: the loops that read and write an open file.
--
-- The sending of a COMPOUND stands as an interface, with the sizes of the client; a local writer is a
-- `Vec<u8>`.
pub mod Reads
pub mod Contents
pub mod Writes
pub mod Runs
use nfs.Prelude.{
  ℕ, zero, suc, ◌+◌, ◌-◌, ◌^◌, Bool, true, false, ◌&&◌, not, Option, none, some, String, List, [],
  ◌∷◌, ◌++◌, min, ltb, ◌==◌, if◌then◌else◌, length, take, drop, bytes_eq,
}
use nfs.Prelude.Outcome
use nfs.Prelude.Outcome.{Result, ok, err}
use nfs.Prelude.Exec.{Exec, pure, raise, lift, attempt, ◌>>=◌, ◌>>◌}
use nfs.Error.{Error, protocol, cleanup}
use nfs.V4.Args.{Bytes, StateId, Fattr}
use nfs.V4.Transfer.{StableHow, WriteResult, CommitResult, satisfies}
use nfs.V4.Operation
use nfs.V4.Operation.{Operation}
use nfs.V4.Response.{CompoundResponse}
use nfs.V4.Replay.{is_empty}
use nfs.V4.Extract.{ensure_last_status, cleanup_error}
use nfs.V4.Extract.Transfers.{response_read, response_write, response_commit}

-- `Client::compound`, and the sizes that a recovery may change.
pub record Compounds {ℓ} (S : Type ℓ) : Type ℓ where
  pub compound : List Operation → Exec S Error CompoundResponse
  pub read_size : S → ℕ
  pub write_size : S → ℕ

pub record OpenedFile : Type 0 where
  pub handle : Bytes
  pub stateid : StateId

unfoldable pub finish_with_close {ℓ} :
    {A : Type ℓ} → Result Error A → Result Error (Unit {0}) → Result Error A
finish_with_close (ok value) close_result = Outcome.◌>>◌ close_result (ok value)
finish_with_close (err e) close_result =
    err (cleanup_error e "cleanup CLOSE after failed operation" close_result)

-- `checked_add` of a `u64`
unfoldable pub advance_offset : ℕ → ℕ → String → Result Error ℕ
advance_offset offset amount operation =
    if ltb (offset + amount) (2 ^ 64)
    then ok (offset + amount)
    else err (protocol "{operation} offset overflow")

module _ {ℓ} {S : Type ℓ} (client : Compounds S) (opened : OpenedFile) where
  abbrev pub On {κ} : Type κ → Type (ℓ ⊔ κ)
  On A = Exec S Error A

  abbrev pub asking {κ} : {A : Type κ} → (S → A) → On A
  asking field s = (ok (field s), s)

  abbrev pub unless_eof {κ} : {A : Type κ} → Bool → A → On A → On A
  unless_eof true done again = pure done
  unless_eof false done again = again

  abbrev pub read_operations : ℕ → ℕ → List Operation
  read_operations offset count =
      Operation.put_fh opened.handle ∷ Operation.read opened.stateid offset count ∷ []

  unfoldable pub read_opened_at : ℕ → ℕ → On (Bool × Bytes)
  read_opened_at offset count = do
    response ← client.compound (read_operations offset count)
    lift (response_read response count)

  -- What follows a read in `read_opened_to_end`.
  abbrev pub after_read : (ℕ → Bytes → On Bytes) → ℕ → Bytes → Bool × Bytes → On Bytes
  after_read again offset out (eof, []) = pure out
  after_read again offset out (eof, byte ∷ bytes) = do
    offset' ← lift (advance_offset offset (length (byte ∷ bytes)) "NFSv4 READ")
    unless_eof eof (out ++ (byte ∷ bytes)) (again offset' (out ++ (byte ∷ bytes)))

  -- Each round moves the offset on, which overflows before the fuel is gone.
  unfoldable pub read_to_end_from : ℕ → ℕ → Bytes → On Bytes
  unfolding read_opened_at advance_offset
  read_to_end_from zero offset out = raise (protocol "NFSv4 READ offset overflow")
  read_to_end_from (suc fuel) offset out = do
    count ← asking client.read_size
    answer ← read_opened_at offset count
    after_read (read_to_end_from fuel) offset out answer

  unfoldable pub read_opened_to_end : On Bytes
  unfolding read_to_end_from
  read_opened_to_end = read_to_end_from (2 ^ 64) 0 []

  -- What follows a read of a range, with what remains of it, and the total.
  abbrev pub after_range :
      (ℕ → ℕ → ℕ → Bytes → On (ℕ × Bytes)) → ℕ → ℕ → ℕ → Bytes → Bool × Bytes → On (ℕ × Bytes)
  after_range again offset remaining total out (eof, []) = pure (total, out)
  after_range again offset remaining total out (eof, byte ∷ bytes) = do
    offset' ← lift (advance_offset offset (length (byte ∷ bytes)) "NFSv4 READ")
    total' ← lift (advance_offset total (length (byte ∷ bytes)) "NFSv4 READ total")
    unless_eof eof (total', out ++ (byte ∷ bytes))
        (again offset' (remaining - length (byte ∷ bytes)) total' (out ++ (byte ∷ bytes)))

  -- Each round that goes on takes from what remains, which is the fuel.
  unfoldable pub read_range_from : ℕ → ℕ → ℕ → ℕ → Bytes → On (ℕ × Bytes)
  unfolding read_opened_at advance_offset
  read_range_from zero offset remaining total out = pure (total, out)
  read_range_from (suc fuel) offset zero total out = pure (total, out)
  read_range_from (suc fuel) offset (suc n) total out = do
    read_size ← asking client.read_size
    answer ← read_opened_at offset (min read_size (suc n))
    after_range (read_range_from fuel) offset (suc n) total out answer

  unfoldable pub read_opened_range_vec : ℕ → ℕ → On Bytes
  unfolding read_range_from
  read_opened_range_vec offset count = do
    done ← read_range_from count offset count 0 []
    pure done.1

  abbrev pub write_operations : ℕ → Bytes → List Operation
  write_operations offset chunk =
      Operation.put_fh opened.handle
      ∷ Operation.write opened.stateid offset StableHow.file_sync chunk
      ∷ []

  unfoldable pub commit_opened : ℕ → ℕ → On CommitResult
  commit_opened offset count = do
    response ← client.compound (Operation.put_fh opened.handle ∷ Operation.commit offset count ∷ [])
    lift (response_commit response)

  abbrev pub same_verifier : Bytes → Bytes → Result Error (Unit {0})
  same_verifier written committed =
      if bytes_eq committed written
      then ok tt
      else err (protocol "NFSv4 COMMIT verifier changed after unstable WRITE")

  abbrev pub commit_checked : ℕ → WriteResult → On (Unit {0})
  commit_checked offset result = do
    commit ← commit_opened offset result.count
    lift (same_verifier result.verifier commit.verifier)

  abbrev pub unless_stable : Bool → On (Unit {0}) → On (Unit {0})
  unless_stable true committing = pure tt
  unless_stable false committing = committing

  -- A WRITE that is not yet stable is committed.
  abbrev pub made_stable : ℕ → WriteResult → On (Unit {0})
  made_stable offset result =
      unless_stable (satisfies result.committed StableHow.file_sync) (commit_checked offset result)

  -- Each round that goes on writes some of the bytes; the fuel is their number.
  unfoldable pub write_from : ℕ → ℕ → Bytes → On (Unit {0})
  unfolding commit_opened advance_offset satisfies
  write_from zero offset [] = pure tt
  write_from zero offset (byte ∷ bytes) = raise (protocol "NFSv4 WRITE did not advance")
  write_from (suc fuel) offset [] = pure tt
  write_from (suc fuel) offset (byte ∷ bytes) = do
    write_size ← asking client.write_size
    response ←
        client.compound
          (write_operations offset (take (min (length (byte ∷ bytes)) write_size) (byte ∷ bytes)))
    result ← lift (response_write response (min (length (byte ∷ bytes)) write_size))
    made_stable offset result
    offset' ← lift (advance_offset offset result.count "NFSv4 WRITE")
    write_from fuel offset' (drop result.count (byte ∷ bytes))

  unfoldable pub write_opened_at : ℕ → Bytes → On (Unit {0})
  unfolding write_from
  write_opened_at offset bytes = write_from (length bytes) offset bytes

  unfoldable pub set_opened_attrs : Fattr → On (Unit {0})
  set_opened_attrs attrs = do
    response ←
        client.compound
          (Operation.put_fh opened.handle ∷ Operation.set_attr opened.stateid attrs ∷ [])
    lift (ensure_last_status response "SETATTR")
