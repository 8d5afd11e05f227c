-- ===== src/V4/Opening.antt =====
-- src/v4/blocking.rs: the closing of files, and what opening and closing share: their requests carry the seqid
-- of the open owner.
--
-- The sending of a COMPOUND and the recovery of the session stand as an interface. A sleep is left out.
pub mod Opens
pub mod Locking
pub mod Releases
pub mod Rounds
pub mod Attempts
pub mod Runs
use nfs.Prelude.{
  ℕ, zero, suc, ◌+◌, Bool, true, false, ◌&&◌, not, Option, none, some, List, [], ◌∷◌, ◌++◌,
}
use nfs.Prelude.Outcome
use nfs.Prelude.Outcome.{Result, ok, err}
use nfs.Prelude.Exec.{Exec, pure, raise, lift, attempt, ◌>>=◌, ◌>>◌}
use nfs.Error.{Error, protocol, is_session_recoverable}
use nfs.Retry
use nfs.Retry.{RetryPolicy}
use nfs.V4.OpCode
use nfs.V4.OpCode.{OpCode}
use nfs.V4.Args.{Bytes, StateId, OpenHow, OpenResult, OpenClaim}
use nfs.V4.Operation
use nfs.V4.Operation.{Operation}
use nfs.V4.Response.{CompoundResponse, ensure_ok}
use nfs.V4.Policy.{
  response_consumed_owner_seqid, response_operation_has_delayed_status,
  response_operation_requires_session_recovery,
}
use nfs.V4.Locks.{LockRegistry}
use nfs.V4.Setup.{advance, is_granted}
use nfs.V4.Extract.{cleanup_error, ensure_last_status}
use nfs.V4.Extract.States.{response_open, response_getfh, validate_open_result}
use nfs.V4.Paths.{split_parent, path_ops, lookups}
use nfs.V4.Files.{OpenedFile}
use nfs.V4.Calls
use nfs.V4.Calls.{Sender}

-- The client, with what its methods keep themselves: the seqid of the open owner and the locks.
pub record Holder {ℓ} (E : Type ℓ) : Type ℓ where
  pub open_seqid : ℕ
  pub locks : LockRegistry
  pub rest : E

pub record Owner {ℓ} (E : Type ℓ) : Type ℓ where
  pub sender : Sender (Holder E)
  pub recover_session : Exec (Holder E) Error (Unit {0})
  pub recovery_compound : List Operation → Exec (Holder E) Error CompoundResponse
  pub retry_policy : Holder E → RetryPolicy

pub data OpenFailureCleanup : Type 0 where
  keep_path remove_path : OpenFailureCleanup

-- What a round of a loop does behind its response.
pub data Verdict : Type 0 where
  delayed recovers done : Verdict

unfoldable pub open_cleanup_error : Error → Result Error (Unit {0}) → Error
open_cleanup_error error close_result =
    cleanup_error error "cleanup CLOSE after failed OPEN post-processing" close_result

module _ {ℓ} {E : Type ℓ} (client : Owner E) where
  abbrev pub Owning {κ} : Type κ → Type (ℓ ⊔ κ)
  Owning A = Exec (Holder E) Error A

  abbrev pub asking {κ} : {A : Type κ} → (Holder E → A) → Owning A
  asking field s = (ok (field s), s)

  abbrev pub next_open_seqid : Bool → Owning (Unit {0})
  next_open_seqid true s = (ok tt, record s { open_seqid = advance s.open_seqid })
  next_open_seqid false s = (ok tt, s)

  abbrev pub verdict_of : Bool → Bool → Verdict
  verdict_of true lost = Verdict.delayed
  verdict_of false true = Verdict.recovers
  verdict_of false false = Verdict.done

  -- the guards behind a response, in their order
  abbrev pub verdict : OpCode → ℕ → Bool → CompoundResponse → Owning Verdict
  verdict op retry recovered response = do
    policy ← asking client.retry_policy
    pure (
        verdict_of
          (response_operation_has_delayed_status response op
            && is_granted (Retry.delay_for_retry policy retry))
          (response_operation_requires_session_recovery response op && not recovered))

  -- after a COMPOUND that failed: a recovered session lets the request be sent once more
  abbrev pub once_more {κ} : {A : Type κ} → Bool → Error → Owning A → Owning A
  once_more true e again = again
  once_more false e again = raise e

  abbrev pub sent {κ} :
      {A : Type κ}
      → Bool
      → Owning A
      → (CompoundResponse → Owning A)
      → Result Error CompoundResponse
      → Owning A
  sent recovered again received (ok response) = received response
  sent recovered again received (err e) =
      once_more (is_session_recoverable e && not recovered) e again

  abbrev pub close_operations : List Operation → StateId → ℕ → List Operation
  close_operations operations stateid seqid = operations ++ (Operation.close seqid stateid ∷ [])

  abbrev pub closed : CompoundResponse → Result Error (Unit {0})
  closed response = Outcome.◌>>◌ (ensure_ok response) (ensure_last_status response "CLOSE")

  -- `ensure_ok().err().unwrap_or_else(..)`
  abbrev pub recovery_cause : Result Error (Unit {0}) → Error
  recovery_cause (ok _) = protocol "CLOSE required session recovery but response was OK"
  recovery_cause (err e) = e

  abbrev pub after_close :
      (ℕ → Owning (Unit {0})) → ℕ → CompoundResponse → Verdict → Owning (Unit {0})
  after_close again retry response Verdict.delayed = again (suc retry)
  after_close again retry response Verdict.recovers =
      client.recover_session >> raise (recovery_cause (ensure_ok response))
  after_close again retry response Verdict.done = lift (closed response)

  abbrev pub close_received :
      (ℕ → Owning (Unit {0})) → ℕ → Bool → CompoundResponse → Owning (Unit {0})
  close_received again retry recovered response = do
    next_open_seqid (response_consumed_owner_seqid response OpCode.close)
    v ← verdict OpCode.close retry recovered response
    after_close again retry response v

  -- A round is a first attempt, a granted retry, or follows the one recovery.
  unfoldable pub close_from : ℕ → List Operation → StateId → ℕ → Bool → Owning (Unit {0})
  close_from zero operations stateid retry recovered = raise (protocol "NFSv4 CLOSE retries")
  close_from (suc fuel) operations stateid retry recovered = do
    seqid ← asking (λ s. s.open_seqid)
    answer ← attempt ((client.sender).compound_status (close_operations operations stateid seqid))
    sent recovered (close_from fuel operations stateid retry true)
        (close_received (λ retry'. close_from fuel operations stateid retry' recovered) retry
          recovered)
        answer

  unfoldable pub close_with_current_filehandle : List Operation → StateId → Owning (Unit {0})
  unfolding close_from
  close_with_current_filehandle operations stateid = do
    policy ← asking client.retry_policy
    close_from (policy.max_retries + 2) operations stateid 0 false

  unfoldable pub close : OpenedFile → Owning (Unit {0})
  unfolding close_with_current_filehandle
  close opened = close_with_current_filehandle (Operation.put_fh opened.handle ∷ []) opened.stateid

  unfoldable pub close_state_by_path : Bytes → StateId → Owning (Unit {0})
  unfolding close_with_current_filehandle
  close_state_by_path path stateid = do
    prefix ← lift (path_ops path [])
    close_with_current_filehandle prefix stateid

  unfoldable pub cleanup_failed_open :
      Bytes → Error → Result Error (Unit {0}) → OpenFailureCleanup → Owning Error
  cleanup_failed_open path error close_result OpenFailureCleanup.keep_path =
      pure (open_cleanup_error error close_result)
  cleanup_failed_open path error close_result OpenFailureCleanup.remove_path = do
    removed ← attempt (Calls.remove client.sender path)
    pure (
        cleanup_error (open_cleanup_error error close_result)
          "cleanup REMOVE after failed OPEN post-processing" removed)

  -- `return Err(self.cleanup_failed_open(..))` behind a close
  abbrev pub fail_open {κ} :
      {A : Type κ} → Bytes → OpenFailureCleanup → Error → Owning (Unit {0}) → Owning A
  fail_open path cleanup error closing = do
    close_result ← attempt closing
    error' ← cleanup_failed_open path error close_result cleanup
    raise error'

  abbrev pub return_open_delegation : Bytes → StateId → Owning (Unit {0})
  return_open_delegation handle stateid = do
    response ←
        (client.sender).compound (Operation.put_fh handle ∷ Operation.deleg_return stateid ∷ [])
    lift (ensure_last_status response "DELEGRETURN")
