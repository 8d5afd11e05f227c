-- ===== src/V4/Opening/Opens.antt =====
-- src/v4/blocking.rs: the loop that opens a file, `open_with_owner_failure_cleanup`.
use nfs.Prelude.{
  ℕ, zero, suc, ◌+◌, ◌/◌, ◌%◌, ◌==◌, if◌then◌else◌, Bool, true, false, Option, none, some, List, [],
  ◌∷◌, ◌++◌,
}
use nfs.Prelude.Outcome.{Result, ok, err}
use nfs.Prelude.Exec.{pure, raise, lift, attempt, ◌>>=◌, ◌>>◌}
use nfs.Error.{Error, protocol}
use nfs.V4.OpCode.{OpCode}
use nfs.V4.Args.{Bytes, StateId, OpenHow, OpenResult, OpenClaim}
use nfs.V4.Operation.{Operation}
use nfs.V4.Response.{CompoundResponse, ensure_ok}
use nfs.V4.Policy.{response_consumed_owner_seqid}
use nfs.V4.Extract.States.{response_open, response_getfh, validate_open_result}
use nfs.V4.Paths.{split_parent, lookups}
use nfs.V4.Files.{OpenedFile}
use nfs.V4.Opening.{
  Owner, OpenFailureCleanup, Verdict, Owning, asking, next_open_seqid, verdict, sent,
  close_state_by_path, cleanup_failed_open, fail_open, close, return_open_delegation,
}

-- `share_access | OPEN4_SHARE_ACCESS_WANT_NO_DELEG`: the bit 0x400 is set.
abbrev with_no_deleg : ℕ → ℕ
with_no_deleg share_access =
    if (share_access / 1024) % 2 == 1 then share_access else share_access + 1024

module _ {ℓ} {E : Type ℓ} (client : Owner E) where
  unfoldable pub cleanup_open_response :
      Bytes → CompoundResponse → Error → OpenFailureCleanup → Owning client Error
  unfolding close_state_by_path cleanup_failed_open
  cleanup_open_response path response error cleanup = elim (response_open response) [
    | ok opening ↦ do
      close_result ← attempt (close_state_by_path client path opening.stateid)
      cleanup_failed_open client path error close_result cleanup
    | err e ↦ pure error
  ]

  abbrev pub open_operations : List Bytes × Bytes → ℕ → OpenHow → Bytes → ℕ → ℕ → List Operation
  open_operations parts share_access openhow owner client_id seqid =
      Operation.put_root_fh
      ∷ (lookups parts.0
          ++ (Operation.open_file (record {
            seqid = seqid;
            share_access = with_no_deleg share_access;
            share_deny = 0;
            owner = record { client_id = client_id; owner = owner };
            openhow = openhow;
            claim = OpenClaim.null parts.1;
          })
              ∷ Operation.get_fh
              ∷ []))

  -- a delegation that came against WANT_NO_DELEG is given back
  abbrev pub without_delegation :
      Bytes
      → OpenFailureCleanup
      → OpenedFile
      → Result Error (Option StateId)
      → Owning client OpenedFile
  without_delegation path cleanup opened (err error) =
      fail_open client path cleanup error (close client opened)
  without_delegation path cleanup opened (ok none) = pure opened
  without_delegation path cleanup opened (ok (some stateid)) =
      attempt (return_open_delegation client opened.handle stateid) >>= returned
    where
      returned : Result Error (Unit {0}) → Owning client OpenedFile
      returned (ok _) = pure opened
      returned (err error) = fail_open client path cleanup error (close client opened)

  abbrev pub with_handle :
      Bytes → OpenFailureCleanup → OpenResult → Result Error Bytes → Owning client OpenedFile
  with_handle path cleanup opening (err error) =
      fail_open client path cleanup error (close_state_by_path client path opening.stateid)
  with_handle path cleanup opening (ok handle) = do
    minor_version ← asking client (client.sender).minor_version
    without_delegation path cleanup (record { handle = handle; stateid = opening.stateid })
        (validate_open_result opening minor_version)

  -- a response to OPEN that is neither delayed nor lost its session
  abbrev pub opened_by :
      Bytes
      → OpenFailureCleanup
      → CompoundResponse
      → Result Error (Unit {0})
      → Owning client OpenedFile
  opened_by path cleanup response (err error) = do
    error' ← cleanup_open_response path response error cleanup
    raise error'
  opened_by path cleanup response (ok _) = do
    opening ← lift (response_open response)
    with_handle path cleanup opening (response_getfh response)

  abbrev pub after_open :
      (ℕ → Bool → Owning client OpenedFile)
      → Bytes
      → OpenFailureCleanup
      → ℕ
      → Bool
      → CompoundResponse
      → Verdict
      → Owning client OpenedFile
  after_open again path cleanup retry recovered response Verdict.delayed =
      again (suc retry) recovered
  after_open again path cleanup retry recovered response Verdict.recovers =
      client.recover_session >> again retry true
  after_open again path cleanup retry recovered response Verdict.done =
      opened_by path cleanup response (ensure_ok response)

  abbrev pub open_received :
      (ℕ → Bool → Owning client OpenedFile)
      → Bytes
      → OpenFailureCleanup
      → ℕ
      → Bool
      → CompoundResponse
      → Owning client OpenedFile
  open_received again path cleanup retry recovered response = do
    next_open_seqid client (response_consumed_owner_seqid response OpCode.open_file)
    v ← verdict client OpCode.open_file retry recovered response
    after_open again path cleanup retry recovered response v

  -- A round is a first attempt, a granted retry, or follows the one recovery.
  unfoldable pub open_from :
      ℕ
      → Bytes
      → List Bytes × Bytes
      → ℕ
      → OpenHow
      → OpenFailureCleanup
      → Bytes
      → ℕ
      → Bool
      → Owning client OpenedFile
  unfolding cleanup_open_response close close_state_by_path cleanup_failed_open
  open_from zero path parts share_access openhow cleanup owner retry recovered =
      raise (protocol "NFSv4 OPEN retries")
  open_from (suc fuel) path parts share_access openhow cleanup owner retry recovered = do
    client_id ← asking client (client.sender).client_id
    seqid ← asking client (λ s. s.open_seqid)
    answer ← attempt (
        (client.sender).compound_status
          (open_operations parts share_access openhow owner client_id seqid))
    sent client recovered (open_from fuel path parts share_access openhow cleanup owner retry true)
        (open_received (open_from fuel path parts share_access openhow cleanup owner) path cleanup
          retry recovered)
        answer

  unfoldable pub open_with_owner_failure_cleanup :
      Bytes → ℕ → OpenHow → OpenFailureCleanup → Bytes → Owning client OpenedFile
  unfolding open_from
  open_with_owner_failure_cleanup path share_access openhow cleanup owner = do
    parts ← lift (split_parent path)
    policy ← asking client client.retry_policy
    open_from (policy.max_retries + 2) path parts share_access openhow cleanup owner 0 false

  unfoldable pub open_with_owner : Bytes → ℕ → OpenHow → Bytes → Owning client OpenedFile
  unfolding open_with_owner_failure_cleanup
  open_with_owner path share_access openhow owner =
      open_with_owner_failure_cleanup path share_access openhow OpenFailureCleanup.keep_path owner
