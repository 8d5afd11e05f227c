-- ===== src/V4/Opening/Locking.antt =====
-- src/v4/blocking.rs: the taking and the release of byte-range locks, with their place in the registry.
use nfs.Prelude.{ℕ, Bool, true, false, Option, none, some, List, [], ◌∷◌, ◌==◌}
use nfs.Prelude.Outcome
use nfs.Prelude.Outcome.{Result, ok, err}
use nfs.Prelude.Exec.{Exec, pure, raise, lift, attempt, ◌>>=◌, ◌>>◌}
use nfs.Error.{Error, lock_lost}
use nfs.V4.OpCode
use nfs.V4.Status.{Status}
use nfs.V4.Args.{Bytes, Xdr, StateId, LockType, OpenHow, Locker}
use nfs.V4.Operation.{Operation}
use nfs.V4.Response.{CompoundResponse}
use nfs.V4.Policy.{response_consumed_owner_seqid, response_operation_has_delayed_status}
use nfs.V4.Locks
use nfs.V4.Locks.{LockState, ByteRangeLock}
use nfs.V4.Setup.{advance, retrying}
use nfs.V4.Setup.Options.{validate_opaque_id}
use nfs.V4.Extract.{cleanup_error}
use nfs.V4.Extract.States.{
  response_lock, response_lock_unlock, response_lock_test, response_release_lock_owner,
}
use nfs.V4.Paths.{path_ops}
use nfs.V4.Files.{OpenedFile, finish_with_close}
use nfs.V4.Calls
use nfs.V4.Calls.{Sender}
use nfs.V4.Recovery.{lock_share_access}
use nfs.V4.Opening.{Holder, Owner, Owning, asking, next_open_seqid, close}
use nfs.V4.Opening.Opens.{open_with_owner}

-- The arguments of a lock call.
pub record Range : Type 0 where
  pub lock_type : LockType
  pub offset : ℕ
  pub range_length : ℕ

abbrev pub advanced_if : Bool → ℕ → ℕ
advanced_if true seqid = advance seqid
advanced_if false seqid = seqid

module _ {ℓ} {E : Type ℓ} (client : Owner E) where
  abbrev lock_operations : OpenedFile → Range → Bytes → ℕ → ℕ → ℕ → List Operation
  lock_operations opened range owner client_id open_seqid lock_seqid =
      Operation.put_fh opened.handle
      ∷ Operation.lock (record {
        lock_type = range.lock_type;
        reclaim = false;
        offset = range.offset;
        range_length = range.range_length;
        locker =
            Locker.new open_seqid opened.stateid lock_seqid
              (record { client_id = client_id; owner = owner });
      })
      ∷ []

  -- what a response to LOCK does to the two seqids
  abbrev consumed :
      ℕ → Result Error CompoundResponse → Holder E → Result Error CompoundResponse × (ℕ × Holder E)
  consumed lock_seqid (err e) s = (err e, (lock_seqid, s))
  consumed lock_seqid (ok response) s = (
    ok response,
    (
      advanced_if (response_consumed_owner_seqid response OpCode.lock) lock_seqid,
      record s {
        open_seqid = advanced_if (response_consumed_owner_seqid response OpCode.lock) s.open_seqid;
      },
    ),
  )

  -- one LOCK, on the lock seqid and the client
  unfoldable pub lock_round :
      OpenedFile → Range → Bytes → Exec (ℕ × Holder E) Error CompoundResponse
  lock_round opened range owner (lock_seqid, s) =
      let answer =
        (client.sender).compound_status
          (lock_operations opened range owner ((client.sender).client_id s) s.open_seqid lock_seqid)
          s in
      consumed lock_seqid answer.0 answer.1

  abbrev granted_lock :
      Result Error CompoundResponse × (ℕ × Holder E) → Result Error (StateId × ℕ) × Holder E
  granted_lock (answer, (lock_seqid, s)) = (
    Outcome.◌>>=◌ answer
        (λ response. Outcome.◌>>=◌ (response_lock response) (λ stateid. ok (stateid, lock_seqid))),
    s,
  )

  unfoldable pub lock_opened : OpenedFile → Range → Bytes → Owning client (StateId × ℕ)
  unfolding lock_round retrying
  lock_opened opened range owner s = granted_lock (
      retrying (λ response. response_operation_has_delayed_status response OpCode.lock)
        (lock_round opened range owner) (client.retry_policy s) (client.retry_policy s).max_retries
        0 (1, s))

  abbrev pub unlock_operations : LockState → ℕ → List Operation
  unlock_operations lock lock_seqid =
      Operation.put_fh lock.handle
      ∷ Operation.lock_unlock (record {
        lock_type = lock.lock_type;
        seqid = lock_seqid;
        lock_stateid = lock.lock_stateid;
        offset = lock.offset;
        range_length = lock.range_length;
      })
      ∷ []

  abbrev pub unlocked :
      ℕ → Result Error CompoundResponse → Holder E → Result Error CompoundResponse × (ℕ × Holder E)
  unlocked lock_seqid (err e) s = (err e, (lock_seqid, s))
  unlocked lock_seqid (ok response) s = (
    ok response,
    (advanced_if (response_consumed_owner_seqid response OpCode.locku) lock_seqid, s),
  )

  -- one LOCKU, on the lock seqid and the client
  unfoldable pub unlock_round : LockState → Exec (ℕ × Holder E) Error CompoundResponse
  unlock_round lock (lock_seqid, s) =
      let answer = (client.sender).compound_status (unlock_operations lock lock_seqid) s in
      unlocked lock_seqid answer.0 answer.1

  unfoldable pub unlock_opened : LockState → Owning client StateId
  unfolding unlock_round retrying
  unlock_opened lock s =
      let done =
        retrying (λ response. response_operation_has_delayed_status response OpCode.locku)
          (unlock_round lock) (client.retry_policy s) (client.retry_policy s).max_retries 0
          (lock.lock_seqid, s) in
      (Outcome.◌>>=◌ done.0 response_lock_unlock, (done.1).1)

  unfoldable pub test_lock_with_owner : Bytes → Range → Bytes → Owning client (Option Xdr)
  test_lock_with_owner path range owner = do
    lift (validate_opaque_id owner)
    client_id ← asking client (client.sender).client_id
    operations ← lift (
        path_ops path (
          Operation.lock_test (record {
            lock_type = range.lock_type;
            offset = range.offset;
            range_length = range.range_length;
            owner = record { client_id = client_id; owner = owner };
          })
          ∷ []))
    response ← (client.sender).compound_status operations
    lift (response_lock_test response)

  unfoldable pub release_lock_owner : Bytes → Owning client Bool
  release_lock_owner owner = do
    lift (validate_opaque_id owner)
    client_id ← asking client (client.sender).client_id
    response ←
        (client.sender).compound_status
          (Operation.release_lock_owner (record { client_id = client_id; owner = owner }) ∷ [])
    lift (response_release_lock_owner response)

  abbrev pub registering : LockState → Owning client ByteRangeLock
  registering state s =
      let done = Locks.register s.locks state in (ok done.0, record s { locks = done.1 })

  -- what a LOCK that was granted, or refused, leads to
  abbrev pub settled :
      OpenedFile → Range → Bytes → Bytes → Result Error (StateId × ℕ) → Owning client ByteRangeLock
  settled opened range owner open_owner (ok (lock_stateid, lock_seqid)) = do
    client_id ← asking client (client.sender).client_id
    registering (record {
      client_id = client_id;
      open_owner = open_owner;
      handle = opened.handle;
      open_stateid = opened.stateid;
      lock_stateid = lock_stateid;
      lock_seqid = lock_seqid;
      lock_type = range.lock_type;
      offset = range.offset;
      range_length = range.range_length;
      owner = owner;
      lost = none;
    })
  settled opened range owner open_owner (err e) = do
    closed ← attempt (close client opened)
    raise (cleanup_error e "cleanup CLOSE after failed LOCK" closed)

  -- with the open owner that `default_open_owner` makes of the clock and the process
  unfoldable pub lock_with_owner : Bytes → Bytes → Range → Bytes → Owning client ByteRangeLock
  unfolding lock_opened
  lock_with_owner open_owner path range owner = do
    lift (validate_opaque_id owner)
    opened ←
        open_with_owner client path (lock_share_access range.lock_type) OpenHow.no_create open_owner
    result ← attempt (lock_opened opened range owner)
    settled opened range owner open_owner result

  abbrev pub forgetting : ByteRangeLock → Owning client (Unit {0})
  forgetting lock s = (ok tt, record s { locks = Locks.remove s.locks lock })

  -- The open of a lost lock is closed where it is one of this client's, whatever comes of that.
  abbrev pub close_lost : Bool → LockState → Owning client (Unit {0})
  close_lost false state = pure tt
  close_lost true state = do
    seqid ← asking client (λ s. s.open_seqid)
    closed ← attempt (
        client.recovery_compound
          (Operation.put_fh state.handle ∷ Operation.close seqid state.open_stateid ∷ []))
    next_open_seqid client true

  abbrev pub release_range : LockState → Owning client (Unit {0})
  release_range state = do
    stateid ← unlock_opened state
    Calls.free_stateid client.sender stateid
    released ← release_lock_owner state.owner
    pure tt

  abbrev pub release_held : LockState → Option Status → Owning client (Unit {0})
  release_held state (some status) = do
    client_id ← asking client (client.sender).client_id
    close_lost (state.client_id == client_id) state
    raise (lock_lost status)
  release_held state none = do
    result ← attempt (release_range state)
    close_result ←
        attempt (close client (record { handle = state.handle; stateid = state.open_stateid }))
    lift (finish_with_close result close_result)

  -- The lock is forgotten before anything is sent.
  unfoldable pub unlock : ByteRangeLock → Owning client (Unit {0})
  unfolding unlock_opened release_lock_owner
  unlock lock = do
    registry ← asking client (λ s. s.locks)
    state ← lift (Locks.get registry lock)
    forgetting lock
    release_held state state.lost
