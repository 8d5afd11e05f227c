-- ===== src/V4/Recovery.antt =====
-- src/v4/blocking.rs: the recovery of a session: `recovery_compound`, and what is done with the locks,
-- `check_recovered_lock` and `reclaim_lock`.
pub mod Revoked
pub mod Rebuild
pub mod Asks
pub mod Reclaims
pub mod Gains
pub mod Steps
pub mod Keeps
pub mod Runs
use nfs.Prelude.{
  ℕ, zero, suc, ◌+◌, Bool, true, false, ◌||◌, Option, none, some, List, [], ◌∷◌, ◌==◌,
}
use nfs.Prelude.Outcome
use nfs.Prelude.Outcome.{Result, ok, err}
use nfs.Prelude.Exec.{Exec, pure, raise, lift, attempt, ◌>>=◌, ◌>>◌}
use nfs.Error.{Error, nfs_v4}
use nfs.Retry.{RetryPolicy}
use nfs.V4.Status
use nfs.V4.Status.{Status}
use nfs.V4.OpCode
use nfs.V4.OpCode.{OpCode}
use nfs.V4.Args
use nfs.V4.Args.{Bytes, StateId, OpenArgs, OpenResult, LockType, LockArgs}
use nfs.V4.Operation
use nfs.V4.Operation.{Operation}
use nfs.V4.Response.{CompoundResponse, ensure_ok}
use nfs.V4.Policy.{response_consumed_owner_seqid}
use nfs.V4.Extract.States.{
  response_open, response_lock, response_test_stateids, validate_open_result,
}
use nfs.V4.Locks
use nfs.V4.Locks.{LockState, LockRegistry}
use nfs.V4.Setup.{Network, Wire, advance, sequenced_compound}

-- The client of the recovery.
pub record Session {ℓ} (C N : Type ℓ) : Type ℓ where
  pub rpc : C
  pub client_id : ℕ
  pub session_id : Bytes
  pub sequence_id : ℕ
  pub open_seqid : ℕ
  pub minor_version : ℕ
  pub max_operations : ℕ
  pub retry_policy : RetryPolicy
  pub locks : LockRegistry
  pub wire : Wire N

abbrev pub recovery_tag : Bytes
recovery_tag =
    110 ∷ 102 ∷ 115 ∷ 45 ∷ 114 ∷ 115 ∷ 45 ∷ 114 ∷ 101 ∷ 99 ∷ 111 ∷ 118 ∷ 101 ∷ 114 ∷ 121 ∷ []

-- OPEN4_SHARE_ACCESS_READ is 1, OPEN4_SHARE_ACCESS_WRITE is 2.
unfoldable pub lock_share_access : LockType → ℕ
lock_share_access LockType.read = 1
lock_share_access LockType.read_blocking = 1
lock_share_access LockType.write = 2
lock_share_access LockType.write_blocking = 2

-- What the recovery takes for the loss of a lock.
unfoldable pub means_lost : Status → Bool
means_lost Status.stale = true
means_lost Status.fh_expired = true
means_lost Status.bad_handle = true
means_lost Status.no_ent = true
means_lost status = Status.indicates_lost_state status

-- The share access carries OPEN4_SHARE_ACCESS_WANT_NO_DELEG, 0x400.
abbrev pub reclaim_open : ℕ → ℕ → LockState → Operation
reclaim_open client_id open_seqid lock = Operation.open_file (record {
  seqid = open_seqid;
  share_access = lock_share_access lock.lock_type + 1024;
  share_deny = 0;
  owner = record { client_id = client_id; owner = lock.open_owner };
  openhow = Args.OpenHow.no_create;
  claim = Args.OpenClaim.previous Args.OpenDelegationType.no_delegation;
})

abbrev pub reclaim_range : ℕ → ℕ → StateId → LockState → Operation
reclaim_range client_id open_seqid open_stateid lock = Operation.lock (record {
  lock_type = lock.lock_type;
  reclaim = true;
  offset = lock.offset;
  range_length = lock.range_length;
  locker =
      Args.Locker.new open_seqid open_stateid 1
        (record { client_id = client_id; owner = lock.owner });
})

-- the first status that is not OK
abbrev pub first_refused : List Status → Result Error (Unit {0})
first_refused [] = ok tt
first_refused (status ∷ statuses) =
    let rest = first_refused statuses in
    elim (Status.is_ok status) [ true ↦ rest | false ↦ err (nfs_v4 "TEST_STATEID" status) ]

module _ {ℓ} {C N : Type ℓ} (network : Network C N) where
  abbrev pub Recovering {κ} : Type κ → Type (ℓ ⊔ κ)
  Recovering A = Exec (Session C N) Error A

  unfoldable pub recovery_compound : List Operation → Recovering CompoundResponse
  unfolding sequenced_compound
  recovery_compound operations s =
      let done =
        sequenced_compound network s.rpc recovery_tag s.minor_version s.session_id s.max_operations
          s.retry_policy operations (s.sequence_id, s.wire) in
      (done.0, record s { sequence_id = (done.1).0; wire = (done.1).1 })

  abbrev pub asking {κ} : {A : Type κ} → (Session C N → A) → Recovering A
  asking field s = (ok (field s), s)

  abbrev pub advance_open_seqid : Recovering (Unit {0})
  advance_open_seqid s = (ok tt, record s { open_seqid = advance s.open_seqid })

  abbrev pub when : Bool → Recovering (Unit {0}) → Recovering (Unit {0})
  when true action = action
  when false action = pure tt

  unfoldable pub check_recovered_lock : LockState → Recovering (Unit {0})
  unfolding recovery_compound
  check_recovered_lock lock = do
    response ←
        recovery_compound
          (Operation.test_state_ids (lock.open_stateid ∷ lock.lock_stateid ∷ []) ∷ [])
    lift (ensure_ok response)
    statuses ← lift (response_test_stateids response 2)
    lift (first_refused statuses)

  -- A delegation that the reclaiming OPEN brings is given back.
  abbrev pub return_delegation : LockState → Option StateId → Recovering (Unit {0})
  return_delegation lock none = pure tt
  return_delegation lock (some stateid) = do
    response ←
        recovery_compound (Operation.put_fh lock.handle ∷ Operation.deleg_return stateid ∷ [])
    lift (ensure_ok response)

  -- After a LOCK that failed, the file is closed again.
  abbrev pub close_after {κ} : {A : Type κ} → LockState → StateId → Error → Recovering A
  close_after lock open_stateid e = do
    open_seqid ← asking (λ s. s.open_seqid)
    closed ← attempt (
        recovery_compound
          (Operation.put_fh lock.handle ∷ Operation.close open_seqid open_stateid ∷ []))
    advance_open_seqid
    raise e

  abbrev pub reclaimed : LockState → StateId → StateId → Session C N → LockState
  reclaimed lock open_stateid lock_stateid s = record lock {
    client_id = s.client_id;
    open_stateid = open_stateid;
    lock_stateid = lock_stateid;
    lock_seqid = 2;
  }

  abbrev pub settle_lock : LockState → StateId → Result Error StateId → Recovering LockState
  settle_lock lock open_stateid (ok lock_stateid) =
      asking (reclaimed lock open_stateid lock_stateid)
  settle_lock lock open_stateid (err e) = close_after lock open_stateid e

  abbrev pub locked : CompoundResponse → Result Error StateId
  locked response = Outcome.◌>>◌ (ensure_ok response) (response_lock response)

  abbrev pub reclaim_opened : LockState → OpenResult → Recovering LockState
  reclaim_opened lock opened = do
    minor_version ← asking (λ s. s.minor_version)
    delegation ← lift (validate_open_result opened minor_version)
    return_delegation lock delegation
    client_id ← asking (λ s. s.client_id)
    open_seqid ← asking (λ s. s.open_seqid)
    response ←
        recovery_compound (
          Operation.put_fh lock.handle
          ∷ reclaim_range client_id open_seqid opened.stateid lock
          ∷ [])
    when (response_consumed_owner_seqid response OpCode.lock) advance_open_seqid
    settle_lock lock opened.stateid (locked response)

  unfoldable pub reclaim_lock : LockState → Recovering LockState
  unfolding recovery_compound
  reclaim_lock lock = do
    client_id ← asking (λ s. s.client_id)
    open_seqid ← asking (λ s. s.open_seqid)
    response ←
        recovery_compound
          (Operation.put_fh lock.handle ∷ reclaim_open client_id open_seqid lock ∷ [])
    when (response_consumed_owner_seqid response OpCode.open_file) advance_open_seqid
    lift (ensure_ok response)
    opened ← lift (response_open response)
    reclaim_opened lock opened

  abbrev pub restoring : ℕ → LockState → Recovering (Unit {0})
  restoring index lock s = (ok tt, record s { locks = Locks.restore s.locks index lock })

  abbrev pub mark_or_raise : Bool → ℕ → LockState → Error → Status → Recovering (Unit {0})
  mark_or_raise true index lock e status = restoring index (record lock { lost = some status })
  mark_or_raise false index lock e status = raise e

  -- what the error of a check or a reclaim does to the lock
  abbrev pub after_refusal : ℕ → LockState → Error → Recovering (Unit {0})
  after_refusal index lock (nfs_v4 operation status) =
      mark_or_raise (means_lost status) index lock (nfs_v4 operation status) status
  after_refusal index lock e = raise e

  abbrev pub note_recovered : ℕ → LockState → Result Error LockState → Recovering (Unit {0})
  note_recovered index lock (ok new_state) = restoring index new_state
  note_recovered index lock (err e) = after_refusal index lock e

  abbrev pub check_or_reclaim : Bool → LockState → Recovering LockState
  check_or_reclaim true lock = check_recovered_lock lock >> pure lock
  check_or_reclaim false lock = reclaim_lock lock

  -- A lock of the same client is checked, one of another client is reclaimed.
  abbrev pub recovered_lock : LockState → Recovering LockState
  recovered_lock lock = do
    client_id ← asking (λ s. s.client_id)
    check_or_reclaim (lock.client_id == client_id) lock

  abbrev pub unless_lost : Option Status → Recovering (Unit {0}) → Recovering (Unit {0})
  unless_lost none action = action
  unless_lost (some status) action = pure tt

  unfoldable pub recover_lock : ℕ → LockState → Recovering (Unit {0})
  unfolding check_recovered_lock reclaim_lock
  recover_lock index lock =
      unless_lost lock.lost (attempt (recovered_lock lock) >>= note_recovered index lock)

  -- the loop over the locks, from an index on
  unfoldable pub recover_locks : ℕ → List LockState → Recovering (Unit {0})
  unfolding recover_lock
  recover_locks index [] = pure tt
  recover_locks index (lock ∷ locks) = do recover_lock index lock; recover_locks (suc index) locks
