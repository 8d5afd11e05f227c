-- ===== src/V4/Recovery/Revoked.antt =====
-- src/v4/blocking.rs: `check_revoked_locks`, which asks for every lock whether the server has revoked it.
use nfs.Prelude.{ℕ, suc, true, false, none, some, List, [], ◌∷◌}
use nfs.Prelude.Exec.{pure, lift, attempt, ◌>>=◌, ◌>>◌}
use nfs.V4.Status
use nfs.V4.Status.{Status}
use nfs.V4.Args.{StateId}
use nfs.V4.Operation
use nfs.V4.Response.{ensure_ok}
use nfs.V4.Extract.States.{response_test_stateids}
use nfs.V4.Locks
use nfs.V4.Locks.{LockState}
use nfs.V4.Setup.{Network}
use nfs.V4.Recovery.{Recovering, recovery_compound, restoring}

module _ {ℓ} {C N : Type ℓ} (network : Network C N) where
  -- one stateid of a lock that the server has revoked: it is acknowledged
  abbrev pub acknowledge : ℕ → LockState → StateId → Status → Recovering network LockState
  acknowledge index lock stateid status = elim (Status.is_ok status) [
    | true ↦ pure lock
    | false ↦ do
      restoring network index (record lock { lost = some status })
      freed ← attempt (recovery_compound network (Operation.free_state_id stateid ∷ []))
      pure (record lock { lost = some status })
  ]

  abbrev pub acknowledge_all :
      ℕ → LockState → List StateId → List Status → Recovering network (Unit {0})
  acknowledge_all index lock (stateid ∷ stateids) (status ∷ statuses) = do
    lock' ← acknowledge index lock stateid status
    acknowledge_all index lock' stateids statuses
  acknowledge_all index lock _ _ = pure tt

  unfoldable pub check_revoked_lock : ℕ → LockState → Recovering network (Unit {0})
  unfolding recovery_compound
  check_revoked_lock index lock = elim lock.lost [
    | some status ↦ pure tt
    | none ↦ do
      response ←
          recovery_compound network
            (Operation.test_state_ids (lock.open_stateid ∷ lock.lock_stateid ∷ []) ∷ [])
      lift (ensure_ok response)
      statuses ← lift (response_test_stateids response 2)
      acknowledge_all index lock (lock.open_stateid ∷ lock.lock_stateid ∷ []) statuses
  ]

  unfoldable pub check_revoked_from : ℕ → List LockState → Recovering network (Unit {0})
  unfolding check_revoked_lock
  check_revoked_from index [] = pure tt
  check_revoked_from index (lock ∷ locks) = do
    check_revoked_lock index lock
    check_revoked_from (suc index) locks

  unfoldable pub check_revoked_locks : Recovering network (Unit {0})
  unfolding check_revoked_from Locks.snapshot
  check_revoked_locks s = check_revoked_from 0 (Locks.snapshot s.locks) s
