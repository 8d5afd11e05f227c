-- ===== src/V4/Recovery/Steps.antt =====
-- What one step of the recovery of src/v4/blocking.rs makes of its lock, and of the others.
use nfs.Prelude.{
  ℕ, suc, ◌<◌, ◌≡◌, refl, sym, ap, ◌∙◌, subst, Bool, true, false, ◌||◌, Option, none, some, String,
  List, [], ◌∷◌, ◌++◌, arith, append_assoc, ◌==◌, ==_iff, length, length-append, All,
}
use nfs.Prelude.Outcome.{Result, ok, err}
use nfs.Prelude.Exec.{Exec, continue, raise}
use nfs.Error.{Error, nfs_v4}
use nfs.V4.Status
use nfs.V4.Status.{Status}
use nfs.V4.Locks.{LockState, snapshot}
use nfs.V4.Tokens.{WellFormed, restore-WellFormed}
use nfs.V4.Snapshots.{set-middle, snapshot-restore}
use nfs.V4.Setup.{Network}
use nfs.V4.Recovery.{
  Session, means_lost, recovered_lock, restoring, mark_or_raise, note_recovered, unless_lost,
  recover_lock,
}
use nfs.V4.Recovery.Asks.{recovered_lock-Asks}
use nfs.V4.Recovery.Reclaims.{Reclaims, Reclaims-Preorder, restoring-Reclaims}
use nfs.V4.Recovery.Gains.{Gained, OnOk, recovered_lock-Gained}

-- The statuses by which a server says that a lock, its file or its client is gone, or will not be given
-- back.
pub data SaysLost : Status → Type 0 where
  by_stale : SaysLost Status.stale
  by_fh_expired : SaysLost Status.fh_expired
  by_bad_handle : SaysLost Status.bad_handle
  by_no_ent : SaysLost Status.no_ent
  by_admin_revoked : SaysLost Status.admin_revoked
  by_bad_state_id : SaysLost Status.bad_state_id
  by_deleg_revoked : SaysLost Status.deleg_revoked
  by_expired : SaysLost Status.expired
  by_lease_moved : SaysLost Status.lease_moved
  by_no_grace : SaysLost Status.no_grace
  by_old_state_id : SaysLost Status.old_state_id
  by_reclaim_bad : SaysLost Status.reclaim_bad
  by_reclaim_conflict : SaysLost Status.reclaim_conflict
  by_stale_client_id : SaysLost Status.stale_client_id
  by_stale_state_id : SaysLost Status.stale_state_id

means_lost-SaysLost : (status : Status) → means_lost status ≡ true → SaysLost status
unfolding means_lost Status.indicates_lost_state
means_lost-SaysLost Status.stale h = by_stale
means_lost-SaysLost Status.fh_expired h = by_fh_expired
means_lost-SaysLost Status.bad_handle h = by_bad_handle
means_lost-SaysLost Status.no_ent h = by_no_ent
means_lost-SaysLost Status.admin_revoked h = by_admin_revoked
means_lost-SaysLost Status.bad_state_id h = by_bad_state_id
means_lost-SaysLost Status.deleg_revoked h = by_deleg_revoked
means_lost-SaysLost Status.expired h = by_expired
means_lost-SaysLost Status.lease_moved h = by_lease_moved
means_lost-SaysLost Status.no_grace h = by_no_grace
means_lost-SaysLost Status.old_state_id h = by_old_state_id
means_lost-SaysLost Status.reclaim_bad h = by_reclaim_bad
means_lost-SaysLost Status.reclaim_conflict h = by_reclaim_conflict
means_lost-SaysLost Status.stale_client_id h = by_stale_client_id
means_lost-SaysLost Status.stale_state_id h = by_stale_state_id
means_lost-SaysLost _ h = cc

-- What becomes of a lock that the recovery has seen to, in a state that it reached from the origin.
pub data Recovered {ℓ} {C N : Type ℓ} (network : Network C N) (origin : Session C N)
    (lock : LockState) : LockState → Type ℓ where
  was_lost : (status : Status) → lock.lost ≡ some status → Recovered network origin lock lock
  marked :
      (s : Session C N) (operation : String) (status : Status)
      → Reclaims origin s
      → lock.lost ≡ none
      → (recovered_lock network lock s).0 ≡ err (nfs_v4 operation status)
      → SaysLost status
      → Recovered network origin lock (record lock { lost = some status })
  gained :
      (s : Session C N) (lock' : LockState)
      → Reclaims origin s
      → lock.lost ≡ none
      → Gained network s lock lock'
      → Recovered network origin lock lock'

-- A lock that the recovery may not have come to.
pub data Perhaps {ℓ} {C N : Type ℓ} (network : Network C N) (origin : Session C N)
    (lock : LockState) : LockState → Type ℓ where
  untouched : Perhaps network origin lock lock
  seen :
      (lock' : LockState) → Recovered network origin lock lock' → Perhaps network origin lock lock'

pub data Each {ν} (R : LockState → LockState → Type ν)
    : List LockState → List LockState → Type ν where
  nil : Each R [] []
  cons :
      (lock lock' : LockState) (locks locks' : List LockState)
      → R lock lock'
      → Each R locks locks'
      → Each R (lock ∷ locks) (lock' ∷ locks')

module _ {ℓ} {C N : Type ℓ} (network : Network C N) (origin : Session C N) where
  pub Each-untouched : (locks : List LockState) → Each (Perhaps network origin) locks locks
  Each-untouched [] = nil
  Each-untouched (lock ∷ locks) = cons lock lock locks locks untouched (Each-untouched locks)

  abbrev pub After : Type ℓ
  After = Result Error (Unit {0}) × Session C N

  -- The locks before the current one are done, and those behind it are as they were.
  pub record Stepped (done : List LockState) (lock : LockState) (locks : List LockState) (p : After)
      : Type ℓ where
    pub well_formed : WellFormed (p.1).locks
    pub reached : Reclaims origin p.1
    pub lock' : LockState
    pub now : snapshot (p.1).locks ≡ done ++ (lock' ∷ locks)
    pub perhaps : Perhaps network origin lock lock'
    pub recovered : OnOk (λ _. Recovered network origin lock lock') p.0

  module _ (done : List LockState) (lock : LockState) (locks : List LockState)
      (open_lock : lock.lost ≡ none) where
    -- A state whose locks are the loop's at this index.
    record Here (s : Session C N) : Type ℓ where
      well_formed : WellFormed s.locks
      reached : Reclaims origin s
      now : snapshot s.locks ≡ done ++ (lock ∷ locks)

    written :
        (s : Session C N) (lock' : LockState)
        → Here s
        → Recovered network origin lock lock'
        → Stepped done lock locks (restoring network (length done) lock' s)
    written s lock' h r = record {
      well_formed = restore-WellFormed s.locks (length done) lock' h.well_formed;
      reached =
          Reclaims-Preorder.transitive h.reached
            ((restoring-Reclaims network (length done) lock').moves s);
      lock' = lock';
      now =
          let many : length (snapshot s.locks) ≡ length (done ++ (lock ∷ locks)) =
            ap length h.now in
          snapshot-restore s.locks (length done) lock' h.well_formed
            (omega (arith, many, length-append done (lock ∷ locks)))
          ∙ ap (λ l. nfs.Prelude.set l (length done) lock') h.now
          ∙ set-middle done lock lock' locks;
      perhaps = seen lock' r;
      recovered = r;
    }

    failed : (s : Session C N) (e : Error) → Here s → Stepped done lock locks (raise e s)
    failed s e h = record {
      well_formed = h.well_formed;
      reached = h.reached;
      lock' = lock;
      now = h.now;
      perhaps = untouched;
      recovered = tt;
    }

    marking :
        (b : Bool) (operation : String) (status : Status) (s s' : Session C N)
        → b ≡ means_lost status
        → Reclaims origin s
        → (recovered_lock network lock s).0 ≡ err (nfs_v4 operation status)
        → Here s'
        → Stepped done lock locks
            (mark_or_raise network b (length done) lock (nfs_v4 operation status) status s')
    marking true operation status s s' q o x h =
        written s' (record lock { lost = some status }) h
          (marked s operation status o open_lock x (means_lost-SaysLost status (sym q)))
    marking false operation status s s' q o x h = failed s' (nfs_v4 operation status) h

    noting :
        (r : Result Error LockState) (s s' : Session C N)
        → Reclaims origin s
        → (recovered_lock network lock s).0 ≡ r
        → OnOk (Gained network s lock) r
        → Here s'
        → Stepped done lock locks (note_recovered network (length done) lock r s')
    noting (ok lock') s s' o x g h = written s' lock' h (gained s lock' o open_lock g)
    noting (err (nfs_v4 operation status)) s s' o x g h =
        marking (means_lost status) operation status s s' refl o x h
    noting (err e) s s' o x g h = failed s' e h

  pub recover_lock-Stepped :
      (done : List LockState) (lock : LockState) (locks : List LockState) (s : Session C N)
      → WellFormed s.locks
      → Reclaims origin s
      → snapshot s.locks ≡ done ++ (lock ∷ locks)
      → Stepped done lock locks (recover_lock network (length done) lock s)
  unfolding recover_lock
  recover_lock-Stepped done lock locks s w e now = by_loss lock.lost refl
    where
      by_loss :
          (o : Option Status)
          → o ≡ lock.lost
          → Stepped done lock locks (
              unless_lost network o
                (nfs.Prelude.Exec.◌>>=◌
                  (nfs.Prelude.Exec.attempt (recovered_lock network lock))
                  (note_recovered network (length done) lock))
                s)
      by_loss (some status) q = record {
        well_formed = w;
        reached = e;
        lock' = lock;
        now = now;
        perhaps = untouched;
        recovered = was_lost status (sym q);
      }
      by_loss none q =
          let asked = (recovered_lock-Asks network lock).moves s in
          noting done lock locks (sym q) (recovered_lock network lock s).0 s
            (recovered_lock network lock s).1 e refl (recovered_lock-Gained network lock s)
            (record {
              well_formed = subst WellFormed (sym asked.same_locks) w;
              reached =
                  Reclaims-Preorder.transitive e
                    (record { sent = asked.sent; same_client = asked.same_client });
              now = ap snapshot asked.same_locks ∙ now;
            })
