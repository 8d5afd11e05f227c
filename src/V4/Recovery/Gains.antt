-- ===== src/V4/Recovery/Gains.antt =====
-- What checking or reclaiming one lock gives, in src/v4/blocking.rs: the lock as it was, found valid, or the
-- same range under the stateids that the server gave out for it.
use nfs.Prelude.{◌≡◌, refl, sym, subst, Bool, true, false, List, [], ◌∷◌, ◌==◌, ==_iff, All}
use nfs.Prelude.Outcome.{Result, ok, err, then-ok, err-ok}
use nfs.Prelude.Exec.{continue, pure, lift, ◌>>=◌}
use nfs.Prelude.Moves.{Moves}
use nfs.Error.{Error}
use nfs.V4.Status
use nfs.V4.Status.{Status}
use nfs.V4.OpCode
use nfs.V4.Args.{StateId, OpenResult}
use nfs.V4.Operation.{Operation}
use nfs.V4.Response.{CompoundResponse, ensure_ok}
use nfs.V4.Policy.{response_consumed_owner_seqid}
use nfs.V4.Extract.States.{
  response_open, response_lock, response_test_stateids, validate_open_result,
}
use nfs.V4.Locks.{LockState}
use nfs.V4.Setup.{Network}
use nfs.V4.Recovery.{
  Session, Recovering, recovery_compound, reclaim_open, reclaim_range, first_refused,
  advance_open_seqid, when, check_recovered_lock, return_delegation, settle_lock, locked,
  reclaim_opened, reclaim_lock, check_or_reclaim, recovered_lock,
}
use nfs.V4.Recovery.Asks.{
  Asks, Asks-Preorder, recovery_compound-Asks, when-Asks, advance-Asks, lifted,
  return_delegation-Asks,
}

-- A property of the value, where there is one.
abbrev pub OnOk {ℓ ν} : {A : Type ℓ} → (A → Type ν) → Result Error A → Type ν
OnOk P (ok a) = P a
OnOk P (err e) = Unit {ν}

-- What the client asks about a lock, and for it.
abbrev pub check_operations : LockState → List Operation
check_operations lock = Operation.test_state_ids (lock.open_stateid ∷ lock.lock_stateid ∷ []) ∷ []

module _ {ℓ} {C N : Type ℓ} where
  abbrev pub open_again : LockState → Session C N → List Operation
  open_again lock s = Operation.put_fh lock.handle ∷ reclaim_open s.client_id s.open_seqid lock ∷ []

  abbrev pub lock_again : LockState → StateId → Session C N → List Operation
  lock_again lock open_stateid s =
      Operation.put_fh lock.handle ∷ reclaim_range s.client_id s.open_seqid open_stateid lock ∷ []

-- The server, asked in this state, says of both stateids of the lock that they are valid.
pub record Valid {ℓ} {C N : Type ℓ} (network : Network C N) (s : Session C N) (lock : LockState)
    : Type ℓ where
  pub response : CompoundResponse
  pub statuses : List Status
  pub answered : (recovery_compound network (check_operations lock) s).0 ≡ ok response
  pub read : response_test_stateids response 2 ≡ ok statuses
  pub valid : All (λ status. Status.is_ok status ≡ true) statuses

-- The server, asked in this state to open the file of the lock again, answers with the one stateid; and
-- asked for the range under it, after nothing but requests that reclaim, with the other.
pub record Given {ℓ} {C N : Type ℓ} (network : Network C N) (s : Session C N) (lock : LockState)
    (open_stateid lock_stateid : StateId) : Type ℓ where
  pub opening : CompoundResponse
  pub opened : OpenResult
  pub open_answered : (recovery_compound network (open_again lock s) s).0 ≡ ok opening
  pub open_ok : ensure_ok opening ≡ ok tt
  pub open_read : response_open opening ≡ ok opened
  pub open_given : opened.stateid ≡ open_stateid
  pub then : Session C N
  pub between : Asks s then
  pub locking : CompoundResponse
  pub lock_answered :
      (recovery_compound network (lock_again lock open_stateid then) then).0 ≡ ok locking
  pub lock_ok : ensure_ok locking ≡ ok tt
  pub lock_read : response_lock locking ≡ ok lock_stateid

pub data Gained {ℓ} {C N : Type ℓ} (network : Network C N) (s : Session C N) (lock : LockState)
    : LockState → Type ℓ where
  kept : lock.client_id ≡ s.client_id → Valid network s lock → Gained network s lock lock
  renewed :
      (open_stateid lock_stateid : StateId)
      → Given network s lock open_stateid lock_stateid
      → Gained network s lock (record lock {
        client_id = s.client_id;
        open_stateid = open_stateid;
        lock_stateid = lock_stateid;
        lock_seqid = 2;
      })

first_refused-ok :
    (statuses : List Status)
    → first_refused statuses ≡ ok tt
    → All (λ status. Status.is_ok status ≡ true) statuses
first_refused-ok [] h = tt
first_refused-ok (status ∷ statuses) h =
    by_status (Status.is_ok status) refl h (first_refused-ok statuses)
  where
    by_status :
        (b : Bool)
        → b ≡ Status.is_ok status
        → ◌≡◌ {A = Result Error (Unit {0})}
            (elim b [
              | true ↦ first_refused statuses
              | false ↦ err (nfs.Error.nfs_v4 "TEST_STATEID" status)
            ])
            (ok tt)
        → (first_refused statuses ≡ ok tt → All (λ s. Status.is_ok s ≡ true) statuses)
        → All (λ s. Status.is_ok s ≡ true) (status ∷ statuses)
    by_status true q k again = (sym q, again k)
    by_status false q k again = absurd (err-ok k)

module _ {ℓ} {C N : Type ℓ} (network : Network C N) where
  -- An action after another one, at a state: the first one's value, where it has one.
  bind-OnOk {κ ι ν} :
      {A : Type κ} {B : Type ι} (P : B → Type ν) (m : Recovering network A)
      (f : A → Recovering network B) (s : Session C N)
      → Moves Asks m
      → ((a : A) (s' : Session C N) → (m s).0 ≡ ok a → Asks s s' → OnOk P (f a s').0)
      → OnOk P ((m >>= f) s).0
  bind-OnOk {A} P m f s h k = by_result (m s).0 refl (h.moves s)
    where
      by_result :
          (r : Result Error A) → (m s).0 ≡ r → Asks s (m s).1 → OnOk P (continue r f (m s).1).0
      by_result (ok a) e p = k a (m s).1 e p
      by_result (err x) e p = tt

  check_recovered_lock-Valid :
      (lock : LockState) (s : Session C N)
      → OnOk (λ _. Valid network s lock) (check_recovered_lock network lock s).0
  unfolding check_recovered_lock
  check_recovered_lock-Valid lock s =
      bind-OnOk (λ _. Valid network s lock) (recovery_compound network (check_operations lock)) _ s
        (recovery_compound-Asks network (check_operations lock) refl)
        (λ response s₁ answered _.
          bind-OnOk (λ _. Valid network s lock) (lift (ensure_ok response)) _ s₁
            (lifted network (ensure_ok response))
            (λ _ s₂ _ _.
              bind-OnOk (λ _. Valid network s lock) (lift (response_test_stateids response 2)) _ s₂
                (lifted network (response_test_stateids response 2))
                (λ statuses s₃ read _.
                  found response statuses answered read (first_refused statuses) refl)))
    where
      found :
          (response : CompoundResponse) (statuses : List Status)
          → (recovery_compound network (check_operations lock) s).0 ≡ ok response
          → response_test_stateids response 2 ≡ ok statuses
          → (r : Result Error (Unit {0})) → first_refused statuses ≡ r
          → OnOk (λ _. Valid network s lock) r
      found response statuses answered read (err e) q = tt
      found response statuses answered read (ok _) q = record {
        response = response;
        statuses = statuses;
        answered = answered;
        read = read;
        valid = first_refused-ok statuses q;
      }

  module _ (lock : LockState) (s : Session C N) where
    settle_lock-Gained :
        (opening : CompoundResponse) (opened : OpenResult) (t : Session C N)
        (locking : CompoundResponse) (t' : Session C N)
        → (recovery_compound network (open_again lock s) s).0 ≡ ok opening
        → ensure_ok opening ≡ ok tt
        → response_open opening ≡ ok opened
        → Asks s t
        → (recovery_compound network (lock_again lock opened.stateid t) t).0 ≡ ok locking
        → Asks s t'
        → (r : Result Error StateId) → locked network locking ≡ r
        → OnOk (Gained network s lock) (settle_lock network lock opened.stateid r t').0
    settle_lock-Gained opening opened t locking t' a b c d e f (err x) q = tt
    settle_lock-Gained opening opened t locking t' a b c d e f (ok lock_stateid) q =
        let granted = then-ok _ _ q in
        subst
          (λ id. Gained network s lock (record lock {
            client_id = id;
            open_stateid = opened.stateid;
            lock_stateid = lock_stateid;
            lock_seqid = 2;
          }))
          (sym f.same_client)
          (renewed opened.stateid lock_stateid (record {
            opening = opening;
            opened = opened;
            open_answered = a;
            open_ok = b;
            open_read = c;
            open_given = refl;
            then = t;
            between = d;
            locking = locking;
            lock_answered = e;
            lock_ok = granted.0;
            lock_read = granted.1;
          }))

    join : {a b : Session C N} → Asks s a → Asks a b → Asks s b
    join p q = Asks-Preorder.transitive p q

    reclaim_opened-Gained :
        (opening : CompoundResponse) (opened : OpenResult) (s' : Session C N)
        → (recovery_compound network (open_again lock s) s).0 ≡ ok opening
        → ensure_ok opening ≡ ok tt
        → response_open opening ≡ ok opened
        → Asks s s'
        → OnOk (Gained network s lock) (reclaim_opened network lock opened s').0
    reclaim_opened-Gained opening opened s' a b c p =
        bind-OnOk (Gained network s lock) (lift (validate_open_result opened s'.minor_version)) _ s'
          (lifted network (validate_open_result opened s'.minor_version))
          (λ delegation s₁ _ p₁.
            bind-OnOk (Gained network s lock) (return_delegation network lock delegation) _ s₁
              (return_delegation-Asks network lock delegation)
              (λ _ t _ p₂.
                bind-OnOk (Gained network s lock)
                  (recovery_compound network (lock_again lock opened.stateid t)) _ t
                  (recovery_compound-Asks network (lock_again lock opened.stateid t) refl)
                  (λ locking s₃ answered p₃.
                    bind-OnOk (Gained network s lock)
                      (when network (response_consumed_owner_seqid locking OpCode.lock)
                        (advance_open_seqid network))
                      _ s₃ (when-Asks network _ _ (advance-Asks network))
                      (λ _ t' _ p₄.
                        settle_lock-Gained opening opened t locking t' a b c (join p (join' p₁ p₂))
                          answered (join (join p (join' p₁ p₂)) (join' p₃ p₄))
                          (locked network locking) refl))))
      where
        join' : {a b c : Session C N} → Asks a b → Asks b c → Asks a c
        join' x y = Asks-Preorder.transitive x y

    reclaim_lock-Gained : OnOk (Gained network s lock) (reclaim_lock network lock s).0
    unfolding reclaim_lock
    reclaim_lock-Gained =
        bind-OnOk (Gained network s lock) (recovery_compound network (open_again lock s)) _ s
          (recovery_compound-Asks network (open_again lock s) refl)
          (λ opening s₁ answered p₁.
            bind-OnOk (Gained network s lock)
              (when network (response_consumed_owner_seqid opening OpCode.open_file)
                (advance_open_seqid network))
              _ s₁ (when-Asks network _ _ (advance-Asks network))
              (λ _ s₂ _ p₂.
                bind-OnOk (Gained network s lock) (lift (ensure_ok opening)) _ s₂
                  (lifted network (ensure_ok opening))
                  (λ _ s₃ good p₃.
                    bind-OnOk (Gained network s lock) (lift (response_open opening)) _ s₃
                      (lifted network (response_open opening))
                      (λ opened s₄ read p₄.
                        reclaim_opened-Gained opening opened s₄ answered good read
                          (join (join (join p₁ p₂) p₃) p₄)))))

    check_or_reclaim-Gained :
        (b : Bool)
        → b ≡ (lock.client_id == s.client_id)
        → OnOk (Gained network s lock) (check_or_reclaim network b lock s).0
    check_or_reclaim-Gained false h = reclaim_lock-Gained
    check_or_reclaim-Gained true h =
        by_check (check_recovered_lock network lock s).0 (check_recovered_lock network lock s).1
          (check_recovered_lock-Valid lock s)
      where
        by_check :
            (r : Result Error (Unit {0})) (s' : Session C N)
            → OnOk (λ _. Valid network s lock) r
            → OnOk (Gained network s lock) (continue r (λ _. pure lock) s').0
        by_check (ok _) s' v = kept ((==_iff lock.client_id s.client_id).0 (sym h)) v
        by_check (err e) s' v = tt

  pub recovered_lock-Gained :
      (lock : LockState) (s : Session C N)
      → OnOk (Gained network s lock) (recovered_lock network lock s).0
  recovered_lock-Gained lock s = check_or_reclaim-Gained lock s (lock.client_id == s.client_id) refl
