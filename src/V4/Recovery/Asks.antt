-- ===== src/V4/Recovery/Asks.antt =====
-- What src/v4/blocking.rs sends while it checks or reclaims one lock: nothing that would take a lock, or
-- open a file, other than by reclaiming it.
use nfs.Prelude.{
  ℕ, suc, ◌≡◌, refl, sym, ap, ◌∙◌, Bool, true, false, ◌&&◌, Option, none, some, List, [], ◌∷◌, ◌++◌,
  append_assoc, append-nil, all, ◌==◌, length,
}
use nfs.Prelude.Outcome.{Result, ok, err}
use nfs.Prelude.Exec.{Exec, pure, lift, attempt}
use nfs.Prelude.Moves.{
  Preorder, Moves, pure-Moves, raise-Moves, lift-Moves, attempt-Moves, bind-Moves,
}
use nfs.Error.{Error}
use nfs.V4.OpCode
use nfs.V4.Args.{Bytes, StateId, OpenResult, OpenClaim}
use nfs.V4.Operation.{Operation}
use nfs.V4.Response.{CompoundResponse, ensure_ok}
use nfs.V4.Policy.{
  response_allows_delayed_retry, response_consumed_owner_seqid,
  validate_session_compound_operation_count,
}
use nfs.V4.Extract.States.{response_open, response_test_stateids, validate_open_result}
use nfs.V4.Locks.{LockState}
use nfs.V4.Setup.{
  Network, Wire, raw_compound_with_rpc, sequence_args, sequenced_round, sequenced_compound,
  retrying,
}
use nfs.V4.Setup.Retries.{retrying-Moves}
use nfs.V4.Recovery.{
  Session, recovery_tag, first_refused, reclaim_open, reclaim_range, Recovering, recovery_compound,
  asking, advance_open_seqid, when, check_recovered_lock, return_delegation, settle_lock, locked,
  reclaim_opened, reclaim_lock, recovered_lock, check_or_reclaim,
}

abbrev pub is_previous : OpenClaim → Bool
is_previous (OpenClaim.previous delegation_type) = true
is_previous _ = false

-- A LOCK reclaims, an OPEN claims what was open, and RECLAIM_COMPLETE has to wait.
abbrev pub only_reclaims : Operation → Bool
only_reclaims (Operation.lock args) = args.reclaim
only_reclaims (Operation.open_file args) = is_previous args.claim
only_reclaims (Operation.reclaim_complete one_fs) = false
only_reclaims _ = true

abbrev pub takes_nothing_new : List (List Operation) → Bool
takes_nothing_new compounds = all (all only_reclaims) compounds

all-append :
    {A : Type 0} (p : A → Bool) (xs ys : List A)
    → all p xs ≡ true
    → all p ys ≡ true
    → all p (xs ++ ys) ≡ true
all-append p [] ys h k = k
all-append p (x ∷ xs) ys h k = by_head (p x) (all p xs) h (all-append p xs ys)
  where
    by_head :
        (b c : Bool)
        → (b && c) ≡ true
        → (c ≡ true → all p ys ≡ true → all p (xs ++ ys) ≡ true)
        → (b && all p (xs ++ ys)) ≡ true
    by_head true c e again = again e k
    by_head false c e again = cc

module _ {ℓ} {N : Type ℓ} where
  -- Between the two states only such COMPOUNDs were sent.
  pub record Sent (w w' : Wire N) : Type ℓ where
    pub compounds : List (List Operation)
    pub logged : w'.log ≡ w.log ++ compounds
    pub allowed : takes_nothing_new compounds ≡ true

  pub Sent-refl : (w : Wire N) → Sent w w
  Sent-refl w = record { compounds = []; logged = sym (append-nil w.log); allowed = refl }

  pub Sent-trans : {a b c : Wire N} → Sent a b → Sent b c → Sent a c
  Sent-trans {a} p q = record {
    compounds = p.compounds ++ q.compounds;
    logged =
        q.logged
        ∙ ap (λ log. log ++ q.compounds) p.logged
        ∙ append_assoc a.log p.compounds q.compounds;
    allowed = all-append (all only_reclaims) p.compounds q.compounds p.allowed q.allowed;
  }

  -- With the sequence id beside the network.
  abbrev Sent₂ : ℕ × Wire N → ℕ × Wire N → Type ℓ
  Sent₂ s s' = Sent s.1 s'.1

  sequenced_order : Preorder Sent₂
  sequenced_order = record { reflexive = λ s. Sent-refl s.1; transitive = λ p q. Sent-trans p q }

module _ {ℓ} {C N : Type ℓ} where
  -- The client asks the server, and does not touch its locks.
  pub record Asks (s s' : Session C N) : Type ℓ where
    pub sent : Sent s.wire s'.wire
    pub same_client : s'.client_id ≡ s.client_id
    pub same_locks : s'.locks ≡ s.locks

  pub Asks-Preorder : Preorder Asks
  Asks-Preorder = record {
    reflexive = λ s. record { sent = Sent-refl s.wire; same_client = refl; same_locks = refl };
    transitive = λ p q. record {
      sent = Sent-trans p.sent q.sent;
      same_client = q.same_client ∙ p.same_client;
      same_locks = q.same_locks ∙ p.same_locks;
    };
  }

module _ {ℓ} {C N : Type ℓ} (network : Network C N) where
  sequenced_round-Sent :
      (rpc : C) (minor_version : ℕ) (session_id : Bytes) (operations : List Operation)
      → all only_reclaims operations ≡ true
      → Moves Sent₂ (sequenced_round network rpc recovery_tag minor_version session_id operations)
  unfolding sequenced_round raw_compound_with_rpc
  sequenced_round-Sent rpc minor_version session_id operations h = record {
    moves = λ s. record {
      compounds = (sequence_args session_id s.0 ∷ operations) ∷ [];
      logged = refl;
      allowed = rw h refl;
    };
  }

  sequenced_compound-Sent :
      (s : Session C N) (operations : List Operation)
      → all only_reclaims operations ≡ true
      → Moves Sent₂ (
          sequenced_compound network s.rpc recovery_tag s.minor_version s.session_id
            s.max_operations s.retry_policy operations)
  unfolding sequenced_compound
  sequenced_compound-Sent s operations h =
      bind-Moves sequenced_order
        (lift (validate_session_compound_operation_count (length operations) s.max_operations))
        (λ _. loop) (lift-Moves sequenced_order _)
        (λ _.
          retrying-Moves _ _ _ sequenced_order
            (sequenced_round-Sent s.rpc s.minor_version s.session_id operations h) _ 0)
    where
      loop : Exec (ℕ × Wire N) Error CompoundResponse
      loop =
          retrying (response_allows_delayed_retry operations)
            (sequenced_round network s.rpc recovery_tag s.minor_version s.session_id operations)
            s.retry_policy (s.retry_policy).max_retries 0

  pub recovery_compound-Asks :
      (operations : List Operation)
      → all only_reclaims operations ≡ true
      → Moves Asks (recovery_compound network operations)
  unfolding recovery_compound
  recovery_compound-Asks operations h = record {
    moves = λ s. record {
      sent = (sequenced_compound-Sent s operations h).moves (s.sequence_id, s.wire);
      same_client = refl;
      same_locks = refl;
    };
  }

  pub when-Asks :
      (b : Bool) (action : Recovering network (Unit {0}))
      → Moves Asks action
      → Moves Asks (when network b action)
  when-Asks true action h = h
  when-Asks false action h = pure-Moves Asks-Preorder tt

  pub asking-Asks {κ} : {A : Type κ} (field : Session C N → A) → Moves Asks (asking network field)
  asking-Asks field = record { moves = λ s. Asks-Preorder.reflexive s }

  pub advance-Asks : Moves Asks (advance_open_seqid network)
  advance-Asks = record {
    moves = λ s. record { sent = Sent-refl s.wire; same_client = refl; same_locks = refl };
  }

  -- A chain of actions, each of which keeps to it.
  abbrev chain {κ ι} :
      {A : Type κ} {B : Type ι} (m : Recovering network A) (f : A → Recovering network B)
      → Moves Asks m
      → ((a : A) → Moves Asks (f a))
      → Moves Asks (nfs.Prelude.Exec.◌>>=◌ m f)
  chain m f h k = bind-Moves Asks-Preorder m f h k

  abbrev pub lifted {κ} : {A : Type κ} (r : Result Error A) → Moves {S = Session C N} Asks (lift r)
  lifted r = lift-Moves Asks-Preorder r

  pub check_recovered_lock-Asks :
      (lock : LockState) → Moves Asks (check_recovered_lock network lock)
  unfolding check_recovered_lock
  check_recovered_lock-Asks lock =
      chain _ _
        (recovery_compound-Asks
          (Operation.test_state_ids (lock.open_stateid ∷ lock.lock_stateid ∷ []) ∷ []) refl)
        (λ response. chain _ _ (lifted (ensure_ok response)) (λ _.
          chain _ _ (lifted (response_test_stateids response 2))
            (λ statuses. lifted (first_refused statuses))))

  pub return_delegation-Asks :
      (lock : LockState) (delegation : Option StateId)
      → Moves Asks (return_delegation network lock delegation)
  return_delegation-Asks lock none = pure-Moves Asks-Preorder tt
  return_delegation-Asks lock (some stateid) =
      chain _ _
        (recovery_compound-Asks (Operation.put_fh lock.handle ∷ Operation.deleg_return stateid ∷ [])
          refl)
        (λ response. lifted (ensure_ok response))

  settle_lock-Asks :
      (lock : LockState) (stateid : StateId) (r : Result Error StateId)
      → Moves Asks (settle_lock network lock stateid r)
  settle_lock-Asks lock stateid (ok lock_stateid) = asking-Asks _
  settle_lock-Asks lock stateid (err e) = chain _ _ (asking-Asks (λ s. s.open_seqid)) (λ open_seqid.
      chain _ _
        (attempt-Moves Asks-Preorder _ (
          recovery_compound-Asks
            (Operation.put_fh lock.handle ∷ Operation.close open_seqid stateid ∷ []) refl))
        (λ closed. chain _ _ advance-Asks (λ _. raise-Moves Asks-Preorder e)))

  reclaim_opened-Asks :
      (lock : LockState) (opened : OpenResult) → Moves Asks (reclaim_opened network lock opened)
  reclaim_opened-Asks lock opened = chain _ _ (asking-Asks (λ s. s.minor_version)) (λ minor_version.
      chain _ _ (lifted (validate_open_result opened minor_version)) (λ delegation.
        chain _ _ (return_delegation-Asks lock delegation) (λ _.
          chain _ _ (asking-Asks (λ s. s.client_id)) (λ client_id.
            chain _ _ (asking-Asks (λ s. s.open_seqid)) (λ open_seqid.
              chain _ _
                (recovery_compound-Asks
                  (Operation.put_fh lock.handle
                    ∷ reclaim_range client_id open_seqid opened.stateid lock
                    ∷ [])
                  refl)
                (then_settled))))))
    where
      then_settled :
          (response : CompoundResponse)
          → Moves Asks (
              nfs.Prelude.Exec.◌>>◌
                (when network
                  (response_consumed_owner_seqid response OpCode.lock)
                  (advance_open_seqid network))
                (settle_lock network lock opened.stateid (locked network response)))
      then_settled response =
          chain _ _ (when-Asks _ _ advance-Asks)
            (λ _. settle_lock-Asks lock opened.stateid (locked network response))

  reclaim_lock-Asks : (lock : LockState) → Moves Asks (reclaim_lock network lock)
  unfolding reclaim_lock
  reclaim_lock-Asks lock = chain _ _ (asking-Asks (λ s. s.client_id)) (λ client_id.
      chain _ _ (asking-Asks (λ s. s.open_seqid)) (λ open_seqid.
        chain _ _
          (recovery_compound-Asks
            (Operation.put_fh lock.handle ∷ reclaim_open client_id open_seqid lock ∷ []) refl)
          then_opened))
    where
      then_opened :
          (response : CompoundResponse)
          → Moves Asks (
              nfs.Prelude.Exec.◌>>◌
                (when network
                  (response_consumed_owner_seqid response OpCode.open_file)
                  (advance_open_seqid network))
                (nfs.Prelude.Exec.◌>>◌ (lift (ensure_ok response)) (
                  nfs.Prelude.Exec.◌>>=◌
                    (lift (response_open response))
                    (reclaim_opened network lock))))
      then_opened response = chain _ _ (when-Asks _ _ advance-Asks) (λ _.
          chain _ _ (lifted (ensure_ok response)) (λ _.
            chain _ _ (lifted (response_open response))
              (λ opened. reclaim_opened-Asks lock opened)))

  check_or_reclaim-Asks :
      (b : Bool) (lock : LockState) → Moves Asks (check_or_reclaim network b lock)
  check_or_reclaim-Asks true lock =
      chain (check_recovered_lock network lock) (λ _. pure lock) (check_recovered_lock-Asks lock)
        (λ _. pure-Moves Asks-Preorder lock)
  check_or_reclaim-Asks false lock = reclaim_lock-Asks lock

  pub recovered_lock-Asks : (lock : LockState) → Moves Asks (recovered_lock network lock)
  recovered_lock-Asks lock =
      chain _ _ (asking-Asks (λ s. s.client_id))
        (λ client_id. check_or_reclaim-Asks (lock.client_id == client_id) lock)
