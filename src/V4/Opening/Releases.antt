-- ===== src/V4/Opening/Releases.antt =====
-- The release of a byte-range lock in src/v4/blocking.rs: it is gone from the registry, however the server
-- answers.
use nfs.Prelude.{
  ℕ, zero, suc, ◌+◌, ◌≡◌, refl, ap, ◌∙◌, Bool, true, false, ◌&&◌, not, ◌==◌, Option, none, some,
  List, [], ◌∷◌,
}
use nfs.Prelude.Outcome.{Result, ok, err}
use nfs.Prelude.Exec.{lift, attempt, continue, ◌>>◌}
use nfs.Prelude.Moves.{
  Preorder, Moves, pure-Moves, raise-Moves, lift-Moves, attempt-Moves, bind-Moves,
}
use nfs.Error.{Error, protocol, lock_lost, is_session_recoverable}
use nfs.V4.Status.{Status}
use nfs.V4.OpCode.{OpCode}
use nfs.V4.Args.{Bytes, StateId}
use nfs.V4.Operation.{Operation}
use nfs.V4.Response.{CompoundResponse, ensure_ok}
use nfs.V4.Policy.{response_consumed_owner_seqid, response_operation_has_delayed_status}
use nfs.V4.Extract.States.{response_release_lock_owner}
use nfs.V4.Locks
use nfs.V4.Locks.{LockRegistry, LockState, ByteRangeLock, holds_cell, retain_others}
use nfs.V4.Tokens.{holds_cell-retain}
use nfs.V4.Setup.{retrying}
use nfs.V4.Setup.Retries.{retrying-Moves}
use nfs.V4.Setup.Options.{validate_opaque_id}
use nfs.V4.Files.{OpenedFile, finish_with_close}
use nfs.V4.Calls
use nfs.V4.Calls.{Sender}
use nfs.V4.Opening.{
  Holder, Owner, Owning, Verdict, asking, next_open_seqid, verdict, once_more, sent,
  close_operations, closed, recovery_cause, after_close, close_received, close_from,
  close_with_current_filehandle, close,
}
use nfs.V4.Opening.Locking.{
  unlock_round, unlock_opened, release_lock_owner, forgetting, close_lost, release_range,
  release_held, unlock, unlock_operations, unlocked,
}

module _ {ℓ} {E : Type ℓ} where
  -- No lock comes into the registry, and none goes.
  abbrev pub Keeps : Holder E → Holder E → Type 0
  Keeps s s' = s'.locks.entries ≡ s.locks.entries

  Keeps-Preorder : Preorder Keeps
  Keeps-Preorder = record { reflexive = λ s. refl; transitive = λ p q. q ∙ p }

  abbrev Keeps₂ : ℕ × Holder E → ℕ × Holder E → Type 0
  Keeps₂ s s' = Keeps s.1 s'.1

  rounds_order : Preorder Keeps₂
  rounds_order = record { reflexive = λ s. refl; transitive = λ p q. q ∙ p }

module _ {ℓ} {E : Type ℓ} (client : Owner E)
    (status_kept : (ops : List Operation) → Moves Keeps ((client.sender).compound_status ops))
    (compound_kept : (ops : List Operation) → Moves Keeps ((client.sender).compound ops))
    (session_kept : Moves Keeps client.recover_session)
    (recovery_kept : (ops : List Operation) → Moves Keeps (client.recovery_compound ops)) where
  asking-Moves {κ} : {A : Type κ} (field : Holder E → A) → Moves Keeps (asking client field)
  asking-Moves field = record { moves = λ s. refl }

  next_open_seqid-Moves : (b : Bool) → Moves Keeps (next_open_seqid client b)
  next_open_seqid-Moves true = record { moves = λ s. refl }
  next_open_seqid-Moves false = record { moves = λ s. refl }

  once_more-Moves {κ} :
      {A : Type κ} (b : Bool) (e : Error) (again : Owning client A)
      → Moves Keeps again
      → Moves Keeps (once_more client b e again)
  once_more-Moves true e again h = h
  once_more-Moves false e again h = raise-Moves Keeps-Preorder e

  sent-Moves {κ} :
      {A : Type κ} (recovered : Bool) (again : Owning client A)
      (received : CompoundResponse → Owning client A) (answer : Result Error CompoundResponse)
      → Moves Keeps again
      → ((response : CompoundResponse) → Moves Keeps (received response))
      → Moves Keeps (sent client recovered again received answer)
  sent-Moves recovered again received (ok response) h k = k response
  sent-Moves recovered again received (err e) h k =
      once_more-Moves (is_session_recoverable e && not recovered) e again h

  after_close-Moves :
      (again : ℕ → Owning client (Unit {0})) (retry : ℕ) (response : CompoundResponse) (v : Verdict)
      → ((n : ℕ) → Moves Keeps (again n))
      → Moves Keeps (after_close client again retry response v)
  after_close-Moves again retry response Verdict.delayed h = h (suc retry)
  after_close-Moves again retry response Verdict.recovers h =
      bind-Moves Keeps-Preorder client.recover_session _ session_kept
        (λ _. raise-Moves Keeps-Preorder (recovery_cause client (ensure_ok response)))
  after_close-Moves again retry response Verdict.done h =
      lift-Moves Keeps-Preorder (closed client response)

  close_received-Moves :
      (again : ℕ → Owning client (Unit {0})) (retry : ℕ) (recovered : Bool)
      (response : CompoundResponse)
      → ((n : ℕ) → Moves Keeps (again n))
      → Moves Keeps (close_received client again retry recovered response)
  close_received-Moves again retry recovered response h =
      bind-Moves Keeps-Preorder
        (next_open_seqid client (response_consumed_owner_seqid response OpCode.close)) _
        (next_open_seqid-Moves (response_consumed_owner_seqid response OpCode.close))
        (λ _.
          bind-Moves Keeps-Preorder (verdict client OpCode.close retry recovered response) _
            (record { moves = λ s. refl }) (λ v. after_close-Moves again retry response v h))

  close_from-Moves :
      (fuel : ℕ) (operations : List Operation) (stateid : StateId) (retry : ℕ) (recovered : Bool)
      → Moves Keeps (close_from client fuel operations stateid retry recovered)
  unfolding close_from
  close_from-Moves zero operations stateid retry recovered = raise-Moves Keeps-Preorder _
  close_from-Moves (suc fuel) operations stateid retry recovered =
      bind-Moves Keeps-Preorder (asking client (λ s. s.open_seqid)) _
        (asking-Moves (λ s. s.open_seqid))
        (λ seqid.
          bind-Moves Keeps-Preorder
            (attempt
              ((client.sender).compound_status (close_operations client operations stateid seqid)))
            _
            (attempt-Moves Keeps-Preorder _
              (status_kept (close_operations client operations stateid seqid)))
            (λ answer.
              sent-Moves recovered (close_from client fuel operations stateid retry true)
                (close_received client
                  (λ retry'. close_from client fuel operations stateid retry' recovered) retry
                  recovered)
                answer (close_from-Moves fuel operations stateid retry true)
                (λ response.
                  close_received-Moves
                    (λ retry'. close_from client fuel operations stateid retry' recovered) retry
                    recovered response
                    (λ retry'. close_from-Moves fuel operations stateid retry' recovered))))

  close-Moves : (opened : OpenedFile) → Moves Keeps (close client opened)
  unfolding close close_with_current_filehandle
  close-Moves opened =
      bind-Moves Keeps-Preorder (asking client client.retry_policy) _
        (asking-Moves client.retry_policy)
        (λ policy.
          close_from-Moves (policy.max_retries + 2) (Operation.put_fh opened.handle ∷ [])
            opened.stateid 0 false)

  unlock_round-Moves : (lock : LockState) → Moves Keeps₂ (unlock_round client lock)
  unfolding unlock_round
  unlock_round-Moves lock = record { moves = λ s. by_answer s _ _ (sent-moves s) }
    where
      sent-moves :
          (s : ℕ × Holder E)
          → Keeps s.1 ((client.sender).compound_status (unlock_operations client lock s.0) s.1).1
      sent-moves s = (status_kept (unlock_operations client lock s.0)).moves s.1

      by_answer :
          (s : ℕ × Holder E) (answer : Result Error CompoundResponse) (s' : Holder E)
          → Keeps s.1 s'
          → Keeps s.1 ((unlocked client s.0 answer s').1).1
      by_answer s (ok response) s' h = h
      by_answer s (err e) s' h = h

  unlock_opened-Moves : (lock : LockState) → Moves Keeps (unlock_opened client lock)
  unfolding unlock_opened
  unlock_opened-Moves lock = record { moves = λ s. (looped s).moves (lock.lock_seqid, s) }
    where
      looped :
          (s : Holder E)
          → Moves Keeps₂ (
              retrying
                (λ response. response_operation_has_delayed_status response OpCode.locku)
                (unlock_round client lock)
                (client.retry_policy s)
                (client.retry_policy s).max_retries
                0)
      looped s =
          retrying-Moves (λ response. response_operation_has_delayed_status response OpCode.locku)
            (unlock_round client lock) (client.retry_policy s) rounds_order
            (unlock_round-Moves lock) (client.retry_policy s).max_retries 0

  release_lock_owner-Moves : (owner : Bytes) → Moves Keeps (release_lock_owner client owner)
  unfolding release_lock_owner
  release_lock_owner-Moves owner =
      bind-Moves Keeps-Preorder (lift (validate_opaque_id owner)) _
        (lift-Moves Keeps-Preorder (validate_opaque_id owner))
        (λ _.
          bind-Moves Keeps-Preorder (asking client (client.sender).client_id) _
            (asking-Moves (client.sender).client_id)
            (λ client_id.
              bind-Moves Keeps-Preorder
                ((client.sender).compound_status (
                  Operation.release_lock_owner (record { client_id = client_id; owner = owner })
                  ∷ []))
                _
                (status_kept (
                  Operation.release_lock_owner (record { client_id = client_id; owner = owner })
                  ∷ []))
                (λ response. lift-Moves Keeps-Preorder (response_release_lock_owner response))))

  free_stateid-Moves : (stateid : StateId) → Moves Keeps (Calls.free_stateid client.sender stateid)
  unfolding Calls.free_stateid
  free_stateid-Moves stateid =
      bind-Moves Keeps-Preorder (lift (ok (Operation.free_state_id stateid ∷ []))) _
        (lift-Moves Keeps-Preorder (ok (Operation.free_state_id stateid ∷ [])))
        (λ operations.
          bind-Moves Keeps-Preorder ((client.sender).compound operations) _
            (compound_kept operations)
            (λ response.
              lift-Moves Keeps-Preorder
                (Calls.status_of_last client.sender "FREE_STATEID" response)))

  release_range-Moves : (state : LockState) → Moves Keeps (release_range client state)
  release_range-Moves state =
      bind-Moves Keeps-Preorder (unlock_opened client state) _ (unlock_opened-Moves state)
        (λ stateid.
          bind-Moves Keeps-Preorder (Calls.free_stateid client.sender stateid) _
            (free_stateid-Moves stateid)
            (λ _.
              bind-Moves Keeps-Preorder (release_lock_owner client state.owner) _
                (release_lock_owner-Moves state.owner) (λ released. pure-Moves Keeps-Preorder tt)))

  close_lost-Moves : (b : Bool) (state : LockState) → Moves Keeps (close_lost client b state)
  close_lost-Moves false state = pure-Moves Keeps-Preorder tt
  close_lost-Moves true state =
      bind-Moves Keeps-Preorder (asking client (λ s. s.open_seqid)) _
        (asking-Moves (λ s. s.open_seqid))
        (λ seqid.
          bind-Moves Keeps-Preorder
            (attempt (
              client.recovery_compound
                (Operation.put_fh state.handle ∷ Operation.close seqid state.open_stateid ∷ [])))
            _
            (attempt-Moves Keeps-Preorder _ (
              recovery_kept
                (Operation.put_fh state.handle ∷ Operation.close seqid state.open_stateid ∷ [])))
            (λ closed. next_open_seqid-Moves true))

  release_held-Moves :
      (state : LockState) (lost : Option Status) → Moves Keeps (release_held client state lost)
  release_held-Moves state (some status) =
      bind-Moves Keeps-Preorder (asking client (client.sender).client_id) _
        (asking-Moves (client.sender).client_id)
        (λ client_id.
          bind-Moves Keeps-Preorder (close_lost client (state.client_id == client_id) state) _
            (close_lost-Moves (state.client_id == client_id) state)
            (λ _. raise-Moves Keeps-Preorder (lock_lost status)))
  release_held-Moves state none =
      bind-Moves Keeps-Preorder (attempt (release_range client state)) _
        (attempt-Moves Keeps-Preorder _ (release_range-Moves state))
        (λ result.
          bind-Moves Keeps-Preorder
            (attempt
              (close client (record { handle = state.handle; stateid = state.open_stateid })))
            _
            (attempt-Moves Keeps-Preorder _
              (close-Moves (record { handle = state.handle; stateid = state.open_stateid })))
            (λ close_result. lift-Moves Keeps-Preorder (finish_with_close result close_result)))

  get-forgotten :
      (r : LockRegistry) (cells : List ℕ) (lock : ByteRangeLock)
      → r.entries ≡ retain_others lock.state cells
      → Locks.get r lock
        ≡ err (protocol "lock belongs to a different client or was already released")
  unfolding Locks.get
  get-forgotten r cells lock h = rw (h, holds_cell-retain cells lock.state)

  -- If no COMPOUND and no recovery adds or removes a lock, then after the release of a held lock, however
  -- the server answers and whether the release succeeds or not, exactly that lock is gone from the
  -- registry, so that no later recovery reclaims it, and its token is refused.
  pub unlock-forgets :
      (lock : ByteRangeLock) (state : LockState) (s : Holder E)
      → Locks.get s.locks lock ≡ ok state
      → (((unlock client lock s).1).locks.entries ≡ (Locks.remove s.locks lock).entries)
        × (Locks.get ((unlock client lock s).1).locks lock
            ≡ err (protocol "lock belongs to a different client or was already released"))
  unfolding unlock Locks.remove
  unlock-forgets lock state s h =
      (gone, get-forgotten ((unlock client lock s).1).locks (s.locks).entries lock gone)
    where
      form :
          unlock client lock s
          ≡ release_held client state state.lost (record s { locks = Locks.remove s.locks lock })
      form =
          ap
            (λ r.
              continue r (λ held. forgetting client lock >> release_held client held held.lost) s)
            h

      gone : ((unlock client lock s).1).locks.entries ≡ retain_others lock.state (s.locks).entries
      gone =
          ap (λ p. (p.1).locks.entries) form
          ∙ (release_held-Moves state state.lost).moves
              (record s { locks = Locks.remove s.locks lock })
