-- ===== src/V4/Recovery/Reclaims.antt =====
-- What src/v4/blocking.rs sends while it recovers the locks: nothing that would take a lock, or open a
-- file, other than by reclaiming it.
use nfs.Prelude.{ℕ, ◌≡◌, refl, ◌∙◌}
use nfs.Prelude.Moves.{Preorder, Moves}
use nfs.Error.{Error}
use nfs.V4.Status.{Status}
use nfs.V4.Locks.{LockState}
use nfs.V4.Setup.{Network}
use nfs.V4.Recovery.Asks.{Sent, Sent-refl, Sent-trans}
use nfs.V4.Recovery.{Session, restoring}

module _ {ℓ} {C N : Type ℓ} where
  -- Between the two states, only such COMPOUNDs were sent.
  pub record Reclaims (s s' : Session C N) : Type ℓ where
    pub sent : Sent s.wire s'.wire
    pub same_client : s'.client_id ≡ s.client_id

  pub Reclaims-Preorder : Preorder Reclaims
  Reclaims-Preorder = record {
    reflexive = λ s. record { sent = Sent-refl s.wire; same_client = refl };
    transitive = λ p q. record {
      sent = Sent-trans p.sent q.sent;
      same_client = q.same_client ∙ p.same_client;
    };
  }

module _ {ℓ} {C N : Type ℓ} (network : Network C N) where
  pub restoring-Reclaims :
      (index : ℕ) (lock : LockState) → Moves Reclaims (restoring network index lock)
  restoring-Reclaims index lock = record {
    moves = λ s. record { sent = Sent-refl s.wire; same_client = refl };
  }
