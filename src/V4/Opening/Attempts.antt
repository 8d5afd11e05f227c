-- ===== src/V4/Opening/Attempts.antt =====
-- The loop of an OPEN in src/v4/blocking.rs ends within its fuel.
use nfs.Prelude.{ℕ, ◌≡◌, Bool}
use nfs.Error.{Error}
use nfs.Retry
use nfs.Retry.{RetryPolicy}
use nfs.V4.OpCode
use nfs.V4.Args.{Bytes}
use nfs.V4.Files.{OpenedFile}
use nfs.V4.Opening.{Holder, Owner, Owning, OpenFailureCleanup}

module _ {ℓ} {E : Type ℓ} (client : Owner E) (policy : RetryPolicy)
    (constant : (s : Holder E) → client.retry_policy s ≡ policy) (path : Bytes)
    (cleanup : OpenFailureCleanup) where
  abbrev Again : Type ℓ
  Again = ℕ → Bool → Owning client OpenedFile
