-- ===== src/V4/Recovery/Keeps.antt =====
-- What the recovery of src/v4/blocking.rs makes of the locks: each stays the range that it was, and after a
-- recovery that succeeds each is lost, valid as it was, or held under stateids that the server gave out.
use nfs.Prelude.{◌≡◌, List, ◌++◌}
use nfs.Prelude.Outcome.{Result}
use nfs.Error.{Error}
use nfs.V4.Locks.{LockState, snapshot}
use nfs.V4.Tokens.{WellFormed}
use nfs.V4.Setup.{Network}
use nfs.V4.Recovery.{Session}
use nfs.V4.Recovery.Reclaims.{Reclaims}
use nfs.V4.Recovery.Gains.{OnOk}
use nfs.V4.Recovery.Steps.{Recovered, Perhaps, Each, After}

-- The registry before and after the loop over the locks.
pub record Recovers {ℓ} {C N : Type ℓ} (network : Network C N) (s : Session C N)
    (p : Result Error (Unit {0}) × Session C N) : Type ℓ where
  pub well_formed : WellFormed (p.1).locks
  pub each : Each (Perhaps network s) (snapshot s.locks) (snapshot (p.1).locks)
  pub recovered :
      OnOk (λ _. Each (Recovered network s) (snapshot s.locks) (snapshot (p.1).locks)) p.0

module _ {ℓ} {C N : Type ℓ} (network : Network C N) (origin : Session C N) where
  record Looped (done locks : List LockState) (p : After network origin) : Type ℓ where
    well_formed : WellFormed (p.1).locks
    locks' : List LockState
    now : snapshot (p.1).locks ≡ done ++ locks'
    each : Each (Perhaps network origin) locks locks'
    recovered : OnOk (λ _. Each (Recovered network origin) locks locks') p.0
