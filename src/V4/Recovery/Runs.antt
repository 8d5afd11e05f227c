-- ===== src/V4/Recovery/Runs.antt =====
-- Runs of the recovery of a session on a small registry.
use nfs.Prelude.{
  ℕ, ◌+◌, ◌≤◌, ◌≡◌, ◌++◌, refl, false, none, some, List, [], ◌∷◌, arith, length, replicate,
}
use nfs.Prelude.Outcome.{Result, ok, err}
use nfs.Error.{Error, IoErrorKind, io}
use nfs.Retry
use nfs.V4.Status
use nfs.V4.Args.{Bytes, StateId, LockType, OpenDelegation}
use nfs.V4.Operation
use nfs.V4.Operation.{Operation}
use nfs.V4.Response
use nfs.V4.Response.{CompoundResponse}
use nfs.V4.OpCode
use nfs.V4.Policy
use nfs.V4.Shape
use nfs.V4.Extract.States.{response_test_stateids}
use nfs.V4.Locks.{LockState, LockRegistry, snapshot, restore}
use nfs.V4.Setup.{Network, Wire, raw_compound_with_delayed_retry, sequenced_compound}
use nfs.V4.Setup.Bounded.{raw_with_bound, with_bound, setup_compounds-bounded}
use nfs.V4.Recovery.{Session, recover_locks}
use nfs.V4.Recovery.Reclaims.{Reclaims}

-- A server that has forgotten the second stateid of every lock that it is asked about.
abbrev answer : Bytes → List Operation → Result Error CompoundResponse
answer tag (Operation.sequence args ∷ (Operation.test_state_ids stateids ∷ [])) = ok (record {
  status = Status.ok;
  tag = tag;
  results =
      Response.OperationResult.sequence Status.ok none
      ∷ Response.OperationResult.test_state_ids Status.ok (Status.ok ∷ Status.expired ∷ [])
      ∷ [];
})
answer tag _ = err (io IoErrorKind.connection_reset)

abbrev forgetful : Network (Unit {0}) (Unit {0})
forgetful = record {
  connect = λ builder w. (ok tt, w);
  exchange = λ c tag minor_version operations w. (answer tag operations, w);
}

abbrev stateid : ℕ → StateId
stateid n = record { seqid = n; other = replicate 12 7 }

abbrev lock_of : ℕ → LockState
lock_of client_id = record {
  client_id = client_id;
  open_owner = 1 ∷ [];
  handle = 5 ∷ [];
  open_stateid = stateid 1;
  lock_stateid = stateid 2;
  lock_seqid = 1;
  lock_type = LockType.write;
  offset = 0;
  range_length = 10;
  owner = 2 ∷ [];
  lost = none;
}

abbrev two_locks : LockRegistry
two_locks = record { heap = lock_of 1 ∷ lock_of 9 ∷ []; entries = 0 ∷ 1 ∷ [] }

abbrev quiet : Wire (Unit {0})
quiet = record { log = []; net = tt }

abbrev session : Session (Unit {0}) (Unit {0})
session = record {
  rpc = tt;
  client_id = 1;
  session_id = 3 ∷ [];
  sequence_id = 1;
  open_seqid = 1;
  minor_version = 2;
  max_operations = 16;
  retry_policy = Retry.default;
  locks = two_locks;
  wire = quiet;
}

-- A server that finds every stateid valid, and grants every reclaim.
abbrev grants : Operation → Response.OperationResult
grants (Operation.sequence args) = Response.OperationResult.sequence Status.ok none
grants (Operation.test_state_ids stateids) =
    Response.OperationResult.test_state_ids Status.ok (Status.ok ∷ Status.ok ∷ [])
grants (Operation.open_file args) = Response.OperationResult.open_file Status.ok (
    some (record {
      stateid = stateid 7;
      result_flags = 0;
      attrset = [];
      delegation = OpenDelegation.no_delegation;
    }))
grants (Operation.lock args) = Response.OperationResult.lock Status.ok (some (stateid 8)) none
grants operation = Response.OperationResult.status_only (Operation.op_code operation) Status.ok

abbrev generous : Network (Unit {0}) (Unit {0})
generous = record {
  connect = λ builder w. (ok tt, w);
  exchange = λ c tag minor_version operations w. (
    ok (record { status = Status.ok; tag = tag; results = nfs.Prelude.map grants operations }),
    w,
  );
}

abbrev stateids_of : List LockState → List (StateId × StateId)
stateids_of locks = nfs.Prelude.map (λ lock. (lock.open_stateid, lock.lock_stateid)) locks

-- The lock of this client stays, and the one of another client is reclaimed.
renewed_run :
    ((recover_locks generous 0 (lock_of 1 ∷ lock_of 9 ∷ []) session).0 ≡ ok tt)
    × (stateids_of
          (snapshot ((recover_locks generous 0 (lock_of 1 ∷ lock_of 9 ∷ []) session).1).locks)
        ≡ (stateid 1, stateid 2) ∷ (stateid 7, stateid 8) ∷ [])
unfolding recover_locks nfs.V4.Recovery.means_lost Policy.validate_session_compound_operation_count
    Shape.validate_compound_response_shape OpCode.eq OpCode.as_u32 Response.op_code
    Operation.op_code Status.is_ok Response.status_of Policy.response_allows_delayed_retry
    Policy.first_delayed_retry_result_index Policy.status_allows_delayed_retry Response.ensure_ok
    response_test_stateids Status.indicates_lost_state snapshot restore
    Policy.response_consumed_owner_seqid Policy.owner_seqid_status_consumes
    nfs.V4.Extract.States.response_open nfs.V4.Extract.States.validate_open_result
    nfs.V4.Extract.States.response_lock
renewed_run = (refl, refl)

-- A server that puts everything off.
abbrev delaying : Network (Unit {0}) (Unit {0})
delaying = record {
  connect = λ builder w. (ok tt, w);
  exchange = λ c tag minor_version operations w.
      (ok (record { status = Status.delay; tag = tag; results = [] }), w);
}

abbrev asked : List Operation
asked = Operation.test_state_ids (stateid 1 ∷ stateid 2 ∷ []) ∷ []

setup_compounds-bounded_example :
    ((raw_with_bound delaying tt [] 2 Retry.default asked 5 quiet
        ≡ raw_compound_with_delayed_retry delaying tt [] 2 asked Retry.default quiet)
      × (length ((raw_compound_with_delayed_retry delaying tt [] 2 asked Retry.default quiet).1).log
          ≤ 0 + 3 + 1))
    × ((with_bound delaying tt [] 2 (3 ∷ []) 16 Retry.default asked 5 (1, quiet)
          ≡ sequenced_compound delaying tt [] 2 (3 ∷ []) 16 Retry.default asked (1, quiet))
        × (length
              (((sequenced_compound delaying tt [] 2 (3 ∷ []) 16 Retry.default asked (1, quiet)).1
                ).1).log
            ≤ 0 + 3 + 1))
setup_compounds-bounded_example =
    setup_compounds-bounded delaying tt [] 2 (3 ∷ []) 16 Retry.default asked 5 (1, quiet) quiet
      (omega arith)

abbrev lost_of : List LockState → List (nfs.Prelude.Option nfs.V4.Status.Status)
lost_of locks = nfs.Prelude.map (λ lock. lock.lost) locks

-- The lock of this client is found lost, and the reclaim of the other one is broken off.
recovered_run :
    ((recover_locks forgetful 0 (lock_of 1 ∷ lock_of 9 ∷ []) session).0
      ≡ err (io IoErrorKind.connection_reset))
    × (lost_of (snapshot ((recover_locks forgetful 0 (lock_of 1 ∷ lock_of 9 ∷ []) session).1).locks)
        ≡ some Status.expired ∷ none ∷ [])
unfolding recover_locks nfs.V4.Recovery.means_lost Policy.validate_session_compound_operation_count
    Shape.validate_compound_response_shape OpCode.eq OpCode.as_u32 Response.op_code
    Operation.op_code Status.is_ok Response.status_of Policy.response_allows_delayed_retry
    Policy.first_delayed_retry_result_index Policy.status_allows_delayed_retry Response.ensure_ok
    response_test_stateids Status.indicates_lost_state snapshot restore
recovered_run = (refl, refl)
