-- ===== src/V4/Opening/Runs.antt =====
-- A lock that is released, at a server that grants everything.
use nfs.Prelude.{◌≡◌, refl, none, some, List, [], ◌∷◌, replicate}
use nfs.Prelude.Outcome.{ok, err}
use nfs.Prelude.Exec.{Exec}
use nfs.Error.{Error, protocol}
use nfs.Retry
use nfs.V4.Status
use nfs.V4.OpCode
use nfs.V4.Args
use nfs.V4.Args.{Bytes, StateId}
use nfs.V4.Operation
use nfs.V4.Operation.{Operation}
use nfs.V4.Response
use nfs.V4.Response.{OperationResult, CompoundResponse}
use nfs.V4.Locks
use nfs.V4.Locks.{LockRegistry, LockState, ByteRangeLock}
use nfs.V4.Opening.{Holder, Owner}
use nfs.V4.Opening.Locking.{unlock}
use nfs.V4.Opening.Releases.{unlock-forgets}

abbrev stateid : StateId
stateid = record { seqid = 1; other = replicate 12 5 }

abbrev granted : Operation → OperationResult
granted (Operation.lock_unlock args) = OperationResult.lock_unlock Status.ok (some stateid)
granted (Operation.close seqid id) = OperationResult.close Status.ok (some stateid)
granted operation = OperationResult.status_only (Operation.op_code operation) Status.ok

abbrev all_granted : List Operation → List OperationResult
all_granted [] = []
all_granted (operation ∷ operations) = granted operation ∷ all_granted operations

abbrev server : List Operation → Exec (Holder (Unit {0})) Error CompoundResponse
server operations s = (
  ok (record {
    status = Status.ok;
    tag = [];
    results = OperationResult.sequence Status.ok none ∷ all_granted operations;
  }),
  s,
)

abbrev owner : Owner (Unit {0})
owner = record {
  sender = record {
    compound = server;
    compound_status = server;
    minor_version = λ s. 2;
    client_id = λ s. 9;
  };
  recover_session = λ s. (ok tt, s);
  recovery_compound = server;
  retry_policy = λ s. Retry.default;
}

abbrev held : LockState
held = record {
  client_id = 9;
  open_owner = 7 ∷ [];
  handle = 1 ∷ 2 ∷ [];
  open_stateid = stateid;
  lock_stateid = stateid;
  lock_seqid = 2;
  lock_type = Args.LockType.write;
  offset = 0;
  range_length = 10;
  owner = 8 ∷ [];
  lost = none;
}

abbrev token : ByteRangeLock
token = record {
  state = 1;
  lock_type = Args.LockType.write;
  offset = 0;
  range_length = 10;
  owner = 8 ∷ [];
}

abbrev holder : Holder (Unit {0})
holder = record {
  open_seqid = 3;
  locks = record { heap = held ∷ held ∷ []; entries = 0 ∷ 1 ∷ [] };
  rest = tt;
}

entry_found : Locks.get holder.locks token ≡ ok held
unfolding Locks.get
entry_found = refl

unlock-forgets_example :
    (((unlock owner token holder).1).locks.entries ≡ (Locks.remove holder.locks token).entries)
    × (Locks.get ((unlock owner token holder).1).locks token
        ≡ err (protocol "lock belongs to a different client or was already released"))
unlock-forgets_example =
    unlock-forgets owner (λ ops. record { moves = λ s. refl }) (λ ops. record { moves = λ s. refl })
      (record { moves = λ s. refl }) (λ ops. record { moves = λ s. refl }) token held holder
      entry_found

released : (unlock owner token holder).0 ≡ ok tt
unfolding unlock Locks.get nfs.V4.Files.finish_with_close
    nfs.V4.Policy.response_operation_has_delayed_status OpCode.eq OpCode.as_u32 Response.op_code
    Operation.op_code nfs.V4.Policy.status_allows_delayed_retry Response.status_of
    nfs.V4.Extract.States.response_lock_unlock Status.is_ok nfs.V4.Calls.free_stateid
    nfs.V4.Extract.ensure_last_status nfs.V4.Setup.Options.validate_opaque_id
    nfs.V4.Extract.States.response_release_lock_owner nfs.V4.Opening.close
    nfs.V4.Policy.response_consumed_owner_seqid Locks.remove
    nfs.V4.Opening.Locking.release_lock_owner nfs.V4.Opening.Locking.unlock_opened
    nfs.V4.Opening.Locking.unlock_round nfs.V4.Opening.close_from
    nfs.V4.Opening.close_with_current_filehandle nfs.V4.Policy.owner_seqid_status_consumes
    nfs.V4.Policy.response_operation_requires_session_recovery Response.ensure_ok
    nfs.V4.Setup.retrying Status.requires_session_recovery
released = refl

abbrev name : Bytes
name = 97 ∷ []
