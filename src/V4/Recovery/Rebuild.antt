-- ===== src/V4/Recovery/Rebuild.antt =====
-- src/v4/blocking.rs: `Client::recover_session` with all that it does around the locks, and the client's
-- session loop on top of it.
--
-- `refresh_recovered_fsinfo`, and the thread of the lease renewal, are parameters. The old session of a
-- client that gets a new one is destroyed over its own connection, whatever comes of that.
use nfs.Prelude.{
  ℕ, zero, suc, Bool, true, false, ◌&&◌, none, some, List, [], ◌∷◌, ◌==◌, if◌then◌else◌,
}
use nfs.Prelude.Outcome
use nfs.Prelude.Outcome.{Result, ok, err}
use nfs.Prelude.Exec.{pure, raise, lift, attempt, ◌>>=◌, ◌>>◌}
use nfs.Error.{Error, is_transport_failure}
use nfs.Retry
use nfs.Retry.{RetryPolicy}
use nfs.V4.Args.{Bytes}
use nfs.V4.Operation.{Operation}
use nfs.V4.Response.{CompoundResponse, ensure_ok}
use nfs.V4.Policy.{ensure_reclaim_complete}
use nfs.V4.Locks
use nfs.V4.Locks.{LockRegistry}
use nfs.V4.Session
use nfs.V4.Session.{Client, Rebuilt, Surroundings}
use nfs.V4.Setup.{
  Network, Wire, Acting, is_granted, raw_compound_with_rpc, destroy_session_with_rpc,
}
use nfs.V4.Setup.Options.{ClientBuilder}
use nfs.V4.Setup.Connect.{Connected, connect_session}
use nfs.V4.Recovery.{Session, Recovering, recovery_compound, recover_locks, when}
use nfs.V4.Recovery.Revoked.{check_revoked_locks}

-- The fields of `Client` that its session loop does not touch.
pub record World {ℓ} (C N : Type ℓ) : Type ℓ where
  pub rpc : C
  pub client_id : ℕ
  pub open_seqid : ℕ
  pub minor_version : ℕ
  pub builder : ClientBuilder
  -- `root_fsinfo.is_some()`
  pub has_fsinfo : Bool
  pub wire : Wire N

pub record Environment {ℓ} (C N : Type ℓ) : Type ℓ where
  pub network : Network C N
  pub refresh_recovered_fsinfo : Recovering network (Unit {0})
  pub stop_lease_renewal : N → N
  pub start_lease_renewal : N → Result Error (Unit {0}) × N

module _ {ℓ} {C N : Type ℓ} (env : Environment C N) where
  abbrev network : Network C N
  network = env.network

  -- The loop that connects again; `left` bounds the retries, as in `retrying`.
  unfoldable pub reconnecting : ClientBuilder → RetryPolicy → ℕ → ℕ → Acting network (Connected C)
  reconnecting builder policy zero retry = connect_session network builder false
  reconnecting builder policy (suc left) retry = do
    tried ← attempt (connect_session network builder false)
    elim tried [
      | ok connected ↦ pure connected
      | err e ↦ elim (is_transport_failure e && is_granted (Retry.delay_for_retry policy retry)) [
        | true ↦ reconnecting builder policy left (suc retry)
        | false ↦ raise e
      ]
    ]

  -- RECLAIM_COMPLETE, when all locks have been seen to
  unfoldable pub complete_recovery : Recovering network (Unit {0})
  complete_recovery = do
    response ← recovery_compound network (Operation.reclaim_complete false ∷ [])
    lift (ensure_reclaim_complete response)

  abbrev start_lease : Recovering network (Unit {0})
  start_lease s =
      let done = env.start_lease_renewal (s.wire).net in
      (done.0, record s { wire = record s.wire { net = done.1 } })

  unfoldable pub recover_state : LockRegistry → Bool → Recovering network (Unit {0})
  unfolding recover_locks complete_recovery Locks.snapshot
  recover_state locks has_fsinfo = do
    recover_locks network 0 (Locks.snapshot locks)
    complete_recovery
    when network has_fsinfo env.refresh_recovered_fsinfo
    start_lease

  abbrev pub rebuilding : Client (World C N) → Connected C → Wire N → Session C N
  rebuilding c connected w = record {
    rpc = connected.rpc;
    client_id = connected.client_id;
    session_id = connected.session_id;
    sequence_id = connected.sequence_id;
    open_seqid =
        if connected.client_id == (c.world).client_id
        then (c.world).open_seqid
        else connected.open_seqid;
    minor_version = connected.minor_version;
    max_operations = connected.max_operations;
    retry_policy = c.retry_policy;
    locks = c.locks;
    wire = w;
  }

  -- `shutdown` of the old client; its result is dropped
  abbrev pub shut_down : Client (World C N) → Wire N → Wire N
  shut_down c w =
      (destroy_session_with_rpc network (c.world).rpc (c.world).minor_version c.session_id w).1

  abbrev pub Rebuilding : Type ℓ
  Rebuilding = Result Error Rebuilt × (LockRegistry × World C N)

  abbrev pub replaced : Client (World C N) → Result Error (Unit {0}) × Session C N → Rebuilding
  replaced c (err e, s) = (err e, (s.locks, record c.world { wire = s.wire }))
  replaced c (ok _, s) = (
    ok (record {
      session_id = s.session_id;
      sequence_id = s.sequence_id;
      max_operations = s.max_operations;
    }),
    (
      s.locks,
      record c.world {
        rpc = s.rpc;
        client_id = s.client_id;
        open_seqid = s.open_seqid;
        minor_version = s.minor_version;
        wire = shut_down c s.wire;
      },
    ),
  )

  abbrev pub reconnected : Client (World C N) → Result Error (Connected C) × Wire N → Rebuilding
  reconnected c (err e, w) = (err e, (c.locks, record c.world { wire = w }))
  reconnected c (ok connected, w) =
      replaced c (recover_state c.locks (c.world).has_fsinfo (rebuilding c connected w))

  unfoldable pub rebuild : Client (World C N) → Rebuilding
  unfolding reconnecting recover_state
  rebuild c =
      let w = (c.world).wire in
      reconnected c (
        reconnecting (c.world).builder c.retry_policy (c.retry_policy).max_retries 0
          (record w { net = env.stop_lease_renewal w.net }))

  abbrev pub session_of : Client (World C N) → Session C N
  session_of c = record {
    rpc = (c.world).rpc;
    client_id = (c.world).client_id;
    session_id = c.session_id;
    sequence_id = c.sequence_id;
    open_seqid = (c.world).open_seqid;
    minor_version = (c.world).minor_version;
    max_operations = c.max_operations;
    retry_policy = c.retry_policy;
    locks = c.locks;
    wire = (c.world).wire;
  }

  unfoldable pub revoked_check :
      Client (World C N) → Result Error (Unit {0}) × (LockRegistry × (ℕ × World C N))
  unfolding check_revoked_locks
  revoked_check c =
      let done = check_revoked_locks network (session_of c) in
      (done.0, ((done.1).locks, ((done.1).sequence_id, record c.world { wire = (done.1).wire })))

  abbrev pub compound_tag : Bytes
  compound_tag = 110 ∷ 102 ∷ 115 ∷ 45 ∷ 114 ∷ 115 ∷ 45 ∷ 118 ∷ 52 ∷ []

  unfoldable pub raw_compound :
      List Operation → World C N → Result Error CompoundResponse × World C N
  unfolding raw_compound_with_rpc
  raw_compound operations world =
      let done =
        raw_compound_with_rpc network world.rpc compound_tag world.minor_version operations
          world.wire in
      (done.0, record world { wire = done.1 })

  -- The session loop's surroundings, by the code of the client.
  abbrev pub surroundings : Surroundings (World C N)
  surroundings = record {
    raw_compound = raw_compound;
    rebuild = rebuild;
    check_revoked = revoked_check;
  }

  unfoldable pub client_compound_status :
      List Operation → Client (World C N) → Session.Outcome surroundings
  unfolding Session.compound_status
  client_compound_status = Session.compound_status surroundings

  -- `compound`: a response that is not OK is an error
  unfoldable pub client_compound :
      List Operation → Client (World C N) → Session.Outcome surroundings
  unfolding client_compound_status
  client_compound operations c = elim (client_compound_status operations c) [
    | none ↦ none
    | some p ↦
        some (Outcome.◌>>=◌ p.0 (λ response. Outcome.◌>>◌ (ensure_ok response) (ok response)), p.1)
  ]
