-- ===== src/V4/Replays.antt =====
-- `Client::compound_status` of src/v4/blocking.rs as a whole: it ends, it sends a bounded number of
-- times, and what must not be repeated in a new session is not.
use nfs.Prelude.{
  ℕ, zero, suc, ◌+◌, ◌≤◌, ◌≡◌, refl, sym, ap, ◌∙◌, Bool, true, false, ◌||◌, some, List, [], ◌∷◌,
  ◌++◌, arith, append_assoc, append-nil, length,
}
use nfs.Prelude.Outcome.{Result, ok, err}
use nfs.Error.{Error}
use nfs.Retry.{RetryPolicy}
use nfs.V4.Operation.{Operation}
use nfs.V4.Response.{CompoundResponse}
use nfs.V4.Replay.{operations_can_replay_after_session_recovery, operations_release_state}
use nfs.V4.Policy.{validate_session_compound_operation_count}
use nfs.V4.Locks
use nfs.V4.Session.{
  Event, sent, recovery, Client, Surroundings, Outcome, recover_session, with_valid_locks,
  compound_loop, enough_fuel, start, after_pending, compound_status,
}
use nfs.V4.Traces.{Renewed, recover_session-Renewed}
use nfs.V4.Sends.{Trace, stop, delayed, lost, resumed, compound_loop-Runs}

-- How many COMPOUNDs the events send.
abbrev pub sends : List Event → ℕ
sends [] = 0
sends (sent x ∷ events) = suc (sends events)
sends (recovery ∷ events) = sends events

-- Nothing is sent from the first recovery on.
abbrev pub silent_after_recovery : List Event → Bool
silent_after_recovery [] = true
silent_after_recovery (sent x ∷ events) = silent_after_recovery events
silent_after_recovery (recovery ∷ events) = elim (sends events) [ zero ↦ true | suc n ↦ false ]

-- Resending after a recovery.
abbrev extra : Bool → ℕ
extra true = 0
extra false = 1

Trace-sends :
    {replay : Bool} {n : ℕ} {recovered : Bool} {events : List Event}
    → Trace replay n recovered events
    → sends events ≤ n + 1 + extra recovered
Trace-sends (stop n r x) = omega arith
Trace-sends (delayed n r x events t) = omega (arith, Trace-sends t)
Trace-sends (lost n x) = omega arith
Trace-sends (resumed n x events h t) = omega (arith, Trace-sends t)

Trace-silent :
    {replay : Bool} {n : ℕ} {recovered : Bool} {events : List Event}
    → replay ≡ false
    → Trace replay n recovered events
    → silent_after_recovery events ≡ true
Trace-silent h (stop n r x) = refl
Trace-silent h (delayed n r x events t) = Trace-silent h t
Trace-silent h (lost n x) = refl
Trace-silent h (resumed n x events e t) = cc

or-true : (a b : Bool) → (a ≡ false → b ≡ true) → (a || b) ≡ true
or-true true b h = refl
or-true false b h = h refl

module _ {ℓ} {W : Type ℓ} (env : Surroundings W) (operations : List Operation) where
  -- A run that ended, from the client c on.
  pub record Ended (c : Client W) (o : Outcome env) : Type ℓ where
    pub result : Result Error CompoundResponse
    pub after : Client W
    pub events : List Event
    pub ends : o ≡ some (result, after)
    pub logged : after.log ≡ c.log ++ events
    pub bounded : sends events ≤ (c.retry_policy).max_retries + 2
    pub silent :
        (operations_can_replay_after_session_recovery operations || silent_after_recovery events)
        ≡ true

  abbrev at_once : (r : Result Error CompoundResponse) (c : Client W) → Ended c (some (r, c))
  at_once r c = record {
    result = r;
    after = c;
    events = [];
    ends = refl;
    logged = sym (append-nil c.log);
    bounded = omega arith;
    silent = or-true (operations_can_replay_after_session_recovery operations) true (λ h. refl);
  }

  loop-Ended : (c : Client W) → Ended c (compound_loop env (enough_fuel env c) operations 0 false c)
  loop-Ended c =
      let r =
        compound_loop-Runs env (enough_fuel env c) (c.retry_policy).max_retries operations 0 false c
          (omega arith) (omega arith) in
      record {
        result = r.result;
        after = r.after;
        events = r.events;
        ends = r.ends;
        logged = r.logged;
        bounded = omega (arith, Trace-sends r.trace);
        silent =
            or-true (operations_can_replay_after_session_recovery operations) _
              (λ h. Trace-silent h r.trace);
      }

  start-Ended : (c : Client W) → Ended c (start env operations c)
  start-Ended c = by_release (operations_release_state operations)
    where
      by_locks :
          (r : Result Error (Unit {0}))
          → Ended c (elim r [
            | ok _ ↦ compound_loop env (enough_fuel env c) operations 0 false c
            | err e ↦ some (err e, c)
          ])
      by_locks (ok _) = loop-Ended c
      by_locks (err e) = at_once (err e) c

      by_release :
          (b : Bool)
          → Ended c (
              with_valid_locks env b
                (λ c'. compound_loop env (enough_fuel env c') operations 0 false c')
                c)
      by_release true = loop-Ended c
      by_release false = by_locks (Locks.ensure_valid c.locks)

  -- A recovery, and then nothing, or a run of operations that may be replayed.
  Renewed-Ended :
      {c c' : Client W} {o : Outcome env}
      → Renewed env c c'
      → (e : Ended c' o)
      → (operations_can_replay_after_session_recovery operations ≡ false → sends e.events ≡ 0)
      → Ended c o
  Renewed-Ended {c} k e none_sent = record {
    result = e.result;
    after = e.after;
    events = recovery ∷ e.events;
    ends = e.ends;
    logged =
        e.logged ∙ ap (λ l. l ++ e.events) k.grown ∙ append_assoc c.log (recovery ∷ []) e.events;
    bounded = omega (arith, e.bounded, ap (λ (p : RetryPolicy). p.max_retries) k.policy);
    silent =
        or-true (operations_can_replay_after_session_recovery operations) _
          (λ h. ap (λ n. elim n [ zero ↦ true | suc m ↦ false ]) (none_sent h));
  }

  after_pending-Ended :
      {c : Client W} (p : Result Error (Unit {0}) × Client W)
      → Renewed env c p.1
      → Ended c (after_pending env operations p)
  after_pending-Ended (err e, c') k = Renewed-Ended k (at_once (err e) c') (λ h. refl)
  after_pending-Ended {c} (ok _, c') k =
      by_replay (operations_can_replay_after_session_recovery operations) refl
    where
      by_replay :
          (b : Bool)
          → b ≡ operations_can_replay_after_session_recovery operations
          → Ended c (elim b [
            | true ↦ start env operations c'
            | false ↦ some (err (nfs.Error.nfs_v4 "SEQUENCE" nfs.V4.Status.bad_session), c')
          ])
      by_replay true e = Renewed-Ended k (start-Ended c') (λ h. cc)
      by_replay false e = Renewed-Ended k (at_once _ c') (λ h. refl)

  -- Whatever the server answers and however the recoveries go, `compound_status` ends with a result;
  -- it sends at most max_retries + 2 times; and operations that may not be replayed in a new session
  -- are not sent again after a session recovery.
  pub compound_status-Ended : (c : Client W) → Ended c (compound_status env operations c)
  unfolding compound_status
  compound_status-Ended c =
      by_count (validate_session_compound_operation_count (length operations) c.max_operations)
    where
      by_lease :
          (b : Bool)
          → Ended c (elim b [
            | true ↦ after_pending env operations (recover_session env c)
            | false ↦ start env operations c
          ])
      by_lease true = after_pending-Ended _ (recover_session-Renewed env c)
      by_lease false = start-Ended c

      by_pending :
          (b : Bool)
          → Ended c (elim b [
            | true ↦ after_pending env operations (recover_session env c)
            | false ↦ elim c.lease_failed [
              | true ↦ after_pending env operations (recover_session env c)
              | false ↦ start env operations c
            ]
          ])
      by_pending true = after_pending-Ended _ (recover_session-Renewed env c)
      by_pending false = by_lease c.lease_failed

      by_count :
          (r : Result Error (Unit {0}))
          → Ended c (elim r [
            | err e ↦ some (err e, c)
            | ok _ ↦ elim c.recovery_pending [
              | true ↦ after_pending env operations (recover_session env c)
              | false ↦ elim c.lease_failed [
                | true ↦ after_pending env operations (recover_session env c)
                | false ↦ start env operations c
              ]
            ]
          ])
      by_count (err e) = at_once (err e) c
      by_count (ok _) = by_pending c.recovery_pending
