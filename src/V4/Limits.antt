-- ===== src/V4/Limits.antt =====
-- The limits of a session and the policies of src/v4/client.rs, together with the codes of
-- src/v4/proto.rs that they decide by.
use nfs.Prelude.{
  ℕ, ◌+◌, ◌≤◌, ◌<◌, ◌≡◌, ◌⊎◌, inl, inr, refl, ap, Bool, true, false, not, ◌&&◌, some, String, List,
  [], ◌∷◌, ◌++◌, arith, leb, if◌then◌else◌, last?,
}
use nfs.Prelude.Outcome.{then-ok, Result, ok, err, err-ok}
use nfs.Error.{Error, nfs_v4}
use nfs.V4.Status
use nfs.V4.Status.{Status}
use nfs.V4.OpCode.{OpCode}
use nfs.V4.Operation.{Operation, Bytes}
use nfs.V4.Response.{CompoundResponse, op_name, ensure_ok}
use nfs.V4.Replay.{
  operation_can_replay_after_session_recovery, operation_can_replay_after_successful_prefix,
}
use nfs.V4.Args.{ChannelAttrs}
use nfs.V4.Policy.{
  nfs4_max_ops, nfs4_max_io, nfs4_compound_io_headroom, session_payload_limit,
  session_max_operations, validate_session_channel_size, validate_session_channel_attrs,
  validate_session_compound_operation_count, status_allows_delayed_retry,
}
use nfs.V4.Recovery.{means_lost}
use nfs.V4.WellShaped.{WellShaped, Verdict, Stopped}

-- A payload that leaves the headroom in a message of the size.
abbrev pub IsPayloadLimit : ℕ → Type 0
IsPayloadLimit size =
    (0 < session_payload_limit size)
    × (session_payload_limit size + nfs4_compound_io_headroom ≤ size)
    × (session_payload_limit size ≤ nfs4_max_io)

size-IsPayloadLimit : (size : ℕ) → validate_session_channel_size size ≡ ok tt → IsPayloadLimit size
unfolding validate_session_channel_size session_payload_limit
size-IsPayloadLimit size h = by_size (leb size nfs4_compound_io_headroom) _ refl h
  where
    by_size :
        (b : Bool) (e : Error)
        → b ≡ leb size nfs4_compound_io_headroom
        → ◌≡◌ {A = Result Error (Unit {0})} (if b then err e else ok tt) (ok tt)
        → IsPayloadLimit size
    by_size true e q k = absurd (err-ok k)
    by_size false e q k = (ground (arith, q), ground (arith, q), ground (arith, q))

-- In a session whose channel attributes are accepted, the payload limits of requests and responses are
-- not zero, leave the headroom of a COMPOUND, and are within the largest I/O.
pub validate_session_channel_attrs-IsPayloadLimit :
    (attrs : ChannelAttrs)
    → validate_session_channel_attrs attrs ≡ ok tt
    → IsPayloadLimit attrs.max_request_size × IsPayloadLimit attrs.max_response_size
unfolding validate_session_channel_attrs
validate_session_channel_attrs-IsPayloadLimit attrs h =
    let a = then-ok _ _ h in
    let b = then-ok _ _ a.1 in
    (
      size-IsPayloadLimit attrs.max_request_size a.0,
      size-IsPayloadLimit attrs.max_response_size b.0,
    )

-- A COMPOUND that passes the count of its session fits, with its SEQUENCE, into what the server
-- granted and into the array that the codec writes.
pub validate_session_compound_operation_count-fits :
    (attrs : ChannelAttrs) (max_operations count : ℕ)
    → session_max_operations attrs ≡ ok max_operations
    → validate_session_compound_operation_count count max_operations ≡ ok tt
    → (count + 1 ≤ attrs.max_operations) × (count + 1 ≤ nfs4_max_ops)
unfolding session_max_operations validate_session_compound_operation_count
validate_session_compound_operation_count-fits attrs max_operations count g h = ground arith

-- What may be replayed in a new session may also be repeated within a session.
pub can_replay_after_session_recovery-prefix :
    (operation : Operation)
    → operation_can_replay_after_session_recovery operation ≡ true
    → operation_can_replay_after_successful_prefix operation ≡ true
unfolding operation_can_replay_after_session_recovery operation_can_replay_after_successful_prefix
can_replay_after_session_recovery-prefix (Operation.read stateid offset count) h = refl
can_replay_after_session_recovery-prefix Operation.put_root_fh h = refl
can_replay_after_session_recovery-prefix _ h = ground arith

last?-snoc : {A : Type 0} (xs : List A) (x : A) → last? (xs ++ (x ∷ [])) ≡ some x
last?-snoc [] x = refl
last?-snoc (y ∷ []) x = refl
last?-snoc (y ∷ z ∷ xs) x = last?-snoc (z ∷ xs) x

-- The error of a failed response that obeys the rules carries the status of the whole response.
pub ensure_ok-status :
    (tag : Bytes) (expected : List OpCode) (response : CompoundResponse)
    → WellShaped tag expected response
    → Status.is_ok response.status ≡ false
    → (name : String) × (ensure_ok response ≡ err (nfs_v4 name response.status))
unfolding ensure_ok
ensure_ok-status tag expected response w h = by_results (stopped_of w.verdict)
  where
    stopped_of : Verdict expected response → (response.results ≡ []) ⊎ Stopped response
    stopped_of (inl v) = cc
    stopped_of (inr v) = v.1

    by_results :
        (response.results ≡ []) ⊎ Stopped response
        → (name : String) × (ensure_ok response ≡ err (nfs_v4 name response.status))
    by_results (inl e) = ("COMPOUND", rw (h, e))
    by_results (inr s) = (
      op_name s.failed,
      rw (h, s.split, last?-snoc s.before s.failed)
          (ap (λ q. err (nfs_v4 (op_name s.failed) q)) s.same),
    )

-- No status is handled in two ways that exclude each other. DELAY and GRACE, for which alone the client
-- waits and tries again, never ask for a new session, never make the recovery mark a lock as lost, and are
-- reported as retryable; a status that is reported as retryable asks for no new session either; and OK is
-- in none of these classes, and does not say that a state is lost.
pub status_classes-disjoint :
    (status : Status)
    → ((status_allows_delayed_retry status && Status.requires_session_recovery status) ≡ false)
      × ((status_allows_delayed_retry status && means_lost status) ≡ false)
      × ((status_allows_delayed_retry status && not (Status.is_retryable status)) ≡ false)
      × ((Status.is_retryable status && Status.requires_session_recovery status) ≡ false)
      × ((Status.is_ok status && status_allows_delayed_retry status) ≡ false)
      × ((Status.is_ok status && Status.is_retryable status) ≡ false)
      × ((Status.is_ok status && Status.requires_session_recovery status) ≡ false)
      × ((Status.is_ok status && means_lost status) ≡ false)
      × ((Status.is_ok status && Status.indicates_lost_state status) ≡ false)
unfolding Status.is_retryable Status.requires_session_recovery Status.indicates_lost_state
    Status.is_ok status_allows_delayed_retry means_lost
status_classes-disjoint Status.delay = (refl, refl, refl, refl, refl, refl, refl, refl, refl)
status_classes-disjoint _ = (refl, refl, refl, refl, refl, refl, refl, refl, refl)
