-- ===== src/V4/Setup/Bounded.antt =====
-- How often src/v4/blocking.rs sends a COMPOUND of the setup or of the recovery of a session: one without a
-- SEQUENCE, as for EXCHANGE_ID and CREATE_SESSION, or one in the session.
use nfs.Prelude.{ℕ, suc, ◌+◌, ◌≤◌, ◌≡◌, refl, List, [], ◌∷◌, arith, length, length-append}
use nfs.Prelude.Outcome.{Result, ok, err}
use nfs.Prelude.Exec.{Exec, lift, continue, ◌>>◌}
use nfs.Error.{Error}
use nfs.Retry.{RetryPolicy}
use nfs.V4.Args.{Bytes}
use nfs.V4.Operation.{Operation}
use nfs.V4.Response.{CompoundResponse}
use nfs.V4.Policy.{
  response_allows_delayed_retry, response_allows_delayed_retry_without_sequence,
  validate_session_compound_operation_count,
}
use nfs.V4.Setup.{
  Network, Wire, raw_compound_with_rpc, raw_compound_with_delayed_retry, sequenced_round,
  sequenced_compound, retrying,
}
use nfs.V4.Setup.Retries.{retrying-left, retrying-count}

module _ {ℓ} {C N : Type ℓ} (network : Network C N) (rpc : C) (tag : Bytes) (minor_version : ℕ)
    (policy : RetryPolicy) (operations : List Operation) where
  -- The loop without a SEQUENCE, with another bound on its retries.
  abbrev pub raw_with_bound : ℕ → Exec (Wire N) Error CompoundResponse
  raw_with_bound left =
      retrying (response_allows_delayed_retry_without_sequence operations)
        (raw_compound_with_rpc network rpc tag minor_version operations) policy left 0

  abbrev RawEnds : ℕ → Wire N → Type ℓ
  RawEnds left w =
      (raw_with_bound left w
        ≡ raw_compound_with_delayed_retry network rpc tag minor_version operations policy w)
      × (length
            ((raw_compound_with_delayed_retry network rpc tag minor_version operations policy w).1
              ).log
          ≤ length w.log + policy.max_retries + 1)

  pub raw_compound-bounded : (left : ℕ) (w : Wire N) → policy.max_retries ≤ left → RawEnds left w
  unfolding raw_compound_with_delayed_retry
  raw_compound-bounded left w h = (
    retrying-left (response_allows_delayed_retry_without_sequence operations) _ policy left
        policy.max_retries 0 w (omega (arith, h)) (omega arith),
    omega (
      arith,
      retrying-count (response_allows_delayed_retry_without_sequence operations)
          (raw_compound_with_rpc network rpc tag minor_version operations) policy
          (λ v. length v.log) round-sends policy.max_retries 0 w,
    ),
  )
    where
      round-sends :
          (v : Wire N)
          → length ((raw_compound_with_rpc network rpc tag minor_version operations v).1).log
            ≤ suc (length v.log)
      round-sends v =
          unfold raw_compound_with_rpc in
          (let more = length-append v.log (operations ∷ []) in omega (arith, more))

module _ {ℓ} {C N : Type ℓ} (network : Network C N) (rpc : C) (tag : Bytes) (minor_version : ℕ)
    (session_id : Bytes) (max_operations : ℕ) (policy : RetryPolicy)
    (operations : List Operation) where
  abbrev State : Type ℓ
  State = ℕ × Wire N

  -- The loop with another bound on its retries.
  abbrev pub with_bound : ℕ → Exec State Error CompoundResponse
  with_bound left =
      lift (validate_session_compound_operation_count (length operations) max_operations)
      >> retrying (response_allows_delayed_retry operations)
          (sequenced_round network rpc tag minor_version session_id operations) policy left 0

  abbrev sends : State → ℕ
  sends s = length (s.1).log

  round-sends :
      (s : State)
      → sends (sequenced_round network rpc tag minor_version session_id operations s).1
        ≤ suc (sends s)
  unfolding sequenced_round raw_compound_with_rpc
  round-sends s =
      let more =
        length-append (s.1).log ((nfs.V4.Setup.sequence_args session_id s.0 ∷ operations) ∷ []) in
      omega (arith, more)

  -- The same for the loop in a session.
  in_session-bounded :
      (left : ℕ) (s : State)
      → policy.max_retries ≤ left
      → (with_bound left s
          ≡ sequenced_compound network rpc tag minor_version session_id max_operations policy
              operations s)
        × (length
              (((sequenced_compound network rpc tag minor_version session_id max_operations policy
                  operations s).1
                ).1).log
            ≤ length (s.1).log + policy.max_retries + 1)
  unfolding sequenced_compound
  in_session-bounded left s h =
      by_count (validate_session_compound_operation_count (length operations) max_operations)
    where
      looped : ℕ → Exec State Error CompoundResponse
      looped n =
          retrying (response_allows_delayed_retry operations)
            (sequenced_round network rpc tag minor_version session_id operations) policy n 0

      by_count :
          (r : Result Error (Unit {0}))
          → (continue r (λ _. looped left) s ≡ continue r (λ _. looped policy.max_retries) s)
            × (sends (continue r (λ _. looped policy.max_retries) s).1
                ≤ length (s.1).log + policy.max_retries + 1)
      by_count (err e) = (refl, omega arith)
      by_count (ok _) = (
        retrying-left (response_allows_delayed_retry operations) _ policy left policy.max_retries 0
            s (omega (arith, h)) (omega arith),
        omega (
          arith,
          retrying-count (response_allows_delayed_retry operations)
              (sequenced_round network rpc tag minor_version session_id operations) policy sends
              round-sends policy.max_retries 0 s,
        ),
      )

  -- A COMPOUND of the setup or the recovery of a session ends, whether it is sent without a SEQUENCE, as
  -- for EXCHANGE_ID and CREATE_SESSION, or in the session: a loop with any bound that covers the retries of
  -- the policy does the same, and it is sent at most max_retries + 1 times.
  pub setup_compounds-bounded :
      (left : ℕ) (s : State) (w : Wire N)
      → policy.max_retries ≤ left
      → ((raw_with_bound network rpc tag minor_version policy operations left w
            ≡ raw_compound_with_delayed_retry network rpc tag minor_version operations policy w)
          × (length
                ((raw_compound_with_delayed_retry network rpc tag minor_version operations policy
                    w).1
                  ).log
              ≤ length w.log + policy.max_retries + 1))
        × ((with_bound left s
              ≡ sequenced_compound network rpc tag minor_version session_id max_operations policy
                  operations s)
            × (length
                  (((sequenced_compound network rpc tag minor_version session_id max_operations
                      policy operations s).1
                    ).1).log
                ≤ length (s.1).log + policy.max_retries + 1))
  setup_compounds-bounded left s w h = (
    raw_compound-bounded network rpc tag minor_version policy operations left w h,
    in_session-bounded left s h,
  )
