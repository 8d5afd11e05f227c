-- ===== src/V4/Opening/Rounds.antt =====
-- The loop of a CLOSE in src/v4/blocking.rs ends within its fuel.
use nfs.Prelude.{
  ℕ, zero, suc, ◌+◌, ◌≤◌, ◌<◌, ◌≡◌, refl, sym, ap, ◌∙◌, Bool, true, false, ◌&&◌, not, List, arith,
  leb,
}
use nfs.Prelude.Outcome.{Result, ok, err}
use nfs.Prelude.Exec.{◌>>=◌, ◌>>◌}
use nfs.Error.{Error, is_session_recoverable}
use nfs.Retry
use nfs.Retry.{RetryPolicy}
use nfs.V4.OpCode
use nfs.V4.Args.{StateId}
use nfs.V4.Operation.{Operation}
use nfs.V4.Response.{CompoundResponse}
use nfs.V4.Policy.{
  response_consumed_owner_seqid, response_operation_has_delayed_status,
  response_operation_requires_session_recovery,
}
use nfs.V4.Setup.{is_granted}
use nfs.V4.Setup.Retries.{not_granted}
use nfs.V4.Opening.{
  Holder, Owner, Owning, verdict_of, verdict, once_more, sent, next_open_seqid, close_operations,
  after_close, close_received, close_from,
}

-- the round that a recovery may still bring
abbrev pub extra : Bool → ℕ
extra true = 0
extra false = 1

module _ {ℓ} {E : Type ℓ} (client : Owner E) (policy : RetryPolicy)
    (constant : (s : Holder E) → client.retry_policy s ≡ policy) where
  pub granted-early :
      (retry : ℕ)
      → is_granted (Retry.delay_for_retry policy retry) ≡ true
      → retry < policy.max_retries
  granted-early retry h = by_late (leb policy.max_retries retry) refl
    where
      by_late : (b : Bool) → b ≡ leb policy.max_retries retry → retry < policy.max_retries
      by_late true e =
          let late : policy.max_retries ≤ retry = ground arith in
          let refused = not_granted policy retry late in absurd cc
      by_late false e = ground arith

  pub sent-same {κ} :
      {A : Type κ} (recovered : Bool) (again again' : Owning client A)
      (received received' : CompoundResponse → Owning client A)
      (answer : Result Error CompoundResponse) (s : Holder E)
      → (recovered ≡ false → again s ≡ again' s)
      → ((response : CompoundResponse) → received response s ≡ received' response s)
      → sent client recovered again received answer s
        ≡ sent client recovered again' received' answer s
  sent-same recovered again again' received received' (ok response) s h k = k response
  sent-same recovered again again' received received' (err e) s h k =
      by_flag (is_session_recoverable e) recovered h
    where
      by_flag :
          (b r : Bool)
          → (r ≡ false → again s ≡ again' s)
          → once_more client (b && not r) e again s ≡ once_more client (b && not r) e again' s
      by_flag true false f = f refl
      by_flag true true f = refl
      by_flag false r f = refl

  after_close-same :
      (again again' : ℕ → Owning client (Unit {0})) (retry : ℕ) (response : CompoundResponse)
      (delayed granted lost : Bool) (s : Holder E)
      → (granted ≡ true → again (suc retry) s ≡ again' (suc retry) s)
      → after_close client again retry response (verdict_of client (delayed && granted) lost) s
        ≡ after_close client again' retry response (verdict_of client (delayed && granted) lost) s
  after_close-same again again' retry response true true lost s h = h refl
  after_close-same again again' retry response true false true s h = refl
  after_close-same again again' retry response true false false s h = refl
  after_close-same again again' retry response false granted true s h = refl
  after_close-same again again' retry response false granted false s h = refl

  close_received-same :
      (again again' : ℕ → Owning client (Unit {0})) (retry : ℕ) (recovered : Bool)
      (response : CompoundResponse) (s : Holder E)
      → ((s' : Holder E)
          → retry < policy.max_retries
          → again (suc retry) s' ≡ again' (suc retry) s')
      → close_received client again retry recovered response s
        ≡ close_received client again' retry recovered response s
  close_received-same again again' retry recovered response s h =
      by_consumed (response_consumed_owner_seqid response OpCode.close)
    where
      judged :
          (s' : Holder E)
          → (verdict client OpCode.close retry recovered response
                >>= after_close client again retry response)
              s'
            ≡ (verdict client OpCode.close retry recovered response
                  >>= after_close client again' retry response)
                s'
      judged s' =
          after_close-same again again' retry response
            (response_operation_has_delayed_status response OpCode.close)
            (is_granted (Retry.delay_for_retry (client.retry_policy s') retry))
            (response_operation_requires_session_recovery response OpCode.close && not recovered) s'
            (λ g. h s' (
              granted-early retry
                (ap (λ p. is_granted (Retry.delay_for_retry p retry)) (sym (constant s')) ∙ g)))

      by_consumed :
          (b : Bool)
          → (next_open_seqid client b
                >> (verdict client OpCode.close retry recovered response
                    >>= after_close client again retry response))
              s
            ≡ (next_open_seqid client b
                  >> (verdict client OpCode.close retry recovered response
                      >>= after_close client again' retry response))
                s
      by_consumed true = judged _
      by_consumed false = judged _

  -- Whatever the server answers, the loop of a CLOSE ends within its fuel, if a recovery does not change
  -- the policy: with any two fuels that cover the retries that are left, and the recovery if it is still
  -- to come, it does the same.
  pub close_from-same :
      (fuel fuel' : ℕ) (operations : List Operation) (stateid : StateId) (retry : ℕ)
      (recovered : Bool) (s : Holder E)
      → retry ≤ policy.max_retries
      → policy.max_retries + extra recovered < fuel + retry
      → policy.max_retries + extra recovered < fuel' + retry
      → close_from client fuel operations stateid retry recovered s
        ≡ close_from client fuel' operations stateid retry recovered s
  unfolding close_from
  close_from-same zero fuel' operations stateid retry recovered s h k k' =
      absurd (omega (arith, h, k))
  close_from-same (suc fuel) zero operations stateid retry recovered s h k k' =
      absurd (omega (arith, h, k'))
  close_from-same (suc fuel) (suc fuel') operations stateid retry recovered s h k k' =
      sent-same recovered _ _ _ _ answer.0 answer.1
        (λ e.
          let one : extra recovered ≡ 1 = ap extra e in
          close_from-same fuel fuel' operations stateid retry true answer.1 h
            (omega (arith, k, one)) (omega (arith, k', one)))
        (λ response.
          close_received-same (λ n. close_from client fuel operations stateid n recovered)
            (λ n. close_from client fuel' operations stateid n recovered) retry recovered response
            answer.1
            (λ s' early.
              close_from-same fuel fuel' operations stateid (suc retry) recovered s'
                (omega (arith, early)) (omega (arith, k)) (omega (arith, k'))))
    where
      answer : Result Error CompoundResponse × Holder E
      answer =
          (client.sender).compound_status (close_operations client operations stateid s.open_seqid)
            s
