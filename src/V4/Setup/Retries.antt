-- ===== src/V4/Setup/Retries.antt =====
-- The loop that waits out delays, in src/v4/blocking.rs: what every round keeps, the loop keeps; and the
-- bound on its retries is large enough.
use nfs.Prelude.{ℕ, zero, suc, ◌+◌, ◌≤◌, ◌≡◌, refl, sym, Bool, true, false, ◌&&◌, arith, leb}
use nfs.Prelude.Outcome.{Result, ok, err}
use nfs.Prelude.Exec.{Exec, continue}
use nfs.Prelude.Moves.{Preorder, Moves, pure-Moves, bind-Moves}
use nfs.Error.{Error}
use nfs.Retry
use nfs.Retry.{RetryPolicy}
use nfs.V4.Response.{CompoundResponse}
use nfs.V4.Setup.{is_granted, again_or, retrying}

again_or-Moves {ℓ κ} :
    {S : Type ℓ} {R : S → S → Type κ}
    → Preorder R
    → (b : Bool) (again : Exec S Error CompoundResponse) (response : CompoundResponse)
    → Moves R again
    → Moves R (again_or b again response)
again_or-Moves order true again response h = h
again_or-Moves order false again response h = pure-Moves order response

pub not_granted :
    (policy : RetryPolicy) (retry : ℕ)
    → policy.max_retries ≤ retry
    → is_granted (Retry.delay_for_retry policy retry) ≡ false
unfolding Retry.delay_for_retry
not_granted policy retry h =
    let late : leb policy.max_retries retry ≡ true = ground arith in rw late

module _ {ℓ} {S : Type ℓ} (allows : CompoundResponse → Bool) (round : Exec S Error CompoundResponse)
    (policy : RetryPolicy) where
  pub retrying-Moves {κ} :
      {R : S → S → Type κ}
      → Preorder R
      → Moves R round
      → (left retry : ℕ) → Moves R (retrying allows round policy left retry)
  unfolding retrying
  retrying-Moves order h zero retry = h
  retrying-Moves order h (suc left) retry = bind-Moves order round _ h (λ response.
      again_or-Moves order (allows response && is_granted (Retry.delay_for_retry policy retry))
        (retrying allows round policy left (suc retry)) response
        (retrying-Moves order h left (suc retry)))

  once :
      (left retry : ℕ) (s : S)
      → is_granted (Retry.delay_for_retry policy retry) ≡ false
      → retrying allows round policy (suc left) retry s ≡ round s
  unfolding retrying
  once left retry s h =
      by_result (round s).0 (round s).1 (is_granted (Retry.delay_for_retry policy retry)) h
    where
      ends :
          (a granted : Bool) (response : CompoundResponse) (s' : S)
          → granted ≡ false
          → again_or (a && granted) (retrying allows round policy left (suc retry)) response s'
            ≡ (ok response, s')
      ends false granted response s' refused = refl
      ends true true response s' refused = cc
      ends true false response s' refused = refl

      by_result :
          (r : Result Error CompoundResponse) (s' : S) (granted : Bool)
          → granted ≡ false
          → continue r
              (λ response.
                again_or
                  (allows response && granted)
                  (retrying allows round policy left (suc retry))
                  response)
              s'
            ≡ (r, s')
      by_result (err e) s' granted refused = refl
      by_result (ok response) s' granted refused =
          ends (allows response) granted response s' refused

  -- With any two bounds that cover the retries that the policy grants, the loop does the same.
  pub retrying-left :
      (left left' retry : ℕ) (s : S)
      → policy.max_retries ≤ left + retry
      → policy.max_retries ≤ left' + retry
      → retrying allows round policy left retry s ≡ retrying allows round policy left' retry s
  unfolding retrying
  retrying-left zero zero retry s h h' = refl
  retrying-left zero (suc left') retry s h h' =
      sym (once left' retry s (not_granted policy retry (omega arith)))
  retrying-left (suc left) zero retry s h h' =
      once left retry s (not_granted policy retry (omega arith))
  retrying-left (suc left) (suc left') retry s h h' =
      same (round s).0 (round s).1
        (λ t. retrying-left left left' (suc retry) t (omega arith) (omega arith))
    where
      granted_same :
          (b : Bool) (m n : Exec S Error CompoundResponse) (response : CompoundResponse) (t : S)
          → m t ≡ n t
          → again_or b m response t ≡ again_or b n response t
      granted_same true m n response t e = e
      granted_same false m n response t e = refl

      same :
          (r : Result Error CompoundResponse) (s' : S)
          → ((t : S)
              → retrying allows round policy left (suc retry) t
                ≡ retrying allows round policy left' (suc retry) t)
          → continue r
              (λ response.
                again_or
                  (allows response && is_granted (Retry.delay_for_retry policy retry))
                  (retrying allows round policy left (suc retry))
                  response)
              s'
            ≡ continue r
                (λ response.
                  again_or
                    (allows response && is_granted (Retry.delay_for_retry policy retry))
                    (retrying allows round policy left' (suc retry))
                    response)
                s'
      same (err e) s' again = refl
      same (ok response) s' again =
          granted_same (allows response && is_granted (Retry.delay_for_retry policy retry)) _ _
            response s' (again s')

  -- What a round adds at most one to, the loop adds at most its bound and one to.
  pub retrying-count :
      (measure : S → ℕ)
      → ((s : S) → measure (round s).1 ≤ suc (measure s))
      → (left retry : ℕ) (s : S)
      → measure (retrying allows round policy left retry s).1 ≤ measure s + suc left
  unfolding retrying
  retrying-count measure h zero retry s = omega (arith, h s)
  retrying-count measure h (suc left) retry s =
      by_result (round s).0 (round s).1 (h s) (retrying-count measure h left (suc retry))
    where
      ends :
          (b : Bool) (response : CompoundResponse) (s' : S)
          → measure s' ≤ suc (measure s)
          → ((t : S)
              → measure (retrying allows round policy left (suc retry) t).1 ≤ measure t + suc left)
          → measure (again_or b (retrying allows round policy left (suc retry)) response s').1
            ≤ measure s + suc (suc left)
      ends true response s' k again = omega (arith, k, again s')
      ends false response s' k again = omega (arith, k)

      by_result :
          (r : Result Error CompoundResponse) (s' : S)
          → measure s' ≤ suc (measure s)
          → ((t : S)
              → measure (retrying allows round policy left (suc retry) t).1 ≤ measure t + suc left)
          → measure
              (continue r
                (λ response.
                  again_or
                    (allows response && is_granted (Retry.delay_for_retry policy retry))
                    (retrying allows round policy left (suc retry))
                    response)
                s').1
            ≤ measure s + suc (suc left)
      by_result (err e) s' k again = omega (arith, k)
      by_result (ok response) s' k again =
          ends (allows response && is_granted (Retry.delay_for_retry policy retry)) response s' k
            again
