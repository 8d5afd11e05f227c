-- ===== src/V4/Traces.antt =====
-- A round of the loop of `Client::compound_status` in src/v4/blocking.rs: the ways in which it can go,
-- as a rule for any property of its outcome.
use nfs.Prelude.{
  ℕ, suc, ◌≡◌, refl, sym, ap, ◌∙◌, Bool, true, false, not, ◌&&◌, some, List, [], ◌∷◌, ◌++◌,
  if◌then◌else◌,
}
use nfs.Prelude.Outcome.{Result, ok, err}
use nfs.Error.{Error, is_transport_failure}
use nfs.Retry
use nfs.Retry.{RetryPolicy}
use nfs.V4.Operation.{Operation}
use nfs.V4.Response.{CompoundResponse}
use nfs.V4.Replay.{operations_can_replay_after_session_recovery}
use nfs.V4.Policy.{
  sequence_succeeded, response_requires_session_recovery, session_recovery_error,
  response_allows_delayed_retry,
}
use nfs.V4.Locks
use nfs.V4.Session.{
  Event, sent, recovery, Client, Surroundings, is_some, Outcome, sequenced, send, rebuilt_client,
  recover_session, after_failure, after_request, finish_round, with_valid_locks, checked,
  check_revoked_locks, check_locks, sequence_done, judge, receive, compound_loop, enough_fuel,
  start, after_pending, compound_status,
}

module _ {ℓ} {W : Type ℓ} (env : Surroundings W) where
  -- The client goes on in its session, or in a new one.
  pub record Kept (c c' : Client W) : Type ℓ where
    pub policy : c'.retry_policy ≡ c.retry_policy
    pub same_log : c'.log ≡ c.log

  pub record Renewed (c c' : Client W) : Type ℓ where
    pub policy : c'.retry_policy ≡ c.retry_policy
    pub grown : c'.log ≡ c.log ++ (recovery ∷ [])

  pub recover_session-Renewed : (c : Client W) → Renewed c (recover_session env c).1
  unfolding recover_session
  recover_session-Renewed c = by_result (env.rebuild c).0
    where
      by_result :
          (r : Result Error _)
          → Renewed c
              (rebuilt_client env r
                ((env.rebuild c).1).0
                ((env.rebuild c).1).1
                (record c { log = c.log ++ (recovery ∷ []) })).1
      by_result (ok new) = record { policy = refl; grown = refl }
      by_result (err e) = record { policy = refl; grown = refl }

  -- What has to hold of a property Q for every way in which a round can go.
  pub record Covers {κ} (Q : Outcome env → Type κ) (replay : Bool)
      (again : ℕ → Bool → Client W → Outcome env) (retry : ℕ) (recovered : Bool) (c₀ : Client W)
      : Type (ℓ ⊔ κ) where
    pub fin : (r : Result Error CompoundResponse) (c : Client W) → Kept c₀ c → Q (some (r, c))
    pub fin_new :
        (r : Result Error CompoundResponse) (c : Client W)
        → recovered ≡ false
        → Renewed c₀ c
        → Q (some (r, c))
    pub go_new :
        (c : Client W) → recovered ≡ false → replay ≡ true → Renewed c₀ c → Q (again retry true c)
    pub go_on :
        (c : Client W)
        → is_some (Retry.delay_for_retry c.retry_policy retry) ≡ true
        → Kept c₀ c
        → Q (again (suc retry) recovered c)

  Kept-trans : {a b c : Client W} → Kept a b → Kept b c → Kept a c
  Kept-trans p q = record { policy = q.policy ∙ p.policy; same_log = q.same_log ∙ p.same_log }

  Kept-Renewed : {a b c : Client W} → Kept a b → Renewed b c → Renewed a c
  Kept-Renewed p q = record {
    policy = q.policy ∙ p.policy;
    grown = q.grown ∙ ap (λ l. l ++ (recovery ∷ [])) p.same_log;
  }

  and-true : (a b : Bool) → (a && b) ≡ true → (a ≡ true) × (b ≡ true)
  and-true true true h = (refl, refl)
  and-true true false h = cc
  and-true false b h = cc

  not-true : (b : Bool) → not b ≡ true → b ≡ false
  not-true true h = cc
  not-true false h = refl

  module _ {κ} (Q : Outcome env → Type κ) (operations : List Operation)
      (again : ℕ → Bool → Client W → Outcome env) (retry : ℕ) (recovered : Bool) (c₀ : Client W)
      (h : Covers Q
        (operations_can_replay_after_session_recovery operations)
        again
        retry
        recovered
        c₀) where
    abbrev replay : Bool
    replay = operations_can_replay_after_session_recovery operations

    after_failure-rule :
        (e : Error) (p : Result Error (Unit {0}) × Client W)
        → recovered ≡ false
        → Renewed c₀ p.1
        → Q (after_failure env (again retry) replay e p)
    after_failure-rule e (err x, c) hf k = h.fin_new _ c hf k
    after_failure-rule e (ok _, c) hf k = by_replay replay refl
      where
        by_replay :
            (b : Bool)
            → b ≡ operations_can_replay_after_session_recovery operations
            → Q (elim b [ true ↦ again retry true c | false ↦ some (err e, c) ])
        by_replay true e' = h.go_new c hf (sym e') k
        by_replay false e' = h.fin_new _ c hf k

    after_request-rule :
        (e : Error) (p : Result Error (Unit {0}) × Client W)
        → recovered ≡ false
        → Renewed c₀ p.1
        → Q (after_request env (again retry) replay e p)
    after_request-rule e (err x, c) hf k = h.fin_new _ c hf k
    after_request-rule e (ok _, c) hf k = by_replay replay refl
      where
        by_replay :
            (b : Bool)
            → b ≡ operations_can_replay_after_session_recovery operations
            → Q (elim b [ true ↦ again retry true c | false ↦ some (err e, c) ])
        by_replay true e' = h.go_new c hf (sym e') k
        by_replay false e' = h.fin_new _ c hf k

    finish_round-rule :
        (response : CompoundResponse) (c : Client W)
        → Kept c₀ c
        → Q (finish_round env (λ n. again n recovered) operations retry response c)
    finish_round-rule response c k =
        by_delay (response_allows_delayed_retry operations response)
          (is_some (Retry.delay_for_retry c.retry_policy retry)) refl
      where
        by_delay :
            (a b : Bool)
            → b ≡ is_some (Retry.delay_for_retry c.retry_policy retry)
            → Q (elim (a && b) [
              | true ↦ again (suc retry) recovered c
              | false ↦ some (ok response, c)
            ])
        by_delay true true e = h.go_on c (sym e) k
        by_delay true false e = h.fin _ c k
        by_delay false b e = h.fin _ c k

    judge-rule :
        (response : CompoundResponse) (c : Client W)
        → Kept c₀ c
        → Q (judge env again operations retry recovered response c)
    unfolding judge
    judge-rule response c k =
        by_request (response_requires_session_recovery response && not recovered) refl
      where
        by_request :
            (b : Bool)
            → b ≡ (response_requires_session_recovery response && not recovered)
            → Q (elim b [
              | true ↦
                  after_request env
                    (again retry)
                    replay
                    (session_recovery_error response)
                    (recover_session env c)
              | false ↦ finish_round env (λ n. again n recovered) operations retry response c
            ])
        by_request true e =
            after_request-rule _ _ (not-true recovered (and-true _ _ (sym e)).1)
              (Kept-Renewed k (recover_session-Renewed c))
        by_request false e = finish_round-rule response c k

    with_valid_locks-rule :
        (releases : Bool) (k : Client W → Outcome env) (c : Client W)
        → Kept c₀ c
        → ((c' : Client W) → Kept c₀ c' → Q (k c'))
        → Q (with_valid_locks env releases k c)
    with_valid_locks-rule true k c p q = q c p
    with_valid_locks-rule false k c p q = by_result (Locks.ensure_valid c.locks)
      where
        by_result :
            (r : Result Error (Unit {0})) → Q (elim r [ ok _ ↦ k c | err e ↦ some (err e, c) ])
        by_result (ok _) = q c p
        by_result (err e) = h.fin _ c p

    check_locks-rule :
        (revoked releases : Bool) (k : Client W → Outcome env) (c : Client W)
        → Kept c₀ c
        → ((c' : Client W) → Kept c₀ c' → Q (k c'))
        → Q (check_locks env revoked releases k c)
    check_locks-rule false releases k c p q = q c p
    check_locks-rule true releases k c p q =
        by_result (check_revoked_locks env c)
          (Kept-trans p (record { policy = refl; same_log = refl }))
      where
        by_result :
            (r : Result Error (Unit {0}) × Client W) → Kept c₀ r.1 → Q (checked env releases k r)
        by_result (err e, c') p' = h.fin _ c' p'
        by_result (ok _, c') p' = with_valid_locks-rule releases k c' p' q

    pub receive-rule :
        (p : Result Error CompoundResponse × Client W)
        → Kept c₀ p.1
        → Q (receive env again operations retry recovered p)
    unfolding receive
    receive-rule (ok response, c) k =
        check_locks-rule _ _ _ _ (Kept-trans k (done (sequence_succeeded response)))
          (judge-rule response)
      where
        done :
            (b : Bool)
            → Kept c (
                if b
                then record c { sequence_id = nfs.V4.Session.advance_sequence c.sequence_id }
                else c)
        done true = record { policy = refl; same_log = refl }
        done false = record { policy = refl; same_log = refl }
    receive-rule (err e, c) k = by_failure (is_transport_failure e && not recovered) refl
      where
        by_failure :
            (b : Bool)
            → b ≡ (is_transport_failure e && not recovered)
            → Q (elim b [
              | true ↦ after_failure env (again retry) replay e (recover_session env c)
              | false ↦ some (err e, c)
            ])
        by_failure true h' =
            after_failure-rule e _ (not-true recovered (and-true _ _ (sym h')).1)
              (Kept-Renewed k (recover_session-Renewed c))
        by_failure false h' = h.fin _ c k
