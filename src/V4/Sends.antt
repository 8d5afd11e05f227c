-- ===== src/V4/Sends.antt =====
-- How `Client::compound_status` of src/v4/blocking.rs ends, whatever the server answers: how often it
-- sends a COMPOUND, and what it sends after a recovery.
use nfs.Prelude.{
  ℕ, zero, suc, ◌+◌, ◌-◌, ◌≤◌, ◌<◌, ◌≡◌, refl, sym, ap, ◌∙◌, subst, Bool, true, false, Option, none,
  some, List, [], ◌∷◌, ◌++◌, arith, append_assoc, append-nil, length,
}
use nfs.Prelude.Outcome.{Result}
use nfs.Error.{Error}
use nfs.Retry
use nfs.Retry.{RetryPolicy}
use nfs.V4.Operation.{Operation}
use nfs.V4.Response.{CompoundResponse}
use nfs.V4.Replay.{operations_can_replay_after_session_recovery}
use nfs.V4.Session.{
  Event, sent, recovery, Client, Surroundings, is_some, Outcome, sequenced, send, compound_loop,
}
use nfs.V4.Traces.{receive-rule}

-- The events of a run that has n retries left, and a recovery too unless the flag is set.
pub data Trace (replay : Bool) : ℕ → Bool → List Event → Type 0 where
  stop : (n : ℕ) (recovered : Bool) (x : List Operation) → Trace replay n recovered (sent x ∷ [])
  delayed :
      (n : ℕ) (recovered : Bool) (x : List Operation) (events : List Event)
      → Trace replay n recovered events
      → Trace replay (suc n) recovered (sent x ∷ events)
  lost : (n : ℕ) (x : List Operation) → Trace replay n false (sent x ∷ (recovery ∷ []))
  resumed :
      (n : ℕ) (x : List Operation) (events : List Event)
      → replay ≡ true
      → Trace replay n true events
      → Trace replay n false (sent x ∷ (recovery ∷ events))

Trace-weaken :
    {replay : Bool} {n : ℕ} {recovered : Bool} {events : List Event} (k : ℕ)
    → Trace replay n recovered events
    → Trace replay (n + k) recovered events
Trace-weaken k (stop n r x) = stop (n + k) r x
Trace-weaken {replay} k (delayed n r x events t) =
    nfs.Prelude.subst (λ m. Trace replay m r (sent x ∷ events)) (omega arith)
      (delayed (n + k) r x events (Trace-weaken k t))
Trace-weaken k (lost n x) = lost (n + k) x
Trace-weaken k (resumed n x events h t) = resumed (n + k) x events h (Trace-weaken k t)

module _ {ℓ} {W : Type ℓ} (env : Surroundings W) where
  -- The run ends, and from the client c on its events are a trace.
  pub record Runs (replay : Bool) (n : ℕ) (recovered : Bool) (c : Client W) (o : Outcome env)
      : Type ℓ where
    pub result : Result Error CompoundResponse
    pub after : Client W
    pub events : List Event
    pub ends : o ≡ some (result, after)
    pub logged : after.log ≡ c.log ++ events
    pub trace : Trace replay n recovered events

  -- How many rounds the recovery can add.
  abbrev weight : Bool → ℕ
  weight true = 1
  weight false = 2

  granted :
      (p : RetryPolicy) (retry : ℕ)
      → is_some (Retry.delay_for_retry p retry) ≡ true
      → retry < p.max_retries
  unfolding Retry.delay_for_retry
  granted p retry h = ground arith

  snoc-append : {A : Type 0} (xs ys : List A) (x : A) → (xs ++ (x ∷ [])) ++ ys ≡ xs ++ (x ∷ ys)
  snoc-append xs ys x = append_assoc xs (x ∷ []) ys

  pub compound_loop-Runs :
      (fuel n : ℕ) (operations : List Operation) (retry : ℕ) (recovered : Bool) (c : Client W)
      → n ≡ (c.retry_policy).max_retries - retry
      → n + weight recovered ≤ fuel
      → Runs
          (operations_can_replay_after_session_recovery operations)
          n
          recovered
          c
          (compound_loop env fuel operations retry recovered c)
  unfolding compound_loop
  compound_loop-Runs zero n operations retry true c hn h = absurd (omega arith)
  compound_loop-Runs zero n operations retry false c hn h = absurd (omega arith)
  compound_loop-Runs (suc fuel) n operations retry recovered c hn h =
      receive-rule env (Runs replay n recovered c) operations (compound_loop env fuel operations)
        retry recovered (send env operations c).1
        (record {
          fin = λ r c' k. record {
            result = r;
            after = c';
            events = sent x ∷ [];
            ends = refl;
            logged = k.same_log;
            trace = stop n recovered x;
          };
          fin_new = λ r c' hf k. record {
            result = r;
            after = c';
            events = sent x ∷ (recovery ∷ []);
            ends = refl;
            logged = k.grown ∙ snoc-append c.log (recovery ∷ []) (sent x);
            trace = subst (λ b. Trace replay n b (sent x ∷ (recovery ∷ []))) (sym hf) (lost n x);
          };
          go_new = λ c' hf hr k.
              let r =
                compound_loop-Runs fuel n operations retry true c'
                  (hn ∙ ap (λ (p : RetryPolicy). p.max_retries - retry) (sym k.policy))
                  (omega (arith, h, ap weight hf)) in
              record {
                result = r.result;
                after = r.after;
                events = sent x ∷ (recovery ∷ r.events);
                ends = r.ends;
                logged =
                    r.logged
                    ∙ ap (λ l. l ++ r.events) (k.grown ∙ snoc-append c.log (recovery ∷ []) (sent x))
                    ∙ append_assoc c.log (sent x ∷ (recovery ∷ [])) r.events;
                trace =
                    subst (λ b. Trace replay n b (sent x ∷ (recovery ∷ r.events))) (sym hf)
                      (resumed n x r.events hr r.trace);
              };
          go_on = λ c' hd k.
              let less = granted c'.retry_policy retry hd in
              let same = ap (λ (p : RetryPolicy). p.max_retries) k.policy in
              let m : ℕ = (c.retry_policy).max_retries - suc retry in
              let r =
                compound_loop-Runs fuel m operations (suc retry) recovered c' (omega arith)
                  (omega arith) in
              record {
                result = r.result;
                after = r.after;
                events = sent x ∷ r.events;
                ends = r.ends;
                logged =
                    r.logged
                    ∙ ap (λ l. l ++ r.events) k.same_log
                    ∙ snoc-append c.log r.events (sent x);
                trace =
                    subst (λ k'. Trace replay k' recovered (sent x ∷ r.events)) (omega arith)
                      (delayed m recovered x r.events r.trace);
              };
        })
        (send env operations c) (record { policy = refl; same_log = refl })
    where
      replay : Bool
      replay = operations_can_replay_after_session_recovery operations

      x : List Operation
      x = sequenced env c operations
