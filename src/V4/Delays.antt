-- ===== src/V4/Delays.antt =====
-- The delayed retry of src/v4/client.rs: what the server has already carried out when a COMPOUND is sent
-- again after NFS4ERR_DELAY or NFS4ERR_GRACE.
use nfs.Prelude.{
  ℕ, zero, suc, ◌+◌, ◌-◌, ◌≤◌, ◌<◌, ◌≡◌, ◌⊎◌, inl, inr, refl, sym, ap, ◌∙◌, subst, Bool, true,
  false, not, ◌&&◌, Option, none, some, List, [], ◌∷◌, ◌++◌, arith, ltb, length, length-append,
  get_elem?, take, all, position, position-some, Found, if◌then◌else◌, some-inj, none-some,
}
use nfs.V4.Status
use nfs.V4.Status.{Status}
use nfs.V4.OpCode.{OpCode}
use nfs.V4.Operation.{Operation, Bytes}
use nfs.V4.Response.{OperationResult, CompoundResponse, status_of}
use nfs.V4.Replay.{is_empty, operation_can_replay_after_successful_prefix}
use nfs.V4.Policy.{
  status_allows_delayed_retry, first_delayed_retry_result_index, can_retry_at,
  allows_delayed_retry_at, response_allows_delayed_retry,
  response_allows_delayed_retry_after_leading_results,
}
use nfs.V4.WellShaped.{WellShaped, Verdict, Stopped, all_ok}

delayed-not_ok :
    (status : Status) → status_allows_delayed_retry status ≡ true → Status.is_ok status ≡ false
unfolding status_allows_delayed_retry Status.is_ok
delayed-not_ok Status.delay h = refl
delayed-not_ok Status.grace h = refl
delayed-not_ok Status.ok h = cc
delayed-not_ok _ h = refl

all-get :
    {A : Type 0} (p : A → Bool) (xs : List A) (i : ℕ) (x : A)
    → all p xs ≡ true
    → get_elem? xs i ≡ some x
    → p x ≡ true
all-get p [] i x h e = absurd (none-some e)
all-get p (y ∷ ys) zero x h e = by_head (p y) refl h
  where
    by_head : (b : Bool) → b ≡ p y → (b && all p ys) ≡ true → p x ≡ true
    by_head true e' k = ap p (sym (some-inj e)) ∙ sym e'
    by_head false e' k = cc
all-get p (y ∷ ys) (suc i) x h e = by_head (p y) h (all-get p ys i x)
  where
    by_head :
        (b : Bool)
        → (b && all p ys) ≡ true
        → (all p ys ≡ true → get_elem? ys i ≡ some x → p x ≡ true)
        → p x ≡ true
    by_head true k r = r k e
    by_head false k r = cc

get-take : {A : Type 0} (xs : List A) (n i : ℕ) → i < n → get_elem? (take n xs) i ≡ get_elem? xs i
get-take xs zero i h = absurd (omega arith)
get-take [] (suc n) i h = refl
get-take (x ∷ xs) (suc n) zero h = refl
get-take (x ∷ xs) (suc n) (suc i) h = get-take xs n i (omega arith)

get-before :
    {A : Type 0} (xs ys : List A) (i : ℕ) → i < length xs → get_elem? (xs ++ ys) i ≡ get_elem? xs i
get-before [] ys i h = absurd (omega arith)
get-before (x ∷ xs) ys zero h = refl
get-before (x ∷ xs) ys (suc i) h = get-before xs ys i (omega arith)

get-beyond : {A : Type 0} (xs : List A) (i : ℕ) → length xs ≤ i → get_elem? xs i ≡ none
get-beyond [] i h = refl
get-beyond (x ∷ xs) zero h = absurd (omega arith)
get-beyond (x ∷ xs) (suc i) h = get-beyond xs i (omega arith)

get-here :
    {A : Type 0} (before after : List A) (x : A)
    → get_elem? (before ++ (x ∷ after)) (length before) ≡ some x
get-here [] after x = refl
get-here (y ∷ ys) after x = get-here ys after x

-- In a stopped response, a result that is not OK is the last one.
not_ok-last :
    (results before : List OperationResult) (x y : OperationResult) (i : ℕ)
    → results ≡ before ++ (x ∷ [])
    → all_ok before ≡ true
    → get_elem? results i ≡ some y
    → Status.is_ok (status_of y) ≡ false
    → i ≡ length before
not_ok-last results before x y i e ok_before here bad =
    by_order (nfs.Prelude.Bool-cases (ltb i (length before)))
      (nfs.Prelude.Bool-cases (ltb (length before) i))
  where
    at_i : get_elem? (before ++ (x ∷ [])) i ≡ some y
    at_i = subst (λ rs. get_elem? rs i ≡ some y) e here

    by_order :
        (ltb i (length before) ≡ true) ⊎ (ltb i (length before) ≡ false)
        → (ltb (length before) i ≡ true) ⊎ (ltb (length before) i ≡ false)
        → i ≡ length before
    by_order (inl h) k = absurd (
        true-false (
          sym (
            all-get (λ r. Status.is_ok (status_of r)) before i y ok_before
              (sym (get-before before (x ∷ []) i (nfs.Prelude.ltb→lt _ _ h)) ∙ at_i))
          ∙ bad))
      where
        true-false : true ≡ false → ⊥
        true-false t = cc
    by_order (inr h) (inl k) = absurd (
        none-some (
          sym (
            get-beyond (before ++ (x ∷ [])) i
              (omega (arith, length-append before (x ∷ []), nfs.Prelude.ltb→lt _ _ k)))
          ∙ at_i))
    by_order (inr h) (inr k) = ground (arith, h, k)

three_tests : (a b c d : Bool) → a ≡ false → (if a then true else b && (c && d)) ≡ true → c ≡ true
three_tests true b c d e k = cc
three_tests false true true d e k = refl
three_tests false true false d e k = cc
three_tests false false c d e k = cc

-- What the tests behind the index say, for an index that is past the SEQUENCE.
prefix_all :
    (operations : List Operation) (i : ℕ)
    → 1 ≤ i
    → allows_delayed_retry_at operations 1 (some i) ≡ true
    → all operation_can_replay_after_successful_prefix (take (i - 1) operations) ≡ true
prefix_all operations i p h =
    three_tests (ltb i 1) (ltb (i - 1) (length operations))
      (all operation_can_replay_after_successful_prefix (take (i - 1) operations))
      (can_retry_at (get_elem? operations (i - 1))) (ground arith) h

first_index-position :
    (response : CompoundResponse) (result : OperationResult) (j : ℕ)
    → get_elem? response.results j ≡ some result
    → first_delayed_retry_result_index response
      ≡ position (λ r. status_allows_delayed_retry (status_of r)) response.results
unfolding first_delayed_retry_result_index
first_index-position response result j e = by_results response.results e
  where
    by_results :
        (rs : List OperationResult)
        → get_elem? rs j ≡ some result
        → (if is_empty rs && status_allows_delayed_retry response.status
            then some 0
            else position (λ r. status_allows_delayed_retry (status_of r)) rs)
          ≡ position (λ r. status_allows_delayed_retry (status_of r)) rs
    by_results [] k = absurd (none-some k)
    by_results (r ∷ rs) k = refl

delayed_index :
    (operations : List Operation) (o : Option ℕ)
    → allows_delayed_retry_at operations 1 o ≡ true
    → (i : ℕ) × (o ≡ some i)
delayed_index operations none h = cc
delayed_index operations (some i) h = (i, refl)

Found-get :
    {p : OperationResult → Bool} {xs : List OperationResult} {i : ℕ} (f : Found p xs i)
    → get_elem? xs i ≡ some f.found
Found-get {xs = xs} f =
    subst (λ k. get_elem? xs k ≡ some f.found) f.at
      (ap (λ rs. get_elem? rs (length f.before)) f.split ∙ get-here f.before f.after f.found)

true-false : {b : Bool} → b ≡ true → b ≡ false → ⊥
true-false p q = cc

-- In a stopped response, a result that is OK stands before the last one.
ok-before :
    (results before : List OperationResult) (x y : OperationResult) (j : ℕ)
    → results ≡ before ++ (x ∷ [])
    → Status.is_ok (status_of x) ≡ false
    → get_elem? results j ≡ some y
    → Status.is_ok (status_of y) ≡ true
    → j < length before
ok-before results before x y j e bad here good =
    by_order (nfs.Prelude.Bool-cases (ltb j (length before)))
      (nfs.Prelude.Bool-cases (ltb (length before) j))
  where
    same_place : j ≡ length before → ⊥
    same_place q =
        let last : get_elem? results j ≡ some x =
          (ap (get_elem? results) q
            ∙ ap (λ rs. get_elem? rs (length before)) e
            ∙ get-here before [] x) in
        true-false (ap (λ r. Status.is_ok (status_of r)) (some-inj (sym last ∙ here)) ∙ good) bad

    beyond : length before < j → get_elem? results j ≡ none
    beyond h = get-beyond results j (omega (arith, ap length e, length-append before (x ∷ [])))

    by_order :
        (ltb j (length before) ≡ true) ⊎ (ltb j (length before) ≡ false)
        → (ltb (length before) j ≡ true) ⊎ (ltb (length before) j ≡ false)
        → j < length before
    by_order (inl h) k = ground (arith, h)
    by_order (inr h) (inl k) = absurd (none-some (sym (beyond (nfs.Prelude.ltb→lt _ _ k)) ∙ here))
    by_order (inr h) (inr k) = absurd (same_place (ground (arith, h, k)))

abbrev delayed : OperationResult → Bool
delayed r = status_allows_delayed_retry (status_of r)

-- A result that is OK stands before the one that is delayed.
done_before :
    (expected : List OpCode) (response : CompoundResponse) (i j : ℕ) (result : OperationResult)
    → Found delayed response.results i
    → Verdict expected response
    → get_elem? response.results (suc j) ≡ some result
    → Status.is_ok (status_of result) ≡ true
    → suc j < i
done_before expected response i j result f (inl v) res good = absurd (
    true-false
      (all-get (λ r. Status.is_ok (status_of r)) response.results i f.found v.2 (Found-get f))
      (delayed-not_ok (status_of f.found) f.holds))
done_before expected response i j result f (inr v) res good = by_stop v.1
  where
    by_stop : (response.results ≡ []) ⊎ Stopped response → suc j < i
    by_stop (inl e) = absurd (none-some (sym (ap (λ rs. get_elem? rs (suc j)) e) ∙ res))
    by_stop (inr s) =
        let last =
          not_ok-last response.results s.before s.failed f.found i s.split s.done (Found-get f)
            (delayed-not_ok (status_of f.found) f.holds) in
        omega (
          arith,
          last,
          ok-before response.results s.before s.failed result (suc j) s.split s.fails res good,
        )

-- If a well-shaped response to a COMPOUND with a SEQUENCE first allows a delayed retry, then every
-- operation that the server has carried out with success, and that the retry would repeat, is one that
-- can be replayed.
pub response_allows_delayed_retry-replays :
    (tag : Bytes) (expected : List OpCode) (operations : List Operation)
    (response : CompoundResponse) (j : ℕ) (operation : Operation) (result : OperationResult)
    → WellShaped tag expected response
    → response_allows_delayed_retry operations response ≡ true
    → get_elem? operations j ≡ some operation
    → get_elem? response.results (suc j) ≡ some result
    → Status.is_ok (status_of result) ≡ true
    → operation_can_replay_after_successful_prefix operation ≡ true
unfolding response_allows_delayed_retry response_allows_delayed_retry_after_leading_results
response_allows_delayed_retry-replays tag expected operations response j operation result w allowed
      op res good =
    let found = delayed_index operations (first_delayed_retry_result_index response) allowed in
    let i : ℕ = found.0 in
    let f =
      position-some (λ r. status_allows_delayed_retry (status_of r)) response.results i
        (sym (first_index-position response result (suc j) res) ∙ found.1) in
    let past : suc j < i = done_before expected response i j result f w.verdict res good in
    all-get operation_can_replay_after_successful_prefix (take (i - 1) operations) j operation
      (prefix_all operations i (omega arith)
        (subst (λ o. allows_delayed_retry_at operations 1 o ≡ true) found.1 allowed))
      (get-take operations (i - 1) j (omega arith) ∙ op)
