-- ===== src/V4/WellShaped.antt =====
-- What `validate_compound_response_shape` of src/v4/client.rs lets through: exactly the responses that
-- the protocol's rules for COMPOUND allow.
use nfs.Prelude.{
  ℕ, suc, ◌≤◌, ◌≡◌, ◌⊎◌, inl, inr, refl, sym, ap, ◌∙◌, subst, Bool, true, false, not, ◌&&◌, ◌||◌,
  Option, none, some, List, [], ◌∷◌, ◌++◌, arith, ltb, ◌==◌, ==_iff, Bool-cases, if◌then◌else◌,
  length, length-append, get_elem?, all, position-some, position-none, Found, bytes_eq→≡,
}
use nfs.Prelude.Outcome.{then-ok, Result, ok, err, err-ok}
use nfs.Error.{Error}
use nfs.V4.Status
use nfs.V4.Status.{Status}
use nfs.V4.OpCode
use nfs.V4.OpCode.{OpCode}
use nfs.V4.Operation.{Bytes}
use nfs.V4.Response.{OperationResult, CompoundResponse, op_code, status_of}
use nfs.V4.Replay.{is_empty}
use nfs.V4.Shape.{
  compound_result_matches_expected, check_operations, has_status, check_statuses, failed_index,
  guard, validate_compound_response_shape,
}

-- A result answers an operation if it is one of that operation, or says that the server does not know it.
abbrev pub AnswersOp : OperationResult → OpCode → Type 0
AnswersOp result op =
    (op_code result ≡ op)
    ⊎ ((op_code result ≡ OpCode.illegal) × (status_of result ≡ Status.op_illegal))

-- Each result answers the operation at its place.
pub data Answers : List OperationResult → List OpCode → Type 0 where
  nothing : (expected : List OpCode) → Answers [] expected
  next :
      (result : OperationResult) (op : OpCode) (results : List OperationResult)
      (expected : List OpCode)
      → AnswersOp result op
      → Answers results expected
      → Answers (result ∷ results) (op ∷ expected)

abbrev pub all_ok : List OperationResult → Bool
all_ok results = all (λ result. Status.is_ok (status_of result)) results

-- A failed response: no results, or the last one failed with the status of the whole.
pub record Stopped (response : CompoundResponse) : Type 0 where
  pub before : List OperationResult
  pub failed : OperationResult
  pub split : response.results ≡ before ++ (failed ∷ [])
  pub done : all_ok before ≡ true
  pub fails : Status.is_ok (status_of failed) ≡ false
  pub same : status_of failed ≡ response.status

match-AnswersOp :
    (result : OperationResult) (op : OpCode)
    → compound_result_matches_expected result op ≡ true
    → AnswersOp result op
unfolding compound_result_matches_expected
match-AnswersOp result op h =
    by_tests (OpCode.eq (op_code result) op) (OpCode.eq (op_code result) OpCode.illegal)
      (Status.eq (status_of result) Status.op_illegal) refl refl refl h
  where
    by_tests :
        (a b c : Bool)
        → a ≡ OpCode.eq (op_code result) op
        → b ≡ OpCode.eq (op_code result) OpCode.illegal
        → c ≡ Status.eq (status_of result) Status.op_illegal
        → (a || (b && c)) ≡ true
        → AnswersOp result op
    by_tests true b c p q r k = inl ((OpCode.eq_iff (op_code result) op).0 (sym p))
    by_tests false true true p q r k = inr (
      (OpCode.eq_iff (op_code result) OpCode.illegal).0 (sym q),
      (Status.eq_iff (status_of result) Status.op_illegal).0 (sym r),
    )
    by_tests false true false p q r k = cc
    by_tests false false c p q r k = cc

check_operations-Answers :
    (results : List OperationResult) (expected : List OpCode)
    → length results ≤ length expected
    → check_operations results expected ≡ ok tt
    → Answers results expected
unfolding check_operations
check_operations-Answers [] expected h e = nothing expected
check_operations-Answers (result ∷ results) [] h e = absurd (omega arith)
check_operations-Answers (result ∷ results) (op ∷ expected) h e =
    by_match (compound_result_matches_expected result op) _ refl e
      (check_operations-Answers results expected (omega arith))
  where
    by_match :
        (b : Bool) (x : Error)
        → b ≡ compound_result_matches_expected result op
        → (if b then check_operations results expected else err x) ≡ ok tt
        → (check_operations results expected ≡ ok tt → Answers results expected)
        → Answers (result ∷ results) (op ∷ expected)
    by_match true x m k r =
        next result op results expected (match-AnswersOp result op (sym m)) (r k)
    by_match false x m k r = absurd (err-ok k)

not-not : (b : Bool) → not (not b) ≡ b
not-not true = refl
not-not false = refl

all-not-not : {A : Type 0} (p : A → Bool) (xs : List A) → all (λ x. not (not (p x))) xs ≡ all p xs
all-not-not p [] = refl
all-not-not p (x ∷ xs) = rw (not-not (p x), all-not-not p xs)

append-last :
    {A : Type 0} (before after : List A) (x : A)
    → suc (length before) ≡ length (before ++ (x ∷ after))
    → after ≡ []
append-last before [] x h = refl
append-last before (y ∷ ys) x h = absurd (omega (arith, length-append before (x ∷ (y ∷ ys))))

get-split :
    {A : Type 0} (before after : List A) (x : A)
    → get_elem? (before ++ (x ∷ after)) (length before) ≡ some x
get-split [] after x = refl
get-split (y ∷ ys) after x = get-split ys after x

guard-passed : (b : Bool) (e : Error) → guard b e ≡ ok tt → b ≡ false
guard-passed true e h = absurd (err-ok h)
guard-passed false e h = refl

not-false : (b : Bool) → not b ≡ false → b ≡ true
not-false true h = refl
not-false false h = cc

abbrev failed : OperationResult → Bool
failed result = not (Status.is_ok (status_of result))

none_left :
    (results : List OperationResult) (e : Error)
    → ◌≡◌ {A = Result Error (Unit {0})} (if not (is_empty results) then err e else ok tt) (ok tt)
    → results ≡ []
none_left [] e k = refl
none_left (r ∷ rs) e k = absurd (err-ok k)

two_guards :
    (a b : Bool) (d e : Error)
    → ◌≡◌ {A = Result Error (Unit {0})}
        (if not a then err d else if not b then err e else ok tt)
        (ok tt)
    → (a ≡ true) × (b ≡ true)
two_guards true true d e k = (refl, refl)
two_guards true false d e k = absurd (err-ok k)
two_guards false b d e k = absurd (err-ok k)

Found-Stopped :
    (response : CompoundResponse) (i : ℕ)
    → Found failed response.results i
    → (suc i == length response.results) ≡ true
    → has_status (get_elem? response.results i) response.status ≡ true
    → Stopped response
Found-Stopped response i f h1 h2 =
    let n : suc (length f.before) ≡ length (f.before ++ (f.found ∷ f.after)) =
      ground (arith, f.at, ap length f.split) in
    let e : f.after ≡ [] = append-last f.before f.after f.found n in
    let here : get_elem? response.results i ≡ some f.found =
      (subst (λ k. get_elem? response.results k ≡ some f.found) f.at
        (rw f.split (get-split f.before f.after f.found))) in
    record {
      before = f.before;
      failed = f.found;
      split = f.split ∙ ap (λ t. f.before ++ (f.found ∷ t)) e;
      done = sym (all-not-not (λ r. Status.is_ok (status_of r)) f.before) ∙ f.fails;
      fails = sym (not-not (Status.is_ok (status_of f.found))) ∙ ap not f.holds;
      same = (Status.eq_iff (status_of f.found) response.status).0 (rw here at h2);
    }

-- A failed status passes with no results at all, or stopped at the last.
failed-Stopped :
    (response : CompoundResponse) (o : Option ℕ)
    → failed_index response.results ≡ o
    → check_statuses false o response ≡ ok tt
    → (response.results ≡ []) ⊎ Stopped response
unfolding check_statuses
failed-Stopped response none e k = inl (none_left response.results _ k)
failed-Stopped response (some i) e k =
    let g =
      two_guards (suc i == length response.results)
        (has_status (get_elem? response.results i) response.status) _ _ k in
    inr (Found-Stopped response i (position-some failed response.results i e) g.0 g.1)

ok-all_ok :
    (response : CompoundResponse) (o : Option ℕ)
    → failed_index response.results ≡ o
    → check_statuses true o response ≡ ok tt
    → all_ok response.results ≡ true
unfolding check_statuses
ok-all_ok response none e k =
    sym (all-not-not (λ r. Status.is_ok (status_of r)) response.results)
    ∙ position-none failed response.results e
ok-all_ok response (some i) e k = absurd (err-ok k)

-- All operations succeeded; or the whole failed, with no results, or with the last one alone.
abbrev pub Verdict : List OpCode → CompoundResponse → Type 0
Verdict expected response =
    ((Status.is_ok response.status ≡ true)
      × (length response.results ≡ length expected)
      × (all_ok response.results ≡ true))
    ⊎ ((Status.is_ok response.status ≡ false) × ((response.results ≡ []) ⊎ Stopped response))

-- The rules of a COMPOUND: the tag is echoed, every result answers its operation, and either the whole and
-- all operations succeeded, each with its result, or the whole failed, and there are no results at all or
-- the last one is the only one that failed, with the status of the whole.
pub record WellShaped (tag : Bytes) (expected : List OpCode) (response : CompoundResponse)
    : Type 0 where
  pub tag_echoed : response.tag ≡ tag
  pub answers : Answers response.results expected
  pub verdict : Verdict expected response

ltb-false-le : (a b : ℕ) → ltb a b ≡ false → b ≤ a
ltb-false-le a b h = ground arith

same_length : (b c : Bool) → (b && not c) ≡ false → b ≡ true → c ≡ true
same_length b true h e = refl
same_length true false h e = cc
same_length false false h e = cc

-- A response that passes the check obeys every rule of a COMPOUND: the tag is echoed; each result is of
-- the operation at its place, or is OP_ILLEGAL of the operation ILLEGAL; and either the whole succeeded, and
-- there is a result for each operation, all of them OK, or the whole failed, and there are no results at
-- all, or all are OK but the last, whose status is that of the whole.
pub validate_compound_response_shape-WellShaped :
    (tag : Bytes) (expected : List OpCode) (response : CompoundResponse)
    → validate_compound_response_shape tag expected response ≡ ok tt
    → WellShaped tag expected response
unfolding validate_compound_response_shape
validate_compound_response_shape-WellShaped tag expected response h =
    let h1 = then-ok _ _ h in
    let h2 = then-ok _ _ h1.1 in
    let h3 = then-ok _ _ h2.1 in
    let h4 = then-ok _ _ h3.1 in
    let short = guard-passed _ _ h2.0 in
    let count = guard-passed _ _ h4.0 in
    record {
      tag_echoed = bytes_eq→≡ _ _ (not-false _ (guard-passed _ _ h1.0));
      answers =
          check_operations-Answers response.results expected
            (ltb-false-le (length expected) (length response.results) short) h3.0;
      verdict = verdict_of (Bool-cases (Status.is_ok response.status)) h4.1 count;
    }
  where
    verdict_of :
        (Status.is_ok response.status ≡ true) ⊎ (Status.is_ok response.status ≡ false)
        → check_statuses (Status.is_ok response.status) (failed_index response.results) response
          ≡ ok tt
        → (Status.is_ok response.status && not (length response.results == length expected)) ≡ false
        → Verdict expected response
    verdict_of (inl o) k count = inl (
      o,
      (==_iff (length response.results) (length expected)).0
          (same_length (Status.is_ok response.status) _ count o),
      ok-all_ok response _ refl (rw o at k),
    )
    verdict_of (inr o) k count = inr (o, failed-Stopped response _ refl (rw o at k))
