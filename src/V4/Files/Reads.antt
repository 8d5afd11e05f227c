-- ===== src/V4/Files/Reads.antt =====
-- The read loops of src/v4/blocking.rs, against a server that holds a file.
use nfs.Prelude.{
  ℕ, zero, suc, ◌+◌, ◌≤◌, ◌<◌, ◌≡◌, refl, sym, ap, ◌∙◌, subst, Bool, true, false, ◌&&◌, ◌⊎◌, inl,
  inr, Option, [], ◌∷◌, ◌++◌, arith, ltb, ◌==◌, length, length-take, length-drop, take, drop,
}
use nfs.Prelude.Outcome.{Result, ok}
use nfs.Prelude.Exec.{continue}
use nfs.Error.{Error}
use nfs.V4.Status
use nfs.V4.OpCode
use nfs.V4.Args.{Bytes}
use nfs.V4.Response
use nfs.V4.Response.{CompoundResponse, SequenceResult}
use nfs.V4.Extract.Transfers.{validate_read_result_size, response_read}
use nfs.V4.Files.{Compounds, OpenedFile, read_operations, read_opened_at}

-- The response to SEQUENCE, PUTFH and READ.
abbrev pub read_reply : Bytes → Option SequenceResult → Bool → Bytes → CompoundResponse
read_reply tag sequence eof bytes = record {
  status = Status.ok;
  tag = tag;
  results =
      Response.OperationResult.sequence Status.ok sequence
      ∷ Response.OperationResult.status_only OpCode.put_fh Status.ok
      ∷ Response.OperationResult.read Status.ok eof bytes
      ∷ [];
}

-- What a server answers that holds the content: bytes of it from the offset on, at least one unless the
-- offset is at or behind the end, which it may report with them, and has to report there.
pub record Reads (content : Bytes) (offset count : ℕ) (answer : Result Error CompoundResponse)
    : Type 0 where
  pub tag : Bytes
  pub sequence : Option SequenceResult
  pub eof : Bool
  pub n : ℕ
  pub answered : answer ≡ ok (read_reply tag sequence eof (take n (drop offset content)))
  pub within : n ≤ count
  pub moves_on :
      ((0 < n) × (offset + n ≤ length content)) ⊎ ((eof ≡ true) × (length content ≤ offset))
  pub ends : (eof ≡ false) ⊎ (length content ≤ offset + n)

take-nil : (n : ℕ) → take {A = ℕ} n [] ≡ []
take-nil zero = refl
take-nil (suc n) = refl

pub take-plus : (a b : ℕ) (xs : Bytes) → take (a + b) xs ≡ take a xs ++ take b (drop a xs)
take-plus zero b xs = let same : 0 + b ≡ b = omega arith in ap (λ n. take n xs) same
take-plus (suc a) b [] = take-nil (suc a + b) ∙ sym (take-nil b)
take-plus (suc a) b (x ∷ xs) =
    let same : suc a + b ≡ suc (a + b) = omega arith in
    ap (λ n. take n (x ∷ xs)) same ∙ ap (λ l. x ∷ l) (take-plus a b xs)

pub drop-all : (n : ℕ) (xs : Bytes) → length xs ≤ n → drop n xs ≡ []
drop-all zero [] h = refl
drop-all zero (x ∷ xs) h = absurd (omega arith)
drop-all (suc n) [] h = refl
drop-all (suc n) (x ∷ xs) h = drop-all n xs (omega arith)

module _ {ℓ} {S : Type ℓ} (client : Compounds S) (opened : OpenedFile) (content : Bytes) where
  -- The outcome of one read: some bytes, or the end.
  pub data Round (offset count : ℕ) : Result Error (Bool × Bytes) → Type 0 where
    some_bytes :
        (eof : Bool) (byte : ℕ) (bytes : Bytes)
        → take (length (byte ∷ bytes)) (drop offset content) ≡ byte ∷ bytes
        → offset + length (byte ∷ bytes) ≤ length content
        → length (byte ∷ bytes) ≤ count
        → (eof ≡ false) ⊎ (length content ≤ offset + length (byte ∷ bytes))
        → Round offset count (ok (eof, byte ∷ bytes))
    no_bytes : (eof : Bool) → length content ≤ offset → Round offset count (ok (eof, []))

  size-valid :
      (count size : ℕ) (eof : Bool)
      → size ≤ count
      → (0 < size) ⊎ (eof ≡ true)
      → validate_read_result_size count size eof ≡ ok tt
  unfolding validate_read_result_size
  size-valid count size true h k =
      let fits : ltb count size ≡ false = ground arith in
      let moves : (ltb 0 count && (size == 0 && false)) ≡ false =
        and-no (ltb 0 count) (size == 0) in
      rw (fits, moves) refl
    where
      and-no : (a b : Bool) → (a && (b && false)) ≡ false
      and-no true true = refl
      and-no true false = refl
      and-no false b = refl
  size-valid count size false h (inr e) = cc
  size-valid count size false h (inl p) =
      let fits : ltb count size ≡ false = ground arith in
      let some_size : (size == 0) ≡ false = ground arith in
      let moves : (ltb 0 count && ((size == 0) && true)) ≡ false =
        rw some_size (and-no (ltb 0 count)) in
      rw (fits, moves) refl
    where
      and-no : (a : Bool) → (a && false) ≡ false
      and-no true = refl
      and-no false = refl

  read-reply :
      (tag : Bytes) (sequence : Option SequenceResult) (eof : Bool) (bytes : Bytes) (count : ℕ)
      → length bytes ≤ count
      → (0 < length bytes) ⊎ (eof ≡ true)
      → response_read (read_reply tag sequence eof bytes) count ≡ ok (eof, bytes)
  unfolding response_read Status.is_ok
  read-reply tag sequence eof bytes count h k = rw (size-valid count (length bytes) eof h k) refl

  module _
      (serves : (s : S) (offset count : ℕ)
        → 0 < count
        → Reads content offset count
            (client.compound (read_operations client opened offset count) s).0) where
    pub read_opened_at-Round :
        (offset count : ℕ) (s : S)
        → 0 < count
        → Round offset count (read_opened_at client opened offset count s).0
    unfolding read_opened_at
    read_opened_at-Round offset count s h =
        by_answer (client.compound (read_operations client opened offset count) s).0
          (client.compound (read_operations client opened offset count) s).1
          (serves s offset count h)
      where
        of_bytes :
            (eof : Bool) (n : ℕ) (bytes : Bytes)
            → bytes ≡ take n (drop offset content)
            → n ≤ count
            → ((0 < n) × (offset + n ≤ length content)) ⊎ ((eof ≡ true) × (length content ≤ offset))
            → (eof ≡ false) ⊎ (length content ≤ offset + n)
            → (length bytes ≤ count)
              × ((0 < length bytes) ⊎ (eof ≡ true))
              × Round offset count (ok (eof, bytes))
        of_bytes eof n [] q h (inl p) e =
            let size = ap length q ∙ length-take n (drop offset content) in
            absurd (omega (arith, size, p.0, p.1, length-drop offset content))
        of_bytes eof n (byte ∷ bytes) q h (inl p) e =
            let size : length (byte ∷ bytes) ≡ n = omega (
              arith,
              ap length q ∙ length-take n (drop offset content),
              p.0,
              p.1,
              length-drop offset content,
            ) in
            (
              omega (arith, size, h),
              inl (omega (arith, size)),
              some_bytes eof byte bytes (ap (λ k. take k (drop offset content)) size ∙ sym q)
                  (omega (arith, size, p.1)) (omega (arith, size, h))
                  (subst (λ k. (eof ≡ false) ⊎ (length content ≤ offset + k)) (sym size) e),
            )
        of_bytes eof n [] q h (inr p) e = (omega arith, inr p.0, no_bytes eof p.1)
        of_bytes eof n (byte ∷ bytes) q h (inr p) e =
            let size = ap length q ∙ length-take n (drop offset content) in
            absurd (omega (arith, size, p.1, length-drop offset content))

        by_answer :
            (r : Result Error CompoundResponse) (s' : S)
            → Reads content offset count r
            → Round offset count (continue r (λ response t. (response_read response count, t)) s').0
        by_answer r s' a =
            let made =
              of_bytes a.eof a.n (take a.n (drop offset content)) refl a.within a.moves_on a.ends in
            subst
              (λ x.
                Round offset count
                  (continue x (λ response t. (response_read response count, t)) s').0)
              (sym a.answered)
              (subst (Round offset count)
                (sym (
                  read-reply a.tag a.sequence a.eof (take a.n (drop offset content)) count made.0
                    made.1))
                made.2)
