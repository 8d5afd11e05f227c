-- ===== src/V4/Files/Writes.antt =====
-- The write loop of src/v4/blocking.rs, against a server that stores what it acknowledges.
use nfs.Prelude.{
  ℕ, zero, suc, ◌+◌, ◌-◌, ◌^◌, ◌≤◌, ◌<◌, ◌≡◌, refl, sym, ap, ◌∙◌, subst, Bool, true, false, not,
  ◌&&◌, Option, none, some, List, [], ◌∷◌, ◌++◌, append-nil, append_assoc, arith, min, ltb, ◌==◌,
  if◌then◌else◌, length, length-take, length-append, take, drop, length-drop, take-append,
  drop-append, take-append-drop, bytes_eq, bytes_eq_refl,
}
use nfs.Prelude.Outcome.{Result, ok, err}
use nfs.Prelude.Exec.{continue, lift, ◌>>=◌, ◌>>◌}
use nfs.Error.{Error}
use nfs.V4.Status
use nfs.V4.OpCode
use nfs.V4.Args.{Bytes}
use nfs.V4.Transfer.{StableHow, WriteResult, satisfies}
use nfs.V4.Operation.{Operation}
use nfs.V4.Response
use nfs.V4.Response.{CompoundResponse, SequenceResult}
use nfs.V4.Extract.Transfers.{validate_write_result_count, response_write, response_commit}
use nfs.V4.Files.{
  Compounds, OpenedFile, On, advance_offset, write_operations, commit_opened, same_verifier,
  commit_checked, unless_stable, made_stable, write_from, write_opened_at,
}
use nfs.V4.Files.Contents.{advance-ok, drop-plus}

-- The file with the bytes from an offset on replaced.
abbrev pub splice : Bytes → ℕ → Bytes → Bytes
splice file offset bytes = take offset file ++ (bytes ++ drop (offset + length bytes) file)

drop-take : (n : ℕ) (xs : Bytes) (ys : Bytes) → length xs ≡ n → drop n (xs ++ ys) ≡ ys
drop-take n xs ys e = ap (λ k. drop k (xs ++ ys)) (sym e) ∙ drop-append xs ys

take-here : (n : ℕ) (xs : Bytes) (ys : Bytes) → length xs ≡ n → take n (xs ++ ys) ≡ xs
take-here n xs ys e = ap (λ k. take k (xs ++ ys)) (sym e) ∙ take-append xs ys

take-take : (n m : ℕ) (xs : Bytes) → n ≤ m → take n (take m xs) ≡ take n xs
take-take zero m xs h = refl
take-take (suc n) zero xs h = absurd (omega arith)
take-take (suc n) (suc m) [] h = refl
take-take (suc n) (suc m) (x ∷ xs) h = ap (λ l. x ∷ l) (take-take n m xs (omega arith))

-- Two writes in a row are one.
splice-splice :
    (file : Bytes) (offset n : ℕ) (a b : Bytes)
    → offset ≤ length file
    → n ≡ length a
    → splice (splice file offset a) (offset + n) b ≡ splice file offset (a ++ b)
splice-splice file offset n a b h e =
    let front = take offset file ++ a in
    let tail = drop (offset + length a) file in
    let shape : splice file offset a ≡ front ++ tail =
      sym (append_assoc (take offset file) a tail) in
    let size : length front ≡ offset + n =
      omega (arith, e, length-append (take offset file) a, length-take offset file, h) in
    let behind : drop (offset + n + length b) (front ++ tail)
        ≡ drop (offset + length (a ++ b)) file =
      drop-plus (offset + n) (length b) (front ++ tail)
      ∙ ap (drop (length b)) (drop-take (offset + n) front tail size)
      ∙ sym (drop-plus (offset + length a) (length b) file)
      ∙ ap (λ k. drop k file) (total (length-append a b)) in
    ap (λ f. splice f (offset + n) b) shape
    ∙ ap (λ t. t ++ (b ++ drop (offset + n + length b) (front ++ tail)))
        (take-here (offset + n) front tail size)
    ∙ ap (λ t. front ++ (b ++ t)) behind
    ∙ append_assoc (take offset file) a (b ++ drop (offset + length (a ++ b)) file)
    ∙ ap (λ t. take offset file ++ t)
        (sym (append_assoc a b (drop (offset + length (a ++ b)) file)))
  where
    total :
        length (a ++ b) ≡ length a + length b
        → offset + length a + length b ≡ offset + length (a ++ b)
    total q = omega (arith, q)

splice-nothing : (file : Bytes) (offset : ℕ) → splice file offset [] ≡ file
splice-nothing file offset =
    let same : offset + 0 ≡ offset = omega arith in
    ap (λ k. take offset file ++ drop k file) same ∙ take-append-drop offset file

length-splice :
    (file : Bytes) (offset : ℕ) (bytes : Bytes)
    → offset ≤ length file
    → offset + length bytes ≤ length (splice file offset bytes)
length-splice file offset bytes h = omega (
  arith,
  length-append (take offset file) (bytes ++ drop (offset + length bytes) file),
  length-append bytes (drop (offset + length bytes) file),
  length-take offset file,
)

-- The responses to WRITE and COMMIT, behind SEQUENCE and PUTFH.
abbrev pub write_reply : Bytes → Option SequenceResult → WriteResult → CompoundResponse
write_reply tag sequence result = record {
  status = Status.ok;
  tag = tag;
  results =
      Response.OperationResult.sequence Status.ok sequence
      ∷ Response.OperationResult.status_only OpCode.put_fh Status.ok
      ∷ Response.OperationResult.write Status.ok (some result)
      ∷ [];
}

abbrev pub commit_reply : Bytes → Option SequenceResult → Bytes → CompoundResponse
commit_reply tag sequence verifier = record {
  status = Status.ok;
  tag = tag;
  results =
      Response.OperationResult.sequence Status.ok sequence
      ∷ Response.OperationResult.status_only OpCode.put_fh Status.ok
      ∷ Response.OperationResult.commit Status.ok (some (record { verifier = verifier }))
      ∷ [];
}

module _ {ℓ} {S : Type ℓ} (client : Compounds S) (opened : OpenedFile) (file : S → Bytes)
    (verifier : Bytes) where
  -- Some of the bytes are acknowledged, with any stability, and they are in the file.
  pub record Stores (before : Bytes) (offset : ℕ) (bytes : Bytes)
      (p : Result Error CompoundResponse × S) : Type 0 where
    pub tag : Bytes
    pub sequence : Option SequenceResult
    pub n : ℕ
    pub committed : StableHow
    pub answered :
        p.0
        ≡ ok (
            write_reply tag sequence
              (record { count = n; committed = committed; verifier = verifier }))
    pub within : n ≤ length bytes
    pub moves_on : 0 < n
    pub stored : file p.1 ≡ splice before offset (take n bytes)

  -- The server has not restarted in between: the verifier is still the same.
  pub record Commits (before : Bytes) (p : Result Error CompoundResponse × S) : Type 0 where
    pub tag : Bytes
    pub sequence : Option SequenceResult
    pub answered : p.0 ≡ ok (commit_reply tag sequence verifier)
    pub kept : file p.1 ≡ before

  write-reply :
      (tag : Bytes) (sequence : Option SequenceResult) (result : WriteResult) (requested : ℕ)
      → result.count ≤ requested
      → 0 < result.count
      → response_write (write_reply tag sequence result) requested ≡ ok result
  unfolding response_write validate_write_result_count Status.is_ok
  write-reply tag sequence result requested h k =
      let fits : ltb requested result.count ≡ false = ground arith in
      let moves : (result.count == 0) ≡ false = ground arith in
      rw (fits, moves) (by_request (ltb 0 requested))
    where
      by_request :
          (b : Bool)
          → (nfs.Prelude.Outcome.◌>>◌
              (if b && false
                then err (nfs.Error.protocol "NFSv4 WRITE accepted zero bytes")
                else ok tt)
              (ok result))
            ≡ ok result
      by_request true = refl
      by_request false = refl

  module _
      (stores : (s : S) (offset : ℕ) (bytes : Bytes)
        → 0 < length bytes
        → Stores
            (file s)
            offset
            bytes
            (client.compound (write_operations client opened offset bytes) s))
      (commits : (s : S) (offset count : ℕ)
        → Commits (file s) (
            client.compound
              (Operation.put_fh opened.handle ∷ Operation.commit offset count ∷ [])
              s)) where
    -- An action that succeeds and leaves the file.
    record Done (before : Bytes) (p : Result Error (Unit {0}) × S) : Type 0 where
      success : p.0 ≡ ok tt
      kept : file p.1 ≡ before

    commit_checked-Done :
        (offset : ℕ) (result : WriteResult) (s : S)
        → result.verifier ≡ verifier
        → Done (file s) (commit_checked client opened offset result s)
    unfolding commit_opened response_commit Status.is_ok
    commit_checked-Done offset result s h =
        by_answer (client.compound (commit_operations offset result.count) s).0
          (client.compound (commit_operations offset result.count) s).1
          (commits s offset result.count)
      where
        commit_operations : ℕ → ℕ → List Operation
        commit_operations o count = Operation.put_fh opened.handle ∷ Operation.commit o count ∷ []

        by_answer :
            (r : Result Error CompoundResponse) (s' : S)
            → Commits (file s) (r, s')
            → Done (file s) (
                continue
                  (continue r (λ response t. (response_commit response, t)) s').0
                  (λ commit t. (same_verifier client opened result.verifier commit.verifier, t))
                  (continue r (λ response t. (response_commit response, t)) s').1)
        by_answer r s' c =
            subst
              (λ x. Done (file s) (
                continue (continue x (λ response t. (response_commit response, t)) s').0
                  (λ commit t. (same_verifier client opened result.verifier commit.verifier, t))
                  (continue x (λ response t. (response_commit response, t)) s').1))
              (sym c.answered)
              (record {
                success =
                    ap
                      (λ b.
                        if b
                        then ok tt
                        else err (
                            nfs.Error.protocol
                              "NFSv4 COMMIT verifier changed after unstable WRITE"))
                      (ap (bytes_eq verifier) h ∙ bytes_eq_refl verifier);
                kept = c.kept;
              })

    made_stable-Done :
        (offset : ℕ) (result : WriteResult) (s : S)
        → result.verifier ≡ verifier
        → Done (file s) (made_stable client opened offset result s)
    unfolding commit_opened
    made_stable-Done offset result s h =
        by_stability (satisfies result.committed StableHow.file_sync)
          (commit_checked-Done offset result s h)
      where
        by_stability :
            (b : Bool)
            → Done (file s) (commit_checked client opened offset result s)
            → Done
                (file s)
                (unless_stable client opened b (commit_checked client opened offset result) s)
        by_stability true d = record { success = refl; kept = refl }
        by_stability false d = d

    module _ (sized : (s : S) → 0 < client.write_size s) where
      -- The file after the whole loop.
      record Wrote (before : Bytes) (offset : ℕ) (bytes : Bytes) (p : Result Error (Unit {0}) × S)
          : Type 0 where
        success : p.0 ≡ ok tt
        stored : file p.1 ≡ splice before offset bytes

      write_from-Wrote :
          (fuel offset : ℕ) (bytes : Bytes) (s : S)
          → length bytes ≤ fuel
          → offset ≤ length (file s)
          → offset + length bytes < 2 ^ 64
          → Wrote (file s) offset bytes (write_from client opened fuel offset bytes s)
      unfolding write_from
      write_from-Wrote zero offset [] s h k l = record {
        success = refl;
        stored = sym (splice-nothing (file s) offset);
      }
      write_from-Wrote zero offset (byte ∷ bytes) s h k l = absurd (omega (arith, h))
      write_from-Wrote (suc fuel) offset [] s h k l = record {
        success = refl;
        stored = sym (splice-nothing (file s) offset);
      }
      write_from-Wrote (suc fuel) offset (byte ∷ bytes) s h k l =
          by_answer (client.compound (write_operations client opened offset chunk) s).0
            (client.compound (write_operations client opened offset chunk) s).1
            (stores s offset chunk chunk_some)
            (λ offset' bytes' t. write_from-Wrote fuel offset' bytes' t)
        where
          size : ℕ
          size = min (length (byte ∷ bytes)) (client.write_size s)

          chunk : Bytes
          chunk = take size (byte ∷ bytes)

          chunk_some : 0 < length chunk
          chunk_some = omega (arith, length-take size (byte ∷ bytes), sized s)

          Again : Type ℓ
          Again =
              (offset' : ℕ) (bytes' : Bytes) (t : S)
              → length bytes' ≤ fuel
              → offset' ≤ length (file t)
              → offset' + length bytes' < 2 ^ 64
              → Wrote (file t) offset' bytes' (write_from client opened fuel offset' bytes' t)

          rest : WriteResult → On client opened (Unit {0})
          rest result =
              made_stable client opened offset result
              >> (lift (advance_offset offset result.count "NFSv4 WRITE") >>= λ offset'.
                  write_from client opened fuel offset' (drop result.count (byte ∷ bytes)))

          by_stable :
              (result : WriteResult) (before : Bytes) (r : Result Error (Unit {0})) (t : S)
              → result.count ≤ length (byte ∷ bytes)
              → 0 < result.count
              → before ≡ splice (file s) offset (take result.count (byte ∷ bytes))
              → Done before (r, t)
              → Again
              → Wrote (file s) offset (byte ∷ bytes) (
                  continue r
                    (λ _. lift (advance_offset offset result.count "NFSv4 WRITE") >>= λ offset'.
                      write_from client opened fuel offset' (drop result.count (byte ∷ bytes)))
                    t)
          by_stable result before r t w m e d again =
              let n = result.count in
              let behind = length-drop n (byte ∷ bytes) in
              let taken : n ≡ length (take n (byte ∷ bytes)) =
                omega (arith, length-take n (byte ∷ bytes), w) in
              let now = d.kept ∙ e in
              let inside : offset + n ≤ length (file t) = omega (
                arith,
                ap length now,
                taken,
                length-splice (file s) offset (take n (byte ∷ bytes)) k,
              ) in
              let next =
                again (offset + n) (drop n (byte ∷ bytes)) t (omega (arith, behind, h, m)) inside
                  (omega (arith, behind, l, w)) in
              let all_bytes =
                ap (λ f. splice f (offset + n) (drop n (byte ∷ bytes))) now
                ∙ splice-splice (file s) offset n (take n (byte ∷ bytes)) (drop n (byte ∷ bytes)) k
                    taken
                ∙ ap (splice (file s) offset) (take-append-drop n (byte ∷ bytes)) in
              subst
                (λ x. Wrote (file s) offset (byte ∷ bytes) (
                  continue x
                    (λ _. lift (advance_offset offset n "NFSv4 WRITE") >>= λ offset'.
                      write_from client opened fuel offset' (drop n (byte ∷ bytes)))
                    t))
                (sym d.success)
                (subst
                  (λ x. Wrote (file s) offset (byte ∷ bytes) (
                    continue x
                      (λ offset'. write_from client opened fuel offset' (drop n (byte ∷ bytes))) t))
                  (sym (advance-ok offset n "NFSv4 WRITE" (omega (arith, l, w))))
                  (record { success = next.success; stored = next.stored ∙ all_bytes }))

          by_answer :
              (r : Result Error CompoundResponse) (t : S)
              → Stores (file s) offset chunk (r, t)
              → Again
              → Wrote
                  (file s)
                  offset
                  (byte ∷ bytes)
                  (continue r (λ response u. continue (response_write response size) rest u) t)
          by_answer r t a again =
              let few : a.n ≤ size = omega (arith, a.within, length-take size (byte ∷ bytes)) in
              let result : WriteResult = record {
                count = a.n;
                committed = a.committed;
                verifier = verifier;
              } in
              subst
                (λ x.
                  Wrote (file s) offset (byte ∷ bytes)
                    (continue x (λ response u. continue (response_write response size) rest u) t))
                (sym a.answered)
                (subst (λ x. Wrote (file s) offset (byte ∷ bytes) (continue x rest t))
                  (sym (write-reply a.tag a.sequence result size few a.moves_on))
                  (by_stable result (file t) (made_stable client opened offset result t).0
                    (made_stable client opened offset result t).1 (omega (arith, few)) a.moves_on
                    (a.stored ∙ ap (splice (file s) offset) (take-take a.n size (byte ∷ bytes) few))
                    (made_stable-Done offset result t refl) again))

      -- If the server stores what it acknowledges of each WRITE, at least one byte, and keeps the file and
      -- its verifier in a COMMIT, then writing bytes at an offset within the open file, and up to an end
      -- below 2^64, succeeds and puts just them there, in whatever pieces and with whatever stability they
      -- are acknowledged. The write size is not 0.
      pub write_opened_at-stored :
          (offset : ℕ) (bytes : Bytes) (s : S)
          → offset ≤ length (file s)
          → offset + length bytes < 2 ^ 64
          → ((write_opened_at client opened offset bytes s).0 ≡ ok tt)
            × (file (write_opened_at client opened offset bytes s).1 ≡ splice (file s) offset bytes)
      unfolding write_opened_at
      write_opened_at-stored offset bytes s h k =
          let done = write_from-Wrote (length bytes) offset bytes s (omega arith) h k in
          (done.success, done.stored)
