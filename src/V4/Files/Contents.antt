-- ===== src/V4/Files/Contents.antt =====
-- What the read loops of src/v4/blocking.rs return of a file that the server holds: all of it, or the range.
use nfs.Prelude.{
  ℕ, zero, suc, ◌+◌, ◌-◌, ◌^◌, ◌≤◌, ◌<◌, ◌≡◌, refl, sym, ap, ◌∙◌, subst, Bool, true, false, ◌⊎◌,
  inl, inr, String, [], ◌∷◌, ◌++◌, append_assoc, append-nil, arith, min, ltb, length, take, drop,
  take-all,
}
use nfs.Prelude.Outcome.{Result, ok}
use nfs.Prelude.Exec.{continue, lift, pure, ◌>>=◌}
use nfs.Error.{Error}
use nfs.V4.Args.{Bytes}
use nfs.V4.Files.{
  Compounds, OpenedFile, advance_offset, read_operations, read_opened_at, unless_eof, after_read,
  read_to_end_from, read_opened_to_end, after_range, read_range_from, read_opened_range_vec,
}
use nfs.V4.Files.Reads.{
  Reads, take-plus, drop-all, Round, some_bytes, no_bytes, read_opened_at-Round,
}

pub advance-ok :
    (offset amount : ℕ) (operation : String)
    → offset + amount < 2 ^ 64
    → advance_offset offset amount operation ≡ ok (offset + amount)
unfolding advance_offset
advance-ok offset amount operation h =
    let fits : ltb (offset + amount) (2 ^ 64) ≡ true = ground arith in rw fits

pub drop-plus : (a b : ℕ) (xs : Bytes) → drop (a + b) xs ≡ drop b (drop a xs)
drop-plus zero b xs = let same : 0 + b ≡ b = omega arith in ap (λ n. drop n xs) same
drop-plus (suc a) zero [] = let same : suc a + 0 ≡ suc a = omega arith in ap (λ n. drop n []) same
drop-plus (suc a) (suc b) [] =
    let same : suc a + suc b ≡ suc (suc (a + b)) = omega arith in ap (λ n. drop n []) same
drop-plus (suc a) b (x ∷ xs) =
    let same : suc a + b ≡ suc (a + b) = omega arith in
    ap (λ n. drop n (x ∷ xs)) same ∙ drop-plus a b xs

take-none : (n : ℕ) → take {A = ℕ} n [] ≡ []
take-none zero = refl
take-none (suc n) = refl

module _ {ℓ} {S : Type ℓ} (client : Compounds S) (opened : OpenedFile) (content : Bytes)
    (serves : (s : S) (offset count : ℕ)
      → 0 < count
      → Reads content offset count
          (client.compound (read_operations client opened offset count) s).0)
    (sized : (s : S) → 0 < client.read_size s) (bounded : length content < 2 ^ 64) where
  joined :
      (offset : ℕ) (out bytes : Bytes)
      → out ≡ take offset content
      → take (length bytes) (drop offset content) ≡ bytes
      → out ++ bytes ≡ take (offset + length bytes) content
  joined offset out bytes h k =
      ap (λ o. o ++ bytes) h
      ∙ ap (λ b. take offset content ++ b) (sym k)
      ∙ sym (take-plus offset (length bytes) content)

  read_to_end_from-content :
      (fuel offset : ℕ) (out : Bytes) (s : S)
      → out ≡ take offset content
      → offset ≤ length content
      → length content < offset + fuel
      → (read_to_end_from client opened fuel offset out s).0 ≡ ok content
  unfolding read_to_end_from
  read_to_end_from-content zero offset out s h k l = absurd (omega (arith, k, l))
  read_to_end_from-content (suc fuel) offset out s h k l =
      by_round (read_opened_at client opened offset (client.read_size s) s).0
        (read_opened_at client opened offset (client.read_size s) s).1
        (read_opened_at-Round client opened content serves offset (client.read_size s) s (sized s))
        (λ offset' out' t. read_to_end_from-content fuel offset' out' t)
    where
      by_end :
          (eof : Bool) (byte : ℕ) (bytes : Bytes) (t : S)
          → take (length (byte ∷ bytes)) (drop offset content) ≡ byte ∷ bytes
          → offset + length (byte ∷ bytes) ≤ length content
          → (eof ≡ false) ⊎ (length content ≤ offset + length (byte ∷ bytes))
          → ((offset' : ℕ) (out' : Bytes) (t' : S)
              → out' ≡ take offset' content
              → offset' ≤ length content
              → length content < offset' + fuel
              → (read_to_end_from client opened fuel offset' out' t').0 ≡ ok content)
          → (unless_eof client opened eof
              (out ++ (byte ∷ bytes))
              (read_to_end_from client opened fuel
                (offset + length (byte ∷ bytes))
                (out ++ (byte ∷ bytes)))
              t).0
            ≡ ok content
      by_end true byte bytes t q m (inl e) again = cc
      by_end true byte bytes t q m (inr e) again = ap ok (
          joined offset out (byte ∷ bytes) h q
          ∙ take-all (offset + length (byte ∷ bytes)) content e)
      by_end false byte bytes t q m e again =
          again (offset + length (byte ∷ bytes)) (out ++ (byte ∷ bytes)) t
            (joined offset out (byte ∷ bytes) h q) m (omega (arith, l))

      by_round :
          (r : Result Error (Bool × Bytes)) (s' : S)
          → Round client opened content offset (client.read_size s) r
          → ((offset' : ℕ) (out' : Bytes) (t : S)
              → out' ≡ take offset' content
              → offset' ≤ length content
              → length content < offset' + fuel
              → (read_to_end_from client opened fuel offset' out' t).0 ≡ ok content)
          → (continue r
              (after_read client opened (read_to_end_from client opened fuel) offset out)
              s').0
            ≡ ok content
      by_round r s' (no_bytes eof e) again = ap ok (h ∙ take-all offset content e)
      by_round r s' (some_bytes eof byte bytes q m w e) again =
          ap
            (λ a.
              (continue a
                (λ offset'.
                  unless_eof client opened eof (out ++ (byte ∷ bytes))
                    (read_to_end_from client opened fuel offset' (out ++ (byte ∷ bytes))))
                s').0)
            (advance-ok offset (length (byte ∷ bytes)) "NFSv4 READ" (omega (arith, m, bounded)))
          ∙ by_end eof byte bytes s' q m e again

  -- If the server answers every READ with bytes of its file from the offset on, at least one where there
  -- is one, and reports the end nowhere else, then reading an open file to its end returns the whole file,
  -- in whatever pieces it comes. The read size is not 0, and the file has fewer than 2^64 bytes.
  pub read_opened_to_end-content : (s : S) → (read_opened_to_end client opened s).0 ≡ ok content
  unfolding read_opened_to_end
  read_opened_to_end-content s =
      read_to_end_from-content (2 ^ 64) 0 [] s refl (omega arith) (omega (arith, bounded))

  -- A range from some offset on is the bytes before a second offset, and those behind it.
  range-plus :
      (offset n count : ℕ) (bytes : Bytes)
      → take (length bytes) (drop offset content) ≡ bytes
      → n ≡ length bytes
      → n ≤ count
      → bytes ++ take (count - n) (drop (offset + n) content) ≡ take count (drop offset content)
  range-plus offset n count bytes q e h =
      ap (λ b. b ++ take (count - n) (drop (offset + n) content))
        (sym q ∙ ap (λ k. take k (drop offset content)) (sym e))
      ∙ ap (λ l. take n (drop offset content) ++ take (count - n) l) (drop-plus offset n content)
      ∙ sym (take-plus n (count - n) (drop offset content))
      ∙ ap (λ k. take k (drop offset content)) sum
    where
      sum : n + (count - n) ≡ count
      sum = omega (arith, h)

  read_range_from-content :
      (fuel offset remaining total : ℕ) (out : Bytes) (s : S)
      → remaining ≤ fuel
      → total + remaining < 2 ^ 64
      → (total' : ℕ) × ((read_range_from client opened fuel offset remaining total out s).0
          ≡ ok (total', out ++ take remaining (drop offset content)))
  unfolding read_range_from
  read_range_from-content zero offset zero total out s h k =
      (total, ap (λ o. ok (total, o)) (sym (append-nil out)))
  read_range_from-content zero offset (suc n) total out s h k = absurd (omega (arith, h))
  read_range_from-content (suc fuel) offset zero total out s h k =
      (total, ap (λ o. ok (total, o)) (sym (append-nil out)))
  read_range_from-content (suc fuel) offset (suc n) total out s h k =
      by_round (read_opened_at client opened offset (min (client.read_size s) (suc n)) s).0
        (read_opened_at client opened offset (min (client.read_size s) (suc n)) s).1
        (read_opened_at-Round client opened content serves offset (min (client.read_size s) (suc n))
          s (omega (arith, sized s)))
        (λ offset' remaining' total' out' t.
          read_range_from-content fuel offset' remaining' total' out' t)
    where
      Again : Type ℓ
      Again =
          (offset' remaining' total' : ℕ) (out' : Bytes) (t : S)
          → remaining' ≤ fuel
          → total' + remaining' < 2 ^ 64
          → (total'' : ℕ) × ((read_range_from client opened fuel offset' remaining' total' out' t).0
              ≡ ok (total'', out' ++ take remaining' (drop offset' content)))

      by_end :
          (eof : Bool) (byte : ℕ) (bytes : Bytes) (t : S)
          → take (length (byte ∷ bytes)) (drop offset content) ≡ byte ∷ bytes
          → length (byte ∷ bytes) ≤ suc n
          → (eof ≡ false) ⊎ (length content ≤ offset + length (byte ∷ bytes))
          → Again
          → (total' : ℕ) × ((unless_eof client opened eof
                (total + length (byte ∷ bytes), out ++ (byte ∷ bytes))
                (read_range_from client opened fuel
                  (offset + length (byte ∷ bytes))
                  (suc n - length (byte ∷ bytes))
                  (total + length (byte ∷ bytes))
                  (out ++ (byte ∷ bytes)))
                t).0
              ≡ ok (total', out ++ take (suc n) (drop offset content)))
      by_end true byte bytes t q w (inl e) again = cc
      by_end true byte bytes t q w (inr e) again = (
        total + length (byte ∷ bytes),
        ap (λ b. ok (total + length (byte ∷ bytes), out ++ b))
            (sym (append-nil (byte ∷ bytes))
              ∙ ap (λ l. (byte ∷ bytes) ++ l)
                  (sym (
                    ap (take (suc n - length (byte ∷ bytes)))
                      (drop-all (offset + length (byte ∷ bytes)) content e)
                    ∙ take-none (suc n - length (byte ∷ bytes))))
              ∙ range-plus offset (length (byte ∷ bytes)) (suc n) (byte ∷ bytes) q refl w),
      )
      by_end false byte bytes t q w e again =
          let rest =
            again (offset + length (byte ∷ bytes)) (suc n - length (byte ∷ bytes))
              (total + length (byte ∷ bytes)) (out ++ (byte ∷ bytes)) t (omega (arith, h))
              (omega (arith, k, w)) in
          (
            rest.0,
            rest.1
                ∙ ap (λ o. ok (rest.0, o))
                    (append_assoc out (byte ∷ bytes) _
                      ∙ ap (λ l. out ++ l)
                          (range-plus offset (length (byte ∷ bytes)) (suc n) (byte ∷ bytes) q refl
                            w)),
          )

      by_round :
          (r : Result Error (Bool × Bytes)) (s' : S)
          → Round client opened content offset (min (client.read_size s) (suc n)) r
          → Again
          → (total' : ℕ) × ((continue r
                (after_range client opened
                  (read_range_from client opened fuel)
                  offset
                  (suc n)
                  total
                  out)
                s').0
              ≡ ok (total', out ++ take (suc n) (drop offset content)))
      by_round r s' (no_bytes eof e) again = (
        total,
        ap (λ b. ok (total, b))
            (sym (append-nil out)
              ∙ ap (λ l. out ++ l) (sym (ap (take (suc n)) (drop-all offset content e)))),
      )
      by_round r s' (some_bytes eof byte bytes q m w e) again =
          let size : length (byte ∷ bytes) ≤ suc n = omega (arith, w) in
          subst
            (λ a.
              (total' : ℕ) × ((continue a
                  (λ offset'.
                    lift (advance_offset total (length (byte ∷ bytes)) "NFSv4 READ total")
                    >>= λ total'.
                        unless_eof client opened eof (total', out ++ (byte ∷ bytes))
                          (read_range_from client opened fuel offset'
                            (suc n - length (byte ∷ bytes)) total' (out ++ (byte ∷ bytes))))
                  s').0
                ≡ ok (total', out ++ take (suc n) (drop offset content))))
            (sym
              (advance-ok offset (length (byte ∷ bytes)) "NFSv4 READ" (omega (arith, m, bounded))))
            (subst
              (λ a.
                (total' : ℕ) × ((continue a
                    (λ total'.
                      unless_eof client opened eof (total', out ++ (byte ∷ bytes))
                        (read_range_from client opened fuel (offset + length (byte ∷ bytes))
                          (suc n - length (byte ∷ bytes)) total' (out ++ (byte ∷ bytes))))
                    s').0
                  ≡ ok (total', out ++ take (suc n) (drop offset content))))
              (sym (
                advance-ok total (length (byte ∷ bytes)) "NFSv4 READ total"
                  (omega (arith, size, k))))
              (by_end eof byte bytes s' q size e again))

  -- From such a server, reading a range of fewer than 2^64 bytes returns the bytes of the file that are in
  -- it, in whatever pieces they come. The read size is not 0, and the file has fewer than 2^64 bytes.
  pub read_opened_range_vec-content :
      (offset count : ℕ) (s : S)
      → count < 2 ^ 64
      → (read_opened_range_vec client opened offset count s).0
        ≡ ok (take count (drop offset content))
  unfolding read_opened_range_vec
  read_opened_range_vec-content offset count s h =
      let done =
        read_range_from-content count offset count 0 [] s (omega arith) (omega (arith, h)) in
      by_result (read_range_from client opened count offset count 0 [] s).0
        (read_range_from client opened count offset count 0 [] s).1 done.0 done.1
    where
      by_result :
          (r : Result Error (ℕ × Bytes)) (s' : S) (total : ℕ)
          → r ≡ ok (total, take count (drop offset content))
          → (continue r (λ done. pure done.1) s').0 ≡ ok (take count (drop offset content))
      by_result r s' total e =
          ap (λ (x : Result Error (ℕ × Bytes)). (continue x (λ done. pure done.1) s').0) e
