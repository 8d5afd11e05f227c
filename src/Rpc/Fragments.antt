-- ===== src/Rpc/Fragments.antt =====
-- The records of src/rpc.rs on the wire, as RFC 5531 describes them: a record is a list of
-- fragments, of which the last one only carries the mark.
use nfs.Prelude.{
  ℕ, zero, suc, ◌+◌, ◌-◌, ◌^◌, ◌≤◌, ◌<◌, ◌≡◌, refl, ap, ◌∙◌, Bool, true, false, not, ◌&&◌, some,
  List, [], ◌∷◌, ◌++◌, arith, ltb, leb, ◌==◌, length, All, length-append, append_assoc, take-append,
  drop-append,
}
use nfs.Prelude.Outcome.{ok}
use nfs.Xdr.{usize_max}
use nfs.Xdr.Words.{u32_to_be, u32_from_be-u32_to_be, length-u32_to_be}
use nfs.Rpc.{last_fragment, fragment_len_mask}
use nfs.Rpc.Stream.{Stream, read_exact, write_all}
use nfs.Rpc.Record.{
  write_record, read_body, is_last, fragment_len, read_with_header, read_fragment, read_fragments,
  out_of_fuel, read_record,
}

abbrev mark : Bool → ℕ
mark true = 2 ^ 31
mark false = 0

-- One fragment: its header, with the mark or without it, and its bytes.
abbrev pub frame : Bool → List ℕ → List ℕ
frame last bytes = u32_to_be (mark last + length bytes) ++ bytes

-- The fragments that are not the last, then the last.
abbrev pub frames : List (List ℕ) → List ℕ → List ℕ
frames [] final = frame true final
frames (bytes ∷ fs) final = frame false bytes ++ frames fs final

abbrev pub joined : List (List ℕ) → List ℕ → List ℕ
joined [] final = final
joined (bytes ∷ fs) final = bytes ++ joined fs final

-- What RFC 5531 allows of a fragment that is not the last, less the empty one.
abbrev pub IsPart : List ℕ → Type 0
IsPart bytes = (0 < length bytes) × (length bytes < 2 ^ 31)

read_exact-append :
    (s : Stream) (n : ℕ) (bs rest : List ℕ)
    → s.incoming ≡ bs ++ rest
    → length bs ≡ n
    → read_exact n s ≡ (ok bs, record s { incoming = rest })
unfolding read_exact
read_exact-append s n bs rest e hn =
    let enough : leb (length bs) (length (bs ++ rest)) ≡ true =
      ground (arith, length-append bs rest) in
    rw (← hn, e, enough, take-append bs rest, drop-append bs rest)

module _ (limit : ℕ) (s : Stream) (r rest : List ℕ) where
  read_body-append :
      (bs : List ℕ)
      → s.incoming ≡ bs ++ rest
      → length r + length bs ≤ limit
      → read_body limit r (some (length r + length bs)) (length bs) s
        ≡ (ok (r ++ bs), record s { incoming = rest })
  unfolding read_body
  read_body-append bs e h =
      let a : ltb limit (length r + length bs) ≡ false = ground arith in
      rw (a, read_exact-append s (length bs) bs rest e refl)

  read_with_header-append :
      (header : ℕ) (last : Bool) (bs : List ℕ)
      → is_last header ≡ last
      → fragment_len header ≡ length bs
      → s.incoming ≡ bs ++ rest
      → (length bs == 0 && not last) ≡ false
      → length r + length bs ≤ limit
      → limit ≤ usize_max
      → read_with_header limit r header s ≡ (ok (last, r ++ bs), record s { incoming = rest })
  unfolding read_with_header
  read_with_header-append header last bs hm hl e p l u =
      let c : leb (length r + length bs) usize_max ≡ true = ground arith in
      rw (hm, hl, c, p, read_body-append bs e l)

mark-is_last : (last : Bool) (n : ℕ) → n < 2 ^ 31 → is_last (mark last + n) ≡ last
mark-is_last true n h = ground arith
mark-is_last false n h = ground arith

mark-fragment_len : (last : Bool) (n : ℕ) → n < 2 ^ 31 → fragment_len (mark last + n) ≡ n
mark-fragment_len true n h = omega arith
mark-fragment_len false n h = omega arith

mark-word : (last : Bool) (n : ℕ) → n < 2 ^ 31 → mark last + n < 2 ^ 32
mark-word true n h = omega arith
mark-word false n h = omega arith

read_fragment-append :
    (limit : ℕ) (s : Stream) (r rest : List ℕ) (last : Bool) (bs : List ℕ)
    → s.incoming ≡ frame last bs ++ rest
    → length bs < 2 ^ 31
    → (length bs == 0 && not last) ≡ false
    → length r + length bs ≤ limit
    → limit ≤ usize_max
    → read_fragment limit r s ≡ (ok (last, r ++ bs), record s { incoming = rest })
unfolding read_fragment
read_fragment-append limit s r rest last bs e h p l u =
    rw
      (
        read_exact-append s 4 (u32_to_be (mark last + length bs)) (bs ++ rest)
            (e ∙ append_assoc _ bs rest) (length-u32_to_be _),
        u32_from_be-u32_to_be (mark last + length bs) (mark-word last (length bs) h),
      )
      (read_with_header-append limit _ r rest (mark last + length bs) last bs
        (mark-is_last last _ h) (mark-fragment_len last _ h) refl p l u)

read_fragments-frames :
    (fuel limit : ℕ) (s : Stream) (r : List ℕ) (fs : List (List ℕ)) (final rest : List ℕ)
    → length fs < fuel
    → s.incoming ≡ frames fs final ++ rest
    → All IsPart fs
    → length final < 2 ^ 31
    → length r + length (joined fs final) ≤ limit
    → limit ≤ usize_max
    → read_fragments out_of_fuel fuel limit r s
      ≡ (ok (r ++ joined fs final), record s { incoming = rest })
unfolding read_fragments
read_fragments-frames zero limit s r fs final rest hf e p h l u = absurd (omega arith)
read_fragments-frames (suc fuel) limit s r [] final rest hf e p h l u =
    rw (read_fragment-append limit s r rest true final e h (and_false (length final == 0)) l u)
  where
    and_false : (b : Bool) → (b && false) ≡ false
    and_false true = refl
    and_false false = refl
read_fragments-frames (suc fuel) limit s r (bs ∷ fs) final rest hf e p h l u =
    let q : (length bs == 0 && true) ≡ false = ground (arith, p.0) in
    let n : length bs < 2 ^ 31 = (p.0).1 in
    let m : length (r ++ bs) + length (joined fs final) ≤ limit =
      (omega (arith, length-append r bs, length-append bs (joined fs final))) in
    rw
      (read_fragment-append limit s r (frames fs final ++ rest) false bs
        (e ∙ append_assoc (frame false bs) (frames fs final) rest) n q
        (omega (arith, length-append bs (joined fs final))) u)
      (read_fragments-frames fuel limit _ (r ++ bs) fs final rest (omega arith) refl p.1 h m u
        ∙ ap (λ x. (ok x, record s { incoming = rest })) (append_assoc r bs (joined fs final)))

length-frames : (fs : List (List ℕ)) (final : List ℕ) → length fs < length (frames fs final)
length-frames [] final = omega (
  arith,
  length-append (u32_to_be (mark true + length final)) final,
  length-u32_to_be (mark true + length final),
)
length-frames (bs ∷ fs) final = omega (
  arith,
  length-append (frame false bs) (frames fs final),
  length-append (u32_to_be (mark false + length bs)) bs,
  length-u32_to_be (mark false + length bs),
  length-frames fs final,
)

-- A record that is on the wire in any number of fragments, none of them empty but the last, and
-- that is within the limit, is read as the fragments' bytes joined, and nothing behind it is taken.
pub read_record-frames :
    (limit : ℕ) (s : Stream) (fs : List (List ℕ)) (final rest : List ℕ)
    → s.incoming ≡ frames fs final ++ rest
    → All IsPart fs
    → length final < 2 ^ 31
    → length (joined fs final) ≤ limit
    → limit ≤ usize_max
    → read_record limit s ≡ (ok (joined fs final), record s { incoming = rest })
unfolding read_record
read_record-frames limit s fs final rest e p h l u =
    read_fragments-frames (suc (length s.incoming)) limit s [] fs final rest
      (omega (arith, ap length e, length-append (frames fs final) rest, length-frames fs final)) e p
      h (omega arith) u

write_all-room :
    (bs : List ℕ) (s : Stream)
    → length bs ≤ s.room
    → write_all bs s ≡ (ok tt, record s { outgoing = s.outgoing ++ bs; room = s.room - length bs })
unfolding write_all
write_all-room bs s h = let a : leb (length bs) s.room ≡ true = ground arith in rw a

-- A payload of less than 2^31 bytes for which the connection has room is sent as one record: a single
-- fragment with the mark. Its four bytes of header count too.
pub write_record-frames :
    (payload : List ℕ) (s : Stream)
    → length payload < 2 ^ 31
    → 4 + length payload ≤ s.room
    → write_record payload s ≡ (
      ok tt,
      record s { outgoing = s.outgoing ++ frames [] payload; room = s.room - (4 + length payload) },
    )
unfolding write_record
write_record-frames payload s h room =
    let a : ltb fragment_len_mask (length payload) ≡ false = ground arith in
    let header : List ℕ = u32_to_be (last_fragment + length payload) in
    let four : length header ≡ 4 = length-u32_to_be (last_fragment + length payload) in
    let left : s.room - length header - length payload ≡ s.room - (4 + length payload) =
      omega arith in
    rw (a, write_all-room header s (omega arith))
      (write_all-room payload _ (omega arith) ∙ λ i.
        (ok tt, record s { outgoing = append_assoc s.outgoing header payload i; room = left i }))
