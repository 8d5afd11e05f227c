-- ===== src/Xdr/RoundTrip.antt =====
-- What src/xdr/encode.rs writes, src/xdr/decode.rs reads back: for every pair of methods, and for
-- whole values through `to_bytes` and `from_bytes`.
use nfs.Prelude.{
  ℕ, ◌≤◌, ◌≡◌, refl, sym, ap, subst, ◌∙◌, Bool, true, false, none, some, List, [], ◌∷◌, ◌++◌, arith,
  length, replicate, ltb, All, append-nil, append_assoc,
}
use nfs.Prelude.Int.{ℤ}
use nfs.Prelude.Outcome.{ok, ok-inj}
use nfs.Prelude.Exec.{pure, ◌>>=◌, ◌>>◌}
use nfs.Xdr.{usize_max, u32_max, padding_len, checked_u32_len}
use nfs.Xdr.Words.{
  IsU32, IsU64, IsI32, IsI64, u32_to_be, u32_from_be, u64_to_be, u64_from_be, i32_bits, i32_of_bits,
  i64_bits, i64_of_bits, u32_from_be-u32_to_be, u64_from_be-u64_to_be, length-u32_to_be,
  length-u64_to_be, i32_of_bits-i32_bits, i64_of_bits-i64_bits, i32_bits-IsU32, i64_bits-IsU64,
}
use nfs.Xdr.Utf8.{is_utf8}
use nfs.Xdr.Encoder
use nfs.Xdr.Encoder.{Encoding, Encode, extend, step}
use nfs.Xdr.Decoder
use nfs.Xdr.Decoder.{Decoding, Decode}
use nfs.Xdr.Reading.{within-le, fixed_opaque_Reads}
use nfs.Xdr.Wire.{
  Reads, Travels, between, Writes-step, Writes-pure, Writes-bind, Reads-pure, Reads-bind, Reads-map,
  read_bytes-Reads,
}

module _ {ℓ κ} {A : Type ℓ} {B : Type κ} where
  -- One write and one read, followed by writes and reads that travel.
  pub Travels-then :
      (m w : Encoding) (r : Decoding A) (f : A → Decoding B) {v : A} {u : B}
      → Travels m r v
      → Travels w (f v) u
      → Travels (m >> w) (r >>= f) u
  Travels-then m w r f p q = record {
    wire = p.wire ++ q.wire;
    written = Writes-bind m (λ _. w) p.written q.written;
    back = Reads-bind r f p.back q.back;
  }

  -- The last write, whose value the read turns into the result.
  pub Travels-map :
      (m : Encoding) (r : Decoding A) (f : A → Decoding B) {v : A} {u : B}
      → Travels m r v
      → ((d : Decoder.Decoder) → f v d ≡ (ok u, d))
      → Travels m (r >>= f) u
  Travels-map m r f p q = record {
    wire = p.wire;
    written = p.written;
    back = Reads-map r f p.back q;
  }

module _ {ℓ} {A : Type ℓ} where
  pub Travels-none : (v : A) → Travels (pure tt) (pure v) v
  Travels-none v = record { wire = []; written = Writes-pure; back = Reads-pure v }

  -- Bytes of a known length, read by a function that undoes the write.
  Travels-bytes :
      (bs : List ℕ) (n : ℕ) (from_be : List ℕ → A) (v : A)
      → length bs ≡ n
      → from_be bs ≡ v
      → Travels (step (extend bs)) (Decoder.read_bytes n >>= λ x. pure (from_be x)) v
  Travels-bytes bs n from_be v hn hv = record {
    wire = bs;
    written = Writes-step bs;
    back = record {
      read = λ pre post h.
          rw ((read_bytes-Reads n bs hn).read pre post h)
            (ap (λ x. (ok x, between (pre ++ bs) post)) hv);
    };
  }

pub u32-Travels : (v : ℕ) → IsU32 v → Travels (step (Encoder.write_u32 v)) Decoder.read_u32 v
unfolding Encoder.write_u32 Decoder.read_u32
u32-Travels v h =
    Travels-bytes (u32_to_be v) 4 u32_from_be v (length-u32_to_be v) (u32_from_be-u32_to_be v h)

pub u64-Travels : (v : ℕ) → IsU64 v → Travels (step (Encoder.write_u64 v)) Decoder.read_u64 v
unfolding Encoder.write_u64 Decoder.read_u64
u64-Travels v h =
    Travels-bytes (u64_to_be v) 8 u64_from_be v (length-u64_to_be v) (u64_from_be-u64_to_be v h)

pub i32-Travels : (v : ℤ) → IsI32 v → Travels (step (Encoder.write_i32 v)) Decoder.read_i32 v
unfolding Encoder.write_i32 Decoder.read_i32
i32-Travels v h =
    Travels-bytes (u32_to_be (i32_bits v)) 4 (λ x. i32_of_bits (u32_from_be x)) v
      (length-u32_to_be _)
      (ap i32_of_bits (u32_from_be-u32_to_be _ (i32_bits-IsU32 v h)) ∙ i32_of_bits-i32_bits v h)

pub i64-Travels : (v : ℤ) → IsI64 v → Travels (step (Encoder.write_i64 v)) Decoder.read_i64 v
unfolding Encoder.write_i64 Decoder.read_i64
i64-Travels v h =
    Travels-bytes (u64_to_be (i64_bits v)) 8 (λ x. i64_of_bits (u64_from_be x)) v
      (length-u64_to_be _)
      (ap i64_of_bits (u64_from_be-u64_to_be _ (i64_bits-IsU64 v h)) ∙ i64_of_bits-i64_bits v h)

pub bool-Travels : (v : Bool) → Travels (step (Encoder.write_bool v)) Decoder.read_bool v
unfolding Encoder.write_bool Decoder.read_bool
bool-Travels false = Travels-map _ _ _ (u32-Travels 0 (omega arith)) (λ d. refl)
bool-Travels true = Travels-map _ _ _ (u32-Travels 1 (omega arith)) (λ d. refl)

write_len-le :
    (n limit : ℕ) → n ≤ limit → IsU32 n → Encoder.write_len n limit ≡ step (Encoder.write_u32 n)
unfolding Encoder.write_len checked_u32_len
write_len-le n limit h hn =
    let a : ltb limit n ≡ false = ground arith in
    let b : ltb u32_max n ≡ false = ground arith in rw (a, b)

len-Travels :
    (n limit : ℕ)
    → n ≤ limit
    → IsU32 n
    → Travels (Encoder.write_len n limit) (Decoder.read_len limit) n
unfolding Decoder.read_len
len-Travels n limit h hn =
    rw (write_len-le n limit h hn)
      (Travels-map _ _ _ (u32-Travels n hn) (λ d. within-le n limit d h))

-- Any bytes come back from fixed-length opaque data, whatever their number is modulo 4.
pub fixed_opaque-Travels :
    (bs : List ℕ)
    → Travels (step (Encoder.write_fixed_opaque bs)) (Decoder.read_fixed_opaque (length bs)) bs
unfolding Encoder.write_fixed_opaque
fixed_opaque-Travels bs =
    let pad : List ℕ = replicate (padding_len (length bs)) 0 in
    record {
      wire = bs ++ pad;
      written = record {
        appended = λ e. ap (λ b. (ok tt, record { bytes = b })) (append_assoc e.bytes bs pad);
      };
      back = fixed_opaque_Reads bs;
    }

pub opaque-Travels :
    (bs : List ℕ) (limit : ℕ)
    → length bs ≤ limit
    → IsU32 (length bs)
    → Travels (Encoder.write_opaque bs limit) (Decoder.read_opaque limit) bs
unfolding Encoder.write_opaque Decoder.read_opaque
opaque-Travels bs limit h hn =
    Travels-then _ _ _ _ (len-Travels (length bs) limit h hn) (fixed_opaque-Travels bs)

-- A valid UTF-8 text within the limit, and with a length within a u32, comes back as the same text.
pub string-Travels :
    (text : List ℕ) (limit : ℕ)
    → is_utf8 text ≡ true
    → length text ≤ limit
    → IsU32 (length text)
    → Travels (Encoder.write_string text limit) (Decoder.read_string limit) text
unfolding Encoder.write_string Decoder.read_string
string-Travels text limit valid h hn =
    Travels-map _ _ _ (opaque-Travels text limit h hn) (λ d. rw valid)

module _ {ℓ} {A : Type ℓ} ⦃e : Encode A⦄ ⦃d : Decode A⦄ where
  -- The value comes back from its own encoding.
  abbrev pub Codes : A → Type ℓ
  Codes v = Travels (e.encode v) d.decode v

  items-Travels :
      (vs : List A)
      → All Codes vs
      → Travels (Encoder.write_items vs) (Decoder.read_items (length vs)) vs
  unfolding Encoder.write_items Decoder.read_items
  items-Travels [] h = Travels-none []
  items-Travels (v ∷ vs) h =
      Travels-then _ _ _ _ h.0 (Travels-map _ _ _ (items-Travels vs h.1) (λ d. refl))

  -- An array whose items come back comes back itself, if it is within the limit and its length within a
  -- u32.
  pub array-Travels :
      (vs : List A) (limit : ℕ)
      → length vs ≤ limit
      → IsU32 (length vs)
      → All Codes vs
      → Travels (Encoder.write_array vs limit) (Decoder.read_array limit) vs
  unfolding Encoder.write_array Decoder.read_array
  array-Travels vs limit h hn items =
      Travels-then _ _ _ _ (len-Travels (length vs) limit h hn) (items-Travels vs items)

  pub optional_none-Travels :
      Travels (Encoder.write_optional {A = A} none) (Decoder.read_optional {A = A}) none
  unfolding Encoder.write_optional Decoder.read_optional
  optional_none-Travels = Travels-map _ _ _ (bool-Travels false) (λ d. refl)

  pub optional_some-Travels :
      (v : A) → Codes v → Travels (Encoder.write_optional (some v)) Decoder.read_optional (some v)
  unfolding Encoder.write_optional Decoder.read_optional
  optional_some-Travels v h =
      Travels-then _ _ _ _ (bool-Travels true) (Travels-map _ _ _ h (λ d. refl))

  decode_whole :
      (v : A) (bs : List ℕ)
      → Reads d.decode v bs
      → length bs ≤ usize_max
      → d.decode (Decoder.new bs) ≡ (ok v, record { input = bs; position = length bs })
  decode_whole v bs r h = rw (append-nil bs) at (r.read [] [] (rw (append-nil bs) h))

  finished_at_end :
      (v : A) (bs : List ℕ)
      → Decoder.finished (ok v, record { input = bs; position = length bs }) ≡ ok v
  unfolding Decoder.finish
  finished_at_end v bs = ground arith

  -- A value whose writes and reads meet comes back, through `from_bytes`, from the bytes that `to_bytes`
  -- made of it, with none left over, if they are as many as a slice can have.
  pub from_bytes-to_bytes :
      (v : A) (bs : List ℕ)
      → Codes v
      → Encoder.to_bytes v ≡ ok bs
      → length bs ≤ usize_max
      → Decoder.from_bytes bs ≡ ok v
  unfolding Encoder.to_bytes Decoder.from_bytes
  from_bytes-to_bytes v bs c e h =
      let same : c.wire ≡ bs =
        ok-inj (sym (ap Encoder.into_bytes (c.written.appended Encoder.new)) ∙ e) in
      subst (λ b. Decoder.finished (d.decode (Decoder.new b)) ≡ ok v) same
        (ap Decoder.finished (decode_whole v c.wire c.back (omega (arith, ap length same, h)))
          ∙ finished_at_end v c.wire)
