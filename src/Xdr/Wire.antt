-- ===== src/Xdr/Wire.antt =====
-- How a write of src/xdr/encode.rs and a read of src/xdr/decode.rs meet on the wire: `Writes m bs`
-- says that m appends the bytes bs, `Reads m v bs` that m reads v from bs wherever they stand in
-- the input, and `Travels` that some bytes do both.
use nfs.Prelude.{
  ℕ, ◌+◌, ◌-◌, ◌≤◌, some, false, ltb, take, drop, take-append, drop-append, ◌≡◌, refl, sym, ap, ◌∙◌,
  List, [], ◌++◌, arith, length, length-append, append_assoc, append-nil,
}
use nfs.Prelude.Outcome.{ok}
use nfs.Prelude.Exec.{Exec, pure, ◌>>=◌}
use nfs.Xdr.{usize_max, checked_add}
use nfs.Xdr.Encoder.{Encoder, Encoding, extend, step}
use nfs.Xdr.Decoder.{Decoder, Decoding, read_bytes, read_up_to}

-- A decoder that has read `pre` and has `post` before it.
abbrev pub between : List ℕ → List ℕ → Decoder
between pre post = record { input = pre ++ post; position = length pre }

pub record Writes (m : Encoding) (bs : List ℕ) : Type 0 where
  pub appended : (e : Encoder) → m e ≡ (ok tt, extend bs e)

-- A slice has at most `usize::MAX` bytes.
pub record Reads {ℓ κ} {E : Type κ} {A : Type ℓ} (m : Exec Decoder E A) (v : A) (bs : List ℕ)
    : Type (ℓ ⊔ κ) where
  pub read :
      (pre post : List ℕ)
      → length (pre ++ (bs ++ post)) ≤ usize_max
      → m (between pre (bs ++ post)) ≡ (ok v, between (pre ++ bs) post)

pub record Travels {ℓ} {A : Type ℓ} (w : Encoding) (r : Decoding A) (v : A) : Type ℓ where
  pub wire : List ℕ
  pub written : Writes w wire
  pub back : Reads r v wire

pub Writes-step : (bs : List ℕ) → Writes (step (extend bs)) bs
Writes-step bs = record { appended = λ e. refl }

pub Writes-pure : Writes (pure tt) []
Writes-pure = record { appended = λ e. λ i. (ok tt, record { bytes = sym (append-nil e.bytes) i }) }

pub Writes-bind :
    (m : Encoding) (f : Unit {0} → Encoding) {xs ys : List ℕ}
    → Writes m xs
    → Writes (f tt) ys
    → Writes (m >>= f) (xs ++ ys)
Writes-bind m f {xs} {ys} p q = record {
  appended = λ e. rw (p.appended e) (
      q.appended (extend xs e)
      ∙ ap (λ bs. (ok tt, record { bytes = bs })) (append_assoc e.bytes xs ys));
}

module _ {ℓ ι} {E : Type ι} {A : Type ℓ} where
  pub Reads-pure : (v : A) → Reads {E = E} (pure v) v []
  Reads-pure v = record { read = λ pre post h. rw (append-nil pre) }

module _ {ℓ κ ι} {E : Type ι} {A : Type ℓ} {B : Type κ} where
  -- The decoder behind a read is where the continuation starts.
  pub Reads-continue :
      (m : Exec Decoder E A) (f : A → Exec Decoder E B) {v : A} {xs : List ℕ} (pre post : List ℕ)
      → Reads m v xs
      → length (pre ++ (xs ++ post)) ≤ usize_max
      → (m >>= f) (between pre (xs ++ post)) ≡ f v (between (pre ++ xs) post)
  Reads-continue m f pre post p h = rw (p.read pre post h)

  pub Reads-bind :
      (m : Exec Decoder E A) (f : A → Exec Decoder E B) {v : A} {w : B} {xs ys : List ℕ}
      → Reads m v xs
      → Reads (f v) w ys
      → Reads (m >>= f) w (xs ++ ys)
  Reads-bind m f {v} {w} {xs} {ys} p q = record {
    read = λ pre post h. rw (append_assoc xs ys post) (
        rw (p.read pre (ys ++ post) (rw (append_assoc xs ys post) at h)) (
          q.read (pre ++ xs) post (fits pre post h)
          ∙ ap (λ (bs : List ℕ). (ok w, between bs post)) (append_assoc pre xs ys)));
  }
    where
      fits :
          (pre post : List ℕ)
          → length (pre ++ ((xs ++ ys) ++ post)) ≤ usize_max
          → length ((pre ++ xs) ++ (ys ++ post)) ≤ usize_max
      fits pre post h = rw (append_assoc pre xs (ys ++ post), ← append_assoc xs ys post) h

  -- A read followed by a step that leaves the decoder where it is.
  pub Reads-map :
      (m : Exec Decoder E A) (f : A → Exec Decoder E B) {v : A} {u : B} {bs : List ℕ}
      → Reads m v bs
      → ((d : Decoder) → f v d ≡ (ok u, d))
      → Reads (m >>= f) u bs
  Reads-map m f p q = record { read = λ pre post h. rw (p.read pre post h) (q _) }

checked_add-le : (a b : ℕ) → a + b ≤ usize_max → checked_add a b ≡ some (a + b)
checked_add-le a b h = ground arith

length-between :
    (pre bs post : List ℕ) → length (pre ++ (bs ++ post)) ≡ length pre + (length bs + length post)
length-between pre bs post = rw (length-append pre (bs ++ post), length-append bs post)

slice-between :
    (pre bs post : List ℕ)
    → take (length pre + length bs - length pre) (drop (length pre) (pre ++ (bs ++ post))) ≡ bs
slice-between pre bs post =
    let n : length pre + length bs - length pre ≡ length bs = omega arith in
    rw (n, drop-append pre (bs ++ post)) (take-append bs post)

read_up_to-between :
    (bs pre post : List ℕ)
    → read_up_to (length bs) (some (length pre + length bs)) (between pre (bs ++ post))
      ≡ (ok bs, between (pre ++ bs) post)
unfolding read_up_to
read_up_to-between bs pre post =
    let fits : ltb (length (pre ++ (bs ++ post))) (length pre + length bs) ≡ false =
      (rw (length-between pre bs post) (ground arith)) in
    rw fits λ i. (
      ok (slice-between pre bs post i),
      record { input = sym (append_assoc pre bs post) i; position = sym (length-append pre bs) i },
    )

pub read_bytes-Reads : (n : ℕ) (bs : List ℕ) → length bs ≡ n → Reads (read_bytes n) bs bs
unfolding read_bytes
read_bytes-Reads n bs e = record {
  read = λ pre post h.
      let room : length pre + length bs ≤ usize_max = omega (arith, length-between pre bs post) in
      rw (← e, checked_add-le (length pre) (length bs) room) (read_up_to-between bs pre post);
}
