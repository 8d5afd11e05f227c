-- ===== src/Xdr/Bounds.antt =====
-- What every read of src/xdr/decode.rs keeps: the input is never changed, and the position moves
-- forward only and stays within the input, also where the read fails.
use nfs.Prelude.{
  ℕ, zero, suc, ◌≤◌, ◌≡◌, refl, Bool, true, false, Option, none, some, [], ◌∷◌, arith, length, ap,
  ◌∙◌, if◌then◌else◌,
}
use nfs.Prelude.Outcome.{Result, ok, err}
use nfs.Prelude.Exec.{pure, raise, ◌>>=◌, continue}
use nfs.Xdr.{Error, checked_add}
use nfs.Xdr.Decoder

pub record InBounds (d : Decoder.Decoder) : Type 0 where
  pub within : d.position ≤ length d.input

pub record Forward (d d' : Decoder.Decoder) : Type 0 where
  pub same_input : d'.input ≡ d.input
  pub no_rewind : d.position ≤ d'.position
  pub in_bounds : d'.position ≤ length d.input

-- From a position within the input, the read goes forward and stays within it.
pub record Advances {ℓ} {A : Type ℓ} (m : Decoder.Decoding A) : Type ℓ where
  pub at : (d : Decoder.Decoder) → InBounds d → Forward d (m d).1

Forward-trans : {a b c : Decoder.Decoder} → Forward a b → Forward b c → Forward a c
Forward-trans {a} {b} {c} p q = record {
  same_input = q.same_input ∙ p.same_input;
  no_rewind = omega arith;
  in_bounds = omega (arith, ap length p.same_input);
}

Forward-InBounds : {a b : Decoder.Decoder} → Forward a b → InBounds b
Forward-InBounds {a} {b} p = record { within = omega (arith, ap length p.same_input) }

Forward-refl : (d : Decoder.Decoder) → InBounds d → Forward d d
Forward-refl d h = record { same_input = refl; no_rewind = omega arith; in_bounds = h.within }

module _ {ℓ} {A : Type ℓ} where
  pub Advances-pure : (a : A) → Advances (pure a)
  Advances-pure a = record { at = Forward-refl }

  pub Advances-raise : (e : Error) → Advances (raise {A = A} e)
  Advances-raise e = record { at = Forward-refl }

  pub Advances-if :
      (b : Bool) (m n : Decoder.Decoding A)
      → Advances m
      → Advances n
      → Advances (if b then m else n)
  Advances-if true m n p q = p
  Advances-if false m n p q = q

module _ {ℓ κ} {A : Type ℓ} {B : Type κ} where
  continue-Forward :
      (f : A → Decoder.Decoding B)
      → ((a : A) → Advances (f a))
      → (r : Result Error A) (a b : Decoder.Decoder) → Forward a b
      → Forward a (continue r f b).1
  continue-Forward f kf (ok x) a b p = Forward-trans p ((kf x).at b (Forward-InBounds p))
  continue-Forward f kf (err e) a b p = p

  pub Advances-bind :
      (m : Decoder.Decoding A) (f : A → Decoder.Decoding B)
      → Advances m
      → ((a : A) → Advances (f a))
      → Advances (m >>= f)
  Advances-bind m f km kf = record {
    at = λ d h. continue-Forward f kf (m d).0 d (m d).1 (km.at d h);
  }

-- A read of n bytes stops at the end of the input.
read_up_to-Forward :
    (n : ℕ) (end : Option ℕ) (d : Decoder.Decoder)
    → end ≡ checked_add d.position n
    → InBounds d
    → Forward d (Decoder.read_up_to n end d).1
unfolding Decoder.read_up_to
read_up_to-Forward n none d e h = Forward-refl d h
read_up_to-Forward n (some end) d e h = ground arith

pub read_bytes-Advances : (n : ℕ) → Advances (Decoder.read_bytes n)
unfolding Decoder.read_bytes
read_bytes-Advances n = record {
  at = λ d h. read_up_to-Forward n (checked_add d.position n) d refl h;
}

pub ruleset reads = (Advances-pure, Advances-raise, Advances-if, Advances-bind, read_bytes-Advances)

pub skip_padding-Advances : (n : ℕ) → Advances (Decoder.skip_padding n)
unfolding Decoder.skip_padding
skip_padding-Advances n = Advances-bind _ _ (read_bytes-Advances _) (λ _. Advances-pure tt)

pub read_u32-Advances : Advances Decoder.read_u32
unfolding Decoder.read_u32
read_u32-Advances = Advances-bind _ _ (read_bytes-Advances 4) (λ _. Advances-pure _)

pub read_i32-Advances : Advances Decoder.read_i32
unfolding Decoder.read_i32
read_i32-Advances = Advances-bind _ _ (read_bytes-Advances 4) (λ _. Advances-pure _)

pub read_u64-Advances : Advances Decoder.read_u64
unfolding Decoder.read_u64
read_u64-Advances = search reads

pub read_bool-Advances : Advances Decoder.read_bool
unfolding Decoder.read_bool
read_bool-Advances = search (reads, read_u32-Advances)

pub read_len-Advances : (limit : ℕ) → Advances (Decoder.read_len limit)
unfolding Decoder.read_len
read_len-Advances limit = search (reads, read_u32-Advances)

pub read_fixed_opaque-Advances : (n : ℕ) → Advances (Decoder.read_fixed_opaque n)
unfolding Decoder.read_fixed_opaque
read_fixed_opaque-Advances n = search (reads, skip_padding-Advances)

pub read_opaque-Advances : (limit : ℕ) → Advances (Decoder.read_opaque limit)
unfolding Decoder.read_opaque
read_opaque-Advances limit = search (reads, read_len-Advances, read_fixed_opaque-Advances)

pub read_string-Advances : (limit : ℕ) → Advances (Decoder.read_string limit)
unfolding Decoder.read_string
read_string-Advances limit = search (reads, read_opaque-Advances)

module _ {ℓ} {A : Type ℓ} ⦃c : Decoder.Decode A⦄ (item : Advances c.decode) where
  read_items-Advances : (n : ℕ) → Advances (Decoder.read_items {A = A} n)
  unfolding Decoder.read_items
  read_items-Advances zero = Advances-pure []
  read_items-Advances (suc n) =
      Advances-bind _ _ item
        λ v. Advances-bind _ _ (read_items-Advances n) (λ vs. Advances-pure (v ∷ vs))

  -- If the read of an item leaves the input as it is, moves forward only and stays within the input, then
  -- so does the read of an array of them, also where it fails.
  pub read_array-Advances : (limit : ℕ) → Advances (Decoder.read_array {A = A} limit)
  unfolding Decoder.read_array
  read_array-Advances limit = search (reads, read_len-Advances, read_items-Advances)

  optional_of-Advances : (present : Bool) → Advances (Decoder.optional_of {A = A} present)
  optional_of-Advances true = Advances-bind _ _ item (λ v. Advances-pure _)
  optional_of-Advances false = Advances-pure _

  pub read_optional-Advances : Advances (Decoder.read_optional {A = A})
  unfolding Decoder.read_optional
  read_optional-Advances = search (reads, read_bool-Advances, optional_of-Advances)
