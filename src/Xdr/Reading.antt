-- ===== src/Xdr/Reading.antt =====
-- The reads of src/xdr/decode.rs at bytes of the form that XDR gives to words and opaque data.
use nfs.Prelude.{
  ℕ, ◌≤◌, ◌≡◌, refl, ap, false, List, ◌++◌, arith, ltb, length, replicate, length-replicate,
}
use nfs.Prelude.Outcome.{ok}
use nfs.Xdr.{padding_len}
use nfs.Xdr.Words.{IsU32, u32_to_be, u32_from_be-u32_to_be, length-u32_to_be}
use nfs.Xdr.Decoder.{
  Decoder, read_u32, read_len, within, read_fixed_opaque, read_opaque, skip_padding,
}
use nfs.Xdr.Wire.{Reads, Reads-bind, Reads-map, read_bytes-Reads}

pub u32_Reads : (v : ℕ) → IsU32 v → Reads read_u32 v (u32_to_be v)
unfolding read_u32
u32_Reads v h =
    Reads-map _ _ (read_bytes-Reads 4 (u32_to_be v) (length-u32_to_be v))
      (λ d. ap (λ x. (ok x, d)) (u32_from_be-u32_to_be v h))

pub within-le : (n limit : ℕ) (d : Decoder) → n ≤ limit → within limit n d ≡ (ok n, d)
within-le n limit d h = let a : ltb limit n ≡ false = ground arith in rw a

pub len_Reads : (n limit : ℕ) → n ≤ limit → IsU32 n → Reads (read_len limit) n (u32_to_be n)
unfolding read_len
len_Reads n limit h hn = Reads-map _ _ (u32_Reads n hn) (λ d. within-le n limit d h)

abbrev pub padding : List ℕ → List ℕ
padding bs = replicate (padding_len (length bs)) 0

pub fixed_opaque_Reads : (bs : List ℕ) → Reads (read_fixed_opaque (length bs)) bs (bs ++ padding bs)
unfolding read_fixed_opaque skip_padding
fixed_opaque_Reads bs = Reads-bind _ _ (read_bytes-Reads _ bs refl) (
    Reads-map _ _
      (Reads-map _ _
        (read_bytes-Reads _ (padding bs) (length-replicate (padding_len (length bs)) 0))
        (λ d. refl))
      (λ d. refl))

abbrev pub opaque_bytes : List ℕ → List ℕ
opaque_bytes bs = u32_to_be (length bs) ++ (bs ++ padding bs)

pub opaque_Reads :
    (bs : List ℕ) (limit : ℕ)
    → length bs ≤ limit
    → IsU32 (length bs)
    → Reads (read_opaque limit) bs (opaque_bytes bs)
unfolding read_opaque
opaque_Reads bs limit h hn =
    Reads-bind _ _ (len_Reads (length bs) limit h hn) (fixed_opaque_Reads bs)
