-- ===== src/Xdr/Decoder.antt =====
-- src/xdr/decode.rs: the streaming decoder over a byte slice. Every read is an action on the
-- decoder; where it fails, the position stays where the failing step found it.
use nfs.Prelude.{
  ℕ, zero, suc, ◌-◌, Bool, true, false, Option, none, some, List, [], ◌∷◌, ltb, ◌==◌, if◌then◌else◌,
  length, take, drop,
}
use nfs.Prelude.Int.{ℤ}
use nfs.Prelude.Outcome.{Result, ok, err}
use nfs.Prelude.Exec.{Exec, pure, raise, ◌>>=◌}
use nfs.Xdr.{
  Error, unexpected_eof, trailing_bytes, invalid_bool, length_limit_exceeded, invalid_utf8,
  checked_add, padding_len,
}
use nfs.Xdr.Words.{u32_from_be, u64_from_be, i32_of_bits, i64_of_bits}
use nfs.Xdr.Utf8.{is_utf8}

pub record Decoder : Type 0 where
  pub input : List ℕ
  pub position : ℕ

abbrev pub Decoding {ℓ} : Type ℓ → Type ℓ
Decoding A = Exec Decoder Error A

abbrev pub new : List ℕ → Decoder
new input = record { input = input; position = 0 }

-- The difference does not underflow: the position never passes the end (module Bounds).
unfoldable pub remaining : Decoder → ℕ
remaining d = length d.input - d.position

unfoldable pub is_finished : Decoder → Bool
unfolding remaining
is_finished d = remaining d == 0

unfoldable pub finish : Decoder → Result Error (Unit {0})
unfolding is_finished
finish d = if is_finished d then ok tt else err (trailing_bytes (remaining d))

-- the part of `read_bytes` behind `checked_add`
unfoldable pub read_up_to : ℕ → Option ℕ → Decoding (List ℕ)
unfolding remaining
read_up_to n none d = (err (unexpected_eof n (remaining d)), d)
read_up_to n (some end) d =
    if ltb (length d.input) end
    then (err (unexpected_eof n (remaining d)), d)
    else (ok (take (end - d.position) (drop d.position d.input)), record d { position = end })

unfoldable pub read_bytes : ℕ → Decoding (List ℕ)
unfolding read_up_to
read_bytes n d = read_up_to n (checked_add d.position n) d

unfoldable pub skip_padding : ℕ → Decoding (Unit {0})
unfolding read_bytes
skip_padding n = do _ ← read_bytes (padding_len n); pure tt

unfoldable pub read_u32 : Decoding ℕ
read_u32 = do bytes ← read_bytes 4; pure (u32_from_be bytes)

unfoldable pub read_i32 : Decoding ℤ
read_i32 = do bytes ← read_bytes 4; pure (i32_of_bits (u32_from_be bytes))

unfoldable pub read_u64 : Decoding ℕ
read_u64 = do bytes ← read_bytes 8; pure (u64_from_be bytes)

unfoldable pub read_i64 : Decoding ℤ
read_i64 = do bytes ← read_bytes 8; pure (i64_of_bits (u64_from_be bytes))

abbrev pub bool_of_u32 : ℕ → Decoding Bool
bool_of_u32 value =
    if value == 0 then pure false else if value == 1 then pure true else raise (invalid_bool value)

unfoldable pub read_bool : Decoding Bool
unfolding read_u32
read_bool = do value ← read_u32; bool_of_u32 value

unfoldable pub read_discriminant : Decoding ℤ
unfolding read_i32
read_discriminant = read_i32

unfoldable pub read_fixed_opaque : ℕ → Decoding (List ℕ)
unfolding read_bytes skip_padding
read_fixed_opaque n = do value ← read_bytes n; _ ← skip_padding n; pure value

unfoldable pub read_fixed_opaque_unpadded : ℕ → Decoding (List ℕ)
unfolding read_bytes
read_fixed_opaque_unpadded n = read_bytes n

abbrev pub within : ℕ → ℕ → Decoding ℕ
within limit n = if ltb limit n then raise (length_limit_exceeded n limit) else pure n

unfoldable pub read_len : ℕ → Decoding ℕ
unfolding read_u32
read_len limit = do n ← read_u32; within limit n

unfoldable pub read_opaque : ℕ → Decoding (List ℕ)
unfolding read_len read_fixed_opaque
read_opaque limit = do n ← read_len limit; read_fixed_opaque n

-- `to_vec` copies.
unfoldable pub read_opaque_vec : ℕ → Decoding (List ℕ)
unfolding read_opaque
read_opaque_vec limit = read_opaque limit

abbrev pub text_of : List ℕ → Decoding (List ℕ)
text_of bytes = if is_utf8 bytes then pure bytes else raise invalid_utf8

unfoldable pub read_string : ℕ → Decoding (List ℕ)
unfolding read_opaque
read_string limit = do bytes ← read_opaque limit; text_of bytes

-- The trait `Decode`.
pub record Decode {ℓ} (A : Type ℓ) : Type ℓ where
  pub decode : Decoding A

module _ {ℓ} {A : Type ℓ} ⦃c : Decode A⦄ where
  -- the `for` loop of `read_array`; the capacity that it reserves has no effect on the result
  unfoldable pub read_items : ℕ → Decoding (List A)
  read_items zero = pure []
  read_items (suc n) = do v ← c.decode; vs ← read_items n; pure (v ∷ vs)

  unfoldable pub read_array : ℕ → Decoding (List A)
  unfolding read_len read_items
  read_array limit = do n ← read_len limit; read_items n

  abbrev pub optional_of : Bool → Decoding (Option A)
  optional_of false = pure none
  optional_of true = do v ← c.decode; pure (some v)

  unfoldable pub read_optional : Decoding (Option A)
  unfolding read_bool
  read_optional = do present ← read_bool; optional_of present

  -- `finish` behind a `?`
  abbrev pub finished : Result Error A × Decoder → Result Error A
  finished (ok v, d) = elim (finish d) [ ok _ ↦ ok v | err e ↦ err e ]
  finished (err e, d) = err e

  unfoldable pub from_bytes : List ℕ → Result Error A
  unfolding finish
  from_bytes input = finished (c.decode (new input))

instance abbrev pub u32_decode : Decode ℕ
u32_decode = record { decode = read_u32 }
