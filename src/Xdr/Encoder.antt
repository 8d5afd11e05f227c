-- ===== src/Xdr/Encoder.antt =====
-- src/xdr/encode.rs: the streaming encoder. A method that cannot fail maps an encoder to an encoder,
-- one that returns `Result<()>` is an action that keeps what it wrote before an error.
use nfs.Prelude.{
  ℕ, Bool, true, false, Option, none, some, List, [], ◌∷◌, ◌++◌, ltb, if◌then◌else◌, length,
  replicate,
}
use nfs.Prelude.Int.{ℤ}
use nfs.Prelude.Outcome.{Result, ok, err}
use nfs.Prelude.Exec.{Exec, pure, raise, lift, ◌>>=◌, ◌>>◌}
use nfs.Xdr.{Error, length_limit_exceeded, padding_len, checked_u32_len}
use nfs.Xdr.Words.{u32_to_be, u64_to_be, i32_bits, i64_bits}

pub record Encoder : Type 0 where
  pub bytes : List ℕ

abbrev pub new : Encoder
new = record { bytes = [] }

abbrev pub Encoding : Type 0
Encoding = Exec Encoder Error (Unit {0})

-- `extend_from_slice`
abbrev pub extend : List ℕ → Encoder → Encoder
extend bs e = record { bytes = e.bytes ++ bs }

unfoldable pub len : Encoder → ℕ
len e = length e.bytes

unfoldable pub write_u32 : ℕ → Encoder → Encoder
write_u32 value e = extend (u32_to_be value) e

unfoldable pub write_i32 : ℤ → Encoder → Encoder
write_i32 value e = extend (u32_to_be (i32_bits value)) e

unfoldable pub write_u64 : ℕ → Encoder → Encoder
write_u64 value e = extend (u64_to_be value) e

unfoldable pub write_i64 : ℤ → Encoder → Encoder
write_i64 value e = extend (u64_to_be (i64_bits value)) e

-- `u32::from(value)`
abbrev pub bool_u32 : Bool → ℕ
bool_u32 false = 0
bool_u32 true = 1

unfoldable pub write_bool : Bool → Encoder → Encoder
unfolding write_u32
write_bool value e = write_u32 (bool_u32 value) e

unfoldable pub write_discriminant : ℤ → Encoder → Encoder
unfolding write_i32
write_discriminant value e = write_i32 value e

-- `padding_len` is at most 3, so the slice of the three zeros is `replicate`.
unfoldable pub write_padding : ℕ → Encoder → Encoder
write_padding n e = extend (replicate (padding_len n) 0) e

unfoldable pub write_fixed_opaque : List ℕ → Encoder → Encoder
unfolding write_padding
write_fixed_opaque value e = write_padding (length value) (extend value e)

-- An action that cannot fail, where an action is wanted.
abbrev pub step : (Encoder → Encoder) → Encoding
step f e = (ok tt, f e)

unfoldable pub write_len : ℕ → ℕ → Encoding
unfolding write_u32
write_len n limit =
    if ltb limit n
    then raise (length_limit_exceeded n limit)
    else do word ← lift (checked_u32_len n); step (write_u32 word)

unfoldable pub write_opaque : List ℕ → ℕ → Encoding
unfolding write_len write_fixed_opaque
write_opaque value limit = do write_len (length value) limit; step (write_fixed_opaque value)

-- The text is its bytes.
unfoldable pub write_string : List ℕ → ℕ → Encoding
unfolding write_opaque
write_string value limit = write_opaque value limit

-- `into_bytes` behind a `?`.
abbrev pub into_bytes : Result Error (Unit {0}) × Encoder → Result Error (List ℕ)
into_bytes (ok _, e) = ok e.bytes
into_bytes (err x, e) = err x

-- The trait `Encode`.
pub record Encode {ℓ} (A : Type ℓ) : Type ℓ where
  pub encode : A → Encoding

module _ {ℓ} {A : Type ℓ} ⦃c : Encode A⦄ where
  -- the `for` loop of `write_array`
  unfoldable pub write_items : List A → Encoding
  write_items [] = pure tt
  write_items (v ∷ vs) = do c.encode v; write_items vs

  unfoldable pub write_array : List A → ℕ → Encoding
  unfolding write_len write_items
  write_array values limit = do write_len (length values) limit; write_items values

  unfoldable pub write_optional : Option A → Encoding
  unfolding write_bool
  write_optional none = step (write_bool false)
  write_optional (some v) = do step (write_bool true); c.encode v

  unfoldable pub to_bytes : A → Result Error (List ℕ)
  to_bytes v = into_bytes (c.encode v new)

instance abbrev pub u32_encode : Encode ℕ
u32_encode = record { encode = λ v. step (write_u32 v) }
