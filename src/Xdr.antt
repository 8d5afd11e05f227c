-- ===== src/Xdr.antt =====
-- src/xdr/mod.rs and src/xdr/error.rs: the error values of the XDR helpers, and the two length
-- computations that the encoder and the decoder share. The children are the encoder, the decoder
-- and what they guarantee together.
pub mod Words
pub mod Utf8
pub mod Encoder
pub mod Decoder
pub mod Bounds
pub mod Wire
pub mod Reading
pub mod RoundTrip
pub mod Runs
use nfs.Prelude.{ℕ, ◌+◌, ◌-◌, ◌%◌, ◌^◌, String, Option, none, some, ltb, leb, if◌then◌else◌}
use nfs.Prelude.Int.{ℤ}
use nfs.Prelude.Outcome.{Result, ok, err}

pub data Error : Type 0 where
  -- needed, remaining
  unexpected_eof : ℕ → ℕ → Error
  trailing_bytes : ℕ → Error
  invalid_bool : ℕ → Error
  -- type_name, value
  invalid_discriminant : String → ℤ → Error
  -- len, max
  length_limit_exceeded : ℕ → ℕ → Error
  length_out_of_range : ℕ → Error
  invalid_utf8 : Error

-- `u32::MAX` and, on a 64-bit target, `usize::MAX`.
abbrev pub u32_max : ℕ
u32_max = 2 ^ 32 - 1

abbrev pub usize_max : ℕ
usize_max = 2 ^ 64 - 1

-- `usize::checked_add`.
abbrev pub checked_add : ℕ → ℕ → Option ℕ
checked_add a b = if leb (a + b) usize_max then some (a + b) else none

unfoldable pub padding_len : ℕ → ℕ
padding_len len = (4 - len % 4) % 4

-- `u32::try_from(len)`.
unfoldable pub checked_u32_len : ℕ → Result Error ℕ
checked_u32_len len = if ltb u32_max len then err (length_out_of_range len) else ok len
