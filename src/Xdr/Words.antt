-- ===== src/Xdr/Words.antt =====
-- Rust's `to_be_bytes` and `from_be_bytes` at the widths that XDR uses. A byte is a number below
-- 256, an unsigned word a number below 2 ^ 32 or 2 ^ 64, and a signed one an integer.
use nfs.Prelude.{
  ℕ, ◌+◌, ◌-◌, ◌*◌, ◌/◌, ◌%◌, ◌^◌, ◌<◌, ◌≡◌, List, [], ◌∷◌, arith, ltb, if◌then◌else◌, All, length,
}
use nfs.Prelude.Int.{ℤ, pos, negsuc}

abbrev pub IsByte : ℕ → Type 0
IsByte b = b < 256

abbrev pub IsU32 : ℕ → Type 0
IsU32 v = v < 2 ^ 32

abbrev pub IsU64 : ℕ → Type 0
IsU64 v = v < 2 ^ 64

abbrev pub IsI32 : ℤ → Type 0
IsI32 (pos n) = n < 2 ^ 31
IsI32 (negsuc n) = n < 2 ^ 31

abbrev pub IsI64 : ℤ → Type 0
IsI64 (pos n) = n < 2 ^ 63
IsI64 (negsuc n) = n < 2 ^ 63

unfoldable pub u32_to_be : ℕ → List ℕ
u32_to_be v = (v / 2 ^ 24 % 256) ∷ (v / 2 ^ 16 % 256) ∷ (v / 2 ^ 8 % 256) ∷ (v % 256) ∷ []

-- On a slice of another length, which no caller passes, the value is 0.
unfoldable pub u32_from_be : List ℕ → ℕ
u32_from_be (a ∷ b ∷ c ∷ d ∷ []) = ((a * 256 + b) * 256 + c) * 256 + d
u32_from_be _ = 0

unfoldable pub u64_to_be : ℕ → List ℕ
u64_to_be v =
    (v / 2 ^ 56 % 256)
    ∷ (v / 2 ^ 48 % 256)
    ∷ (v / 2 ^ 40 % 256)
    ∷ (v / 2 ^ 32 % 256)
    ∷ (v / 2 ^ 24 % 256)
    ∷ (v / 2 ^ 16 % 256)
    ∷ (v / 2 ^ 8 % 256)
    ∷ (v % 256)
    ∷ []

unfoldable pub u64_from_be : List ℕ → ℕ
u64_from_be (a ∷ b ∷ c ∷ d ∷ e ∷ f ∷ g ∷ h ∷ []) =
    ((((((a * 256 + b) * 256 + c) * 256 + d) * 256 + e) * 256 + f) * 256 + g) * 256 + h
u64_from_be _ = 0

-- The two's complement bit pattern of an `i32` or `i64`, and the integer of a pattern.
unfoldable pub i32_bits : ℤ → ℕ
i32_bits (pos n) = n
i32_bits (negsuc n) = 2 ^ 32 - 1 - n

unfoldable pub i32_of_bits : ℕ → ℤ
i32_of_bits w = if ltb w (2 ^ 31) then pos w else negsuc (2 ^ 32 - 1 - w)

unfoldable pub i64_bits : ℤ → ℕ
i64_bits (pos n) = n
i64_bits (negsuc n) = 2 ^ 64 - 1 - n

unfoldable pub i64_of_bits : ℕ → ℤ
i64_of_bits w = if ltb w (2 ^ 63) then pos w else negsuc (2 ^ 64 - 1 - w)

pub u32_from_be-u32_to_be : (v : ℕ) → IsU32 v → u32_from_be (u32_to_be v) ≡ v
unfolding u32_from_be u32_to_be
u32_from_be-u32_to_be v h = omega arith

pub u64_from_be-u64_to_be : (v : ℕ) → IsU64 v → u64_from_be (u64_to_be v) ≡ v
unfolding u64_from_be u64_to_be
u64_from_be-u64_to_be v h = omega arith

pub u32_to_be-IsByte : (v : ℕ) → All IsByte (u32_to_be v)
unfolding u32_to_be
u32_to_be-IsByte v = omega arith

pub length-u32_to_be : (v : ℕ) → length (u32_to_be v) ≡ 4
unfolding u32_to_be
length-u32_to_be v = omega arith

pub length-u64_to_be : (v : ℕ) → length (u64_to_be v) ≡ 8
unfolding u64_to_be
length-u64_to_be v = omega arith

pub i32_of_bits-i32_bits : (z : ℤ) → IsI32 z → i32_of_bits (i32_bits z) ≡ z
unfolding i32_bits i32_of_bits
i32_of_bits-i32_bits (pos n) h = ground arith
i32_of_bits-i32_bits (negsuc n) h = ground arith

pub i64_of_bits-i64_bits : (z : ℤ) → IsI64 z → i64_of_bits (i64_bits z) ≡ z
unfolding i64_bits i64_of_bits
i64_of_bits-i64_bits (pos n) h = ground arith
i64_of_bits-i64_bits (negsuc n) h = ground arith

pub i32_bits-IsU32 : (z : ℤ) → IsI32 z → IsU32 (i32_bits z)
unfolding i32_bits
i32_bits-IsU32 (pos n) h = omega arith
i32_bits-IsU32 (negsuc n) h = omega arith

pub i64_bits-IsU64 : (z : ℤ) → IsI64 z → IsU64 (i64_bits z)
unfolding i64_bits
i64_bits-IsU64 (pos n) h = omega arith
i64_bits-IsU64 (negsuc n) h = omega arith
