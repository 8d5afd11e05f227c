-- ===== src/Xdr/Utf8.antt =====
-- Rust's `str`: text is its UTF-8 bytes. `is_utf8` is `std::str::from_utf8(_).is_ok()`, as an
-- automaton over the well-formed byte sequences, and `is_char_boundary` is that of `str`.
use nfs.Prelude.{
  ℕ, Bool, true, false, not, ◌&&◌, ◌||◌, Option, none, some, List, [], ◌∷◌, leb, ltb, ◌==◌,
  if◌then◌else◌, length, get_elem?, zero, suc,
}

-- `expect n lo hi`: the next byte must lie in lo..=hi, and n continuation bytes follow it.
pub data Utf8State : Type 0 where
  start : Utf8State
  expect : ℕ → ℕ → ℕ → Utf8State
  invalid : Utf8State

unfoldable pub lead_byte : ℕ → Utf8State
lead_byte b =
    if ltb b 0x80
    then start
    else if ltb b 0xc2
    then invalid
    else if ltb b 0xe0
    then expect 0 0x80 0xbf
    else if b == 0xe0
    then expect 1 0xa0 0xbf
    else if b == 0xed
    then expect 1 0x80 0x9f
    else if ltb b 0xf0
    then expect 1 0x80 0xbf
    else if b == 0xf0
    then expect 2 0x90 0xbf
    else if ltb b 0xf4
    then expect 2 0x80 0xbf
    else if b == 0xf4
    then expect 2 0x80 0x8f
    else invalid

abbrev pub after : ℕ → Utf8State
after zero = start
after (suc n) = expect n 0x80 0xbf

unfoldable pub utf8_step : Utf8State → ℕ → Utf8State
unfolding lead_byte
utf8_step start b = lead_byte b
utf8_step (expect n lo hi) b = if leb lo b && leb b hi then after n else invalid
utf8_step invalid b = invalid

unfoldable pub utf8_run : Utf8State → List ℕ → Utf8State
unfolding utf8_step
utf8_run s [] = s
utf8_run s (b ∷ bs) = utf8_run (utf8_step s b) bs

abbrev pub is_start : Utf8State → Bool
is_start start = true
is_start _ = false

unfoldable pub is_utf8 : List ℕ → Bool
unfolding utf8_run
is_utf8 bs = is_start (utf8_run start bs)

-- A byte 0b10xxxxxx, which continues a character.
abbrev pub is_continuation : ℕ → Bool
is_continuation b = leb 0x80 b && ltb b 0xc0

abbrev pub boundary_at : ℕ → ℕ → Option ℕ → Bool
boundary_at index len none = index == len
boundary_at index len (some b) = not (is_continuation b)

-- `str::is_char_boundary`: both ends, and every index whose byte starts a character.
unfoldable pub is_char_boundary : List ℕ → ℕ → Bool
is_char_boundary text index = index == 0 || boundary_at index (length text) (get_elem? text index)
