-- ===== src/Xdr/Runs.antt =====
-- Runs of the XDR helpers on small values.
use nfs.Prelude.{ℕ, ◌≡◌, refl, true, List, [], ◌∷◌, arith}
use nfs.Prelude.Outcome.{ok}
use nfs.Xdr.Words.{u32_to_be}
use nfs.Xdr.Utf8.{is_utf8}
use nfs.Xdr.Encoder
use nfs.Xdr.Encoder.{u32_encode}
use nfs.Xdr.Decoder
use nfs.Xdr.Decoder.{u32_decode, Decoder}
use nfs.Xdr.Wire.{Travels}
use nfs.Xdr.Bounds.{Forward, read_array-Advances, read_u32-Advances}
use nfs.Xdr.RoundTrip.{u32-Travels, string-Travels, array-Travels, from_bytes-to_bytes}

abbrev text : List ℕ
text = 104 ∷ 195 ∷ 169 ∷ []

text-valid : is_utf8 text ≡ true
unfolding is_utf8
text-valid = refl

string-Travels_example : Travels (Encoder.write_string text 255) (Decoder.read_string 255) text
string-Travels_example = string-Travels text 255 text-valid (omega arith) (omega arith)

abbrev words : List ℕ
words = 7 ∷ 4294967295 ∷ []

array-Travels_example : Travels (Encoder.write_array words 16) (Decoder.read_array 16) words
array-Travels_example =
    array-Travels words 16 (omega arith) (omega arith)
      (u32-Travels 7 (omega arith), (u32-Travels 4294967295 (omega arith), tt))

abbrev number : ℕ
number = 258

from_bytes-to_bytes_example : Decoder.from_bytes {A = ℕ} (0 ∷ 0 ∷ 1 ∷ 2 ∷ []) ≡ ok number
unfolding Encoder.to_bytes Encoder.write_u32 u32_to_be
from_bytes-to_bytes_example =
    from_bytes-to_bytes number (0 ∷ 0 ∷ 1 ∷ 2 ∷ []) (u32-Travels number (omega arith)) refl
      (omega arith)

-- The length word promises more items than there are.
abbrev short_array : Decoder
short_array = Decoder.new (0 ∷ 0 ∷ 0 ∷ 2 ∷ 0 ∷ 0 ∷ 0 ∷ 5 ∷ [])

read_array-Advances_example : Forward short_array (Decoder.read_array {A = ℕ} 16 short_array).1
read_array-Advances_example =
    (read_array-Advances read_u32-Advances 16).at short_array (record { within = omega arith })
