-- ===== src/Rpc/Record.antt =====
-- src/rpc.rs: `write_record`, `read_record` and the limits on records. A header's top bit is
-- `header / 2 ^ 31`, and its low 31 bits `header % 2 ^ 31`.
use nfs.Prelude.{
  ℕ, zero, suc, ◌+◌, ◌/◌, ◌%◌, ◌^◌, Bool, true, false, not, ◌&&◌, Option, none, some, List, [], ◌∷◌,
  ◌++◌, ltb, ◌==◌, if◌then◌else◌, length, min, max,
}
use nfs.Prelude.Outcome.{Result, ok, err}
use nfs.Prelude.Exec.{Exec, pure, raise, ◌>>=◌, ◌>>◌}
use nfs.Xdr.{checked_add, usize_max}
use nfs.Xdr.Words.{u32_to_be, u32_from_be}
use nfs.Error.{Error, protocol, rpc_record_too_large}
use nfs.Rpc.{last_fragment, fragment_len_mask, default_max_record_size, max_record_headroom}
use nfs.Rpc.Stream.{Stream, read_exact, write_all}

-- The length is at most the mask, so `LAST_FRAGMENT | len` is a sum. `flush` of a `TcpStream` does
-- nothing.
unfoldable pub write_record : List ℕ → Exec Stream Error (Unit {0})
unfolding write_all
write_record payload =
    if ltb fragment_len_mask (length payload)
    then raise (rpc_record_too_large (length payload) fragment_len_mask)
    else do write_all (u32_to_be (last_fragment + length payload)); write_all payload

-- the end of a round of `read_record`: the length check and the fragment's bytes
unfoldable pub read_body : ℕ → List ℕ → Option ℕ → ℕ → Exec Stream Error (List ℕ)
unfolding read_exact
read_body max_record_size record_ none fragment_len =
    raise (rpc_record_too_large usize_max max_record_size)
read_body max_record_size record_ (some next_len) fragment_len =
    if ltb max_record_size next_len
    then raise (rpc_record_too_large next_len max_record_size)
    else do bytes ← read_exact fragment_len; pure (record_ ++ bytes)

abbrev pub is_last : ℕ → Bool
is_last header = not (header / 2 ^ 31 == 0)

abbrev pub fragment_len : ℕ → ℕ
fragment_len header = header % 2 ^ 31

unfoldable pub read_with_header : ℕ → List ℕ → ℕ → Exec Stream Error (Bool × List ℕ)
unfolding read_body
read_with_header max_record_size record_ header =
    if fragment_len header == 0 && not (is_last header)
    then raise (protocol "RPC record contained zero-length non-final fragment")
    else do
      grown ←
          read_body max_record_size record_ (checked_add (length record_) (fragment_len header))
            (fragment_len header)
      pure (is_last header, grown)

-- one round of the loop of `read_record`
unfoldable pub read_fragment : ℕ → List ℕ → Exec Stream Error (Bool × List ℕ)
unfolding read_with_header read_exact
read_fragment max_record_size record_ = do
  header ← read_exact 4
  read_with_header max_record_size record_ (u32_from_be header)

-- The loop, with `exhausted` for what happens without fuel.
unfoldable pub read_fragments :
    Exec Stream Error (List ℕ) → ℕ → ℕ → List ℕ → Exec Stream Error (List ℕ)
unfolding read_fragment
read_fragments exhausted zero max_record_size record_ = exhausted
read_fragments exhausted (suc fuel) max_record_size record_ = do
  (last, grown) ← read_fragment max_record_size record_
  elim last [ true ↦ pure grown | false ↦ read_fragments exhausted fuel max_record_size grown ]

abbrev pub out_of_fuel : Exec Stream Error (List ℕ)
out_of_fuel = raise (protocol "out of fuel")

-- Every round that goes on takes four bytes at least of those that the peer will deliver, so there is fuel
-- left for the round that fails at their end.
unfoldable pub read_record : ℕ → Exec Stream Error (List ℕ)
unfolding read_fragments
read_record max_record_size s =
    read_fragments out_of_fuel (suc (length s.incoming)) max_record_size [] s

-- `max().unwrap_or(0)` of the sizes.
abbrev pub largest : List ℕ → ℕ
largest [] = 0
largest (size ∷ sizes) = max size (largest sizes)

unfoldable pub max_record_size_for_payloads : List ℕ → ℕ
max_record_size_for_payloads payload_sizes =
    max (min (largest payload_sizes + max_record_headroom) usize_max) default_max_record_size

unfoldable pub validate_max_record_size : ℕ → Result Error (Unit {0})
validate_max_record_size max_record_size =
    if max_record_size == 0
    then err (protocol "RPC max_record_size must be greater than zero")
    else ok tt
