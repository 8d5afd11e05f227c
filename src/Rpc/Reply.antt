-- ===== src/Rpc/Reply.antt =====
-- src/rpc.rs: `decode_reply` and its helpers. A `?` on an XDR read turns its error into the crate's.
use nfs.Prelude.{ℕ, List, ◌==◌, if◌then◌else◌}
use nfs.Prelude.Outcome.{Result, ok, err, map_err}
use nfs.Prelude.Exec.{Exec, pure, raise, ◌>>=◌, ◌>>◌}
use nfs.Xdr
use nfs.Xdr.Decoder
use nfs.Xdr.Decoder.{Decoder, Decoding}
use nfs.Error.{
  Error, xdr, rpc_mismatch, rpc_unexpected_message_type, rpc_denied, rpc_accepted_error,
  rpc_program_mismatch,
}
use nfs.Rpc.{
  msg_reply, reply_accepted, reply_denied, accept_success, accept_prog_mismatch,
  reject_rpc_mismatch, reject_auth_error,
}

-- A read of the decoder behind a `?`.
abbrev pub from_xdr {ℓ} : {A : Type ℓ} → Decoding A → Exec Decoder Error A
from_xdr m d = (map_err xdr (m d).0, (m d).1)

unfoldable pub ensure_rpc_reply_consumed : Exec Decoder Error (Unit {0})
ensure_rpc_reply_consumed d =
    if Decoder.is_finished d
    then (ok tt, d)
    else (err (xdr (Xdr.trailing_bytes (Decoder.remaining d))), d)

unfoldable pub read_opaque_auth : Exec Decoder Error (ℕ × List ℕ)
read_opaque_auth = do
  flavor ← from_xdr Decoder.read_u32
  body ← from_xdr (Decoder.read_opaque 400)
  pure (flavor, body)

-- The end of a reply that carries an error: nothing may follow it.
abbrev pub refuse : Error → Exec Decoder Error (List ℕ)
refuse e = do ensure_rpc_reply_consumed; raise e

-- the two versions of a mismatch
unfoldable pub read_mismatch : Exec Decoder Error (List ℕ)
unfolding ensure_rpc_reply_consumed
read_mismatch = do
  low ← from_xdr Decoder.read_u32
  high ← from_xdr Decoder.read_u32
  refuse (rpc_program_mismatch low high)

unfoldable pub read_payload : Exec Decoder Error (List ℕ)
read_payload d = from_xdr (Decoder.read_fixed_opaque_unpadded (Decoder.remaining d)) d

abbrev pub accepted : ℕ → Exec Decoder Error (List ℕ)
accepted accept_stat =
    if accept_stat == accept_success
    then read_payload
    else if accept_stat == accept_prog_mismatch
    then read_mismatch
    else refuse (rpc_accepted_error accept_stat)

unfoldable pub decode_accepted_reply : Exec Decoder Error (List ℕ)
unfolding read_opaque_auth
decode_accepted_reply = do
  _ ← read_opaque_auth
  accept_stat ← from_xdr Decoder.read_u32
  accepted accept_stat

unfoldable pub read_auth_error : Exec Decoder Error (List ℕ)
read_auth_error = do
  auth_stat ← from_xdr Decoder.read_u32
  refuse (rpc_denied reject_auth_error auth_stat)

abbrev pub denied : ℕ → Exec Decoder Error (List ℕ)
denied reject_stat =
    if reject_stat == reject_rpc_mismatch
    then read_mismatch
    else if reject_stat == reject_auth_error
    then read_auth_error
    else refuse (rpc_denied reject_stat 0)

unfoldable pub decode_denied_reply : Exec Decoder Error (List ℕ)
decode_denied_reply = do reject_stat ← from_xdr Decoder.read_u32; denied reject_stat

-- the `match` on the reply's state
abbrev pub replied : ℕ → Exec Decoder Error (List ℕ)
replied state =
    if state == reply_accepted
    then decode_accepted_reply
    else if state == reply_denied
    then decode_denied_reply
    else refuse (rpc_denied state 0)

abbrev pub typed : ℕ → Exec Decoder Error (List ℕ)
typed message_type =
    if message_type == msg_reply
    then (from_xdr Decoder.read_u32 >>= replied)
    else raise (rpc_unexpected_message_type message_type)

abbrev pub matched : ℕ → ℕ → Exec Decoder Error (List ℕ)
matched expected_xid actual_xid =
    if actual_xid == expected_xid
    then (from_xdr Decoder.read_u32 >>= typed)
    else raise (rpc_mismatch expected_xid actual_xid)

unfoldable pub decode_reply_body : ℕ → Exec Decoder Error (List ℕ)
unfolding decode_accepted_reply decode_denied_reply
decode_reply_body expected_xid = do
  actual_xid ← from_xdr Decoder.read_u32
  matched expected_xid actual_xid

unfoldable pub decode_reply : ℕ → List ℕ → Result Error (List ℕ)
unfolding decode_reply_body
decode_reply expected_xid reply = (decode_reply_body expected_xid (Decoder.new reply)).0
