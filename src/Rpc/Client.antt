-- ===== src/Rpc/Client.antt =====
-- src/rpc.rs: `RpcClient`. The stream is the connection, which is set up by the caller; connecting and
-- setting socket options is the standard library's.
use nfs.Prelude.{ℕ, ◌+◌, ◌%◌, ◌^◌, Bool, true, false, List, ◌==◌, if◌then◌else◌}
use nfs.Prelude.Outcome.{Result, ok, err, map_err}
use nfs.Prelude.Exec.{Exec, raise, ◌>>=◌, ◌>>◌}
use nfs.Xdr.Encoder.{Encode}
use nfs.Error.{
  Error, rpc_connection_invalid, outcome_unknown, rpc_denied, rpc_accepted_error,
  rpc_program_mismatch,
}
use nfs.Rpc.{default_max_record_size}
use nfs.Rpc.Auth.{Auth}
use nfs.Rpc.Message.{encode_call}
use nfs.Rpc.Stream.{Stream}
use nfs.Rpc.Record.{write_record, read_record, validate_max_record_size}
use nfs.Rpc.Reply.{decode_reply}

pub record RpcClient : Type 0 where
  pub stream : Stream
  pub xid : ℕ
  pub auth : Auth
  pub max_record_size : ℕ
  pub interrupted : Bool

-- The first id is the clock's stamp. Setting TCP_NODELAY, which comes first, is the socket's.
unfoldable pub new : ℕ → Stream → Auth → RpcClient
new stamp stream auth = record {
  stream = stream;
  xid = stamp;
  auth = auth;
  max_record_size = default_max_record_size;
  interrupted = false;
}

unfoldable pub set_max_record_size : ℕ → Exec RpcClient Error (Unit {0})
unfolding validate_max_record_size
set_max_record_size max_record_size c = elim (validate_max_record_size max_record_size) [
  | ok _ ↦ (ok tt, record c { max_record_size = max_record_size })
  | err e ↦ (err e, c)
]

-- `wrapping_add(1)`, and 1 in place of 0
abbrev pub following : ℕ → ℕ
following xid = if (xid + 1) % 2 ^ 32 == 0 then 1 else (xid + 1) % 2 ^ 32

-- The client with its new id, which the source returns too.
unfoldable pub next_xid : RpcClient → RpcClient
next_xid c = record c { xid = following c.xid }

-- A read or write of the stream, whose failure leaves the outcome of the call unknown.
abbrev pub on_stream {ℓ} : {A : Type ℓ} → Exec Stream Error A → Exec RpcClient Error A
on_stream m c = (map_err outcome_unknown (m c.stream).0, record c { stream = (m c.stream).1 })

-- The errors by which the server says that it did not run the procedure.
abbrev pub is_refusal : Error → Bool
is_refusal (rpc_denied reject_stat detail) = true
is_refusal (rpc_accepted_error accept_stat) = true
is_refusal (rpc_program_mismatch low high) = true
is_refusal _ = false

-- the `match` on the decoded reply
abbrev pub settle : Result Error (List ℕ) → Exec RpcClient Error (List ℕ)
settle (ok payload) c = (ok payload, record c { interrupted = false })
settle (err e) c =
    if is_refusal e then (err e, record c { interrupted = false }) else (err (outcome_unknown e), c)

-- the rest of `call`, from the request on
unfoldable pub exchange : List ℕ → Exec RpcClient Error (List ℕ)
unfolding write_record read_record decode_reply
exchange request c =
    (do
      on_stream (write_record request)
      reply ← on_stream (read_record c.max_record_size)
      settle (decode_reply c.xid reply))
      (record c { interrupted = true })

abbrev pub send : Result Error (List ℕ) → Exec RpcClient Error (List ℕ)
send (ok request) = exchange request
send (err e) = raise e

module _ {ℓ} {A : Type ℓ} ⦃e : Encode A⦄ where
  unfoldable pub call : ℕ → ℕ → ℕ → A → Exec RpcClient Error (List ℕ)
  unfolding next_xid encode_call exchange
  call program version procedure args c =
      if c.interrupted
      then (err rpc_connection_invalid, c)
      else send (encode_call (next_xid c).xid program version procedure c.auth args) (next_xid c)
