-- ===== src/Rpc/Message.antt =====
-- src/rpc.rs: `encode_call`, the bytes of a call message.
use nfs.Prelude.{ℕ, List}
use nfs.Prelude.Outcome.{Result, map_err}
use nfs.Prelude.Exec.{◌>>◌}
use nfs.Xdr.Encoder
use nfs.Xdr.Encoder.{Encode, Encoding, step, into_bytes, write_u32}
use nfs.Error.{Error, xdr}
use nfs.Rpc.{rpc_version, msg_call}
use nfs.Rpc.Auth.{Auth, encode_opaque_auth}

-- the writes of the head of a call, up to the two credentials
unfoldable pub write_head : ℕ → ℕ → ℕ → ℕ → Encoding
unfolding write_u32
write_head xid program version procedure = do
  step (write_u32 xid)
  step (write_u32 msg_call)
  step (write_u32 rpc_version)
  step (write_u32 program)
  step (write_u32 version)
  step (write_u32 procedure)

module _ {ℓ} {A : Type ℓ} ⦃e : Encode A⦄ where
  unfoldable pub write_call : ℕ → ℕ → ℕ → ℕ → Auth → A → Encoding
  unfolding write_head encode_opaque_auth
  write_call xid program version procedure auth args = do
    write_head xid program version procedure
    encode_opaque_auth auth
    encode_opaque_auth Auth.none
    e.encode args

  unfoldable pub encode_call : ℕ → ℕ → ℕ → ℕ → Auth → A → Result Error (List ℕ)
  unfolding write_call
  encode_call xid program version procedure auth args =
      map_err xdr (into_bytes (write_call xid program version procedure auth args Encoder.new))
