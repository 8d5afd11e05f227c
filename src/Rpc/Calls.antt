-- ===== src/Rpc/Calls.antt =====
-- What `RpcClient::call` of src/rpc.rs promises: which connections it goes on using, which ids it
-- gives, and that it brings back the server's answer.
use nfs.Prelude.{
  ℕ, ◌≡◌, refl, sym, ◌∙◌, Bool, true, false, List, if◌then◌else◌, Bool-cases, inl, inr,
}
use nfs.Prelude.Outcome.{Result, ok, err, map_err}
use nfs.Prelude.Exec.{Exec, continue, ◌>>=◌}
use nfs.Xdr.Encoder.{Encode, new, into_bytes}
use nfs.Error.{
  Error, xdr, rpc_connection_invalid, outcome_unknown, rpc_denied, rpc_accepted_error,
  rpc_program_mismatch, is_outcome_unknown,
}
use nfs.Rpc.Message.{write_call, encode_call}
use nfs.Rpc.Stream.{Stream}
use nfs.Rpc.Record.{write_record, read_record}
use nfs.Rpc.Reply.{decode_reply}
use nfs.Rpc.Client.{RpcClient, next_xid, on_stream, is_refusal, settle, exchange, send, call}

-- The result is an error that leaves the outcome of the call unknown.
abbrev pub is_unknown {ℓ} : {A : Type ℓ} → Result Error A → Bool
is_unknown (ok a) = false
is_unknown (err e) = is_outcome_unknown e

-- The connection is invalid from now on just if the outcome is unknown.
abbrev Settled {ℓ} : {A : Type ℓ} → Result Error A × RpcClient → Type 0
Settled p = p.1.interrupted ≡ is_unknown p.0

refusal-known : (e : Error) → is_refusal e ≡ true → is_outcome_unknown e ≡ false
unfolding is_outcome_unknown
refusal-known (rpc_denied r d) h = refl
refusal-known (rpc_accepted_error a) h = refl
refusal-known (rpc_program_mismatch l g) h = refl
refusal-known (outcome_unknown e) h = cc
refusal-known (Error.cleanup c p f) h = cc
refusal-known _ h = refl

settle-Settled :
    (r : Result Error (List ℕ)) (c : RpcClient) → c.interrupted ≡ true → Settled (settle r c)
unfolding is_outcome_unknown
settle-Settled (ok payload) c h = refl
settle-Settled (err e) c h = elim (Bool-cases (is_refusal e)) [
  | inl y ↦ rw (y, refusal-known e y)
  | inr n ↦ rw (n, h)
]

-- From an interrupted client, the action settles.
record Settles (m : Exec RpcClient Error (List ℕ)) : Type 0 where
  at_call : (c : RpcClient) → c.interrupted ≡ true → Settled (m c)

-- A failed step on the stream leaves the connection invalid, any other goes on.
stream_step-Settles {ℓ} :
    {A : Type ℓ} (m : Exec Stream Error A) (k : A → Exec RpcClient Error (List ℕ))
    → ((a : A) → Settles (k a))
    → Settles (on_stream m >>= k)
unfolding is_outcome_unknown
stream_step-Settles m k p = record { at_call = λ c h. by_result (m c.stream).0 _ h }
  where
    by_result :
        (r : Result Error _) (c : RpcClient)
        → c.interrupted ≡ true
        → Settled (continue (map_err outcome_unknown r) k c)
    by_result (ok a) c h = (p a).at_call c h
    by_result (err e) c h = h

exchange-Settled : (request : List ℕ) (c : RpcClient) → Settled (exchange request c)
unfolding exchange
exchange-Settled request c =
    (stream_step-Settles (write_record request) _ λ _.
        stream_step-Settles (read_record c.max_record_size) _
          λ reply. record { at_call = settle-Settled (decode_reply c.xid reply) }).at_call
      (record c { interrupted = true }) refl

send-Settled :
    (r : Result Error (List ℕ)) (c : RpcClient)
    → is_unknown r ≡ false
    → c.interrupted ≡ false
    → Settled (send r c)
send-Settled (ok request) c k h = exchange-Settled request c
send-Settled (err e) c k h = h ∙ sym k

xdr_error-known {ℓ} : {A : Type ℓ} (r : Result _ A) → is_unknown (map_err xdr r) ≡ false
unfolding is_outcome_unknown
xdr_error-known (ok a) = refl
xdr_error-known (err e) = refl

guard-Settled {ℓ} :
    {A : Type ℓ} (b : Bool) (p q : Result Error A × RpcClient)
    → b ≡ false
    → Settled q
    → Settled (if b then p else q)
guard-Settled true p q h k = cc
guard-Settled false p q h k = k

module _ {ℓ} {A : Type ℓ} ⦃e : Encode A⦄ where
  -- A call on a valid connection makes it invalid just if the outcome of the call is unknown, whether
  -- the failure is in the request, in the transport, in the record or in the reply.
  pub call-interrupted :
      (program version procedure : ℕ) (args : A) (c : RpcClient)
      → c.interrupted ≡ false
      → (call program version procedure args c).1.interrupted
        ≡ is_unknown (call program version procedure args c).0
  unfolding call next_xid encode_call
  call-interrupted program version procedure args c h = guard-Settled c.interrupted _ _ h (
      send-Settled (encode_call (next_xid c).xid program version procedure c.auth args) (next_xid c)
        (xdr_error-known
          (into_bytes (write_call (next_xid c).xid program version procedure c.auth args new)))
        h)

  call-refused :
      (program version procedure : ℕ) (args : A) (c : RpcClient)
      → c.interrupted ≡ true
      → call program version procedure args c ≡ (err rpc_connection_invalid, c)
  unfolding call
  call-refused program version procedure args c h = rw h

module _ {ℓ κ} {A : Type ℓ} {B : Type κ} ⦃e : Encode A⦄ ⦃e' : Encode B⦄ where
  -- After a call with an unknown outcome, every further call is refused, and does not touch the
  -- connection, where the late reply may still arrive.
  pub call-after_unknown :
      (program version procedure : ℕ) (args : A) (program' version' procedure' : ℕ) (args' : B)
      (c : RpcClient)
      → c.interrupted ≡ false
      → is_unknown (call program version procedure args c).0 ≡ true
      → call program' version' procedure' args' (call program version procedure args c).1
        ≡ (err rpc_connection_invalid, (call program version procedure args c).1)
  call-after_unknown program version procedure args program' version' procedure' args' c h u =
      call-refused program' version' procedure' args' _
        (call-interrupted program version procedure args c h ∙ u)
