-- ===== src/Rpc/Answers.antt =====
-- `RpcClient::call` of src/rpc.rs against a server that answers, and the ids that it gives its calls.
use nfs.Prelude.{
  ℕ, zero, suc, ◌+◌, ◌-◌, ◌%◌, ◌^◌, ◌≤◌, ◌<◌, ◌≡◌, ◌≢◌, refl, ap, ◌∙◌, Bool, true, false, List, [],
  ◌++◌, arith, if◌then◌else◌, length, All,
}
use nfs.Prelude.Outcome.{ok}
use nfs.Prelude.Exec.{Exec, ◌>>=◌}
use nfs.Xdr.{usize_max}
use nfs.Xdr.Words.{IsU32}
use nfs.Xdr.Encoder.{Encode}
use nfs.Error.{Error}
use nfs.Rpc.Message.{encode_call}
use nfs.Rpc.Stream.{Stream}
use nfs.Rpc.Record.{write_record, read_record}
use nfs.Rpc.Fragments.{frames, joined, IsPart, read_record-frames, write_record-frames}
use nfs.Rpc.Reply.{decode_reply}
use nfs.Rpc.Replies.{Verdict, IsLegal, reply_bytes, outcome, decode_reply-verdict}
use nfs.Rpc.Client.{RpcClient, following, next_xid, on_stream, settle, exchange, send, call}

settle-outcome :
    (v : Verdict) (c : RpcClient)
    → settle (outcome v) c ≡ (outcome v, record c { interrupted = false })
settle-outcome (Verdict.success payload) c = refl
settle-outcome (Verdict.prog_mismatch low high) c = refl
settle-outcome (Verdict.other_accept stat) c = refl
settle-outcome (Verdict.rpc_mismatch_reply low high) c = refl
settle-outcome (Verdict.auth_error stat) c = refl
settle-outcome (Verdict.other_reject stat) c = refl
settle-outcome (Verdict.other_state state) c = refl

on_stream-ok {ℓ κ} :
    {A : Type ℓ} {B : Type κ} (m : Exec Stream Error A) (k : A → Exec RpcClient Error B)
    (c : RpcClient) (a : A) (s : Stream)
    → m c.stream ≡ (ok a, s)
    → (on_stream m >>= k) c ≡ k a (record c { stream = s })
on_stream-ok m k c a s e = rw e

following-IsU32 : (xid : ℕ) → IsU32 (following xid)
following-IsU32 xid = ground arith

-- What the server answers to the request: the fragments of a reply that carries the verdict v.
pub record Answered (c : RpcClient) (request : List ℕ) (v : Verdict) (rest : List ℕ) : Type 0 where
  pub flavor : ℕ
  pub verifier : List ℕ
  pub parts : List (List ℕ)
  pub final : List ℕ
  pub small_request : length request < 2 ^ 31
  pub room : 4 + length request ≤ (c.stream).room
  pub incoming : (c.stream).incoming ≡ frames parts final ++ rest
  pub parts_IsPart : All IsPart parts
  pub small_final : length final < 2 ^ 31
  pub reply : joined parts final ≡ reply_bytes (following c.xid) flavor verifier v
  pub within_limit : length (joined parts final) ≤ c.max_record_size
  pub limit_usize : c.max_record_size ≤ usize_max
  pub flavor_IsU32 : IsU32 flavor
  pub small_verifier : length verifier ≤ 400
  pub legal : IsLegal v

-- The client after the exchange: the request sent as one record, the reply taken off the stream.
abbrev pub answered : RpcClient → List ℕ → List ℕ → RpcClient
answered c request rest = record {
  stream = record c.stream {
    incoming = rest;
    outgoing = (c.stream).outgoing ++ frames [] request;
    room = (c.stream).room - (4 + length request);
  };
  xid = following c.xid;
  auth = c.auth;
  max_record_size = c.max_record_size;
  interrupted = false;
}

exchange-answered :
    (c : RpcClient) (request : List ℕ) (v : Verdict) (rest : List ℕ)
    → Answered c request v rest
    → exchange request (next_xid c) ≡ (outcome v, answered c request rest)
unfolding exchange next_xid
exchange-answered c request v rest a =
    on_stream-ok (write_record request) _ _ tt _
      (write_record-frames request c.stream a.small_request a.room)
    ∙ on_stream-ok (read_record c.max_record_size) (λ x. settle (decode_reply (following c.xid) x))
        (record (answered c request rest) { stream = sent; interrupted = true })
        (joined a.parts a.final) (record sent { incoming = rest })
        (read_record-frames c.max_record_size sent a.parts a.final rest a.incoming a.parts_IsPart
          a.small_final a.within_limit a.limit_usize)
    ∙ ap (λ r. settle r (record (answered c request rest) { interrupted = true })) decoded
    ∙ settle-outcome v _
  where
    sent : Stream
    sent = record c.stream {
      outgoing = (c.stream).outgoing ++ frames [] request;
      room = (c.stream).room - (4 + length request);
    }

    decoded : decode_reply (following c.xid) (joined a.parts a.final) ≡ outcome v
    decoded =
        ap (decode_reply (following c.xid)) a.reply
        ∙ decode_reply-verdict (following c.xid) a.flavor a.verifier v (following-IsU32 c.xid)
            a.flavor_IsU32 a.small_verifier a.legal
            (omega (arith, ap length a.reply, a.within_limit, a.limit_usize))

guard_passed {ℓ} : {A : Type ℓ} (b : Bool) (p q : A) → b ≡ false → (if b then p else q) ≡ q
guard_passed true p q h = cc
guard_passed false p q h = refl

module _ {ℓ} {A : Type ℓ} ⦃e : Encode A⦄ where
  -- A call on a valid connection to a server that answers it, in a record of any number of fragments,
  -- sends the encoded call as one record, returns what the answer says, takes the answer off the
  -- stream and nothing that follows it, and leaves the connection valid.
  pub call-answered :
      (program version procedure : ℕ) (args : A) (c : RpcClient) (request : List ℕ) (v : Verdict)
      (rest : List ℕ)
      → c.interrupted ≡ false
      → encode_call (following c.xid) program version procedure c.auth args ≡ ok request
      → Answered c request v rest
      → call program version procedure args c ≡ (outcome v, answered c request rest)
  unfolding call next_xid
  call-answered program version procedure args c request v rest valid encoded a =
      guard_passed c.interrupted _ _ valid
      ∙ ap (λ r. send r (next_xid c)) encoded
      ∙ exchange-answered c request v rest a

-- The id of the n-th call after one with the id xid.
abbrev pub nth_xid : ℕ → ℕ → ℕ
nth_xid zero xid = xid
nth_xid (suc n) xid = following (nth_xid n xid)

nth_xid-eq : (n xid : ℕ) → 0 < xid → IsU32 xid → nth_xid n xid ≡ (xid - 1 + n) % (2 ^ 32 - 1) + 1
nth_xid-eq zero xid p h = omega arith
nth_xid-eq (suc n) xid p h = step (nth_xid n xid) (nth_xid-eq n xid p h)
  where
    step :
        (x : ℕ)
        → x ≡ (xid - 1 + n) % (2 ^ 32 - 1) + 1
        → following x ≡ (xid - 1 + suc n) % (2 ^ 32 - 1) + 1
    step x e = ground arith

-- From the first call on, an id is never 0, and it does not come again within 2^32 - 2 calls.
pub nth_xid-distinct :
    (xid m n : ℕ)
    → IsU32 xid
    → m < n
    → n < m + (2 ^ 32 - 1)
    → (0 < nth_xid (suc m) xid) × (nth_xid (suc m) xid ≢ nth_xid (suc n) xid)
nth_xid-distinct xid m n h lt near =
    (positive m, λ e. absurd (omega (arith, from_first m, from_first n)))
  where
    shift : (k : ℕ) → nth_xid (suc k) xid ≡ nth_xid k (following xid)
    shift zero = refl
    shift (suc k) = ap following (shift k)

    from_first : (k : ℕ) → nth_xid (suc k) xid ≡ (following xid - 1 + k) % (2 ^ 32 - 1) + 1
    from_first k = shift k ∙ nth_xid-eq k (following xid) (ground arith) (following-IsU32 xid)

    positive : (k : ℕ) → 0 < nth_xid (suc k) xid
    positive k = omega (arith, from_first k)
