-- ===== src/Rpc/Replies.antt =====
-- What `decode_reply` of src/rpc.rs makes of every reply that RFC 5531 lets a server send.
use nfs.Prelude.{
  ℕ, ◌-◌, ◌≤◌, ◌<◌, ◌≡◌, ◌≢◌, refl, ap, ◌∙◌, true, false, List, [], ◌++◌, arith, ◌==◌, length,
  length-append, append-nil, append_assoc,
}
use nfs.Prelude.Outcome.{Result, ok, err}
use nfs.Prelude.Exec.{Exec, ◌>>=◌}
use nfs.Xdr.{usize_max, trailing_bytes}
use nfs.Xdr.Words.{IsU32, u32_to_be}
use nfs.Xdr.Decoder
use nfs.Xdr.Decoder.{Decoder, Decoding, read_fixed_opaque_unpadded}
use nfs.Xdr.Wire.{Reads, between, Reads-bind, Reads-map, Reads-continue, read_bytes-Reads}
use nfs.Xdr.Reading.{u32_Reads, opaque_Reads, opaque_bytes}
use nfs.Error.{Error, xdr, rpc_mismatch, rpc_denied, rpc_accepted_error, rpc_program_mismatch}
use nfs.Rpc.{
  msg_reply, reply_accepted, reply_denied, accept_success, accept_prog_mismatch,
  reject_rpc_mismatch, reject_auth_error,
}
use nfs.Rpc.Reply.{
  from_xdr, ensure_rpc_reply_consumed, read_opaque_auth, refuse, read_mismatch, read_payload,
  accepted, decode_accepted_reply, read_auth_error, denied, decode_denied_reply, replied,
  decode_reply_body, decode_reply,
}

from_xdr-Reads {ℓ} :
    {A : Type ℓ} (m : Decoding A) {v : A} {bs : List ℕ} → Reads m v bs → Reads (from_xdr m) v bs
from_xdr-Reads m p = record { read = λ pre post h. rw (p.read pre post h) }

-- The action, with these bytes left to read and no more, has this result.
record Ends (m : Exec Decoder Error (List ℕ)) (r : Result Error (List ℕ)) (bs : List ℕ)
    : Type 0 where
  result : (pre : List ℕ) → length (pre ++ bs) ≤ usize_max → (m (between pre bs)).0 ≡ r

Ends-bind {ℓ} :
    {A : Type ℓ} (m : Exec Decoder Error A) (f : A → Exec Decoder Error (List ℕ)) {v : A}
    {r : Result Error (List ℕ)} {xs ys : List ℕ}
    → Reads m v xs
    → Ends (f v) r ys
    → Ends (m >>= f) r (xs ++ ys)
Ends-bind m f {v} {r} {xs} {ys} p q = record {
  result = λ pre h.
      ap (λ o. o.0) (Reads-continue m f pre ys p h)
      ∙ q.result (pre ++ xs) (rw (← append_assoc pre xs ys) at h);
}

Ends-refuse : (e : Error) → Ends (refuse e) (err e) []
unfolding ensure_rpc_reply_consumed Decoder.is_finished Decoder.remaining
Ends-refuse e = record {
  result = λ pre h.
      let a : (length (pre ++ []) - length pre == 0) ≡ true =
        ground (arith, ap length (append-nil pre)) in
      rw a;
}

Ends-refuse-trailing :
    (e : Error) (rest : List ℕ)
    → 0 < length rest
    → Ends (refuse e) (err (xdr (trailing_bytes (length rest)))) rest
unfolding ensure_rpc_reply_consumed Decoder.is_finished Decoder.remaining
Ends-refuse-trailing e rest h = record {
  result = λ pre hp.
      let n : length (pre ++ rest) - length pre ≡ length rest =
        omega (arith, length-append pre rest) in
      let a : (length rest == 0) ≡ false = ground arith in rw (n, a);
}

read_all :
    (pre payload : List ℕ)
    → length (pre ++ payload) ≤ usize_max
    → Decoder.read_bytes (length payload) (between pre payload)
      ≡ (ok payload, between (pre ++ payload) [])
read_all pre payload h =
    rw (append-nil payload) at
      ((read_bytes-Reads (length payload) payload refl).read pre [] (rw (append-nil payload) h))

Ends-payload : (payload : List ℕ) → Ends read_payload (ok payload) payload
unfolding read_payload Decoder.remaining read_fixed_opaque_unpadded
Ends-payload payload = record {
  result = λ pre h.
      let n : length (pre ++ payload) - length pre ≡ length payload =
        omega (arith, length-append pre payload) in
      rw (n, read_all pre payload h);
}

-- What a server can answer. The words that RFC 5531 gives a meaning have a constructor of their own.
pub data Verdict : Type 0 where
  success : List ℕ → Verdict
  -- low, high
  prog_mismatch : ℕ → ℕ → Verdict
  other_accept : ℕ → Verdict
  -- low, high
  rpc_mismatch_reply : ℕ → ℕ → Verdict
  auth_error : ℕ → Verdict
  other_reject : ℕ → Verdict
  other_state : ℕ → Verdict

abbrev pub IsLegal : Verdict → Type 0
IsLegal (success payload) = Unit {0}
IsLegal (prog_mismatch low high) = IsU32 low × IsU32 high
IsLegal (other_accept stat) = IsU32 stat × (stat ≢ accept_success) × (stat ≢ accept_prog_mismatch)
IsLegal (rpc_mismatch_reply low high) = IsU32 low × IsU32 high
IsLegal (auth_error stat) = IsU32 stat
IsLegal (other_reject stat) = IsU32 stat × (stat ≢ reject_rpc_mismatch) × (stat ≢ reject_auth_error)
IsLegal (other_state state) = IsU32 state × (state ≢ reply_accepted) × (state ≢ reply_denied)

abbrev two_words : ℕ → ℕ → List ℕ
two_words a b = u32_to_be a ++ (u32_to_be b ++ [])

-- The verifier of an accepted reply and what follows it.
abbrev accepted_bytes : ℕ → List ℕ → ℕ → List ℕ → List ℕ
accepted_bytes flavor verifier stat rest =
    u32_to_be reply_accepted
    ++ ((u32_to_be flavor ++ opaque_bytes verifier) ++ (u32_to_be stat ++ rest))

abbrev denied_bytes : ℕ → List ℕ → List ℕ
denied_bytes stat rest = u32_to_be reply_denied ++ (u32_to_be stat ++ rest)

abbrev verdict_bytes : ℕ → List ℕ → Verdict → List ℕ
verdict_bytes flavor verifier (success payload) =
    accepted_bytes flavor verifier accept_success payload
verdict_bytes flavor verifier (prog_mismatch low high) =
    accepted_bytes flavor verifier accept_prog_mismatch (two_words low high)
verdict_bytes flavor verifier (other_accept stat) = accepted_bytes flavor verifier stat []
verdict_bytes flavor verifier (rpc_mismatch_reply low high) =
    denied_bytes reject_rpc_mismatch (two_words low high)
verdict_bytes flavor verifier (auth_error stat) =
    denied_bytes reject_auth_error (u32_to_be stat ++ [])
verdict_bytes flavor verifier (other_reject stat) = denied_bytes stat []
verdict_bytes flavor verifier (other_state state) = u32_to_be state ++ []

-- A whole reply, with its transaction id.
abbrev pub reply_bytes : ℕ → ℕ → List ℕ → Verdict → List ℕ
reply_bytes xid flavor verifier verdict =
    u32_to_be xid ++ (u32_to_be msg_reply ++ verdict_bytes flavor verifier verdict)

abbrev pub outcome : Verdict → Result Error (List ℕ)
outcome (success payload) = ok payload
outcome (prog_mismatch low high) = err (rpc_program_mismatch low high)
outcome (other_accept stat) = err (rpc_accepted_error stat)
outcome (rpc_mismatch_reply low high) = err (rpc_program_mismatch low high)
outcome (auth_error stat) = err (rpc_denied reject_auth_error stat)
outcome (other_reject stat) = err (rpc_denied stat 0)
outcome (other_state state) = err (rpc_denied state 0)

word_Reads : (v : ℕ) → IsU32 v → Reads (from_xdr Decoder.read_u32) v (u32_to_be v)
word_Reads v h = from_xdr-Reads _ (u32_Reads v h)

==-differs : (a b : ℕ) → a ≢ b → (a == b) ≡ false
==-differs a b h = ground arith

Ends-mismatch :
    (low high : ℕ)
    → IsU32 low
    → IsU32 high
    → Ends read_mismatch (err (rpc_program_mismatch low high)) (two_words low high)
unfolding read_mismatch
Ends-mismatch low high hl hh =
    Ends-bind _ _ (word_Reads low hl) (Ends-bind _ _ (word_Reads high hh) (Ends-refuse _))

opaque_auth_Reads :
    (flavor : ℕ) (verifier : List ℕ)
    → IsU32 flavor
    → length verifier ≤ 400
    → Reads read_opaque_auth (flavor, verifier) (u32_to_be flavor ++ opaque_bytes verifier)
unfolding read_opaque_auth
opaque_auth_Reads flavor verifier hf hv =
    Reads-bind _ _ (word_Reads flavor hf)
      (Reads-map _ _ (from_xdr-Reads _ (opaque_Reads verifier 400 hv (omega arith))) (λ d. refl))

Ends-accepted :
    (flavor : ℕ) (verifier : List ℕ) (stat : ℕ) (rest : List ℕ) (r : Result Error (List ℕ))
    → IsU32 flavor
    → length verifier ≤ 400
    → IsU32 stat
    → Ends (accepted stat) r rest
    → Ends decode_accepted_reply r
        ((u32_to_be flavor ++ opaque_bytes verifier) ++ (u32_to_be stat ++ rest))
unfolding decode_accepted_reply
Ends-accepted flavor verifier stat rest r hf hv hs p =
    Ends-bind _ _ (opaque_auth_Reads flavor verifier hf hv) (Ends-bind _ _ (word_Reads stat hs) p)

Ends-denied :
    (stat : ℕ) (rest : List ℕ) (r : Result Error (List ℕ))
    → IsU32 stat
    → Ends (denied stat) r rest
    → Ends decode_denied_reply r (u32_to_be stat ++ rest)
unfolding decode_denied_reply
Ends-denied stat rest r hs p = Ends-bind _ _ (word_Reads stat hs) p

Ends-auth_error :
    (stat : ℕ)
    → IsU32 stat
    → Ends read_auth_error (err (rpc_denied reject_auth_error stat)) (u32_to_be stat ++ [])
unfolding read_auth_error
Ends-auth_error stat h = Ends-bind _ _ (word_Reads stat h) (Ends-refuse _)

Ends-verdict :
    (flavor : ℕ) (verifier : List ℕ) (v : Verdict)
    → IsU32 flavor
    → length verifier ≤ 400
    → IsLegal v
    → Ends (from_xdr Decoder.read_u32 >>= replied) (outcome v) (verdict_bytes flavor verifier v)
Ends-verdict flavor verifier (success payload) hf hv h =
    Ends-bind _ _ (word_Reads 0 (omega arith))
      (Ends-accepted flavor verifier 0 payload _ hf hv (omega arith) (Ends-payload payload))
Ends-verdict flavor verifier (prog_mismatch low high) hf hv h =
    Ends-bind _ _ (word_Reads 0 (omega arith))
      (Ends-accepted flavor verifier 2 _ _ hf hv (omega arith) (Ends-mismatch low high h.0 h.1))
Ends-verdict flavor verifier (other_accept stat) hf hv h =
    Ends-bind _ _ (word_Reads 0 (omega arith)) (
      Ends-accepted flavor verifier stat [] _ hf hv h.0
        (rw (==-differs stat 0 h.1, ==-differs stat 2 h.2) (Ends-refuse _)))
Ends-verdict flavor verifier (rpc_mismatch_reply low high) hf hv h =
    Ends-bind _ _ (word_Reads 1 (omega arith))
      (Ends-denied 0 _ _ (omega arith) (Ends-mismatch low high h.0 h.1))
Ends-verdict flavor verifier (auth_error stat) hf hv h =
    Ends-bind _ _ (word_Reads 1 (omega arith))
      (Ends-denied 1 _ _ (omega arith) (Ends-auth_error stat h))
Ends-verdict flavor verifier (other_reject stat) hf hv h =
    Ends-bind _ _ (word_Reads 1 (omega arith)) (
      Ends-denied stat [] _ h.0 (rw (==-differs stat 0 h.1, ==-differs stat 1 h.2) (Ends-refuse _)))
Ends-verdict flavor verifier (other_state state) hf hv h =
    Ends-bind _ _ (word_Reads state h.0)
      (rw (==-differs state 0 h.1, ==-differs state 1 h.2) (Ends-refuse _))

==-same : (a : ℕ) → (a == a) ≡ true
==-same a = ground arith

-- Every reply that a server can send to the call, with any verifier of at most 400 bytes and within
-- what a slice can hold, is decoded
-- as the verdict that it carries: the payload of a success, or the error of the one other verdict.
pub decode_reply-verdict :
    (xid flavor : ℕ) (verifier : List ℕ) (v : Verdict)
    → IsU32 xid
    → IsU32 flavor
    → length verifier ≤ 400
    → IsLegal v
    → length (reply_bytes xid flavor verifier v) ≤ usize_max
    → decode_reply xid (reply_bytes xid flavor verifier v) ≡ outcome v
unfolding decode_reply decode_reply_body
decode_reply-verdict xid flavor verifier v hx hf hv h fits =
    (Ends-bind _ _ (word_Reads xid hx) (
        rw (==-same xid) (
          Ends-bind _ _ (word_Reads msg_reply (omega arith))
            (Ends-verdict flavor verifier v hf hv h)))).result
      [] fits

-- A reply to another call is reported as a mismatch, whatever follows its id.
pub decode_reply-stray :
    (xid other : ℕ) (rest : List ℕ)
    → IsU32 other
    → length (u32_to_be other ++ rest) ≤ usize_max
    → xid ≢ other
    → decode_reply xid (u32_to_be other ++ rest) ≡ err (rpc_mismatch xid other)
unfolding decode_reply decode_reply_body
decode_reply-stray xid other rest ho fits differ =
    let a : (other == xid) ≡ false = ground arith in
    (Ends-bind _ _ (word_Reads other ho) (rw a (record { result = λ pre h. refl }))).result [] fits
