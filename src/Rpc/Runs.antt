-- ===== src/Rpc/Runs.antt =====
-- Runs of the ONC RPC layer on small inputs: a call with a two-fragment reply, and its parts.
use nfs.Prelude.{
  ℕ, zero, suc, ◌+◌, ◌-◌, ◌^◌, ◌≤◌, ◌<◌, ◌≡◌, ◌≢◌, refl, Bool, true, false, List, [], ◌∷◌, ◌++◌,
  arith, length, take, drop, replicate,
}
use nfs.Prelude.Outcome.{ok, err}
use nfs.Xdr.Words.{u32_to_be}
use nfs.Xdr
use nfs.Xdr.Utf8
use nfs.Xdr.Encoder
use nfs.Xdr.Encoder.{u32_encode}
use nfs.Error
use nfs.Prelude.Exec.{pure, raise}
use nfs.Error.{Error, IoErrorKind, protocol, rpc_connection_invalid, rpc_mismatch}
use nfs.Rpc.Auth
use nfs.Rpc.Auth.{AuthSys, Auth, normalize_auxiliary_gids}
use nfs.Rpc.Gids.{
  normalize_auxiliary_gids-IsNormalized, normalize_auxiliary_gids-distinct, IsNormalized, distinct,
}
use nfs.Rpc.MachineName.{normalize_machine_name-valid, normalized_machine_name_len-longest}
use nfs.Rpc.Credential.{Fits, encode_opaque_auth-Fits}
use nfs.Rpc.Message
use nfs.Rpc.Message.{encode_call}
use nfs.Rpc.Stream
use nfs.Rpc.Stream.{Stream}
use nfs.Rpc.Record
use nfs.Rpc.Record.{read_record, write_record, read_fragments}
use nfs.Rpc.Framing.{read_fragments-fuel}
use nfs.Rpc.Fragments.{frames, joined, read_record-frames}
use nfs.Rpc.Limits.{read_record-le-max_record_size}
use nfs.Rpc.Reply.{decode_reply}
use nfs.Rpc.Replies.{Verdict, reply_bytes, outcome, decode_reply-verdict}
use nfs.Rpc.Client
use nfs.Rpc.Client.{RpcClient, following, call}
use nfs.Rpc.Calls.{is_unknown, call-interrupted, call-after_unknown}
use nfs.Rpc.Answers.{Answered, answered, nth_xid, call-answered, nth_xid-distinct}

abbrev silent_stream : List ℕ → Stream
silent_stream bytes = record {
  incoming = bytes;
  outgoing = [];
  room = 1000;
  read_failure = IoErrorKind.timed_out;
  write_failure = IoErrorKind.broken_pipe;
}

abbrev payload : List ℕ
payload = 1 ∷ 2 ∷ 3 ∷ 4 ∷ []

-- The reply to the call with the id 7, in two fragments, before one more byte.
abbrev reply_start : List ℕ
reply_start = 0 ∷ 0 ∷ 0 ∷ 7 ∷ 0 ∷ 0 ∷ 0 ∷ 1 ∷ 0 ∷ 0 ∷ []

abbrev reply_end : List ℕ
reply_end = 0 ∷ 0 ∷ 0 ∷ 0 ∷ 0 ∷ 0 ∷ 0 ∷ 0 ∷ 0 ∷ 0 ∷ 0 ∷ 0 ∷ 0 ∷ 0 ∷ payload

abbrev client_with : List ℕ → RpcClient
client_with bytes = record {
  stream = silent_stream bytes;
  xid = 6;
  auth = Auth.none;
  max_record_size = 64;
  interrupted = false;
}

abbrev replied_client : RpcClient
replied_client = client_with (frames (reply_start ∷ []) reply_end ++ (9 ∷ []))

abbrev request : List ℕ
request =
    u32_to_be 7
    ++ (u32_to_be 0
        ++ (u32_to_be 2
            ++ (u32_to_be 100003
                ++ (u32_to_be 3
                    ++ (u32_to_be 1
                        ++ (u32_to_be 0
                            ++ (u32_to_be 0 ++ (u32_to_be 0 ++ (u32_to_be 0 ++ u32_to_be 5)))))))))

two_fragments : Answered replied_client request (Verdict.success payload) (9 ∷ [])
unfolding u32_to_be Xdr.padding_len
two_fragments = record {
  flavor = 0;
  verifier = [];
  parts = reply_start ∷ [];
  final = reply_end;
  small_request = omega arith;
  room = omega arith;
  incoming = refl;
  parts_IsPart = ((omega arith, omega arith), tt);
  small_final = omega arith;
  reply = refl;
  within_limit = omega arith;
  limit_usize = omega arith;
  flavor_IsU32 = omega arith;
  small_verifier = omega arith;
  legal = tt;
}

abbrev args : ℕ
args = 5

request_encoded : encode_call 7 100003 3 1 Auth.none args ≡ ok request
unfolding encode_call Message.write_call Message.write_head Auth.encode_opaque_auth
    Encoder.write_u32 Encoder.write_opaque Encoder.write_len Encoder.write_fixed_opaque
    Encoder.write_padding Xdr.checked_u32_len Xdr.padding_len u32_to_be
request_encoded = refl

timed_out_call : is_unknown (call 100003 3 1 args (client_with [])).0 ≡ true
unfolding call encode_call Message.write_call Message.write_head Auth.encode_opaque_auth
    Encoder.write_u32 Encoder.write_opaque Encoder.write_len Encoder.write_fixed_opaque
    Encoder.write_padding Xdr.checked_u32_len Xdr.padding_len u32_to_be Client.next_xid
    Client.exchange write_record Stream.write_all Stream.read_exact read_record read_fragments
    Record.read_fragment Error.is_outcome_unknown
timed_out_call = refl

call-answered_example :
    call 100003 3 1 args replied_client ≡ (ok payload, answered replied_client request (9 ∷ []))
call-answered_example =
    call-answered 100003 3 1 args replied_client request (Verdict.success payload) (9 ∷ []) refl
      request_encoded two_fragments

call-interrupted_example :
    (call 100003 3 1 args (client_with [])).1.interrupted
    ≡ is_unknown (call 100003 3 1 args (client_with [])).0
call-interrupted_example = call-interrupted 100003 3 1 args (client_with []) refl

call-after_unknown_example :
    call 100003 3 2 args (call 100003 3 1 args (client_with [])).1
    ≡ (err rpc_connection_invalid, (call 100003 3 1 args (client_with [])).1)
call-after_unknown_example =
    call-after_unknown 100003 3 1 args 100003 3 2 args (client_with []) refl timed_out_call

read_record-frames_example :
    read_record 64 (silent_stream (frames (reply_start ∷ []) reply_end ++ (9 ∷ [])))
    ≡ (ok (joined (reply_start ∷ []) reply_end), silent_stream (9 ∷ []))
read_record-frames_example =
    read_record-frames 64 (silent_stream (frames (reply_start ∷ []) reply_end ++ (9 ∷ [])))
      (reply_start ∷ []) reply_end (9 ∷ []) refl ((omega arith, omega arith), tt) (omega arith)
      (omega arith) (omega arith)

read_fragments-fuel_example :
    read_fragments (raise (protocol "no fuel")) 7 64 [] (silent_stream (128 ∷ 0 ∷ 0 ∷ 1 ∷ 5 ∷ []))
    ≡ read_fragments (pure []) 6 64 [] (silent_stream (128 ∷ 0 ∷ 0 ∷ 1 ∷ 5 ∷ []))
read_fragments-fuel_example =
    read_fragments-fuel (raise (protocol "no fuel")) (pure []) 7 6 64 []
      (silent_stream (128 ∷ 0 ∷ 0 ∷ 1 ∷ 5 ∷ [])) (omega arith) (omega arith)

two_fragment_record :
    (read_record 64 (silent_stream (frames (reply_start ∷ []) reply_end ++ (9 ∷ [])))).0
    ≡ ok (joined (reply_start ∷ []) reply_end)
two_fragment_record =
    nfs.Prelude.ap (λ p. p.0)
      (read_record-frames 64 (silent_stream (frames (reply_start ∷ []) reply_end ++ (9 ∷ [])))
        (reply_start ∷ []) reply_end (9 ∷ []) refl ((omega arith, omega arith), tt) (omega arith)
        (omega arith) (omega arith))

read_record-le-max_record_size_example : length (joined (reply_start ∷ []) reply_end) ≤ 64
read_record-le-max_record_size_example =
    read_record-le-max_record_size 64
      (silent_stream (frames (reply_start ∷ []) reply_end ++ (9 ∷ [])))
      (joined (reply_start ∷ []) reply_end) two_fragment_record

decode_reply-verdict_example :
    decode_reply 7 (reply_bytes 7 0 [] (Verdict.prog_mismatch 3 4))
    ≡ outcome (Verdict.prog_mismatch 3 4)
unfolding u32_to_be Xdr.padding_len
decode_reply-verdict_example =
    decode_reply-verdict 7 0 [] (Verdict.prog_mismatch 3 4) (omega arith) (omega arith)
      (omega arith) (omega arith, omega arith) (omega arith)

nth_xid-distinct_example :
    (0 < nth_xid 1 (2 ^ 32 - 1)) × (nth_xid 1 (2 ^ 32 - 1) ≢ nth_xid 3 (2 ^ 32 - 1))
nth_xid-distinct_example =
    nth_xid-distinct (2 ^ 32 - 1) 0 2 (omega arith) (omega arith) (omega arith)

abbrev credential : AuthSys
credential = record {
  stamp = 1;
  machine_name = replicate 300 97;
  uid = 1000;
  gid = 100;
  gids = 100 ∷ 4 ∷ 4 ∷ 27 ∷ [];
}

encode_opaque_auth-Fits_example : Fits (Auth.encode_opaque_auth (Auth.sys credential)) 411
encode_opaque_auth-Fits_example = encode_opaque_auth-Fits (Auth.sys credential)

normalize_auxiliary_gids-IsNormalized_example :
    IsNormalized 100 (normalize_auxiliary_gids 100 (100 ∷ 4 ∷ 4 ∷ 27 ∷ []))
normalize_auxiliary_gids-IsNormalized_example =
    normalize_auxiliary_gids-IsNormalized 100 (100 ∷ 4 ∷ 4 ∷ 27 ∷ [])

normalize_auxiliary_gids-distinct_example :
    normalize_auxiliary_gids 100 (100 ∷ 4 ∷ 4 ∷ 27 ∷ [])
    ≡ take 16 (distinct 100 (100 ∷ 4 ∷ 4 ∷ 27 ∷ []) [])
normalize_auxiliary_gids-distinct_example =
    normalize_auxiliary_gids-distinct 100 (100 ∷ 4 ∷ 4 ∷ 27 ∷ [])

abbrev host : List ℕ
host = 104 ∷ 195 ∷ 169 ∷ []

host-valid : Utf8.is_utf8 host ≡ true
unfolding Utf8.is_utf8
host-valid = refl

normalize_machine_name-valid_example :
    (length (Auth.normalize_machine_name host) ≤ 255)
    × (Utf8.is_utf8 (Auth.normalize_machine_name host) ≡ true)
normalize_machine_name-valid_example = normalize_machine_name-valid host host-valid

host-boundary : Utf8.is_char_boundary host 1 ≡ true
unfolding Utf8.is_char_boundary
host-boundary = refl

normalized_machine_name_len-longest_example : 1 ≤ Auth.normalized_machine_name_len host
normalized_machine_name_len-longest_example =
    normalized_machine_name_len-longest host 1 (omega arith) (omega arith) host-boundary
