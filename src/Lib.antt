-- ===== src/Lib.antt =====
-- A verification library for nfs, an NFSv3 and NFSv4 client: the models of its protocol core, and what
-- is proved of them.
--
-- The program. A call of the client is encoded by the XDR layer (src/xdr), put into an ONC RPC message
-- and a record of a TCP stream (src/rpc.rs), and its reply is taken apart the same way. On top of it,
-- NFSv4 sends its operations in a COMPOUND, within a session that may be lost and made again
-- (src/v4/client.rs, src/v4/blocking.rs). Errors are classified in src/error.rs, and src/retry.rs says
-- how long a delayed request waits.
--
-- The files.
--   Prelude      Boolean tests, lists over the native numbers, results, actions on a state (Exec), and
--                what they keep of it (Moves)
--   Xdr          src/xdr/mod.rs and error.rs; Encoder and Decoder are encode.rs and decode.rs, Words the
--                `to_be_bytes` of integers, Utf8 the validity of a `str`; Bounds, Wire, Reading and
--                RoundTrip have the proofs
--   Retry        `RetryPolicy` of src/retry.rs; Backoff has the proofs
--   Error        src/error.rs; Classes has the proofs
--   Rpc          src/rpc.rs: Auth the credentials, Stream what is used of `TcpStream`, Record
--                `write_record` and `read_record`, Reply `decode_reply`, Message `encode_call`, Client
--                `RpcClient`; Gids, MachineName and Credential are about credentials, Framing, Fragments
--                and Limits about records, Replies about replies, Calls and Answers about the client
--   V4           src/v4. Status, OpCode, Args, Transfer, Operation and Response are types of proto.rs;
--                Replay, Policy, Shape, Locks and Extract are client.rs, Paths and Paging the paths and
--                pages of client.rs with the methods of blocking.rs that use them. Of blocking.rs, Setup
--                connects and makes a session (its Options are mod.rs), Session is the loop of
--                `Client::compound_status`, Recovery is `Client::recover_session`, its child Revoked
--                `check_revoked_locks`, and its child Rebuild joins the loop and the recovery to one
--                client; Calls are methods of one COMPOUND, Files the reading and writing of open files,
--                Opening their closing, and its children Opens their opening and Locking byte-range locks.
--                The other modules have the proofs.
--   V3           the status codes of src/v3/proto.rs and src/v3/mount.rs
-- The modules called Runs apply the theorems to small inputs.
--
-- The modelling. A byte, and an unsigned integer, is a natural number, with the wrap-around of the
-- source written out; `usize` has 64 bits. A method with `&mut self` is a function from a state to a
-- result and a state. A text is its bytes, and a message of an error is the format string. An
-- `Arc<Mutex<LockState>>` is an index of a heap. The exchange of one COMPOUND with the server and the
-- connecting are parameters; the client keeps a log of the COMPOUNDs that it sent. A sleep is left out.
--
-- Fuel. `read_record` takes one more than the bytes that the peer will deliver, since every round that
-- goes on takes four of them. The loop of `compound_status` takes max_retries + 2: a round is a first attempt, a granted
-- retry, or follows the one recovery; so do those of OPEN and CLOSE. The other loops over delayed
-- COMPOUNDs take max_retries. Reading a file to its end takes 2^64, as each round moves a 64-bit offset
-- on; reading a range and writing take the number of bytes, as each round moves at least one; listing a
-- directory takes the limit of entries and one more, as each page but the last has an entry.
--
-- Not modelled. The asynchronous clients (src/tokio_rpc.rs, src/v3/tokio.rs, src/v4/tokio.rs) repeat the
-- blocking ones over another runtime. Lease renewal (src/v4/lease.rs) is a thread with a timer; its
-- failure is a flag of the session, its start and its stop are parameters of the recovery. Connecting a
-- socket and reading the identity of the process are the operating system's. The codecs of the NFSv3 and
-- NFSv4 structs, the NFSv3 client, and the NFSv4 methods that copy files, allocate space, ask for layouts
-- or use named attributes are left out; the argument structs that the client only passes on stand as the
-- bytes of their encoding.
pub mod Prelude
pub mod Xdr
pub mod Retry
pub mod Error
pub mod Rpc
pub mod V4
pub mod V3
