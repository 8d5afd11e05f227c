-- ===== src/Rpc.antt =====
-- src/rpc.rs: ONC RPC over a TCP stream. This file has the constants; the children are the
-- credentials, the record layer, the replies and the client, each with its proofs.
pub mod Auth
pub mod Gids
pub mod MachineName
pub mod Credential
pub mod Stream
pub mod Record
pub mod Framing
pub mod Limits
pub mod Fragments
pub mod Reply
pub mod Replies
pub mod Message
pub mod Client
pub mod Calls
pub mod Answers
pub mod Runs
use nfs.Prelude.{ℕ, ◌-◌, ◌*◌, ◌^◌}

abbrev pub rpc_version : ℕ
rpc_version = 2

abbrev pub auth_none : ℕ
auth_none = 0

abbrev pub auth_sys : ℕ
auth_sys = 1

abbrev pub auth_sys_machine_name_max : ℕ
auth_sys_machine_name_max = 255

abbrev pub auth_sys_max_groups : ℕ
auth_sys_max_groups = 16

abbrev pub msg_call : ℕ
msg_call = 0

abbrev pub msg_reply : ℕ
msg_reply = 1

abbrev pub reply_accepted : ℕ
reply_accepted = 0

abbrev pub reply_denied : ℕ
reply_denied = 1

abbrev pub accept_success : ℕ
accept_success = 0

abbrev pub accept_prog_mismatch : ℕ
accept_prog_mismatch = 2

abbrev pub reject_rpc_mismatch : ℕ
reject_rpc_mismatch = 0

abbrev pub reject_auth_error : ℕ
reject_auth_error = 1

-- 0x8000_0000 and 0x7fff_ffff
abbrev pub last_fragment : ℕ
last_fragment = 2 ^ 31

abbrev pub fragment_len_mask : ℕ
fragment_len_mask = 2 ^ 31 - 1

abbrev pub default_max_record_size : ℕ
default_max_record_size = 64 * 1024 * 1024

abbrev pub max_record_headroom : ℕ
max_record_headroom = 1024 * 1024
