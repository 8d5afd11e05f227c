-- ===== src/Error.antt =====
-- src/error.rs: the crate's error type and its classifiers. A message of `Protocol` is the format
-- string of the source, without the values that are put in; a path or a target is its bytes; an
-- I/O error is its kind.
pub mod Classes
pub mod Runs
use nfs.Prelude.{ℕ, String, Bool, true, false, ◌||◌, List}
use nfs.Xdr
use nfs.V3.NfsStatus.{NfsStatus}
use nfs.V3.MountStatus.{MountStatus}
use nfs.V4.Status
use nfs.V4.Status.{Status}

-- `std::io::ErrorKind`, as far as the source tells kinds apart.
pub data IoErrorKind : Type 0 where
  not_found permission_denied already_exists interrupted timed_out would_block : IoErrorKind
  unexpected_eof connection_aborted connection_reset connection_refused : IoErrorKind
  broken_pipe not_connected invalid_input other_kind : IoErrorKind

pub data Error : Type 0 where
  io : IoErrorKind → Error
  xdr : Xdr.Error → Error
  invalid_target : List ℕ → Error
  invalid_path : List ℕ → Error
  -- name, max
  name_too_long : List ℕ → ℕ → Error
  length_out_of_range : ℕ → Error
  protocol : String → Error
  rpc_connection_invalid : Error
  outcome_unknown : Error → Error
  lock_lost : Status → Error
  -- context, primary, cleanup
  cleanup : String → Error → Error → Error
  -- expected, actual
  rpc_mismatch : ℕ → ℕ → Error
  rpc_unexpected_message_type : ℕ → Error
  -- reject_stat, detail
  rpc_denied : ℕ → ℕ → Error
  rpc_accepted_error : ℕ → Error
  -- low, high
  rpc_program_mismatch : ℕ → ℕ → Error
  -- len, max
  rpc_record_too_large : ℕ → ℕ → Error
  -- program, version
  port_unavailable : ℕ → ℕ → Error
  mount : MountStatus → Error
  nfs_v3 : String → NfsStatus → Error
  nfs_v4 : String → Status → Error

unfoldable pub is_retryable_io_error : IoErrorKind → Bool
is_retryable_io_error interrupted = true
is_retryable_io_error timed_out = true
is_retryable_io_error would_block = true
is_retryable_io_error unexpected_eof = true
is_retryable_io_error connection_aborted = true
is_retryable_io_error connection_reset = true
is_retryable_io_error connection_refused = true
is_retryable_io_error broken_pipe = true
is_retryable_io_error not_connected = true
is_retryable_io_error _ = false

unfoldable pub is_outcome_unknown : Error → Bool
is_outcome_unknown (outcome_unknown e) = true
is_outcome_unknown (cleanup context primary failed) = is_outcome_unknown primary
is_outcome_unknown _ = false

unfoldable pub is_transport_failure : Error → Bool
is_transport_failure rpc_connection_invalid = true
is_transport_failure (io kind) = is_retryable_io_error kind
is_transport_failure (outcome_unknown e) = is_transport_failure e
is_transport_failure _ = false

unfoldable pub is_not_found : Error → Bool
is_not_found (cleanup context primary failed) = is_not_found primary
is_not_found (io not_found) = true
is_not_found (mount MountStatus.no_ent) = true
is_not_found (nfs_v3 procedure NfsStatus.no_ent) = true
is_not_found (nfs_v4 operation Status.no_ent) = true
is_not_found _ = false

unfoldable pub is_permission_denied : Error → Bool
is_permission_denied (cleanup context primary failed) = is_permission_denied primary
is_permission_denied (io permission_denied) = true
is_permission_denied (mount MountStatus.perm) = true
is_permission_denied (mount MountStatus.access) = true
is_permission_denied (nfs_v3 procedure NfsStatus.perm) = true
is_permission_denied (nfs_v3 procedure NfsStatus.access) = true
is_permission_denied (nfs_v4 operation Status.perm) = true
is_permission_denied (nfs_v4 operation Status.access) = true
is_permission_denied (nfs_v4 operation Status.partner_no_auth) = true
is_permission_denied (nfs_v4 operation Status.wrong_cred) = true
is_permission_denied (nfs_v4 operation Status.wrong_sec) = true
is_permission_denied _ = false

unfoldable pub is_retryable : Error → Bool
is_retryable (cleanup context primary failed) = is_retryable primary
is_retryable (io kind) = is_retryable_io_error kind
is_retryable (nfs_v3 procedure NfsStatus.jukebox) = true
is_retryable (nfs_v4 operation status) = Status.is_retryable status
is_retryable _ = false

unfoldable pub requires_session_recovery : Error → Bool
requires_session_recovery (cleanup context primary failed) =
    requires_session_recovery primary || requires_session_recovery failed
requires_session_recovery (nfs_v4 operation status) = Status.requires_session_recovery status
requires_session_recovery _ = false

unfoldable pub is_no_space : Error → Bool
is_no_space (cleanup context primary failed) = is_no_space primary
is_no_space (nfs_v3 procedure NfsStatus.no_spc) = true
is_no_space (nfs_v3 procedure NfsStatus.dquot) = true
is_no_space (nfs_v4 operation Status.no_spc) = true
is_no_space (nfs_v4 operation Status.dquot) = true
is_no_space _ = false

unfoldable pub is_read_only : Error → Bool
is_read_only (cleanup context primary failed) = is_read_only primary
is_read_only (nfs_v3 procedure NfsStatus.read_only_fs) = true
is_read_only (nfs_v4 operation Status.read_only_fs) = true
is_read_only _ = false

unfoldable pub is_stale_handle : Error → Bool
is_stale_handle (cleanup context primary failed) = is_stale_handle primary
is_stale_handle (nfs_v3 procedure NfsStatus.stale) = true
is_stale_handle (nfs_v3 procedure NfsStatus.bad_handle) = true
is_stale_handle (nfs_v4 operation Status.stale) = true
is_stale_handle (nfs_v4 operation Status.bad_handle) = true
is_stale_handle (nfs_v4 operation Status.fh_expired) = true
is_stale_handle _ = false

unfoldable pub is_lost_state : Error → Bool
is_lost_state (lock_lost status) = true
is_lost_state (cleanup context primary failed) = is_lost_state primary || is_lost_state failed
is_lost_state (nfs_v4 operation status) = Status.indicates_lost_state status
is_lost_state _ = false

unfoldable pub is_session_recoverable : Error → Bool
is_session_recoverable (cleanup context primary failed) =
    is_session_recoverable primary || is_session_recoverable failed
is_session_recoverable (nfs_v4 operation status) = Status.requires_session_recovery status
is_session_recoverable _ = false

unfoldable pub is_already_exists : Error → Bool
is_already_exists (cleanup context primary failed) = is_already_exists primary
is_already_exists (io already_exists) = true
is_already_exists (nfs_v3 procedure NfsStatus.exist) = true
is_already_exists (nfs_v4 operation Status.exist) = true
is_already_exists _ = false
