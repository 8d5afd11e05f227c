-- ===== src/V4/Args.antt =====
-- src/v4/proto.rs: the argument and result structs of OPEN and LOCK, and what they are made of. Numbers,
-- texts, handles, bitmaps and stateids are kept as they are.
use nfs.Prelude.{ℕ, Bool, List, Option}

abbrev pub Bytes : Type 0
Bytes = List ℕ

-- The bytes of a struct.
abbrev pub Xdr : Type 0
Xdr = List ℕ

-- The words of a bitmap.
abbrev pub Bitmap : Type 0
Bitmap = List ℕ

pub record StateId : Type 0 where
  pub seqid : ℕ
  pub other : Bytes

pub record Fattr : Type 0 where
  pub attrmask : Bitmap
  pub attr_vals : Bytes

pub record OpenOwner : Type 0 where
  pub client_id : ℕ
  pub owner : Bytes

pub data OpenDelegationType : Type 0 where
  no_delegation read write none_ext : OpenDelegationType

pub data OpenHow : Type 0 where
  no_create : OpenHow
  unchecked : Fattr → OpenHow
  guarded : Fattr → OpenHow
  exclusive : Bytes → OpenHow
  exclusive_with_attrs : Bytes → Fattr → OpenHow

pub data OpenClaim : Type 0 where
  null : Bytes → OpenClaim
  previous : OpenDelegationType → OpenClaim
  -- delegate_stateid, file
  delegate_current : StateId → Bytes → OpenClaim
  delegate_previous : Bytes → OpenClaim
  current_file_handle : OpenClaim
  delegate_current_file_handle : StateId → OpenClaim
  delegate_previous_file_handle : OpenClaim

pub record OpenArgs : Type 0 where
  pub seqid : ℕ
  pub share_access : ℕ
  pub share_deny : ℕ
  pub owner : OpenOwner
  pub openhow : OpenHow
  pub claim : OpenClaim

pub data OpenDelegation : Type 0 where
  no_delegation : OpenDelegation
  -- stateid, recall, permissions
  read : StateId → Bool → Xdr → OpenDelegation
  -- stateid, recall, space_limit, permissions
  write : StateId → Bool → Xdr → Xdr → OpenDelegation
  -- why, server_will_push_deleg, server_will_signal_avail
  none_ext : ℕ → Option Bool → Option Bool → OpenDelegation

pub record OpenResult : Type 0 where
  pub stateid : StateId
  pub result_flags : ℕ
  pub attrset : Bitmap
  pub delegation : OpenDelegation

pub data LockType : Type 0 where
  read write read_blocking write_blocking : LockType

pub record LockOwner : Type 0 where
  pub client_id : ℕ
  pub owner : Bytes

pub record LockTestArgs : Type 0 where
  pub lock_type : LockType
  pub offset : ℕ
  pub range_length : ℕ
  pub owner : LockOwner

pub record LockUnlockArgs : Type 0 where
  pub lock_type : LockType
  pub seqid : ℕ
  pub lock_stateid : StateId
  pub offset : ℕ
  pub range_length : ℕ

pub data Locker : Type 0 where
  -- open_seqid, open_stateid, lock_seqid, lock_owner
  new : ℕ → StateId → ℕ → LockOwner → Locker
  -- lock_stateid, lock_seqid
  existing : StateId → ℕ → Locker

pub record LockArgs : Type 0 where
  pub lock_type : LockType
  pub reclaim : Bool
  pub offset : ℕ
  pub range_length : ℕ
  pub locker : Locker

pub record ChannelAttrs : Type 0 where
  pub header_pad_size : ℕ
  pub max_request_size : ℕ
  pub max_response_size : ℕ
  pub max_response_size_cached : ℕ
  pub max_operations : ℕ
  pub max_requests : ℕ
  pub rdma_ird : List ℕ
