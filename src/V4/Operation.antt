-- ===== src/V4/Operation.antt =====
-- src/v4/proto.rs, `Operation`: the requests of a COMPOUND. Numbers, texts, handles, bitmaps and
-- stateids are kept as they are; an argument struct that the client's policies never look into
-- (`Xdr`) is the bytes that its `encode` writes.
use nfs.Prelude.{ℕ, Bool, ◌&&◌, List, ◌==◌, length, all}
use nfs.V4.OpCode.{OpCode}
use nfs.V4.Args.{Fattr, OpenArgs, LockArgs, LockTestArgs, LockUnlockArgs, LockOwner}
use nfs.V4.Transfer.{StableHow, ExchangeIdArgs, CreateSessionArgs}
pub use nfs.V4.Args.{Bytes, Xdr, Bitmap, StateId}

-- `self == Self::anonymous()`: the twelve bytes are zero, and the sequence number.
unfoldable pub is_anonymous : StateId → Bool
is_anonymous stateid =
    stateid.seqid == 0 && (length stateid.other == 12 && all (λ byte. byte == 0) stateid.other)

pub record SequenceArgs : Type 0 where
  pub session_id : Bytes
  pub sequence_id : ℕ
  pub slot_id : ℕ
  pub highest_slot_id : ℕ
  pub cache_this : Bool

pub data Operation : Type 0 where
  set_client_id : Xdr → Operation
  set_client_id_confirm : Xdr → Operation
  exchange_id : ExchangeIdArgs → Operation
  create_session : CreateSessionArgs → Operation
  backchannel_ctl : Xdr → Operation
  bind_conn_to_session : Xdr → Operation
  destroy_session : Bytes → Operation
  destroy_client_id : ℕ → Operation
  reclaim_complete : Bool → Operation
  sequence : SequenceArgs → Operation
  put_fh : Bytes → Operation
  lookup : Bytes → Operation
  access : ℕ → Operation
  sec_info : Bytes → Operation
  sec_info_no_name : Xdr → Operation
  deleg_purge : ℕ → Operation
  deleg_return : StateId → Operation
  nverify : Fattr → Operation
  open_file : OpenArgs → Operation
  open_attr : Bool → Operation
  -- stateid, seqid
  open_confirm : StateId → ℕ → Operation
  -- seqid, stateid
  close : ℕ → StateId → Operation
  lock : LockArgs → Operation
  lock_test : LockTestArgs → Operation
  lock_unlock : LockUnlockArgs → Operation
  -- seqid, stateid, share_access, share_deny
  open_downgrade : ℕ → StateId → ℕ → ℕ → Operation
  free_state_id : StateId → Operation
  test_state_ids : List StateId → Operation
  get_dir_delegation : Xdr → Operation
  get_device_info : Xdr → Operation
  get_device_list : Xdr → Operation
  layout_commit : Xdr → Operation
  layout_get : Xdr → Operation
  layout_return : Xdr → Operation
  set_ssv : Xdr → Operation
  want_delegation : Xdr → Operation
  get_attr : Bitmap → Operation
  -- stateid, attrs
  set_attr : StateId → Fattr → Operation
  -- stateid, offset, count
  read : StateId → ℕ → ℕ → Operation
  -- stateid, offset, stable, data
  write : StateId → ℕ → StableHow → Bytes → Operation
  -- stateid, offset, length
  allocate : StateId → ℕ → ℕ → Operation
  -- stateid, offset, length
  deallocate : StateId → ℕ → ℕ → Operation
  io_advise : Xdr → Operation
  copy : Xdr → Operation
  copy_notify : Xdr → Operation
  layout_error : Xdr → Operation
  layout_stats : Xdr → Operation
  offload_cancel : StateId → Operation
  offload_status : StateId → Operation
  read_plus : Xdr → Operation
  -- stateid, offset, what
  seek : StateId → ℕ → Xdr → Operation
  clone : Xdr → Operation
  write_same : Xdr → Operation
  -- offset, count
  commit : ℕ → ℕ → Operation
  renew : ℕ → Operation
  -- cookie, cookieverf, dircount, maxcount, attr_request
  read_dir : ℕ → Bytes → ℕ → ℕ → Bitmap → Operation
  remove : Bytes → Operation
  link : Bytes → Operation
  -- oldname, newname
  rename : Bytes → Bytes → Operation
  verify : Fattr → Operation
  release_lock_owner : LockOwner → Operation
  create : Xdr → Operation
  put_root_fh put_pub_fh lookupp get_fh read_link save_fh restore_fh : Operation

unfoldable pub op_code : Operation → OpCode
op_code (set_client_id _) = OpCode.set_client_id
op_code (set_client_id_confirm _) = OpCode.set_client_id_confirm
op_code (exchange_id _) = OpCode.exchange_id
op_code (create_session _) = OpCode.create_session
op_code (backchannel_ctl _) = OpCode.backchannel_ctl
op_code (bind_conn_to_session _) = OpCode.bind_conn_to_session
op_code (destroy_session _) = OpCode.destroy_session
op_code (destroy_client_id _) = OpCode.destroy_client_id
op_code (reclaim_complete _) = OpCode.reclaim_complete
op_code (sequence _) = OpCode.sequence
op_code put_root_fh = OpCode.put_root_fh
op_code put_pub_fh = OpCode.put_pub_fh
op_code (put_fh _) = OpCode.put_fh
op_code (lookup _) = OpCode.lookup
op_code lookupp = OpCode.lookupp
op_code (access _) = OpCode.access
op_code (sec_info _) = OpCode.sec_info
op_code (sec_info_no_name _) = OpCode.sec_info_no_name
op_code (deleg_purge _) = OpCode.deleg_purge
op_code (deleg_return _) = OpCode.deleg_return
op_code (nverify _) = OpCode.nverify
op_code (open_file _) = OpCode.open_file
op_code (open_attr _) = OpCode.open_attr
op_code (open_confirm _ _) = OpCode.open_confirm
op_code (close _ _) = OpCode.close
op_code (lock _) = OpCode.lock
op_code (lock_test _) = OpCode.lockt
op_code (lock_unlock _) = OpCode.locku
op_code (open_downgrade _ _ _ _) = OpCode.open_downgrade
op_code (free_state_id _) = OpCode.free_state_id
op_code (test_state_ids _) = OpCode.test_state_id
op_code (get_dir_delegation _) = OpCode.get_dir_delegation
op_code (get_device_info _) = OpCode.get_device_info
op_code (get_device_list _) = OpCode.get_device_list
op_code (layout_commit _) = OpCode.layout_commit
op_code (layout_get _) = OpCode.layout_get
op_code (layout_return _) = OpCode.layout_return
op_code (set_ssv _) = OpCode.set_ssv
op_code (want_delegation _) = OpCode.want_delegation
op_code get_fh = OpCode.get_fh
op_code (get_attr _) = OpCode.get_attr
op_code (set_attr _ _) = OpCode.set_attr
op_code (read _ _ _) = OpCode.read
op_code (write _ _ _ _) = OpCode.write
op_code (allocate _ _ _) = OpCode.allocate
op_code (deallocate _ _ _) = OpCode.deallocate
op_code (io_advise _) = OpCode.io_advise
op_code (copy _) = OpCode.copy
op_code (copy_notify _) = OpCode.copy_notify
op_code (layout_error _) = OpCode.layout_error
op_code (layout_stats _) = OpCode.layout_stats
op_code (offload_cancel _) = OpCode.offload_cancel
op_code (offload_status _) = OpCode.offload_status
op_code (read_plus _) = OpCode.read_plus
op_code (seek _ _ _) = OpCode.seek
op_code (clone _) = OpCode.clone
op_code (write_same _) = OpCode.write_same
op_code (commit _ _) = OpCode.commit
op_code (renew _) = OpCode.renew
op_code (read_dir _ _ _ _ _) = OpCode.read_dir
op_code read_link = OpCode.read_link
op_code (remove _) = OpCode.remove
op_code (link _) = OpCode.link
op_code (rename _ _) = OpCode.rename
op_code (verify _) = OpCode.verify
op_code (release_lock_owner _) = OpCode.release_lock_owner
op_code (create _) = OpCode.create
op_code save_fh = OpCode.save_fh
op_code restore_fh = OpCode.restore_fh
