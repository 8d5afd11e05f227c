-- ===== src/V4/Replay.antt =====
-- src/v4/client.rs: which operations the client may send again, and which give state up.
use nfs.Prelude.{Bool, true, false, not, ◌&&◌, List, [], ◌∷◌, all}
use nfs.V4.Operation
use nfs.V4.Operation.{Operation, StateId, Bytes, Xdr}
use nfs.V4.Operation.{
  set_client_id, set_client_id_confirm, exchange_id, create_session, backchannel_ctl,
  bind_conn_to_session, destroy_session, destroy_client_id, reclaim_complete, sequence, put_root_fh,
  put_pub_fh, put_fh, lookup, lookupp, access, sec_info, sec_info_no_name, deleg_purge,
  deleg_return, nverify, open_file, open_attr, open_confirm, close, lock, lock_test, lock_unlock,
  open_downgrade, free_state_id, test_state_ids, get_dir_delegation, get_device_info,
  get_device_list, layout_commit, layout_get, layout_return, set_ssv, want_delegation, get_fh,
  get_attr, set_attr, read, write, allocate, deallocate, io_advise, copy, copy_notify, layout_error,
  layout_stats, offload_cancel, offload_status, read_plus, seek, clone, write_same, commit, renew,
  read_dir, read_link, remove, link, rename, verify, release_lock_owner, create, save_fh,
  restore_fh,
}

unfoldable pub operation_can_replay_after_session_recovery : Operation → Bool
operation_can_replay_after_session_recovery (set_client_id _) = false
operation_can_replay_after_session_recovery (set_client_id_confirm _) = false
operation_can_replay_after_session_recovery (exchange_id _) = false
operation_can_replay_after_session_recovery (create_session _) = false
operation_can_replay_after_session_recovery (backchannel_ctl _) = false
operation_can_replay_after_session_recovery (bind_conn_to_session _) = false
operation_can_replay_after_session_recovery (destroy_session _) = false
operation_can_replay_after_session_recovery (destroy_client_id _) = false
operation_can_replay_after_session_recovery (reclaim_complete _) = false
operation_can_replay_after_session_recovery (sequence _) = false
operation_can_replay_after_session_recovery put_root_fh = true
operation_can_replay_after_session_recovery put_pub_fh = true
operation_can_replay_after_session_recovery (put_fh _) = true
operation_can_replay_after_session_recovery (lookup _) = true
operation_can_replay_after_session_recovery lookupp = true
operation_can_replay_after_session_recovery (access _) = true
operation_can_replay_after_session_recovery (sec_info _) = true
operation_can_replay_after_session_recovery (sec_info_no_name _) = true
operation_can_replay_after_session_recovery (deleg_purge _) = false
operation_can_replay_after_session_recovery (deleg_return _) = false
operation_can_replay_after_session_recovery (nverify _) = true
operation_can_replay_after_session_recovery (open_file _) = false
operation_can_replay_after_session_recovery (open_attr _) = false
operation_can_replay_after_session_recovery (open_confirm _ _) = false
operation_can_replay_after_session_recovery (close _ _) = false
operation_can_replay_after_session_recovery (lock _) = false
operation_can_replay_after_session_recovery (lock_test _) = false
operation_can_replay_after_session_recovery (lock_unlock _) = false
operation_can_replay_after_session_recovery (open_downgrade _ _ _ _) = false
operation_can_replay_after_session_recovery (free_state_id _) = false
operation_can_replay_after_session_recovery (test_state_ids _) = true
operation_can_replay_after_session_recovery (get_dir_delegation _) = false
operation_can_replay_after_session_recovery (get_device_info _) = false
operation_can_replay_after_session_recovery (get_device_list _) = false
operation_can_replay_after_session_recovery (layout_commit _) = false
operation_can_replay_after_session_recovery (layout_get _) = false
operation_can_replay_after_session_recovery (layout_return _) = false
operation_can_replay_after_session_recovery (set_ssv _) = false
operation_can_replay_after_session_recovery (want_delegation _) = false
operation_can_replay_after_session_recovery get_fh = true
operation_can_replay_after_session_recovery (get_attr _) = true
operation_can_replay_after_session_recovery (set_attr _ _) = false
operation_can_replay_after_session_recovery (read stateid offset count) =
    Operation.is_anonymous stateid
operation_can_replay_after_session_recovery (write _ _ _ _) = false
operation_can_replay_after_session_recovery (allocate _ _ _) = false
operation_can_replay_after_session_recovery (deallocate _ _ _) = false
operation_can_replay_after_session_recovery (io_advise _) = false
operation_can_replay_after_session_recovery (copy _) = false
operation_can_replay_after_session_recovery (copy_notify _) = false
operation_can_replay_after_session_recovery (layout_error _) = false
operation_can_replay_after_session_recovery (layout_stats _) = false
operation_can_replay_after_session_recovery (offload_cancel _) = false
operation_can_replay_after_session_recovery (offload_status _) = false
operation_can_replay_after_session_recovery (read_plus _) = false
operation_can_replay_after_session_recovery (seek _ _ _) = false
operation_can_replay_after_session_recovery (clone _) = false
operation_can_replay_after_session_recovery (write_same _) = false
operation_can_replay_after_session_recovery (commit _ _) = false
operation_can_replay_after_session_recovery (renew _) = false
operation_can_replay_after_session_recovery (read_dir _ _ _ _ _) = true
operation_can_replay_after_session_recovery read_link = true
operation_can_replay_after_session_recovery (remove _) = false
operation_can_replay_after_session_recovery (link _) = false
operation_can_replay_after_session_recovery (rename _ _) = false
operation_can_replay_after_session_recovery (verify _) = true
operation_can_replay_after_session_recovery (release_lock_owner _) = false
operation_can_replay_after_session_recovery (create _) = false
operation_can_replay_after_session_recovery save_fh = true
operation_can_replay_after_session_recovery restore_fh = true

unfoldable pub operation_can_replay_after_successful_prefix : Operation → Bool
operation_can_replay_after_successful_prefix (set_client_id _) = false
operation_can_replay_after_successful_prefix (set_client_id_confirm _) = false
operation_can_replay_after_successful_prefix (exchange_id _) = false
operation_can_replay_after_successful_prefix (create_session _) = false
operation_can_replay_after_successful_prefix (backchannel_ctl _) = false
operation_can_replay_after_successful_prefix (bind_conn_to_session _) = false
operation_can_replay_after_successful_prefix (destroy_session _) = false
operation_can_replay_after_successful_prefix (destroy_client_id _) = false
operation_can_replay_after_successful_prefix (reclaim_complete _) = false
operation_can_replay_after_successful_prefix (sequence _) = false
operation_can_replay_after_successful_prefix put_root_fh = true
operation_can_replay_after_successful_prefix put_pub_fh = true
operation_can_replay_after_successful_prefix (put_fh _) = true
operation_can_replay_after_successful_prefix (lookup _) = true
operation_can_replay_after_successful_prefix lookupp = true
operation_can_replay_after_successful_prefix (access _) = true
operation_can_replay_after_successful_prefix (sec_info _) = true
operation_can_replay_after_successful_prefix (sec_info_no_name _) = true
operation_can_replay_after_successful_prefix (deleg_purge _) = false
operation_can_replay_after_successful_prefix (deleg_return _) = false
operation_can_replay_after_successful_prefix (nverify _) = true
operation_can_replay_after_successful_prefix (open_file _) = false
operation_can_replay_after_successful_prefix (open_attr _) = false
operation_can_replay_after_successful_prefix (open_confirm _ _) = false
operation_can_replay_after_successful_prefix (close _ _) = false
operation_can_replay_after_successful_prefix (lock _) = false
operation_can_replay_after_successful_prefix (lock_test _) = true
operation_can_replay_after_successful_prefix (lock_unlock _) = false
operation_can_replay_after_successful_prefix (open_downgrade _ _ _ _) = false
operation_can_replay_after_successful_prefix (free_state_id _) = false
operation_can_replay_after_successful_prefix (test_state_ids _) = true
operation_can_replay_after_successful_prefix (get_dir_delegation _) = false
operation_can_replay_after_successful_prefix (get_device_info _) = true
operation_can_replay_after_successful_prefix (get_device_list _) = true
operation_can_replay_after_successful_prefix (layout_commit _) = false
operation_can_replay_after_successful_prefix (layout_get _) = false
operation_can_replay_after_successful_prefix (layout_return _) = false
operation_can_replay_after_successful_prefix (set_ssv _) = false
operation_can_replay_after_successful_prefix (want_delegation _) = false
operation_can_replay_after_successful_prefix get_fh = true
operation_can_replay_after_successful_prefix (get_attr _) = true
operation_can_replay_after_successful_prefix (set_attr _ _) = false
operation_can_replay_after_successful_prefix (read _ _ _) = true
operation_can_replay_after_successful_prefix (write _ _ _ _) = false
operation_can_replay_after_successful_prefix (allocate _ _ _) = false
operation_can_replay_after_successful_prefix (deallocate _ _ _) = false
operation_can_replay_after_successful_prefix (io_advise _) = false
operation_can_replay_after_successful_prefix (copy _) = false
operation_can_replay_after_successful_prefix (copy_notify _) = false
operation_can_replay_after_successful_prefix (layout_error _) = false
operation_can_replay_after_successful_prefix (layout_stats _) = false
operation_can_replay_after_successful_prefix (offload_cancel _) = false
operation_can_replay_after_successful_prefix (offload_status _) = true
operation_can_replay_after_successful_prefix (read_plus _) = true
operation_can_replay_after_successful_prefix (seek _ _ _) = true
operation_can_replay_after_successful_prefix (clone _) = false
operation_can_replay_after_successful_prefix (write_same _) = false
operation_can_replay_after_successful_prefix (commit _ _) = false
operation_can_replay_after_successful_prefix (renew _) = false
operation_can_replay_after_successful_prefix (read_dir _ _ _ _ _) = true
operation_can_replay_after_successful_prefix read_link = true
operation_can_replay_after_successful_prefix (remove _) = false
operation_can_replay_after_successful_prefix (link _) = false
operation_can_replay_after_successful_prefix (rename _ _) = false
operation_can_replay_after_successful_prefix (verify _) = true
operation_can_replay_after_successful_prefix (release_lock_owner _) = false
operation_can_replay_after_successful_prefix (create _) = false
operation_can_replay_after_successful_prefix save_fh = true
operation_can_replay_after_successful_prefix restore_fh = true

unfoldable pub operation_can_retry_after_delayed_result : Operation → Bool
operation_can_retry_after_delayed_result (sequence _) = false
operation_can_retry_after_delayed_result (open_file _) = false
operation_can_retry_after_delayed_result (open_confirm _ _) = false
operation_can_retry_after_delayed_result (close _ _) = false
operation_can_retry_after_delayed_result (lock _) = false
operation_can_retry_after_delayed_result (lock_unlock _) = false
operation_can_retry_after_delayed_result (open_downgrade _ _ _ _) = false
operation_can_retry_after_delayed_result _ = true

unfoldable pub operation_releases_state : Operation → Bool
operation_releases_state (put_fh _) = true
operation_releases_state (close _ _) = true
operation_releases_state (lock_unlock _) = true
operation_releases_state (free_state_id _) = true
operation_releases_state (release_lock_owner _) = true
operation_releases_state _ = false

unfoldable pub operations_can_replay_after_session_recovery : List Operation → Bool
operations_can_replay_after_session_recovery operations =
    all operation_can_replay_after_session_recovery operations

abbrev pub is_empty {ℓ} : {A : Type ℓ} → List A → Bool
is_empty [] = true
is_empty (x ∷ xs) = false

unfoldable pub operations_release_state : List Operation → Bool
operations_release_state operations =
    not (is_empty operations) && all operation_releases_state operations
