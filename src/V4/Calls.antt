-- ===== src/V4/Calls.antt =====
-- src/v4/blocking.rs: the methods of `Client` that send one COMPOUND for a path, or for none.
--
-- The sending stands as an interface. Argument structs that the methods only fill in are the bytes of
-- their encoding, `Xdr`.
use nfs.Prelude.{ℕ, Bool, true, false, String, List, [], ◌∷◌, ◌++◌, ltb, if◌then◌else◌, length}
use nfs.Prelude.Outcome.{Result, ok, err}
use nfs.Prelude.Exec.{Exec, pure, lift, attempt, ◌>>=◌, ◌>>◌}
use nfs.Error.{Error, protocol, nfs_v4, is_not_found}
use nfs.V4.Status.{Status}
use nfs.V4.OpCode
use nfs.V4.Args.{Bytes, Xdr, StateId, Fattr, OpenDelegation}
use nfs.V4.Transfer.{CommitResult}
use nfs.V4.Operation.{Operation}
use nfs.V4.Response.{CompoundResponse}
use nfs.V4.Policy.{nfs4_max_ops}
use nfs.V4.Extract.{ensure_last_status}
use nfs.V4.Extract.States.{
  response_getfh, response_access, response_set_ssv, response_readlink, response_secinfo,
  response_verify, response_test_stateids,
}
use nfs.V4.Extract.Layouts.{
  response_offload_status, response_get_dir_delegation, response_want_delegation,
  response_layout_commit, response_layout_return,
}
use nfs.V4.Extract.Transfers.{response_commit}
use nfs.V4.Setup.Options.{require_minor_version}
use nfs.V4.Paths.{
  lookups, path_components, path_ops, public_path_ops, parent_path_ops, split_parent, parent_ops,
}

pub record Sender {ℓ} (S : Type ℓ) : Type ℓ where
  pub compound : List Operation → Exec S Error CompoundResponse
  pub compound_status : List Operation → Exec S Error CompoundResponse
  pub minor_version : S → ℕ
  pub client_id : S → ℕ

unfoldable pub validate_stateid_batch_len : ℕ → Result Error (Unit {0})
validate_stateid_batch_len count =
    if ltb nfs4_max_ops count
    then err (protocol "NFSv4 TEST_STATEID accepts at most {NFS4_MAX_OPS} stateids, got {count}")
    else ok tt

module _ {ℓ} {S : Type ℓ} (client : Sender S) where
  abbrev pub Call {κ} : Type κ → Type (ℓ ⊔ κ)
  Call A = Exec S Error A

  abbrev pub asking {κ} : {A : Type κ} → (S → A) → Call A
  asking field s = (ok (field s), s)

  -- `self.compound(ops?)?` and what is taken out of the response
  abbrev pub sending {κ} :
      {A : Type κ} → Result Error (List Operation) → (CompoundResponse → Result Error A) → Call A
  sending ops extract = do
    operations ← lift ops
    response ← client.compound operations
    lift (extract response)

  abbrev pub status_of_last : String → CompoundResponse → Result Error (Unit {0})
  status_of_last operation response = ensure_last_status response operation

  unfoldable pub lookup : Bytes → Call (Unit {0})
  lookup path = sending (path_ops path []) (λ response. ok tt)

  unfoldable pub lookup_public : Bytes → Call (Unit {0})
  lookup_public path = sending (public_path_ops path []) (λ response. ok tt)

  -- NOENT is an answer, any other error is passed on.
  abbrev pub unless_no_ent : Result Error (Unit {0}) → Result Error Bool
  unless_no_ent (ok _) = ok true
  unless_no_ent (err (nfs_v4 operation Status.no_ent)) = ok false
  unless_no_ent (err e) = err e

  unfoldable pub exists : Bytes → Call Bool
  unfolding lookup
  exists path = attempt (lookup path) >>= λ found. lift (unless_no_ent found)

  unfoldable pub public_exists : Bytes → Call Bool
  unfolding lookup_public
  public_exists path = attempt (lookup_public path) >>= λ found. lift (unless_no_ent found)

  unfoldable pub file_handle : Bytes → Call Bytes
  file_handle path = sending (path_ops path (Operation.get_fh ∷ [])) response_getfh

  unfoldable pub public_file_handle : Bytes → Call Bytes
  public_file_handle path = sending (public_path_ops path (Operation.get_fh ∷ [])) response_getfh

  unfoldable pub parent_file_handle : Bytes → Call Bytes
  parent_file_handle path = sending (parent_path_ops path (Operation.get_fh ∷ [])) response_getfh

  unfoldable pub backchannel_ctl : Xdr → Call (Unit {0})
  backchannel_ctl args =
      sending (ok (Operation.backchannel_ctl args ∷ [])) (status_of_last "BACKCHANNEL_CTL")

  unfoldable pub set_ssv : Xdr → Call Xdr
  set_ssv args = sending (ok (Operation.set_ssv args ∷ [])) response_set_ssv

  unfoldable pub access : Bytes → ℕ → Call Xdr
  access path mask = sending (path_ops path (Operation.access mask ∷ [])) response_access

  unfoldable pub public_access : Bytes → ℕ → Call Xdr
  public_access path mask =
      sending (public_path_ops path (Operation.access mask ∷ [])) response_access

  unfoldable pub parent_access : Bytes → ℕ → Call Xdr
  parent_access path mask =
      sending (parent_path_ops path (Operation.access mask ∷ [])) response_access

  unfoldable pub secinfo : Bytes → Call (List Xdr)
  secinfo path =
      sending (parent_ops path (λ name. Operation.sec_info name ∷ []))
        (λ response. response_secinfo response OpCode.sec_info)

  unfoldable pub secinfo_no_name : Bytes → Xdr → Call (List Xdr)
  secinfo_no_name path style =
      sending (path_ops path (Operation.sec_info_no_name style ∷ []))
        (λ response. response_secinfo response OpCode.sec_info_no_name)

  unfoldable pub verify_attrs : Bytes → Fattr → Call Bool
  verify_attrs path attrs =
      sending (path_ops path (Operation.verify attrs ∷ []))
        (λ response. response_verify response OpCode.verify Status.not_same)

  unfoldable pub nverify_attrs : Bytes → Fattr → Call Bool
  nverify_attrs path attrs =
      sending (path_ops path (Operation.nverify attrs ∷ []))
        (λ response. response_verify response OpCode.nverify Status.same)

  abbrev pub at_least : String → ℕ → Call (Unit {0})
  at_least operation required = do
    negotiated ← asking client.minor_version
    lift (require_minor_version operation negotiated required)

  unfoldable pub want_delegation_with_claim : Bytes → Xdr → Call OpenDelegation
  want_delegation_with_claim path args =
      at_least "WANT_DELEGATION" 1
      >> sending (path_ops path (Operation.want_delegation args ∷ [])) response_want_delegation

  unfoldable pub get_dir_delegation : Bytes → Xdr → Call Xdr
  get_dir_delegation path args =
      at_least "GET_DIR_DELEGATION" 1
      >> sending (path_ops path (Operation.get_dir_delegation args ∷ []))
          response_get_dir_delegation

  unfoldable pub return_delegation : Bytes → StateId → Call (Unit {0})
  return_delegation path stateid =
      sending (path_ops path (Operation.deleg_return stateid ∷ [])) (status_of_last "DELEGRETURN")

  unfoldable pub purge_delegations : Call (Unit {0})
  purge_delegations = do
    client_id ← asking client.client_id
    sending (ok (Operation.deleg_purge client_id ∷ [])) (status_of_last "DELEGPURGE")

  unfoldable pub free_stateid : StateId → Call (Unit {0})
  free_stateid stateid =
      sending (ok (Operation.free_state_id stateid ∷ [])) (status_of_last "FREE_STATEID")

  unfoldable pub test_stateids : List StateId → Call (List Status)
  unfolding validate_stateid_batch_len
  test_stateids [] = pure []
  test_stateids (stateid ∷ stateids) = do
    lift (validate_stateid_batch_len (length (stateid ∷ stateids)))
    sending (ok (Operation.test_state_ids (stateid ∷ stateids) ∷ []))
        (λ response. response_test_stateids response (length (stateid ∷ stateids)))

  unfoldable pub read_link : Bytes → Call Bytes
  read_link path = sending (path_ops path (Operation.read_link ∷ [])) response_readlink

  unfoldable pub offload_status : StateId → Call Xdr
  offload_status stateid =
      at_least "OFFLOAD_STATUS" 2
      >> sending (ok (Operation.offload_status stateid ∷ [])) response_offload_status

  unfoldable pub offload_cancel : StateId → Call (Unit {0})
  offload_cancel stateid =
      at_least "OFFLOAD_CANCEL" 2
      >> sending (ok (Operation.offload_cancel stateid ∷ [])) (status_of_last "OFFLOAD_CANCEL")

  unfoldable pub layout_commit_with_options : Bytes → Xdr → Call Xdr
  layout_commit_with_options path args =
      at_least "LAYOUTCOMMIT" 1
      >> sending (path_ops path (Operation.layout_commit args ∷ [])) response_layout_commit

  unfoldable pub layout_error : Bytes → Xdr → Call (Unit {0})
  layout_error path args =
      at_least "LAYOUTERROR" 1
      >> sending (path_ops path (Operation.layout_error args ∷ [])) (status_of_last "LAYOUTERROR")

  unfoldable pub layout_stats : Bytes → Xdr → Call (Unit {0})
  layout_stats path args =
      at_least "LAYOUTSTATS" 1
      >> sending (path_ops path (Operation.layout_stats args ∷ [])) (status_of_last "LAYOUTSTATS")

  unfoldable pub layout_return_all : Xdr → Call Xdr
  layout_return_all args =
      at_least "LAYOUTRETURN" 1
      >> sending (ok (Operation.layout_return args ∷ [])) response_layout_return

  unfoldable pub commit : Bytes → ℕ → ℕ → Call CommitResult
  commit path offset count =
      sending (path_ops path (Operation.commit offset count ∷ [])) response_commit

  -- CREATE of any kind: a directory, a symbolic link or a special file
  unfoldable pub create_entry : Bytes → (Bytes → Xdr) → Call (Unit {0})
  create_entry path args =
      sending (parent_ops path (λ name. Operation.create (args name) ∷ []))
        (status_of_last "CREATE")

  unfoldable pub hard_link : Bytes → Bytes → Call (Unit {0})
  hard_link existing link = do
    components ← lift (path_components existing)
    parts ← lift (split_parent link)
    sending
        (ok (
          (Operation.put_root_fh ∷ lookups components)
          ++ ((Operation.save_fh ∷ Operation.put_root_fh ∷ lookups parts.0)
              ++ (Operation.link parts.1 ∷ []))))
        (status_of_last "LINK")

  unfoldable pub remove : Bytes → Call (Unit {0})
  remove path =
      sending (parent_ops path (λ name. Operation.remove name ∷ [])) (status_of_last "REMOVE")

  -- An entry that is not there is an answer.
  abbrev pub unless_missing : Result Error (Unit {0}) → Result Error Bool
  unless_missing (ok _) = ok true
  unless_missing (err e) = if is_not_found e then ok false else err e

  unfoldable pub remove_if_exists : Bytes → Call Bool
  unfolding remove
  remove_if_exists path = attempt (remove path) >>= λ removed. lift (unless_missing removed)

  unfoldable pub rename : Bytes → Bytes → Call (Unit {0})
  rename from to = do
    old ← lift (split_parent from)
    new ← lift (split_parent to)
    sending
        (ok (
          (Operation.put_root_fh ∷ lookups old.0)
          ++ ((Operation.save_fh ∷ Operation.put_root_fh ∷ lookups new.0)
              ++ (Operation.rename old.1 new.1 ∷ []))))
        (status_of_last "RENAME")
