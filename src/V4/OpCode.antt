-- ===== src/V4/OpCode.antt =====
-- src/v4/proto.rs, `OpCode`: the NFSv4 operation numbers and names.
use nfs.Prelude.{
  ℕ, String, ◌≡◌, refl, Bool, true, Option, none, some, List, [], ◌∷◌, arith, ◌==◌, if◌then◌else◌,
  All, ap, sym, ◌∙◌, Bool-cases, inl, inr, ◌↔◌, ==_iff, some-inj,
}

pub data OpCode : Type 0 where
  access close commit create deleg_purge deleg_return get_attr get_fh link lock : OpCode
  lockt locku lookup lookupp nverify open_file open_attr open_confirm : OpCode
  open_downgrade put_fh put_pub_fh put_root_fh read read_dir read_link remove : OpCode
  rename renew restore_fh save_fh sec_info set_attr set_client_id : OpCode
  set_client_id_confirm verify write release_lock_owner backchannel_ctl : OpCode
  bind_conn_to_session exchange_id create_session destroy_session free_state_id : OpCode
  get_dir_delegation get_device_info get_device_list layout_commit layout_get : OpCode
  layout_return sec_info_no_name sequence set_ssv test_state_id want_delegation : OpCode
  destroy_client_id reclaim_complete allocate copy copy_notify deallocate : OpCode
  io_advise layout_error layout_stats offload_cancel offload_status read_plus : OpCode
  seek write_same clone illegal : OpCode

-- The arms of `from_u32`, in the order of the source.
abbrev pub arms : List (ℕ × OpCode)
arms =
    (3, access)
    ∷ (4, close)
    ∷ (5, commit)
    ∷ (6, create)
    ∷ (7, deleg_purge)
    ∷ (8, deleg_return)
    ∷ (9, get_attr)
    ∷ (10, get_fh)
    ∷ (11, link)
    ∷ (12, lock)
    ∷ (13, lockt)
    ∷ (14, locku)
    ∷ (15, lookup)
    ∷ (16, lookupp)
    ∷ (17, nverify)
    ∷ (18, open_file)
    ∷ (19, open_attr)
    ∷ (20, open_confirm)
    ∷ (21, open_downgrade)
    ∷ (22, put_fh)
    ∷ (23, put_pub_fh)
    ∷ (24, put_root_fh)
    ∷ (25, read)
    ∷ (26, read_dir)
    ∷ (27, read_link)
    ∷ (28, remove)
    ∷ (29, rename)
    ∷ (30, renew)
    ∷ (31, restore_fh)
    ∷ (32, save_fh)
    ∷ (33, sec_info)
    ∷ (34, set_attr)
    ∷ (35, set_client_id)
    ∷ (36, set_client_id_confirm)
    ∷ (37, verify)
    ∷ (38, write)
    ∷ (39, release_lock_owner)
    ∷ (40, backchannel_ctl)
    ∷ (41, bind_conn_to_session)
    ∷ (42, exchange_id)
    ∷ (43, create_session)
    ∷ (44, destroy_session)
    ∷ (45, free_state_id)
    ∷ (46, get_dir_delegation)
    ∷ (47, get_device_info)
    ∷ (48, get_device_list)
    ∷ (49, layout_commit)
    ∷ (50, layout_get)
    ∷ (51, layout_return)
    ∷ (52, sec_info_no_name)
    ∷ (53, sequence)
    ∷ (54, set_ssv)
    ∷ (55, test_state_id)
    ∷ (56, want_delegation)
    ∷ (57, destroy_client_id)
    ∷ (58, reclaim_complete)
    ∷ (59, allocate)
    ∷ (60, copy)
    ∷ (61, copy_notify)
    ∷ (62, deallocate)
    ∷ (63, io_advise)
    ∷ (64, layout_error)
    ∷ (65, layout_stats)
    ∷ (66, offload_cancel)
    ∷ (67, offload_status)
    ∷ (68, read_plus)
    ∷ (69, seek)
    ∷ (70, write_same)
    ∷ (71, clone)
    ∷ (10044, illegal)
    ∷ []

abbrev pub find : List (ℕ × OpCode) → ℕ → Option OpCode
find [] value = none
find ((code, op) ∷ rest) value = if value == code then some op else find rest value

unfoldable pub from_u32 : ℕ → Option OpCode
from_u32 value = find arms value

-- The discriminants of the `repr(u32)` enum.
unfoldable pub as_u32 : OpCode → ℕ
as_u32 access = 3
as_u32 close = 4
as_u32 commit = 5
as_u32 create = 6
as_u32 deleg_purge = 7
as_u32 deleg_return = 8
as_u32 get_attr = 9
as_u32 get_fh = 10
as_u32 link = 11
as_u32 lock = 12
as_u32 lockt = 13
as_u32 locku = 14
as_u32 lookup = 15
as_u32 lookupp = 16
as_u32 nverify = 17
as_u32 open_file = 18
as_u32 open_attr = 19
as_u32 open_confirm = 20
as_u32 open_downgrade = 21
as_u32 put_fh = 22
as_u32 put_pub_fh = 23
as_u32 put_root_fh = 24
as_u32 read = 25
as_u32 read_dir = 26
as_u32 read_link = 27
as_u32 remove = 28
as_u32 rename = 29
as_u32 renew = 30
as_u32 restore_fh = 31
as_u32 save_fh = 32
as_u32 sec_info = 33
as_u32 set_attr = 34
as_u32 set_client_id = 35
as_u32 set_client_id_confirm = 36
as_u32 verify = 37
as_u32 write = 38
as_u32 release_lock_owner = 39
as_u32 backchannel_ctl = 40
as_u32 bind_conn_to_session = 41
as_u32 exchange_id = 42
as_u32 create_session = 43
as_u32 destroy_session = 44
as_u32 free_state_id = 45
as_u32 get_dir_delegation = 46
as_u32 get_device_info = 47
as_u32 get_device_list = 48
as_u32 layout_commit = 49
as_u32 layout_get = 50
as_u32 layout_return = 51
as_u32 sec_info_no_name = 52
as_u32 sequence = 53
as_u32 set_ssv = 54
as_u32 test_state_id = 55
as_u32 want_delegation = 56
as_u32 destroy_client_id = 57
as_u32 reclaim_complete = 58
as_u32 allocate = 59
as_u32 copy = 60
as_u32 copy_notify = 61
as_u32 deallocate = 62
as_u32 io_advise = 63
as_u32 layout_error = 64
as_u32 layout_stats = 65
as_u32 offload_cancel = 66
as_u32 offload_status = 67
as_u32 read_plus = 68
as_u32 seek = 69
as_u32 write_same = 70
as_u32 clone = 71
as_u32 illegal = 10044

unfoldable pub name : OpCode → String
name access = "ACCESS"
name close = "CLOSE"
name commit = "COMMIT"
name create = "CREATE"
name deleg_purge = "DELEGPURGE"
name deleg_return = "DELEGRETURN"
name get_attr = "GETATTR"
name get_fh = "GETFH"
name link = "LINK"
name lock = "LOCK"
name lockt = "LOCKT"
name locku = "LOCKU"
name lookup = "LOOKUP"
name lookupp = "LOOKUPP"
name nverify = "NVERIFY"
name open_file = "OPEN"
name open_attr = "OPENATTR"
name open_confirm = "OPEN_CONFIRM"
name open_downgrade = "OPEN_DOWNGRADE"
name put_fh = "PUTFH"
name put_pub_fh = "PUTPUBFH"
name put_root_fh = "PUTROOTFH"
name read = "READ"
name read_dir = "READDIR"
name read_link = "READLINK"
name remove = "REMOVE"
name rename = "RENAME"
name renew = "RENEW"
name restore_fh = "RESTOREFH"
name save_fh = "SAVEFH"
name sec_info = "SECINFO"
name set_attr = "SETATTR"
name set_client_id = "SETCLIENTID"
name set_client_id_confirm = "SETCLIENTID_CONFIRM"
name verify = "VERIFY"
name write = "WRITE"
name release_lock_owner = "RELEASE_LOCKOWNER"
name backchannel_ctl = "BACKCHANNEL_CTL"
name bind_conn_to_session = "BIND_CONN_TO_SESSION"
name exchange_id = "EXCHANGE_ID"
name create_session = "CREATE_SESSION"
name destroy_session = "DESTROY_SESSION"
name free_state_id = "FREE_STATEID"
name get_dir_delegation = "GET_DIR_DELEGATION"
name get_device_info = "GETDEVICEINFO"
name get_device_list = "GETDEVICELIST"
name layout_commit = "LAYOUTCOMMIT"
name layout_get = "LAYOUTGET"
name layout_return = "LAYOUTRETURN"
name sec_info_no_name = "SECINFO_NO_NAME"
name sequence = "SEQUENCE"
name set_ssv = "SET_SSV"
name test_state_id = "TEST_STATEID"
name want_delegation = "WANT_DELEGATION"
name destroy_client_id = "DESTROY_CLIENTID"
name reclaim_complete = "RECLAIM_COMPLETE"
name allocate = "ALLOCATE"
name copy = "COPY"
name copy_notify = "COPY_NOTIFY"
name deallocate = "DEALLOCATE"
name io_advise = "IO_ADVISE"
name layout_error = "LAYOUTERROR"
name layout_stats = "LAYOUTSTATS"
name offload_cancel = "OFFLOAD_CANCEL"
name offload_status = "OFFLOAD_STATUS"
name read_plus = "READ_PLUS"
name seek = "SEEK"
name write_same = "WRITE_SAME"
name clone = "CLONE"
name illegal = "ILLEGAL"

-- Every arm of `from_u32` gives the operation of that number.
find-as_u32 :
    (table : List (ℕ × OpCode)) (value : ℕ) (op : OpCode)
    → All (λ arm. as_u32 arm.1 ≡ arm.0) table
    → find table value ≡ some op
    → as_u32 op ≡ value
find-as_u32 [] value op h e = cc
find-as_u32 ((code, o) ∷ rest) value op h e = elim (Bool-cases (value == code)) [
  | inl p ↦
      let q : some o ≡ some op = rw p at e in
      ap as_u32 (some-inj (sym q)) ∙ h.0 ∙ sym ((==_iff value code).0 p)
  | inr p ↦ find-as_u32 rest value op h.1 (rw p at e)
]

-- A number that `from_u32` knows is the number of its operation.
pub as_u32-from_u32 : (value : ℕ) (op : OpCode) → from_u32 value ≡ some op → as_u32 op ≡ value
unfolding from_u32
as_u32-from_u32 value op e = find-as_u32 arms value op (unfold as_u32 in omega arith) e

-- Every operation is read back from its number.
pub from_u32-as_u32 : (op : OpCode) → from_u32 (as_u32 op) ≡ some op
unfolding from_u32 as_u32
from_u32-as_u32 access = refl
from_u32-as_u32 _ = refl

-- The derived `PartialEq` of an enum without fields compares the discriminants.
unfoldable pub eq : OpCode → OpCode → Bool
eq a b = as_u32 a == as_u32 b

eq→≡ : (a b : OpCode) → eq a b ≡ true → a ≡ b
unfolding eq
eq→≡ a b h =
    let e : as_u32 a ≡ as_u32 b = (==_iff (as_u32 a) (as_u32 b)).0 h in
    some-inj (sym (from_u32-as_u32 a) ∙ ap from_u32 e ∙ from_u32-as_u32 b)

-- The comparison decides equality of operations.
pub eq_iff : (a b : OpCode) → (eq a b ≡ true) ↔ (a ≡ b)
eq_iff a b = (eq→≡ a b, λ e. rw e (unfold eq in ground arith))
