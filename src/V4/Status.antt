-- ===== src/V4/Status.antt =====
-- src/v4/proto.rs, `Status`: the NFSv4 status codes.
use nfs.Prelude.{
  ℕ, ◌≡◌, refl, Bool, true, false, inl, inr, List, [], ◌∷◌, arith, ◌==◌, if◌then◌else◌, All, ap,
  sym, ◌∙◌, not, ◌&&◌, Bool-cases, ◌↔◌,
}

pub data Status : Type 0 where
  ok perm no_ent io nxio access exist xdev not_dir is_dir inval fbig no_spc : Status
  read_only_fs mlink name_too_long not_empty dquot stale same denied expired : Status
  locked grace fh_expired share_denied bad_handle bad_cookie not_supported : Status
  too_small server_fault bad_type delay clid_in_use resource moved : Status
  stale_client_id stale_state_id old_state_id bad_state_id bad_seq_id not_same : Status
  lock_range symlink restore_fh lease_moved attr_not_supp no_grace reclaim_bad : Status
  reclaim_conflict bad_xdr locks_held open_mode bad_owner bad_char bad_name : Status
  bad_range lock_not_supp op_illegal deadlock file_open wrong_sec : Status
  no_file_handle minor_version_mismatch admin_revoked cb_path_down bad_io_mode : Status
  bad_layout bad_session_digest bad_session bad_slot complete_already : Status
  conn_not_bound_to_session deleg_already_wanted back_chan_busy : Status
  layout_try_later layout_unavailable no_matching_layout recall_conflict : Status
  unknown_layout_type seq_misordered sequence_pos req_too_big rep_too_big : Status
  rep_too_big_to_cache retry_uncached_rep unsafe_compound too_many_ops : Status
  seq_false_retry op_not_in_session hash_alg_unsupported client_id_busy : Status
  bad_high_slot dead_session encr_alg_unsupported pnfs_io_hole pnfs_no_layout : Status
  not_only_op wrong_cred wrong_type dir_deleg_unavailable reject_deleg : Status
  return_conflict deleg_revoked partner_not_supp partner_no_auth : Status
  union_not_supported offload_denied wrong_lfs bad_label offload_no_reqs : Status
  unknown : ℕ → Status

-- The arms of `from_u32`, in the order of the source.
abbrev pub arms : List (ℕ × Status)
arms =
    (0, ok)
    ∷ (1, perm)
    ∷ (2, no_ent)
    ∷ (5, io)
    ∷ (6, nxio)
    ∷ (13, access)
    ∷ (17, exist)
    ∷ (18, xdev)
    ∷ (20, not_dir)
    ∷ (21, is_dir)
    ∷ (22, inval)
    ∷ (27, fbig)
    ∷ (28, no_spc)
    ∷ (30, read_only_fs)
    ∷ (31, mlink)
    ∷ (63, name_too_long)
    ∷ (66, not_empty)
    ∷ (69, dquot)
    ∷ (70, stale)
    ∷ (10009, same)
    ∷ (10010, denied)
    ∷ (10011, expired)
    ∷ (10012, locked)
    ∷ (10013, grace)
    ∷ (10014, fh_expired)
    ∷ (10015, share_denied)
    ∷ (10001, bad_handle)
    ∷ (10003, bad_cookie)
    ∷ (10004, not_supported)
    ∷ (10005, too_small)
    ∷ (10006, server_fault)
    ∷ (10007, bad_type)
    ∷ (10008, delay)
    ∷ (10017, clid_in_use)
    ∷ (10018, resource)
    ∷ (10019, moved)
    ∷ (10022, stale_client_id)
    ∷ (10023, stale_state_id)
    ∷ (10024, old_state_id)
    ∷ (10025, bad_state_id)
    ∷ (10026, bad_seq_id)
    ∷ (10027, not_same)
    ∷ (10028, lock_range)
    ∷ (10029, symlink)
    ∷ (10030, restore_fh)
    ∷ (10031, lease_moved)
    ∷ (10032, attr_not_supp)
    ∷ (10033, no_grace)
    ∷ (10034, reclaim_bad)
    ∷ (10035, reclaim_conflict)
    ∷ (10036, bad_xdr)
    ∷ (10037, locks_held)
    ∷ (10038, open_mode)
    ∷ (10039, bad_owner)
    ∷ (10040, bad_char)
    ∷ (10041, bad_name)
    ∷ (10042, bad_range)
    ∷ (10043, lock_not_supp)
    ∷ (10044, op_illegal)
    ∷ (10045, deadlock)
    ∷ (10046, file_open)
    ∷ (10016, wrong_sec)
    ∷ (10020, no_file_handle)
    ∷ (10021, minor_version_mismatch)
    ∷ (10047, admin_revoked)
    ∷ (10048, cb_path_down)
    ∷ (10049, bad_io_mode)
    ∷ (10050, bad_layout)
    ∷ (10051, bad_session_digest)
    ∷ (10052, bad_session)
    ∷ (10053, bad_slot)
    ∷ (10054, complete_already)
    ∷ (10055, conn_not_bound_to_session)
    ∷ (10056, deleg_already_wanted)
    ∷ (10057, back_chan_busy)
    ∷ (10058, layout_try_later)
    ∷ (10059, layout_unavailable)
    ∷ (10060, no_matching_layout)
    ∷ (10061, recall_conflict)
    ∷ (10062, unknown_layout_type)
    ∷ (10063, seq_misordered)
    ∷ (10064, sequence_pos)
    ∷ (10065, req_too_big)
    ∷ (10066, rep_too_big)
    ∷ (10067, rep_too_big_to_cache)
    ∷ (10068, retry_uncached_rep)
    ∷ (10069, unsafe_compound)
    ∷ (10070, too_many_ops)
    ∷ (10076, seq_false_retry)
    ∷ (10071, op_not_in_session)
    ∷ (10072, hash_alg_unsupported)
    ∷ (10074, client_id_busy)
    ∷ (10077, bad_high_slot)
    ∷ (10078, dead_session)
    ∷ (10079, encr_alg_unsupported)
    ∷ (10075, pnfs_io_hole)
    ∷ (10080, pnfs_no_layout)
    ∷ (10081, not_only_op)
    ∷ (10082, wrong_cred)
    ∷ (10083, wrong_type)
    ∷ (10084, dir_deleg_unavailable)
    ∷ (10085, reject_deleg)
    ∷ (10086, return_conflict)
    ∷ (10087, deleg_revoked)
    ∷ (10088, partner_not_supp)
    ∷ (10089, partner_no_auth)
    ∷ (10090, union_not_supported)
    ∷ (10091, offload_denied)
    ∷ (10092, wrong_lfs)
    ∷ (10093, bad_label)
    ∷ (10094, offload_no_reqs)
    ∷ []

abbrev pub find : List (ℕ × Status) → ℕ → Status
find [] value = unknown value
find ((code, status) ∷ rest) value = if value == code then status else find rest value

unfoldable pub from_u32 : ℕ → Status
from_u32 value = find arms value

unfoldable pub as_u32 : Status → ℕ
as_u32 ok = 0
as_u32 perm = 1
as_u32 no_ent = 2
as_u32 io = 5
as_u32 nxio = 6
as_u32 access = 13
as_u32 exist = 17
as_u32 xdev = 18
as_u32 not_dir = 20
as_u32 is_dir = 21
as_u32 inval = 22
as_u32 fbig = 27
as_u32 no_spc = 28
as_u32 read_only_fs = 30
as_u32 mlink = 31
as_u32 name_too_long = 63
as_u32 not_empty = 66
as_u32 dquot = 69
as_u32 stale = 70
as_u32 same = 10009
as_u32 denied = 10010
as_u32 expired = 10011
as_u32 locked = 10012
as_u32 grace = 10013
as_u32 fh_expired = 10014
as_u32 share_denied = 10015
as_u32 bad_handle = 10001
as_u32 bad_cookie = 10003
as_u32 not_supported = 10004
as_u32 too_small = 10005
as_u32 server_fault = 10006
as_u32 bad_type = 10007
as_u32 delay = 10008
as_u32 clid_in_use = 10017
as_u32 resource = 10018
as_u32 moved = 10019
as_u32 stale_client_id = 10022
as_u32 stale_state_id = 10023
as_u32 old_state_id = 10024
as_u32 bad_state_id = 10025
as_u32 bad_seq_id = 10026
as_u32 not_same = 10027
as_u32 lock_range = 10028
as_u32 symlink = 10029
as_u32 restore_fh = 10030
as_u32 lease_moved = 10031
as_u32 attr_not_supp = 10032
as_u32 no_grace = 10033
as_u32 reclaim_bad = 10034
as_u32 reclaim_conflict = 10035
as_u32 bad_xdr = 10036
as_u32 locks_held = 10037
as_u32 open_mode = 10038
as_u32 bad_owner = 10039
as_u32 bad_char = 10040
as_u32 bad_name = 10041
as_u32 bad_range = 10042
as_u32 lock_not_supp = 10043
as_u32 op_illegal = 10044
as_u32 deadlock = 10045
as_u32 file_open = 10046
as_u32 wrong_sec = 10016
as_u32 no_file_handle = 10020
as_u32 minor_version_mismatch = 10021
as_u32 admin_revoked = 10047
as_u32 cb_path_down = 10048
as_u32 bad_io_mode = 10049
as_u32 bad_layout = 10050
as_u32 bad_session_digest = 10051
as_u32 bad_session = 10052
as_u32 bad_slot = 10053
as_u32 complete_already = 10054
as_u32 conn_not_bound_to_session = 10055
as_u32 deleg_already_wanted = 10056
as_u32 back_chan_busy = 10057
as_u32 layout_try_later = 10058
as_u32 layout_unavailable = 10059
as_u32 no_matching_layout = 10060
as_u32 recall_conflict = 10061
as_u32 unknown_layout_type = 10062
as_u32 seq_misordered = 10063
as_u32 sequence_pos = 10064
as_u32 req_too_big = 10065
as_u32 rep_too_big = 10066
as_u32 rep_too_big_to_cache = 10067
as_u32 retry_uncached_rep = 10068
as_u32 unsafe_compound = 10069
as_u32 too_many_ops = 10070
as_u32 seq_false_retry = 10076
as_u32 op_not_in_session = 10071
as_u32 hash_alg_unsupported = 10072
as_u32 client_id_busy = 10074
as_u32 bad_high_slot = 10077
as_u32 dead_session = 10078
as_u32 encr_alg_unsupported = 10079
as_u32 pnfs_io_hole = 10075
as_u32 pnfs_no_layout = 10080
as_u32 not_only_op = 10081
as_u32 wrong_cred = 10082
as_u32 wrong_type = 10083
as_u32 dir_deleg_unavailable = 10084
as_u32 reject_deleg = 10085
as_u32 return_conflict = 10086
as_u32 deleg_revoked = 10087
as_u32 partner_not_supp = 10088
as_u32 partner_no_auth = 10089
as_u32 union_not_supported = 10090
as_u32 offload_denied = 10091
as_u32 wrong_lfs = 10092
as_u32 bad_label = 10093
as_u32 offload_no_reqs = 10094
as_u32 (unknown value) = value

unfoldable pub is_ok : Status → Bool
is_ok Status.ok = true
is_ok _ = false

unfoldable pub is_retryable : Status → Bool
is_retryable delay = true
is_retryable grace = true
is_retryable _ = false

unfoldable pub requires_session_recovery : Status → Bool
requires_session_recovery bad_session = true
requires_session_recovery conn_not_bound_to_session = true
requires_session_recovery dead_session = true
requires_session_recovery stale_client_id = true
requires_session_recovery expired = true
requires_session_recovery _ = false

unfoldable pub indicates_lost_state : Status → Bool
indicates_lost_state admin_revoked = true
indicates_lost_state bad_state_id = true
indicates_lost_state deleg_revoked = true
indicates_lost_state expired = true
indicates_lost_state lease_moved = true
indicates_lost_state no_grace = true
indicates_lost_state old_state_id = true
indicates_lost_state reclaim_bad = true
indicates_lost_state reclaim_conflict = true
indicates_lost_state stale_client_id = true
indicates_lost_state stale_state_id = true
indicates_lost_state _ = false

-- Every arm of `from_u32` is inverse to its arm of `as_u32`.
find-as_u32 :
    (table : List (ℕ × Status)) (value : ℕ)
    → All (λ arm. as_u32 arm.1 ≡ arm.0) table
    → as_u32 (find table value) ≡ value
unfolding as_u32
find-as_u32 [] value h = refl
find-as_u32 ((code, status) ∷ rest) value h = ground (arith, find-as_u32 rest value h.1)

-- Every status code, known or not, survives the translation: the number of `from_u32 value` is value.
pub as_u32-from_u32 : (value : ℕ) → as_u32 (from_u32 value) ≡ value
unfolding from_u32
as_u32-from_u32 value = find-as_u32 arms value (unfold as_u32 in omega arith)

unfoldable pub is_named : Status → Bool
is_named (unknown value) = false
is_named _ = true

-- A status that the source names is read back from its number.
pub from_u32-as_u32 : (status : Status) → is_named status ≡ true → from_u32 (as_u32 status) ≡ status
unfolding from_u32 as_u32 is_named
from_u32-as_u32 (unknown value) h = cc
from_u32-as_u32 _ h = refl

-- The derived `PartialEq`: the same number, and either both unknown or both not.
unfoldable pub eq : Status → Status → Bool
eq a b = as_u32 a == as_u32 b && (if is_named a then is_named b else not (is_named b))

named_eq : (a b : Status) → is_named a ≡ true → is_named b ≡ true → as_u32 a ≡ as_u32 b → a ≡ b
named_eq a b p q e = sym (from_u32-as_u32 a p) ∙ ap from_u32 e ∙ from_u32-as_u32 b q

unnamed_eq : (a b : Status) → is_named a ≡ false → is_named b ≡ false → as_u32 a ≡ as_u32 b → a ≡ b
unfolding as_u32 is_named
unnamed_eq (unknown a) (unknown b) p q e = ap unknown e
unnamed_eq (unknown a) _ p q e = cc
unnamed_eq _ b p q e = cc

eq→≡ : (a b : Status) → eq a b ≡ true → a ≡ b
eq→≡ a b h = elim (Bool-cases (is_named a)) [
  | inl p ↦ named_eq a b p (unfold eq in ground arith) (unfold eq in ground arith)
  | inr p ↦ unnamed_eq a b p (unfold eq in ground arith) (unfold eq in ground arith)
]

eq_refl : (a : Status) → eq a a ≡ true
unfolding eq
eq_refl a = ground arith

-- The comparison decides equality of statuses.
pub eq_iff : (a b : Status) → (eq a b ≡ true) ↔ (a ≡ b)
eq_iff a b = (eq→≡ a b, λ e. rw e (eq_refl b))
