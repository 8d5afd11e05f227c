-- ===== src/Rpc/Auth.antt =====
-- src/rpc.rs: `Auth`, `AuthSys` and the normalisation of credentials to the limits of AUTH_SYS.
-- A machine name is the bytes of a `str`. The stamp comes from the clock, and is an argument.
use nfs.Prelude.{
  ℕ, zero, suc, Bool, ◌||◌, List, [], ◌∷◌, ◌++◌, leb, ◌==◌, if◌then◌else◌, length, take, any,
}
use nfs.Prelude.Exec.{lift, ◌>>=◌, ◌>>◌}
use nfs.Xdr.Utf8.{is_char_boundary}
use nfs.Xdr.Encoder.{
  u32_encode, Encode, Encoding, step, to_bytes, write_u32, write_opaque, write_string, write_array,
}
use nfs.Rpc.{auth_none, auth_sys, auth_sys_machine_name_max, auth_sys_max_groups}

pub record AuthSys : Type 0 where
  pub stamp : ℕ
  pub machine_name : List ℕ
  pub uid : ℕ
  pub gid : ℕ
  pub gids : List ℕ

pub data Auth : Type 0 where
  none : Auth
  sys : AuthSys → Auth

abbrev pub contains : List ℕ → ℕ → Bool
contains gids gid = any (λ g. g == gid) gids

-- the loop of `normalize_auxiliary_gids`, over the groups that are left
unfoldable pub normalize_gids_loop : ℕ → List ℕ → List ℕ → List ℕ
normalize_gids_loop primary_gid [] normalized = normalized
normalize_gids_loop primary_gid (gid ∷ groups) normalized =
    let skipped = normalize_gids_loop primary_gid groups normalized in
    let pushed : List ℕ = normalized ++ (gid ∷ []) in
    let rest = normalize_gids_loop primary_gid groups pushed in
    if gid == primary_gid || contains normalized gid
    then skipped
    else if length pushed == auth_sys_max_groups
    then pushed
    else rest

unfoldable pub normalize_auxiliary_gids : ℕ → List ℕ → List ℕ
unfolding normalize_gids_loop
normalize_auxiliary_gids primary_gid groups = normalize_gids_loop primary_gid groups []

-- the `while` loop, from `len` downwards; 0 is a boundary, so it ends there at the latest
unfoldable pub back_to_boundary : List ℕ → ℕ → ℕ
unfolding is_char_boundary
back_to_boundary text zero = zero
back_to_boundary text (suc n) =
    if is_char_boundary text (suc n) then suc n else back_to_boundary text n

unfoldable pub normalized_machine_name_len : List ℕ → ℕ
normalized_machine_name_len name =
    if leb (length name) auth_sys_machine_name_max
    then length name
    else back_to_boundary name auth_sys_machine_name_max

-- `normalize_machine_name` truncates, and `normalized_machine_name_ref` slices, to that length.
unfoldable pub normalize_machine_name : List ℕ → List ℕ
normalize_machine_name name = take (normalized_machine_name_len name) name

-- `AuthSys::new`
unfoldable pub new : ℕ → List ℕ → ℕ → ℕ → List ℕ → AuthSys
new stamp machine_name uid gid gids = record {
  stamp = stamp;
  machine_name = normalize_machine_name machine_name;
  uid = uid;
  gid = gid;
  gids = normalize_auxiliary_gids gid gids;
}

unfoldable pub encode_auth_sys : AuthSys → Encoding
encode_auth_sys auth = do
  step (write_u32 auth.stamp)
  write_string (normalize_machine_name auth.machine_name) auth_sys_machine_name_max
  step (write_u32 auth.uid)
  step (write_u32 auth.gid)
  write_array (normalize_auxiliary_gids auth.gid auth.gids) auth_sys_max_groups

instance abbrev pub auth_sys_encode : Encode AuthSys
auth_sys_encode = record { encode = encode_auth_sys }

unfoldable pub encode_opaque_auth : Auth → Encoding
encode_opaque_auth none = do step (write_u32 auth_none); write_opaque [] 400
encode_opaque_auth (sys auth) = do
  body ← lift (to_bytes auth)
  step (write_u32 auth_sys)
  write_opaque body 400
