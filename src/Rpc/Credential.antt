-- ===== src/Rpc/Credential.antt =====
-- The AUTH_SYS credential of src/rpc.rs on the wire: the sizes that make its encoding succeed.
use nfs.Prelude.{
  ℕ, zero, suc, ◌+◌, ◌-◌, ◌*◌, ◌%◌, ◌≤◌, ◌<◌, ◌≡◌, refl, ap, Bool, true, false, List, [], ◌∷◌, ◌++◌,
  arith, ltb, leb, if◌then◌else◌, length, take, length-append, length-take, length-replicate, min,
}
use nfs.Prelude.Outcome.{ok}
use nfs.Prelude.Exec.{◌>>◌}
use nfs.Xdr.{padding_len, checked_u32_len, u32_max}
use nfs.Xdr.Words.{u32_to_be, length-u32_to_be}
use nfs.Xdr.Encoder
use nfs.Xdr.Encoder.{
  u32_encode, Encoding, extend, step, into_bytes, write_u32, write_len, write_opaque, write_string,
  write_fixed_opaque, write_items, write_array, write_padding, to_bytes,
}
use nfs.Xdr.Wire.{Writes, Writes-step, Writes-bind, Writes-pure}
use nfs.Rpc.{auth_none, auth_sys, auth_sys_machine_name_max}
use nfs.Rpc.Auth.{
  AuthSys, Auth, normalize_auxiliary_gids, normalize_machine_name, normalized_machine_name_len,
  encode_auth_sys, auth_sys_encode, encode_opaque_auth, back_to_boundary,
}
use nfs.Rpc.Gids.{normalize_auxiliary_gids-IsNormalized}

-- The action succeeds, and appends at most n bytes.
pub record Fits (m : Encoding) (n : ℕ) : Type 0 where
  pub wire : List ℕ
  pub written : Writes m wire
  pub small : length wire ≤ n

Fits-bind : (m w : Encoding) (a b n : ℕ) → a + b ≤ n → Fits m a → Fits w b → Fits (m >> w) n
Fits-bind m w a b n h p q = record {
  wire = p.wire ++ q.wire;
  written = Writes-bind m (λ _. w) p.written q.written;
  small = omega (arith, length-append p.wire q.wire, p.small, q.small);
}

Fits-u32 : (v : ℕ) → Fits (step (write_u32 v)) 4
unfolding write_u32
Fits-u32 v = record {
  wire = u32_to_be v;
  written = Writes-step (u32_to_be v);
  small = omega (arith, length-u32_to_be v);
}

Fits-len : (n limit : ℕ) → n ≤ limit → limit ≤ u32_max → Fits (write_len n limit) 4
unfolding write_len checked_u32_len write_u32
Fits-len n limit h hl =
    let a : ltb limit n ≡ false = ground arith in
    let b : ltb u32_max n ≡ false = ground arith in rw (a, b) (Fits-u32 n)

Fits-opaque :
    (bs : List ℕ) (limit : ℕ)
    → length bs ≤ limit
    → limit ≤ u32_max
    → Fits (write_opaque bs limit) (4 + (limit + 3))
unfolding write_opaque write_fixed_opaque write_padding padding_len
Fits-opaque bs limit h hl =
    Fits-bind _ _ 4 (limit + 3) _ (omega arith) (Fits-len (length bs) limit h hl) (record {
      wire = bs ++ pad;
      written = record { appended = λ e. ap (λ b. (ok tt, record { bytes = b })) (assoc e.bytes) };
      small =
          omega (arith, length-append bs pad, length-replicate {A = ℕ} (padding_len (length bs)) 0);
    })
  where
    pad : List ℕ
    pad = nfs.Prelude.replicate (padding_len (length bs)) 0

    assoc : (es : List ℕ) → (es ++ bs) ++ pad ≡ es ++ (bs ++ pad)
    assoc es = nfs.Prelude.append_assoc es bs pad

Fits-items : (gids : List ℕ) → Fits (write_items gids) (4 * length gids)
unfolding write_items
Fits-items [] = record { wire = []; written = Writes-pure; small = omega arith }
Fits-items (gid ∷ gids) =
    Fits-bind _ _ 4 (4 * length gids) _ (omega arith) (Fits-u32 gid) (Fits-items gids)

Fits-weaken : (m : Encoding) (a b : ℕ) → a ≤ b → Fits m a → Fits m b
Fits-weaken m a b h p = record {
  wire = p.wire;
  written = p.written;
  small = omega (arith, p.small);
}

Fits-array :
    (gids : List ℕ) (limit : ℕ)
    → length gids ≤ limit
    → limit ≤ u32_max
    → Fits (write_array gids limit) (4 + 4 * limit)
unfolding write_array
Fits-array gids limit h hl =
    Fits-bind _ _ 4 (4 * limit) _ (omega arith) (Fits-len (length gids) limit h hl)
      (Fits-weaken _ (4 * length gids) _ (omega arith) (Fits-items gids))

back_to_boundary-le : (text : List ℕ) (n : ℕ) → back_to_boundary text n ≤ n
unfolding back_to_boundary
back_to_boundary-le text zero = omega arith
back_to_boundary-le text (suc n) = let h = back_to_boundary-le text n in ground arith

normalize_machine_name-le :
    (name : List ℕ) → length (normalize_machine_name name) ≤ auth_sys_machine_name_max
unfolding normalize_machine_name normalized_machine_name_len
normalize_machine_name-le name =
    let h = back_to_boundary-le name auth_sys_machine_name_max in
    ground (arith, length-take (normalized_machine_name_len name) name)

encode_auth_sys-Fits : (auth : AuthSys) → Fits (encode_auth_sys auth) 350
unfolding encode_auth_sys write_string
encode_auth_sys-Fits auth = Fits-bind _ _ 4 346 350 (omega arith) (Fits-u32 auth.stamp) (
    Fits-bind _ _ 262 84 346 (omega arith)
      (Fits-opaque (normalize_machine_name auth.machine_name) 255
        (normalize_machine_name-le auth.machine_name) (omega arith))
      (Fits-bind _ _ 4 80 84 (omega arith) (Fits-u32 auth.uid) (
        Fits-bind _ _ 4 76 80 (omega arith) (Fits-u32 auth.gid) (
          Fits-weaken _ 68 76 (omega arith) (
            Fits-array (normalize_auxiliary_gids auth.gid auth.gids) 16
              (normalize_auxiliary_gids-IsNormalized auth.gid auth.gids).bounded (omega arith))))))

sys-Fits :
    (body : List ℕ)
    → length body ≤ 350
    → Fits (step (write_u32 auth_sys) >> write_opaque body 400) 411
sys-Fits body h =
    Fits-bind _ _ 4 407 411 (omega arith) (Fits-u32 auth_sys)
      (Fits-opaque body 400 (omega arith) (omega arith))

-- The credential of any call is encoded without an error and appends at most 411 bytes, however long
-- its machine name and however many its groups are: its body is always within the 400 bytes that the
-- protocol allows.
pub encode_opaque_auth-Fits : (auth : Auth) → Fits (encode_opaque_auth auth) 411
unfolding encode_opaque_auth to_bytes
encode_opaque_auth-Fits Auth.none =
    Fits-bind _ _ 4 407 411 (omega arith) (Fits-u32 auth_none)
      (Fits-opaque [] 400 (omega arith) (omega arith))
encode_opaque_auth-Fits (Auth.sys auth) =
    let p = encode_auth_sys-Fits auth in
    rw (ap into_bytes ((p.written).appended Encoder.new)) (sys-Fits p.wire p.small)
