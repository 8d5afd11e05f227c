-- ===== src/V4/Setup/Options.antt =====
-- src/v4/mod.rs and src/v4/blocking.rs: the options of a client, and the checks of them before the first
-- packet is sent.
use nfs.Prelude.{
  ℕ, zero, suc, ◌%◌, ◌^◌, Bool, true, ◌&&◌, ◌||◌, Option, none, some, String, List, [], ◌∷◌, ltb,
  leb, ◌==◌, if◌then◌else◌, length, min, max,
}
use nfs.Prelude.Outcome.{Result, ok, err, ◌>>◌}
use nfs.Error.{Error, protocol, invalid_target}
use nfs.Retry.{RetryPolicy}
use nfs.V4.Args.{Bytes}
use nfs.V4.Policy.{nfs4_max_io}

pub record ClientBuilder : Type 0 where
  pub host : Bytes
  pub port : ℕ
  pub owner_id : Bytes
  pub open_owner : Bytes
  pub client_owner_verifier : Bytes
  pub read_size : ℕ
  pub write_size : ℕ
  pub dir_size : ℕ
  pub max_dir_entries : ℕ
  pub max_minor_version : ℕ
  pub retry_policy : RetryPolicy

abbrev pub nfs4_opaque_limit : ℕ
nfs4_opaque_limit = 1024

-- The characters of Unicode's White_Space, by their number of bytes in UTF-8.
abbrev white_one : ℕ → Bool
white_one a = (leb 9 a && leb a 13) || a == 32

abbrev white_two : ℕ → ℕ → Bool
white_two a b = a == 194 && (b == 133 || b == 160)

abbrev white_three : ℕ → ℕ → ℕ → Bool
white_three a b c =
    (a == 225 && (b == 154 && c == 128))
    || ((a == 226 && (b == 128 && (leb 128 c && leb c 138 || (c == 168 || (c == 169 || c == 175)))))
        || ((a == 226 && (b == 129 && c == 159)) || (a == 227 && (b == 128 && c == 128))))

-- `host.trim().is_empty()`, for a valid UTF-8 text
unfoldable pub is_blank : Bytes → Bool
is_blank [] = true
is_blank (a ∷ []) = white_one a
is_blank (a ∷ b ∷ []) = (white_one a && white_one b) || white_two a b
is_blank (a ∷ b ∷ c ∷ rest) =
    let one = is_blank (b ∷ c ∷ rest) in
    let two = is_blank (c ∷ rest) in
    let three = is_blank rest in
    (white_one a && one) || ((white_two a b && two) || (white_three a b c && three))

unfoldable pub validate_host : Bytes → Result Error (Unit {0})
unfolding is_blank
validate_host host = if is_blank host then err (invalid_target host) else ok tt

unfoldable pub validate_port : ℕ → Result Error (Unit {0})
validate_port port = if port == 0 then err (protocol "{name} must be non-zero") else ok tt

unfoldable pub validate_opaque_id : Bytes → Result Error (Unit {0})
validate_opaque_id value =
    if ltb nfs4_opaque_limit (length value)
    then err (protocol "NFSv4 {name} length {} exceeds opaque limit {}")
    else ok tt

unfoldable pub validate_transfer_size : ℕ → Result Error (Unit {0})
validate_transfer_size size =
    if size == 0 || ltb nfs4_max_io size
    then err (protocol "{name} must be in 1..={} bytes")
    else ok tt

unfoldable pub validate_max_dir_entries : ℕ → Result Error (Unit {0})
validate_max_dir_entries max_dir_entries =
    if max_dir_entries == 0
    then err (protocol "max_dir_entries must be greater than zero")
    else ok tt

-- NFS4_MINOR_VERSION_SESSION_MIN is 1, NFS4_MINOR_VERSION_LATEST is 2.
unfoldable pub validate_minor_version : ℕ → Result Error (Unit {0})
validate_minor_version minor_version =
    if leb 1 minor_version && leb minor_version 2
    then ok tt
    else err (protocol "{name} must be in {}..={}")

-- the checks of `connect_session`, in order
unfoldable pub validate_builder : ClientBuilder → Result Error (Unit {0})
unfolding validate_host validate_port validate_opaque_id validate_transfer_size
    validate_max_dir_entries validate_minor_version
validate_builder builder = do
  validate_host builder.host
  validate_port builder.port
  validate_opaque_id builder.owner_id
  validate_opaque_id builder.open_owner
  validate_transfer_size builder.read_size
  validate_transfer_size builder.write_size
  validate_transfer_size builder.dir_size
  validate_max_dir_entries builder.max_dir_entries
  validate_minor_version builder.max_minor_version

-- from the largest down to 1
unfoldable pub negotiated_minor_versions : ℕ → List ℕ
negotiated_minor_versions zero = []
negotiated_minor_versions (suc n) = suc n ∷ negotiated_minor_versions n

unfoldable pub require_minor_version : String → ℕ → ℕ → Result Error (Unit {0})
require_minor_version operation negotiated required =
    if leb required negotiated
    then ok tt
    else err (
        protocol
          "NFSv4 operation {operation} requires minor version {required}, negotiated {negotiated}")

unfoldable pub clamp_io_size : Option ℕ → ℕ → ℕ
clamp_io_size none configured_limit = configured_limit
clamp_io_size (some zero) configured_limit = configured_limit
clamp_io_size (some (suc n)) configured_limit = max (min configured_limit (suc n)) 1 % 2 ^ 32
