-- ===== src/V3/MountStatus.antt =====
-- src/v3/mount.rs, `MountStatus`: the status codes of the MOUNT protocol.
use nfs.Prelude.{ℕ, ◌≡◌, refl, Bool, true, false, List, [], ◌∷◌, arith, ◌==◌, if◌then◌else◌, All}

pub data MountStatus : Type 0 where
  ok perm no_ent io access not_dir invalid name_too_long not_supported : MountStatus
  server_fault : MountStatus
  unknown : ℕ → MountStatus

-- The arms of `from_u32`, in the order of the source.
abbrev pub arms : List (ℕ × MountStatus)
arms =
    (0, ok)
    ∷ (1, perm)
    ∷ (2, no_ent)
    ∷ (5, io)
    ∷ (13, access)
    ∷ (20, not_dir)
    ∷ (22, invalid)
    ∷ (63, name_too_long)
    ∷ (10004, not_supported)
    ∷ (10006, server_fault)
    ∷ []

abbrev pub find : List (ℕ × MountStatus) → ℕ → MountStatus
find [] value = unknown value
find ((code, status) ∷ rest) value = if value == code then status else find rest value

unfoldable pub from_u32 : ℕ → MountStatus
from_u32 value = find arms value

-- The number that `repr(u32)` gives each constructor.
unfoldable pub as_u32 : MountStatus → ℕ
as_u32 ok = 0
as_u32 perm = 1
as_u32 no_ent = 2
as_u32 io = 5
as_u32 access = 13
as_u32 not_dir = 20
as_u32 invalid = 22
as_u32 name_too_long = 63
as_u32 not_supported = 10004
as_u32 server_fault = 10006
as_u32 (unknown value) = value

-- Every arm of `from_u32` is inverse to its arm of `as_u32`.
find-as_u32 :
    (table : List (ℕ × MountStatus)) (value : ℕ)
    → All (λ arm. as_u32 arm.1 ≡ arm.0) table
    → as_u32 (find table value) ≡ value
unfolding as_u32
find-as_u32 [] value h = refl
find-as_u32 ((code, status) ∷ rest) value h = ground (arith, find-as_u32 rest value h.1)

-- Every status code, known or not, survives the translation: the number of `from_u32 value` is value.
pub as_u32-from_u32 : (value : ℕ) → as_u32 (from_u32 value) ≡ value
unfolding from_u32
as_u32-from_u32 value = find-as_u32 arms value (unfold as_u32 in omega arith)

unfoldable pub is_named : MountStatus → Bool
is_named (unknown value) = false
is_named _ = true

-- A status that the source names is read back from its number.
pub from_u32-as_u32 :
    (status : MountStatus) → is_named status ≡ true → from_u32 (as_u32 status) ≡ status
unfolding from_u32 as_u32 is_named
from_u32-as_u32 (unknown value) h = cc
from_u32-as_u32 _ h = refl
