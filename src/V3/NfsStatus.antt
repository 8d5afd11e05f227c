-- ===== src/V3/NfsStatus.antt =====
-- src/v3/proto.rs, `NfsStatus`: the NFSv3 status codes.
use nfs.Prelude.{
  ℕ, ◌≡◌, refl, Bool, true, false, inl, inr, List, [], ◌∷◌, arith, ◌==◌, if◌then◌else◌, All, ap,
  sym, ◌∙◌, not, ◌&&◌, Bool-cases, ◌↔◌,
}

pub data NfsStatus : Type 0 where
  ok perm no_ent io nxio access exist xdev nodev not_dir is_dir inval fbig : NfsStatus
  no_spc read_only_fs mlink name_too_long not_empty dquot stale remote : NfsStatus
  bad_handle not_sync bad_cookie not_supported too_small server_fault bad_type : NfsStatus
  jukebox : NfsStatus
  unknown : ℕ → NfsStatus

-- The arms of `from_u32`, in the order of the source.
abbrev pub arms : List (ℕ × NfsStatus)
arms =
    (0, ok)
    ∷ (1, perm)
    ∷ (2, no_ent)
    ∷ (5, io)
    ∷ (6, nxio)
    ∷ (13, access)
    ∷ (17, exist)
    ∷ (18, xdev)
    ∷ (19, nodev)
    ∷ (20, not_dir)
    ∷ (21, is_dir)
    ∷ (22, inval)
    ∷ (27, fbig)
    ∷ (28, no_spc)
    ∷ (30, read_only_fs)
    ∷ (31, mlink)
    ∷ (63, name_too_long)
    ∷ (66, not_empty)
    ∷ (69, dquot)
    ∷ (70, stale)
    ∷ (71, remote)
    ∷ (10001, bad_handle)
    ∷ (10002, not_sync)
    ∷ (10003, bad_cookie)
    ∷ (10004, not_supported)
    ∷ (10005, too_small)
    ∷ (10006, server_fault)
    ∷ (10007, bad_type)
    ∷ (10008, jukebox)
    ∷ []

abbrev pub find : List (ℕ × NfsStatus) → ℕ → NfsStatus
find [] value = unknown value
find ((code, status) ∷ rest) value = if value == code then status else find rest value

unfoldable pub from_u32 : ℕ → NfsStatus
from_u32 value = find arms value

unfoldable pub as_u32 : NfsStatus → ℕ
as_u32 ok = 0
as_u32 perm = 1
as_u32 no_ent = 2
as_u32 io = 5
as_u32 nxio = 6
as_u32 access = 13
as_u32 exist = 17
as_u32 xdev = 18
as_u32 nodev = 19
as_u32 not_dir = 20
as_u32 is_dir = 21
as_u32 inval = 22
as_u32 fbig = 27
as_u32 no_spc = 28
as_u32 read_only_fs = 30
as_u32 mlink = 31
as_u32 name_too_long = 63
as_u32 not_empty = 66
as_u32 dquot = 69
as_u32 stale = 70
as_u32 remote = 71
as_u32 bad_handle = 10001
as_u32 not_sync = 10002
as_u32 bad_cookie = 10003
as_u32 not_supported = 10004
as_u32 too_small = 10005
as_u32 server_fault = 10006
as_u32 bad_type = 10007
as_u32 jukebox = 10008
as_u32 (unknown value) = value

-- Every arm of `from_u32` is inverse to its arm of `as_u32`.
find-as_u32 :
    (table : List (ℕ × NfsStatus)) (value : ℕ)
    → All (λ arm. as_u32 arm.1 ≡ arm.0) table
    → as_u32 (find table value) ≡ value
unfolding as_u32
find-as_u32 [] value h = refl
find-as_u32 ((code, status) ∷ rest) value h = ground (arith, find-as_u32 rest value h.1)

-- Every status code, known or not, survives the translation: the number of `from_u32 value` is value.
pub as_u32-from_u32 : (value : ℕ) → as_u32 (from_u32 value) ≡ value
unfolding from_u32
as_u32-from_u32 value = find-as_u32 arms value (unfold as_u32 in omega arith)

unfoldable pub is_named : NfsStatus → Bool
is_named (unknown value) = false
is_named _ = true

-- A status that the source names is read back from its number.
pub from_u32-as_u32 :
    (status : NfsStatus) → is_named status ≡ true → from_u32 (as_u32 status) ≡ status
unfolding from_u32 as_u32 is_named
from_u32-as_u32 (unknown value) h = cc
from_u32-as_u32 _ h = refl

-- The derived `PartialEq`: the same number, and either both unknown or both not.
unfoldable pub eq : NfsStatus → NfsStatus → Bool
eq a b = as_u32 a == as_u32 b && (if is_named a then is_named b else not (is_named b))

named_eq : (a b : NfsStatus) → is_named a ≡ true → is_named b ≡ true → as_u32 a ≡ as_u32 b → a ≡ b
named_eq a b p q e = sym (from_u32-as_u32 a p) ∙ ap from_u32 e ∙ from_u32-as_u32 b q

unnamed_eq :
    (a b : NfsStatus) → is_named a ≡ false → is_named b ≡ false → as_u32 a ≡ as_u32 b → a ≡ b
unfolding as_u32 is_named
unnamed_eq (unknown a) (unknown b) p q e = ap unknown e
unnamed_eq (unknown a) _ p q e = cc
unnamed_eq _ b p q e = cc

eq→≡ : (a b : NfsStatus) → eq a b ≡ true → a ≡ b
eq→≡ a b h = elim (Bool-cases (is_named a)) [
  | inl p ↦ named_eq a b p (unfold eq in ground arith) (unfold eq in ground arith)
  | inr p ↦ unnamed_eq a b p (unfold eq in ground arith) (unfold eq in ground arith)
]

eq_refl : (a : NfsStatus) → eq a a ≡ true
unfolding eq
eq_refl a = ground arith

-- The comparison decides equality of statuses.
pub eq_iff : (a b : NfsStatus) → (eq a b ≡ true) ↔ (a ≡ b)
eq_iff a b = (eq→≡ a b, λ e. rw e (eq_refl b))
