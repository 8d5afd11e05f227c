-- ===== src/Rpc/Gids.antt =====
-- What `normalize_auxiliary_gids` of src/rpc.rs returns.
use nfs.Prelude.{
  ℕ, ◌≤◌, ◌<◌, ◌≡◌, refl, sym, ◌∙◌, false, ◌||◌, List, [], ◌∷◌, ◌++◌, arith, ◌==◌, if◌then◌else◌,
  length, length-append, append_assoc, append-nil, take, take-append, take-all, Bool-cases, inl,
  inr,
}
use nfs.Rpc.{auth_sys_max_groups}
use nfs.Rpc.Auth.{contains, normalize_gids_loop, normalize_auxiliary_gids}

-- No group stands in the list twice.
abbrev pub NoRepeat : List ℕ → Type 0
NoRepeat [] = Unit {0}
NoRepeat (g ∷ gs) = (contains gs g ≡ false) × NoRepeat gs

-- The limits of AUTH_SYS on supplementary groups.
pub record IsNormalized (primary_gid : ℕ) (gids : List ℕ) : Type 0 where
  pub bounded : length gids ≤ auth_sys_max_groups
  pub not_primary : contains gids primary_gid ≡ false
  pub no_repeat : NoRepeat gids

contains-snoc : (gs : List ℕ) (g h : ℕ) → contains (gs ++ (g ∷ [])) h ≡ (contains gs h || g == h)
contains-snoc [] g h = ground arith
contains-snoc (x ∷ gs) g h = ground (arith, contains-snoc gs g h)

NoRepeat-snoc :
    (gs : List ℕ) (g : ℕ) → NoRepeat gs → contains gs g ≡ false → NoRepeat (gs ++ (g ∷ []))
NoRepeat-snoc [] g n h = (refl, tt)
NoRepeat-snoc (x ∷ gs) g n h =
    (rw (contains-snoc gs g x) (ground (arith, n.0)), NoRepeat-snoc gs g n.1 (ground arith))

snoc-IsNormalized :
    (primary : ℕ) (gs : List ℕ) (g : ℕ)
    → IsNormalized primary gs
    → length gs < auth_sys_max_groups
    → (g == primary || contains gs g) ≡ false
    → IsNormalized primary (gs ++ (g ∷ []))
snoc-IsNormalized primary gs g n h e = record {
  bounded = omega (arith, length-append gs (g ∷ []));
  not_primary = rw (contains-snoc gs g primary) (ground (arith, n.not_primary));
  no_repeat = NoRepeat-snoc gs g n.no_repeat (ground arith);
}

normalize_gids_loop-IsNormalized :
    (primary : ℕ) (groups normalized : List ℕ)
    → IsNormalized primary normalized
    → length normalized < auth_sys_max_groups
    → IsNormalized primary (normalize_gids_loop primary groups normalized)
unfolding normalize_gids_loop
normalize_gids_loop-IsNormalized primary [] normalized n h = n
normalize_gids_loop-IsNormalized primary (g ∷ gs) normalized n h =
    elim (Bool-cases (g == primary || contains normalized g)) [
      | inl e ↦ rw e (normalize_gids_loop-IsNormalized primary gs normalized n h)
      | inr e ↦ rw e (elim (Bool-cases (length (normalized ++ (g ∷ [])) == auth_sys_max_groups)) [
        | inl f ↦ rw f (snoc-IsNormalized primary normalized g n h e)
        | inr f ↦ rw f (
            normalize_gids_loop-IsNormalized primary gs (normalized ++ (g ∷ []))
              (snoc-IsNormalized primary normalized g n h e)
              (ground (arith, length-append normalized (g ∷ []))))
      ])
    ]

-- Whatever groups a caller passes, at most 16 are kept, none is the primary group and none is kept
-- twice.
pub normalize_auxiliary_gids-IsNormalized :
    (primary : ℕ) (groups : List ℕ) → IsNormalized primary (normalize_auxiliary_gids primary groups)
unfolding normalize_auxiliary_gids
normalize_auxiliary_gids-IsNormalized primary groups =
    normalize_gids_loop-IsNormalized primary groups []
      (record { bounded = omega arith; not_primary = refl; no_repeat = tt }) (omega arith)

contains-append :
    (xs ys : List ℕ) (h : ℕ) → contains (xs ++ ys) h ≡ (contains xs h || contains ys h)
contains-append [] ys h = refl
contains-append (x ∷ xs) ys h = ground (arith, contains-append xs ys h)

middle_not_before : (xs ys : List ℕ) (g : ℕ) → NoRepeat (xs ++ (g ∷ ys)) → contains xs g ≡ false
middle_not_before [] ys g n = refl
middle_not_before (x ∷ xs) ys g n =
    ground (arith, contains-append xs (g ∷ ys) x, middle_not_before xs ys g n.1)

middle_not_skipped :
    (primary : ℕ) (xs ys : List ℕ) (g : ℕ)
    → IsNormalized primary (xs ++ (g ∷ ys))
    → (g == primary || contains xs g) ≡ false
middle_not_skipped primary xs ys g n = ground (
  arith,
  middle_not_before xs ys g n.no_repeat,
  contains-append xs (g ∷ ys) primary,
  n.not_primary,
)

full_at_end :
    (xs ys : List ℕ) (g : ℕ)
    → length (xs ++ (g ∷ ys)) ≤ auth_sys_max_groups
    → length (xs ++ (g ∷ [])) ≡ auth_sys_max_groups
    → xs ++ (g ∷ []) ≡ xs ++ (g ∷ ys)
full_at_end xs [] g h e = refl
full_at_end xs (y ∷ ys) g h e =
    absurd (omega (arith, length-append xs (g ∷ []), length-append xs (g ∷ y ∷ ys)))

normalize_gids_loop-fixed :
    (primary : ℕ) (gs kept : List ℕ)
    → IsNormalized primary (kept ++ gs)
    → normalize_gids_loop primary gs kept ≡ kept ++ gs
unfolding normalize_gids_loop
normalize_gids_loop-fixed primary [] kept n = sym (append-nil kept)
normalize_gids_loop-fixed primary (g ∷ gs) kept n =
    rw (middle_not_skipped primary kept gs g n)
      (elim (Bool-cases (length (kept ++ (g ∷ [])) == auth_sys_max_groups)) [
        | inl f ↦ rw f (full_at_end kept gs g n.bounded (ground arith))
        | inr f ↦ rw f (
            normalize_gids_loop-fixed primary gs (kept ++ (g ∷ []))
              (rw (append_assoc kept (g ∷ []) gs) n)
            ∙ append_assoc kept (g ∷ []) gs)
      ])

-- Groups within the limits are kept as they are, so normalising twice is normalising once: what
-- `AuthSys::new` stored is what the encoder writes.
pub normalize_auxiliary_gids-fixed :
    (primary : ℕ) (groups : List ℕ)
    → IsNormalized primary groups
    → normalize_auxiliary_gids primary groups ≡ groups
unfolding normalize_auxiliary_gids
normalize_auxiliary_gids-fixed primary groups n = normalize_gids_loop-fixed primary groups [] n

-- The groups in order, without the primary one and without what was seen before.
unfoldable pub distinct : ℕ → List ℕ → List ℕ → List ℕ
distinct primary [] seen = []
distinct primary (g ∷ gs) seen =
    let same = distinct primary gs seen in
    let more = g ∷ distinct primary gs (seen ++ (g ∷ [])) in
    if g == primary || contains seen g then same else more

take-full :
    (xs ys : List ℕ) → length xs ≡ auth_sys_max_groups → take auth_sys_max_groups (xs ++ ys) ≡ xs
take-full xs ys e = rw (← e) (take-append xs ys)

normalize_gids_loop-distinct :
    (primary : ℕ) (gs seen : List ℕ)
    → length seen < auth_sys_max_groups
    → normalize_gids_loop primary gs seen
      ≡ take auth_sys_max_groups (seen ++ distinct primary gs seen)
unfolding normalize_gids_loop distinct
normalize_gids_loop-distinct primary [] seen h =
    rw (append-nil seen) (sym (take-all auth_sys_max_groups seen (omega arith)))
normalize_gids_loop-distinct primary (g ∷ gs) seen h =
    elim (Bool-cases (g == primary || contains seen g)) [
      | inl e ↦ rw e (normalize_gids_loop-distinct primary gs seen h)
      | inr e ↦
          rw (e, ← append_assoc seen (g ∷ []) (distinct primary gs (seen ++ (g ∷ []))))
            (elim (Bool-cases (length (seen ++ (g ∷ [])) == auth_sys_max_groups)) [
              | inl f ↦ rw f (sym (take-full (seen ++ (g ∷ [])) _ (ground arith)))
              | inr f ↦ rw f (
                  normalize_gids_loop-distinct primary gs (seen ++ (g ∷ []))
                    (ground (arith, length-append seen (g ∷ []))))
            ])
    ]

-- The result is the first 16 of the distinct groups other than the primary one, in their order.
pub normalize_auxiliary_gids-distinct :
    (primary : ℕ) (groups : List ℕ)
    → normalize_auxiliary_gids primary groups
      ≡ take auth_sys_max_groups (distinct primary groups [])
unfolding normalize_auxiliary_gids
normalize_auxiliary_gids-distinct primary groups =
    normalize_gids_loop-distinct primary groups [] (omega arith)
