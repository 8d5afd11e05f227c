-- ===== src/V4/Snapshots.antt =====
-- The lock registry of src/v4/client.rs as the list of states that `snapshot` gives: `restore` writes one of
-- them.
use nfs.Prelude.{
  ℕ, zero, suc, ◌<◌, ◌≡◌, ◌≢◌, refl, sym, ap, ◌∙◌, none, some, some-inj, none-some, List, [], ◌∷◌,
  ◌++◌, arith, length, get_elem?, set, All,
}
use nfs.V4.Locks.{LockState, LockRegistry, read_all, snapshot, restore}
use nfs.V4.Tokens.{Distinct, WellFormed, get-set, get-set_other, restore-entry}

pub set-middle :
    {A : Type 0} (done : List A) (a b : A) (rest : List A)
    → set (done ++ (a ∷ rest)) (length done) b ≡ done ++ (b ∷ rest)
set-middle [] a b rest = refl
set-middle (x ∷ done) a b rest = ap (λ l. x ∷ l) (set-middle done a b rest)

read_all-cons :
    (heap : List LockState) (cell : ℕ) (cells : List ℕ) (state : LockState)
    → get_elem? heap cell ≡ some state
    → read_all heap (cell ∷ cells) ≡ state ∷ read_all heap cells
read_all-cons heap cell cells state e =
    ap (λ o. elim o [ none ↦ read_all heap cells | some s ↦ s ∷ read_all heap cells ]) e

read_all-apart :
    (heap : List LockState) (cell : ℕ) (state : LockState) (cells : List ℕ)
    → All (λ other. cell ≢ other) cells
    → read_all (set heap cell state) cells ≡ read_all heap cells
read_all-apart heap cell state [] h = refl
read_all-apart heap cell state (c ∷ cells) h =
    let tails = read_all-apart heap cell state cells h.1 in
    let heads = get-set_other heap cell c state h.0 in
    ap
      (λ o. elim o [
        | none ↦ read_all (set heap cell state) cells
        | some s ↦ s ∷ read_all (set heap cell state) cells
      ])
      heads
    ∙ ap (λ l. elim (get_elem? heap c) [ none ↦ l | some s ↦ s ∷ l ]) tails

get-inside :
    (heap : List LockState) (cell : ℕ)
    → cell < length heap
    → (state : LockState) × (get_elem? heap cell ≡ some state)
get-inside [] cell h = absurd (omega arith)
get-inside (s ∷ heap) zero h = (s, refl)
get-inside (s ∷ heap) (suc cell) h = get-inside heap cell (omega arith)

apart :
    (c : ℕ) (cells : List ℕ) (i cell : ℕ)
    → All (λ other. c ≢ other) cells
    → get_elem? cells i ≡ some cell
    → cell ≢ c
apart c [] i cell h e = absurd (none-some e)
apart c (d ∷ cells) zero cell h e = λ q. h.0 (sym q ∙ sym (some-inj e))
apart c (d ∷ cells) (suc i) cell h e = apart c cells i cell h.1 e

read_all-set :
    (heap : List LockState) (cells : List ℕ) (i cell : ℕ) (state : LockState)
    → All (λ c. c < length heap) cells
    → Distinct cells
    → get_elem? cells i ≡ some cell
    → read_all (set heap cell state) cells ≡ set (read_all heap cells) i state
read_all-set heap [] i cell state h d e = absurd (none-some e)
read_all-set heap (c ∷ cells) zero cell state h d e =
    let there = get-inside heap c h.0 in
    let same = some-inj e in
    ap (λ k. read_all (set heap k state) (c ∷ cells)) (sym same)
    ∙ read_all-cons (set heap c state) c cells state (get-set heap c state h.0)
    ∙ ap (λ l. state ∷ l) (read_all-apart heap c state cells d.0)
    ∙ sym (ap (λ l. set l 0 state) (read_all-cons heap c cells there.0 there.1))
read_all-set heap (c ∷ cells) (suc i) cell state h d e =
    let there = get-inside heap c h.0 in
    let still = get-set_other heap cell c state (apart c cells i cell d.0 e) ∙ there.1 in
    read_all-cons (set heap cell state) c cells there.0 still
    ∙ ap (λ l. there.0 ∷ l) (read_all-set heap cells i cell state h.1 d.1 e)
    ∙ sym (ap (λ l. set l (suc i) state) (read_all-cons heap c cells there.0 there.1))

length-read_all :
    (heap : List LockState) (cells : List ℕ)
    → All (λ c. c < length heap) cells
    → length (read_all heap cells) ≡ length cells
length-read_all heap [] h = refl
length-read_all heap (c ∷ cells) h =
    let there = get-inside heap c h.0 in
    ap length (read_all-cons heap c cells there.0 there.1) ∙ ap suc (length-read_all heap cells h.1)

entry-at :
    (cells : List ℕ) (i : ℕ) → i < length cells → (cell : ℕ) × (get_elem? cells i ≡ some cell)
entry-at [] i h = absurd (omega arith)
entry-at (c ∷ cells) zero h = (c, refl)
entry-at (c ∷ cells) (suc i) h = entry-at cells i (omega arith)

-- Within the registry, `restore` writes the state at its index and no other.
pub snapshot-restore :
    (r : LockRegistry) (index : ℕ) (state : LockState)
    → WellFormed r
    → index < length (snapshot r)
    → snapshot (restore r index state) ≡ set (snapshot r) index state
unfolding snapshot
snapshot-restore r index state w h =
    let many : length (read_all r.heap r.entries) ≡ length r.entries =
      length-read_all r.heap r.entries w.in_heap in
    let cell = entry-at r.entries index (omega (arith, many, h)) in
    ap snapshot (restore-entry r index cell.0 state cell.1)
    ∙ read_all-set r.heap r.entries index cell.0 state w.in_heap w.distinct cell.1
