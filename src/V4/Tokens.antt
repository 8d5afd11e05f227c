-- ===== src/V4/Tokens.antt =====
-- The lock registry of src/v4/client.rs: what a token sees after each operation on the registry.
use nfs.Prelude.{
  ℕ, zero, suc, ◌+◌, ◌≤◌, ◌<◌, ◌≡◌, ◌≢◌, refl, sym, ap, ◌∙◌, Bool, true, false, not, ◌||◌, Option,
  none, some, List, [], ◌∷◌, ◌++◌, arith, ◌==◌, if◌then◌else◌, length, length-append, get_elem?,
  set, All, any,
}
use nfs.Prelude.Outcome.{ok, err}
use nfs.Error.{protocol}
use nfs.V4.Locks.{
  LockState, LockRegistry, ByteRangeLock, register, holds_cell, state_at, get, retain_others,
  remove, restore,
}

abbrev pub Distinct : List ℕ → Type 0
Distinct [] = Unit {0}
Distinct (cell ∷ cells) = All (λ other. cell ≢ other) cells × Distinct cells

-- Every entry is a cell of the heap, and no two share one.
pub record WellFormed (r : LockRegistry) : Type 0 where
  pub in_heap : All (λ cell. cell < length r.heap) r.entries
  pub distinct : Distinct r.entries

All-weaken :
    (n m : ℕ) (cells : List ℕ) → n ≤ m → All (λ cell. cell < n) cells → All (λ cell. cell < m) cells
All-weaken n m [] h p = tt
All-weaken n m (cell ∷ cells) h p = (omega (arith, p.0), All-weaken n m cells h p.1)

All-snoc :
    (n cell : ℕ) (cells : List ℕ)
    → cell < n
    → All (λ c. c < n) cells
    → All (λ c. c < n) (cells ++ (cell ∷ []))
All-snoc n cell [] h p = (h, tt)
All-snoc n cell (c ∷ cells) h p = (p.0, All-snoc n cell cells h p.1)

All-retain :
    (n cell : ℕ) (cells : List ℕ)
    → All (λ c. c < n) cells
    → All (λ c. c < n) (retain_others cell cells)
All-retain n cell [] p = tt
All-retain n cell (c ∷ cells) p = by_test (c == cell) (All-retain n cell cells p.1)
  where
    by_test :
        (b : Bool)
        → All (λ c. c < n) (retain_others cell cells)
        → All (λ c. c < n) (if b then retain_others cell cells else c ∷ retain_others cell cells)
    by_test true rest = rest
    by_test false rest = (p.0, rest)

All-snoc_apart :
    (n cell : ℕ) (cells : List ℕ)
    → cell < n
    → All (λ other. cell ≢ other) cells
    → All (λ other. cell ≢ other) (cells ++ (n ∷ []))
All-snoc_apart n cell [] h p = (λ e. absurd (omega (arith, h, e)), tt)
All-snoc_apart n cell (c ∷ cells) h p = (p.0, All-snoc_apart n cell cells h p.1)

Distinct-snoc :
    (n : ℕ) (cells : List ℕ)
    → All (λ c. c < n) cells
    → Distinct cells
    → Distinct (cells ++ (n ∷ []))
Distinct-snoc n [] h p = (tt, tt)
Distinct-snoc n (cell ∷ cells) h p =
    (All-snoc_apart n cell cells h.0 p.0, Distinct-snoc n cells h.1 p.1)

All-retain_apart :
    (c cell : ℕ) (cells : List ℕ)
    → All (λ other. c ≢ other) cells
    → All (λ other. c ≢ other) (retain_others cell cells)
All-retain_apart c cell [] p = tt
All-retain_apart c cell (d ∷ cells) p = by_test (d == cell) (All-retain_apart c cell cells p.1)
  where
    by_test :
        (b : Bool)
        → All (λ other. c ≢ other) (retain_others cell cells)
        → All
            (λ other. c ≢ other)
            (if b then retain_others cell cells else d ∷ retain_others cell cells)
    by_test true rest = rest
    by_test false rest = (p.0, rest)

Distinct-retain : (cell : ℕ) (cells : List ℕ) → Distinct cells → Distinct (retain_others cell cells)
Distinct-retain cell [] p = tt
Distinct-retain cell (c ∷ cells) p = by_test (c == cell) (Distinct-retain cell cells p.1)
  where
    by_test :
        (b : Bool)
        → Distinct (retain_others cell cells)
        → Distinct (if b then retain_others cell cells else c ∷ retain_others cell cells)
    by_test true rest = rest
    by_test false rest = (All-retain_apart c cell cells p.0, rest)

holds_cell-snoc : (cells : List ℕ) (cell : ℕ) → holds_cell (cells ++ (cell ∷ [])) cell ≡ true
holds_cell-snoc [] cell = let same : (cell == cell) ≡ true = ground arith in rw same
holds_cell-snoc (c ∷ cells) cell = rw (holds_cell-snoc cells cell) (or-true (c == cell))
  where
    or-true : (b : Bool) → (b || true) ≡ true
    or-true true = refl
    or-true false = refl

pub holds_cell-retain :
    (cells : List ℕ) (cell : ℕ) → holds_cell (retain_others cell cells) cell ≡ false
holds_cell-retain [] cell = refl
holds_cell-retain (c ∷ cells) cell = by_test (c == cell) refl (holds_cell-retain cells cell)
  where
    by_test :
        (b : Bool)
        → b ≡ (c == cell)
        → holds_cell (retain_others cell cells) cell ≡ false
        → holds_cell (if b then retain_others cell cells else c ∷ retain_others cell cells) cell
          ≡ false
    by_test true e h = h
    by_test false e h = rw (← e) h

holds_cell-retain_other :
    (cells : List ℕ) (cell other : ℕ)
    → other ≢ cell
    → holds_cell (retain_others cell cells) other ≡ holds_cell cells other
holds_cell-retain_other [] cell other d = refl
holds_cell-retain_other (c ∷ cells) cell other d =
    by_test (c == cell) refl (holds_cell-retain_other cells cell other d)
  where
    by_test :
        (b : Bool)
        → b ≡ (c == cell)
        → holds_cell (retain_others cell cells) other ≡ holds_cell cells other
        → holds_cell (if b then retain_others cell cells else c ∷ retain_others cell cells) other
          ≡ holds_cell (c ∷ cells) other
    by_test true e h = let no : (c == other) ≡ false = ground (arith, e, d) in rw (no, h)
    by_test false e h = rw h

get-snoc :
    (heap : List LockState) (state : LockState)
    → get_elem? (heap ++ (state ∷ [])) (length heap) ≡ some state
get-snoc [] state = refl
get-snoc (s ∷ heap) state = get-snoc heap state

pub get-set :
    (heap : List LockState) (i : ℕ) (state : LockState)
    → i < length heap
    → get_elem? (set heap i state) i ≡ some state
get-set [] i state h = absurd (omega arith)
get-set (s ∷ heap) zero state h = refl
get-set (s ∷ heap) (suc i) state h = get-set heap i state (omega arith)

pub get-set_other :
    (heap : List LockState) (i j : ℕ) (state : LockState)
    → i ≢ j
    → get_elem? (set heap i state) j ≡ get_elem? heap j
get-set_other [] i j state d = refl
get-set_other (s ∷ heap) zero zero state d = absurd (d refl)
get-set_other (s ∷ heap) zero (suc j) state d = refl
get-set_other (s ∷ heap) (suc i) zero state d = refl
get-set_other (s ∷ heap) (suc i) (suc j) state d = get-set_other heap i j state (λ e. d (ap suc e))

pub length-set :
    (heap : List LockState) (i : ℕ) (state : LockState) → length (set heap i state) ≡ length heap
length-set [] i state = refl
length-set (s ∷ heap) zero state = refl
length-set (s ∷ heap) (suc i) state = ap suc (length-set heap i state)

All-get :
    (n : ℕ) (cells : List ℕ) (i cell : ℕ)
    → All (λ c. c < n) cells
    → get_elem? cells i ≡ some cell
    → cell < n
All-get n [] i cell p e = absurd (nfs.Prelude.none-some e)
All-get n (c ∷ cells) zero cell p e = omega (arith, p.0, nfs.Prelude.some-inj e)
All-get n (c ∷ cells) (suc i) cell p e = All-get n cells i cell p.1 e

holds_cell-get :
    (cells : List ℕ) (i cell : ℕ) → get_elem? cells i ≡ some cell → holds_cell cells cell ≡ true
holds_cell-get [] i cell e = absurd (nfs.Prelude.none-some e)
holds_cell-get (c ∷ cells) zero cell e =
    let same : (c == cell) ≡ true = ground (arith, nfs.Prelude.some-inj e) in rw same
holds_cell-get (c ∷ cells) (suc i) cell e = rw (holds_cell-get cells i cell e) (or-true (c == cell))
  where
    or-true : (b : Bool) → (b || true) ≡ true
    or-true true = refl
    or-true false = refl

state_at-some :
    (heap : List LockState) (cell : ℕ) (state : LockState)
    → get_elem? heap cell ≡ some state
    → state_at heap cell ≡ ok state
state_at-some heap cell state e =
    ap (λ o. elim o [ none ↦ err (protocol "no such cell") | some s ↦ ok s ]) e

state_at-same :
    (heap heap' : List LockState) (cell : ℕ)
    → get_elem? heap cell ≡ get_elem? heap' cell
    → state_at heap cell ≡ state_at heap' cell
state_at-same heap heap' cell e =
    ap (λ (o : Option LockState). elim o [ none ↦ err (protocol "no such cell") | some s ↦ ok s ]) e

pub restore-entry :
    (r : LockRegistry) (index cell : ℕ) (state : LockState)
    → get_elem? r.entries index ≡ some cell
    → restore r index state ≡ record r { heap = set r.heap cell state }
unfolding restore
restore-entry r index cell state e =
    ap (λ o. elim o [ none ↦ r | some c ↦ record r { heap = set r.heap c state } ]) e

get-cell :
    (r : LockRegistry) (lock : ByteRangeLock) (state : LockState)
    → holds_cell r.entries lock.state ≡ true
    → get_elem? r.heap lock.state ≡ some state
    → get r lock ≡ ok state
unfolding get
get-cell r lock state h e = rw h (state_at-some r.heap lock.state state e)

get-same :
    (heap heap' : List LockState) (entries : List ℕ) (lock : ByteRangeLock)
    → get_elem? heap lock.state ≡ get_elem? heap' lock.state
    → get (record { heap = heap; entries = entries }) lock
      ≡ get (record { heap = heap'; entries = entries }) lock
unfolding get
get-same heap heap' entries lock e =
    ap
      (λ o.
        if not (holds_cell entries lock.state)
        then err (protocol "lock belongs to a different client or was already released")
        else o)
      (state_at-same heap heap' lock.state e)

-- A new lock's token reads the state that was registered, until the lock is removed; then it is refused,
-- and the removal changes nothing for any other lock.
pub register-get-remove :
    (r : LockRegistry) (state : LockState) (other : ByteRangeLock)
    → other.state ≢ (register r state).0.state
    → (get (register r state).1 (register r state).0 ≡ ok state)
      × (get (remove (register r state).1 (register r state).0) (register r state).0
          ≡ err (protocol "lock belongs to a different client or was already released"))
      × (get (remove (register r state).1 (register r state).0) other
          ≡ get (register r state).1 other)
unfolding register get remove
register-get-remove r state other d = (
  get-cell (register r state).1 (register r state).0 state
      (holds_cell-snoc r.entries (length r.heap)) (get-snoc r.heap state),
  rw (holds_cell-retain (r.entries ++ (length r.heap ∷ [])) (length r.heap)),
  rw (holds_cell-retain_other (r.entries ++ (length r.heap ∷ [])) (length r.heap) other.state d),
)

-- What recovery writes for a lock, the token that the application holds reads, and no other token is
-- affected.
pub restore-get :
    (r : LockRegistry) (index : ℕ) (state : LockState) (lock other : ByteRangeLock)
    → WellFormed r
    → get_elem? r.entries index ≡ some lock.state
    → other.state ≢ lock.state
    → (get (restore r index state) lock ≡ ok state)
      × (get (restore r index state) other ≡ get r other)
restore-get r index state lock other w e d =
    let inside : lock.state < length r.heap = All-get _ r.entries index lock.state w.in_heap e in
    let written = restore-entry r index lock.state state e in
    (
      ap (λ r'. get r' lock) written
          ∙ get-cell (record r { heap = set r.heap lock.state state }) lock state
              (holds_cell-get r.entries index lock.state e)
              (get-set r.heap lock.state state inside),
      ap (λ r'. get r' other) written
          ∙ get-same (set r.heap lock.state state) r.heap r.entries other
              (get-set_other r.heap lock.state other.state state (λ q. d (sym q))),
    )

pub restore-WellFormed :
    (r : LockRegistry) (index : ℕ) (state : LockState)
    → WellFormed r
    → WellFormed (restore r index state)
unfolding restore
restore-WellFormed r index state w = by_entry (get_elem? r.entries index)
  where
    by_entry :
        (o : Option ℕ)
        → WellFormed (elim o [ none ↦ r | some cell ↦ record r { heap = set r.heap cell state } ])
    by_entry none = w
    by_entry (some cell) = record {
      in_heap = rw (length-set r.heap cell state) w.in_heap;
      distinct = w.distinct;
    }

-- Registering, removing and restoring keep every entry in the heap, and no two entries
-- share a cell.
pub registry-WellFormed :
    (r : LockRegistry) (state : LockState) (index : ℕ) (lock : ByteRangeLock)
    → WellFormed r
    → WellFormed (register r state).1
      × WellFormed (remove r lock)
      × WellFormed (restore r index state)
unfolding register remove
registry-WellFormed r state index lock w = (
  record {
    in_heap =
        let longer : length (r.heap ++ (state ∷ [])) ≡ suc (length r.heap) =
          omega (arith, length-append r.heap (state ∷ [])) in
        rw longer (
          All-snoc _ (length r.heap) r.entries (omega arith)
            (All-weaken _ _ r.entries (omega arith) w.in_heap));
    distinct = Distinct-snoc (length r.heap) r.entries w.in_heap w.distinct;
  },
  record {
    in_heap = All-retain _ lock.state r.entries w.in_heap;
    distinct = Distinct-retain lock.state r.entries w.distinct;
  },
  restore-WellFormed r index state w,
)
