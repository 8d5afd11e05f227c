-- ===== src/V4/Locks.antt =====
-- src/v4/client.rs: `LockState`, `LockRegistry` and `ByteRangeLock`. A token and the registry share a
-- lock's state through an `Arc<Mutex<LockState>>`. Here the cells stand in a heap, an `Arc` is the
-- index of its cell, and `Arc::ptr_eq` compares indices. Cells are not freed.
use nfs.Prelude.{
  ℕ, Bool, true, false, not, Option, none, some, List, [], ◌∷◌, ◌++◌, ◌==◌, if◌then◌else◌, length,
  get_elem?, set, any,
}
use nfs.Prelude.Outcome.{Result, ok, err}
use nfs.Error.{Error, protocol, lock_lost}
use nfs.V4.Status.{Status}
use nfs.V4.Args.{Bytes, StateId, LockType}

pub record LockState : Type 0 where
  pub client_id : ℕ
  pub open_owner : Bytes
  pub handle : Bytes
  pub open_stateid : StateId
  pub lock_stateid : StateId
  pub lock_seqid : ℕ
  pub lock_type : LockType
  pub offset : ℕ
  pub range_length : ℕ
  pub owner : Bytes
  pub lost : Option Status

pub record ByteRangeLock : Type 0 where
  pub state : ℕ
  pub lock_type : LockType
  pub offset : ℕ
  pub range_length : ℕ
  pub owner : Bytes

pub record LockRegistry : Type 0 where
  pub heap : List LockState
  pub entries : List ℕ

abbrev pub empty : LockRegistry
empty = record { heap = []; entries = [] }

unfoldable pub register : LockRegistry → LockState → ByteRangeLock × LockRegistry
register r state = (
  record {
    state = length r.heap;
    lock_type = state.lock_type;
    offset = state.offset;
    range_length = state.range_length;
    owner = state.owner;
  },
  record { heap = r.heap ++ (state ∷ []); entries = r.entries ++ (length r.heap ∷ []) },
)

-- the entries' states, in order
abbrev pub read_all : List LockState → List ℕ → List LockState
read_all heap [] = []
read_all heap (cell ∷ cells) =
    let rest = read_all heap cells in
    elim (get_elem? heap cell) [ none ↦ rest | some state ↦ state ∷ rest ]

unfoldable pub snapshot : LockRegistry → List LockState
snapshot r = read_all r.heap r.entries

-- An index out of range would panic in the source; nothing is written then.
unfoldable pub restore : LockRegistry → ℕ → LockState → LockRegistry
restore r index state = elim (get_elem? r.entries index) [
  | none ↦ r
  | some cell ↦ record r { heap = set r.heap cell state }
]

abbrev pub holds_cell : List ℕ → ℕ → Bool
holds_cell entries cell = any (λ entry. entry == cell) entries

abbrev pub state_at : List LockState → ℕ → Result Error LockState
state_at heap cell = elim (get_elem? heap cell) [
  | none ↦ err (protocol "no such cell")
  | some state ↦ ok state
]

unfoldable pub get : LockRegistry → ByteRangeLock → Result Error LockState
get r lock =
    if not (holds_cell r.entries lock.state)
    then err (protocol "lock belongs to a different client or was already released")
    else state_at r.heap lock.state

abbrev pub retain_others : ℕ → List ℕ → List ℕ
retain_others cell [] = []
retain_others cell (entry ∷ entries) =
    let rest = retain_others cell entries in if entry == cell then rest else entry ∷ rest

unfoldable pub remove : LockRegistry → ByteRangeLock → LockRegistry
remove r lock = record r { entries = retain_others lock.state r.entries }

-- the `for` loop of `ensure_valid`
abbrev pub first_lost : List LockState → Result Error (Unit {0})
first_lost [] = ok tt
first_lost (state ∷ states) =
    let rest = first_lost states in
    elim state.lost [ none ↦ rest | some status ↦ err (lock_lost status) ]

unfoldable pub ensure_valid : LockRegistry → Result Error (Unit {0})
unfolding snapshot
ensure_valid r = first_lost (snapshot r)

unfoldable pub is_lost : LockRegistry → ByteRangeLock → Bool
is_lost r lock = elim (get_elem? r.heap lock.state) [
  | none ↦ false
  | some state ↦ elim state.lost [ none ↦ false | some status ↦ true ]
]
