-- ===== src/Prelude/Lists.antt =====
-- Lists measured and cut by native numbers, under the library's names.
use Prim.Native.Nat.{ℕ, zero, suc, ◌+◌, ◌-◌, ◌≤◌, min}
use mathlib.Core.Path.{◌≡◌, refl, sym, ap, ap₂, subst}
use mathlib.Core.Bool.{Bool, true, false, not, ◌&&◌, ◌||◌}
use mathlib.Core.List.{List, [], ◌∷◌, ◌++◌}
use mathlib.Core.Option.{Option, none, some}
use native.Mathlib.Omega.{arith}
use nfs.Prelude.Tests.{some-inj, none-some, ◌==◌}

module _ {ℓ} {A : Type ℓ} where
  abbrev pub length : List A → ℕ
  length [] = 0
  length (x ∷ xs) = suc (length xs)

  abbrev pub get_elem? : List A → ℕ → Option A
  get_elem? [] i = none
  get_elem? (x ∷ xs) zero = some x
  get_elem? (x ∷ xs) (suc i) = get_elem? xs i

  -- A write out of bounds changes nothing.
  abbrev pub set : List A → ℕ → A → List A
  set [] i v = []
  set (x ∷ xs) zero v = v ∷ xs
  set (x ∷ xs) (suc i) v = x ∷ set xs i v

  abbrev pub take : ℕ → List A → List A
  take zero xs = []
  take (suc n) [] = []
  take (suc n) (x ∷ xs) = x ∷ take n xs

  abbrev pub drop : ℕ → List A → List A
  drop zero xs = xs
  drop (suc n) [] = []
  drop (suc n) (x ∷ xs) = drop n xs

  abbrev pub replicate : ℕ → A → List A
  replicate zero a = []
  replicate (suc n) a = a ∷ replicate n a

  -- `iter().last()` and `first()` of a slice.
  abbrev pub last? : List A → Option A
  last? [] = none
  last? (x ∷ []) = some x
  last? (x ∷ y ∷ xs) = last? (y ∷ xs)

  abbrev pub first? : List A → Option A
  first? [] = none
  first? (x ∷ xs) = some x

  -- `iter().all(p)` and `iter().any(p)`.
  abbrev pub all : (A → Bool) → List A → Bool
  all p [] = true
  all p (x ∷ xs) = p x && all p xs

  abbrev pub any : (A → Bool) → List A → Bool
  any p [] = false
  any p (x ∷ xs) = p x || any p xs

  -- A predicate at every element.
  abbrev pub All {κ} : (A → Type κ) → List A → Type κ
  All P [] = Unit {κ}
  All P (x ∷ xs) = P x × All P xs

module _ {ℓ} {A : Type ℓ} where
  pub length-append : (xs ys : List A) → length (xs ++ ys) ≡ length xs + length ys
  length-append [] ys = omega arith
  length-append (x ∷ xs) ys = omega (arith, length-append xs ys)

  pub take-append : (xs ys : List A) → take (length xs) (xs ++ ys) ≡ xs
  take-append [] ys = refl
  take-append (x ∷ xs) ys = ap (λ t. x ∷ t) (take-append xs ys)

  pub drop-append : (xs ys : List A) → drop (length xs) (xs ++ ys) ≡ ys
  drop-append [] ys = refl
  drop-append (x ∷ xs) ys = drop-append xs ys

  pub take-append-drop : (n : ℕ) (xs : List A) → take n xs ++ drop n xs ≡ xs
  take-append-drop zero xs = refl
  take-append-drop (suc n) [] = refl
  take-append-drop (suc n) (x ∷ xs) = rw (take-append-drop n xs)

  pub length-take : (n : ℕ) (xs : List A) → length (take n xs) ≡ min n (length xs)
  length-take zero xs = omega arith
  length-take (suc n) [] = omega arith
  length-take (suc n) (x ∷ xs) = omega (arith, length-take n xs)

  pub length-drop : (n : ℕ) (xs : List A) → length (drop n xs) ≡ length xs - n
  length-drop zero xs = omega arith
  length-drop (suc n) [] = omega arith
  length-drop (suc n) (x ∷ xs) = omega (arith, length-drop n xs)

  pub length-replicate : (n : ℕ) (a : A) → length (replicate n a) ≡ n
  length-replicate zero a = refl
  length-replicate (suc n) a = ap suc (length-replicate n a)

  pub take-all : (n : ℕ) (xs : List A) → length xs ≤ n → take n xs ≡ xs
  take-all zero [] h = refl
  take-all zero (x ∷ xs) h = absurd (omega arith)
  take-all (suc n) [] h = refl
  take-all (suc n) (x ∷ xs) h = ap (λ t. x ∷ t) (take-all n xs (omega arith))

module _ {ℓ} {A : Type ℓ} where
  -- `iter().position(p)`.
  abbrev pub position : (A → Bool) → List A → Option ℕ
  position p [] = none
  position p (x ∷ xs) =
      let later = position p xs in
      elim (p x) [ true ↦ some zero | false ↦ elim later [ none ↦ none | some i ↦ some (suc i) ] ]

  -- Where a search ended: the element found, and what stands before and after it.
  pub record Found (p : A → Bool) (xs : List A) (i : ℕ) : Type ℓ where
    pub before : List A
    pub found : A
    pub after : List A
    pub split : xs ≡ before ++ (found ∷ after)
    pub at : length before ≡ i
    pub holds : p found ≡ true
    pub fails : all (λ x. not (p x)) before ≡ true

  Found-later :
      {p : A → Bool} {xs : List A} {i : ℕ} (x : A)
      → p x ≡ false
      → Found p xs i
      → Found p (x ∷ xs) (suc i)
  Found-later x h f = record {
    before = x ∷ f.before;
    found = f.found;
    after = f.after;
    split = ap (λ t. x ∷ t) f.split;
    at = ap suc f.at;
    holds = f.holds;
    fails = rw (h, f.fails);
  }

  position-step :
      (p : A → Bool) (x : A) (xs : List A) (later : Option ℕ) (b : Bool) (i : ℕ)
      → b ≡ p x
      → ((j : ℕ) → later ≡ some j → Found p xs j)
      → elim b [ true ↦ some zero | false ↦ elim later [ none ↦ none | some i ↦ some (suc i) ] ]
        ≡ some i
      → Found p (x ∷ xs) i
  position-step p x xs later true i hb k e = record {
    before = [];
    found = x;
    after = xs;
    split = refl;
    at = some-inj e;
    holds = sym hb;
    fails = refl;
  }
  position-step p x xs none false i hb k e = absurd (none-some e)
  position-step p x xs (some j) false i hb k e =
      subst (λ n. Found p (x ∷ xs) n) (some-inj e) (Found-later x (sym hb) (k j refl))

  pub position-some : (p : A → Bool) (xs : List A) (i : ℕ) → position p xs ≡ some i → Found p xs i
  position-some p [] i e = absurd (none-some e)
  position-some p (x ∷ xs) i e =
      position-step p x xs (position p xs) (p x) i refl (λ j h. position-some p xs j h) e

  pub position-none :
      (p : A → Bool) (xs : List A) → position p xs ≡ none → all (λ x. not (p x)) xs ≡ true
  position-none p [] e = refl
  position-none p (x ∷ xs) e = by_head (p x) (position p xs) e (λ h. position-none p xs h)
    where
      by_head :
          (b : Bool) (later : Option ℕ)
          → elim b [ true ↦ some zero | false ↦ elim later [ none ↦ none | some i ↦ some (suc i) ] ]
            ≡ none
          → (later ≡ none → all (λ y. not (p y)) xs ≡ true)
          → (not b && all (λ y. not (p y)) xs) ≡ true
      by_head true later h k = cc
      by_head false none h k = k refl
      by_head false (some j) h k = cc

-- `==` of two byte sequences.
abbrev pub bytes_eq : List ℕ → List ℕ → Bool
bytes_eq [] [] = true
bytes_eq (x ∷ xs) (y ∷ ys) = x == y && bytes_eq xs ys
bytes_eq _ _ = false

pub bytes_eq→≡ : (xs ys : List ℕ) → bytes_eq xs ys ≡ true → xs ≡ ys
bytes_eq→≡ [] [] h = refl
bytes_eq→≡ [] (y ∷ ys) h = cc
bytes_eq→≡ (x ∷ xs) [] h = cc
bytes_eq→≡ (x ∷ xs) (y ∷ ys) h = by_head (x == y) refl h (bytes_eq→≡ xs ys)
  where
    by_head :
        (b : Bool)
        → b ≡ (x == y)
        → (b && bytes_eq xs ys) ≡ true
        → (bytes_eq xs ys ≡ true → xs ≡ ys)
        → (x ∷ xs) ≡ (y ∷ ys)
    by_head true e k r = let same : x ≡ y = ground arith in ap₂ (λ a bs. a ∷ bs) same (r k)
    by_head false e k r = cc

pub bytes_eq_refl : (xs : List ℕ) → bytes_eq xs xs ≡ true
bytes_eq_refl [] = refl
bytes_eq_refl (x ∷ xs) = let same : (x == x) ≡ true = ground arith in rw (same, bytes_eq_refl xs)
