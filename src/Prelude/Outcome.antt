-- ===== src/Prelude/Outcome.antt =====
-- Rust's `Result`: a value or an error, and the `?` operator as bind.
use mathlib.Core.Path.{◌≡◌, refl}

pub data Result {ℓ κ} (E : Type ℓ) (A : Type κ) : Type (ℓ ⊔ κ) where
  ok : A → Result E A
  err : E → Result E A

module _ {ℓ κ} {E : Type ℓ} {A : Type κ} where
  pub ok-inj : {a b : A} → ◌≡◌ {A = Result E A} (ok a) (ok b) → a ≡ b
  ok-inj e = cc

  pub err-ok : {e : E} {a : A} → ◌≡◌ {A = Result E A} (err e) (ok a) → ⊥
  err-ok h = cc

module _ {ℓ κ ι} {E : Type ℓ} {A : Type κ} {B : Type ι} where
  -- `m?` before the rest of a function.
  infixl 5 ◌>>=◌
  abbrev pub ◌>>=◌ : Result E A → (A → Result E B) → Result E B
  ◌>>=◌ (err failure) rest = err failure
  ◌>>=◌ (ok value) rest = rest value

module _ {ℓ κ} {E : Type ℓ} {B : Type κ} where
  infixl 5 ◌>>◌
  abbrev pub ◌>>◌ : Result E (Unit {0}) → Result E B → Result E B
  check >> rest = check >>= λ _. rest

  pub then-ok :
      (check : Result E (Unit {0})) (rest : Result E B) {value : B}
      → (check >> rest) ≡ ok value
      → (check ≡ ok tt) × (rest ≡ ok value)
  then-ok (ok _) rest h = (refl, h)
  then-ok (err failure) rest h = absurd (err-ok h)

module _ {ℓ κ ι} {E : Type ℓ} {F : Type κ} {A : Type ι} where
  abbrev pub map_err : (E → F) → Result E A → Result F A
  map_err convert (ok value) = ok value
  map_err convert (err failure) = err (convert failure)
