-- ===== src/Prelude/Exec.antt =====
-- Methods that take `&mut self` and return a `Result`. What was written before an early return
-- stays written, so the state comes back beside the error too.
use nfs.Prelude.Outcome.{Result, ok, err}

abbrev pub Exec {ℓ κ ι} : Type ℓ → Type κ → Type ι → Type (ℓ ⊔ κ ⊔ ι)
Exec S E A = S → Result E A × S

module _ {ℓ κ ι} {S : Type ℓ} {E : Type κ} {A : Type ι} where
  abbrev pub pure : A → Exec S E A
  pure a s = (ok a, s)

  abbrev pub raise : E → Exec S E A
  raise e s = (err e, s)

  abbrev pub lift : Result E A → Exec S E A
  lift r s = (r, s)

module _ {ℓ κ ι ν} {S : Type ℓ} {E : Type κ} {A : Type ι} {B : Type ν} where
  abbrev pub continue : Result E A → (A → Exec S E B) → Exec S E B
  continue (ok a) f s = f a s
  continue (err e) f s = (err e, s)

  infixl 5 ◌>>=◌
  abbrev pub ◌>>=◌ : Exec S E A → (A → Exec S E B) → Exec S E B
  ◌>>=◌ m f s = continue (m s).0 f (m s).1

module _ {ℓ κ ι} {S : Type ℓ} {E : Type κ} {B : Type ι} where
  infixl 5 ◌>>◌
  abbrev pub ◌>>◌ : Exec S E (Unit {0}) → Exec S E B → Exec S E B
  m >> n = m >>= λ _. n

module _ {ℓ κ ι} {S : Type ℓ} {E : Type κ} {A : Type ι} where
  -- The result as a value, where the code goes on after a failure.
  abbrev pub attempt : Exec S E A → Exec S E (Result E A)
  attempt m s = (ok (m s).0, (m s).1)
