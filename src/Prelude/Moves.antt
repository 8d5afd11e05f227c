-- ===== src/Prelude/Moves.antt =====
-- What every step of an action on a state keeps: a relation between the state before and the state
-- after, whatever the result.
use nfs.Prelude.Outcome.{Result, ok, err}
use nfs.Prelude.Exec.{Exec, pure, raise, lift, continue, ◌>>=◌, attempt}

pub record Preorder {ℓ κ} {S : Type ℓ} (R : S → S → Type κ) : Type (ℓ ⊔ κ) where
  pub reflexive : (s : S) → R s s
  pub transitive : {a b c : S} → R a b → R b c → R a c

pub record Moves {ℓ κ ι ν} {S : Type ℓ} {E : Type κ} {A : Type ι} (R : S → S → Type ν)
    (action : Exec S E A) : Type (ℓ ⊔ ν) where
  pub moves : (s : S) → R s (action s).1

module _ {ℓ κ ν} {S : Type ℓ} {E : Type κ} {R : S → S → Type ν} (order : Preorder R) where
  pub pure-Moves {ι} : {A : Type ι} (a : A) → Moves {E = E} R (pure a)
  pure-Moves a = record { moves = λ s. order.reflexive s }

  pub raise-Moves {ι} : {A : Type ι} (e : E) → Moves {A = A} R (raise e)
  raise-Moves e = record { moves = λ s. order.reflexive s }

  pub lift-Moves {ι} : {A : Type ι} (r : Result E A) → Moves R (lift r)
  lift-Moves r = record { moves = λ s. order.reflexive s }

  pub attempt-Moves {ι} :
      {A : Type ι} (action : Exec S E A) → Moves R action → Moves R (attempt action)
  attempt-Moves action h = record { moves = λ s. h.moves s }

  pub bind-Moves {ι μ} :
      {A : Type ι} {B : Type μ} (m : Exec S E A) (f : A → Exec S E B)
      → Moves R m
      → ((a : A) → Moves R (f a))
      → Moves R (m >>= f)
  bind-Moves {A} {B} m f h k = record { moves = λ s. by_result (m s).0 (m s).1 (h.moves s) }
    where
      by_result : {s : S} (r : Result E A) (s' : S) → R s s' → R s (continue r f s').1
      by_result (ok a) s' p = order.transitive p ((k a).moves s')
      by_result (err e) s' p = p
