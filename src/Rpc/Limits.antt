-- ===== src/Rpc/Limits.antt =====
-- src/rpc.rs: the record size that `read_record` guarantees, whatever the peer sends.
use nfs.Prelude.{
  ℕ, zero, suc, ◌≤◌, ◌≡◌, refl, subst, Bool, true, false, Option, none, some, List, [], ◌++◌, arith,
  ltb, if◌then◌else◌, length, length-append, length-take,
}
use nfs.Prelude.Outcome.{Result, ok, err, ok-inj, err-ok}
use nfs.Prelude.Exec.{Exec, pure, raise, continue, ◌>>=◌}
use nfs.Xdr.{checked_add}
use nfs.Xdr.Words.{u32_from_be}
use nfs.Error.{Error}
use nfs.Rpc.Stream.{Stream, read_exact}
use nfs.Rpc.Record.{
  read_body, is_last, fragment_len, read_with_header, read_fragment, read_fragments, out_of_fuel,
  read_record,
}

-- Every value that the action returns satisfies P.
record Yields {ℓ κ} {A : Type ℓ} (P : A → Type κ) (m : Exec Stream Error A) : Type (ℓ ⊔ κ) where
  holds : (s : Stream) (a : A) → (m s).0 ≡ ok a → P a

module _ {ℓ κ} {A : Type ℓ} (P : A → Type κ) where
  Yields-pure : (a : A) → P a → Yields P (pure a)
  Yields-pure a h = record { holds = λ s b e. subst P (ok-inj e) h }

  Yields-raise : (e : Error) → Yields P (raise e)
  Yields-raise e = record { holds = λ s b h. absurd (err-ok h) }

  Yields-if :
      (b : Bool) (m n : Exec Stream Error A)
      → Yields P m
      → (b ≡ false → Yields P n)
      → Yields P (if b then m else n)
  Yields-if true m n p q = p
  Yields-if false m n p q = q refl

module _ {ℓ ι κ ν} {A : Type ℓ} {B : Type ι} (Q : A → Type ν) (P : B → Type κ) where
  continue-holds :
      (f : A → Exec Stream Error B) (r : Result Error A) (s : Stream) (b : B)
      → ((a : A) → r ≡ ok a → Yields P (f a))
      → (continue r f s).0 ≡ ok b
      → P b
  continue-holds f (ok a) s b h e = (h a refl).holds s b e
  continue-holds f (err x) s b h e = (Yields-raise P x).holds s b e

  Yields-bind :
      (m : Exec Stream Error A) (f : A → Exec Stream Error B)
      → Yields Q m
      → ((a : A) → Q a → Yields P (f a))
      → Yields P (m >>= f)
  Yields-bind m f p h = record {
    holds = λ s b e. continue-holds f (m s).0 (m s).1 b (λ a ea. h a (p.holds s a ea)) e;
  }

read_exact-Yields : (n : ℕ) → Yields (λ bytes. length bytes ≡ n) (read_exact n)
unfolding read_exact
read_exact-Yields n = record { holds = λ s a e. ground (arith, length-take n s.incoming) }

module _ (limit : ℕ) where
  abbrev Small : List ℕ → Type 0
  Small bytes = length bytes ≤ limit

  read_body-Yields :
      (r : List ℕ) (n : ℕ) (next : Option ℕ)
      → next ≡ checked_add (length r) n
      → Yields Small (read_body limit r next n)
  unfolding read_body
  read_body-Yields r n none e = Yields-raise _ _
  read_body-Yields r n (some next) e = Yields-if _ _ _ _ (Yields-raise _ _) λ h.
      Yields-bind (λ (bytes : List ℕ). length bytes ≡ n) _ _ _ (read_exact-Yields n)
        λ bytes hb. Yields-pure _ _ (fits h bytes hb)
    where
      fits :
          ltb limit next ≡ false → (bytes : List ℕ) → length bytes ≡ n → length (r ++ bytes) ≤ limit
      fits h bytes hb = ground (arith, length-append r bytes)

  abbrev SmallSecond : Bool × List ℕ → Type 0
  SmallSecond p = length p.1 ≤ limit

  read_with_header-Yields :
      (r : List ℕ) (header : ℕ) → Yields SmallSecond (read_with_header limit r header)
  unfolding read_with_header
  read_with_header-Yields r header = Yields-if _ _ _ _ (Yields-raise _ _) λ _.
      Yields-bind Small _ _ _ (read_body-Yields r (fragment_len header) _ refl)
        λ grown hg. Yields-pure _ (is_last header, grown) hg

  read_fragment-Yields : (r : List ℕ) → Yields SmallSecond (read_fragment limit r)
  unfolding read_fragment
  read_fragment-Yields r =
      Yields-bind (λ (bytes : List ℕ). length bytes ≡ 4) _ _ _ (read_exact-Yields 4)
        λ header h. read_with_header-Yields r (u32_from_be header)

  last_round-Yields :
      (last : Bool) (grown : List ℕ) (rest : Exec Stream Error (List ℕ))
      → length grown ≤ limit
      → Yields Small rest
      → Yields Small (elim last [ true ↦ pure grown | false ↦ rest ])
  last_round-Yields true grown rest h k = Yields-pure _ _ h
  last_round-Yields false grown rest h k = k

  read_fragments-Yields :
      (fuel : ℕ) (r : List ℕ) → Yields Small (read_fragments out_of_fuel fuel limit r)
  unfolding read_fragments
  read_fragments-Yields zero r = record { holds = λ s a e. absurd (err-ok e) }
  read_fragments-Yields (suc fuel) r =
      Yields-bind SmallSecond _ _ _ (read_fragment-Yields r)
        λ p h. last_round-Yields p.0 p.1 _ h (read_fragments-Yields fuel p.1)

-- Whatever the peer sends, a record that is read has at most `max_record_size` bytes.
pub read_record-le-max_record_size :
    (limit : ℕ) (s : Stream) (bytes : List ℕ)
    → (read_record limit s).0 ≡ ok bytes
    → length bytes ≤ limit
unfolding read_record
read_record-le-max_record_size limit s bytes e =
    (read_fragments-Yields limit (suc (length s.incoming)) []).holds s bytes e
