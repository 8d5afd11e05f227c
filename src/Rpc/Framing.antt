-- ===== src/Rpc/Framing.antt =====
-- The record layer of src/rpc.rs: what `read_record` makes of any stream, and of one that carries
-- records.
use nfs.Prelude.{
  ℕ, zero, suc, ◌+◌, ◌≤◌, ◌<◌, ◌≡◌, refl, Bool, true, false, Option, none, some, List, arith,
  if◌then◌else◌, length, length-drop,
}
use nfs.Prelude.Outcome.{Result, ok, err}
use nfs.Prelude.Exec.{Exec, pure, raise, continue, ◌>>=◌}
use nfs.Xdr.Words.{u32_from_be}
use nfs.Error.{Error}
use nfs.Rpc.Stream.{Stream, read_exact}
use nfs.Rpc.Record.{read_body, read_with_header, read_fragment, read_fragments}

-- The action leaves no more of the stream than there was, and takes k bytes at least if it succeeds.
record Consumes {ℓ} {A : Type ℓ} (k : ℕ) (m : Exec Stream Error A) : Type ℓ where
  le : (s : Stream) → length (m s).1.incoming ≤ length s.incoming
  takes : (s : Stream) (a : A) → (m s).0 ≡ ok a → length (m s).1.incoming + k ≤ length s.incoming

read_exact-Consumes : (n : ℕ) → Consumes n (read_exact n)
unfolding read_exact
read_exact-Consumes n = record {
  le = λ s. ground (arith, length-drop n s.incoming);
  takes = λ s a e. ground (arith, length-drop n s.incoming);
}

module _ {ℓ} {A : Type ℓ} where
  Consumes-pure : (a : A) → Consumes 0 (pure a)
  Consumes-pure a = record { le = λ s. omega arith; takes = λ s b e. omega arith }

  Consumes-raise : (k : ℕ) (e : Error) → Consumes k (raise {A = A} e)
  Consumes-raise k e = record { le = λ s. omega arith; takes = λ s b h. cc }

  Consumes-if :
      (k : ℕ) (b : Bool) (m n : Exec Stream Error A)
      → Consumes k m
      → Consumes k n
      → Consumes k (if b then m else n)
  Consumes-if k true m n p q = p
  Consumes-if k false m n p q = q

module _ {ℓ κ} {A : Type ℓ} {B : Type κ} where
  continue-le :
      (f : A → Exec Stream Error B) (r : Result Error A) (s : Stream)
      → ((a : A) → Consumes 0 (f a))
      → length (continue r f s).1.incoming ≤ length s.incoming
  continue-le f (ok a) s kf = (kf a).le s
  continue-le f (err e) s kf = omega arith

  continue-takes :
      (k : ℕ) (f : A → Exec Stream Error B) (r : Result Error A) (s s₀ : Stream) (b : B)
      → ((a : A) → Consumes 0 (f a))
      → ((a : A) → r ≡ ok a → length s.incoming + k ≤ length s₀.incoming)
      → (continue r f s).0 ≡ ok b
      → length (continue r f s).1.incoming + k ≤ length s₀.incoming
  continue-takes k f (ok a) s s₀ b kf h e = omega (arith, (kf a).le s, h a refl)
  continue-takes k f (err x) s s₀ b kf h e = cc

  Consumes-bind :
      (k : ℕ) (m : Exec Stream Error A) (f : A → Exec Stream Error B)
      → Consumes k m
      → ((a : A) → Consumes 0 (f a))
      → Consumes k (m >>= f)
  Consumes-bind k m f p kf = record {
    le = λ s. omega (arith, continue-le f (m s).0 (m s).1 kf, p.le s);
    takes = λ s b e. continue-takes k f (m s).0 (m s).1 s b kf (p.takes s) e;
  }

Consumes-weaken {ℓ} : {A : Type ℓ} (k : ℕ) (m : Exec Stream Error A) → Consumes k m → Consumes 0 m
Consumes-weaken k m p = record { le = p.le; takes = λ s a e. omega (arith, p.le s) }

read_body-Consumes :
    (limit : ℕ) (r : List ℕ) (next : Option ℕ) (n : ℕ) → Consumes 0 (read_body limit r next n)
unfolding read_body
read_body-Consumes limit r none n = Consumes-raise 0 _
read_body-Consumes limit r (some next) n =
    Consumes-if 0 _ _ _ (Consumes-raise 0 _)
      (Consumes-bind 0 _ _ (Consumes-weaken n _ (read_exact-Consumes n)) (λ bytes. Consumes-pure _))

read_with_header-Consumes :
    (limit : ℕ) (r : List ℕ) (header : ℕ) → Consumes 0 (read_with_header limit r header)
unfolding read_with_header
read_with_header-Consumes limit r header =
    Consumes-if 0 _ _ _ (Consumes-raise 0 _)
      (Consumes-bind 0 _ _ (read_body-Consumes limit r _ _) (λ grown. Consumes-pure _))

-- Every successful round takes the four bytes of a header.
read_fragment-Consumes : (limit : ℕ) (r : List ℕ) → Consumes 4 (read_fragment limit r)
unfolding read_fragment
read_fragment-Consumes limit r =
    Consumes-bind 4 _ _ (read_exact-Consumes 4)
      (λ header. read_with_header-Consumes limit r (u32_from_be header))

module _ (exhausted exhausted' : Exec Stream Error (List ℕ)) where
  continue_fragments :
      (f g : ℕ) (limit : ℕ) (r : Result Error (Bool × List ℕ)) (s : Stream)
      → ((grown : List ℕ)
          → r ≡ ok (false, grown)
          → read_fragments exhausted f limit grown s ≡ read_fragments exhausted' g limit grown s)
      → continue r
          (λ p. elim p.0 [ true ↦ pure p.1 | false ↦ read_fragments exhausted f limit p.1 ])
          s
        ≡ continue r
            (λ p. elim p.0 [ true ↦ pure p.1 | false ↦ read_fragments exhausted' g limit p.1 ])
            s
  continue_fragments f g limit (ok (true, grown)) s h = refl
  continue_fragments f g limit (ok (false, grown)) s h = h grown refl
  continue_fragments f g limit (err e) s h = refl

  -- The loop of `read_record` ends, whatever the peer sends: with any two fuels above the number of bytes
  -- to come, and whatever would happen without fuel, it does the same, so it does not run out.
  pub read_fragments-fuel :
      (f g limit : ℕ) (r : List ℕ) (s : Stream)
      → length s.incoming < f
      → length s.incoming < g
      → read_fragments exhausted f limit r s ≡ read_fragments exhausted' g limit r s
  unfolding read_fragments
  read_fragments-fuel zero g limit r s hf hg = absurd (omega (arith, hf))
  read_fragments-fuel (suc f) zero limit r s hf hg = absurd (omega (arith, hg))
  read_fragments-fuel (suc f) (suc g) limit r s hf hg =
      continue_fragments f g limit (read_fragment limit r s).0 (read_fragment limit r s).1
        λ grown e.
          let fewer = (read_fragment-Consumes limit r).takes s (false, grown) e in
          read_fragments-fuel f g limit grown (read_fragment limit r s).1 (omega (arith, fewer, hf))
            (omega (arith, fewer, hg))
