-- ===== src/V4/Paging/Bounded.antt =====
-- The loop over the pages of a directory in src/v4/blocking.rs: it ends, within its limit.
use nfs.Prelude.{
  ℕ, zero, suc, ◌+◌, ◌-◌, ◌^◌, ◌≤◌, ◌<◌, ◌≡◌, refl, sym, ap, Bool, true, false, Option, none, some,
  List, [], ◌∷◌, ◌++◌, arith, min, ltb, if◌then◌else◌, length, length-append, none-some,
}
use nfs.Prelude.Outcome
use nfs.Prelude.Outcome.{Result, ok, err, ok-inj, err-ok}
use nfs.Prelude.Exec.{Exec, continue}
use nfs.Error.{Error}
use nfs.V4.Args.{Bytes, Bitmap, Fattr}
use nfs.V4.Operation.{Operation}
use nfs.V4.Response
use nfs.V4.Response.{CompoundResponse}
use nfs.V4.Recovery.Gains.{OnOk}
use nfs.V4.Paging.{
  DirPageCursor, DirEntry, cursor_behind, next_dir_cursor, from_wire, from_wires, Listing, fetch,
  within_limit, go_on, after_page, read_dir_from, out_of_fuel, first_page, read_dir_with_limit,
}

next_dir_cursor-some :
    (cookieverf : Bytes) (batch : List Response.DirEntry) (eof : Bool) (previous : ℕ)
    (cursor : DirPageCursor)
    → next_dir_cursor cookieverf batch eof previous ≡ ok (some cursor)
    → 0 < length batch
unfolding next_dir_cursor
next_dir_cursor-some cookieverf batch true previous cursor h = absurd (none-some (ok-inj h))
next_dir_cursor-some cookieverf [] false previous cursor h = absurd (err-ok h)
next_dir_cursor-some cookieverf (entry ∷ batch) false previous cursor h = omega arith

module _ {ℓ} {A : Type ℓ} (parse_basic : Fattr → Result Error A) where
  length-from_wires :
      (batch : List Response.DirEntry) (parsed : List (DirEntry A))
      → from_wires parse_basic batch ≡ ok parsed
      → length parsed ≡ length batch
  unfolding from_wires
  length-from_wires [] parsed h = sym (ap length (ok-inj h))
  length-from_wires (entry ∷ batch) parsed h =
      by_first (from_wire parse_basic entry) (from_wires parse_basic batch) h
        (λ rest e. length-from_wires batch rest e)
    where
      by_first :
          (r : Result Error (DirEntry A)) (q : Result Error (List (DirEntry A)))
          → (Outcome.◌>>=◌ r (λ first. Outcome.◌>>=◌ q (λ rest. ok (first ∷ rest)))) ≡ ok parsed
          → ((rest : List (DirEntry A)) → q ≡ ok rest → length rest ≡ length batch)
          → length parsed ≡ length (entry ∷ batch)
      by_first (err e) q k again = absurd (err-ok k)
      by_first (ok first) (err e) k again = absurd (err-ok k)
      by_first (ok first) (ok rest) k again = omega (arith, ap length (ok-inj k), again rest refl)

  module _ {κ} {S : Type κ} (compound : List Operation → Exec S Error CompoundResponse)
      (dir_size : S → ℕ) (attr_request : Bitmap) (path : Bytes) (max_entries : ℕ)
      (in_range : max_entries < 2 ^ 64 - 1) where
    abbrev Entries : Type (ℓ ⊔ κ)
    Entries = Exec S Error (List (DirEntry A))

    abbrev loop : Entries → ℕ → DirPageCursor → List (DirEntry A) → Entries
    loop exhausted fuel =
        read_dir_from parse_basic compound dir_size attr_request exhausted fuel path max_entries

    abbrev Few : List (DirEntry A) → Type 0
    Few entries = length entries ≤ max_entries

    -- Two runs that end in the same way, within the limit.
    record Alike (p q : Result Error (List (DirEntry A)) × S) : Type (ℓ ⊔ κ) where
      same : p ≡ q
      few : OnOk Few p.0

    within_limit-le :
        (so_far more : ℕ)
        → within_limit parse_basic compound dir_size attr_request max_entries so_far more ≡ ok tt
        → so_far + more ≤ max_entries
    within_limit-le so_far more h =
        by_test (ltb max_entries (min (so_far + more) (2 ^ 64 - 1))) refl h
      where
        by_test :
            (b : Bool)
            → b ≡ ltb max_entries (min (so_far + more) (2 ^ 64 - 1))
            → ◌≡◌ {A = Result Error (Unit {0})}
                (if b then err (nfs.V4.Paging.exceeded parse_basic) else ok tt)
                (ok tt)
            → so_far + more ≤ max_entries
        by_test true e k = absurd (err-ok k)
        by_test false e k =
            let low : min (so_far + more) (2 ^ 64 - 1) ≤ max_entries = ground (arith, e) in
            omega (arith, low, in_range)

    after_page-Alike :
        (again again' : DirPageCursor → List (DirEntry A) → Exec S Error (List (DirEntry A)))
        (cursor : DirPageCursor) (entries : List (DirEntry A))
        (page : Bytes × (List Response.DirEntry × Bool)) (s : S)
        → ((c : DirPageCursor) (more : List (DirEntry A)) (t : S)
            → length entries < length more
            → length more ≤ max_entries
            → Alike (again c more t) (again' c more t))
        → Alike
            (after_page parse_basic compound dir_size attr_request again max_entries cursor entries
              page s)
            (after_page parse_basic compound dir_size attr_request again' max_entries cursor entries
              page s)
    after_page-Alike again again' cursor entries (cookieverf, (batch, eof)) s k =
        by_checks (next_dir_cursor cookieverf batch eof cursor.cookie)
          (within_limit parse_basic compound dir_size attr_request max_entries (length entries)
            (length batch))
          (from_wires parse_basic batch) refl refl refl
      where
        by_checks :
            (next : Result Error (Option DirPageCursor)) (limit : Result Error (Unit {0}))
            (wires : Result Error (List (DirEntry A)))
            → next_dir_cursor cookieverf batch eof cursor.cookie ≡ next
            → within_limit parse_basic compound dir_size attr_request max_entries
                (length entries)
                (length batch)
              ≡ limit
            → from_wires parse_basic batch ≡ wires
            → Alike
                (continue next
                  (λ n. continue limit (λ _. continue wires (λ parsed.
                    go_on parse_basic compound dir_size attr_request again (entries ++ parsed) n)))
                  s)
                (continue next
                  (λ n. continue limit (λ _. continue wires (λ parsed.
                    go_on parse_basic compound dir_size attr_request again' (entries ++ parsed) n)))
                  s)
        by_checks (err e) limit wires a b c = record { same = refl; few = tt }
        by_checks (ok n) (err e) wires a b c = record { same = refl; few = tt }
        by_checks (ok n) (ok _) (err e) a b c = record { same = refl; few = tt }
        by_checks (ok none) (ok _) (ok parsed) a b c = record {
          same = refl;
          few = omega (
            arith,
            length-append entries parsed,
            length-from_wires batch parsed c,
            within_limit-le (length entries) (length batch) b,
          );
        }
        by_checks (ok (some next)) (ok _) (ok parsed) a b c =
            let size = length-from_wires batch parsed c in
            let joined = length-append entries parsed in
            k next (entries ++ parsed) s
              (omega (
                arith,
                joined,
                size,
                next_dir_cursor-some cookieverf batch eof cursor.cookie next a,
              ))
              (omega (arith, joined, size, within_limit-le (length entries) (length batch) b))

    loop-Alike :
        (exhausted exhausted' : Entries) (fuel fuel' : ℕ) (cursor : DirPageCursor)
        (entries : List (DirEntry A)) (s : S)
        → max_entries < length entries + fuel
        → max_entries < length entries + fuel'
        → length entries ≤ max_entries
        → Alike (loop exhausted fuel cursor entries s) (loop exhausted' fuel' cursor entries s)
    unfolding read_dir_from
    loop-Alike exhausted exhausted' zero fuel' cursor entries s h h' l =
        absurd (omega (arith, h, l))
    loop-Alike exhausted exhausted' (suc fuel) zero cursor entries s h h' l =
        absurd (omega (arith, h', l))
    loop-Alike exhausted exhausted' (suc fuel) (suc fuel') cursor entries s h h' l =
        by_page (fetch parse_basic compound dir_size attr_request path cursor s).0
          (fetch parse_basic compound dir_size attr_request path cursor s).1
          (λ c more t a b.
            loop-Alike exhausted exhausted' fuel fuel' c more t (omega (arith, h, a))
              (omega (arith, h', a)) b)
      where
        by_page :
            (r : Result Error (Bytes × (List Response.DirEntry × Bool))) (s' : S)
            → ((c : DirPageCursor) (more : List (DirEntry A)) (t : S)
                → length entries < length more
                → length more ≤ max_entries
                → Alike (loop exhausted fuel c more t) (loop exhausted' fuel' c more t))
            → Alike
                (continue r
                  (after_page parse_basic compound dir_size attr_request
                    (loop exhausted fuel)
                    max_entries
                    cursor
                    entries)
                  s')
                (continue r
                  (after_page parse_basic compound dir_size attr_request
                    (loop exhausted' fuel')
                    max_entries
                    cursor
                    entries)
                  s')
        by_page (err e) s' again = record { same = refl; few = tt }
        by_page (ok page) s' again =
            after_page-Alike (loop exhausted fuel) (loop exhausted' fuel') cursor entries page s'
              again

    -- Whatever pages the server sends, the listing of a directory ends, if its limit is below 2^64 - 1, the
    -- largest `usize`: with any fuel beyond the limit, and whatever would happen without fuel, the loop does
    -- the same, so it does not run out; and what it returns has no more entries than the limit. (The options
    -- accept the largest limit too, which the saturating count never exceeds.)
    pub read_dir_with_limit-bounded :
        (exhausted : Entries) (fuel : ℕ) (s : S)
        → max_entries < fuel
        → (read_dir_from parse_basic compound dir_size attr_request exhausted fuel path max_entries
              (first_page parse_basic compound dir_size attr_request)
              []
              s
            ≡ read_dir_with_limit parse_basic compound dir_size attr_request path max_entries s)
          × OnOk
              (λ entries. length entries ≤ max_entries)
              (read_dir_with_limit parse_basic compound dir_size attr_request path max_entries s).0
    unfolding read_dir_with_limit
    read_dir_with_limit-bounded exhausted fuel s h =
        let runs =
          loop-Alike (out_of_fuel parse_basic compound dir_size attr_request) exhausted
            (suc max_entries) fuel (first_page parse_basic compound dir_size attr_request) [] s
            (omega arith) (omega (arith, h)) (omega arith) in
        (sym runs.same, runs.few)
