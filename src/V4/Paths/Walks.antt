-- ===== src/V4/Paths/Walks.antt =====
-- The walks of src/v4/client.rs: which names the operations of a path look up.
use nfs.Prelude.{
  ◌≡◌, refl, sym, ap, ◌∙◌, subst, Bool, true, false, not, ◌&&◌, ◌||◌, Option, none, some, none-some,
  some-inj, List, [], ◌∷◌, ◌++◌, ltb, ◌==◌, if◌then◌else◌, length, bytes_eq, All,
}
use nfs.Prelude.Outcome.{Result, ok, err, ok-inj, err-ok, ◌>>=◌}
use nfs.Error.{Error, invalid_path, name_too_long}
use nfs.V4.Args.{Bytes}
use nfs.V4.Operation.{Operation}
use nfs.V4.Replay.{is_empty}
use nfs.V4.Setup.Options.{nfs4_opaque_limit}
use nfs.V4.Paths.{
  dot, dot_dot, onto_first, split, component, components_from, path_components, has_slash, lookups,
  path_ops, pop, popped, split_parent,
}
use nfs.V4.Paths.Names.{is_plain}

abbrev Whole : List Bytes → Type 0
Whole parts = All (λ part. has_slash part ≡ false) parts

onto_first-Whole :
    (c : nfs.Prelude.ℕ) (parts : List Bytes)
    → (c == 47) ≡ false
    → Whole parts
    → Whole (onto_first c parts)
onto_first-Whole c [] h w = (rw h refl, tt)
onto_first-Whole c (part ∷ parts) h w = (rw h w.0, w.1)

split-Whole : (path : Bytes) → Whole (split path)
unfolding split
split-Whole [] = (refl, tt)
split-Whole (c ∷ path) = by_test (c == 47) refl (split-Whole path)
  where
    by_test :
        (t : Bool)
        → t ≡ (c == 47)
        → Whole (split path)
        → Whole (if t then [] ∷ split path else onto_first c (split path))
    by_test true e w = (refl, w)
    by_test false e w = onto_first-Whole c (split path) (sym e) w

abbrev pub Plain : List Bytes → Type 0
Plain names = All (λ name. is_plain name ≡ true) names

component-Plain :
    (path part : Bytes) (rest : Result Error (List Bytes)) (names : List Bytes)
    → has_slash part ≡ false
    → ((found : List Bytes) → rest ≡ ok found → Plain found)
    → component path part rest ≡ ok names
    → Plain names
component-Plain path part rest names w k h =
    by_test (is_empty part) (bytes_eq part dot) (bytes_eq part dot_dot)
      (ltb nfs4_opaque_limit (length part)) rest refl refl refl refl k h
  where
    by_test :
        (none_left one two long : Bool) (r : Result Error (List Bytes))
        → is_empty part ≡ none_left
        → bytes_eq part dot ≡ one
        → bytes_eq part dot_dot ≡ two
        → ltb nfs4_opaque_limit (length part) ≡ long
        → ((found : List Bytes) → r ≡ ok found → Plain found)
        → (if none_left || one
            then r
            else if two
            then err (invalid_path path)
            else if long
            then err (name_too_long part nfs4_opaque_limit)
            else r >>= λ parts. ok (part ∷ parts))
          ≡ ok names
        → Plain names
    by_test true one two long r a b c d q e = q names e
    by_test false true two long r a b c d q e = q names e
    by_test false false true long r a b c d q e = absurd (err-ok e)
    by_test false false false true r a b c d q e = absurd (err-ok e)
    by_test false false false false (err x) a b c d q e = absurd (err-ok e)
    by_test false false false false (ok found) a b c d q e =
        let plain : is_plain part ≡ true = rw (a, b, c, w, d) refl in
        subst Plain (ok-inj e) (plain, q found refl)

components_from-Plain :
    (path : Bytes) (parts names : List Bytes)
    → Whole parts
    → components_from path parts ≡ ok names
    → Plain names
unfolding components_from
components_from-Plain path [] names w h = subst Plain (ok-inj h) tt
components_from-Plain path (part ∷ parts) names w h =
    component-Plain path part _ names w.0 (λ found e. components_from-Plain path parts found w.1 e)
      h

path_components-Plain :
    (path : Bytes) (names : List Bytes) → path_components path ≡ ok names → Plain names
unfolding path_components
path_components-Plain [] names h = absurd (err-ok h)
path_components-Plain (c ∷ path) names h =
    components_from-Plain (c ∷ path) (split (c ∷ path)) names (split-Whole (c ∷ path)) h

-- The operations of a path.
pub record Walk (tail : List Operation) (ops : List Operation) : Type 0 where
  pub names : List Bytes
  pub walked : ops ≡ Operation.put_root_fh ∷ (lookups names ++ tail)
  pub plain : Plain names

-- The operations of any path that is accepted start at the root and look up one entry after the other:
-- no name that is looked up is empty, too long, contains a slash, or is `.` or `..`.
pub path_ops-Walk :
    (path : Bytes) (tail ops : List Operation) → path_ops path tail ≡ ok ops → Walk tail ops
unfolding path_ops
path_ops-Walk path tail ops h = by_result (path_components path) refl h
  where
    by_result :
        (r : Result Error (List Bytes))
        → r ≡ path_components path
        → (r >>= λ names. ok (Operation.put_root_fh ∷ (lookups names ++ tail))) ≡ ok ops
        → Walk tail ops
    by_result (err e) q k = absurd (err-ok k)
    by_result (ok names) q k = record {
      names = names;
      walked = sym (ok-inj k);
      plain = path_components-Plain path names (sym q);
    }

pop-append :
    (parts parents : List Bytes) (name : Bytes)
    → pop parts ≡ some (parents, name)
    → parts ≡ parents ++ (name ∷ [])
unfolding pop
pop-append [] parents name h = absurd (none-some h)
pop-append (part ∷ parts) parents name h =
    by_rest (pop parts) refl h (λ p e. pop-append parts p.0 p.1 e)
  where
    by_rest :
        (o : Option (List Bytes × Bytes))
        → pop parts ≡ o
        → ◌≡◌ {A = Option (List Bytes × Bytes)}
            (elim o [ none ↦ some ([], part) | some p ↦ some (part ∷ p.0, p.1) ])
            (some (parents, name))
        → ((p : List Bytes × Bytes) → pop parts ≡ some p → parts ≡ p.0 ++ (p.1 ∷ []))
        → part ∷ parts ≡ parents ++ (name ∷ [])
    by_rest none q k again =
        let same = some-inj k in
        ap (λ l. part ∷ l) (pop-none parts q)
        ∙ ap (λ (p : List Bytes × Bytes). p.0 ++ (p.1 ∷ [])) same
      where
        pop-none : (l : List Bytes) → pop l ≡ none → l ≡ []
        pop-none [] e = refl
        pop-none (x ∷ l) e = by_more (pop l) e
          where
            by_more :
                (o : Option (List Bytes × Bytes))
                → ◌≡◌ {A = Option (List Bytes × Bytes)}
                    (elim o [ none ↦ some ([], x) | some p ↦ some (x ∷ p.0, p.1) ])
                    none
                → x ∷ l ≡ []
            by_more none e' = absurd (none-some (sym e'))
            by_more (some p) e' = absurd (none-some (sym e'))
    by_rest (some p) q k again =
        let same = some-inj k in
        ap (λ l. part ∷ l) (again p q) ∙ ap (λ (p' : List Bytes × Bytes). p'.0 ++ (p'.1 ∷ [])) same

-- What a path is split into are its components: the parents and, behind them, the name.
pub split_parent-components :
    (path : Bytes) (parents : List Bytes) (name : Bytes)
    → split_parent path ≡ ok (parents, name)
    → path_components path ≡ ok (parents ++ (name ∷ []))
unfolding split_parent
split_parent-components path parents name h = by_result (path_components path) h
  where
    by_parts :
        (parts : List Bytes) (o : Option (List Bytes × Bytes))
        → pop parts ≡ o
        → popped path o ≡ ok (parents, name)
        → ◌≡◌ {A = Result Error (List Bytes)} (ok parts) (ok (parents ++ (name ∷ [])))
    by_parts parts none q k = absurd (err-ok k)
    by_parts parts (some p) q k = ap ok (pop-append parts parents name (q ∙ ap some (ok-inj k)))

    by_result :
        (r : Result Error (List Bytes))
        → (r >>= λ parts. popped path (pop parts)) ≡ ok (parents, name)
        → r ≡ ok (parents ++ (name ∷ []))
    by_result (err e) k = absurd (err-ok k)
    by_result (ok parts) k = by_parts parts (pop parts) refl k
