-- ===== src/V4/Paths/Names.antt =====
-- The paths of src/v4/client.rs: what a joined path is made of, and which names are ever looked up.
use nfs.Prelude.{
  ℕ, ◌≡◌, refl, sym, ap, ◌∙◌, subst, Bool, true, false, not, ◌&&◌, ◌||◌, List, [], ◌∷◌, ◌++◌, ltb,
  ◌==◌, if◌then◌else◌, length, bytes_eq, bytes_eq→≡,
}
use nfs.Prelude.Outcome.{Result, ok, err, ok-inj, err-ok, ◌>>=◌}
use nfs.Error.{Error, invalid_path, name_too_long}
use nfs.V4.Args.{Bytes}
use nfs.V4.Replay.{is_empty}
use nfs.V4.Setup.Options.{nfs4_opaque_limit}
use nfs.V4.Paths.{
  dot, dot_dot, onto_first, split, component, components_from, path_components, has_slash,
  trim_slashes, join_path,
}

-- A name of one directory entry: it goes neither up nor down.
abbrev pub is_plain : Bytes → Bool
is_plain name =
    not (is_empty name)
    && (not (bytes_eq name dot)
        && (not (bytes_eq name dot_dot)
            && (not (has_slash name) && not (ltb nfs4_opaque_limit (length name)))))

-- The first part of a path, and the parts behind it.
record Parts (path : Bytes) : Type 0 where
  first : Bytes
  more : List Bytes
  parts : split path ≡ first ∷ more

by_slash : ℕ → Bool → List Bytes → List Bytes
by_slash c t parts = if t then [] ∷ parts else onto_first c parts

split-Parts : (path : Bytes) → Parts path
unfolding split
split-Parts [] = record { first = []; more = []; parts = refl }
split-Parts (c ∷ path) = by_test (c == 47) refl (split-Parts path)
  where
    by_test : (t : Bool) → t ≡ (c == 47) → Parts path → Parts (c ∷ path)
    by_test true e rest = record { first = []; more = split path; parts = rw (← e) refl }
    by_test false e rest = record {
      first = c ∷ rest.first;
      more = rest.more;
      parts = rw (← e) (ap (onto_first c) rest.parts);
    }

split-append : (a b : Bytes) → split (a ++ (47 ∷ b)) ≡ split a ++ split b
unfolding split
split-append [] b = refl
split-append (c ∷ a) b = by_test (c == 47) (split-append a b)
  where
    by_test :
        (t : Bool)
        → split (a ++ (47 ∷ b)) ≡ split a ++ split b
        → (if t then [] ∷ split (a ++ (47 ∷ b)) else onto_first c (split (a ++ (47 ∷ b))))
          ≡ (if t then [] ∷ split a else onto_first c (split a)) ++ split b
    by_test true e = ap (λ l. [] ∷ l) e
    by_test false e =
        let view = split-Parts a in
        ap (onto_first c) (e ∙ ap (λ l. l ++ split b) view.parts)
        ∙ sym (ap (λ l. onto_first c l ++ split b) view.parts)

split-name : (name : Bytes) → has_slash name ≡ false → split name ≡ name ∷ []
unfolding split
split-name [] h = refl
split-name (c ∷ name) h = by_test (c == 47) refl h (split-name name)
  where
    by_test :
        (t : Bool)
        → t ≡ (c == 47)
        → (t || has_slash name) ≡ false
        → (has_slash name ≡ false → split name ≡ name ∷ [])
        → (if t then [] ∷ split name else onto_first c (split name)) ≡ (c ∷ name) ∷ []
    by_test true e k again = cc
    by_test false e k again = ap (onto_first c) (again k)

-- Where the components are found, the path that an error would name does not matter.
component-ok :
    (path path' : Bytes) (part : Bytes) (rest rest' : Result Error (List Bytes))
    (names : List Bytes)
    → ((found : List Bytes) → rest ≡ ok found → rest' ≡ ok found)
    → component path part rest ≡ ok names
    → component path' part rest' ≡ ok names
component-ok path path' part rest rest' names k h =
    by_test (is_empty part || bytes_eq part dot) (bytes_eq part dot_dot)
      (ltb nfs4_opaque_limit (length part)) rest k h
  where
    by_test :
        (skip up long : Bool) (r : Result Error (List Bytes))
        → ((found : List Bytes) → r ≡ ok found → rest' ≡ ok found)
        → (if skip
            then r
            else if up
            then err (invalid_path path)
            else if long
            then err (name_too_long part nfs4_opaque_limit)
            else r >>= λ parts. ok (part ∷ parts))
          ≡ ok names
        → (if skip
            then rest'
            else if up
            then err (invalid_path path')
            else if long
            then err (name_too_long part nfs4_opaque_limit)
            else rest' >>= λ parts. ok (part ∷ parts))
          ≡ ok names
    by_test true up long r q e = q names e
    by_test false true long r q e = absurd (err-ok e)
    by_test false false true r q e = absurd (err-ok e)
    by_test false false false (err x) q e = absurd (err-ok e)
    by_test false false false (ok found) q e =
        ap (λ (x : Result Error (List Bytes)). x >>= λ parts. ok (part ∷ parts)) (q found refl) ∙ e

components_from-path :
    (path path' : Bytes) (parts names : List Bytes)
    → components_from path parts ≡ ok names
    → components_from path' parts ≡ ok names
unfolding components_from
components_from-path path path' [] names h = h
components_from-path path path' (part ∷ parts) names h =
    component-ok path path' part _ _ names
      (λ found e. components_from-path path path' parts found e) h

component-append :
    (path : Bytes) (part : Bytes) (rest rest' : Result Error (List Bytes)) (names more : List Bytes)
    → ((found : List Bytes) → rest ≡ ok found → rest' ≡ ok (found ++ more))
    → component path part rest ≡ ok names
    → component path part rest' ≡ ok (names ++ more)
component-append path part rest rest' names more k h =
    by_test (is_empty part || bytes_eq part dot) (bytes_eq part dot_dot)
      (ltb nfs4_opaque_limit (length part)) rest k h
  where
    by_test :
        (skip up long : Bool) (r : Result Error (List Bytes))
        → ((found : List Bytes) → r ≡ ok found → rest' ≡ ok (found ++ more))
        → (if skip
            then r
            else if up
            then err (invalid_path path)
            else if long
            then err (name_too_long part nfs4_opaque_limit)
            else r >>= λ parts. ok (part ∷ parts))
          ≡ ok names
        → (if skip
            then rest'
            else if up
            then err (invalid_path path)
            else if long
            then err (name_too_long part nfs4_opaque_limit)
            else rest' >>= λ parts. ok (part ∷ parts))
          ≡ ok (names ++ more)
    by_test true up long r q e = q names e
    by_test false true long r q e = absurd (err-ok e)
    by_test false false true r q e = absurd (err-ok e)
    by_test false false false (err x) q e = absurd (err-ok e)
    by_test false false false (ok found) q e =
        ap (λ (x : Result Error (List Bytes)). x >>= λ parts. ok (part ∷ parts)) (q found refl)
        ∙ ap (λ l. ok (l ++ more)) (ok-inj e)

components_from-append :
    (path : Bytes) (parts parts' names more : List Bytes)
    → components_from path parts ≡ ok names
    → components_from path parts' ≡ ok more
    → components_from path (parts ++ parts') ≡ ok (names ++ more)
unfolding components_from
components_from-append path [] parts' names more h k = k ∙ ap (λ l. ok (l ++ more)) (ok-inj h)
components_from-append path (part ∷ parts) parts' names more h k =
    component-append path part _ _ names more
      (λ found e. components_from-append path parts parts' found more e k) h

-- Two paths with the same first part, and the same components behind it.
record SameParts (path a b : Bytes) : Type 0 where
  first : Bytes
  more : List Bytes
  more' : List Bytes
  left : split a ≡ first ∷ more
  right : split b ≡ first ∷ more'
  same : components_from path more ≡ components_from path more'

SameParts-cons :
    (path : Bytes) (c : ℕ) (t : Bool) (a b : Bytes)
    → t ≡ (c == 47)
    → SameParts path a b
    → SameParts path (c ∷ a) (c ∷ b)
unfolding split components_from
SameParts-cons path c true a b e rest = record {
  first = [];
  more = split a;
  more' = split b;
  left = rw (← e) refl;
  right = rw (← e) refl;
  same =
      ap (components_from path) rest.left
      ∙ ap (component path rest.first) rest.same
      ∙ sym (ap (components_from path) rest.right);
}
SameParts-cons path c false a b e rest = record {
  first = c ∷ rest.first;
  more = rest.more;
  more' = rest.more';
  left = rw (← e) (ap (onto_first c) rest.left);
  right = rw (← e) (ap (onto_first c) rest.right);
  same = rest.same;
}

trim_slashes-SameParts : (path a : Bytes) → SameParts path a (trim_slashes a)
unfolding split trim_slashes components_from
trim_slashes-SameParts path [] = record {
  first = [];
  more = [];
  more' = [];
  left = refl;
  right = refl;
  same = refl;
}
trim_slashes-SameParts path (c ∷ a) =
    by_tail (trim_slashes a) (c == 47) refl refl (trim_slashes-SameParts path a)
  where
    by_tail :
        (trimmed : Bytes) (t : Bool)
        → trimmed ≡ trim_slashes a
        → t ≡ (c == 47)
        → SameParts path a (trim_slashes a)
        → SameParts path (c ∷ a) (if is_empty trimmed && t then [] else c ∷ trimmed)
    by_tail [] true q e rest = record {
      first = [];
      more = split a;
      more' = [];
      left = rw (← e) refl;
      right = refl;
      same =
          let none_left : [] ∷ [] ≡ rest.first ∷ rest.more' = ap split q ∙ rest.right in
          ap (components_from path) rest.left
          ∙ ap (λ l. components_from path (l ∷ rest.more)) (sym (heads none_left))
          ∙ rest.same
          ∙ ap (components_from path) (sym (tails none_left));
    }
      where
        heads : {x y : Bytes} {xs ys : List Bytes} → x ∷ xs ≡ y ∷ ys → x ≡ y
        heads h = cc

        tails : {x y : Bytes} {xs ys : List Bytes} → x ∷ xs ≡ y ∷ ys → xs ≡ ys
        tails h = cc
    by_tail [] false q e rest =
        subst (λ b. SameParts path (c ∷ a) (c ∷ b)) (sym q)
          (SameParts-cons path c false a (trim_slashes a) e rest)
    by_tail (x ∷ xs) t q e rest =
        subst (λ b. SameParts path (c ∷ a) (c ∷ b)) (sym q)
          (SameParts-cons path c t a (trim_slashes a) e rest)

trim_slashes-components :
    (path a : Bytes)
    → components_from path (split (trim_slashes a)) ≡ components_from path (split a)
unfolding components_from
trim_slashes-components path a =
    let view = trim_slashes-SameParts path a in
    ap (components_from path) view.right
    ∙ ap (component path view.first) (sym view.same)
    ∙ sym (ap (components_from path) view.left)

plain-component :
    (path name : Bytes) (found : List Bytes)
    → is_plain name ≡ true
    → component path name (ok found) ≡ ok (name ∷ found)
plain-component path name found h =
    by_test (is_empty name) (bytes_eq name dot) (bytes_eq name dot_dot) (has_slash name)
      (ltb nfs4_opaque_limit (length name)) h
  where
    by_test :
        (none_left one two slash long : Bool)
        → (not none_left && (not one && (not two && (not slash && not long)))) ≡ true
        → (if none_left || one
            then ok found
            else if two
            then err (invalid_path path)
            else if long
            then err (name_too_long name nfs4_opaque_limit)
            else ok (name ∷ found))
          ≡ ok (name ∷ found)
    by_test true one two slash long k = cc
    by_test false true two slash long k = cc
    by_test false false true slash long k = cc
    by_test false false false true long k = cc
    by_test false false false false true k = cc
    by_test false false false false false k = refl

plain-no_slash : (name : Bytes) → is_plain name ≡ true → has_slash name ≡ false
plain-no_slash name h =
    by_test (is_empty name) (bytes_eq name dot) (bytes_eq name dot_dot) (has_slash name)
      (ltb nfs4_opaque_limit (length name)) h
  where
    by_test :
        (none_left one two slash long : Bool)
        → (not none_left && (not one && (not two && (not slash && not long)))) ≡ true
        → slash ≡ false
    by_test none_left one two false long k = refl
    by_test true one two true long k = cc
    by_test false true two true long k = cc
    by_test false false true true long k = cc
    by_test false false false true long k = cc

join_path-form :
    (parent name : Bytes)
    → is_empty parent ≡ false
    → join_path parent name ≡ trim_slashes parent ++ (47 ∷ name)
unfolding join_path
join_path-form parent name h = by_root (bytes_eq parent (47 ∷ [])) refl
  where
    by_root :
        (root : Bool)
        → root ≡ bytes_eq parent (47 ∷ [])
        → (if root
            then 47 ∷ name
            else if is_empty parent
            then name
            else trim_slashes parent ++ (47 ∷ name))
          ≡ trim_slashes parent ++ (47 ∷ name)
    by_root true e =
        ap (λ p. trim_slashes p ++ (47 ∷ name)) (sym (bytes_eq→≡ parent (47 ∷ []) (sym e)))
    by_root false e = rw h refl

join-not_empty : (a name : Bytes) → is_empty (a ++ (47 ∷ name)) ≡ false
join-not_empty [] name = refl
join-not_empty (c ∷ a) name = refl

found-not_empty :
    (path : Bytes) (names : List Bytes)
    → path_components path ≡ ok names
    → (is_empty path ≡ false) × (components_from path (split path) ≡ ok names)
unfolding path_components
found-not_empty [] names h = absurd (err-ok h)
found-not_empty (c ∷ path) names h = (refl, h)

-- A path with components, joined with the name of an entry, has the same components and then that name,
-- however many slashes the path ends in.
pub join_path-components :
    (parent name : Bytes) (names : List Bytes)
    → path_components parent ≡ ok names
    → is_plain name ≡ true
    → path_components (join_path parent name) ≡ ok (names ++ (name ∷ []))
unfolding path_components components_from
join_path-components parent name names h k =
    let found = found-not_empty parent names h in
    let joined = trim_slashes parent ++ (47 ∷ name) in
    let parts : split joined ≡ split (trim_slashes parent) ++ (name ∷ []) =
      split-append (trim_slashes parent) name
      ∙ ap (λ l. split (trim_slashes parent) ++ l) (split-name name (plain-no_slash name k)) in
    let before =
      components_from-path parent joined (split (trim_slashes parent)) names
        (trim_slashes-components parent parent ∙ found.1) in
    ap path_components (join_path-form parent name found.0)
    ∙ ap (λ b. if b then err (invalid_path joined) else components_from joined (split joined))
        (join-not_empty (trim_slashes parent) name)
    ∙ ap (components_from joined) parts
    ∙ components_from-append joined (split (trim_slashes parent)) (name ∷ []) names (name ∷ [])
        before (plain-component joined name [] k)
