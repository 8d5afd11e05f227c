-- ===== src/V4/Paths.antt =====
-- src/v4/client.rs: paths, and the operations that walk to them. A text is its bytes; 47 is `/`, 46 is `.`.
pub mod Names
pub mod Walks
pub mod Runs
use nfs.Prelude.{
  ℕ, Bool, true, false, ◌&&◌, ◌||◌, Option, none, some, List, [], ◌∷◌, ◌++◌, map, ltb, ◌==◌,
  if◌then◌else◌, length, bytes_eq, any,
}
use nfs.Prelude.Outcome.{Result, ok, err, ◌>>=◌, ◌>>◌}
use nfs.Error.{Error, protocol, invalid_path, name_too_long}
use nfs.V4.Args.{Bytes}
use nfs.V4.Operation
use nfs.V4.Operation.{Operation}
use nfs.V4.Replay.{is_empty}
use nfs.V4.Setup.Options.{nfs4_opaque_limit}

abbrev pub dot : Bytes
dot = 46 ∷ []

abbrev pub dot_dot : Bytes
dot_dot = 46 ∷ 46 ∷ []

abbrev pub onto_first : ℕ → List Bytes → List Bytes
onto_first c [] = (c ∷ []) ∷ []
onto_first c (part ∷ parts) = (c ∷ part) ∷ parts

-- `split('/')`
unfoldable pub split : Bytes → List Bytes
split [] = [] ∷ []
split (c ∷ path) = let parts = split path in if c == 47 then [] ∷ parts else onto_first c parts

-- what one component adds to the components behind it
abbrev pub component : Bytes → Bytes → Result Error (List Bytes) → Result Error (List Bytes)
component path part rest =
    if is_empty part || bytes_eq part dot
    then rest
    else if bytes_eq part dot_dot
    then err (invalid_path path)
    else if ltb nfs4_opaque_limit (length part)
    then err (name_too_long part nfs4_opaque_limit)
    else rest >>= λ parts. ok (part ∷ parts)

unfoldable pub components_from : Bytes → List Bytes → Result Error (List Bytes)
components_from path [] = ok []
components_from path (part ∷ parts) = component path part (components_from path parts)

unfoldable pub path_components : Bytes → Result Error (List Bytes)
unfolding split components_from
path_components path =
    if is_empty path then err (invalid_path path) else components_from path (split path)

abbrev pub lookups : List Bytes → List Operation
lookups names = map Operation.lookup names

unfoldable pub path_ops : Bytes → List Operation → Result Error (List Operation)
unfolding path_components
path_ops path tail = do
  components ← path_components path
  ok (Operation.put_root_fh ∷ (lookups components ++ tail))

unfoldable pub public_path_ops : Bytes → List Operation → Result Error (List Operation)
unfolding path_components
public_path_ops path tail = do
  components ← path_components path
  ok (Operation.put_pub_fh ∷ (lookups components ++ tail))

abbrev pub not_root : Bytes → List Bytes → Result Error (Unit {0})
not_root path components = if is_empty components then err (invalid_path path) else ok tt

unfoldable pub parent_path_ops : Bytes → List Operation → Result Error (List Operation)
unfolding path_components
parent_path_ops path tail = do
  components ← path_components path
  not_root path components
  ok (Operation.put_root_fh ∷ (lookups components ++ (Operation.lookupp ∷ tail)))

abbrev pub has_slash : Bytes → Bool
has_slash name = any (λ c. c == 47) name

unfoldable pub validate_named_attr_name : Bytes → Result Error (Unit {0})
validate_named_attr_name name =
    if is_empty name || (bytes_eq name dot || (bytes_eq name dot_dot || has_slash name))
    then err (invalid_path name)
    else if ltb nfs4_opaque_limit (length name)
    then err (name_too_long name nfs4_opaque_limit)
    else ok tt

unfoldable pub named_attr_ops : Bytes → Bytes → List Operation → Result Error (List Operation)
unfolding validate_named_attr_name path_ops
named_attr_ops path name tail = do
  validate_named_attr_name name
  ops ← path_ops path (Operation.open_attr false ∷ Operation.lookup name ∷ [])
  ok (ops ++ tail)

-- `trim_end_matches('/')`
unfoldable pub trim_slashes : Bytes → Bytes
trim_slashes [] = []
trim_slashes (c ∷ path) =
    let rest = trim_slashes path in if is_empty rest && c == 47 then [] else c ∷ rest

unfoldable pub join_path : Bytes → Bytes → Bytes
unfolding trim_slashes
join_path parent name =
    if bytes_eq parent (47 ∷ [])
    then 47 ∷ name
    else if is_empty parent
    then name
    else trim_slashes parent ++ (47 ∷ name)

-- `pop`: the components before the last, and it
unfoldable pub pop : List Bytes → Option (List Bytes × Bytes)
pop [] = none
pop (part ∷ parts) = elim (pop parts) [ none ↦ some ([], part) | some p ↦ some (part ∷ p.0, p.1) ]

abbrev pub popped : Bytes → Option (List Bytes × Bytes) → Result Error (List Bytes × Bytes)
popped path none = err (invalid_path path)
popped path (some p) = ok p

unfoldable pub split_parent : Bytes → Result Error (List Bytes × Bytes)
unfolding path_components pop
split_parent path = path_components path >>= λ components. popped path (pop components)

abbrev pub join_all : Bytes → List Bytes → Bytes
join_all parent [] = parent
join_all parent (part ∷ parts) = join_all (join_path parent part) parts

-- with the name that `temporary_name` makes from the clock, the process and a counter
unfoldable pub temporary_sibling_path : Bytes → Bytes → Result Error Bytes
unfolding split_parent join_path
temporary_sibling_path temporary_name path = do
  parts ← split_parent path
  ok (join_path (join_all (47 ∷ []) parts.0) temporary_name)

-- `Vec::push` of the operations that walk to a parent directory
unfoldable pub parent_ops : Bytes → (Bytes → List Operation) → Result Error (List Operation)
unfolding split_parent
parent_ops path tail = do
  parts ← split_parent path
  ok (Operation.put_root_fh ∷ (lookups parts.0 ++ tail parts.1))
