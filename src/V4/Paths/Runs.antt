-- ===== src/V4/Paths/Runs.antt =====
-- Runs on the path `/a//b/` and the name `c`.
use nfs.Prelude.{◌≡◌, refl, ◌++◌, [], ◌∷◌}
use nfs.Prelude.Outcome.{ok}
use nfs.V4.Args.{Bytes}
use nfs.V4.Operation.{Operation}
use nfs.V4.Paths.{split, components_from, path_components, path_ops, trim_slashes, join_path}
use nfs.V4.Paths.Names.{join_path-components}
use nfs.V4.Paths.Walks.{Walk, path_ops-Walk}

abbrev path : Bytes
path = 47 ∷ 97 ∷ 47 ∷ 47 ∷ 98 ∷ 47 ∷ []

path-components : path_components path ≡ ok ((97 ∷ []) ∷ (98 ∷ []) ∷ [])
unfolding path_components split components_from
path-components = refl

path-joined : join_path path (99 ∷ []) ≡ 47 ∷ 97 ∷ 47 ∷ 47 ∷ 98 ∷ 47 ∷ 99 ∷ []
unfolding join_path trim_slashes
path-joined = refl

join_path-components_example :
    path_components (join_path path (99 ∷ []))
    ≡ ok (((97 ∷ []) ∷ (98 ∷ []) ∷ []) ++ ((99 ∷ []) ∷ []))
join_path-components_example =
    join_path-components path (99 ∷ []) ((97 ∷ []) ∷ (98 ∷ []) ∷ []) path-components refl

path-ops :
    path_ops path (Operation.get_fh ∷ [])
    ≡ ok (
        Operation.put_root_fh
        ∷ Operation.lookup (97 ∷ [])
        ∷ Operation.lookup (98 ∷ [])
        ∷ Operation.get_fh
        ∷ [])
unfolding path_ops path_components split components_from
path-ops = refl

path_ops-Walk_example : Walk (Operation.get_fh ∷ []) (
    Operation.put_root_fh
    ∷ Operation.lookup (97 ∷ [])
    ∷ Operation.lookup (98 ∷ [])
    ∷ Operation.get_fh
    ∷ [])
path_ops-Walk_example =
    path_ops-Walk path (Operation.get_fh ∷ [])
      (Operation.put_root_fh
        ∷ Operation.lookup (97 ∷ [])
        ∷ Operation.lookup (98 ∷ [])
        ∷ Operation.get_fh
        ∷ [])
      path-ops
