-- ===== src/V4/Paging/Runs.antt =====
-- Runs on a directory that comes in two pages.
use nfs.Prelude.{
  ℕ, zero, suc, ◌+◌, Bool, ◌≤◌, ◌≡◌, refl, true, false, none, List, [], ◌∷◌, arith, length, map,
  replicate,
}
use nfs.Prelude.Outcome.{Result, ok, err}
use nfs.Prelude.Exec.{pure}
use nfs.Error.{Error, protocol}
use nfs.V4.Status
use nfs.V4.OpCode
use nfs.V4.Args.{Bytes, Fattr}
use nfs.V4.Operation.{Operation}
use nfs.V4.Response
use nfs.V4.Response.{CompoundResponse}
use nfs.V4.Extract.Transfers.{response_readdir}
use nfs.V4.Paths.{split, components_from, path_components, path_ops}
use nfs.V4.Recovery.Gains.{OnOk}
use nfs.V4.Paging.{
  DirEntry, first_page, next_dir_cursor, from_wires, read_dir_from, read_dir_with_limit,
}
use nfs.V4.Paging.Bounded.{read_dir_with_limit-bounded}

abbrev entry : ℕ → Response.DirEntry
entry cookie = record {
  cookie = cookie;
  name = (96 + cookie) ∷ [];
  attrs = record { attrmask = []; attr_vals = [] };
}

abbrev reply : List Response.DirEntry → Bool → CompoundResponse
reply entries eof = record {
  status = Status.ok;
  tag = [];
  results =
      Response.OperationResult.sequence Status.ok none
      ∷ Response.OperationResult.status_only OpCode.put_root_fh Status.ok
      ∷ Response.OperationResult.read_dir Status.ok (replicate 8 1) entries eof
      ∷ [];
}

abbrev pages : List Operation → Unit {0} → Result Error CompoundResponse × Unit {0}
pages (Operation.put_root_fh ∷ (Operation.read_dir zero verf dircount maxcount attrs ∷ [])) s =
    (ok (reply (entry 1 ∷ entry 2 ∷ []) false), s)
pages
      (Operation.put_root_fh
        ∷ (Operation.read_dir (suc (suc zero)) verf dircount maxcount attrs ∷ []))
      s =
    (ok (reply (entry 3 ∷ []) true), s)
pages operations s = (err (protocol "no such page"), s)

abbrev bare : Fattr → Result Error (Unit {0})
bare attrs = ok tt

abbrev root : Bytes
root = 47 ∷ []

read_dir_with_limit-bounded_example :
    (read_dir_from bare pages
        (λ s. 512)
        []
        (pure [])
        20
        root
        8
        (first_page bare pages (λ s. 512) [])
        []
        tt
      ≡ read_dir_with_limit bare pages (λ s. 512) [] root 8 tt)
    × OnOk
        (λ entries. length entries ≤ 8)
        (read_dir_with_limit bare pages (λ s. 512) [] root 8 tt).0
read_dir_with_limit-bounded_example =
    read_dir_with_limit-bounded bare pages (λ s. 512) [] root 8 (omega arith) (pure []) 20 tt
      (omega arith)

abbrev cookies : Result Error (List (DirEntry (Unit {0}))) → List ℕ
cookies (ok entries) = map (λ e. e.cookie) entries
cookies (err e) = []

pages_joined : cookies (read_dir_with_limit bare pages (λ s. 512) [] root 8 tt).0 ≡ 1 ∷ 2 ∷ 3 ∷ []
unfolding read_dir_with_limit next_dir_cursor from_wires path_ops path_components split
    components_from response_readdir Status.is_ok
pages_joined = refl
