-- ===== src/V4/Paging.antt =====
-- src/v4/client.rs and src/v4/blocking.rs: directories and device lists, which come in pages.
--
-- The parsing of an entry's attributes, and the request of the attributes that the server supports, are
-- parameters.
pub mod Bounded
pub mod Runs
use nfs.Prelude.{
  ℕ, zero, suc, ◌+◌, ◌-◌, ◌/◌, ◌^◌, Bool, true, false, Option, none, some, List, [], ◌∷◌, ◌++◌, min,
  max, ltb, ◌==◌, if◌then◌else◌, length, last?, replicate, ◌||◌,
}
use nfs.Prelude.Outcome
use nfs.Prelude.Outcome.{Result, ok, err}
use nfs.Prelude.Exec.{Exec, pure, raise, lift, ◌>>=◌, ◌>>◌}
use nfs.Error.{Error, protocol}
use nfs.V4.Args.{Bytes, Bitmap, Fattr}
use nfs.V4.Transfer.{GetDeviceListResult}
use nfs.V4.Operation
use nfs.V4.Operation.{Operation}
use nfs.V4.Response
use nfs.V4.Response.{CompoundResponse}
use nfs.V4.Extract.Transfers.{response_readdir}
use nfs.V4.Setup.Options.{validate_max_dir_entries}
use nfs.V4.Paths.{path_ops}

pub record DirPageCursor : Type 0 where
  pub cookie : ℕ
  pub cookieverf : Bytes

-- With parsed attributes, of the type A.
pub record DirEntry {ℓ} (A : Type ℓ) : Type ℓ where
  pub cookie : ℕ
  pub name : Bytes
  pub attributes : A

pub record DirPage {ℓ} (A : Type ℓ) : Type ℓ where
  pub entries : List (DirEntry A)
  pub next_cursor : Option DirPageCursor

-- the page behind the last entry, which has to be another one than before
abbrev pub cursor_behind :
    Bytes → ℕ → Option Response.DirEntry → Result Error (Option DirPageCursor)
cursor_behind cookieverf previous_cookie none =
    err (protocol "NFSv4 READDIR returned no entries before EOF")
cursor_behind cookieverf previous_cookie (some last) =
    if last.cookie == previous_cookie
    then err (protocol "NFSv4 READDIR did not advance directory cookie {previous_cookie}")
    else ok (some (record { cookie = last.cookie; cookieverf = cookieverf }))

unfoldable pub next_dir_cursor :
    Bytes → List Response.DirEntry → Bool → ℕ → Result Error (Option DirPageCursor)
next_dir_cursor cookieverf entries true previous_cookie = ok none
next_dir_cursor cookieverf entries false previous_cookie =
    cursor_behind cookieverf previous_cookie (last? entries)

-- A `DeviceListCursor` has the fields of a `DirPageCursor`.
pub record DeviceListPage : Type 0 where
  pub device_ids : List Bytes
  pub next_cursor : Option DirPageCursor

unfoldable pub next_device_list_cursor : ℕ → Bytes → Bool → ℕ → Result Error (Option DirPageCursor)
next_device_list_cursor cookie cookieverf true previous_cookie = ok none
next_device_list_cursor cookie cookieverf false previous_cookie =
    if cookie == previous_cookie
    then err (protocol "NFSv4 GETDEVICELIST did not advance device-list cookie {previous_cookie}")
    else ok (some (record { cookie = cookie; cookieverf = cookieverf }))

unfoldable pub device_list_page_from_result :
    GetDeviceListResult → ℕ → ℕ → Result Error DeviceListPage
unfolding next_device_list_cursor
device_list_page_from_result result previous_cookie max_device_ids =
    if ltb max_device_ids (length result.device_ids)
    then err
        (protocol "NFSv4 GETDEVICELIST exceeded configured limit of {max_device_ids} device ids")
    else Outcome.◌>>=◌
        (next_device_list_cursor result.cookie result.cookieverf result.eof previous_cookie)
        (λ next_cursor. ok (record { device_ids = result.device_ids; next_cursor = next_cursor }))

unfoldable pub validate_max_device_ids : ℕ → Result Error ℕ
validate_max_device_ids max_device_ids =
    if max_device_ids == 0 || ltb (2 ^ 32 - 1) max_device_ids
    then err (protocol "max_device_ids must be in 1..={}")
    else ok max_device_ids

module _ {ℓ} {A : Type ℓ} (parse_basic : Fattr → Result Error A) where
  unfoldable pub from_wire : Response.DirEntry → Result Error (DirEntry A)
  from_wire entry = Outcome.◌>>=◌ (parse_basic entry.attrs) (λ attributes.
      ok (record { cookie = entry.cookie; name = entry.name; attributes = attributes }))

  -- `map(DirEntry::from_wire).collect()`
  unfoldable pub from_wires : List Response.DirEntry → Result Error (List (DirEntry A))
  unfolding from_wire
  from_wires [] = ok []
  from_wires (entry ∷ entries) =
      Outcome.◌>>=◌ (from_wire entry)
        (λ first. Outcome.◌>>=◌ (from_wires entries) (λ rest. ok (first ∷ rest)))

  unfoldable pub dir_page_from_entries :
      Bytes → List Response.DirEntry → Bool → ℕ → ℕ → Result Error (DirPage A)
  unfolding next_dir_cursor from_wires
  dir_page_from_entries cookieverf entries eof previous_cookie max_entries =
      if ltb max_entries (length entries)
      then err (protocol "NFSv4 READDIR exceeded configured limit of {max_entries} entries")
      else Outcome.◌>>=◌ (next_dir_cursor cookieverf entries eof previous_cookie) (λ next_cursor.
        Outcome.◌>>=◌ (from_wires entries)
          (λ parsed. ok (record { entries = parsed; next_cursor = next_cursor })))

  abbrev pub exceeded : Error
  exceeded = protocol "NFSv4 READDIR exceeded configured limit of {max_entries} entries"

  module _ {κ} {S : Type κ} (compound : List Operation → Exec S Error CompoundResponse)
      (dir_size : S → ℕ) (attr_request : Bitmap) where
    abbrev pub Listing {ι} : Type ι → Type (κ ⊔ ι)
    Listing B = Exec S Error B

    abbrev pub read_dir_operation : DirPageCursor → ℕ → Operation
    read_dir_operation cursor size =
        Operation.read_dir cursor.cookie cursor.cookieverf (max (size / 2) 1) size attr_request

    unfoldable pub fetch : Bytes → DirPageCursor → Listing (Bytes × (List Response.DirEntry × Bool))
    fetch path cursor = do
      size ← λ s. (ok (dir_size s), s)
      operations ← lift (path_ops path (read_dir_operation cursor size ∷ []))
      response ← compound operations
      lift (response_readdir response)

    -- `saturating_add`
    abbrev pub within_limit : ℕ → ℕ → ℕ → Result Error (Unit {0})
    within_limit max_entries so_far more =
        if ltb max_entries (min (so_far + more) (2 ^ 64 - 1)) then err exceeded else ok tt

    -- after the entries of a page: the next page, or all of them
    abbrev pub go_on :
        (DirPageCursor → List (DirEntry A) → Listing (List (DirEntry A)))
        → List (DirEntry A)
        → Option DirPageCursor
        → Listing (List (DirEntry A))
    go_on again entries none = pure entries
    go_on again entries (some cursor) = again cursor entries

    abbrev pub after_page :
        (DirPageCursor → List (DirEntry A) → Listing (List (DirEntry A)))
        → ℕ
        → DirPageCursor
        → List (DirEntry A)
        → Bytes × (List Response.DirEntry × Bool)
        → Listing (List (DirEntry A))
    after_page again max_entries cursor entries (cookieverf, (batch, eof)) = do
      next ← lift (next_dir_cursor cookieverf batch eof cursor.cookie)
      lift (within_limit max_entries (length entries) (length batch))
      parsed ← lift (from_wires batch)
      go_on again (entries ++ parsed) next

    -- The loop, with `exhausted` for what happens without fuel.
    unfoldable pub read_dir_from :
        Listing (List (DirEntry A))
        → ℕ
        → Bytes
        → ℕ
        → DirPageCursor
        → List (DirEntry A)
        → Listing (List (DirEntry A))
    unfolding fetch
    read_dir_from exhausted zero path max_entries cursor entries = exhausted
    read_dir_from exhausted (suc fuel) path max_entries cursor entries = do
      page ← fetch path cursor
      after_page (read_dir_from exhausted fuel path max_entries) max_entries cursor entries page

    abbrev pub out_of_fuel : Listing (List (DirEntry A))
    out_of_fuel = raise (protocol "out of fuel")

    abbrev pub first_page : DirPageCursor
    first_page = record { cookie = 0; cookieverf = replicate 8 0 }

    -- A page that is not the last has an entry, so below the largest limit the fuel is not used up.
    unfoldable pub read_dir_with_limit : Bytes → ℕ → Listing (List (DirEntry A))
    unfolding read_dir_from
    read_dir_with_limit path max_entries =
        read_dir_from out_of_fuel (suc max_entries) path max_entries first_page []

    unfoldable pub read_dir_limited : ℕ → Bytes → ℕ → Listing (List (DirEntry A))
    unfolding read_dir_with_limit
    read_dir_limited max_dir_entries path max_entries = do
      lift (validate_max_dir_entries max_entries)
      read_dir_with_limit path (min max_entries max_dir_entries)

    unfoldable pub read_dir_page_limited :
        ℕ → Bytes → Option DirPageCursor → ℕ → Listing (DirPage A)
    unfolding fetch dir_page_from_entries
    read_dir_page_limited max_dir_entries path cursor max_entries = do
      lift (validate_max_dir_entries max_entries)
      page ← fetch path (start cursor)
      lift (
          dir_page_from_entries page.0 (page.1).0 (page.1).1 (start cursor).cookie
            (min max_entries max_dir_entries))
      where
        start : Option DirPageCursor → DirPageCursor
        start none = first_page
        start (some c) = c
