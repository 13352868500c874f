-- ===== src/Archive/Edit.antt =====
-- pakka_delete, pakka_rename and pakka_copy of src/pakfile.c. On an error the handle stays as it was.
use pakka.Prelude.{ℕ, ◌+◌, true, ◌||◌, Option, none, some, List, [], ◌∷◌}
use pakka.Prelude.{same_bytes, if◌then◌else◌, u32}
use pakka.Status.{Result, ok, err, err_not_found, err_invalid_argument, ◌>>◌, refuse_if}
use pakka.Format.{is_zip}
use pakka.Pak.{Entry, Pak, uint32_max}
use pakka.Archive.{find_entry, pak_add_preflight, not_editable, link_entry}

-- The list without the first entry of the name.
unfoldable pub unlink_first : List ℕ → List Entry → Option (List Entry)
unlink_first entry_name [] = none
unlink_first entry_name (current ∷ rest) =
    let next = unlink_first entry_name rest in
    if same_bytes current.filename entry_name
    then some rest
    else elim next [ none ↦ none | some rest' ↦ some (current ∷ rest') ]

-- `num_entries--` is on 32 bits.
unfoldable pub pakka_delete : Pak → List ℕ → Result Pak
pakka_delete archive entry_name = do
  refuse_if (not_editable archive) err_invalid_argument
  elim (unlink_first entry_name archive.entries) [
    | none ↦ err err_not_found
    | some entries ↦ ok (record archive {
      entries = entries;
      num_entries = u32 (archive.num_entries + uint32_max);
      dirty = true;
      needs_rebuild = true;
    })
  ]

-- The list with the first entry of the name under the new one.
unfoldable pub rename_first : List ℕ → List ℕ → List Entry → List Entry
rename_first old_name new_name [] = []
rename_first old_name new_name (current ∷ rest) =
    let next = rename_first old_name new_name rest in
    if same_bytes current.filename old_name
    then record current { filename = new_name } ∷ rest
    else current ∷ next

unfoldable pub pakka_rename : Pak → List ℕ → List ℕ → Result Pak
pakka_rename archive old_name new_name = do
  refuse_if (not_editable archive) err_invalid_argument
  elim (find_entry archive.entries old_name) [
    | none ↦ err err_not_found
    | some _ ↦
        if same_bytes old_name new_name
        then ok archive
        else pak_add_preflight archive new_name
          >> ok (record archive {
            entries = rename_first old_name new_name archive.entries;
            dirty = true;
            needs_rebuild = is_zip archive.format || archive.needs_rebuild;
          })
  ]

-- The duplicate: the source's fields under the new name. A staged payload is copied with it, and has
-- no offset yet.
unfoldable pub duplicate : List ℕ → Entry → Entry
duplicate dst_name src = record src {
  filename = dst_name;
  offset = elim src.pending [ none ↦ src.offset | some _ ↦ 0 ];
}

unfoldable pub pakka_copy : Pak → List ℕ → List ℕ → Result Pak
pakka_copy archive src_name dst_name = do
  refuse_if (not_editable archive) err_invalid_argument
  elim (find_entry archive.entries src_name) [
    | none ↦ err err_not_found
    | some src ↦
        pak_add_preflight archive dst_name
        >> ok (
            link_entry (elim src.pending [ none ↦ is_zip archive.format | some _ ↦ true ])
              (duplicate dst_name src) archive)
  ]
