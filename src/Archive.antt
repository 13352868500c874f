-- ===== src/Archive.antt =====
-- The handle's entries in memory, src/pakfile.c: the lookups, and what an add checks first.
pub mod Edit
pub mod Add
pub mod AddFile
pub mod Chunks
pub mod FileStored
pub mod Find
pub mod Sound
pub mod Replace
pub mod Growth
pub mod Stored
mod Tests
use pakka.Prelude.{
  ℕ, ◌+◌, Bool, true, false, not, ◌&&◌, ◌||◌, Option, none, some, List, [], ◌∷◌, ◌++◌,
}
use pakka.Prelude.{length, ltb, leb, ◌==◌, same_bytes, if◌then◌else◌, u32}
use pakka.Status.{Result, ok, err, err_limit, err_unsafe_name, err_duplicate, err_not_found}
use pakka.Status.{err_invalid_argument, ◌>>=◌, ◌>>◌, refuse_if}
use pakka.Format.{is_wad, is_zip, geometry}
use pakka.Pak.{Entry, Pak, entry_name_size}
use pakka.Names.{unsafe_entry_name}

-- The first entry of the name.
unfoldable pub find_entry : List Entry → List ℕ → Option Entry
find_entry [] path = none
find_entry (current ∷ rest) path =
    let next = find_entry rest path in
    if same_bytes current.filename path then some current else next

unfoldable pub pakka_find_entry : Pak → List ℕ → Result Entry
pakka_find_entry archive entry_name = elim (find_entry archive.entries entry_name) [
  | none ↦ err err_not_found
  | some e ↦ ok e
]

-- The loop of pakka_entry_at with its counter.
entry_at_loop : List Entry → ℕ → ℕ → Result Entry
entry_at_loop [] i index = err err_not_found
entry_at_loop (current ∷ rest) i index =
    let next = entry_at_loop rest (i + 1) index in if i == index then ok current else next

unfoldable pub pakka_entry_at : Pak → ℕ → Result Entry
unfolding entry_at_loop
pakka_entry_at archive index =
    if leb archive.num_entries index
    then err err_not_found
    else entry_at_loop archive.entries 0 index

unfoldable pub pak_entry_name_cap : Pak → ℕ
pak_entry_name_cap archive =
    if is_zip archive.format
    then entry_name_size
    else elim (geometry archive.format) [ none ↦ 56 | some g ↦ g.name_field_len ]

unfoldable pub pak_add_preflight : Pak → List ℕ → Result (Unit {0})
unfolding pak_entry_name_cap
pak_add_preflight archive entry_name = do
  refuse_if
      (if is_wad archive.format
        then ltb (pak_entry_name_cap archive) (length entry_name)
        else leb (pak_entry_name_cap archive) (length entry_name))
      err_limit
  refuse_if (unsafe_entry_name entry_name) err_unsafe_name
  refuse_if
      (not (is_wad archive.format)
        && elim (find_entry archive.entries entry_name) [ none ↦ false | some _ ↦ true ])
      err_duplicate

-- `!archive->writable || archive->fp == NULL`
unfoldable pub not_editable : Pak → Bool
not_editable archive = not archive.writable || not archive.live

-- pak_link_copy_entry; pak_link_staged_entry is the same with `needs_rebuild` set.
unfoldable pub link_entry : Bool → Entry → Pak → Pak
link_entry needs_rebuild e pak = record pak {
  entries = pak.entries ++ e ∷ [];
  num_entries = u32 (pak.num_entries + 1);
  dirty = true;
  needs_rebuild = needs_rebuild || pak.needs_rebuild;
}
