-- ===== src/Commit.antt =====
-- pakka_commit, pakka_commit_is_atomic and pakka_commit_rebuild of src/pakfile.c.
pub mod Copy
pub mod Dedup
pub mod View
pub mod Copied
pub mod Owners
pub mod Loop
pub mod Bare
pub mod Committed
pub mod Rebuilt
pub mod Errors
mod Tests
pub mod InPlace
use pakka.Prelude.{ℕ, ◌+◌, Bool, true, false, not, ◌&&◌, List, [], ◌∷◌, ◌++◌, Option, none, some}
use pakka.Prelude.{get_or, ◌==◌, if◌then◌else◌, u64}
use pakka.Status.{Result, ok, err, err_io, err_invalid_argument, ◌>>=◌}
use pakka.Format.{is_zip}
use pakka.Stdio.{File, fseek}
use pakka.Pak.{Entry, Pak, header_size}
use pakka.Disk.Save.{write_pak_directory}
use pakka.Archive.{not_editable}
use pakka.Archive.AddFile.{Source}
use pakka.Commit.Copy.{Host, copy_between_paks}
use pakka.Commit.Dedup.{owners}

-- Where the payload of an entry goes: to where its owner's went, or behind all others.
unfoldable pub place_entry :
    (List ℕ → Source) → File → ℕ → ℕ → Entry → List ℕ → File → Result (ℕ × File)
place_entry source_at ffd owner i e new_offsets tfd =
    if owner == i
    then copy_between_paks source_at e ffd tfd
    else ok (get_or new_offsets owner 0, tfd)

-- The loop that copies the survivors in the order of the list.
unfoldable pub copy_entries :
    (List ℕ → Source) → File → List ℕ → ℕ → List Entry → List ℕ → File → Result (List ℕ × File)
unfolding place_entry
copy_entries source_at ffd owner i [] new_offsets tfd = ok (new_offsets, tfd)
copy_entries source_at ffd owner i (e ∷ es) new_offsets tfd =
    place_entry source_at ffd (get_or owner i 0) i e new_offsets tfd >>= λ placed.
    copy_entries source_at ffd owner (i + 1) es (new_offsets ++ placed.0 ∷ []) placed.1

-- `entry_ptrs[i]->offset = new_offsets[i]`
unfoldable pub install_offsets : List ℕ → List Entry → List Entry
install_offsets [] es = es
install_offsets (o ∷ os) [] = []
install_offsets (o ∷ os) (e ∷ es) = record e { offset = o } ∷ install_offsets os es

unfoldable pub offsets_of : List Entry → List ℕ
offsets_of [] = []
offsets_of (e ∷ es) = e.offset ∷ offsets_of es

-- What is kept of the layout while the new one is tried: `old_offsets_swap`, `old_payload_end`,
-- `old_diroffset`, `old_dirlength` and `old_fp`.
pub record Layout : Type 0 where
  pub offsets : List ℕ
  pub payload_end : ℕ
  pub diroffset : ℕ
  pub dirlength : ℕ
  pub file : File

unfoldable pub save_layout : Pak → Layout
unfolding offsets_of
save_layout p = record {
  offsets = offsets_of p.entries;
  payload_end = p.payload_end;
  diroffset = p.diroffset;
  dirlength = p.dirlength;
  file = p.file;
}

-- The handle that the directory of the copy is written with.
unfoldable pub install_layout : List ℕ → File → Pak → Pak
unfolding install_offsets
install_layout new_offsets tfd p = record p {
  entries = install_offsets new_offsets p.entries;
  payload_end = tfd.pos;
  file = tfd;
}

-- The statements that put the old layout back, which each failure path repeats.
unfoldable pub restore_layout : Layout → Pak → Pak
unfolding install_offsets
restore_layout old q = record q {
  entries = install_offsets old.offsets q.entries;
  payload_end = old.payload_end;
  diroffset = old.diroffset;
  dirlength = old.dirlength;
  file = old.file;
}

-- The staged payloads are in the file now.
unfoldable pub drop_pending : List Entry → List Entry
drop_pending [] = []
drop_pending (e ∷ es) = record e { pending = none } ∷ drop_pending es

-- The temporary file takes the place of the archive. Where it cannot be closed or renamed the old
-- layout is put back, after a failed rename the archive is opened again, if it can be.
unfoldable pub publish_rebuild : Host → Layout → Pak → Pak × Result (Unit {0})
unfolding drop_pending restore_layout
publish_rebuild host old q =
    if not host.fclose
    then (restore_layout old q, err err_io)
    else if not host.rename
    then (record (restore_layout old q) { file = fseek 0 old.file; live = host.reopen }, err err_io)
    else if not host.reopen
    then (record q { live = false }, err err_io)
    else (
      record q {
        entries = drop_pending q.entries;
        file = fseek 0 q.file;
        dirty = false;
        needs_rebuild = false;
      },
      ok tt,
    )

-- The directory of the copy, written with the new layout in place.
unfoldable pub finish_rebuild : Host → Pak → List ℕ → File → Pak × Result (Unit {0})
unfolding save_layout install_layout restore_layout publish_rebuild
finish_rebuild host p new_offsets tfd =
    let old = save_layout p in
    let laid = install_layout new_offsets tfd p in
    elim (write_pak_directory laid) [
      | err e ↦ (restore_layout old laid, err e)
      | ok q ↦ publish_rebuild host old q
    ]

unfoldable pub scratch : File
scratch = fseek header_size (record { contents = []; pos = 0 })

unfoldable pub pakka_commit_rebuild : Host → Pak → Pak × Result (Unit {0})
unfolding copy_entries finish_rebuild scratch
pakka_commit_rebuild host p =
    if not host.mkstemp
    then (p, err err_io)
    else elim (copy_entries host.source_at p.file (owners p.entries) 0 p.entries [] scratch) [
      | err e ↦ (p, err e)
      | ok (new_offsets, tfd) ↦ finish_rebuild host p new_offsets tfd
    ]

-- The directory behind the payloads that are in the file already.
unfoldable pub commit_in_place : Host → Pak → Pak × Result (Unit {0})
commit_in_place host p = elim (write_pak_directory p) [
  | err e ↦ (p, err e)
  | ok q ↦
      if not host.fflush
      then (q, err err_io)
      else (record q { file_size = u64 (q.diroffset + q.dirlength); dirty = false }, ok tt)
]

-- `pk3_commit_impl` is pakka_pk3_commit_impl of src/pk3file.c.
unfoldable pub pakka_commit : (Pak → Pak × Result (Unit {0})) → Host → Pak → Pak × Result (Unit {0})
unfolding pakka_commit_rebuild commit_in_place
pakka_commit pk3_commit_impl host p =
    if not p.dirty
    then (p, ok tt)
    else if not_editable p
    then (p, err err_invalid_argument)
    else if is_zip p.format
    then pk3_commit_impl p
    else if not p.needs_rebuild && not p.atomic_commit
    then commit_in_place host p
    else pakka_commit_rebuild host p

unfoldable pub pakka_commit_is_atomic : Pak → Bool
pakka_commit_is_atomic p =
    if is_zip p.format
    then true
    else if p.is_new
    then true
    else if not p.writable
    then true
    else p.atomic_commit
