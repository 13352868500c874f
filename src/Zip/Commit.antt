-- ===== src/Zip/Commit.antt =====
-- pakka_pk3_create_impl and pakka_pk3_commit_impl of src/pk3file.c. Where the archive's file stands
-- after a copy is left out, since every use of it seeks first.
pub mod View
pub mod Members
pub mod Written
pub mod Opened
pub mod Rebuilt
pub mod Errors
use pakka.Prelude.{ℕ, ◌+◌, Bool, true, false, not, Option, none, some, List, [], ◌∷◌, ◌++◌, length}
use pakka.Prelude.{take, ltb, ◌==◌, if◌then◌else◌, u16, u32}
use pakka.Status.{Result, ok, err, err_io, err_format, err_unsafe_name, err_limit, ◌>>=◌, ◌>>◌}
use pakka.Status.{refuse_if}
use pakka.Stdio.{File, fseek, fwrite}
use pakka.Pak.{Entry, Pak, Pending, source, memory, uint32_max}
use pakka.Archive.Add.{write_payload}
use pakka.Archive.AddFile.{Source}
use pakka.Commit.{drop_pending}
use pakka.Commit.Copy.{stream_source, copy_extent}
use pakka.Zip.Records.{pk3_lfh_size, pk3_cdr_size, pk3_eocd_size, build_eocd, build_lfh, build_cdr}
use pakka.Zip.Directory.{default_max_decompressed}

-- What a commit asks of the host: each source path as it is now, and whether the temporary file can
-- be made, flushed and closed, the archive closed, the rename done, the archive opened again, and
-- the archive flushed and truncated.
pub record ZipHost : Type 0 where
  pub source_at : List ℕ → Source
  pub mkstemp : Bool
  pub fflush : Bool
  pub fclose_tmp : Bool
  pub fclose_orig : Bool
  pub rename : Bool
  pub reopen : Bool
  pub ftruncate : Bool

-- The source is still a regular file of the size that was staged.
unfoldable pub recheck_source : Source → Entry → Result (Unit {0})
recheck_source s e = do
  refuse_if s.is_link err_unsafe_name
  elim s.lstat [
    | none ↦ err err_io
    | some is_regular ↦
        refuse_if (not is_regular) err_unsafe_name
        >> refuse_if (not (s.st_size == e.pk3_compressed_size)) err_format
  ]

unfoldable pub copy_source : Source → Entry → File → Result File
unfolding recheck_source
copy_source s e tmpfp = do
  recheck_source s e
  elim s.fopen [
    | none ↦ err err_io
    | some bytes ↦
        stream_source e.pk3_compressed_size e.pk3_compressed_size 0
          (record { contents = bytes; pos = 0 }) tmpfp
        >>= λ streamed. refuse_if (not (streamed.0 == e.crc32)) err_format >> ok streamed.1
  ]

-- The three sources of a payload: a path, a buffer, or the archive.
unfoldable pub write_zip_payload :
    (List ℕ → Source) → File → Entry → Option Pending → File → Result File
unfolding copy_source
write_zip_payload source_at fp e (some (source path)) tmpfp = copy_source (source_at path) e tmpfp
write_zip_payload source_at fp e (some (memory bytes)) tmpfp = ok (write_payload bytes tmpfp)
write_zip_payload source_at fp e none tmpfp =
    copy_extent e.pk3_compressed_size e.pk3_compressed_size (fseek e.pk3_payload_offset fp) tmpfp

unfoldable pub name_length : Entry → ℕ
name_length e = u16 (length e.filename)

-- The local header and the name.
unfoldable pub write_lfh : Entry → File → File
unfolding name_length
write_lfh e f = fwrite (take (name_length e) e.filename) (
    fwrite (build_lfh e.pk3_method e.crc32 e.pk3_compressed_size e.size e.filename (name_length e))
      f)

-- The entry at its new place.
unfoldable pub moved : ℕ → Entry → Entry
unfolding name_length
moved cur_offset e =
    let payload_offset = u32 (cur_offset + pk3_lfh_size + name_length e) in
    record e {
      pk3_lfh_offset = cur_offset;
      pk3_payload_offset = payload_offset;
      offset = payload_offset;
    }

-- The loop that writes the local headers and the payloads: the entries, of which those before a
-- failure are at their new places, and where the directory starts and the temporary file.
unfoldable pub write_members :
    (List ℕ → Source) → File → ℕ → List Entry → File → List Entry × Result (ℕ × File)
unfolding write_zip_payload write_lfh moved
write_members source_at fp cur_offset [] tmpfp = ([], ok (cur_offset, tmpfp))
write_members source_at fp cur_offset (e ∷ es) tmpfp =
    let e' = moved cur_offset e in
    elim (refuse_if
        (ltb uint32_max (cur_offset + (pk3_lfh_size + name_length e + e.pk3_compressed_size)))
        err_limit
      >> write_zip_payload source_at fp e e.pending (write_lfh e tmpfp)) [
        | err s ↦ (e ∷ es, err s)
        | ok copied ↦
            let rest =
              write_members source_at fp (u32 (e'.pk3_payload_offset + e.pk3_compressed_size)) es
                copied in
            (e' ∷ rest.0, rest.1)
      ]

-- The three offsets of an entry before the loop: `old_lfh[i]`, `old_payload[i]` and
-- `old_offset_field[i]`.
pub record ZipPlace : Type 0 where
  pub lfh : ℕ
  pub payload : ℕ
  pub offset_field : ℕ

unfoldable pub places_of : List Entry → List ZipPlace
places_of [] = []
places_of (e ∷ es) =
    record { lfh = e.pk3_lfh_offset; payload = e.pk3_payload_offset; offset_field = e.offset }
    ∷ places_of es

-- What a rebuild keeps for a rollback.
pub record ZipLayout : Type 0 where
  pub places : List ZipPlace
  pub old_cdr_offset : ℕ

unfoldable pub save_zip_layout : Pak → ZipLayout
unfolding places_of
save_zip_layout p = record { places = places_of p.entries; old_cdr_offset = p.pk3_cdr_offset }

unfoldable pub rollback_offsets : List ZipPlace → List Entry → List Entry
rollback_offsets [] es = es
rollback_offsets (old ∷ olds) [] = []
rollback_offsets (old ∷ olds) (e ∷ es) =
    record e {
      pk3_lfh_offset = old.lfh;
      pk3_payload_offset = old.payload;
      offset = old.offset_field;
    }
    ∷ rollback_offsets olds es

unfoldable pub pk3_rebuild_rollback_offsets : ZipLayout → Pak → Pak
unfolding rollback_offsets
pk3_rebuild_rollback_offsets old q = record q {
  entries = rollback_offsets old.places q.entries;
  pk3_cdr_offset = old.old_cdr_offset;
}

-- The loop that adds up the directory, and stops above 4 GiB.
unfoldable pub check_total : ℕ → List Entry → Result (Unit {0})
check_total total [] = ok tt
check_total total (e ∷ es) =
    let rest = check_total (total + (pk3_cdr_size + length e.filename)) es in
    if ltb uint32_max (total + (pk3_cdr_size + length e.filename)) then err err_limit else rest

-- The loop that writes the directory.
unfoldable pub write_cdrs : List Entry → File → File
unfolding name_length
write_cdrs [] f = f
write_cdrs (e ∷ es) f = write_cdrs es (
    fwrite (take (name_length e) e.filename) (
      fwrite
        (build_cdr e.pk3_method e.crc32 e.pk3_compressed_size e.size e.filename (name_length e)
          e.pk3_lfh_offset)
        f))

-- `cdr_size` after the loop.
unfoldable pub cdrs_size : List Entry → ℕ
unfolding name_length
cdrs_size [] = 0
cdrs_size (e ∷ es) = pk3_cdr_size + name_length e + cdrs_size es

-- The directory and the end record.
unfoldable pub write_directory : ℕ → List Entry → File → File
unfolding write_cdrs cdrs_size
write_directory cdr_offset es f =
    fwrite (build_eocd cdr_offset (u32 (cdrs_size es)) (u16 (length es))) (write_cdrs es f)

-- Closing, renaming and opening again. Where the rename fails, or the archive cannot be closed, the
-- offsets are rolled back and the archive is opened again, if it can be.
unfoldable pub publish_zip : ZipHost → ZipLayout → Pak → File → Pak × Result (Unit {0})
unfolding cdrs_size pk3_rebuild_rollback_offsets
publish_zip host old q tmpfp =
    let rolled_back = pk3_rebuild_rollback_offsets old q in
    if not host.fflush
    then (rolled_back, err err_io)
    else if not host.fclose_tmp
    then (rolled_back, err err_io)
    else if not host.fclose_orig
    then (record rolled_back { live = host.reopen }, err err_io)
    else if not host.rename
    then (record rolled_back { live = host.reopen }, err err_io)
    else if not host.reopen
    then (
      record q {
        entries = drop_pending q.entries;
        dirty = false;
        needs_rebuild = false;
        file = tmpfp;
        live = false;
      },
      err err_io,
    )
    else (
      record q {
        entries = drop_pending q.entries;
        dirty = false;
        needs_rebuild = false;
        file = fseek 0 tmpfp;
        live = true;
        file_size = q.pk3_cdr_offset + u32 (cdrs_size q.entries) + pk3_eocd_size;
      },
      ok tt,
    )

-- What follows the loop that writes the members.
unfoldable pub finish_zip : ZipHost → Pak → List Entry × Result (ℕ × File) → Pak × Result (Unit {0})
unfolding check_total write_directory publish_zip save_zip_layout pk3_rebuild_rollback_offsets
finish_zip host p (entries, err e) =
    (pk3_rebuild_rollback_offsets (save_zip_layout p) (record p { entries = entries }), err e)
finish_zip host p (entries, ok (cdr_offset, tmpfp)) =
    let q = record p { entries = entries; pk3_cdr_offset = cdr_offset } in
    elim (check_total (cdr_offset + pk3_eocd_size) entries) [
      | err e ↦ (pk3_rebuild_rollback_offsets (save_zip_layout p) q, err e)
      | ok _ ↦ publish_zip host (save_zip_layout p) q (write_directory cdr_offset entries tmpfp)
    ]

unfoldable pub rebuild_zip : ZipHost → Pak → Pak × Result (Unit {0})
unfolding write_members finish_zip
rebuild_zip host p =
    if not host.mkstemp
    then (p, err err_io)
    else finish_zip host p
        (write_members host.source_at p.file 0 p.entries (record { contents = []; pos = 0 }))

-- The path where nothing was staged or deleted: the directory is written over the old one, and the
-- file ends behind it.
unfoldable pub commit_directory : ZipHost → Pak → Pak × Result (Unit {0})
unfolding check_total write_directory
commit_directory host p = elim (check_total (p.pk3_cdr_offset + pk3_eocd_size) p.entries) [
  | err e ↦ (p, err e)
  | ok _ ↦
      let f = write_directory p.pk3_cdr_offset p.entries (fseek p.pk3_cdr_offset p.file) in
      let new_eof = p.pk3_cdr_offset + u32 (cdrs_size p.entries) + pk3_eocd_size in
      if not host.fflush
      then (record p { file = f }, err err_io)
      else if not host.ftruncate
      then (record p { file = f }, err err_io)
      else (
        record p {
          file = record f { contents = take new_eof f.contents };
          file_size = new_eof;
          dirty = false;
        },
        ok tt,
      )
]

unfoldable pub pakka_pk3_commit_impl : ZipHost → Pak → Pak × Result (Unit {0})
unfolding rebuild_zip commit_directory
pakka_pk3_commit_impl host p =
    if not p.dirty
    then (p, ok tt)
    else if ltb 0xffff p.num_entries
    then (p, err err_limit)
    else if p.needs_rebuild
    then rebuild_zip host p
    else commit_directory host p

-- The end record of an empty archive. Writes and flushes do not fail here.
unfoldable pub pakka_pk3_create_impl : Pak → Result Pak
pakka_pk3_create_impl pak = ok (record pak {
  max_decompressed = default_max_decompressed;
  pk3_cdr_offset = 0;
  num_entries = 0;
  entries = [];
  file = fwrite (build_eocd 0 0 0) pak.file;
})
