-- ===== src/Zip/Commit/Written.antt =====
-- The file that pakka_pk3_commit_impl of src/pk3file.c writes, and what it shows when
-- pakka_pk3_open_impl opens it.
use pakka.Prelude.{ℕ, ◌+◌, ◌-◌, ◌<◌, ◌≡◌, refl, sym, ap, ◌∙◌, arith}
use pakka.Prelude.{List, [], ◌∷◌, ◌++◌, length, take, All}
use pakka.Prelude.{u16, u32, ◌^◌}
use pakka.Stdio.{File, fseek, fwrite}
use pakka.Stdio.Writes.{fwrite-append}
use pakka.Stdio.Fronts.{Before-At, read_at, At-read_at}
use pakka.Pak.{Entry, on_disk_extent}
use pakka.Archive.AddFile.{Source}
use pakka.Commit.{drop_pending}
use pakka.Commit.View.{payload_of}
use pakka.Zip.Records.{build_eocd, build_cdr, pk3_lfh_size}
use pakka.Zip.Directory.{new_zip_entry}
use pakka.Zip.Commit.{write_directory, write_cdrs, cdrs_size, moved, name_length}
use pakka.Zip.Commit.View.{stored_part, zip_member, zip_view, next_offset}
use pakka.Zip.Commit.Members.{placed_from, Member, AllMembers}
use pakka.Zip.Built.{IsZipEntry, cdr_bytes, name_length_lem}
use pakka.Zip.Built.Local.{lfh_of}
use pakka.Zip.Built.Rows.{cdrs_bytes, all_reopened, IsRow, write_cdrs_lem, HasHeader}

-- The directory and the end record are one write.
pub write_directory_lem :
    (cdr_offset : ℕ) (es : List Entry) (f : File)
    → write_directory cdr_offset es f
      ≡ fwrite (cdrs_bytes es ++ build_eocd cdr_offset (u32 (cdrs_size es)) (u16 (length es))) f
unfolding write_directory write_cdrs
write_directory_lem cdr_offset [] f = refl
write_directory_lem cdr_offset (e ∷ es) f =
    let name = take (name_length e) e.filename in
    let fields =
      build_cdr e.pk3_method e.crc32 e.pk3_compressed_size e.size e.filename (name_length e)
        e.pk3_lfh_offset in
    let eocd = build_eocd cdr_offset (u32 (cdrs_size (e ∷ es))) (u16 (length (e ∷ es))) in
    ap (λ t. fwrite eocd (write_cdrs es t)) (fwrite-append fields name f)
    ∙ ap (λ t. fwrite eocd t) (write_cdrs_lem es (cdr_bytes e) f)
    ∙ fwrite-append (cdrs_bytes (e ∷ es)) eocd f

module _ (source_at : List ℕ → Source) (fp copy : File) (cdr_offset : ℕ) (more : List ℕ) where
  abbrev f : File
  f = fseek 0 (fwrite more copy)

  moved-IsZipEntry : (cur : ℕ) (e : Entry) → IsZipEntry e → IsZipEntry (moved cur e)
  unfolding moved
  moved-IsZipEntry cur e z = record {
    method = z.method;
    crc = z.crc;
    csize = z.csize;
    usize = z.usize;
    nonempty = z.nonempty;
    short = z.short;
    utf8 = z.utf8;
    printable = z.printable;
    no_directory = z.no_directory;
  }

  pub rows_placed :
      (es : List Entry) (cur : ℕ)
      → All IsZipEntry es
      → AllMembers source_at fp copy cdr_offset cur es
      → cdr_offset < 2 ^ 32 - 1
      → All IsRow (placed_from cur es)
  unfolding moved
  rows_placed [] cur zs ms small = tt
  rows_placed (e ∷ es) cur zs ms small = (
    (moved-IsZipEntry cur e zs.0, omega (arith, ms.0.fits)),
    rows_placed es (next_offset cur e) zs.1 ms.1 small,
  )

  pub headers_placed :
      (es : List Entry) (cur : ℕ)
      → All IsZipEntry es
      → AllMembers source_at fp copy cdr_offset cur es
      → All (HasHeader f cdr_offset) (placed_from cur es)
  unfolding moved fseek
  headers_placed [] cur zs ms = tt
  headers_placed (e ∷ es) cur zs ms = (
    (
      moved-IsZipEntry cur e zs.0,
      Before-At copy cur (lfh_of e) more ms.0.header,
      omega (arith, ms.0.fits),
    ),
    headers_placed es (next_offset cur e) zs.1 ms.1,
  )

  payload_placed :
      (cur : ℕ) (e : Entry)
      → Member source_at fp copy cdr_offset cur e
      → read_at (cur + pk3_lfh_size + length e.filename) e.pk3_compressed_size f
        ≡ payload_of source_at fp (stored_part e) e.pending
  unfolding fseek
  payload_placed cur e m =
      let at = cur + pk3_lfh_size + length e.filename in
      At-read_at at e.pk3_compressed_size f m.bytes (Before-At copy at m.bytes more m.payload)
        m.extent
      ∙ sym m.there

  -- The file shows the members, as its entries are and as they are loaded.
  pub view_kept :
      (es : List Entry) (cur : ℕ)
      → All IsZipEntry es
      → AllMembers source_at fp copy cdr_offset cur es
      → cdr_offset < 2 ^ 32 - 1
      → zip_view source_at f (drop_pending (placed_from cur es)) ≡ zip_view source_at fp es
  unfolding drop_pending moved payload_of on_disk_extent
  view_kept [] cur zs ms small = refl
  view_kept (e ∷ es) cur zs ms small =
      let n = name_length_lem e zs.0 in
      let at : u32 (cur + pk3_lfh_size + name_length e) ≡ cur + pk3_lfh_size + length e.filename =
        omega (arith, n, ms.0.fits) in
      let bytes = ap (λ t. read_at t e.pk3_compressed_size f) at ∙ payload_placed cur e ms.0 in
      let rest = view_kept es (next_offset cur e) zs.1 ms.1 small in
      λ i. record (zip_member source_at fp e) { stored = bytes i } ∷ rest i

  pub view_reopened :
      (es : List Entry) (cur : ℕ)
      → AllMembers source_at fp copy cdr_offset cur es
      → zip_view source_at f (all_reopened (placed_from cur es)) ≡ zip_view source_at fp es
  unfolding moved payload_of on_disk_extent new_zip_entry
  view_reopened [] cur ms = refl
  view_reopened (e ∷ es) cur ms =
      let bytes = payload_placed cur e ms.0 in
      let rest = view_reopened es (next_offset cur e) ms.1 in
      λ i. record (zip_member source_at fp e) { stored = bytes i } ∷ rest i
