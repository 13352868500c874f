-- ===== src/Disk/RoundTrip.antt =====
-- Saving a directory and loading it: write_pak_directory against load_pakfile and load_directory of
-- src/pakfile.c.
pub mod Fields
pub mod Rows
pub mod Directory
pub mod Header
pub mod Saved
use pakka.Prelude.{
  ℕ, zero, suc, ◌+◌, ◌*◌, ◌^◌, ◌≤◌, ◌<◌, ◌≡◌, ◌⊎◌, inl, inr, refl, sym, ap, ◌∙◌, arith, some, ltb,
  IsU32,
}
use pakka.Prelude.{
  List, [], ◌∷◌, ◌++◌, append-nil, length, length-append, All, ◌==◌, if◌then◌else◌, u32, u64,
}
use mathlib.Core.Path.{subst}
use pakka.Status.{Result, ok, err, ◌>>=◌, err_limit}
use pakka.Format.{Format, Geometry, geometry}
use pakka.Format.Widths.{geometry-IsRow}
use pakka.Stdio.{File, fseek, fwrite}
use pakka.Stdio.Reads.{At, At-within, fread-At-rest}
use pakka.Stdio.Writes.{fwrite-At, fwrite-keeps-At}
use pakka.Pak.{Entry, Pak, header_size, max_entries, uint32_max}
use pakka.Disk.Save.{write_pak_directory, write_directory_with}
use pakka.Disk.Rows.{load_directory}
use pakka.Disk.Load.{load_pakfile}
use pakka.Disk.RoundTrip.Rows.{IsStorable}
use pakka.Disk.RoundTrip.Saved.{IsSavable, IsSaved, save_lem}
use pakka.Prelude.{false, true}
use pakka.Disk.RoundTrip.Directory.{
  dir_bytes, IsPlaced, ends, ends_bounds, length-dir_bytes, read_entries-dir_bytes,
  write_entries-dir_bytes,
}
use pakka.Disk.RoundTrip.Header.{
  header_bytes, length-header_bytes, load_pakfile-header, write_pak_header-header_bytes,
}

-- What pakka_open_ex hands to load_pakfile: no entries yet, a hint and the opened file.
abbrev pub opened : Pak → Format → File → Pak
opened p hint file = record p { entries = []; format_hint = hint; file = file }

abbrev pub loaded : Pak → Geometry → List Entry → ℕ → Pak
loaded p g es d = record p {
  format = p.format_hint;
  signature = g.signature;
  diroffset = d;
  dirlength = length es * g.dir_entry_size;
  num_entries = length es;
  file_size = length p.file.contents;
  file = record p.file { pos = 12 };
  entries = es;
  payload_end = ends es header_size;
}

module _ (pk3_open_impl : Pak → Result Pak) (p0 : Pak) (fmt : Format) (g : Geometry) (d end : ℕ)
    (F : File) (h : geometry fmt ≡ some g) (low : header_size ≤ d) where
  abbrev pub open_file : Pak
  open_file = opened p0 fmt F

  -- A header and the rows it points to are loaded as the entries.
  pub load-dir_bytes :
      (es : List Entry)
      → At (fseek 0 F) (header_bytes fmt g (length es) d)
      → At (fseek d F) (dir_bytes fmt g es)
      → length es ≤ max_entries
      → d + length es * g.dir_entry_size < 2 ^ 32
      → end ≤ length F.contents
      → All (IsStorable g) es
      → All (IsPlaced fmt end) es
      → (load_pakfile pk3_open_impl open_file >>= load_directory) ≡ ok (loaded open_file g es d)
  unfolding load_directory fseek
  load-dir_bytes [] header rows few fits covers st pl = rw (
      load_pakfile-header pk3_open_impl open_file g 0 d h header few low
        (omega (arith, At-within (fseek d F) [] rows)) fits)
  load-dir_bytes (e ∷ es) header rows few fits covers st pl =
      let all = e ∷ es in
      let at : At (fseek d F) (dir_bytes fmt g all ++ []) =
        subst (At (fseek d F)) (sym (append-nil (dir_bytes fmt g all))) rows in
      rw
        (load_pakfile-header pk3_open_impl open_file g (length all) d h header few low
          (omega
            (arith, At-within (fseek d F) (dir_bytes fmt g all) rows, length-dir_bytes fmt g all h))
          fits)
        (rw (some_entries, h, load_directory)
          (rw (
            read_entries-dir_bytes fmt g end (length F.contents) all [] header_size (fseek d F) []
              at st pl covers)))
    where
      some_entries : (suc (length es) == 0) ≡ false
      some_entries = ground arith

-- A savable archive is saved without an error, and the file, opened again with the archive's format
-- as the hint, loads as a handle with the same format and the same entries, names and flags
-- included, in the same order, with a payload end of at most the archive's, and with the bytes of that
-- file. Whatever the file held before, and whatever pakka_pk3_open_impl does.
pub save-load :
    (pk3_open_impl : Pak → Result Pak) (p p0 : Pak) (g : Geometry)
    → IsSavable g p
    → (q : Pak) × (write_pak_directory p ≡ ok q)
      × (r : Pak) × ((load_pakfile pk3_open_impl (opened p0 p.format (fseek 0 q.file))
            >>= load_directory)
          ≡ ok r)
      × (r.format ≡ p.format)
      × (r.entries ≡ p.entries)
      × (r.num_entries ≡ length p.entries)
      × (r.payload_end ≤ p.payload_end)
      × (r.file.contents ≡ q.file.contents)
unfolding fseek
save-load pk3_open_impl p p0 g s =
    let (q, written, saved) = save_lem g p s in
    let (_, high) = ends_bounds p.format saved.end p.entries header_size saved.placed saved.start in
    (
      q,
      written,
      loaded (opened p0 p.format (fseek 0 q.file)) g p.entries saved.d,
      load-dir_bytes pk3_open_impl p0 p.format g saved.d saved.end (fseek 0 q.file) s.pak_class
          saved.behind p.entries saved.header saved.rows s.few saved.fits saved.covers.0 s.storable
          saved.placed,
      refl,
      refl,
      refl,
      omega (arith, high, saved.covers.1),
      refl,
    )
