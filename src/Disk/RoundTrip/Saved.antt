-- ===== src/Disk/RoundTrip/Saved.antt =====
-- What write_pak_directory of src/pakfile.c leaves in the file.
use pakka.Prelude.{ℕ, ◌+◌, ◌*◌, ◌^◌, ◌≤◌, ◌<◌, ◌≡◌, refl, sym, ◌∙◌, arith, some, ltb, ◌⊎◌, inl, inr}
use pakka.Prelude.{List, [], ◌∷◌, append-nil, length, All, u32, u64}
use mathlib.Core.Path.{subst}
use pakka.Status.{ok, ok-injective}
use pakka.Format.{Geometry, geometry}
use pakka.Stdio.{File, fseek, fwrite}
use pakka.Stdio.Reads.{At, At-within, fread-At-rest}
use pakka.Stdio.Fronts.{Before, Before-At, Before-bounds, At-nothing}
use pakka.Stdio.Writes.{fwrite-At, fwrite-keeps-At}
use pakka.Pak.{Entry, Pak, header_size, max_entries, uint32_max}
use pakka.Disk.Save.{write_pak_directory, write_directory_with, write_empty, write_rows}
use pakka.Disk.RoundTrip.Rows.{IsStorable}
use pakka.Prelude.{false}
use pakka.Disk.RoundTrip.Directory.{dir_bytes, IsPlaced, write_entries-dir_bytes}
use pakka.Disk.RoundTrip.Header.{header_bytes, length-header_bytes, write_pak_header-header_bytes}

-- An archive that can be saved: its entries are storable and lie before the payload end, and the
-- directory behind them stays within 32 bits.
pub record IsSavable (g : Geometry) (p : Pak) : Type 0 where
  pub pak_class : geometry p.format ≡ some g
  pub magic : p.signature ≡ g.signature
  pub counted : p.num_entries ≡ length p.entries
  pub few : length p.entries ≤ max_entries
  pub behind_header : header_size ≤ p.payload_end
  pub fits : p.payload_end + length p.entries * g.dir_entry_size < 2 ^ 32
  pub storable : All (IsStorable g) p.entries
  pub placed : All (IsPlaced p.format p.payload_end) p.entries

-- The result of saving: a file with the header at its start, the rows where the header says, and
-- the payloads before `end`.
pub record IsSaved (g : Geometry) (p q : Pak) : Type 0 where
  pub d : ℕ
  pub end : ℕ
  pub behind : header_size ≤ d
  pub fits : d + length p.entries * g.dir_entry_size < 2 ^ 32
  pub start : header_size ≤ end
  pub covers : (end ≤ length q.file.contents) × (end ≤ p.payload_end)
  pub placed : All (IsPlaced p.format end) p.entries
  pub header : At (fseek 0 q.file) (header_bytes p.format g (length p.entries) d)
  pub rows : At (fseek d q.file) (dir_bytes p.format g p.entries)

write_directory-empty :
    (p : Pak) (g : Geometry)
    → geometry p.format ≡ some g
    → p.signature ≡ g.signature
    → write_pak_directory (record p { entries = [] })
      ≡ ok (record p {
        entries = [];
        diroffset = header_size;
        dirlength = 0;
        file = fwrite (header_bytes p.format g 0 header_size) (fseek 0 p.file);
      })
unfolding write_pak_directory write_directory_with write_empty
write_directory-empty p g h sig =
    rw (h, write_pak_directory)
      (rw (
        write_pak_header-header_bytes
          (record p { entries = []; diroffset = header_size; dirlength = 0; file = fseek 0 p.file })
          g 0 h sig (omega arith)))

save-empty :
    (g : Geometry) (p : Pak)
    → IsSavable g (record p { entries = [] })
    → (q : Pak) × (write_pak_directory (record p { entries = [] }) ≡ ok q)
      × IsSaved g (record p { entries = [] }) q
unfolding fseek
save-empty g p s =
    let header = header_bytes p.format g 0 header_size in
    let q = record p {
      entries = [];
      diroffset = header_size;
      dirlength = 0;
      file = fwrite header (fseek 0 p.file);
    } in
    let at : At (fseek 0 q.file) header = fwrite-At header (fseek 0 p.file) in
    let size : length header ≡ header_size =
      length-header_bytes p.format g 0 header_size s.pak_class in
    let rows =
      fread-At-rest (fseek 0 q.file) header [] header_size
        (subst (At (fseek 0 q.file)) (sym (append-nil header)) at) (sym size) in
    (
      q,
      write_directory-empty p g s.pak_class s.magic,
      record {
        d = header_size;
        end = header_size;
        behind = omega arith;
        fits = omega arith;
        start = omega arith;
        covers = (omega (arith, size, At-within (fseek 0 q.file) header at), s.behind_header);
        placed = tt;
        header = at;
        rows = rows;
      },
    )

module _ (p : Pak) (g : Geometry) (e : Entry) (es : List Entry)
    (s : IsSavable g (record p { entries = e ∷ es })) where
  full : List Entry
  full = e ∷ es

  rows_file : File
  rows_file = fwrite (dir_bytes p.format g full) (fseek p.payload_end p.file)

  saved_header : List ℕ
  saved_header = header_bytes p.format g (length full) p.payload_end

  saved : Pak
  saved = record p {
    entries = full;
    diroffset = p.payload_end;
    dirlength = length full * g.dir_entry_size;
    file = fwrite saved_header (fseek 0 rows_file);
  }

  write_directory-rows : write_pak_directory (record p { entries = full }) ≡ ok saved
  unfolding write_pak_directory write_directory_with write_rows full saved saved_header rows_file
  write_directory-rows =
      rw (s.pak_class, write_pak_directory)
        (rw (not_over, write_rows)
          (rw (small, write_entries-dir_bytes p.format g e es (fseek p.payload_end p.file) few_rows)
            (rw (write_pak_header-header_bytes unheaded g (length full) s.pak_class s.magic refl))))
    where
      unheaded : Pak
      unheaded = record p {
        entries = full;
        diroffset = p.payload_end;
        dirlength = length full * g.dir_entry_size;
        file = fseek 0 rows_file;
      }

      small : u32 p.payload_end ≡ p.payload_end
      small = omega (arith, s.fits)

      few_rows : length full * g.dir_entry_size < 2 ^ 32
      few_rows = omega (arith, s.fits)

      not_over :
          ltb uint32_max (u64 (p.payload_end + u64 (p.num_entries * g.dir_entry_size))) ≡ false
      not_over = ground (arith, s.fits, s.counted)

  rows-At : At (fseek p.payload_end saved.file) (dir_bytes p.format g full)
  unfolding fseek full saved saved_header rows_file
  rows-At =
      fwrite-keeps-At saved_header (dir_bytes p.format g full) rows_file p.payload_end
        (fwrite-At (dir_bytes p.format g full) (fseek p.payload_end p.file))
        (omega (
          arith,
          s.behind_header,
          length-header_bytes p.format g (length full) p.payload_end s.pak_class,
        ))

  save-rows : IsSaved g (record p { entries = full }) saved
  unfolding fseek full saved saved_header rows_file
  save-rows =
      let at : At (fseek 0 saved.file) saved_header = fwrite-At saved_header (fseek 0 rows_file) in
      let rows = rows-At in
      record {
        d = p.payload_end;
        end = p.payload_end;
        behind = s.behind_header;
        fits = s.fits;
        start = s.behind_header;
        covers = (
          omega
              (arith, At-within (fseek p.payload_end saved.file) (dir_bytes p.format g full) rows),
          omega arith,
        );
        placed = s.placed;
        header = at;
        rows = rows;
      }

  -- What stands before the payload end stays, but for the header.
  saved-keeps :
      (offset : ℕ) (bytes : List ℕ)
      → (header_size ≤ offset) ⊎ (bytes ≡ [])
      → Before (fseek p.payload_end p.file) offset bytes
      → At (fseek offset saved.file) bytes
  unfolding full saved saved_header rows_file fseek
  saved-keeps offset bytes (inr none) before = rw none (
      At-nothing offset saved.file (
        omega (
          arith,
          Before-bounds (fseek p.payload_end p.file) offset bytes before,
          At-within (fseek p.payload_end saved.file) (dir_bytes p.format g full) rows-At,
        )))
  saved-keeps offset bytes (inl low) before =
      fwrite-keeps-At saved_header bytes rows_file offset
        (Before-At (fseek p.payload_end p.file) offset bytes (dir_bytes p.format g full) before)
        (omega (arith, low, length-header_bytes p.format g (length full) p.payload_end s.pak_class))

-- Saving an archive that has entries keeps every payload that stands before the payload end.
pub save-keeps :
    (g : Geometry) (p q : Pak)
    → IsSavable g p
    → 1 ≤ length p.entries
    → write_pak_directory p ≡ ok q
    → (offset : ℕ) (bytes : List ℕ) → (header_size ≤ offset) ⊎ (bytes ≡ [])
    → Before (fseek p.payload_end p.file) offset bytes
    → At (fseek offset q.file) bytes
unfolding full
save-keeps g p q s some_left did offset bytes low before = go p.entries s some_left did
  where
    go :
        (es : List Entry)
        → IsSavable g (record p { entries = es })
        → 1 ≤ length es
        → write_pak_directory (record p { entries = es }) ≡ ok q
        → At (fseek offset q.file) bytes
    go [] s some_left did = absurd (omega arith)
    go (e ∷ es) s some_left did =
        subst (λ (t : Pak). At (fseek offset t.file) bytes)
          (ok-injective (sym (write_directory-rows p g e es s) ∙ did))
          (saved-keeps p g e es s offset bytes low before)

-- A savable archive is saved, and what is in the file afterwards is as said.
pub save_lem :
    (g : Geometry) (p : Pak)
    → IsSavable g p
    → (q : Pak) × (write_pak_directory p ≡ ok q) × IsSaved g p q
unfolding full
save_lem g p s = go p.entries s
  where
    go :
        (es : List Entry)
        → IsSavable g (record p { entries = es })
        → (q : Pak) × (write_pak_directory (record p { entries = es }) ≡ ok q)
          × IsSaved g (record p { entries = es }) q
    go [] s = save-empty g p s
    go (e ∷ es) s = (saved p g e es s, write_directory-rows p g e es s, save-rows p g e es s)
