-- ===== src/Disk/Rows.antt =====
-- load_directory of src/pakfile.c: the rows of a PAK-class directory as entries.
use pakka.Prelude.{ℕ, zero, suc, ◌+◌, ◌-◌, Bool, true, false, not, ◌&&◌, ◌||◌, Option, none, some}
use pakka.Prelude.{List, [], ◌∷◌, ◌++◌, ltb, ◌==◌, if◌then◌else◌}
use pakka.Status.{Status, Result, ok, err, err_format, err_io}
use pakka.Status.{◌>>=◌, ◌>>◌, refuse_if}
use pakka.Format.{Format, is_wad, geometry, Geometry}
use pakka.Stdio.{File, fseek, fread}
use pakka.Words.{read_u32_le}
use pakka.Pak.{Entry, Pak, header_size, on_disk_extent}

-- A short read is the status given.
abbrev pub or_fail {ℓ} : {A : Type ℓ} → Status → Option A → Result A
or_fail s none = err s
or_fail s (some a) = ok a

-- The bytes of a field before its first NUL.
unfoldable pub c_string : List ℕ → List ℕ
c_string [] = []
c_string (c ∷ cs) = let rest = c ∷ c_string cs in if c == 0 then [] else rest

-- The fields of a directory row, in the order of the format.
unfoldable pub read_name_first : ℕ → File → Result ((List ℕ × ℕ × ℕ) × File)
read_name_first name_len f = do
  (name, f1) ← or_fail err_io (fread name_len f)
  (off, f2) ← or_fail err_io (read_u32_le f1)
  (len, f3) ← or_fail err_io (read_u32_le f2)
  ok ((name, off, len), f3)

unfoldable pub read_name_last : ℕ → File → Result ((List ℕ × ℕ × ℕ) × File)
read_name_last name_len f = do
  (off, f1) ← or_fail err_io (read_u32_le f)
  (len, f2) ← or_fail err_io (read_u32_le f1)
  (name, f3) ← or_fail err_io (fread name_len f2)
  ok ((name, off, len), f3)

-- Compressed size and flag, where the format has them; a short read is the status given.
unfoldable pub read_compression : Status → Bool → File → Result ((ℕ × ℕ) × File)
read_compression s false f = ok ((0, 0), f)
read_compression s true f = do
  (csize, f1) ← or_fail s (read_u32_le f)
  (flag, f2) ← or_fail s (read_u32_le f1)
  ok ((csize, flag), f2)

-- One row of the directory as an entry.
unfoldable pub read_entry : Format → Geometry → File → Result (Entry × File)
unfolding read_name_first read_name_last read_compression c_string
read_entry fmt g f = do
  ((name, off, len), f1) ←
      if is_wad fmt then read_name_last g.name_field_len f else read_name_first g.name_field_len f
  ((csize, flag), f2) ← read_compression err_io g.has_compression f1
  ok (
    record {
      filename = c_string name;
      offset = off;
      size = len;
      pk3_compressed_size = 0;
      pk3_payload_offset = 0;
      pk3_lfh_offset = 0;
      pk3_method = 0;
      crc32 = 0;
      dk_compressed_size = csize;
      dk_is_compressed = not (flag == 0);
      pending = none;
    },
    f2,
  )

-- Whether the bytes of an entry lie in the file, behind the header unless it is an empty lump of a
-- WAD.
unfoldable pub in_range : Format → ℕ → Entry → Bool
unfolding on_disk_extent
in_range fmt file_size e =
    let allow_below_header = is_wad fmt && (e.size == 0) in
    let extent = on_disk_extent e in
    not (
      (not allow_below_header && ltb e.offset header_size)
      || (ltb file_size extent || ltb (file_size - extent) e.offset))

-- `if (offset + extent > payload_end) payload_end = offset + extent;`
unfoldable pub raise_end : Entry → ℕ → ℕ
unfolding on_disk_extent
raise_end e end = if ltb end (e.offset + on_disk_extent e) then e.offset + on_disk_extent e else end

-- The loop over the rows: those that are left, the entries so far and the payload end so far.
unfoldable pub read_entries :
    Format → Geometry → ℕ → ℕ → List Entry → ℕ → File → Result (List Entry × ℕ)
unfolding in_range raise_end
read_entries fmt g file_size zero entries end f = ok (entries, end)
read_entries fmt g file_size (suc left) entries end f = do
  (e, f') ← read_entry fmt g f
  refuse_if (not (in_range fmt file_size e)) err_format
  read_entries fmt g file_size left (entries ++ e ∷ []) (raise_end e end) f'

-- Memory does not run out in the model.
unfoldable pub load_directory : Pak → Result Pak
load_directory pak =
    let empty = record pak { payload_end = header_size } in
    if pak.num_entries == 0 then ok empty else elim (geometry pak.format) [
      | none ↦ err err_format
      | some g ↦ do
        (entries, end) ←
            read_entries pak.format g pak.file_size pak.num_entries pak.entries header_size
              (fseek pak.diroffset pak.file)
        ok (record pak { entries = entries; payload_end = end })
    ]
