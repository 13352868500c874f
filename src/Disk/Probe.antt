-- ===== src/Disk/Probe.antt =====
-- probe_pak_layout of src/pakfile.c.
use pakka.Prelude.{ℕ, zero, suc, ◌+◌, ◌-◌, ◌*◌, ◌/◌, ◌%◌, not, ◌&&◌, ◌||◌}
use pakka.Prelude.{ltb, ◌==◌, if◌then◌else◌}
use pakka.Status.{Result, ok, err, err_format}
use pakka.Status.{◌>>=◌, ◌>>◌, refuse_if}
use pakka.Format.{Geometry}
use pakka.Stdio.{File, fseek}
use pakka.Words.{read_u32_le}
use pakka.Pak.{Pak, header_size, max_entries}
use pakka.Disk.Rows.{or_fail, read_compression}

-- Whether the row at a position fits the file under a candidate layout.
unfoldable pub probe_row : Geometry → ℕ → File → Result (Unit {0})
unfolding read_compression
probe_row g file_size f = do
  (off, f1) ← or_fail err_format (read_u32_le f)
  (len, f2) ← or_fail err_format (read_u32_le f1)
  ((csize, flag), f3) ← read_compression err_format g.has_compression f2
  let extent = if g.has_compression && not (flag == 0) then csize else len
  refuse_if (ltb off header_size || (ltb file_size extent || ltb (file_size - extent) off))
      err_format

-- The loop over the rows, with those that are left; each is sought.
unfoldable pub probe_rows : Geometry → Pak → ℕ → ℕ → Result (Unit {0})
unfolding probe_row
probe_rows g pak zero i = ok tt
probe_rows g pak (suc left) i = do
  probe_row g pak.file_size
      (fseek (pak.diroffset + i * g.dir_entry_size + g.name_field_len) pak.file)
  probe_rows g pak left (i + 1)

unfoldable pub probe_pak_layout : Pak → Geometry → Result (Unit {0})
unfolding probe_rows
probe_pak_layout pak g =
    if not (pak.dirlength % g.dir_entry_size == 0)
    then err err_format
    else if ltb max_entries (pak.dirlength / g.dir_entry_size)
    then err err_format
    else probe_rows g pak (pak.dirlength / g.dir_entry_size) 0
