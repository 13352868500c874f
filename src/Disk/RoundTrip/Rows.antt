-- ===== src/Disk/RoundTrip/Rows.antt =====
-- One row of the directory, as bytes: what write_pak_entry writes and load_directory reads.
use pakka.Prelude.{ℕ, ◌≤◌, ◌<◌, ◌≡◌, refl, sym, arith, Bool, true, false, not}
use pakka.Prelude.{List, ◌++◌, append_assoc, length, All}
use pakka.Prelude.{length-append, IsU32, none, some, ◌==◌}
use pakka.Status.{ok, err_io}
use pakka.Format.{Format, is_wad, Geometry, geometry}
use pakka.Format.Widths.{geometry-IsRow}
use pakka.Stdio.{File, fwrite}
use pakka.Stdio.Reads.{At}
use pakka.Pak.{Entry}
use pakka.Disk.Save.{name_field, bool_u32, write_pak_entry}
use pakka.Disk.Rows.{c_string, read_entry}
use pakka.Disk.RoundTrip.Fields.{
  compression_bytes, fields_bytes, write_fields-eq, write_compression-eq, c_string-name_field,
  read_fields-next, read_compression-next, length-fields_bytes, length-compression_bytes,
}

-- The bytes of a row.
abbrev pub row_bytes : Format → Geometry → Entry → List ℕ
row_bytes fmt g e =
    fields_bytes (is_wad fmt) g.name_field_len e ++ compression_bytes g.has_compression e

-- An entry as the loader makes it: a name of non-zero bytes that fits its field, 32-bit numbers,
-- and nothing that the row has no place for.
pub record IsStorable (g : Geometry) (e : Entry) : Type 0 where
  pub name_fits : length e.filename ≤ g.name_field_len
  pub no_nul : All (λ c. 0 < c) e.filename
  pub offset_u32 : IsU32 e.offset
  pub size_u32 : IsU32 e.size
  pub compressed_u32 : IsU32 e.dk_compressed_size
  pub stored : g.has_compression ≡ false → (e.dk_compressed_size ≡ 0) × (e.dk_is_compressed ≡ false)
  pub no_zip :
      (e.pk3_compressed_size ≡ 0)
      × (e.pk3_payload_offset ≡ 0)
      × (e.pk3_lfh_offset ≡ 0)
      × (e.pk3_method ≡ 0)
      × (e.crc32 ≡ 0)
  pub committed : e.pending ≡ none

-- A row is written as its bytes.
pub write_pak_entry-row_bytes :
    (fmt : Format) (g : Geometry) (e : Entry) (f : File)
    → write_pak_entry fmt g e f ≡ fwrite (row_bytes fmt g e) f
write_pak_entry-row_bytes fmt g e f =
    unfold write_pak_entry in
    (rw (write_fields-eq (is_wad fmt) g.name_field_len e f)
      (write_compression-eq g.has_compression e (fields_bytes (is_wad fmt) g.name_field_len e) f))

bool_u32-flag : (b : Bool) → not (bool_u32 b == 0) ≡ b
unfolding bool_u32
bool_u32-flag true = refl
bool_u32-flag false = refl

-- The entry that the loader makes of the fields of a storable entry is that entry.
loaded-eq :
    (g : Geometry) (e : Entry)
    → IsStorable g e
    → ◌≡◌ {A = Entry}
        (record {
          filename = c_string (name_field g.name_field_len e.filename);
          offset = e.offset;
          size = e.size;
          pk3_compressed_size = 0;
          pk3_payload_offset = 0;
          pk3_lfh_offset = 0;
          pk3_method = 0;
          crc32 = 0;
          dk_compressed_size = e.dk_compressed_size;
          dk_is_compressed = not (bool_u32 e.dk_is_compressed == 0);
          pending = none;
        })
        e
loaded-eq g e h =
    let (csize, payload, lfh, method, crc) = h.no_zip in
    λ i. record {
      filename = c_string-name_field g.name_field_len e.filename h.name_fits h.no_nul i;
      offset = e.offset;
      size = e.size;
      pk3_compressed_size = sym csize i;
      pk3_payload_offset = sym payload i;
      pk3_lfh_offset = sym lfh i;
      pk3_method = sym method i;
      crc32 = sym crc i;
      dk_compressed_size = e.dk_compressed_size;
      dk_is_compressed = bool_u32-flag e.dk_is_compressed i;
      pending = sym h.committed i;
    }

-- A storable entry is read back from its row.
pub read_entry-next :
    (fmt : Format) (g : Geometry) (e : Entry) (f : File) (more : List ℕ)
    → At f (row_bytes fmt g e ++ more)
    → IsStorable g e
    → (f' : File) × (read_entry fmt g f ≡ ok (e, f')) × At f' more
unfolding read_entry
read_entry-next fmt g e f more h storable =
    let (f1, e1, h1) =
      read_fields-next (is_wad fmt) g.name_field_len e f
        (compression_bytes g.has_compression e ++ more) (rw append_assoc at h) storable.offset_u32
        storable.size_u32 in
    let (f2, e2, h2) =
      read_compression-next err_io g.has_compression e f1 more h1 storable.compressed_u32
        storable.stored in
    (f2, rw (e1, read_entry) (rw e2 (rw (loaded-eq g e storable))), h2)

-- Every row of a format has the length that its geometry says.
pub length-row_bytes :
    (fmt : Format) (g : Geometry) (e : Entry)
    → geometry fmt ≡ some g
    → length (row_bytes fmt g e) ≡ g.dir_entry_size
length-row_bytes fmt g e h = omega (
  arith,
  (geometry-IsRow fmt g h).width,
  length-append (fields_bytes (is_wad fmt) g.name_field_len e)
      (compression_bytes g.has_compression e),
  length-fields_bytes (is_wad fmt) g.name_field_len e,
  length-compression_bytes g.has_compression e,
)
