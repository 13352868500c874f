-- ===== src/Disk/Save.antt =====
-- init_pak_header, write_pak_header, write_pak_entry and write_pak_directory of src/pakfile.c.
use pakka.Prelude.{ℕ, ◌+◌, ◌-◌, ◌*◌, ◌/◌, Bool, true, false, none, some, u32, u64}
use pakka.Prelude.{List, [], ◌∷◌, ◌++◌, length, take, replicate, ltb, if◌then◌else◌}
use pakka.Status.{Result, ok, err, err_format, err_limit}
use pakka.Format.{Format, is_wad, geometry, Geometry, pack_magic}
use pakka.Stdio.{File, fseek, fwrite}
use pakka.Words.{write_u32_le}
use pakka.Pak.{Entry, Pak, header_size, uint32_max}

unfoldable pub init_pak_header : Pak → Pak
init_pak_header pak = record pak {
  signature = elim (geometry pak.format) [ none ↦ pack_magic | some g ↦ g.signature ];
  diroffset = header_size;
  dirlength = 0;
  payload_end = header_size;
}

-- The two numbers behind the signature, in the order of the format.
unfoldable pub header_fields : Pak → ℕ × ℕ
header_fields pak =
    if is_wad pak.format
    then (
      elim (geometry pak.format) [ none ↦ 0 | some g ↦ pak.dirlength / g.dir_entry_size ],
      pak.diroffset,
    )
    else (pak.diroffset, pak.dirlength)

unfoldable pub write_pak_header : Pak → Pak
unfolding header_fields
write_pak_header pak =
    let (first, second) = header_fields pak in
    record pak { file = write_u32_le second (write_u32_le first (fwrite pak.signature pak.file)) }

-- The name field: the name cut off or padded with zeros to the width of the field.
unfoldable pub name_field : ℕ → List ℕ → List ℕ
name_field cap name = take cap name ++ replicate (cap - length name) 0

unfoldable pub bool_u32 : Bool → ℕ
bool_u32 true = 1
bool_u32 false = 0

-- Offset, size and name in the order of a WAD, or name, offset and size.
unfoldable pub write_fields : Bool → ℕ → Entry → File → File
unfolding name_field
write_fields true cap e f =
    fwrite (name_field cap e.filename) (write_u32_le e.size (write_u32_le e.offset f))
write_fields false cap e f =
    write_u32_le e.size (write_u32_le e.offset (fwrite (name_field cap e.filename) f))

-- Compressed size and flag, where the format has them.
unfoldable pub write_compression : Bool → Entry → File → File
unfolding bool_u32
write_compression false e f = f
write_compression true e f =
    write_u32_le (bool_u32 e.dk_is_compressed) (write_u32_le e.dk_compressed_size f)

unfoldable pub write_pak_entry : Format → Geometry → Entry → File → File
unfolding write_fields write_compression
write_pak_entry fmt g e f =
    write_compression g.has_compression e (write_fields (is_wad fmt) g.name_field_len e f)

-- The loop over the entries; the second part is dirlength, which grows by a row for each.
unfoldable pub write_entries : Format → Geometry → List Entry → File × ℕ → File × ℕ
write_entries fmt g [] (f, dirlength) = (f, dirlength)
write_entries fmt g (e ∷ es) (f, dirlength) =
    write_entries fmt g es (write_pak_entry fmt g e f, u32 (dirlength + g.dir_entry_size))

-- An empty archive is its header.
unfoldable pub write_empty : Pak → Result Pak
write_empty pak = ok (
    write_pak_header
      (record pak { diroffset = header_size; dirlength = 0; file = fseek 0 pak.file }))

-- The rows at the end of the payloads, and the header that points to them.
unfoldable pub write_rows : Geometry → Pak → Pak
write_rows g pak =
    let (f, dirlength) =
      write_entries pak.format g pak.entries (fseek (u32 pak.payload_end) pak.file, 0) in
    write_pak_header
      (record pak { diroffset = u32 pak.payload_end; dirlength = dirlength; file = fseek 0 f })

unfoldable pub write_directory_with : Geometry → List Entry → Pak → Result Pak
unfolding write_empty write_rows
write_directory_with g [] pak = write_empty pak
write_directory_with g (_ ∷ _) pak =
    if ltb uint32_max (u64 (pak.payload_end + u64 (pak.num_entries * g.dir_entry_size)))
    then err err_limit
    else ok (write_rows g pak)

unfoldable pub write_pak_directory : Pak → Result Pak
unfolding write_directory_with
write_pak_directory pak = elim (geometry pak.format) [
  | none ↦ err err_format
  | some g ↦ write_directory_with g pak.entries pak
]
