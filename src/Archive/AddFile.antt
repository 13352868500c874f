-- ===== src/Archive/AddFile.antt =====
-- pakka_add_file of src/pakfile.c, with pak_add_source_preflight.
use pakka.Prelude.{
  ℕ, zero, suc, ◌+◌, ◌-◌, ◌/◌, Bool, true, not, ◌&&◌, Option, none, some, List, [], ◌∷◌, ◌++◌,
}
use pakka.Prelude.{length, take, drop, ltb, leb, if◌then◌else◌, u32, u64}
use pakka.Status.{
  Result, ok, err, err_io, err_limit, err_unsafe_name, err_invalid_argument, ◌>>◌, refuse_if,
}
use pakka.Format.{is_zip}
use pakka.Stdio.{File, fseek, fwrite}
use pakka.Crc.{crc32_update}
use pakka.Pak.{Pak, source, uint32_max}
use pakka.Archive.{pak_add_preflight, not_editable, link_entry}
use pakka.Archive.Add.{wants_encoding, try_encode, new_entry, append_payload, stage}

-- What the host says of a source path: whether it is a link, whether its lstat succeeds and finds a
-- regular file, the size it gives, and what can be read of it if it opens.
pub record Source : Type 0 where
  pub path : List ℕ
  pub is_link : Bool
  pub lstat : Option Bool
  pub st_size : ℕ
  pub fopen : Option (List ℕ)

unfoldable pub pak_add_source_preflight : Source → Result (Unit {0})
pak_add_source_preflight s = do
  refuse_if s.is_link err_unsafe_name
  elim s.lstat [ none ↦ err err_io | some is_regular ↦ refuse_if (not is_regular) err_unsafe_name ]

abbrev pub copy_chunk : ℕ
copy_chunk = 65536

-- The loop that takes the checksum of the source a chunk at a time.
unfoldable pub crc_chunks : ℕ → ℕ → List ℕ → ℕ
crc_chunks zero crc bytes = crc
crc_chunks (suc fuel) crc bytes =
    let chunk = take copy_chunk bytes in
    let rest = crc_chunks fuel (crc32_update crc chunk) (drop copy_chunk bytes) in
    if leb (length chunk) 0 then crc else rest

-- `src_buf != NULL`: the source was read for the encoder.
unfoldable pub was_read : Pak → List ℕ → List ℕ → Bool
was_read archive entry_name payload =
    wants_encoding archive entry_name payload
    && leb (length payload + (length payload + 63) / 64 + 1) uint32_max

-- A plain source is staged by its path, with its checksum.
unfoldable pub stage_source : Pak → List ℕ → List ℕ → List ℕ → Pak
unfolding new_entry crc_chunks
stage_source archive entry_name path payload =
    link_entry true
      (record (new_entry entry_name 0 payload none (some (source path))) {
        crc32 = crc_chunks (length payload) 0 payload;
      })
      archive

unfoldable pub stage_file : Pak → List ℕ → List ℕ → List ℕ → Pak
unfolding stage_source was_read
stage_file archive entry_name path payload =
    if was_read archive entry_name payload
    then stage archive entry_name payload (try_encode archive entry_name payload)
    else stage_source archive entry_name path payload

-- The loop that copies a source into the archive a chunk at a time.
unfoldable pub copy_chunks : ℕ → List ℕ → File → File
copy_chunks zero bytes f = f
copy_chunks (suc fuel) bytes f =
    let chunk = take copy_chunk bytes in
    let rest = copy_chunks fuel (drop copy_chunk bytes) (fwrite chunk f) in
    if leb (length bytes) 0 then f else rest

-- The payload behind all others, copied as a stream.
unfoldable pub append_source : Pak → List ℕ → List ℕ → Result Pak
unfolding new_entry copy_chunks
append_source archive entry_name payload =
    let physical_size = u32 (length payload) in
    let append_offset = archive.payload_end in
    if ltb (uint32_max - physical_size) append_offset
    then err err_limit
    else ok (record archive {
      entries = archive.entries ++ new_entry entry_name (u32 append_offset) payload none none ∷ [];
      payload_end = u64 (append_offset + physical_size);
      num_entries = u32 (archive.num_entries + 1);
      dirty = true;
      file = copy_chunks (length payload) payload (fseek append_offset archive.file);
    })

unfoldable pub append_file : Pak → List ℕ → List ℕ → Result Pak
unfolding append_source was_read
append_file archive entry_name payload =
    if was_read archive entry_name payload
    then append_payload archive entry_name payload (try_encode archive entry_name payload)
    else append_source archive entry_name payload

-- `pk3_add_file_impl` is pakka_pk3_add_file_impl of src/pk3file.c.
unfoldable pub pakka_add_file :
    (Pak → Source → List ℕ → Result Pak) → Pak → Source → List ℕ → Result Pak
unfolding stage_file append_file
pakka_add_file pk3_add_file_impl archive s entry_name = do
  refuse_if (not_editable archive) err_invalid_argument
  pak_add_preflight archive entry_name
  pak_add_source_preflight s
  if is_zip archive.format then pk3_add_file_impl archive s entry_name else elim s.fopen [
    | none ↦ err err_io
    | some payload ↦
        if ltb uint32_max (length payload)
        then err err_limit
        else if archive.atomic_commit
        then ok (stage_file archive entry_name s.path payload)
        else append_file archive entry_name payload
  ]
