-- ===== src/Commit/Copy.antt =====
-- copy_between_paks and pak_copy_pending_source of src/pakfile.c. Where the archive's file stands
-- after a copy is left out, since every use of it seeks first.
use pakka.Prelude.{ℕ, zero, suc, ◌-◌, Bool, not, List, Option, none, some}
use pakka.Prelude.{ltb, leb, ◌==◌, if◌then◌else◌}
use pakka.Status.{
  Result, ok, err, err_io, err_limit, err_format, err_unsafe_name, ◌>>=◌, ◌>>◌, refuse_if,
}
use pakka.Stdio.{File, fseek, fread, fwrite}
use pakka.Crc.{crc32_update}
use pakka.Pak.{Entry, Pending, source, memory, on_disk_extent, uint32_max}
use pakka.Archive.Add.{write_payload}
use pakka.Archive.AddFile.{Source, copy_chunk}

-- What a commit asks of the host: each source path as it is now, and whether the temporary file can
-- be made and closed, the rename and the reopening of the archive succeed, and a flush does.
pub record Host : Type 0 where
  pub source_at : List ℕ → Source
  pub mkstemp : Bool
  pub fclose : Bool
  pub rename : Bool
  pub reopen : Bool
  pub fflush : Bool

-- The number of bytes of the next chunk.
unfoldable pub chunk_size : ℕ → ℕ
chunk_size remaining = if ltb copy_chunk remaining then copy_chunk else remaining

-- The loop that streams a source into the temporary file and takes its checksum.
unfoldable pub stream_source : ℕ → ℕ → ℕ → File → File → Result (ℕ × File)
unfolding chunk_size
stream_source zero remaining crc src tfd = ok (crc, tfd)
stream_source (suc fuel) remaining crc src tfd =
    if leb remaining 0 then ok (crc, tfd) else elim (fread (chunk_size remaining) src) [
      | none ↦ err err_io
      | some (buf, src') ↦
          stream_source fuel (remaining - chunk_size remaining) (crc32_update crc buf) src'
            (fwrite buf tfd)
    ]

-- The source is still a regular file of the entry's size.
unfoldable pub revalidate : Source → Entry → Result (Unit {0})
revalidate s e = do
  refuse_if s.is_link err_unsafe_name
  elim s.lstat [
    | none ↦ err err_io
    | some is_regular ↦
        refuse_if (not is_regular) err_unsafe_name
        >> refuse_if (not (s.st_size == e.size)) err_format
  ]

unfoldable pub pak_copy_pending_source : Source → Entry → File → Result File
unfolding stream_source revalidate
pak_copy_pending_source s e tfd = do
  revalidate s e
  elim s.fopen [
    | none ↦ err err_io
    | some bytes ↦
        stream_source e.size e.size 0 (record { contents = bytes; pos = 0 }) tfd >>= λ streamed.
        refuse_if (not (streamed.0 == e.crc32)) err_format >> ok streamed.1
  ]

-- The loop that copies the extent of an entry from the archive.
unfoldable pub copy_extent : ℕ → ℕ → File → File → Result File
unfolding chunk_size
copy_extent zero remaining ffd tfd = ok tfd
copy_extent (suc fuel) remaining ffd tfd =
    if leb remaining 0 then ok tfd else elim (fread (chunk_size remaining) ffd) [
      | none ↦ err err_io
      | some (buffer, ffd') ↦
          copy_extent fuel (remaining - chunk_size remaining) ffd' (fwrite buffer tfd)
    ]

-- The three kinds of payload: in the archive, in a buffer, or in a source.
unfoldable pub copy_payload : (List ℕ → Source) → Entry → Option Pending → File → File → Result File
unfolding pak_copy_pending_source copy_extent
copy_payload source_at e none ffd tfd =
    copy_extent (on_disk_extent e) (on_disk_extent e) (fseek e.offset ffd) tfd
copy_payload source_at e (some (memory bytes)) ffd tfd = ok (write_payload bytes tfd)
copy_payload source_at e (some (source path)) ffd tfd =
    pak_copy_pending_source (source_at path) e tfd

-- The offset that the payload has in the temporary file comes first.
unfoldable pub copy_between_paks : (List ℕ → Source) → Entry → File → File → Result (ℕ × File)
unfolding copy_payload
copy_between_paks source_at e ffd tfd = do
  refuse_if (ltb uint32_max tfd.pos) err_limit
  tfd' ← copy_payload source_at e e.pending ffd tfd
  ok (tfd.pos, tfd')
