-- ===== src/Reader.antt =====
-- The readers of src/pakfile.c: pakka_open_entry, pakka_open_entry_handle, pak_open_pending_reader,
-- pakka_reader_read, pakka_reader_close and pakka_read_entry_alloc. Where the archive's file stands is
-- left out, since every read seeks first.
pub mod Serves
pub mod Series
pub mod Opened
pub mod ReadBack
mod Tests
use pakka.Prelude.{
  ℕ, zero, suc, ◌+◌, ◌-◌, Bool, true, false, not, ◌&&◌, ◌||◌, Option, none, some, List, [], ◌∷◌,
  ◌++◌,
}
use pakka.Prelude.{length, take, drop, ltb, leb, ◌==◌, if◌then◌else◌}
use pakka.Status.{
  Result, ok, err, err_io, err_limit, err_format, err_unsafe_name, err_invalid_argument, ◌>>=◌,
  ◌>>◌, refuse_if,
}
use pakka.Format.{is_zip, same_format, daikatana}
use pakka.Stdio.{File, fseek, fread}
use pakka.Stdio.Fronts.{read_at}
use pakka.Pak.{Entry, Pak, Pending, source, memory, on_disk_extent}
use pakka.Codec.Inflate.{inflate}
use pakka.Archive.{pakka_find_entry}
use pakka.Archive.AddFile.{Source}

-- struct pakka_reader, without the archive. `inflated` is what is left of `inflated_buf` behind
-- `inflated_cursor`, and `none` is a NULL buffer.
pub record Reader : Type 0 where
  pub next_offset : ℕ
  pub remaining : ℕ
  pub inflated : Option (List ℕ)

-- The decoder always gives a result, so the first case does not arise.
unfoldable pub pakka_dk_inflate : List ℕ → ℕ → Result (List ℕ)
pakka_dk_inflate bytes out_len = elim (inflate bytes out_len) [ none ↦ err err_format | some r ↦ r ]

-- `max_decompressed > 0 && (ulen > max_decompressed || clen > max_decompressed)`
unfoldable pub exceeds_cap : Pak → ℕ → ℕ → Bool
exceeds_cap p ulen clen =
    ltb 0 p.max_decompressed && (ltb p.max_decompressed ulen || ltb p.max_decompressed clen)

-- The staged bytes of an entry.
unfoldable pub pending_bytes : (List ℕ → Source) → ℕ → Pending → Result (List ℕ)
pending_bytes source_at extent (memory bytes) = ok (take extent bytes)
pending_bytes source_at extent (source path) = do
  refuse_if (source_at path).is_link err_unsafe_name
  elim (source_at path).lstat [
    | none ↦ err err_io
    | some is_regular ↦ refuse_if (not is_regular) err_unsafe_name
  ]
  elim (source_at path).fopen [
    | none ↦ err err_io
    | some bytes ↦ elim (read_at 0 extent (record { contents = bytes; pos = 0 })) [
      | none ↦ err err_io
      | some buf ↦ ok buf
    ]
  ]

-- What the buffer of a staged entry is served as.
unfoldable pub serve_pending : Pak → Entry → Reader → List ℕ → Result Reader
unfolding exceeds_cap pakka_dk_inflate
serve_pending p e reader buf =
    if not e.dk_is_compressed
    then ok (record reader { inflated = some buf })
    else if exceeds_cap p e.size (on_disk_extent e)
    then err err_limit
    else if e.size == 0
    then ok (record reader { remaining = 0 })
    else (pakka_dk_inflate buf e.size >>= λ out. ok (record reader { inflated = some out }))

unfoldable pub pak_open_pending_reader :
    (List ℕ → Source) → Pak → Reader → Entry → Pending → Result Reader
unfolding pending_bytes serve_pending
pak_open_pending_reader source_at p reader e pending =
    if on_disk_extent e == 0
    then ok (record reader { remaining = 0 })
    else (pending_bytes source_at (on_disk_extent e) pending >>= λ buf.
        serve_pending p e reader buf)

-- The payload of a compressed Daikatana entry is unpacked as a whole.
unfoldable pub open_compressed : Pak → Reader → Entry → Result Reader
unfolding exceeds_cap pakka_dk_inflate
open_compressed p reader e =
    if exceeds_cap p e.size e.dk_compressed_size
    then err err_limit
    else elim (if ltb 0 e.dk_compressed_size
        then read_at e.offset e.dk_compressed_size p.file
        else some []) [
          | none ↦ err err_io
          | some compressed ↦ pakka_dk_inflate compressed e.size >>= λ out.
              ok (record reader { inflated = some out })
        ]

unfoldable pub open_committed : Pak → Reader → Entry → Result Reader
unfolding open_compressed
open_committed p reader e =
    if same_format p.format daikatana && e.dk_is_compressed
    then open_compressed p reader e
    else ok reader

-- What a PAK-class entry is served from.
unfoldable pub open_by_pending :
    (List ℕ → Source) → Pak → Reader → Entry → Option Pending → Result Reader
unfolding pak_open_pending_reader open_committed
open_by_pending source_at p reader e none = open_committed p reader e
open_by_pending source_at p reader e (some pending) =
    pak_open_pending_reader source_at p reader e pending

unfoldable pub new_reader : Entry → Reader
new_reader e = record { next_offset = e.offset; remaining = e.size; inflated = none }

-- `pk3_open_entry_impl` is pakka_pk3_open_entry_impl of src/pk3file.c.
unfoldable pub pakka_open_entry_handle :
    (Pak → Reader → Entry → Result Reader) → (List ℕ → Source) → Pak → Entry → Result Reader
unfolding open_by_pending new_reader
pakka_open_entry_handle pk3_open_entry_impl source_at p e =
    if not p.live
    then err err_invalid_argument
    else if is_zip p.format
    then pk3_open_entry_impl p (new_reader e) e
    else open_by_pending source_at p (new_reader e) e e.pending

unfoldable pub pakka_open_entry :
    (Pak → Reader → Entry → Result Reader) → (List ℕ → Source) → Pak → List ℕ → Result Reader
unfolding pakka_open_entry_handle
pakka_open_entry pk3_open_entry_impl source_at p entry_name = do
  refuse_if (not p.live) err_invalid_argument
  e ← pakka_find_entry p entry_name
  pakka_open_entry_handle pk3_open_entry_impl source_at p e

-- The bytes read, the reader afterwards and the status: a short read gives its bytes and the error.
pub record Chunk : Type 0 where
  pub bytes : List ℕ
  pub reader : Reader
  pub status : Result (Unit {0})

unfoldable pub read_inflated : Reader → List ℕ → ℕ → Chunk
read_inflated reader buf len =
    if length (take len buf) == 0
    then record { bytes = []; reader = reader; status = ok tt }
    else record {
      bytes = take len buf;
      reader = record reader {
        remaining = reader.remaining - length (take len buf);
        inflated = some (drop len buf);
      };
      status = ok tt;
    }

-- `got` is what fread finds of the chunk.
unfoldable pub read_stored : File → Reader → ℕ → Chunk
read_stored f reader len =
    let chunk = if ltb len reader.remaining then len else reader.remaining in
    let got = take chunk (drop reader.next_offset f.contents) in
    record {
      bytes = got;
      reader = record reader {
        next_offset = reader.next_offset + length got;
        remaining = reader.remaining - length got;
      };
      status = if length got == chunk then ok tt else err err_io;
    }

unfoldable pub read_by_buffer : File → Reader → Option (List ℕ) → ℕ → Chunk
unfolding read_inflated read_stored
read_by_buffer f reader none len = read_stored f reader len
read_by_buffer f reader (some buf) len = read_inflated reader buf len

-- `pk3_reader_read_impl` is pakka_pk3_reader_read_impl of src/pk3file.c.
unfoldable pub pakka_reader_read : (Pak → Reader → ℕ → Chunk) → Pak → Reader → ℕ → Chunk
unfolding read_by_buffer
pakka_reader_read pk3_reader_read_impl p reader len =
    if not p.live
    then record { bytes = []; reader = reader; status = err err_invalid_argument }
    else if reader.remaining == 0 || len == 0
    then record { bytes = []; reader = reader; status = ok tt }
    else if is_zip p.format
    then pk3_reader_read_impl p reader len
    else read_by_buffer p.file reader reader.inflated len

-- The loop that reads until the buffer is full, with the bytes read so far.
unfoldable pub read_loop :
    (Pak → Reader → ℕ → Chunk) → ℕ → Pak → Reader → ℕ → List ℕ → Result (List ℕ)
unfolding pakka_reader_read
read_loop pk3_reader_read_impl zero p reader total buf = ok buf
read_loop pk3_reader_read_impl (suc fuel) p reader total buf =
    if leb total (length buf)
    then ok buf
    else elim (pakka_reader_read pk3_reader_read_impl p reader (total - length buf)).status [
      | err e ↦ err e
      | ok _ ↦
          let chunk = pakka_reader_read pk3_reader_read_impl p reader (total - length buf) in
          if length chunk.bytes == 0
          then err err_io
          else read_loop pk3_reader_read_impl fuel p chunk.reader total (buf ++ chunk.bytes)
    ]

unfoldable pub cap_refuses : Pak → Entry → Bool
cap_refuses p e =
    (is_zip p.format || (same_format p.format daikatana && e.dk_is_compressed))
    && (ltb 0 p.max_decompressed && ltb p.max_decompressed e.size)

unfoldable pub pakka_read_entry_alloc :
    (Pak → Reader → Entry → Result Reader)
    → (Pak → Reader → ℕ → Chunk)
    → (List ℕ → Source)
    → Pak
    → List ℕ
    → Result (List ℕ)
unfolding pakka_open_entry_handle read_loop cap_refuses
pakka_read_entry_alloc pk3_open_entry_impl pk3_reader_read_impl source_at p entry_name = do
  e ← pakka_find_entry p entry_name
  if e.size == 0
      then (pakka_open_entry_handle pk3_open_entry_impl source_at p e >>= λ _. ok [])
      else if cap_refuses p e
      then err err_limit
      else (pakka_open_entry_handle pk3_open_entry_impl source_at p e >>= λ reader.
          read_loop pk3_reader_read_impl e.size p reader e.size [])
