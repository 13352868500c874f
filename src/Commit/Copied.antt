-- ===== src/Commit/Copied.antt =====
-- What copy_between_paks of src/pakfile.c puts into the temporary file.
use pakka.Prelude.{ℕ, zero, suc, ◌+◌, ◌-◌, ◌≤◌, ◌≡◌, refl, sym, ap, ◌∙◌, arith, true, false}
use pakka.Prelude.{List, [], ◌∷◌, ◌++◌, append-nil, append_assoc, Option, none, some, length}
use pakka.Prelude.{length-take, length-drop, take, drop, take-append-drop, leb, ◌==◌, Option-cases}
use pakka.Prelude.{ltb, inl, inr}
use mathlib.Core.Path.{subst}
use pakka.Status.{ok}
use pakka.Stdio.{File, fseek, fread, fwrite}
use pakka.Stdio.Reads.{At, fread-next}
use pakka.Stdio.Writes.{pos-fwrite}
use pakka.Stdio.Fronts.{
  some-injective, read_at-At, Before, Before-fwrite, fwrite-Before, Before-empty,
}
use pakka.Crc.{crc32_update}
use pakka.Crc.Bitwise.{crc32_update-append}
use pakka.Pak.{Entry, Pending, source, memory, on_disk_extent, uint32_max}
use pakka.Archive.Add.{write_payload}
use pakka.Archive.AddFile.{Source}
use pakka.Archive.Chunks.{write_payload-fwrite, crc32_update-empty}
use pakka.Commit.Copy.{
  chunk_size, stream_source, revalidate, pak_copy_pending_source, copy_extent, copy_payload,
  copy_between_paks,
}
use pakka.Commit.View.{payload_of, IsUntouched, StaysAsStaged, IsReadable}

pub pos-write_payload :
    (bytes : List ℕ) (f : File) → (write_payload bytes f).pos ≡ f.pos + length bytes
unfolding write_payload
pos-write_payload [] f = omega arith
pos-write_payload (c ∷ cs) f = pos-fwrite (c ∷ cs) f

pub Before-write_payload :
    (f : File) (offset : ℕ) (bytes more : List ℕ)
    → Before f offset bytes
    → Before (write_payload more f) offset bytes
unfolding write_payload
Before-write_payload f offset bytes [] h = h
Before-write_payload f offset bytes (c ∷ cs) h = Before-fwrite f offset bytes (c ∷ cs) h

pub write_payload-Before : (f : File) (bytes : List ℕ) → Before (write_payload bytes f) f.pos bytes
unfolding write_payload
write_payload-Before f [] = Before-empty f
write_payload-Before f (c ∷ cs) = fwrite-Before f (c ∷ cs)

-- A chunk is at least one byte, and at most what remains.
pub chunk_size_bounds :
    (remaining : ℕ)
    → leb remaining 0 ≡ false
    → (1 ≤ chunk_size remaining) × (chunk_size remaining ≤ remaining)
unfolding chunk_size
chunk_size_bounds remaining h = (ground arith, ground arith)

-- The next chunk of the bytes that stand at the position.
next_chunk :
    (src : File) (bytes more : List ℕ) (n : ℕ)
    → At src (bytes ++ more)
    → n ≤ length bytes
    → (src' : File) × (fread n src ≡ some (take n bytes, src')) × At src' (drop n bytes ++ more)
next_chunk src bytes more n h le =
    let split : bytes ++ more ≡ take n bytes ++ (drop n bytes ++ more) =
      ap (λ t. t ++ more) (sym (take-append-drop n bytes))
      ∙ append_assoc (take n bytes) (drop n bytes) more in
    fread-next src (take n bytes) (drop n bytes ++ more) n (subst (At src) split h)
      (omega (arith, length-take n bytes))

-- The copy of an extent writes the bytes that stand there.
pub copy_extent_lem :
    (fuel : ℕ) (bytes more : List ℕ) (ffd tfd : File)
    → At ffd (bytes ++ more)
    → length bytes ≤ fuel
    → copy_extent fuel (length bytes) ffd tfd ≡ ok (write_payload bytes tfd)
unfolding copy_extent write_payload
copy_extent_lem zero [] more ffd tfd h le = refl
copy_extent_lem zero (c ∷ cs) more ffd tfd h le = absurd (omega arith)
copy_extent_lem (suc fuel) [] more ffd tfd h le = refl
copy_extent_lem (suc fuel) (c ∷ cs) more ffd tfd h le =
    let bytes = c ∷ cs in
    let test : leb (length bytes) 0 ≡ false = ground arith in
    let (low, high) = chunk_size_bounds (length bytes) test in
    let n = chunk_size (length bytes) in
    let (ffd', got, h') = next_chunk ffd bytes more n h high in
    let left : length bytes - n ≡ length (drop n bytes) = omega (arith, length-drop n bytes) in
    rw (test, copy_extent)
      (rw got (
        rw left (
          copy_extent_lem fuel (drop n bytes) more ffd' (fwrite (take n bytes) tfd) h'
            (omega (arith, length-drop n bytes))
          ∙ ap ok (
              write_payload-fwrite (take n bytes) (drop n bytes) tfd
              ∙ ap (λ t. fwrite t tfd) (take-append-drop n bytes)))))

-- The stream of a source writes it, with its checksum.
pub stream_source_lem :
    (fuel crc : ℕ) (bytes more : List ℕ) (src tfd : File)
    → At src (bytes ++ more)
    → length bytes ≤ fuel
    → stream_source fuel (length bytes) crc src tfd
      ≡ ok (crc32_update crc bytes, write_payload bytes tfd)
unfolding stream_source write_payload
stream_source_lem zero crc [] more src tfd h le = rw (crc32_update-empty crc)
stream_source_lem zero crc (c ∷ cs) more src tfd h le = absurd (omega arith)
stream_source_lem (suc fuel) crc [] more src tfd h le = rw (crc32_update-empty crc)
stream_source_lem (suc fuel) crc (c ∷ cs) more src tfd h le =
    let bytes = c ∷ cs in
    let test : leb (length bytes) 0 ≡ false = ground arith in
    let (low, high) = chunk_size_bounds (length bytes) test in
    let n = chunk_size (length bytes) in
    let (src', got, h') = next_chunk src bytes more n h high in
    let left : length bytes - n ≡ length (drop n bytes) = omega (arith, length-drop n bytes) in
    let sums : crc32_update (crc32_update crc (take n bytes)) (drop n bytes)
        ≡ crc32_update crc bytes =
      crc32_update-append crc (take n bytes) (drop n bytes)
      ∙ ap (λ t. crc32_update crc t) (take-append-drop n bytes) in
    let writes : write_payload (drop n bytes) (fwrite (take n bytes) tfd) ≡ fwrite bytes tfd =
      write_payload-fwrite (take n bytes) (drop n bytes) tfd
      ∙ ap (λ t. fwrite t tfd) (take-append-drop n bytes) in
    rw (test, stream_source)
      (rw got (
        rw left (
          stream_source_lem fuel (crc32_update crc (take n bytes)) (drop n bytes) more src'
            (fwrite (take n bytes) tfd) h' (omega (arith, length-drop n bytes))
          ∙ rw (sums, writes) refl)))

eq_refl : (n : ℕ) → (n == n) ≡ true
eq_refl n = ground arith

-- A source that nobody has touched is streamed.
pending_source_lem :
    (s : Source) (e : Entry) (bytes all : List ℕ) (tfd : File)
    → IsUntouched s e bytes
    → s.fopen ≡ some all
    → At (record { contents = all; pos = 0 }) bytes
    → e.size ≡ length bytes
    → pak_copy_pending_source s e tfd ≡ ok (write_payload bytes tfd)
unfolding pak_copy_pending_source revalidate
pending_source_lem s e bytes all tfd u opened h size =
    let at = subst (At (record { contents = all; pos = 0 })) (sym (append-nil bytes)) h in
    rw (u.no_link, u.regular, opened, u.same_size, eq_refl e.size, size)
      (rw
        (stream_source_lem (length bytes) 0 bytes [] (record { contents = all; pos = 0 }) tfd at
          (omega arith))
        (rw (u.same_crc, eq_refl e.crc32) refl))

pub payload_copied :
    (source_at : List ℕ → Source) (e : Entry) (pending : Option Pending) (bytes : List ℕ)
    (ffd tfd : File)
    → payload_of source_at ffd e pending ≡ some bytes
    → on_disk_extent e ≡ length bytes
    → StaysAsStaged source_at e bytes pending
    → copy_payload source_at e pending ffd tfd ≡ ok (write_payload bytes tfd)
unfolding copy_payload payload_of fseek
payload_copied source_at e none bytes ffd tfd there extent staged =
    let (at, _) = read_at-At e.offset (on_disk_extent e) ffd bytes there in
    rw extent (
      copy_extent_lem (length bytes) bytes [] (fseek e.offset ffd) tfd
        (subst (At (fseek e.offset ffd)) (sym (append-nil bytes)) at) (omega arith))
payload_copied source_at e (some (memory held)) bytes ffd tfd there extent staged =
    ap (λ b. ok (write_payload b tfd)) (some-injective there)
payload_copied source_at e (some (source path)) bytes ffd tfd there extent staged =
    elim (Option-cases (source_at path).fopen) [
      | inl closed ↦ let bad = rw (closed, payload_of) at there in cc
      | inr (all, opened) ↦
          let (at, size) =
            read_at-At 0 e.size (record { contents = all; pos = 0 }) bytes
              (rw (opened, payload_of) at there) in
          pending_source_lem (source_at path) e bytes all tfd staged opened at size
    ]

-- An entry whose payload can be read is copied, and lies where the copy says.
pub copy_between_paks_lem :
    (source_at : List ℕ → Source) (e : Entry) (ffd tfd : File) (r : IsReadable source_at ffd e)
    → tfd.pos ≤ uint32_max
    → copy_between_paks source_at e ffd tfd ≡ ok (tfd.pos, write_payload r.bytes tfd)
unfolding copy_between_paks
copy_between_paks_lem source_at e ffd tfd r fits =
    let small : ltb uint32_max tfd.pos ≡ false = ground arith in
    rw small
      (rw (payload_copied source_at e e.pending r.bytes ffd tfd r.there r.extent r.staged) refl)
