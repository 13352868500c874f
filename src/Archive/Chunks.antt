-- ===== src/Archive/Chunks.antt =====
-- The two loops of pakka_add_file of src/pakfile.c that take a source in chunks take all of it.
use pakka.Prelude.{ℕ, zero, suc, ◌≤◌, ◌<◌, ◌≡◌, refl, sym, ap, ◌∙◌, arith, false}
use pakka.Prelude.{
  List, [], ◌∷◌, ◌++◌, append-nil, length, length-take, length-drop, take, drop, take-append-drop,
  leb,
}
use pakka.Stdio.{File, fwrite}
use pakka.Stdio.Writes.{fwrite-append}
use pakka.Crc.{crc32_update, crc32_loop}
use pakka.Crc.Bitwise.{crc32_update-append}
use pakka.Prelude.Bits.{bit_xor_cancel}
use pakka.Archive.Add.{write_payload}
use pakka.Archive.AddFile.{copy_chunk, crc_chunks, copy_chunks}

pub write_payload-fwrite :
    (xs ys : List ℕ) (f : File) → write_payload ys (fwrite xs f) ≡ fwrite (xs ++ ys) f
unfolding write_payload
write_payload-fwrite xs [] f = ap (λ t. fwrite t f) (sym (append-nil xs))
write_payload-fwrite xs (y ∷ ys) f = fwrite-append xs (y ∷ ys) f

-- The copy in chunks writes the whole source.
pub copy_chunks_lem :
    (fuel : ℕ) (bytes : List ℕ) (f : File)
    → length bytes ≤ fuel
    → copy_chunks fuel bytes f ≡ write_payload bytes f
unfolding copy_chunks write_payload
copy_chunks_lem zero [] f h = refl
copy_chunks_lem zero (c ∷ cs) f h = absurd (omega arith)
copy_chunks_lem (suc fuel) [] f h = refl
copy_chunks_lem (suc fuel) (c ∷ cs) f h =
    let some_left : leb (suc (length cs)) 0 ≡ false = ground arith in
    let shorter : length (drop copy_chunk (c ∷ cs)) ≤ fuel =
      omega (arith, length-drop copy_chunk (c ∷ cs)) in
    rw some_left (
      copy_chunks_lem fuel (drop copy_chunk (c ∷ cs)) (fwrite (take copy_chunk (c ∷ cs)) f) shorter
      ∙ write_payload-fwrite (take copy_chunk (c ∷ cs)) (drop copy_chunk (c ∷ cs)) f
      ∙ ap (λ t. fwrite t f) (take-append-drop copy_chunk (c ∷ cs)))

pub crc32_update-empty : (crc : ℕ) → crc32_update crc [] ≡ crc
unfolding crc32_update crc32_loop
crc32_update-empty crc = bit_xor_cancel crc 0xffffffff

positive : (n : ℕ) → 0 < n → leb n 0 ≡ false
positive n h = ground arith

taken : (n c : ℕ) (cs : List ℕ) → 0 < n → 0 < length (take n (c ∷ cs))
taken n c cs h = omega (arith, length-take n (c ∷ cs))

-- The checksum in chunks is that of the whole source.
pub crc_chunks_lem :
    (fuel crc : ℕ) (bytes : List ℕ)
    → length bytes ≤ fuel
    → crc_chunks fuel crc bytes ≡ crc32_update crc bytes
unfolding crc_chunks
crc_chunks_lem zero crc [] h = sym (crc32_update-empty crc)
crc_chunks_lem zero crc (c ∷ cs) h = absurd (omega arith)
crc_chunks_lem (suc fuel) crc [] h = sym (crc32_update-empty crc)
crc_chunks_lem (suc fuel) crc (c ∷ cs) h =
    let all = c ∷ cs in
    let some_read : leb (length (take copy_chunk all)) 0 ≡ false =
      positive (length (take copy_chunk all)) (taken copy_chunk c cs (omega arith)) in
    let shorter : length (drop copy_chunk all) ≤ fuel = omega (arith, length-drop copy_chunk all) in
    rw some_read (
      crc_chunks_lem fuel (crc32_update crc (take copy_chunk all)) (drop copy_chunk all) shorter
      ∙ crc32_update-append crc (take copy_chunk all) (drop copy_chunk all)
      ∙ ap (λ t. crc32_update crc t) (take-append-drop copy_chunk all))
