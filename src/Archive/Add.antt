-- ===== src/Archive/Add.antt =====
-- pakka_add_memory of src/pakfile.c, and dk_ci_eq and dk_compressible_extension.
use pakka.Prelude.{
  ℕ, ◌+◌, ◌-◌, ◌/◌, Bool, true, false, not, ◌&&◌, ◌||◌, Option, none, some, List, [], ◌∷◌, ◌++◌,
}
use pakka.Prelude.{length, ltb, leb, ◌==◌, get_or, if◌then◌else◌, u32, u64}
use pakka.Status.{Result, ok, err, err_limit, err_invalid_argument, ◌>>◌, refuse_if}
use pakka.Format.{is_zip, same_format, daikatana}
use pakka.Stdio.{File, fseek, fwrite}
use pakka.Pak.{Entry, Pak, Pending, memory, uint32_max}
use pakka.Codec.Deflate.{deflate}
use pakka.Archive.{pak_add_preflight, not_editable, link_entry}

-- `if (a >= 'A' && a <= 'Z') a = a + 32;`
lower : ℕ → ℕ
lower a = if leb b'A' a && leb a b'Z' then a + 32 else a

unfoldable pub dk_ci_eq : ℕ → ℕ → Bool
unfolding lower
dk_ci_eq a b = lower a == lower b

ends_in : List ℕ → ℕ → ℕ → ℕ → Bool
unfolding dk_ci_eq
ends_in name a b c =
    let n = length name in
    dk_ci_eq (get_or name (n - 3) 0) a
    && (dk_ci_eq (get_or name (n - 2) 0) b && dk_ci_eq (get_or name (n - 1) 0) c)

unfoldable pub dk_compressible_extension : List ℕ → Bool
unfolding ends_in
dk_compressible_extension name =
    let n = length name in
    not (ltb n 4 || not (get_or name (n - 4) 0 == b'.'))
    && (ends_in name b't' b'g' b'a'
        || (ends_in name b'b' b'm' b'p'
            || (ends_in name b'w' b'a' b'l'
                || (ends_in name b'p' b'c' b'x' || ends_in name b'b' b's' b'p'))))

-- `dk_try_compress`
unfoldable pub wants_encoding : Pak → List ℕ → List ℕ → Bool
unfolding dk_compressible_extension
wants_encoding archive entry_name payload =
    same_format archive.format daikatana
    && (ltb 0 (length payload) && dk_compressible_extension entry_name)

-- `use_encoded`: what the encoder wrote is used where it succeeded and is shorter.
unfoldable pub use_encoded : List ℕ → Option (Result (List ℕ)) → Option (List ℕ)
use_encoded payload (some (ok enc)) = if ltb (length enc) (length payload) then some enc else none
use_encoded payload _ = none

-- The compressed payload, where the archive and the name ask for it and it is shorter.
unfoldable pub try_encode : Pak → List ℕ → List ℕ → Option (List ℕ)
unfolding wants_encoding use_encoded
try_encode archive entry_name payload =
    let worst = length payload + (length payload + 63) / 64 + 1 in
    if wants_encoding archive entry_name payload
    then (if leb worst uint32_max then use_encoded payload (deflate payload worst) else none)
    else none

-- The new entry: its name, offset and payload, compressed or not.
unfoldable pub new_entry : List ℕ → ℕ → List ℕ → Option (List ℕ) → Option Pending → Entry
new_entry entry_name offset payload enc pending = record {
  filename = entry_name;
  offset = offset;
  size = u32 (length payload);
  pk3_compressed_size = 0;
  pk3_payload_offset = 0;
  pk3_lfh_offset = 0;
  pk3_method = 0;
  crc32 = 0;
  dk_compressed_size = elim enc [ none ↦ 0 | some bytes ↦ u32 (length bytes) ];
  dk_is_compressed = elim enc [ none ↦ false | some _ ↦ true ];
  pending = pending;
}

-- The bytes that go to the file.
unfoldable pub physical : List ℕ → Option (List ℕ) → List ℕ
physical payload none = payload
physical payload (some enc) = enc

-- No byte is written for an empty payload.
unfoldable pub write_payload : List ℕ → File → File
write_payload [] f = f
write_payload (c ∷ cs) f = fwrite (c ∷ cs) f

-- A staged payload waits for the commit.
unfoldable pub stage : Pak → List ℕ → List ℕ → Option (List ℕ) → Pak
unfolding new_entry physical
stage archive entry_name payload enc =
    link_entry true (new_entry entry_name 0 payload enc (some (memory (physical payload enc))))
      archive

-- The payload behind all others, and the entry for it.
unfoldable pub append_payload : Pak → List ℕ → List ℕ → Option (List ℕ) → Result Pak
unfolding new_entry physical write_payload
append_payload archive entry_name payload enc =
    let physical_size = u32 (length (physical payload enc)) in
    let append_offset = archive.payload_end in
    if ltb (uint32_max - physical_size) append_offset
    then err err_limit
    else ok (record archive {
      entries = archive.entries ++ new_entry entry_name (u32 append_offset) payload enc none ∷ [];
      payload_end = u64 (append_offset + physical_size);
      num_entries = u32 (archive.num_entries + 1);
      dirty = true;
      file = write_payload (physical payload enc) (fseek append_offset archive.file);
    })

-- `pk3_add_memory_impl` is pakka_pk3_add_memory_impl of src/pk3file.c.
unfoldable pub pakka_add_memory :
    (Pak → List ℕ → List ℕ → Result Pak) → Pak → List ℕ → List ℕ → Result Pak
unfolding try_encode stage append_payload
pakka_add_memory pk3_add_memory_impl archive entry_name payload = do
  refuse_if (not_editable archive) err_invalid_argument
  pak_add_preflight archive entry_name
  if is_zip archive.format
      then pk3_add_memory_impl archive entry_name payload
      else if ltb uint32_max (length payload)
      then err err_limit
      else if archive.atomic_commit
      then ok (stage archive entry_name payload (try_encode archive entry_name payload))
      else append_payload archive entry_name payload (try_encode archive entry_name payload)
