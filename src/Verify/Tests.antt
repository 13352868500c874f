-- ===== src/Verify/Tests.antt =====
-- Tests of pakka_verify and inputs at which the theorem about it applies.
use pakka.Prelude.{
  ℕ, ◌≡◌, refl, ◌↔◌, ◌⊎◌, true, false, none, some, List, [], ◌∷◌, All, replicate, qsort, same_bytes,
}
use pakka.Prelude.Sort.{sort_insert}
use pakka.Status.{Result, ok, err, err_unsupported, err_duplicate}
use pakka.Format.{pak, is_zip, is_wad, pack_magic}
use pakka.Stdio.{fseek, fread}
use pakka.Pak.{Entry, Pak}
use pakka.Names.{
  unsafe_entry_name, scan_segments, is_separator, is_unsafe_segment, has_bad_byte, last_byte,
  is_reserved_device_name, base, any_folds, win_reserved_names, folds_to, upper,
}
use pakka.Names.Normalize.{
  normalize_entry_name, normalize_loop, fold_case, strip, is_stripped, rev_onto,
}
use pakka.Open.{at_most}
use pakka.Open.Sorting.{Apart}
use pakka.Commit.Copy.{chunk_size}
use pakka.Verify.{
  Severity, passed, pakka_verify, verify_entries, verify_entry, verify_payload, verify_range, skim,
  collision_records, collision_before, verify_collisions, scan_collisions, collision_report,
  first_error, record_error,
}
use pakka.Verify.Payloads.{IsGood}
use pakka.Verify.Accepts.{normal_names, pakka_verify-ok}

abbrev lump : ℕ → Entry
lump name = record {
  filename = name ∷ [];
  offset = 12;
  size = 2;
  pk3_compressed_size = 0;
  pk3_payload_offset = 0;
  pk3_lfh_offset = 0;
  pk3_method = 0;
  crc32 = 0;
  dk_compressed_size = 0;
  dk_is_compressed = false;
  pending = none;
}

-- Two names that differ in case only.
abbrev folded : Pak
folded = record {
  format = pak;
  signature = pack_magic;
  diroffset = 12;
  dirlength = 0;
  num_entries = 2;
  file_size = 14;
  entries = lump b'a' ∷ lump b'A' ∷ [];
  payload_end = 14;
  file = record { contents = replicate 14 0; pos = 0 };
  live = true;
  cur_pakpath = [];
  is_new = false;
  writable = false;
  dirty = false;
  needs_rebuild = false;
  atomic_commit = false;
  format_hint = pak;
  pk3_cdr_offset = 0;
  pk3_compression = 0;
  max_decompressed = 0;
}

abbrev no_zip : Pak → Entry → Result (List ℕ)
no_zip p e = err err_unsupported

collision_test : pakka_verify no_zip 0 folded ≡ (
  passed (lump b'a')
      ∷ passed (lump b'A')
      ∷ record { severity = Severity.error; status = some err_duplicate; name = b'A' ∷ [] }
      ∷ [],
  err err_duplicate,
)
unfolding pakka_verify verify_entries verify_entry verify_payload verify_range skim
    collision_records collision_before verify_collisions scan_collisions collision_report
    first_error record_error chunk_size fseek fread qsort sort_insert at_most same_bytes is_zip
    is_wad normalize_entry_name normalize_loop fold_case strip is_stripped rev_onto
    unsafe_entry_name scan_segments is_separator is_unsafe_segment has_bad_byte last_byte
    is_reserved_device_name base any_folds win_reserved_names folds_to upper passed
collision_test = refl

pakka_verify-ok_example : ((pakka_verify no_zip 0 folded).1 ≡ ok tt) ↔ (
    All (IsGood folded) folded.entries
    × ((is_wad pak ≡ true) ⊎ Apart (normal_names folded.entries)))
unfolding is_zip
pakka_verify-ok_example = pakka_verify-ok no_zip folded refl refl
