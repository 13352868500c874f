-- ===== src/Verify.antt =====
-- pakka_verify of src/pakfile.c, with verify_entry, verify_report and verify_record_error. A report is
-- its severity, status and entry name; the text is left out.
pub mod Payloads
pub mod Accepts
mod Tests
use pakka.Prelude.{
  ℕ, zero, suc, ◌+◌, ◌-◌, Bool, true, false, not, ◌&&◌, ◌||◌, Option, none, some, List, [], ◌∷◌,
  ◌++◌,
}
use pakka.Prelude.{length, ltb, leb, ◌==◌, if◌then◌else◌, same_bytes, qsort}
use pakka.Status.{
  Status, Result, ok, err, err_io, err_limit, err_unsafe_name, err_duplicate, err_invalid_argument,
  ◌>>=◌, ◌>>◌,
}
use pakka.Format.{is_zip, is_wad, same_format, daikatana}
use pakka.Stdio.{File, fseek, fread}
use pakka.Stdio.Fronts.{read_at}
use pakka.Pak.{Entry, Pak, on_disk_extent}
use pakka.Names.{unsafe_entry_name}
use pakka.Names.Normalize.{normalize_entry_name}
use pakka.Open.{at_most}
use pakka.Commit.Copy.{chunk_size}
use pakka.Reader.{exceeds_cap, pakka_dk_inflate}

-- pakka_report_severity_t
pub data Severity : Type 0 where
  info warning error : Severity

-- `status` is the error, and `none` is PAKKA_OK.
pub record Report : Type 0 where
  pub severity : Severity
  pub status : Option Status
  pub name : List ℕ

unfoldable pub passed : Entry → Report
passed e = record { severity = Severity.info; status = none; name = e.filename }

unfoldable pub failed : Status → Entry → Report
failed s e = record { severity = Severity.error; status = some s; name = e.filename }

-- The offset and the extent of the payload in the file.
unfoldable pub verify_range : Pak → Entry → ℕ × ℕ
verify_range p e =
    if is_zip p.format
    then (e.pk3_payload_offset, e.pk3_compressed_size)
    else if e.dk_is_compressed
    then (e.offset, e.dk_compressed_size)
    else (e.offset, e.size)

-- The loop that reads the payload in pieces: whether all of it could be read.
unfoldable pub skim : ℕ → ℕ → File → Bool
unfolding chunk_size
skim zero remaining f = true
skim (suc fuel) remaining f =
    if leb remaining 0 then true else elim (fread (chunk_size remaining) f) [
      | none ↦ false
      | some (_, f') ↦ skim fuel (remaining - chunk_size remaining) f'
    ]

unfoldable pub deep_failure : Entry → Result (List ℕ) → Report
unfolding passed failed
deep_failure e (ok _) = passed e
deep_failure e (err s) = failed s e

-- The deep check of a compressed Daikatana entry.
unfoldable pub verify_packed : Pak → Entry → Report
unfolding deep_failure exceeds_cap
verify_packed p e =
    if exceeds_cap p e.size e.dk_compressed_size
    then failed err_limit e
    else elim (if ltb 0 e.dk_compressed_size
        then read_at e.offset e.dk_compressed_size p.file
        else some []) [
          | none ↦ failed err_io e
          | some cbuf ↦ deep_failure e (pakka_dk_inflate cbuf e.size)
        ]

-- `pk3_deep_verify_entry` is pakka_pk3_deep_verify_entry of src/pk3file.c.
unfoldable pub verify_deep : (Pak → Entry → Result (List ℕ)) → Pak → Entry → Report
unfolding verify_packed deep_failure
verify_deep pk3_deep_verify_entry p e =
    if is_zip p.format
    then deep_failure e (pk3_deep_verify_entry p e)
    else if same_format p.format daikatana && e.dk_is_compressed
    then verify_packed p e
    else passed e

unfoldable pub verify_payload : (Pak → Entry → Result (List ℕ)) → Bool → Pak → Entry → Report
unfolding verify_range skim verify_deep passed failed
verify_payload pk3_deep_verify_entry deep p e =
    let (verify_offset, verify_length) = verify_range p e in
    if verify_length == 0 && e.size == 0
    then passed e
    else if not (skim verify_length verify_length (fseek verify_offset p.file))
    then failed err_io e
    else if deep
    then verify_deep pk3_deep_verify_entry p e
    else passed e

-- Every way through verify_entry makes one report.
unfoldable pub verify_entry : (Pak → Entry → Result (List ℕ)) → Bool → Pak → Entry → Report
unfolding verify_payload
verify_entry pk3_deep_verify_entry deep p e =
    if unsafe_entry_name e.filename
    then failed err_unsafe_name e
    else elim e.pending [ some _ ↦ passed e | none ↦ verify_payload pk3_deep_verify_entry deep p e ]

-- Pass A.
unfoldable pub verify_entries :
    (Pak → Entry → Result (List ℕ)) → Bool → Pak → List Entry → List Report
unfolding verify_entry
verify_entries pk3_deep_verify_entry deep p [] = []
verify_entries pk3_deep_verify_entry deep p (e ∷ es) =
    verify_entry pk3_deep_verify_entry deep p e ∷ verify_entries pk3_deep_verify_entry deep p es

-- verify_collision_record_t
pub record CollisionRecord : Type 0 where
  pub norm : List ℕ
  pub original : List ℕ

unfoldable pub collision_records : List Entry → List CollisionRecord
collision_records [] = []
collision_records (e ∷ es) =
    record { norm = normalize_entry_name e.filename (length e.filename + 1); original = e.filename }
    ∷ collision_records es

-- `verify_collision_cmp(a, b) <= 0`
unfoldable pub collision_before : CollisionRecord → CollisionRecord → Bool
collision_before a b = at_most a.norm b.norm

unfoldable pub collision_report : Bool → CollisionRecord → Report
collision_report is_warning r = record {
  severity = if is_warning then Severity.warning else Severity.error;
  status = some err_duplicate;
  name = r.original;
}

-- The scan of the sorted records for neighbours of the same normalized name.
unfoldable pub scan_collisions : Bool → CollisionRecord → List CollisionRecord → List Report
unfolding collision_report
scan_collisions is_warning before [] = []
scan_collisions is_warning before (r ∷ rs) =
    let rest = scan_collisions is_warning r rs in
    if same_bytes before.norm r.norm then collision_report is_warning r ∷ rest else rest

-- Pass B.
unfoldable pub verify_collisions : Pak → List CollisionRecord → List Report
unfolding scan_collisions
verify_collisions p [] = []
verify_collisions p (r ∷ rs) = scan_collisions (is_wad p.format) r rs

-- `if (*first_error == PAKKA_OK) *first_error = status`, where the reports behind come to `rest`.
unfoldable pub record_error : Severity → Option Status → Result (Unit {0}) → Result (Unit {0})
record_error Severity.error (some s) rest = err s
record_error _ _ rest = rest

-- `first_error` after the reports: the status of the first that is an error.
unfoldable pub first_error : List Report → Result (Unit {0})
unfolding record_error
first_error [] = ok tt
first_error (r ∷ rs) = record_error r.severity r.status (first_error rs)

-- The reports in order, and the result. `flags` has PAKKA_VERIFY_DEEP as its lowest bit.
unfoldable pub pakka_verify :
    (Pak → Entry → Result (List ℕ)) → ℕ → Pak → List Report × Result (Unit {0})
unfolding verify_entries collision_records collision_before verify_collisions first_error
pakka_verify pk3_deep_verify_entry flags p =
    if ltb 1 flags
    then ([], err err_invalid_argument)
    else if not p.live
    then ([], err err_invalid_argument)
    else (let reports =
          verify_entries pk3_deep_verify_entry (flags == 1) p p.entries
          ++ verify_collisions p (qsort collision_before (collision_records p.entries)) in
        (reports, first_error reports))
