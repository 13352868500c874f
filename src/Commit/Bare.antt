-- ===== src/Commit/Bare.antt =====
-- write_pak_directory of src/pakfile.c writes nothing of an entry's checksum or staged payload.
use pakka.Prelude.{ℕ, suc, ◌+◌, ◌*◌, ◌≡◌, refl, sym, ap, ◌∙◌, Bool, true, false, none, inl, inr}
use pakka.Prelude.{List, [], ◌∷◌, length, Option-cases, if◌then◌else◌, ltb, u32, u64}
use pakka.Status.{Result, ok, err, Status, err_limit}
use pakka.Format.{Format, Geometry, geometry, is_wad}
use pakka.Stdio.{File, fseek}
use pakka.Pak.{Entry, Pak, uint32_max}
use pakka.Disk.Save.{
  write_pak_directory, write_directory_with, write_empty, write_rows, write_entries,
  write_pak_entry, write_fields, write_compression, write_pak_header,
}

-- An entry as the loader makes it.
abbrev pub bare : Entry → Entry
bare e = record e { crc32 = 0; pending = none }

abbrev pub bare_all : List Entry → List Entry
bare_all [] = []
bare_all (e ∷ es) = bare e ∷ bare_all es

pub length-bare_all : (es : List Entry) → length (bare_all es) ≡ length es
length-bare_all [] = refl
length-bare_all (e ∷ es) = ap suc (length-bare_all es)

write_fields-bare :
    (wad : Bool) (cap : ℕ) (e : Entry) (f : File)
    → write_fields wad cap (bare e) f ≡ write_fields wad cap e f
unfolding write_fields
write_fields-bare true cap e f = refl
write_fields-bare false cap e f = refl

write_compression-bare :
    (has : Bool) (e : Entry) (f : File)
    → write_compression has (bare e) f ≡ write_compression has e f
unfolding write_compression
write_compression-bare true e f = refl
write_compression-bare false e f = refl

write_pak_entry-bare :
    (fmt : Format) (g : Geometry) (e : Entry) (f : File)
    → write_pak_entry fmt g (bare e) f ≡ write_pak_entry fmt g e f
unfolding write_pak_entry
write_pak_entry-bare fmt g e f =
    write_compression-bare g.has_compression e
      (write_fields (is_wad fmt) g.name_field_len (bare e) f)
    ∙ ap (write_compression g.has_compression e)
        (write_fields-bare (is_wad fmt) g.name_field_len e f)

write_entries-bare :
    (fmt : Format) (g : Geometry) (es : List Entry) (f : File) (n : ℕ)
    → write_entries fmt g (bare_all es) (f, n) ≡ write_entries fmt g es (f, n)
unfolding write_entries
write_entries-bare fmt g [] f n = refl
write_entries-bare fmt g (e ∷ es) f n =
    write_entries-bare fmt g es (write_pak_entry fmt g (bare e) f) (u32 (n + g.dir_entry_size))
    ∙ ap (λ t. write_entries fmt g es (t, u32 (n + g.dir_entry_size)))
        (write_pak_entry-bare fmt g e f)

abbrev pub with_entries : List Entry → Result Pak → Result Pak
with_entries es (ok q) = ok (record q { entries = es })
with_entries es (err e) = err e

rows_of : Pak → List Entry → File × ℕ → Pak
rows_of p es t =
    write_pak_header (record p {
      entries = es;
      diroffset = u32 p.payload_end;
      dirlength = t.1;
      file = fseek 0 t.0;
    })

with_entries-if :
    (es : List Entry) (b : Bool) (e : Status) (p q : Pak)
    → p ≡ record q { entries = es }
    → (if b then err e else ok p) ≡ with_entries es (if b then err e else ok q)
with_entries-if es true e p q h = refl
with_entries-if es false e p q h = ap ok h

write_rows-bare :
    (g : Geometry) (p : Pak) (es : List Entry)
    → write_rows g (record p { entries = es })
      ≡ record (write_rows g (record p { entries = bare_all es })) { entries = es }
unfolding write_rows write_pak_header rows_of
write_rows-bare g p es =
    let start = fseek (u32 p.payload_end) p.file in
    ap (λ t. rows_of p es t) (sym (write_entries-bare p.format g es start 0))

write_directory-bare :
    (g : Geometry) (p : Pak) (es : List Entry)
    → write_directory_with g es (record p { entries = es })
      ≡ with_entries es (write_directory_with g (bare_all es) (record p { entries = bare_all es }))
unfolding write_directory_with write_empty write_pak_header
write_directory-bare g p [] = refl
write_directory-bare g p (e ∷ es) =
    with_entries-if (e ∷ es)
      (ltb uint32_max (u64 (p.payload_end + u64 (p.num_entries * g.dir_entry_size)))) err_limit
      (write_rows g (record p { entries = e ∷ es }))
      (write_rows g (record p { entries = bare_all (e ∷ es) })) (write_rows-bare g p (e ∷ es))

-- The same file is written for the bare entries.
pub write_pak_directory-bare :
    (p : Pak)
    → write_pak_directory p
      ≡ with_entries p.entries (write_pak_directory (record p { entries = bare_all p.entries }))
unfolding write_pak_directory
write_pak_directory-bare p = elim (Option-cases (geometry p.format)) [
  | inl unknown ↦ rw (unknown, write_pak_directory) refl
  | inr (g, known) ↦ rw (known, write_pak_directory) (write_directory-bare g p p.entries)
]
