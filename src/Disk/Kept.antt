-- ===== src/Disk/Kept.antt =====
-- What write_pak_directory of src/pakfile.c leaves of the handle.
use pakka.Prelude.{◌*◌, ◌+◌, ◌≡◌, refl, List, [], ◌∷◌, inl, inr, Option-cases, if-cases, ltb, u64}
use mathlib.Core.Path.{subst}
use pakka.Status.{ok, err, err_limit, ok-injective}
use pakka.Format.{Geometry, geometry}
use pakka.Pak.{Entry, Pak, uint32_max}
use pakka.Disk.Save.{
  write_pak_directory, write_directory_with, write_empty, write_rows, write_pak_header,
}

-- The numbers of the directory and the file may differ, and nothing else.
abbrev pub Keeps : Pak → Pak → Type 0
Keeps p q = q ≡ record p { diroffset = q.diroffset; dirlength = q.dirlength; file = q.file }

write_directory_with-Keeps :
    (g : Geometry) (es : List Entry) (p q : Pak) → write_directory_with g es p ≡ ok q → Keeps p q
unfolding write_directory_with write_empty write_rows write_pak_header
write_directory_with-Keeps g [] p q h = subst (Keeps p) (ok-injective h) refl
write_directory_with-Keeps g (e ∷ es) p q h =
    elim (if-cases (ltb uint32_max (u64 (p.payload_end + u64 (p.num_entries * g.dir_entry_size))))
      (err err_limit) (ok (write_rows g p)) h) [
        | inl (_, bad) ↦ cc
        | inr (_, did) ↦ subst (Keeps p) (ok-injective did) refl
      ]

pub write_pak_directory-Keeps : (p q : Pak) → write_pak_directory p ≡ ok q → Keeps p q
unfolding write_pak_directory
write_pak_directory-Keeps p q h = elim (Option-cases (geometry p.format)) [
  | inl unknown ↦ let bad = rw (unknown, write_pak_directory) at h in cc
  | inr (g, known) ↦
      write_directory_with-Keeps g p.entries p q (rw (known, write_pak_directory) at h)
]
