-- ===== src/Reader/ReadBack.antt =====
-- What was added is read back, before any commit: pakka_add_memory and pakka_read_entry_alloc of
-- src/pakfile.c.
use pakka.Prelude.{ℕ, ◌≡◌, refl, sym, ap, ◌∙◌, arith, true, false, inl, inr}
use pakka.Prelude.{List, [], some, length, if_intro, ◌==◌}
use pakka.Status.{Result, ok}
use pakka.Format.{is_zip, is_wad}
use pakka.Pak.{Entry, Pak}
use pakka.Archive.{find_entry, pakka_find_entry}
use pakka.Archive.Add.{pakka_add_memory}
use pakka.Archive.AddFile.{Source}
use pakka.Archive.Sound.{IsSound}
use pakka.Archive.Stored.{Stores, pakka_add_memory-Added}
use pakka.Reader.{Reader, Chunk, cap_refuses, pakka_read_entry_alloc}
use pakka.Reader.Serves.{read_loop_lem}
use pakka.Reader.Opened.{WithinCap, pakka_open_entry_handle-Opens, nothing}

cap_allows :
    (p : Pak) (e : Entry) (payload : List ℕ)
    → is_zip p.format ≡ false
    → e.size ≡ length payload
    → WithinCap p payload
    → cap_refuses p e ≡ true
    → ⊥
unfolding cap_refuses
cap_allows p e payload no_zip size within h = elim within [
  | inl off ↦ ground arith
  | inr (inl small) ↦ ground (arith, size)
  | inr (inr other) ↦ ground arith
]

pakka_find_entry-some :
    (p : Pak) (e : Entry) (name : List ℕ)
    → find_entry p.entries name ≡ some e
    → pakka_find_entry p name ≡ ok e
unfolding pakka_find_entry
pakka_find_entry-some p e name found = rw (found, pakka_find_entry) refl

-- An entry that stores a payload is read as that payload.
pub pakka_read_entry_alloc-Stores :
    (pk3_open_entry_impl : Pak → Reader → Entry → Result Reader)
    (pk3_reader_read_impl : Pak → Reader → ℕ → Chunk) (source_at : List ℕ → Source) (p : Pak)
    (e : Entry) (name payload : List ℕ)
    → p.live ≡ true
    → is_zip p.format ≡ false
    → find_entry p.entries name ≡ some e
    → Stores p e payload
    → WithinCap p payload
    → pakka_read_entry_alloc pk3_open_entry_impl pk3_reader_read_impl source_at p name ≡ ok payload
unfolding pakka_read_entry_alloc
pakka_read_entry_alloc-Stores open_impl read_impl source_at p e name payload live no_zip found s
      within =
    let (reader, opens, serves) =
      pakka_open_entry_handle-Opens p e payload s within open_impl source_at live no_zip in
    rw (pakka_find_entry-some p e name found, pakka_read_entry_alloc)
      (if_intro (λ (r : Result (List ℕ)). r ≡ ok payload) (e.size == 0)
        (λ zero_size.
          let none_left = nothing payload (ground (arith, s.length_kept)) in
          rw opens (ap ok (sym none_left)))
        (λ _.
          if_intro (λ (r : Result (List ℕ)). r ≡ ok payload) (cap_refuses p e)
            (λ over. absurd (cap_allows p e payload no_zip s.length_kept within over))
            (λ _. rw opens (
              read_loop_lem read_impl p live no_zip e.size reader payload [] e.size serves
                (omega (arith, s.length_kept)) (omega (arith, s.length_kept))))))

-- What pakka_add_memory stored is what pakka_read_entry_alloc reads under the name, before any commit,
-- whether the payload was written at once or staged, packed or not. The add succeeded on a sound
-- handle of a PAK-class format that is no WAD, and the cap on unpacked sizes, where it applies, is not
-- below the payload.
pub pakka_add_memory-read :
    (pk3_add_memory_impl : Pak → List ℕ → List ℕ → Result Pak)
    (pk3_open_entry_impl : Pak → Reader → Entry → Result Reader)
    (pk3_reader_read_impl : Pak → Reader → ℕ → Chunk) (source_at : List ℕ → Source) (p q : Pak)
    (name payload : List ℕ)
    → IsSound p
    → is_zip p.format ≡ false
    → is_wad p.format ≡ false
    → pakka_add_memory pk3_add_memory_impl p name payload ≡ ok q
    → WithinCap q payload
    → pakka_read_entry_alloc pk3_open_entry_impl pk3_reader_read_impl source_at q name ≡ ok payload
pakka_add_memory-read add_impl open_impl read_impl source_at p q name payload s no_zip no_wad h
      within =
    let added = pakka_add_memory-Added add_impl p q name payload s no_zip h in
    pakka_read_entry_alloc-Stores open_impl read_impl source_at q added.entry name payload
      added.stays_open.0 (ap is_zip added.stays_open.1 ∙ no_zip) (added.found no_wad) added.stores
      within
