-- ===== src/Archive/Sound.antt =====
-- The invariant of a PAK-class handle, and that pakka_delete, pakka_rename, pakka_copy and
-- pakka_add_memory of src/pakfile.c keep it and do what their names say to the lookup by name.
use pakka.Prelude.{ℕ, suc, ◌+◌, ◌≤◌, ◌≡◌, ◌≢◌, sym, ap, ◌∙◌, arith, false, inl, inr}
use pakka.Prelude.{List, All, length, some, none, u32, Option-cases}
use pakka.Prelude.{if◌then◌else◌, ltb, leb}
use mathlib.Core.Path.{subst}
use pakka.Status.{ok, refuse_if, bind-ok, refuse_if-ok, ok-injective}
use pakka.Status.{err_invalid_argument, err_limit, err_unsafe_name}
use pakka.Format.{is_wad}
use pakka.Pak.{Entry, Pak, on_disk_extent}
use pakka.Names.{unsafe_entry_name}
use pakka.Archive.{find_entry, pak_add_preflight, pak_entry_name_cap, not_editable}
use pakka.Archive.Edit.{unlink_first, pakka_delete, rename_first, pakka_rename}
use pakka.Archive.Find.{
  Distinct, find_entry-Fresh, Fresh-find_entry, unlink_first-All, unlink_first-other,
  unlink_first-Distinct, same_bytes-ne,
}
use pakka.Archive.Replace.{
  rename_first-All, rename_first-other, rename_first-new, rename_first-Distinct,
}

-- A committed entry lies before the payload end.
abbrev pub IsHeld : ℕ → Entry → Type 0
IsHeld end e = e.pending ≡ none → e.offset + on_disk_extent e ≤ end

-- The counter counts the entries, on 32 bits; the names are distinct, but in a WAD; and the
-- payloads in the file lie before the payload end, where the next one goes.
pub record IsSound (p : Pak) : Type 0 where
  pub counted : p.num_entries ≡ u32 (length p.entries)
  pub distinct : is_wad p.format ≡ false → Distinct p.entries
  pub held : All (IsHeld p.payload_end) p.entries

-- The lookups of all names but one are the same.
abbrev pub SameBut : List ℕ → Pak → Pak → Type 0
SameBut name p q =
    (other : List ℕ) → other ≢ name → find_entry q.entries other ≡ find_entry p.entries other

-- pakka_delete keeps the invariant. Where it succeeds the number of entries has gone down by one,
-- every lookup of another name finds what it found, and, but in a WAD, the name is gone.
pub pakka_delete-IsSound :
    (p q : Pak) (name : List ℕ)
    → IsSound p
    → pakka_delete p name ≡ ok q
    → IsSound q
      × (length p.entries ≡ suc (length q.entries))
      × SameBut name p q
      × (is_wad p.format ≡ false → find_entry q.entries name ≡ none)
unfolding pakka_delete
pakka_delete-IsSound p q name s h =
    let (u, _, h1) =
      bind-ok {A = Unit {0}} (refuse_if (not_editable p) err_invalid_argument) _ _ h in
    elim (Option-cases (unlink_first name p.entries)) [
      | inl gone ↦ let bad = rw gone at h1 in cc
      | inr (es, found) ↦
          let (n, held) = unlink_first-All name (IsHeld p.payload_end) p.entries es found s.held in
          subst
            (λ (q : Pak).
              IsSound q
              × (length p.entries ≡ suc (length q.entries))
              × SameBut name p q
              × (is_wad p.format ≡ false → find_entry q.entries name ≡ none))
            (ok-injective (rw found at h1))
            (
              record {
                counted = omega (arith, s.counted, n);
                distinct = λ w. (unlink_first-Distinct name p.entries es found (s.distinct w)).0;
                held = held;
              },
              n,
              λ other ne. unlink_first-other name other p.entries es ne found,
              λ w.
                  Fresh-find_entry name es
                    (unlink_first-Distinct name p.entries es found (s.distinct w)).1,
            )
    ]

-- What an add has checked of the name where it goes on.
pub preflight_lem :
    (p : Pak) (name : List ℕ) (u : Unit {0})
    → pak_add_preflight p name ≡ ok u
    → (unsafe_entry_name name ≡ false)
      × (is_wad p.format ≡ false → find_entry p.entries name ≡ none)
unfolding pak_add_preflight
preflight_lem p name u h =
    let (_, _, h1) =
      bind-ok {A = Unit {0}}
        (refuse_if
          (if is_wad p.format
            then ltb (pak_entry_name_cap p) (length name)
            else leb (pak_entry_name_cap p) (length name))
          err_limit)
        _ _ h in
    let (v, safe, h2) =
      bind-ok {A = Unit {0}} (refuse_if (unsafe_entry_name name) err_unsafe_name) _ _ h1 in
    (
      refuse_if-ok (unsafe_entry_name name) err_unsafe_name v safe,
      λ w. elim (Option-cases (find_entry p.entries name)) [
        | inl free ↦ free
        | inr (e, taken) ↦ let bad = rw (w, taken) at h2 in cc
      ],
    )

IsHeld-rename :
    (end : ℕ) (name : List ℕ) (e : Entry) → IsHeld end e → IsHeld end (record e { filename = name })
unfolding on_disk_extent
IsHeld-rename end name e h = h

-- pakka_rename to another name keeps the invariant and the number of entries, and every lookup of a
-- third name finds what it found. Outside of a WAD, the entry that the old name had is found under
-- the new name with all its other fields, and the old name is gone.
pub pakka_rename-IsSound :
    (p q : Pak) (old_name new_name : List ℕ)
    → IsSound p
    → old_name ≢ new_name
    → pakka_rename p old_name new_name ≡ ok q
    → IsSound q
      × (length q.entries ≡ length p.entries)
      × ((other : List ℕ)
          → other ≢ old_name
          → other ≢ new_name
          → find_entry q.entries other ≡ find_entry p.entries other)
      × (is_wad p.format ≡ false
          → (e : Entry) × (find_entry p.entries old_name ≡ some e)
            × (find_entry q.entries new_name ≡ some (record e { filename = new_name }))
            × (find_entry q.entries old_name ≡ none))
unfolding pakka_rename
pakka_rename-IsSound p q old_name new_name s ne h =
    let (_, _, h1) =
      bind-ok {A = Unit {0}} (refuse_if (not_editable p) err_invalid_argument) _ _ h in
    elim (Option-cases (find_entry p.entries old_name)) [
      | inl gone ↦ let bad = rw gone at h1 in cc
      | inr (e, found) ↦
          let h2 = rw (same_bytes-ne old_name new_name ne) at (rw found at h1) in
          let (u, checked, h3) = bind-ok {A = Unit {0}} (pak_add_preflight p new_name) _ _ h2 in
          let (_, free) = preflight_lem p new_name u checked in
          let es = p.entries in
          let (n, held) =
            rename_first-All old_name new_name (IsHeld p.payload_end) es
              (IsHeld-rename p.payload_end new_name) s.held in
          let fresh = λ (w : is_wad p.format ≡ false). find_entry-Fresh new_name es (free w) in
          let apart = λ (w : is_wad p.format ≡ false).
            rename_first-Distinct old_name new_name es ne (fresh w) (s.distinct w) in
          subst
            (λ (q : Pak).
              IsSound q
              × (length q.entries ≡ length p.entries)
              × ((other : List ℕ)
                  → other ≢ old_name
                  → other ≢ new_name
                  → find_entry q.entries other ≡ find_entry p.entries other)
              × (is_wad p.format ≡ false
                  → (e : Entry) × (find_entry p.entries old_name ≡ some e)
                    × (find_entry q.entries new_name ≡ some (record e { filename = new_name }))
                    × (find_entry q.entries old_name ≡ none)))
            (ok-injective h3)
            (
              record {
                counted = s.counted ∙ ap (λ (k : ℕ). u32 k) (sym n);
                distinct = λ w. (apart w).0;
                held = held;
              },
              n,
              λ other a b. rename_first-other old_name new_name other es a b,
              λ w. (
                e,
                found,
                rename_first-new old_name new_name es e found (fresh w),
                Fresh-find_entry old_name (rename_first old_name new_name es) (apart w).1,
              ),
            )
    ]
