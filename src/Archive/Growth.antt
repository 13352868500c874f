-- ===== src/Archive/Growth.antt =====
-- What pakka_copy and pakka_add_memory of src/pakfile.c add to a PAK-class handle.
use pakka.Prelude.{ℕ, suc, ◌+◌, ◌≤◌, ◌≡◌, refl, sym, ap, ◌∙◌, arith, Bool, true, false, inl, inr}
use pakka.Prelude.{
  List, [], ◌∷◌, ◌++◌, All, All-append, length, length-append, Option, some, none, u32,
  Option-cases,
}
use pakka.Prelude.{same_bytes_refl}
use mathlib.Core.Path.{subst}
use pakka.Status.{ok, refuse_if, bind-ok, ok-injective}
use pakka.Status.{err_invalid_argument}
use pakka.Format.{is_wad, is_zip}
use pakka.Pak.{Entry, Pak, Pending, on_disk_extent}
use pakka.Names.{unsafe_entry_name}
use pakka.Archive.{find_entry, pak_add_preflight, not_editable, link_entry}
use pakka.Archive.Edit.{duplicate, pakka_copy}
use pakka.Archive.Find.{
  Distinct, Distinct-snoc, find_entry-Fresh, find_entry-append, find_entry-snoc_other,
}
use pakka.Archive.Replace.{find_entry-All}
use pakka.Archive.Sound.{IsSound, IsHeld, SameBut, preflight_lem}

-- A handle with one more entry at the end of the list.
pub record Grows (p q : Pak) (e : Entry) : Type 0 where
  pub entries : q.entries ≡ p.entries ++ e ∷ []
  pub counter : q.num_entries ≡ u32 (p.num_entries + 1)
  pub same_format : q.format ≡ p.format
  pub same_live : q.live ≡ p.live
  pub end_grows : p.payload_end ≤ q.payload_end
  pub new_held : IsHeld q.payload_end e

All-IsHeld_mono :
    (end end' : ℕ) (es : List Entry) → end ≤ end' → All (IsHeld end) es → All (IsHeld end') es
All-IsHeld_mono end end' [] le h = tt
All-IsHeld_mono end end' (e ∷ es) le h =
    ((λ c. let b = h.0 c in omega arith), All-IsHeld_mono end end' es le h.1)

find_entry-own : (e : Entry) → find_entry (e ∷ []) e.filename ≡ some e
unfolding find_entry
find_entry-own e = rw (same_bytes_refl e.filename) refl

-- What one more entry with a free name does to the invariant and to the lookups.
pub Grows_lem :
    (p q : Pak) (e : Entry)
    → IsSound p
    → Grows p q e
    → (is_wad p.format ≡ false → find_entry p.entries e.filename ≡ none)
    → IsSound q
      × (length q.entries ≡ suc (length p.entries))
      × SameBut e.filename p q
      × (is_wad p.format ≡ false → find_entry q.entries e.filename ≡ some e)
Grows_lem p q e s g free =
    let es = p.entries in
    let n : length q.entries ≡ suc (length es) =
      ap (λ (t : List Entry). length t) g.entries ∙ omega (arith, length-append es (e ∷ [])) in
    let fresh = λ (w : is_wad p.format ≡ false). find_entry-Fresh e.filename es (free w) in
    (
      record {
        counted = omega (arith, g.counter, s.counted, n);
        distinct = λ w.
            let w' = rw g.same_format at w in
            subst Distinct (sym g.entries) (Distinct-snoc es e (s.distinct w') (fresh w'));
        held = subst (All (IsHeld q.payload_end)) (sym g.entries) (
            All-append (IsHeld q.payload_end) es (e ∷ [])
              (All-IsHeld_mono p.payload_end q.payload_end es g.end_grows s.held) (g.new_held, tt));
      },
      n,
      λ other ne.
          ap (λ t. find_entry t other) g.entries
          ∙ find_entry-snoc_other other es e (λ c. ne (sym c)),
      λ w.
          ap (λ t. find_entry t e.filename) g.entries
          ∙ find_entry-append e.filename es (e ∷ []) (fresh w)
          ∙ find_entry-own e,
    )

pub link-Grows :
    (p : Pak) (b : Bool) (e : Entry) → IsHeld p.payload_end e → Grows p (link_entry b e p) e
unfolding link_entry
link-Grows p b e h = record {
  entries = refl;
  counter = refl;
  same_format = refl;
  same_live = refl;
  end_grows = omega arith;
  new_held = h;
}

duplicate-IsHeld :
    (end : ℕ) (name : List ℕ) (src : Entry) → IsHeld end src → IsHeld end (duplicate name src)
unfolding duplicate on_disk_extent
duplicate-IsHeld end name src h c =
    subst
      (λ (t : Option Pending). elim t [ none ↦ src.offset | some _ ↦ 0 ] + on_disk_extent src ≤ end)
      (sym c) (h c)

-- An entry with another name and the payload of the source, wherever that is.
pub record IsCopy (src copy : Entry) (name : List ℕ) : Type 0 where
  pub named : copy.filename ≡ name
  pub size : copy.size ≡ src.size
  pub packed :
      (copy.dk_is_compressed ≡ src.dk_is_compressed)
      × (copy.dk_compressed_size ≡ src.dk_compressed_size)
  pub zipped :
      (copy.pk3_method ≡ src.pk3_method) × (copy.pk3_compressed_size ≡ src.pk3_compressed_size)
  pub checksum : copy.crc32 ≡ src.crc32
  pub staged : copy.pending ≡ src.pending
  pub place : src.pending ≡ none → copy.offset ≡ src.offset

duplicate-IsCopy : (src : Entry) (name : List ℕ) → IsCopy src (duplicate name src) name
unfolding duplicate
duplicate-IsCopy src name = record {
  named = refl;
  size = refl;
  packed = (refl, refl);
  zipped = (refl, refl);
  checksum = refl;
  staged = refl;
  place = λ none_staged.
      ap (λ (t : Option Pending). elim t [ none ↦ src.offset | some _ ↦ 0 ]) none_staged;
}

-- pakka_copy keeps the invariant and puts one entry at the end of the list, with the new name, which
-- is safe; every lookup of another name finds what it found. The source is an entry of the archive of
-- the name asked for, and the new entry has its sizes, its flag, its checksum, its payload and, unless
-- that is still staged, its offset. Outside of a WAD it is found under the new name.
pub pakka_copy-IsSound :
    (p q : Pak) (src_name dst_name : List ℕ)
    → IsSound p
    → pakka_copy p src_name dst_name ≡ ok q
    → (unsafe_entry_name dst_name ≡ false)
      × IsSound q
      × (length q.entries ≡ suc (length p.entries))
      × SameBut dst_name p q
      × (src : Entry) × (find_entry p.entries src_name ≡ some src)
      × (copy : Entry) × (q.entries ≡ p.entries ++ copy ∷ [])
      × IsCopy src copy dst_name
      × (is_wad p.format ≡ false → find_entry q.entries dst_name ≡ some copy)
unfolding pakka_copy duplicate
pakka_copy-IsSound p q src_name dst_name s h =
    let (_, _, h1) =
      bind-ok {A = Unit {0}} (refuse_if (not_editable p) err_invalid_argument) _ _ h in
    elim (Option-cases (find_entry p.entries src_name)) [
      | inl gone ↦ let bad = rw gone at h1 in cc
      | inr (src, found) ↦
          let (u, checked, h2) =
            bind-ok {A = Unit {0}} (pak_add_preflight p dst_name) _ _ (rw found at h1) in
          let (safe, free) = preflight_lem p dst_name u checked in
          let (_, held) =
            find_entry-All (IsHeld p.payload_end) src_name p.entries src found s.held in
          let dup = duplicate dst_name src in
          let rebuild : Bool = elim src.pending [ none ↦ is_zip p.format | some _ ↦ true ] in
          let grows : Grows p q dup =
            subst (λ (t : Pak). Grows p t dup) (ok-injective h2)
              (link-Grows p rebuild dup (duplicate-IsHeld p.payload_end dst_name src held)) in
          let (sound, n, others, new) = Grows_lem p q dup s grows free in
          (
            safe,
            sound,
            n,
            others,
            src,
            found,
            dup,
            grows.entries,
            duplicate-IsCopy src dst_name,
            new,
          )
    ]
