-- ===== src/Archive/FileStored.antt =====
-- What pakka_add_file of src/pakfile.c stores.
use pakka.Prelude.{
  ℕ, suc, ◌≤◌, ◌≡◌, refl, sym, ◌∙◌, arith, true, false, ◌⊎◌, inl, inr, [], ◌∷◌, ◌++◌,
}
use pakka.Prelude.{List, length, Option, some, none, Option-cases, if-cases, if_intro, ltb}
use mathlib.Core.Path.{subst}
use pakka.Status.{
  Result, ok, refuse_if, bind-ok, refuse_if-ok, ok-injective, err_invalid_argument, err_unsafe_name,
}
use pakka.Format.{is_wad, is_zip}
use pakka.Stdio.{fseek}
use pakka.Pak.{Entry, Pak, source, uint32_max}
use pakka.Crc.{crc32_update}
use pakka.Names.{unsafe_entry_name}
use pakka.Archive.{find_entry, pak_add_preflight, not_editable}
use pakka.Archive.Add.{append_payload, new_entry, physical, try_encode}
use pakka.Archive.AddFile.{
  Source, pak_add_source_preflight, crc_chunks, was_read, stage_source, stage_file, append_source,
  append_file, pakka_add_file,
}
use pakka.Archive.Sound.{IsSound, SameBut, preflight_lem}
use pakka.Archive.Growth.{Grows, Grows_lem, link-Grows}
use pakka.Archive.Chunks.{copy_chunks_lem, crc_chunks_lem}
use pakka.Archive.Stored.{
  Stores, IsEncoding, try_encode-IsEncoding, stage-Stores, append_payload-Stores, staged, appended,
}

-- A staged source: its path, length and checksum, for the commit to check.
pub record StagesSource (e : Entry) (path payload : List ℕ) : Type 0 where
  pub staged_path : e.pending ≡ some (source path)
  pub length_kept : e.size ≡ length payload
  pub stored : e.dk_is_compressed ≡ false
  pub checksum : e.crc32 ≡ crc32_update 0 payload

-- A handle of a PAK class that pakka_add_file changed: the source is a regular file that could be
-- read, the name is safe, the invariant holds, every lookup of another name finds what it found, and
-- the list has one entry more at its end, which has the name, stores the source's bytes or stages its
-- path, and is, outside of a WAD, what the name finds.
pub record FileAdded (p q : Pak) (s : Source) (name : List ℕ) : Type 0 where
  pub payload : List ℕ
  pub readable : s.fopen ≡ some payload
  pub regular : (s.is_link ≡ false) × (s.lstat ≡ some true)
  pub safe : unsafe_entry_name name ≡ false
  pub sound : IsSound q
  pub one_more : length q.entries ≡ suc (length p.entries)
  pub others : SameBut name p q
  pub entry : Entry
  pub linked : q.entries ≡ p.entries ++ entry ∷ []
  pub entry_named : entry.filename ≡ name
  pub stores : Stores q entry payload ⊎ StagesSource entry s.path payload
  pub found : is_wad p.format ≡ false → find_entry q.entries name ≡ some entry

-- The entry that a file becomes.
record FileEntry (p q : Pak) (name path payload : List ℕ) : Type 0 where
  pub entry : Entry
  pub named : entry.filename ≡ name
  pub grows : Grows p q entry
  pub stores : Stores q entry payload ⊎ StagesSource entry path payload

append_source-eq :
    (p : Pak) (name payload : List ℕ)
    → append_source p name payload ≡ append_payload p name payload none
unfolding append_source append_payload new_entry physical
append_source-eq p name payload =
    rw (copy_chunks_lem (length payload) payload (fseek p.payload_end p.file) (omega arith)) refl

source-FileEntry :
    (p : Pak) (name path payload : List ℕ)
    → length payload ≤ uint32_max
    → FileEntry p (stage_source p name path payload) name path payload
unfolding stage_source new_entry
source-FileEntry p name path payload small =
    let e = record (new_entry name 0 payload none (some (source path))) {
      crc32 = crc_chunks (length payload) 0 payload;
    } in
    record {
      entry = e;
      named = refl;
      grows = link-Grows p true e (λ c. cc);
      stores = inr (record {
        staged_path = refl;
        length_kept = omega arith;
        stored = refl;
        checksum = crc_chunks_lem (length payload) 0 payload (omega arith);
      });
    }

module _ (p : Pak) (name path payload : List ℕ) (small : length payload ≤ uint32_max) where
  stage_file-FileEntry : FileEntry p (stage_file p name path payload) name path payload
  unfolding stage_file staged new_entry
  stage_file-FileEntry =
      let enc = try_encode p name payload in
      let good = try_encode-IsEncoding p name payload small in
      let (grows, stores) = stage-Stores p name payload enc small good in
      if_intro (λ (q : Pak). FileEntry p q name path payload) (was_read p name payload)
        (λ _. record {
          entry = staged p name payload enc small good;
          named = refl;
          grows = grows;
          stores = inl stores;
        })
        (λ _. source-FileEntry p name path payload small)

  payload-FileEntry :
      (enc : Option (List ℕ)) (q : Pak)
      → IsEncoding p.format payload enc
      → append_payload p name payload enc ≡ ok q
      → FileEntry p q name path payload
  unfolding appended new_entry
  payload-FileEntry enc q good h =
      let (grows, stores) = append_payload-Stores p name payload enc small good q h in
      record {
        entry = appended p name payload enc small good;
        named = refl;
        grows = grows;
        stores = inl stores;
      }

  append_file-FileEntry :
      (q : Pak) → append_file p name payload ≡ ok q → FileEntry p q name path payload
  unfolding append_file
  append_file-FileEntry q h =
      elim (if-cases (was_read p name payload)
        (append_payload p name payload (try_encode p name payload)) (append_source p name payload)
        h) [
          | inl (_, did) ↦
              payload-FileEntry (try_encode p name payload) q
                (try_encode-IsEncoding p name payload small) did
          | inr (_, did) ↦ payload-FileEntry none q tt (sym (append_source-eq p name payload) ∙ did)
        ]

source_preflight_lem :
    (s : Source) (u : Unit {0})
    → pak_add_source_preflight s ≡ ok u
    → (s.is_link ≡ false) × (s.lstat ≡ some true)
unfolding pak_add_source_preflight
source_preflight_lem s u h =
    let (v, plain, h1) = bind-ok {A = Unit {0}} (refuse_if s.is_link err_unsafe_name) _ _ h in
    elim (Option-cases s.lstat) [
      | inl failed ↦ let bad = rw failed at h1 in cc
      | inr (true, got) ↦ (refuse_if-ok s.is_link err_unsafe_name v plain, got)
      | inr (false, got) ↦ let bad = rw got at h1 in cc
    ]

FileAdded_lem :
    (p q : Pak) (s : Source) (name payload : List ℕ) (u v : Unit {0})
    → IsSound p
    → pak_add_preflight p name ≡ ok u
    → pak_add_source_preflight s ≡ ok v
    → s.fopen ≡ some payload
    → FileEntry p q name s.path payload
    → FileAdded p q s name
FileAdded_lem p q s name payload u v sound checked source_checked readable f =
    let (safe, free) = preflight_lem p name u checked in
    let free_e =
      subst (λ n. is_wad p.format ≡ false → find_entry p.entries n ≡ none) (sym f.named) free in
    let (sound', n, others, found) = Grows_lem p q f.entry sound f.grows free_e in
    record {
      payload = payload;
      readable = readable;
      regular = source_preflight_lem s v source_checked;
      safe = safe;
      sound = sound';
      one_more = n;
      others = subst (λ t. SameBut t p q) f.named others;
      entry = f.entry;
      linked = f.grows.entries;
      entry_named = f.named;
      stores = f.stores;
      found =
          subst (λ t. is_wad p.format ≡ false → find_entry q.entries t ≡ some f.entry) f.named
            found;
    }

-- pakka_add_file on a PAK-class handle: where it succeeds the source is no link but a regular file
-- that could be read, the name is safe, the invariant is kept, every lookup of another name finds what
-- it found, and the list has one entry more at its end, which has the name, is found under it outside
-- of a WAD, and stores the source's bytes as pakka_add_memory does or, staged, its path, its length and the
-- checksum of its bytes.
pub pakka_add_file-FileAdded :
    (pk3_add_file_impl : Pak → Source → List ℕ → Result Pak) (p q : Pak) (s : Source)
    (name : List ℕ)
    → IsSound p
    → is_zip p.format ≡ false
    → pakka_add_file pk3_add_file_impl p s name ≡ ok q
    → FileAdded p q s name
unfolding pakka_add_file
pakka_add_file-FileAdded pk3_add_file_impl p q s name sound no_zip h =
    let (_, _, h1) =
      bind-ok {A = Unit {0}} (refuse_if (not_editable p) err_invalid_argument) _ _ h in
    let (u, checked, h2) = bind-ok {A = Unit {0}} (pak_add_preflight p name) _ _ h1 in
    let (v, source_checked, h3) = bind-ok {A = Unit {0}} (pak_add_source_preflight s) _ _ h2 in
    let h4 = rw no_zip at h3 in
    elim (Option-cases s.fopen) [
      | inl failed ↦ let bad = rw failed at h4 in cc
      | inr (payload, readable) ↦
          elim (if-cases (ltb uint32_max (length payload)) _ _ (rw readable at h4)) [
            | inl (_, bad) ↦ cc
            | inr (fits, h5) ↦
                let small : length payload ≤ uint32_max = ground (arith, fits) in
                FileAdded_lem p q s name payload u v sound checked source_checked readable
                  (elim (if-cases p.atomic_commit (ok (stage_file p name s.path payload))
                    (append_file p name payload) h5) [
                      | inl (_, did) ↦
                          subst (λ (q : Pak). FileEntry p q name s.path payload) (ok-injective did)
                            (stage_file-FileEntry p name s.path payload small)
                      | inr (_, did) ↦ append_file-FileEntry p name s.path payload small q did
                    ])
          ]
    ]
