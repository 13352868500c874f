-- ===== src/Archive/Stored.antt =====
-- What pakka_add_memory of src/pakfile.c stores, and that it is the payload.
use pakka.Prelude.{
  ℕ, suc, ◌+◌, ◌-◌, ◌/◌, ◌∙◌, not, or-false, not-false, ◌^◌, ◌≤◌, ◌<◌, ◌≡◌, refl, sym, arith, Bool,
  true, false, ◌⊎◌, inl, inr,
}
use pakka.Prelude.{
  List, [], ◌∷◌, ◌++◌, append-nil, length, if_intro, if-cases, ltb→lt, Option, some, none, u32,
  Bool-cases, ltb, leb,
}
use mathlib.Core.Path.{subst}
use pakka.Status.{Result, ok, refuse_if, refuse_if-ok, bind-ok, ok-injective, err_invalid_argument}
use pakka.Format.{Format, is_wad, is_zip, same_format, daikatana}
use pakka.Stdio.{File, fseek}
use pakka.Stdio.Reads.{At}
use pakka.Stdio.Writes.{fwrite-At}
use pakka.Pak.{Entry, Pak, Pending, memory, on_disk_extent, uint32_max}
use pakka.Names.{unsafe_entry_name}
use pakka.Codec.Inflate.{inflate}
use pakka.Codec.Deflate.{deflate, worst}
use pakka.Codec.RoundTrip.{deflate-inflate}
use pakka.Archive.{find_entry, pak_add_preflight, not_editable, link_entry}
use pakka.Archive.Add.{
  pakka_add_memory, append_payload, stage, new_entry, physical, try_encode, write_payload,
  use_encoded, wants_encoding,
}
use pakka.Archive.Sound.{IsSound, SameBut, preflight_lem}
use pakka.Archive.Growth.{Grows, Grows_lem, link-Grows}

-- The bytes are the payload, or they unpack to it.
abbrev pub Holds : Bool → List ℕ → List ℕ → Type 0
Holds false bytes payload = bytes ≡ payload
Holds true bytes payload = inflate bytes (length payload) ≡ some (ok payload)

-- Where the bytes of an entry are: staged, or in the file at the entry's offset.
abbrev pub IsAt : Pak → Entry → List ℕ → Type 0
IsAt q e bytes =
    (e.pending ≡ some (memory bytes))
    ⊎ ((e.pending ≡ none) × ((bytes ≡ []) ⊎ At (fseek e.offset q.file) bytes))

-- An entry that stands for the payload.
pub record Stores (q : Pak) (e : Entry) (payload : List ℕ) : Type 0 where
  pub bytes : List ℕ
  pub length_kept : e.size ≡ length payload
  pub extent : on_disk_extent e ≡ length bytes
  pub holds : Holds e.dk_is_compressed bytes payload
  pub place : IsAt q e bytes
  pub no_longer : length bytes ≤ length payload
  pub packed_format : e.dk_is_compressed ≡ true → same_format q.format daikatana ≡ true

-- What try_encode gives is shorter than the payload and unpacks to it, in a Daikatana archive.
abbrev pub IsEncoding : Format → List ℕ → Option (List ℕ) → Type 0
IsEncoding fmt payload none = Unit {0}
IsEncoding fmt payload (some enc) =
    (length enc < length payload)
    × (inflate enc (length payload) ≡ some (ok payload))
    × (same_format fmt daikatana ≡ true)

encoder_room : (n : ℕ) → n ≤ uint32_max → (worst n ≤ n + (n + 63) / 64 + 1) × (n < 2 ^ 62)
unfolding worst
encoder_room n small = omega arith

use_encoded-IsEncoding :
    (fmt : Format) (payload : List ℕ)
    → length payload ≤ uint32_max
    → same_format fmt daikatana ≡ true
    → IsEncoding fmt payload
        (use_encoded payload (deflate payload (length payload + (length payload + 63) / 64 + 1)))
unfolding use_encoded
use_encoded-IsEncoding fmt payload small daikatanas =
    let (room, buffer) = encoder_room (length payload) small in
    let (packed, packs, _, unpacks) =
      deflate-inflate payload (length payload + (length payload + 63) / 64 + 1) [] buffer room in
    rw packs (
      if_intro (IsEncoding fmt payload) (ltb (length packed) (length payload))
        (λ shorter.
          (ltb→lt (length packed) (length payload) shorter, rw append-nil at unpacks, daikatanas))
        (λ _. tt))

wants_encoding-format :
    (p : Pak) (name payload : List ℕ)
    → wants_encoding p name payload ≡ true
    → same_format p.format daikatana ≡ true
unfolding wants_encoding
wants_encoding-format p name payload h = elim (Bool-cases (same_format p.format daikatana)) [
  | inl here ↦ here
  | inr other ↦ let bad = rw (other, wants_encoding) at h in cc
]

pub try_encode-IsEncoding :
    (p : Pak) (name payload : List ℕ)
    → length payload ≤ uint32_max
    → IsEncoding p.format payload (try_encode p name payload)
unfolding try_encode
try_encode-IsEncoding p name payload small =
    if_intro (IsEncoding p.format payload) (wants_encoding p name payload)
      (λ wants.
        if_intro (IsEncoding p.format payload)
          (leb (length payload + (length payload + 63) / 64 + 1) uint32_max)
          (λ _.
            use_encoded-IsEncoding p.format payload small
              (wants_encoding-format p name payload wants))
          (λ _. tt))
      (λ _. tt)

-- The new entry has the payload's length, and the extent of what is stored.
new_entry_lem :
    (fmt : Format) (name payload : List ℕ) (offset : ℕ) (enc : Option (List ℕ))
    (pending : Option Pending)
    → length payload ≤ uint32_max
    → IsEncoding fmt payload enc
    → (u32 (length payload) ≡ length payload)
      × (on_disk_extent (new_entry name offset payload enc pending) ≡ length (physical payload enc))
      × Holds
          (new_entry name offset payload enc pending).dk_is_compressed
          (physical payload enc)
          payload
      × (length (physical payload enc) ≤ length payload)
      × ((new_entry name offset payload enc pending).dk_is_compressed ≡ true
          → same_format fmt daikatana ≡ true)
unfolding new_entry physical on_disk_extent
new_entry_lem fmt name payload offset none pending small h =
    (omega arith, omega arith, refl, omega arith, λ c. cc)
new_entry_lem fmt name payload offset (some enc) pending small h =
    (omega arith, omega (arith, h.0), h.1, omega (arith, h.0), λ _. h.2)

written :
    (bytes : List ℕ) (f : File) → (bytes ≡ []) ⊎ At (fseek f.pos (write_payload bytes f)) bytes
unfolding write_payload
written [] f = inl refl
written (c ∷ cs) f = inr (fwrite-At (c ∷ cs) f)

module _ (p : Pak) (name payload : List ℕ) (enc : Option (List ℕ))
    (small : length payload ≤ uint32_max) (h : IsEncoding p.format payload enc) where
  unfoldable pub staged : Entry
  unfolding new_entry
  staged = new_entry name 0 payload enc (some (memory (physical payload enc)))

  pub stage-Stores :
      Grows p (stage p name payload enc) staged × Stores (stage p name payload enc) staged payload
  unfolding stage new_entry staged link_entry
  stage-Stores =
      let (kept, extent, holds, shorter, packed) =
        new_entry_lem p.format name payload 0 enc (some (memory (physical payload enc))) small h in
      (
        link-Grows p true staged (λ c. cc),
        record {
          bytes = physical payload enc;
          length_kept = kept;
          extent = extent;
          holds = holds;
          place = inl refl;
          no_longer = shorter;
          packed_format = packed;
        },
      )

  unfoldable pub appended : Entry
  appended = new_entry name (u32 p.payload_end) payload enc none

  pub append_payload-Stores :
      (q : Pak)
      → append_payload p name payload enc ≡ ok q
      → Grows p q appended × Stores q appended payload
  unfolding append_payload new_entry appended fseek
  append_payload-Stores q e =
      let bytes = physical payload enc in
      let (kept, extent, holds, shorter, packed) =
        new_entry_lem p.format name payload (u32 p.payload_end) enc none small h in
      let over = ltb (uint32_max - u32 (length bytes)) p.payload_end in
      elim (Bool-cases over) [
        | inl above ↦ let bad = rw above at e in cc
        | inr below ↦
            let fits : p.payload_end + length bytes ≤ uint32_max = ground (arith, below, shorter) in
            let same : u32 p.payload_end ≡ p.payload_end = omega (arith, fits) in
            subst (λ (q : Pak). Grows p q appended × Stores q appended payload)
              (ok-injective (rw below at e))
              (
                record {
                  entries = refl;
                  counter = refl;
                  same_format = refl;
                  same_live = refl;
                  end_grows = omega (arith, fits);
                  new_held = λ _. omega (arith, fits, extent, same);
                },
                record {
                  bytes = bytes;
                  length_kept = kept;
                  extent = extent;
                  holds = holds;
                  place = inr (refl, rw same (written bytes (fseek p.payload_end p.file)));
                  no_longer = shorter;
                  packed_format = packed;
                },
              )
      ]

-- A handle of a PAK class that pakka_add_memory changed: the name is safe, the invariant holds, the
-- handle is open in the same format, every lookup of another name finds what it found, and the list
-- has one entry more at its end, which has the name and stores the payload and is, outside of a WAD,
-- what the name finds.
pub record Added (p q : Pak) (name payload : List ℕ) : Type 0 where
  pub safe : unsafe_entry_name name ≡ false
  pub sound : IsSound q
  pub stays_open : (q.live ≡ true) × (q.format ≡ p.format)
  pub one_more : length q.entries ≡ suc (length p.entries)
  pub others : SameBut name p q
  pub entry : Entry
  pub linked : q.entries ≡ p.entries ++ entry ∷ []
  pub named : entry.filename ≡ name
  pub stores : Stores q entry payload
  pub found : is_wad p.format ≡ false → find_entry q.entries name ≡ some entry

not_editable-live : (p : Pak) → not_editable p ≡ false → p.live ≡ true
unfolding not_editable
not_editable-live p h =
    let (_, live) = or-false (not p.writable) (not p.live) h in not-false p.live live

Added_lem :
    (p q : Pak) (name payload : List ℕ) (e : Entry) (u : Unit {0})
    → IsSound p
    → not_editable p ≡ false
    → pak_add_preflight p name ≡ ok u
    → e.filename ≡ name
    → Grows p q e
    → Stores q e payload
    → Added p q name payload
Added_lem p q name payload e u s editable checked here grows stores =
    let (safe, free) = preflight_lem p name u checked in
    let free_e =
      subst (λ n. is_wad p.format ≡ false → find_entry p.entries n ≡ none) (sym here) free in
    let (sound, n, others, found) = Grows_lem p q e s grows free_e in
    record {
      safe = safe;
      sound = sound;
      stays_open = (grows.same_live ∙ not_editable-live p editable, grows.same_format);
      one_more = n;
      others = subst (λ t. SameBut t p q) here others;
      entry = e;
      linked = grows.entries;
      named = here;
      stores = stores;
      found = subst (λ t. is_wad p.format ≡ false → find_entry q.entries t ≡ some e) here found;
    }

-- pakka_add_memory on a PAK-class handle: where it succeeds the name is safe, the invariant is kept,
-- every lookup of another name finds what it found, and the list has one entry more at its end, which
-- has the name, is found under it outside of a WAD, and stores the payload: its bytes are staged, or stand in the file at
-- its offset, its extent is their number, its length is the payload's, and they are the payload or,
-- where the entry is marked as compressed, pakka_dk_inflate makes the payload of them.
pub pakka_add_memory-Added :
    (pk3_add_memory_impl : Pak → List ℕ → List ℕ → Result Pak) (p q : Pak) (name payload : List ℕ)
    → IsSound p
    → is_zip p.format ≡ false
    → pakka_add_memory pk3_add_memory_impl p name payload ≡ ok q
    → Added p q name payload
unfolding pakka_add_memory staged appended new_entry
pakka_add_memory-Added pk3_add_memory_impl p q name payload s no_zip h =
    let enc = try_encode p name payload in
    let (v, passed, h1) =
      bind-ok {A = Unit {0}} (refuse_if (not_editable p) err_invalid_argument) _ _ h in
    let editable = refuse_if-ok (not_editable p) err_invalid_argument v passed in
    let (u, checked, h2) = bind-ok {A = Unit {0}} (pak_add_preflight p name) _ _ h1 in
    let h3 = rw no_zip at h2 in
    elim (Bool-cases (ltb uint32_max (length payload))) [
      | inl big ↦ let bad = rw big at h3 in cc
      | inr fits ↦
          let small : length payload ≤ uint32_max = ground (arith, fits) in
          let good = try_encode-IsEncoding p name payload small in
          let h4 = rw fits at h3 in
          elim (if-cases p.atomic_commit (ok (stage p name payload enc))
            (append_payload p name payload enc) h4) [
              | inl (_, did) ↦
                  let (grows, stores) = stage-Stores p name payload enc small good in
                  subst (λ (q : Pak). Added p q name payload) (ok-injective did)
                    (Added_lem p (stage p name payload enc) name payload
                      (staged p name payload enc small good) u s editable checked refl grows stores)
              | inr (_, did) ↦
                  let (grows, stores) = append_payload-Stores p name payload enc small good q did in
                  Added_lem p q name payload (appended p name payload enc small good) u s editable
                    checked refl grows stores
            ]
    ]
