-- ===== src/Commit/Owners.antt =====
-- The owners that pakka_commit_rebuild of src/pakfile.c works out stand before what they own, and
-- have the same bytes.
use pakka.Prelude.{ℕ, zero, suc, ◌+◌, ◌≤◌, ◌<◌, ◌≡◌, refl, sym, ap, ◌∙◌, arith, true, false}
use pakka.Prelude.{◌⊎◌, inl, inr, List, [], ◌∷◌, Option, none, some, length, get_or, get_elem?}
use pakka.Prelude.{
  set_at, length-set_at, get_or-set_at, All, Bool-cases, if_intro, ◌==◌, if◌then◌else◌,
}
use pakka.Prelude.{qsort, qsort-All, qsort-Sorted, Sorted}
use pakka.Stdio.Fronts.{some-injective}
use pakka.Pak.{Entry, Pending, on_disk_extent}
use pakka.Commit.Dedup.{
  Key, key_before, add_key, keys_from, own_indices, same_key, share_owners, share_all, owners,
}

-- A key stands for an entry in the file.
pub record KeyOf (es : List Entry) (k : Key) : Type 0 where
  pub entry : Entry
  pub there : get_elem? es k.idx ≡ some entry
  pub committed : entry.pending ≡ none
  pub same_offset : k.offset ≡ entry.offset
  pub same_extent : k.extent ≡ on_disk_extent entry
  pub within : k.idx < length es

-- Two entries in the file at the same place.
pub record IsAlias (es : List Entry) (i j : ℕ) : Type 0 where
  pub alias : Entry
  pub owner : Entry
  pub alias_at : get_elem? es i ≡ some alias
  pub owner_at : get_elem? es j ≡ some owner
  pub committed : (alias.pending ≡ none) × (owner.pending ≡ none)
  pub same_offset : alias.offset ≡ owner.offset
  pub same_extent : on_disk_extent alias ≡ on_disk_extent owner

-- `j` owns the payload of `i`: itself, or an earlier entry at the same place.
abbrev pub Owns : List Entry → ℕ → ℕ → Type 0
Owns es i j = (j ≡ i) ⊎ ((j < i) × IsAlias es i j)

abbrev pub AllOwned : List Entry → List ℕ → Type 0
AllOwned es owner =
    (length owner ≡ length es) × ((i : ℕ) → i < length es → Owns es i (get_or owner i 0))

key_before_trans :
    (a b c : Key) → key_before a b ≡ true → key_before b c ≡ true → key_before a c ≡ true
unfolding key_before
key_before_trans a b c h k = ground arith

key_before_total : (a b : Key) → key_before a b ≡ false → key_before b a ≡ true
unfolding key_before
key_before_total a b h = ground arith

-- Of two keys of the same place the first is the one with the lower index.
key_before-idx :
    (a b : Key)
    → key_before a b ≡ true
    → same_key a b ≡ true
    → (a.idx ≤ b.idx) × (a.offset ≡ b.offset) × (a.extent ≡ b.extent)
unfolding key_before same_key
key_before-idx a b h k = (ground arith, ground arith, ground arith)

length-own_indices : (i : ℕ) (es : List Entry) → length (own_indices i es) ≡ length es
unfolding own_indices
length-own_indices i [] = refl
length-own_indices i (e ∷ es) = omega (arith, length-own_indices (i + 1) es)

get_or-own_indices :
    (i k : ℕ) (es : List Entry) → k < length es → get_or (own_indices i es) k 0 ≡ i + k
unfolding own_indices
get_or-own_indices i k [] h = absurd (omega arith)
get_or-own_indices i zero (e ∷ es) h = omega arith
get_or-own_indices i (suc k) (e ∷ es) h =
    omega (arith, get_or-own_indices (i + 1) k es (omega arith))

-- The owner of the key before owns the next key too, where the two are the same.
Owns-next :
    (es : List Entry) (a b : Key) (j : ℕ)
    → KeyOf es a
    → KeyOf es b
    → a.idx ≤ b.idx
    → a.offset ≡ b.offset
    → a.extent ≡ b.extent
    → Owns es a.idx j
    → Owns es b.idx j
Owns-next es a b j ka kb le off ext (inl own) = elim (Bool-cases (j == b.idx)) [
  | inl same ↦ inl (ground arith)
  | inr other ↦ inr (
    ground (arith, other),
    record {
      alias = kb.entry;
      owner = ka.entry;
      alias_at = kb.there;
      owner_at = ap (λ t. get_elem? es t) own ∙ ka.there;
      committed = (kb.committed, ka.committed);
      same_offset = omega (arith, ka.same_offset, kb.same_offset);
      same_extent = omega (arith, ka.same_extent, kb.same_extent);
    },
  )
]
Owns-next es a b j ka kb le off ext (inr (lt, al)) =
    let same : al.alias ≡ ka.entry = some-injective (sym al.alias_at ∙ ka.there) in
    inr (
      omega arith,
      record {
        alias = kb.entry;
        owner = al.owner;
        alias_at = kb.there;
        owner_at = al.owner_at;
        committed = (kb.committed, al.committed.1);
        same_offset = omega (
          arith,
          ka.same_offset,
          kb.same_offset,
          al.same_offset,
          ap (λ (e : Entry). e.offset) same,
        );
        same_extent = omega (
          arith,
          ka.same_extent,
          kb.same_extent,
          al.same_extent,
          ap (λ (e : Entry). on_disk_extent e) same,
        );
      },
    )

-- One more owner.
AllOwned-set_at :
    (es : List Entry) (owner : List ℕ) (i j : ℕ)
    → AllOwned es owner
    → i < length es
    → Owns es i j
    → AllOwned es (set_at owner i j)
AllOwned-set_at es owner i j (n, h) lt own = (
  length-set_at owner i j ∙ n,
  λ k within. elim (get_or-set_at owner i k j 0 (omega (arith, n))) [
    | inl (e, v) ↦ rw (v, e) own
    | inr (_, v) ↦ rw v (h k within)
  ],
)

-- The loop keeps the invariant.
share_owners-AllOwned :
    (es : List Entry) (before : Key) (ks : List Key) (owner : List ℕ)
    → KeyOf es before
    → All (KeyOf es) ks
    → Sorted key_before (before ∷ ks)
    → AllOwned es owner
    → AllOwned es (share_owners before ks owner)
unfolding share_owners
share_owners-AllOwned es before [] owner kb kks sorted h = h
share_owners-AllOwned es before (k ∷ ks) owner kb kks sorted h =
    share_owners-AllOwned es k ks
      (if same_key before k then set_at owner k.idx (get_or owner before.idx 0) else owner) kks.0
      kks.1 sorted.1
      (if_intro (AllOwned es) (same_key before k)
        (λ same.
          let (le, off, ext) = key_before-idx before k sorted.0.0 same in
          AllOwned-set_at es owner k.idx (get_or owner before.idx 0) h (kks.0).within (
            Owns-next es before k (get_or owner before.idx 0) kb kks.0 le off ext
              (h.1 before.idx kb.within)))
        (λ _. h))

-- `es` is the whole list, and `rest` what stands in it from `i` on.
keys_from-KeyOf :
    (es rest : List Entry) (i : ℕ)
    → ((k : ℕ) → get_elem? es (i + k) ≡ get_elem? rest k)
    → i + length rest ≡ length es
    → All (KeyOf es) (keys_from i rest)
unfolding keys_from
keys_from-KeyOf es [] i h n = tt
keys_from-KeyOf es (e ∷ rest) i h n =
    let below =
      keys_from-KeyOf es rest (i + 1)
        (λ k.
          let shift : i + 1 + k ≡ i + suc k = omega arith in
          ap (λ t. get_elem? es t) shift ∙ h (suc k))
        (omega arith) in
    let zero_add : i + 0 ≡ i = omega arith in
    let here : get_elem? es i ≡ some e = ap (λ t. get_elem? es t) (sym zero_add) ∙ h 0 in
    add e.pending refl here below
  where
    add :
        (pending : Option Pending)
        → e.pending ≡ pending
        → get_elem? es i ≡ some e
        → All (KeyOf es) (keys_from (i + 1) rest)
        → All (KeyOf es) (
            add_key pending
              (record { offset = e.offset; extent = on_disk_extent e; idx = i })
              (keys_from (i + 1) rest))
    add none c here below = (
      record {
        entry = e;
        there = here;
        committed = c;
        same_offset = refl;
        same_extent = refl;
        within = omega arith;
      },
      below,
    )
    add (some _) c here below = below

-- Every entry has an owner: itself, or an earlier entry at the same place of the file.
pub owners-AllOwned : (es : List Entry) → AllOwned es (owners es)
unfolding owners share_all
owners-AllOwned es =
    go (qsort key_before (keys_from 0 es)) (qsort-All key_before (KeyOf es) (keys_from 0 es) keys)
      (qsort-Sorted key_before key_before_trans key_before_total (keys_from 0 es))
  where
    keys : All (KeyOf es) (keys_from 0 es)
    keys =
        keys_from-KeyOf es es 0
          (λ k. let zero_add : 0 + k ≡ k = omega arith in ap (λ t. get_elem? es t) zero_add)
          (omega arith)

    start : AllOwned es (own_indices 0 es)
    start = (length-own_indices 0 es, λ i lt. inl (omega (arith, get_or-own_indices 0 i es lt)))

    go :
        (ks : List Key)
        → All (KeyOf es) ks
        → Sorted key_before ks
        → AllOwned es (share_all ks (own_indices 0 es))
    go [] kk sorted = start
    go (k ∷ ks) kk sorted = share_owners-AllOwned es k ks (own_indices 0 es) kk.0 kk.1 sorted start
