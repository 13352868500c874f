-- ===== src/Commit/Dedup.antt =====
-- The map of shared payloads in pakka_commit_rebuild of src/pakfile.c, with pak_dedup_key_cmp.
use pakka.Prelude.{ℕ, ◌+◌, Bool, ◌&&◌, not, List, [], ◌∷◌, Option, none, some}
use pakka.Prelude.{get_or, set_at, ltb, leb, ◌==◌, if◌then◌else◌, qsort}
use pakka.Pak.{Entry, Pending, on_disk_extent}

-- pak_dedup_key_t
pub record Key : Type 0 where
  pub offset : ℕ
  pub extent : ℕ
  pub idx : ℕ

-- `pak_dedup_key_cmp(a, b) <= 0`
unfoldable pub key_before : Key → Key → Bool
key_before a b =
    if not (a.offset == b.offset)
    then ltb a.offset b.offset
    else if not (a.extent == b.extent)
    then ltb a.extent b.extent
    else leb a.idx b.idx

unfoldable pub add_key : Option Pending → Key → List Key → List Key
add_key none k ks = k ∷ ks
add_key (some _) k ks = ks

-- The keys of the entries in the file, from an index on.
unfoldable pub keys_from : ℕ → List Entry → List Key
unfolding add_key
keys_from i [] = []
keys_from i (e ∷ es) =
    add_key e.pending (record { offset = e.offset; extent = on_disk_extent e; idx = i })
      (keys_from (i + 1) es)

-- `owner[i] = i` for all `i`, from an index on.
unfoldable pub own_indices : ℕ → List Entry → List ℕ
own_indices i [] = []
own_indices i (e ∷ es) = i ∷ own_indices (i + 1) es

unfoldable pub same_key : Key → Key → Bool
same_key a b = a.offset == b.offset && a.extent == b.extent

-- The loop over the sorted keys: an alias takes the owner of the key before it.
unfoldable pub share_owners : Key → List Key → List ℕ → List ℕ
unfolding same_key
share_owners before [] owner = owner
share_owners before (k ∷ ks) owner =
    share_owners k ks
      (if same_key before k then set_at owner k.idx (get_or owner before.idx 0) else owner)

unfoldable pub share_all : List Key → List ℕ → List ℕ
unfolding share_owners
share_all [] owner = owner
share_all (k ∷ ks) owner = share_owners k ks owner

unfoldable pub owners : List Entry → List ℕ
unfolding keys_from own_indices share_all
owners es = share_all (qsort key_before (keys_from 0 es)) (own_indices 0 es)
