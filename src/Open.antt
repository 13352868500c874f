-- ===== src/Open.antt =====
-- pakka_open_ex and validate_no_duplicates of src/pakfile.c.
pub mod Order
pub mod Sorting
pub mod Duplicates
pub mod Loaded
pub mod Accepts
mod Tests
use pakka.Stdio.{File}
use pakka.Prelude.{
  ℕ, ◌*◌, Bool, true, false, ◌||◌, ◌&&◌, not, Option, none, some, length, List, [], ◌∷◌, take, ltb,
  leb, ◌==◌, same_bytes, if◌then◌else◌,
}
use pakka.Status.{Result, ok, err, err_duplicate, err_limit, err_io, ◌>>=◌, ◌>>◌}
use pakka.Format.{Format, is_wad, is_zip}
use pakka.Pak.{Entry, Pak}
use pakka.Disk.Load.{load_pakfile}
use pakka.Disk.Rows.{load_directory}

-- `strcmp(a, b) <= 0` on strings without their NUL.
unfoldable pub at_most : List ℕ → List ℕ → Bool
at_most [] ys = true
at_most (a ∷ xs) [] = false
at_most (a ∷ xs) (b ∷ ys) = let rest = at_most xs ys in if a == b then rest else ltb a b

unfoldable pub insert : List ℕ → List (List ℕ) → List (List ℕ)
unfolding at_most
insert name [] = name ∷ []
insert name (other ∷ names) =
    let rest = insert name names in
    if at_most name other then name ∷ other ∷ names else other ∷ rest

-- The C library's qsort with the comparator name_ptr_cmp.
unfoldable pub sort : List (List ℕ) → List (List ℕ)
unfolding insert
sort [] = []
sort (name ∷ names) = insert name (sort names)

-- The scan for two neighbours that are the same, with the name before.
unfoldable pub repeats : List ℕ → List (List ℕ) → Bool
repeats before [] = false
repeats before (name ∷ names) = same_bytes before name || repeats name names

unfoldable pub any_repeats : List (List ℕ) → Bool
unfolding repeats
any_repeats [] = false
any_repeats (name ∷ names) = repeats name names

unfoldable pub names_of : List Entry → List (List ℕ)
names_of [] = []
names_of (e ∷ es) = e.filename ∷ names_of es

unfoldable pub validate_no_duplicates : Pak → Result (Unit {0})
unfolding sort any_repeats names_of
validate_no_duplicates pak =
    if is_wad pak.format
    then ok tt
    else if leb pak.num_entries 1
    then ok tt
    else if any_repeats (sort (names_of (take pak.num_entries pak.entries)))
    then err err_duplicate
    else ok tt

-- pakka_open_mode_t
pub data OpenMode : Type 0 where
  read read_write read_write_atomic : OpenMode

unfoldable pub is_writable : OpenMode → Bool
is_writable read = false
is_writable read_write = true
is_writable read_write_atomic = true

unfoldable pub is_atomic : OpenMode → Bool
is_atomic read_write_atomic = true
is_atomic _ = false

-- The handle before load_pakfile: zeros, and what the caller asked for.
unfoldable pub new_handle : List ℕ → OpenMode → Format → File → Pak
unfolding is_writable is_atomic
new_handle path mode format_hint file = record {
  format = Format.auto;
  signature = 0 ∷ 0 ∷ 0 ∷ 0 ∷ [];
  diroffset = 0;
  dirlength = 0;
  num_entries = 0;
  file_size = 0;
  entries = [];
  payload_end = 0;
  file = file;
  live = true;
  cur_pakpath = path;
  is_new = false;
  writable = is_writable mode;
  dirty = false;
  needs_rebuild = false;
  atomic_commit = is_atomic mode;
  format_hint = format_hint;
  pk3_cdr_offset = 0;
  pk3_compression = 0;
  max_decompressed = 64 * 1024 * 1024;
}

-- What pakka_open_ex does with an open file.
unfoldable pub load_archive : (Pak → Result Pak) → Pak → Result Pak
load_archive pk3_open_impl pak = do
  p ← load_pakfile pk3_open_impl pak
  q ← if is_zip p.format then ok p else load_directory p
  validate_no_duplicates q >> ok q

-- `os_path_max` is the host's PATH_MAX, `fopen` is what pakka_platform_fopen gives, and `locks` is
-- whether the exclusive lock is got.
unfoldable pub pakka_open_ex :
    ℕ → (Pak → Result Pak) → Option File → Bool → List ℕ → OpenMode → Format → Result Pak
unfolding new_handle
pakka_open_ex os_path_max pk3_open_impl fopen locks path mode format_hint =
    if leb os_path_max (length path) then err err_limit else elim fopen [
      | none ↦ err err_io
      | some file ↦
          if is_writable mode && not locks
          then err err_io
          else load_archive pk3_open_impl (new_handle path mode format_hint file)
    ]
