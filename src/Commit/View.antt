-- ===== src/Commit/View.antt =====
-- What an archive holds, whatever its layout: the abstract view that pakka_commit of src/pakfile.c
-- must not change.
use pakka.Prelude.{ℕ, ◌≡◌, Bool, true, false, Option, none, some, List, [], ◌∷◌, length}
use pakka.Stdio.{File}
use pakka.Stdio.Fronts.{read_at}
use pakka.Crc.{crc32_update}
use pakka.Pak.{Entry, Pending, source, memory, on_disk_extent}
use pakka.Archive.AddFile.{Source}

-- An entry as a client sees it: the bytes are those stored, packed or not.
pub record Member : Type 0 where
  pub name : List ℕ
  pub size : ℕ
  pub is_packed : Bool
  pub stored : Option (List ℕ)

-- The bytes that stand for a payload: staged, in a source, or in the file.
unfoldable pub payload_of : (List ℕ → Source) → File → Entry → Option Pending → Option (List ℕ)
payload_of source_at f e none = read_at e.offset (on_disk_extent e) f
payload_of source_at f e (some (memory bytes)) = some bytes
payload_of source_at f e (some (source path)) = elim (source_at path).fopen [
  | none ↦ none
  | some bytes ↦ read_at 0 e.size (record { contents = bytes; pos = 0 })
]

abbrev pub member : (List ℕ → Source) → File → Entry → Member
member source_at f e = record {
  name = e.filename;
  size = e.size;
  is_packed = e.dk_is_compressed;
  stored = payload_of source_at f e e.pending;
}

abbrev pub view : (List ℕ → Source) → File → List Entry → List Member
view source_at f [] = []
view source_at f (e ∷ es) = member source_at f e ∷ view source_at f es

-- A source that nobody has touched since it was staged: a regular file of the same size, with the
-- same checksum.
pub record IsUntouched (s : Source) (e : Entry) (bytes : List ℕ) : Type 0 where
  pub no_link : s.is_link ≡ false
  pub regular : s.lstat ≡ some true
  pub same_size : s.st_size ≡ e.size
  pub same_crc : crc32_update 0 bytes ≡ e.crc32

abbrev pub StaysAsStaged : (List ℕ → Source) → Entry → List ℕ → Option Pending → Type 0
StaysAsStaged source_at e bytes (some (source path)) = IsUntouched (source_at path) e bytes
StaysAsStaged source_at e bytes _ = Unit {0}

-- The payload of an entry can be read, is as long as the entry says, and is what was staged.
pub record IsReadable (source_at : List ℕ → Source) (f : File) (e : Entry) : Type 0 where
  pub bytes : List ℕ
  pub there : payload_of source_at f e e.pending ≡ some bytes
  pub extent : on_disk_extent e ≡ length bytes
  pub staged : StaysAsStaged source_at e bytes e.pending
