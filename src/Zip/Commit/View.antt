-- ===== src/Zip/Commit/View.antt =====
-- What a ZIP archive holds, whatever its layout: the abstract view that pakka_pk3_commit_impl of
-- src/pk3file.c must not change.
use pakka.Prelude.{ℕ, ◌+◌, ◌≡◌, refl, false, none, some, Option, List, [], ◌∷◌, length}
use pakka.Stdio.{File}
use pakka.Pak.{Entry, Pending, source, memory, on_disk_extent}
use pakka.Archive.AddFile.{Source}
use pakka.Commit.Copy.{copy_payload, pak_copy_pending_source, revalidate}
use pakka.Commit.View.{payload_of, IsReadable}
use pakka.Zip.Records.{pk3_lfh_size}
use pakka.Zip.Commit.{write_zip_payload, copy_source, recheck_source}

-- The stored bytes of an entry, as an entry that is stored as it is.
abbrev pub stored_part : Entry → Entry
stored_part e = record e {
  offset = e.pk3_payload_offset;
  size = e.pk3_compressed_size;
  dk_is_compressed = false;
}

-- An entry as a client sees it: the bytes are those stored, packed or not.
pub record ZipMember : Type 0 where
  pub name : List ℕ
  pub method : ℕ
  pub crc : ℕ
  pub size : ℕ
  pub compressed_size : ℕ
  pub stored : Option (List ℕ)

abbrev pub zip_member : (List ℕ → Source) → File → Entry → ZipMember
zip_member source_at f e = record {
  name = e.filename;
  method = e.pk3_method;
  crc = e.crc32;
  size = e.size;
  compressed_size = e.pk3_compressed_size;
  stored = payload_of source_at f (stored_part e) e.pending;
}

abbrev pub zip_view : (List ℕ → Source) → File → List Entry → List ZipMember
zip_view source_at f [] = []
zip_view source_at f (e ∷ es) = zip_member source_at f e ∷ zip_view source_at f es

-- The payload of an entry can be read, is as long as the entry says, and is what was staged.
abbrev pub IsZipReadable : (List ℕ → Source) → File → Entry → Type 0
IsZipReadable source_at f e = IsReadable source_at f (stored_part e)

-- The payloads of a ZIP are copied as those of a PAK are.
pub write_zip_payload_lem :
    (source_at : List ℕ → Source) (fp : File) (e : Entry) (pending : Option Pending) (tmpfp : File)
    → write_zip_payload source_at fp e pending tmpfp
      ≡ copy_payload source_at (stored_part e) pending fp tmpfp
unfolding write_zip_payload copy_source recheck_source copy_payload pak_copy_pending_source
    revalidate on_disk_extent
write_zip_payload_lem source_at fp e none tmpfp = refl
write_zip_payload_lem source_at fp e (some (memory bytes)) tmpfp = refl
write_zip_payload_lem source_at fp e (some (source path)) tmpfp = refl

-- Where the next entry goes, and how far all go.
abbrev pub next_offset : ℕ → Entry → ℕ
next_offset cur e = cur + (pk3_lfh_size + length e.filename + e.pk3_compressed_size)

abbrev pub members_end : ℕ → List Entry → ℕ
members_end cur [] = cur
members_end cur (e ∷ es) = members_end (next_offset cur e) es
