-- ===== src/Zip/Commit/Members.antt =====
-- The loop of pakka_pk3_commit_impl, src/pk3file.c, that writes the local headers and payloads.
use pakka.Prelude.{ℕ, ◌+◌, ◌≤◌, ◌≡◌, refl, ap, ◌∙◌, arith, false, some, List, [], ◌∷◌}
use pakka.Prelude.{◌++◌, append-nil, length, length-append, length-take, take, drop, drop_all, All}
use pakka.Prelude.{ltb, u32}
use mathlib.Core.Path.{subst}
use pakka.Status.{Result, ok}
use pakka.Stdio.{File, fwrite}
use pakka.Stdio.Writes.{pos-fwrite, front, length-front, fwrite-split}
use pakka.Stdio.Fronts.{Before, Before-fwrite, fwrite-Before}
use pakka.Pak.{Entry, uint32_max, on_disk_extent}
use pakka.Archive.Add.{write_payload}
use pakka.Archive.AddFile.{Source}
use pakka.Commit.View.{payload_of}
use pakka.Commit.Copied.{
  payload_copied, pos-write_payload, Before-write_payload, write_payload-Before,
}
use pakka.Words.{u32_bytes}
use pakka.Zip.Records.{u16_bytes, build_lfh, pk3_lfh_size}
use pakka.Zip.Commit.{write_members, write_lfh, moved, name_length, write_zip_payload}
use pakka.Zip.Commit.View.{
  stored_part, IsZipReadable, write_zip_payload_lem, next_offset, members_end,
}
use pakka.Zip.Built.{IsZipEntry, name_length_lem}
use pakka.Zip.Built.Local.{lfh_of}

-- A file that ends at its position.
abbrev pub AtEnd : File → Type 0
AtEnd f = length f.contents ≤ f.pos

pub contents-fwrite :
    (bytes : List ℕ) (f : File) → AtEnd f → (fwrite bytes f).contents ≡ front f ++ bytes
contents-fwrite bytes f h =
    let none_left : drop (f.pos + length bytes) f.contents ≡ [] =
      drop_all (f.pos + length bytes) f.contents (omega arith) in
    fwrite-split bytes f
    ∙ ap (λ t. front f ++ (bytes ++ t)) none_left
    ∙ ap (λ t. front f ++ t) (append-nil bytes)

AtEnd-fwrite : (bytes : List ℕ) (f : File) → AtEnd f → AtEnd (fwrite bytes f)
AtEnd-fwrite bytes f h = omega (
  arith,
  ap (λ t. length t) (contents-fwrite bytes f h),
  length-append (front f) bytes,
  length-front f,
  pos-fwrite bytes f,
)

AtEnd-write_payload : (bytes : List ℕ) (f : File) → AtEnd f → AtEnd (write_payload bytes f)
unfolding write_payload
AtEnd-write_payload [] f h = h
AtEnd-write_payload (c ∷ cs) f h = AtEnd-fwrite (c ∷ cs) f h

-- The entries at their new places.
abbrev pub placed_from : ℕ → List Entry → List Entry
placed_from cur [] = []
placed_from cur (e ∷ es) = moved cur e ∷ placed_from (next_offset cur e) es

module _ (source_at : List ℕ → Source) (fp : File) where
  -- An entry's header and payload stand one behind the other, before the directory.
  pub record Member (copy : File) (cdr_offset cur : ℕ) (e : Entry) : Type 0 where
    pub header : Before copy cur (lfh_of e)
    pub bytes : List ℕ
    pub there : payload_of source_at fp (stored_part e) e.pending ≡ some bytes
    pub extent : e.pk3_compressed_size ≡ length bytes
    pub payload : Before copy (cur + pk3_lfh_size + length e.filename) bytes
    pub fits : next_offset cur e ≤ cdr_offset

  abbrev pub AllMembers : File → ℕ → ℕ → List Entry → Type 0
  AllMembers copy cdr_offset cur [] = Unit {0}
  AllMembers copy cdr_offset cur (e ∷ es) =
      Member copy cdr_offset cur e × AllMembers copy cdr_offset (next_offset cur e) es

  pub record MembersEnd (es : List Entry) (cur : ℕ) (tmpfp : File)
      (r : List Entry × Result (ℕ × File)) : Type 0 where
    pub copy : File
    pub ends : r ≡ (placed_from cur es, ok (members_end cur es, copy))
    pub members : AllMembers copy (members_end cur es) cur es
    pub place : copy.pos ≡ members_end cur es
    pub at_end : AtEnd copy
    pub keeps : (o : ℕ) (b : List ℕ) → Before tmpfp o b → Before copy o b

  extent_read :
      (e : Entry) (r : IsZipReadable source_at fp e) → e.pk3_compressed_size ≡ length r.bytes
  unfolding on_disk_extent
  extent_read e r = r.extent

  members_end_le : (cur : ℕ) (es : List Entry) → cur ≤ members_end cur es
  members_end_le cur [] = omega arith
  members_end_le cur (e ∷ es) = omega (arith, members_end_le (next_offset cur e) es)

  module _ (e : Entry) (z : IsZipEntry e) (tmpfp : File) where
    lfh_long : length (lfh_of e) ≡ 30
    unfolding build_lfh u16_bytes u32_bytes
    lfh_long = refl

    pos-write_lfh : (write_lfh e tmpfp).pos ≡ tmpfp.pos + pk3_lfh_size + length e.filename
    unfolding write_lfh
    pos-write_lfh =
        let name = take (name_length e) e.filename in
        omega (
          arith,
          pos-fwrite name (fwrite (lfh_of e) tmpfp),
          pos-fwrite (lfh_of e) tmpfp,
          lfh_long,
          length-take (name_length e) e.filename,
          name_length_lem e z,
        )

    header_written : Before (write_lfh e tmpfp) tmpfp.pos (lfh_of e)
    unfolding write_lfh
    header_written =
        Before-fwrite (fwrite (lfh_of e) tmpfp) tmpfp.pos (lfh_of e)
          (take (name_length e) e.filename) (fwrite-Before tmpfp (lfh_of e))

    lfh_keeps : (o : ℕ) (b : List ℕ) → Before tmpfp o b → Before (write_lfh e tmpfp) o b
    unfolding write_lfh
    lfh_keeps o b h =
        Before-fwrite (fwrite (lfh_of e) tmpfp) o b (take (name_length e) e.filename)
          (Before-fwrite tmpfp o b (lfh_of e) h)

    lfh-AtEnd : AtEnd tmpfp → AtEnd (write_lfh e tmpfp)
    unfolding write_lfh
    lfh-AtEnd h =
        AtEnd-fwrite (take (name_length e) e.filename) (fwrite (lfh_of e) tmpfp)
          (AtEnd-fwrite (lfh_of e) tmpfp h)

  one_written :
      (e : Entry) (es : List Entry) (cur next : ℕ) (tmpfp copied copy : File) (es' : List Entry)
      (cdr_offset : ℕ)
      → ltb uint32_max (cur + (pk3_lfh_size + name_length e + e.pk3_compressed_size)) ≡ false
      → write_zip_payload source_at fp e e.pending (write_lfh e tmpfp) ≡ ok copied
      → u32 ((moved cur e).pk3_payload_offset + e.pk3_compressed_size) ≡ next
      → write_members source_at fp next es copied ≡ (es', ok (cdr_offset, copy))
      → write_members source_at fp cur (e ∷ es) tmpfp ≡ (moved cur e ∷ es', ok (cdr_offset, copy))
  unfolding write_members
  one_written e es cur next tmpfp copied copy es' cdr_offset small copies at rest =
      rw (small, copies, at, write_members) (rw rest refl)

  pub write_members_lem :
      (es : List Entry) (cur : ℕ) (tmpfp : File)
      → All IsZipEntry es
      → All (IsZipReadable source_at fp) es
      → tmpfp.pos ≡ cur
      → AtEnd tmpfp
      → members_end cur es ≤ uint32_max
      → MembersEnd es cur tmpfp (write_members source_at fp cur es tmpfp)
  unfolding write_members
  write_members_lem [] cur tmpfp zs rs at here fits = record {
    copy = tmpfp;
    ends = refl;
    members = tt;
    place = at;
    at_end = here;
    keeps = λ o b h. h;
  }
  write_members_lem (e ∷ es) cur tmpfp zs rs at here fits =
      let z = zs.0 in
      let r = rs.0 in
      let long = extent_read e r in
      let low = members_end_le (next_offset cur e) es in
      let n = name_length_lem e z in
      let small : ltb uint32_max (cur + (pk3_lfh_size + name_length e + e.pk3_compressed_size))
          ≡ false =
        ground (arith, low, n) in
      let headed = write_lfh e tmpfp in
      let copied = write_payload r.bytes headed in
      let copies : write_zip_payload source_at fp e e.pending headed ≡ ok copied =
        write_zip_payload_lem source_at fp e e.pending headed
        ∙ payload_copied source_at (stored_part e) e.pending r.bytes fp headed r.there r.extent
            r.staged in
      let next : u32 ((moved cur e).pk3_payload_offset + e.pk3_compressed_size)
          ≡ next_offset cur e =
        omega (arith, low, fits, n) in
      let rest =
        write_members_lem es (next_offset cur e) copied zs.1 rs.1
          (omega (arith, pos-write_payload r.bytes headed, pos-write_lfh e z tmpfp, at, long))
          (AtEnd-write_payload r.bytes headed (lfh-AtEnd e z tmpfp here)) fits in
      record {
        copy = rest.copy;
        ends =
            one_written e es cur (next_offset cur e) tmpfp copied rest.copy
              (placed_from (next_offset cur e) es) (members_end (next_offset cur e) es) small copies
              next rest.ends;
        members = (
          record {
            header = rest.keeps cur (lfh_of e) (
                Before-write_payload headed cur (lfh_of e) r.bytes
                  (subst (λ o. Before headed o (lfh_of e)) at (header_written e z tmpfp)));
            bytes = r.bytes;
            there = r.there;
            extent = long;
            payload = rest.keeps (cur + pk3_lfh_size + length e.filename) r.bytes (
                subst (λ o. Before copied o r.bytes) (omega (arith, pos-write_lfh e z tmpfp, at))
                  (write_payload-Before headed r.bytes));
            fits = low;
          },
          rest.members,
        );
        place = rest.place;
        at_end = rest.at_end;
        keeps = λ o b h.
            rest.keeps o b (Before-write_payload headed o b r.bytes (lfh_keeps e z tmpfp o b h));
      }
