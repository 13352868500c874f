-- ===== src/Commit/Loop.antt =====
-- The copy loop of pakka_commit_rebuild of src/pakfile.c.
use pakka.Prelude.{
  ℕ, zero, suc, ◌+◌, ◌≤◌, ◌<◌, ◌≡◌, refl, sym, ap, ◌∙◌, arith, false, true, inl, inr,
}
use pakka.Prelude.{List, [], ◌∷◌, ◌++◌, append-nil, append_assoc, none, some, length}
use pakka.Prelude.{length-append, All, get_or, get_elem?, get_elem?-append, get_elem?-append_cons}
use pakka.Prelude.{◌==◌}
use mathlib.Core.Path.{subst}
use pakka.Status.{Result, ok}
use pakka.Stdio.{File}
use pakka.Stdio.Fronts.{read_at, some-injective, Before}
use pakka.Pak.{Entry, on_disk_extent, header_size, uint32_max}
use pakka.Archive.Add.{write_payload}
use pakka.Archive.AddFile.{Source}
use pakka.Commit.{copy_entries, place_entry}
use pakka.Commit.View.{payload_of, IsReadable}
use pakka.Commit.Copied.{
  pos-write_payload, Before-write_payload, write_payload-Before, copy_between_paks_lem,
}
use pakka.Commit.Owners.{IsAlias, AllOwned}

abbrev pub total : List Entry → ℕ
total [] = 0
total (e ∷ es) = on_disk_extent e + total es

module _ (source_at : List ℕ → Source) (ffd : File) where
  -- The payload of an entry stands at an offset of the copy.
  pub record Copied (tfd : File) (e : Entry) (offset : ℕ) : Type 0 where
    pub bytes : List ℕ
    pub there : payload_of source_at ffd e e.pending ≡ some bytes
    pub extent : on_disk_extent e ≡ length bytes
    pub behind_header : header_size ≤ offset
    pub place : Before tfd offset bytes

  abbrev pub AllCopied : File → List Entry → List ℕ → Type 0
  AllCopied tfd [] [] = Unit {0}
  AllCopied tfd (e ∷ es) (o ∷ os) = Copied tfd e o × AllCopied tfd es os
  AllCopied tfd _ _ = zero ≡ suc zero

  AllCopied-write :
      (tfd : File) (bytes : List ℕ) (es : List Entry) (os : List ℕ)
      → AllCopied tfd es os
      → AllCopied (write_payload bytes tfd) es os
  AllCopied-write tfd bytes [] [] h = tt
  AllCopied-write tfd bytes [] (o ∷ os) h = h
  AllCopied-write tfd bytes (e ∷ es) [] h = h
  AllCopied-write tfd bytes (e ∷ es) (o ∷ os) h =
      let c = h.0 in
      (
        record {
          bytes = c.bytes;
          there = c.there;
          extent = c.extent;
          behind_header = c.behind_header;
          place = Before-write_payload tfd o c.bytes bytes c.place;
        },
        AllCopied-write tfd bytes es os h.1,
      )

  AllCopied-snoc :
      (tfd : File) (es : List Entry) (os : List ℕ) (e : Entry) (o : ℕ)
      → AllCopied tfd es os
      → Copied tfd e o
      → AllCopied tfd (es ++ e ∷ []) (os ++ o ∷ [])
  AllCopied-snoc tfd [] [] e o h c = (c, tt)
  AllCopied-snoc tfd [] (p ∷ os) e o h c = absurd (omega (arith, h))
  AllCopied-snoc tfd (d ∷ es) [] e o h c = absurd (omega (arith, h))
  AllCopied-snoc tfd (d ∷ es) (p ∷ os) e o h c = (h.0, AllCopied-snoc tfd es os e o h.1 c)

  AllCopied-get :
      (tfd : File) (es : List Entry) (os : List ℕ) (j : ℕ) (e : Entry)
      → AllCopied tfd es os
      → get_elem? es j ≡ some e
      → Copied tfd e (get_or os j 0)
  AllCopied-get tfd [] os j e h there = cc
  AllCopied-get tfd (d ∷ es) [] j e h there = absurd (omega (arith, h))
  AllCopied-get tfd (d ∷ es) (p ∷ os) zero e h there =
      subst (λ t. Copied tfd t p) (some-injective there) h.0
  AllCopied-get tfd (d ∷ es) (p ∷ os) (suc j) e h there = AllCopied-get tfd es os j e h.1 there

  committed_payload :
      (e : Entry)
      → e.pending ≡ none
      → payload_of source_at ffd e e.pending ≡ read_at e.offset (on_disk_extent e) ffd
  unfolding payload_of
  committed_payload e c = ap (λ t. payload_of source_at ffd e t) c

  -- What an alias has is what its owner has.
  Copied-alias :
      (tfd : File) (es : List Entry) (e : Entry) (i j o : ℕ) (al : IsAlias es i j)
      → get_elem? es i ≡ some e
      → Copied tfd al.owner o
      → Copied tfd e o
  Copied-alias tfd es e i j o al here c =
      let same : al.alias ≡ e = some-injective (sym al.alias_at ∙ here) in
      subst (λ t. Copied tfd t o) same
        (record {
          bytes = c.bytes;
          there =
              committed_payload al.alias al.committed.0
              ∙ ap (λ t. read_at t (on_disk_extent al.alias) ffd) al.same_offset
              ∙ ap (λ t. read_at al.owner.offset t ffd) al.same_extent
              ∙ sym (committed_payload al.owner al.committed.1)
              ∙ c.there;
          extent = al.same_extent ∙ c.extent;
          behind_header = c.behind_header;
          place = c.place;
        })

  -- Where one entry went.
  record Placed (e : Entry) (tfd : File) (r : Result (ℕ × File)) : Type 0 where
    pub offset : ℕ
    pub copy : File
    pub more : List ℕ
    pub ends : r ≡ ok (offset, copy)
    pub writes : copy ≡ write_payload more tfd
    pub copied : Copied copy e offset
    pub bounded : length more ≤ on_disk_extent e

  place_owned :
      (e : Entry) (owner i : ℕ) (os : List ℕ) (tfd : File)
      → IsReadable source_at ffd e
      → owner ≡ i
      → header_size ≤ tfd.pos
      → tfd.pos ≤ uint32_max
      → Placed e tfd (place_entry source_at ffd owner i e os tfd)
  unfolding place_entry
  place_owned e owner i os tfd r own low fits =
      let test : (owner == i) ≡ true = ground arith in
      record {
        offset = tfd.pos;
        copy = write_payload r.bytes tfd;
        more = r.bytes;
        ends = rw test (copy_between_paks_lem source_at e ffd tfd r fits);
        writes = refl;
        copied = record {
          bytes = r.bytes;
          there = r.there;
          extent = r.extent;
          behind_header = low;
          place = write_payload-Before tfd r.bytes;
        };
        bounded = omega (arith, r.extent);
      }

  place_alias :
      (es done : List Entry) (e : Entry) (owner i : ℕ) (os : List ℕ) (tfd : File)
      → get_elem? es i ≡ some e
      → ((k : ℕ) → k < i → get_elem? es k ≡ get_elem? done k)
      → AllCopied tfd done os
      → owner < i
      → IsAlias es i owner
      → Placed e tfd (place_entry source_at ffd owner i e os tfd)
  unfolding place_entry write_payload
  place_alias es done e owner i os tfd here below copied lt al =
      let test : (owner == i) ≡ false = ground arith in
      record {
        offset = get_or os owner 0;
        copy = tfd;
        more = [];
        ends = rw test refl;
        writes = refl;
        copied =
            Copied-alias tfd es e i owner (get_or os owner 0) al here (
              AllCopied-get tfd done os owner al.owner copied (sym (below owner lt) ∙ al.owner_at));
        bounded = omega arith;
      }

  -- Where the loop ends: all entries copied, and no more written than their extents add up to.
  pub record LoopEnd (es : List Entry) (tfd : File) (added : ℕ) (r : Result (List ℕ × File))
      : Type 0 where
    pub new_offsets : List ℕ
    pub copy : File
    pub ends : r ≡ ok (new_offsets, copy)
    pub copied : AllCopied copy es new_offsets
    pub grows : tfd.pos ≤ copy.pos
    pub bounded : copy.pos ≤ tfd.pos + added

  module _ (owner : List ℕ) where
    pub copy_entries_lem :
        (es done rest : List Entry) (os : List ℕ) (i : ℕ) (tfd : File)
        → es ≡ done ++ rest
        → length done ≡ i
        → AllCopied tfd done os
        → All (IsReadable source_at ffd) rest
        → AllOwned es owner
        → header_size ≤ tfd.pos
        → tfd.pos + total rest ≤ uint32_max
        → LoopEnd es tfd (total rest) (copy_entries source_at ffd owner i rest os tfd)
    unfolding copy_entries
    copy_entries_lem es done [] os i tfd split n copied readable owned low fits = record {
      new_offsets = os;
      copy = tfd;
      ends = refl;
      copied = rw (split, append-nil) copied;
      grows = omega arith;
      bounded = omega arith;
    }
    copy_entries_lem es done (e ∷ rest) os i tfd split n copied readable owned low fits =
        let here : get_elem? es i ≡ some e = rw (split, ← n) (get_elem?-append_cons done rest e) in
        let below : (k : ℕ) → k < i → get_elem? es k ≡ get_elem? done k =
          λ k lt. rw split (get_elem?-append done (e ∷ rest) k (omega (arith, n))) in
        let o = get_or owner i 0 in
        let within : i < length es = rw split (omega (arith, n, length-append done (e ∷ rest))) in
        let placed : Placed e tfd (place_entry source_at ffd o i e os tfd) =
          elim (owned.1 i within) [
            | inl own ↦ place_owned e o i os tfd readable.0 own low (omega arith)
            | inr (lt, al) ↦ place_alias es done e o i os tfd here below copied lt al
          ] in
        let moved : placed.copy.pos ≡ tfd.pos + length placed.more =
          ap (λ (f : File). f.pos) placed.writes ∙ pos-write_payload placed.more tfd in
        let kept : AllCopied placed.copy done os =
          subst (λ f. AllCopied f done os) (sym placed.writes)
            (AllCopied-write tfd placed.more done os copied) in
        let rest_end =
          copy_entries_lem es (done ++ e ∷ []) rest (os ++ placed.offset ∷ []) (i + 1) placed.copy
            (split ∙ sym (append_assoc done (e ∷ []) rest))
            (omega (arith, n, length-append done (e ∷ [])))
            (AllCopied-snoc placed.copy done os e placed.offset kept placed.copied) readable.1 owned
            (omega (arith, low, moved)) (omega (arith, fits, moved, placed.bounded)) in
        record {
          new_offsets = rest_end.new_offsets;
          copy = rest_end.copy;
          ends = rw placed.ends rest_end.ends;
          copied = rest_end.copied;
          grows = omega (arith, moved, rest_end.grows);
          bounded = omega (arith, moved, rest_end.bounded, placed.bounded);
        }
