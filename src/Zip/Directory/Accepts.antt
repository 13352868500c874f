-- ===== src/Zip/Directory/Accepts.antt =====
-- What pakka_pk3_open_impl of src/pk3file.c accepts, whatever bytes the file holds.
use pakka.Prelude.{ℕ, ◌+◌, ◌≤◌, ◌≡◌, inl, inr, sym, ap, ◌∙◌, arith, not}
use pakka.Prelude.{◌&&◌, ◌||◌, List, [], length, All, IsByte, ltb, ◌==◌}
use pakka.Prelude.{Option-cases, if-cases}
use mathlib.Core.Path.{subst}
use pakka.Status.{
  ok, err_format, err_limit, err_unsupported, refuse_if, bind-ok, refuse_if-ok, ok-injective,
}
use pakka.Stdio.{File, fseek}
use pakka.Stdio.Reads.{At-within}
use pakka.Stdio.Fronts.{read_at, read_at-At}
use pakka.Pak.{Entry, Pak, max_entries}
use pakka.Zip.Records.{read_u16, read_u32, pk3_eocd_size}
use pakka.Zip.Eocd.{Eocd, find_eocd, validate_eocd, check_eocd}
use pakka.Zip.Directory.{
  Rows, load_cdr, load_rows, read_rows, validate_lfhs, pakka_pk3_open_impl, max_cdr_size,
  default_max_decompressed,
}
use pakka.Zip.Directory.Loaded.{IsLoaded, read_rows-All, validate_lfhs-All, read_at-All}

-- A loaded archive: it counts its entries, they are sound, and its directory and end record lie in
-- the file.
pub record IsLoadedZip (p : Pak) : Type 0 where
  pub counted : p.num_entries ≡ length p.entries
  pub entries : All (IsLoaded p.pk3_cdr_offset) p.entries
  pub inside : p.pk3_cdr_offset + pk3_eocd_size ≤ length p.file.contents

eocd_checked :
    (eocd_offset : ℕ) (bytes : List ℕ) (r : Eocd)
    → check_eocd eocd_offset bytes ≡ ok r
    → (r.cdr_offset + r.cdr_size ≤ eocd_offset) × (r.entry_count ≤ max_entries)
unfolding check_eocd
eocd_checked eocd_offset bytes r h =
    let (_, _, h1) =
      bind-ok {A = Unit {0}}
        (refuse_if (not (read_u16 4 bytes == 0) || not (read_u16 6 bytes == 0)) err_unsupported) _ r
        h in
    let (_, _, h2) =
      bind-ok {A = Unit {0}} (refuse_if (not (read_u16 8 bytes == read_u16 10 bytes)) err_format) _
        r h1 in
    let (_, _, h3) =
      bind-ok {A = Unit {0}}
        (refuse_if
          ((read_u16 10 bytes == 0xffff)
            || ((read_u32 12 bytes == 0xffffffff) || (read_u32 16 bytes == 0xffffffff)))
          err_unsupported)
        _ r h2 in
    let (u, before, h4) =
      bind-ok {A = Unit {0}}
        (refuse_if (ltb eocd_offset (read_u32 16 bytes + read_u32 12 bytes)) err_format) _ r h3 in
    let (v, few, h5) =
      bind-ok {A = Unit {0}} (refuse_if (ltb max_entries (read_u16 10 bytes)) err_limit) _ r h4 in
    subst (λ (t : Eocd). (t.cdr_offset + t.cdr_size ≤ eocd_offset) × (t.entry_count ≤ max_entries))
      (ok-injective h5)
      (
        ground (
          arith,
          refuse_if-ok (ltb eocd_offset (read_u32 16 bytes + read_u32 12 bytes)) err_format u
              before,
        ),
        ground (arith, refuse_if-ok (ltb max_entries (read_u16 10 bytes)) err_limit v few),
      )

-- The end record lies in the file.
eocd_read :
    (f : File) (eocd_offset : ℕ) (r : Eocd)
    → validate_eocd f eocd_offset ≡ ok r
    → (r.cdr_offset + pk3_eocd_size ≤ length f.contents) × (r.entry_count ≤ max_entries)
unfolding validate_eocd fseek
eocd_read f eocd_offset r h = elim (Option-cases (read_at eocd_offset pk3_eocd_size f)) [
  | inl short ↦ let bad = rw (short, validate_eocd) at h in cc
  | inr (bytes, there) ↦
      let (before, few) = eocd_checked eocd_offset bytes r (rw (there, validate_eocd) at h) in
      let (at, len) = read_at-At eocd_offset pk3_eocd_size f bytes there in
      (omega (arith, before, At-within (fseek eocd_offset f) bytes at, len), few)
]

module _ (pak : Pak) (r : Eocd) (bs : All IsByte pak.file.contents)
    (few : r.entry_count ≤ max_entries)
    (inside : pak.pk3_cdr_offset + pk3_eocd_size ≤ length pak.file.contents) where
  rows_loaded :
      (cdr : List ℕ) (q : Pak) → All IsByte cdr → load_rows pak r cdr ≡ ok q → IsLoadedZip q
  unfolding load_rows
  rows_loaded cdr q cs h =
      let (rows, one, next) =
        bind-ok {A = Rows}
          (read_rows r.entry_count (record { entries = []; skipped_dirs = 0; left = cdr })) _ q h in
      let (listed, count) =
        read_rows-All r.entry_count (record { entries = []; skipped_dirs = 0; left = cdr }) rows cs
          tt one in
      let (_, _, more) =
        bind-ok {A = Unit {0}} (refuse_if (not (length rows.left == 0)) err_format) _ q next in
      let (entries, two, last) =
        bind-ok {A = List Entry} (validate_lfhs pak.file pak.pk3_cdr_offset rows.entries) _ q
          more in
      let (all, same) =
        validate_lfhs-All pak.file pak.pk3_cdr_offset rows.entries entries listed two in
      subst IsLoadedZip (ok-injective last)
        (record { counted = omega (arith, same, count, few); entries = all; inside = inside })

  cdr_loaded :
      (q : Pak) → pak.entries ≡ [] → pak.num_entries ≡ 0 → load_cdr pak r ≡ ok q → IsLoadedZip q
  unfolding load_cdr
  cdr_loaded q none_yet zero_yet h =
      elim (if-cases ((r.entry_count == 0) && (r.cdr_size == 0)) _ _ h) [
        | inl (_, e) ↦ subst IsLoadedZip (ok-injective e) (record {
          counted = zero_yet ∙ sym (ap (λ t. length t) none_yet);
          entries = subst (All (IsLoaded pak.pk3_cdr_offset)) (sym none_yet) tt;
          inside = inside;
        })
        | inr (_, e) ↦ elim (if-cases ((r.entry_count == 0) || (r.cdr_size == 0)) _ _ e) [
          | inl (_, bad) ↦ cc
          | inr (_, e1) ↦ elim (if-cases (ltb max_cdr_size r.cdr_size) _ _ e1) [
            | inl (_, bad) ↦ cc
            | inr (_, e2) ↦ elim (Option-cases (read_at r.cdr_offset r.cdr_size pak.file)) [
              | inl short ↦ let bad = rw short at e2 in cc
              | inr (cdr, there) ↦
                  rows_loaded cdr q (read_at-All r.cdr_offset r.cdr_size pak.file cdr bs there)
                    (rw there at e2)
            ]
          ]
        ]
      ]

-- Whatever bytes the file holds, a handle without entries that is accepted counts its entries; the
-- name of each is valid UTF-8 of less than 256 bytes, its payload lies behind its local header and
-- before the directory and is as long as it says where it is stored, its public offset is that of the
-- payload and nothing is staged, and the directory offset and an end record fit into the file.
pub pakka_pk3_open_impl-IsLoadedZip :
    (pak q : Pak)
    → pak.entries ≡ []
    → pak.num_entries ≡ 0
    → All IsByte pak.file.contents
    → pakka_pk3_open_impl pak ≡ ok q
    → IsLoadedZip q
unfolding pakka_pk3_open_impl
pakka_pk3_open_impl-IsLoadedZip pak q none_yet zero_yet bs h =
    elim (Option-cases (find_eocd pak.file pak.file_size)) [
      | inl lost ↦ let bad = rw (lost, pakka_pk3_open_impl) at h in cc
      | inr (eocd_offset, found) ↦
          let h1 = rw (found, pakka_pk3_open_impl) at h in
          let (r, valid, next) = bind-ok {A = Eocd} (validate_eocd pak.file eocd_offset) _ q h1 in
          let (inside, few) = eocd_read pak.file eocd_offset r valid in
          cdr_loaded
            (record pak {
              max_decompressed = default_max_decompressed;
              pk3_cdr_offset = r.cdr_offset;
            })
            r bs few inside q none_yet zero_yet next
    ]
