-- ===== src/Zip/Directory/Loaded.antt =====
-- The entries that the two passes of pk3_load_cdr, src/pk3file.c, give, whatever bytes the file
-- holds.
use pakka.Prelude.{ℕ, zero, suc, ◌+◌, ◌≤◌, ◌<◌, ◌≡◌, inl, inr, refl, arith}
use pakka.Prelude.{true, false, not, ◌&&◌, ◌||◌, none, some, List, [], ◌∷◌, length, take}
use pakka.Prelude.{length-append, drop, All, All-append, IsByte, ltb, leb, ◌==◌}
use pakka.Prelude.{Bool-cases, Option-cases, if-cases, bit_and, same_bytes}
use mathlib.Core.Path.{subst}
use pakka.Status.{
  ok, err, err_format, err_limit, err_unsupported, refuse_if, bind-ok, refuse_if-ok, ok-injective,
}
use pakka.Stdio.{File, fseek, fread}
use pakka.Stdio.Fronts.{read_at, some-injective}
use pakka.Pak.{Entry, uint32_max, entry_name_size}
use pakka.Utf8.{is_valid_utf8}
use pakka.Zip.Records.{pk3_lfh_size, pk3_cdr_size, read_u16, read_u32, lfh_magic, method_stored}
use pakka.Zip.Names.{decode_entry_name, decoded, too_long, bit11_invalid, Decoded}
use pakka.Zip.Names.Valid.{decode_entry_name-valid}
use pakka.Zip.Directory.{
  CdrRecord, Rows, check_lfh, extent, named_entry, new_zip_entry, payload_start, read_rows,
  validate_cdr_record, validate_lfh, validate_lfhs,
}

-- A loaded entry: its name is UTF-8 and fits, and its payload lies behind its header and before the
-- directory, as long as it says where it is stored.
pub record IsLoaded (cdr_offset : ℕ) (e : Entry) : Type 0 where
  pub utf8 : is_valid_utf8 e.filename ≡ true
  pub short : length e.filename < entry_name_size
  pub behind : e.pk3_lfh_offset + pk3_lfh_size ≤ e.pk3_payload_offset
  pub before : e.pk3_payload_offset + e.pk3_compressed_size ≤ cdr_offset
  pub offset : e.offset ≡ e.pk3_payload_offset
  pub stored : ((e.pk3_method == method_stored) && not (e.pk3_compressed_size == e.size)) ≡ false
  pub unstaged : e.pending ≡ none

take-All : (n : ℕ) (xs : List ℕ) → All IsByte xs → All IsByte (take n xs)
take-All zero xs h = tt
take-All (suc n) [] h = tt
take-All (suc n) (x ∷ xs) h = (h.0, take-All n xs h.1)

drop-All : (n : ℕ) (xs : List ℕ) → All IsByte xs → All IsByte (drop n xs)
drop-All zero xs h = h
drop-All (suc n) [] h = tt
drop-All (suc n) (x ∷ xs) h = drop-All n xs h.1

pub read_at-All :
    (offset n : ℕ) (f : File) (bytes : List ℕ)
    → All IsByte f.contents
    → read_at offset n f ≡ some bytes
    → All IsByte bytes
unfolding read_at fread fseek
read_at-All offset n f bytes bs h = elim (Bool-cases (leb (offset + n) (length f.contents))) [
  | inr short ↦ let bad = rw (short, read_at, fread) at h in cc
  | inl long ↦
      let e = rw (long, read_at, fread) at h in
      subst (All IsByte) (some-injective e) (take-All n _ (drop-All offset f.contents bs))
]

-- A listed entry: what the first pass knows.
pub record IsListed (e : Entry) : Type 0 where
  pub utf8 : is_valid_utf8 e.filename ≡ true
  pub short : length e.filename < entry_name_size
  pub unstaged : e.pending ≡ none

named_entry-IsListed :
    (r : CdrRecord) (cdr : List ℕ) (e : Entry)
    → All IsByte cdr
    → named_entry r cdr ≡ ok e
    → IsListed e
unfolding named_entry new_zip_entry
named_entry-IsListed r cdr e bs h =
    let name = take r.name_len (drop pk3_cdr_size cdr) in
    let read : All IsByte name = take-All r.name_len _ (drop-All pk3_cdr_size cdr bs) in
    go (decode_entry_name name r.flags entry_name_size)
      (λ n eq. decode_entry_name-valid name r.flags entry_name_size n read eq) h
  where
    go :
        (d : Decoded)
        → ((n : List ℕ) → d ≡ decoded n → (is_valid_utf8 n ≡ true) × (length n < entry_name_size))
        → elim d [
          | too_long ↦ err err_limit
          | bit11_invalid ↦ err err_format
          | decoded n ↦ ok (new_zip_entry r n)
        ]
          ≡ ok e
        → IsListed e
    go too_long v h = cc
    go bit11_invalid v h = cc
    go (decoded n) v h =
        let (valid, fits) = v n refl in
        subst IsListed (ok-injective h) (record { utf8 = valid; short = fits; unstaged = refl })

pub read_rows-All :
    (n : ℕ) (rows out : Rows)
    → All IsByte rows.left
    → All IsListed rows.entries
    → read_rows n rows ≡ ok out
    → All IsListed out.entries
      × (length out.entries + out.skipped_dirs ≡ length rows.entries + rows.skipped_dirs + n)
unfolding read_rows
read_rows-All zero rows out bs h eq =
    subst
      (λ (t : Rows).
        All IsListed t.entries
        × (length t.entries + t.skipped_dirs ≡ length rows.entries + rows.skipped_dirs + 0))
      (ok-injective eq) (h, omega arith)
read_rows-All (suc n) rows out bs h eq =
    let (r, valid, next) = bind-ok {A = CdrRecord} (validate_cdr_record rows.left) _ out eq in
    let left = drop-All (extent r) rows.left bs in
    elim (if-cases r.is_dir_entry _ _ next) [
      | inl (_, more) ↦
          let (all, count) = read_rows-All n _ out left h more in (all, omega (arith, count))
      | inr (_, more) ↦
          let (e, named, further) = bind-ok {A = Entry} (named_entry r rows.left) _ out more in
          let listed = named_entry-IsListed r rows.left e bs named in
          let (all, count) =
            read_rows-All n _ out left (All-append IsListed rows.entries (e ∷ []) h (listed, tt))
              further in
          (all, omega (arith, count, length-append rows.entries (e ∷ [])))
    ]

-- The fields of a listed entry stay, and its payload is placed.
record LfhChecked (cdr_offset : ℕ) (e e' : Entry) : Type 0 where
  pub start : ℕ
  pub placed : record e { pk3_payload_offset = start } ≡ e'
  pub behind : e.pk3_lfh_offset + pk3_lfh_size ≤ start
  pub before : start + e.pk3_compressed_size ≤ cdr_offset
  pub stored : ((e.pk3_method == method_stored) && not (e.pk3_compressed_size == e.size)) ≡ false

lfh_checked :
    (cdr_offset : ℕ) (e e' : Entry) (lfh : List ℕ)
    → check_lfh cdr_offset e lfh ≡ ok e'
    → LfhChecked cdr_offset e e'
unfolding check_lfh payload_start
lfh_checked cdr_offset e e' lfh h =
    let (_, _, h1) =
      bind-ok {A = Unit {0}} (refuse_if (not (same_bytes (take 4 lfh) lfh_magic)) err_format) _ e'
        h in
    let (_, _, h2) =
      bind-ok {A = Unit {0}} (refuse_if (not (bit_and (read_u16 6 lfh) 0x1 == 0)) err_unsupported) _
        e' h1 in
    let (_, _, h3) =
      bind-ok {A = Unit {0}} (refuse_if (not (bit_and (read_u16 6 lfh) 0x8 == 0)) err_unsupported) _
        e' h2 in
    let (_, _, h4) =
      bind-ok {A = Unit {0}}
        (refuse_if
          (not (read_u16 8 lfh == e.pk3_method)
            || (not (read_u32 14 lfh == e.crc32)
                || (not (read_u32 18 lfh == e.pk3_compressed_size)
                    || not (read_u32 22 lfh == e.size))))
          err_format)
        _ e' h3 in
    let (u5, stored, h5) =
      bind-ok {A = Unit {0}}
        (refuse_if ((e.pk3_method == method_stored) && not (e.pk3_compressed_size == e.size))
          err_format)
        _ e' h4 in
    let (_, _, h6) =
      bind-ok {A = Unit {0}} (refuse_if (ltb uint32_max (payload_start e lfh)) err_format) _ e'
        h5 in
    let (u7, before, h7) =
      bind-ok {A = Unit {0}}
        (refuse_if (ltb cdr_offset (payload_start e lfh + e.pk3_compressed_size)) err_format) _ e'
        h6 in
    record {
      start = payload_start e lfh;
      placed = ok-injective h7;
      behind = omega arith;
      before = ground (
        arith,
        refuse_if-ok (ltb cdr_offset (payload_start e lfh + e.pk3_compressed_size)) err_format u7
            before,
      );
      stored = refuse_if-ok _ err_format u5 stored;
    }

lfh_read :
    (f : File) (cdr_offset : ℕ) (e e' : Entry)
    → validate_lfh f cdr_offset e ≡ ok e'
    → LfhChecked cdr_offset e e'
unfolding validate_lfh
lfh_read f cdr_offset e e' h = elim (Option-cases (read_at e.pk3_lfh_offset pk3_lfh_size f)) [
  | inl short ↦ let bad = rw (short, validate_lfh) at h in cc
  | inr (lfh, there) ↦ lfh_checked cdr_offset e e' lfh (rw (there, validate_lfh) at h)
]

-- The second pass gives as many entries, all of them loaded.
pub validate_lfhs-All :
    (f : File) (cdr_offset : ℕ) (es out : List Entry)
    → All IsListed es
    → validate_lfhs f cdr_offset es ≡ ok out
    → All (IsLoaded cdr_offset) out × (length out ≡ length es)
unfolding validate_lfhs
validate_lfhs-All f cdr_offset [] out h eq =
    subst (λ t. All (IsLoaded cdr_offset) t × (length t ≡ 0)) (ok-injective eq) (tt, refl)
validate_lfhs-All f cdr_offset (e ∷ es) out h eq =
    let (e', one, next) = bind-ok {A = Entry} (validate_lfh f cdr_offset e) _ out eq in
    let (es', more, last) = bind-ok {A = List Entry} (validate_lfhs f cdr_offset es) _ out next in
    let (all, count) = validate_lfhs-All f cdr_offset es es' h.1 more in
    let c = lfh_read f cdr_offset e e' one in
    let loaded : IsLoaded cdr_offset (record e' { offset = e'.pk3_payload_offset }) =
      subst (λ (t : Entry). IsLoaded cdr_offset (record t { offset = t.pk3_payload_offset }))
        c.placed
        (record {
          utf8 = h.0.utf8;
          short = h.0.short;
          behind = c.behind;
          before = c.before;
          offset = refl;
          stored = c.stored;
          unstaged = h.0.unstaged;
        }) in
    subst (λ t. All (IsLoaded cdr_offset) t × (length t ≡ suc (length es))) (ok-injective last)
      ((loaded, all), omega (arith, count))
