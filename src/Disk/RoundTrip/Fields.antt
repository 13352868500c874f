-- ===== src/Disk/RoundTrip/Fields.antt =====
-- The fields of a directory row, as bytes: write_pak_entry and load_directory of src/pakfile.c.
use pakka.Prelude.{ℕ, zero, suc, ◌+◌, ◌-◌, ◌≤◌, ◌<◌, ◌≡◌, refl, sym, arith, Bool, true, false}
use pakka.Prelude.{
  List, [], ◌∷◌, ◌++◌, append-nil, append_assoc, length, take, replicate, take_all, All,
}
use pakka.Prelude.{length-append, length-take, length-replicate, if◌then◌else◌, IsU32}
use pakka.Status.{ok, Status}
use pakka.Stdio.{File, fwrite}
use pakka.Stdio.Reads.{At, fread-next}
use pakka.Stdio.Writes.{fwrite-append}
use pakka.Words.{u32_bytes, write_u32_le, read_u32_le-next, length-u32_bytes}
use pakka.Pak.{Entry}
use pakka.Disk.Save.{name_field, bool_u32, write_fields, write_compression}
use pakka.Disk.Rows.{c_string, read_name_first, read_name_last, read_compression}

abbrev pub compression_bytes : Bool → Entry → List ℕ
compression_bytes false e = []
compression_bytes true e = u32_bytes e.dk_compressed_size ++ u32_bytes (bool_u32 e.dk_is_compressed)

abbrev pub fields_bytes : Bool → ℕ → Entry → List ℕ
fields_bytes true cap e = u32_bytes e.offset ++ (u32_bytes e.size ++ name_field cap e.filename)
fields_bytes false cap e = name_field cap e.filename ++ (u32_bytes e.offset ++ u32_bytes e.size)

pub write_fields-eq :
    (wad : Bool) (cap : ℕ) (e : Entry) (f : File)
    → write_fields wad cap e f ≡ fwrite (fields_bytes wad cap e) f
unfolding write_fields write_u32_le
write_fields-eq true cap e f = simp (fwrite-append, append_assoc)
write_fields-eq false cap e f = simp (fwrite-append, append_assoc)

pub write_compression-eq :
    (compressed : Bool) (e : Entry) (row : List ℕ) (f : File)
    → write_compression compressed e (fwrite row f)
      ≡ fwrite (row ++ compression_bytes compressed e) f
unfolding write_compression write_u32_le
write_compression-eq false e row f = rw append-nil
write_compression-eq true e row f = simp (fwrite-append, append_assoc)

length-name_field : (cap : ℕ) (name : List ℕ) → length (name_field cap name) ≡ cap
unfolding name_field
length-name_field cap name = omega (
  arith,
  length-append (take cap name) (replicate (cap - length name) 0),
  length-take cap name,
  length-replicate {A = ℕ} (cap - length name) 0,
)

c_string-padded :
    (name : List ℕ) (n : ℕ) → All (λ c. 0 < c) name → c_string (name ++ replicate n 0) ≡ name
unfolding c_string
c_string-padded [] zero h = refl
c_string-padded [] (suc n) h = refl
c_string-padded (c ∷ name) n h = ground (arith, c_string-padded name n)

pub c_string-name_field :
    (cap : ℕ) (name : List ℕ)
    → length name ≤ cap
    → All (λ c. 0 < c) name
    → c_string (name_field cap name) ≡ name
unfolding name_field
c_string-name_field cap name fits h =
    rw (take_all cap name fits) (c_string-padded name (cap - length name) h)

read_name_first-next :
    (f : File) (name more : List ℕ) (n off len : ℕ)
    → At f (name ++ (u32_bytes off ++ (u32_bytes len ++ more)))
    → n ≡ length name
    → IsU32 off
    → IsU32 len
    → (f' : File) × (read_name_first n f ≡ ok ((name, off, len), f')) × At f' more
unfolding read_name_first
read_name_first-next f name more n off len h e po pl =
    let (f1, e1, h1) = fread-next f name (u32_bytes off ++ (u32_bytes len ++ more)) n h e in
    let (f2, e2, h2) = read_u32_le-next f1 off (u32_bytes len ++ more) h1 po in
    let (f3, e3, h3) = read_u32_le-next f2 len more h2 pl in
    (f3, rw (e1, read_name_first) (rw e2 (rw e3)), h3)

read_name_last-next :
    (f : File) (name more : List ℕ) (n off len : ℕ)
    → At f (u32_bytes off ++ (u32_bytes len ++ (name ++ more)))
    → n ≡ length name
    → IsU32 off
    → IsU32 len
    → (f' : File) × (read_name_last n f ≡ ok ((name, off, len), f')) × At f' more
unfolding read_name_last
read_name_last-next f name more n off len h e po pl =
    let (f1, e1, h1) = read_u32_le-next f off (u32_bytes len ++ (name ++ more)) h po in
    let (f2, e2, h2) = read_u32_le-next f1 len (name ++ more) h1 pl in
    let (f3, e3, h3) = fread-next f2 name more n h2 e in
    (f3, rw (e1, read_name_last) (rw e2 (rw e3)), h3)

bool_u32-IsU32 : (b : Bool) → IsU32 (bool_u32 b)
unfolding bool_u32
bool_u32-IsU32 true = omega arith
bool_u32-IsU32 false = omega arith

pub read_compression-next :
    (s : Status) (compressed : Bool) (e : Entry) (f : File) (more : List ℕ)
    → At f (compression_bytes compressed e ++ more)
    → IsU32 e.dk_compressed_size
    → (compressed ≡ false → (e.dk_compressed_size ≡ 0) × (e.dk_is_compressed ≡ false))
    → (f' : File) × (read_compression s compressed f
        ≡ ok ((e.dk_compressed_size, bool_u32 e.dk_is_compressed), f'))
      × At f' more
unfolding read_compression bool_u32
read_compression-next s false e f more h fits none_left =
    let (a, b) = none_left refl in (f, rw (a, b), h)
read_compression-next s true e f more h fits none_left =
    let (f1, e1, h1) =
      read_u32_le-next f e.dk_compressed_size (u32_bytes (bool_u32 e.dk_is_compressed) ++ more)
        (rw append_assoc at h) fits in
    let (f2, e2, h2) =
      read_u32_le-next f1 (bool_u32 e.dk_is_compressed) more h1
        (bool_u32-IsU32 e.dk_is_compressed) in
    (f2, rw (e1, read_compression) (rw e2), h2)

-- The name and the two numbers, in the order of the format.
pub read_fields-next :
    (wad : Bool) (cap : ℕ) (e : Entry) (f : File) (more : List ℕ)
    → At f (fields_bytes wad cap e ++ more)
    → IsU32 e.offset
    → IsU32 e.size
    → (f' : File) × ((if wad then read_name_last cap f else read_name_first cap f)
        ≡ ok ((name_field cap e.filename, e.offset, e.size), f'))
      × At f' more
read_fields-next true cap e f more h po ps =
    read_name_last-next f (name_field cap e.filename) more cap e.offset e.size
      (simp append_assoc at h) (sym (length-name_field cap e.filename)) po ps
read_fields-next false cap e f more h po ps =
    read_name_first-next f (name_field cap e.filename) more cap e.offset e.size
      (simp append_assoc at h) (sym (length-name_field cap e.filename)) po ps

pub length-fields_bytes :
    (wad : Bool) (cap : ℕ) (e : Entry) → length (fields_bytes wad cap e) ≡ cap + 8
length-fields_bytes true cap e = simp length-append (
    omega
      (arith, length-u32_bytes e.offset, length-u32_bytes e.size, length-name_field cap e.filename))
length-fields_bytes false cap e = simp length-append (
    omega
      (arith, length-u32_bytes e.offset, length-u32_bytes e.size, length-name_field cap e.filename))

pub length-compression_bytes :
    (compressed : Bool) (e : Entry)
    → length (compression_bytes compressed e) ≡ (if compressed then 8 else 0)
length-compression_bytes true e = simp length-append (
    omega (
      arith,
      length-u32_bytes e.dk_compressed_size,
      length-u32_bytes (bool_u32 e.dk_is_compressed),
    ))
length-compression_bytes false e = refl
