-- ===== src/Lib.antt =====
-- A model of pakka, a library and tool for the archives of games, and the theorems about it.
--
-- The program. An archive handle (struct pakka_archive, src/common.h) holds an open file and the list
-- of entries of its directory. pakka_open_ex lets load_pakfile find out what kind of archive the file
-- is and where its directory lies, and load_directory read the rows into the list. The editing calls
-- (pakka_add_memory, pakka_add_file, pakka_delete, pakka_rename, pakka_copy, all in src/pakfile.c) change the list,
-- and an add puts its payload behind all others or, in the atomic mode, stages it. pakka_commit writes
-- the directory behind the payloads with write_pak_directory, or copies what is left into a temporary
-- file that takes the place of the archive. pakka_open_entry and pakka_reader_read hand out payloads,
-- staged ones included, and pakka_verify checks names, payloads and collisions. Daikatana archives
-- compress payloads with a byte codec of their own, src/dk_codec.c.
--
-- The files.
-- Status: pakka_status_t of include/pakka.h, with the results of functions that return it.
-- Format: pakka_format_t and the table of src/common.c that gives each PAK-class format its signature,
-- the width of a name and the width of a row. Format/Widths: what the table's rows have in common.
-- Stdio: FILE as a byte sequence with a position. fseek, fread and fwrite are the C library's, with
-- short reads; other failures of the device are not modelled. Stdio/Reads, Stdio/Writes and
-- Stdio/Fronts: what stands at a position, what a write leaves, and what stands before the position of
-- a file that is written from front to back.
-- Words: pakka_read_u32_le and pakka_write_u32_le of src/common.c.
-- Pak: struct pakka_entry and struct pakka_archive. The linked list with its tail is a list, a string
-- is its bytes before the NUL, and the field `length` is `size`.
-- Codec: src/dk_codec.c. Codec/Inflate is pakka_dk_inflate, one function for each kind of opcode;
-- Codec/Deflate is pakka_dk_deflate, with dk_count_zero_run, dk_count_byte_run and dk_find_match.
-- Codec/Deflate/Scan, Codec/Inflate/Rounds, Codec/Inflate/Total and Codec/RoundTrip are the proofs.
-- Names: pakka_unsafe_entry_name of src/pakfile.c with the checks of a segment. Names/Safe: the proofs.
-- Names/Normalize: pakka_normalize_entry_name, and what it makes of a name.
-- Disk: the container. Disk/Save is init_pak_header, write_pak_header, write_pak_entry and
-- write_pak_directory; Disk/Rows is load_directory; Disk/Probe is probe_pak_layout; Disk/Load is
-- load_pakfile. Disk/RoundTrip, Disk/Kept and Disk/Safety are the proofs.
-- Archive: find_entry, pakka_entry_at, pak_add_preflight and the links of src/pakfile.c; Archive/Edit
-- is pakka_delete, pakka_rename and pakka_copy; Archive/Add is pakka_add_memory with
-- dk_compressible_extension; Archive/AddFile is pakka_add_file with pak_add_source_preflight, where
-- the record Source is what the host says of a path. Archive/Find, Archive/Replace, Archive/Sound,
-- Archive/Growth, Archive/Stored, Archive/Chunks and Archive/FileStored are the proofs.
-- Open: pakka_open_ex and validate_no_duplicates; qsort is an insertion sort. Open/Order,
-- Open/Sorting, Open/Duplicates, Open/Loaded and Open/Accepts are the proofs.
-- Crc: pakka_crc32_update of src/common.c with its table; Crc/Bitwise: the proofs.
-- Utf8: pakka_is_valid_utf8, pakka_utf8_seq_len and pakka_utf8_substitute_invalid of src/common.c.
-- The two first code the same checks of a sequence twice, and so does the model: valid_step is a pass of
-- the loop of the first, seq_len is the second. Utf8/Agree, Utf8/Sequences and Utf8/Substitute are the
-- proofs.
-- Commit: pakka_commit, pakka_commit_rebuild and pakka_commit_is_atomic. Commit/Copy is
-- copy_between_paks with pak_copy_pending_source, where the record Host is what a commit asks of
-- the host; Commit/Dedup is the map of shared payloads. A rebuild puts the new layout into the
-- handle for the directory to be written, and the old one, the record Layout, back where it fails.
-- Commit/View is what an archive holds, whatever its layout: the list of names, sizes, flags and
-- stored bytes. Commit/Copied, Commit/Owners, Commit/Loop, Commit/Bare, Commit/Committed,
-- Commit/Rebuilt, Commit/InPlace and Commit/Errors are the proofs.
-- Reader: pakka_open_entry, pakka_open_entry_handle, pak_open_pending_reader, pakka_reader_read and
-- pakka_read_entry_alloc; the archive is an argument and the buffer is what is left of it.
-- Reader/Serves, Reader/Series, Reader/Opened and Reader/ReadBack are the proofs.
-- Verify: pakka_verify and verify_entry; a report has no text. Verify/Payloads and Verify/Accepts are
-- the proofs.
-- Lifecycle: pakka_create and pakka_close, and the small calls on a handle. Lifecycle/Created: the
-- proofs.
-- Zip: src/pk3file.c. Zip/Records is pk3_build_eocd, pk3_build_lfh and pk3_build_cdr with the words
-- they are made of; Zip/Names is pk3_decode_entry_name with the table of CP437; Zip/Eocd is
-- pk3_find_eocd and pk3_validate_eocd; Zip/Directory is pk3_validate_cdr_record, pk3_validate_lfh,
-- pk3_load_cdr and pakka_pk3_open_impl, where the directory buffer is what is left of it from the
-- position on; Zip/Commit is pakka_pk3_create_impl and pakka_pk3_commit_impl, where the record
-- ZipHost is what the commit asks of the host. A rebuild moves the entries as it goes and rolls
-- them back where it fails, as pk3_rebuild_rollback_offsets does, whose three arrays of offsets are
-- one list of ZipPlace. Zip/Commit/View is what an archive holds, whatever its layout.
-- Zip/Names/Valid, Zip/Directory/Loaded, Zip/Directory/Accepts, Zip/Directory/Refused, Zip/Opened,
-- Zip/Built, and the other modules below Zip/Commit are the proofs.
-- The modules named Tests run the definitions on small inputs.
-- Prelude: the names that all share, with lemmas on lists and bits, and qsort as an insertion sort.
--
-- Numbers are natural numbers, with `% 2 ^ w` where the source wraps around. An error is a value: a
-- function that fails gives the status, and the handle stays as it was, but for pakka_commit, which gives
-- the handle with the status.
--
-- Fuel. The loop of the decoder has the length of the input as fuel, since each round reads at least
-- the opcode, and the encoder's has the length of the input, since each round takes at least a byte.
-- The two loops of pakka_add_file over chunks of a source have its
-- length as fuel, since each takes at least a byte. The loops
-- of Utf8 have the number of bytes left. The copy loops of a commit, the check of a payload and the loop
-- of pakka_read_entry_alloc have the number of bytes to come. All other loops are structural.
--
-- Not modelled: of src/pk3file.c the adds, the readers and the deep check (where the calls of
-- src/pakfile.c reach src/pk3file.c, that is an argument), the DEFLATE shims, the platform layer and the command line; failures of malloc and of the device,
-- except where a record of the host says them; NULL arguments; the text of errors; the paths of
-- temporary files.
pub mod Prelude
pub mod Status
pub mod Format
pub mod Stdio
pub mod Words
pub mod Pak
pub mod Codec
pub mod Names
pub mod Disk
pub mod Archive
pub mod Open
pub mod Crc
pub mod Utf8
pub mod Commit
pub mod Reader
pub mod Verify
pub mod Lifecycle
pub mod Zip
