-- ===== src/Disk.antt =====
-- The PAK-class containers on disk, src/pakfile.c: the header and the directory, written and read.
pub mod Save
pub mod Kept
pub mod Rows
pub mod Probe
pub mod Load
pub mod RoundTrip
pub mod Safety
mod Tests
