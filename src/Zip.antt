-- ===== src/Zip.antt =====
-- The ZIP archives (PK3 and PK4) of src/pk3file.c.
pub mod Records
pub mod Names
pub mod Eocd
pub mod Directory
pub mod Commit
pub mod Built
pub mod Opened
mod Tests
