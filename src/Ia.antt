-- ===== src/Ia.antt =====
-- Package ia: working with files from the Internet Archive.
pub mod Digest
pub mod Validate
pub mod Timemap
pub mod Item
mod Tests
