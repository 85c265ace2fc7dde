-- ===== src/Tar.antt =====
-- Virtual tar files: src/tarfile.cc, src/tar.cc and src/tarentry.cc.
pub mod Split
pub mod Parts
pub mod Entries
pub mod Header
pub mod FileName
mod Tests
