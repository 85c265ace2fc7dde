-- ===== src/Index.antt =====
-- The index files: src/filesystem.cc for the permissions, and src/tarentry.cc for the rows.
pub mod Permissions
pub mod Rows
pub mod Loading
pub mod Writing
mod Tests
mod LoadingTests
