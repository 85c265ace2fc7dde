-- ===== src/Backup.antt =====
-- src/backup.cc: the tree that a backup scans. Its hard links are found, its entries come under tar
-- collection directories, and each of these gathers its entries into tar files.
pub mod Settings
pub mod HardLinks
pub mod Tree
pub mod Sizes
pub mod Grouping
mod Tests
