-- ===== src/Lib.antt =====
-- Verification library of beak, a backup tool that presents a directory tree as virtual tar files,
-- stores those files, and prunes the points in time of a storage by a keep rule.
--
-- The parts of the program and how they interact. A backup scans an origin, where patterns select
-- files (match.cc). Its entries (tarentry.cc) get tar headers (tar.cc), come under tar collection
-- directories, and are gathered into tar files (backup.cc, tarfile.cc); a large file is split into
-- parts of one size, padded on disk, and stored under a name that tells its time, hash, part and
-- sizes. Each point in time has an index file with a row for each entry (tarentry.cc, index.cc),
-- written and scanned with the text functions of util.cc. Pruning (prune.cc, beak_prune.cc) decides
-- which points in time a storage keeps, and deletes the backup files that none of them needs. The
-- configuration (configuration.cc) holds the rules: what to back up, where to, and which keep rule
-- each storage has. A restore (restore.cc) lists the points in time of a storage, reads a file out of
-- the parts of its tar file, and compares it with the file that is there (filesystem.cc) before it
-- writes.
--
-- Which file models what; paths are from the repository's root.
--   Prelude: Boolean tests, lists, texts as bytes, fallible steps, machine words (Prelude.Words),
--     std::map (Prelude.Maps), decimal numbers (Prelude.Decimal) and signed numbers.
--   Tar: src/tarfile.cc, src/tarfile.h, src/tar.cc and src/tarentry.cc. Tar.Split is splitParts_,
--     Tar.Parts is fixSize, partContentSize, diskSize, onDiskSize and calculateOriginTarOffset,
--     Tar.Entries is addEntryLast, addEntryFirst and findTarEntry with prependHardLinks, Tar.Header is
--     calculateHeaderSize and the sizes of an entry in blocks, and Tar.FileName is TarFileName with
--     parseFileName and writeTarFileNameIntoBuffer.
--   Prune: src/prune.cc, PruneImplementation with addPointInTime, prune and its tests; Prune.Files is
--     the prune of src/beak_prune.cc, from the history and the stored files to the files to delete.
--   Match: src/match.cc, Match::use and Match::match; Match.Spec says what it means to match.
--   Text: src/util.cc. Text.Eating is eatTo and its companions, Text.Hex is toHex and hex2bin,
--     Text.Lengths is parseLengthOfTime and getLengthOfTime, Text.Zones the offsets of time zones,
--     Text.Sizes the sizes for people, Text.Names makeSafeDirectory, startsWith and count_newlines.
--   Index: Index.Permissions is permissionString and stringToPermission of src/filesystem.cc;
--     Index.Rows is cookEntry of src/tarentry.cc, and Index.Rows.Eaten is its eatEntry, one step for
--     each column, into the IndexEntry of src/index.h. Index.Loading is Index::loadIndex of
--     src/index.cc: the lines of the header, the entries, the rows of the tar files (Loading.Tars) and
--     the whole (Loading.Result); Index.Writing is the index file that src/backup.cc appends piece by
--     piece.
--   FileSystem: FileStat::checkStat of src/filesystem.cc and the comparisons it stands on;
--     FileSystem.Changes is the comparison of two listings in src/diff.cc; FileSystem.Paths is Path
--     with lookup, parent, nodes, subpath and commonPrefix, on its text.
--   Backup: src/backup.cc. Backup.Settings has the sizes that scanFileSystem chooses, Backup.HardLinks
--     is findHardLinks, Backup.Tree is findParentTCD, addEntriesToTarCollectionDirs and
--     sortTarCollectionEntries; Backup.Sizes is findNumTarsFromSize and calculateNumTars;
--     Backup.Grouping is the placing of the entries in groupFilesIntoTars, on Tar.Entries.
--   Restore: src/restore.cc and src/restore.h. Restore has RestoreEntry with readParts and what readCB
--     does with an entry; Restore.Points is lookForPointsInTime, findPointInTime and setPointInTime.
--   Config: src/configuration.cc. Config.Keeps is Keep::parse, Keep::str and Keep::subsetOf,
--     Config.Rules the rules and their lookups, Config.File parseRow and load, Config.Saving the text
--     of save, Config.Find findStorageFrom with its tests, Config.Sizes parseHumanReadable of
--     src/util.cc, and Config.Tables the maps by name and by path.
--
-- How the state corresponds. A struct is a record with its fields, a std::map an association list in
-- the order of its keys, a std::string or a vector of characters a list of bytes, and an iterator the
-- part of the vector that it has before it. An operation takes the state and returns the new one. A
-- step that can fail returns an Option; each file says whether none is a false, an error code or an
-- assertion that fails (assertions are active in the build). size_t and uint64_t wrap at 2 ^ 64, uint
-- at 2 ^ 32, and what a read of a restored file answers is an int, which keeps the lower 32 bits.
--
-- Bounds and fuel. Loops over a list are structural. The search of a pattern in a path has fuel of the
-- length of the path and two more, since each round drops a character. The digits of a number have
-- fuel of the number and one more. The width of a hexadecimal number has fuel 16, the number of
-- hexadecimal digits of a size_t. The loops of loadIndex, of the configuration file, of a keep rule
-- and of the listing of rclone have fuel of the length of the text they read, or one more, since every
-- round reads a character; the nodes of a path have fuel of its length, since a parent is shorter.
-- readParts has fuel of the length to read, since every round reads a byte. The number of tar files is
-- doubled in 64 rounds at most, since an amount of one byte or more then passes any size.
--
-- What is not modelled: the calls of the operating system, of OpenSSL, zlib, librsync and fuse, the
-- external programs that copy files, the user interface with the dialogues that edit rules, and the
-- media commands; the scan of a tree with its filters, the choice of its tar collection directories
-- and the moves of hard links between them, the filling of a point in time with entries, and the
-- summaries of a comparison of directories. SHA-256, pread, the texts of ages and local times, the
-- resolving of paths, the listing of directories and of rclone, and products of fractions are
-- parameters.
pub mod Prelude
pub mod Tar
pub mod Prune
pub mod Backup
pub mod Restore
pub mod Match
pub mod Text
pub mod Index
pub mod FileSystem
pub mod Config
