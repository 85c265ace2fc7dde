-- ===== src/Text.antt =====
-- src/util.cc: the text functions that the index, the configuration and the command line stand on.
pub mod Sizes
pub mod Eating
pub mod Hex
pub mod Lengths
pub mod Zones
pub mod Names
mod Tests
