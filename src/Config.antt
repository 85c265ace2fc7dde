-- ===== src/Config.antt =====
-- src/configuration.cc: the rules of a configuration, and the keep rules they hold.
pub mod Keeps
pub mod Tables
pub mod Sizes
pub mod Rules
pub mod File
pub mod Saving
pub mod Every
pub mod WellNamed
pub mod Find
pub mod Found
mod Tests
mod FileTests
