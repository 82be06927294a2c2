-- ===== src/Backup.antt =====
-- src/BackupSystem.cpp and src/VersionForRestore.cpp.
pub mod Restore
pub mod Restored
pub mod Sort
pub mod Groups
pub mod Reorder
pub mod Files
pub mod Streams
pub mod StreamIds
pub mod Changes
pub mod Versions
pub mod Modes
pub mod Dependencies
pub mod Paths
mod ChoiceTests
mod Tests
