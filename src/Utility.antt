-- ===== src/Utility.antt =====
-- src/Utility.h: the integers of the archive format, and the text functions.
pub mod LeInt
pub mod Buffer
pub mod Strcmpci
pub mod Search
pub mod Text
mod Tests
