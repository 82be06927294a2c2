-- ===== src/Archive.antt =====
-- src/ArchiveIO.h and src/ArchiveIO.cpp: the layout of an archive, its writer and its reader.
pub mod Part
pub mod Codecs
pub mod Keys
pub mod Writer
pub mod Reader
pub mod Layout
pub mod Trailer
pub mod Opened
pub mod RoundTrip
pub mod Complete
mod Tests
