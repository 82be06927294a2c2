-- ===== src/Line.antt =====
-- src/LineProcessor.h and src/LineProcessor.cpp: the commands that drive a backup.
pub mod Words
pub mod System
pub mod Process
pub mod Dispatch
pub mod Selected
mod Tests
