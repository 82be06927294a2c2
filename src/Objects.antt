-- ===== src/Objects.antt =====
-- The file system objects of src/serialization/FileSystemObject.cpp: a tree of directories and of
-- objects without children.
pub mod Tree
pub mod Find
pub mod Found
pub mod Encrypt
pub mod Ids
pub mod Restore
mod Tests
