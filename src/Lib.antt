-- ===== src/Lib.antt =====
-- A model of zekvok, a backup program for Windows, and what was proved of it.
--
-- The program keeps versions of directory trees, one archive file a version. A user drives it with
-- lines of text (src/LineProcessor.cpp); a backup walks the tree, decides which files changed and
-- makes their streams (src/BackupSystem.cpp); an archive holds the data of the files, the serialized
-- file system objects and a manifest, compressed and perhaps encrypted (src/ArchiveIO.cpp); the bytes
-- pass through a pipeline of threads that hand segments to one another over bounded queues
-- (src/StreamProcessor.cpp, src/System/Threads.h).
--
-- Which file models what:
-- - Utility: src/Utility.h. LeInt has the integers of the archive format, Buffer the buffers behind
--   their size, Strcmpci the comparison without regard to case, Search the binary search and the
--   removal of duplicates, Text the functions on strings.
-- - Threads.CircularQueue: CircularQueue of src/System/Threads.h; an attempt under the mutex is one
--   function, and what other threads do during a wait is a parameter. Threads.Handshake: Event and
--   PooledThread of src/System/Threads.cpp, two programs whose steps interleave in any order; Pool is
--   ThreadPool and ThreadWrapper, which wrapper has which thread.
-- - Streams: Segment, Queue, and read, write and put_back of src/StreamProcessor.cpp; Bounded is
--   BoundedSource::work of src/BoundedStreamFilter.cpp. A worker is a function of the segments that
--   its source will ever deliver. Workers are the work functions of the streams and filters at the ends
--   of a pipeline (src/StreamProcessor.cpp, src/MemoryStream.cpp, src/NullStream.cpp, src/HashFilter.h),
--   Synchronous is SynchronousSourceImpl and SynchronousSinkImpl; Crypto is CryptoSource of
--   src/CryptoFilter.cpp, around Crypto++'s filter as a record of laws, its Sink is CryptoSink, Decrypts
--   and Encrypts what they push.
-- - Objects: the tree of src/serialization/FileSystemObject.cpp. Tree has its classes, iterators and
--   paths, Find is find and Found what it finds, Encrypt and Ids are encrypt and set_unique_ids;
--   Restore is restore, VersionForRestore::restore and the first loop of restore_backup, Deferred what
--   they leave for later.
-- - Archive: src/ArchiveIO.cpp. Keys is ArchiveKeys, Writer is ArchiveWriter with its states, Reader
--   is ArchiveReader and BackupSystem::verify, Part is read_everything with its ArchivePart; Codecs
--   has what other libraries and the generated serializers do, with their laws; Layout, Trailer,
--   Opened and RoundTrip lead to Complete, where the writer meets the reader.
-- - Backup: src/BackupSystem.cpp. Files and Streams are the decision for a file and the streams of a
--   version, Reorder their order in the archive, StreamIds and Changes what follows of it; Restore,
--   Restored and Groups are the restore; Versions has the numbers of versions and full_verify; Modes,
--   Paths and Dependencies are get_backup_mode_for_object, map_path and get_dependencies. Sort stands
--   for std::sort.
-- - Line: src/LineProcessor.cpp. System is the state, Process the handlers, Dispatch the arrays and
--   the loops, Selected the invariant; Words has the words.
-- - KeyPair: src/serialization/RsaKeyPair.cpp, with the cipher as a record of laws.
-- - Prelude: shared names, tests on numbers and lemmas on lists; Exception: src/Exception.h.
--
-- A byte is a number, a file and a stream are lists of bytes, and an exception is a value. A loop that
-- is not structural has fuel: BoundedSource::work has two turns more than its source has segments, each
-- turn but the last takes one; read_buffers has one turn for each byte of the stream and one more, a
-- buffer takes eight bytes or more; the binary search has one for each element of its range, each
-- turn shrinks the range; a source sends a byte or more a turn, a reader of a pipeline takes a segment a
-- turn, a flush of a filter takes a byte of output a turn, and the calls of a pooled thread are over after
-- 72 steps of the two threads. That this is enough is part of the theorems about them.
--
-- Not modelled: the Windows API, the snapshots and the transactions; the loops around liblzma,
-- whose effect is a parameter; the states of a processor while it is stopped; how the
-- objects of a tree are made from the disk; what the commands print. A job that throws ends the process,
-- and is left out with it.
pub mod Prelude
pub mod Streams
pub mod Threads
pub mod Archive
pub mod Backup
pub mod Utility
pub mod Exception
pub mod Line
pub mod KeyPair
pub mod Objects
