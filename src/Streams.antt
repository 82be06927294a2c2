-- ===== src/Streams.antt =====
-- src/StreamProcessor.h, src/StreamProcessor.cpp and the filters built on them: segments, the queue
-- between two processors, and the loops of the filters as functions of the segments they read.
pub mod Segment
pub mod Queue
pub mod Processor
pub mod Bounded
pub mod Workers
pub mod Synchronous
mod Tests
pub mod Crypto
