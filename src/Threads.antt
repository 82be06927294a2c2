-- ===== src/Threads.antt =====
-- src/System/Threads.h and src/System/Threads.cpp.
pub mod CircularQueue
pub mod Handshake
pub mod Pool
