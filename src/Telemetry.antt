-- ===== src/Telemetry.antt =====
-- src/telemetry.h and src/telemetry.cpp: two bounded queues between the game's threads and the
-- two pipes, each with a sender thread.
pub mod Queue
pub mod Worker
pub mod Order
pub mod Sequence
mod Runs
pub mod System
pub mod Threads
