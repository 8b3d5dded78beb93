-- ===== src/Engine.antt =====
-- server/engine.cc: requests between the connections and magma.
pub mod Request
pub mod Queue
pub mod Ownership
pub mod Stage
pub mod Batch
pub mod Persist
pub mod Reads
pub mod Gets
