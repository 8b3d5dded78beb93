-- ===== src/Tests.antt =====
-- The theorems at concrete inputs, and runs of the code's functions.
mod Metadata
mod Cache
mod Protocol
mod Engine
mod Batch
mod Reads
mod Server
mod Connection
