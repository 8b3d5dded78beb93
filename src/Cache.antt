-- ===== src/Cache.antt =====
-- server/cache: the document cache. `Entry` is a cached document, `Fifo` an eviction queue, `Shard`
-- one shard of the S3-FIFO cache with its operations.
pub mod Entry
pub mod Fifo
pub mod Accounting
pub mod Shard
pub mod Keys
pub mod Ops
pub mod Fill
pub mod Machine
pub mod Holds
