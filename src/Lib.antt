-- ===== src/Lib.antt =====
-- Verification of fluxkv, a key-value server in front of the magma store.
--
-- A connection (server/connection.cc) parses requests and serves reads from the document cache
-- (server/cache). A write goes into the cache first, where it stays pinned, and into the queue of its
-- vbucket (server/engine.cc); a writer thread hands it to magma with the document's metadata
-- (server/metadata.h) and then releases the pin. The reply to a write is sent when the engine has
-- staged it, or, in the durable mode, when it is written.
--
-- server/metadata.h, in Metadata and the files of Metadata/:
--   Metadata/Varint.antt    putVarint, getVarint
--   Metadata/Fixed.antt     getFixed and the memcpy of a field
--   Metadata/Codec.antt     DocMeta with encode, encodeCompact (`compact_fields`, then the pad byte) and
--                           decode (`decode_legacy`, `decode_compact`, `decode_optionals`), MetaGetSeqNum,
--                           MetaGetValueSize, MetaIsTombstone, MetaGetHistoryTimestamp
--   the other files         lemmas on them, and their theorems in Decoding and Codec/Shape
--
-- server/cache/s3fifo_cache.cc, in Cache and the files of Cache/:
--   Cache/Entry.antt        S3FifoCache::Entry with mapKey (`map_key`) and charge
--   Cache/Fifo.antt         Fifo with pushHead, popTail and remove
--   Cache/Shard.antt        S3FifoCache::Shard with find, ghostAdd, unlink, insert, free, evict,
--                           evictSmall and evictMain
--   Cache/Ops.antt          Get, GetCopy, Put, PutShared, putEntry, Erase and SetBudget on one shard
--   Cache/Fill.antt         PutIfAbsent and MarkPersisted, without their calls of noteSeqno
--   Cache/Machine.antt      the locked steps of these operations as a step relation, and the constructor's
--                           state
--   Cache/Accounting.antt   the byte and entry counts of a queue
--   Cache/Shard/            one round of eviction (Rounds), the rounds that are still due (Due, Ready),
--                           the end of the loop (Settles)
--   Cache/Keys.antt         the entries of a queue and the slots of the index under a key
--   Cache/Holds/            what a shard holds under one key, through each operation
--
-- server/protocol.h and server/protocol.cc, in Protocol and the files of Protocol/:
--   Protocol.antt           McbpHeader, its byte order and bytes, and the functions that build or append
--                           a response
--   Protocol/Codes.antt     Opcode and McbpStatus
--   the other files         the byte order (Swap), the header's round trip (RoundTrip), one response as
--                           a client reads it (Response), a buffer of responses (Frames)
--
-- server/engine.h and server/engine.cc, in Engine and the files of Engine/:
--   Engine/Request.antt     Request and its reset
--   Engine/Queue.antt       RequestStack and the write side of VBQueue
--   Engine/Stage.antt       StageWrite and FlushStaged over the staging table of an IO thread; Delivery
--                           and Order are about a whole wake
--   Engine/Ownership.antt   the atomic steps of FlushStaged, executePersist (with the sort of its batch between
--                           the sweep and WriteDocs), releaseVBQueue and
--                           releaseVBQueueAfterWrite on one queue; its children Keeps and Progress
--   Engine/Batch.antt       keyPrefix, estimateDupFraction and the sort and dedupe of executePersist; its
--                           children are about the prefixes (Prefix), the order (Lex, KeyOrder), the sort
--                           (Sorting), the runs of one key (Runs) and the store (Newest)
--   Engine/Persist.antt     executePersist with RecycleRequests, releaseVBQueue and DurableNotifier::Park; its
--                           child Durable has the rounds of durableLoop and the notifier's release and
--                           DrainDurable; the others are about the operations (Stamps), the cache's pins
--                           (Pins), the bytes (Waiting, Settles), the notifier's chains (Groups, Drains)
--                           and the replies (Answers)
--   Engine/Reads.antt       EnqueueRead, collectRead and releaseReadVBQueue and their atomic steps; Order
--                           is about one batch, Owned, Collected and Served about all interleavings
--   Engine/Gets.antt        the single Get of executeRead, fillCache, the dedupe by key of executeReadMulti
--                           and submitReadsAsync, and completeGets; Dedupe compares them, ReadBack is
--                           about a write that is read
--
-- server/connection.h and server/connection.cc, in Connection and the files of Connection/:
--   Connection/Bucket.antt     the calls on the bucket and the cache, as an interface
--   Connection/State.antt      the state, flushPending, scheduleFlush, pauseForQueue, destroy and
--                              sendWriteResponse
--   Connection/Parse.antt      the framing of parseAndDispatch; Front is about one request
--   Connection/Handlers.antt   handleSet, handleDelete and handleGet, with what they read of a body in
--                              Bounds, Inside and Encoding
--   Connection/Bootstrap.antt  handleHello, handleNoop, handleSelectBucket and their like, and the echo
--                              response, which Echo compares with an ordinary one
--   Connection/Sasl.antt       the SASL handlers, over the cryptography as a parameter
--   Connection/Loop.antt       serveCachedGets, dispatch, parseAndDispatch and readDataAvailable; how each
--                              request is answered (Answers), why the loop stops (Input, Fuel), and the two
--                              paths of a cached GET (Cached)
--   Connection/Direct.antt     writeDirectLocked against sendGetResponse, which Direct/Stream compares
--
-- server/server.cc and server/iothread.h, in Server and the files of Server/:
--   Server/Pool.antt        the counters of IOThread, pickIOThread, planMoves and the plan of rebalance; Best
--                           is about the least and the greatest load, Level about the plan
--
-- Base has the names and lemmas that the parts share, Tests the runs and the examples.
--
-- Conventions. A byte is a number below 256 and a buffer a list of them; the machine is
-- little-endian. Varints are numbers below 2 ^ 64, and their loops recur on the number or on the
-- bytes that are left, so there is no fuel. The loop of `evict` has the guard of the source, which
-- is the fuel of `evict_loop`. Each step of an operation of the cache runs under the lock of its
-- shard: for a read, and for the first part of MarkPersisted, that is the shared lock, and their
-- stores to single fields are taken one after another. The counters that a read touches are summed
-- over the threads. A queue is the list of its entries from the tail to the head, and an entry is
-- told by its map key where the source has its address. The index is the list of its slots, as the
-- contract of FlatIndex has it: a slot is found, or erased, by a hash and a map key. The ghost queue
-- and its set are lists of hashes. Byte counts, entry counts and statistics are below the memory of
-- the machine and do not wrap; the pending count of an entry is 32 bits wide and does. An entry
-- takes 56 bytes, as its static_assert says, and its Ext two pointers. The hash of a key is
-- SpookyHash of the folly library: every definition that needs it takes it as a parameter.
--
-- A handler of a connection returns none where the source reads behind the body of a request. A null
-- body is the empty list. The calls on the bucket and the cache are the fields of Bucket, over a
-- state that the definitions pass on, so that every engine and cache fits; a request that is taken
-- from a pool is a reset one. The loop around parseAndDispatch has fuel: one more than the bytes in
-- its buffer, which is enough since every request takes some. The run of cached GETs has the bytes of
-- its buffer as fuel, and the length of the front buffer, which folly decides, is a parameter of
-- each round. The steps on a write queue interleave in the sequentially consistent order that
-- the source asks for where it matters; a stack is the list of its requests, newest first.
-- The arrays over the vbuckets are functions, and a write to one outside of them gives none; the
-- size of a Request is a parameter. `std::sort` is an insertion sort: no two of its elements are equal,
-- so there is one sorted result. The comparison of the share of duplicates with its threshold, which
-- is one of doubles, is a parameter, as are magma and, for writers and readers, the cache.
-- `executePersist` runs on one vbucket, with what it shares with others. Whether the durable notifier is
-- set is a setting, and the IO loop of a request is a parameter, an address that is 0 for none. The sort of a
-- batch by these addresses keeps the order of equal ones, which `std::sort` leaves open; no theorem depends on
-- it. The chains that are parked are one list for all loops, the newest first. The requests of a durable batch
-- are answered in `sendWriteResponse`, whose call is their place in the list of the answered ones. `find`
-- takes a slot whose entry is in no queue for a miss, where the source would follow its pointer. StageWrite
-- reads `queuedBytes_` once for a wake. `readDepth` is kept as its 64 bits. The loop of
-- `rebalance` has fuel, of which the sum of the squares of the loads is enough.
--
-- Not modelled: the probing of FlatIndex, the seqno index and the choice of a shard in
-- server/cache/s3fifo_cache.cc; the JSON strings of server/protocol.cc; in server/connection.cc the
-- migration between IO threads, the resumption after a pause, the hand-over between readers and the
-- loop around a direct send, prefetches, pools of requests, counters of requests and tracing; in
-- server/engine.cc the hints of the seqno index, asynchronous reads as steps, the notifier's thread and its wakes,
-- the coalescing of writes, the write tokens, the worker loops and statistics; in server/server.cc the
-- retiring of loops, the accept loop and the mailboxes; the thread tuner (server/tuner.cc);
-- server/main.cc, server/alloc.cc, server/statslot.cc, client/fluxbench.cc and
-- server/cache/doccache.cc, which are glue, allocation, thread-local storage, a load generator and a
-- factory.
pub mod Base
pub mod Metadata
pub mod Cache
pub mod Protocol
pub mod Engine
pub mod Connection
pub mod Server
mod Tests
