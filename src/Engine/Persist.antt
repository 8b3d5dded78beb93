-- ===== src/Engine/Persist.antt =====
-- `executePersist` of server/engine.cc from its sweep to the release of its vbucket. Magma and the cache are
-- parameters.
pub mod Weights
pub mod Durable
pub mod Waiting
pub mod Settles
pub mod Answers
pub mod Groups
pub mod Drains
pub mod Pins
pub mod Stamps
use fluxkv.Base.{
  ℕ, ◌+◌, ◌-◌, ◌%◌, ◌^◌, Bool, true, false, ◌&&◌, ◌||◌, List, [], ◌∷◌, ◌++◌, map, length, ltb, leb,
  ◌==◌, if◌then◌else◌,
}
use fluxkv.Metadata.Codec.{DocMeta, encode, encode_compact}
use fluxkv.Protocol.{op_delete}
use fluxkv.Engine.Request.{Request, new_request}
use fluxkv.Engine.Queue.{VbQueue, is_empty, arm, take_batch, release}
use fluxkv.Engine.Stage.{item_size}
use fluxkv.Engine.Batch.{BatchSort, prepare, sort}
use mathlib.Core.List.{reverse}

-- What is called on magma, whose state is `S` and whose operations are `O`: a status is whether it is OK.
pub record Magma (O S : Type 0) : Type 0 where
  pub new_doc_delete : List ℕ → List ℕ → O
  pub new_doc_upsert : List ℕ → List ℕ → List ℕ → O
  pub write_docs : ℕ → List O → S → Bool × S
  pub get_wal_tail_lsn : S → ℕ

-- What is called on the bucket's cache, if it has one.
pub record DocCache (C : Type 0) : Type 0 where
  pub has_cache : Bool
  pub mark_persisted : ℕ → List ℕ → ℕ → C → C

-- `gBatchSort` with the test of a fraction against `gSortDupThreshold`, `gCompactMeta`, `gAsyncDurable`,
-- `IsDurable`, whether `gDurableNotifier` is set, the `ioOwner` of a request as an address, 0 for none, and
-- `sizeof(Request)`.
pub record Settings : Type 0 where
  pub exceeds : ℕ → ℕ → Bool
  pub batch_sort : BatchSort
  pub compact_meta : Bool
  pub async_durable : Bool
  pub is_durable : Bool
  pub has_notifier : Bool
  pub io_owner : Request → ℕ
  pub request_size : ℕ

pub record PendingDurable : Type 0 where
  pub lsn : ℕ
  pub status_ok : Bool
  pub reqs : List Request
  pub bytes : ℕ

-- A chain that `DurableNotifier::Park` hands to an IO loop, with the `durableLsn` of its requests.
pub record Parked : Type 0 where
  pub loop : ℕ
  pub lsn : ℕ
  pub reqs : List Request

-- A vbucket's queue and last sequence number, and what is shared with it: `queuedBytes_`, the durable queue
-- and the pool of its shard, the chains in `parkedHead` of the IO loops, the newest first, and those in their
-- `parkedLocal`, the notifier's ledger, magma, the cache, the requests that `sendWriteResponse` was posted for, and the
-- number of tasks that were submitted.
pub record Writer (S C : Type 0) : Type 0 where
  pub queue : VbQueue
  pub seqno : ℕ
  pub store : S
  pub cache : C
  pub queued_bytes : ℕ
  pub durable_queue : List PendingDurable
  pub parked : List Parked
  pub parked_local : List Parked
  pub ledger : List (ℕ × ℕ)
  pub free_requests : List (List Request)
  pub free_request_count : ℕ
  pub answered : List Request
  pub submitted : ℕ

abbrev pub max_free_requests : ℕ
max_free_requests = 2 ^ 14

-- `req->resultStatus = status`
unfoldable pub with_status : Bool → Request → Request
with_status ok r = record r { result_ok = ok }

-- `Shard::RecycleRequests`. A chain that is refused is deleted.
unfoldable pub recycle_requests : {S C : Type 0} → List Request → Writer S C → Writer S C
recycle_requests chain w =
    let n = length chain in
    if ltb max_free_requests (w.free_request_count + n)
      || leb max_free_requests (length w.free_requests)
    then w
    else record w {
      free_requests = w.free_requests ++ (chain ∷ []);
      free_request_count = w.free_request_count + n;
    }

-- `releaseVBQueue` and `releaseVBQueueAfterWrite`
unfoldable pub release_vb_queue : {S C : Type 0} → Writer S C → Writer S C
unfolding release arm
release_vb_queue w =
    let idle = release w.queue in
    let (armed, won) = arm idle in
    if is_empty idle.list
    then record w { queue = idle }
    else record w { queue = armed; submitted = if won then w.submitted + 1 else w.submitted }

-- `dm` of a write
unfoldable pub doc_meta : ℕ → ℕ → Request → DocMeta
doc_meta cas seqno r = record {
  seqno = seqno;
  cas = cas;
  value_size = length r.value % 2 ^ 32;
  flags = r.flags;
  expiry = r.expiry;
  deleted = if r.opcode == op_delete then 1 else 0;
  datatype = r.datatype;
}

-- `meta`
unfoldable pub meta_bytes : Bool → DocMeta → List ℕ
unfolding encode encode_compact
meta_bytes compact_meta m = if compact_meta then encode_compact m else encode m

unfoldable pub batch_bytes : ℕ → List Request → ℕ
batch_bytes request_size [] = 0
batch_bytes request_size (r ∷ rs) = item_size request_size r + batch_bytes request_size rs

-- The runs of one `ioOwner` in a batch that is sorted by it.
unfoldable pub add_run : (Request → ℕ) → Request → List (ℕ × List Request) → List (ℕ × List Request)
add_run owner r [] = (owner r, r ∷ []) ∷ []
add_run owner r ((t, g) ∷ gs) =
    if owner r == t then (t, r ∷ g) ∷ gs else (owner r, r ∷ []) ∷ ((t, g) ∷ gs)

unfoldable pub owner_runs : (Request → ℕ) → List Request → List (ℕ × List Request)
unfolding add_run
owner_runs owner [] = []
owner_runs owner (r ∷ rs) = add_run owner r (owner_runs owner rs)

-- The loop over the runs: the chains that are parked, and `orphans`.
unfoldable pub park_runs : ℕ → List (ℕ × List Request) → List Parked × List Request
park_runs lsn [] = ([], [])
park_runs lsn ((t, g) ∷ gs) =
    let (chains, orphans) = park_runs lsn gs in
    if t == 0
    then (chains, g ++ orphans)
    else (record { loop = t; lsn = lsn; reqs = g } ∷ chains, orphans)

module _ {O S C : Type 0} (k : Settings) (magma : Magma O S) (doc_cache : DocCache C) where
  unfoldable pub operation : ℕ → ℕ → Request → O
  unfolding doc_meta meta_bytes
  operation cas seqno r =
      let meta = meta_bytes k.compact_meta (doc_meta cas seqno r) in
      if r.opcode == op_delete
      then magma.new_doc_delete r.key meta
      else magma.new_doc_upsert r.key meta r.value

  -- The loop that builds `ops`: the requests with their sequence numbers, the operations, and the vbucket's
  -- sequence number after `NextSeqno` for each.
  unfoldable pub build_ops : ℕ → ℕ → List Request → List Request × List O × ℕ
  unfolding operation
  build_ops cas last [] = ([], [], last)
  build_ops cas last (r ∷ rs) =
      let seqno = (last + 1) % 2 ^ 64 in
      let (stamped, ops, end) = build_ops cas seqno rs in
      (record r { result_seqno = seqno } ∷ stamped, operation cas seqno r ∷ ops, end)

  -- The release of the pins.
  unfoldable pub mark_all : ℕ → Bool → List Request → C → C
  mark_all vbid ok [] c = c
  mark_all vbid ok (r ∷ rs) c =
      mark_all vbid ok rs (doc_cache.mark_persisted vbid r.key (if ok then r.result_seqno else 0) c)

  -- A batch that waits for the log.
  unfoldable pub await_durable : Bool → ℕ → List Request → Writer S C → Writer S C
  await_durable ok bytes reqs w = record w {
    durable_queue =
        w.durable_queue
        ++ (record {
          lsn = magma.get_wal_tail_lsn w.store;
          status_ok = ok;
          reqs = reqs;
          bytes = bytes;
        }
            ∷ []);
  }

  -- A batch that the notifier answers when the log has reached it: grouped by IO loop, the loop-less requests
  -- left to `durableLoop`, and its bytes in the ledger.
  unfoldable pub notify_batch : Bool → ℕ → List Request → Writer S C → Writer S C
  unfolding owner_runs park_runs sort
  notify_batch ok bytes reqs w =
      let lsn = magma.get_wal_tail_lsn w.store in
      let by_owner = sort (λ a b. ltb (k.io_owner a) (k.io_owner b)) reqs in
      let (chains, orphans) = park_runs lsn (owner_runs k.io_owner by_owner) in
      record w {
        parked = reverse chains ++ w.parked;
        durable_queue =
            if is_empty orphans
            then w.durable_queue
            else w.durable_queue
              ++ (record { lsn = lsn; status_ok = ok; reqs = orphans; bytes = 0 } ∷ []);
        ledger = w.ledger ++ ((lsn, bytes) ∷ []);
      }

  -- A batch that is done: answered in the durable mode, recycled in the other.
  unfoldable pub finish_batch : Bool → ℕ → List Request → Writer S C → Writer S C
  unfolding recycle_requests with_status
  finish_batch ok bytes reqs w =
      let paid = record w { queued_bytes = w.queued_bytes - bytes } in
      if k.is_durable
      then record paid { answered = paid.answered ++ map (with_status ok) reqs }
      else recycle_requests (map (λ r. new_request) reqs) paid

  -- From the loop that builds `ops` to the release of the pins: whether magma took the batch, and its
  -- requests.
  unfoldable pub write_batch :
      ℕ → ℕ → ℕ → List Request → Writer S C → Bool × List Request × Writer S C
  unfolding build_ops mark_all
  write_batch vbid cas now kept w =
      let (stamped, ops, seqno) = build_ops cas w.seqno kept in
      let (ok, store) = magma.write_docs vbid ops w.store in
      (
        ok,
        stamped,
        record w {
          queue = (let q = w.queue in record q { last_write_ns = now });
          seqno = seqno;
          store = store;
          cache = if doc_cache.has_cache then mark_all vbid ok stamped w.cache else w.cache;
        },
      )

  -- From the sort to the end, for a batch that is not empty.
  unfoldable pub persist_batch : ℕ → ℕ → ℕ → List Request → Writer S C → Writer S C
  unfolding prepare write_batch batch_bytes await_durable notify_batch finish_batch
  persist_batch vbid cas now batch w =
      let (kept, dropped) = prepare k.exceeds k.batch_sort batch in
      let (ok, stamped, written) = write_batch vbid cas now kept w in
      let bytes = batch_bytes k.request_size stamped + batch_bytes k.request_size dropped in
      if k.is_durable && (k.async_durable && ok)
      then (if k.has_notifier
          then notify_batch ok bytes (stamped ++ dropped) written
          else await_durable ok bytes (stamped ++ dropped) written)
      else finish_batch ok bytes (stamped ++ dropped) written

  -- `executePersist`, with the two times that it reads: the requests it took, and what it leaves.
  unfoldable pub execute_persist : ℕ → ℕ → ℕ → Writer S C → ℕ × Writer S C
  unfolding take_batch persist_batch release_vb_queue
  execute_persist vbid cas now w =
      let (batch, q) = take_batch w.queue in
      let swept = record w { queue = q } in
      if is_empty batch
      then (0, release_vb_queue swept)
      else (length batch, release_vb_queue (persist_batch vbid cas now batch swept))
