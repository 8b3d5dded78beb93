-- ===== src/Tests/Batch.antt =====
-- Runs of the writer: two writes of one key, around a write of another, are sorted, written and answered.
use fluxkv.Base.{
  ℕ, ◌+◌, ◌≤◌, ◌≡◌, refl, true, false, none, arith, List, [], ◌∷◌, ◌++◌, All, min, length,
  if◌then◌else◌,
}
use fluxkv.Engine.Request.{Request, new_request}
use fluxkv.Engine.Queue.{new_queue}
use fluxkv.Engine.Batch.{automatic, does_sort, sort_batch, sort_key, precedes, estimate_dups}
use fluxkv.Engine.Batch.KeyOrder
use fluxkv.Engine.Batch.KeyOrder.{before, IsPlaced}
use fluxkv.Engine.Batch.Newest
use fluxkv.Engine.Batch.Newest.{IsBatch, write_all}
use fluxkv.Engine.Batch.Sorting.{with_key}
use fluxkv.Engine.Persist.{
  Settings, Magma, Writer, PendingDurable, batch_bytes, persist_batch, execute_persist,
}
use fluxkv.Engine.Persist.Durable.{durable_round}
use fluxkv.Engine.Persist.Drains
use fluxkv.Engine.Persist.Pins
use fluxkv.Engine.Persist.Pins.{pin_counter}
use fluxkv.Engine.Persist.Settles
use fluxkv.Engine.Persist.Settles.{IsAccounted, in_hand, by_write}
use fluxkv.Engine.Persist.Waiting.{waiting_bytes, ledger_bytes}
use fluxkv.Engine.Persist.Answers
use fluxkv.Engine.Persist.Answers.{IsAhead}
use mathlib.Core.List.{reverse}

abbrev write : ℕ → List ℕ → Request
write n key = record new_request {
  opcode = 1;
  opaque = n;
  key = key;
  value = n ∷ [];
  flags = 7;
  expiry = 60;
  datatype = 1;
}

abbrev first_write : Request
first_write = write 1 (107 ∷ 49 ∷ [])

abbrev other_write : Request
other_write = write 2 (107 ∷ [])

abbrev second_write : Request
second_write = write 3 (107 ∷ 49 ∷ [])

abbrev three_writes : List Request
three_writes = first_write ∷ other_write ∷ second_write ∷ []

three_writes-IsBatch : IsBatch three_writes
three_writes-IsBatch = record {
  size_u32 = omega arith;
  keys = (
    (omega arith, (omega arith, (omega arith, tt))),
    ((omega arith, (omega arith, tt)), ((omega arith, (omega arith, (omega arith, tt))), tt)),
  );
}

-- The shorter key comes first, and of the two writes of the other the older one is dropped.
sort_run : sort_batch three_writes ≡ (other_write ∷ second_write ∷ [], first_write ∷ [])
unfolding sort_batch
sort_run = refl

estimate_run : estimate_dups three_writes ≡ (1, 3)
unfolding estimate_dups
estimate_run = refl

first-IsPlaced : IsPlaced three_writes (0, first_write)
first-IsPlaced = record {
  placed = refl;
  place_u32 = omega arith;
  len_u32 = omega arith;
  key_bytes = (omega arith, (omega arith, tt));
}

second-IsPlaced : IsPlaced three_writes (2, second_write)
second-IsPlaced = record {
  placed = refl;
  place_u32 = omega arith;
  len_u32 = omega arith;
  key_bytes = (omega arith, (omega arith, tt));
}

precedes-before_example :
    precedes three_writes (sort_key 0 first_write) (sort_key 2 second_write)
    ≡ before (0, first_write) (2, second_write)
precedes-before_example =
    KeyOrder.precedes-before three_writes (0, first_write) (2, second_write) first-IsPlaced
      second-IsPlaced

write_all-sort_batch_example :
    write_all (sort_batch three_writes).0 (λ k. none) (107 ∷ 49 ∷ [])
    ≡ write_all three_writes (λ k. none) (107 ∷ 49 ∷ [])
write_all-sort_batch_example =
    Newest.write_all-sort_batch three_writes (λ k. none) (107 ∷ 49 ∷ []) three_writes-IsBatch

-- Durable settings with asynchronous acknowledgement, and a store that counts its operations.
abbrev settings : Settings
settings = record {
  exceeds = λ dups sampled. true;
  batch_sort = automatic;
  compact_meta = true;
  async_durable = true;
  is_durable = true;
  has_notifier = false;
  io_owner = λ r. length r.key;
  request_size = 512;
}

abbrev counting_magma : Magma (List ℕ) ℕ
counting_magma = record {
  new_doc_delete = λ key meta. key;
  new_doc_upsert = λ key meta value. key;
  write_docs = λ vbid ops n. (true, n + length ops);
  get_wal_tail_lsn = λ n. n;
}

abbrev writer : Writer ℕ ℕ
writer = record {
  queue = record new_queue { list = reverse three_writes; scheduled = true; pending = 3 };
  seqno = 40;
  store = 10;
  cache = 0;
  queued_bytes = 1644;
  durable_queue = [];
  parked = [];
  parked_local = [];
  ledger = [];
  free_requests = [];
  free_request_count = 0;
  answered = [];
  submitted = 0;
}

-- Three writes are pinned, and two pins are released.
persist_batch-pins_example :
    (persist_batch settings counting_magma
      (pin_counter (107 ∷ 49 ∷ []))
      5
      1700000000
      9
      three_writes
      writer).cache
    ≡ 0
      + (if does_sort settings.exceeds settings.batch_sort three_writes
          then min 1 (length (with_key (107 ∷ 49 ∷ []) three_writes))
          else length (with_key (107 ∷ 49 ∷ []) three_writes))
persist_batch-pins_example =
    Pins.persist_batch-pins settings counting_magma (107 ∷ 49 ∷ []) 5 1700000000 9 three_writes
      writer three_writes-IsBatch

pins_run :
    (persist_batch settings counting_magma
      (pin_counter (107 ∷ 49 ∷ []))
      5
      1700000000
      9
      three_writes
      writer).cache
    ≡ 1
unfolding persist_batch pin_counter
pins_run = refl

writer-IsAccounted : IsAccounted 512 100 writer
unfolding batch_bytes waiting_bytes ledger_bytes
writer-IsAccounted = refl

abbrev persisted : Writer ℕ ℕ
persisted =
    (execute_persist settings counting_magma (pin_counter (107 ∷ [])) 5 1700000000 9 writer).1

execute_persist-IsAccounted_example : IsAccounted 512 100 persisted
execute_persist-IsAccounted_example =
    Settles.execute_persist-IsAccounted settings counting_magma (pin_counter (107 ∷ [])) 5
      1700000000 9 100 writer three_writes-IsBatch writer-IsAccounted

durable_round-settles_example :
    IsAccounted 512 100 (durable_round 12 persisted)
    × (in_hand (by_write (λ key value opaque. opaque)) (durable_round 12 persisted)
        ≡ in_hand (by_write (λ key value opaque. opaque)) persisted)
    × (ready : List PendingDurable) × (ready ++ (durable_round 12 persisted).durable_queue
        ≡ persisted.durable_queue)
    × All (λ (p : PendingDurable). p.lsn ≤ 12) ready
    × IsAhead 12 (durable_round 12 persisted).durable_queue
durable_round-settles_example =
    Answers.durable_round-settles 512 100 (λ key value opaque. opaque) 12 persisted
      execute_persist-IsAccounted_example

-- The log has reached the batch, so its three writes are answered.
durable_run : length (durable_round 12 persisted).answered ≡ 3
unfolding durable_round execute_persist
durable_run = refl

-- The same batch with the durable notifier set: its writes are parked on the loops of their connections.
abbrev notified : Writer ℕ ℕ
notified =
    (execute_persist (record settings { has_notifier = true }) counting_magma
      (pin_counter (107 ∷ [])) 5 1700000000 9 writer).1
