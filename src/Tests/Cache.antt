-- ===== src/Tests/Cache.antt =====
-- Runs of server/cache/s3fifo_cache.cc, and its theorems at a shard of two entries.
use fluxkv.Base.{Option, ℕ, ◌+◌, ◌≤◌, ◌≡◌, refl, false, List, [], ◌∷◌, some, none, arith}
use fluxkv.Metadata.Fixed.{put_fixed}
use fluxkv.Cache.Entry.{Entry, small_queue, main_queue, charge, map_key, vb_key, bytes_eq}
use fluxkv.Cache.Fifo.{push_head, pop_tail}
use fluxkv.Cache.Accounting.{IsFifo, total, pinned_total}
use fluxkv.Cache.Keys.{matching, slots_of}
use fluxkv.Cache.Shard.{
  Shard, bytes, evict, evict_loop, evict_round, evict_small, evict_main, leave_small, leave_main,
  ghost_add, ghost_trim, contains, set_erase, free, index_erase,
}
use fluxkv.Cache.Shard.Settles
use fluxkv.Cache.Holds.{Holds}
use fluxkv.Cache.Holds.Views.{Outcome}
use fluxkv.Cache.Holds.Evict
use fluxkv.Cache.Holds.Put
use fluxkv.Cache.Holds.Erase
use fluxkv.Cache.Holds.Lookup
use fluxkv.Cache.Holds.Steps.{IsU16}
use fluxkv.Cache.Holds.Mark
use fluxkv.Cache.Holds.Filled
use fluxkv.Cache.Holds.Reach
use fluxkv.Cache.Machine
use fluxkv.Cache.Fill.{mark_applied, fill_insert}
use fluxkv.Cache.Ops.{ReadStats, get, put, put_entry, erase}

abbrev sum_hash : ℕ → List ℕ → ℕ
sum_hash vbid [] = vbid
sum_hash vbid (b ∷ bs) = b + sum_hash vbid bs

-- A write that is not applied yet, in small.
abbrev written : Entry
written = record {
  seqno = 0;
  flags = 0;
  expiry = 0;
  pending = 1;
  vbid = 1;
  datatype = 0;
  deleted = false;
  freq = 0;
  queue = small_queue;
  shared_cap = none;
  key = 97 ∷ [];
  value = 1 ∷ 2 ∷ [];
}

-- A document that was read once, in main.
abbrev cached : Entry
cached = record {
  seqno = 7;
  flags = 0;
  expiry = 0;
  pending = 0;
  vbid = 2;
  datatype = 1;
  deleted = false;
  freq = 1;
  queue = main_queue;
  shared_cap = none;
  key = 98 ∷ [];
  value = 3 ∷ [];
}

abbrev two_entries : Shard
two_entries = record {
  index = (sum_hash 1 (97 ∷ []), map_key written) ∷ (sum_hash 2 (98 ∷ []), map_key cached) ∷ [];
  small = record { items = written ∷ []; bytes = charge written; count = 1 };
  main = record { items = cached ∷ []; bytes = charge cached; count = 1 };
  ghost = [];
  ghost_set = [];
  budget = 100;
  small_budget = 10;
  puts = 1;
  fills = 1;
  evictions = 0;
  ghost_hits = 0;
  fills_deferred = 0;
  pending_items = 1;
}

abbrev no_reads : ReadStats
no_reads = record { hits = 0; misses = 0; tombstone_hits = 0; fills_rejected = 0 }

two_entries-IsFifo_small : IsFifo two_entries.small
unfolding total
two_entries-IsFifo_small = omega arith

two_entries-IsFifo_main : IsFifo two_entries.main
unfolding total
two_entries-IsFifo_main = omega arith

written-Holds : Holds sum_hash two_entries (vb_key 1 (97 ∷ [])) (some written)
unfolding matching slots_of bytes_eq put_fixed
written-Holds = (refl, refl, (refl, refl))

cached-Holds : Holds sum_hash two_entries (vb_key 2 (98 ∷ [])) (some cached)
unfolding matching slots_of bytes_eq put_fixed
cached-Holds = (refl, refl, (refl, refl))

apart : bytes_eq (vb_key 1 (97 ∷ [])) (vb_key 2 (98 ∷ [])) ≡ false
unfolding bytes_eq put_fixed
apart = refl

-- The shard is over its budget: small gives its pinned entry to main, main drops the other after its
-- second chance.
evict_run :
    ((evict sum_hash two_entries).main.items ≡ record written { queue = main_queue } ∷ [])
    × ((evict sum_hash two_entries).small.items ≡ [])
    × ((evict sum_hash two_entries).evictions ≡ 1)
unfolding evict bytes_eq put_fixed charge evict_loop evict_round evict_small evict_main leave_small
    leave_main pop_tail push_head ghost_add ghost_trim contains set_erase free index_erase
evict_run = (refl, refl, refl)

evict-Settles_example : Settles.Settles two_entries (evict sum_hash two_entries)
evict-Settles_example =
    Settles.evict-Settles sum_hash two_entries two_entries-IsFifo_small two_entries-IsFifo_main
      (omega arith) (omega arith)

evict_bound_example :
    bytes (evict sum_hash two_entries) ≤ 100 + pinned_total (evict sum_hash two_entries).main.items
evict_bound_example =
    Settles.evict_bound sum_hash two_entries two_entries-IsFifo_small two_entries-IsFifo_main
      (omega arith) (omega arith)

evict-Holds_example :
    Outcome sum_hash (evict sum_hash two_entries) (vb_key 1 (97 ∷ [])) (some written)
evict-Holds_example =
    Evict.evict-Holds sum_hash (vb_key 1 (97 ∷ [])) two_entries (some written) written-Holds

-- The next version of the document that is still to be applied.
abbrev second : Entry
second = record written { value = 9 ∷ []; flags = 5 }

put_entry-Holds_example : Put.Stored sum_hash (put_entry sum_hash two_entries second) second 2
put_entry-Holds_example =
    Put.put_entry-Holds sum_hash two_entries second (some written) (omega arith) (omega arith)
      (omega arith) written-Holds

put_entry-Holds_other_example :
    Outcome sum_hash (put_entry sum_hash two_entries second) (vb_key 2 (98 ∷ [])) (some cached)
put_entry-Holds_other_example =
    Put.put_entry-Holds_other sum_hash two_entries second (some written) (vb_key 2 (98 ∷ []))
      (some cached) (omega arith) (omega arith) written-Holds apart cached-Holds

erase-Holds_other_example :
    Holds sum_hash (erase sum_hash two_entries 1 (97 ∷ [])) (vb_key 2 (98 ∷ [])) (some cached)
erase-Holds_other_example =
    Erase.erase-Holds_other sum_hash two_entries 1 (97 ∷ []) (some written) (vb_key 2 (98 ∷ []))
      (some cached) (omega arith) (omega arith) written-Holds apart cached-Holds

get-put_example :
    Lookup.answer (
      get sum_hash no_reads
        (put sum_hash two_entries 1 (97 ∷ []) (8 ∷ 8 ∷ []) 5 0 0 false)
        1
        (97 ∷ []))
    ≡ some (record {
      seqno = 0;
      flags = 5;
      expiry = 0;
      datatype = 0;
      deleted = false;
      value = 8 ∷ 8 ∷ [];
    })
get-put_example =
    Lookup.get-put sum_hash no_reads two_entries 1 (97 ∷ []) (8 ∷ 8 ∷ []) 5 0 0 false (some written)
      (omega arith) (omega arith) (omega arith) written-Holds

-- A write, then the acknowledgement of it.
reached : Machine.Reachable sum_hash (put_entry sum_hash (Machine.new_shard 1000) written)
reached =
    Machine.steps _ _ (Machine.starts 1000)
      (Machine.puts_entry (Machine.new_shard 1000) written (omega arith))

Reachable-Holds_example :
    (o : Option Entry) × Holds sum_hash
      (put_entry sum_hash (Machine.new_shard 1000) written)
      (map_key written)
      o
    × IsU16 o
Reachable-Holds_example =
    Reach.Reachable-Holds sum_hash (put_entry sum_hash (Machine.new_shard 1000) written)
      (map_key written) reached

Reachable-get-erase_example :
    Lookup.answer (
      get sum_hash no_reads
        (erase sum_hash (put_entry sum_hash (Machine.new_shard 1000) written) 1 (97 ∷ []))
        1
        (97 ∷ []))
    ≡ none
Reachable-get-erase_example =
    Reach.Reachable-get-erase sum_hash no_reads
      (put_entry sum_hash (Machine.new_shard 1000) written) 1 (97 ∷ []) (omega arith) reached

mark_applied-Holds_example :
    Holds sum_hash
      (Machine.marked (mark_applied sum_hash two_entries 1 (97 ∷ []) 12))
      (vb_key 1 (97 ∷ []))
      (some (record written { seqno = 12; pending = 0 }))
mark_applied-Holds_example =
    Mark.mark_applied-Holds sum_hash two_entries 1 (97 ∷ []) 12 written 0 (omega arith)
      (omega arith) refl (omega arith) written-Holds

-- A fill for the key of the document that is cached, and the other key.
abbrev fill : Entry
fill = record cached { seqno = 4; freq = 0; queue = small_queue; value = 5 ∷ [] }

apart_back : bytes_eq (vb_key 2 (98 ∷ [])) (vb_key 1 (97 ∷ [])) ≡ false
unfolding bytes_eq put_fixed
apart_back = refl

fill_insert-Holds_example :
    Filled.Filled sum_hash no_reads two_entries fill (some cached)
    × Outcome sum_hash
        (fill_insert sum_hash no_reads two_entries fill).1
        (vb_key 1 (97 ∷ []))
        (some written)
fill_insert-Holds_example =
    Filled.fill_insert-Holds sum_hash no_reads two_entries fill (some cached) (vb_key 1 (97 ∷ []))
      (some written) (omega arith) (omega arith) cached-Holds apart_back written-Holds
