-- ===== src/Cache/Ops.antt =====
-- The cache's operations on the shard of their key: `Get`, `GetCopy`, `putEntry` behind `Put` and
-- `PutShared`, `Erase` and `SetBudget` of server/cache/s3fifo_cache.cc. Each runs under the shard's lock.
use fluxkv.Base.{
  ℕ, ◌%◌, ◌^◌, ◌+◌, ◌*◌, ◌/◌, Bool, true, false, List, [], ◌∷◌, Option, none, some, if◌then◌else◌,
  ltb, ◌==◌, length,
}
use fluxkv.Cache.Entry.{Entry, small_queue, main_queue, map_key, vb_key, bytes_eq}
use fluxkv.Cache.Shard.{
  Shard, find, unlink, insert, index_erase, free, evict, hash_of, max_freq, small_percent,
}

-- `ReadStatSlot`, summed over the threads.
pub record ReadStats : Type 0 where
  pub hits : ℕ
  pub misses : ℕ
  pub tombstone_hits : ℕ
  pub fills_rejected : ℕ

pub record CachedDoc : Type 0 where
  pub seqno : ℕ
  pub flags : ℕ
  pub expiry : ℕ
  pub datatype : ℕ
  pub deleted : Bool
  pub value : List ℕ

abbrev pub doc_of : Entry → CachedDoc
doc_of e = record {
  seqno = e.seqno;
  flags = e.flags;
  expiry = e.expiry;
  datatype = e.datatype;
  deleted = e.deleted;
  value = e.value;
}

-- A store through the pointer that `find` returned.
unfoldable pub update_key : List ℕ → (Entry → Entry) → List Entry → List Entry
update_key mk f [] = []
update_key mk f (e ∷ es) = if bytes_eq (map_key e) mk then f e ∷ es else e ∷ update_key mk f es

unfoldable pub update : Shard → Entry → (Entry → Entry) → Shard
unfolding update_key
update s e f = elim e.queue [
  | small_queue ↦ record s {
    small = (let q = s.small in record q { items = update_key (map_key e) f q.items });
  }
  | main_queue ↦ record s {
    main = (let q = s.main in record q { items = update_key (map_key e) f q.items });
  }
]

-- `if (f < kMaxFreq) e->freq.store(f + 1)`
abbrev pub hit : Entry → Entry
hit e = if ltb e.freq max_freq then record e { freq = e.freq + 1 } else e

abbrev pub count_hit : ReadStats → Bool → ReadStats
count_hit st deleted =
    if deleted
    then record st { tombstone_hits = st.tombstone_hits + 1 }
    else record st { hits = st.hits + 1 }

-- Results of `GetCopy`, with what it stores to its out parameters.
pub data GetResult : Type 0 where
  miss : GetResult
  found : CachedDoc → GetResult
  tombstone : CachedDoc → GetResult
  too_large : CachedDoc → GetResult

module _ (hash_key : ℕ → List ℕ → ℕ) where
  -- `Get`: the document that it hands to the callback, or `none` for the result `false`.
  unfoldable pub get : ReadStats → Shard → ℕ → List ℕ → ReadStats × Shard × Option CachedDoc
  get st s vbid key = elim (find s (hash_key vbid key) (vb_key vbid key)) [
    | none ↦ (record st { misses = st.misses + 1 }, s, none)
    | some e ↦ (count_hit st e.deleted, update s e hit, some (doc_of e))
  ]

  -- `GetCopy`, with a buffer of `buf_cap` bytes.
  unfoldable pub get_copy : ReadStats → Shard → ℕ → List ℕ → ℕ → ReadStats × Shard × GetResult
  get_copy st s vbid key buf_cap = elim (find s (hash_key vbid key) (vb_key vbid key)) [
    | none ↦ (record st { misses = st.misses + 1 }, s, miss)
    | some e ↦
        (let s' = update s e hit in
          if e.deleted
          then (count_hit st true, s', tombstone (doc_of e))
          else (if ltb buf_cap (length e.value)
              then (st, s', too_large (doc_of e))
              else (count_hit st false, s', found (doc_of e))))
  ]

  -- The part of `putEntry` after an older version is out of the way.
  unfoldable pub store_entry : Shard → Entry → ℕ → Shard
  store_entry s e carry =
      let counted = record s {
        pending_items = if carry == 0 then s.pending_items + 1 else s.pending_items;
      } in
      let inserted =
        insert counted (record e { pending = (carry + 1) % 2 ^ 32 }) (hash_of hash_key e) in
      evict hash_key (record inserted { puts = inserted.puts + 1 })

  -- The part of `putEntry` that takes the older version out.
  unfoldable pub displace : Shard → ℕ → Entry → Shard
  displace s h old =
      let unlinked = unlink s old in
      record unlinked { index = index_erase h (map_key old) unlinked.index }

  -- `putEntry`
  unfoldable pub put_entry : Shard → Entry → Shard
  unfolding store_entry displace
  put_entry s e = elim (find s (hash_of hash_key e) (map_key e)) [
    | none ↦ store_entry s e 0
    | some old ↦ store_entry (displace s (hash_of hash_key e) old) e old.pending
  ]

  -- `Put`: an entry that holds its value.
  unfoldable pub put : Shard → ℕ → List ℕ → List ℕ → ℕ → ℕ → ℕ → Bool → Shard
  unfolding put_entry
  put s vbid key value flags expiry datatype deleted = put_entry s (record {
    seqno = 0;
    flags = flags;
    expiry = expiry;
    pending = 0;
    vbid = vbid;
    datatype = datatype;
    deleted = deleted;
    freq = 0;
    queue = small_queue;
    shared_cap = none;
    key = key;
    value = value;
  })

  -- `PutShared`: an entry whose value stays in a buffer of the request, of a given capacity.
  unfoldable pub put_shared : Shard → ℕ → List ℕ → List ℕ → ℕ → ℕ → ℕ → ℕ → Bool → Shard
  unfolding put_entry
  put_shared s vbid key value capacity flags expiry datatype deleted = put_entry s (record {
    seqno = 0;
    flags = flags;
    expiry = expiry;
    pending = 0;
    vbid = vbid;
    datatype = datatype;
    deleted = deleted;
    freq = 0;
    queue = small_queue;
    shared_cap = some capacity;
    key = key;
    value = value;
  })

  -- `Erase`
  unfoldable pub erase : Shard → ℕ → List ℕ → Shard
  erase s vbid key = elim (find s (hash_key vbid key) (vb_key vbid key)) [
    | none ↦ s
    | some e ↦ free hash_key (unlink s e) e
  ]

  -- The loop body of `SetBudget` on one shard, given its part of the budget.
  unfoldable pub set_budget : Shard → ℕ → Shard
  set_budget s per_shard =
      evict hash_key
        (record s { budget = per_shard; small_budget = per_shard * small_percent / 100 })
