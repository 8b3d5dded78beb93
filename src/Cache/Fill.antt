-- ===== src/Cache/Fill.antt =====
-- `PutIfAbsent` and `MarkPersisted` of server/cache/s3fifo_cache.cc on the shard of their key, each as
-- the steps that it takes under one lock. Their calls of `noteSeqno` are left out: they change the
-- seqno index, which nothing here reads.
use fluxkv.Base.{
  ℕ, ◌+◌, ◌-◌, ◌%◌, ◌^◌, Bool, false, not, ◌&&◌, List, Option, none, some, if◌then◌else◌, ltb, ◌==◌,
}
use fluxkv.Cache.Entry.{Entry, small_queue, map_key, vb_key}
use fluxkv.Cache.Shard.{Shard, bytes, find, insert, evict, hash_of, contains, ghost_add}
use fluxkv.Cache.Ops.{ReadStats, update}

-- What a write that was applied with a sequence number does to its entry.
abbrev pub applied : ℕ → Entry → Entry
applied seqno e = record e {
  seqno = if seqno == 0 then e.seqno else seqno;
  pending = (e.pending + 2 ^ 32 - 1) % 2 ^ 32;
}

module _ (hash_key : ℕ → List ℕ → ℕ) where
  -- The last locked part of `PutIfAbsent`, which looks for the key again.
  unfoldable pub fill_insert : ReadStats → Shard → Entry → ReadStats × Shard
  fill_insert st s e = elim (find s (hash_of hash_key e) (map_key e)) [
    | none ↦
        (let inserted = insert s e (hash_of hash_key e) in
          (st, evict hash_key (record inserted { fills = inserted.fills + 1 })))
    | some present ↦ (record st { fills_rejected = st.fills_rejected + 1 }, s)
  ]

  -- The doorkeeper's part: `some` is the shard after an early return.
  unfoldable pub fill_defer : Bool → Shard → ℕ → Option Shard
  fill_defer doorkeeper s h =
      if doorkeeper && not (contains h s.ghost_set)
      then some (
          let remembered = ghost_add s h in
          record remembered { fills_deferred = remembered.fills_deferred + 1 })
      else none

  -- `PutIfAbsent`, with no other thread between its parts.
  unfoldable pub put_if_absent :
      Bool → ReadStats → Shard → ℕ → List ℕ → List ℕ → ℕ → ℕ → ℕ → ℕ → ReadStats × Shard
  unfolding fill_insert fill_defer
  put_if_absent doorkeeper st s vbid key value seqno flags expiry datatype =
      elim (find s (hash_key vbid key) (vb_key vbid key)) [
        | some present ↦ (record st { fills_rejected = st.fills_rejected + 1 }, s)
        | none ↦ elim (fill_defer doorkeeper s (hash_key vbid key)) [
          | some deferred ↦ (st, deferred)
          | none ↦ fill_insert st s (record {
            seqno = seqno;
            flags = flags;
            expiry = expiry;
            pending = 0;
            vbid = vbid;
            datatype = datatype;
            deleted = false;
            freq = 0;
            queue = small_queue;
            shared_cap = none;
            key = key;
            value = value;
          })
        ]
      ]

  -- The part of `MarkPersisted` under the shared lock, and whether the shard is to be trimmed.
  unfoldable pub mark_applied : Shard → ℕ → List ℕ → ℕ → Shard × Bool
  mark_applied s vbid key seqno = elim (find s (hash_key vbid key) (vb_key vbid key)) [
    | none ↦ (s, false)
    | some e ↦
        (let s' = update s e (applied seqno) in
          if e.pending == 1
          then (record s' { pending_items = s'.pending_items - 1 }, ltb s'.budget (bytes s'))
          else (s', false))
  ]

  -- `MarkPersisted`
  unfoldable pub mark_persisted : Shard → ℕ → List ℕ → ℕ → Shard
  unfolding mark_applied
  mark_persisted s vbid key seqno =
      let (s', over_budget) = mark_applied s vbid key seqno in
      if over_budget then evict hash_key s' else s'
