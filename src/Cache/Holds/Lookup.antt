-- ===== src/Cache/Holds/Lookup.antt =====
-- `Get` after `Put`, and after `Erase`.
use fluxkv.Base.{ℕ, ◌+◌, ◌^◌, ◌<◌, ◌≡◌, ap, Bool, List, Option, none, some}
use fluxkv.Cache.Entry.{Entry, small_queue, vb_key}
use fluxkv.Cache.Shard.{Shard, find}
use fluxkv.Cache.Holds.{Holds, find-Holds, find-Holds-none}
use fluxkv.Cache.Holds.Steps.{IsU16, carried}
use fluxkv.Cache.Holds.Put.{put_entry-Holds}
use fluxkv.Cache.Holds.Erase.{erase-Holds}
use fluxkv.Cache.Ops.{
  ReadStats, CachedDoc, get, put, erase, put_entry, doc_of, count_hit, update, hit,
}

-- What a read handed out.
abbrev pub answer : ReadStats × Shard × Option CachedDoc → Option CachedDoc
answer (st, s, d) = d

module _ (hash_key : ℕ → List ℕ → ℕ) where
  served : ReadStats → Shard → Option Entry → ReadStats × Shard × Option CachedDoc
  served st s o = elim o [
    | none ↦ (record st { misses = st.misses + 1 }, s, none)
    | some e ↦ (count_hit st e.deleted, update s e hit, some (doc_of e))
  ]

  get_miss :
      (st : ReadStats) (s : Shard) (vbid : ℕ) (key : List ℕ)
      → find s (hash_key vbid key) (vb_key vbid key) ≡ none
      → answer (get hash_key st s vbid key) ≡ none
  unfolding get served
  get_miss st s vbid key h = ap (λ o. answer (served st s o)) h

  get_found :
      (st : ReadStats) (s : Shard) (vbid : ℕ) (key : List ℕ) (e : Entry)
      → find s (hash_key vbid key) (vb_key vbid key) ≡ some e
      → answer (get hash_key st s vbid key) ≡ some (doc_of e)
  unfolding get served
  get_found st s vbid key e h = ap (λ o. answer (served st s o)) h

  -- A read of a key that was just written answers with the value, the flags, the expiry, the datatype
  -- and the tombstone mark of the write and with sequence number 0, if the vbuckets are uint16_t,
  -- the key held nothing or one entry before, and its pending writes stay below 2 ^ 32: the eviction that the write starts cannot take it.
  pub get-put :
      (st : ReadStats) (s : Shard) (vbid : ℕ) (key value : List ℕ) (flags expiry datatype : ℕ)
      (deleted : Bool) (o : Option Entry)
      → vbid < 2 ^ 16
      → IsU16 o
      → carried o + 1 < 2 ^ 32
      → Holds hash_key s (vb_key vbid key) o
      → answer
          (get hash_key st (put hash_key s vbid key value flags expiry datatype deleted) vbid key)
        ≡ some (record {
          seqno = 0;
          flags = flags;
          expiry = expiry;
          datatype = datatype;
          deleted = deleted;
          value = value;
        })
  unfolding put
  get-put st s vbid key value flags expiry datatype deleted o hv ho hp v =
      let e : Entry = record {
        seqno = 0;
        flags = flags;
        expiry = expiry;
        pending = 0;
        vbid = vbid;
        datatype = datatype;
        deleted = deleted;
        freq = 0;
        queue = small_queue;
        shared_cap = none;
        key = key;
        value = value;
      } in
      let (f, q, held) = put_entry-Holds hash_key s e o hv ho hp v in
      let now = record e { pending = carried o + 1; freq = f; queue = q } in
      get_found st (put_entry hash_key s e) vbid key now
        (find-Holds hash_key (put_entry hash_key s e) (vb_key vbid key) now held)

  pub get-erase :
      (st : ReadStats) (s : Shard) (vbid : ℕ) (key : List ℕ) (o : Option Entry)
      → vbid < 2 ^ 16
      → IsU16 o
      → Holds hash_key s (vb_key vbid key) o
      → answer (get hash_key st (erase hash_key s vbid key) vbid key) ≡ none
  get-erase st s vbid key o hv ho v = get_miss st (erase hash_key s vbid key) vbid key (
      find-Holds-none hash_key (erase hash_key s vbid key) (vb_key vbid key) (hash_key vbid key)
        (erase-Holds hash_key s vbid key o hv ho v))
