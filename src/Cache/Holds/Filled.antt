-- ===== src/Cache/Holds/Filled.antt =====
-- The last locked part of `PutIfAbsent`, seen from its key and from the others.
use fluxkv.Base.{ℕ, ◌+◌, ◌^◌, ◌<◌, ◌≡◌, refl, ap, sym, subst, false, List, Option, none, some}
use fluxkv.Cache.Entry.{Entry, Queue, map_key, bytes_eq}
use fluxkv.Cache.Shard.{Shard, find, insert, evict, hash_of}
use fluxkv.Cache.Holds.{Holds, find-Holds-none, Keeps-refl}
use fluxkv.Cache.Holds.Views.{Holds-same, Outcome}
use fluxkv.Cache.Holds.Evict.{evict-Holds}
use fluxkv.Cache.Holds.Steps.{IsU16, insert-Holds, insert-Holds_other}
use fluxkv.Cache.Holds.Under.{find_under}
use fluxkv.Cache.Ops.{ReadStats}
use fluxkv.Cache.Fill.{fill_insert}

module _ (hash_key : ℕ → List ℕ → ℕ) where
  -- With an entry under the key the fill is rejected and counted; with none it goes in, with all its
  -- contents, and may be evicted at once, since no write of it is pending.
  abbrev pub Filled : ReadStats → Shard → Entry → Option Entry → Type 0
  Filled st s e none =
      ((fill_insert hash_key st s e).0 ≡ st)
      × (q : Queue) × Outcome hash_key (fill_insert hash_key st s e).1 (map_key e)
          (some (record e { queue = q }))
  Filled st s e (some present) =
      fill_insert hash_key st s e ≡ (record st { fills_rejected = st.fills_rejected + 1 }, s)

  -- The shard that an insert leaves, with the fill counted.
  counted_fill : Shard → Entry → Shard
  counted_fill s e =
      let inserted = insert s e (hash_of hash_key e) in
      record inserted { fills = inserted.fills + 1 }

  answer_fill : ReadStats → Shard → Entry → Option Entry → ReadStats × Shard
  answer_fill st s e o = elim o [
    | none ↦ (st, evict hash_key (counted_fill s e))
    | some present ↦ (record st { fills_rejected = st.fills_rejected + 1 }, s)
  ]

  found_fill :
      (st : ReadStats) (s : Shard) (e : Entry) (o : Option Entry)
      → find s (hash_of hash_key e) (map_key e) ≡ o
      → fill_insert hash_key st s e ≡ answer_fill st s e o
  unfolding fill_insert answer_fill counted_fill
  found_fill st s e o h = ap (answer_fill st s e) h

  found_none :
      (st : ReadStats) (s : Shard) (e : Entry)
      → Holds hash_key s (map_key e) none
      → fill_insert hash_key st s e ≡ (st, evict hash_key (counted_fill s e))
  unfolding answer_fill
  found_none st s e v =
      found_fill st s e none (find-Holds-none hash_key s (map_key e) (hash_of hash_key e) v)

  found_some :
      (st : ReadStats) (s : Shard) (e present : Entry)
      → e.vbid < 2 ^ 16
      → present.vbid < 2 ^ 16
      → Holds hash_key s (map_key e) (some present)
      → fill_insert hash_key st s e ≡ (record st { fills_rejected = st.fills_rejected + 1 }, s)
  unfolding answer_fill
  found_some st s e present he hp v =
      found_fill st s e (some present) (find_under hash_key s e.vbid e.key present he hp v)

  counted_fill-Holds :
      (s : Shard) (e : Entry)
      → Holds hash_key s (map_key e) none
      → (q : Queue) × Outcome hash_key
          (evict hash_key (counted_fill s e))
          (map_key e)
          (some (record e { queue = q }))
  unfolding counted_fill
  counted_fill-Holds s e v =
      let (q, held) = insert-Holds hash_key s e v in
      (q, evict-Holds hash_key (map_key e) (counted_fill s e) (some (record e { queue = q })) held)

  counted_fill-Holds_other :
      (s : Shard) (e : Entry) (mk : List ℕ) (x : Option Entry)
      → bytes_eq (map_key e) mk ≡ false
      → Holds hash_key s mk x
      → Outcome hash_key (evict hash_key (counted_fill s e)) mk x
  unfolding counted_fill
  counted_fill-Holds_other s e mk x other v =
      let inserted = insert s e (hash_of hash_key e) in
      let held = insert-Holds_other hash_key s e mk x other v in
      evict-Holds hash_key mk (counted_fill s e) x
        (Holds-same hash_key inserted (counted_fill s e) mk x refl refl refl held)

  -- Whatever came under the key since `PutIfAbsent` looked first, its last locked part never replaces it:
  -- with an entry under the key the shard stays as it is and a rejected fill is counted; with none the fill is
  -- held there with all its contents, in some queue, where the eviction that follows may take hits from it or
  -- drop it if it is not pinned. What is held under another key keeps its contents, or is evicted if no write
  -- of it is pending. The vbuckets are uint16_t.
  pub fill_insert-Holds :
      (st : ReadStats) (s : Shard) (e : Entry) (o : Option Entry) (mk : List ℕ) (x : Option Entry)
      → e.vbid < 2 ^ 16
      → IsU16 o
      → Holds hash_key s (map_key e) o
      → bytes_eq (map_key e) mk ≡ false
      → Holds hash_key s mk x
      → Filled st s e o × Outcome hash_key (fill_insert hash_key st s e).1 mk x
  fill_insert-Holds st s e none mk x he ho v other vx =
      let new = found_none st s e v in
      let (q, now) = counted_fill-Holds s e v in
      (
        (
          ap (λ (r : ReadStats × Shard). r.0) new,
          q,
          subst
              (λ (r : ReadStats × Shard).
                Outcome hash_key r.1 (map_key e) (some (record e { queue = q })))
              (sym new) now,
        ),
        subst (λ (r : ReadStats × Shard). Outcome hash_key r.1 mk x) (sym new)
            (counted_fill-Holds_other s e mk x other vx),
      )
  fill_insert-Holds st s e (some present) mk x he ho v other vx =
      let same = found_some st s e present he ho v in
      (
        same,
        subst (λ (r : ReadStats × Shard). Outcome hash_key r.1 mk x) (sym same)
            (x, vx, Keeps-refl x),
      )
