-- ===== src/Cache/Shard.antt =====
-- `struct S3FifoCache::Shard` of server/cache/s3fifo_cache.cc: one shard, under its exclusive lock.
-- The index holds pairs of a hash and the map key of the entry that the slot points to: what the
-- shard relies on of `FlatIndex`, without its probing.
pub mod Rounds
pub mod Due
pub mod Ready
pub mod Settles
use fluxkv.Base.{
  ℕ, zero, suc, ◌+◌, ◌-◌, ◌*◌, ◌/◌, max, List, [], ◌∷◌, ◌++◌, Option, none, some, Bool, true, false,
  not, ◌&&◌, ◌||◌, if◌then◌else◌, ltb, ◌==◌, length, drop,
}
use fluxkv.Cache.Entry.{Entry, Queue, small_queue, main_queue, map_key, vb_key, pinned, bytes_eq}
use fluxkv.Cache.Fifo.{Fifo, push_head, remove, pop_tail, find_key}

abbrev pub max_freq : ℕ
max_freq = 3

abbrev pub small_percent : ℕ
small_percent = 10

pub record Shard : Type 0 where
  pub index : List (ℕ × List ℕ)
  pub small : Fifo
  pub main : Fifo
  pub ghost : List ℕ
  pub ghost_set : List ℕ
  pub budget : ℕ
  pub small_budget : ℕ
  pub puts : ℕ
  pub fills : ℕ
  pub evictions : ℕ
  pub ghost_hits : ℕ
  pub fills_deferred : ℕ
  pub pending_items : ℕ

-- `Shard::bytes`
abbrev pub bytes : Shard → ℕ
bytes s = s.small.bytes + s.main.bytes

-- The index: a slot matches by its hash and by the key of the entry behind it.
abbrev same_slot : ℕ → List ℕ → ℕ × List ℕ → Bool
same_slot h mk (h', mk') = (h' == h) && bytes_eq mk' mk

unfoldable pub index_has : ℕ → List ℕ → List (ℕ × List ℕ) → Bool
index_has h mk [] = false
index_has h mk (slot ∷ slots) = same_slot h mk slot || index_has h mk slots

unfoldable pub index_erase : ℕ → List ℕ → List (ℕ × List ℕ) → List (ℕ × List ℕ)
index_erase h mk [] = []
index_erase h mk (slot ∷ slots) =
    if same_slot h mk slot then slots else slot ∷ index_erase h mk slots

-- A set of hashes, `ghostSet`.
unfoldable pub contains : ℕ → List ℕ → Bool
contains h [] = false
contains h (x ∷ xs) = (x == h) || contains h xs

unfoldable pub set_erase : ℕ → List ℕ → List ℕ
set_erase h [] = []
set_erase h (x ∷ xs) = if x == h then xs else x ∷ set_erase h xs

-- `while (ghost.size() > cap)`: the front leaves the deque and the set. The deque is the recursion.
unfoldable pub ghost_trim : ℕ → List ℕ → List ℕ → List ℕ × List ℕ
ghost_trim cap [] set = ([], set)
ghost_trim cap (h ∷ ghost) set =
    let rest = ghost_trim cap ghost (set_erase h set) in
    if ltb cap (length (h ∷ ghost)) then rest else (h ∷ ghost, set)

-- `Shard::ghostAdd`
unfoldable pub ghost_add : Shard → ℕ → Shard
unfolding contains ghost_trim
ghost_add s h =
    if contains h s.ghost_set
    then s
    else (let (ghost, set) =
          ghost_trim (max 1024 s.main.count) (s.ghost ++ (h ∷ [])) (h ∷ s.ghost_set) in
        record s { ghost = ghost; ghost_set = set })

-- `Shard::find`: the entry that the index leads to, read through its pointer.
unfoldable pub find : Shard → ℕ → List ℕ → Option Entry
unfolding find_key
find s h mk = if index_has h mk s.index then find_key mk (s.small.items ++ s.main.items) else none

-- `Shard::unlink`
unfoldable pub unlink : Shard → Entry → Shard
unlink s e = elim e.queue [
  | small_queue ↦ record s { small = remove s.small e }
  | main_queue ↦ record s { main = remove s.main e }
]

-- `Shard::insert`
unfoldable pub insert : Shard → Entry → ℕ → Shard
insert s e h =
    let index = (h, map_key e) ∷ s.index in
    if contains h s.ghost_set
    then record s {
      main = push_head s.main (record e { queue = main_queue });
      ghost_hits = s.ghost_hits + 1;
      index = index;
    }
    else record s { small = push_head s.small (record e { queue = small_queue }); index = index }

-- The `tail` of a queue is no null pointer.
abbrev pub has_tail : Fifo → Bool
has_tail q = elim q.items [ [] ↦ false | e ∷ rest ↦ true ]

-- `hashKey` is SpookyHash over the key, seeded with the vbucket: code that is not part of this
-- repository, and a parameter here.
module _ (hash_key : ℕ → List ℕ → ℕ) where
  abbrev pub hash_of : Entry → ℕ
  hash_of e = hash_key e.vbid e.key

  -- `Shard::free`, of an entry that is out of its queue.
  unfoldable pub free : Shard → Entry → Shard
  free s e = record s {
    index = index_erase (hash_of e) (map_key e) s.index;
    pending_items = if pinned e then s.pending_items - 1 else s.pending_items;
  }

  -- What `evictSmall` does with the entry that it popped.
  unfoldable pub leave_small : Shard → Entry → Shard
  leave_small s e =
      if pinned e || ltb 1 e.freq
      then record s { main = push_head s.main (record e { freq = 0; queue = main_queue }) }
      else (let remembered = ghost_add s (hash_of e) in
          free (record remembered { evictions = remembered.evictions + 1 }) e)

  -- `Shard::evictSmall`, called with a small queue that is not empty.
  unfoldable pub evict_small : Shard → Shard
  unfolding leave_small pop_tail
  evict_small s = elim (pop_tail s.small) [
    | none ↦ s
    | some (e, small) ↦ leave_small (record s { small = small }) e
  ]

  -- What `evictMain` does with the entry that it popped.
  unfoldable pub leave_main : Shard → Entry → Shard
  leave_main s e =
      if pinned e || ltb 0 e.freq
      then record s { main = push_head s.main (record e { freq = e.freq - 1 }) }
      else free (record s { evictions = s.evictions + 1 }) e

  -- `Shard::evictMain`, called with a main queue that is not empty.
  unfoldable pub evict_main : Shard → Shard
  unfolding leave_main pop_tail
  evict_main s = elim (pop_tail s.main) [
    | none ↦ s
    | some (e, main) ↦ leave_main (record s { main = main }) e
  ]

  -- The body of the loop of `evict`; `none` is its `break`.
  unfoldable pub evict_round : Shard → Option Shard
  evict_round s =
      if ltb s.small_budget s.small.bytes && has_tail s.small
      then some (evict_small s)
      else (if has_tail s.main
          then some (evict_main s)
          else (if has_tail s.small then some (evict_small s) else none))

  -- `while (bytes() > budget && guard-- > 0)`
  unfoldable pub evict_loop : ℕ → Shard → Shard
  evict_loop zero s = s
  evict_loop (suc guard) s =
      if ltb s.budget (bytes s)
      then (elim (evict_round s) [ none ↦ s | some s' ↦ evict_loop guard s' ])
      else s

  -- `Shard::evict`
  unfoldable pub evict : Shard → Shard
  evict s = evict_loop ((max_freq + 1) * (s.small.count + s.main.count) + 1) s
