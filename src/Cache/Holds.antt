-- ===== src/Cache/Holds.antt =====
-- What a shard holds under a map key: nothing, or one entry that its queue and the index agree on.
pub mod Views
pub mod Small
pub mod Main
pub mod Evict
pub mod Steps
pub mod Under
pub mod Put
pub mod Erase
pub mod Lookup
pub mod Update
pub mod Mark
pub mod Filled
pub mod Kept
pub mod Reach
use fluxkv.Base.{
  ℕ, ◌-◌, ◌≤◌, ◌≡◌, refl, ap, sym, ◌∙◌, ◌⊎◌, Bool, true, false, ◌&&◌, ◌||◌, List, [], ◌∷◌, ◌++◌,
  Option, none, some, inl, inr, arith, if◌then◌else◌, Bool-cases, ltb,
}
use fluxkv.Cache.Entry.{
  Entry, Queue, small_queue, main_queue, map_key, bytes_eq, eq_of_bytes_eq, pinned,
}
use fluxkv.Cache.Fifo.{Fifo, push_head, find_key}
use fluxkv.Cache.Shard.{
  Shard, find, index_has, index_erase, hash_of, ghost_add, free, leave_small, leave_main,
  evict_small, evict_main, evict_round, evict_loop, evict, has_tail,
}
use fluxkv.Cache.Shard.Rounds.{popped, ghost_add_frame}
use fluxkv.Cache.Keys.{
  matching, slots_of, matching_hit, matching_miss, matching-nil, matching-append, find_key-matching,
  find_key-none, other_key, index_has-slots_of, index_has_none, slots_of-index_erase_ne,
  slots_of-index_erase_self,
}

-- Where the one entry `e` under `mk` is: alone in the queue that its tag names.
abbrev pub InQueue : List ℕ → Fifo → Fifo → Entry → Queue → Type 0
InQueue mk small main e small_queue =
    (matching mk small.items ≡ e ∷ []) × (matching mk main.items ≡ [])
InQueue mk small main e main_queue =
    (matching mk small.items ≡ []) × (matching mk main.items ≡ e ∷ [])

module _ (hash_key : ℕ → List ℕ → ℕ) where
  abbrev pub Holds : Shard → List ℕ → Option Entry → Type 0
  Holds s mk none =
      (matching mk s.small.items ≡ [])
      × (matching mk s.main.items ≡ [])
      × (slots_of mk s.index ≡ [])
  Holds s mk (some e) =
      (bytes_eq (map_key e) mk ≡ true)
      × (slots_of mk s.index ≡ (hash_of hash_key e, map_key e) ∷ [])
      × InQueue mk s.small s.main e e.queue

  find-InQueue :
      (mk : List ℕ) (small main : Fifo) (e : Entry) (q : Queue)
      → InQueue mk small main e q
      → find_key mk (small.items ++ main.items) ≡ some e
  find-InQueue mk small main e small_queue (hs, hm) =
      find_key-matching mk _ e [] (matching-append mk small.items main.items ∙ rw (hs, hm) refl)
  find-InQueue mk small main e main_queue (hs, hm) =
      find_key-matching mk _ e [] (matching-append mk small.items main.items ∙ rw (hs, hm) refl)

  -- `find` answers what is held.
  pub find-Holds :
      (s : Shard) (mk : List ℕ) (e : Entry)
      → Holds s mk (some e)
      → find s (hash_of hash_key e) mk ≡ some e
  unfolding find
  find-Holds s mk e (same, slot, place) =
      rw (index_has-slots_of mk s.index _ _ [] slot)
        (find-InQueue mk s.small s.main e e.queue place)

  pub find-Holds-none : (s : Shard) (mk : List ℕ) (h : ℕ) → Holds s mk none → find s h mk ≡ none
  unfolding find
  find-Holds-none s mk h (hs, hm, slot) = rw (index_has_none mk s.index h slot) refl

-- What eviction may do to the entry under a key: change its queue and take hits from it, or, if no write of it
-- is pending, drop it.
pub data Keeps : Option Entry → Option Entry → Type 0 where
  still_none : Keeps none none
  kept :
      (e : Entry) (freq : ℕ) (queue : Queue)
      → freq ≤ e.freq
      → Keeps (some e) (some (record e { freq = freq; queue = queue }))
  dropped : (e : Entry) → pinned e ≡ false → Keeps (some e) none

pub Keeps-refl : (o : Option Entry) → Keeps o o
Keeps-refl none = still_none
Keeps-refl (some e) = kept e e.freq e.queue (omega arith)

pub Keeps-trans : (a b c : Option Entry) → Keeps a b → Keeps b c → Keeps a c
Keeps-trans a b c still_none k = k
Keeps-trans a b c (kept e f q h) (kept _ f' q' h') = kept e f' q' (omega (arith, h, h'))
Keeps-trans a b c (kept e f q h) (dropped _ free) = dropped e free
Keeps-trans a b c (dropped e free) still_none = dropped e free
