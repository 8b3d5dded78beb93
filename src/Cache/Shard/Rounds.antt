-- ===== src/Cache/Shard/Rounds.antt =====
-- What one round of the eviction loop does to the two queues.
use fluxkv.Base.{ℕ, ◌-◌, ◌<◌, ◌≡◌, ◌⊎◌, true, false, List, ◌∷◌, arith}
use fluxkv.Cache.Entry.{Entry, main_queue, charge, map_key, pinned}
use fluxkv.Cache.Fifo.{Fifo, push_head}
use fluxkv.Cache.Shard.{
  Shard, ghost_add, free, leave_small, leave_main, evict_small, evict_main, hash_of, index_erase,
}

abbrev pub popped : Fifo → Entry → List Entry → Fifo
popped q e rest = record { items = rest; bytes = q.bytes - charge e; count = q.count - 1 }

-- The parts of a shard that eviction leaves alone.
pub record SameLimits (s s' : Shard) : Type 0 where
  pub budget : s'.budget ≡ s.budget
  pub small_budget : s'.small_budget ≡ s.small_budget

-- The oldest entry `e` of small has left it: for main, or for good.
pub record SmallRound (h : ℕ) (s s' : Shard) (e : Entry) (rest : List Entry) : Type 0 where
  pub limits : SameLimits s s'
  pub small : s'.small ≡ popped s.small e rest
  pub main :
      ((s'.main ≡ push_head s.main (record e { freq = 0; queue = main_queue }))
        × (s'.index ≡ s.index))
      ⊎ ((s'.main ≡ s.main) × (pinned e ≡ false) × (s'.index ≡ index_erase h (map_key e) s.index))

-- The oldest entry `e` of main has gone round, one hit poorer, or for good.
pub record MainRound (h : ℕ) (s s' : Shard) (e : Entry) (rest : List Entry) : Type 0 where
  pub limits : SameLimits s s'
  pub small : s'.small ≡ s.small
  pub main :
      ((s'.main ≡ push_head (popped s.main e rest) (record e { freq = e.freq - 1 }))
        × ((pinned e ≡ true) ⊎ (0 < e.freq))
        × (s'.index ≡ s.index))
      ⊎ ((s'.main ≡ popped s.main e rest)
          × (pinned e ≡ false)
          × (s'.index ≡ index_erase h (map_key e) s.index))

pub ghost_add_frame :
    (s : Shard) (h : ℕ)
    → ((ghost_add s h).small ≡ s.small)
      × ((ghost_add s h).main ≡ s.main)
      × ((ghost_add s h).index ≡ s.index)
      × ((ghost_add s h).budget ≡ s.budget)
      × ((ghost_add s h).small_budget ≡ s.small_budget)
unfolding ghost_add
ghost_add_frame s h = ground arith

module _ (hash_key : ℕ → List ℕ → ℕ) where
  pub evict_small-SmallRound :
      (s : Shard) (e : Entry) (rest : List Entry)
      → s.small.items ≡ e ∷ rest
      → SmallRound (hash_of hash_key e) s (evict_small hash_key s) e rest
  unfolding evict_small leave_small free
  evict_small-SmallRound s e rest h =
      let t = record s { small = popped s.small e rest } in
      ground (arith, ghost_add_frame t (hash_of hash_key e))

  pub evict_main-MainRound :
      (s : Shard) (e : Entry) (rest : List Entry)
      → s.main.items ≡ e ∷ rest
      → MainRound (hash_of hash_key e) s (evict_main hash_key s) e rest
  unfolding evict_main leave_main free
  evict_main-MainRound s e rest h = ground arith
