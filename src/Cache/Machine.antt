-- ===== src/Cache/Machine.antt =====
-- The shard as a state machine: any sequence of the locked parts of the cache's operations, whichever
-- threads they come from.
use fluxkv.Base.{ℕ, ◌*◌, ◌/◌, ◌^◌, ◌<◌, ◌≡◌, Bool, List, [], Option, some}
use fluxkv.Cache.Entry.{Entry}
use fluxkv.Cache.Fifo.{empty}
use fluxkv.Cache.Shard.{Shard, evict, small_percent}
use fluxkv.Cache.Ops.{ReadStats, CachedDoc, get, put_entry, erase, set_budget}
use fluxkv.Cache.Fill.{fill_insert, fill_defer, mark_applied}

-- A shard as the constructor of the cache leaves it, with its part of the budget.
abbrev pub new_shard : ℕ → Shard
new_shard per_shard = record {
  index = [];
  small = empty;
  main = empty;
  ghost = [];
  ghost_set = [];
  budget = per_shard;
  small_budget = per_shard * small_percent / 100;
  puts = 0;
  fills = 0;
  evictions = 0;
  ghost_hits = 0;
  fills_deferred = 0;
  pending_items = 0;
}

abbrev pub shard_of : ReadStats × Shard × Option CachedDoc → Shard
shard_of (st, s, d) = s

abbrev pub marked : Shard × Bool → Shard
marked (s, over_budget) = s

abbrev pub filled : ReadStats × Shard → Shard
filled (st, s) = s

module _ (hash_key : ℕ → List ℕ → ℕ) where
  -- The vbucket of an operation is a uint16_t. `trims` is the last part of `MarkPersisted`.
  pub data Step : Shard → Shard → Type 0 where
    puts_entry : (s : Shard) (e : Entry) → e.vbid < 2 ^ 16 → Step s (put_entry hash_key s e)
    fills_entry :
        (st : ReadStats) (s : Shard) (e : Entry)
        → e.vbid < 2 ^ 16
        → Step s (filled (fill_insert hash_key st s e))
    defers :
        (s s' : Shard) (doorkeeper : Bool) (h : ℕ)
        → fill_defer hash_key doorkeeper s h ≡ some s'
        → Step s s'
    reads :
        (st : ReadStats) (s : Shard) (vbid : ℕ) (key : List ℕ)
        → vbid < 2 ^ 16
        → Step s (shard_of (get hash_key st s vbid key))
    marks :
        (s : Shard) (vbid : ℕ) (key : List ℕ) (seqno : ℕ)
        → vbid < 2 ^ 16
        → Step s (marked (mark_applied hash_key s vbid key seqno))
    trims : (s : Shard) → Step s (evict hash_key s)
    erases :
        (s : Shard) (vbid : ℕ) (key : List ℕ) → vbid < 2 ^ 16 → Step s (erase hash_key s vbid key)
    budgets : (s : Shard) (per_shard : ℕ) → Step s (set_budget hash_key s per_shard)

  pub data Reachable : Shard → Type 0 where
    starts : (per_shard : ℕ) → Reachable (new_shard per_shard)
    steps : (s s' : Shard) → Reachable s → Step s s' → Reachable s'
