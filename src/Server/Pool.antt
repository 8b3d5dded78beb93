-- ===== src/Server/Pool.antt =====
-- `pickIOThread`, `planMoves` and the plan of `rebalance` of server/server.cc, over the counters of `IOThread`
-- of server/iothread.h. A thread is told by its place in the list that the code walks.
use fluxkv.Base.{
  ℕ, zero, suc, ◌+◌, ◌-◌, Bool, List, [], ◌∷◌, ◌++◌, Option, none, some, map, drop, set, get_or,
  ltb, leb, if◌then◌else◌,
}

-- The counters of `IOThread` that decide where connections go.
pub record IoThread : Type 0 where
  pub conn_count : ℕ
  pub pending : ℕ
  pub retiring : Bool

-- `Load`
abbrev pub load : IoThread → ℕ
load t = t.conn_count + t.pending

-- `Reserve`
unfoldable pub reserve : IoThread → IoThread
reserve t = record t { pending = t.pending + 1 }

-- The loop of `pickIOThread`: the place and the load of the best thread from the place `i` on.
unfoldable pub pick_loop : ℕ → List IoThread → Option (ℕ × ℕ) → Option (ℕ × ℕ)
pick_loop i [] best = best
pick_loop i (t ∷ ts) best = pick_loop (suc i) ts (
    if t.retiring then best else elim best [
      | none ↦ some (i, load t)
      | some (j, least) ↦ if ltb (load t) least then some (i, load t) else some (j, least)
    ])

reserve_at : ℕ → List IoThread → List IoThread
unfolding reserve
reserve_at i [] = []
reserve_at zero (t ∷ ts) = reserve t ∷ ts
reserve_at (suc i) (t ∷ ts) = t ∷ reserve_at i ts

-- `pickIOThread`
unfoldable pub pick_io_thread : List IoThread → Option ℕ × List IoThread
unfolding pick_loop reserve_at
pick_io_thread ts = elim (pick_loop 0 ts none) [
  | none ↦ (none, ts)
  | some (i, least) ↦ (some i, reserve_at i ts)
]

-- `std::min_element` and `std::max_element` of a list that is not empty: the first place of an element that no
-- other is better than, and that element.
module _ (better : ℕ → ℕ → Bool) where
  unfoldable pub best_loop : ℕ → List ℕ → ℕ → ℕ → ℕ × ℕ
  best_loop i [] place best = (place, best)
  best_loop i (x ∷ xs) place best =
      best_loop (suc i) xs (if better x best then i else place) (if better x best then x else best)

  unfoldable pub best_element : List ℕ → ℕ × ℕ
  unfolding best_loop
  best_element xs = best_loop 1 (drop 1 xs) 0 (get_or xs 0 0)

abbrev pub less : ℕ → ℕ → Bool
less a b = ltb a b

abbrev pub greater : ℕ → ℕ → Bool
greater a b = ltb b a

-- `planMoves`: the destinations in order, and the threads with their reservations.
unfoldable pub plan_moves : ℕ → List IoThread → ℕ → List ℕ × List IoThread
unfolding best_element reserve_at
plan_moves zero to fill_to = ([], to)
plan_moves (suc k) [] fill_to = ([], [])
plan_moves (suc k) (t ∷ ts) fill_to =
    let (dest, least) = best_element less (map load (t ∷ ts)) in
    let (dests, reserved) = plan_moves k (reserve_at dest (t ∷ ts)) fill_to in
    if leb fill_to least then ([], t ∷ ts) else (dest ∷ dests, reserved)

-- One round of the loop of `rebalance` on `load`, from the place of the maximum to that of the minimum.
unfoldable pub level_once : List ℕ → ℕ × ℕ → ℕ × ℕ → List ℕ
level_once loads (fullest, most) (emptiest, least) =
    set (set loads fullest (most - 1)) emptiest (least + 1)

-- The loop of `rebalance`: the loads that are planned, and the moves as pairs of places. It has fuel.
unfoldable pub level_loop : ℕ → List ℕ → List (ℕ × ℕ) → Option (List ℕ × List (ℕ × ℕ))
unfolding best_element level_once
level_loop zero loads moves = none
level_loop (suc fuel) loads moves =
    let top = best_element greater loads in
    let bottom = best_element less loads in
    let rest = level_loop fuel (level_once loads top bottom) (moves ++ ((top.0, bottom.0) ∷ [])) in
    if leb top.1 (bottom.1 + 1) then some (loads, moves) else rest
