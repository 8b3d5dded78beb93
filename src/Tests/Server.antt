-- ===== src/Tests/Server.antt =====
-- Three loops with five, no and one connection: the plan of `rebalance` levels them.
use fluxkv.Base.{ℕ, ◌<◌, ◌≡◌, refl, true, false, some, arith, List, [], ◌∷◌}
use fluxkv.Server.Pool.{IoThread, level_loop, pick_io_thread, plan_moves}
use fluxkv.Server.Level
use fluxkv.Server.Level.{IsLevel, sum, squares, moved}

abbrev loads : List ℕ
loads = 5 ∷ 0 ∷ 1 ∷ []

abbrev loop : ℕ → IoThread
loop n = record { conn_count = n; pending = 0; retiring = false }

level_run : level_loop 27 loads [] ≡ some (2 ∷ 2 ∷ 2 ∷ [], (0, 1) ∷ (0, 1) ∷ (0, 2) ∷ [])
unfolding level_loop
level_run = refl

pick_run :
    pick_io_thread (record (loop 0) { retiring = true } ∷ loop 4 ∷ loop 2 ∷ [])
    ≡ (some 2, record (loop 0) { retiring = true } ∷ loop 4 ∷ record (loop 2) { pending = 1 } ∷ [])
unfolding pick_io_thread
pick_run = refl

-- With room for two on each, the third of four moves finds no destination.
plan_run : (plan_moves 4 (loop 1 ∷ loop 1 ∷ []) 2).0 ≡ 0 ∷ 1 ∷ []
unfolding plan_moves
plan_run = refl

squares-loads : squares loads < 27
unfolding squares
squares-loads = omega arith

level_loop-IsLevel_example :
    (last : List ℕ) × (moves : List (ℕ × ℕ)) × (level_loop 27 loads [] ≡ some (last, moves))
    × IsLevel last
    × (sum last ≡ sum loads)
    × (moved moves loads ≡ last)
level_loop-IsLevel_example = Level.level_loop-IsLevel 27 loads (omega arith) squares-loads
