-- ===== src/Server/Level.antt =====
-- The loop of `rebalance` of server/server.cc stops, with the loads level.
use fluxkv.Base.{
  ℕ, zero, suc, ◌+◌, ◌-◌, ◌*◌, ◌≤◌, ◌<◌, ◌≡◌, ◌≢◌, refl, ap, ◌∙◌, inl, inr, false, List, [], ◌∷◌,
  ◌++◌, Option, some, arith, length, set, get_or, ltb, leb, All, length-set, leb→le, Bool-cases,
}
use native.Mathlib.Nat.{add-mul, mul-add}
use fluxkv.Server.Pool.{best_element, less, greater, level_once, level_loop}
use fluxkv.Server.Best.{best_element-found, min_chain, min_stays, max_chain, max_stays, irreflexive}

unfoldable pub sum : List ℕ → ℕ
sum [] = 0
sum (x ∷ xs) = x + sum xs

unfoldable pub squares : List ℕ → ℕ
squares [] = 0
squares (x ∷ xs) = x * x + squares xs

sum-set : (l : List ℕ) (i v : ℕ) → i < length l → sum (set l i v) + get_or l i 0 ≡ sum l + v
unfolding sum
sum-set [] i v h = absurd (omega arith)
sum-set (x ∷ l) zero v h = omega arith
sum-set (x ∷ l) (suc i) v h = omega (arith, sum-set l i v (omega arith))

squares-set :
    (l : List ℕ) (i v : ℕ)
    → i < length l
    → squares (set l i v) + get_or l i 0 * get_or l i 0 ≡ squares l + v * v
unfolding squares
squares-set [] i v h = absurd (omega arith)
squares-set (x ∷ l) zero v h = omega arith
squares-set (x ∷ l) (suc i) v h = omega (arith, squares-set l i v (omega arith))

get_or-set_ne : (l : List ℕ) (i j v : ℕ) → i ≢ j → get_or (set l i v) j 0 ≡ get_or l j 0
get_or-set_ne [] i j v h = refl
get_or-set_ne (x ∷ l) zero zero v h = absurd (h refl)
get_or-set_ne (x ∷ l) zero (suc j) v h = refl
get_or-set_ne (x ∷ l) (suc i) zero v h = refl
get_or-set_ne (x ∷ l) (suc i) (suc j) v h = get_or-set_ne l i j v (λ e. h (ap suc e))

square_down : (h : ℕ) → 0 < h → h * h + 1 ≡ (h - 1) * (h - 1) + 2 * h
square_down zero h = absurd (omega arith)
square_down (suc m) h = let less_one : suc m - 1 ≡ m = omega arith in rw less_one (omega arith)

square_up : (l : ℕ) → (l + 1) * (l + 1) ≡ l * l + 2 * l + 1
square_up l = rw (add-mul l 1 (l + 1)) (omega (arith, mul-add l l 1))

-- A move from a load of two more than another keeps the sum and makes the squares smaller.
level_once-smaller :
    (l : List ℕ) (i j high low : ℕ)
    → i < length l
    → j < length l
    → get_or l i 0 ≡ high
    → get_or l j 0 ≡ low
    → low + 2 ≤ high
    → (sum (level_once l (i, high) (j, low)) ≡ sum l)
      × (squares (level_once l (i, high) (j, low)) < squares l)
unfolding level_once
level_once-smaller l i j high low hi hj at_i at_j more =
    let apart : i ≢ j =
      λ e. absurd (let same = ap (λ k. get_or l k 0) e in omega (arith, same, at_i, at_j)) in
    let first = set l i (high - 1) in
    let kept : get_or first j 0 ≡ low = get_or-set_ne l i j (high - 1) apart ∙ at_j in
    let inside : j < length first = rw length-set hj in
    let sums = rw at_i at (sum-set l i (high - 1) hi) in
    let sums_after = rw kept at (sum-set first j (low + 1) inside) in
    let sq = rw at_i at (squares-set l i (high - 1) hi) in
    let sq_after = rw kept at (squares-set first j (low + 1) inside) in
    (
      omega (arith, sums, sums_after),
      omega (arith, sq, sq_after, square_down high (omega arith), square_up low),
    )

-- All loads lie between a least one and one more.
abbrev pub IsLevel : List ℕ → Type 0
IsLevel l = (least : ℕ) × All (λ x. (least ≤ x) × (x ≤ least + 1)) l

-- Every move, applied to the loads in order.
unfoldable pub moved : List (ℕ × ℕ) → List ℕ → List ℕ
moved [] l = l
moved ((i, j) ∷ moves) l = moved moves (level_once l (i, get_or l i 0) (j, get_or l j 0))

moved-snoc :
    (moves : List (ℕ × ℕ)) (i j : ℕ) (start : List ℕ)
    → moved (moves ++ ((i, j) ∷ [])) start
      ≡ (let l : List ℕ = moved moves start in level_once l (i, get_or l i 0) (j, get_or l j 0))
unfolding moved
moved-snoc [] i j start = refl
moved-snoc ((a, b) ∷ moves) i j start = moved-snoc moves i j _

between :
    (high low : ℕ) (l : List ℕ)
    → high ≤ low + 1
    → All (λ x. ltb high x ≡ false) l
    → All (λ x. ltb x low ≡ false) l
    → All (λ x. (low ≤ x) × (x ≤ low + 1)) l
between high low [] h a b = tt
between high low (x ∷ l) h (hx, a) (hy, b) =
    ((ground arith, ground arith), between high low l h a b)

length-level_once : (l : List ℕ) (top bottom : ℕ × ℕ) → length (level_once l top bottom) ≡ length l
unfolding level_once
length-level_once l (i, high) (j, low) =
    length-set (set l i (high - 1)) j (low + 1) ∙ length-set l i (high - 1)

-- The loop from the loads `l`, which `moves` made of `start`.
Levels : List ℕ → List ℕ → Option (List ℕ × List (ℕ × ℕ)) → Type 0
Levels start l o =
    (last : List ℕ) × (moves : List (ℕ × ℕ)) × (o ≡ some (last, moves))
    × IsLevel last
    × (sum last ≡ sum l)
    × (moved moves start ≡ last)

level_loop-Levels :
    (fuel : ℕ) (l start : List ℕ) (moves : List (ℕ × ℕ))
    → 0 < length l
    → squares l < fuel
    → moved moves start ≡ l
    → Levels start l (level_loop fuel l moves)
unfolding level_loop Levels
level_loop-Levels zero l start moves some_load enough made = absurd (omega arith)
level_loop-Levels (suc fuel) l start moves some_load enough made =
    let (i, high) = best_element greater l in
    let (j, low) = best_element less l in
    let (hi, at_i, top) = best_element-found greater max_chain max_stays irreflexive l some_load in
    let (hj, at_j, bottom) = best_element-found less min_chain min_stays irreflexive l some_load in
    elim (Bool-cases (leb high (low + 1))) [
      | inl level ↦ (
        l,
        moves,
        rw level refl,
        (low, between high low l (leb→le high (low + 1) level) top bottom),
        refl,
        made,
      )
      | inr uneven ↦
          let next = level_once l (i, high) (j, low) in
          let (sums, smaller) = level_once-smaller l i j high low hi hj at_i at_j (ground arith) in
          let made_next : moved (moves ++ ((i, j) ∷ [])) start ≡ next =
            moved-snoc moves i j start ∙ rw (made, at_i, at_j) refl in
          let (last, all, stops, level, same, path) =
            level_loop-Levels fuel next start (moves ++ ((i, j) ∷ []))
              (rw (length-level_once l (i, high) (j, low)) some_load) (omega (arith, smaller))
              made_next in
          (last, all, rw uneven stops, level, same ∙ sums, path)
    ]

-- With at least one live loop and more rounds than the sum of the squares of the loads: the loop of
-- `rebalance` stops by itself; the loads that it plans for lie within one of each other and have the sum of
-- the loads that it found; and the moves that it plans, each from its loop to its destination in order, turn
-- the loads that it found into these.
pub level_loop-IsLevel :
    (fuel : ℕ) (loads : List ℕ)
    → 0 < length loads
    → squares loads < fuel
    → (last : List ℕ) × (moves : List (ℕ × ℕ)) × (level_loop fuel loads [] ≡ some (last, moves))
      × IsLevel last
      × (sum last ≡ sum loads)
      × (moved moves loads ≡ last)
unfolding Levels moved
level_loop-IsLevel fuel loads some_load enough =
    level_loop-Levels fuel loads loads [] some_load enough refl
