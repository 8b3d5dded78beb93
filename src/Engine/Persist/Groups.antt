-- ===== src/Engine/Persist/Groups.antt =====
-- The chains of the durable notifier against the batch that they are made of.
use fluxkv.Base.{ℕ, ◌+◌, ◌≡◌, refl, ap, ◌∙◌, inl, inr, Bool, List, [], ◌∷◌, arith, ◌==◌, Bool-cases}
use fluxkv.Engine.Request.{Request}
use fluxkv.Engine.Batch.{sort, insert_sorted}
use fluxkv.Engine.Persist.{Parked, add_run, owner_runs, park_runs}
use fluxkv.Engine.Persist.Weights.{weigh, weigh-append}
use fluxkv.Engine.Persist.Waiting.{parked_weight, parked_weight-append}
use mathlib.Core.List.{reverse, reverse-append}

weigh-insert_sorted :
    (f : Request → ℕ) (less : Request → Request → Bool) (r : Request) (l : List Request)
    → weigh f (insert_sorted less r l) ≡ f r + weigh f l
unfolding insert_sorted weigh
weigh-insert_sorted f less r [] = refl
weigh-insert_sorted f less r (q ∷ l) = elim (Bool-cases (less q r)) [
  | inl later ↦ rw later (omega (arith, weigh-insert_sorted f less r l))
  | inr first ↦ rw first refl
]

weigh-sorted :
    (f : Request → ℕ) (less : Request → Request → Bool) (l : List Request)
    → weigh f (sort less l) ≡ weigh f l
unfolding sort weigh
weigh-sorted f less [] = refl
weigh-sorted f less (r ∷ l) =
    weigh-insert_sorted f less r (sort less l) ∙ ap (λ n. f r + n) (weigh-sorted f less l)

runs_weight : (Request → ℕ) → List (ℕ × List Request) → ℕ
runs_weight f [] = 0
runs_weight f (p ∷ ps) = weigh f p.1 + runs_weight f ps

add_run-weight :
    (f : Request → ℕ) (owner : Request → ℕ) (r : Request) (gs : List (ℕ × List Request))
    → runs_weight f (add_run owner r gs) ≡ f r + runs_weight f gs
unfolding add_run runs_weight weigh
add_run-weight f owner r [] = omega arith
add_run-weight f owner r ((t, g) ∷ gs) = elim (Bool-cases (owner r == t)) [
  | inl same ↦ rw same (omega arith)
  | inr other ↦ rw other (omega arith)
]

owner_runs-weight :
    (f : Request → ℕ) (owner : Request → ℕ) (l : List Request)
    → runs_weight f (owner_runs owner l) ≡ weigh f l
unfolding owner_runs runs_weight weigh
owner_runs-weight f owner [] = refl
owner_runs-weight f owner (r ∷ l) =
    add_run-weight f owner r (owner_runs owner l) ∙ ap (λ n. f r + n) (owner_runs-weight f owner l)

parks-weight :
    (f : Request → ℕ) (lsn : ℕ) (gs : List (ℕ × List Request))
    → parked_weight f (park_runs lsn gs).0 + weigh f (park_runs lsn gs).1 ≡ runs_weight f gs
unfolding park_runs runs_weight parked_weight weigh
parks-weight f lsn [] = refl
parks-weight f lsn ((t, g) ∷ gs) =
    let rest = park_runs lsn gs in
    elim (Bool-cases (t == 0)) [
      | inl orphan ↦ rw orphan (omega (arith, parks-weight f lsn gs, weigh-append f g rest.1))
      | inr owned ↦ rw owned (omega (arith, parks-weight f lsn gs))
    ]

-- The requests that are parked and those that no loop owns are the batch.
pub park_runs-weight :
    (f : Request → ℕ) (lsn : ℕ) (owner : Request → ℕ) (less : Request → Request → Bool)
    (l : List Request)
    → parked_weight f (park_runs lsn (owner_runs owner (sort less l))).0
        + weigh f (park_runs lsn (owner_runs owner (sort less l))).1
      ≡ weigh f l
park_runs-weight f lsn owner less l =
    parks-weight f lsn (owner_runs owner (sort less l))
    ∙ (owner_runs-weight f owner (sort less l) ∙ weigh-sorted f less l)

pub parked_weight-reverse :
    (f : Request → ℕ) (ps : List Parked) → parked_weight f (reverse ps) ≡ parked_weight f ps
unfolding parked_weight
parked_weight-reverse f [] = refl
parked_weight-reverse f (p ∷ ps) =
    rw (reverse-append (p ∷ []) ps)
      (omega (arith, parked_weight-append f (reverse ps) (p ∷ []), parked_weight-reverse f ps))
