-- ===== src/Engine/Persist/Weights.antt =====
-- What a batch weighs, by any measure of its requests, it weighs after `executePersist` has split it.
use fluxkv.Base.{ℕ, ◌+◌, ◌≡◌, refl, ap, ◌∙◌, inl, inr, Bool, List, [], ◌∷◌, ◌++◌, arith, Bool-cases}
use fluxkv.Engine.Request.{Request}
use fluxkv.Engine.Batch.{sort, insert_sorted, prepare, BatchSort, does_sort}
use fluxkv.Engine.Batch.KeyOrder.{before}
use fluxkv.Engine.Batch.Sorting.{requests, numbered, requests-numbered}
use fluxkv.Engine.Batch.Runs.{runs, is_followed}
use fluxkv.Engine.Batch.Newest.{IsBatch, sort_batch-runs}

module _ (f : Request → ℕ) where
  unfoldable pub weigh : List Request → ℕ
  weigh [] = 0
  weigh (r ∷ rs) = f r + weigh rs

  weigh-insert :
      (p : ℕ × Request) (l : List (ℕ × Request))
      → weigh (requests (insert_sorted before p l)) ≡ f p.1 + weigh (requests l)
  unfolding insert_sorted weigh
  weigh-insert p [] = refl
  weigh-insert p (q ∷ l) = elim (Bool-cases (before q p)) [
    | inl later ↦ rw (later, weigh-insert p l) (omega arith)
    | inr first ↦ rw first refl
  ]

  weigh-sort : (l : List (ℕ × Request)) → weigh (requests (sort before l)) ≡ weigh (requests l)
  unfolding sort weigh
  weigh-sort [] = refl
  weigh-sort (p ∷ l) = weigh-insert p (sort before l) ∙ ap (λ n. f p.1 + n) (weigh-sort l)

  weigh-runs : (l : List (ℕ × Request)) → weigh (runs l).0 + weigh (runs l).1 ≡ weigh (requests l)
  unfolding runs weigh
  weigh-runs [] = omega arith
  weigh-runs (p ∷ l) = elim (Bool-cases (is_followed p l)) [
    | inl more ↦ rw more (omega (arith, weigh-runs l))
    | inr last ↦ rw last (omega (arith, weigh-runs l))
  ]

  pub weigh-append : (a b : List Request) → weigh (a ++ b) ≡ weigh a + weigh b
  unfolding weigh
  weigh-append [] b = omega arith
  weigh-append (r ∷ a) b = omega (arith, weigh-append a b)

  -- For a batch whose keys are bytes, in sizes that 32 bits hold, however it is prepared: by any measure of
  -- single requests, those that are written and those that are dropped add up to the batch.
  pub weigh-prepare :
      (exceeds : ℕ → ℕ → Bool) (mode : BatchSort) (batch : List Request)
      → IsBatch batch
      → weigh (prepare exceeds mode batch).0 + weigh (prepare exceeds mode batch).1 ≡ weigh batch
  unfolding prepare weigh
  weigh-prepare exceeds mode batch v = elim (Bool-cases (does_sort exceeds mode batch)) [
    | inr plain ↦ rw plain (omega arith)
    | inl sorted ↦
        rw (sorted, sort_batch-runs batch v)
          (weigh-runs (sort before (numbered 0 batch))
            ∙ (weigh-sort (numbered 0 batch) ∙ ap weigh (requests-numbered 0 batch)))
  ]
