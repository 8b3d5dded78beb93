-- ===== src/Engine/Ownership/Progress.antt =====
-- What was pushed to a write queue can always be written.
use fluxkv.Base.{ℕ, ◌+◌, ◌<◌, ◌≡◌, Bool, List, ◌++◌, arith}
use fluxkv.Engine.Batch.{BatchSort}
use fluxkv.Engine.Batch.Newest.{Store, write_all}
use fluxkv.Engine.Ownership.{Machine, start, Steps}
use fluxkv.Engine.Ownership.Keeps.{Steps-IsOwned}
use mathlib.Core.List.{reverse}

module _ (exceeds : ℕ → ℕ → Bool) (mode : BatchSort) where
  -- With no further pushes, the threads can get all that was pushed into batches that are written.
  abbrev Empties : Machine → Type 0
  Empties s =
      (t : Machine) × Steps exceeds mode s t × (t.pushed ≡ s.pushed) × (t.applied ≡ s.pushed)

  -- With no further pushes, the threads can write all that was pushed: then no store tells what was written
  -- from the requests that were pushed, in the order of their arrival.
  abbrev pub Drains : Machine → Type 0
  Drains s =
      (t : Machine) × Steps exceeds mode s t
      × (t.pushed ≡ s.pushed)
      × (t.applied ≡ s.pushed)
      × ((store : Store) (k : List ℕ) → write_all t.written store k ≡ write_all s.pushed store k)

  -- In every state that any interleaving of the threads' atomic steps reaches: at most one task or thread
  -- owns the queue, from the task queue to the store that gives it up; the requests of the batches that were
  -- written, then the owner's batch, then the queue from its oldest request, are what was pushed, in the
  -- order of its arrival; and what magma was given for these batches, each sorted by key and without its
  -- repeats where the code does so, leaves every key of any store as their requests in the order of arrival
  -- do. Keys are bytes, in sizes that 32 bits hold.
  pub Steps-one_owner :
      (s : Machine)
      → Steps exceeds mode start s
      → (s.tasks + s.working + s.writing + s.wrote < 2)
        × (s.applied ++ (s.batch ++ reverse s.queue.list) ≡ s.pushed)
        × ((store : Store) (k : List ℕ) → write_all s.written store k ≡ write_all s.applied store k)
  Steps-one_owner s r =
      let v = Steps-IsOwned exceeds mode s r in (ground (arith, v.one_owner), v.in_order, v.stored)
