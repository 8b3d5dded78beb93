-- ===== src/Engine/Ownership.antt =====
-- Who writes a vbucket: the atomic steps of `FlushStaged`, `executePersist`, `releaseVBQueue` and
-- `releaseVBQueueAfterWrite` of server/engine.cc on one write queue, from any number of threads, in the
-- sequentially consistent order that the code asks for.
pub mod Keeps
pub mod Progress
use fluxkv.Base.{
  ℕ, zero, suc, ◌+◌, ◌<◌, ◌≡◌, ◌⊎◌, Bool, true, false, List, [], ◌∷◌, ◌++◌, if◌then◌else◌,
}
use fluxkv.Engine.Request.{Request}
use fluxkv.Engine.Batch.{BatchSort, prepare}
use fluxkv.Engine.Batch.Newest.{IsBatch, Store, write_all}
use fluxkv.Engine.Queue.{
  VbQueue, new_queue, is_empty, push, count_pending, arm, take_batch, release,
}
use mathlib.Core.List.{reverse}

-- The queue, what was pushed, the requests of the batches that were written, both in the order of their
-- arrival, what `WriteDocs` was given for these batches, in its order, and the numbers of threads and tasks at
-- each place of the code: `pushing` between `insertChain` and the exchange, `tasks` in the task queue or
-- the defer queue, `working` before the sweep, `writing` before `WriteDocs`, `wrote` after it,
-- `releasing` after the store, and `rearming` after a recheck that saw requests. `batch` is what the
-- threads that are `writing` hold.
pub record Machine : Type 0 where
  pub queue : VbQueue
  pub pushed : List Request
  pub applied : List Request
  pub written : List Request
  pub batch : List Request
  pub pushing : ℕ
  pub tasks : ℕ
  pub working : ℕ
  pub writing : ℕ
  pub wrote : ℕ
  pub releasing : ℕ
  pub rearming : ℕ

abbrev pub start : Machine
start = record {
  queue = new_queue;
  pushed = [];
  applied = [];
  written = [];
  batch = [];
  pushing = 0;
  tasks = 0;
  working = 0;
  writing = 0;
  wrote = 0;
  releasing = 0;
  rearming = 0;
}

-- The exchange, and the task that its winner submits.
unfoldable pub submit : Machine → Machine
unfolding arm
submit s =
    let (q, won) = arm s.queue in
    record s { queue = q; tasks = if won then s.tasks + 1 else s.tasks }

unfoldable pub pushes : Machine → List Request → Machine
unfolding push
pushes s chain = record s {
  queue = push s.queue chain;
  pushed = s.pushed ++ reverse chain;
  pushing = s.pushing + 1;
}

unfoldable pub sweeps : Machine → ℕ → Machine
unfolding take_batch
sweeps s n =
    let (batch, q) = take_batch s.queue in
    record s { queue = q; working = n; writing = s.writing + 1; batch = batch }

-- The sort and dedupe by key, `WriteDocs`, and the end of the batch.
unfoldable pub writes : (ℕ → ℕ → Bool) → BatchSort → Machine → ℕ → Machine
unfolding prepare
writes exceeds mode s n = record s {
  written = s.written ++ (prepare exceeds mode s.batch).0;
  applied = s.applied ++ s.batch;
  batch = [];
  writing = n;
  wrote = s.wrote + 1;
}

unfoldable pub releases : Machine → ℕ → Machine
unfolding release
releases s n = record s { queue = release s.queue; wrote = n; releasing = s.releasing + 1 }

-- `!vbq.list.empty()`
unfoldable pub rechecks : Machine → ℕ → Machine
rechecks s n = record s {
  releasing = n;
  rearming = if is_empty s.queue.list then s.rearming else s.rearming + 1;
}

-- The settings of the sort. A thread that leaves a place was there, and a queue has keys of bytes, in sizes
-- that 32 bits hold.
module _ (exceeds : ℕ → ℕ → Bool) (mode : BatchSort) where
  pub data Step : Machine → Machine → Type 0 where
    pushed_chain :
        (s : Machine) (chain : List Request)
        → IsBatch (chain ++ s.queue.list)
        → Step s (pushes s chain)
    counted : (s : Machine) (n : ℕ) → Step s (record s { queue = count_pending s.queue n })
    armed : (s : Machine) (n : ℕ) → s.pushing ≡ suc n → Step s (submit (record s { pushing = n }))
    taken :
        (s : Machine) (n : ℕ)
        → s.tasks ≡ suc n
        → Step s (record s { tasks = n; working = s.working + 1 })
    swept : (s : Machine) (n : ℕ) → s.working ≡ suc n → Step s (sweeps s n)
    written_batch : (s : Machine) (n : ℕ) → s.writing ≡ suc n → Step s (writes exceeds mode s n)
    released : (s : Machine) (n : ℕ) → s.wrote ≡ suc n → Step s (releases s n)
    rechecked : (s : Machine) (n : ℕ) → s.releasing ≡ suc n → Step s (rechecks s n)
    rearmed :
        (s : Machine) (n : ℕ) → s.rearming ≡ suc n → Step s (submit (record s { rearming = n }))

  pub data Steps (s : Machine) : Machine → Type 0 where
    here : Steps s s
    next : (t u : Machine) → Steps s t → Step t u → Steps s u

-- One owner at most, exactly one while `scheduled` is set; nothing lost or reordered on the way to a batch,
-- and nothing that a store could tell in it; and a queue with requests has an owner, or a thread that is
-- about to look.
pub record IsOwned (s : Machine) : Type 0 where
  pub one_owner : s.tasks + s.working + s.writing + s.wrote ≡ (if s.queue.scheduled then 1 else 0)
  pub in_order : s.applied ++ (s.batch ++ reverse s.queue.list) ≡ s.pushed
  pub stored : (t : Store) (k : List ℕ) → write_all s.written t k ≡ write_all s.applied t k
  pub queue_fits : IsBatch s.queue.list
  pub batch_fits : IsBatch s.batch
  pub held : s.writing ≡ 0 → s.batch ≡ []
  pub awake :
      (s.queue.list ≡ []) ⊎ (s.queue.scheduled ≡ true) ⊎ (0 < s.pushing + s.releasing + s.rearming)
