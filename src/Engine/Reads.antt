-- ===== src/Engine/Reads.antt =====
-- The read queue of a vbucket in server/engine.cc: `EnqueueRead`, `collectRead` and `releaseReadVBQueue`, and
-- their atomic steps from any number of threads, for reads that are answered before their owner steps down
-- (`gAsyncReads` is off). `readDepth` is an int64_t, kept as its 64 bits.
pub mod Order
pub mod Weights
pub mod Owned
pub mod Collected
pub mod Served
use fluxkv.Base.{
  ℕ, suc, ◌+◌, ◌-◌, ◌*◌, ◌%◌, ◌^◌, ◌<◌, ◌≡◌, Bool, true, false, not, ◌&&◌, ◌||◌, List, [], ◌∷◌,
  ◌++◌, length, take, drop, ltb, leb, ◌==◌, if◌then◌else◌,
}
use fluxkv.Engine.Request.{Request}
use fluxkv.Engine.Queue.{is_empty, insert_head, sweep_once}
use mathlib.Core.List.{reverse}

-- The read side of `VBQueue`. `overflow` is the chain from `overflowHead`, oldest first.
pub record ReadQueue : Type 0 where
  pub list : List Request
  pub overflow : List Request
  pub read_owners : ℕ
  pub read_depth : ℕ

abbrev pub new_read_queue : ReadQueue
new_read_queue = record { list = []; overflow = []; read_owners = 0; read_depth = 0 }

-- `<=` on `int64_t`
abbrev pub signed_leb : ℕ → ℕ → Bool
signed_leb a b = leb ((a + 2 ^ 63) % 2 ^ 64) ((b + 2 ^ 63) % 2 ^ 64)

-- The push of `EnqueueRead`
unfoldable pub push_read : Request → ReadQueue → ReadQueue
unfolding insert_head
push_read r q = let (stack, was_empty) = insert_head r q.list in record q { list = stack }

-- `readDepth.fetch_add(1) + 1`
unfoldable pub deepen : ReadQueue → ReadQueue
deepen q = record q { read_depth = (q.read_depth + 1) % 2 ^ 64 }

-- The loop of `EnqueueRead` that starts a further owner, with `depth` from `fetch_add`: the queue, and whether
-- a task is submitted.
unfoldable pub recruit : ℕ → ℕ → ℕ → ReadQueue → ReadQueue × Bool
recruit max_owners max_batch depth q =
    if not (q.read_owners == 0)
      && (leb max_owners q.read_owners || signed_leb depth ((q.read_owners * max_batch) % 2 ^ 64))
    then (q, false)
    else (record q { read_owners = q.read_owners + 1 }, true)

-- The first locked part of `collectRead`
unfoldable pub drain_overflow : ℕ → ReadQueue → List Request × ReadQueue
drain_overflow max_batch q =
    (take max_batch q.overflow, record q { overflow = drop max_batch q.overflow })

-- The sweep of `collectRead`, after what came from the overflow
unfoldable pub sweep_reads : ℕ → List Request → ReadQueue → List Request × ReadQueue
unfolding sweep_once
sweep_reads max_batch batch q =
    let (fresh, left) = sweep_once q.list in
    if ltb (length batch) max_batch
    then (batch ++ reverse fresh, record q { list = left })
    else (batch, q)

-- The rest of `collectRead`: what is over the cap goes to the overflow, and the batch is accounted.
unfoldable pub cap_batch : ℕ → List Request → ReadQueue → List Request × ReadQueue
cap_batch max_batch batch q =
    let capped = take max_batch batch in
    (
      capped,
      record q {
        overflow =
            if ltb max_batch (length batch) then q.overflow ++ drop max_batch batch else q.overflow;
        read_depth = (q.read_depth + 2 ^ 64 - length capped % 2 ^ 64) % 2 ^ 64;
      },
    )

-- `collectRead`, with no other owner between its parts. An empty batch is not accounted.
unfoldable pub collect_read : ℕ → ReadQueue → List Request × ReadQueue
unfolding drain_overflow sweep_reads cap_batch
collect_read max_batch q =
    let (older, drained) = drain_overflow max_batch q in
    let (batch, swept) = sweep_reads max_batch older drained in
    if is_empty batch then (batch, swept) else cap_batch max_batch batch swept

-- `readOwners.fetch_sub(1)`
unfoldable pub step_down : ReadQueue → ReadQueue
step_down q = record q { read_owners = q.read_owners - 1 }

-- The condition to return, once there was no overflow. Its two loads are one step.
unfoldable pub is_idle : ReadQueue → Bool
is_idle q = is_empty q.list && signed_leb q.read_depth 0

-- The loop of `releaseReadVBQueue`: the queue, and whether a task is submitted
unfoldable pub rejoin : ℕ → ReadQueue → ReadQueue × Bool
rejoin max_owners q =
    if ltb q.read_owners max_owners
    then (record q { read_owners = q.read_owners + 1 }, true)
    else (q, false)

-- A read queue with its threads. `pushing` counts those between the push and the loop of `EnqueueRead`, `tasks`
-- is what is in the task queue, `working` those before the overflow is drained; the batches are those that
-- owners hold after the drain, after the sweep, and under the cap, while magma reads them; `releasing`
-- counts the threads after `fetch_sub`, `checking` those that saw no overflow, and `rejoining` those that
-- found work left. `pushed` and `served` are the requests that came and that were read.
pub record Machine : Type 0 where
  pub queue : ReadQueue
  pub pushed : List Request
  pub served : List Request
  pub pushing : ℕ
  pub tasks : ℕ
  pub working : ℕ
  pub drained : List (List Request)
  pub swept : List (List Request)
  pub reading : List (List Request)
  pub releasing : ℕ
  pub checking : ℕ
  pub rejoining : ℕ

abbrev pub start : Machine
start = record {
  queue = new_read_queue;
  pushed = [];
  served = [];
  pushing = 0;
  tasks = 0;
  working = 0;
  drained = [];
  swept = [];
  reading = [];
  releasing = 0;
  checking = 0;
  rejoining = 0;
}

unfoldable pub pushes : Request → Machine → Machine
unfolding push_read
pushes r s = record s {
  queue = push_read r s.queue;
  pushed = r ∷ s.pushed;
  pushing = s.pushing + 1;
}

-- A task is submitted, or not.
abbrev pub submit : Machine → ReadQueue × Bool → Machine
submit s (q, won) = record s { queue = q; tasks = if won then s.tasks + 1 else s.tasks }

unfoldable pub drains : ℕ → Machine → ℕ → Machine
unfolding drain_overflow
drains max_batch s n =
    let (batch, q) = drain_overflow max_batch s.queue in
    record s { queue = q; working = n; drained = batch ∷ s.drained }

unfoldable pub sweeps : ℕ → Machine → List Request → List (List Request) → Machine
unfolding sweep_reads
sweeps max_batch s b others =
    let (batch, q) = sweep_reads max_batch b s.queue in
    record s { queue = q; drained = others; swept = batch ∷ s.swept }

unfoldable pub caps : ℕ → Machine → List Request → List (List Request) → Machine
unfolding cap_batch step_down
caps max_batch s b others =
    let (batch, q) = cap_batch max_batch b s.queue in
    if is_empty b
    then record s { queue = step_down s.queue; swept = others; releasing = s.releasing + 1 }
    else record s { queue = q; swept = others; reading = batch ∷ s.reading }

unfoldable pub serves : Machine → List Request → List (List Request) → Machine
unfolding step_down
serves s b others = record s {
  queue = step_down s.queue;
  served = b ++ s.served;
  reading = others;
  releasing = s.releasing + 1;
}

-- `hasOverflow`
unfoldable pub looks : Machine → ℕ → Machine
looks s n =
    if is_empty s.queue.overflow
    then record s { releasing = n; checking = s.checking + 1 }
    else record s { releasing = n; rejoining = s.rejoining + 1 }

unfoldable pub checks : Machine → ℕ → Machine
unfolding is_idle
checks s n = record s {
  checking = n;
  rejoining = if is_idle s.queue then s.rejoining else s.rejoining + 1;
}

module _ (max_owners max_batch : ℕ) where
  -- A thread that leaves a place was there. The batch that an owner goes on with is any of those that are
  -- held at its place.
  pub data Step : Machine → Machine → Type 0 where
    pushed_head : (s : Machine) (r : Request) → Step s (pushes r s)
    deepened : (s : Machine) → Step s (record s { queue = deepen s.queue })
    recruited :
        (s : Machine) (n depth : ℕ)
        → s.pushing ≡ suc n
        → Step s (submit (record s { pushing = n }) (recruit max_owners max_batch depth s.queue))
    taken :
        (s : Machine) (n : ℕ)
        → s.tasks ≡ suc n
        → Step s (record s { tasks = n; working = s.working + 1 })
    drained : (s : Machine) (n : ℕ) → s.working ≡ suc n → Step s (drains max_batch s n)
    swept :
        (s : Machine) (b : List Request) (before after : List (List Request))
        → s.drained ≡ before ++ (b ∷ after)
        → Step s (sweeps max_batch s b (before ++ after))
    capped :
        (s : Machine) (b : List Request) (before after : List (List Request))
        → s.swept ≡ before ++ (b ∷ after)
        → Step s (caps max_batch s b (before ++ after))
    served :
        (s : Machine) (b : List Request) (before after : List (List Request))
        → s.reading ≡ before ++ (b ∷ after)
        → Step s (serves s b (before ++ after))
    looked : (s : Machine) (n : ℕ) → s.releasing ≡ suc n → Step s (looks s n)
    checked : (s : Machine) (n : ℕ) → s.checking ≡ suc n → Step s (checks s n)
    rejoined :
        (s : Machine) (n : ℕ)
        → s.rejoining ≡ suc n
        → Step s (submit (record s { rejoining = n }) (rejoin max_owners s.queue))

  pub data Steps : Machine → Type 0 where
    here : Steps start
    next : (s t : Machine) → Steps s → Step s t → Steps t
