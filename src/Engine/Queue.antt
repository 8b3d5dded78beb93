-- ===== src/Engine/Queue.antt =====
-- `RequestStack` and the write side of `VBQueue` of server/engine.h, and the atomic steps on them in
-- server/engine.cc. The stack is the list of its requests, newest first.
use fluxkv.Base.{ℕ, ◌+◌, ◌-◌, ◌%◌, ◌^◌, Bool, true, false, not, List, [], ◌∷◌, ◌++◌, length}
use fluxkv.Engine.Request.{Request}
use mathlib.Core.List.{reverse}

abbrev pub is_empty : List Request → Bool
is_empty [] = true
is_empty (r ∷ rs) = false

-- `RequestStack::insertChain`: whether the stack was empty. The chain is newest first.
unfoldable pub insert_chain : List Request → List Request → List Request × Bool
insert_chain chain stack = (chain ++ stack, is_empty stack)

-- `RequestStack::insertHead`
unfoldable pub insert_head : Request → List Request → List Request × Bool
unfolding insert_chain
insert_head r stack = insert_chain (r ∷ []) stack

-- `RequestStack::sweepOnce`, with what it hands to its callback, in order.
unfoldable pub sweep_once : List Request → List Request × List Request
sweep_once stack = (stack, [])

pub record VbQueue : Type 0 where
  pub list : List Request
  pub scheduled : Bool
  pub pending : ℕ
  pub last_write_ns : ℕ

abbrev pub new_queue : VbQueue
new_queue = record { list = []; scheduled = false; pending = 0; last_write_ns = 0 }

-- `vbq.list.insertChain(first, last)`
unfoldable pub push : VbQueue → List Request → VbQueue
unfolding insert_chain
push q chain = let (stack, was_empty) = insert_chain chain q.list in record q { list = stack }

-- `vbq.pending.fetch_add(count)`
unfoldable pub count_pending : VbQueue → ℕ → VbQueue
count_pending q n = record q { pending = (q.pending + n) % 2 ^ 32 }

-- `!vbq.scheduled.exchange(true)`: the queue, and whether the caller is to submit a task.
unfoldable pub arm : VbQueue → VbQueue × Bool
arm q = (record q { scheduled = true }, not q.scheduled)

-- The batch of `executePersist`, oldest first.
unfoldable pub take_batch : VbQueue → List Request × VbQueue
unfolding sweep_once
take_batch q =
    let (batch, left) = sweep_once q.list in
    (
      reverse batch,
      record q { list = left; pending = (q.pending + 2 ^ 32 - length batch) % 2 ^ 32 },
    )

-- `vbq.scheduled.store(false)`
unfoldable pub release : VbQueue → VbQueue
release q = record q { scheduled = false }
