-- ===== src/Tests/Engine.antt =====
-- A run of a write queue: two writes arrive in one chain, are written, and a third arrives meanwhile.
use fluxkv.Base.{ℕ, ◌+◌, ◌<◌, ◌≤◌, ◌≡◌, refl, true, some, arith, List, [], ◌∷◌, ◌++◌}
use fluxkv.Engine.Request.{Request, new_request}
use fluxkv.Engine.Stage.{
  StagingTable, new_table, Engine, staged, stage_write, stage_all, flush_staged,
}
use fluxkv.Engine.Stage.Order
use fluxkv.Engine.Stage.Order.{of_vbucket, sizes}
use fluxkv.Engine.Queue.{new_queue, push, arm, take_batch, insert_chain, sweep_once}
use fluxkv.Engine.Batch.{always}
use fluxkv.Engine.Batch.Newest.{Store, write_all}
use fluxkv.Engine.Ownership.{Machine, Step, Steps, start, submit, pushes, sweeps}
use fluxkv.Engine.Ownership.Progress
use mathlib.Core.List.{reverse}

abbrev write : ℕ → Request
write n = record new_request { opcode = 1; opaque = n; key = n ∷ [] }

abbrev chained : Machine
chained = pushes start (write 2 ∷ write 1 ∷ [])

abbrev submitted : Machine
submitted = submit (record chained { pushing = 0 })

abbrev working : Machine
working = record submitted { tasks = 0; working = submitted.working + 1 }

abbrev swept : Machine
swept = sweeps working 0

-- The third write arrives while the first two are being written.
abbrev overtaken : Machine
overtaken = pushes swept (write 3 ∷ [])

-- Every batch is sorted.
abbrev Run : Machine → Type 0
Run s = Steps (λ _ _. true) always start s

overtaken-Steps : Run overtaken
unfolding pushes submit sweeps arm push take_batch insert_chain sweep_once
overtaken-Steps =
    Steps.next swept overtaken
      (Steps.next working swept
        (Steps.next submitted working
          (Steps.next chained submitted
            (Steps.next start chained Steps.here (
              Step.pushed_chain start (write 2 ∷ write 1 ∷ [])
                (record { size_u32 = omega arith; keys = omega arith })))
            (Step.armed chained 0 refl))
          (Step.taken submitted 0 refl))
        (Step.swept working 0 refl))
      (Step.pushed_chain swept (write 3 ∷ [])
        (record { size_u32 = omega arith; keys = omega arith }))

Steps-one_owner_example :
    (overtaken.tasks + overtaken.working + overtaken.writing + overtaken.wrote < 2)
    × (overtaken.applied ++ (overtaken.batch ++ reverse overtaken.queue.list) ≡ overtaken.pushed)
    × ((store : Store) (k : List ℕ)
        → write_all overtaken.written store k ≡ write_all overtaken.applied store k)
Steps-one_owner_example = Progress.Steps-one_owner (λ _ _. true) always overtaken overtaken-Steps

-- The first two are the batch, oldest first, and the third waits.
overtaken_run : (overtaken.batch ≡ write 1 ∷ write 2 ∷ []) × (overtaken.queue.list ≡ write 3 ∷ [])
unfolding pushes submit sweeps arm push take_batch insert_chain sweep_once
overtaken_run = (refl, refl)

-- Three writes of a wake, to two vbuckets, on a limit that two of them fit.
abbrev wake_writes : List Request
wake_writes =
    record (write 1) { vbucket = 3 }
    ∷ record (write 2) { vbucket = 5 }
    ∷ record (write 3) { vbucket = 3 }
    ∷ []

abbrev admitted_writes : List Request
admitted_writes = record (write 1) { vbucket = 3 } ∷ record (write 2) { vbucket = 5 } ∷ []

abbrev table_after : StagingTable
table_after =
    staged 512 (record (write 2) { vbucket = 5 })
      (staged 512 (record (write 1) { vbucket = 3 }) new_table)

abbrev idle_engine : Engine
idle_engine = record { queued_bytes = 0; queues = λ _. new_queue; submitted = [] }

wake_run : stage_all 512 1200 0 wake_writes new_table ≡ some (admitted_writes, table_after)
unfolding stage_all stage_write staged
wake_run = refl

flush_staged-stage_all_example :
    ((v : ℕ)
      → (((flush_staged table_after idle_engine).1.queues v).list
          ≡ reverse (of_vbucket v admitted_writes) ++ [])
        × (((flush_staged table_after idle_engine).0.vbs v).chain ≡ []))
    × ((flush_staged table_after idle_engine).1.queued_bytes ≡ 0 + sizes 512 admitted_writes)
    × (0 + sizes 512 admitted_writes ≤ 1200)
flush_staged-stage_all_example =
    Order.flush_staged-stage_all 512 1200 0 wake_writes admitted_writes table_after idle_engine
      (omega arith) (omega arith) wake_run
