-- ===== src/Tests/Reads.antt =====
-- A run of a read queue with two owners at most and batches of two: three reads arrive, and one owner takes
-- two of them.
use fluxkv.Base.{
  true, false, map, if◌then◌else◌, ℕ, ◌+◌, ◌≤◌, ◌≡◌, refl, arith, List, [], ◌∷◌, ◌++◌, All, length,
}
use fluxkv.Engine.Request.{Request, new_request}
use fluxkv.Engine.Reads.{
  ReadQueue, new_read_queue, collect_read, recruit, Machine, Steps, start, pushes, submit, drains,
  sweeps, caps, here, next, pushed_head, recruited, taken, drained, swept, capped,
}
use fluxkv.Engine.Reads.Order
use fluxkv.Engine.Reads.Served
use fluxkv.Engine.Reads.Served.{IsQuiet}
use fluxkv.Engine.Reads.Weights.{unserved}
use fluxkv.Engine.Persist.Weights.{weigh}
use fluxkv.Cache.Entry.{bytes_eq}
use fluxkv.Engine.Persist.{meta_bytes}
use fluxkv.Engine.Gets.{Fetched, FillCache, complete_single, read_single, group_by_key, read_batch}
use fluxkv.Engine.Gets.Dedupe
use fluxkv.Engine.Gets.Dedupe.{IsDistinct}
use fluxkv.Engine.Gets.ReadBack
use fluxkv.Engine.Gets.ReadBack.{stored}
use mathlib.Core.List.{reverse}

abbrev read : ℕ → Request
read n = record new_request { opaque = n; key = n ∷ [] }

abbrev two_waiting : ReadQueue
two_waiting = record new_read_queue {
  list = read 3 ∷ read 2 ∷ [];
  overflow = read 1 ∷ [];
  read_owners = 1;
  read_depth = 3;
}

collect_run : collect_read 2 two_waiting ≡ (
  read 1 ∷ read 2 ∷ [],
  record two_waiting { list = []; overflow = read 3 ∷ []; read_depth = 1 },
)
unfolding collect_read
collect_run = refl

collect_read-in_order_example :
    ((collect_read 2 two_waiting).0
        ++ ((collect_read 2 two_waiting).1.overflow ++ reverse (collect_read 2 two_waiting).1.list)
      ≡ (read 1 ∷ []) ++ reverse (read 3 ∷ read 2 ∷ []))
    × (length (collect_read 2 two_waiting).0 ≤ 2)
    × ((collect_read 2 two_waiting).0 ≡ [] → (read 1 ∷ []) ++ reverse (read 3 ∷ read 2 ∷ []) ≡ [])
collect_read-in_order_example = Order.collect_read-in_order 2 two_waiting (omega arith)

-- Two reads arrive, the first starts an owner, and the owner drains and sweeps.
abbrev arrived : Machine
arrived = pushes (read 2) (pushes (read 1) start)

abbrev owned : Machine
owned = submit (record arrived { pushing = 1 }) (recruit 2 2 1 arrived.queue)

abbrev working : Machine
working = record owned { tasks = 0; working = owned.working + 1 }

abbrev after_drain : Machine
after_drain = drains 2 working 0

abbrev after_sweep : Machine
after_sweep = sweeps 2 after_drain [] []

abbrev collected : Machine
collected = caps 2 after_sweep (read 1 ∷ read 2 ∷ []) []

collected-Steps : Steps 2 2 collected
unfolding pushes recruit drains sweeps caps
collected-Steps =
    next after_sweep collected
      (next after_drain after_sweep
        (next working after_drain
          (next owned working
            (next arrived owned
              (next (pushes (read 1) start) arrived
                (next start (pushes (read 1) start) here (pushed_head start (read 1)))
                (pushed_head (pushes (read 1) start) (read 2)))
              (recruited arrived 1 1 refl))
            (taken owned 0 refl))
          (drained working 0 refl))
        (swept after_drain [] [] [] refl))
      (capped after_sweep (read 1 ∷ read 2 ∷ []) [] [] refl)

Steps-served_example :
    (collected.queue.read_owners ≤ 2)
    × All (λ (b : List Request). length b ≤ 2) collected.reading
    × ((f : Request → ℕ)
        → weigh f collected.served + unserved f collected ≡ weigh f collected.pushed)
    × (IsQuiet collected → (f : Request → ℕ) → weigh f collected.served ≡ weigh f collected.pushed)
Steps-served_example = Served.Steps-served 2 2 (omega arith) collected collected-Steps

-- What magma holds: one write, under the key of the second read.
abbrev held : Request
held = record new_request {
  opcode = 1;
  key = 2 ∷ [];
  value = 7 ∷ 8 ∷ [];
  flags = 5;
  expiry = 60;
  datatype = 1;
}

abbrev absent : Fetched
absent = record { is_ok = true; is_ok_doc_not_found = true; meta = []; value = [] }

fetch : List ℕ → Fetched
unfolding bytes_eq
fetch k = if bytes_eq k held.key then stored true 1700000000 41 held else absent

abbrev no_cache : FillCache ℕ
no_cache = record {
  has_cache = false;
  put_if_absent = λ vbid k value seqno flags expiry datatype c. c;
}

read_batch-single_example :
    ((f : Request → ℕ)
      → weigh f (read_batch no_cache 3 fetch (read 2 ∷ read 1 ∷ read 2 ∷ []) 0).0
        ≡ weigh (λ r. f (complete_single (fetch r.key) r)) (read 2 ∷ read 1 ∷ read 2 ∷ []))
    × IsDistinct (group_by_key (read 2 ∷ read 1 ∷ read 2 ∷ []) [])
read_batch-single_example =
    Dedupe.read_batch-single no_cache 3 fetch (read 2 ∷ read 1 ∷ read 2 ∷ []) 0

read_single-stored_example : read_single no_cache 3 (stored true 1700000000 41 held) (read 2) 0 ≡ (
  record (read 2) {
    result_ok = true;
    result_flags = 5;
    result_seqno = 41;
    result_datatype = 1;
    response_buf = 7 ∷ 8 ∷ [];
  },
  0,
)
read_single-stored_example =
    ReadBack.read_single-stored no_cache 3 true 1700000000 41 held (read 2) 0
      (record { flags_u32 = omega arith; expiry_u32 = omega arith; datatype_u8 = omega arith })
      (omega arith) (omega arith) refl

-- The two reads of one key are answered together, and the other as one that was not found.
answers_run :
    map
      (λ (r : Request). r.result_ok)
      (read_batch no_cache 3 fetch (read 2 ∷ read 1 ∷ read 2 ∷ []) 0).0
    ≡ true ∷ true ∷ false ∷ []
unfolding read_batch fetch meta_bytes
answers_run = refl
