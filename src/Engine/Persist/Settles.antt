-- ===== src/Engine/Persist/Settles.antt =====
-- What `executePersist` and `durableLoop` do with every write: its bytes are given back, and it is answered,
-- once.
use fluxkv.Base.{
  ℕ, ◌+◌, ◌-◌, ◌%◌, ◌^◌, ◌≡◌, refl, ap, inl, inr, Bool, true, ◌&&◌, ◌||◌, List, [], ◌∷◌, ◌++◌,
  arith, map, length, ltb, leb, Bool-cases, if_both,
}
use fluxkv.Engine.Request.{Request, new_request}
use fluxkv.Engine.Queue.{is_empty, take_batch, sweep_once, release, arm}
use fluxkv.Engine.Stage.{item_size}
use fluxkv.Engine.Batch.{prepare, sort}
use fluxkv.Engine.Batch.Newest.{IsBatch}
use fluxkv.Engine.Persist.{
  Settings, Magma, DocCache, Writer, PendingDurable, batch_bytes, build_ops, write_batch,
  with_status, recycle_requests, await_durable, notify_batch, finish_batch, persist_batch,
  park_runs, owner_runs, execute_persist, release_vb_queue,
}
use fluxkv.Engine.Persist.Waiting.{
  waiting_bytes, waiting, waiting_bytes-append, parked_weight, ledger_bytes, ledger_bytes-append,
}
use fluxkv.Engine.Persist.Weights.{weigh, weigh-append, weigh-prepare}
use mathlib.Core.List.{reverse, reverse-append}

pub weigh-reverse : (f : Request → ℕ) (l : List Request) → weigh f (reverse l) ≡ weigh f l
unfolding weigh
weigh-reverse f [] = refl
weigh-reverse f (r ∷ l) =
    rw (reverse-append (r ∷ []) l, weigh-append f (reverse l) (r ∷ []), weigh-reverse f l)
      (omega arith)

batch_bytes-weigh : (n : ℕ) (l : List Request) → batch_bytes n l ≡ weigh (item_size n) l
unfolding batch_bytes weigh
batch_bytes-weigh n [] = refl
batch_bytes-weigh n (r ∷ l) = ap (λ b. item_size n r + b) (batch_bytes-weigh n l)

reversed_bytes : (n : ℕ) (l : List Request) → batch_bytes n (reverse l) ≡ batch_bytes n l
reversed_bytes n l =
    rw (batch_bytes-weigh n (reverse l), batch_bytes-weigh n l) (weigh-reverse (item_size n) l)

pub is_empty→nil : (l : List Request) → is_empty l ≡ true → l ≡ []
is_empty→nil [] h = refl
is_empty→nil (r ∷ l) h = cc

-- A measure of a write by what its client sent.
abbrev pub by_write : (List ℕ → List ℕ → ℕ → ℕ) → Request → ℕ
by_write g r = g r.key r.value r.opaque

pub weigh-with_status :
    (g : List ℕ → List ℕ → ℕ → ℕ) (ok : Bool) (l : List Request)
    → weigh (by_write g) (map (with_status ok) l) ≡ weigh (by_write g) l
unfolding weigh with_status
weigh-with_status g ok [] = refl
weigh-with_status g ok (r ∷ l) = ap (λ b. by_write g r + b) (weigh-with_status g ok l)

-- `queuedBytes_` counts the writes in the queue, those that wait for the log and those of the ledger, and
-- `others` for the other vbuckets.
abbrev pub IsAccounted : {S C : Type 0} → ℕ → ℕ → Writer S C → Type 0
IsAccounted request_size others w =
    w.queued_bytes
    ≡ others
      + batch_bytes request_size w.queue.list
      + waiting_bytes w.durable_queue
      + ledger_bytes w.ledger

-- The writes that are answered, wait for the log, are parked on an IO loop or are queued, measured.
abbrev pub in_hand : {S C : Type 0} → (Request → ℕ) → Writer S C → ℕ
in_hand f w =
    weigh f w.answered
    + waiting f w.durable_queue
    + parked_weight f w.parked
    + parked_weight f w.parked_local
    + weigh f w.queue.list

module _ {O S C : Type 0} (k : Settings) (magma : Magma O S) (doc_cache : DocCache C) where
  pub weigh-build_ops :
      (g : List ℕ → List ℕ → ℕ → ℕ) (cas last : ℕ) (rs : List Request)
      → weigh (by_write g) (build_ops k magma doc_cache cas last rs).0 ≡ weigh (by_write g) rs
  unfolding build_ops weigh
  weigh-build_ops g cas last [] = refl
  weigh-build_ops g cas last (r ∷ rs) =
      ap (λ b. by_write g r + b) (weigh-build_ops g cas ((last + 1) % 2 ^ 64) rs)

  pub recycle_requests-keeps :
      (chain : List Request) (w : Writer S C)
      → ((recycle_requests chain w).queued_bytes ≡ w.queued_bytes)
        × ((recycle_requests chain w).durable_queue ≡ w.durable_queue)
        × ((recycle_requests chain w).queue ≡ w.queue)
        × ((recycle_requests chain w).ledger ≡ w.ledger)
  unfolding recycle_requests
  recycle_requests-keeps chain w =
      elim (Bool-cases (
        ltb (2 ^ 14) (w.free_request_count + length chain)
        || leb (2 ^ 14) (length w.free_requests))) [
          | inl full ↦ rw full (refl, refl, refl, refl)
          | inr room ↦ rw room (refl, refl, refl, refl)
        ]

  await_durable-IsAccounted :
      (ok : Bool) (bytes others : ℕ) (reqs : List Request) (w : Writer S C)
      → w.queued_bytes
        ≡ others
          + bytes
          + batch_bytes k.request_size w.queue.list
          + waiting_bytes w.durable_queue
          + ledger_bytes w.ledger
      → IsAccounted k.request_size others (await_durable k magma doc_cache ok bytes reqs w)
  unfolding await_durable waiting_bytes
  await_durable-IsAccounted ok bytes others reqs w charged =
      rw (waiting_bytes-append w.durable_queue) (omega (arith, charged))

  notify_batch-IsAccounted :
      (ok : Bool) (bytes others : ℕ) (reqs : List Request) (w : Writer S C)
      → w.queued_bytes
        ≡ others
          + bytes
          + batch_bytes k.request_size w.queue.list
          + waiting_bytes w.durable_queue
          + ledger_bytes w.ledger
      → IsAccounted k.request_size others (notify_batch k magma doc_cache ok bytes reqs w)
  unfolding notify_batch waiting_bytes ledger_bytes
  notify_batch-IsAccounted ok bytes others reqs w charged =
      let lsn = magma.get_wal_tail_lsn w.store in
      let by_owner = sort (λ a b. ltb (k.io_owner a) (k.io_owner b)) reqs in
      let orphans = (park_runs lsn (owner_runs k.io_owner by_owner)).1 in
      let left : PendingDurable = record { lsn = lsn; status_ok = ok; reqs = orphans; bytes = 0 } in
      let more = waiting_bytes-append w.durable_queue (left ∷ []) in
      let owed = ledger_bytes-append w.ledger ((lsn, bytes) ∷ []) in
      if_both
        (λ (d : List PendingDurable).
          w.queued_bytes
          ≡ others
            + batch_bytes k.request_size w.queue.list
            + waiting_bytes d
            + ledger_bytes (w.ledger ++ ((lsn, bytes) ∷ [])))
        (is_empty orphans) w.durable_queue (w.durable_queue ++ (left ∷ []))
        (omega (arith, charged, owed)) (omega (arith, charged, owed, more))

  finish_batch-IsAccounted :
      (ok : Bool) (bytes others : ℕ) (reqs : List Request) (w : Writer S C)
      → w.queued_bytes
        ≡ others
          + bytes
          + batch_bytes k.request_size w.queue.list
          + waiting_bytes w.durable_queue
          + ledger_bytes w.ledger
      → IsAccounted k.request_size others (finish_batch k magma doc_cache ok bytes reqs w)
  unfolding finish_batch
  finish_batch-IsAccounted ok bytes others reqs w charged = elim (Bool-cases k.is_durable) [
    | inl durable ↦ rw durable (omega (arith, charged))
    | inr async ↦
        let paid : Writer S C = record w { queued_bytes = w.queued_bytes - bytes } in
        let (same_bytes, same_waiting, same_queue, same_ledger) =
          recycle_requests-keeps (map (λ r. new_request) reqs) paid in
        rw (async, same_bytes, same_waiting, same_queue, same_ledger) (omega (arith, charged))
  ]

  prepared_bytes :
      (cas last : ℕ) (batch : List Request)
      → IsBatch batch
      → batch_bytes k.request_size
            (build_ops k magma doc_cache cas last (prepare k.exceeds k.batch_sort batch).0).0
          + batch_bytes k.request_size (prepare k.exceeds k.batch_sort batch).1
        ≡ batch_bytes k.request_size batch
  prepared_bytes cas last batch v =
      let n = k.request_size in
      let (kept, dropped) = prepare k.exceeds k.batch_sort batch in
      let measured = weigh-prepare (item_size n) k.exceeds k.batch_sort batch v in
      let stamped =
        weigh-build_ops (λ key value opaque. length key + length value + n) cas last kept in
      rw (batch_bytes-weigh n, batch_bytes-weigh n dropped, batch_bytes-weigh n batch, stamped)
        measured

  persist_batch-IsAccounted :
      (vbid cas now others : ℕ) (batch : List Request) (w : Writer S C)
      → IsBatch batch
      → w.queued_bytes
        ≡ others
          + batch_bytes k.request_size batch
          + batch_bytes k.request_size w.queue.list
          + waiting_bytes w.durable_queue
          + ledger_bytes w.ledger
      → IsAccounted k.request_size others (persist_batch k magma doc_cache vbid cas now batch w)
  unfolding persist_batch write_batch
  persist_batch-IsAccounted vbid cas now others batch w v charged =
      let (kept, dropped) = prepare k.exceeds k.batch_sort batch in
      let (ok, stamped, written) = write_batch k magma doc_cache vbid cas now kept w in
      let bytes = prepared_bytes cas w.seqno batch v in
      elim (Bool-cases (k.is_durable && (k.async_durable && ok))) [
        | inl waits ↦ rw waits (
            if_both (IsAccounted k.request_size others) k.has_notifier _ _
              (notify_batch-IsAccounted ok _ others (stamped ++ dropped) written
                (omega (arith, charged, bytes)))
              (await_durable-IsAccounted ok _ others (stamped ++ dropped) written
                (omega (arith, charged, bytes))))
        | inr done ↦ rw done (
            finish_batch-IsAccounted ok _ others (stamped ++ dropped) written
              (omega (arith, charged, bytes)))
      ]

  release-IsAccounted :
      (request_size others : ℕ) (w : Writer S C)
      → IsAccounted request_size others w
      → IsAccounted request_size others (release_vb_queue w)
  unfolding release_vb_queue release arm
  release-IsAccounted request_size others w v = elim (Bool-cases (is_empty w.queue.list)) [
    | inl none_left ↦ rw none_left v
    | inr more ↦ rw more v
  ]

  -- With `others` bytes charged for the other vbuckets, for a queue whose requests have keys of bytes, in
  -- sizes that 32 bits hold: `executePersist` keeps `queuedBytes_` equal to `others` and the bytes of the
  -- writes that are queued, wait for the log or are in the notifier's ledger, whether it sorts or not and
  -- however its batch ends: answered, left to `durableLoop`, or handed to the notifier.
  pub execute_persist-IsAccounted :
      (vbid cas now others : ℕ) (w : Writer S C)
      → IsBatch (reverse w.queue.list)
      → IsAccounted k.request_size others w
      → IsAccounted k.request_size others (execute_persist k magma doc_cache vbid cas now w).1
  unfolding execute_persist take_batch sweep_once batch_bytes
  execute_persist-IsAccounted vbid cas now others w v charged =
      let n = k.request_size in
      let (batch, q) = take_batch w.queue in
      let swept : Writer S C = record w { queue = q } in
      let turned : batch_bytes n batch ≡ batch_bytes n w.queue.list =
        reversed_bytes n w.queue.list in
      elim (Bool-cases (is_empty batch)) [
        | inl none_queued ↦
            let no_bytes : batch_bytes n batch ≡ 0 = rw (is_empty→nil batch none_queued) refl in
            rw none_queued
              (release-IsAccounted n others swept (omega (arith, charged, turned, no_bytes)))
        | inr some_queued ↦ rw some_queued (
            release-IsAccounted n others (persist_batch k magma doc_cache vbid cas now batch swept)
              (persist_batch-IsAccounted vbid cas now others batch swept v
                (omega (arith, charged, turned))))
      ]
