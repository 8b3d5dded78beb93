-- ===== src/Engine/Persist/Durable.antt =====
-- Who completes the batches that wait for the log, of server/engine.cc: `durableLoop`, and `release` and
-- `DrainDurable` of the durable notifier.
use fluxkv.Base.{ℕ, ◌+◌, ◌-◌, Bool, ◌&&◌, List, [], ◌∷◌, ◌++◌, map, leb, ◌==◌, if◌then◌else◌}
use fluxkv.Engine.Request.{Request}
use fluxkv.Engine.Persist.{Writer, PendingDurable, Parked, with_status}

-- The batches at the front of the durable queue that the log has reached, and the others.
unfoldable pub take_durable : ℕ → List PendingDurable → List PendingDurable × List PendingDurable
take_durable durable [] = ([], [])
take_durable durable (p ∷ ps) =
    let (ready, rest) = take_durable durable ps in
    if leb p.lsn durable then (p ∷ ready, rest) else ([], p ∷ ps)

-- The end of one batch of `durableLoop`.
unfoldable pub complete_batch : {S C : Type 0} → PendingDurable → Writer S C → Writer S C
unfolding with_status
complete_batch p w = record w {
  answered = w.answered ++ (if p.status_ok then p.reqs else map (with_status p.status_ok) p.reqs);
  queued_bytes = w.queued_bytes - p.bytes;
}

unfoldable pub complete_all : {S C : Type 0} → List PendingDurable → Writer S C → Writer S C
unfolding complete_batch
complete_all [] w = w
complete_all (p ∷ ps) w = complete_all ps (complete_batch p w)

-- A round of `durableLoop`, with the LSN that the log has reached.
unfoldable pub durable_round : {S C : Type 0} → ℕ → Writer S C → Writer S C
unfolding take_durable complete_all
durable_round durable w =
    let (ready, rest) = take_durable durable w.durable_queue in
    complete_all ready (record w { durable_queue = rest })

-- `DurableNotifier::release`: the bytes of the ledger's entries that the log has reached, and the others.
unfoldable pub split_ledger : ℕ → List (ℕ × ℕ) → ℕ × List (ℕ × ℕ)
split_ledger durable [] = (0, [])
split_ledger durable ((lsn, n) ∷ es) =
    let (bytes, kept) = split_ledger durable es in
    if leb lsn durable then (n + bytes, kept) else (bytes, (lsn, n) ∷ kept)

unfoldable pub release_ledger : {S C : Type 0} → ℕ → Writer S C → Writer S C
unfolding split_ledger
release_ledger durable w =
    let (bytes, kept) = split_ledger durable w.ledger in
    record w { queued_bytes = w.queued_bytes - bytes; ledger = kept }

-- The chains of a test, and the others, both in order.
unfoldable pub split_chains : (Parked → Bool) → List Parked → List Parked × List Parked
split_chains test [] = ([], [])
split_chains test (p ∷ ps) =
    let (yes_chains, no_chains) = split_chains test ps in
    if test p then (p ∷ yes_chains, no_chains) else (yes_chains, p ∷ no_chains)

unfoldable pub chained_requests : List Parked → List Request
chained_requests [] = []
chained_requests (p ∷ ps) = p.reqs ++ chained_requests ps

-- `DurableNotifier::DrainDurable` of the loop `t`, which finds the notifier set.
unfoldable pub drain_durable : {S C : Type 0} → ℕ → ℕ → Writer S C → Writer S C
unfolding split_chains chained_requests
drain_durable t durable w =
    let (mine, others) = split_chains (λ p. p.loop == t) w.parked in
    let (done, kept) =
      split_chains (λ p. p.loop == t && leb p.lsn durable) (w.parked_local ++ mine) in
    record w {
      parked = others;
      parked_local = kept;
      answered = w.answered ++ chained_requests done;
    }
