-- ===== src/Engine/Persist/Answers.antt =====
-- Who is answered after `executePersist` and `durableLoop`, in the durable mode.
use fluxkv.Base.{
  ℕ, ◌+◌, ◌≤◌, ◌<◌, ◌≡◌, refl, ap, ◌∙◌, inl, inr, false, List, [], ◌∷◌, ◌++◌, arith, map, leb, All,
  Bool-cases,
}
use fluxkv.Engine.Request.{Request}
use fluxkv.Engine.Persist.{Writer, PendingDurable, batch_bytes, with_status}
use fluxkv.Engine.Persist.Durable.{take_durable, complete_batch, complete_all, durable_round}
use fluxkv.Engine.Persist.Weights.{weigh, weigh-append}
use fluxkv.Engine.Persist.Settles.{by_write, IsAccounted, in_hand, weigh-with_status}
use fluxkv.Engine.Persist.Waiting.{waiting_bytes, waiting, parked_weight, ledger_bytes}

take_durable-parts :
    (durable : ℕ) (ps : List PendingDurable)
    → (take_durable durable ps).0 ++ (take_durable durable ps).1 ≡ ps
unfolding take_durable
take_durable-parts durable [] = refl
take_durable-parts durable (p ∷ ps) = elim (Bool-cases (leb p.lsn durable)) [
  | inl reached ↦ rw reached (ap (◌∷◌ p) (take_durable-parts durable ps))
  | inr ahead ↦ rw ahead refl
]

-- The log has not reached the first batch.
abbrev pub IsAhead : ℕ → List PendingDurable → Type 0
IsAhead durable [] = Unit {0}
IsAhead durable (p ∷ ps) = durable < p.lsn

take_durable-IsAhead :
    (durable : ℕ) (ps : List PendingDurable) → IsAhead durable (take_durable durable ps).1
unfolding take_durable
take_durable-IsAhead durable [] = tt
take_durable-IsAhead durable (p ∷ ps) = elim (Bool-cases (leb p.lsn durable)) [
  | inl reached ↦ rw reached (take_durable-IsAhead durable ps)
  | inr ahead ↦ rw ahead (ground arith)
]

take_durable-reached :
    (durable : ℕ) (ps : List PendingDurable)
    → All (λ p. p.lsn ≤ durable) (take_durable durable ps).0
unfolding take_durable
take_durable-reached durable [] = tt
take_durable-reached durable (p ∷ ps) = elim (Bool-cases (leb p.lsn durable)) [
  | inl reached ↦ rw reached (ground arith, take_durable-reached durable ps)
  | inr ahead ↦ rw ahead tt
]

module _ {S C : Type 0} (request_size others : ℕ) (g : List ℕ → List ℕ → ℕ → ℕ) where
  answered_weight :
      (p : PendingDurable) (w : Writer S C)
      → weigh (by_write g) (complete_batch p w).answered
        ≡ weigh (by_write g) w.answered + weigh (by_write g) p.reqs
  unfolding complete_batch
  answered_weight p w = elim (Bool-cases p.status_ok) [
    | inl ok ↦ rw ok (weigh-append (by_write g) w.answered p.reqs)
    | inr failed ↦
        rw
          (
            failed,
            weigh-append (by_write g) w.answered (map (with_status false) p.reqs),
            weigh-with_status g false p.reqs,
          )
          refl
  ]

  complete_all-settles :
      (ready : List PendingDurable) (w : Writer S C)
      → w.queued_bytes
        ≡ others
          + batch_bytes request_size w.queue.list
          + waiting_bytes (ready ++ w.durable_queue)
          + ledger_bytes w.ledger
      → IsAccounted request_size others (complete_all ready w)
        × (in_hand (by_write g) (complete_all ready w)
            ≡ weigh (by_write g) w.answered
              + waiting (by_write g) (ready ++ w.durable_queue)
              + parked_weight (by_write g) w.parked
              + parked_weight (by_write g) w.parked_local
              + weigh (by_write g) w.queue.list)
        × ((complete_all ready w).durable_queue ≡ w.durable_queue)
  unfolding complete_all complete_batch waiting waiting_bytes
  complete_all-settles [] w charged = (charged, refl, refl)
  complete_all-settles (p ∷ ready) w charged =
      let next = complete_batch p w in
      let (bytes, hand, left) = complete_all-settles ready next (omega (arith, charged)) in
      (bytes, hand ∙ omega (arith, answered_weight p w), left)

  -- A round of `durableLoop`, when the log has reached an LSN, in a state where `queuedBytes_` is the sum of
  -- `others`, the bytes of the writes that are queued or wait for the log, and the notifier's ledger: it takes
  -- a front of the durable queue, of batches that the log has reached, up to the first that it has not reached;
  -- `queuedBytes_` stays that sum; and, by any measure of writes by what their clients sent, the sum over those
  -- that are queued, that wait, that are parked on an IO loop and that are answered stays the same.
  pub durable_round-settles :
      (durable : ℕ) (w : Writer S C)
      → IsAccounted request_size others w
      → IsAccounted request_size others (durable_round durable w)
        × (in_hand (by_write g) (durable_round durable w) ≡ in_hand (by_write g) w)
        × (ready : List PendingDurable) × (ready ++ (durable_round durable w).durable_queue
            ≡ w.durable_queue)
        × All (λ p. p.lsn ≤ durable) ready
        × IsAhead durable (durable_round durable w).durable_queue
  unfolding durable_round
  durable_round-settles durable w charged =
      let (ready, rest) = take_durable durable w.durable_queue in
      let parts = take_durable-parts durable w.durable_queue in
      let start : Writer S C = record w { durable_queue = rest } in
      let (bytes, hand, left) = complete_all-settles ready start (charged ∙ rw parts refl) in
      (
        bytes,
        hand ∙ rw parts refl,
        ready,
        rw left parts,
        take_durable-reached durable w.durable_queue,
        rw left (take_durable-IsAhead durable w.durable_queue),
      )
