-- ===== src/Engine/Persist/Waiting.antt =====
-- What waits for the log, measured: in the durable queue, in the notifier's chains and in its ledger.
use fluxkv.Base.{ℕ, ◌+◌, ◌≡◌, List, [], ◌∷◌, ◌++◌, arith}
use fluxkv.Engine.Request.{Request}
use fluxkv.Engine.Persist.{PendingDurable, Parked}
use fluxkv.Engine.Persist.Weights.{weigh}

unfoldable pub waiting_bytes : List PendingDurable → ℕ
waiting_bytes [] = 0
waiting_bytes (p ∷ ps) = p.bytes + waiting_bytes ps

unfoldable pub waiting : (Request → ℕ) → List PendingDurable → ℕ
waiting f [] = 0
waiting f (p ∷ ps) = weigh f p.reqs + waiting f ps

pub waiting_bytes-append :
    (ps qs : List PendingDurable) → waiting_bytes (ps ++ qs) ≡ waiting_bytes ps + waiting_bytes qs
unfolding waiting_bytes
waiting_bytes-append [] qs = omega arith
waiting_bytes-append (p ∷ ps) qs = omega (arith, waiting_bytes-append ps qs)

pub waiting-append :
    (f : Request → ℕ) (ps qs : List PendingDurable)
    → waiting f (ps ++ qs) ≡ waiting f ps + waiting f qs
unfolding waiting
waiting-append f [] qs = omega arith
waiting-append f (p ∷ ps) qs = omega (arith, waiting-append f ps qs)

unfoldable pub parked_weight : (Request → ℕ) → List Parked → ℕ
parked_weight f [] = 0
parked_weight f (p ∷ ps) = weigh f p.reqs + parked_weight f ps

pub parked_weight-append :
    (f : Request → ℕ) (ps qs : List Parked)
    → parked_weight f (ps ++ qs) ≡ parked_weight f ps + parked_weight f qs
unfolding parked_weight
parked_weight-append f [] qs = omega arith
parked_weight-append f (p ∷ ps) qs = omega (arith, parked_weight-append f ps qs)

unfoldable pub ledger_bytes : List (ℕ × ℕ) → ℕ
ledger_bytes [] = 0
ledger_bytes (e ∷ es) = e.1 + ledger_bytes es

pub ledger_bytes-append :
    (ps qs : List (ℕ × ℕ)) → ledger_bytes (ps ++ qs) ≡ ledger_bytes ps + ledger_bytes qs
unfolding ledger_bytes
ledger_bytes-append [] qs = omega arith
ledger_bytes-append (e ∷ es) qs = omega (arith, ledger_bytes-append es qs)
