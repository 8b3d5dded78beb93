-- ===== src/Cache/Accounting.antt =====
-- The byte and entry counts of a queue.
use fluxkv.Base.{
  ℕ, ◌+◌, ◌-◌, ◌≤◌, ◌≡◌, List, [], ◌∷◌, ◌++◌, arith, length, length-append, if◌then◌else◌,
}
use fluxkv.Cache.Entry.{Entry, charge, pinned}
use fluxkv.Cache.Fifo.{Fifo, push_head}

-- What the entries of a queue are charged, and the pinned ones of them.
unfoldable pub total : List Entry → ℕ
total [] = 0
total (e ∷ es) = charge e + total es

unfoldable pub pinned_total : List Entry → ℕ
pinned_total [] = 0
pinned_total (e ∷ es) = (if pinned e then charge e else 0) + pinned_total es

pub record IsFifo (q : Fifo) : Type 0 where
  pub charged : q.bytes ≡ total q.items
  pub counted : q.count ≡ length q.items

pub total-append : (xs ys : List Entry) → total (xs ++ ys) ≡ total xs + total ys
unfolding total
total-append [] ys = omega arith
total-append (x ∷ xs) ys = omega (arith, total-append xs ys)

pub pinned_total-append :
    (xs ys : List Entry) → pinned_total (xs ++ ys) ≡ pinned_total xs + pinned_total ys
unfolding pinned_total
pinned_total-append [] ys = omega arith
pinned_total-append (x ∷ xs) ys = omega (arith, pinned_total-append xs ys)

pub pinned_total-le : (xs : List Entry) → pinned_total xs ≤ total xs
unfolding total pinned_total
pinned_total-le [] = omega arith
pinned_total-le (x ∷ xs) = ground (arith, pinned_total-le xs)

-- The entry goes in with the charge that it has when it is pushed.
pub push_head-IsFifo : (q : Fifo) (e : Entry) → IsFifo q → IsFifo (push_head q e)
unfolding push_head total
push_head-IsFifo q e v =
    ground (arith, total-append q.items (e ∷ []), length-append q.items (e ∷ []))

pub pop_tail-IsFifo :
    (q : Fifo) (e : Entry) (rest : List Entry)
    → q.items ≡ e ∷ rest
    → IsFifo q
    → IsFifo (record { items = rest; bytes = q.bytes - charge e; count = q.count - 1 })
unfolding total
pop_tail-IsFifo q e rest h v = ground arith
