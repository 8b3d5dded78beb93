-- ===== src/Engine/Reads/Order.antt =====
-- What `collectRead` of server/engine.cc takes from a read queue, and in which order.
use fluxkv.Base.{
  take-drop, drop_none, ℕ, suc, zero, ◌≤◌, ◌<◌, ◌≡◌, refl, ap, sym, ◌∙◌, ◌⊎◌, inl, inr, false, List,
  [], ◌∷◌, ◌++◌, arith, length, take, drop, ltb, length-take, Bool-cases, if◌then◌else◌,
}
use fluxkv.Engine.Request.{Request}
use fluxkv.Engine.Queue.{is_empty, sweep_once}
use fluxkv.Engine.Reads.{ReadQueue, drain_overflow, sweep_reads, cap_batch, collect_read}
use mathlib.Core.List.{reverse, append_assoc, append-nil}

take-few : {A : Type 0} (n : ℕ) (l : List A) → length l ≤ n → take n l ≡ l
take-few n l h = sym (append-nil (take n l)) ∙ rw (← drop_none n l h) (take-drop n l)

take-nil : {A : Type 0} (n : ℕ) (l : List A) → 0 < n → take n l ≡ [] → l ≡ []
take-nil zero l h e = absurd (omega arith)
take-nil (suc n) [] h e = refl
take-nil (suc n) (a ∷ l) h e = cc

-- A batch that is within the cap, or behind which there is no overflow, and what is left are in order.
cap_batch-in_order :
    (max_batch : ℕ) (b : List Request) (q : ReadQueue)
    → (q.overflow ≡ []) ⊎ (length b ≤ max_batch)
    → (cap_batch max_batch b q).0 ++ ((cap_batch max_batch b q).1.overflow ++ reverse q.list)
      ≡ b ++ (q.overflow ++ reverse q.list)
unfolding cap_batch
cap_batch-in_order m b q (inr few) =
    let within : ltb m (length b) ≡ false = ground arith in rw (within, take-few m b few) refl
cap_batch-in_order m b q (inl none_over) = elim (Bool-cases (ltb m (length b))) [
  | inr within ↦ rw (within, take-few m b (ground arith)) refl
  | inl over ↦
      rw (over, none_over)
        (sym (append_assoc (take m b) (drop m b) (reverse q.list)) ∙ rw (take-drop m b) refl)
]

-- The end of `collectRead`, for any batch and what it was taken from.
finish_collect :
    (max_batch : ℕ) (b waited : List Request) (q : ReadQueue)
    → 0 < max_batch
    → (q.overflow ≡ []) ⊎ (length b ≤ max_batch)
    → b ++ (q.overflow ++ reverse q.list) ≡ waited
    → (b ≡ [] → waited ≡ [])
    → (let r : List Request × ReadQueue = if is_empty b then (b, q) else cap_batch max_batch b q in
        (r.0 ++ (r.1.overflow ++ reverse r.1.list) ≡ waited)
        × (length r.0 ≤ max_batch)
        × (r.0 ≡ [] → waited ≡ []))
unfolding cap_batch
finish_collect m [] waited q h few order none_left = (order, omega arith, none_left)
finish_collect m (r ∷ b) waited q h few order none_left = (
  cap_batch-in_order m (r ∷ b) q few ∙ order,
  omega (arith, length-take m (r ∷ b)),
  λ e. none_left (take-nil m (r ∷ b) h e),
)

append-none : (a b : List Request) → a ++ b ≡ [] → a ≡ []
append-none [] b e = refl
append-none (r ∷ a) b e = cc

-- With no other owner between its parts, and a cap above 0: the batch of `collectRead`, then the overflow and
-- the new requests that it leaves, are the overflow and the new requests that it found, each part in the
-- order of arrival; the batch is within the cap; and it is empty only if nothing was waiting.
pub collect_read-in_order :
    (max_batch : ℕ) (q : ReadQueue)
    → 0 < max_batch
    → ((collect_read max_batch q).0
          ++ ((collect_read max_batch q).1.overflow ++ reverse (collect_read max_batch q).1.list)
        ≡ q.overflow ++ reverse q.list)
      × (length (collect_read max_batch q).0 ≤ max_batch)
      × ((collect_read max_batch q).0 ≡ [] → q.overflow ++ reverse q.list ≡ [])
unfolding collect_read drain_overflow sweep_reads sweep_once
collect_read-in_order m q h =
    let older = take m q.overflow in
    let size = length-take m q.overflow in
    let parts = take-drop m q.overflow in
    elim (Bool-cases (ltb (length older) m)) [
      | inl room ↦
          let none_over = drop_none m q.overflow (ground (arith, size)) in
          let whole : older ++ [] ≡ q.overflow = rw none_over at parts in
          let same : older ≡ q.overflow = sym (append-nil older) ∙ whole in
          let left : ReadQueue = record q { overflow = drop m q.overflow; list = [] } in
          rw room (
            finish_collect m (older ++ reverse q.list) (q.overflow ++ reverse q.list) left h
              (inl none_over) (rw (none_over, append-nil, same) refl) (λ e. rw same at e))
      | inr full ↦
          let left : ReadQueue = record q { overflow = drop m q.overflow } in
          rw full (
            finish_collect m older (q.overflow ++ reverse q.list) left h (inr (omega (arith, size)))
              (sym (append_assoc older (drop m q.overflow) (reverse q.list)) ∙ rw parts refl)
              (λ e. absurd (ground (arith, ap length e))))
    ]
