-- ===== src/Engine/Stage/Delivery.antt =====
-- What is staged in a wake reaches the queues of its vbuckets, in the order in which it was staged.
use fluxkv.Base.{
  ℕ, ◌≡◌, ◌⊎◌, inl, inr, refl, ap, sym, ◌∙◌, Bool, true, false, List, [], ◌∷◌, ◌++◌, ◌==◌,
  if◌then◌else◌, arith, Bool-cases,
}
use fluxkv.Engine.Request.{Request}
use fluxkv.Engine.Queue.{push, count_pending, arm, insert_chain}
use fluxkv.Engine.Stage.{StagedVb, new_staged, StagingTable, Engine, store, flush_one, flush_all}

pub store-same : {A : Type 0} (f : ℕ → A) (i j : ℕ) (a : A) → (j == i) ≡ true → store f i a j ≡ a
unfolding store
store-same f i j a h = rw h refl

pub store-other :
    {A : Type 0} (f : ℕ → A) (i j : ℕ) (a : A) → (j == i) ≡ false → store f i a j ≡ f j
unfolding store
store-other f i j a h = rw h refl

-- The requests of a vbucket, newest first, that are staged and then that are queued.
abbrev pub held : ℕ → StagingTable × Engine → List Request
held v s = (s.0.vbs v).chain ++ (s.1.queues v).list

pub is_same : (i j : ℕ) → (j == i) ≡ true → j ≡ i
is_same i j h = ground (arith, h)

flush_one-held :
    (vbid v : ℕ) (t : StagingTable) (e : Engine) → held v (flush_one vbid t e) ≡ held v (t, e)
unfolding flush_one push count_pending arm insert_chain store
flush_one-held vbid v t e = elim (Bool-cases (v == vbid)) [
  | inl same ↦ rw (same, is_same vbid v same) refl
  | inr other ↦ rw other refl
]

flush_one-empty :
    (vbid v : ℕ) (t : StagingTable) (e : Engine)
    → (v == vbid) ≡ true
    → ((flush_one vbid t e).0.vbs v).chain ≡ []
unfolding flush_one
flush_one-empty vbid v t e same =
    ap (λ (s : StagedVb). s.chain) (store-same t.vbs vbid v new_staged same)

flush_one-other :
    (vbid v : ℕ) (t : StagingTable) (e : Engine)
    → (v == vbid) ≡ false
    → ((flush_one vbid t e).0.vbs v).chain ≡ (t.vbs v).chain
unfolding flush_one
flush_one-other vbid v t e other =
    ap (λ (s : StagedVb). s.chain) (store-other t.vbs vbid v new_staged other)

unfoldable pub touches : ℕ → List ℕ → Bool
touches v [] = false
touches v (w ∷ ws) = if v == w then true else touches v ws

-- Nothing of the vbucket is staged, or the list names it.
abbrev pub Listed : ℕ → List ℕ → StagingTable → Type 0
Listed v vbids t = ((t.vbs v).chain ≡ []) ⊎ (touches v vbids ≡ true)

flush_one-Listed :
    (vbid v : ℕ) (vbids : List ℕ) (t : StagingTable) (e : Engine)
    → Listed v (vbid ∷ vbids) t
    → Listed v vbids (flush_one vbid t e).0
unfolding touches
flush_one-Listed vbid v vbids t e h = elim (Bool-cases (v == vbid)) [
  | inl same ↦ inl (flush_one-empty vbid v t e same)
  | inr other ↦ elim h [
    | inl clear ↦ inl (flush_one-other vbid v t e other ∙ clear)
    | inr named ↦ inr (rw other at named)
  ]
]

-- The loop leaves nothing staged, and everything in the queues.
pub flush_all-list :
    (v : ℕ) (vbids : List ℕ) (t : StagingTable) (e : Engine)
    → Listed v vbids t
    → (((flush_all vbids t e).0.vbs v).chain ≡ [])
      × (((flush_all vbids t e).1.queues v).list ≡ held v (t, e))
unfolding flush_all touches
flush_all-list v [] t e (inl clear) = (clear, ap (λ c. c ++ (e.queues v).list) (sym clear))
flush_all-list v [] t e (inr named) = absurd (ground (arith, named))
flush_all-list v (vbid ∷ vbids) t e h =
    let later =
      flush_all-list v vbids (flush_one vbid t e).0 (flush_one vbid t e).1
        (flush_one-Listed vbid v vbids t e h) in
    (later.0, later.1 ∙ flush_one-held vbid v t e)

pub flush_all-queued_bytes :
    (vbids : List ℕ) (t : StagingTable) (e : Engine)
    → (flush_all vbids t e).1.queued_bytes ≡ e.queued_bytes
unfolding flush_all flush_one
flush_all-queued_bytes [] t e = refl
flush_all-queued_bytes (vbid ∷ vbids) t e =
    flush_all-queued_bytes vbids (flush_one vbid t e).0 (flush_one vbid t e).1
