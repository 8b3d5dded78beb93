-- ===== src/Engine/Gets/Dedupe.antt =====
-- Asking magma once for each key of a batch gives every read what it would have got alone.
use fluxkv.Base.{
  ℕ, ◌+◌, ◌≡◌, refl, ap, ◌∙◌, inl, inr, false, List, [], ◌∷◌, arith, map, length, ltb, All,
  Bool-cases, if◌then◌else◌,
}
use fluxkv.Cache.Entry.{bytes_eq, eq_of_bytes_eq}
use fluxkv.Metadata.Codec.{DocMeta, zero_meta, decode_or_zero}
use fluxkv.Engine.Request.{Request}
use fluxkv.Engine.Gets.{
  Fetched, FillCache, KeyReqs, is_hit, complete_single, complete_one, complete_loop, complete_gets,
  add_request, group_by_key, answer_slots, read_batch,
}
use fluxkv.Engine.Persist.Weights.{weigh, weigh-append}

complete_one-single :
    (d : Fetched) (r : Request)
    → complete_one d (if is_hit d then decode_or_zero d.meta else zero_meta) r ≡ complete_single d r
unfolding complete_one complete_single
complete_one-single d r = elim (Bool-cases (is_hit d)) [
  | inl hit ↦ elim (Bool-cases (ltb 0 (length d.value))) [
    | inl some_value ↦ rw (hit, some_value) refl
    | inr no_value ↦ rw (hit, no_value) refl
  ]
  | inr miss ↦ elim (Bool-cases d.is_ok_doc_not_found) [
    | inl absent ↦ rw (miss, absent) refl
    | inr failed ↦ rw (miss, failed) refl
  ]
]

complete_loop-map :
    {C : Type 0} (cache : FillCache C) (vbid : ℕ) (d : Fetched) (dm : DocMeta) (rs : List Request)
    (c : C)
    → (complete_loop cache vbid d dm rs c).0 ≡ map (complete_one d dm) rs
unfolding complete_loop
complete_loop-map cache vbid d dm [] c = refl
complete_loop-map cache vbid d dm (r ∷ rs) c =
    ap (◌∷◌ (complete_one d dm r)) (complete_loop-map cache vbid d dm rs _)

module _ (fetch : List ℕ → Fetched) (f : Request → ℕ) where
  -- A read that was answered alone, measured.
  abbrev alone : List ℕ → Request → ℕ
  alone key r = f (complete_single (fetch key) r)

  abbrev by_slots : List KeyReqs → ℕ
  by_slots [] = 0
  by_slots (slot ∷ slots) = weigh (alone slot.key) slot.reqs + by_slots slots

  weigh-completed :
      (key : List ℕ) (dm : DocMeta) (rs : List Request)
      → dm ≡ (if is_hit (fetch key) then decode_or_zero (fetch key).meta else zero_meta)
      → weigh f (map (complete_one (fetch key) dm) rs) ≡ weigh (alone key) rs
  unfolding weigh
  weigh-completed key dm [] e = refl
  weigh-completed key dm (r ∷ rs) e =
      let same : complete_one (fetch key) dm r ≡ complete_single (fetch key) r =
        rw e (complete_one-single (fetch key) r) in
      rw (same, weigh-completed key dm rs e) refl

  weigh-complete_gets :
      {C : Type 0} (cache : FillCache C) (vbid : ℕ) (key : List ℕ) (rs : List Request) (c : C)
      → weigh f (complete_gets cache vbid (fetch key) rs c).0 ≡ weigh (alone key) rs
  unfolding complete_gets
  weigh-complete_gets cache vbid key rs c =
      let d = fetch key in
      let dm : DocMeta = if is_hit d then decode_or_zero d.meta else zero_meta in
      ap (weigh f) (complete_loop-map cache vbid d dm rs c) ∙ weigh-completed key dm rs refl

  weigh-answer_slots :
      {C : Type 0} (cache : FillCache C) (vbid : ℕ) (slots : List KeyReqs) (c : C)
      → weigh f (answer_slots cache vbid fetch slots c).0 ≡ by_slots slots
  unfolding answer_slots weigh
  weigh-answer_slots cache vbid [] c = refl
  weigh-answer_slots cache vbid (slot ∷ slots) c =
      let (front, filled) = complete_gets cache vbid (fetch slot.key) slot.reqs c in
      omega (
        arith,
        weigh-append f front (answer_slots cache vbid fetch slots filled).0,
        weigh-complete_gets cache vbid slot.key slot.reqs c,
        weigh-answer_slots cache vbid slots filled,
      )

  by_slots-add_request :
      (r : Request) (slots : List KeyReqs)
      → by_slots (add_request r slots) ≡ by_slots slots + alone r.key r
  unfolding add_request weigh
  by_slots-add_request r [] = omega arith
  by_slots-add_request r (slot ∷ slots) = elim (Bool-cases (bytes_eq slot.key r.key)) [
    | inr other ↦ rw other (omega (arith, by_slots-add_request r slots))
    | inl same ↦
        let own : alone slot.key r ≡ alone r.key r =
          ap (λ k. alone k r) (eq_of_bytes_eq slot.key r.key same) in
        rw same (omega (arith, own, weigh-append (alone slot.key) slot.reqs (r ∷ [])))
  ]

  by_slots-group_by_key :
      (rs : List Request) (slots : List KeyReqs)
      → by_slots (group_by_key rs slots) ≡ by_slots slots + weigh (λ r. alone r.key r) rs
  unfolding group_by_key weigh
  by_slots-group_by_key [] slots = omega arith
  by_slots-group_by_key (r ∷ rs) slots =
      omega (arith, by_slots-group_by_key rs (add_request r slots), by_slots-add_request r slots)

-- No two operations for one key.
abbrev pub IsDistinct : List KeyReqs → Type 0
IsDistinct [] = Unit {0}
IsDistinct (slot ∷ slots) = All (λ t. bytes_eq slot.key t.key ≡ false) slots × IsDistinct slots

add_request-apart :
    (k : List ℕ) (r : Request) (slots : List KeyReqs)
    → bytes_eq k r.key ≡ false
    → All (λ t. bytes_eq k t.key ≡ false) slots
    → All (λ t. bytes_eq k t.key ≡ false) (add_request r slots)
unfolding add_request
add_request-apart k r [] e h = (e, tt)
add_request-apart k r (slot ∷ slots) e (hs, h) = elim (Bool-cases (bytes_eq slot.key r.key)) [
  | inl same ↦ rw same (hs, h)
  | inr other ↦ rw other (hs, add_request-apart k r slots e h)
]

add_request-IsDistinct :
    (r : Request) (slots : List KeyReqs) → IsDistinct slots → IsDistinct (add_request r slots)
unfolding add_request
add_request-IsDistinct r [] h = (tt, tt)
add_request-IsDistinct r (slot ∷ slots) (hs, h) = elim (Bool-cases (bytes_eq slot.key r.key)) [
  | inl same ↦ rw same (hs, h)
  | inr other ↦
      rw other (add_request-apart slot.key r slots other hs, add_request-IsDistinct r slots h)
]

group_by_key-IsDistinct :
    (rs : List Request) (slots : List KeyReqs)
    → IsDistinct slots
    → IsDistinct (group_by_key rs slots)
unfolding group_by_key
group_by_key-IsDistinct [] slots h = h
group_by_key-IsDistinct (r ∷ rs) slots h =
    group_by_key-IsDistinct rs (add_request r slots) (add_request-IsDistinct r slots h)

-- Whatever magma holds and the cache does: by any measure of answered requests, a batch of reads that asks
-- magma once for each key sums up to its requests answered one by one with the single `Get`; and no two of its
-- operations are for one key.
pub read_batch-single :
    {C : Type 0} (cache : FillCache C) (vbid : ℕ) (fetch : List ℕ → Fetched) (batch : List Request)
    (c : C)
    → ((f : Request → ℕ)
        → weigh f (read_batch cache vbid fetch batch c).0
          ≡ weigh (λ r. f (complete_single (fetch r.key) r)) batch)
      × IsDistinct (group_by_key batch [])
unfolding read_batch
read_batch-single cache vbid fetch batch c = (
  (λ f.
      weigh-answer_slots fetch f cache vbid (group_by_key batch []) c
      ∙ (by_slots-group_by_key fetch f batch [] ∙ omega arith)),
  group_by_key-IsDistinct batch [] tt,
)
