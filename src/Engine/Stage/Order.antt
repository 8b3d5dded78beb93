-- ===== src/Engine/Stage/Order.antt =====
-- A wake of writes, from the first `StageWrite` to `FlushStaged`, against the list of the requests it took.
use fluxkv.Base.{
  ℕ, suc, ◌+◌, ◌^◌, ◌<◌, ◌≤◌, ◌≡◌, inl, inr, refl, ap, sym, ◌∙◌, true, false, List, [], ◌∷◌, ◌++◌,
  some, length, ltb, ◌==◌, if◌then◌else◌, arith, Each, Each-map, Each-some, if_both, Bool-cases,
}
use fluxkv.Engine.Request.{Request}
use fluxkv.Engine.Stage.{
  staged, StagedVb, StagingTable, new_table, Engine, store, item_size, stage_write, stage_all,
  flush_staged, max_vbuckets,
}
use fluxkv.Engine.Stage.Delivery.{
  store-same, store-other, touches, Listed, flush_all-list, flush_all-queued_bytes, is_same,
}
use mathlib.Core.List.{reverse, reverse-cons, append_assoc, append-nil}

-- The requests of one vbucket, in order.
unfoldable pub of_vbucket : ℕ → List Request → List Request
of_vbucket v [] = []
of_vbucket v (r ∷ rs) = if v == r.vbucket then r ∷ of_vbucket v rs else of_vbucket v rs

unfoldable pub sizes : ℕ → List Request → ℕ
sizes request_size [] = 0
sizes request_size (r ∷ rs) = item_size request_size r + sizes request_size rs

-- After `n` writes of a wake: a count is the length of its chain, and every chain is listed.
record IsTable (n : ℕ) (t : StagingTable) : Type 0 where
  counted : (v : ℕ) → (t.vbs v).count ≡ length (t.vbs v).chain
  few : (v : ℕ) → length (t.vbs v).chain ≤ n
  listed : (v : ℕ) → Listed v t.touched t

touches-append : (v w : ℕ) (vs : List ℕ) → touches v vs ≡ true → touches v (vs ++ (w ∷ [])) ≡ true
unfolding touches
touches-append v w [] h = ground (arith, h)
touches-append v w (x ∷ xs) h = elim (Bool-cases (v == x)) [
  | inl same ↦ rw same refl
  | inr other ↦ rw other (touches-append v w xs (rw other at h))
]

touches-last : (v w : ℕ) (vs : List ℕ) → (v == w) ≡ true → touches v (vs ++ (w ∷ [])) ≡ true
unfolding touches
touches-last v w [] h = rw h refl
touches-last v w (x ∷ xs) h = elim (Bool-cases (v == x)) [
  | inl same ↦ rw same refl
  | inr other ↦ rw other (touches-last v w xs h)
]

now_touched :
    (request_size n : ℕ) (r : Request) (t : StagingTable)
    → IsTable n t
    → (w : ℕ) → (w == r.vbucket) ≡ true
    → touches w (staged request_size r t).touched ≡ true
unfolding staged
now_touched request_size n r t v w same = elim (Bool-cases ((t.vbs r.vbucket).count == 0)) [
  | inl first ↦ rw first (touches-last w r.vbucket t.touched same)
  | inr again ↦ rw again (elim (v.listed w) [
    | inl clear ↦
        let at : w ≡ r.vbucket = is_same r.vbucket w same in
        let none_there : (t.vbs r.vbucket).count ≡ 0 = rw (← at) (v.counted w ∙ ap length clear) in
        absurd (ground (arith, again, none_there))
    | inr named ↦ named
  ])
]

staged-IsTable :
    (request_size n : ℕ) (r : Request) (t : StagingTable)
    → suc n < 2 ^ 32
    → IsTable n t
    → IsTable (suc n) (staged request_size r t)
unfolding staged
staged-IsTable request_size n r t small v = record {
  counted = λ w. elim (Bool-cases (w == r.vbucket)) [
    | inl same ↦
        rw (store-same t.vbs r.vbucket w _ same)
          (omega (arith, v.counted r.vbucket, v.few r.vbucket, small))
    | inr other ↦ rw (store-other t.vbs r.vbucket w _ other) (v.counted w)
  ];
  few = λ w. elim (Bool-cases (w == r.vbucket)) [
    | inl same ↦ rw (store-same t.vbs r.vbucket w _ same) (omega (arith, v.few r.vbucket))
    | inr other ↦ rw (store-other t.vbs r.vbucket w _ other) (omega (arith, v.few w))
  ];
  listed = λ w. elim (Bool-cases (w == r.vbucket)) [
    | inl same ↦ inr (now_touched request_size n r t v w same)
    | inr other ↦ elim (v.listed w) [
      | inl clear ↦
          inl (ap (λ (s : StagedVb). s.chain) (store-other t.vbs r.vbucket w _ other) ∙ clear)
      | inr named ↦ inr (
          if_both (λ ws. touches w ws ≡ true) ((t.vbs r.vbucket).count == 0) _ _
            (touches-append w r.vbucket t.touched named) named)
    ]
  ];
}

-- What staging from `t` on came to: the requests that were admitted, and the table.
record IsWake (request_size limit queued : ℕ) (t : StagingTable) (w : List Request × StagingTable)
    : Type 0 where
  chains : (v : ℕ) → (w.1.vbs v).chain ≡ reverse (of_vbucket v w.0) ++ (t.vbs v).chain
  all_listed : (v : ℕ) → Listed v w.1.touched w.1
  charged : w.1.bytes ≡ t.bytes + sizes request_size w.0
  room : queued + t.bytes ≤ limit → queued + w.1.bytes ≤ limit

chain-staged :
    (request_size v : ℕ) (r : Request) (rs : List Request) (t : StagingTable)
    → reverse (of_vbucket v rs) ++ ((staged request_size r t).vbs v).chain
      ≡ reverse (of_vbucket v (r ∷ rs)) ++ (t.vbs v).chain
unfolding staged of_vbucket store
chain-staged request_size v r rs t = elim (Bool-cases (v == r.vbucket)) [
  | inl same ↦
      let at : v ≡ r.vbucket = is_same r.vbucket v same in
      let xs = of_vbucket v rs in
      let chain = (t.vbs r.vbucket).chain in
      rw same (
        sym (append_assoc (reverse xs) (r ∷ []) chain)
        ∙ ap (λ q. q ++ chain) (sym (reverse-cons r xs))
        ∙ ap (λ i. reverse (r ∷ xs) ++ (t.vbs i).chain) (sym at))
  | inr other ↦ rw other refl
]

within :
    (limit queued bytes size : ℕ)
    → ltb limit (queued + bytes + size) ≡ false
    → queued + (bytes + size) ≤ limit
within limit queued bytes size h = ground (arith, h)

stage_all-IsWake :
    (request_size limit queued n : ℕ) (rs : List Request) (t : StagingTable)
    → n + length rs < 2 ^ 32
    → IsTable n t
    → Each (IsWake request_size limit queued t) (stage_all request_size limit queued rs t)
unfolding stage_all stage_write of_vbucket sizes
stage_all-IsWake request_size limit queued n [] t small v = record {
  chains = λ w. refl;
  all_listed = v.listed;
  charged = omega arith;
  room = λ h. h;
}
stage_all-IsWake request_size limit queued n (r ∷ rs) t small v =
    elim (Bool-cases (ltb limit (queued + t.bytes + item_size request_size r))) [
      | inl over ↦ rw over (
          Each-map (IsWake request_size limit queued t) (IsWake request_size limit queued t)
            (stage_all request_size limit queued rs t) _
            (stage_all-IsWake request_size limit queued n rs t (omega arith) v) (λ w wake. wake))
      | inr fits ↦ elim (Bool-cases (ltb r.vbucket max_vbuckets)) [
        | inl inside ↦
            rw (fits, inside)
              (Each-map (IsWake request_size limit queued (staged request_size r t))
                (IsWake request_size limit queued t)
                (stage_all request_size limit queued rs (staged request_size r t)) _
                (stage_all-IsWake request_size limit queued (suc n) rs (staged request_size r t)
                  (omega arith) (staged-IsTable request_size n r t (omega arith) v))
                (λ w wake. record {
                  chains = λ u. wake.chains u ∙ chain-staged request_size u r w.0 t;
                  all_listed = wake.all_listed;
                  charged = wake.charged ∙ omega arith;
                  room =
                      λ _. wake.room (within limit queued t.bytes (item_size request_size r) fits);
                }))
        | inr outside ↦ rw (fits, outside) tt
      ]
    ]

new_table-IsTable : IsTable 0 new_table
new_table-IsTable = record { counted = λ v. refl; few = λ v. omega arith; listed = λ v. inl refl }

-- A wake of fewer than 2^32 writes, on the empty table, implements its abstract view, the list of the writes
-- that `StageWrite` admitted: if no admitted write names a vbucket outside of the arrays, `FlushStaged` puts
-- before what is queued for each vbucket the admitted writes for that vbucket, newest first, as the stack of
-- its queue has them; nothing stays staged for it; `queuedBytes_` grows by the sizes of the admitted writes;
-- and if the value that was read is within the limit, so is its sum with these sizes.
pub flush_staged-stage_all :
    (request_size limit queued : ℕ) (rs admitted : List Request) (t : StagingTable) (e : Engine)
    → length rs < 2 ^ 32
    → queued ≤ limit
    → stage_all request_size limit queued rs new_table ≡ some (admitted, t)
    → ((v : ℕ)
        → (((flush_staged t e).1.queues v).list
            ≡ reverse (of_vbucket v admitted) ++ (e.queues v).list)
          × (((flush_staged t e).0.vbs v).chain ≡ []))
      × ((flush_staged t e).1.queued_bytes ≡ e.queued_bytes + sizes request_size admitted)
      × (queued + sizes request_size admitted ≤ limit)
unfolding flush_staged
flush_staged-stage_all request_size limit queued rs admitted t e short fits run =
    let wake =
      Each-some (IsWake request_size limit queued new_table)
        (stage_all request_size limit queued rs new_table) (admitted, t)
        (stage_all-IsWake request_size limit queued 0 rs new_table (omega (arith, short))
          new_table-IsTable)
        run in
    let charged : Engine = record e { queued_bytes = e.queued_bytes + t.bytes } in
    let cleared : StagingTable = record t { bytes = 0 } in
    let flushed = λ (v : ℕ). flush_all-list v t.touched cleared charged (wake.all_listed v) in
    (
      λ v. (
        (flushed v).1
            ∙ ap (λ c. c ++ (e.queues v).list)
                (wake.chains v ∙ append-nil (reverse (of_vbucket v admitted))),
        (flushed v).0,
      ),
      flush_all-queued_bytes t.touched cleared charged ∙ omega (arith, wake.charged),
      (let room = wake.room (omega (arith, fits)) in omega (arith, wake.charged, room)),
    )
