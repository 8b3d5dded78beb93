-- ===== src/Cache/Holds/Mark.antt =====
-- `MarkPersisted`, seen from its key.
use fluxkv.Base.{
  ℕ, ◌+◌, ◌-◌, ◌%◌, ◌^◌, ◌<◌, ◌≡◌, refl, sym, ap, subst, false, List, none, some, inl, inr, arith,
  if◌then◌else◌, ltb, ◌==◌, Bool-cases,
}
use fluxkv.Cache.Entry.{Entry, vb_key}
use fluxkv.Cache.Shard.{Shard, bytes, find}
use fluxkv.Cache.Holds.{Holds}
use fluxkv.Cache.Holds.Views.{Holds-same}
use fluxkv.Cache.Holds.Under.{find_under}
use fluxkv.Cache.Holds.Update.{applied-KeepsKey, update-Holds}
use fluxkv.Cache.Ops.{update}
use fluxkv.Cache.Machine.{marked}
use fluxkv.Cache.Fill.{applied, mark_applied}

module _ (hash_key : ℕ → List ℕ → ℕ) where
  marks_found :
      (s : Shard) (vbid : ℕ) (key : List ℕ) (seqno : ℕ) (e : Entry)
      → find s (hash_key vbid key) (vb_key vbid key) ≡ some e
      → Holds hash_key (update s e (applied seqno)) (vb_key vbid key) (some (applied seqno e))
      → Holds hash_key
          (marked (mark_applied hash_key s vbid key seqno))
          (vb_key vbid key)
          (some (applied seqno e))
  unfolding mark_applied
  marks_found s vbid key seqno e h v =
      let s' = update s e (applied seqno) in
      let released = record s' { pending_items = s'.pending_items - 1 } in
      let done = if e.pending == 1 then (released, ltb s'.budget (bytes s')) else (s', false) in
      let after : marked (mark_applied hash_key s vbid key seqno) ≡ marked done =
        ap
          (λ x. marked (elim x [
            | none ↦ (s, false)
            | some e ↦
                (let s' = update s e (applied seqno) in
                  if e.pending == 1
                  then (
                    record s' { pending_items = s'.pending_items - 1 },
                    ltb s'.budget (bytes s'),
                  )
                  else (s', false))
          ]))
          h in
      subst (λ t. Holds hash_key t (vb_key vbid key) (some (applied seqno e))) (sym after)
        (elim (Bool-cases (e.pending == 1)) [
          | inl last ↦ rw last (
              Holds-same hash_key s' released (vb_key vbid key) (some (applied seqno e)) refl refl
                refl v)
          | inr more ↦ rw more v
        ])

  -- The locked part of `MarkPersisted` releases one of the pins of the entry under its key and stores
  -- the sequence number if that is not 0; all else of the entry stays. The vbuckets are uint16_t, the
  -- entry has a pin, and its pins are fewer than 2 ^ 32.
  pub mark_applied-Holds :
      (s : Shard) (vbid : ℕ) (key : List ℕ) (seqno : ℕ) (e : Entry) (pins : ℕ)
      → vbid < 2 ^ 16
      → e.vbid < 2 ^ 16
      → e.pending ≡ pins + 1
      → pins + 1 < 2 ^ 32
      → Holds hash_key s (vb_key vbid key) (some e)
      → Holds hash_key
          (marked (mark_applied hash_key s vbid key seqno))
          (vb_key vbid key)
          (some (record e { seqno = if seqno == 0 then e.seqno else seqno; pending = pins }))
  mark_applied-Holds s vbid key seqno e pins hv he pinned bound v =
      let found = find_under hash_key s vbid key e hv he v in
      let now =
        update-Holds hash_key s e (applied seqno) (vb_key vbid key) (applied-KeepsKey seqno) v in
      let fewer : (e.pending + 2 ^ 32 - 1) % 2 ^ 32 ≡ pins = omega arith in
      subst
        (λ n.
          Holds hash_key (marked (mark_applied hash_key s vbid key seqno)) (vb_key vbid key)
            (some (record e { seqno = if seqno == 0 then e.seqno else seqno; pending = n })))
        fewer (marks_found s vbid key seqno e found now)
