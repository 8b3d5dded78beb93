-- ===== src/Engine/Persist/Pins.antt =====
-- How many pins of the cache `executePersist` releases.
use fluxkv.Base.{
  ℕ, ◌+◌, ◌%◌, ◌^◌, ◌≡◌, refl, ap, ◌∙◌, inl, inr, Bool, true, ◌&&◌, List, [], ◌∷◌, ◌++◌, map, min,
  arith, length, length-append, if_both, Bool-cases, List-cases, if◌then◌else◌,
}
use fluxkv.Cache.Entry.{bytes_eq}
use fluxkv.Engine.Request.{Request, new_request}
use fluxkv.Engine.Batch.{does_sort, prepare, sort_batch}
use fluxkv.Engine.Batch.Sorting.{with_key}
use fluxkv.Engine.Batch.Newest.{IsBatch, sort_batch-none_kept, sort_batch-with_key}
use fluxkv.Engine.Persist.{
  Settings, Magma, DocCache, Writer, persist_batch, mark_all, build_ops, write_batch, await_durable,
  notify_batch, finish_batch, recycle_requests,
}

-- A cache that counts the calls of `MarkPersisted` for one key.
unfoldable pub pin_counter : List ℕ → DocCache ℕ
unfolding bytes_eq
pin_counter key = record {
  has_cache = true;
  mark_persisted = λ vbid marked seqno n. if bytes_eq marked key then n + 1 else n;
}

module _ {O S : Type 0} (k : Settings) (magma : Magma O S) (key : List ℕ) where
  mark_all-count :
      (vbid cas last : ℕ) (ok : Bool) (rs : List Request) (n : ℕ)
      → mark_all k magma
          (pin_counter key)
          vbid
          ok
          (build_ops k magma (pin_counter key) cas last rs).0
          n
        ≡ n + length (with_key key rs)
  unfolding mark_all build_ops with_key pin_counter
  mark_all-count vbid cas last ok [] n = omega arith
  mark_all-count vbid cas last ok (r ∷ rs) n =
      let next = (last + 1) % 2 ^ 64 in
      mark_all-count vbid cas next ok rs (if bytes_eq r.key key then n + 1 else n)
      ∙ elim (Bool-cases (bytes_eq r.key key)) [
        | inl hit ↦ rw hit (omega arith)
        | inr miss ↦ rw miss refl
      ]

  kept_count :
      (batch : List Request)
      → IsBatch batch
      → length (with_key key (sort_batch batch).0) ≡ min 1 (length (with_key key batch))
  kept_count batch v =
      let (parts, few) = (sort_batch-with_key batch v).0 key in
      let all = ap length parts ∙ refl in
      elim (List-cases (with_key key (sort_batch batch).0)) [
        | inl none_kept ↦ rw (none_kept, sort_batch-none_kept batch key v none_kept) (omega arith)
        | inr (r, rs, some_kept) ↦
            let one = rw some_kept at few in
            let longer = rw some_kept at all in
            rw some_kept (
              omega
                (arith, one, longer, length-append (with_key key (sort_batch batch).1) (r ∷ rs)))
      ]

  recycle-cache :
      (chain : List Request) (w : Writer S ℕ) → (recycle_requests chain w).cache ≡ w.cache
  unfolding recycle_requests
  recycle-cache chain w = if_both (λ (t : Writer S ℕ). t.cache ≡ w.cache) _ _ _ refl refl

  finish_batch-cache :
      (ok : Bool) (bytes : ℕ) (reqs : List Request) (w : Writer S ℕ)
      → (finish_batch k magma (pin_counter key) ok bytes reqs w).cache ≡ w.cache
  unfolding finish_batch
  finish_batch-cache ok bytes reqs w = elim (Bool-cases k.is_durable) [
    | inl durable ↦ rw durable refl
    | inr async ↦ rw async (recycle-cache (map (λ r. new_request) reqs) _)
  ]

  -- The cache once the batch is written: the calls for what was kept.
  persist_batch-cache :
      (vbid cas now : ℕ) (batch : List Request) (w : Writer S ℕ)
      → (persist_batch k magma (pin_counter key) vbid cas now batch w).cache
        ≡ w.cache + length (with_key key (prepare k.exceeds k.batch_sort batch).0)
  unfolding persist_batch write_batch await_durable notify_batch pin_counter
  persist_batch-cache vbid cas now batch w =
      let (kept, dropped) = prepare k.exceeds k.batch_sort batch in
      let (stamped, ops, seqno) = build_ops k magma (pin_counter key) cas w.seqno kept in
      let (ok, store) = magma.write_docs vbid ops w.store in
      let written = (write_batch k magma (pin_counter key) vbid cas now kept w).2 in
      let count = mark_all-count vbid cas w.seqno ok kept w.cache in
      elim (Bool-cases (k.is_durable && (k.async_durable && ok))) [
        | inl waits ↦ rw waits (
            if_both
              (λ (t : Writer S ℕ).
                t.cache ≡ w.cache + length (with_key key (prepare k.exceeds k.batch_sort batch).0))
              k.has_notifier _ _ count count)
        | inr done ↦ rw done (finish_batch-cache ok _ (stamped ++ dropped) written ∙ count)
      ]

  -- For a batch whose keys are bytes, in sizes that 32 bits hold: `MarkPersisted` is called for a key once
  -- for each of its writes in a batch that is not sorted, and at most once, however many writes of it the
  -- batch has, in one that is sorted.
  pub persist_batch-pins :
      (vbid cas now : ℕ) (batch : List Request) (w : Writer S ℕ)
      → IsBatch batch
      → (persist_batch k magma (pin_counter key) vbid cas now batch w).cache
        ≡ w.cache
          + (if does_sort k.exceeds k.batch_sort batch
              then min 1 (length (with_key key batch))
              else length (with_key key batch))
  unfolding prepare
  persist_batch-pins vbid cas now batch w v =
      persist_batch-cache vbid cas now batch w
      ∙ elim (Bool-cases (does_sort k.exceeds k.batch_sort batch)) [
        | inr plain ↦ rw plain refl
        | inl sorted ↦ rw (sorted, kept_count batch v) refl
      ]
