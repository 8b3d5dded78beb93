-- ===== src/Cache/Holds/Reach.antt =====
-- What holds in every shard that the machine reaches.
use fluxkv.Base.{
  ℕ, ◌+◌, ◌-◌, ◌*◌, ◌/◌, ◌^◌, ◌<◌, ◌≡◌, refl, sym, ◌∙◌, subst, Bool, false, List, Option, none,
  some, inl, inr, arith, if◌then◌else◌, ltb, ◌==◌, Bool-cases,
}
use fluxkv.Cache.Entry.{Entry, map_key, vb_key, eq_of_bytes_eq}
use fluxkv.Cache.Keys.{matching, slots_of}
use fluxkv.Cache.Shard.{Shard, bytes, find, insert, evict, hash_of, small_percent}
use fluxkv.Cache.Shard.Rounds.{ghost_add_frame}
use fluxkv.Cache.Holds.{Holds, find-Holds-none}
use fluxkv.Cache.Holds.Steps.{IsU16}
use fluxkv.Cache.Holds.Under.{find_under}
use fluxkv.Cache.Machine.{
  new_shard, shard_of, marked, filled, Step, puts_entry, fills_entry, defers, reads, marks, trims,
  erases, budgets, Reachable, starts, steps,
}
use fluxkv.Cache.Holds.Lookup.{answer, get-erase}
use fluxkv.Cache.Holds.Update.{KeepsKey, hit-KeepsKey, applied-KeepsKey}
use fluxkv.Cache.Holds.Kept.{
  Kept, Kept-same, evict-Kept, insert-Kept, put_entry-Kept, erase-Kept, update-Kept,
}
use fluxkv.Cache.Ops.{ReadStats, update, hit, get, count_hit, doc_of, erase, set_budget}
use fluxkv.Cache.Fill.{applied, fill_insert, fill_defer, mark_applied}

module _ (hash_key : ℕ → List ℕ → ℕ) where
  new_shard-Kept : (per_shard : ℕ) → Kept hash_key (new_shard per_shard)
  unfolding matching slots_of
  new_shard-Kept per_shard mk = (none, (refl, refl, refl), tt)

  defers-Kept :
      (s s' : Shard) (doorkeeper : Bool) (h : ℕ)
      → fill_defer hash_key doorkeeper s h ≡ some s'
      → Kept hash_key s
      → Kept hash_key s'
  unfolding fill_defer
  defers-Kept s s' doorkeeper h now k =
      let (a, b, c) : (s'.small ≡ s.small) × (s'.main ≡ s.main) × (s'.index ≡ s.index) =
        ground (arith, ghost_add_frame s h) in
      Kept-same hash_key s s' a b c k

  -- What `find` answers in a shard that is kept is what is held.
  find_absent :
      (s : Shard) (vbid : ℕ) (key : List ℕ) (o : Option Entry)
      → vbid < 2 ^ 16
      → Holds hash_key s (vb_key vbid key) o
      → IsU16 o
      → find s (hash_key vbid key) (vb_key vbid key) ≡ none
      → Holds hash_key s (vb_key vbid key) none
  find_absent s vbid key none hv v u h = v
  find_absent s vbid key (some e) hv v u h =
      let found = find_under hash_key s vbid key e hv u v in absurd (cc)

  find_present :
      (s : Shard) (vbid : ℕ) (key : List ℕ) (o : Option Entry) (e : Entry)
      → vbid < 2 ^ 16
      → Holds hash_key s (vb_key vbid key) o
      → IsU16 o
      → find s (hash_key vbid key) (vb_key vbid key) ≡ some e
      → o ≡ some e
  find_present s vbid key none e hv v u h =
      let gone = find-Holds-none hash_key s (vb_key vbid key) (hash_key vbid key) v in absurd (cc)
  find_present s vbid key (some x) e hv v u h =
      let found = find_under hash_key s vbid key x hv u v in sym found ∙ h

  -- A store through the pointer that a lookup returned.
  found-Kept :
      (s : Shard) (vbid : ℕ) (key : List ℕ) (e : Entry) (f : Entry → Entry)
      → vbid < 2 ^ 16
      → KeepsKey f
      → find s (hash_key vbid key) (vb_key vbid key) ≡ some e
      → Kept hash_key s
      → Kept hash_key (update s e f)
  found-Kept s vbid key e f hv keeps h k =
      let (o, v, u) = k (vb_key vbid key) in
      let same = find_present s vbid key o e hv v u h in
      let held = subst (λ x. Holds hash_key s (vb_key vbid key) x) same v in
      let at_key =
        subst (λ mk. Holds hash_key s mk (some e))
          (sym (eq_of_bytes_eq (map_key e) (vb_key vbid key) held.0)) held in
      update-Kept hash_key s e f keeps at_key (subst IsU16 same u) k

  fills_answer :
      (st : ReadStats) (s : Shard) (e : Entry) (x : Option Entry)
      → e.vbid < 2 ^ 16
      → find s (hash_of hash_key e) (map_key e) ≡ x
      → Kept hash_key s
      → Kept hash_key (
          filled (elim x [
            | none ↦
                (let inserted = insert s e (hash_of hash_key e) in
                  (st, evict hash_key (record inserted { fills = inserted.fills + 1 })))
            | some present ↦ (record st { fills_rejected = st.fills_rejected + 1 }, s)
          ]))
  fills_answer st s e none he h k =
      let (o, v, u) = k (map_key e) in
      let free = find_absent s e.vbid e.key o he v u h in
      let inserted = insert s e (hash_of hash_key e) in
      let counted = record inserted { fills = inserted.fills + 1 } in
      evict-Kept hash_key counted
        (Kept-same hash_key inserted counted refl refl refl (insert-Kept hash_key s e he free k))
  fills_answer st s e (some present) he h k = k

  fills-Kept :
      (st : ReadStats) (s : Shard) (e : Entry)
      → e.vbid < 2 ^ 16
      → Kept hash_key s
      → Kept hash_key (filled (fill_insert hash_key st s e))
  unfolding fill_insert
  fills-Kept st s e he k = fills_answer st s e (find s (hash_of hash_key e) (map_key e)) he refl k

  reads_answer :
      (st : ReadStats) (s : Shard) (vbid : ℕ) (key : List ℕ) (x : Option Entry)
      → vbid < 2 ^ 16
      → find s (hash_key vbid key) (vb_key vbid key) ≡ x
      → Kept hash_key s
      → Kept hash_key (
          shard_of (elim x [
            | none ↦ (record st { misses = st.misses + 1 }, s, none)
            | some e ↦ (count_hit st e.deleted, update s e hit, some (doc_of e))
          ]))
  reads_answer st s vbid key none hv h k = k
  reads_answer st s vbid key (some e) hv h k = found-Kept s vbid key e hit hv hit-KeepsKey h k

  reads-Kept :
      (st : ReadStats) (s : Shard) (vbid : ℕ) (key : List ℕ)
      → vbid < 2 ^ 16
      → Kept hash_key s
      → Kept hash_key (shard_of (get hash_key st s vbid key))
  unfolding get
  reads-Kept st s vbid key hv k =
      reads_answer st s vbid key (find s (hash_key vbid key) (vb_key vbid key)) hv refl k

  marks_answer :
      (s : Shard) (vbid : ℕ) (key : List ℕ) (seqno : ℕ) (x : Option Entry)
      → vbid < 2 ^ 16
      → find s (hash_key vbid key) (vb_key vbid key) ≡ x
      → Kept hash_key s
      → Kept hash_key (
          marked (elim x [
            | none ↦ (s, false)
            | some e ↦
                (let s' = update s e (applied seqno) in
                  if e.pending == 1
                  then (
                    record s' { pending_items = s'.pending_items - 1 },
                    ltb s'.budget (bytes s'),
                  )
                  else (s', false))
          ]))
  marks_answer s vbid key seqno none hv h k = k
  marks_answer s vbid key seqno (some e) hv h k =
      let now = found-Kept s vbid key e (applied seqno) hv (applied-KeepsKey seqno) h k in
      let s' = update s e (applied seqno) in
      let released = record s' { pending_items = s'.pending_items - 1 } in
      elim (Bool-cases (e.pending == 1)) [
        | inl last ↦ rw last (Kept-same hash_key s' released refl refl refl now)
        | inr more ↦ rw more now
      ]

  marks-Kept :
      (s : Shard) (vbid : ℕ) (key : List ℕ) (seqno : ℕ)
      → vbid < 2 ^ 16
      → Kept hash_key s
      → Kept hash_key (marked (mark_applied hash_key s vbid key seqno))
  unfolding mark_applied
  marks-Kept s vbid key seqno hv k =
      marks_answer s vbid key seqno (find s (hash_key vbid key) (vb_key vbid key)) hv refl k

  pub Step-Kept : (s s' : Shard) → Step hash_key s s' → Kept hash_key s → Kept hash_key s'
  unfolding set_budget
  Step-Kept s _ (puts_entry _ e he) k = put_entry-Kept hash_key s e he k
  Step-Kept s _ (fills_entry st _ e he) k = fills-Kept st s e he k
  Step-Kept s s' (defers _ _ doorkeeper h now) k = defers-Kept s s' doorkeeper h now k
  Step-Kept s _ (reads st _ vbid key hv) k = reads-Kept st s vbid key hv k
  Step-Kept s _ (marks _ vbid key seqno hv) k = marks-Kept s vbid key seqno hv k
  Step-Kept s _ (trims _) k = evict-Kept hash_key s k
  Step-Kept s _ (erases _ vbid key hv) k = erase-Kept hash_key s vbid key hv k
  Step-Kept s _ (budgets _ per_shard) k =
      let resized = record s {
        budget = per_shard;
        small_budget = per_shard * small_percent / 100;
      } in
      evict-Kept hash_key resized (Kept-same hash_key s resized refl refl refl k)

  pub Reachable-Kept : (s : Shard) → Reachable hash_key s → Kept hash_key s
  Reachable-Kept _ (starts per_shard) = new_shard-Kept per_shard
  Reachable-Kept _ (steps s s' r step) = Step-Kept s s' step (Reachable-Kept s r)

  -- In every shard that the locked parts of the operations reach from a new one, in any order, each key
  -- holds nothing, or one entry of a vbucket that is a uint16_t: alone in the queue that its tag names,
  -- with one slot of the index, under its hash.
  pub Reachable-Holds :
      (s : Shard) (mk : List ℕ)
      → Reachable hash_key s
      → (o : Option Entry) × Holds hash_key s mk o × IsU16 o
  Reachable-Holds s mk r = Reachable-Kept s r mk

  -- In every shard that the locked parts of the operations reach, a read of a key that was just erased
  -- is a miss, if the vbucket is a uint16_t.
  pub Reachable-get-erase :
      (st : ReadStats) (s : Shard) (vbid : ℕ) (key : List ℕ)
      → vbid < 2 ^ 16
      → Reachable hash_key s
      → answer (get hash_key st (erase hash_key s vbid key) vbid key) ≡ none
  Reachable-get-erase st s vbid key hv r =
      let (o, v, u) = Reachable-Kept s r (vb_key vbid key) in
      get-erase hash_key st s vbid key o hv u v
