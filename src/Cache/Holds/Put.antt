-- ===== src/Cache/Holds/Put.antt =====
-- What `putEntry` leaves under its key and under the others.
use fluxkv.Base.{
  ℕ, ◌+◌, ◌%◌, ◌^◌, ◌<◌, ◌≡◌, refl, sym, ap, subst, true, false, List, Option, none, some, arith,
  if◌then◌else◌, ◌==◌,
}
use fluxkv.Cache.Entry.{Entry, Queue, map_key, bytes_eq, eq_of_bytes_eq, pinned}
use fluxkv.Cache.Shard.{Shard, find, insert, free, hash_of}
use fluxkv.Cache.Holds.{Holds, find-Holds-none, Keeps, kept, dropped}
use fluxkv.Cache.Holds.Views.{Holds-same, Outcome}
use fluxkv.Cache.Holds.Evict.{evict-Holds}
use fluxkv.Cache.Holds.Steps.{
  IsU16, carried, insert-Holds, insert-Holds_other, displaced-Holds, displaced-Holds_other,
}
use fluxkv.Cache.Holds.Under.{hash_under, find_under}
use fluxkv.Cache.Ops.{put_entry, store_entry, displace}

-- A pinned entry stays.
pinned_stays :
    (e : Entry) (o : Option Entry)
    → pinned e ≡ true
    → Keeps (some e) o
    → (freq : ℕ) × (queue : Queue) × (o ≡ some (record e { freq = freq; queue = queue }))
pinned_stays e _ pin (kept _ freq queue fewer) = (freq, queue, refl)
pinned_stays e _ pin (dropped _ free) = absurd (ground arith)

module _ (hash_key : ℕ → List ℕ → ℕ) where
  -- The shard holds the new entry, with its contents.
  abbrev pub Stored : Shard → Entry → ℕ → Type 0
  Stored s e pending =
      (freq : ℕ) × (queue : Queue) × Holds hash_key s (map_key e)
        (some (record e { pending = pending; freq = freq; queue = queue }))

  store_entry-Holds :
      (s : Shard) (e : Entry) (carry : ℕ)
      → carry + 1 < 2 ^ 32
      → Holds hash_key s (map_key e) none
      → Stored (store_entry hash_key s e carry) e (carry + 1)
  unfolding store_entry
  store_entry-Holds s e carry bound v =
      let counted = record s {
        pending_items = if carry == 0 then s.pending_items + 1 else s.pending_items;
      } in
      let fresh = record e { pending = (carry + 1) % 2 ^ 32 } in
      let (q, held) = insert-Holds hash_key counted fresh v in
      let inserted = insert counted fresh (hash_of hash_key e) in
      let now = record fresh { queue = q } in
      let (o, held', k) =
        evict-Holds hash_key (map_key e) (record inserted { puts = inserted.puts + 1 }) (some now)
          held in
      let pin : pinned now ≡ true = ground arith in
      let (f, q', same) = pinned_stays now o pin k in
      let small : (carry + 1) % 2 ^ 32 ≡ carry + 1 = omega arith in
      (
        f,
        q',
        subst
            (λ n.
              Holds hash_key (store_entry hash_key s e carry) (map_key e)
                (some (record e { pending = n; freq = f; queue = q' })))
            small (rw same at held'),
      )

  store_entry-Holds_other :
      (s : Shard) (e : Entry) (carry : ℕ) (mk : List ℕ) (o : Option Entry)
      → bytes_eq (map_key e) mk ≡ false
      → Holds hash_key s mk o
      → Outcome hash_key (store_entry hash_key s e carry) mk o
  unfolding store_entry
  store_entry-Holds_other s e carry mk o other v =
      let counted = record s {
        pending_items = if carry == 0 then s.pending_items + 1 else s.pending_items;
      } in
      let fresh = record e { pending = (carry + 1) % 2 ^ 32 } in
      let free = Holds-same hash_key s counted mk o refl refl refl v in
      let held = insert-Holds_other hash_key counted fresh mk o other free in
      let inserted = insert counted fresh (hash_of hash_key e) in
      let counted_put = record inserted { puts = inserted.puts + 1 } in
      evict-Holds hash_key mk counted_put o
        (Holds-same hash_key inserted counted_put mk o refl refl refl held)

  written : Shard → Entry → Option Entry → Shard
  written s e o = elim o [
    | none ↦ store_entry hash_key s e 0
    | some old ↦ store_entry hash_key (displace hash_key s (hash_of hash_key e) old) e old.pending
  ]

  pub put_entry_new :
      (s : Shard) (e : Entry)
      → find s (hash_of hash_key e) (map_key e) ≡ none
      → put_entry hash_key s e ≡ store_entry hash_key s e 0
  unfolding put_entry written
  put_entry_new s e h = ap (written s e) h

  pub put_entry_old :
      (s : Shard) (e old : Entry)
      → find s (hash_of hash_key e) (map_key e) ≡ some old
      → put_entry hash_key s e
        ≡ store_entry hash_key (displace hash_key s (hash_of hash_key e) old) e old.pending
  unfolding put_entry written
  put_entry_old s e old h = ap (written s e) h

  -- The vbuckets being uint16_t and the count of pending writes below 2 ^ 32, a write under a key that holds nothing or one entry leaves the new
  -- entry there with all its contents, the eviction that the write starts included; its pending count
  -- is that of the older version, if any, plus one.
  pub put_entry-Holds :
      (s : Shard) (e : Entry) (o : Option Entry)
      → e.vbid < 2 ^ 16
      → IsU16 o
      → carried o + 1 < 2 ^ 32
      → Holds hash_key s (map_key e) o
      → Stored (put_entry hash_key s e) e (carried o + 1)
  put_entry-Holds s e none he ho hp v =
      let new = put_entry_new s e (find-Holds-none hash_key s (map_key e) (hash_of hash_key e) v) in
      subst (λ t. Stored t e 1) (sym new) (store_entry-Holds s e 0 (omega arith) v)
  put_entry-Holds s e (some old) he ho hp v =
      let same = hash_under hash_key s e.vbid e.key old he ho v in
      let found = find_under hash_key s e.vbid e.key old he ho v in
      let gone =
        subst (λ h. Holds hash_key (displace hash_key s h old) (map_key e) none) same
          (displaced-Holds hash_key s old (map_key e) v) in
      subst (λ t. Stored t e (old.pending + 1)) (sym (put_entry_old s e old found))
        (store_entry-Holds (displace hash_key s (hash_of hash_key e) old) e old.pending hp gone)

  -- A write to one key, which held nothing or one entry, leaves what is held under another key there, or
  -- evicts it if no write of it is pending, and brings in nothing under it. The vbuckets of the entry and
  -- of the older version are uint16_t.
  pub put_entry-Holds_other :
      (s : Shard) (e : Entry) (o : Option Entry) (mk : List ℕ) (x : Option Entry)
      → e.vbid < 2 ^ 16
      → IsU16 o
      → Holds hash_key s (map_key e) o
      → bytes_eq (map_key e) mk ≡ false
      → Holds hash_key s mk x
      → Outcome hash_key (put_entry hash_key s e) mk x
  put_entry-Holds_other s e none mk x he ho v other vx =
      let new = put_entry_new s e (find-Holds-none hash_key s (map_key e) (hash_of hash_key e) v) in
      subst (λ t. Outcome hash_key t mk x) (sym new) (store_entry-Holds_other s e 0 mk x other vx)
  put_entry-Holds_other s e (some old) mk x he ho v other vx =
      let same = hash_under hash_key s e.vbid e.key old he ho v in
      let found = find_under hash_key s e.vbid e.key old he ho v in
      let apart : bytes_eq (map_key old) mk ≡ false =
        rw (eq_of_bytes_eq (map_key old) (map_key e) v.0) other in
      let still =
        subst (λ h. Holds hash_key (displace hash_key s h old) mk x) same
          (displaced-Holds_other hash_key s old mk x apart vx) in
      subst (λ t. Outcome hash_key t mk x) (sym (put_entry_old s e old found))
        (store_entry-Holds_other (displace hash_key s (hash_of hash_key e) old) e old.pending mk x
          other still)
