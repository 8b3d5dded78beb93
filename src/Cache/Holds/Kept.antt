-- ===== src/Cache/Holds/Kept.antt =====
-- Every operation of a shard keeps the index and the queues in agreement.
use fluxkv.Base.{
  ℕ, ◌+◌, ◌%◌, ◌^◌, ◌<◌, ◌≡◌, refl, sym, subst, false, List, Option, none, some, inl, inr,
  if◌then◌else◌, ◌==◌, Bool-cases,
}
use fluxkv.Cache.Entry.{Entry, map_key, vb_key, bytes_eq, eq_of_bytes_eq}
use fluxkv.Cache.Shard.{Shard, insert, free, evict, hash_of}
use fluxkv.Cache.Holds.{Holds, find-Holds-none, Keeps, still_none, kept, dropped}
use fluxkv.Cache.Holds.Views.{Holds-same}
use fluxkv.Cache.Holds.Evict.{evict-Holds}
use fluxkv.Cache.Holds.Steps.{
  IsU16, insert-Holds, insert-Holds_other, displaced-Holds, displaced-Holds_other,
}
use fluxkv.Cache.Holds.Under.{hash_under, find_under}
use fluxkv.Cache.Holds.Put.{put_entry_new, put_entry_old}
use fluxkv.Cache.Holds.Erase.{erase-Holds, erase-Holds_other}
use fluxkv.Cache.Holds.Update.{KeepsKey, update-Holds, update-Holds_other}
use fluxkv.Cache.Ops.{update, displace, put_entry, store_entry, erase}

IsU16-Keeps : (o o' : Option Entry) → Keeps o o' → IsU16 o → IsU16 o'
IsU16-Keeps o o' still_none u = u
IsU16-Keeps o o' (kept e f q fewer) u = u
IsU16-Keeps o o' (dropped e free) u = tt

module _ (hash_key : ℕ → List ℕ → ℕ) where
  -- Under every key the shard holds nothing, or one entry, of a vbucket that is a uint16_t: alone in the
  -- queue that its tag names, with one slot of the index under its hash.
  abbrev pub Kept : Shard → Type 0
  Kept s = (mk : List ℕ) → (o : Option Entry) × Holds hash_key s mk o × IsU16 o

  -- The counters and the ghost queue do not matter.
  pub Kept-same :
      (s s' : Shard) → s'.small ≡ s.small → s'.main ≡ s.main → s'.index ≡ s.index → Kept s → Kept s'
  Kept-same s s' a b c k mk =
      let (o, v, u) = k mk in
      (o, Holds-same hash_key s s' mk o (rw a refl) (rw b refl) (rw c refl) v, u)

  pub evict-Kept : (s : Shard) → Kept s → Kept (evict hash_key s)
  evict-Kept s k mk =
      let (o, v, u) = k mk in
      let (o', v', keeps) = evict-Holds hash_key mk s o v in (o', v', IsU16-Keeps o o' keeps u)

  -- A theorem for one key and one for the others are one for all.
  for_all_keys :
      (s : Shard) (k : List ℕ)
      → ((o : Option Entry) × Holds hash_key s k o × IsU16 o)
      → ((mk : List ℕ)
          → bytes_eq k mk ≡ false
          → (o : Option Entry) × Holds hash_key s mk o × IsU16 o)
      → Kept s
  for_all_keys s k this others mk = elim (Bool-cases (bytes_eq k mk)) [
    | inl hit ↦
        subst (λ l. (o : Option Entry) × Holds hash_key s l o × IsU16 o) (eq_of_bytes_eq k mk hit)
          this
    | inr miss ↦ others mk miss
  ]

  pub insert-Kept :
      (s : Shard) (e : Entry)
      → e.vbid < 2 ^ 16
      → Holds hash_key s (map_key e) none
      → Kept s
      → Kept (insert s e (hash_of hash_key e))
  insert-Kept s e he free k =
      for_all_keys (insert s e (hash_of hash_key e)) (map_key e)
        (let (q, held) = insert-Holds hash_key s e free in
          (some (record e { queue = q }), held, he))
        (λ mk other. let (o, v, u) = k mk in (o, insert-Holds_other hash_key s e mk o other v, u))

  store_entry-Kept :
      (s : Shard) (e : Entry) (carry : ℕ)
      → e.vbid < 2 ^ 16
      → Holds hash_key s (map_key e) none
      → Kept s
      → Kept (store_entry hash_key s e carry)
  unfolding store_entry
  store_entry-Kept s e carry he free k =
      let counted = record s {
        pending_items = if carry == 0 then s.pending_items + 1 else s.pending_items;
      } in
      let fresh = record e { pending = (carry + 1) % 2 ^ 32 } in
      let inserted = insert counted fresh (hash_of hash_key e) in
      let stored = insert-Kept counted fresh he free (Kept-same s counted refl refl refl k) in
      evict-Kept (record inserted { puts = inserted.puts + 1 })
        (Kept-same inserted (record inserted { puts = inserted.puts + 1 }) refl refl refl stored)

  put_over-Kept :
      (s : Shard) (e : Entry) (o : Option Entry)
      → e.vbid < 2 ^ 16
      → Holds hash_key s (map_key e) o
      → IsU16 o
      → Kept s
      → Kept (put_entry hash_key s e)
  put_over-Kept s e none he v u k =
      let new =
        put_entry_new hash_key s e
          (find-Holds-none hash_key s (map_key e) (hash_of hash_key e) v) in
      subst Kept (sym new) (store_entry-Kept s e 0 he v k)
  put_over-Kept s e (some old) he v u k =
      let same = hash_under hash_key s e.vbid e.key old he u v in
      let found = find_under hash_key s e.vbid e.key old he u v in
      let gone = displaced-Holds hash_key s old (map_key e) v in
      let left : Kept (displace hash_key s (hash_of hash_key old) old) =
        for_all_keys (displace hash_key s (hash_of hash_key old) old) (map_key e) (none, gone, tt)
          (λ mk other.
            let (x, w, ux) = k mk in
            let apart : bytes_eq (map_key old) mk ≡ false =
              rw (eq_of_bytes_eq (map_key old) (map_key e) v.0) other in
            (x, displaced-Holds_other hash_key s old mk x apart w, ux)) in
      subst Kept (sym (put_entry_old hash_key s e old found)) (
        store_entry-Kept (displace hash_key s (hash_of hash_key e) old) e old.pending he
          (subst (λ h. Holds hash_key (displace hash_key s h old) (map_key e) none) same gone)
          (subst (λ h. Kept (displace hash_key s h old)) same left))

  pub put_entry-Kept :
      (s : Shard) (e : Entry) → e.vbid < 2 ^ 16 → Kept s → Kept (put_entry hash_key s e)
  put_entry-Kept s e he k = let (o, v, u) = k (map_key e) in put_over-Kept s e o he v u k

  pub erase-Kept :
      (s : Shard) (vbid : ℕ) (key : List ℕ)
      → vbid < 2 ^ 16
      → Kept s
      → Kept (erase hash_key s vbid key)
  erase-Kept s vbid key hv k =
      let (x, v, u) = k (vb_key vbid key) in
      for_all_keys (erase hash_key s vbid key) (vb_key vbid key)
        (none, erase-Holds hash_key s vbid key x hv u v, tt)
        (λ mk other.
          let (o, w, uo) = k mk in
          (o, erase-Holds_other hash_key s vbid key x mk o hv u v other w, uo))

  pub update-Kept :
      (s : Shard) (e : Entry) (f : Entry → Entry)
      → KeepsKey f
      → Holds hash_key s (map_key e) (some e)
      → e.vbid < 2 ^ 16
      → Kept s
      → Kept (update s e f)
  update-Kept s e f keeps v he k =
      for_all_keys (update s e f) (map_key e)
        (some (f e), update-Holds hash_key s e f (map_key e) keeps v, rw (keeps.vbid e) he)
        (λ mk other.
          let (o, w, u) = k mk in (o, update-Holds_other hash_key s e f mk o keeps other w, u))
