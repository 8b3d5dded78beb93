-- ===== src/Cache/Holds/Steps.antt =====
-- The steps of `putEntry` and `Erase`, seen from one key.
use fluxkv.Base.{
  ℕ, ◌%◌, ◌/◌, ◌^◌, ◌<◌, ◌≡◌, refl, ◌∙◌, false, List, [], ◌∷◌, Option, none, some, inl, inr, arith,
  Bool-cases,
}
use fluxkv.Cache.Entry.{
  Entry, Queue, small_queue, main_queue, map_key, vb_key, bytes_eq, eq_of_bytes_eq, bytes_eq_refl,
}
use fluxkv.Cache.Fifo.{push_head, remove}
use fluxkv.Metadata.Fixed.{put_fixed}
use fluxkv.Cache.Shard.{Shard, contains, unlink, insert, hash_of}
use fluxkv.Cache.Keys.{
  matching, slots_of, matching-remove_key_self, matching-remove_key_ne, slots_of-cons_self,
  slots_of-cons_ne, slots_of-index_erase_ne,
}
use fluxkv.Cache.Holds.{InQueue, Holds}
use fluxkv.Cache.Holds.Views.{matching-append_miss, matching-append_hit, Holds-same, erased}
use fluxkv.Cache.Ops.{displace}

-- The vbucket is a uint16_t.
abbrev pub IsU16 : Option Entry → Type 0
IsU16 none = Unit {0}
IsU16 (some e) = e.vbid < 2 ^ 16

pub vb_key-injective :
    (v w : ℕ) (k l : List ℕ) → v < 2 ^ 16 → w < 2 ^ 16 → vb_key v k ≡ vb_key w l → (v ≡ w) × (k ≡ l)
unfolding put_fixed
vb_key-injective v w k l hv hw e =
    let (low, high, rest) : (v % 256 ≡ w % 256) × (v / 256 % 256 ≡ w / 256 % 256) × (k ≡ l) =
      ground (arith, e) in
    (omega arith, rest)

-- What is left of the pending count of the version that a write replaces.
abbrev pub carried : Option Entry → ℕ
carried none = 0
carried (some old) = old.pending

pub unlink_index : (s : Shard) (old : Entry) → (unlink s old).index ≡ s.index
unfolding unlink
unlink_index s old = ground arith

pub unlink_place :
    (s : Shard) (old : Entry) (mk : List ℕ) (q : Queue)
    → old.queue ≡ q
    → map_key old ≡ mk
    → InQueue mk s.small s.main old q
    → (matching mk (unlink s old).small.items ≡ []) × (matching mk (unlink s old).main.items ≡ [])
unfolding unlink remove
unlink_place s old mk small_queue tag same (a, b) =
    let alone = matching-remove_key_self mk s.small.items old [] a in rw (tag, same) (alone, b)
unlink_place s old mk main_queue tag same (a, b) =
    let alone = matching-remove_key_self mk s.main.items old [] b in rw (tag, same) (a, alone)

pub unlink_other :
    (s : Shard) (old : Entry) (mk : List ℕ)
    → bytes_eq (map_key old) mk ≡ false
    → (matching mk (unlink s old).small.items ≡ matching mk s.small.items)
      × (matching mk (unlink s old).main.items ≡ matching mk s.main.items)
unfolding unlink remove
unlink_other s old mk other = ground (
  arith,
  matching-remove_key_ne mk (map_key old) s.small.items other,
  matching-remove_key_ne mk (map_key old) s.main.items other,
)

module _ (hash_key : ℕ → List ℕ → ℕ) where
  -- An insert under a key that is free holds the new entry.
  pub insert-Holds :
      (s : Shard) (e : Entry)
      → Holds hash_key s (map_key e) none
      → (q : Queue) × Holds hash_key
          (insert s e (hash_of hash_key e))
          (map_key e)
          (some (record e { queue = q }))
  unfolding insert push_head
  insert-Holds s e (hs, hm, hi) =
      let same = bytes_eq_refl (map_key e) in
      let slot : slots_of (map_key e) ((hash_of hash_key e, map_key e) ∷ s.index)
          ≡ (hash_of hash_key e, map_key e) ∷ [] =
        slots_of-cons_self (map_key e) (map_key e) _ s.index same ∙ rw hi refl in
      elim (Bool-cases (contains (hash_of hash_key e) s.ghost_set)) [
        | inl known ↦ (
          main_queue,
          rw known (
            same,
            slot,
            (
              hs,
              matching-append_hit (map_key e) s.main.items (record e { queue = main_queue }) same
                  hm,
            ),
          ),
        )
        | inr fresh ↦ (
          small_queue,
          rw fresh (
            same,
            slot,
            (
              matching-append_hit (map_key e) s.small.items (record e { queue = small_queue }) same
                  hs,
              hm,
            ),
          ),
        )
      ]

  pub insert-Holds_other :
      (s : Shard) (e : Entry) (mk : List ℕ) (o : Option Entry)
      → bytes_eq (map_key e) mk ≡ false
      → Holds hash_key s mk o
      → Holds hash_key (insert s e (hash_of hash_key e)) mk o
  unfolding insert push_head
  insert-Holds_other s e mk o other v =
      let slot = slots_of-cons_ne mk (map_key e) (hash_of hash_key e) s.index other in
      elim (Bool-cases (contains (hash_of hash_key e) s.ghost_set)) [
        | inl known ↦
            Holds-same hash_key s (insert s e (hash_of hash_key e)) mk o (rw known refl)
              (rw known
                (matching-append_miss mk s.main.items (record e { queue = main_queue }) other))
              (rw known slot) v
        | inr fresh ↦
            Holds-same hash_key s (insert s e (hash_of hash_key e)) mk o
              (rw fresh
                (matching-append_miss mk s.small.items (record e { queue = small_queue }) other))
              (rw fresh refl) (rw fresh slot) v
      ]

  -- Unlinked from its queue and out of the index, an entry is no longer held.
  pub displaced-Holds :
      (s : Shard) (old : Entry) (mk : List ℕ)
      → Holds hash_key s mk (some old)
      → Holds hash_key (displace hash_key s (hash_of hash_key old) old) mk none
  unfolding displace
  displaced-Holds s old mk (hit, slot, place) =
      let (a, b) =
        unlink_place s old mk old.queue refl (eq_of_bytes_eq (map_key old) mk hit) place in
      (a, b, rw (unlink_index s old) (erased hash_key s mk old hit slot))

  pub displaced-Holds_other :
      (s : Shard) (old : Entry) (mk : List ℕ) (o : Option Entry)
      → bytes_eq (map_key old) mk ≡ false
      → Holds hash_key s mk o
      → Holds hash_key (displace hash_key s (hash_of hash_key old) old) mk o
  unfolding displace
  displaced-Holds_other s old mk o other v =
      let (a, b) = unlink_other s old mk other in
      Holds-same hash_key s (displace hash_key s (hash_of hash_key old) old) mk o a b
        (rw (unlink_index s old)
          (slots_of-index_erase_ne mk (map_key old) (hash_of hash_key old) s.index other))
        v
