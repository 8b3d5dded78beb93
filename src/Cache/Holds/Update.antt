-- ===== src/Cache/Holds/Update.antt =====
-- A store to fields of an entry, seen from one key.
use fluxkv.Base.{ℕ, ◌≡◌, refl, sym, subst, false, List, [], ◌∷◌, Option, some, arith}
use fluxkv.Cache.Entry.{Entry, Queue, small_queue, main_queue, map_key, bytes_eq, eq_of_bytes_eq}
use fluxkv.Cache.Shard.{Shard, hash_of}
use fluxkv.Cache.Keys.{matching, slots_of, other_key}
use fluxkv.Cache.Holds.{InQueue, Holds}
use fluxkv.Cache.Holds.Views.{Holds-same}
use fluxkv.Cache.Ops.{update, update_key, hit}
use fluxkv.Cache.Fill.{applied}

-- The store leaves what tells an entry and its queue.
pub record KeepsKey (f : Entry → Entry) : Type 0 where
  pub vbid : (e : Entry) → (f e).vbid ≡ e.vbid
  pub key : (e : Entry) → (f e).key ≡ e.key
  pub queue : (e : Entry) → (f e).queue ≡ e.queue

pub hit-KeepsKey : KeepsKey hit
hit-KeepsKey = record {
  vbid = λ e. ground arith;
  key = λ e. ground arith;
  queue = λ e. ground arith;
}

pub applied-KeepsKey : (seqno : ℕ) → KeepsKey (applied seqno)
applied-KeepsKey seqno = record { vbid = λ e. refl; key = λ e. refl; queue = λ e. refl }

map_key-KeepsKey : (f : Entry → Entry) (e : Entry) → KeepsKey f → map_key (f e) ≡ map_key e
map_key-KeepsKey f e k = rw (k.vbid e, k.key e) refl

matching-update_key_self :
    (f : Entry → Entry) (mk : List ℕ) (xs : List Entry) (e : Entry) (r : List Entry)
    → KeepsKey f
    → matching mk xs ≡ e ∷ r
    → matching mk (update_key mk f xs) ≡ f e ∷ r
unfolding matching update_key
matching-update_key_self f mk [] e r k h = cc
matching-update_key_self f mk (x ∷ xs) e r k h =
    ground (arith, map_key-KeepsKey f x k, matching-update_key_self f mk xs e r k)

matching-update_key_ne :
    (f : Entry → Entry) (mk k : List ℕ) (xs : List Entry)
    → KeepsKey f
    → bytes_eq k mk ≡ false
    → matching mk (update_key k f xs) ≡ matching mk xs
unfolding matching update_key
matching-update_key_ne f mk k [] keeps o = refl
matching-update_key_ne f mk k (x ∷ xs) keeps o = ground (
  arith,
  map_key-KeepsKey f x keeps,
  other_key (map_key x) k mk,
  matching-update_key_ne f mk k xs keeps o,
)

update_index : (s : Shard) (e : Entry) (f : Entry → Entry) → (update s e f).index ≡ s.index
unfolding update
update_index s e f = ground arith

update_place :
    (s : Shard) (e : Entry) (f : Entry → Entry) (mk : List ℕ) (q : Queue)
    → KeepsKey f
    → e.queue ≡ q
    → map_key e ≡ mk
    → InQueue mk s.small s.main e q
    → InQueue mk (update s e f).small (update s e f).main (f e) q
unfolding update
update_place s e f mk small_queue k tag same (a, b) =
    let now = matching-update_key_self f mk s.small.items e [] k a in
    let (changed, left) : ((update s e f).small.items ≡ update_key (map_key e) f s.small.items)
        × ((update s e f).main ≡ s.main) =
      ground (arith, tag) in
    rw (changed, left, same) (now, b)
update_place s e f mk main_queue k tag same (a, b) =
    let now = matching-update_key_self f mk s.main.items e [] k b in
    let (changed, left) : ((update s e f).main.items ≡ update_key (map_key e) f s.main.items)
        × ((update s e f).small ≡ s.small) =
      ground (arith, tag) in
    rw (changed, left, same) (a, now)

update_other :
    (s : Shard) (e : Entry) (f : Entry → Entry) (mk : List ℕ)
    → KeepsKey f
    → bytes_eq (map_key e) mk ≡ false
    → (matching mk (update s e f).small.items ≡ matching mk s.small.items)
      × (matching mk (update s e f).main.items ≡ matching mk s.main.items)
unfolding update
update_other s e f mk k other = ground (
  arith,
  matching-update_key_ne f mk (map_key e) s.small.items k other,
  matching-update_key_ne f mk (map_key e) s.main.items k other,
)

module _ (hash_key : ℕ → List ℕ → ℕ) where
  pub update-Holds :
      (s : Shard) (e : Entry) (f : Entry → Entry) (mk : List ℕ)
      → KeepsKey f
      → Holds hash_key s mk (some e)
      → Holds hash_key (update s e f) mk (some (f e))
  update-Holds s e f mk k (same, slot, place) =
      let key = map_key-KeepsKey f e k in
      let slot' : slots_of mk (update s e f).index ≡ (hash_of hash_key e, map_key e) ∷ [] =
        rw (update_index s e f) slot in
      (
        rw key same,
        rw (k.vbid e, k.key e) slot',
        subst (λ q. InQueue mk (update s e f).small (update s e f).main (f e) q) (sym (k.queue e))
            (update_place s e f mk e.queue k refl (eq_of_bytes_eq (map_key e) mk same) place),
      )

  pub update-Holds_other :
      (s : Shard) (e : Entry) (f : Entry → Entry) (mk : List ℕ) (o : Option Entry)
      → KeepsKey f
      → bytes_eq (map_key e) mk ≡ false
      → Holds hash_key s mk o
      → Holds hash_key (update s e f) mk o
  update-Holds_other s e f mk o k other v =
      let (a, b) = update_other s e f mk k other in
      Holds-same hash_key s (update s e f) mk o a b (rw (update_index s e f) refl) v
