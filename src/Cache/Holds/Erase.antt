-- ===== src/Cache/Holds/Erase.antt =====
-- What `Erase` leaves under its key and under the others.
use fluxkv.Base.{ℕ, ◌^◌, ◌<◌, ◌≡◌, refl, sym, ap, subst, false, List, Option, none, some}
use fluxkv.Cache.Entry.{Entry, map_key, vb_key, bytes_eq, eq_of_bytes_eq}
use fluxkv.Cache.Shard.{Shard, find, unlink, free, hash_of}
use fluxkv.Cache.Keys.{slots_of-index_erase_ne}
use fluxkv.Cache.Holds.{Holds, find-Holds-none}
use fluxkv.Cache.Holds.Views.{Holds-same, erased}
use fluxkv.Cache.Holds.Steps.{IsU16, unlink_place, unlink_other, unlink_index}
use fluxkv.Cache.Holds.Under.{find_under}
use fluxkv.Cache.Ops.{erase}

module _ (hash_key : ℕ → List ℕ → ℕ) where
  erase-none :
      (s : Shard) (vbid : ℕ) (key : List ℕ)
      → find s (hash_key vbid key) (vb_key vbid key) ≡ none
      → erase hash_key s vbid key ≡ s
  unfolding erase
  erase-none s vbid key h = ap (λ o. elim o [ none ↦ s | some e ↦ free hash_key (unlink s e) e ]) h

  erase-some :
      (s : Shard) (vbid : ℕ) (key : List ℕ) (e : Entry)
      → find s (hash_key vbid key) (vb_key vbid key) ≡ some e
      → erase hash_key s vbid key ≡ free hash_key (unlink s e) e
  unfolding erase
  erase-some s vbid key e h =
      ap (λ o. elim o [ none ↦ s | some e ↦ free hash_key (unlink s e) e ]) h

  free-Holds :
      (s : Shard) (e : Entry) (mk : List ℕ)
      → Holds hash_key s mk (some e)
      → Holds hash_key (free hash_key (unlink s e) e) mk none
  unfolding free
  free-Holds s e mk (hit, slot, place) =
      let (a, b) = unlink_place s e mk e.queue refl (eq_of_bytes_eq (map_key e) mk hit) place in
      (a, b, rw (unlink_index s e) (erased hash_key s mk e hit slot))

  free-Holds_other :
      (s : Shard) (e : Entry) (mk : List ℕ) (o : Option Entry)
      → bytes_eq (map_key e) mk ≡ false
      → Holds hash_key s mk o
      → Holds hash_key (free hash_key (unlink s e) e) mk o
  unfolding free
  free-Holds_other s e mk o other v =
      let (a, b) = unlink_other s e mk other in
      Holds-same hash_key s (free hash_key (unlink s e) e) mk o a b
        (rw (unlink_index s e)
          (slots_of-index_erase_ne mk (map_key e) (hash_of hash_key e) s.index other))
        v

  -- `Erase` under a key that held nothing or one entry: then the key holds nothing.
  pub erase-Holds :
      (s : Shard) (vbid : ℕ) (key : List ℕ) (o : Option Entry)
      → vbid < 2 ^ 16
      → IsU16 o
      → Holds hash_key s (vb_key vbid key) o
      → Holds hash_key (erase hash_key s vbid key) (vb_key vbid key) none
  erase-Holds s vbid key none hv ho v =
      subst (λ t. Holds hash_key t (vb_key vbid key) none)
        (sym (
          erase-none s vbid key
            (find-Holds-none hash_key s (vb_key vbid key) (hash_key vbid key) v)))
        v
  erase-Holds s vbid key (some e) hv ho v =
      let found = find_under hash_key s vbid key e hv ho v in
      subst (λ t. Holds hash_key t (vb_key vbid key) none) (sym (erase-some s vbid key e found))
        (free-Holds s e (vb_key vbid key) v)

  -- `Erase` of a key, which held nothing or one entry, leaves what is held under every other key. The
  -- vbuckets are uint16_t.
  pub erase-Holds_other :
      (s : Shard) (vbid : ℕ) (key : List ℕ) (o : Option Entry) (mk : List ℕ) (x : Option Entry)
      → vbid < 2 ^ 16
      → IsU16 o
      → Holds hash_key s (vb_key vbid key) o
      → bytes_eq (vb_key vbid key) mk ≡ false
      → Holds hash_key s mk x
      → Holds hash_key (erase hash_key s vbid key) mk x
  erase-Holds_other s vbid key none mk x hv ho v other vx =
      subst (λ t. Holds hash_key t mk x)
        (sym (
          erase-none s vbid key
            (find-Holds-none hash_key s (vb_key vbid key) (hash_key vbid key) v)))
        vx
  erase-Holds_other s vbid key (some e) mk x hv ho v other vx =
      let found = find_under hash_key s vbid key e hv ho v in
      let apart : bytes_eq (map_key e) mk ≡ false =
        rw (eq_of_bytes_eq (map_key e) (vb_key vbid key) v.0) other in
      subst (λ t. Holds hash_key t mk x) (sym (erase-some s vbid key e found))
        (free-Holds_other s e mk x apart vx)
