-- ===== src/Cache/Holds/Under.antt =====
-- `find` of a shard under the hash of a vbucket and a key.
use fluxkv.Base.{ℕ, ◌^◌, ◌<◌, ◌≡◌, refl, subst, List, some}
use fluxkv.Cache.Entry.{Entry, map_key, vb_key, eq_of_bytes_eq}
use fluxkv.Cache.Shard.{Shard, find, hash_of}
use fluxkv.Cache.Holds.{Holds, find-Holds}
use fluxkv.Cache.Holds.Steps.{vb_key-injective}

module _ (hash_key : ℕ → List ℕ → ℕ) where
  -- The lookup of a key leads to the entry that is held under it, whose hash is that of the key.
  pub hash_under :
      (s : Shard) (vbid : ℕ) (key : List ℕ) (old : Entry)
      → vbid < 2 ^ 16
      → old.vbid < 2 ^ 16
      → Holds hash_key s (vb_key vbid key) (some old)
      → hash_of hash_key old ≡ hash_key vbid key
  hash_under s vbid key old hv ho v =
      let (a, b) =
        vb_key-injective old.vbid vbid old.key key ho hv
          (eq_of_bytes_eq (map_key old) (vb_key vbid key) v.0) in
      rw (a, b) refl

  pub find_under :
      (s : Shard) (vbid : ℕ) (key : List ℕ) (old : Entry)
      → vbid < 2 ^ 16
      → old.vbid < 2 ^ 16
      → Holds hash_key s (vb_key vbid key) (some old)
      → find s (hash_key vbid key) (vb_key vbid key) ≡ some old
  find_under s vbid key old hv ho v =
      subst (λ h. find s h (vb_key vbid key) ≡ some old) (hash_under s vbid key old hv ho v)
        (find-Holds hash_key s (vb_key vbid key) old v)
