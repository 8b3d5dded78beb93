-- ===== src/Cache/Holds/Evict.antt =====
-- Eviction keeps what a shard holds under a key, and never drops a pinned entry.
use fluxkv.Base.{
  ℕ, zero, suc, ◌≡◌, ◌⊎◌, inl, inr, true, List, Option, some, arith, Bool-cases, ltb, Option-cases,
  List-cases,
}
use fluxkv.Cache.Entry.{Entry}
use fluxkv.Cache.Shard.{
  Shard, bytes, evict_small, evict_main, evict_round, evict_loop, evict, has_tail,
}
use fluxkv.Cache.Shard.Rounds.{evict_small-SmallRound, evict_main-MainRound}
use fluxkv.Cache.Holds.{Holds, Keeps-refl, Keeps-trans}
use fluxkv.Cache.Holds.Views.{Outcome}
use fluxkv.Cache.Holds.Small.{SmallRound-Holds}
use fluxkv.Cache.Holds.Main.{MainRound-Holds}

module _ (hash_key : ℕ → List ℕ → ℕ) (mk : List ℕ) where
  evict_small-Holds :
      (s : Shard) (o : Option Entry)
      → has_tail s.small ≡ true
      → Holds hash_key s mk o
      → Outcome hash_key (evict_small hash_key s) mk o
  evict_small-Holds s o tail v = elim (List-cases s.small.items) [
    | inl none_left ↦ absurd (ground arith)
    | inr (e, rest, h) ↦
        SmallRound-Holds hash_key s _ mk e rest o h (evict_small-SmallRound hash_key s e rest h) v
  ]

  evict_main-Holds :
      (s : Shard) (o : Option Entry)
      → has_tail s.main ≡ true
      → Holds hash_key s mk o
      → Outcome hash_key (evict_main hash_key s) mk o
  evict_main-Holds s o tail v = elim (List-cases s.main.items) [
    | inl none_left ↦ absurd (ground arith)
    | inr (e, rest, h) ↦
        MainRound-Holds hash_key s _ mk e rest o h (evict_main-MainRound hash_key s e rest h) v
  ]

  -- A round is one of the two evictions, on a queue with a tail.
  evict_round_cases :
      (s s' : Shard)
      → evict_round hash_key s ≡ some s'
      → ((s' ≡ evict_small hash_key s) × (has_tail s.small ≡ true))
        ⊎ ((s' ≡ evict_main hash_key s) × (has_tail s.main ≡ true))
  unfolding evict_round
  evict_round_cases s s' step = ground arith

  evict_round-Holds :
      (s s' : Shard) (o : Option Entry)
      → evict_round hash_key s ≡ some s'
      → Holds hash_key s mk o
      → Outcome hash_key s' mk o
  evict_round-Holds s s' o step v = elim (evict_round_cases s s' step) [
    | inl (small, tail) ↦ rw small (evict_small-Holds s o tail v)
    | inr (main, tail) ↦ rw main (evict_main-Holds s o tail v)
  ]

  evict_loop-Holds :
      (guard : ℕ) (s : Shard) (o : Option Entry)
      → Holds hash_key s mk o
      → Outcome hash_key (evict_loop hash_key guard s) mk o
  unfolding evict_loop
  evict_loop-Holds zero s o v = (o, v, Keeps-refl o)
  evict_loop-Holds (suc guard) s o v = elim (Bool-cases (ltb s.budget (bytes s))) [
    | inl over ↦ elim (Option-cases (evict_round hash_key s)) [
      | inl stop ↦ rw (over, stop) (o, v, Keeps-refl o)
      | inr (s', step) ↦
          let (o', v', k) = evict_round-Holds s s' o step v in
          let (o'', v'', k') = evict_loop-Holds guard s' o' v' in
          rw (over, step) (o'', v'', Keeps-trans o o' o'' k k')
    ]
    | inr within ↦ rw within (o, v, Keeps-refl o)
  ]

  -- Whatever a shard holds under a key, `evict` leaves it there with its contents, maybe in the other
  -- queue and with fewer hits but never with more, or drops it if no write of it is pending; and it never
  -- brings in another.
  pub evict-Holds :
      (s : Shard) (o : Option Entry)
      → Holds hash_key s mk o
      → Outcome hash_key (evict hash_key s) mk o
  unfolding evict
  evict-Holds s o v = evict_loop-Holds _ s o v
