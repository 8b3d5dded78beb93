-- ===== src/Cache/Shard/Settles.antt =====
-- `Shard::evict` reaches a state in which nothing more can be evicted before its guard stops it.
use fluxkv.Base.{
  List-cases, ℕ, zero, suc, ◌+◌, ◌≤◌, ◌<◌, ◌≡◌, refl, ap, ◌⊎◌, inl, inr, true, List, [], ◌∷◌, some,
  arith, length, ltb, ltb→lt, Bool-cases, All,
}
use fluxkv.Cache.Entry.{Entry, pinned}
use fluxkv.Cache.Accounting.{IsFifo, total, pinned_total}
use fluxkv.Cache.Shard.{
  Shard, bytes, evict_small, evict_main, evict_round, evict_loop, evict, max_freq,
}
use fluxkv.Cache.Shard.Rounds.{
  SameLimits, SmallRound, MainRound, evict_small-SmallRound, evict_main-MainRound,
}
use fluxkv.Cache.Shard.Due.{Due-zero, Due-start}
use fluxkv.Cache.Shard.Ready.{Ready, Ready-moved, Ready-freed_small, Ready-round, Ready-freed_main}

-- Within its budget; or with a small queue within its share and nothing but pinned entries in main.
abbrev pub IsSettled : Shard → Type 0
IsSettled s =
    (bytes s ≤ s.budget)
    ⊎ ((s.small.bytes ≤ s.small_budget) × All (λ e. pinned e ≡ true) s.main.items)

-- The end of `evict` from `s`: the counts are still true, and the limits as they were.
pub record Settles (s s' : Shard) : Type 0 where
  pub limits : SameLimits s s'
  pub small_ok : IsFifo s'.small
  pub main_ok : IsFifo s'.main
  pub settled : IsSettled s'

abbrev ReadyShard : ℕ → Shard → Type 0
ReadyShard t s = Ready t s.small s.main s.budget s.small_budget

Ready-SmallRound :
    (t h' : ℕ) (s s' : Shard) (e : Entry) (rest : List Entry)
    → s.small.items ≡ e ∷ rest
    → s.small_budget < s.small.bytes
    → SmallRound h' s s' e rest
    → ReadyShard (suc t) s
    → ReadyShard t s'
Ready-SmallRound t h' s s' e rest h over r v = elim r.main [
  | inl (moved, _) ↦
      rw (r.small, moved, r.limits.budget, r.limits.small_budget)
        (Ready-moved t s.small s.main s.budget s.small_budget v e rest h over)
  | inr (kept, _, _) ↦
      rw (r.small, kept, r.limits.budget, r.limits.small_budget)
        (Ready-freed_small t s.small s.main s.budget s.small_budget v e rest h over)
]

Ready-MainRound :
    (t h' : ℕ) (s s' : Shard) (e : Entry) (rest : List Entry)
    → s.main.items ≡ e ∷ rest
    → s.small.bytes ≤ s.small_budget
    → MainRound h' s s' e rest
    → ReadyShard (suc t) s
    → ReadyShard t s'
Ready-MainRound t h' s s' e rest h within r v = elim r.main [
  | inl (round, kept, _) ↦
      rw (r.small, round, r.limits.budget, r.limits.small_budget)
        (Ready-round t s.small s.main s.budget s.small_budget v e rest h within kept)
  | inr (freed, _, _) ↦
      rw (r.small, freed, r.limits.budget, r.limits.small_budget)
        (Ready-freed_main t s.small s.main s.budget s.small_budget v e rest h within)
]

module _ (hash_key : ℕ → List ℕ → ℕ) where
  -- Over the budget there is always a queue to evict from.
  evict_round-Ready :
      (t : ℕ) (s : Shard)
      → s.budget < bytes s
      → ReadyShard (suc t) s
      → (s' : Shard) × (evict_round hash_key s ≡ some s') × SameLimits s s' × ReadyShard t s'
  unfolding evict_round total
  evict_round-Ready t s over v = elim (Bool-cases (ltb s.small_budget s.small.bytes)) [
    | inl large ↦ elim (List-cases s.small.items) [
      | inl none_left ↦
          let gone : total s.small.items ≡ 0 = rw none_left in
          absurd (ground (arith, v.small_ok.charged))
      | inr (e, rest, h) ↦ (
        evict_small hash_key s,
        ground arith,
        (evict_small-SmallRound hash_key s e rest h).limits,
        Ready-SmallRound t _ s _ e rest h (ltb→lt _ _ large)
            (evict_small-SmallRound hash_key s e rest h) v,
      )
    ]
    | inr share ↦ elim (List-cases s.main.items) [
      | inl none_left ↦
          let gone : total s.main.items ≡ 0 = rw none_left in
          absurd (ground (arith, v.main_ok.charged, v.fits))
      | inr (e, rest, h) ↦ (
        evict_main hash_key s,
        ground arith,
        (evict_main-MainRound hash_key s e rest h).limits,
        Ready-MainRound t _ s _ e rest h (ground arith) (evict_main-MainRound hash_key s e rest h)
            v,
      )
    ]
  ]

  last_round : (s : Shard) → ReadyShard 0 s → IsSettled s
  unfolding total
  last_round s v = elim (Bool-cases (ltb s.small_budget s.small.bytes)) [
    | inl large ↦ elim (List-cases s.small.items) [
      | inl none_left ↦
          let gone : total s.small.items ≡ 0 = rw none_left in
          absurd (ground (arith, v.small_ok.charged))
      | inr (e, rest, h) ↦ absurd (omega (arith, v.room (ltb→lt _ _ large), ap length h))
    ]
    | inr share ↦ inr (ground arith, Due-zero s.main.items _ _ v.due)
  ]

  end_here : (t : ℕ) (s : Shard) → ReadyShard t s → IsSettled s → Settles s s
  end_here t s v done = record {
    limits = record { budget = refl; small_budget = refl };
    small_ok = v.small_ok;
    main_ok = v.main_ok;
    settled = done;
  }

  evict_loop-Settles : (t : ℕ) (s : Shard) → ReadyShard t s → Settles s (evict_loop hash_key t s)
  unfolding evict_loop
  evict_loop-Settles zero s v = end_here 0 s v (last_round s v)
  evict_loop-Settles (suc t) s v = elim (Bool-cases (ltb s.budget (bytes s))) [
    | inl over ↦
        let (s', step, same, v') = evict_round-Ready t s (ltb→lt _ _ over) v in
        let rest = evict_loop-Settles t s' v' in
        rw (over, step)
          (record {
            limits = omega (arith, rest.limits, same);
            small_ok = rest.small_ok;
            main_ok = rest.main_ok;
            settled = rest.settled;
          })
    | inr within ↦ rw within (end_here _ s v (inl (ground arith)))
  ]

  -- From queues with true counts, with no more than three hits on an entry of main and a small queue
  -- whose share is at most the budget, the loop of `evict`, whose guard bounds its rounds, ends within
  -- the budget, or with small within its share and every entry of main pinned, whatever small
  -- still holds there. It keeps the counts true and the limits.
  pub evict-Settles :
      (s : Shard)
      → IsFifo s.small
      → IsFifo s.main
      → All (λ e. e.freq ≤ max_freq) s.main.items
      → s.small_budget ≤ s.budget
      → Settles s (evict hash_key s)
  unfolding evict
  evict-Settles s small main hits fits = evict_loop-Settles _ s (record {
    small_ok = small;
    main_ok = main;
    fits = fits;
    due = Due-start s.main.items _ _ _ hits (omega arith);
    room = λ more. omega arith;
  })

  All-pinned_total : (es : List Entry) → All (λ e. pinned e ≡ true) es → total es ≡ pinned_total es
  unfolding total pinned_total
  All-pinned_total [] h = refl
  All-pinned_total (e ∷ es) h = ground (arith, All-pinned_total es h.1)

  -- From queues with true counts, with no more than three hits on an entry of main and a small queue
  -- whose share is at most the budget, a shard is after `evict` over its budget by at most the bytes of
  -- the pinned entries in main, whose writes are not applied yet.
  pub evict_bound :
      (s : Shard)
      → IsFifo s.small
      → IsFifo s.main
      → All (λ e. e.freq ≤ max_freq) s.main.items
      → s.small_budget ≤ s.budget
      → bytes (evict hash_key s) ≤ s.budget + pinned_total (evict hash_key s).main.items
  evict_bound s small main hits fits =
      let r = evict-Settles s small main hits fits in
      elim r.settled [
        | inl within ↦ omega (arith, r.limits)
        | inr (share, held) ↦
            omega (arith, r.limits, r.main_ok.charged, All-pinned_total _ held, share)
      ]
