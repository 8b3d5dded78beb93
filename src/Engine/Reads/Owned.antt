-- ===== src/Engine/Reads/Owned.antt =====
-- What every interleaving of the steps on a read queue keeps, and that the steps of pushers, and of owners up
-- to the drain, keep it.
use fluxkv.Base.{
  ℕ, suc, ◌+◌, ◌*◌, ◌%◌, ◌^◌, ◌≤◌, ◌<◌, ◌≡◌, refl, ◌⊎◌, inl, inr, true, false, not, ◌&&◌, ◌||◌, [],
  arith, length, leb, ltb, ◌==◌, All, Bool-cases,
}
use fluxkv.Engine.Request.{Request}
use fluxkv.Engine.Queue.{insert_head, insert_chain}
use fluxkv.Engine.Reads.{
  ReadQueue, push_read, signed_leb, recruit, drain_overflow, rejoin, Machine, start, pushes, submit,
  drains,
}
use fluxkv.Engine.Persist.Weights.{weigh}
use fluxkv.Engine.Reads.Weights.{weigh_all, weigh-take-drop, unserved}

module _ (max_owners max_batch : ℕ) (some_owner : 0 < max_owners) where
  pub record IsOwned (s : Machine) : Type 0 where
    pub owners :
        s.queue.read_owners
        ≡ s.tasks + s.working + length s.drained + length s.swept + length s.reading
    pub few : s.queue.read_owners ≤ max_owners
    pub small : All (λ b. length b ≤ max_batch) s.reading
    pub kept : (f : Request → ℕ) → weigh f s.served + unserved f s ≡ weigh f s.pushed
    pub overflow_seen :
        (s.queue.overflow ≡ []) ⊎ (0 < s.queue.read_owners + s.releasing + s.rejoining)
    pub list_seen :
        (s.queue.list ≡ [])
        ⊎ (0 < s.queue.read_owners + s.pushing + s.releasing + s.checking + s.rejoining)

  pub start-IsOwned : IsOwned start
  unfolding weigh weigh_all
  start-IsOwned = record {
    owners = refl;
    few = omega arith;
    small = tt;
    kept = λ f. refl;
    overflow_seen = inl refl;
    list_seen = inl refl;
  }

  pub pushes-IsOwned : (r : Request) (s : Machine) → IsOwned s → IsOwned (pushes r s)
  unfolding pushes push_read insert_head insert_chain weigh
  pushes-IsOwned r s v = record {
    owners = v.owners;
    few = v.few;
    small = v.small;
    kept = λ f. omega (arith, v.kept f);
    overflow_seen = v.overflow_seen;
    list_seen = inr (omega arith);
  }

  -- `EnqueueRead` leaves a queue with an owner as it is, or adds one below the bound.
  recruit-cases :
      (depth : ℕ) (q : ReadQueue)
      → ((recruit max_owners max_batch depth q ≡ (q, false)) × (0 < q.read_owners))
        ⊎ ((recruit max_owners max_batch depth q
              ≡ (record q { read_owners = q.read_owners + 1 }, true))
            × (q.read_owners < max_owners))
  unfolding recruit
  recruit-cases depth q =
      let deep = signed_leb depth ((q.read_owners * max_batch) % 2 ^ 64) in
      elim (Bool-cases (not (q.read_owners == 0) && (leb max_owners q.read_owners || deep))) [
        | inl enough ↦ inl (rw enough refl, ground arith)
        | inr joins ↦ inr (rw joins refl, ground arith)
      ]

  pub recruited-IsOwned :
      (s : Machine) (n depth : ℕ)
      → s.pushing ≡ suc n
      → IsOwned s
      → IsOwned (submit (record s { pushing = n }) (recruit max_owners max_batch depth s.queue))
  recruited-IsOwned s n depth h v = elim (recruit-cases depth s.queue) [
    | inl (enough, owned) ↦ rw enough (record {
      owners = v.owners;
      few = v.few;
      small = v.small;
      kept = v.kept;
      overflow_seen = v.overflow_seen;
      list_seen = inr (omega (arith, owned));
    })
    | inr (joins, room) ↦ rw joins (record {
      owners = omega (arith, v.owners);
      few = omega (arith, room);
      small = v.small;
      kept = v.kept;
      overflow_seen = inr (omega arith);
      list_seen = inr (omega arith);
    })
  ]

  pub rejoined-IsOwned :
      (s : Machine) (n : ℕ)
      → s.rejoining ≡ suc n
      → IsOwned s
      → IsOwned (submit (record s { rejoining = n }) (rejoin max_owners s.queue))
  unfolding rejoin
  rejoined-IsOwned s n h v = elim (Bool-cases (ltb s.queue.read_owners max_owners)) [
    | inr full ↦ rw full (record {
      owners = v.owners;
      few = v.few;
      small = v.small;
      kept = v.kept;
      overflow_seen = inr (ground arith);
      list_seen = inr (ground arith);
    })
    | inl room ↦ rw room (record {
      owners = omega (arith, v.owners);
      few = ground arith;
      small = v.small;
      kept = v.kept;
      overflow_seen = inr (omega arith);
      list_seen = inr (omega arith);
    })
  ]

  pub drains-IsOwned :
      (s : Machine) (n : ℕ) → s.working ≡ suc n → IsOwned s → IsOwned (drains max_batch s n)
  unfolding drains drain_overflow weigh_all
  drains-IsOwned s n h v = record {
    owners = omega (arith, v.owners);
    few = v.few;
    small = v.small;
    kept = λ f. omega (arith, v.kept f, weigh-take-drop f max_batch s.queue.overflow);
    overflow_seen = inr (omega (arith, v.owners));
    list_seen = inr (omega (arith, v.owners));
  }
