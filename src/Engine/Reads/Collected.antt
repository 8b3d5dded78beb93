-- ===== src/Engine/Reads/Collected.antt =====
-- The steps of an owner from its sweep to its release keep the ownership of a read queue.
use fluxkv.Base.{
  ℕ, suc, ◌≤◌, ◌<◌, ◌≡◌, refl, inl, inr, List, [], ◌∷◌, ◌++◌, arith, length, ltb, length-take,
  Bool-cases,
}
use fluxkv.Engine.Request.{Request}
use fluxkv.Engine.Queue.{is_empty, sweep_once}
use fluxkv.Engine.Reads.{
  sweep_reads, cap_batch, step_down, is_idle, Machine, sweeps, caps, serves, looks, checks,
}
use fluxkv.Engine.Persist.Weights.{weigh, weigh-append}
use fluxkv.Engine.Persist.Settles.{weigh-reverse, is_empty→nil}
use mathlib.Core.List.{reverse}
use fluxkv.Engine.Reads.Weights.{weigh_all, weigh_all-split, length-split, All-split, capped_weight}
use fluxkv.Engine.Reads.Owned.{IsOwned}

module _ (max_owners max_batch : ℕ) (some_owner : 0 < max_owners) where
  pub sweeps-IsOwned :
      (s : Machine) (b : List Request) (before after : List (List Request))
      → s.drained ≡ before ++ (b ∷ after)
      → IsOwned max_owners max_batch some_owner s
      → IsOwned max_owners max_batch some_owner (sweeps max_batch s b (before ++ after))
  unfolding sweeps sweep_reads sweep_once weigh weigh_all
  sweeps-IsOwned s b before after h v =
      let fewer = length-split s.drained before after b h in
      let lighter = λ (f : Request → ℕ). weigh_all-split f s.drained before after b h in
      elim (Bool-cases (ltb (length b) max_batch)) [
        | inl room ↦ rw room (record {
          owners = omega (arith, v.owners, fewer);
          few = v.few;
          small = v.small;
          kept = λ f. omega (
            arith,
            v.kept f,
            lighter f,
            weigh-append f b (reverse s.queue.list),
            weigh-reverse f s.queue.list,
          );
          overflow_seen = v.overflow_seen;
          list_seen = inl refl;
        })
        | inr full ↦ rw full (record {
          owners = omega (arith, v.owners, fewer);
          few = v.few;
          small = v.small;
          kept = λ f. omega (arith, v.kept f, lighter f);
          overflow_seen = v.overflow_seen;
          list_seen = v.list_seen;
        })
      ]

  pub caps-IsOwned :
      (s : Machine) (b : List Request) (before after : List (List Request))
      → s.swept ≡ before ++ (b ∷ after)
      → IsOwned max_owners max_batch some_owner s
      → IsOwned max_owners max_batch some_owner (caps max_batch s b (before ++ after))
  unfolding caps cap_batch step_down weigh weigh_all
  caps-IsOwned s [] before after h v =
      let fewer = length-split s.swept before after [] h in
      record {
        owners = omega (arith, v.owners, fewer);
        few = omega (arith, v.few);
        small = v.small;
        kept = λ f. omega (arith, v.kept f, weigh_all-split f s.swept before after [] h);
        overflow_seen = inr (omega arith);
        list_seen = inr (omega arith);
      }
  caps-IsOwned s (r ∷ rs) before after h v =
      let b = r ∷ rs in
      let fewer = length-split s.swept before after b h in
      record {
        owners = omega (arith, v.owners, fewer);
        few = v.few;
        small = (omega (arith, length-take max_batch b), v.small);
        kept = λ f. omega (
          arith,
          v.kept f,
          weigh_all-split f s.swept before after b h,
          capped_weight f max_batch b s.queue.overflow,
        );
        overflow_seen = inr (omega (arith, v.owners, fewer));
        list_seen = inr (omega (arith, v.owners, fewer));
      }

  pub serves-IsOwned :
      (s : Machine) (b : List Request) (before after : List (List Request))
      → s.reading ≡ before ++ (b ∷ after)
      → IsOwned max_owners max_batch some_owner s
      → IsOwned max_owners max_batch some_owner (serves s b (before ++ after))
  unfolding serves step_down
  serves-IsOwned s b before after h v = record {
    owners = omega (arith, v.owners, length-split s.reading before after b h);
    few = omega (arith, v.few);
    small = All-split (λ c. length c ≤ max_batch) s.reading before after b h v.small;
    kept = λ f.
        omega (
          arith,
          v.kept f,
          weigh_all-split f s.reading before after b h,
          weigh-append f b s.served,
        );
    overflow_seen = inr (omega arith);
    list_seen = inr (omega arith);
  }

  pub looks-IsOwned :
      (s : Machine) (n : ℕ)
      → s.releasing ≡ suc n
      → IsOwned max_owners max_batch some_owner s
      → IsOwned max_owners max_batch some_owner (looks s n)
  unfolding looks
  looks-IsOwned s n h v = elim (Bool-cases (is_empty s.queue.overflow)) [
    | inl none_over ↦ rw none_over (record {
      owners = v.owners;
      few = v.few;
      small = v.small;
      kept = v.kept;
      overflow_seen = inl (is_empty→nil s.queue.overflow none_over);
      list_seen = ground (arith, v.list_seen);
    })
    | inr some_over ↦ rw some_over (record {
      owners = v.owners;
      few = v.few;
      small = v.small;
      kept = v.kept;
      overflow_seen = inr (omega arith);
      list_seen = inr (omega arith);
    })
  ]

  pub checks-IsOwned :
      (s : Machine) (n : ℕ)
      → s.checking ≡ suc n
      → IsOwned max_owners max_batch some_owner s
      → IsOwned max_owners max_batch some_owner (checks s n)
  unfolding checks is_idle
  checks-IsOwned s n h v = record {
    owners = v.owners;
    few = v.few;
    small = v.small;
    kept = v.kept;
    overflow_seen = ground (arith, v.overflow_seen);
    list_seen = elim (Bool-cases (is_empty s.queue.list)) [
      | inl none_left ↦ inl (is_empty→nil s.queue.list none_left)
      | inr more ↦ inr (rw more (omega arith))
    ];
  }
