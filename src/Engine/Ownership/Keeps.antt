-- ===== src/Engine/Ownership/Keeps.antt =====
-- Every step keeps the ownership of the queue.
use fluxkv.Base.{
  ℕ, suc, ◌+◌, ◌≡◌, refl, ap, ◌∙◌, inl, inr, Bool, List, [], ◌++◌, if◌then◌else◌, arith,
}
use fluxkv.Engine.Request.{Request}
use fluxkv.Engine.Batch.{BatchSort}
use fluxkv.Engine.Batch.Newest.{IsBatch, IsBatch-reverse, Store, write_all, write_all-batch}
use fluxkv.Engine.Queue.{push, count_pending, arm, take_batch, release}
use fluxkv.Engine.Ownership.{
  Machine, start, submit, pushes, sweeps, writes, releases, rechecks, Step, pushed_chain, counted,
  armed, taken, swept, written_batch, released, rechecked, rearmed, Steps, here, next, IsOwned,
}
use mathlib.Core.List.{reverse, reverse-append, append_assoc, append-nil}

append_pushed :
    (w b l : List Request) (chain : List Request)
    → w ++ (b ++ reverse (chain ++ l)) ≡ (w ++ (b ++ reverse l)) ++ reverse chain
append_pushed w b l chain = simp (reverse-append, append_assoc)

pushes-IsOwned :
    (s : Machine) (chain : List Request)
    → IsBatch (chain ++ s.queue.list)
    → IsOwned s
    → IsOwned (pushes s chain)
unfolding pushes push
pushes-IsOwned s chain fits v = record {
  one_owner = v.one_owner;
  in_order =
      append_pushed s.applied s.batch s.queue.list chain ∙ ap (λ l. l ++ reverse chain) v.in_order;
  stored = v.stored;
  queue_fits = fits;
  batch_fits = v.batch_fits;
  held = v.held;
  awake = inr (inr (omega arith));
}

submit-IsOwned :
    (s : Machine)
    → s.tasks + s.working + s.writing + s.wrote ≡ (if s.queue.scheduled then 1 else 0)
    → s.applied ++ (s.batch ++ reverse s.queue.list) ≡ s.pushed
    → ((t : Store) (k : List ℕ) → write_all s.written t k ≡ write_all s.applied t k)
    → IsBatch s.queue.list
    → IsBatch s.batch
    → (s.writing ≡ 0 → s.batch ≡ [])
    → IsOwned (submit s)
unfolding submit arm
submit-IsOwned s one order stored fits fits' held = record {
  one_owner = ground (arith, one);
  in_order = order;
  stored = stored;
  queue_fits = fits;
  batch_fits = fits';
  held = held;
  awake = inr (inl refl);
}

idle_writer : (s : Machine) (n : ℕ) → s.working ≡ suc n → IsOwned s → s.writing ≡ 0
idle_writer s n w v = ground (arith, v.one_owner)

sweeps-IsOwned : (s : Machine) (n : ℕ) → s.working ≡ suc n → IsOwned s → IsOwned (sweeps s n)
unfolding sweeps take_batch
sweeps-IsOwned s n w v =
    let none_held = v.held (idle_writer s n w v) in
    let order : s.applied ++ reverse s.queue.list ≡ s.pushed = rw none_held at v.in_order in
    record {
      one_owner = ground (arith, v.one_owner);
      in_order = rw append-nil order;
      stored = v.stored;
      queue_fits = record { size_u32 = omega arith; keys = tt };
      batch_fits = IsBatch-reverse s.queue.list v.queue_fits;
      held = λ h. absurd (omega arith);
      awake = inl refl;
    }

writes-IsOwned :
    (exceeds : ℕ → ℕ → Bool) (mode : BatchSort) (s : Machine) (n : ℕ)
    → s.writing ≡ suc n
    → IsOwned s
    → IsOwned (writes exceeds mode s n)
unfolding writes
writes-IsOwned exceeds mode s n w v = record {
  one_owner = ground (arith, v.one_owner);
  in_order = append_assoc s.applied s.batch (reverse s.queue.list) ∙ v.in_order;
  stored = write_all-batch exceeds mode s.written s.applied s.batch v.batch_fits v.stored;
  queue_fits = v.queue_fits;
  batch_fits = record { size_u32 = omega arith; keys = tt };
  held = λ h. refl;
  awake = v.awake;
}

releases-IsOwned : (s : Machine) (n : ℕ) → s.wrote ≡ suc n → IsOwned s → IsOwned (releases s n)
unfolding releases release
releases-IsOwned s n w v = record {
  one_owner = ground (arith, v.one_owner);
  in_order = v.in_order;
  stored = v.stored;
  queue_fits = v.queue_fits;
  batch_fits = v.batch_fits;
  held = v.held;
  awake = inr (inr (omega arith));
}

rechecks-IsOwned : (s : Machine) (n : ℕ) → s.releasing ≡ suc n → IsOwned s → IsOwned (rechecks s n)
unfolding rechecks
rechecks-IsOwned s n r v = record {
  one_owner = v.one_owner;
  in_order = v.in_order;
  stored = v.stored;
  queue_fits = v.queue_fits;
  batch_fits = v.batch_fits;
  held = v.held;
  awake = ground (arith, v.awake);
}

module _ (exceeds : ℕ → ℕ → Bool) (mode : BatchSort) where
  pub Step-IsOwned : (s t : Machine) → Step exceeds mode s t → IsOwned s → IsOwned t
  unfolding count_pending
  Step-IsOwned s _ (pushed_chain _ chain fits) v = pushes-IsOwned s chain fits v
  Step-IsOwned s _ (counted _ n) v = record {
    one_owner = v.one_owner;
    in_order = v.in_order;
    stored = v.stored;
    queue_fits = v.queue_fits;
    batch_fits = v.batch_fits;
    held = v.held;
    awake = v.awake;
  }
  Step-IsOwned s _ (armed _ n h) v =
      submit-IsOwned (record s { pushing = n }) v.one_owner v.in_order v.stored v.queue_fits
        v.batch_fits v.held
  Step-IsOwned s _ (taken _ n h) v = record {
    one_owner = omega (arith, v.one_owner);
    in_order = v.in_order;
    stored = v.stored;
    queue_fits = v.queue_fits;
    batch_fits = v.batch_fits;
    held = v.held;
    awake = v.awake;
  }
  Step-IsOwned s _ (swept _ n h) v = sweeps-IsOwned s n h v
  Step-IsOwned s _ (written_batch _ n h) v = writes-IsOwned exceeds mode s n h v
  Step-IsOwned s _ (released _ n h) v = releases-IsOwned s n h v
  Step-IsOwned s _ (rechecked _ n h) v = rechecks-IsOwned s n h v
  Step-IsOwned s _ (rearmed _ n h) v =
      submit-IsOwned (record s { rearming = n }) v.one_owner v.in_order v.stored v.queue_fits
        v.batch_fits v.held

  pub Steps-keep : (s t : Machine) → Steps exceeds mode s t → IsOwned s → IsOwned t
  Steps-keep s _ here v = v
  Steps-keep s _ (next t u r step) v = Step-IsOwned t u step (Steps-keep s t r v)

start-IsOwned : IsOwned start
start-IsOwned = record {
  one_owner = refl;
  in_order = refl;
  stored = λ t k. refl;
  queue_fits = record { size_u32 = omega arith; keys = tt };
  batch_fits = record { size_u32 = omega arith; keys = tt };
  held = λ h. refl;
  awake = inl refl;
}

pub Steps-IsOwned :
    (exceeds : ℕ → ℕ → Bool) (mode : BatchSort) (s : Machine)
    → Steps exceeds mode start s
    → IsOwned s
Steps-IsOwned exceeds mode s r = Steps-keep exceeds mode start s r start-IsOwned
