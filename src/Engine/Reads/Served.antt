-- ===== src/Engine/Reads/Served.antt =====
-- Every interleaving of the steps on a read queue: how many owners it has, and that no request is stranded.
use fluxkv.Base.{ℕ, ◌+◌, ◌≤◌, ◌<◌, ◌≡◌, refl, inl, inr, List, [], ◌∷◌, arith, length, All}
use fluxkv.Engine.Request.{Request}
use fluxkv.Engine.Reads.{
  deepen, Machine, Step, Steps, here, next, pushed_head, deepened, recruited, taken, drained, swept,
  capped, served, looked, checked, rejoined,
}
use fluxkv.Engine.Persist.Weights.{weigh}
use fluxkv.Engine.Reads.Weights.{weigh_all, unserved}
use fluxkv.Engine.Reads.Owned.{
  IsOwned, start-IsOwned, pushes-IsOwned, recruited-IsOwned, rejoined-IsOwned, drains-IsOwned,
}
use fluxkv.Engine.Reads.Collected.{
  sweeps-IsOwned, caps-IsOwned, serves-IsOwned, looks-IsOwned, checks-IsOwned,
}

-- No thread is on its way: none is pushing, owns the queue or looks whether it should, and there is no task.
abbrev pub IsQuiet : Machine → Type 0
IsQuiet s =
    s.pushing
      + s.tasks
      + s.working
      + length s.drained
      + length s.swept
      + length s.reading
      + s.releasing
      + s.checking
      + s.rejoining
    ≡ 0

module _ (max_owners max_batch : ℕ) (some_owner : 0 < max_owners) where
  Step-IsOwned :
      (s t : Machine)
      → Step max_owners max_batch s t
      → IsOwned max_owners max_batch some_owner s
      → IsOwned max_owners max_batch some_owner t
  unfolding deepen
  Step-IsOwned s _ (pushed_head _ r) v = pushes-IsOwned max_owners max_batch some_owner r s v
  Step-IsOwned s _ (deepened _) v = record {
    owners = v.owners;
    few = v.few;
    small = v.small;
    kept = v.kept;
    overflow_seen = v.overflow_seen;
    list_seen = v.list_seen;
  }
  Step-IsOwned s _ (recruited _ n depth h) v =
      recruited-IsOwned max_owners max_batch some_owner s n depth h v
  Step-IsOwned s _ (taken _ n h) v = record {
    owners = omega (arith, v.owners);
    few = v.few;
    small = v.small;
    kept = v.kept;
    overflow_seen = v.overflow_seen;
    list_seen = v.list_seen;
  }
  Step-IsOwned s _ (drained _ n h) v = drains-IsOwned max_owners max_batch some_owner s n h v
  Step-IsOwned s _ (swept _ b before after h) v =
      sweeps-IsOwned max_owners max_batch some_owner s b before after h v
  Step-IsOwned s _ (capped _ b before after h) v =
      caps-IsOwned max_owners max_batch some_owner s b before after h v
  Step-IsOwned s _ (served _ b before after h) v =
      serves-IsOwned max_owners max_batch some_owner s b before after h v
  Step-IsOwned s _ (looked _ n h) v = looks-IsOwned max_owners max_batch some_owner s n h v
  Step-IsOwned s _ (checked _ n h) v = checks-IsOwned max_owners max_batch some_owner s n h v
  Step-IsOwned s _ (rejoined _ n h) v = rejoined-IsOwned max_owners max_batch some_owner s n h v

  Steps-IsOwned :
      (s : Machine) → Steps max_owners max_batch s → IsOwned max_owners max_batch some_owner s
  Steps-IsOwned _ here = start-IsOwned max_owners max_batch some_owner
  Steps-IsOwned _ (next s t before step) = Step-IsOwned s t step (Steps-IsOwned s before)

  none_held : (f : Request → ℕ) (bs : List (List Request)) → length bs ≡ 0 → weigh_all f bs ≡ 0
  unfolding weigh_all
  none_held f [] h = refl
  none_held f (b ∷ bs) h = absurd (omega arith)

  -- With a bound of at least one owner, in every state that any interleaving of the threads' atomic steps
  -- reaches: the queue has at most that many owners; no batch that is being read is over the cap; by any
  -- measure of single requests, those that were served and those that are not served yet add up to those that
  -- were pushed; and when no thread is on its way, all that were pushed were served, so none is stranded.
  pub Steps-served :
      (s : Machine)
      → Steps max_owners max_batch s
      → (s.queue.read_owners ≤ max_owners)
        × All (λ b. length b ≤ max_batch) s.reading
        × ((f : Request → ℕ) → weigh f s.served + unserved f s ≡ weigh f s.pushed)
        × (IsQuiet s → (f : Request → ℕ) → weigh f s.served ≡ weigh f s.pushed)
  unfolding weigh
  Steps-served s r =
      let v = Steps-IsOwned s r in
      (
        v.few,
        v.small,
        v.kept,
        λ quiet f.
            let no_owner : s.queue.read_owners ≡ 0 = omega (arith, v.owners, quiet) in
            let none_over : weigh f s.queue.overflow ≡ 0 = elim v.overflow_seen [
              | inl e ↦ rw e refl
              | inr some ↦ absurd (omega (arith, some, quiet, no_owner))
            ] in
            let none_listed : weigh f s.queue.list ≡ 0 = elim v.list_seen [
              | inl e ↦ rw e refl
              | inr some ↦ absurd (omega (arith, some, quiet, no_owner))
            ] in
            omega (
              arith,
              v.kept f,
              none_over,
              none_listed,
              none_held f s.drained (omega (arith, quiet)),
              none_held f s.swept (omega (arith, quiet)),
              none_held f s.reading (omega (arith, quiet)),
            ),
      )
