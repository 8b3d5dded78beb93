-- ===== src/Cache/Shard/Ready.antt =====
-- The bound on the rounds of `Shard::evict`, carried through one round on the two queues.
use fluxkv.Base.{
  ℕ, zero, suc, ◌+◌, ◌-◌, ◌*◌, ◌≤◌, ◌<◌, ◌≡◌, ap, ◌∙◌, ◌⊎◌, inl, inr, true, false, List, [], ◌∷◌,
  ◌++◌, arith, length, length-append,
}
use fluxkv.Cache.Entry.{Entry, main_queue, pinned}
use fluxkv.Cache.Fifo.{Fifo, push_head}
use fluxkv.Cache.Accounting.{IsFifo, push_head-IsFifo, pop_tail-IsFifo}
use fluxkv.Cache.Shard.Rounds.{popped}
use fluxkv.Cache.Shard.Due.{Due, Due-mono, Due-append}

-- A turn of the queue costs an entry one hit and `n` rounds.
turn :
    (f n i r t : ℕ) → 0 < f → n ≡ i + suc r → f * n + i + 1 ≤ suc t → (f - 1) * n + (i + r) + 1 ≤ t
turn zero n i r t pos size due = elim pos [ ]
turn (suc f) n i r t pos size due = let less : suc f - 1 ≡ f = omega arith in rw less (omega arith)

-- What holds before a round, with `t` rounds to go.
pub record Ready (t : ℕ) (small main : Fifo) (budget share : ℕ) : Type 0 where
  pub small_ok : IsFifo small
  pub main_ok : IsFifo main
  pub fits : share ≤ budget
  pub due : Due (length small.items + length main.items) (length small.items) t main.items
  pub room : share < small.bytes → length small.items + length main.items + length small.items ≤ t

module _ (t : ℕ) (small main : Fifo) (budget share : ℕ) (v : Ready (suc t) small main budget share)
    (e : Entry) (rest : List Entry) where
  abbrev pub cold : Entry
  cold = record e { freq = 0; queue = main_queue }

  abbrev pub cooler : Entry
  cooler = record e { freq = e.freq - 1 }

  pub Ready-moved :
      small.items ≡ e ∷ rest
      → share < small.bytes
      → Ready t (popped small e rest) (push_head main cold) budget share
  unfolding push_head
  Ready-moved h over =
      let size : length small.items ≡ suc (length rest) = ap length h in
      let n : length rest + length (main.items ++ (cold ∷ []))
          ≡ length small.items + length main.items =
        omega (arith, length-append main.items (cold ∷ [])) in
      let fresh = v.room over in
      record {
        small_ok = pop_tail-IsFifo small e rest h v.small_ok;
        main_ok = push_head-IsFifo main cold v.main_ok;
        fits = v.fits;
        due =
            Due-append main.items cold _ _ t
              (Due-mono main.items _ _ _ _ _ t (omega arith) (omega arith) v.due)
              (λ free. omega arith);
        room = λ more. omega arith;
      }

  pub Ready-freed_small :
      small.items ≡ e ∷ rest → share < small.bytes → Ready t (popped small e rest) main budget share
  Ready-freed_small h over =
      let size : length small.items ≡ suc (length rest) = ap length h in
      let fresh = v.room over in
      record {
        small_ok = pop_tail-IsFifo small e rest h v.small_ok;
        main_ok = v.main_ok;
        fits = v.fits;
        due = Due-mono main.items _ _ _ _ _ t (omega arith) (omega arith) v.due;
        room = λ more. omega arith;
      }

  hits : (pinned e ≡ true) ⊎ (0 < e.freq) → pinned e ≡ false → 0 < e.freq
  hits (inl held) free = cc
  hits (inr pos) free = pos

  pub Ready-round :
      main.items ≡ e ∷ rest
      → small.bytes ≤ share
      → (pinned e ≡ true) ⊎ (0 < e.freq)
      → Ready t small (push_head (popped main e rest) cooler) budget share
  unfolding push_head
  Ready-round h within kept =
      let size : length main.items ≡ suc (length rest) = ap length h in
      let old : Due (length small.items + suc (length rest)) (length small.items) (suc t)
          (e ∷ rest) =
        rw h at v.due in
      let n : length small.items + length (rest ++ (cooler ∷ []))
          ≡ length small.items + length main.items =
        omega (arith, length-append rest (cooler ∷ [])) in
      record {
        small_ok = v.small_ok;
        main_ok = push_head-IsFifo _ cooler (pop_tail-IsFifo main e rest h v.main_ok);
        fits = v.fits;
        due =
            Due-append rest cooler _ _ t
              (Due-mono rest _ _ _ _ _ t (omega arith) (omega arith) old.1)
              (λ free.
                turn e.freq _ (length small.items) (length rest) t (hits kept free)
                  (n ∙ ap (◌+◌ (length small.items)) size) (rw (n, size) (old.0 free)));
        room = λ more. absurd (omega arith);
      }

  pub Ready-freed_main :
      main.items ≡ e ∷ rest → small.bytes ≤ share → Ready t small (popped main e rest) budget share
  Ready-freed_main h within =
      let size : length main.items ≡ suc (length rest) = ap length h in
      let old : Due (length small.items + suc (length rest)) (length small.items) (suc t)
          (e ∷ rest) =
        rw h at v.due in
      record {
        small_ok = v.small_ok;
        main_ok = pop_tail-IsFifo main e rest h v.main_ok;
        fits = v.fits;
        due = Due-mono rest _ _ _ _ _ t (omega arith) (omega arith) old.1;
        room = λ more. absurd (omega arith);
      }
