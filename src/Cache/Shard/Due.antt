-- ===== src/Cache/Shard/Due.antt =====
-- When each unpinned entry of main is freed at the latest, counted in rounds of the loop.
use fluxkv.Base.{ℕ, ◌+◌, ◌*◌, ◌≤◌, ◌≡◌, true, false, List, [], ◌∷◌, ◌++◌, arith, length, All}
use fluxkv.Cache.Entry.{Entry, pinned}

-- The entry at place `i` goes round once for each hit that it has left, in a queue of `n` entries, and
-- is then freed: all that within `t` rounds.
abbrev pub Due : ℕ → ℕ → ℕ → List Entry → Type 0
Due n i t [] = Unit {0}
Due n i t (e ∷ es) = (pinned e ≡ false → e.freq * n + i + 1 ≤ t) × Due n (i + 1) t es

-- A shorter queue, and a place that comes nearer as fast as the rounds run out.
pub Due-mono :
    (es : List Entry) (n n' i i' t t' : ℕ)
    → n' ≤ n
    → i' + t ≤ i + t'
    → Due n i t es
    → Due n' i' t' es
Due-mono [] n n' i i' t t' hn hi d = tt
Due-mono (e ∷ es) n n' i i' t t' hn hi d = (
  λ free. let due = d.0 free in grind arith,
  Due-mono es n n' (i + 1) (i' + 1) t t' hn (omega arith) d.1,
)

pub Due-append :
    (es : List Entry) (e : Entry) (n i t : ℕ)
    → Due n i t es
    → (pinned e ≡ false → e.freq * n + (i + length es) + 1 ≤ t)
    → Due n i t (es ++ (e ∷ []))
Due-append [] e n i t d last = (λ free. let due = last free in omega arith, tt)
Due-append (x ∷ es) e n i t d last =
    (d.0, Due-append es e n (i + 1) t d.1 (λ free. let due = last free in omega arith))

-- With no round left nothing is due: all entries are pinned.
pub Due-zero : (es : List Entry) (n i : ℕ) → Due n i 0 es → All (λ e. pinned e ≡ true) es
Due-zero [] n i d = tt
Due-zero (e ∷ es) n i d = (ground arith, Due-zero es n (i + 1) d.1)

-- Four rounds for each entry are enough, as no entry has more than three hits.
pub Due-start :
    (es : List Entry) (n i t : ℕ)
    → All (λ e. e.freq ≤ 3) es
    → 3 * n + i + length es ≤ t
    → Due n i t es
Due-start [] n i t h room = tt
Due-start (e ∷ es) n i t h room =
    (λ free. let hits = h.0 in grind arith, Due-start es n (i + 1) t h.1 (omega arith))
