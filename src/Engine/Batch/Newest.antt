-- ===== src/Engine/Batch/Newest.antt =====
-- A batch that `executePersist` of server/engine.cc sorted, against the batch as it came.
use fluxkv.Base.{
  ℕ, suc, ◌+◌, ◌^◌, ◌≤◌, ◌<◌, ◌≡◌, refl, ap, sym, ◌∙◌, inl, inr, Bool, List, [], ◌∷◌, ◌++◌, Option,
  some, arith, length, length-append, get_or, All, All-append, Bool-cases, if◌then◌else◌,
}
use fluxkv.Cache.Entry.{bytes_eq}
use fluxkv.Engine.Request.{Request, new_request}
use fluxkv.Engine.Batch.{sort, sort_key, precedes, sort_batch, BatchSort, does_sort, prepare}
use fluxkv.Engine.Batch.KeyOrder.{before, IsPlaced, precedes-before}
use fluxkv.Engine.Batch.Sorting.{
  with_key, numbered, sort-map, All-sort, sort_keys-numbered, with_key-sort,
}
use fluxkv.Engine.Batch.Runs.{
  runs, split_runs-runs, sort-IsSorted, runs-with_key, runs-none_kept, runs-IsAscending,
  IsAscending,
}
use mathlib.Core.List.{reverse, reverse-append}

-- The keys and the size of a batch.
abbrev pub IsKey : Request → Type 0
IsKey r = (length r.key < 2 ^ 32) × All (λ b. b < 256) r.key

pub record IsBatch (batch : List Request) : Type 0 where
  pub size_u32 : length batch < 2 ^ 32
  pub keys : All IsKey batch

length-reverse : (l : List Request) → length (reverse l) ≡ length l
length-reverse [] = refl
length-reverse (r ∷ l) =
    rw (reverse-append (r ∷ []) l)
      (omega (arith, length-reverse l, length-append (reverse l) (r ∷ [])))

IsKey-reverse : (l : List Request) → All IsKey l → All IsKey (reverse l)
IsKey-reverse [] keys = tt
IsKey-reverse (r ∷ l) (key, keys) =
    rw (reverse-append (r ∷ []) l)
      (All-append IsKey (reverse l) (r ∷ []) (IsKey-reverse l keys) (key, tt))

pub IsBatch-reverse : (l : List Request) → IsBatch l → IsBatch (reverse l)
IsBatch-reverse l v = record {
  size_u32 = rw (length-reverse l) v.size_u32;
  keys = IsKey-reverse l v.keys;
}

IsPlaced-numbered :
    (batch rs : List Request) (n : ℕ)
    → ((i : ℕ) → get_or batch (n + i) new_request ≡ get_or rs i new_request)
    → n + length rs < 2 ^ 32
    → All IsKey rs
    → All (IsPlaced batch) (numbered n rs)
unfolding numbered
IsPlaced-numbered batch [] n at size keys = tt
IsPlaced-numbered batch (r ∷ rs) n at size ((len, bytes), keys) =
    let here : n + 0 ≡ n = omega arith in
    (
      record {
        placed = rw here at (at 0);
        place_u32 = omega (arith, size);
        len_u32 = len;
        key_bytes = bytes;
      },
      IsPlaced-numbered batch rs (suc n)
          (λ i. let next : suc n + i ≡ n + suc i = omega arith in rw next (at (suc i)))
          (omega (arith, size)) keys,
    )

-- The sort on compact keys is the sort of the requests.
pub sort_batch-runs :
    (batch : List Request)
    → IsBatch batch
    → sort_batch batch ≡ runs (sort before (numbered 0 batch))
unfolding sort_batch
sort_batch-runs batch v =
    let placed =
      IsPlaced-numbered batch batch 0
        (λ i. let none_before : 0 + i ≡ i = omega arith in rw none_before refl)
        (omega (arith, v.size_u32)) v.keys in
    rw
      (
        sort_keys-numbered 0 batch,
        sort-map (IsPlaced batch) before (precedes batch) (λ q. sort_key q.0 q.1)
            (precedes-before batch) (numbered 0 batch) placed,
      )
      (split_runs-runs batch (sort before (numbered 0 batch))
        (All-sort (IsPlaced batch) before (numbered 0 batch) placed))

-- For a batch whose keys are bytes, in sizes that 32 bits hold: of the requests of every key, those that
-- are dropped and then the one that is kept, if any, are the requests of that key in the order of their
-- arrival, at most one is kept, and the batch that is written is in strictly ascending order of the keys.
pub sort_batch-with_key :
    (batch : List Request)
    → IsBatch batch
    → ((k : List ℕ)
        → (with_key k (sort_batch batch).1 ++ with_key k (sort_batch batch).0 ≡ with_key k batch)
          × (length (with_key k (sort_batch batch).0) ≤ 1))
      × IsAscending (sort_batch batch).0
sort_batch-with_key batch v =
    let l = sort before (numbered 0 batch) in
    let sorted = sort-IsSorted (numbered 0 batch) in
    rw (sort_batch-runs batch v) (
      (λ k. let (parts, few) = runs-with_key k l sorted in (parts ∙ with_key-sort k 0 batch, few)),
      runs-IsAscending l sorted,
    )

pub sort_batch-none_kept :
    (batch : List Request) (k : List ℕ)
    → IsBatch batch
    → with_key k (sort_batch batch).0 ≡ []
    → with_key k batch ≡ []
sort_batch-none_kept batch k v e =
    let l = sort before (numbered 0 batch) in
    sym (with_key-sort k 0 batch) ∙ runs-none_kept k l (rw (sort_batch-runs batch v) at e)

-- A store that holds the newest write of each key.
abbrev pub Store : Type 0
Store = List ℕ → Option Request

unfoldable pub write_all : List Request → Store → Store
write_all [] s = s
write_all (r ∷ rs) s = write_all rs (λ k. if bytes_eq r.key k then some r else s k)

newest : List Request → Option Request → Option Request
newest [] o = o
newest (r ∷ rs) o = newest rs (some r)

write_all-newest :
    (rs : List Request) (s : Store) (k : List ℕ) → write_all rs s k ≡ newest (with_key k rs) (s k)
unfolding write_all newest with_key
write_all-newest [] s k = refl
write_all-newest (r ∷ rs) s k =
    write_all-newest rs (λ k. if bytes_eq r.key k then some r else s k) k
    ∙ elim (Bool-cases (bytes_eq r.key k)) [ inl hit ↦ rw hit refl | inr miss ↦ rw miss refl ]

newest-snoc :
    (a : List Request) (r : Request) (o : Option Request) → newest (a ++ (r ∷ [])) o ≡ some r
unfolding newest
newest-snoc [] r o = refl
newest-snoc (q ∷ a) r o = newest-snoc a r (some q)

newest-append :
    (a b : List Request) (o : Option Request)
    → (b ≡ [] → a ≡ [])
    → length b ≤ 1
    → newest (a ++ b) o ≡ newest b o
unfolding newest
newest-append a [] o h few = rw (h refl) refl
newest-append a (s ∷ []) o h few = newest-snoc a s o
newest-append a (s ∷ (t ∷ b)) o h few = absurd (omega arith)

none_dropped :
    (batch : List Request) (k : List ℕ) (a b : List Request)
    → (b ≡ [] → with_key k batch ≡ [])
    → a ++ b ≡ with_key k batch
    → b ≡ []
    → a ≡ []
none_dropped batch k [] b h e n = refl
none_dropped batch k (r ∷ a) b h e n = absurd (let f = e ∙ h n in cc)

-- For a batch whose keys are bytes, in sizes that 32 bits hold: writing what the sort leaves of the batch,
-- in the order of its keys, leaves every key of any store as writing the whole batch in the order of its
-- arrival does.
pub write_all-sort_batch :
    (batch : List Request) (s : Store) (k : List ℕ)
    → IsBatch batch
    → write_all (sort_batch batch).0 s k ≡ write_all batch s k
write_all-sort_batch batch s k v =
    let (each_key, ascending) = sort_batch-with_key batch v in
    let (parts, few) = each_key k in
    let none_kept = sort_batch-none_kept batch k v in
    let kept = with_key k (sort_batch batch).0 in
    let dropped = with_key k (sort_batch batch).1 in
    write_all-newest (sort_batch batch).0 s k
    ∙ (sym
          (newest-append dropped kept (s k) (none_dropped batch k dropped kept none_kept parts) few)
        ∙ (ap (λ rs. newest rs (s k)) parts ∙ sym (write_all-newest batch s k)))

-- What a write leaves under a key depends on what was there.
write_all-cong :
    (rs : List Request) (s t : Store) (k : List ℕ) → s k ≡ t k → write_all rs s k ≡ write_all rs t k
write_all-cong rs s t k h =
    write_all-newest rs s k ∙ (ap (newest (with_key k rs)) h ∙ sym (write_all-newest rs t k))

write_all-append :
    (a b : List Request) (s : Store) → write_all (a ++ b) s ≡ write_all b (write_all a s)
unfolding write_all
write_all-append [] b s = refl
write_all-append (r ∷ a) b s = write_all-append a b (λ k. if bytes_eq r.key k then some r else s k)

write_all-prepare :
    (exceeds : ℕ → ℕ → Bool) (mode : BatchSort) (batch : List Request) (s : Store) (k : List ℕ)
    → IsBatch batch
    → write_all (prepare exceeds mode batch).0 s k ≡ write_all batch s k
unfolding prepare
write_all-prepare exceeds mode batch s k v = elim (Bool-cases (does_sort exceeds mode batch)) [
  | inr plain ↦ rw plain refl
  | inl sorted ↦ rw sorted (write_all-sort_batch batch s k v)
]

-- Two runs of writes that no store tells apart stay so when one more batch follows, prepared in one of them
-- and as it came in the other.
pub write_all-batch :
    (exceeds : ℕ → ℕ → Bool) (mode : BatchSort) (written applied batch : List Request)
    → IsBatch batch
    → ((t : Store) (k : List ℕ) → write_all written t k ≡ write_all applied t k)
    → (t : Store) (k : List ℕ)
    → write_all (written ++ (prepare exceeds mode batch).0) t k ≡ write_all (applied ++ batch) t k
write_all-batch exceeds mode written applied batch v same t k =
    let kept = (prepare exceeds mode batch).0 in
    ap (λ (f : Store). f k) (write_all-append written kept t)
    ∙ (write_all-prepare exceeds mode batch (write_all written t) k v
        ∙ (write_all-cong batch (write_all written t) (write_all applied t) k (same t k)
            ∙ ap (λ (f : Store). f k) (sym (write_all-append applied batch t))))
