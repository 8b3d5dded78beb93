-- ===== src/Engine/Batch.antt =====
-- How `executePersist` of server/engine.cc sorts a batch by key and drops all but the newest write of each
-- key, with `keyPrefix` and `estimateDupFraction`. A comparison of doubles is a parameter.
pub mod Prefix
pub mod Lex
pub mod KeyOrder
pub mod Sorting
pub mod Runs
pub mod Newest
use fluxkv.Base.{
  ℕ, suc, ◌+◌, ◌-◌, ◌*◌, ◌/◌, ◌%◌, ◌^◌, max, min, Bool, true, false, not, ◌&&◌, List, [], ◌∷◌,
  bit_or, length, take, get_or, ltb, leb, ◌==◌, if◌then◌else◌,
}
use fluxkv.Engine.Request.{Request, new_request}
use fluxkv.Cache.Entry.{bytes_eq}
use fluxkv.Protocol.{number_of, swap}

-- The loop of `keyPrefix`, from the byte `j` on.
unfoldable pub prefix_loop : ℕ → List ℕ → ℕ → ℕ
prefix_loop j [] p = p
prefix_loop j (b ∷ bs) p = prefix_loop (suc j) bs (bit_or p (b * 2 ^ (56 - 8 * j)))

-- `keyPrefix`. The memory of the first 8 bytes is read as a little-endian number.
unfoldable pub key_prefix : List ℕ → ℕ
unfolding prefix_loop swap number_of
key_prefix k = if leb 8 (length k) then swap 8 (number_of (take 8 k)) else prefix_loop 0 k 0

pub record SortKey : Type 0 where
  pub prefix : ℕ
  pub idx : ℕ
  pub len : ℕ

unfoldable pub sort_key : ℕ → Request → SortKey
unfolding key_prefix
sort_key i r = record { prefix = key_prefix r.key; idx = i % 2 ^ 32; len = length r.key % 2 ^ 32 }

unfoldable pub sort_keys : ℕ → List Request → List SortKey
unfolding sort_key
sort_keys i [] = []
sort_keys i (r ∷ rs) = sort_key i r ∷ sort_keys (suc i) rs

-- `operator<` of `std::string_view`, which compares bytes without their sign.
unfoldable pub lex_lt : List ℕ → List ℕ → Bool
lex_lt a [] = false
lex_lt [] (y ∷ b) = true
lex_lt (x ∷ a) (y ∷ b) = if x == y then lex_lt a b else ltb x y

-- Every index of a `SortKey` is one of the batch.
abbrev pub full_key : List Request → ℕ → List ℕ
full_key batch i = (get_or batch i new_request).key

unfoldable pub same_key : List Request → SortKey → SortKey → Bool
unfolding bytes_eq
same_key batch a b =
    if (a.prefix == b.prefix) && (a.len == b.len)
    then (if leb a.len 8 then true else bytes_eq (full_key batch a.idx) (full_key batch b.idx))
    else false

-- The comparison that the batch is sorted by.
unfoldable pub precedes : List Request → SortKey → SortKey → Bool
unfolding bytes_eq lex_lt
precedes batch a b =
    if not (a.prefix == b.prefix)
    then ltb a.prefix b.prefix
    else (if leb a.len 8 && leb b.len 8
        then (if not (a.len == b.len) then ltb a.len b.len else ltb a.idx b.idx)
        else (let ka = full_key batch a.idx in
            let kb = full_key batch b.idx in
            if not (bytes_eq ka kb) then lex_lt ka kb else ltb a.idx b.idx))

-- `std::sort`, by insertion.
module _ {A : Type 0} (less : A → A → Bool) where
  unfoldable pub insert_sorted : A → List A → List A
  insert_sorted x [] = x ∷ []
  insert_sorted x (y ∷ ys) =
      let rest = insert_sorted x ys in if less y x then y ∷ rest else x ∷ (y ∷ ys)

  unfoldable pub sort : List A → List A
  unfolding insert_sorted
  sort [] = []
  sort (x ∷ xs) = insert_sorted x (sort xs)

-- `i + 1 < keys.size() && sameKey(keys[i], keys[i + 1])`
unfoldable pub is_repeated : List Request → SortKey → List SortKey → Bool
unfolding same_key
is_repeated batch a [] = false
is_repeated batch a (b ∷ bs) = same_key batch a b

-- The loop over the sorted keys: `sorted` and `dropped`.
unfoldable pub split_runs : List Request → List SortKey → List Request × List Request
unfolding is_repeated
split_runs batch [] = ([], [])
split_runs batch (a ∷ rest) =
    let (sorted, dropped) = split_runs batch rest in
    let r = get_or batch a.idx new_request in
    if is_repeated batch a rest then (sorted, r ∷ dropped) else (r ∷ sorted, dropped)

-- The body under `doSort`: the batch that is written, and `dropped`.
unfoldable pub sort_batch : List Request → List Request × List Request
unfolding sort_keys precedes sort split_runs
sort_batch batch = split_runs batch (sort (precedes batch) (sort_keys 0 batch))

abbrev pub dup_sample_max : ℕ
dup_sample_max = 128

unfoldable pub has_seen : ℕ → List ℕ → Bool
has_seen p [] = false
has_seen p (q ∷ qs) = if p == q then true else has_seen p qs

-- The loop of `estimateDupFraction`, which looks at the next request after `skip` others: `sampled` and
-- `dups`. `seen` is the set of the prefixes.
unfoldable pub sample_loop : ℕ → ℕ → ℕ → List Request → List ℕ → ℕ → ℕ → ℕ × ℕ
unfolding key_prefix has_seen
sample_loop want stride skip [] seen sampled dups = (sampled, dups)
sample_loop want stride (suc skip) (r ∷ rs) seen sampled dups =
    sample_loop want stride skip rs seen sampled dups
sample_loop want stride ℕ.zero (r ∷ rs) seen sampled dups =
    let p = key_prefix r.key in
    let next =
      sample_loop want stride (stride - 1) rs (if has_seen p seen then seen else p ∷ seen)
        (sampled + 1) (if has_seen p seen then dups + 1 else dups) in
    if ltb sampled want then next else (sampled, dups)

-- `estimateDupFraction`: the two numbers of the fraction, for a batch that is not empty. It is 0 for one
-- sample.
unfoldable pub estimate_dups : List Request → ℕ × ℕ
unfolding sample_loop
estimate_dups batch =
    let n = length batch in
    let want = min n dup_sample_max in
    let (sampled, dups) = sample_loop want (max 1 (n / want)) 0 batch [] 0 0 in
    if ltb 1 sampled then (dups, sampled) else (0, 1)

pub data BatchSort : Type 0 where
  never : BatchSort
  automatic : BatchSort
  always : BatchSort

-- `doSort`, with the test of a fraction against `gSortDupThreshold`.
unfoldable pub does_sort : (ℕ → ℕ → Bool) → BatchSort → List Request → Bool
unfolding estimate_dups
does_sort exceeds mode batch = ltb 1 (length batch) && elim mode [
  | never ↦ false
  | always ↦ true
  | automatic ↦ (let (dups, sampled) = estimate_dups batch in exceeds dups sampled)
]

-- What is written of a batch, and what is dropped.
unfoldable pub prepare : (ℕ → ℕ → Bool) → BatchSort → List Request → List Request × List Request
unfolding does_sort sort_batch
prepare exceeds mode batch =
    let (sorted, dropped) = sort_batch batch in
    if does_sort exceeds mode batch then (sorted, dropped) else (batch, [])
