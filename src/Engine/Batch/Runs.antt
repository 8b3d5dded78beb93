-- ===== src/Engine/Batch/Runs.antt =====
-- What the loop over the sorted keys of `executePersist` keeps and drops of the requests of each key.
use fluxkv.Base.{
  ℕ, ◌%◌, ◌^◌, ◌≤◌, ◌≡◌, refl, ap, sym, ◌∙◌, inl, inr, Bool, true, false, List, [], ◌∷◌, ◌++◌,
  arith, map, length, get_or, All, Bool-cases, if◌then◌else◌,
}
use fluxkv.Cache.Entry.{bytes_eq, eq_of_bytes_eq}
use fluxkv.Engine.Request.{Request, new_request}
use fluxkv.Engine.Batch.{insert_sorted, sort, lex_lt, sort_key, is_repeated, split_runs}
use fluxkv.Engine.Batch.KeyOrder.{before, IsPlaced, same_key-bytes_eq}
use fluxkv.Engine.Batch.Lex.{
  lex_lt_irrefl, lex_lt_asym, lex_lt_total, lex_lt_under, lex_lt_le_trans, bytes_eq_sym,
  different_keys_back,
}
use fluxkv.Engine.Batch.Sorting.{with_key, requests, All-insert}

abbrev pub is_followed : ℕ × Request → List (ℕ × Request) → Bool
is_followed p [] = false
is_followed p (q ∷ l) = bytes_eq p.1.key q.1.key

-- The same loop over the requests themselves.
unfoldable pub runs : List (ℕ × Request) → List Request × List Request
runs [] = ([], [])
runs (p ∷ l) =
    let (kept, dropped) = runs l in
    if is_followed p l then (kept, p.1 ∷ dropped) else (p.1 ∷ kept, dropped)

is_repeated-is_followed :
    (batch : List Request) (p : ℕ × Request) (l : List (ℕ × Request))
    → IsPlaced batch p
    → All (IsPlaced batch) l
    → is_repeated batch (sort_key p.0 p.1) (map (λ q. sort_key q.0 q.1) l) ≡ is_followed p l
unfolding is_repeated
is_repeated-is_followed batch p [] hp h = refl
is_repeated-is_followed batch p (q ∷ l) hp (hq, h) = same_key-bytes_eq batch p q hp hq

placed_request :
    (batch : List Request) (p : ℕ × Request)
    → IsPlaced batch p
    → get_or batch (sort_key p.0 p.1).idx new_request ≡ p.1
unfolding sort_key
placed_request batch (i, r) h =
    let place : i % 2 ^ 32 ≡ i = omega (arith, h.place_u32) in rw place h.placed

pub split_runs-runs :
    (batch : List Request) (l : List (ℕ × Request))
    → All (IsPlaced batch) l
    → split_runs batch (map (λ q. sort_key q.0 q.1) l) ≡ runs l
unfolding split_runs runs
split_runs-runs batch [] h = refl
split_runs-runs batch (p ∷ l) (hp, h) =
    rw
      (split_runs-runs batch l h, is_repeated-is_followed batch p l hp h, placed_request batch p hp)
      refl

-- By ascending keys.
abbrev pub IsSorted : List (ℕ × Request) → Type 0
IsSorted [] = Unit {0}
IsSorted (p ∷ l) = All (λ q. lex_lt q.1.key p.1.key ≡ false) l × IsSorted l

All-weaken :
    {A : Type 0} (P Q : A → Type 0) (l : List A) → ((a : A) → P a → Q a) → All P l → All Q l
All-weaken P Q [] f h = tt
All-weaken P Q (a ∷ l) f (ha, h) = (f a ha, All-weaken P Q l f h)

before_above : (q p : ℕ × Request) → before q p ≡ true → lex_lt p.1.key q.1.key ≡ false
before_above q p h = elim (Bool-cases (bytes_eq q.1.key p.1.key)) [
  | inl same ↦ rw (eq_of_bytes_eq q.1.key p.1.key same) (lex_lt_irrefl p.1.key)
  | inr differ ↦ lex_lt_asym q.1.key p.1.key (rw differ at h)
]

not_before : (q p : ℕ × Request) → before q p ≡ false → lex_lt q.1.key p.1.key ≡ false
not_before q p h = elim (Bool-cases (bytes_eq q.1.key p.1.key)) [
  | inl same ↦ rw (eq_of_bytes_eq q.1.key p.1.key same) (lex_lt_irrefl p.1.key)
  | inr differ ↦ rw differ at h
]

insert-IsSorted :
    (p : ℕ × Request) (l : List (ℕ × Request)) → IsSorted l → IsSorted (insert_sorted before p l)
unfolding insert_sorted
insert-IsSorted p [] h = (tt, tt)
insert-IsSorted p (q ∷ l) (hq, h) = elim (Bool-cases (before q p)) [
  | inl later ↦
      let above : lex_lt p.1.key q.1.key ≡ false = before_above q p later in
      rw later (
        All-insert (λ t. lex_lt t.1.key q.1.key ≡ false) before p l above hq,
        insert-IsSorted p l h,
      )
  | inr first ↦
      let above : lex_lt q.1.key p.1.key ≡ false = not_before q p first in
      rw first (
        (above, All-weaken _ _ l (λ t ht. lex_lt_under p.1.key q.1.key t.1.key above ht) hq),
        (hq, h),
      )
]

pub sort-IsSorted : (l : List (ℕ × Request)) → IsSorted (sort before l)
unfolding sort
sort-IsSorted [] = tt
sort-IsSorted (p ∷ l) = insert-IsSorted p (sort before l) (sort-IsSorted l)

-- Behind the last of its run, all keys are greater.
last_of_run :
    (p : ℕ × Request) (l : List (ℕ × Request))
    → IsSorted (p ∷ l)
    → is_followed p l ≡ false
    → All (λ q. lex_lt p.1.key q.1.key ≡ true) l
last_of_run p [] h e = tt
last_of_run p (q ∷ l) ((hq, h), (hl, s)) e =
    let less = lex_lt_total q.1.key p.1.key (bytes_eq_sym q.1.key p.1.key ∙ e) hq in
    (less, All-weaken _ _ l (λ t ht. lex_lt_le_trans p.1.key q.1.key t.1.key less ht) hl)

with_key-greater :
    (p : ℕ × Request) (l : List (ℕ × Request))
    → All (λ q. lex_lt p.1.key q.1.key ≡ true) l
    → with_key p.1.key (requests l) ≡ []
unfolding with_key
with_key-greater p [] h = refl
with_key-greater p (q ∷ l) (hq, h) =
    rw (different_keys_back q.1.key p.1.key hq, with_key-greater p l h) refl

append_nothing : {A : Type 0} (l m : List A) → l ++ m ≡ [] → (l ≡ []) × (m ≡ [])
append_nothing [] m h = (refl, h)
append_nothing (a ∷ l) m h = absurd (cc)

-- Of each key the newest is kept, and the older ones are dropped in order.
pub runs-with_key :
    (k : List ℕ) (l : List (ℕ × Request))
    → IsSorted l
    → (with_key k (runs l).1 ++ with_key k (runs l).0 ≡ with_key k (requests l))
      × (length (with_key k (runs l).0) ≤ 1)
unfolding runs with_key
runs-with_key k [] h = (refl, omega arith)
runs-with_key k (p ∷ l) (hp, h) =
    let (parts, few) = runs-with_key k l h in
    elim (Bool-cases (is_followed p l)) [
      | inl more ↦ elim (Bool-cases (bytes_eq p.1.key k)) [
        | inl hit ↦ rw (more, hit) (ap (◌∷◌ p.1) parts, few)
        | inr miss ↦ rw (more, miss) (parts, few)
      ]
      | inr last ↦ elim (Bool-cases (bytes_eq p.1.key k)) [
        | inr miss ↦ rw (last, miss) (parts, few)
        | inl hit ↦
            let greater = with_key-greater p l (last_of_run p l (hp, h) last) in
            let no_more : with_key k (requests l) ≡ [] =
              rw (eq_of_bytes_eq p.1.key k hit) at greater in
            let (d, r) =
              append_nothing (with_key k (runs l).1) (with_key k (runs l).0) (parts ∙ no_more) in
            rw (last, hit, d, r, no_more) (refl, omega arith)
      ]
    ]

All-runs : (P : Request → Type 0) (l : List (ℕ × Request)) → All (λ q. P q.1) l → All P (runs l).0
unfolding runs
All-runs P [] h = tt
All-runs P (p ∷ l) (hp, h) = elim (Bool-cases (is_followed p l)) [
  | inl more ↦ rw more (All-runs P l h)
  | inr last ↦ rw last (hp, All-runs P l h)
]

-- By strictly ascending keys.
abbrev pub IsAscending : List Request → Type 0
IsAscending [] = Unit {0}
IsAscending (r ∷ rs) = All (λ s. lex_lt r.key s.key ≡ true) rs × IsAscending rs

pub runs-IsAscending : (l : List (ℕ × Request)) → IsSorted l → IsAscending (runs l).0
unfolding runs
runs-IsAscending [] h = tt
runs-IsAscending (p ∷ l) (hp, h) = elim (Bool-cases (is_followed p l)) [
  | inl more ↦ rw more (runs-IsAscending l h)
  | inr last ↦
      let greater = last_of_run p l (hp, h) last in
      rw last (All-runs (λ s. lex_lt p.1.key s.key ≡ true) l greater, runs-IsAscending l h)
]

-- A key of the list is among those that are kept.
pub runs-none_kept :
    (k : List ℕ) (l : List (ℕ × Request))
    → with_key k (runs l).0 ≡ []
    → with_key k (requests l) ≡ []
unfolding runs with_key
runs-none_kept k [] h = refl
runs-none_kept k (p ∷ []) h = h
runs-none_kept k (p ∷ (q ∷ l)) h = elim (Bool-cases (bytes_eq p.1.key q.1.key)) [
  | inr last ↦ elim (Bool-cases (bytes_eq p.1.key k)) [
    | inl hit ↦ absurd (let kept = rw (last, hit) at h in cc)
    | inr miss ↦ rw miss (runs-none_kept k (q ∷ l) (rw (last, miss) at h))
  ]
  | inl more ↦
      let none_left = runs-none_kept k (q ∷ l) (rw more at h) in
      elim (Bool-cases (bytes_eq p.1.key k)) [
        | inr miss ↦ rw miss none_left
        | inl hit ↦
            let next : bytes_eq q.1.key k ≡ true =
              rw (sym (eq_of_bytes_eq p.1.key q.1.key more)) hit in
            absurd (let left = rw next at none_left in cc)
      ]
]
