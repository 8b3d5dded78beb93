-- ===== src/Engine/Batch/Sorting.antt =====
-- What the insertion sort does to a list: it commutes with a map that keeps the test, and leaves the
-- requests of each key in the order of their arrival.
use fluxkv.Base.{
  ℕ, suc, ◌<◌, ◌≡◌, refl, ap, ◌∙◌, inl, inr, Bool, false, List, [], ◌∷◌, arith, map, All,
  Bool-cases, if◌then◌else◌,
}
use fluxkv.Cache.Entry.{bytes_eq, eq_of_bytes_eq}
use fluxkv.Engine.Request.{Request}
use fluxkv.Engine.Batch.{insert_sorted, sort, sort_key, sort_keys}
use fluxkv.Engine.Batch.KeyOrder.{before}

module _ {A : Type 0} (P : A → Type 0) (less : A → A → Bool) where
  pub All-insert : (x : A) (l : List A) → P x → All P l → All P (insert_sorted less x l)
  unfolding insert_sorted
  All-insert x [] hx h = (hx, tt)
  All-insert x (y ∷ l) hx (hy, h) = elim (Bool-cases (less y x)) [
    | inl later ↦ rw later (hy, All-insert x l hx h)
    | inr first ↦ rw first (hx, (hy, h))
  ]

  pub All-sort : (l : List A) → All P l → All P (sort less l)
  unfolding sort
  All-sort [] h = tt
  All-sort (x ∷ l) (hx, h) = All-insert x (sort less l) hx (All-sort l h)

module _ {A B : Type 0} (P : A → Type 0) (less : A → A → Bool) (less' : B → B → Bool) (f : A → B)
    (same : (x y : A) → P x → P y → less' (f x) (f y) ≡ less x y) where
  insert_sorted-map :
      (x : A) (l : List A)
      → P x
      → All P l
      → insert_sorted less' (f x) (map f l) ≡ map f (insert_sorted less x l)
  unfolding insert_sorted
  insert_sorted-map x [] hx h = refl
  insert_sorted-map x (y ∷ l) hx (hy, h) = elim (Bool-cases (less y x)) [
    | inl later ↦ rw (same y x hy hx, later, insert_sorted-map x l hx h) refl
    | inr first ↦ rw (same y x hy hx, first) refl
  ]

  pub sort-map : (l : List A) → All P l → sort less' (map f l) ≡ map f (sort less l)
  unfolding sort
  sort-map [] h = refl
  sort-map (x ∷ l) (hx, h) =
      rw (sort-map l h) (insert_sorted-map x (sort less l) hx (All-sort P less l h))

unfoldable pub numbered : ℕ → List Request → List (ℕ × Request)
numbered i [] = []
numbered i (r ∷ rs) = (i, r) ∷ numbered (suc i) rs

pub sort_keys-numbered :
    (i : ℕ) (rs : List Request) → sort_keys i rs ≡ map (λ p. sort_key p.0 p.1) (numbered i rs)
unfolding sort_keys numbered
sort_keys-numbered i [] = refl
sort_keys-numbered i (r ∷ rs) = rw (sort_keys-numbered (suc i) rs) refl

-- The requests of one key, in order.
unfoldable pub with_key : List ℕ → List Request → List Request
with_key k [] = []
with_key k (r ∷ rs) = if bytes_eq r.key k then r ∷ with_key k rs else with_key k rs

abbrev pub requests : List (ℕ × Request) → List Request
requests [] = []
requests (p ∷ l) = p.1 ∷ requests l

pub requests-numbered : (i : ℕ) (rs : List Request) → requests (numbered i rs) ≡ rs
unfolding numbered
requests-numbered i [] = refl
requests-numbered i (r ∷ rs) = ap (◌∷◌ r) (requests-numbered (suc i) rs)

-- Requests that change places have different keys.
with_key-swap :
    (k : List ℕ) (r s : Request) (rs : List Request)
    → bytes_eq s.key r.key ≡ false
    → with_key k (s ∷ (r ∷ rs)) ≡ with_key k (r ∷ (s ∷ rs))
unfolding with_key
with_key-swap k r s rs differ = elim (Bool-cases (bytes_eq r.key k)) [
  | inr other ↦ rw other refl
  | inl hit ↦
      let missed : bytes_eq s.key k ≡ false = rw (eq_of_bytes_eq r.key k hit) at differ in
      rw (hit, missed) refl
]

with_key-cons :
    (k : List ℕ) (r : Request) (rs ss : List Request)
    → with_key k rs ≡ with_key k ss
    → with_key k (r ∷ rs) ≡ with_key k (r ∷ ss)
unfolding with_key
with_key-cons k r rs ss e = rw e refl

with_key-insert_sorted :
    (k : List ℕ) (p : ℕ × Request) (l : List (ℕ × Request))
    → All (λ q. p.0 < q.0) l
    → with_key k (requests (insert_sorted before p l)) ≡ with_key k (p.1 ∷ requests l)
unfolding insert_sorted
with_key-insert_sorted k p [] h = refl
with_key-insert_sorted k p (q ∷ l) (hq, h) = elim (Bool-cases (before q p)) [
  | inr first ↦ rw first refl
  | inl later ↦
      let differ : bytes_eq q.1.key p.1.key ≡ false = ground arith in
      rw later (
        with_key-cons k q.1 _ _ (with_key-insert_sorted k p l h)
        ∙ with_key-swap k p.1 q.1 (requests l) differ)
]

All-numbered : (i j : ℕ) (rs : List Request) → i < j → All (λ q. i < q.0) (numbered j rs)
unfolding numbered
All-numbered i j [] h = tt
All-numbered i j (r ∷ rs) h = (h, All-numbered i (suc j) rs (omega arith))

pub with_key-sort :
    (k : List ℕ) (i : ℕ) (rs : List Request)
    → with_key k (requests (sort before (numbered i rs))) ≡ with_key k rs
unfolding sort numbered
with_key-sort k i [] = refl
with_key-sort k i (r ∷ rs) =
    let later = All-numbered i (suc i) rs (omega arith) in
    with_key-insert_sorted k (i, r) (sort before (numbered (suc i) rs))
      (All-sort (λ q. i < q.0) before (numbered (suc i) rs) later)
    ∙ with_key-cons k r _ _ (with_key-sort k (suc i) rs)
