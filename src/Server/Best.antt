-- ===== src/Server/Best.antt =====
-- `std::min_element` and `std::max_element` find an element that no other is better than.
use fluxkv.Base.{
  ℕ, suc, ◌+◌, ◌<◌, ◌≡◌, refl, sym, subst, inl, inr, Bool, true, false, List, [], ◌∷◌, arith,
  length, get_or, ltb, All, Bool-cases, if◌then◌else◌,
}
use fluxkv.Server.Pool.{best_loop, best_element, less, greater}

module _ (better : ℕ → ℕ → Bool)
    (chain : (x b m : ℕ) → better x b ≡ true → better x m ≡ false → better b m ≡ false)
    (stays : (x b m : ℕ) → better x b ≡ false → better b m ≡ false → better x m ≡ false)
    (irreflexive : (x : ℕ) → better x x ≡ false) where
  -- A place of the list `l` and the element there, that neither `best` nor any of `xs` is better than.
  abbrev IsBest : List ℕ → List ℕ → ℕ → ℕ × ℕ → Type 0
  IsBest l xs best r =
      (r.0 < length l)
      × (get_or l r.0 0 ≡ r.1)
      × (better best r.1 ≡ false)
      × All (λ x. better x r.1 ≡ false) xs

  -- `xs` is what is left of `l` from the place `i` on.
  best_loop-IsBest :
      (l xs : List ℕ) (i place best : ℕ)
      → ((k : ℕ) → get_or l (i + k) 0 ≡ get_or xs k 0)
      → i + length xs ≡ length l
      → place < length l
      → get_or l place 0 ≡ best
      → IsBest l xs best (best_loop better i xs place best)
  unfolding best_loop
  best_loop-IsBest l [] i place best at size inside found = (inside, found, irreflexive best, tt)
  best_loop-IsBest l (x ∷ xs) i place best at size inside found =
      let here : get_or l i 0 ≡ x = (let same : i + 0 ≡ i = omega arith in rw same at (at 0)) in
      let next : (k : ℕ) → get_or l (suc i + k) 0 ≡ get_or xs k 0 =
        λ k. (let same : suc i + k ≡ i + suc k = omega arith in rw same (at (suc k))) in
      let motive : Bool → Type 0 = λ t.
        IsBest l (x ∷ xs) best
          (best_loop better (suc i) xs (if t then i else place) (if t then x else best)) in
      elim (Bool-cases (better x best)) [
        | inl wins ↦
            let (a, b, c, d) =
              best_loop-IsBest l xs (suc i) i x next (omega arith) (omega arith) here in
            subst motive (sym wins) (a, b, chain x best _ wins c, (c, d))
        | inr loses ↦
            let (a, b, c, d) =
              best_loop-IsBest l xs (suc i) place best next (omega arith) inside found in
            subst motive (sym loses) (a, b, c, (stays x best _ loses c, d))
      ]

  -- The best element of a list that is not empty.
  pub best_element-found :
      (l : List ℕ)
      → 0 < length l
      → (let r : ℕ × ℕ = best_element better l in
          (r.0 < length l) × (get_or l r.0 0 ≡ r.1) × All (λ y. better y r.1 ≡ false) l)
  unfolding best_element
  best_element-found [] h = absurd (omega arith)
  best_element-found (x ∷ xs) h =
      let (a, b, c, d) =
        best_loop-IsBest (x ∷ xs) xs 1 0 x
          (λ k. let same : 1 + k ≡ suc k = omega arith in rw same refl) (omega arith) (omega arith)
          refl in
      (a, b, (c, d))

pub min_chain : (x b m : ℕ) → less x b ≡ true → less x m ≡ false → less b m ≡ false
min_chain x b m h k = ground arith

pub min_stays : (x b m : ℕ) → less x b ≡ false → less b m ≡ false → less x m ≡ false
min_stays x b m h k = ground arith

pub max_chain : (x b m : ℕ) → greater x b ≡ true → greater x m ≡ false → greater b m ≡ false
max_chain x b m h k = ground arith

pub max_stays : (x b m : ℕ) → greater x b ≡ false → greater b m ≡ false → greater x m ≡ false
max_stays x b m h k = ground arith

pub irreflexive : (x : ℕ) → ltb x x ≡ false
irreflexive x = ground arith
