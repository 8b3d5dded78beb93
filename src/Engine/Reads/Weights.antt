-- ===== src/Engine/Reads/Weights.antt =====
-- Batches measured, one by one and all together.
use fluxkv.Base.{
  take-drop, drop_none, ℕ, suc, ◌+◌, ◌≡◌, refl, sym, ◌∙◌, inl, inr, List, [], ◌∷◌, ◌++◌, arith,
  length, take, drop, ltb, length-append, All, Bool-cases, if◌then◌else◌,
}
use fluxkv.Engine.Request.{Request}
use fluxkv.Engine.Reads.{Machine}
use fluxkv.Engine.Persist.Weights.{weigh, weigh-append}

unfoldable pub weigh_all : (Request → ℕ) → List (List Request) → ℕ
weigh_all f [] = 0
weigh_all f (b ∷ bs) = weigh f b + weigh_all f bs

-- A batch among others.
pub weigh_all-split :
    (f : Request → ℕ) (bs before after : List (List Request)) (b : List Request)
    → bs ≡ before ++ (b ∷ after)
    → weigh_all f bs ≡ weigh f b + weigh_all f (before ++ after)
unfolding weigh_all
weigh_all-split f bs [] after b e = rw e refl
weigh_all-split f bs (c ∷ before) after b e =
    rw e (omega (arith, weigh_all-split f (before ++ (b ∷ after)) before after b refl))

pub length-split :
    (bs before after : List (List Request)) (b : List Request)
    → bs ≡ before ++ (b ∷ after)
    → length bs ≡ suc (length (before ++ after))
length-split bs before after b e =
    rw (e, length-append before (b ∷ after), length-append before after) (omega arith)

pub All-split :
    (P : List Request → Type 0) (bs before after : List (List Request)) (b : List Request)
    → bs ≡ before ++ (b ∷ after)
    → All P bs
    → All P (before ++ after)
All-split P bs [] after b e h = (rw e at h).1
All-split P bs (c ∷ before) after b e h =
    let (hc, rest) = rw e at h in (hc, All-split P (before ++ (b ∷ after)) before after b refl rest)

pub weigh-take-drop :
    (f : Request → ℕ) (n : ℕ) (l : List Request)
    → weigh f (take n l) + weigh f (drop n l) ≡ weigh f l
weigh-take-drop f n l = sym (weigh-append f (take n l) (drop n l)) ∙ rw (take-drop n l) refl

pub capped_weight :
    (f : Request → ℕ) (n : ℕ) (b o : List Request)
    → weigh f (take n b) + weigh f (if ltb n (length b) then o ++ drop n b else o)
      ≡ weigh f b + weigh f o
unfolding weigh
capped_weight f n b o = elim (Bool-cases (ltb n (length b))) [
  | inl over ↦ rw over (omega (arith, weigh-append f o (drop n b), weigh-take-drop f n b))
  | inr within ↦
      let none_over : weigh f (drop n b) ≡ 0 = rw (drop_none n b (ground arith)) refl in
      rw within (omega (arith, weigh-take-drop f n b, none_over))
]

-- What is not served yet, measured.
abbrev pub unserved : (Request → ℕ) → Machine → ℕ
unserved f s =
    weigh f s.queue.list
    + weigh f s.queue.overflow
    + weigh_all f s.drained
    + weigh_all f s.swept
    + weigh_all f s.reading
