-- ===== src/Engine/Batch/Lex.antt =====
-- The order of byte strings, and how their digits decide it.
use fluxkv.Base.{
  ℕ, zero, suc, ◌+◌, ◌*◌, ◌^◌, ◌≤◌, ◌<◌, ◌≡◌, refl, ap, inl, inr, true, false, List, [], ◌∷◌, arith,
  length, ◌==◌, All, Bool-cases, ==_refl,
}
use fluxkv.Cache.Entry.{bytes_eq, eq_of_bytes_eq}
use fluxkv.Engine.Batch.{lex_lt}
use fluxkv.Engine.Batch.Prefix.{padded, padded-lt}
use native.Mathlib.Nat.{mul-le-mul_right}

pub lex_lt_irrefl : (a : List ℕ) → lex_lt a a ≡ false
unfolding lex_lt
lex_lt_irrefl [] = refl
lex_lt_irrefl (x ∷ a) = rw (==_refl x) (lex_lt_irrefl a)

pub lex_lt_asym : (a b : List ℕ) → lex_lt a b ≡ true → lex_lt b a ≡ false
unfolding lex_lt
lex_lt_asym a [] h = cc
lex_lt_asym [] (y ∷ b) h = refl
lex_lt_asym (x ∷ a) (y ∷ b) h = ground (arith, lex_lt_asym a b)

pub lex_lt_trans : (a b c : List ℕ) → lex_lt a b ≡ true → lex_lt b c ≡ true → lex_lt a c ≡ true
unfolding lex_lt
lex_lt_trans a b [] h k = cc
lex_lt_trans [] b (z ∷ c) h k = refl
lex_lt_trans (x ∷ a) [] (z ∷ c) h k = cc
lex_lt_trans (x ∷ a) (y ∷ b) (z ∷ c) h k = ground (arith, lex_lt_trans a b c)

-- Of two different keys one comes first.
pub lex_lt_total : (a b : List ℕ) → bytes_eq a b ≡ false → lex_lt a b ≡ false → lex_lt b a ≡ true
unfolding lex_lt bytes_eq
lex_lt_total [] [] e h = cc
lex_lt_total (x ∷ a) [] e h = refl
lex_lt_total [] (y ∷ b) e h = cc
lex_lt_total (x ∷ a) (y ∷ b) e h = ground (arith, lex_lt_total a b)

higher_digit : (x y p u v : ℕ) → x < y → u < p → x * p + u < y * p + v
higher_digit x y p u v h below =
    let more : (x + 1) * p ≤ y * p = mul-le-mul_right p (omega arith) in omega (arith, more)

same_digit : (x y p u v : ℕ) → u < p → v < p → x * p + u ≡ y * p + v → x ≡ y
same_digit x y p u v hu hv e = grind (arith, higher_digit x y p u v, higher_digit y x p v u)

same_rest : (x y p u v : ℕ) → u < p → v < p → x * p + u ≡ y * p + v → u ≡ v
same_rest x y p u v hu hv e =
    let aligned : x * p ≡ y * p = ap (λ d. d * p) (same_digit x y p u v hu hv e) in
    omega (arith, aligned)

pub lex_lt_of_padded :
    (n : ℕ) (a b : List ℕ)
    → All (λ c. c < 256) a
    → All (λ c. c < 256) b
    → padded n a < padded n b
    → lex_lt a b ≡ true
unfolding padded lex_lt
lex_lt_of_padded zero a b ha hb h = absurd (omega arith)
lex_lt_of_padded (suc n) a [] ha hb h = absurd (omega arith)
lex_lt_of_padded (suc n) [] (y ∷ b) ha hb h = refl
lex_lt_of_padded (suc n) (x ∷ a) (y ∷ b) (hx, ha) (hy, hb) h = grind (
  arith,
  higher_digit y x (256 ^ n) (padded n b) (padded n a),
  padded-lt n b hb,
  lex_lt_of_padded n a b ha hb,
)

pub eq_of_padded :
    (n : ℕ) (a b : List ℕ)
    → All (λ c. c < 256) a
    → All (λ c. c < 256) b
    → length a ≡ length b
    → length a ≤ n
    → padded n a ≡ padded n b
    → a ≡ b
unfolding padded
eq_of_padded n [] [] ha hb same long h = refl
eq_of_padded n [] (y ∷ b) ha hb same long h = absurd (omega arith)
eq_of_padded n (x ∷ a) [] ha hb same long h = absurd (omega arith)
eq_of_padded zero (x ∷ a) (y ∷ b) ha hb same long h = absurd (omega arith)
eq_of_padded (suc n) (x ∷ a) (y ∷ b) (hx, ha) (hy, hb) same long h =
    let head = same_digit x y (256 ^ n) _ _ (padded-lt n a ha) (padded-lt n b hb) h in
    let tail : padded n a ≡ padded n b =
      same_rest x y (256 ^ n) _ _ (padded-lt n a ha) (padded-lt n b hb) h in
    rw (head, eq_of_padded n a b ha hb (omega arith) (omega arith) tail) refl

pub lex_lt_of_shorter :
    (n : ℕ) (a b : List ℕ)
    → All (λ c. c < 256) a
    → All (λ c. c < 256) b
    → length a < length b
    → length b ≤ n
    → padded n a ≡ padded n b
    → lex_lt a b ≡ true
unfolding padded lex_lt
lex_lt_of_shorter n a [] ha hb short long h = absurd (omega arith)
lex_lt_of_shorter n [] (y ∷ b) ha hb short long h = refl
lex_lt_of_shorter zero (x ∷ a) (y ∷ b) ha hb short long h = absurd (omega arith)
lex_lt_of_shorter (suc n) (x ∷ a) (y ∷ b) (hx, ha) (hy, hb) short long h =
    let head = same_digit x y (256 ^ n) _ _ (padded-lt n a ha) (padded-lt n b hb) h in
    let tail : padded n a ≡ padded n b =
      same_rest x y (256 ^ n) _ _ (padded-lt n a ha) (padded-lt n b hb) h in
    let same : (x == y) ≡ true = ground arith in
    rw same (lex_lt_of_shorter n a b ha hb (omega arith) (omega arith) tail)

pub different_keys : (a b : List ℕ) → lex_lt a b ≡ true → bytes_eq a b ≡ false
different_keys a b h = elim (Bool-cases (bytes_eq a b)) [
  | inr differ ↦ differ
  | inl same ↦ absurd (ground (arith, ap (lex_lt a) (eq_of_bytes_eq a b same), lex_lt_irrefl a))
]

pub different_keys_back : (a b : List ℕ) → lex_lt b a ≡ true → bytes_eq a b ≡ false
different_keys_back a b h = elim (Bool-cases (bytes_eq a b)) [
  | inr differ ↦ differ
  | inl same ↦ absurd (ground (arith, ap (lex_lt b) (eq_of_bytes_eq a b same), lex_lt_irrefl b))
]

-- Not below, and again not below.
pub lex_lt_under : (a b c : List ℕ) → lex_lt b a ≡ false → lex_lt c b ≡ false → lex_lt c a ≡ false
unfolding lex_lt
lex_lt_under [] b c h k = refl
lex_lt_under (x ∷ a) [] c h k = cc
lex_lt_under (x ∷ a) (y ∷ b) [] h k = cc
lex_lt_under (x ∷ a) (y ∷ b) (z ∷ c) h k = ground (arith, lex_lt_under a b c)

pub lex_lt_le_trans : (a b c : List ℕ) → lex_lt a b ≡ true → lex_lt c b ≡ false → lex_lt a c ≡ true
unfolding lex_lt
lex_lt_le_trans a [] c h k = cc
lex_lt_le_trans [] (y ∷ b) [] h k = cc
lex_lt_le_trans [] (y ∷ b) (z ∷ c) h k = refl
lex_lt_le_trans (x ∷ a) (y ∷ b) [] h k = cc
lex_lt_le_trans (x ∷ a) (y ∷ b) (z ∷ c) h k = ground (arith, lex_lt_le_trans a b c)

pub bytes_eq_sym : (a b : List ℕ) → bytes_eq a b ≡ bytes_eq b a
unfolding bytes_eq
bytes_eq_sym [] [] = refl
bytes_eq_sym [] (y ∷ b) = refl
bytes_eq_sym (x ∷ a) [] = refl
bytes_eq_sym (x ∷ a) (y ∷ b) = ground (arith, bytes_eq_sym a b)
