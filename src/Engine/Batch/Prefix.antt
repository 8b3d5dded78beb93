-- ===== src/Engine/Batch/Prefix.antt =====
-- `keyPrefix` of server/engine.cc is the number with the first 8 bytes of the key as digits.
use fluxkv.Base.{
  ℕ, zero, suc, ◌+◌, ◌-◌, ◌*◌, ◌^◌, ◌≤◌, ◌<◌, ◌≡◌, refl, ap, sym, ◌∙◌, inl, inr, List, [], ◌∷◌,
  ◌++◌, arith, bit_or, length, take, leb, All, Bool-cases, leb→le, length-take,
}
use fluxkv.Base.Bits.{bit_or_below}
use fluxkv.Engine.Batch.{key_prefix, prefix_loop}
use fluxkv.Protocol.{number_of, swap}
use fluxkv.Protocol.Swap.{put_fixed-number_of, length-reverse}
use mathlib.Core.List.{reverse, reverse-append}
use native.Mathlib.Nat.{pow-suc, add-mul, mul_assoc, mul-le-mul_right}

-- The first `n` bytes as digits, with zeros behind a shorter key.
unfoldable pub padded : ℕ → List ℕ → ℕ
padded zero k = 0
padded (suc n) [] = 0
padded (suc n) (b ∷ bs) = b * 256 ^ n + padded n bs

pub padded-lt : (n : ℕ) (k : List ℕ) → All (λ b. b < 256) k → padded n k < 256 ^ n
unfolding padded
padded-lt zero k h = omega arith
padded-lt (suc n) [] h = omega (arith, pow-suc 256 n, padded-lt n [] tt)
padded-lt (suc n) (b ∷ bs) (hb, hs) =
    let below : (b + 1) * 256 ^ n ≤ 256 * 256 ^ n = mul-le-mul_right (256 ^ n) (omega arith) in
    omega (arith, pow-suc 256 n, padded-lt n bs hs, below)

number_of-snoc :
    (bs : List ℕ) (b : ℕ) → number_of (bs ++ (b ∷ [])) ≡ number_of bs + 256 ^ length bs * b
unfolding number_of
number_of-snoc [] b = omega arith
number_of-snoc (x ∷ bs) b = rw (number_of-snoc bs b, pow-suc 256 (length bs)) (omega arith)

number_of-reverse : (bs : List ℕ) → number_of (reverse bs) ≡ padded (length bs) bs
unfolding padded number_of
number_of-reverse [] = refl
number_of-reverse (b ∷ bs) =
    rw
      (
        reverse-append (b ∷ []) bs,
        number_of-snoc (reverse bs) b,
        length-reverse bs,
        number_of-reverse bs,
      )
      (omega arith)

pub All-take : (n : ℕ) (k : List ℕ) → All (λ b. b < 256) k → All (λ b. b < 256) (take n k)
All-take zero k h = tt
All-take (suc n) [] h = tt
All-take (suc n) (b ∷ bs) (hb, hs) = (hb, All-take n bs hs)

padded-take : (n : ℕ) (k : List ℕ) → padded n (take n k) ≡ padded n k
unfolding padded
padded-take zero k = refl
padded-take (suc n) [] = refl
padded-take (suc n) (b ∷ bs) = ap (λ p. b * 256 ^ n + p) (padded-take n bs)

eight_doublings : (k : ℕ) → 2 ^ suc (suc (suc (suc (suc (suc (suc (suc k))))))) ≡ 256 * 2 ^ k
eight_doublings k = omega (
  arith,
  pow-suc 2 k,
  pow-suc 2 (suc k),
  pow-suc 2 (suc (suc k)),
  pow-suc 2 (suc (suc (suc k))),
  pow-suc 2 (suc (suc (suc (suc k)))),
  pow-suc 2 (suc (suc (suc (suc (suc k))))),
  pow-suc 2 (suc (suc (suc (suc (suc (suc k)))))),
  pow-suc 2 (suc (suc (suc (suc (suc (suc (suc k))))))),
)

pow-bits : (m : ℕ) → 2 ^ (8 * m) ≡ 256 ^ m
pow-bits zero = refl
pow-bits (suc m) =
    let k = 8 * m in
    let more : 8 * suc m ≡ suc (suc (suc (suc (suc (suc (suc (suc k))))))) = omega arith in
    rw (more, pow-suc 256 m) (omega (arith, pow-bits m, eight_doublings k))

padded-nil : (n : ℕ) → padded n [] ≡ 0
unfolding padded
padded-nil zero = refl
padded-nil (suc n) = refl

digit_below : (m b : ℕ) → b < 256 → b * 256 ^ m < 2 ^ (8 * suc m)
digit_below m b h =
    let below : (b + 1) * 256 ^ m ≤ 256 * 256 ^ m = mul-le-mul_right (256 ^ m) (omega arith) in
    rw (pow-bits (suc m), pow-suc 256 m) (omega (arith, below, padded-lt m [] tt))

-- The bytes from `j` on fill the digits that are left.
prefix_loop-padded :
    (n j x : ℕ) (k : List ℕ)
    → All (λ b. b < 256) k
    → j + n ≡ 8
    → length k ≤ n
    → prefix_loop j k (x * 256 ^ n) ≡ x * 256 ^ n + padded n k
unfolding prefix_loop padded
prefix_loop-padded n j x [] h e long = rw (padded-nil n) (omega arith)
prefix_loop-padded zero j x (b ∷ bs) h e long = absurd (omega arith)
prefix_loop-padded (suc m) j x (b ∷ bs) (hb, hs) e long =
    let place : 56 - 8 * j ≡ 8 * m = omega arith in
    let split : (x * 256 + b) * 256 ^ m ≡ x * 256 ^ suc m + b * 256 ^ m =
      rw (pow-suc 256 m, add-mul (x * 256) b (256 ^ m), mul_assoc x 256 (256 ^ m)) (omega arith) in
    let joined : bit_or (x * 256 ^ suc m) (b * 2 ^ (56 - 8 * j)) ≡ (x * 256 + b) * 256 ^ m =
      rw (place, pow-bits m, split, sym (pow-bits (suc m)))
        (bit_or_below (8 * suc m) (b * 256 ^ m) x (digit_below m b hb)) in
    let rest = prefix_loop-padded m (suc j) (x * 256 + b) bs hs (omega arith) (omega arith) in
    rw joined (rest ∙ omega (arith, split))

pub key_prefix-padded : (k : List ℕ) → All (λ b. b < 256) k → key_prefix k ≡ padded 8 k
unfolding key_prefix swap
key_prefix-padded k h = elim (Bool-cases (leb 8 (length k))) [
  | inr short ↦ rw short (prefix_loop-padded 8 0 0 k h refl (ground arith) ∙ omega arith)
  | inl long ↦
      let eight : length (take 8 k) ≡ 8 =
        rw (length-take 8 k) (omega (arith, leb→le 8 (length k) long)) in
      let bytes = All-take 8 k h in
      let memory = rw eight at (put_fixed-number_of (take 8 k) bytes) in
      let digits = rw eight at (number_of-reverse (take 8 k)) in
      rw (long, memory, digits) (padded-take 8 k)
]
