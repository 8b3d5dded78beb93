-- ===== src/Protocol/Swap.antt =====
-- Reversing the bytes of a number twice gives it back.
use fluxkv.Base.{
  ℕ, zero, suc, ◌+◌, ◌*◌, ◌/◌, ◌%◌, ◌^◌, ◌<◌, ◌≡◌, refl, ap, ◌∙◌, List, [], ◌∷◌, arith, length, All,
  All-append, length-append,
}
use fluxkv.Metadata.Fixed.{put_fixed, length-put_fixed, put_fixed-IsByte}
use fluxkv.Protocol.{number_of, swap}
use mathlib.Core.List.{reverse, reverse-append, reverse-reverse}
use native.Mathlib.Nat.{pow-suc}

pub number_of-put_fixed : (n v : ℕ) → v < 256 ^ n → number_of (put_fixed n v) ≡ v
unfolding number_of put_fixed
number_of-put_fixed zero v h = omega arith
number_of-put_fixed (suc n) v h =
    rw (number_of-put_fixed n (v / 256) (omega (arith, pow-suc 256 n))) (omega arith)

pub put_fixed-number_of :
    (bs : List ℕ) → All (λ b. b < 256) bs → put_fixed (length bs) (number_of bs) ≡ bs
unfolding number_of put_fixed
put_fixed-number_of [] h = refl
put_fixed-number_of (b ∷ bs) h =
    let low : (b + 256 * number_of bs) % 256 ≡ b = omega (arith, h.0) in
    let high : (b + 256 * number_of bs) / 256 ≡ number_of bs = omega (arith, h.0) in
    rw (low, high, put_fixed-number_of bs h.1) refl

pub number_of-lt : (bs : List ℕ) → All (λ b. b < 256) bs → number_of bs < 256 ^ length bs
unfolding number_of
number_of-lt [] h = omega arith
number_of-lt (b ∷ bs) h = omega (arith, number_of-lt bs h.1, h.0, pow-suc 256 (length bs))

pub length-reverse : (bs : List ℕ) → length (reverse bs) ≡ length bs
length-reverse [] = refl
length-reverse (b ∷ bs) =
    ap length (reverse-append (b ∷ []) bs)
    ∙ (length-append (reverse bs) (b ∷ []) ∙ omega (arith, length-reverse bs))

pub reverse-IsByte : (bs : List ℕ) → All (λ b. b < 256) bs → All (λ b. b < 256) (reverse bs)
reverse-IsByte [] h = tt
reverse-IsByte (b ∷ bs) h =
    rw (reverse-append (b ∷ []) bs)
      (All-append (λ c. c < 256) (reverse bs) (b ∷ []) (reverse-IsByte bs h.1) (h.0, tt))

pub put_fixed-swap : (n v : ℕ) → put_fixed n (swap n v) ≡ reverse (put_fixed n v)
unfolding swap
put_fixed-swap n v =
    let bs = reverse (put_fixed n v) in
    let long : length bs ≡ n = length-reverse (put_fixed n v) ∙ length-put_fixed n v in
    let same = put_fixed-number_of bs (reverse-IsByte (put_fixed n v) (put_fixed-IsByte n v)) in
    rw long at same

pub swap_lt : (n v : ℕ) → swap n v < 256 ^ n
unfolding swap
swap_lt n v =
    let bs = reverse (put_fixed n v) in
    let long : length bs ≡ n = length-reverse (put_fixed n v) ∙ length-put_fixed n v in
    rw long at (number_of-lt bs (reverse-IsByte (put_fixed n v) (put_fixed-IsByte n v)))

pub swap-swap : (n v : ℕ) → v < 256 ^ n → swap n (swap n v) ≡ v
unfolding swap
swap-swap n v h =
    ap (λ bs. number_of (reverse bs)) (put_fixed-swap n v)
    ∙ (ap number_of (reverse-reverse (put_fixed n v)) ∙ number_of-put_fixed n v h)
