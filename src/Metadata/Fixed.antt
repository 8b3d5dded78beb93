-- ===== src/Metadata/Fixed.antt =====
-- `getFixed` of server/metadata.h, and the bytes of a number in memory. The machine is
-- little-endian, as the on-disk form of the code supposes.
use fluxkv.Base.{
  ℕ, zero, suc, ◌+◌, ◌*◌, ◌/◌, ◌%◌, ◌^◌, ◌<◌, ◌≡◌, refl, ap, List, [], ◌∷◌, ◌++◌, Option, none,
  some, arith, length, All,
}
use native.Mathlib.Nat.{pow-suc}

-- The `n` bytes that `memcpy` takes from an `n`-byte integer.
unfoldable pub put_fixed : ℕ → ℕ → List ℕ
put_fixed zero v = []
put_fixed (suc n) v = (v % 256) ∷ put_fixed n (v / 256)

-- `getFixed<T>` where `sizeof(T)` is `n`: `none` if fewer bytes are left.
unfoldable pub get_fixed : ℕ → List ℕ → Option (ℕ × List ℕ)
get_fixed zero p = some (0, p)
get_fixed (suc n) [] = none
get_fixed (suc n) (b ∷ p) = elim (get_fixed n p) [
  | none ↦ none
  | some (v, q) ↦ some (b + 256 * v, q)
]

pub get_fixed-put_fixed :
    (n v : ℕ) (p : List ℕ) → v < 256 ^ n → get_fixed n (put_fixed n v ++ p) ≡ some (v, p)
unfolding get_fixed put_fixed
get_fixed-put_fixed zero v p h = ground arith
get_fixed-put_fixed (suc n) v p h =
    rw (get_fixed-put_fixed n (v / 256) p (omega (arith, pow-suc 256 n))) (ground arith)

pub length-put_fixed : (n v : ℕ) → length (put_fixed n v) ≡ n
unfolding put_fixed
length-put_fixed zero v = refl
length-put_fixed (suc n) v = ap suc (length-put_fixed n (v / 256))

pub put_fixed-IsByte : (n v : ℕ) → All (λ b. b < 256) (put_fixed n v)
unfolding put_fixed
put_fixed-IsByte zero v = tt
put_fixed-IsByte (suc n) v = (omega arith, put_fixed-IsByte n (v / 256))
