-- ===== src/Base/Bits.antt =====
-- Masks and shifts at variables, from the digit recursions that the native operations stand for.
use Prim.Native.Nat.{
  ℕ, zero, suc, ◌+◌, ◌-◌, ◌*◌, ◌/◌, ◌%◌, ◌^◌, ◌≤◌, ◌<◌, min, max, bit_and, bit_or, digits,
  bit_and-bitwise, bit_or-bitwise,
}
use mathlib.Core.Path.{◌≡◌, refl, ◌∙◌}
use native.Mathlib.Omega.{arith}
use native.Mathlib.Nat.{pow-suc}

-- The native operations run one round for each unit of the first number. More rounds than it has
-- digits change nothing.
module _ (leaf : ℕ → ℕ) (join : ℕ → ℕ → ℕ) where
  one_more : (x y k : ℕ) → x ≤ k → digits leaf join (suc k) x y ≡ digits leaf join k x y
  one_more zero y zero h = refl
  one_more zero y (suc k) h = refl
  one_more (suc x) y zero h = elim h [ ]
  one_more (suc x) y (suc k) h = omega (arith, one_more (suc x / 2) (y / 2) k (omega arith))

  many_more :
      (extra x y k n : ℕ) → x ≤ k → n ≡ extra + k → digits leaf join n x y ≡ digits leaf join k x y
  many_more zero x y k n h e = let same : n ≡ k = omega arith in rw same
  many_more (suc extra) x y k n h e =
      let last : n ≡ suc (extra + k) = omega arith in
      rw last (one_more x y (extra + k) (omega arith) ∙ many_more extra x y k _ h refl)

-- One round of each operation.
pub bit_and_step : (a b : ℕ) → bit_and a b ≡ bit_and (a / 2) (b / 2) * 2 + min (a % 2) (b % 2)
bit_and_step zero b = omega (arith, bit_and-bitwise 0 b, bit_and-bitwise 0 (b / 2))
bit_and_step (suc a) b =
    let half = suc a / 2 in
    let rounds = many_more (λ b. zero) min (a - half) half (b / 2) half a in
    bit_and-bitwise (suc a) b
    ∙ omega (arith, rounds (omega arith) (omega arith), bit_and-bitwise half (b / 2))

pub bit_or_step : (a b : ℕ) → bit_or a b ≡ bit_or (a / 2) (b / 2) * 2 + max (a % 2) (b % 2)
bit_or_step zero b = omega (arith, bit_or-bitwise 0 b, bit_or-bitwise 0 (b / 2))
bit_or_step (suc a) b =
    let half = suc a / 2 in
    let rounds = many_more (λ b. b) max (a - half) half (b / 2) half a in
    bit_or-bitwise (suc a) b
    ∙ omega (arith, rounds (omega arith) (omega arith), bit_or-bitwise half (b / 2))

pub zero-bit_or : (b : ℕ) → bit_or 0 b ≡ b
zero-bit_or b = bit_or-bitwise 0 b

-- By strong induction on the first number, bounded by `k`.
below-bit_or-zero : (k a : ℕ) → a < k → bit_or a 0 ≡ a
below-bit_or-zero zero a h = elim h [ ]
below-bit_or-zero (suc k) zero h = refl
below-bit_or-zero (suc k) (suc a) h =
    omega (arith, bit_or_step (suc a) 0, below-bit_or-zero k (suc a / 2) (omega arith))

pub bit_or-zero : (a : ℕ) → bit_or a 0 ≡ a
bit_or-zero a = below-bit_or-zero (suc a) a (omega arith)

below-bit_and-zero : (k a : ℕ) → a < k → bit_and a 0 ≡ 0
below-bit_and-zero zero a h = elim h [ ]
below-bit_and-zero (suc k) zero h = refl
below-bit_and-zero (suc k) (suc a) h =
    omega (arith, bit_and_step (suc a) 0, below-bit_and-zero k (suc a / 2) (omega arith))

pub bit_and-zero : (a : ℕ) → bit_and a 0 ≡ 0
bit_and-zero a = below-bit_and-zero (suc a) a (omega arith)

-- Twice a number, split into its digits.
or_double : (r y : ℕ) → bit_or r (2 * y) ≡ bit_or (r / 2) y * 2 + r % 2
or_double r y =
    let half : 2 * y / 2 ≡ y = omega arith in rw (bit_or_step r (2 * y), half) (omega arith)

-- Joining bits that start above `r` is addition.
pub bit_or_above : (k r x : ℕ) → r < 2 ^ k → bit_or r (x * 2 ^ k) ≡ r + x * 2 ^ k
bit_or_above zero zero x h = omega (arith, zero-bit_or (x * 2 ^ zero))
bit_or_above zero (suc r) x h = absurd (omega arith)
bit_or_above (suc k) r x h =
    let e : x * 2 ^ suc k ≡ 2 * (x * 2 ^ k) = rw (pow-suc 2 k) (omega arith) in
    rw (e, or_double r (x * 2 ^ k))
      (omega (arith, bit_or_above k (r / 2) x (omega (arith, pow-suc 2 k))))

and_odd : (a y : ℕ) → bit_and a (2 * y + 1) ≡ bit_and (a / 2) y * 2 + a % 2
and_odd a y =
    let half : (2 * y + 1) / 2 ≡ y = omega arith in
    rw (bit_and_step a (2 * y + 1), half) (omega arith)

pub low_seven_bits : (a : ℕ) → bit_and a 0x7f ≡ a % 128
low_seven_bits a = omega (
  arith,
  and_odd a 0x3f,
  and_odd (a / 2) 0x1f,
  and_odd (a / 2 / 2) 0xf,
  and_odd (a / 2 / 2 / 2) 7,
  and_odd (a / 2 / 2 / 2 / 2) 3,
  and_odd (a / 2 / 2 / 2 / 2 / 2) 1,
  and_odd (a / 2 / 2 / 2 / 2 / 2 / 2) 0,
  bit_and-zero (a / 2 / 2 / 2 / 2 / 2 / 2 / 2),
)

and_double : (a y : ℕ) → bit_and a (2 * y) ≡ bit_and (a / 2) y * 2
and_double a y =
    let half : 2 * y / 2 ≡ y = omega arith in rw (bit_and_step a (2 * y), half) (omega arith)

pub bit_seven : (a : ℕ) → bit_and a 0x80 ≡ a / 128 % 2 * 128
bit_seven a = omega (
  arith,
  and_double a 0x40,
  and_double (a / 2) 0x20,
  and_double (a / 2 / 2) 0x10,
  and_double (a / 2 / 2 / 2) 8,
  and_double (a / 2 / 2 / 2 / 2) 4,
  and_double (a / 2 / 2 / 2 / 2 / 2) 2,
  and_double (a / 2 / 2 / 2 / 2 / 2 / 2) 1,
  bit_and_step (a / 2 / 2 / 2 / 2 / 2 / 2 / 2) 1,
  bit_and-zero (a / 2 / 2 / 2 / 2 / 2 / 2 / 2 / 2),
)

pub set_bit_seven : (a : ℕ) → bit_or a 0x80 % 256 ≡ a % 128 + 128
set_bit_seven a = omega (
  arith,
  or_double a 0x40,
  or_double (a / 2) 0x20,
  or_double (a / 2 / 2) 0x10,
  or_double (a / 2 / 2 / 2) 8,
  or_double (a / 2 / 2 / 2 / 2) 4,
  or_double (a / 2 / 2 / 2 / 2 / 2) 2,
  or_double (a / 2 / 2 / 2 / 2 / 2 / 2) 1,
  bit_or_step (a / 2 / 2 / 2 / 2 / 2 / 2 / 2) 1,
  bit_or-zero (a / 2 / 2 / 2 / 2 / 2 / 2 / 2 / 2),
)

-- Numbers of `k` bits join to a number of `k` bits.
pub bit_or-lt : (k a b : ℕ) → a < 2 ^ k → b < 2 ^ k → bit_or a b < 2 ^ k
bit_or-lt zero zero b ha hb = rw zero-bit_or hb
bit_or-lt zero (suc a) b ha hb = absurd (omega arith)
bit_or-lt (suc k) a b ha hb = omega (
  arith,
  bit_or_step a b,
  pow-suc 2 k,
  bit_or-lt k (a / 2) (b / 2) (omega (arith, pow-suc 2 k)) (omega (arith, pow-suc 2 k)),
)

below-bit_or_comm : (k a b : ℕ) → a < k → bit_or a b ≡ bit_or b a
below-bit_or_comm zero a b h = elim h [ ]
below-bit_or_comm (suc k) zero b h = omega (arith, zero-bit_or b, bit_or-zero b)
below-bit_or_comm (suc k) (suc a) b h = omega (
  arith,
  bit_or_step (suc a) b,
  bit_or_step b (suc a),
  below-bit_or_comm k (suc a / 2) (b / 2) (omega arith),
)

pub bit_or_comm : (a b : ℕ) → bit_or a b ≡ bit_or b a
bit_or_comm a b = below-bit_or_comm (suc a) a b (omega arith)

-- Joining bits that end below those of `x` is addition too.
pub bit_or_below : (k r x : ℕ) → r < 2 ^ k → bit_or (x * 2 ^ k) r ≡ x * 2 ^ k + r
bit_or_below k r x h = bit_or_comm (x * 2 ^ k) r ∙ (bit_or_above k r x h ∙ omega arith)
