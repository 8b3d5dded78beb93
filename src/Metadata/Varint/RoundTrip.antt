-- ===== src/Metadata/Varint/RoundTrip.antt =====
-- What `put_varint` writes, in plain arithmetic, and that `get_varint` reads it back.
use mathlib.Core.WellFounded.{Acc}
use fluxkv.Base.{
  ℕ, zero, suc, ◌+◌, ◌*◌, ◌/◌, ◌%◌, ◌^◌, ◌≤◌, ◌<◌, ◌≡◌, ap, List, [], ◌∷◌, ◌++◌, some, arith,
  length, All, ltb, if◌then◌else◌,
}
use fluxkv.Base.Order.{lt_wf}
use fluxkv.Base.Bits.{bit_or_above, low_seven_bits, bit_seven, set_bit_seven}
use fluxkv.Metadata.Varint.{put_varint_loop, put_varint, get_varint_loop, get_varint}
use native.Mathlib.Nat.{mod-eq_of_lt, div-add-mod}
use native.Mathlib.Numerals.{towards_suc}

-- The groups of seven bits, lowest first, of a number below 128 ^ (k + 1).
pub groups : ℕ → ℕ → List ℕ
groups zero v = v ∷ []
groups (suc k) v =
    let rest = groups k (v / 128) in if ltb v 128 then v ∷ [] else (v % 128 + 128) ∷ rest

put_varint_loop-groups :
    (k v : ℕ) (w : Acc ◌<◌ v) → v < 128 ^ suc k → put_varint_loop v w ≡ groups k v
unfolding put_varint_loop groups
put_varint_loop-groups zero v (Acc.intro _ smaller) h = grind (arith, mod-eq_of_lt)
put_varint_loop-groups (suc k) v (Acc.intro _ smaller) h = grind (
  arith,
  set_bit_seven v,
  mod-eq_of_lt,
  λ (w : Acc ◌<◌ (v / 128)). put_varint_loop-groups k (v / 128) w (omega arith),
)

pub put_varint-groups : (k v : ℕ) → v < 128 ^ suc k → put_varint v ≡ groups k v
unfolding put_varint
put_varint-groups k v h = put_varint_loop-groups k v (lt_wf.apply v) h

length-groups : (k v : ℕ) → (1 ≤ length (groups k v)) × (length (groups k v) ≤ k + 1)
unfolding groups
length-groups zero v = omega arith
length-groups (suc k) v = ground (arith, length-groups k (v / 128))

groups-IsByte : (k v : ℕ) → v < 128 ^ suc k → All (λ b. b < 256) (groups k v)
unfolding groups
groups-IsByte zero v h = omega arith
groups-IsByte (suc k) v h = ground (arith, groups-IsByte k (v / 128) (omega arith))

-- One round of the reader on a last byte, and on a byte that says that more follow.
last_byte :
    (b r shift : ℕ) (p : List ℕ)
    → b < 128
    → r < 2 ^ shift
    → shift < 64
    → b * 2 ^ shift < 2 ^ 64
    → get_varint_loop (b ∷ p) shift r ≡ some (r + b * 2 ^ shift, p)
unfolding get_varint_loop
last_byte b r shift p hb hr hs fits =
    ground (arith, low_seven_bits b, bit_seven b, mod-eq_of_lt fits, bit_or_above shift r b)

inner_byte :
    (g r shift : ℕ) (p : List ℕ)
    → g < 128
    → r < 2 ^ shift
    → shift < 64
    → g * 2 ^ shift < 2 ^ 64
    → get_varint_loop ((g + 128) ∷ p) shift r ≡ get_varint_loop p (shift + 7) (r + g * 2 ^ shift)
unfolding get_varint_loop
inner_byte g r shift p hg hr hs fits = ground (
  arith,
  low_seven_bits (g + 128),
  bit_seven (g + 128),
  mod-eq_of_lt fits,
  bit_or_above shift r g,
)

shift_seven : (s : ℕ) → 2 ^ (s + 7) ≡ 128 * 2 ^ s
shift_seven s = simp towards_suc (omega arith)

-- The lowest group of `v` and the others, both shifted by `s`.
split_group : (v s : ℕ) → v * 2 ^ s ≡ v % 128 * 2 ^ s + v / 128 * 2 ^ (s + 7)
split_group v s = omega (
  arith,
  ap (λ (t : ℕ). t * 2 ^ s) (div-add-mod v 128),
  ap (λ (t : ℕ). v / 128 * t) (shift_seven s),
)

joined_below : (g r s : ℕ) → g < 128 → r < 2 ^ s → r + g * 2 ^ s < 2 ^ (s + 7)
joined_below g r s hg hr = rw shift_seven (grind arith)

get_varint_loop-groups :
    (k v r shift : ℕ) (p : List ℕ)
    → v < 128 ^ suc k
    → r < 2 ^ shift
    → shift + 7 * k < 64
    → r + v * 2 ^ shift < 2 ^ 64
    → get_varint_loop (groups k v ++ p) shift r ≡ some (r + v * 2 ^ shift, p)
unfolding groups
get_varint_loop-groups zero v r shift p hv hr hs fits =
    last_byte v r shift p (omega arith) hr (omega arith) (omega arith)
get_varint_loop-groups (suc k) v r shift p hv hr hs fits = ground (
  arith,
  last_byte v r shift p,
  split_group v shift,
  joined_below (v % 128) r shift,
  inner_byte (v % 128) r shift (groups k (v / 128) ++ p),
  get_varint_loop-groups k (v / 128) (r + v % 128 * 2 ^ shift) (shift + 7) p (omega arith),
)

-- `getVarint` reads back the 64-bit number that `putVarint` wrote and stops right behind it.
pub get_varint-put_varint :
    (v : ℕ) (p : List ℕ) → v < 2 ^ 64 → get_varint (put_varint v ++ p) ≡ some (v, p)
unfolding get_varint
get_varint-put_varint v p h =
    rw (put_varint-groups 9 v (omega arith))
      (ground (arith, get_varint_loop-groups 9 v 0 0 p (omega arith)))

-- `putVarint` writes bytes, 1 to 10 of them, and at most 5 for a number below 2 ^ 32.
pub put_varint_shape :
    (v : ℕ)
    → v < 2 ^ 64
    → All (λ b. b < 256) (put_varint v)
      × (1 ≤ length (put_varint v))
      × (length (put_varint v) ≤ 10)
      × (v < 2 ^ 32 → length (put_varint v) ≤ 5)
put_varint_shape v h =
    let short : v < 2 ^ 32 → length (put_varint v) ≤ 5 =
      λ small. rw (put_varint-groups 4 v (omega arith)) (length-groups 4 v).1 in
    rw (put_varint-groups 9 v (omega arith)) (
      groups-IsByte 9 v (omega arith),
      (length-groups 9 v).0,
      (length-groups 9 v).1,
      λ small. rw (← put_varint-groups 9 v (omega arith)) (short small),
    )
