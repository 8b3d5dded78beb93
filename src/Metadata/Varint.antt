-- ===== src/Metadata/Varint.antt =====
-- `putVarint` and `getVarint` of server/metadata.h. A byte is a number below 256, and a buffer
-- the list of the bytes from the cursor on.
pub mod RoundTrip
use mathlib.Core.Logic.{dite}
use mathlib.Core.WellFounded.{Acc}
use fluxkv.Base.{
  ℕ, ◌+◌, ◌*◌, ◌/◌, ◌%◌, ◌^◌, ◌≤◌, ◌<◌, bit_and, bit_or, List, [], ◌∷◌, Option, none, some, arith,
  dec_lt, ltb, ◌==◌, if◌then◌else◌,
}
use fluxkv.Base.Order.{lt_wf}

-- `while (v >= 0x80)`. The cast to `char` keeps the low eight bits.
put_varint_loop : (v : ℕ) → Acc ◌<◌ v → List ℕ
put_varint_loop v (Acc.intro _ smaller) =
    dite (dec_lt v 0x80) (λ _. (v % 256) ∷ [])
      (λ more. (bit_or v 0x80 % 256) ∷ put_varint_loop (v / 2 ^ 7) (smaller _ (omega arith)))

-- The bytes that `putVarint(p, v)` writes at `p`; it returns how many they are.
unfoldable pub put_varint : ℕ → List ℕ
unfolding put_varint_loop lt_wf dec_lt
put_varint v = put_varint_loop v (lt_wf.apply v)

-- The loop of `getVarint`: `r` and `shift` are its variables, the list runs from `p` to `end`. A
-- shift of a uint64_t drops what leaves the word.
unfoldable pub get_varint_loop : List ℕ → ℕ → ℕ → Option (ℕ × List ℕ)
get_varint_loop [] shift r = none
get_varint_loop (b ∷ p) shift r =
    let r' = bit_or r (bit_and b 0x7f * 2 ^ shift % 2 ^ 64) in
    let more = get_varint_loop p (shift + 7) r' in
    if ltb shift 64 then (if bit_and b 0x80 == 0 then some (r', p) else more) else none

-- The number at the cursor and the bytes behind it, or `none` for the result `false`.
unfoldable pub get_varint : List ℕ → Option (ℕ × List ℕ)
unfolding get_varint_loop
get_varint p = get_varint_loop p 0 0
