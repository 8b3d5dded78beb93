-- ===== src/Protocol/RoundTrip.antt =====
-- A header that is written is read back.
use fluxkv.Base.{
  ℕ, suc, ◌+◌, ◌%◌, ◌<◌, ◌≡◌, refl, ap, List, [], ◌∷◌, ◌++◌, some, arith, length, set,
}
use fluxkv.Metadata.Fixed.{put_fixed, get_fixed-put_fixed}
use fluxkv.Protocol.{McbpHeader, IsHeader, hton, ntoh, header_bytes, pull_header, header_size}
use fluxkv.Protocol.Swap.{swap_lt, swap-swap}
use mathlib.Core.List.{append_assoc}

pub pull_header-header_bytes :
    (h : McbpHeader) (p : List ℕ) → IsHeader h → pull_header (header_bytes h ++ p) ≡ some (h, p)
unfolding pull_header header_bytes
pull_header-header_bytes h p v = simp append_assoc (
    rw
      (
        get_fixed-put_fixed, v.magic_u8, get_fixed-put_fixed, v.opcode_u8, get_fixed-put_fixed,
        v.key_len_u16, get_fixed-put_fixed, v.extras_len_u8, get_fixed-put_fixed, v.datatype_u8,
        get_fixed-put_fixed, v.specific_u16, get_fixed-put_fixed, v.body_len_u32,
        get_fixed-put_fixed, v.opaque_u32, get_fixed-put_fixed, v.cas_u64,
      )
      refl)

pub ntoh-hton : (h : McbpHeader) → IsHeader h → ntoh (hton h) ≡ h
unfolding ntoh hton
ntoh-hton h v = ground (
  arith,
  swap-swap 2 h.key_len v.key_len_u16,
  swap-swap 2 h.specific v.specific_u16,
  swap-swap 4 h.body_len v.body_len_u32,
  swap-swap 8 h.cas v.cas_u64,
)

pub hton-IsHeader : (h : McbpHeader) → IsHeader h → IsHeader (hton h)
unfolding hton
hton-IsHeader h v =
    omega
      (arith, v, swap_lt 2 h.key_len, swap_lt 2 h.specific, swap_lt 4 h.body_len, swap_lt 8 h.cas)

pub length-header_bytes : (h : McbpHeader) → length (header_bytes h) ≡ header_size
unfolding header_bytes put_fixed
length-header_bytes h = refl

-- A store to the datatype's byte of a header in a buffer.
pub set-append {ℓ} :
    {A : Type ℓ} (xs ys : List A) (i : ℕ) (v : A)
    → set (xs ++ ys) (length xs + i) v ≡ xs ++ set ys i v
set-append [] ys i v = rw (let e : 0 + i ≡ i = omega arith in e) refl
set-append (x ∷ xs) ys i v =
    rw (let e : length (x ∷ xs) + i ≡ suc (length xs + i) = omega arith in e)
      (ap (◌∷◌ x) (set-append xs ys i v))

pub set-header_bytes :
    (h : McbpHeader) (p : List ℕ) (d : ℕ)
    → d < 256
    → set (header_bytes h ++ p) 5 d ≡ header_bytes (record h { datatype = d }) ++ p
unfolding header_bytes put_fixed
set-header_bytes h p d small = let same : d % 256 ≡ d = omega (arith, small) in rw same refl
