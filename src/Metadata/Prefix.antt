-- ===== src/Metadata/Prefix.antt =====
-- Readers that take a number from the front of a buffer do not look past it.
use fluxkv.Base.{
  ℕ, zero, suc, ◌+◌, ◌*◌, ◌^◌, ◌%◌, ◌≡◌, Bool, true, false, List, [], ◌∷◌, ◌++◌, Option, some, inl,
  inr, arith, Option-cases, guard, ◌>>=◌, ◌>>◌, bit_and, bit_or,
}
use fluxkv.Metadata.Varint.{get_varint_loop, get_varint}
use fluxkv.Metadata.Fixed.{get_fixed}
use fluxkv.Metadata.Codec.{DocMeta, get_optional, decode_compact}

-- Bytes added behind the input of `f` join what it leaves.
abbrev pub IsLocal {ℓ} : {A : Type ℓ} → (List ℕ → Option (A × List ℕ)) → Type ℓ
IsLocal {A} f =
    (p more : List ℕ) (a : A) (rest : List ℕ)
    → f p ≡ some (a, rest)
    → f (p ++ more) ≡ some (a, rest ++ more)

pub bind-IsLocal {ℓ κ} :
    {A : Type ℓ} {B : Type κ} (f : List ℕ → Option (A × List ℕ))
    (g : A → List ℕ → Option (B × List ℕ))
    → IsLocal f
    → ((a : A) → IsLocal (g a))
    → IsLocal (λ p. f p >>= λ r. g r.0 r.1)
bind-IsLocal f g hf hg p more b rest e = elim (Option-cases (f p)) [
  | inl stop ↦ cc (rw stop at e)
  | inr ((a, q), step) ↦ rw (hf p more a q step) (hg a q more b rest (rw step at e))
]

pub guard-IsLocal {ℓ} :
    {A : Type ℓ} (b : Bool) (f : List ℕ → Option (A × List ℕ))
    → IsLocal f
    → IsLocal (λ p. guard b >> f p)
guard-IsLocal true f h p more a rest e = h p more a rest e
guard-IsLocal false f h p more a rest e = cc

get_varint_loop-append :
    (p more : List ℕ) (shift r a : ℕ) (rest : List ℕ)
    → get_varint_loop p shift r ≡ some (a, rest)
    → get_varint_loop (p ++ more) shift r ≡ some (a, rest ++ more)
unfolding get_varint_loop
get_varint_loop-append [] more shift r a rest e = cc
get_varint_loop-append (b ∷ p) more shift r a rest e =
    let r' = bit_or r (bit_and b 0x7f * 2 ^ shift % 2 ^ 64) in
    ground (arith, get_varint_loop-append p more (shift + 7) r' a rest)

pub get_varint-IsLocal : IsLocal get_varint
unfolding get_varint
get_varint-IsLocal p more a rest e = get_varint_loop-append p more 0 0 a rest e

pub get_fixed-IsLocal : (n : ℕ) → IsLocal (get_fixed n)
unfolding get_fixed
get_fixed-IsLocal zero p more a rest e = ground arith
get_fixed-IsLocal (suc n) [] more a rest e = cc
get_fixed-IsLocal (suc n) (b ∷ p) more a rest e = elim (Option-cases (get_fixed n p)) [
  | inl stop ↦ ground arith
  | inr ((v, q), step) ↦ ground (arith, get_fixed-IsLocal n p more v q step)
]

pub get_optional-IsLocal : (b : Bool) (n : ℕ) → IsLocal (get_optional b n)
unfolding get_optional
get_optional-IsLocal true n p more a rest e = get_fixed-IsLocal n p more a rest e
get_optional-IsLocal false n p more a rest e = ground arith

-- Bytes behind a compact meta change nothing of what is read.
pub decode_compact-append :
    (p more : List ℕ) (m : DocMeta) (rest : List ℕ)
    → decode_compact p ≡ some (m, rest)
    → decode_compact (p ++ more) ≡ some (m, rest ++ more)
unfolding decode_compact
decode_compact-append [] more m rest e = cc
decode_compact-append (hdr ∷ p) more m rest e =
    guard-IsLocal _ _
      (bind-IsLocal _ _ get_varint-IsLocal λ seq. bind-IsLocal _ _ (get_fixed-IsLocal 8) λ c.
        bind-IsLocal _ _ get_varint-IsLocal λ size. guard-IsLocal _ _ (
          bind-IsLocal _ _ (get_optional-IsLocal _ 4) λ f.
            bind-IsLocal _ _ (get_optional-IsLocal _ 4)
              λ x. bind-IsLocal _ _ (get_optional-IsLocal _ 1) λ dt p more m rest e. ground arith))
      p more m rest e
