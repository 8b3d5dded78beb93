-- ===== src/Metadata/Range.antt =====
-- What is read from bytes fits the fields' types.
use fluxkv.Base.{
  ℕ, zero, suc, ◌+◌, ◌*◌, ◌/◌, ◌^◌, ◌%◌, ◌<◌, ◌≤◌, ◌≡◌, refl, ap, subst, Bool, true, false, List,
  [], ◌∷◌, Option, some, inl, inr, arith, Option-cases, guard, ◌>>=◌, ◌>>◌, bit_and, bit_or, ◌==◌,
  All, leb, leb→le,
}
use mathlib.Core.Option.{some-injective}
use fluxkv.Base.Bits.{bit_or-lt}
use native.Mathlib.Nat.{pow-suc}
use fluxkv.Metadata.Varint.{get_varint_loop, get_varint}
use fluxkv.Metadata.Fixed.{get_fixed}
use fluxkv.Metadata.Codec.{
  DocMeta, IsDocMeta, get_optional, decode_compact, decode_legacy, decode_optionals, meta_version,
  meta_version_shift,
}

abbrev pub IsBytes : List ℕ → Type 0
IsBytes = All (λ b. b < 256)

-- On bytes, what `f` reads satisfies `P`, and what it leaves are bytes.
abbrev Yields {ℓ κ} : {A : Type ℓ} → (A → Type κ) → (List ℕ → Option (A × List ℕ)) → Type (ℓ ⊔ κ)
Yields {A} P f =
    (p : List ℕ) (a : A) (rest : List ℕ) → IsBytes p → f p ≡ some (a, rest) → P a × IsBytes rest

bind-Yields {ℓ κ ι τ} :
    {A : Type ℓ} {B : Type κ} {P : A → Type ι} {Q : B → Type τ} (f : List ℕ → Option (A × List ℕ))
    (g : A → List ℕ → Option (B × List ℕ))
    → Yields P f
    → ((a : A) → P a → Yields Q (g a))
    → Yields Q (λ p. f p >>= λ r. g r.0 r.1)
bind-Yields f g hf hg p b rest bytes e = elim (Option-cases (f p)) [
  | inl stop ↦ cc (rw stop at e)
  | inr ((a, q), step) ↦
      let (pa, left) = hf p a q bytes step in hg a pa q b rest left (rw step at e)
]

guard-Yields {ℓ κ} :
    {A : Type ℓ} {P : A → Type κ} (b : Bool) (f : List ℕ → Option (A × List ℕ))
    → (b ≡ true → Yields P f)
    → Yields P (λ p. guard b >> f p)
guard-Yields true f h p a rest bytes e = h refl p a rest bytes e
guard-Yields false f h p a rest bytes e = cc

return-Yields {ℓ κ} : {A : Type ℓ} (P : A → Type κ) (a : A) → P a → Yields P (λ p. some (a, p))
return-Yields {A} P a h p b rest bytes e =
    let same : ◌≡◌ {A = A × List ℕ} (a, p) (b, rest) = some-injective _ _ e in
    (subst P (ap (λ r. r.0) same) h, subst IsBytes (ap (λ r. r.1) same) bytes)

get_varint_loop-lt :
    (p : List ℕ) (shift r a : ℕ) (rest : List ℕ)
    → r < 2 ^ 64
    → IsBytes p
    → get_varint_loop p shift r ≡ some (a, rest)
    → (a < 2 ^ 64) × IsBytes rest
unfolding get_varint_loop
get_varint_loop-lt [] shift r a rest hr bytes e = cc
get_varint_loop-lt (b ∷ p) shift r a rest hr bytes e =
    let x = bit_and b 0x7f * 2 ^ shift % 2 ^ 64 in
    let fits : bit_or r x < 2 ^ 64 = bit_or-lt 64 r x hr (omega arith) in
    ground (arith, get_varint_loop-lt p (shift + 7) (bit_or r x) a rest fits)

get_varint-Yields : Yields (λ a. a < 2 ^ 64) get_varint
unfolding get_varint
get_varint-Yields p a rest bytes e = get_varint_loop-lt p 0 0 a rest (omega arith) bytes e

get_fixed-Yields : (n : ℕ) → Yields (λ a. a < 256 ^ n) (get_fixed n)
unfolding get_fixed
get_fixed-Yields zero p a rest bytes e = ground arith
get_fixed-Yields (suc n) [] a rest bytes e = cc
get_fixed-Yields (suc n) (b ∷ p) a rest bytes e = elim (Option-cases (get_fixed n p)) [
  | inl stop ↦ ground arith
  | inr ((v, q), step) ↦ ground (arith, get_fixed-Yields n p v q bytes.1 step, pow-suc 256 n)
]

get_optional-Yields :
    (b : Bool) (n : ℕ) → 0 < 256 ^ n → Yields (λ a. a < 256 ^ n) (get_optional b n)
unfolding get_optional
get_optional-Yields true n h p a rest bytes e = get_fixed-Yields n p a rest bytes e
get_optional-Yields false n h p a rest bytes e = ground arith

decode_optionals-Yields :
    (hdr seq c size : ℕ)
    → seq < 2 ^ 64
    → c < 2 ^ 64
    → size ≤ 0xffff_ffff
    → Yields IsDocMeta (decode_optionals hdr seq c size)
unfolding decode_optionals
decode_optionals-Yields hdr seq c size hseq hc hsize =
    bind-Yields _ _ (get_optional-Yields _ 4 (omega arith)) λ f hf.
      bind-Yields _ _ (get_optional-Yields _ 4 (omega arith)) λ e he.
        bind-Yields _ _ (get_optional-Yields _ 1 (omega arith))
          λ dt hdt. return-Yields IsDocMeta _ (ground arith)

pub decode_compact-IsDocMeta :
    (p : List ℕ) (m : DocMeta) (rest : List ℕ)
    → IsBytes p
    → decode_compact p ≡ some (m, rest)
    → IsDocMeta m × IsBytes rest
unfolding decode_compact
decode_compact-IsDocMeta [] m rest bytes e = cc
decode_compact-IsDocMeta (hdr ∷ p) m rest bytes e =
    guard-Yields {P = IsDocMeta} (hdr / 2 ^ meta_version_shift == meta_version) _
      (λ _. bind-Yields _ _ get_varint-Yields λ seq hseq.
        bind-Yields _ _ (get_fixed-Yields 8) λ c hc. bind-Yields _ _ get_varint-Yields λ size hsize.
          guard-Yields (leb size 0xffff_ffff) (decode_optionals hdr seq c size) λ fits.
            decode_optionals-Yields hdr seq c size hseq (omega arith)
              (leb→le size 0xffff_ffff fits))
      p m rest bytes.1 e

pub decode_legacy-IsDocMeta :
    (p : List ℕ) (m : DocMeta) (rest : List ℕ)
    → IsBytes p
    → decode_legacy p ≡ some (m, rest)
    → IsDocMeta m × IsBytes rest
unfolding decode_legacy
decode_legacy-IsDocMeta p m rest bytes e =
    bind-Yields {Q = IsDocMeta} _ _ (get_fixed-Yields 8)
      (λ seq hseq. bind-Yields _ _ (get_fixed-Yields 8) λ c hc.
        bind-Yields _ _ (get_fixed-Yields 4) λ size hsize.
          bind-Yields _ _ (get_fixed-Yields 4) λ f hf. bind-Yields _ _ (get_fixed-Yields 4) λ x hx.
            bind-Yields _ _ (get_fixed-Yields 1) λ d hd.
              bind-Yields _ _ (get_fixed-Yields 1)
                λ dt hdt. return-Yields IsDocMeta _ (omega arith))
      p m rest bytes e
