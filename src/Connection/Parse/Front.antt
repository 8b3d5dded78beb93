-- ===== src/Connection/Parse/Front.antt =====
-- A request at the front of a buffer: how many bytes it takes.
use fluxkv.Base.{
  ℕ, zero, suc, ◌+◌, ◌<◌, ◌≤◌, ◌≡◌, refl, List, [], ◌∷◌, Option, some, arith, length, length-drop,
  Option-cases, inl, inr, ◌>>=◌, ◌⊎◌,
}
use fluxkv.Metadata.Fixed.{get_fixed}
use fluxkv.Protocol.{McbpHeader, ntoh, pull_header, header_size}
use fluxkv.Connection.Parse.{
  Parsed, incomplete, bad_magic, bad_opcode, frame, parse_body, parse_frame,
}

-- A reader that takes `n` bytes.
abbrev Takes : {A : Type 0} → ℕ → (List ℕ → Option (A × List ℕ)) → Type 0
Takes {A} n f = (p q : List ℕ) (a : A) → f p ≡ some (a, q) → length p ≡ n + length q

bind-Takes :
    {A B : Type 0} (n m : ℕ) (f : List ℕ → Option (A × List ℕ))
    (g : A → List ℕ → Option (B × List ℕ))
    → Takes n f
    → ((a : A) → Takes m (g a))
    → Takes (n + m) (λ p. f p >>= λ r. g r.0 r.1)
bind-Takes n m f g hf hg p q b e = elim (Option-cases (f p)) [
  | inl stop ↦ cc (rw stop at e)
  | inr ((a, r), step) ↦ omega (arith, hf p r a step, hg a r q b (rw step at e))
]

get_fixed-Takes : (n : ℕ) → Takes n (get_fixed n)
unfolding get_fixed
get_fixed-Takes zero p q a e = ground arith
get_fixed-Takes (suc n) [] q a e = cc
get_fixed-Takes (suc n) (b ∷ p) q a e = elim (Option-cases (get_fixed n p)) [
  | inl stop ↦ ground arith
  | inr ((v, r), step) ↦ ground (arith, get_fixed-Takes n p r v step)
]

pub pull_header-Takes : Takes header_size pull_header
unfolding pull_header
pull_header-Takes = bind-Takes 1 23 _ _ (get_fixed-Takes 1) λ _.
    bind-Takes 1 22 _ _ (get_fixed-Takes 1) λ _. bind-Takes 2 20 _ _ (get_fixed-Takes 2) λ _.
      bind-Takes 1 19 _ _ (get_fixed-Takes 1) λ _. bind-Takes 1 18 _ _ (get_fixed-Takes 1) λ _.
        bind-Takes 2 16 _ _ (get_fixed-Takes 2) λ _. bind-Takes 4 12 _ _ (get_fixed-Takes 4) λ _.
          bind-Takes 4 8 _ _ (get_fixed-Takes 4)
            λ _. bind-Takes 8 0 _ _ (get_fixed-Takes 8) λ _. λ p q a e. ground arith

parse_body-shorter :
    (raw h : McbpHeader) (p body rest : List ℕ)
    → parse_body raw p ≡ frame h body rest
    → length rest ≤ length p
unfolding parse_body
parse_body-shorter raw h p body rest e = ground (arith, length-drop (ntoh raw).body_len p)

pub parse_frame-shorter :
    (buf : List ℕ) (h : McbpHeader) (body rest : List ℕ)
    → parse_frame buf ≡ frame h body rest
    → length rest < length buf
unfolding parse_frame
parse_frame-shorter buf h body rest e = elim (Option-cases (pull_header buf)) [
  | inl none_read ↦ absurd (ground (arith, none_read, e))
  | inr ((raw, p), read) ↦
      ground (arith, read, pull_header-Takes buf p raw read, parse_body-shorter raw h p body rest)
]

pub Parsed-cases :
    (p : Parsed)
    → (p ≡ incomplete)
      ⊎ (p ≡ bad_magic)
      ⊎ (p ≡ bad_opcode)
      ⊎ ((h : McbpHeader) × (body : List ℕ) × (rest : List ℕ) × (p ≡ frame h body rest))
Parsed-cases incomplete = inl refl
Parsed-cases bad_magic = inr (inl refl)
Parsed-cases bad_opcode = inr (inr (inl refl))
Parsed-cases (frame h body rest) = inr (inr (inr (h, body, rest, refl)))
