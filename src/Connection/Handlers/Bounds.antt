-- ===== src/Connection/Handlers/Bounds.antt =====
-- Which requests the handlers of SET, DELETE and GET take bytes behind their body for.
use fluxkv.Base.{
  ℕ, zero, suc, ◌+◌, ◌-◌, ◌%◌, ◌^◌, ◌<◌, ◌≤◌, ◌≡◌, inl, inr, refl, ap, sym, Bool, true, false, List,
  [], ◌∷◌, none, some, length, length-drop, take, drop, leb, arith, Option-cases,
}
use fluxkv.Protocol.{McbpHeader, swap, number_of}
use fluxkv.Engine.Request.{Request, new_request}
use fluxkv.Connection.Handlers.{slice, extra, set_request, key_request}

-- The header's lengths describe a body, which is not empty.
pub record IsBody (h : McbpHeader) (body : List ℕ) : Type 0 where
  pub same_length : length body ≡ h.body_len
  pub not_empty : 0 < length body
  pub u32 : h.body_len < 2 ^ 32
  pub extras_u8 : h.extras_len < 256
  pub key_u16 : h.key_len < 2 ^ 16

pub slice-inside :
    (body : List ℕ) (at n : ℕ)
    → at + n ≤ length body
    → slice body at n ≡ some (take n (drop at body))
unfolding slice
slice-inside body at n h = ground arith

pub slice-outside : (body : List ℕ) (at n : ℕ) → length body < at + n → slice body at n ≡ none
unfolding slice
slice-outside body at n h = ground arith

-- The number that stands at an offset, when it is there to be read.
unfoldable pub extra_at : Bool → List ℕ → ℕ → ℕ
extra_at true body at = swap 4 (number_of (take 4 (drop at body)))
extra_at false body at = 0

extra-inside :
    (b : Bool) (body : List ℕ) (at : ℕ)
    → (b ≡ true → at + 4 ≤ length body)
    → extra b body at ≡ some (extra_at b body at)
unfolding extra extra_at
extra-inside true body at h = rw (slice-inside body at 4 (h refl)) refl
extra-inside false body at h = refl

value_len : (n e k : ℕ) → e + k ≤ n → n < 2 ^ 32 → (n + 2 ^ 32 - e - k) % 2 ^ 32 ≡ n - (e + k)
value_len n e k inside small = omega arith

leb_le : (m n : ℕ) → leb m n ≡ true → m ≤ n
leb_le m n h = ground arith

-- What `handleSet` reads from a body that holds its extras and its key.
unfoldable pub read_set : McbpHeader → List ℕ → Request
unfolding extra_at
read_set h body = record new_request {
  opcode = h.opcode;
  vbucket = h.specific;
  opaque = h.opaque;
  cas = h.cas;
  datatype = h.datatype;
  flags = extra_at (leb 4 h.extras_len) body 0;
  expiry = extra_at (leb 8 h.extras_len) body 4;
  key = take h.key_len (drop h.extras_len body);
  value = drop (h.extras_len + h.key_len) body;
}

take_all : (n : ℕ) (xs : List ℕ) → length xs ≤ n → take n xs ≡ xs
take_all zero [] h = refl
take_all zero (x ∷ xs) h = absurd (omega arith)
take_all (suc n) [] h = refl
take_all (suc n) (x ∷ xs) h = ap (◌∷◌ x) (take_all n xs (omega arith))

take-drop_all : (body : List ℕ) (at : ℕ) → take (length body - at) (drop at body) ≡ drop at body
take-drop_all body at =
    take_all (length body - at) (drop at body) (omega (arith, length-drop at body))

pub set_request-inside :
    (h : McbpHeader) (body : List ℕ)
    → IsBody h body
    → h.extras_len + h.key_len ≤ h.body_len
    → set_request h body ≡ some (read_set h body)
unfolding set_request read_set
set_request-inside h [] v inside = absurd (omega (arith, v.not_empty))
set_request-inside h (b ∷ bs) v inside =
    rw
      (
        extra-inside (leb 4 h.extras_len) (b ∷ bs) 0
            (λ big. omega (arith, leb_le 4 h.extras_len big, v.same_length, inside)),
        extra-inside (leb 8 h.extras_len) (b ∷ bs) 4
            (λ big. omega (arith, leb_le 8 h.extras_len big, v.same_length, inside)),
        slice-inside (b ∷ bs) h.extras_len h.key_len (omega (arith, v.same_length, inside)),
        value_len h.body_len h.extras_len h.key_len inside v.u32,
        slice-inside (b ∷ bs) (h.extras_len + h.key_len) (h.body_len - (h.extras_len + h.key_len))
            (omega (arith, v.same_length, inside)),
        sym v.same_length,
        take-drop_all (b ∷ bs) (h.extras_len + h.key_len),
      )
      refl

pub set_request-outside :
    (h : McbpHeader) (body : List ℕ)
    → IsBody h body
    → h.body_len < h.extras_len + h.key_len
    → set_request h body ≡ none
unfolding set_request
set_request-outside h [] v outside = absurd (omega (arith, v.not_empty))
set_request-outside h (b ∷ bs) v outside =
    let key =
      slice-outside (b ∷ bs) h.extras_len h.key_len (omega (arith, v.same_length, outside)) in
    elim (Option-cases (extra (leb 4 h.extras_len) (b ∷ bs) 0)) [
      | inl e ↦ rw e refl
      | inr (flags, e) ↦ elim (Option-cases (extra (leb 8 h.extras_len) (b ∷ bs) 4)) [
        | inl d ↦ rw (e, d) refl
        | inr (expiry, d) ↦ rw (e, d, key) refl
      ]
    ]

pub key_request-inside :
    (h : McbpHeader) (cas : ℕ) (body : List ℕ)
    → IsBody h body
    → h.extras_len + h.key_len ≤ h.body_len
    → (r : Request) × (key_request h cas body ≡ some r)
unfolding key_request
key_request-inside h cas [] v inside = (new_request, absurd (omega (arith, v.not_empty)))
key_request-inside h cas (b ∷ bs) v inside = (
  record new_request {
    opcode = h.opcode;
    vbucket = h.specific;
    opaque = h.opaque;
    cas = cas;
    key = take h.key_len (drop h.extras_len (b ∷ bs));
  },
  rw (slice-inside (b ∷ bs) h.extras_len h.key_len (omega (arith, v.same_length, inside))) refl,
)

pub key_request-outside :
    (h : McbpHeader) (cas : ℕ) (body : List ℕ)
    → IsBody h body
    → h.body_len < h.extras_len + h.key_len
    → key_request h cas body ≡ none
unfolding key_request
key_request-outside h cas [] v outside = absurd (omega (arith, v.not_empty))
key_request-outside h cas (b ∷ bs) v outside =
    rw (slice-outside (b ∷ bs) h.extras_len h.key_len (omega (arith, v.same_length, outside))) refl
