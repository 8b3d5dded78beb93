-- ===== src/Engine/Batch/KeyOrder.antt =====
-- The sort of `executePersist` of server/engine.cc compares prefixes and lengths, and the keys themselves
-- only where these do not decide: that is the order of the keys, and of arrival within a key.
use fluxkv.Base.{
  ℕ, ◌%◌, ◌^◌, ◌≤◌, ◌<◌, ◌≡◌, ◌≢◌, refl, ap, sym, ◌∙◌, inl, inr, Bool, true, false, not, ◌&&◌, List,
  arith, length, get_or, leb, ltb, ◌==◌, All, Bool-cases, ltb→lt, ==_refl, if◌then◌else◌,
}
use fluxkv.Cache.Entry.{bytes_eq, bytes_eq_refl, eq_of_bytes_eq}
use fluxkv.Engine.Request.{Request, new_request}
use fluxkv.Engine.Batch.{sort_key, same_key, precedes, lex_lt, full_key}
use fluxkv.Engine.Batch.Prefix.{padded, key_prefix-padded}
use fluxkv.Engine.Batch.Lex.{
  lex_lt_asym, lex_lt_of_padded, eq_of_padded, lex_lt_of_shorter, different_keys,
  different_keys_back,
}

abbrev pub before : ℕ × Request → ℕ × Request → Bool
before (i, r) (j, s) = if bytes_eq r.key s.key then ltb i j else lex_lt r.key s.key

-- A request of a batch, with its place: what the code relies on in sizes and bytes.
pub record IsPlaced (batch : List Request) (p : ℕ × Request) : Type 0 where
  pub placed : get_or batch p.0 new_request ≡ p.1
  pub place_u32 : p.0 < 2 ^ 32
  pub len_u32 : length p.1.key < 2 ^ 32
  pub key_bytes : All (λ b. b < 256) p.1.key

-- The order of keys, and `x` for equal ones.
abbrev by_key : Bool → List ℕ → List ℕ → Bool
by_key x a b = if bytes_eq a b then x else lex_lt a b

by_key_less : (x : Bool) (a b : List ℕ) → lex_lt a b ≡ true → true ≡ by_key x a b
by_key_less x a b h = rw (different_keys a b h, h) refl

by_key_more : (x : Bool) (a b : List ℕ) → lex_lt b a ≡ true → false ≡ by_key x a b
by_key_more x a b h = rw (different_keys_back a b h, lex_lt_asym b a h) refl

by_key_same : (x : Bool) (a b : List ℕ) → a ≡ b → x ≡ by_key x a b
by_key_same x a b e = rw (e, bytes_eq_refl b) refl

-- How the prefixes decide, and how the lengths of keys that they hold do.
module _ (a b : List ℕ) (ha : All (λ c. c < 256) a) (hb : All (λ c. c < 256) b) (x : Bool) where
  by_prefix : (padded 8 a == padded 8 b) ≡ false → ltb (padded 8 a) (padded 8 b) ≡ by_key x a b
  by_prefix differ = elim (Bool-cases (ltb (padded 8 a) (padded 8 b))) [
    | inl less ↦ less ∙ by_key_less x a b (lex_lt_of_padded 8 a b ha hb (ltb→lt _ _ less))
    | inr more ↦ more ∙ by_key_more x a b (lex_lt_of_padded 8 b a hb ha (ground arith))
  ]

  by_length :
      padded 8 a ≡ padded 8 b
      → length a ≤ 8
      → length b ≤ 8
      → (if not (length a == length b) then ltb (length a) (length b) else x) ≡ by_key x a b
  by_length same la lb = elim (Bool-cases (length a == length b)) [
    | inl even ↦ rw even (by_key_same x a b (eq_of_padded 8 a b ha hb (ground arith) la same))
    | inr uneven ↦ elim (Bool-cases (ltb (length a) (length b))) [
      | inl less ↦
          rw (uneven, less)
            (by_key_less x a b (lex_lt_of_shorter 8 a b ha hb (ltb→lt _ _ less) lb same))
      | inr more ↦
          rw (uneven, more)
            (by_key_more x a b (lex_lt_of_shorter 8 b a hb ha (ground arith) la (sym same)))
    ]
  ]

if_not : (t x : Bool) (z : Bool) → (if not t then z else x) ≡ (if t then x else z)
if_not true x z = refl
if_not false x z = refl

decided :
    (a b : List ℕ)
    → All (λ c. c < 256) a
    → All (λ c. c < 256) b
    → (x : Bool)
    → (if not (padded 8 a == padded 8 b)
        then ltb (padded 8 a) (padded 8 b)
        else (if leb (length a) 8 && leb (length b) 8
            then (if not (length a == length b) then ltb (length a) (length b) else x)
            else (if not (bytes_eq a b) then lex_lt a b else x)))
      ≡ by_key x a b
decided a b ha hb x = elim (Bool-cases (padded 8 a == padded 8 b)) [
  | inr differ ↦ rw differ (by_prefix a b ha hb x differ)
  | inl same ↦ elim (Bool-cases (leb (length a) 8 && leb (length b) 8)) [
    | inl short ↦
        rw (same, short) (by_length a b ha hb x (ground arith) (ground arith) (ground arith))
    | inr longer ↦ rw (same, longer) (if_not (bytes_eq a b) x (lex_lt a b))
  ]
]

-- For requests at their places in a batch, whose keys are bytes, in sizes that 32 bits hold, the test on
-- prefixes, lengths and, where these leave it open, keys is the order of the keys byte by byte, and of
-- arrival for equal keys.
pub precedes-before :
    (batch : List Request) (p q : ℕ × Request)
    → IsPlaced batch p
    → IsPlaced batch q
    → precedes batch (sort_key p.0 p.1) (sort_key q.0 q.1) ≡ before p q
unfolding precedes sort_key
precedes-before batch (i, r) (j, s) hp hq =
    let place_i : i % 2 ^ 32 ≡ i = omega (arith, hp.place_u32) in
    let place_j : j % 2 ^ 32 ≡ j = omega (arith, hq.place_u32) in
    let len_r : length r.key % 2 ^ 32 ≡ length r.key = omega (arith, hp.len_u32) in
    let len_s : length s.key % 2 ^ 32 ≡ length s.key = omega (arith, hq.len_u32) in
    let key_i : full_key batch i ≡ r.key = ap (λ t. t.key) hp.placed in
    let key_j : full_key batch j ≡ s.key = ap (λ t. t.key) hq.placed in
    let prefix_r : (sort_key i r).prefix ≡ padded 8 r.key = key_prefix-padded r.key hp.key_bytes in
    let prefix_s : (sort_key j s).prefix ≡ padded 8 s.key = key_prefix-padded s.key hq.key_bytes in
    rw (place_i, place_j, len_r, len_s, key_i, key_j, prefix_r, prefix_s)
      (decided r.key s.key hp.key_bytes hq.key_bytes (ltb i j))

same_decided :
    (a b : List ℕ)
    → All (λ c. c < 256) a
    → All (λ c. c < 256) b
    → (if (padded 8 a == padded 8 b) && (length a == length b)
        then (if leb (length a) 8 then true else bytes_eq a b)
        else false)
      ≡ bytes_eq a b
same_decided a b ha hb = elim (Bool-cases (bytes_eq a b)) [
  | inl same ↦
      let e = eq_of_bytes_eq a b same in
      rw (e, ==_refl (padded 8 b), ==_refl (length b), bytes_eq_refl b) (ground arith)
  | inr differ ↦
      let long : (padded 8 a == padded 8 b) ≡ true
          → (length a == length b) ≡ true
          → leb (length a) 8 ≡ true
          → a ≡ b =
        λ e l s. eq_of_padded 8 a b ha hb (ground arith) (ground arith) (ground arith) in
      let unlike : a ≢ b = λ e. absurd (ground (arith, ap (bytes_eq a) e, bytes_eq_refl a)) in
      rw differ (ground (arith, long))
]

-- The test for a repeated key is right.
pub same_key-bytes_eq :
    (batch : List Request) (p q : ℕ × Request)
    → IsPlaced batch p
    → IsPlaced batch q
    → same_key batch (sort_key p.0 p.1) (sort_key q.0 q.1) ≡ bytes_eq p.1.key q.1.key
unfolding same_key sort_key
same_key-bytes_eq batch (i, r) (j, s) hp hq =
    let place_i : i % 2 ^ 32 ≡ i = omega (arith, hp.place_u32) in
    let place_j : j % 2 ^ 32 ≡ j = omega (arith, hq.place_u32) in
    let len_r : length r.key % 2 ^ 32 ≡ length r.key = omega (arith, hp.len_u32) in
    let len_s : length s.key % 2 ^ 32 ≡ length s.key = omega (arith, hq.len_u32) in
    let key_i : full_key batch i ≡ r.key = ap (λ t. t.key) hp.placed in
    let key_j : full_key batch j ≡ s.key = ap (λ t. t.key) hq.placed in
    let prefix_r : (sort_key i r).prefix ≡ padded 8 r.key = key_prefix-padded r.key hp.key_bytes in
    let prefix_s : (sort_key j s).prefix ≡ padded 8 s.key = key_prefix-padded s.key hq.key_bytes in
    rw (place_i, place_j, len_r, len_s, key_i, key_j, prefix_r, prefix_s)
      (same_decided r.key s.key hp.key_bytes hq.key_bytes)
