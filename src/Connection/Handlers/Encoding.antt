-- ===== src/Connection/Handlers/Encoding.antt =====
-- A SET and a GET that a client encodes are read as they were meant.
use fluxkv.Base.{
  ℕ, zero, suc, ◌+◌, ◌^◌, ◌<◌, ◌≡◌, refl, ap, sym, ◌∙◌, List, [], ◌∷◌, ◌++◌, some, length,
  length-append, take, drop, take-append, drop-append, arith,
}
use fluxkv.Metadata.Fixed.{put_fixed}
use fluxkv.Protocol.{McbpHeader, swap, number_of, op_set}
use fluxkv.Protocol.Swap.{number_of-put_fixed, swap-swap, swap_lt}
use fluxkv.Engine.Request.{Request, new_request}
use fluxkv.Connection.Handlers.{set_request}
use fluxkv.Connection.Handlers.Bounds.{IsBody, read_set, extra_at, set_request-inside}

-- A SET of a client, as the binary protocol documents it: flags and expiry in the network's order, the key
-- and the value.
pub record SetRequest : Type 0 where
  pub vbucket : ℕ
  pub opaque : ℕ
  pub cas : ℕ
  pub datatype : ℕ
  pub flags : ℕ
  pub expiry : ℕ
  pub key : List ℕ
  pub value : List ℕ

unfoldable pub set_body : SetRequest → List ℕ
set_body s = put_fixed 4 (swap 4 s.flags) ++ (put_fixed 4 (swap 4 s.expiry) ++ (s.key ++ s.value))

abbrev pub set_header : SetRequest → McbpHeader
set_header s = record {
  magic = 0x80;
  opcode = op_set;
  key_len = length s.key;
  extras_len = 8;
  datatype = s.datatype;
  specific = s.vbucket;
  body_len = 8 + length s.key + length s.value;
  opaque = s.opaque;
  cas = s.cas;
}

network_order : (v : ℕ) → v < 2 ^ 32 → swap 4 (number_of (put_fixed 4 (swap 4 v))) ≡ v
network_order v small = rw (number_of-put_fixed 4 (swap 4 v) (swap_lt 4 v)) (swap-swap 4 v small)

nothing : (n : ℕ) → drop {A = ℕ} n [] ≡ []
nothing zero = refl
nothing (suc n) = refl

drop-add : (m n : ℕ) (xs : List ℕ) → drop (m + n) xs ≡ drop n (drop m xs)
drop-add zero n xs = rw (let e : 0 + n ≡ n = omega arith in e) refl
drop-add (suc m) n [] = rw (let e : suc m + n ≡ suc (m + n) = omega arith in e) (sym (nothing n))
drop-add (suc m) n (x ∷ xs) =
    rw (let e : suc m + n ≡ suc (m + n) = omega arith in e) (drop-add m n xs)

length-set_body : (s : SetRequest) → length (set_body s) ≡ 8 + length s.key + length s.value
unfolding set_body put_fixed
length-set_body s = omega (arith, length-append s.key s.value)

-- `handleSet` reads from a request that a client encodes as the protocol says, with flags and an expiry of 32
-- bits, a key shorter than 2^16 bytes and less than 2^32 bytes in all, the flags, the expiry, the key and the
-- value that the client meant, and takes over its vbucket, opaque, CAS and datatype.
pub set_request-set_body :
    (s : SetRequest)
    → s.flags < 2 ^ 32
    → s.expiry < 2 ^ 32
    → length s.key < 2 ^ 16
    → 8 + length s.key + length s.value < 2 ^ 32
    → set_request (set_header s) (set_body s)
      ≡ some (record new_request {
        opcode = op_set;
        vbucket = s.vbucket;
        opaque = s.opaque;
        cas = s.cas;
        datatype = s.datatype;
        flags = s.flags;
        expiry = s.expiry;
        key = s.key;
        value = s.value;
      })
unfolding read_set extra_at set_body put_fixed
set_request-set_body s flags expiry key whole =
    let v : IsBody (set_header s) (set_body s) = record {
      same_length = length-set_body s;
      not_empty = omega (arith, length-set_body s);
      u32 = whole;
      extras_u8 = omega arith;
      key_u16 = key;
    } in
    let made : ℕ → ℕ → List ℕ → List ℕ → Request = λ f e k v. record new_request {
      opcode = op_set;
      vbucket = s.vbucket;
      opaque = s.opaque;
      cas = s.cas;
      datatype = s.datatype;
      flags = f;
      expiry = e;
      key = k;
      value = v;
    } in
    set_request-inside (set_header s) (set_body s) v (omega arith)
    ∙ ap
        (λ v. some (
          made (swap 4 (number_of (put_fixed 4 (swap 4 s.flags))))
            (swap 4 (number_of (put_fixed 4 (swap 4 s.expiry))))
            (take (length s.key) (s.key ++ s.value)) v))
        (drop-add 8 (length s.key) (set_body s))
    ∙ ap
        (λ f. some (
          made f (swap 4 (number_of (put_fixed 4 (swap 4 s.expiry))))
            (take (length s.key) (s.key ++ s.value)) (drop (length s.key) (s.key ++ s.value))))
        (network_order s.flags flags)
    ∙ ap
        (λ e. some (
          made s.flags e (take (length s.key) (s.key ++ s.value))
            (drop (length s.key) (s.key ++ s.value))))
        (network_order s.expiry expiry)
    ∙ ap (λ k. some (made s.flags s.expiry k (drop (length s.key) (s.key ++ s.value))))
        (take-append s.key s.value)
    ∙ ap (λ v. some (made s.flags s.expiry s.key v)) (drop-append s.key s.value)
