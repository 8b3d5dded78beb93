-- ===== src/Metadata/Total.antt =====
-- Fixed-size reads succeed on a buffer that is long enough, and what they read has its bytes.
use fluxkv.Base.{
  ℕ, zero, suc, ◌+◌, ◌*◌, ◌/◌, ◌%◌, ◌<◌, ◌≤◌, ◌≡◌, refl, ap, sym, ◌∙◌, List, [], ◌∷◌, ◌++◌, some,
  arith, length, All,
}
use fluxkv.Metadata.Fixed.{get_fixed, put_fixed}
use fluxkv.Metadata.Codec.{DocMeta, encode, decode_legacy}
use mathlib.Core.List.{append-nil}

-- A read of `n` bytes, with what it leaves.
record Read (n : ℕ) (p : List ℕ) : Type 0 where
  value : ℕ
  rest : List ℕ
  reads : get_fixed n p ≡ some (value, rest)
  whole : put_fixed n value ++ rest ≡ p
  bytes : All (λ b. b < 256) rest
  count : length rest + n ≡ length p

get_fixed_whole : (n : ℕ) (p : List ℕ) → All (λ b. b < 256) p → n ≤ length p → Read n p
unfolding get_fixed put_fixed
get_fixed_whole zero p bytes long = record {
  value = 0;
  rest = p;
  reads = refl;
  whole = refl;
  bytes = bytes;
  count = omega arith;
}
get_fixed_whole (suc n) [] bytes long = absurd (omega arith)
get_fixed_whole (suc n) (b ∷ p) (small, bytes) long =
    let r = get_fixed_whole n p bytes (omega arith) in
    let low : (b + 256 * r.value) % 256 ≡ b = omega (arith, small) in
    let high : (b + 256 * r.value) / 256 ≡ r.value = omega (arith, small) in
    record {
      value = b + 256 * r.value;
      rest = r.rest;
      reads = rw r.reads refl;
      whole = rw (low, high) (ap (◌∷◌ b) r.whole);
      bytes = r.bytes;
      count = omega (arith, r.count);
    }

with_read :
    {G : Type 0} (n : ℕ) (p : List ℕ) → All (λ b. b < 256) p → n ≤ length p → (Read n p → G) → G
with_read n p bytes long k = k (get_fixed_whole n p bytes long)

length-zero : (p : List ℕ) → length p ≡ 0 → p ≡ []
length-zero [] h = refl
length-zero (b ∷ p) h = absurd (omega arith)

module _ (s : List ℕ) (r1 : Read 8 s) (r2 : Read 8 r1.rest) (r3 : Read 4 r2.rest)
    (r4 : Read 4 r3.rest) (r5 : Read 4 r4.rest) (r6 : Read 1 r5.rest) (r7 : Read 1 r6.rest) where
  all_read : DocMeta
  all_read = record {
    seqno = r1.value;
    cas = r2.value;
    value_size = r3.value;
    flags = r4.value;
    expiry = r5.value;
    deleted = r6.value;
    datatype = r7.value;
  }

  all_read_lem : r7.rest ≡ [] → decode_legacy s ≡ some (all_read, [])
  unfolding decode_legacy all_read
  all_read_lem done =
      rw (r1.reads, r2.reads, r3.reads, r4.reads, r5.reads, r6.reads, r7.reads, done) refl

  last_byte : r7.rest ≡ [] → put_fixed 1 r7.value ≡ r6.rest
  last_byte done = sym (append-nil (put_fixed 1 r7.value)) ∙ rw (← done) r7.whole

  all_read_bytes : r7.rest ≡ [] → encode all_read ≡ s
  unfolding encode all_read
  all_read_bytes done =
      rw (last_byte done, r6.whole, r5.whole, r4.whole, r3.whole, r2.whole, r1.whole) refl

-- A buffer of the struct's length is the struct of what is read from it.
pub decode_legacy_whole :
    (s : List ℕ)
    → All (λ b. b < 256) s
    → length s ≡ 30
    → (m : DocMeta) × (decode_legacy s ≡ some (m, [])) × (encode m ≡ s)
decode_legacy_whole s bytes long = with_read 8 s bytes (omega arith) λ r1.
    with_read 8 r1.rest r1.bytes (omega (arith, r1.count)) λ r2.
      with_read 4 r2.rest r2.bytes (omega (arith, r1.count, r2.count)) λ r3.
        with_read 4 r3.rest r3.bytes (omega (arith, r1.count, r2.count, r3.count)) λ r4.
          with_read 4 r4.rest r4.bytes (omega (arith, r1.count, r2.count, r3.count, r4.count)) λ r5.
            with_read 1 r5.rest r5.bytes
              (omega (arith, r1.count, r2.count, r3.count, r4.count, r5.count))
              λ r6.
                with_read 1 r6.rest r6.bytes
                  (omega (arith, r1.count, r2.count, r3.count, r4.count, r5.count, r6.count))
                  λ r7.
                    let done : r7.rest ≡ [] = length-zero r7.rest (
                      omega (
                        arith, r1.count, r2.count, r3.count, r4.count, r5.count, r6.count, r7.count,
                      )) in
                    (
                      all_read s r1 r2 r3 r4 r5 r6 r7,
                      all_read_lem s r1 r2 r3 r4 r5 r6 r7 done,
                      all_read_bytes s r1 r2 r3 r4 r5 r6 r7 done,
                    )
