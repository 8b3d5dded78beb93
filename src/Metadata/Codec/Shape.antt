-- ===== src/Metadata/Codec/Shape.antt =====
-- The lengths of the two forms, and that both are bytes.
use fluxkv.Base.{ℕ, ◌+◌, ◌≤◌, ◌≡◌, ◌≢◌, refl, [], ◌∷◌, arith, length, length-append}
use fluxkv.Metadata.Varint.{put_varint}
use fluxkv.Metadata.Varint.RoundTrip.{put_varint_shape}
use fluxkv.Metadata.Fixed.{length-put_fixed}
use fluxkv.Metadata.Codec.{
  DocMeta, IsDocMeta, put_optional, compact_fields, encode, encode_compact, legacy_size,
  max_compact_size,
}

pub length-encode : (m : DocMeta) → length (encode m) ≡ legacy_size
unfolding encode
length-encode m = simp (length-append, length-put_fixed) refl

length-put_optional-le : (n v : ℕ) → length (put_optional n v) ≤ n
unfolding put_optional
length-put_optional-le n v = ground (arith, length-put_fixed n v)

length-compact_fields :
    (m : DocMeta)
    → length (compact_fields m)
      ≡ 1
        + length (put_varint m.seqno)
        + 8
        + length (put_varint m.value_size)
        + length (put_optional 4 m.flags)
        + length (put_optional 4 m.expiry)
        + length (put_optional 1 m.datatype)
unfolding compact_fields
length-compact_fields m = simp (length-append, length-put_fixed) (omega arith)

pub length-compact_fields_bounds :
    (m : DocMeta)
    → IsDocMeta m
    → (11 ≤ length (compact_fields m)) × (length (compact_fields m) ≤ 33)
length-compact_fields_bounds m v =
    let (_, lo, hi, _) = put_varint_shape m.seqno v.seqno_u64 in
    let (_, lo', _, hi') = put_varint_shape m.value_size (omega arith) in
    omega (
      arith,
      length-compact_fields m,
      hi' v.value_size_u32,
      length-put_optional-le 4 m.flags,
      length-put_optional-le 4 m.expiry,
      length-put_optional-le 1 m.datatype,
    )

-- The compact form of a meta whose fields fit their C++ types has at least 11 bytes, fits the buffer
-- of `kMaxCompactSize` bytes, and never has the length by which readers know the legacy form.
pub length-encode_compact :
    (m : DocMeta)
    → IsDocMeta m
    → (11 ≤ length (encode_compact m))
      × (length (encode_compact m) ≤ max_compact_size)
      × (length (encode_compact m) ≢ legacy_size)
unfolding encode_compact
length-encode_compact m v =
    ground (arith, length-compact_fields_bounds m v, length-append (compact_fields m) (0 ∷ []))
