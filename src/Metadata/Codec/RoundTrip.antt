-- ===== src/Metadata/Codec/RoundTrip.antt =====
-- The compact and the legacy form read back.
use fluxkv.Base.{ℕ, ◌^◌, ◌<◌, ◌≤◌, ◌≡◌, refl, List, ◌++◌, some, arith, le→leb, if◌then◌else◌}
use fluxkv.Metadata.Varint.RoundTrip.{get_varint-put_varint}
use fluxkv.Metadata.Fixed.{get_fixed-put_fixed}
use fluxkv.Metadata.Codec.{
  DocMeta, IsDocMeta, is_set, put_optional, get_optional, compact_fields, decode_compact, encode,
  decode_legacy,
}
use fluxkv.Metadata.Codec.Header.{header_fields}
use mathlib.Core.List.{append_assoc}

get_optional-put_optional :
    (n v : ℕ) (p : List ℕ)
    → v < 256 ^ n
    → get_optional (is_set v) n (put_optional n v ++ p) ≡ some (v, p)
unfolding get_optional put_optional
get_optional-put_optional n v p h = ground (arith, get_fixed-put_fixed n v p)

-- What the compact form keeps of a meta: everything, but any non-zero `deleted` becomes 1.
abbrev pub normal : DocMeta → DocMeta
normal m = record m { deleted = if is_set m.deleted then 1 else 0 }

pub decode_compact-compact_fields :
    (m : DocMeta) (p : List ℕ)
    → IsDocMeta m
    → decode_compact (compact_fields m ++ p) ≡ some (normal m, p)
unfolding decode_compact compact_fields
decode_compact-compact_fields m p v =
    let (version, f, e, d, t) =
      header_fields (is_set m.flags) (is_set m.expiry) (is_set m.deleted) (is_set m.datatype) in
    let size : m.value_size < 2 ^ 64 = omega arith in
    let fits : m.value_size ≤ 0xffff_ffff = omega arith in
    simp append_assoc (
      rw
        (
          version, get_varint-put_varint, v.seqno_u64, get_fixed-put_fixed, v.cas_u64,
          get_varint-put_varint, size, le→leb, fits, f, get_optional-put_optional, v.flags_u32, e,
          get_optional-put_optional, v.expiry_u32, t, get_optional-put_optional, v.datatype_u8, d,
        )
        refl)

pub decode_legacy-encode :
    (m : DocMeta) (p : List ℕ) → IsDocMeta m → decode_legacy (encode m ++ p) ≡ some (m, p)
unfolding decode_legacy encode
decode_legacy-encode m p v = simp append_assoc (
    rw
      (
        get_fixed-put_fixed, v.seqno_u64, get_fixed-put_fixed, v.cas_u64, get_fixed-put_fixed,
        v.value_size_u32, get_fixed-put_fixed, v.flags_u32, get_fixed-put_fixed, v.expiry_u32,
        get_fixed-put_fixed, v.deleted_u8, get_fixed-put_fixed, v.datatype_u8,
      )
      refl)
