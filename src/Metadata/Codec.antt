-- ===== src/Metadata/Codec.antt =====
-- `struct DocMeta` of server/metadata.h with its legacy and its compact form. The struct is packed
-- and the machine little-endian, so its bytes are the fields' bytes, one after the other.
pub mod Header
pub mod RoundTrip
pub mod Shape
use fluxkv.Base.{
  ℕ, ◌+◌, ◌*◌, ◌/◌, ◌^◌, ◌<◌, Bool, true, false, not, List, [], ◌∷◌, ◌++◌, Option, none, some,
  bit_and, bit_or, length, leb, ◌==◌, if◌then◌else◌, guard, ◌>>=◌, ◌>>◌,
}
use fluxkv.Metadata.Varint.{put_varint, get_varint}
use fluxkv.Metadata.Fixed.{put_fixed, get_fixed}
use mathlib.Core.Option

pub record DocMeta : Type 0 where
  pub seqno : ℕ
  pub cas : ℕ
  pub value_size : ℕ
  pub flags : ℕ
  pub expiry : ℕ
  pub deleted : ℕ
  pub datatype : ℕ

-- The default member initialisers.
abbrev pub zero_meta : DocMeta
zero_meta = record {
  seqno = 0;
  cas = 0;
  value_size = 0;
  flags = 0;
  expiry = 0;
  deleted = 0;
  datatype = 0;
}

-- The fields' C++ types.
pub record IsDocMeta (m : DocMeta) : Type 0 where
  pub seqno_u64 : m.seqno < 2 ^ 64
  pub cas_u64 : m.cas < 2 ^ 64
  pub value_size_u32 : m.value_size < 2 ^ 32
  pub flags_u32 : m.flags < 2 ^ 32
  pub expiry_u32 : m.expiry < 2 ^ 32
  pub deleted_u8 : m.deleted < 2 ^ 8
  pub datatype_u8 : m.datatype < 2 ^ 8

abbrev pub legacy_size : ℕ
legacy_size = 30

abbrev pub max_compact_size : ℕ
max_compact_size = 1 + 10 + 8 + 10 + 4 + 4 + 1 + 1

abbrev pub meta_has_flags : ℕ
meta_has_flags = 1

abbrev pub meta_has_expiry : ℕ
meta_has_expiry = 2

abbrev pub meta_deleted : ℕ
meta_deleted = 4

abbrev pub meta_has_datatype : ℕ
meta_has_datatype = 8

abbrev pub meta_version_shift : ℕ
meta_version_shift = 5

abbrev pub meta_version : ℕ
meta_version = 1

-- `DocMeta::encode`: the bytes of the struct.
unfoldable pub encode : DocMeta → List ℕ
encode m =
    put_fixed 8 m.seqno
    ++ (put_fixed 8 m.cas
        ++ (put_fixed 4 m.value_size
            ++ (put_fixed 4 m.flags
                ++ (put_fixed 4 m.expiry ++ (put_fixed 1 m.deleted ++ put_fixed 1 m.datatype)))))

-- `hdr |= b ? bit : 0`
abbrev or_bit : Bool → ℕ → ℕ → ℕ
or_bit b bit hdr = bit_or hdr (if b then bit else 0)

-- The header byte; the arguments say whether flags, expiry, deleted and datatype are not zero.
unfoldable pub header : Bool → Bool → Bool → Bool → ℕ
header f e d t = or_bit t meta_has_datatype (
    or_bit d meta_deleted
      (or_bit e meta_has_expiry (or_bit f meta_has_flags (meta_version * 2 ^ meta_version_shift))))

-- The test of a number: it is not 0.
abbrev pub is_set : ℕ → Bool
is_set x = not (x == 0)

-- An optional field is written if it is not 0.
unfoldable pub put_optional : ℕ → ℕ → List ℕ
put_optional n v = if is_set v then put_fixed n v else []

-- The bytes of `out` before the pad.
unfoldable pub compact_fields : DocMeta → List ℕ
compact_fields m =
    header (is_set m.flags) (is_set m.expiry) (is_set m.deleted) (is_set m.datatype)
    ∷ (put_varint m.seqno
        ++ (put_fixed 8 m.cas
            ++ (put_varint m.value_size
                ++ (put_optional 4 m.flags
                    ++ (put_optional 4 m.expiry ++ put_optional 1 m.datatype)))))

-- `DocMeta::encodeCompact`: what it writes to `out`; it returns the length.
unfoldable pub encode_compact : DocMeta → List ℕ
encode_compact m =
    let out = compact_fields m in if length out == legacy_size then out ++ (0 ∷ []) else out

-- The legacy branch of `decode`: `memcpy` of the struct.
unfoldable pub decode_legacy : List ℕ → Option (DocMeta × List ℕ)
decode_legacy p = do
  (seqno, p) ← get_fixed 8 p
  (cas, p) ← get_fixed 8 p
  (value_size, p) ← get_fixed 4 p
  (flags, p) ← get_fixed 4 p
  (expiry, p) ← get_fixed 4 p
  (deleted, p) ← get_fixed 1 p
  (datatype, p) ← get_fixed 1 p
  some (
    record {
      seqno = seqno;
      cas = cas;
      value_size = value_size;
      flags = flags;
      expiry = expiry;
      deleted = deleted;
      datatype = datatype;
    },
    p,
  )

-- An optional field: read if its header bit is set, else left at its initial 0.
unfoldable pub get_optional : Bool → ℕ → List ℕ → Option (ℕ × List ℕ)
get_optional b n p = if b then get_fixed n p else some (0, p)

-- `hdr & bit`
abbrev pub has : ℕ → ℕ → Bool
has hdr bit = is_set (bit_and hdr bit)

-- The fields that the header announces, and the stores to `out`.
unfoldable pub decode_optionals : ℕ → ℕ → ℕ → ℕ → List ℕ → Option (DocMeta × List ℕ)
decode_optionals hdr seq c size p = do
  (f, p) ← get_optional (has hdr meta_has_flags) 4 p
  (e, p) ← get_optional (has hdr meta_has_expiry) 4 p
  (dt, p) ← get_optional (has hdr meta_has_datatype) 1 p
  some (
    record {
      seqno = seq;
      cas = c;
      value_size = size;
      flags = f;
      expiry = e;
      deleted = if has hdr meta_deleted then 1 else 0;
      datatype = dt;
    },
    p,
  )

-- The compact branch of `decode`, with the bytes that it does not look at.
unfoldable pub decode_compact : List ℕ → Option (DocMeta × List ℕ)
unfolding decode_optionals
decode_compact [] = none
decode_compact (hdr ∷ p) = do
  guard (hdr / 2 ^ meta_version_shift == meta_version)
  (seq, p) ← get_varint p
  (c, p) ← get_fixed 8 p
  (size, p) ← get_varint p
  guard (leb size 0xffff_ffff)
  decode_optionals hdr seq c size p

-- `DocMeta::decode(s, out)`: the meta, or `none` for the result `false`.
unfoldable pub decode : List ℕ → Option DocMeta
decode s =
    Option.map (λ r. r.0) (if length s == legacy_size then decode_legacy s else decode_compact s)

-- `DocMeta::decode(s)`, for callers that cannot fail.
unfoldable pub decode_or_zero : List ℕ → DocMeta
decode_or_zero s = Option.get_or (decode s) zero_meta

-- The callbacks that magma is given.
unfoldable pub meta_get_seq_num : List ℕ → ℕ
meta_get_seq_num s = (decode_or_zero s).seqno

unfoldable pub meta_get_value_size : List ℕ → ℕ
meta_get_value_size s = (decode_or_zero s).value_size

unfoldable pub meta_is_tombstone : List ℕ → Bool
meta_is_tombstone s = is_set (decode_or_zero s).deleted

unfoldable pub meta_get_history_timestamp : List ℕ → ℕ
meta_get_history_timestamp s = (decode_or_zero s).cas
