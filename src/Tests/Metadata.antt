-- ===== src/Tests/Metadata.antt =====
-- Runs of server/metadata.h, and its theorems at concrete metas.
use fluxkv.Base.{
  ℕ, ◌^◌, ◌≤◌, ◌≡◌, ◌≢◌, refl, inr, true, List, [], ◌∷◌, ◌++◌, some, none, arith, length, replicate,
}
use fluxkv.Metadata.Varint.{put_varint, get_varint}
use fluxkv.Metadata.Varint.RoundTrip
use fluxkv.Metadata.Fixed.{put_fixed, get_fixed}
use fluxkv.Metadata.Codec.{
  DocMeta, IsDocMeta, encode, encode_compact, compact_fields, header, put_optional, get_optional,
  decode, decode_compact, legacy_size, max_compact_size, meta_get_seq_num, meta_get_value_size,
  meta_is_tombstone, meta_get_history_timestamp,
}
use fluxkv.Metadata.Codec.RoundTrip.{normal}
use fluxkv.Metadata.Codec.Shape
use fluxkv.Metadata.Decoding

-- A tombstone with flags and a datatype, whose fields take 22 bytes.
abbrev sample : DocMeta
sample = record {
  seqno = 300;
  cas = 77;
  value_size = 1000;
  flags = 0x0400_0000;
  expiry = 0;
  deleted = 7;
  datatype = 2;
}

sample-IsDocMeta : IsDocMeta sample
sample-IsDocMeta = omega arith

abbrev sample_bytes : List ℕ
sample_bytes = 45 ∷ 172 ∷ 2 ∷ 77 ∷ 0 ∷ 0 ∷ 0 ∷ 0 ∷ 0 ∷ 0 ∷ 0 ∷ 232 ∷ 7 ∷ 0 ∷ 0 ∷ 0 ∷ 4 ∷ 2 ∷ []

sample_run : encode_compact sample ≡ sample_bytes
unfolding encode_compact compact_fields header put_optional put_varint put_fixed
sample_run = refl

-- A meta whose fields take exactly 30 bytes is padded to 31.
abbrev padded_sample : DocMeta
padded_sample = record sample { seqno = 2 ^ 63; expiry = 5 }

padded_run : length (encode_compact padded_sample) ≡ 31
unfolding encode_compact compact_fields header put_optional put_varint put_fixed
padded_run = refl

get_varint-put_varint_example : get_varint (put_varint 300 ++ (9 ∷ [])) ≡ some (300, 9 ∷ [])
get_varint-put_varint_example = RoundTrip.get_varint-put_varint 300 (9 ∷ []) (omega arith)

decode-encode_compact_example : decode (encode_compact sample) ≡ some (normal sample)
decode-encode_compact_example = Decoding.decode-encode_compact sample sample-IsDocMeta

meta_callbacks_example :
    (meta_get_seq_num (encode_compact sample) ≡ 300)
    × (meta_get_value_size (encode_compact sample) ≡ 1000)
    × (meta_is_tombstone (encode_compact sample) ≡ true)
    × (meta_get_history_timestamp (encode_compact sample) ≡ 77)
meta_callbacks_example = Decoding.meta_callbacks sample _ sample-IsDocMeta (inr refl)

decode_cut_example : decode (45 ∷ 172 ∷ 2 ∷ 77 ∷ []) ≡ none
decode_cut_example =
    Decoding.decode_cut sample (45 ∷ 172 ∷ 2 ∷ 77 ∷ []) _ 0 sample-IsDocMeta sample_run
      (omega arith)

sample_decodes : decode sample_bytes ≡ some (normal sample)
unfolding decode decode_compact get_varint get_fixed get_optional
sample_decodes = refl

decode-IsDocMeta_example : IsDocMeta (normal sample)
decode-IsDocMeta_example =
    Decoding.decode-IsDocMeta sample_bytes (normal sample) (omega arith) sample_decodes

length-encode_compact_example :
    (11 ≤ length (encode_compact sample))
    × (length (encode_compact sample) ≤ max_compact_size)
    × (length (encode_compact sample) ≢ legacy_size)
length-encode_compact_example = Shape.length-encode_compact sample sample-IsDocMeta

-- The struct's bytes, all zero but the first.
abbrev legacy_bytes : List ℕ
legacy_bytes = 5 ∷ replicate 29 0

encode-decode_example :
    (m : DocMeta) × (decode legacy_bytes ≡ some m) × IsDocMeta m × (encode m ≡ legacy_bytes)
encode-decode_example = Decoding.encode-decode legacy_bytes (omega arith) refl
