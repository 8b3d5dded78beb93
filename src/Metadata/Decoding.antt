-- ===== src/Metadata/Decoding.antt =====
-- `DocMeta::decode` on what the encoders write, on cut buffers and on any bytes.
use fluxkv.Base.{
  ℕ, ◌≡◌, ◌≢◌, refl, sym, ap, ◌∙◌, ◌⊎◌, inl, inr, List, [], ◌∷◌, ◌++◌, some, none, arith, length,
  length-append, ◌==◌, ne→==_false, Option-cases, Bool-cases, subst, ==_iff,
}
use fluxkv.Metadata.Codec.{
  DocMeta, IsDocMeta, is_set, encode, encode_compact, compact_fields, decode_legacy, decode_compact,
  decode, decode_or_zero, legacy_size, meta_get_seq_num, meta_get_value_size, meta_is_tombstone,
  meta_get_history_timestamp,
}
use fluxkv.Metadata.Codec.RoundTrip.{normal, decode_compact-compact_fields, decode_legacy-encode}
use fluxkv.Metadata.Codec.Shape.{length-encode, length-encode_compact}
use fluxkv.Metadata.Prefix.{decode_compact-append}
use fluxkv.Metadata.Range.{IsBytes, decode_compact-IsDocMeta, decode_legacy-IsDocMeta}
use mathlib.Core.List.{append-nil}
use fluxkv.Metadata.Total.{decode_legacy_whole}
use mathlib.Core.Option
use mathlib.Core.Option.{some-injective}

-- `decode` of a buffer of another length than the struct's takes the compact branch.
decode-compact :
    (s : List ℕ) → length s ≢ legacy_size → decode s ≡ Option.map (λ r. r.0) (decode_compact s)
unfolding decode
decode-compact s h = rw (ne→==_false _ _ h) refl

-- A buffer that starts with the fields of a compact meta, and is not of the legacy length, decodes to
-- that meta whatever follows the fields, with any non-zero `deleted` read as 1. The meta's fields fit
-- their C++ types.
pub decode-compact_fields :
    (m : DocMeta) (more : List ℕ)
    → IsDocMeta m
    → length (compact_fields m ++ more) ≢ legacy_size
    → decode (compact_fields m ++ more) ≡ some (normal m)
decode-compact_fields m more v h =
    rw (decode-compact _ h, decode_compact-compact_fields m more v) refl

-- `decode` of what `encodeCompact` wrote gives the meta back, for every meta whose fields fit their
-- C++ types, with any non-zero `deleted` read as 1.
pub decode-encode_compact :
    (m : DocMeta) → IsDocMeta m → decode (encode_compact m) ≡ some (normal m)
unfolding encode_compact
decode-encode_compact m v =
    let (_, _, long) = length-encode_compact m v in
    ground (
      arith,
      append-nil (compact_fields m),
      decode-compact_fields m [] v,
      decode-compact_fields m (0 ∷ []) v,
      length-append (compact_fields m) (0 ∷ []),
    )

-- `decode` of the legacy form, the struct's bytes, gives the same meta back, for every meta whose
-- fields fit their C++ types.
pub decode-encode : (m : DocMeta) → IsDocMeta m → decode (encode m) ≡ some m
unfolding decode
decode-encode m v =
    let whole : decode_legacy (encode m) ≡ some (m, []) =
      rw append-nil at (decode_legacy-encode m [] v) in
    rw (length-encode m, whole) refl

-- The callbacks that magma is given read the same numbers from either form of a meta whose fields fit
-- their C++ types.
pub meta_callbacks :
    (m : DocMeta) (s : List ℕ)
    → IsDocMeta m
    → (s ≡ encode m) ⊎ (s ≡ encode_compact m)
    → (meta_get_seq_num s ≡ m.seqno)
      × (meta_get_value_size s ≡ m.value_size)
      × (meta_is_tombstone s ≡ is_set m.deleted)
      × (meta_get_history_timestamp s ≡ m.cas)
unfolding meta_get_seq_num meta_get_value_size meta_is_tombstone meta_get_history_timestamp
    decode_or_zero
meta_callbacks m s v form = ground (arith, decode-encode m v, decode-encode_compact m v)

padded :
    (m : DocMeta)
    → (pad : List ℕ) × (encode_compact m ≡ compact_fields m ++ pad)
      × ((pad ≡ []) ⊎ ((length pad ≡ 1) × (length (compact_fields m) ≡ legacy_size)))
unfolding encode_compact
padded m = elim (Bool-cases (length (compact_fields m) == legacy_size)) [
  | inl full ↦ (0 ∷ [], rw full, inr (refl, (==_iff _ _).0 full))
  | inr other ↦ ([], rw (other, append-nil), inl refl)
]

-- The compact form of a meta whose fields fit their C++ types does not decode when it is cut short,
-- unless the cut leaves a buffer of the legacy length.
pub decode_cut :
    (m : DocMeta) (front back : List ℕ) (x : ℕ)
    → IsDocMeta m
    → encode_compact m ≡ front ++ (x ∷ back)
    → length front ≢ legacy_size
    → decode front ≡ none
decode_cut m front back x v e h =
    rw (decode-compact front h) (elim (Option-cases (decode_compact front)) [
      | inl stop ↦ rw stop
      | inr ((m', rest), read) ↦
          let (pad, written, kind) = padded m in
          let whole : decode_compact (front ++ (x ∷ back)) ≡ some (normal m, pad) =
            rw (← e, written) (decode_compact-compact_fields m pad v) in
          let longer = decode_compact-append front (x ∷ back) m' rest read in
          let left : rest ++ (x ∷ back) ≡ pad =
            ap (λ (r : DocMeta × List ℕ). r.1) (some-injective _ _ (sym longer ∙ whole)) in
          absurd (
            ground (
              arith,
              ap length left,
              length-append rest (x ∷ back),
              ap length (sym written ∙ e),
              length-append (compact_fields m) pad,
              length-append front (x ∷ back),
            ))
    ])

-- Whatever `decode` accepts, from bytes of any origin, fits the fields' C++ types.
pub decode-IsDocMeta : (s : List ℕ) (m : DocMeta) → IsBytes s → decode s ≡ some m → IsDocMeta m
unfolding decode
decode-IsDocMeta s m bytes e = elim (Bool-cases (length s == legacy_size)) [
  | inl legacy ↦ elim (Option-cases (decode_legacy s)) [
    | inl stop ↦ absurd (ground arith)
    | inr ((m', rest), read) ↦
        subst IsDocMeta (ground arith) (decode_legacy-IsDocMeta s m' rest bytes read).0
  ]
  | inr compact ↦ elim (Option-cases (decode_compact s)) [
    | inl stop ↦ absurd (ground arith)
    | inr ((m', rest), read) ↦
        subst IsDocMeta (ground arith) (decode_compact-IsDocMeta s m' rest bytes read).0
  ]
]

-- A legacy buffer, of bytes and of the struct's length, always decodes, to a meta whose fields fit their
-- C++ types and whose struct is this buffer.
pub encode-decode :
    (s : List ℕ)
    → IsBytes s
    → length s ≡ legacy_size
    → (m : DocMeta) × (decode s ≡ some m) × IsDocMeta m × (encode m ≡ s)
unfolding decode
encode-decode s bytes long =
    let (m, read, same) = decode_legacy_whole s bytes long in
    (m, rw (long, read) refl, (decode_legacy-IsDocMeta s m [] bytes read).0, same)
