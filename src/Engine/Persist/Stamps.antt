-- ===== src/Engine/Persist/Stamps.antt =====
-- The sequence numbers and the metadata of the operations that `executePersist` builds.
use fluxkv.Base.{
  ℕ, ◌+◌, ◌%◌, ◌^◌, ◌<◌, ◌≡◌, refl, ◌∙◌, inl, inr, Bool, List, [], ◌∷◌, some, arith, length, ◌==◌,
  Bool-cases,
}
use fluxkv.Metadata.Codec.{IsDocMeta, decode}
use fluxkv.Metadata.Decoding.{decode-encode, decode-encode_compact}
use fluxkv.Protocol.{op_delete}
use fluxkv.Engine.Request.{Request}
use fluxkv.Engine.Persist.{Settings, Magma, DocCache, doc_meta, meta_bytes, build_ops}

-- The C++ types of the fields that a write carries into its metadata.
pub record IsWrite (r : Request) : Type 0 where
  pub flags_u32 : r.flags < 2 ^ 32
  pub expiry_u32 : r.expiry < 2 ^ 32
  pub datatype_u8 : r.datatype < 2 ^ 8

-- For a write whose flags, expiry and datatype fit their C++ types, and a sequence number and a time of 64
-- bits, `decode` gives back, from the bytes that the writer hands to magma in either form, the metadata of
-- the write: in both settings of `gCompactMeta`, for deletes and for updates.
pub decode-meta_bytes :
    (compact_meta : Bool) (cas seqno : ℕ) (r : Request)
    → IsWrite r
    → cas < 2 ^ 64
    → seqno < 2 ^ 64
    → decode (meta_bytes compact_meta (doc_meta cas seqno r)) ≡ some (doc_meta cas seqno r)
unfolding meta_bytes doc_meta
decode-meta_bytes compact_meta cas seqno r v hc hs =
    let m = doc_meta cas seqno r in
    let fits : IsDocMeta m = record {
      seqno_u64 = hs;
      cas_u64 = hc;
      value_size_u32 = omega arith;
      flags_u32 = v.flags_u32;
      expiry_u32 = v.expiry_u32;
      deleted_u8 = ground arith;
      datatype_u8 = v.datatype_u8;
    } in
    elim (Bool-cases compact_meta) [
      | inr legacy ↦ rw legacy (decode-encode m fits)
      | inl compact ↦ elim (Bool-cases (r.opcode == op_delete)) [
        | inl delete ↦ rw compact (decode-encode_compact m fits ∙ rw delete refl)
        | inr update ↦ rw compact (decode-encode_compact m fits ∙ rw update refl)
      ]
    ]

-- Above `last`, and each above the one before.
abbrev pub IsIncreasing : ℕ → List Request → Type 0
IsIncreasing last [] = Unit {0}
IsIncreasing last (r ∷ rs) = (last < r.result_seqno) × IsIncreasing r.result_seqno rs

module _ {O S C : Type 0} (k : Settings) (magma : Magma O S) (doc_cache : DocCache C) where
  -- With sequence numbers left for the batch in 64 bits: they grow strictly along the batch, all above the
  -- vbucket's last one, and the vbucket's last one afterwards is larger by the size of the batch.
  pub build_ops-IsIncreasing :
      (cas last : ℕ) (rs : List Request)
      → last + length rs < 2 ^ 64
      → IsIncreasing last (build_ops k magma doc_cache cas last rs).0
        × ((build_ops k magma doc_cache cas last rs).2 ≡ last + length rs)
  unfolding build_ops
  build_ops-IsIncreasing cas last [] h = (tt, omega arith)
  build_ops-IsIncreasing cas last (r ∷ rs) h =
      let next : (last + 1) % 2 ^ 64 ≡ last + 1 = omega arith in
      let (rest, end) = build_ops-IsIncreasing cas (last + 1) rs (omega arith) in
      rw next ((omega arith, rest), end ∙ omega arith)
