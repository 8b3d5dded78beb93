-- ===== src/Engine/Gets/ReadBack.antt =====
-- What was written comes back: the writer's operations, read by the reader.
use fluxkv.Base.{
  ℕ, ◌^◌, ◌<◌, ◌≡◌, refl, ap, inl, inr, Bool, true, false, [], arith, length, ltb, List-cases,
  if◌then◌else◌,
}
use fluxkv.Metadata.Codec.{decode_or_zero}
use fluxkv.Engine.Request.{Request}
use fluxkv.Engine.Persist.{doc_meta, meta_bytes}
use fluxkv.Engine.Persist.Stamps.{IsWrite, decode-meta_bytes}
use fluxkv.Engine.Gets.{Fetched, FillCache, fill_cache, complete_single, read_single}

-- What magma hands back for a key whose newest write is stored.
abbrev pub stored : Bool → ℕ → ℕ → Request → Fetched
stored compact_meta cas seqno w = record {
  is_ok = true;
  is_ok_doc_not_found = false;
  meta = meta_bytes compact_meta (doc_meta cas seqno w);
  value = w.value;
}

-- A write whose flags, expiry and datatype fit their C++ types, with a sequence number and a time of 64 bits,
-- in either form of its metadata: when magma hands it back, a read that came with an empty response buffer is
-- answered with the write's value, flags, datatype and sequence number, and the cache, if there is one, is
-- filled with them and the write's expiry.
pub read_single-stored :
    {C : Type 0} (cache : FillCache C) (vbid : ℕ) (compact_meta : Bool) (cas seqno : ℕ)
    (w r : Request) (c : C)
    → IsWrite w
    → cas < 2 ^ 64
    → seqno < 2 ^ 64
    → r.response_buf ≡ []
    → read_single cache vbid (stored compact_meta cas seqno w) r c ≡ (
      record r {
        result_ok = true;
        result_flags = w.flags;
        result_seqno = seqno;
        result_datatype = w.datatype;
        response_buf = w.value;
      },
      if cache.has_cache
          then cache.put_if_absent vbid r.key w.value seqno w.flags w.expiry w.datatype c
          else c,
    )
unfolding read_single complete_single fill_cache decode_or_zero doc_meta
read_single-stored cache vbid compact_meta cas seqno w r c v hc hs empty =
    let back = decode-meta_bytes compact_meta cas seqno w v hc hs in
    elim (List-cases w.value) [
      | inl no_value ↦ rw (back, no_value, empty) refl
      | inr (x, xs, some_value) ↦
          let some_bytes : ltb 0 (length w.value) ≡ true = ground (arith, ap length some_value) in
          rw (back, some_bytes) refl
    ]
