-- ===== src/Engine/Gets.antt =====
-- How a batch of reads is answered in server/engine.cc: the single `Get` of `executeRead`, and the batches of
-- `executeReadMulti` and `submitReadsAsync`, which ask magma once for each key, with `completeGets` and
-- `fillCache`. The hints of the seqno index are left out. What magma answers for a key is a parameter.
pub mod Dedupe
pub mod ReadBack
use fluxkv.Base.{
  ℕ, ◌+◌, Bool, true, false, not, ◌&&◌, List, [], ◌∷◌, ◌++◌, length, ltb, ◌==◌, if◌then◌else◌,
}
use fluxkv.Cache.Entry.{bytes_eq}
use fluxkv.Metadata.Codec.{DocMeta, zero_meta, decode_or_zero}
use fluxkv.Engine.Request.{Request}

-- What magma hands back for a key: `IsOK` and `IsOkDocNotFound` of the status, the meta and the value.
pub record Fetched : Type 0 where
  pub is_ok : Bool
  pub is_ok_doc_not_found : Bool
  pub meta : List ℕ
  pub value : List ℕ

-- `PutIfAbsent` of the bucket's cache, if it has one: vbucket, key, value, seqno, flags, expiry, datatype.
pub record FillCache (C : Type 0) : Type 0 where
  pub has_cache : Bool
  pub put_if_absent : ℕ → List ℕ → List ℕ → ℕ → ℕ → ℕ → ℕ → C → C

abbrev pub is_hit : Fetched → Bool
is_hit d = d.is_ok && not d.is_ok_doc_not_found

-- `fillCache`
unfoldable pub fill_cache : {C : Type 0} → FillCache C → ℕ → Request → DocMeta → List ℕ → C → C
fill_cache cache vbid r dm value c =
    if cache.has_cache
    then cache.put_if_absent vbid r.key value dm.seqno dm.flags dm.expiry dm.datatype c
    else c

-- What the single `Get` stores to its request.
unfoldable pub complete_single : Fetched → Request → Request
unfolding decode_or_zero
complete_single d r =
    let dm = decode_or_zero d.meta in
    if is_hit d
    then record r {
      result_ok = d.is_ok;
      result_flags = dm.flags;
      result_seqno = dm.seqno;
      result_datatype = dm.datatype;
      response_buf = if ltb 0 (length d.value) then d.value else r.response_buf;
    }
    else record r { result_ok = if d.is_ok_doc_not_found then false else d.is_ok }

-- The branch of `executeRead` for one request.
unfoldable pub read_single : {C : Type 0} → FillCache C → ℕ → Fetched → Request → C → Request × C
unfolding complete_single fill_cache decode_or_zero
read_single cache vbid d r c = (
  complete_single d r,
  if is_hit d then fill_cache cache vbid r (decode_or_zero d.meta) d.value c else c,
)

-- One round of the loop of `completeGets`, with `dm` from before it.
unfoldable pub complete_one : Fetched → DocMeta → Request → Request
complete_one d dm r =
    let told = record r { result_ok = d.is_ok } in
    if is_hit d
    then (let flagged = record told { result_flags = dm.flags; result_seqno = dm.seqno } in
        let filled =
          if ltb 0 (length d.value) then record flagged { response_buf = d.value } else flagged in
        record filled { result_datatype = dm.datatype })
    else (if d.is_ok_doc_not_found then record told { result_ok = false } else told)

-- The loop of `completeGets`, with the requests in the order in which they are answered.
unfoldable pub complete_loop :
    {C : Type 0} → FillCache C → ℕ → Fetched → DocMeta → List Request → C → List Request × C
unfolding complete_one fill_cache
complete_loop cache vbid d dm [] c = ([], c)
complete_loop cache vbid d dm (r ∷ rs) c =
    let filled = if is_hit d then fill_cache cache vbid r dm d.value c else c in
    let (rest, last) = complete_loop cache vbid d dm rs filled in (complete_one d dm r ∷ rest, last)

-- `completeGets`
unfoldable pub complete_gets :
    {C : Type 0} → FillCache C → ℕ → Fetched → List Request → C → List Request × C
unfolding complete_loop decode_or_zero
complete_gets cache vbid d rs c =
    complete_loop cache vbid d (if is_hit d then decode_or_zero d.meta else zero_meta) rs c

-- `KeyReqs` with the key of its operation: the requests that wait for it.
pub record KeyReqs : Type 0 where
  pub key : List ℕ
  pub reqs : List Request

-- The slot of a request in `byKey`: a new operation for a new key.
unfoldable pub add_request : Request → List KeyReqs → List KeyReqs
unfolding bytes_eq
add_request r [] = record { key = r.key; reqs = r ∷ [] } ∷ []
add_request r (slot ∷ slots) =
    let rest = add_request r slots in
    if bytes_eq slot.key r.key
    then record slot { reqs = slot.reqs ++ (r ∷ []) } ∷ slots
    else slot ∷ rest

-- The loop that fills `keyReqs`, one operation for each key.
unfoldable pub group_by_key : List Request → List KeyReqs → List KeyReqs
unfolding add_request
group_by_key [] slots = slots
group_by_key (r ∷ rs) slots = group_by_key rs (add_request r slots)

-- The callbacks of the operations, one after the other.
unfoldable pub answer_slots :
    {C : Type 0} → FillCache C → ℕ → (List ℕ → Fetched) → List KeyReqs → C → List Request × C
unfolding complete_gets
answer_slots cache vbid fetch [] c = ([], c)
answer_slots cache vbid fetch (slot ∷ slots) c =
    let d = fetch slot.key in
    let (front, filled) = complete_gets cache vbid d slot.reqs c in
    let (rest, last) = answer_slots cache vbid fetch slots filled in (front ++ rest, last)

-- A batch of reads.
unfoldable pub read_batch :
    {C : Type 0} → FillCache C → ℕ → (List ℕ → Fetched) → List Request → C → List Request × C
unfolding group_by_key answer_slots
read_batch cache vbid fetch batch c = answer_slots cache vbid fetch (group_by_key batch []) c
