-- ===== src/Connection/Handlers.antt =====
-- The handlers of SET, DELETE and GET of server/connection.cc. A result `none` is a run that takes bytes
-- behind the request's body. Counters of requests and timestamps are left out.
pub mod Bounds
pub mod Encoding
pub mod Inside
use fluxkv.Base.{
  ℕ, zero, suc, ◌+◌, ◌-◌, ◌%◌, ◌^◌, ◌<◌, ◌≤◌, ◌≡◌, Bool, true, false, not, ◌&&◌, ◌||◌, List, [],
  ◌∷◌, ◌++◌, Option, none, some, length, take, drop, ltb, leb, ◌==◌, if◌then◌else◌, ◌>>=◌, ◌>>◌,
}
use fluxkv.Metadata.Fixed.{put_fixed}
use fluxkv.Protocol.{
  McbpHeader, swap, number_of, success, key_not_found, tmp_fail, append_empty_response,
  append_get_response,
}
use fluxkv.Cache.Ops.{CachedDoc}
use fluxkv.Engine.Request.{Request, new_request}
use fluxkv.Connection.Bucket.{Bucket}
use fluxkv.Connection.State.{Conn, Config, send_write_response}

-- `Slice(p + offset, n)` into a body.
unfoldable pub slice : List ℕ → ℕ → ℕ → Option (List ℕ)
slice body offset n =
    if leb (offset + n) (length body) then some (take n (drop offset body)) else none

-- `ntohl(*reinterpret_cast<const uint32_t*>(p + offset))`, behind its test on `extrasLen`.
unfoldable pub extra : Bool → List ℕ → ℕ → Option ℕ
unfolding slice
extra false body offset = some 0
extra true body offset = do bytes ← slice body offset 4; some (swap 4 (number_of bytes))

-- The request that `handleSet` fills in. `p` is a 32-bit subtraction on from the header's numbers.
unfoldable pub set_request : McbpHeader → List ℕ → Option Request
unfolding extra slice
set_request h [] = some (record new_request {
  opcode = h.opcode;
  vbucket = h.specific;
  opaque = h.opaque;
  cas = h.cas;
  datatype = h.datatype;
})
set_request h (b ∷ bs) = do
  flags ← extra (leb 4 h.extras_len) (b ∷ bs) 0
  expiry ← extra (leb 8 h.extras_len) (b ∷ bs) 4
  key ← slice (b ∷ bs) h.extras_len h.key_len
  value ←
      slice (b ∷ bs) (h.extras_len + h.key_len)
        ((h.body_len + 2 ^ 32 - h.extras_len - h.key_len) % 2 ^ 32)
  some (record new_request {
    opcode = h.opcode;
    vbucket = h.specific;
    opaque = h.opaque;
    cas = h.cas;
    datatype = h.datatype;
    flags = flags;
    expiry = expiry;
    key = key;
    value = value;
  })

-- The request that `handleDelete` and `handleGet` fill in, but for the `cas` that only `handleDelete` copies.
unfoldable pub key_request : McbpHeader → ℕ → List ℕ → Option Request
unfolding slice
key_request h cas [] =
    some
      (record new_request { opcode = h.opcode; vbucket = h.specific; opaque = h.opaque; cas = cas })
key_request h cas (b ∷ bs) = do
  key ← slice (b ∷ bs) h.extras_len h.key_len
  some (record new_request {
    opcode = h.opcode;
    vbucket = h.specific;
    opaque = h.opaque;
    cas = cas;
    key = key;
  })

abbrev pub inline_data : ℕ
inline_data = 128

module _ {W : Type 0} (b : Bucket W) (k : Config) where
  -- The write-through of a SET: a body that does not fit `inlineData` is shared with the cache.
  unfoldable pub cache_set : Request → ℕ → W → W
  cache_set r body_length w =
      if b.has_cache
      then (if leb body_length inline_data
          then b.cache_put r.vbucket r.key r.value r.flags r.expiry r.datatype false w
          else b.cache_put_shared r.vbucket r.key r.value r.flags r.expiry r.datatype false w)
      else w

  unfoldable pub cache_tombstone : Request → W → W
  cache_tombstone r w = if b.has_cache then b.cache_put r.vbucket r.key [] 0 0 0 true w else w

  unfoldable pub cache_undo : Request → W → W
  cache_undo r w = if b.has_cache then b.cache_erase r.vbucket r.key w else w

  -- The end of `handleSet` and of `handleDelete`; only the first stops reading when a write is refused.
  unfoldable pub stage_durable : Request → Conn W → Conn W
  unfolding send_write_response cache_undo
  stage_durable r c =
      let staged = b.stage_write r c.bucket in
      let waiting = record c {
        outstanding_requests = c.outstanding_requests + 1;
        bucket = staged.1;
      } in
      if staged.0
      then waiting
      else send_write_response k (record r { result_ok = false })
          (record waiting { tmp_fails = c.tmp_fails + 1; bucket = cache_undo r staged.1 })

  unfoldable pub stage_async : Bool → Request → Conn W → Conn W
  unfolding append_empty_response cache_undo
  stage_async stops r c =
      let staged = b.stage_write r c.bucket in
      if staged.0
      then record c {
        pending_write_buf = append_empty_response c.pending_write_buf r.opcode success r.opaque 0;
        bucket = staged.1;
      }
      else record c {
        pending_write_buf = append_empty_response c.pending_write_buf r.opcode tmp_fail r.opaque 0;
        tmp_fails = c.tmp_fails + 1;
        stage_full = c.stage_full || stops;
        bucket = cache_undo r staged.1;
      }

  unfoldable pub handle_set : McbpHeader → List ℕ → Conn W → Option (Conn W)
  unfolding set_request stage_durable stage_async cache_set
  handle_set h body c = do
    r ← set_request h body
    let cached = record c { bucket = cache_set r (length body) c.bucket }
    some (if b.is_durable then stage_durable r cached else stage_async true r cached)

  unfoldable pub handle_delete : McbpHeader → List ℕ → Conn W → Option (Conn W)
  unfolding key_request stage_durable stage_async cache_tombstone
  handle_delete h body c = do
    r ← key_request h h.cas body
    let cached = record c { bucket = cache_tombstone r c.bucket }
    some (if b.is_durable then stage_durable r cached else stage_async false r cached)

  -- The cached answer of a GET.
  unfoldable pub answer_cached : McbpHeader → CachedDoc → Conn W → Conn W
  unfolding append_empty_response append_get_response
  answer_cached h doc c =
      if doc.deleted
      then record c {
        pending_write_buf =
            append_empty_response c.pending_write_buf h.opcode key_not_found h.opaque 0;
      }
      else record c {
        pending_write_buf =
            append_get_response c.pending_write_buf h.opaque doc.seqno doc.flags doc.value
              doc.datatype;
      }

  unfoldable pub enqueue_get : McbpHeader → List ℕ → Conn W → Option (Conn W)
  unfolding key_request
  enqueue_get h body c = do
    r ← key_request h 0 body
    some (record c {
      outstanding_requests = c.outstanding_requests + 1;
      bucket = b.enqueue_read r c.bucket;
    })

  -- A body that is not null, with a cache.
  unfoldable pub get_cached : McbpHeader → List ℕ → Conn W → Option (Conn W)
  unfolding slice answer_cached enqueue_get
  get_cached h body c = do
    key ← slice body h.extras_len h.key_len
    let looked = b.cache_get h.specific key c.bucket
    let after = record c { bucket = looked.1 }
    elim looked.0 [ none ↦ enqueue_get h body after | some doc ↦ some (answer_cached h doc after) ]

  -- The prepared response, under a request's opaque.
  abbrev pub stamped : ℕ → List ℕ → List ℕ
  stamped opaque echo = take 12 echo ++ (put_fixed 4 opaque ++ drop 16 echo)

  unfoldable pub handle_get : McbpHeader → List ℕ → Conn W → Option (Conn W)
  unfolding get_cached enqueue_get
  handle_get h body c =
      if ltb 0 (length c.echo_response_buf)
      then some (record c {
        pending_write_buf = c.pending_write_buf ++ stamped h.opaque c.echo_response_buf;
      })
      else (if b.has_cache && ltb 0 (length body)
          then get_cached h body c
          else enqueue_get h body c)
