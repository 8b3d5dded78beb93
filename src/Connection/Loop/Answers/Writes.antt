-- ===== src/Connection/Loop/Answers/Writes.antt =====
-- A SET or a DELETE is answered, or is counted and staged.
use fluxkv.Base.{ℕ, ◌+◌, ◌≡◌, refl, ◌∙◌, Bool, true, false, List, [], leb, if◌then◌else◌, arith}
use fluxkv.Protocol.{McbpHeader, success, tmp_fail, internal_error}
use fluxkv.Engine.Request.{Request}
use fluxkv.Connection.Bucket.{Bucket}
use fluxkv.Connection.State.{Conn, Config}
use fluxkv.Connection.Handlers.{
  set_request, key_request, stage_durable, stage_async, cache_undo, cache_set, cache_tombstone,
  handle_set, handle_delete,
}
use fluxkv.Connection.Sasl.{Crypto}
use fluxkv.Base.{Each, Each-bind, Each-some, if_both}
use fluxkv.Connection.Loop.Answers.{
  IsServed-bucket, IsFrom, IsServed, append_empty_response-wire, empty_response, key_request-IsFrom,
  output, queued_response, send_write_response-output, send_write_response-outstanding,
  send_write_response-read_buf, set_request-IsFrom, write_status, queued, waiting, CacheCalls,
  untouched, put, put_shared, to_writer,
}

-- A branch knows its test.
if_knowing :
    {A : Type 0} (P : A → Type 0) (t : Bool) (x y : A)
    → (t ≡ true → P x)
    → (t ≡ false → P y)
    → P (if t then x else y)
if_knowing P true x y hx hy = hx refl
if_knowing P false x y hx hy = hy refl

module _ {W : Type 0} (b : Bucket W) (k : Config) (y : Crypto) where
  stage_async-IsServed :
      (stops : Bool) (r : Request) (c : Conn W)
      → IsServed b r.opcode r.opaque c (stage_async b k stops r c)
  unfolding stage_async
  stage_async-IsServed stops r c =
      if_both (IsServed b r.opcode r.opaque c) (b.stage_write r c.bucket).0 _ _
        (queued_response b _ _ c _ (empty_response r.opcode success r.opaque 0) refl refl refl
          (append_empty_response-wire _ _ _ _ _) refl refl)
        (queued_response b _ _ c _ (empty_response r.opcode tmp_fail r.opaque 0) refl refl refl
          (append_empty_response-wire _ _ _ _ _) refl refl)

  stage_durable-IsServed :
      (r : Request) (c : Conn W)
      → b.is_durable ≡ true
      → c.closing ≡ false
      → IsServed b r.opcode r.opaque c (stage_durable b k r c)
  unfolding stage_durable output write_status
  stage_durable-IsServed r c durable up =
      let failed = record r { result_ok = false } in
      let staged = b.stage_write r c.bucket in
      let refused : Conn W = record c {
        outstanding_requests = c.outstanding_requests + 1;
        tmp_fails = c.tmp_fails + 1;
        bucket = cache_undo b k r staged.1;
      } in
      if_knowing (IsServed b r.opcode r.opaque c) staged.0 _ _
        (λ took. record {
          kept = refl;
          answered =
              waiting refl (omega arith)
                (to_writer r c.bucket (untouched c.bucket) refl refl durable took refl);
        })
        (λ full. record {
          kept = send_write_response-read_buf k failed refused;
          answered =
              queued (empty_response r.opcode internal_error r.opaque r.result_seqno) refl refl
                (send_write_response-output k failed refused up)
                (send_write_response-outstanding k failed refused ∙ omega arith);
        })

  stage-IsServed :
      (h : McbpHeader) (stops : Bool) (r : Request) (c : Conn W) (w : W)
      → IsFrom h r
      → CacheCalls b c.bucket w
      → c.closing ≡ false
      → IsServed b h.opcode h.opaque c (
          if b.is_durable
          then stage_durable b k r (record c { bucket = w })
          else stage_async b k stops r (record c { bucket = w }))
  stage-IsServed h stops r c w from calls up =
      let back : (d : Conn W)
          → IsServed b r.opcode r.opaque (record c { bucket = w }) d
          → IsServed b r.opcode r.opaque c d =
        λ d. IsServed-bucket b r.opcode r.opaque c d w calls in
      rw (← from.0, ← from.1)
        (if_knowing (IsServed b r.opcode r.opaque c) b.is_durable _ _
          (λ durable. back _ (stage_durable-IsServed r (record c { bucket = w }) durable up))
          (λ async. back _ (stage_async-IsServed stops r (record c { bucket = w }))))

  cache_set-CacheCalls : (r : Request) (n : ℕ) (w : W) → CacheCalls b w (cache_set b k r n w)
  unfolding cache_set
  cache_set-CacheCalls r n w =
      if_both (CacheCalls b w) b.has_cache _ _
        (if_both (CacheCalls b w) (leb n 128) _ _
          (put w r.vbucket r.key r.value r.flags r.expiry r.datatype false)
          (put_shared w r.vbucket r.key r.value r.flags r.expiry r.datatype false))
        (untouched w)

  cache_tombstone-CacheCalls : (r : Request) (w : W) → CacheCalls b w (cache_tombstone b k r w)
  unfolding cache_tombstone
  cache_tombstone-CacheCalls r w =
      if_both (CacheCalls b w) b.has_cache _ _ (put w r.vbucket r.key [] 0 0 0 true) (untouched w)

  pub handle_set-IsServed :
      (h : McbpHeader) (body : List ℕ) (c : Conn W)
      → c.closing ≡ false
      → Each (IsServed b h.opcode h.opaque c) (handle_set b k h body c)
  unfolding handle_set
  handle_set-IsServed h body c up =
      Each-bind (IsServed b h.opcode h.opaque c) (set_request h body) _ λ r e.
        stage-IsServed h true r c _
          (Each-some (IsFrom h) (set_request h body) r (set_request-IsFrom h body) e)
          (cache_set-CacheCalls r _ c.bucket) up

  pub handle_delete-IsServed :
      (h : McbpHeader) (body : List ℕ) (c : Conn W)
      → c.closing ≡ false
      → Each (IsServed b h.opcode h.opaque c) (handle_delete b k h body c)
  unfolding handle_delete
  handle_delete-IsServed h body c up =
      Each-bind (IsServed b h.opcode h.opaque c) (key_request h h.cas body) _ λ r e.
        stage-IsServed h false r c _
          (Each-some (IsFrom h) (key_request h h.cas body) r (key_request-IsFrom h h.cas body) e)
          (cache_tombstone-CacheCalls r c.bucket) up
