-- ===== src/Connection/Loop/Answers/Reads.antt =====
-- A GET is answered from the cache, or is counted and queued for a reader.
use fluxkv.Base.{
  ℕ, ◌<◌, ◌≡◌, refl, ap, sym, false, ◌&&◌, List, [], Option, none, some, length, ltb, arith,
}
use fluxkv.Protocol.{McbpHeader, op_get, key_not_found}
use fluxkv.Protocol.Response.{append_get_response-wire}
use fluxkv.Cache.Ops.{CachedDoc}
use fluxkv.Connection.Bucket.{Bucket}
use fluxkv.Connection.State.{Conn, Config}
use fluxkv.Connection.Handlers.{
  slice, key_request, handle_get, get_cached, enqueue_get, answer_cached,
}
use fluxkv.Connection.Sasl.{Crypto}
use fluxkv.Base.{Each, Each-bind, Each-some, if_both}
use fluxkv.Connection.Loop.Answers.{
  HasBytes, IsServed, append_empty_response-wire, document_response, empty_response, output,
  queued_response, waiting, IsFrom, key_request-IsFrom, CacheCalls, untouched, looked, to_reader,
}

module _ {W : Type 0} (b : Bucket W) (k : Config) (y : Crypto) where
  enqueue_get-IsServed :
      (h : McbpHeader) (body : List ℕ) (c : Conn W)
      → Each (IsServed b h.opcode h.opaque c) (enqueue_get b k h body c)
  unfolding enqueue_get output
  enqueue_get-IsServed h body c =
      Each-bind (IsServed b h.opcode h.opaque c) (key_request h 0 body) _ λ r e.
        let from = Each-some (IsFrom h) (key_request h 0 body) r (key_request-IsFrom h 0 body) e in
        record {
          kept = refl;
          answered =
              waiting refl (omega arith)
                (to_reader r c.bucket (untouched c.bucket) from.0 from.1 refl);
        }

  answer_cached-IsServed :
      (h : McbpHeader) (doc : CachedDoc) (c : Conn W) (w : W)
      → h.opcode ≡ op_get
      → doc.datatype < 256
      → IsServed b h.opcode h.opaque c (answer_cached b k h doc (record c { bucket = w }))
  unfolding answer_cached
  answer_cached-IsServed h doc c w gets small =
      if_both (IsServed b h.opcode h.opaque c) doc.deleted _ _
        (queued_response b _ _ c _ (empty_response h.opcode key_not_found h.opaque 0) refl refl refl
          (append_empty_response-wire _ _ _ _ _) refl refl)
        (queued_response b _ _ c _ (document_response h.opaque doc) (sym gets) refl refl
          (append_get_response-wire _ _ _ _ _ _ small) refl refl)

  looked_up-IsServed :
      (h : McbpHeader) (body : List ℕ) (c : Conn W) (w : W) (o : Option CachedDoc)
      → CacheCalls b c.bucket w
      → h.opcode ≡ op_get
      → Each (λ doc. doc.datatype < 256) o
      → Each (IsServed b h.opcode h.opaque c) (elim o [
        | none ↦ enqueue_get b k h body (record c { bucket = w })
        | some doc ↦ some (answer_cached b k h doc (record c { bucket = w }))
      ])
  unfolding enqueue_get output
  looked_up-IsServed h body c w none calls gets small =
      Each-bind (IsServed b h.opcode h.opaque c) (key_request h 0 body) _ λ r e.
        let from = Each-some (IsFrom h) (key_request h 0 body) r (key_request-IsFrom h 0 body) e in
        record {
          kept = refl;
          answered = waiting refl (omega arith) (to_reader r w calls from.0 from.1 refl);
        }
  looked_up-IsServed h body c w (some doc) calls gets small =
      answer_cached-IsServed h doc c w gets small

  get_cached-IsServed :
      (h : McbpHeader) (body : List ℕ) (c : Conn W)
      → HasBytes b
      → h.opcode ≡ op_get
      → Each (IsServed b h.opcode h.opaque c) (get_cached b k h body c)
  unfolding get_cached
  get_cached-IsServed h body c bytes gets =
      Each-bind (IsServed b h.opcode h.opaque c) (slice body h.extras_len h.key_len) _ λ key e.
        looked_up-IsServed h body c _ _ (looked c.bucket h.specific key) gets
          (bytes h.specific key c.bucket)

  pub handle_get-IsServed :
      (h : McbpHeader) (body : List ℕ) (c : Conn W)
      → HasBytes b
      → c.echo_response_buf ≡ []
      → h.opcode ≡ op_get
      → Each (IsServed b h.opcode h.opaque c) (handle_get b k h body c)
  unfolding handle_get
  handle_get-IsServed h body c bytes quiet gets =
      let no_echo : ltb 0 (length c.echo_response_buf) ≡ false = ap (λ e. ltb 0 (length e)) quiet in
      rw no_echo (
        if_both (Each (IsServed b h.opcode h.opaque c)) (b.has_cache && ltb 0 (length body)) _ _
          (get_cached-IsServed h body c bytes gets) (enqueue_get-IsServed h body c))
