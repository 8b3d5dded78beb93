-- ===== src/Connection/Loop/Answers.antt =====
-- Every request that is dispatched is answered once: with a response now, or by the engine later.
pub mod Writes
pub mod Reads
pub mod Replies
pub mod Dispatch
use fluxkv.Base.{
  Each, Each-bind, Each-some, if_both, ℕ, zero, suc, ◌+◌, ◌-◌, ◌%◌, ◌^◌, ◌<◌, ◌≤◌, ◌≡◌, ◌≢◌, ◌⊎◌,
  inl, inr, refl, ap, sym, subst, ◌∙◌, Bool, true, false, not, ◌&&◌, ◌||◌, List, [], ◌∷◌, ◌++◌,
  Option, none, some, length, length-drop, take, drop, ltb, leb, ◌==◌, if◌then◌else◌, arith,
  Bool-cases, Option-cases, ◌>>=◌,
}
use fluxkv.Metadata.Fixed.{put_fixed}
use fluxkv.Protocol.{
  McbpHeader, op_get, op_set, op_delete, op_noop, op_hello, op_sasl_list_mechs, op_sasl_auth,
  op_sasl_step, op_select_bucket, op_get_cluster_config, op_get_error_map, unknown_command,
  auth_continue, success, key_not_found, tmp_fail, internal_error, append_empty_response,
  append_get_response, build_response, build_empty_response, swap,
}
use fluxkv.Protocol.Response.{Response, wire, append_response-wire, append_get_response-wire}
use fluxkv.Engine.Request.{Request}
use fluxkv.Cache.Ops.{CachedDoc}
use fluxkv.Connection.Bucket.{Bucket}
use fluxkv.Connection.State.{
  Conn, Config, schedule_flush, flush_pending, send_write_response, with_write_response,
  write_chain,
}
use fluxkv.Connection.Handlers.{
  slice, extra, set_request, key_request, stage_durable, stage_async, cache_undo, handle_set,
  handle_delete, handle_get, get_cached, enqueue_get, answer_cached,
}
use fluxkv.Connection.Sasl.{
  Crypto, handle_sasl_list_mechs, handle_sasl_auth, handle_sasl_step, mech_and_data, same_text,
  plain, mechs, with_scram, server_first, server_final, get_scram_algo,
}
use fluxkv.Connection.Bootstrap.{
  handle_hello, handle_noop, handle_text, send_unknown_command, supported,
}
use fluxkv.Connection.Loop.{dispatch}
use mathlib.Core.List.{append_assoc, append-nil, flatten}

-- The bytes that are sent and that wait to be sent.
unfoldable pub output : {W : Type 0} → Conn W → List ℕ
output c = flatten c.sent ++ c.pending_write_buf

-- What a handler may call on the cache before it hands a request to the engine.
pub data CacheCalls {W : Type 0} (b : Bucket W) : W → W → Type 0 where
  untouched : (w : W) → CacheCalls b w w
  looked : (w : W) (vbucket : ℕ) (key : List ℕ) → CacheCalls b w (b.cache_get vbucket key w).1
  put :
      (w : W) (vbucket : ℕ) (key value : List ℕ) (flags expiry datatype : ℕ) (deleted : Bool)
      → CacheCalls b w (b.cache_put vbucket key value flags expiry datatype deleted w)
  put_shared :
      (w : W) (vbucket : ℕ) (key value : List ℕ) (flags expiry datatype : ℕ) (deleted : Bool)
      → CacheCalls b w (b.cache_put_shared vbucket key value flags expiry datatype deleted w)
  also : (w u v : W) → CacheCalls b w u → CacheCalls b u v → CacheCalls b w v

-- A request with this opcode and this opaque is with the engine: a read in `EnqueueRead`, or, in the durable
-- mode, a write that `StageWrite` admitted.
pub data Handed {W : Type 0} (b : Bucket W) (opcode opaque : ℕ) (w d : W) : Type 0 where
  to_reader :
      (r : Request) (u : W)
      → CacheCalls b w u
      → r.opcode ≡ opcode
      → r.opaque ≡ opaque
      → d ≡ b.enqueue_read r u
      → Handed b opcode opaque w d
  to_writer :
      (r : Request) (u : W)
      → CacheCalls b w u
      → r.opcode ≡ opcode
      → r.opaque ≡ opaque
      → b.is_durable ≡ true
      → (b.stage_write r u).0 ≡ true
      → d ≡ (b.stage_write r u).1
      → Handed b opcode opaque w d

Handed-after :
    {W : Type 0} (b : Bucket W) (opcode opaque : ℕ) (w v d : W)
    → CacheCalls b w v
    → Handed b opcode opaque v d
    → Handed b opcode opaque w d
Handed-after b opcode opaque w v d first (to_reader r u then_calls e f now) =
    to_reader r u (also w v u first then_calls) e f now
Handed-after b opcode opaque w v d first (to_writer r u then_calls e f durable took now) =
    to_writer r u (also w v u first then_calls) e f durable took now

-- What became of a request with this opcode and this opaque.
pub data Answered {W : Type 0} (b : Bucket W) (opcode opaque : ℕ) (c d : Conn W) : Type 0 where
  queued :
      (r : Response)
      → r.opcode ≡ opcode
      → r.opaque ≡ opaque
      → output d ≡ output c ++ wire r
      → d.outstanding_requests ≡ c.outstanding_requests
      → Answered b opcode opaque c d
  chained :
      (r : Response)
      → r.opcode ≡ opcode
      → r.opaque ≡ opaque
      → d.sent ≡ c.sent ++ (wire r ∷ [])
      → d.pending_write_buf ≡ c.pending_write_buf
      → d.outstanding_requests ≡ c.outstanding_requests
      → Answered b opcode opaque c d
  waiting :
      output d ≡ output c
      → d.outstanding_requests ≡ suc c.outstanding_requests
      → Handed b opcode opaque c.bucket d.bucket
      → Answered b opcode opaque c d

-- `readBuf_` is left alone by what handles a request.
pub record IsServed {W : Type 0} (b : Bucket W) (opcode opaque : ℕ) (c d : Conn W) : Type 0 where
  pub kept : d.read_buf ≡ c.read_buf
  pub answered : Answered b opcode opaque c d

pub flatten-append :
    (xs : List (List ℕ)) (ys : List ℕ) → flatten (xs ++ (ys ∷ [])) ≡ flatten xs ++ ys
unfolding flatten
flatten-append [] ys = append-nil ys
flatten-append (x ∷ xs) ys =
    ap (◌++◌ x) (flatten-append xs ys) ∙ sym (append_assoc x (flatten xs) ys)

abbrev pub empty_response : ℕ → ℕ → ℕ → ℕ → Response
empty_response opcode status opaque cas = record {
  opcode = opcode;
  status = status;
  datatype = 0;
  opaque = opaque;
  cas = cas;
  extras = [];
  key = [];
  value = [];
}

pub append_empty_response-wire :
    (out : List ℕ) (opcode status opaque cas : ℕ)
    → append_empty_response out opcode status opaque cas
      ≡ out ++ wire (empty_response opcode status opaque cas)
unfolding append_empty_response
append_empty_response-wire out opcode status opaque cas =
    append_response-wire out opcode status opaque cas [] [] []

-- A flush moves bytes and nothing else that is looked at here.
pub record IsFlush {W : Type 0} (c d : Conn W) : Type 0 where
  pub same_output : output d ≡ output c
  pub same_input : d.read_buf ≡ c.read_buf
  pub same_outstanding : d.outstanding_requests ≡ c.outstanding_requests

pub flush_pending-IsFlush : {W : Type 0} (c : Conn W) → IsFlush c (flush_pending c)
unfolding flush_pending output
flush_pending-IsFlush c =
    if_both (IsFlush c) (c.closing || leb (length c.pending_write_buf) 0) c _
      (record { same_output = refl; same_input = refl; same_outstanding = refl })
      (record {
        same_output = append-nil _ ∙ flatten-append c.sent c.pending_write_buf;
        same_input = refl;
        same_outstanding = refl;
      })

pub schedule_flush-IsFlush : {W : Type 0} (k : Config) (c : Conn W) → IsFlush c (schedule_flush k c)
unfolding schedule_flush output
schedule_flush-IsFlush {W} k c =
    let same : (t s : Bool) → IsFlush c (record c { flush_scheduled = s; flush_timer = t }) =
      λ t s. record { same_output = refl; same_input = refl; same_outstanding = refl } in
    let moved = flush_pending-IsFlush (record c { flush_timer = false; flush_scheduled = false }) in
    if_both (IsFlush c) c.closing _ _ (same c.flush_timer c.flush_scheduled) (
      if_both (IsFlush c) c.flush_scheduled _ _
        (if_both (IsFlush c) (c.flush_timer && leb k.flush_bytes (length c.pending_write_buf)) _ _
          (record {
            same_output = moved.same_output;
            same_input = moved.same_input;
            same_outstanding = moved.same_outstanding;
          })
          (same c.flush_timer c.flush_scheduled))
        (if_both (IsFlush c)
          (ltb 0 k.flush_delay_us && not (leb k.flush_bytes (length c.pending_write_buf))) _ _
          (same true true) (same c.flush_timer true)))

-- A response behind what waits to be sent.
pub queued_response :
    {W : Type 0} (b : Bucket W) (opcode opaque : ℕ) (c d : Conn W) (r : Response)
    → r.opcode ≡ opcode
    → r.opaque ≡ opaque
    → d.sent ≡ c.sent
    → d.pending_write_buf ≡ c.pending_write_buf ++ wire r
    → d.read_buf ≡ c.read_buf
    → d.outstanding_requests ≡ c.outstanding_requests
    → IsServed b opcode opaque c d
unfolding output
queued_response b opcode opaque c d r e f same more kept out = record {
  kept = kept;
  answered =
      queued r e f
        (rw (same, more) (sym (append_assoc (flatten c.sent) c.pending_write_buf (wire r)))) out;
}

pub if_false : {A : Type 0} (t : Bool) (x y : A) → t ≡ false → (if t then x else y) ≡ y
if_false true x y h = cc
if_false false x y h = refl

pub write_status : Request → ℕ
write_status r = if r.result_ok then success else internal_error

-- The response of the engine, to a request that is counted.
pub send_write_response-output :
    {W : Type 0} (k : Config) (r : Request) (c : Conn W)
    → c.closing ≡ false
    → output (send_write_response k r c)
      ≡ output c ++ wire (empty_response r.opcode (write_status r) r.opaque r.result_seqno)
unfolding send_write_response output write_status
send_write_response-output k r c up =
    ap output (if_false c.closing c (schedule_flush k (with_write_response r c)) up)
    ∙ (schedule_flush-IsFlush k (with_write_response r c)).same_output
    ∙ ap (◌++◌ (flatten c.sent)) (
        append_empty_response-wire c.pending_write_buf r.opcode
          (if r.result_ok then success else internal_error) r.opaque r.result_seqno)
    ∙ sym (append_assoc (flatten c.sent) c.pending_write_buf _)

pub send_write_response-read_buf :
    {W : Type 0} (k : Config) (r : Request) (c : Conn W)
    → (send_write_response k r c).read_buf ≡ c.read_buf
unfolding send_write_response
send_write_response-read_buf k r c =
    if_both (λ d. d.read_buf ≡ c.read_buf) c.closing c _ refl
      (schedule_flush-IsFlush k (with_write_response r c)).same_input

pub send_write_response-outstanding :
    {W : Type 0} (k : Config) (r : Request) (c : Conn W)
    → (send_write_response k r c).outstanding_requests ≡ c.outstanding_requests - 1
unfolding send_write_response
send_write_response-outstanding k r c = refl

-- What the cache was called for before.
pub IsServed-bucket :
    {W : Type 0} (b : Bucket W) (opcode opaque : ℕ) (c d : Conn W) (w : W)
    → CacheCalls b c.bucket w
    → IsServed b opcode opaque (record c { bucket = w }) d
    → IsServed b opcode opaque c d
unfolding output
IsServed-bucket b opcode opaque c d w calls s = record { kept = s.kept; answered = go s.answered }
  where
    go : Answered b opcode opaque (record c { bucket = w }) d → Answered b opcode opaque c d
    go (queued r e f more out) = queued r e f more out
    go (chained r e f more same out) = chained r e f more same out
    go (waiting same out handed) =
        waiting same out (Handed-after b opcode opaque c.bucket w d.bucket calls handed)

-- The datatypes of the cache are bytes.
abbrev pub HasBytes : {W : Type 0} → Bucket W → Type 0
HasBytes {W} b =
    (vbucket : ℕ) (key : List ℕ) (w : W)
    → Each (λ doc. doc.datatype < 256) (b.cache_get vbucket key w).0

abbrev pub document_response : ℕ → CachedDoc → Response
document_response opaque doc = record {
  opcode = op_get;
  status = success;
  datatype = doc.datatype;
  opaque = opaque;
  cas = doc.seqno;
  extras = put_fixed 4 (swap 4 doc.flags);
  key = [];
  value = doc.value;
}

abbrev pub IsFrom : McbpHeader → Request → Type 0
IsFrom h r = (r.opcode ≡ h.opcode) × (r.opaque ≡ h.opaque)

pub set_request-IsFrom : (h : McbpHeader) (body : List ℕ) → Each (IsFrom h) (set_request h body)
unfolding set_request
set_request-IsFrom h [] = (refl, refl)
set_request-IsFrom h (b ∷ bs) =
    Each-bind (IsFrom h) (extra (leb 4 h.extras_len) (b ∷ bs) 0) _ λ flags _.
      Each-bind (IsFrom h) (extra (leb 8 h.extras_len) (b ∷ bs) 4) _ λ expiry _.
        Each-bind (IsFrom h) (slice (b ∷ bs) h.extras_len h.key_len) _ λ key _.
          Each-bind (IsFrom h)
            (slice (b ∷ bs) (h.extras_len + h.key_len)
              ((h.body_len + 2 ^ 32 - h.extras_len - h.key_len) % 2 ^ 32))
            _ λ value _. (refl, refl)

pub key_request-IsFrom :
    (h : McbpHeader) (cas : ℕ) (body : List ℕ) → Each (IsFrom h) (key_request h cas body)
unfolding key_request
key_request-IsFrom h cas [] = (refl, refl)
key_request-IsFrom h cas (b ∷ bs) =
    Each-bind (IsFrom h) (slice (b ∷ bs) h.extras_len h.key_len) _ λ key _. (refl, refl)
