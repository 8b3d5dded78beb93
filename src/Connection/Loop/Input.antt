-- ===== src/Connection/Loop/Input.antt =====
-- The handlers leave `readBuf_` alone.
use fluxkv.Base.{
  ℕ, ◌+◌, ◌-◌, ◌≡◌, refl, Bool, true, false, ◌&&◌, List, [], Option, none, some, length, ltb, ◌==◌,
  if◌then◌else◌,
}
use fluxkv.Protocol.{
  McbpHeader, op_get, op_set, op_delete, op_noop, op_hello, op_sasl_list_mechs, op_sasl_auth,
  op_sasl_step, op_select_bucket, op_get_cluster_config, op_get_error_map,
}
use fluxkv.Engine.Request.{Request}
use fluxkv.Cache.Ops.{CachedDoc}
use fluxkv.Connection.Bucket.{Bucket}
use fluxkv.Connection.State.{Conn, Config}
use fluxkv.Connection.Handlers.{
  slice, set_request, key_request, stage_durable, stage_async, cache_undo, handle_set,
  handle_delete, handle_get, get_cached, enqueue_get, answer_cached,
}
use fluxkv.Connection.Sasl.{
  Crypto, handle_sasl_list_mechs, handle_sasl_auth, handle_sasl_step, mech_and_data, same_text,
  plain, with_scram,
}
use fluxkv.Connection.Bootstrap.{handle_hello, handle_noop, handle_text, send_unknown_command}
use fluxkv.Base.{Each, Each-bind, if_both}
use fluxkv.Connection.Loop.Answers.{send_write_response-read_buf}
use fluxkv.Connection.Loop.{dispatch}

abbrev pub Same : {W : Type 0} → Conn W → Conn W → Type 0
Same c d = d.read_buf ≡ c.read_buf

-- The connection that there is has this input.
abbrev pub Leaves : {W : Type 0} → List ℕ → Option (Conn W) → Type 0
Leaves {W} buf = Each (λ (d : Conn W). d.read_buf ≡ buf)

module _ {W : Type 0} (b : Bucket W) (k : Config) (y : Crypto) where
  stage_durable-read_buf :
      (r : Request) (c : Conn W) → (stage_durable b k r c).read_buf ≡ c.read_buf
  unfolding stage_durable
  stage_durable-read_buf r c =
      let staged = b.stage_write r c.bucket in
      let refused : Conn W = record c {
        outstanding_requests = c.outstanding_requests + 1;
        tmp_fails = c.tmp_fails + 1;
        bucket = cache_undo b k r staged.1;
      } in
      if_both (Same c) staged.0 _ _ refl
        (send_write_response-read_buf k (record r { result_ok = false }) refused)

  stage_async-read_buf :
      (s : Bool) (r : Request) (c : Conn W) → (stage_async b k s r c).read_buf ≡ c.read_buf
  unfolding stage_async
  stage_async-read_buf s r c = if_both (Same c) (b.stage_write r c.bucket).0 _ _ refl refl

  handle_set-Leaves :
      (h : McbpHeader) (body : List ℕ) (c : Conn W) → Leaves c.read_buf (handle_set b k h body c)
  unfolding handle_set
  handle_set-Leaves h body c = Each-bind (Same c) (set_request h body) _ λ r e.
      if_both (Same c) b.is_durable _ _ (stage_durable-read_buf r _) (stage_async-read_buf true r _)

  handle_delete-Leaves :
      (h : McbpHeader) (body : List ℕ) (c : Conn W) → Leaves c.read_buf (handle_delete b k h body c)
  unfolding handle_delete
  handle_delete-Leaves h body c = Each-bind (Same c) (key_request h h.cas body) _ λ r e.
      if_both (Same c) b.is_durable _ _ (stage_durable-read_buf r _)
        (stage_async-read_buf false r _)

  enqueue_get-Leaves :
      (h : McbpHeader) (body : List ℕ) (c : Conn W) → Leaves c.read_buf (enqueue_get b k h body c)
  unfolding enqueue_get
  enqueue_get-Leaves h body c = Each-bind (Same c) (key_request h 0 body) _ λ r e. refl

  answer_cached-read_buf :
      (h : McbpHeader) (doc : CachedDoc) (c : Conn W)
      → (answer_cached b k h doc c).read_buf ≡ c.read_buf
  unfolding answer_cached
  answer_cached-read_buf h doc c = if_both (Same c) doc.deleted _ _ refl refl

  looked_up-Leaves :
      (h : McbpHeader) (body : List ℕ) (c : Conn W) (o : Option CachedDoc)
      → Leaves c.read_buf
          (elim o [ none ↦ enqueue_get b k h body c | some doc ↦ some (answer_cached b k h doc c) ])
  looked_up-Leaves h body c none = enqueue_get-Leaves h body c
  looked_up-Leaves h body c (some doc) = answer_cached-read_buf h doc c

  get_cached-Leaves :
      (h : McbpHeader) (body : List ℕ) (c : Conn W) → Leaves c.read_buf (get_cached b k h body c)
  unfolding get_cached
  get_cached-Leaves h body c = Each-bind (Same c) (slice body h.extras_len h.key_len) _ λ key e.
      looked_up-Leaves h body (record c { bucket = (b.cache_get h.specific key c.bucket).1 })
        (b.cache_get h.specific key c.bucket).0

  pub handle_get-Leaves :
      (h : McbpHeader) (body : List ℕ) (c : Conn W) → Leaves c.read_buf (handle_get b k h body c)
  unfolding handle_get
  handle_get-Leaves h body c =
      if_both (Leaves c.read_buf) (ltb 0 (length c.echo_response_buf)) _ _ refl (
        if_both (Leaves c.read_buf) (b.has_cache && ltb 0 (length body)) _ _
          (get_cached-Leaves h body c) (enqueue_get-Leaves h body c))

  handle_hello-Leaves :
      (h : McbpHeader) (body : List ℕ) (c : Conn W) → Leaves c.read_buf (handle_hello h body c)
  unfolding handle_hello
  handle_hello-Leaves h body c =
      Each-bind (Same c)
        (if ltb 0 (length body) && ltb h.key_len h.body_len
          then slice body h.key_len (h.body_len - h.key_len)
          else some [])
        _ λ features e. refl

  handle_sasl_auth-Leaves :
      (h : McbpHeader) (body : List ℕ) (c : Conn W)
      → Leaves c.read_buf (handle_sasl_auth y h body c)
  unfolding handle_sasl_auth with_scram
  handle_sasl_auth-Leaves h body c =
      Each-bind (Same c) (mech_and_data h body) _
        λ m e. if_both (Same c) (same_text m.0 plain) _ _ refl refl

  handle_sasl_step-Leaves :
      (h : McbpHeader) (body : List ℕ) (c : Conn W)
      → Leaves c.read_buf (handle_sasl_step y h body c)
  unfolding handle_sasl_step
  handle_sasl_step-Leaves h body c = Each-bind (Same c) (mech_and_data h body) _ λ m e. refl

  pub dispatch-Leaves :
      (h : McbpHeader) (body : List ℕ) (c : Conn W) → Leaves c.read_buf (dispatch b k y h body c)
  unfolding dispatch handle_noop handle_text handle_sasl_list_mechs send_unknown_command
  dispatch-Leaves h body c =
      let P = Leaves c.read_buf in
      if_both P (h.opcode == op_hello) _ _ (handle_hello-Leaves h body c) (
        if_both P (h.opcode == op_sasl_list_mechs) _ _ refl (
          if_both P (h.opcode == op_sasl_auth) _ _ (handle_sasl_auth-Leaves h body c) (
            if_both P (h.opcode == op_sasl_step) _ _ (handle_sasl_step-Leaves h body c) (
              if_both P (h.opcode == op_select_bucket) _ _ refl (
                if_both P (h.opcode == op_get_cluster_config) _ _ refl (
                  if_both P (h.opcode == op_get_error_map) _ _ refl (
                    if_both P (h.opcode == op_noop) _ _ refl (
                      if_both P (h.opcode == op_set) _ _ (handle_set-Leaves h body c) (
                        if_both P (h.opcode == op_delete) _ _ (handle_delete-Leaves h body c) (
                          if_both P (h.opcode == op_get) _ _ (handle_get-Leaves h body c)
                            refl))))))))))
