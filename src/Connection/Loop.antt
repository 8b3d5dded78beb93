-- ===== src/Connection/Loop.antt =====
-- `dispatch`, `serveCachedGets`, `parseAndDispatch` and the callbacks around them, of server/connection.cc.
-- A result `none` is a run that takes bytes behind a request's body.
pub mod Answers
pub mod Input
pub mod Fuel
pub mod Cached
use fluxkv.Base.{
  ℕ, zero, suc, ◌+◌, Bool, true, false, ◌&&◌, ◌||◌, List, [], ◌++◌, Option, none, some, length,
  take, drop, ltb, leb, ◌==◌, if◌then◌else◌, ◌>>=◌, ◌>>◌, guard,
}
use fluxkv.Protocol.{
  McbpHeader, ntoh, pull_header, header_size, request_magic, op_get, op_set, op_delete, op_noop,
  op_hello, op_sasl_list_mechs, op_sasl_auth, op_sasl_step, op_select_bucket, op_get_cluster_config,
  op_get_error_map, key_not_found, append_empty_response, append_get_response,
}
use fluxkv.Connection.Bucket.{Bucket, CopyResult, miss, tombstone, hit}
use fluxkv.Connection.State.{Conn, Config, schedule_flush, flush_pending, pause_for_queue, destroy}
use fluxkv.Connection.Handlers.{handle_set, handle_delete, handle_get}
use fluxkv.Connection.Bootstrap.{handle_hello, handle_noop, handle_text, send_unknown_command}
use fluxkv.Connection.Sasl.{Crypto, handle_sasl_list_mechs, handle_sasl_auth, handle_sasl_step}
use fluxkv.Connection.Parse.{incomplete, bad_magic, bad_opcode, frame, parse_frame}

-- A complete GET at the front of the bytes, its key inside of its body: the header, the key, the length of
-- the request and the bytes behind it. The tests of `serveCachedGets` and of `prefetchAhead`.
unfoldable pub get_frame : List ℕ → Option (McbpHeader × List ℕ × ℕ × List ℕ)
get_frame bytes = do
  (raw, rest) ← pull_header bytes
  let h = ntoh raw
  guard ((raw.magic == request_magic) && (raw.opcode == op_get))
  guard (leb h.body_len (length rest) && leb (h.extras_len + h.key_len) h.body_len)
  some (h, take h.key_len (drop h.extras_len rest), header_size + h.body_len, drop h.body_len rest)

module _ {W : Type 0} (b : Bucket W) (k : Config) (y : Crypto) where
  -- Past a GET that is answered the timer is armed.
  abbrev pub arm : Conn W → Conn W
  arm c = if c.flush_scheduled then c else schedule_flush k c

  -- The answer of `serveCachedGets` to what `GetCopy` returned, on a connection that has its state.
  unfoldable pub answer_copy : McbpHeader → CopyResult → Conn W → Option (Conn W)
  unfolding append_empty_response append_get_response
  answer_copy h miss c = none
  answer_copy h tombstone c = some (record c {
    pending_write_buf = append_empty_response c.pending_write_buf h.opcode key_not_found h.opaque 0;
  })
  answer_copy h (hit doc) c = some (record c {
    pending_write_buf =
        append_get_response c.pending_write_buf h.opaque doc.seqno doc.flags doc.value doc.datatype;
  })

  -- The loop of `serveCachedGets`, with fuel for the bytes of the front buffer: the bytes it answered, and
  -- the connection. A buffer that is full to send ends the run.
  unfoldable pub serve : ℕ → List ℕ → Conn W → ℕ × Conn W
  unfolding get_frame answer_copy schedule_flush
  serve zero bytes c = (0, c)
  serve (suc fuel) bytes c = elim (get_frame bytes) [
    | none ↦ (0, c)
    | some (h, key, len, rest) ↦
        let looked = b.cache_get_copy h.specific key c.bucket in
        elim (answer_copy h looked.0 (record c { bucket = looked.1 })) [
          | none ↦ (0, record c { bucket = looked.1 })
          | some answered ↦
              let next = serve fuel rest (arm answered) in
              if leb k.flush_bytes (length (arm answered).pending_write_buf)
              then (len, arm answered)
              else (len + next.0, next.1)
        ]
  ]

  -- `serveCachedGets`, with the length of the front buffer of `readBuf_`.
  unfoldable pub serve_cached_gets : ℕ → Conn W → ℕ × Conn W
  unfolding serve schedule_flush
  serve_cached_gets front c =
      let run = serve (length c.read_buf) (take front c.read_buf) c in
      if ltb 0 run.0
      then (run.0, schedule_flush k (record run.1 { read_buf = drop run.0 c.read_buf }))
      else run

  unfoldable pub dispatch : McbpHeader → List ℕ → Conn W → Option (Conn W)
  unfolding handle_set handle_delete handle_get handle_hello handle_noop handle_text
      send_unknown_command handle_sasl_list_mechs handle_sasl_auth handle_sasl_step
  dispatch h body c =
      if h.opcode == op_hello
      then handle_hello h body c
      else if h.opcode == op_sasl_list_mechs
      then some (handle_sasl_list_mechs h c)
      else if h.opcode == op_sasl_auth
      then handle_sasl_auth y h body c
      else if h.opcode == op_sasl_step
      then handle_sasl_step y h body c
      else if h.opcode == op_select_bucket
      then some (handle_noop h c)
      else if h.opcode == op_get_cluster_config
      then some (handle_text k.cluster_config h c)
      else if h.opcode == op_get_error_map
      then some (handle_text k.error_map h c)
      else if h.opcode == op_noop
      then some (handle_noop h c)
      else if h.opcode == op_set
      then handle_set b k h body c
      else if h.opcode == op_delete
      then handle_delete b k h body c
      else if h.opcode == op_get
      then handle_get b k h body c
      else some (send_unknown_command h c)

  -- The result of a step of the loop: whether it goes on, and the connection.
  abbrev pub go_on : Option (Conn W) → Option (Bool × Conn W)
  go_on o = do c ← o; some (true, c)

  -- `parseAndDispatch` on a request that is complete.
  unfoldable pub dispatch_frame : ℕ → McbpHeader → List ℕ → List ℕ → Conn W → Option (Bool × Conn W)
  unfolding dispatch serve_cached_gets handle_get
  dispatch_frame front h body rest c =
      let token = b.take_write_token c.bucket in
      let served = serve_cached_gets front c in
      if h.opcode == op_set
      then (if token.0
          then go_on (dispatch h body (record c { bucket = token.1; read_buf = rest }))
          else some (false, record c { bucket = token.1; stage_full = true }))
      else if (h.opcode == op_get) && ltb 0 (length c.echo_response_buf)
      then go_on (handle_get b k h [] (record c { read_buf = rest }))
      else if (h.opcode == op_get) && b.has_cache
      then (if ltb 0 served.0
          then some (true, served.1)
          else go_on (dispatch h body (record served.1 { read_buf = rest })))
      else go_on (dispatch h body (record c { read_buf = rest }))

  -- `parseAndDispatch`
  unfoldable pub parse_and_dispatch : ℕ → Conn W → Option (Bool × Conn W)
  unfolding parse_frame dispatch_frame destroy
  parse_and_dispatch front c = elim (parse_frame c.read_buf) [
    | incomplete ↦ some (false, c)
    | bad_magic ↦ some (false, destroy (record c { bad_magic = c.bad_magic + 1; read_buf = [] }))
    | bad_opcode ↦ some (false, destroy (record c { bad_opcode = c.bad_opcode + 1; read_buf = [] }))
    | frame h body rest ↦ dispatch_frame front h body rest c
  ]

  -- The loop around it, with the lengths of the front buffers as they come.
  unfoldable pub run_loop : ℕ → (ℕ → ℕ) → Conn W → Option (Conn W)
  unfolding parse_and_dispatch
  run_loop zero front c = some c
  run_loop (suc fuel) front c =
      if c.closing || c.stage_full
      then some c
      else elim (parse_and_dispatch (front (length c.read_buf)) c) [
        | none ↦ none
        | some (goes_on, next) ↦
            let rest = run_loop fuel front next in if goes_on then rest else some next
      ]

  -- The end of a wake: `FlushStaged`, the pause when a queue is full, and the responses.
  unfoldable pub end_wake : Conn W → Conn W
  unfolding pause_for_queue schedule_flush flush_pending
  end_wake c =
      let staged = record c { bucket = b.flush_staged c.bucket } in
      let paused = if staged.stage_full then pause_for_queue staged else staged in
      if ltb 0 k.flush_delay_us
      then (if ltb 0 (length paused.pending_write_buf) then schedule_flush k paused else paused)
      else flush_pending paused

  -- `readDataAvailable`, with the bytes that arrived.
  unfoldable pub read_data_available : (ℕ → ℕ) → List ℕ → Conn W → Option (Conn W)
  unfolding run_loop end_wake
  read_data_available front chunk c = do
    let arrived = record c { read_buf = c.read_buf ++ chunk }
    parsed ← run_loop (suc (length arrived.read_buf)) front arrived
    some (end_wake parsed)
