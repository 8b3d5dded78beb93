-- ===== src/Connection/State.antt =====
-- The state of `Connection` of server/connection.h that its loop works on, and how it sends. Direct sends
-- (`gDirectSend`) are off, and the connection does not migrate.
use fluxkv.Base.{
  ℕ, ◌-◌, Bool, true, false, not, ◌&&◌, ◌||◌, List, [], ◌∷◌, ◌++◌, length, ltb, leb, ◌==◌,
  if◌then◌else◌,
}
use fluxkv.Protocol.{append_empty_response, success, internal_error}
use fluxkv.Engine.Request.{Request}

-- `W` is the state of the bucket behind the connection; `sent` is what `socket_` was given, in order.
pub record Conn (W : Type 0) : Type 0 where
  pub read_buf : List ℕ
  pub pending_write_buf : List ℕ
  pub sent : List (List ℕ)
  pub echo_response_buf : List ℕ
  pub closing : Bool
  pub deleted : Bool
  pub stage_full : Bool
  pub read_paused : Bool
  pub flush_scheduled : Bool
  pub flush_timer : Bool
  pub outstanding_requests : ℕ
  pub scram_server_nonce : List ℕ
  pub scram_salted_password : List ℕ
  pub scram_auth_message : List ℕ
  pub bad_magic : ℕ
  pub bad_opcode : ℕ
  pub tmp_fails : ℕ
  pub bucket : W

-- `flushDelayUs` and `flushBytes`, and the strings that the server is built with.
pub record Config : Type 0 where
  pub flush_delay_us : ℕ
  pub flush_bytes : ℕ
  pub cluster_config : List ℕ
  pub error_map : List ℕ

-- `flushPending`
unfoldable pub flush_pending : {W : Type 0} → Conn W → Conn W
flush_pending c =
    if c.closing || leb (length c.pending_write_buf) 0
    then c
    else record c { sent = c.sent ++ (c.pending_write_buf ∷ []); pending_write_buf = [] }

-- `scheduleFlush`
unfoldable pub schedule_flush : {W : Type 0} → Config → Conn W → Conn W
unfolding flush_pending
schedule_flush k c =
    let big = leb k.flush_bytes (length c.pending_write_buf) in
    if c.closing
    then c
    else (if c.flush_scheduled
        then (if c.flush_timer && big
            then flush_pending (record c { flush_timer = false; flush_scheduled = false })
            else c)
        else (if ltb 0 k.flush_delay_us && not big
            then record c { flush_scheduled = true; flush_timer = true }
            else record c { flush_scheduled = true }))

-- `FlushTimeout::timeoutExpired` and `FlushLoopCb::runLoopCallback`
unfoldable pub run_flush : {W : Type 0} → Conn W → Conn W
unfolding flush_pending
run_flush c = flush_pending (record c { flush_scheduled = false; flush_timer = false })

-- `writeChainLocked`
abbrev pub write_chain : {W : Type 0} → List ℕ → Conn W → Conn W
write_chain buf c = record c { sent = c.sent ++ (buf ∷ []) }

-- `destroy`
unfoldable pub destroy : {W : Type 0} → Conn W → Conn W
destroy c = if c.closing then c else record c {
  closing = true;
  read_paused = false;
  flush_scheduled = false;
  deleted = leb c.outstanding_requests 0;
}

-- `pauseForQueue`
unfoldable pub pause_for_queue : {W : Type 0} → Conn W → Conn W
pause_for_queue c =
    if c.closing || c.read_paused
    then record c { stage_full = false }
    else record c { stage_full = false; read_paused = true }

-- The response of a write, behind what waits to be sent.
abbrev pub with_write_response : {W : Type 0} → Request → Conn W → Conn W
with_write_response r c = record c {
  pending_write_buf =
      append_empty_response c.pending_write_buf r.opcode
        (if r.result_ok then success else internal_error) r.opaque r.result_seqno;
}

-- `sendWriteResponse`, with `onDrained`: a connection that is closing is deleted with its last request.
unfoldable pub send_write_response : {W : Type 0} → Config → Request → Conn W → Conn W
unfolding schedule_flush append_empty_response
send_write_response k r c =
    let answered = if c.closing then c else schedule_flush k (with_write_response r c) in
    record answered {
      outstanding_requests = c.outstanding_requests - 1;
      deleted = c.deleted || (c.closing && (c.outstanding_requests == 1));
    }
