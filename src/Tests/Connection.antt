-- ===== src/Tests/Connection.antt =====
-- Runs of server/connection.cc, and its theorems at concrete connections and requests.
use fluxkv.Base.{
  ℕ, ◌+◌, ◌<◌, ◌≡◌, ◌↔◌, refl, true, false, List, [], ◌∷◌, ◌++◌, some, none, arith, length, ltb,
  if◌then◌else◌,
}
use fluxkv.Metadata.Fixed.{put_fixed}
use fluxkv.Protocol.{McbpHeader, hton, header_bytes, append_get_response, append_empty_response}
use fluxkv.Engine.Request.{Request, new_request}
use fluxkv.Connection.Bucket.{Bucket, miss}
use fluxkv.Connection.State.{Conn, Config}
use fluxkv.Connection.Sasl.{Crypto}
use fluxkv.Connection.Handlers.Bounds.{IsBody}
use fluxkv.Connection.Handlers.Encoding.{SetRequest, set_body, set_header}
use fluxkv.Connection.Handlers.Inside
use fluxkv.Connection.Handlers.Inside.{handle_data}
use fluxkv.Connection.Handlers.Encoding
use fluxkv.Connection.Bootstrap.Echo
use fluxkv.Connection.Bootstrap.{new_echo_response}
use fluxkv.Connection.Loop.Answers.Dispatch
use fluxkv.Connection.Loop.Fuel
use fluxkv.Connection.Loop.{run_loop}
use fluxkv.Connection.Loop.Cached
use fluxkv.Connection.Loop.Cached.{shard_get, shard_get_copy}
use fluxkv.Cache.Ops.{ReadStats, put}
use fluxkv.Cache.Machine.{new_shard}
use fluxkv.Cache.Shard.{Shard}
use fluxkv.Connection.Direct.{
  Sender, took, IsSent, joined, all_iov, direct_iov, handed, write_direct, append_answers,
}
use fluxkv.Connection.Direct.Stream
use fluxkv.Connection.Handlers.{set_request, handle_get}

-- A bucket without a cache, whose queue takes two requests.
abbrev small_bucket : Bucket (List Request)
small_bucket = record {
  has_cache = false;
  is_durable = false;
  take_write_token = λ w. (true, w);
  stage_write = λ r w. (ltb (length w) 2, if ltb (length w) 2 then r ∷ w else w);
  enqueue_read = λ r w. r ∷ w;
  flush_staged = λ w. w;
  cache_put = λ _ _ _ _ _ _ _ w. w;
  cache_put_shared = λ _ _ _ _ _ _ _ w. w;
  cache_erase = λ _ _ w. w;
  cache_get = λ _ _ w. (none, w);
  cache_get_copy = λ _ _ w. (miss, w);
}

abbrev config : Config
config = record { flush_delay_us = 0; flush_bytes = 65536; cluster_config = []; error_map = [] }

abbrev crypto : Crypto
crypto = record {
  pbkdf2_hmac = λ _ p _ _. p;
  hmac = λ _ k _. k;
  base64 = λ s. s;
  nonce_suffix = 65 ∷ [];
}

abbrev fresh : Conn (List Request)
fresh = record {
  read_buf = [];
  pending_write_buf = [];
  sent = [];
  echo_response_buf = [];
  closing = false;
  deleted = false;
  stage_full = false;
  read_paused = false;
  flush_scheduled = false;
  flush_timer = false;
  outstanding_requests = 0;
  scram_server_nonce = [];
  scram_salted_password = [];
  scram_auth_message = [];
  bad_magic = 0;
  bad_opcode = 0;
  tmp_fails = 0;
  bucket = [];
}

abbrev set_sample : SetRequest
set_sample = record {
  vbucket = 3;
  opaque = 7;
  cas = 0;
  datatype = 1;
  flags = 0x0200_0001;
  expiry = 60;
  key = 107 ∷ 49 ∷ [];
  value = 118 ∷ [];
}

abbrev noop_sample : McbpHeader
noop_sample = record {
  magic = 0x80;
  opcode = 0x0a;
  key_len = 0;
  extras_len = 0;
  datatype = 0;
  specific = 0;
  body_len = 0;
  opaque = 9;
  cas = 0;
}

set_request-set_body_example :
    set_request (set_header set_sample) (set_body set_sample)
    ≡ some (record new_request {
      opcode = 1;
      vbucket = 3;
      opaque = 7;
      cas = 0;
      datatype = 1;
      flags = 0x0200_0001;
      expiry = 60;
      key = 107 ∷ 49 ∷ [];
      value = 118 ∷ [];
    })
set_request-set_body_example =
    Encoding.set_request-set_body set_sample (omega arith) (omega arith) (omega arith) (omega arith)

-- A GET whose header says that its key has four bytes, in a body of two.
abbrev long_key : McbpHeader
long_key = record {
  magic = 0x80;
  opcode = 0;
  key_len = 4;
  extras_len = 0;
  datatype = 0;
  specific = 0;
  body_len = 2;
  opaque = 5;
  cas = 0;
}

long_key-IsBody : IsBody long_key (107 ∷ 49 ∷ [])
long_key-IsBody = record {
  same_length = refl;
  not_empty = omega arith;
  u32 = omega arith;
  extras_u8 = omega arith;
  key_u16 = omega arith;
}

handle_data-IsBody_example :
    (handle_data small_bucket config long_key (107 ∷ 49 ∷ []) fresh ≡ none) ↔ (2 < 0 + 4)
handle_data-IsBody_example =
    Inside.handle_data-IsBody small_bucket config long_key (107 ∷ 49 ∷ []) fresh refl
      long_key-IsBody

abbrev echoing : Conn (List Request)
echoing = record fresh { echo_response_buf = new_echo_response (118 ∷ []) }

handle_get-new_echo_response_example :
    handle_get small_bucket config long_key (107 ∷ 49 ∷ []) echoing
    ≡ some
        (record echoing { pending_write_buf = append_get_response [] 5 1 0x04000000 (118 ∷ []) 0 })
handle_get-new_echo_response_example =
    Echo.handle_get-new_echo_response small_bucket config long_key (107 ∷ 49 ∷ []) (118 ∷ [])
      echoing refl

-- The queue is full, so the write is refused.
abbrev full : Conn (List Request)
full = record fresh { bucket = new_request ∷ new_request ∷ [] }

abbrev refused : Conn (List Request)
refused = record full {
  pending_write_buf = append_empty_response [] 1 0x86 7 0;
  tmp_fails = 1;
  stage_full = true;
}

-- A NOOP, and the first bytes of the next one.
abbrev arrived : Conn (List Request)
arrived = record fresh { read_buf = header_bytes (hton noop_sample) ++ (0x80 ∷ 0x0a ∷ []) }

run_loop-Runs_example :
    Fuel.Runs small_bucket config crypto
      (λ n. n)
      arrived
      (run_loop small_bucket config crypto 27 (λ n. n) arrived)
unfolding header_bytes put_fixed
run_loop-Runs_example =
    Fuel.run_loop-Runs small_bucket config crypto 27 (λ n. n) arrived (omega arith)

-- A document and a miss on a socket that takes 30 of their 53 bytes.
abbrev readers_batch : List Request
readers_batch =
    record new_request { opaque = 1; response_buf = 118 ∷ [] }
    ∷ record new_request { opaque = 2; result_ok = false }
    ∷ []

abbrev open_sender : Sender
open_sender = record { spill = []; spill_posted = false; send_closed = false; folly_writes = 0 }

readers_batch-IsSent : IsSent (took 30) (length (joined (all_iov readers_batch)))
unfolding all_iov joined direct_iov header_bytes put_fixed
readers_batch-IsSent = omega arith

write_direct-append_answers_example :
    handed (took 30) open_sender readers_batch
      ++ ([] ++ (write_direct (took 30) open_sender readers_batch).0.spill)
    ≡ append_answers ([] ++ []) readers_batch
write_direct-append_answers_example =
    Stream.write_direct-append_answers (took 30) open_sender readers_batch [] refl (λ h. refl)
      readers_batch-IsSent (omega arith, (omega arith, tt))

-- A bucket whose cache is one shard, with a document under one key.
abbrev byte_hash : ℕ → List ℕ → ℕ
byte_hash vbid key = vbid + length key

abbrev one_document : ReadStats × Shard
one_document = (
  record { hits = 0; misses = 0; tombstone_hits = 0; fills_rejected = 0 },
  put byte_hash (new_shard 1000) 0 (107 ∷ 49 ∷ []) (118 ∷ []) 2 0 1 false,
)

abbrev shard_bucket : Bucket (ReadStats × Shard)
shard_bucket = record {
  has_cache = true;
  is_durable = false;
  take_write_token = λ w. (true, w);
  stage_write = λ r w. (true, w);
  enqueue_read = λ r w. w;
  flush_staged = λ w. w;
  cache_put = λ _ _ _ _ _ _ _ w. w;
  cache_put_shared = λ _ _ _ _ _ _ _ w. w;
  cache_erase = λ _ _ w. w;
  cache_get = shard_get byte_hash 65536;
  cache_get_copy = shard_get_copy byte_hash 65536;
}

abbrev reading : Conn (ReadStats × Shard)
reading = record {
  read_buf = [];
  pending_write_buf = [];
  sent = [];
  echo_response_buf = [];
  closing = false;
  deleted = false;
  stage_full = false;
  read_paused = false;
  flush_scheduled = false;
  flush_timer = false;
  outstanding_requests = 0;
  scram_server_nonce = [];
  scram_salted_password = [];
  scram_auth_message = [];
  bad_magic = 0;
  bad_opcode = 0;
  tmp_fails = 0;
  bucket = one_document;
}

-- Two GETs of the key, and a byte of a third.
abbrev two_gets : List ℕ
two_gets =
    header_bytes (hton (record long_key { key_len = 2 }))
    ++ (107
        ∷ 49
        ∷ (header_bytes (hton (record long_key { key_len = 2 })) ++ (107 ∷ 49 ∷ 0x80 ∷ [])))
