-- ===== src/Engine/Request.antt =====
-- `struct Request` of server/engine.h: one operation of a client on its way through the engine. The
-- byte views into its buffers are lists of bytes; timestamps and the pointers back to the connection
-- are left out.
use fluxkv.Base.{ℕ, Bool, true, List, []}

pub record Request : Type 0 where
  pub key : List ℕ
  pub value : List ℕ
  pub opcode : ℕ
  pub datatype : ℕ
  pub vbucket : ℕ
  pub flags : ℕ
  pub expiry : ℕ
  pub opaque : ℕ
  pub cas : ℕ
  pub result_ok : Bool
  pub result_seqno : ℕ
  pub result_flags : ℕ
  pub result_datatype : ℕ
  pub response_buf : List ℕ

-- `Request::reset`. A default `Status` is OK.
abbrev pub new_request : Request
new_request = record {
  key = [];
  value = [];
  opcode = 0;
  datatype = 0;
  vbucket = 0;
  flags = 0;
  expiry = 0;
  opaque = 0;
  cas = 0;
  result_ok = true;
  result_seqno = 0;
  result_flags = 0;
  result_datatype = 0;
  response_buf = [];
}
