-- ===== src/Connection/Direct.antt =====
-- `writeDirectLocked` of server/connection.cc: a reader thread writes GET responses to the socket itself,
-- and leaves what the socket does not take to the connection's loop.
pub mod Stream
use fluxkv.Base.{
  ℕ, zero, suc, ◌+◌, ◌-◌, ◌%◌, ◌^◌, ◌<◌, ◌≤◌, ◌≡◌, ◌≢◌, refl, ap, sym, ◌∙◌, Bool, true, false, not,
  ◌&&◌, ◌||◌, List, [], ◌∷◌, ◌++◌, arith, length, length-append, List-cases, All, take, drop,
  if◌then◌else◌, ltb, leb, ◌==◌, Bool-cases, inl, inr,
}
use fluxkv.Metadata.Fixed.{put_fixed}
use fluxkv.Protocol.{
  McbpHeader, hton, header_bytes, response_magic, swap, op_get, success, key_not_found,
  append_empty_response, append_get_response, append_response,
}
use fluxkv.Protocol.Response.{append_get_response-wire, append_response-wire, wire}
use fluxkv.Engine.Request.{Request}
use fluxkv.Engine.Queue.{is_empty}
use mathlib.Core.List.{append_assoc, append-nil}

-- What `sendGetResponse` appends.
unfoldable pub append_answer : List ℕ → Request → List ℕ
unfolding append_empty_response append_get_response
append_answer out r =
    if r.result_ok
    then append_get_response out r.opaque r.result_seqno r.result_flags r.response_buf
        r.result_datatype
    else append_empty_response out r.opcode key_not_found r.opaque 0

unfoldable pub append_answers : List ℕ → List Request → List ℕ
unfolding append_answer
append_answers out [] = out
append_answers out (r ∷ rs) = append_answers (append_answer out r) rs

-- The header that `writeDirectLocked` fills in, for a document and for a miss.
abbrev pub hit_header : Request → McbpHeader
hit_header r = record {
  magic = response_magic;
  opcode = op_get;
  key_len = 0;
  extras_len = 4;
  datatype = r.result_datatype;
  specific = success;
  body_len = (4 + length r.response_buf) % 2 ^ 32;
  opaque = r.opaque;
  cas = r.result_seqno;
}

abbrev pub miss_header : Request → McbpHeader
miss_header r = record {
  magic = response_magic;
  opcode = r.opcode;
  key_len = 0;
  extras_len = 0;
  datatype = 0;
  specific = key_not_found;
  body_len = 0;
  opaque = r.opaque;
  cas = 0;
}

-- The entries that one response pushes to `iov`.
unfoldable pub direct_iov : Request → List (List ℕ)
direct_iov r =
    let head = header_bytes (hton (hit_header r)) ++ put_fixed 4 (swap 4 r.result_flags) in
    if r.result_ok
    then (if leb (length r.response_buf) 0 then head ∷ [] else head ∷ r.response_buf ∷ [])
    else header_bytes (hton (miss_header r)) ∷ []

unfoldable pub all_iov : List Request → List (List ℕ)
unfolding direct_iov
all_iov [] = []
all_iov (r ∷ rs) = direct_iov r ++ all_iov rs

-- The bytes that `iov` stands for.
unfoldable pub joined : List (List ℕ) → List ℕ
joined [] = []
joined (v ∷ vs) = v ++ joined vs

-- `sendmsg`, after its retries on EINTR: the bytes that it took, or its error.
pub data SendResult : Type 0 where
  took : ℕ → SendResult
  would_block : SendResult
  broken : SendResult

-- The state under `sendMu_`.
pub record Sender : Type 0 where
  pub spill : List ℕ
  pub spill_posted : Bool
  pub send_closed : Bool
  pub folly_writes : ℕ

abbrev pub is_clear : Sender → Bool
is_clear s = leb (length s.spill) 0 && s.folly_writes == 0

-- `sent`, of `total` bytes.
unfoldable pub sent_of : SendResult → Sender → ℕ → ℕ
sent_of (took n) s total = if is_clear s then n else 0
sent_of would_block s total = 0
sent_of broken s total = if is_clear s then total else 0

-- The loop that spills what was not sent.
unfoldable pub unsent : ℕ → List (List ℕ) → List ℕ
unsent skip [] = []
unsent skip (v ∷ vs) =
    let rest = unsent (if leb (length v) skip then skip - length v else 0) vs in
    if leb (length v) skip then rest else drop skip v ++ rest

-- `writeDirectLocked`: the state, and whether the loop is to be told.
unfoldable pub write_direct : SendResult → Sender → List Request → Sender × Bool
unfolding sent_of unsent all_iov joined
write_direct result s reqs =
    let iov = all_iov reqs in
    let sent = sent_of result s (length (joined iov)) in
    if not s.send_closed && ltb sent (length (joined iov))
    then (record s { spill = s.spill ++ unsent sent iov; spill_posted = true }, not s.spill_posted)
    else (s, false)

-- What the socket takes of them, over and above what it took before.
unfoldable pub handed : SendResult → Sender → List Request → List ℕ
unfolding sent_of all_iov joined
handed result s reqs =
    take (sent_of result s (length (joined (all_iov reqs)))) (joined (all_iov reqs))

-- What `sendmsg` documents: it takes no more than it is given. The socket is not broken.
abbrev pub IsSent : SendResult → ℕ → Type 0
IsSent (took n) total = n ≤ total
IsSent would_block total = Unit {0}
IsSent broken total = ⊥
