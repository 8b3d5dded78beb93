-- ===== src/Connection/Parse.antt =====
-- The framing tests of `Connection::parseAndDispatch` of server/connection.cc, on the bytes of `readBuf_`.
pub mod Front
use fluxkv.Base.{
  ℕ, zero, suc, ◌+◌, Bool, true, false, not, ◌||◌, List, [], ◌∷◌, Option, none, some, length, take,
  drop, ltb, ◌==◌, ◌++◌, if◌then◌else◌,
}
use fluxkv.Protocol.{
  McbpHeader, ntoh, pull_header, header_size, request_magic, op_get, op_set, op_delete, op_noop,
  op_hello, op_sasl_list_mechs, op_sasl_auth, op_sasl_step, op_select_bucket, op_get_cluster_config,
  op_get_error_map,
}

abbrev pub is_known : ℕ → Bool
is_known op =
    (op == op_get)
    || (op == op_set)
    || (op == op_delete)
    || (op == op_noop)
    || (op == op_hello)
    || (op == op_sasl_list_mechs)
    || (op == op_sasl_auth)
    || (op == op_sasl_step)
    || (op == op_select_bucket)
    || (op == op_get_cluster_config)
    || (op == op_get_error_map)

-- What stands at the front of the buffer: less than a request, bytes that close the connection, or a
-- request with its header in the host's order, its body, and what follows it.
pub data Parsed : Type 0 where
  incomplete : Parsed
  bad_magic : Parsed
  bad_opcode : Parsed
  frame : McbpHeader → List ℕ → List ℕ → Parsed

-- The tests after the header is read.
unfoldable pub parse_body : McbpHeader → List ℕ → Parsed
parse_body raw rest =
    if not (raw.magic == request_magic)
    then bad_magic
    else (if not (is_known raw.opcode)
        then bad_opcode
        else (let h = ntoh raw in
            if ltb (length rest) h.body_len
            then incomplete
            else frame h (take h.body_len rest) (drop h.body_len rest)))

unfoldable pub parse_frame : List ℕ → Parsed
unfolding parse_body
parse_frame buf =
    if ltb (length buf) header_size
    then incomplete
    else (elim (pull_header buf) [ none ↦ incomplete | some (raw, rest) ↦ parse_body raw rest ])
