-- ===== src/Connection/Bootstrap.antt =====
-- The handlers of server/connection.cc that answer with a message of their own, and the response that the
-- constructor of `Connection` prepares for the echo mode.
pub mod Echo
use fluxkv.Base.{
  ℕ, ◌+◌, ◌-◌, ◌%◌, ◌^◌, Bool, ◌&&◌, ◌||◌, List, [], ◌∷◌, ◌++◌, Option, some, length, ltb, ◌==◌,
  if◌then◌else◌, ◌>>=◌,
}
use fluxkv.Metadata.Fixed.{put_fixed}
use fluxkv.Protocol.{
  McbpHeader, hton, header_bytes, response_magic, swap, number_of, op_get, success, unknown_command,
  build_response, build_empty_response,
}
use fluxkv.Connection.State.{Conn, write_chain}
use fluxkv.Connection.Handlers.{slice}

-- The features that `handleHello` echoes.
abbrev pub is_supported : ℕ → Bool
is_supported f =
    (f == 0x04)
    || (f == 0x07)
    || (f == 0x08)
    || (f == 0x0b)
    || (f == 0x0c)
    || (f == 0x0e)
    || (f == 0x0a)

-- Its loop, over pairs of bytes in the network's order; a last single byte is not read.
unfoldable pub supported : List ℕ → List ℕ
unfolding number_of put_fixed
supported (hi ∷ lo ∷ rest) =
    let feat = swap 2 (number_of (hi ∷ lo ∷ [])) in
    let more = supported rest in
    if is_supported feat then put_fixed 2 (swap 2 feat) ++ more else more
supported (last ∷ []) = []
supported [] = []

-- `handleHello`. With a body that is not null, the features stand behind the key.
unfoldable pub handle_hello : {W : Type 0} → McbpHeader → List ℕ → Conn W → Option (Conn W)
unfolding slice supported build_response
handle_hello h body c = do
  features ←
      (if ltb 0 (length body) && ltb h.key_len h.body_len
        then slice body h.key_len (h.body_len - h.key_len)
        else some [])
  some (write_chain (build_response h.opcode success h.opaque 0 [] [] (supported features)) c)

-- `handleSelectBucket` and `handleNoop`
unfoldable pub handle_noop : {W : Type 0} → McbpHeader → Conn W → Conn W
unfolding build_empty_response
handle_noop h c = write_chain (build_empty_response h.opcode success h.opaque 0) c

-- `handleGetClusterConfig` and `handleGetErrorMap`
unfoldable pub handle_text : {W : Type 0} → List ℕ → McbpHeader → Conn W → Conn W
unfolding build_response
handle_text text h c = write_chain (build_response h.opcode success h.opaque 0 [] [] text) c

unfoldable pub send_unknown_command : {W : Type 0} → McbpHeader → Conn W → Conn W
unfolding build_empty_response
send_unknown_command h c = write_chain (build_empty_response h.opcode unknown_command h.opaque 0) c

-- The response for the value `GetEchoGetValue`, the opaque 0.
abbrev pub echo_header : List ℕ → McbpHeader
echo_header value = record {
  magic = response_magic;
  opcode = op_get;
  key_len = 0;
  extras_len = 4;
  datatype = 0;
  specific = success;
  body_len = (4 + length value) % 2 ^ 32;
  opaque = 0;
  cas = 1;
}

unfoldable pub new_echo_response : List ℕ → List ℕ
new_echo_response value =
    header_bytes (hton (echo_header value)) ++ (put_fixed 4 (swap 4 0x04000000) ++ value)
