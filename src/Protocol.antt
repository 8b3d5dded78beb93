-- ===== src/Protocol.antt =====
-- server/protocol.h and server/protocol.cc: the memcached binary protocol. The machine is little-endian,
-- so `htons`, `htonl` and `folly::Endian::big` reverse the bytes of a number. A null pointer comes with
-- the length 0 at every call of the code, and is the empty list.
pub mod Swap
pub mod RoundTrip
pub mod Response
pub mod Frames
use fluxkv.Base.{
  ℕ, zero, suc, ◌+◌, ◌*◌, ◌%◌, ◌^◌, ◌<◌, ◌≡◌, refl, List, [], ◌∷◌, ◌++◌, Option, none, some, length,
  set, ◌>>=◌, ◌>>◌,
}
use fluxkv.Metadata.Fixed.{put_fixed, get_fixed}
use mathlib.Core.List.{reverse}
-- `enum class Opcode` and `enum class McbpStatus`.
mod Codes
pub use Codes.*

abbrev pub request_magic : ℕ
request_magic = 0x80

abbrev pub response_magic : ℕ
response_magic = 0x81

abbrev pub header_size : ℕ
header_size = 24

pub record McbpHeader : Type 0 where
  pub magic : ℕ
  pub opcode : ℕ
  pub key_len : ℕ
  pub extras_len : ℕ
  pub datatype : ℕ
  pub specific : ℕ
  pub body_len : ℕ
  pub opaque : ℕ
  pub cas : ℕ

-- The number that a little-endian machine reads from bytes.
unfoldable pub number_of : List ℕ → ℕ
number_of [] = 0
number_of (b ∷ bs) = b + 256 * number_of bs

-- `ntohs`, `htons`, `ntohl`, `htonl` and `folly::Endian::big`, at 2, 4 and 8 bytes.
unfoldable pub swap : ℕ → ℕ → ℕ
unfolding number_of
swap n v = number_of (reverse (put_fixed n v))

-- `McbpHeader::hton`. The opaque stays as it is.
unfoldable pub hton : McbpHeader → McbpHeader
hton h = record h {
  key_len = swap 2 h.key_len;
  specific = swap 2 h.specific;
  body_len = swap 4 h.body_len;
  cas = swap 8 h.cas;
}

-- `McbpHeader::ntoh`
unfoldable pub ntoh : McbpHeader → McbpHeader
ntoh h = record h {
  key_len = swap 2 h.key_len;
  specific = swap 2 h.specific;
  body_len = swap 4 h.body_len;
  cas = swap 8 h.cas;
}

-- The packed struct in memory.
unfoldable pub header_bytes : McbpHeader → List ℕ
header_bytes h =
    put_fixed 1 h.magic
    ++ (put_fixed 1 h.opcode
        ++ (put_fixed 2 h.key_len
            ++ (put_fixed 1 h.extras_len
                ++ (put_fixed 1 h.datatype
                    ++ (put_fixed 2 h.specific
                        ++ (put_fixed 4 h.body_len
                            ++ (put_fixed 4 h.opaque ++ put_fixed 8 h.cas)))))))

-- `cursor.pull(&hdr, kHeaderSize)`, and what follows the header; `none` if there are fewer bytes.
unfoldable pub pull_header : List ℕ → Option (McbpHeader × List ℕ)
pull_header bytes = do
  (magic, p) ← get_fixed 1 bytes
  (opcode, p) ← get_fixed 1 p
  (key_len, p) ← get_fixed 2 p
  (extras_len, p) ← get_fixed 1 p
  (datatype, p) ← get_fixed 1 p
  (specific, p) ← get_fixed 2 p
  (body_len, p) ← get_fixed 4 p
  (opaque, p) ← get_fixed 4 p
  (cas, p) ← get_fixed 8 p
  some (
    record {
      magic = magic;
      opcode = opcode;
      key_len = key_len;
      extras_len = extras_len;
      datatype = datatype;
      specific = specific;
      body_len = body_len;
      opaque = opaque;
      cas = cas;
    },
    p,
  )

-- The fields' C++ types.
pub record IsHeader (h : McbpHeader) : Type 0 where
  pub magic_u8 : h.magic < 256
  pub opcode_u8 : h.opcode < 256
  pub key_len_u16 : h.key_len < 2 ^ 16
  pub extras_len_u8 : h.extras_len < 256
  pub datatype_u8 : h.datatype < 256
  pub specific_u16 : h.specific < 2 ^ 16
  pub body_len_u32 : h.body_len < 2 ^ 32
  pub opaque_u32 : h.opaque < 2 ^ 32
  pub cas_u64 : h.cas < 2 ^ 64

-- The header of a response, in the host's order, as `appendResponse` and `buildResponse` fill it in:
-- the lengths are cast to their fields' widths.
abbrev pub response_header : ℕ → ℕ → ℕ → ℕ → List ℕ → List ℕ → List ℕ → McbpHeader
response_header opcode status opaque cas extras key value = record {
  magic = response_magic;
  opcode = opcode;
  key_len = length key % 2 ^ 16;
  extras_len = length extras % 2 ^ 8;
  datatype = 0;
  specific = status;
  body_len = (length extras + length key + length value) % 2 ^ 32;
  opaque = opaque;
  cas = cas;
}

-- `appendResponse`
unfoldable pub append_response : List ℕ → ℕ → ℕ → ℕ → ℕ → List ℕ → List ℕ → List ℕ → List ℕ
append_response out opcode status opaque cas extras key value =
    out
    ++ (header_bytes (hton (response_header opcode status opaque cas extras key value))
        ++ (extras ++ (key ++ value)))

-- `appendEmptyResponse`
unfoldable pub append_empty_response : List ℕ → ℕ → ℕ → ℕ → ℕ → List ℕ
unfolding append_response
append_empty_response out opcode status opaque cas =
    append_response out opcode status opaque cas [] [] []

-- `appendGetResponse`: the datatype is written into the header afterwards.
unfoldable pub append_get_response : List ℕ → ℕ → ℕ → ℕ → List ℕ → ℕ → List ℕ
unfolding append_response
append_get_response out opaque cas flags value datatype =
    set (append_response out op_get success opaque cas (put_fixed 4 (swap 4 flags)) [] value)
      (length out + 5) datatype

-- `buildResponse`
unfoldable pub build_response : ℕ → ℕ → ℕ → ℕ → List ℕ → List ℕ → List ℕ → List ℕ
build_response opcode status opaque cas extras key value =
    header_bytes (hton (response_header opcode status opaque cas extras key value))
    ++ (extras ++ (key ++ value))

-- `buildEmptyResponse`
unfoldable pub build_empty_response : ℕ → ℕ → ℕ → ℕ → List ℕ
unfolding build_response
build_empty_response opcode status opaque cas = build_response opcode status opaque cas [] [] []

-- `buildGetResponse`
unfoldable pub build_get_response : ℕ → ℕ → ℕ → List ℕ → List ℕ
unfolding build_response
build_get_response opaque cas flags value =
    build_response op_get success opaque cas (put_fixed 4 (swap 4 flags)) [] value
