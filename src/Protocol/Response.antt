-- ===== src/Protocol/Response.antt =====
-- The bytes of a response are a header, and the header says where its parts end.
use fluxkv.Base.{
  ℕ, ◌+◌, ◌-◌, ◌^◌, ◌<◌, ◌≡◌, refl, ap, sym, ◌∙◌, subst, List, [], ◌++◌, Option, some, arith,
  length, length-append, true, take, drop, take-append, drop-append, leb, ◌==◌, guard, ◌>>=◌, ◌>>◌,
  le→leb,
}
use fluxkv.Metadata.Fixed.{put_fixed}
use fluxkv.Protocol.{
  McbpHeader, IsHeader, hton, ntoh, header_bytes, pull_header, response_header, response_magic,
  append_response, append_get_response, swap, op_get, success,
}
use fluxkv.Protocol.RoundTrip.{
  pull_header-header_bytes, ntoh-hton, hton-IsHeader, set-append, set-header_bytes,
}
use mathlib.Core.List.{append_assoc}

-- A response as a client sees it.
pub record Response : Type 0 where
  pub opcode : ℕ
  pub status : ℕ
  pub datatype : ℕ
  pub opaque : ℕ
  pub cas : ℕ
  pub extras : List ℕ
  pub key : List ℕ
  pub value : List ℕ

-- The fields fit the header's.
pub record IsResponse (r : Response) : Type 0 where
  pub opcode_u8 : r.opcode < 256
  pub status_u16 : r.status < 2 ^ 16
  pub datatype_u8 : r.datatype < 256
  pub opaque_u32 : r.opaque < 2 ^ 32
  pub cas_u64 : r.cas < 2 ^ 64
  pub extras_u8 : length r.extras < 256
  pub key_u16 : length r.key < 2 ^ 16
  pub body_u32 : length r.extras + length r.key + length r.value < 2 ^ 32

abbrev pub header_of : Response → McbpHeader
header_of r = record (response_header r.opcode r.status r.opaque r.cas r.extras r.key r.value) {
  datatype = r.datatype;
}

-- The wire form of a response.
unfoldable pub wire : Response → List ℕ
wire r = header_bytes (hton (header_of r)) ++ (r.extras ++ (r.key ++ r.value))

-- How a client takes the next response off a stream: the header first, then a body of the length that
-- it announces, cut at the lengths of the extras and the key.
unfoldable pub read_body : McbpHeader → List ℕ → Option (Response × List ℕ)
read_body h body = do
  guard (h.magic == response_magic)
  guard (leb h.body_len (length body))
  guard (leb (h.extras_len + h.key_len) h.body_len)
  some (
    record {
      opcode = h.opcode;
      status = h.specific;
      datatype = h.datatype;
      opaque = h.opaque;
      cas = h.cas;
      extras = take h.extras_len body;
      key = take h.key_len (drop h.extras_len body);
      value =
          take (h.body_len - h.extras_len - h.key_len) (drop h.key_len (drop h.extras_len body));
    },
    drop h.body_len body,
  )

unfoldable pub read_response : List ℕ → Option (Response × List ℕ)
unfolding read_body
read_response bytes = do (raw, body) ← pull_header bytes; read_body (ntoh raw) body

header_of-IsHeader : (r : Response) → IsResponse r → IsHeader (header_of r)
header_of-IsHeader r v = omega (arith, v)

drop-drop : (a b c d : List ℕ) → drop (length a + length b + length c) (a ++ (b ++ (c ++ d))) ≡ d
drop-drop a b c d =
    let whole : (a ++ (b ++ c)) ++ d ≡ a ++ (b ++ (c ++ d)) = simp append_assoc in
    let long : length (a ++ (b ++ c)) ≡ length a + length b + length c =
      omega (arith, length-append a (b ++ c), length-append b c) in
    rw (← whole, ← long) (drop-append (a ++ (b ++ c)) d)

-- The header of a response whose parts fit, without its casts.
fitted : Response → McbpHeader
fitted r = record {
  magic = response_magic;
  opcode = r.opcode;
  key_len = length r.key;
  extras_len = length r.extras;
  datatype = r.datatype;
  specific = r.status;
  body_len = length r.extras + length r.key + length r.value;
  opaque = r.opaque;
  cas = r.cas;
}

header_of-fitted : (r : Response) → IsResponse r → header_of r ≡ fitted r
unfolding fitted
header_of-fitted r v = ground (arith, v.key_u16, v.extras_u8, v.body_u32)

read_body-fitted :
    (r : Response) (p : List ℕ)
    → read_body (fitted r) (r.extras ++ (r.key ++ (r.value ++ p))) ≡ some (r, p)
unfolding read_body fitted
read_body-fitted r p =
    let body = r.extras ++ (r.key ++ (r.value ++ p)) in
    let all = drop-drop r.extras r.key r.value p in
    let enough : leb (length r.extras + length r.key + length r.value) (length body) ≡ true =
      le→leb _ _ (
        omega (
          arith,
          length-append r.extras (r.key ++ (r.value ++ p)),
          length-append r.key (r.value ++ p),
          length-append r.value p,
        )) in
    let parts : leb (length r.extras + length r.key)
          (length r.extras + length r.key + length r.value)
        ≡ true =
      le→leb _ _ (omega arith) in
    let rest : length r.extras + length r.key + length r.value - length r.extras - length r.key
        ≡ length r.value =
      omega arith in
    rw (enough, parts, rest, all, take-append, drop-append, take-append, drop-append, take-append)
      refl

pub read_response-wire :
    (r : Response) (p : List ℕ) → IsResponse r → read_response (wire r ++ p) ≡ some (r, p)
unfolding read_response wire
read_response-wire r p v =
    let h = header_of r in
    let fits = header_of-IsHeader r v in
    let read =
      pull_header-header_bytes (hton h) (r.extras ++ (r.key ++ (r.value ++ p)))
        (hton-IsHeader h fits) in
    let done =
      subst (λ k. read_body k (r.extras ++ (r.key ++ (r.value ++ p))) ≡ some (r, p))
        (sym (header_of-fitted r v)) (read_body-fitted r p) in
    simp append_assoc (rw (read, ntoh-hton h fits) done)

-- `appendResponse` appends the wire form.
pub append_response-wire :
    (out : List ℕ) (opcode status opaque cas : ℕ) (extras key value : List ℕ)
    → append_response out opcode status opaque cas extras key value
      ≡ out
        ++ wire (record {
          opcode = opcode;
          status = status;
          datatype = 0;
          opaque = opaque;
          cas = cas;
          extras = extras;
          key = key;
          value = value;
        })
unfolding append_response wire
append_response-wire out opcode status opaque cas extras key value = refl

pub append_get_response-wire :
    (out : List ℕ) (opaque cas flags : ℕ) (value : List ℕ) (datatype : ℕ)
    → datatype < 256
    → append_get_response out opaque cas flags value datatype
      ≡ out
        ++ wire (record {
          opcode = op_get;
          status = success;
          datatype = datatype;
          opaque = opaque;
          cas = cas;
          extras = put_fixed 4 (swap 4 flags);
          key = [];
          value = value;
        })
unfolding append_get_response append_response wire hton
append_get_response-wire out opaque cas flags value datatype small =
    set-append out _ 5 datatype ∙ ap (◌++◌ out) (set-header_bytes _ _ datatype small)
