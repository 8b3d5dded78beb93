-- ===== src/Protocol/Frames.antt =====
-- A buffer of responses is a stream that a client can cut.
use fluxkv.Base.{
  ℕ, zero, suc, ◌+◌, ◌≤◌, ◌≡◌, refl, ap, sym, ◌∙◌, List, [], ◌∷◌, ◌++◌, map, Option, none, some,
  arith, length, All, length-append, ◌>>=◌, List-cases, inl, inr,
}
use fluxkv.Metadata.Fixed.{put_fixed}
use fluxkv.Protocol.{
  append_get_response, append_empty_response, swap, op_get, success, header_bytes, hton,
}
use fluxkv.Protocol.Response.{
  Response, IsResponse, wire, header_of, read_response, read_response-wire, append_response-wire,
  append_get_response-wire,
}
use fluxkv.Protocol.RoundTrip.{length-header_bytes}
use mathlib.Core.List.{append_assoc, append-nil}

-- The calls by which connections append to their output buffer.
pub data Reply : Type 0 where
  empty_reply : ℕ → ℕ → ℕ → ℕ → Reply
  get_reply : ℕ → ℕ → ℕ → List ℕ → ℕ → Reply

unfoldable pub append_reply : List ℕ → Reply → List ℕ
unfolding append_empty_response append_get_response
append_reply out (empty_reply opcode status opaque cas) =
    append_empty_response out opcode status opaque cas
append_reply out (get_reply opaque cas flags value datatype) =
    append_get_response out opaque cas flags value datatype

unfoldable pub append_all : List ℕ → List Reply → List ℕ
unfolding append_reply
append_all out [] = out
append_all out (r ∷ rs) = append_all (append_reply out r) rs

-- The response that a call means.
abbrev pub meant : Reply → Response
meant (empty_reply opcode status opaque cas) = record {
  opcode = opcode;
  status = status;
  datatype = 0;
  opaque = opaque;
  cas = cas;
  extras = [];
  key = [];
  value = [];
}
meant (get_reply opaque cas flags value datatype) = record {
  opcode = op_get;
  status = success;
  datatype = datatype;
  opaque = opaque;
  cas = cas;
  extras = put_fixed 4 (swap 4 flags);
  key = [];
  value = value;
}

-- A client that cuts responses off a stream until it is empty.
unfoldable pub read_all : ℕ → List ℕ → Option (List Response)
read_all fuel [] = some []
read_all zero (b ∷ bs) = none
read_all (suc fuel) (b ∷ bs) = do
  (r, p) ← read_response (b ∷ bs)
  rs ← read_all fuel p
  some (r ∷ rs)

unfoldable pub wires : List Response → List ℕ
wires [] = []
wires (r ∷ rs) = wire r ++ wires rs

append_reply-wire :
    (out : List ℕ) (r : Reply) → IsResponse (meant r) → append_reply out r ≡ out ++ wire (meant r)
unfolding append_reply append_empty_response
append_reply-wire out (empty_reply opcode status opaque cas) v =
    append_response-wire out opcode status opaque cas [] [] []
append_reply-wire out (get_reply opaque cas flags value datatype) v =
    append_get_response-wire out opaque cas flags value datatype v.datatype_u8

append_all-wires :
    (out : List ℕ) (rs : List Reply)
    → All (λ r. IsResponse (meant r)) rs
    → append_all out rs ≡ out ++ wires (map meant rs)
unfolding append_all wires
append_all-wires out [] v = sym (append-nil out)
append_all-wires out (r ∷ rs) v = rw (append_reply-wire out r v.0) (
    append_all-wires (out ++ wire (meant r)) rs v.1
    ∙ append_assoc out (wire (meant r)) (wires (map meant rs)))

length-wire : (r : Response) → length (wire r) ≡ 24 + length (r.extras ++ (r.key ++ r.value))
unfolding wire
length-wire r =
    length-append (header_bytes (hton (header_of r))) (r.extras ++ (r.key ++ r.value))
    ∙ ap (λ n. n + length (r.extras ++ (r.key ++ r.value)))
        (length-header_bytes (hton (header_of r)))

read_step :
    (fuel : ℕ) (r : Response) (p : List ℕ)
    → IsResponse r
    → read_all (suc fuel) (wire r ++ p) ≡ (read_all fuel p >>= λ rs. some (r ∷ rs))
unfolding read_all
read_step fuel r p v = elim (List-cases (wire r ++ p)) [
  | inl none_left ↦
      let gone : 24 + length (r.extras ++ (r.key ++ r.value)) + length p ≡ 0 =
        omega (arith, ap length none_left, length-append (wire r) p, length-wire r) in
      absurd (omega arith)
  | inr (b, bs, whole) ↦
      let read : read_response (b ∷ bs) ≡ some (r, p) = rw whole at (read_response-wire r p v) in
      rw (whole, read) refl
]

read_all-wires :
    (fuel : ℕ) (rs : List Response)
    → All IsResponse rs
    → length rs ≤ fuel
    → read_all fuel (wires rs) ≡ some rs
unfolding wires read_all
read_all-wires fuel [] v h = refl
read_all-wires zero (r ∷ rs) v h = absurd (omega arith)
read_all-wires (suc fuel) (r ∷ rs) v h =
    read_step fuel r (wires rs) v.0 ∙ rw (read_all-wires fuel rs v.1 (omega arith)) refl

length-map : (rs : List Reply) → length (map meant rs) ≡ length rs
length-map [] = refl
length-map (r ∷ rs) = ap suc (length-map rs)

All-meant : (rs : List Reply) → All (λ r. IsResponse (meant r)) rs → All IsResponse (map meant rs)
All-meant [] v = tt
All-meant (r ∷ rs) v = (v.0, All-meant rs v.1)

-- Whatever responses are appended to an output buffer, one after the other, a client that cuts the
-- stream by the headers gets exactly these, in that order, if each one's fields fit the header's.
pub read_all-append_all :
    (rs : List Reply)
    → All (λ r. IsResponse (meant r)) rs
    → read_all (length rs) (append_all [] rs) ≡ some (map meant rs)
read_all-append_all rs v =
    rw (append_all-wires [] rs v)
      (read_all-wires (length rs) (map meant rs) (All-meant rs v) (omega (arith, length-map rs)))
