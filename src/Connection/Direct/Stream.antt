-- ===== src/Connection/Direct/Stream.antt =====
-- Direct sends keep the stream of responses.
use fluxkv.Base.{
  take-drop, drop_none, ℕ, zero, suc, ◌-◌, ◌<◌, ◌≤◌, ◌≡◌, refl, ap, sym, ◌∙◌, false, List, [], ◌∷◌,
  ◌++◌, arith, length, All, take, drop, if◌then◌else◌, ltb, leb, Bool-cases, inl, inr,
}
use fluxkv.Metadata.Fixed.{put_fixed}
use fluxkv.Protocol.{
  hton, header_bytes, swap, op_get, success, key_not_found, append_empty_response, append_response,
}
use fluxkv.Protocol.Response.{append_get_response-wire, wire}
use fluxkv.Engine.Request.{Request}
use fluxkv.Connection.Direct.{
  append_answer, append_answers, hit_header, miss_header, direct_iov, all_iov, joined, SendResult,
  took, would_block, broken, Sender, sent_of, unsent, write_direct, handed, IsSent,
}
use mathlib.Core.List.{append_assoc, append-nil}

joined-append : (xs ys : List (List ℕ)) → joined (xs ++ ys) ≡ joined xs ++ joined ys
unfolding joined
joined-append [] ys = refl
joined-append (x ∷ xs) ys = rw (joined-append xs ys) (sym (append_assoc x (joined xs) (joined ys)))

drop-all : (n : ℕ) (xs ys : List ℕ) → length xs ≤ n → drop n (xs ++ ys) ≡ drop (n - length xs) ys
drop-all n [] ys h = rw (let e : n - 0 ≡ n = omega arith in e) refl
drop-all zero (x ∷ xs) ys h = absurd (omega arith)
drop-all (suc n) (x ∷ xs) ys h = drop-all n xs ys (omega arith) ∙ ap (λ k. drop k ys) (omega arith)

drop-part : (n : ℕ) (xs ys : List ℕ) → n < length xs → drop n (xs ++ ys) ≡ drop n xs ++ ys
drop-part n [] ys h = absurd (omega arith)
drop-part zero (x ∷ xs) ys h = refl
drop-part (suc n) (x ∷ xs) ys h = drop-part n xs ys (omega arith)

unsent-drop : (n : ℕ) (iov : List (List ℕ)) → unsent n iov ≡ drop n (joined iov)
unfolding unsent joined
unsent-drop zero [] = refl
unsent-drop (suc n) [] = refl
unsent-drop n (v ∷ vs) = elim (Bool-cases (leb (length v) n)) [
  | inl whole ↦
      rw (whole, unsent-drop (n - length v) vs) (sym (drop-all n v (joined vs) (ground arith)))
  | inr part ↦ rw (part, unsent-drop 0 vs) (sym (drop-part n v (joined vs) (ground arith)))
]

hit-wire :
    (r : Request)
    → (header_bytes (hton (hit_header r)) ++ put_fixed 4 (swap 4 r.result_flags)) ++ r.response_buf
      ≡ wire (record {
        opcode = op_get;
        status = success;
        datatype = r.result_datatype;
        opaque = r.opaque;
        cas = r.result_seqno;
        extras = put_fixed 4 (swap 4 r.result_flags);
        key = [];
        value = r.response_buf;
      })
unfolding wire put_fixed
hit-wire r =
    append_assoc (header_bytes (hton (hit_header r))) (put_fixed 4 (swap 4 r.result_flags))
      r.response_buf

joined_hit :
    (head buf : List ℕ)
    → joined (if leb (length buf) 0 then head ∷ [] else head ∷ buf ∷ []) ≡ head ++ buf
unfolding joined
joined_hit head [] = refl
joined_hit head (b ∷ bs) =
    let more : leb (length (b ∷ bs)) 0 ≡ false = ground arith in rw (more, append-nil) refl

miss_answer :
    (r : Request) (out : List ℕ)
    → out ++ joined (header_bytes (hton (miss_header r)) ∷ [])
      ≡ append_empty_response out r.opcode key_not_found r.opaque 0
unfolding joined append_empty_response append_response
miss_answer r out = refl

-- One response goes out as `sendGetResponse` would append it.
direct_iov-answer :
    (r : Request) (out : List ℕ)
    → r.result_datatype < 256
    → out ++ joined (direct_iov r) ≡ append_answer out r
unfolding direct_iov append_answer
direct_iov-answer r out small = elim (Bool-cases r.result_ok) [
  | inl ok ↦
      let head = header_bytes (hton (hit_header r)) ++ put_fixed 4 (swap 4 r.result_flags) in
      let same = joined_hit head r.response_buf ∙ hit-wire r in
      let appended =
        append_get_response-wire out r.opaque r.result_seqno r.result_flags r.response_buf
          r.result_datatype small in
      simp ok (ap (◌++◌ out) same ∙ sym appended)
  | inr failed ↦ simp failed (miss_answer r out)
]

append_answers-joined :
    (out : List ℕ) (rs : List Request)
    → All (λ r. r.result_datatype < 256) rs
    → append_answers out rs ≡ out ++ joined (all_iov rs)
unfolding append_answers all_iov joined
append_answers-joined out [] v = sym (append-nil out)
append_answers-joined out (r ∷ rs) v =
    append_answers-joined (append_answer out r) rs v.1
    ∙ (ap (λ o. o ++ joined (all_iov rs)) (sym (direct_iov-answer r out v.0))
        ∙ (append_assoc out (joined (direct_iov r)) (joined (all_iov rs))
            ∙ ap (◌++◌ out) (sym (joined-append (direct_iov r) (all_iov rs)))))

-- Only with nothing left to send before it does a reader send.
sent_of_spilled :
    (result : SendResult) (s : Sender) (total : ℕ)
    → 0 < length s.spill
    → IsSent result total
    → sent_of result s total ≡ 0
unfolding sent_of
sent_of_spilled (took n) s total h v = ground arith
sent_of_spilled would_block s total h v = refl
sent_of_spilled broken s total h v = absurd v

sent_of_behind :
    (result : SendResult) (s : Sender) (total : ℕ)
    → 0 < s.folly_writes
    → IsSent result total
    → sent_of result s total ≡ 0
unfolding sent_of
sent_of_behind (took n) s total h v = ground arith
sent_of_behind would_block s total h v = refl
sent_of_behind broken s total h v = absurd v

-- `folly` is what the writes of folly that are not done yet have still to send.
sent_of_waiting :
    (result : SendResult) (s : Sender) (total : ℕ) (folly : List ℕ)
    → (s.folly_writes ≡ 0 → folly ≡ [])
    → IsSent result total
    → 0 < length (folly ++ s.spill)
    → sent_of result s total ≡ 0
sent_of_waiting result s total folly quiet v h = elim (Bool-cases (ltb 0 s.folly_writes)) [
  | inl busy ↦ sent_of_behind result s total (ground arith) v
  | inr idle ↦
      let nothing = quiet (ground arith) in sent_of_spilled result s total (rw nothing at h) v
]

left_to_loop :
    (result : SendResult) (s : Sender) (reqs : List Request)
    → s.send_closed ≡ false
    → (write_direct result s reqs).0.spill
      ≡ s.spill ++ drop (sent_of result s (length (joined (all_iov reqs)))) (joined (all_iov reqs))
unfolding write_direct
left_to_loop result s reqs live =
    let all = joined (all_iov reqs) in
    let sent = sent_of result s (length all) in
    elim (Bool-cases (ltb sent (length all))) [
      | inl short ↦ simp (live, short) (ap (◌++◌ s.spill) (unsent-drop sent (all_iov reqs)))
      | inr done ↦ simp (live, done, drop_none sent all (ground arith)) (sym (append-nil s.spill))
    ]

behind_spill :
    (spill : List ℕ) (sent : ℕ) (all : List ℕ)
    → (0 < length spill → sent ≡ 0)
    → take sent all ++ (spill ++ drop sent all) ≡ spill ++ all
behind_spill [] sent all h = take-drop sent all
behind_spill (b ∷ bs) sent all h = rw (h (omega arith)) refl

-- With `--direct-send` the client gets the bytes that the connection's loop would have sent: on a socket
-- that is open and not broken, what `sendmsg` took, then what folly's own writes have still to send, then
-- what is spilled for the loop, are the bytes of these writes, what was spilled before, and the responses
-- as `sendGetResponse` appends them. `follyWrites_` is 0 only with no such bytes left, `sendmsg` takes no
-- more than it is given, and a stored datatype is one byte.
pub write_direct-append_answers :
    (result : SendResult) (s : Sender) (reqs : List Request) (folly : List ℕ)
    → s.send_closed ≡ false
    → (s.folly_writes ≡ 0 → folly ≡ [])
    → IsSent result (length (joined (all_iov reqs)))
    → All (λ r. r.result_datatype < 256) reqs
    → handed result s reqs ++ (folly ++ (write_direct result s reqs).0.spill)
      ≡ append_answers (folly ++ s.spill) reqs
unfolding handed
write_direct-append_answers result s reqs folly live quiet v small =
    let all = joined (all_iov reqs) in
    let sent = sent_of result s (length all) in
    rw
      (
        left_to_loop result s reqs live,
        append_answers-joined (folly ++ s.spill) reqs small,
        sym (append_assoc folly s.spill (drop sent all)),
      )
      (behind_spill (folly ++ s.spill) sent all
        (sent_of_waiting result s (length all) folly quiet v))
