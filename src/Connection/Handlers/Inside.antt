-- ===== src/Connection/Handlers/Inside.antt =====
-- The handlers of SET, DELETE and GET take bytes behind a body exactly when its header is inconsistent.
use fluxkv.Base.{
  ℕ, ◌+◌, ◌<◌, ◌≤◌, ◌≡◌, ◌≢◌, ◌↔◌, inl, inr, refl, ap, false, not, ◌&&◌, List, [], Option, none,
  length, take, drop, ltb, ◌==◌, if◌then◌else◌, arith, Bool-cases, Option-cases, dec_lt,
}
use fluxkv.Protocol.{McbpHeader, op_set, op_delete}
use fluxkv.Connection.Bucket.{Bucket}
use fluxkv.Connection.State.{Conn, Config}
use fluxkv.Connection.Handlers.{handle_set, handle_delete, handle_get, get_cached, enqueue_get}
use fluxkv.Connection.Handlers.Bounds.{
  IsBody, slice-inside, slice-outside, set_request-inside, set_request-outside, key_request-inside,
  key_request-outside,
}

module _ {W : Type 0} (b : Bucket W) (k : Config) where
  -- The handler of one of the three operations.
  unfoldable pub handle_data : McbpHeader → List ℕ → Conn W → Option (Conn W)
  unfolding handle_set handle_delete handle_get
  handle_data h body c =
      if h.opcode == op_set
      then handle_set b k h body c
      else if h.opcode == op_delete
      then handle_delete b k h body c
      else handle_get b k h body c

  handle_get-outside :
      (h : McbpHeader) (body : List ℕ) (c : Conn W)
      → c.echo_response_buf ≡ []
      → IsBody h body
      → h.body_len < h.extras_len + h.key_len
      → handle_get b k h body c ≡ none
  unfolding handle_get get_cached enqueue_get
  handle_get-outside h body c quiet v outside =
      let no_echo : ltb 0 (length c.echo_response_buf) ≡ false = ap (λ e. ltb 0 (length e)) quiet in
      rw no_echo (elim (Bool-cases (b.has_cache && ltb 0 (length body))) [
        | inl looks ↦
            rw
              (
                looks,
                slice-outside body h.extras_len h.key_len (omega (arith, v.same_length, outside)),
              )
              refl
        | inr not ↦ rw (not, key_request-outside h 0 body v outside) refl
      ])

  enqueue_get-inside :
      (h : McbpHeader) (body : List ℕ) (c : Conn W)
      → IsBody h body
      → h.extras_len + h.key_len ≤ h.body_len
      → enqueue_get b k h body c ≢ none
  unfolding enqueue_get
  enqueue_get-inside h body c v inside stop =
      let (r, e) = key_request-inside h 0 body v inside in cc (rw e at stop)

  get_cached-inside :
      (h : McbpHeader) (body : List ℕ) (c : Conn W)
      → IsBody h body
      → h.extras_len + h.key_len ≤ h.body_len
      → get_cached b k h body c ≢ none
  unfolding get_cached
  get_cached-inside h body c v inside stop =
      let found = slice-inside body h.extras_len h.key_len (omega (arith, v.same_length, inside)) in
      let key = take h.key_len (drop h.extras_len body) in
      elim (Option-cases (b.cache_get h.specific key c.bucket).0) [
        | inl absent ↦ enqueue_get-inside h body _ v inside (rw (found, absent) at stop)
        | inr (doc, present) ↦ cc (rw (found, present) at stop)
      ]

  handle_get-inside :
      (h : McbpHeader) (body : List ℕ) (c : Conn W)
      → c.echo_response_buf ≡ []
      → IsBody h body
      → h.extras_len + h.key_len ≤ h.body_len
      → handle_get b k h body c ≢ none
  unfolding handle_get
  handle_get-inside h body c quiet v inside stop =
      let no_echo : ltb 0 (length c.echo_response_buf) ≡ false = ap (λ e. ltb 0 (length e)) quiet in
      elim (Bool-cases (b.has_cache && ltb 0 (length body))) [
        | inl looks ↦ get_cached-inside h body c v inside (rw (no_echo, looks) at stop)
        | inr not ↦ enqueue_get-inside h body c v inside (rw (no_echo, not) at stop)
      ]

  handle_data-inside :
      (h : McbpHeader) (body : List ℕ) (c : Conn W)
      → c.echo_response_buf ≡ []
      → IsBody h body
      → h.extras_len + h.key_len ≤ h.body_len
      → handle_data h body c ≢ none
  unfolding handle_data handle_set handle_delete
  handle_data-inside h body c quiet v inside stop = elim (Bool-cases (h.opcode == op_set)) [
    | inl sets ↦ cc (rw (sets, set_request-inside h body v inside) at stop)
    | inr not_set ↦ elim (Bool-cases (h.opcode == op_delete)) [
      | inl deletes ↦
          let (r, e) = key_request-inside h h.cas body v inside in
          cc (rw (not_set, deletes, e) at stop)
      | inr gets ↦ handle_get-inside h body c quiet v inside (rw (not_set, gets) at stop)
    ]
  ]

  handle_data-outside :
      (h : McbpHeader) (body : List ℕ) (c : Conn W)
      → c.echo_response_buf ≡ []
      → IsBody h body
      → h.body_len < h.extras_len + h.key_len
      → handle_data h body c ≡ none
  unfolding handle_data handle_set handle_delete
  handle_data-outside h body c quiet v outside = elim (Bool-cases (h.opcode == op_set)) [
    | inl sets ↦ rw (sets, set_request-outside h body v outside) refl
    | inr not_set ↦ elim (Bool-cases (h.opcode == op_delete)) [
      | inl deletes ↦ rw (not_set, deletes, key_request-outside h h.cas body v outside) refl
      | inr gets ↦ rw (not_set, gets) (handle_get-outside h body c quiet v outside)
    ]
  ]

  -- The handler of a SET, of a DELETE or, outside the echo mode, of a GET, on a body that is not empty and has
  -- the header's length, with lengths that fit their fields, reads bytes behind the body exactly when the
  -- header's lengths of the extras and of the key exceed it together.
  pub handle_data-IsBody :
      (h : McbpHeader) (body : List ℕ) (c : Conn W)
      → c.echo_response_buf ≡ []
      → IsBody h body
      → (handle_data h body c ≡ none) ↔ (h.body_len < h.extras_len + h.key_len)
  handle_data-IsBody h body c quiet v = (
    λ stop. elim (dec_lt h.body_len (h.extras_len + h.key_len)) [
      | yes outside ↦ outside
      | no n ↦ absurd (handle_data-inside h body c quiet v (omega (arith, n)) stop)
    ],
    handle_data-outside h body c quiet v,
  )
