-- ===== src/Connection/Loop/Answers/Replies.antt =====
-- The requests that the connection answers by itself.
use fluxkv.Base.{ℕ, ◌-◌, ◌≡◌, refl, ◌&&◌, List, [], ◌∷◌, ◌++◌, some, length, ltb, if◌then◌else◌}
use fluxkv.Protocol.{
  McbpHeader, unknown_command, auth_continue, success, build_response, build_empty_response,
}
use fluxkv.Protocol.Response.{wire}
use fluxkv.Connection.Bucket.{Bucket}
use fluxkv.Connection.State.{Conn, Config, write_chain}
use fluxkv.Connection.Handlers.{slice}
use fluxkv.Connection.Sasl.{
  Crypto, handle_sasl_list_mechs, handle_sasl_auth, handle_sasl_step, mech_and_data, same_text,
  plain, mechs, with_scram, server_first, server_final, get_scram_algo,
}
use fluxkv.Connection.Bootstrap.{
  handle_hello, handle_noop, handle_text, send_unknown_command, supported,
}
use fluxkv.Base.{Each, Each-bind, if_both}
use fluxkv.Connection.Loop.Answers.{IsServed, empty_response, chained}

module _ {W : Type 0} (b : Bucket W) (k : Config) (y : Crypto) where
  -- The handlers that answer with a message of their own.
  chained-IsServed :
      (h : McbpHeader) (status : ℕ) (value : List ℕ) (c d : Conn W)
      → d.sent ≡ c.sent ++ (build_response h.opcode status h.opaque 0 [] [] value ∷ [])
      → d.pending_write_buf ≡ c.pending_write_buf
      → d.outstanding_requests ≡ c.outstanding_requests
      → d.read_buf ≡ c.read_buf
      → IsServed b h.opcode h.opaque c d
  unfolding build_response wire
  chained-IsServed h status value c d more same out kept = record {
    kept = kept;
    answered =
        chained (record (empty_response h.opcode status h.opaque 0) { value = value }) refl refl
          more same out;
  }

  chain-IsServed :
      (h : McbpHeader) (status : ℕ) (value : List ℕ) (c : Conn W)
      → IsServed b h.opcode h.opaque c
          (write_chain (build_response h.opcode status h.opaque 0 [] [] value) c)
  chain-IsServed h status value c = chained-IsServed h status value c _ refl refl refl refl

  pub handle_hello-IsServed :
      (h : McbpHeader) (body : List ℕ) (c : Conn W)
      → Each (IsServed b h.opcode h.opaque c) (handle_hello h body c)
  unfolding handle_hello
  handle_hello-IsServed h body c =
      Each-bind (IsServed b h.opcode h.opaque c)
        (if ltb 0 (length body) && ltb h.key_len h.body_len
          then slice body h.key_len (h.body_len - h.key_len)
          else some [])
        (λ features.
          some
            (write_chain (build_response h.opcode success h.opaque 0 [] [] (supported features)) c))
        (λ features e. chain-IsServed h success (supported features) c)

  pub handle_sasl_auth-IsServed :
      (h : McbpHeader) (body : List ℕ) (c : Conn W)
      → Each (IsServed b h.opcode h.opaque c) (handle_sasl_auth y h body c)
  unfolding handle_sasl_auth build_empty_response with_scram
  handle_sasl_auth-IsServed h body c =
      Each-bind (IsServed b h.opcode h.opaque c) (mech_and_data h body) _ λ m e.
        if_both (IsServed b h.opcode h.opaque c) (same_text m.0 plain) _ _
          (chain-IsServed h success [] c)
          (chained-IsServed h auth_continue (server_first y m.1) c
            (write_chain
              (build_response h.opcode auth_continue h.opaque 0 [] [] (server_first y m.1))
              (with_scram y m.0 m.1 c))
            refl refl refl refl)

  pub handle_sasl_step-IsServed :
      (h : McbpHeader) (body : List ℕ) (c : Conn W)
      → Each (IsServed b h.opcode h.opaque c) (handle_sasl_step y h body c)
  unfolding handle_sasl_step
  handle_sasl_step-IsServed h body c =
      Each-bind (IsServed b h.opcode h.opaque c) (mech_and_data h body) _ λ m e.
        chain-IsServed h success
          (server_final y (get_scram_algo m.0) c.scram_salted_password c.scram_auth_message m.1) c

  pub noop-IsServed :
      (h : McbpHeader) (c : Conn W) → IsServed b h.opcode h.opaque c (handle_noop h c)
  unfolding handle_noop build_empty_response
  noop-IsServed h c = chain-IsServed h success [] c

  pub text-IsServed :
      (h : McbpHeader) (text : List ℕ) (c : Conn W)
      → IsServed b h.opcode h.opaque c (handle_text text h c)
  unfolding handle_text
  text-IsServed h text c = chain-IsServed h success text c

  pub mechs-IsServed :
      (h : McbpHeader) (c : Conn W) → IsServed b h.opcode h.opaque c (handle_sasl_list_mechs h c)
  unfolding handle_sasl_list_mechs
  mechs-IsServed h c = chain-IsServed h success mechs c

  pub unknown-IsServed :
      (h : McbpHeader) (c : Conn W) → IsServed b h.opcode h.opaque c (send_unknown_command h c)
  unfolding send_unknown_command build_empty_response
  unknown-IsServed h c = chain-IsServed h unknown_command [] c
