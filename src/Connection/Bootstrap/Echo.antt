-- ===== src/Connection/Bootstrap/Echo.antt =====
-- The echo mode answers every GET with the same document.
use fluxkv.Base.{
  ℕ, ◌≡◌, refl, ap, sym, ◌∙◌, Bool, List, ◌++◌, some, length, ltb, arith, true, false,
  if◌then◌else◌,
}
use fluxkv.Metadata.Fixed.{put_fixed}
use fluxkv.Protocol.{McbpHeader, hton, header_bytes, append_get_response}
use fluxkv.Protocol.Response.{wire, append_get_response-wire}
use fluxkv.Connection.Bucket.{Bucket}
use fluxkv.Connection.State.{Conn, Config}
use fluxkv.Connection.Handlers.{handle_get, stamped}
use fluxkv.Connection.Bootstrap.{new_echo_response}

if_true : {A : Type 0} (t : Bool) (x y : A) → t ≡ true → (if t then x else y) ≡ x
if_true true x y h = refl
if_true false x y h = cc

-- With the response for a value prepared, a GET of any key is answered with the bytes that the server sends
-- for a document of that value with the CAS 1, the flags 0x04000000 and the datatype 0, under the request's own opaque,
-- and nothing else of the connection changes.
pub handle_get-new_echo_response :
    {W : Type 0} (b : Bucket W) (k : Config) (h : McbpHeader) (body value : List ℕ) (c : Conn W)
    → c.echo_response_buf ≡ new_echo_response value
    → handle_get b k h body c
      ≡ some (record c {
        pending_write_buf = append_get_response c.pending_write_buf h.opaque 1 0x04000000 value 0;
      })
unfolding handle_get new_echo_response wire header_bytes hton put_fixed
handle_get-new_echo_response b k h body value c e =
    if_true (ltb 0 (length c.echo_response_buf)) _ _ (
      ap (λ echo. ltb 0 (length echo)) e
      ∙ (let some_bytes : ltb 0 (length (new_echo_response value)) ≡ true = ground arith in
          some_bytes))
    ∙ ap
        (λ echo.
          some (record c { pending_write_buf = c.pending_write_buf ++ stamped b k h.opaque echo }))
        e
    ∙ ap (λ out. some (record c { pending_write_buf = out }))
        (sym (
          append_get_response-wire c.pending_write_buf h.opaque 1 0x04000000 value 0 (omega arith)))
