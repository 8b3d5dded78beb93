-- ===== src/Connection/Sasl.antt =====
-- `handleSaslListMechs`, `handleSaslAuth` and `handleSaslStep` of server/connection.cc. Strings are lists
-- of ASCII codes; the cryptography is of the library cb, and a parameter.
use fluxkv.Base.{
  ℕ, ◌-◌, Bool, true, false, ◌&&◌, List, [], ◌∷◌, ◌++◌, Option, none, some, drop, ltb, ◌==◌,
  if◌then◌else◌, ◌>>=◌,
}
use fluxkv.Protocol.{McbpHeader, success, auth_continue, build_response, build_empty_response}
use fluxkv.Connection.State.{Conn, write_chain}
use fluxkv.Connection.Handlers.{slice}

pub data Algorithm : Type 0 where
  sha1 : Algorithm
  sha256 : Algorithm
  sha512 : Algorithm

-- `cb::crypto` and `cb::base64`, and the letters of the server's nonce, from `std::mt19937`.
pub record Crypto : Type 0 where
  pub pbkdf2_hmac : Algorithm → List ℕ → List ℕ → ℕ → List ℕ
  pub hmac : Algorithm → List ℕ → List ℕ → List ℕ
  pub base64 : List ℕ → List ℕ
  pub nonce_suffix : List ℕ

-- `std::string::find`: the string from where the text occurs first.
unfoldable pub starts_with : List ℕ → List ℕ → Bool
starts_with [] s = true
starts_with (t ∷ ts) [] = false
starts_with (t ∷ ts) (c ∷ s) = (t == c) && starts_with ts s

unfoldable pub from_first : List ℕ → List ℕ → Option (List ℕ)
unfolding starts_with
from_first text [] = if starts_with text [] then some [] else none
from_first text (c ∷ s) =
    let later = from_first text s in if starts_with text (c ∷ s) then some (c ∷ s) else later

-- The string up to there, or all of it.
unfoldable pub until_first : List ℕ → List ℕ → List ℕ
unfolding starts_with
until_first text [] = []
until_first text (c ∷ s) =
    let later = until_first text s in if starts_with text (c ∷ s) then [] else c ∷ later

-- "PLAIN", "password", "magmakvserversalt" and "4096".
abbrev pub plain : List ℕ
plain = 80 ∷ 76 ∷ 65 ∷ 73 ∷ 78 ∷ []

abbrev pub password : List ℕ
password = 112 ∷ 97 ∷ 115 ∷ 115 ∷ 119 ∷ 111 ∷ 114 ∷ 100 ∷ []

abbrev pub salt : List ℕ
salt =
    109 ∷ 97 ∷ 103 ∷ 109 ∷ 97 ∷ 107 ∷ 118 ∷ 115 ∷ 101 ∷ 114 ∷ 118 ∷ 101 ∷ 114 ∷ 115 ∷ 97 ∷ 108 ∷ 116
    ∷ []

abbrev pub iterations : List ℕ
iterations = 52 ∷ 48 ∷ 57 ∷ 54 ∷ []

-- "SCRAM-SHA512 SCRAM-SHA256 SCRAM-SHA1 PLAIN"
abbrev pub mechs : List ℕ
mechs =
    83 ∷ 67 ∷ 82 ∷ 65 ∷ 77 ∷ 45 ∷ 83 ∷ 72 ∷ 65 ∷ 53 ∷ 49 ∷ 50 ∷ 32 ∷ 83 ∷ 67 ∷ 82 ∷ 65 ∷ 77 ∷ 45
    ∷ 83 ∷ 72 ∷ 65 ∷ 50 ∷ 53 ∷ 54 ∷ 32 ∷ 83 ∷ 67 ∷ 82 ∷ 65 ∷ 77 ∷ 45 ∷ 83 ∷ 72 ∷ 65 ∷ 49 ∷ 32 ∷ 80
    ∷ 76 ∷ 65 ∷ 73 ∷ 78 ∷ []

-- `getScramAlgo`: "512" and "256".
unfoldable pub get_scram_algo : List ℕ → Algorithm
unfolding from_first
get_scram_algo mech = elim (from_first (53 ∷ 49 ∷ 50 ∷ []) mech) [
  | some s ↦ sha512
  | none ↦ elim (from_first (50 ∷ 53 ∷ 54 ∷ []) mech) [ some s ↦ sha256 | none ↦ sha1 ]
]

-- The mechanism and the data of a request. A body that is null has neither.
unfoldable pub mech_and_data : McbpHeader → List ℕ → Option (List ℕ × List ℕ)
unfolding slice
mech_and_data h [] = some ([], [])
mech_and_data h (b ∷ bs) = do
  mech ← slice (b ∷ bs) 0 h.key_len
  auth_data ←
      (if ltb h.key_len h.body_len
        then slice (b ∷ bs) h.key_len (h.body_len - h.key_len)
        else some [])
  some (mech, auth_data)

unfoldable pub same_text : List ℕ → List ℕ → Bool
same_text [] [] = true
same_text [] (c ∷ cs) = false
same_text (t ∷ ts) [] = false
same_text (t ∷ ts) (c ∷ cs) = (t == c) && same_text ts cs

-- The string from where the text occurs first, or none.
abbrev from_or_empty : List ℕ → List ℕ → List ℕ
from_or_empty text s = elim (from_first text s) [ some rest ↦ rest | none ↦ [] ]

-- `clientFirstBare`, from "n=" on.
unfoldable pub client_first_bare : List ℕ → List ℕ
unfolding from_first
client_first_bare auth_data = from_or_empty (110 ∷ 61 ∷ []) auth_data

-- `scramServerNonce_`: what follows "r=", and the letters that are drawn.
unfoldable pub server_nonce : Crypto → List ℕ → List ℕ
unfolding from_first client_first_bare
server_nonce y auth_data =
    drop 2 (from_or_empty (114 ∷ 61 ∷ []) (client_first_bare auth_data)) ++ y.nonce_suffix

-- `serverFirst`: "r=", ",s=" and ",i=".
unfoldable pub server_first : Crypto → List ℕ → List ℕ
unfolding server_nonce
server_first y auth_data =
    (114 ∷ 61 ∷ [])
    ++ (server_nonce y auth_data
        ++ ((44 ∷ 115 ∷ 61 ∷ []) ++ (y.base64 salt ++ ((44 ∷ 105 ∷ 61 ∷ []) ++ iterations))))

unfoldable pub handle_sasl_list_mechs : {W : Type 0} → McbpHeader → Conn W → Conn W
unfolding build_response
handle_sasl_list_mechs h c = write_chain (build_response h.opcode success h.opaque 0 [] [] mechs) c

-- What the first step leaves for the second.
unfoldable pub with_scram : {W : Type 0} → Crypto → List ℕ → List ℕ → Conn W → Conn W
unfolding get_scram_algo client_first_bare server_nonce server_first
with_scram y mech auth_data c = record c {
  scram_server_nonce = server_nonce y auth_data;
  scram_salted_password = y.pbkdf2_hmac (get_scram_algo mech) password salt 4096;
  scram_auth_message =
      client_first_bare auth_data ++ (44 ∷ (server_first y auth_data ++ (44 ∷ [])));
}

unfoldable pub handle_sasl_auth :
    {W : Type 0} → Crypto → McbpHeader → List ℕ → Conn W → Option (Conn W)
unfolding mech_and_data same_text with_scram server_first build_response build_empty_response
handle_sasl_auth y h body c = do
  (mech, auth_data) ← mech_and_data h body
  some (
      if same_text mech plain
      then write_chain (build_empty_response h.opcode success h.opaque 0) c
      else write_chain
          (build_response h.opcode auth_continue h.opaque 0 [] [] (server_first y auth_data))
          (with_scram y mech auth_data c))

-- `serverFinal`: "v=" and the signature, under the key that "Server Key" gives, of the message up to ",p=".
unfoldable pub server_final : Crypto → Algorithm → List ℕ → List ℕ → List ℕ → List ℕ
unfolding until_first
server_final y algo salted auth_message auth_data =
    (118 ∷ 61 ∷ [])
    ++ y.base64 (
        y.hmac algo
          (y.hmac algo salted (83 ∷ 101 ∷ 114 ∷ 118 ∷ 101 ∷ 114 ∷ 32 ∷ 75 ∷ 101 ∷ 121 ∷ []))
          (auth_message ++ until_first (44 ∷ 112 ∷ 61 ∷ []) auth_data))

unfoldable pub handle_sasl_step :
    {W : Type 0} → Crypto → McbpHeader → List ℕ → Conn W → Option (Conn W)
unfolding mech_and_data get_scram_algo server_final build_response
handle_sasl_step y h body c = do
  (mech, auth_data) ← mech_and_data h body
  some (
      write_chain
        (build_response h.opcode success h.opaque 0 [] [] (
          server_final y (get_scram_algo mech) c.scram_salted_password c.scram_auth_message
            auth_data))
        c)
