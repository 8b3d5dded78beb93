-- ===== src/Tests/Protocol.antt =====
-- The theorems of server/protocol.cc at concrete responses.
use fluxkv.Base.{◌≡◌, List, [], ◌∷◌, some, map, arith, All}
use fluxkv.Metadata.Fixed.{put_fixed}
use fluxkv.Protocol.Response.{IsResponse}
use fluxkv.Protocol.Frames
use fluxkv.Protocol.Frames.{Reply, empty_reply, get_reply, meant, append_all, read_all}

-- A document of two bytes and a stored datatype, and a miss.
abbrev replies : List Reply
replies = get_reply 7 300 0x0200_0000 (118 ∷ 49 ∷ []) 1 ∷ empty_reply 0 1 8 0 ∷ []

replies-IsResponse : All (λ r. IsResponse (meant r)) replies
unfolding put_fixed
replies-IsResponse = (omega arith, (omega arith, tt))

read_all-append_all_example : read_all 2 (append_all [] replies) ≡ some (map meant replies)
read_all-append_all_example = Frames.read_all-append_all replies replies-IsResponse
