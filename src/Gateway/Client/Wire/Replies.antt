-- ===== src/Gateway/Client/Wire/Replies.antt =====
-- What a client receives of the replies that a session over TCP sends.
use nodehub.Base.{
  ℕ, zero, suc, ◌^◌, ◌≤◌, ◌<◌, ◌≡◌, Option, some, List, [], ◌∷◌, ◌++◌, true, ltb, if◌then◌else◌,
  length, take, replicate, arith,
}
use nodehub.Codec.Bounds.{IsMessage, read_message-IsMessage}
use nodehub.Codec.RoundTrip.{read_message-send_bytes}
use nodehub.Codec.{send_bytes, Message, read_message, size_frame}
use nodehub.Gateway.Client.Wire.{closed, read_failed, give, hear, behind, reply_stream}
use nodehub.Gateway.Quic.Agrees.{frames}

module _ {Reply : Type 0} (unmarshal : List ℕ → Option Reply) (limit : ℕ) where
  -- The messages are these replies, encoded within the limit.
  pub data Replied : List (List ℕ) → List Reply → Type 0 where
    nothing : Replied [] []
    replied :
        {payloads : List (List ℕ)} {replies : List Reply} (payload : List ℕ) (reply : Reply)
        → length payload < 2 ^ 32
        → length payload ≤ limit
        → unmarshal payload ≡ some reply
        → Replied payloads replies
        → Replied (payload ∷ payloads) (reply ∷ replies)

  -- Of the replies that a session has sent within the limit, a client that closes its connection
  -- after some rounds is given the first ones, in order, one a round; and it meets the end of the
  -- stream if it has had them all before.
  pub reply_stream-frames :
      (n : ℕ) (payloads : List (List ℕ)) (replies : List Reply) (msg : Message)
      → Replied payloads replies
      → IsMessage msg
      → reply_stream unmarshal (replicate n true) limit (frames payloads) msg
        ≡ (take n replies, if ltb (length replies) n then read_failed size_frame else closed)
  unfolding reply_stream hear give behind read_message
  reply_stream-frames zero payloads replies msg en h = ground arith
  reply_stream-frames (suc n) [] [] msg nothing h = ground (arith, h)
  reply_stream-frames (suc n) (_ ∷ ps) (_ ∷ replies) msg (replied p reply s b d en) h =
      let (r, e, c, bs, rest, _) = read_message-send_bytes limit p (frames ps) msg h s b in
      let (r', e', u, _) = read_message-IsMessage limit (send_bytes p ++ frames ps) msg h in
      let ih = reply_stream-frames n ps replies r'.message en u in
      ground (arith, e, e', c, bs, rest, d, ih)
  reply_stream-frames (suc n) [] (_ ∷ replies) msg en h = elim en [ ]
  reply_stream-frames (suc n) (_ ∷ ps) [] msg en h = elim en [ ]
