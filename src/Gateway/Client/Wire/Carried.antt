-- ===== src/Gateway/Client/Wire/Carried.antt =====
-- A connection over TCP between a client and a session.
use nodehub.Base.{
  ℕ, ◌<◌, ◌≡◌, Option, some, List, [], ltb, if◌then◌else◌, length, take, replicate, true, All,
}
use nodehub.Codec.Bounds.{IsMessage}
use nodehub.Codec.{Message, size_frame}
use nodehub.Gateway.Client.Wire
use nodehub.Gateway.Client.Wire.{Action, act_all, closed, reply_stream}
use nodehub.Gateway.Client.Wire.Replies.{Replied, reply_stream-frames}
use nodehub.Gateway.Client.Wire.Requests.{Encodes, recv_all-act_all}
use nodehub.Gateway.Quic.Agrees.{frames}
use nodehub.Gateway.Tcp
use nodehub.Gateway.Tcp.{recv_all}

module _ {Request Reply : Type 0} (decode_request : List ℕ → Option Request)
    (decode_reply : List ℕ → Option Reply) (limit : ℕ) where
  -- Where messages decode and are within the limit, and with more fuel than the client has sent
  -- messages and more messages of the pool than requests: the requests that a client has written on
  -- a TCP connection, with heartbeats anywhere between them, the session receives in order, and
  -- nothing else, before it meets the end of the stream; and of the replies that the session has
  -- written, a client that closes its connection after some rounds has received the first ones, in
  -- order, one a round, or all of them and then the end of the stream.
  pub tcp-carries :
      (f : ℕ) (actions : List Action) (reqs : List Request) (messages : List Message) (rounds : ℕ)
      (payloads : List (List ℕ)) (replies : List Reply) (msg : Message)
      → Encodes decode_request limit actions reqs
      → length actions < f
      → All IsMessage messages
      → length reqs < length messages
      → Replied decode_reply limit payloads replies
      → IsMessage msg
      → (recv_all decode_request f limit (act_all actions []) messages
          ≡ (reqs, some (Tcp.read_failed size_frame)))
        × (reply_stream decode_reply (replicate rounds true) limit (frames payloads) msg ≡ (
          take rounds replies,
          if ltb (length replies) rounds then Wire.read_failed size_frame else closed,
        ))
  tcp-carries f actions reqs messages rounds payloads replies msg en l a m re h = (
    recv_all-act_all decode_request limit f actions reqs messages en l a m,
    reply_stream-frames decode_reply limit rounds payloads replies msg re h,
  )
