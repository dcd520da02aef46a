-- ===== src/Gateway/Tcp.antt =====
-- component/gateway/tcp.go: how a session receives requests from its connection.
pub mod Recv
pub mod Tests
use nodehub.Base.{
  ℕ, zero, suc, Option, none, some, List, [], ◌∷◌, Bool, true, false, ltb, if◌then◌else◌,
}
use nodehub.Codec.{Message, Read, ReadError, read_message, bytes}

-- What `Recv` comes to. `fuel` is the model's own: the loop was cut off.
pub data Received (Request : Type 0) : Type 0 where
  request : Request → Received Request
  read_failed : ReadError → Received Request
  bad_request : Received Request
  panic fuel : Received Request

-- `proto.Unmarshal` of a request is a parameter.
module _ {Request : Type 0} (unmarshal : List ℕ → Option Request) where
  unfoldable pub parse : List ℕ → Received Request
  parse payload = elim (unmarshal payload) [ some req ↦ request req | none ↦ bad_request ]

  -- The loop of `tcpSession.Recv` from a message of the pool: the result, and the unread stream.
  -- An empty message is a heartbeat.
  unfoldable pub recv : ℕ → ℕ → List ℕ → Message → Received Request × List ℕ
  recv zero limit stream msg = (fuel, stream)
  recv (suc f) limit stream msg = elim (read_message limit stream msg) [
    | none ↦ (panic, stream)
    | some r ↦ elim r.error [
      | some e ↦ (read_failed e, r.rest)
      | none ↦
          if ltb 0 r.message.size
          then (parse (bytes r.message), r.rest)
          else recv f limit r.rest r.message
    ]
  ]

  -- A round of the loop of handleSession, before the rest of the rounds.
  unfoldable pub round :
      Received Request
      → List Request × Option (Received Request)
      → List Request × Option (Received Request)
  round (request req) rest = (req ∷ rest.0, rest.1)
  round (read_failed e) rest = ([], some (read_failed e))
  round bad_request rest = ([], some bad_request)
  round panic rest = ([], some panic)
  round fuel rest = ([], some fuel)

  -- The calls of Recv by that loop until one fails, each with a message of the pool; `none`: the
  -- calls end before.
  unfoldable pub recv_all : ℕ → ℕ → List ℕ → List Message → List Request × Option (Received Request)
  recv_all f limit stream [] = ([], none)
  recv_all f limit stream (msg ∷ messages) =
      let r = recv f limit stream msg in round r.0 (recv_all f limit r.1 messages)

-- `closed`: the connection was closed, as Close does once.
pub record TcpSession : Type 0 where
  pub closed : Bool
  pub last_rw : ℕ

unfoldable pub new_tcp_session : ℕ → TcpSession
new_tcp_session now = record { closed = false; last_rw = now }

unfoldable pub close : TcpSession → TcpSession
close ts = if ts.closed then ts else record ts { closed = true }

-- Send, with whether the frame is written.
unfoldable pub send : ℕ → Bool → TcpSession → Bool × TcpSession
send now written ts = if written then (true, record ts { last_rw = now }) else (false, ts)
