-- ===== src/Gateway/Client/Wire.antt =====
-- client.go: the connections of a client over TCP and QUIC, on the bytes that go over them.
pub mod Requests
pub mod Replies
pub mod Carried
pub mod Streams
pub mod Tests
use nodehub.Base.{ℕ, zero, suc, Option, none, some, List, [], ◌∷◌, ◌++◌, Bool, true, false, length}
use nodehub.Base.Int.{ℤ, pos, negsuc, rem}
use nodehub.Codec.{Message, Read, ReadError, send_bytes, read_message, bytes}

-- `tcpConn.send`, where the connection takes it: what has been written.
unfoldable pub tcp_send : List ℕ → List ℕ → List ℕ
tcp_send payload written = written ++ send_bytes payload

unfoldable pub tcp_ping : List ℕ → List ℕ
tcp_ping written = tcp_send [] written

-- What goes out on a connection, from Call and from pingLoop.
pub data Action : Type 0 where
  pings : Action
  sends : List ℕ → Action

unfoldable pub act : Action → List ℕ → List ℕ
act pings written = tcp_ping written
act (sends payload) written = tcp_send payload written

unfoldable pub act_all : List Action → List ℕ → List ℕ
act_all [] written = written
act_all (action ∷ actions) written = act_all actions (act action written)

-- How the goroutine of replyStream ends: Close is seen, ReadMessage fails, or it panics, as
-- `gokit.Must` does on a reply that does not decode.
pub data End : Type 0 where
  closed panicked : End
  read_failed : ReadError → End

-- `proto.Unmarshal` of a reply is a parameter.
module _ {Reply : Type 0} (unmarshal : List ℕ → Option Reply) where
  -- The round with a reply, before the rest of the rounds: whether the reply is taken from the
  -- channel, or the select takes the end of the connection.
  unfoldable pub give : Bool → Option Reply → List Reply × End → List Reply × End
  give taken none rest = ([], panicked)
  give true (some reply) rest = (reply ∷ rest.0, rest.1)
  give false (some reply) rest = ([], closed)

  -- From ReadMessage on.
  unfoldable pub hear : Bool → Option Read → List Reply × End → List Reply × End
  hear taken none rest = ([], panicked)
  hear taken (some r) rest = elim r.error [
    | some e ↦ ([], read_failed e)
    | none ↦ give taken (unmarshal (bytes r.message)) rest
  ]

  -- The message and the stream behind a read.
  unfoldable pub behind : List ℕ → Message → Option Read → List ℕ × Message
  behind stream msg none = (stream, msg)
  behind stream msg (some r) = (r.rest, r.message)

  -- `tcpConn.replyStream`: a round for each time that the connection is open at its top, with
  -- whether its reply is taken; the replies that are, and the end of the goroutine.
  unfoldable pub reply_stream : List Bool → ℕ → List ℕ → Message → List Reply × End
  reply_stream [] limit stream msg = ([], closed)
  reply_stream (taken ∷ rounds) limit stream msg =
      let r = read_message limit stream msg in
      let next = behind stream msg r in hear taken r (reply_stream rounds limit next.0 next.1)

-- What `newQUICConn` opens: three streams, nothing written.
unfoldable pub new_streams : List (List ℕ)
new_streams = [] ∷ [] ∷ [] ∷ []

unfoldable pub write_to : ℕ → List ℕ → List (List ℕ) → Option (List (List ℕ))
write_to i payload [] = none
write_to zero payload (s ∷ ss) = some (tcp_send payload s ∷ ss)
write_to (suc i) payload (s ∷ ss) = elim (write_to i payload ss) [
  | some ss' ↦ some (s ∷ ss')
  | none ↦ none
]

-- `s := qc.streams[int(service)%len(qc.streams)]`, and the write; `none` is a panic.
unfoldable pub write_at : ℤ → List ℕ → List (List ℕ) → Option (List (List ℕ))
write_at (pos i) payload ss = write_to i payload ss
write_at (negsuc i) payload ss = none

-- `quicConn.send`, where the stream takes it: what has been written to each stream.
unfoldable pub quic_send : ℤ → List ℕ → List (List ℕ) → Option (List (List ℕ))
quic_send service payload ss = write_at (rem service (length ss)) payload ss

unfoldable pub quic_ping : List (List ℕ) → Option (List (List ℕ))
quic_ping ss = quic_send (pos 0) [] ss

-- Messages to services, one behind the other.
unfoldable pub quic_send_all : List (ℤ × List ℕ) → List (List ℕ) → Option (List (List ℕ))
quic_send_all [] ss = some ss
quic_send_all ((service, payload) ∷ later) ss = elim (quic_send service payload ss) [
  | some ss' ↦ quic_send_all later ss'
  | none ↦ none
]
