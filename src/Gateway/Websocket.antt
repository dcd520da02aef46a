-- ===== src/Gateway/Websocket.antt =====
-- component/gateway/websocket.go: a session over a WebSocket connection.
pub mod Frames
pub mod Tests
use nodehub.Base.{
  ℕ, ◌≡◌, Option, none, some, List, [], ◌∷◌, Bool, true, false, not, ◌||◌, ◌==◌, nat_eq,
  if◌then◌else◌,
}

-- gorilla/websocket
abbrev pub binary_message : ℕ
binary_message = 2

abbrev pub close_normal_closure : ℕ
close_normal_closure = 1000

abbrev pub close_going_away : ℕ
close_going_away = 1001

abbrev pub close_abnormal_closure : ℕ
close_abnormal_closure = 1006

-- `closed`: `done` is closed, and the connection is. The clock of `last_rw` is the caller's.
pub record WsSession : Type 0 where
  pub closed : Bool
  pub last_rw : ℕ

unfoldable pub new_ws_session : ℕ → WsSession
new_ws_session now = record { closed = false; last_rw = now }

-- `closeOnce` makes a second Close do nothing.
unfoldable pub close : WsSession → WsSession
close ws = if ws.closed then ws else record ws { closed = true }

-- The handlers of setPingPongHandler.
unfoldable pub hear_control : ℕ → WsSession → WsSession
hear_control now ws = record ws { last_rw = now }

-- What ReadMessage answers: a close error with its code, `net.ErrClosed`, another error, or a
-- message with its type.
pub data Frame : Type 0 where
  close_error : ℕ → Frame
  connection_closed other_error : Frame
  frame : ℕ → List ℕ → Frame

pub data Received (Request : Type 0) : Type 0 where
  request : Request → Received Request
  eof read_failed bad_request : Received Request
  unexpected_type : ℕ → Received Request

unfoldable pub is_close_error : ℕ → Bool
is_close_error code =
    code == close_going_away || code == close_abnormal_closure || code == close_normal_closure

-- `proto.Unmarshal` of a request is a parameter.
module _ {Request : Type 0} (unmarshal : List ℕ → Option Request) where
  unfoldable pub read : ℕ → Frame → WsSession → Received Request × WsSession
  read now (close_error code) ws = (if is_close_error code then eof else read_failed, ws)
  read now connection_closed ws = (eof, ws)
  read now other_error ws = (read_failed, ws)
  read now (frame message_type message) ws =
      if message_type == binary_message
      then (
        (elim (unmarshal message) [ some req ↦ request req | none ↦ bad_request ]),
        record ws { last_rw = now },
      )
      else (unexpected_type message_type, ws)

  -- `wsSession.Recv`
  unfoldable pub recv : ℕ → Frame → WsSession → Received Request × WsSession
  recv now f ws = if ws.closed then (eof, ws) else read now f ws

  -- A round of the loop of handleSession, before the rest of the rounds.
  unfoldable pub round :
      Received Request × WsSession
      → List Request × (Option (Received Request) × WsSession)
      → List Request × (Option (Received Request) × WsSession)
  round (request req, ws) rest = (req ∷ rest.0, rest.1)
  round (eof, ws) rest = ([], (some eof, ws))
  round (read_failed, ws) rest = ([], (some read_failed, ws))
  round (bad_request, ws) rest = ([], (some bad_request, ws))
  round (unexpected_type t, ws) rest = ([], (some (unexpected_type t), ws))

  -- The calls of Recv by that loop, at the times of the frames, until one fails; `none`: it still
  -- waits for a frame.
  unfoldable pub recv_all :
      List (ℕ × Frame) → WsSession → List Request × (Option (Received Request) × WsSession)
  recv_all [] ws = ([], (none, ws))
  recv_all ((now, f) ∷ frames) ws =
      let after = recv now f ws in round after (recv_all frames after.1)

pub data SendError : Type 0 where
  not_marshalled write_failed : SendError

-- Send, with the encoded reply and whether it is written.
unfoldable pub send : ℕ → Option (List ℕ) → Bool → WsSession → Option SendError × WsSession
send now none written ws = (some not_marshalled, ws)
send now (some reply) written ws =
    if written then (none, record ws { last_rw = now }) else (some write_failed, ws)
