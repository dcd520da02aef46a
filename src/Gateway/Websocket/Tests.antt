-- ===== src/Gateway/Websocket/Tests.antt =====
-- A WebSocket session on concrete frames.
use nodehub.Base.{ℕ, ◌≡◌, refl, none, some, List, [], ◌∷◌, ◌++◌, true, false, ◌==◌, nat_eq}
use nodehub.Gateway.Tcp.Tests.{first_byte}
use nodehub.Gateway.Websocket.{
  WsSession, new_ws_session, Frame, frame, close_error, eof, read_failed, unexpected_type,
  binary_message, read, recv, recv_all, is_close_error, close, hear_control, send, write_failed,
}
use nodehub.Gateway.Websocket.Frames.{
  frames, last_time, Leaves, decodes, decodes_none, recv_all-frames,
}

abbrev open_at : WsSession
open_at = record { closed = false; last_rw = 100 }

new_ws_session-open : new_ws_session 100 ≡ open_at
unfolding new_ws_session
new_ws_session-open = refl

abbrev messages : List (ℕ × List ℕ)
messages = (101, 7 ∷ []) ∷ (105, 8 ∷ 9 ∷ []) ∷ []

recv_all-frames_example :
    let left = record open_at { last_rw = last_time 100 messages } in
    (recv_all first_byte (frames messages) open_at ≡ (7 ∷ 8 ∷ [], (none, left)))
    × ((now : ℕ) (f : Frame) (later : List (ℕ × Frame))
        → Leaves f
        → recv_all first_byte (frames messages ++ (now, f) ∷ later) open_at
          ≡ (7 ∷ 8 ∷ [], (some eof, left)))
    × ((now type : ℕ) (message : List ℕ) (later : List (ℕ × Frame))
        → (type == binary_message) ≡ false
        → recv_all first_byte (frames messages ++ (now, frame type message) ∷ later) open_at
          ≡ (7 ∷ 8 ∷ [], (some (unexpected_type type), left)))
recv_all-frames_example =
    recv_all-frames first_byte 100 messages (7 ∷ 8 ∷ [])
      (decodes 101 (7 ∷ []) 7 refl (decodes 105 (8 ∷ 9 ∷ []) 8 refl decodes_none))

-- A protocol error is none of the three codes by which a client leaves.
recv-protocol_error :
    (recv first_byte 110 (close_error 1002) open_at ≡ (read_failed, open_at))
    × (recv first_byte 110 (frame binary_message (7 ∷ [])) (close open_at) ≡ (eof, close open_at))
unfolding recv read is_close_error close
recv-protocol_error = (refl, refl)

send-written :
    (send 120 (some (1 ∷ [])) true open_at ≡ (none, hear_control 120 open_at))
    × (send 120 (some (1 ∷ [])) false open_at ≡ (some write_failed, open_at))
unfolding send hear_control
send-written = (refl, refl)
