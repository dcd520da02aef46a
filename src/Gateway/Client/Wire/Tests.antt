-- ===== src/Gateway/Client/Wire/Tests.antt =====
-- A client over TCP that sends two requests, and a session that replies to them; a client over QUIC.
use nodehub.Base.{
  ℕ, ◌+◌, ◌%◌, ◌≢◌, ◌↔◌, ◌≡◌, refl, none, some, List, [], ◌∷◌, true, replicate, arith,
}
use nodehub.Base.Int.{negsuc}
use nodehub.Codec.{size_frame}
use nodehub.Gateway.Client.Wire.{
  Action, pings, sends, act_all, quic_send, quic_send_all, new_streams, reply_stream, closed,
}
use nodehub.Gateway.Client.Wire.Carried.{tcp-carries}
use nodehub.Gateway.Client.Wire.Requests.{Encodes, nothing, heartbeat, encodes}
use nodehub.Gateway.Client.Wire.Replies.{replied, nothing as no_replies}
use nodehub.Gateway.Client.Wire.Streams.{stream_for, to_services, quic_send_all-new_streams}
use nodehub.Gateway.Quic.Agrees.{frames}
use nodehub.Gateway.Tcp.{read_failed, recv_all}
use nodehub.Gateway.Tcp.Tests.{message, message-IsMessage, first_byte}

abbrev actions : List Action
actions = pings ∷ sends (7 ∷ 8 ∷ []) ∷ pings ∷ pings ∷ sends (9 ∷ []) ∷ pings ∷ []

actions-Encodes : Encodes first_byte 16 actions (7 ∷ 9 ∷ [])
actions-Encodes = heartbeat (
    encodes (7 ∷ 8 ∷ []) 7 (λ e. absurd (ground (arith, e))) (omega arith) (omega arith) refl
      (heartbeat (
        heartbeat (
          encodes (9 ∷ []) 9 (λ e. absurd (ground (arith, e))) (omega arith) (omega arith) refl
            (heartbeat nothing)))))

tcp-carries_example :
    (recv_all first_byte 7 16 (act_all actions []) (message ∷ message ∷ message ∷ [])
      ≡ (7 ∷ 9 ∷ [], some (read_failed size_frame)))
    × (reply_stream first_byte (replicate 1 true) 16 (frames ((7 ∷ []) ∷ (9 ∷ []) ∷ [])) message
        ≡ (7 ∷ [], closed))
tcp-carries_example =
    tcp-carries first_byte first_byte 16 7 actions (7 ∷ 9 ∷ []) (message ∷ message ∷ message ∷ []) 1
      ((7 ∷ []) ∷ (9 ∷ []) ∷ []) (7 ∷ 9 ∷ []) message actions-Encodes (omega arith)
      (message-IsMessage, (message-IsMessage, (message-IsMessage, tt))) (omega arith)
      (replied (7 ∷ []) 7 (omega arith) (omega arith) refl
        (replied (9 ∷ []) 9 (omega arith) (omega arith) refl no_replies))
      message-IsMessage

abbrev to_three : List (ℕ × List ℕ)
to_three = (1, 5 ∷ []) ∷ (3, 6 ∷ []) ∷ (4, 7 ∷ []) ∷ []

quic_send_all-new_streams_example :
    (quic_send_all (to_services to_three) new_streams
      ≡ some (stream_for 0 to_three ∷ stream_for 1 to_three ∷ stream_for 2 to_three ∷ []))
    × ((n : ℕ) (payload a b c : List ℕ)
        → (quic_send (negsuc n) payload (a ∷ b ∷ c ∷ []) ≡ none) ↔ ((n + 1) % 3 ≢ 0))
quic_send_all-new_streams_example = quic_send_all-new_streams to_three
