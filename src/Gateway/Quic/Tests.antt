-- ===== src/Gateway/Quic/Tests.antt =====
-- The QUIC session on concrete inputs.
use nodehub.Base.{ℕ, ◌≡◌, refl, ◌⊎◌, some, List, [], ◌∷◌, Memᴰ, true, false, ok, err, nat_eq, arith}
use nodehub.Base.Int.{pos, rem}
use nodehub.Base.Map.{load, store, delete}
use nodehub.Gateway.Tcp.Tests.{message, message-IsMessage, first_byte}
use nodehub.Gateway.Tcp
use nodehub.Gateway.Quic.{
  Worker, stop_worker, QuicSession, Reach, close, accept_stream, offer, take_offer, end_stream,
  check_last, new_quic_session, connected, stream_accepted, message_read, message_taken, send,
  no_stream, pick, picked, stream_at, remove_stream, other, is_unexpected_quic_error, recv,
}
use nodehub.Gateway.Quic.Steps.{of_stream}
use nodehub.Gateway.Quic.Ordered.{Behind}
use nodehub.Gateway.Quic.Live.{run-Ordered, run-Started, send-Live}
use nodehub.Gateway.Quic.Agrees.{recv-tcp, frames, offers, over_tcp}

-- The stream of a service changes when the client opens another one.
pick-moves : (pick (0 ∷ 1 ∷ []) (pos 5) ≡ picked 1) × (pick (0 ∷ 1 ∷ 2 ∷ []) (pos 5) ≡ picked 2)
unfolding pick stream_at rem
pick-moves = (refl, refl)

-- What `errors.As` does not find in the end of a stream, which is no error.
is_unexpected-eof : is_unexpected_quic_error (some other) ≡ true
unfolding is_unexpected_quic_error
is_unexpected-eof = refl

-- Two streams; the first one's message is taken, the second one's is offered.
abbrev connected_at : QuicSession
connected_at = accept_stream (accept_stream (new_quic_session 100))

abbrev asked : QuicSession
asked = offer 102 1 (8 ∷ []) (take_offer 0 (offer 101 0 (7 ∷ []) connected_at))

asked-Reach : Reach asked ((0, 7 ∷ []) ∷ (1, 8 ∷ []) ∷ []) ((0, 7 ∷ []) ∷ [])
unfolding load store accept_stream new_quic_session offer take_offer
asked-Reach =
    message_read 102 1 (8 ∷ [])
      (message_taken 0 (7 ∷ [])
        (message_read 101 0 (7 ∷ []) (stream_accepted (stream_accepted (connected 100) refl) refl)
          refl)
        refl)
      refl

run-Ordered_example :
    Behind
      (load asked.workers 1)
      asked.closed
      (of_stream 1 ((0, 7 ∷ []) ∷ (1, 8 ∷ []) ∷ []))
      (of_stream 1 ((0, 7 ∷ []) ∷ []))
run-Ordered_example = run-Ordered 1 asked-Reach

send-Live_example :
    ((asked.streams ≡ [])
      × (send true 103 (pos 5) asked ≡ err no_stream)
      × (asked.closed ≡ false → asked.ending ≡ [] → asked.next_stream ≡ 0))
    ⊎ ((s : ℕ) × Memᴰ s asked.streams
        × (w : Worker) × (load asked.workers s ≡ some w)
        × (send true 103 (pos 5) asked ≡ ok (s, record asked { last_rw = 103 })))
send-Live_example = send-Live true 103 5 asked-Reach

-- The only stream has failed.
abbrev ended : QuicSession
ended = check_last 0 (end_stream 0 (stop_worker 0 (accept_stream (new_quic_session 100))))

ended-closed : (ended.closed ≡ true) × (ended.streams ≡ []) × (ended.workers ≡ [])
unfolding check_last end_stream stop_worker accept_stream new_quic_session close remove_stream
    delete store
ended-closed = (refl, refl, refl)

run-Started_example : (new_quic_session 100).next_stream ≡ 0
unfolding new_quic_session
run-Started_example = run-Started (connected 100) refl refl refl

abbrev two_streams : List ℕ
two_streams = 0 ∷ 1 ∷ []

recv-tcp_example :
    (Tcp.recv first_byte 3 16 (frames ([] ∷ (5 ∷ 6 ∷ []) ∷ [])) message).0
    ≡ over_tcp (recv first_byte (offers ([] ∷ (5 ∷ 6 ∷ []) ∷ [])))
recv-tcp_example =
    recv-tcp first_byte 3 16 ([] ∷ (5 ∷ 6 ∷ []) ∷ []) message message-IsMessage (omega arith)
      ((omega arith, omega arith), ((omega arith, omega arith), tt))
