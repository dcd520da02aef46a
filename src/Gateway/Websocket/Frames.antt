-- ===== src/Gateway/Websocket/Frames.antt =====
-- What the loop of a WebSocket session makes of the frames of its client.
use nodehub.Base.{ℕ, ◌≡◌, refl, ap, Option, none, some, List, [], ◌∷◌, ◌++◌, false, ◌==◌, nat_eq}
use nodehub.Gateway.Websocket.{
  WsSession, Frame, frame, close_error, connection_closed, eof, unexpected_type, binary_message,
  is_close_error, read, recv, recv_all, round, close_normal_closure, close_going_away,
  close_abnormal_closure,
}

-- A binary frame at each time.
abbrev pub frames : List (ℕ × List ℕ) → List (ℕ × Frame)
frames [] = []
frames ((now, message) ∷ messages) = (now, frame binary_message message) ∷ frames messages

-- The time of the last one.
abbrev pub last_time : ℕ → List (ℕ × List ℕ) → ℕ
last_time start [] = start
last_time start ((now, message) ∷ messages) = last_time now messages

-- The frames by which a client leaves in order.
pub data Leaves : Frame → Type 0 where
  closes_normally : Leaves (close_error close_normal_closure)
  goes_away : Leaves (close_error close_going_away)
  closes_abnormally : Leaves (close_error close_abnormal_closure)
  is_gone : Leaves connection_closed

module _ {Request : Type 0} (unmarshal : List ℕ → Option Request) where
  -- The messages decode as the requests.
  pub data Decode : List (ℕ × List ℕ) → List Request → Type 0 where
    decodes_none : Decode [] []
    decodes :
        {messages : List (ℕ × List ℕ)} {reqs : List Request} (now : ℕ) (message : List ℕ)
        (req : Request)
        → unmarshal message ≡ some req
        → Decode messages reqs
        → Decode ((now, message) ∷ messages) (req ∷ reqs)

  abbrev pub active : ℕ → WsSession
  active now = record { closed = false; last_rw = now }

  recv_all-read :
      (start now : ℕ) (message : List ℕ) (req : Request) (later : List (ℕ × Frame))
      → unmarshal message ≡ some req
      → recv_all unmarshal ((now, frame binary_message message) ∷ later) (active start)
        ≡ (let rest = recv_all unmarshal later (active now) in (req ∷ rest.0, rest.1))
  unfolding recv_all recv read round
  recv_all-read start now message req later e = rw e refl

  recv_all-Leaves :
      (start now : ℕ) (f : Frame) (later : List (ℕ × Frame))
      → Leaves f
      → recv_all unmarshal ((now, f) ∷ later) (active start) ≡ ([], (some eof, active start))
  unfolding recv_all recv read is_close_error round
  recv_all-Leaves start now f later closes_normally = refl
  recv_all-Leaves start now f later goes_away = refl
  recv_all-Leaves start now f later closes_abnormally = refl
  recv_all-Leaves start now f later is_gone = refl

  recv-unexpected :
      (start now type : ℕ) (message : List ℕ)
      → (type == binary_message) ≡ false
      → recv unmarshal now (frame type message) (active start)
        ≡ (unexpected_type type, active start)
  unfolding recv read
  recv-unexpected start now type message n = rw n refl

  recv_all-unexpected :
      (start now type : ℕ) (message : List ℕ) (later : List (ℕ × Frame))
      → (type == binary_message) ≡ false
      → recv_all unmarshal ((now, frame type message) ∷ later) (active start)
        ≡ ([], (some (unexpected_type type), active start))
  unfolding recv_all round
  recv_all-unexpected start now type message later n =
      ap (λ a. round unmarshal a (recv_all unmarshal later a.1))
        (recv-unexpected start now type message n)

  -- On an open session that was last active at a time, binary frames that decode are received as
  -- the requests, in order, and the session was then last active at the last of them; behind them
  -- the session waits, or ends as the next frame says: in order where the client leaves or the
  -- connection is closed, and with an error at a frame of another type, which is no activity.
  pub recv_all-frames :
      (start : ℕ) (messages : List (ℕ × List ℕ)) (reqs : List Request)
      → Decode messages reqs
      → let left = active (last_time start messages) in
        (recv_all unmarshal (frames messages) (active start) ≡ (reqs, (none, left)))
        × ((now : ℕ) (f : Frame) (later : List (ℕ × Frame))
            → Leaves f
            → recv_all unmarshal (frames messages ++ (now, f) ∷ later) (active start)
              ≡ (reqs, (some eof, left)))
        × ((now type : ℕ) (message : List ℕ) (later : List (ℕ × Frame))
            → (type == binary_message) ≡ false
            → recv_all unmarshal
                (frames messages ++ (now, frame type message) ∷ later)
                (active start)
              ≡ (reqs, (some (unexpected_type type), left)))
  unfolding recv_all
  recv_all-frames start [] [] decodes_none =
      (refl, recv_all-Leaves start, recv_all-unexpected start)
  recv_all-frames start (_ ∷ messages) (_ ∷ reqs) (decodes now message req e d) =
      let (a, b, w) = recv_all-frames now messages reqs d in
      (
        rw (recv_all-read start now message req (frames messages) e, a) refl,
        (λ t f later l.
            rw
              (
                recv_all-read start now message req (frames messages ++ (t, f) ∷ later) e,
                b t f later l,
              )
              refl),
        (λ t type m later n.
            rw
              (
                recv_all-read start now message req (frames messages ++ (t, frame type m) ∷ later)
                    e,
                w t type m later n,
              )
              refl),
      )
  recv_all-frames start [] (_ ∷ reqs) d = elim d [ ]
  recv_all-frames start (_ ∷ messages) [] d = elim d [ ]
