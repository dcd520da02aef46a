-- ===== src/Gateway/Client/Wire/Requests.antt =====
-- What a session over TCP receives of what a client sends.
use nodehub.Base.{
  ℕ, zero, suc, ◌+◌, ◌^◌, ◌≤◌, ◌<◌, ◌≡◌, ◌≢◌, refl, sym, ap, ◌∙◌, Option, some, List, [], ◌∷◌, ◌++◌,
  length, All, arith,
}
use nodehub.Codec.Bounds.{IsMessage}
use nodehub.Codec.{send_bytes, Message, read_message, size_frame}
use nodehub.Gateway.Client.Wire.{Action, pings, sends, act, act_all, tcp_send, tcp_ping}
use nodehub.Gateway.Tcp.{Received, read_failed, parse, recv, recv_all, round}
use nodehub.Gateway.Tcp.Recv.{after_heartbeats, recv-after_heartbeats, recv-heartbeat}

abbrev stream_of : List Action → List ℕ
stream_of [] = []
stream_of (pings ∷ actions) = send_bytes [] ++ stream_of actions
stream_of (sends payload ∷ actions) = send_bytes payload ++ stream_of actions

pub append_assoc : (xs ys zs : List ℕ) → (xs ++ ys) ++ zs ≡ xs ++ (ys ++ zs)
append_assoc [] ys zs = refl
append_assoc (x ∷ xs) ys zs = ap (◌∷◌ x) (append_assoc xs ys zs)

pub append_nil : (xs : List ℕ) → xs ++ [] ≡ xs
append_nil [] = refl
append_nil (x ∷ xs) = ap (◌∷◌ x) (append_nil xs)

act_all-stream_of :
    (actions : List Action) (written : List ℕ)
    → act_all actions written ≡ written ++ stream_of actions
unfolding act_all act tcp_send tcp_ping
act_all-stream_of [] written = sym (append_nil written)
act_all-stream_of (pings ∷ actions) written =
    act_all-stream_of actions (written ++ send_bytes [])
    ∙ append_assoc written (send_bytes []) (stream_of actions)
act_all-stream_of (sends payload ∷ actions) written =
    act_all-stream_of actions (written ++ send_bytes payload)
    ∙ append_assoc written (send_bytes payload) (stream_of actions)

heartbeat_first :
    (k : ℕ) (stream : List ℕ)
    → after_heartbeats k (send_bytes [] ++ stream) ≡ after_heartbeats (suc k) stream
heartbeat_first zero stream = refl
heartbeat_first (suc k) stream = ap (λ s. send_bytes [] ++ s) (heartbeat_first k stream)

module _ {Request : Type 0} (unmarshal : List ℕ → Option Request) (limit : ℕ) where
  -- What is sent, heartbeats aside, are these requests, encoded within the limit.
  pub data Encodes : List Action → List Request → Type 0 where
    nothing : Encodes [] []
    heartbeat :
        {actions : List Action} {reqs : List Request}
        → Encodes actions reqs
        → Encodes (pings ∷ actions) reqs
    encodes :
        {actions : List Action} {reqs : List Request} (payload : List ℕ) (req : Request)
        → payload ≢ []
        → length payload < 2 ^ 32
        → length payload ≤ limit
        → unmarshal payload ≡ some req
        → Encodes actions reqs
        → Encodes (sends payload ∷ actions) (req ∷ reqs)

  recv-end :
      (k f : ℕ) (msg : Message)
      → IsMessage msg
      → k < f
      → (recv unmarshal f limit (after_heartbeats k []) msg).0 ≡ read_failed size_frame
  unfolding recv read_message
  recv-end k zero msg h l = absurd (omega arith)
  recv-end zero (suc f) msg h l = ground (arith, h)
  recv-end (suc k) (suc f) msg h l =
      let (m, h', e) = recv-heartbeat unmarshal f limit (after_heartbeats k []) msg h in
      ap (λ r. r.0) e ∙ recv-end k f m h' (omega arith)

  round-failed :
      (r : Received Request × List ℕ) (rest : List Request × Option (Received Request))
      → r.0 ≡ read_failed size_frame
      → round unmarshal r.0 rest ≡ ([], some (read_failed size_frame))
  unfolding round
  round-failed r rest e = rw e refl

  recv_all-after :
      (f : ℕ) (actions : List Action) (reqs : List Request) (k : ℕ) (messages : List Message)
      → Encodes actions reqs
      → k + length actions < f
      → All IsMessage messages
      → length reqs < length messages
      → recv_all unmarshal f limit (after_heartbeats k (stream_of actions)) messages
        ≡ (reqs, some (read_failed size_frame))
  unfolding recv_all round parse
  recv_all-after f actions reqs k [] en l a m = absurd (omega arith)
  recv_all-after f [] (_ ∷ reqs) k (msg ∷ msgs) en l a m = elim en [ ]
  recv_all-after f [] [] k (msg ∷ msgs) nothing l a m =
      round-failed (recv unmarshal f limit (after_heartbeats k []) msg)
        (recv_all unmarshal f limit (recv unmarshal f limit (after_heartbeats k []) msg).1 msgs)
        (recv-end k f msg a.0 (omega arith))
  recv_all-after f (pings ∷ actions) reqs k (msg ∷ msgs) (heartbeat en) l a m =
      ap (λ s. recv_all unmarshal f limit s (msg ∷ msgs)) (heartbeat_first k (stream_of actions))
      ∙ recv_all-after f actions reqs (suc k) (msg ∷ msgs) en (omega arith) a m
  recv_all-after f (_ ∷ actions) (_ ∷ reqs) k (msg ∷ msgs) (encodes p req ne s b d en) l a m =
      let e =
        recv-after_heartbeats unmarshal k f limit p (stream_of actions) msg a.0 (omega arith) ne s
          b in
      let ih = recv_all-after f actions reqs zero msgs en (omega arith) a.1 (omega arith) in
      rw (e, parse, d, ih) refl

  -- What a client has written on a TCP connection, requests that decode and are within the limit
  -- and heartbeats between them, the session receives as these requests, in order; and then it
  -- meets the end of the stream. Fuel for one more than the client has sent, and a message of the
  -- pool for each request and one more, are enough.
  pub recv_all-act_all :
      (f : ℕ) (actions : List Action) (reqs : List Request) (messages : List Message)
      → Encodes actions reqs
      → length actions < f
      → All IsMessage messages
      → length reqs < length messages
      → recv_all unmarshal f limit (act_all actions []) messages
        ≡ (reqs, some (read_failed size_frame))
  recv_all-act_all f actions reqs messages en l a m =
      ap (λ s. recv_all unmarshal f limit s messages) (act_all-stream_of actions [])
      ∙ recv_all-after f actions reqs zero messages en (omega arith) a m
