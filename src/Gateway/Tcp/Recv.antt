-- ===== src/Gateway/Tcp/Recv.antt =====
-- tcpSession.Recv skips heartbeats, and ends.
use nodehub.Base.{
  ℕ, zero, suc, ◌^◌, ◌≤◌, ◌<◌, ◌≡◌, ◌≢◌, refl, ◌∙◌, Option, List, [], ◌∷◌, ◌++◌, nat_eq, length,
  arith,
}
use nodehub.Codec.Bounds.{IsMessage, read_message-IsMessage, read_message-consumes}
use nodehub.Codec.RoundTrip.{read_message-send_bytes}
use nodehub.Codec.{send_bytes, Message}
use nodehub.Gateway.Tcp.{panic, fuel, parse, recv}

-- A stream behind `n` heartbeats.
abbrev pub after_heartbeats : ℕ → List ℕ → List ℕ
after_heartbeats zero stream = stream
after_heartbeats (suc n) stream = send_bytes [] ++ after_heartbeats n stream

not_empty : (p : List ℕ) → p ≢ [] → 0 < length p
not_empty [] h = absurd (h refl)
not_empty (x ∷ xs) h = omega arith

module _ {Request : Type 0} (unmarshal : List ℕ → Option Request) where
  pub recv-heartbeat :
      (f limit : ℕ) (stream : List ℕ) (msg : Message)
      → IsMessage msg
      → (m : Message) × IsMessage m
        × (recv unmarshal (suc f) limit (send_bytes [] ++ stream) msg
            ≡ recv unmarshal f limit stream m)
  unfolding recv
  recv-heartbeat f limit stream msg h =
      let (r, e, a, _, c, d) =
        read_message-send_bytes limit [] stream msg h (omega arith) (omega arith) in
      let (r', e', u, _) = read_message-IsMessage limit (send_bytes [] ++ stream) msg h in
      (r'.message, u, ground (arith, e, e', a, c, d))

  -- Behind any number of heartbeats, with more fuel than heartbeats, a request that is not empty,
  -- within the limit and shorter than 2^32 bytes is received as it was sent, and the stream is
  -- left behind its frame.
  pub recv-after_heartbeats :
      (n f limit : ℕ) (payload rest : List ℕ) (msg : Message)
      → IsMessage msg
      → n < f
      → payload ≢ []
      → length payload < 2 ^ 32
      → length payload ≤ limit
      → recv unmarshal f limit (after_heartbeats n (send_bytes payload ++ rest)) msg
        ≡ (parse unmarshal payload, rest)
  unfolding recv
  recv-after_heartbeats n zero limit payload rest msg h l ne k m = absurd (omega arith)
  recv-after_heartbeats zero (suc f) limit payload rest msg h l ne k m =
      let (r, e, a, b, c, d) = read_message-send_bytes limit payload rest msg h k m in
      ground (arith, e, a, b, c, d, not_empty payload ne)
  recv-after_heartbeats (suc n) (suc f) limit payload rest msg h l ne k m =
      let stream = after_heartbeats n (send_bytes payload ++ rest) in
      let (msg', h', e) = recv-heartbeat f limit stream msg h in
      e ∙ recv-after_heartbeats n f limit payload rest msg' h' (omega arith) ne k m

  -- On a message that can be read into, and with more fuel than the stream has bytes, the loop
  -- ends by itself and without a panic.
  pub recv-total :
      (f limit : ℕ) (stream : List ℕ) (msg : Message)
      → IsMessage msg
      → length stream < f
      → ((recv unmarshal f limit stream msg).0 ≢ fuel)
        × ((recv unmarshal f limit stream msg).0 ≢ panic)
  unfolding recv parse
  recv-total zero limit stream msg h l = absurd (omega arith)
  recv-total (suc f) limit stream msg h l =
      let (r, e, u, _) = read_message-IsMessage limit stream msg h in
      ground (
        arith,
        e,
        read_message-consumes limit stream msg r e,
        recv-total f limit r.rest r.message u,
      )
