-- ===== src/Gateway/Quic/Agrees.antt =====
-- quicSession.Recv and tcpSession.Recv on the same messages.
use nodehub.Base.{
  ℕ, zero, suc, ◌^◌, ◌≤◌, ◌<◌, ◌≡◌, Option, List, [], ◌∷◌, ◌++◌, nat_eq, nat_beq, length, All,
  arith, Bool-cases, inl, inr,
}
use nodehub.Codec.Bounds.{IsMessage, read_message-IsMessage}
use nodehub.Codec.RoundTrip.{read_message-send_bytes}
use nodehub.Codec.{send_bytes, Message, read_message, size_frame}
use nodehub.Gateway.Tcp
use nodehub.Gateway.Tcp.{parse}
use nodehub.Gateway.Quic.{Received, request, bad_request, eof, waiting, recv, Choice, offered}

-- The bytes of messages that were sent one behind the other.
abbrev pub frames : List (List ℕ) → List ℕ
frames [] = []
frames (p ∷ ps) = send_bytes p ++ frames ps

abbrev pub offers : List (List ℕ) → List Choice
offers [] = []
offers (p ∷ ps) = offered p ∷ offers ps

abbrev pub Sendable : ℕ → List ℕ → Type 0
Sendable limit payload = (length payload < 2 ^ 32) × (length payload ≤ limit)

-- Where a session over TCP meets the end of its stream, one over QUIC waits.
abbrev pub over_tcp : {Request : Type 0} → Received Request → Tcp.Received Request
over_tcp (request req) = Tcp.request req
over_tcp bad_request = Tcp.bad_request
over_tcp eof = Tcp.read_failed size_frame
over_tcp waiting = Tcp.read_failed size_frame

module _ {Request : Type 0} (unmarshal : List ℕ → Option Request) where
  -- On messages within the limit and shorter than 2^32 bytes, with more fuel than messages, Recv of
  -- a TCP session comes to what Recv of a QUIC session comes to on the same messages: both skip the
  -- empty ones and decode the first other one; behind the last message the one meets the end of
  -- its stream, and the other waits.
  pub recv-tcp :
      (f limit : ℕ) (payloads : List (List ℕ)) (msg : Message)
      → IsMessage msg
      → length payloads < f
      → All (Sendable limit) payloads
      → (Tcp.recv unmarshal f limit (frames payloads) msg).0
        ≡ over_tcp (recv unmarshal (offers payloads))
  unfolding Tcp.recv recv parse read_message
  recv-tcp zero limit payloads msg h l a = absurd (omega arith)
  recv-tcp (suc f) limit [] msg h l a = ground (arith, h)
  recv-tcp (suc f) limit (p ∷ ps) msg h l a =
      let (r, e, c, b, s, n) = read_message-send_bytes limit p (frames ps) msg h a.0.0 a.0.1 in
      let (r', e', u, _) = read_message-IsMessage limit (send_bytes p ++ frames ps) msg h in
      elim (Bool-cases (nat_beq (length p) 0)) [
        | inl z ↦
            let ih = recv-tcp f limit ps r'.message u (omega arith) a.1 in
            ground (arith, e, e', c, s, n, z, ih)
        | inr z ↦ ground (arith, e, c, b, n, z)
      ]
