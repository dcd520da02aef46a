-- ===== src/Gateway/Client/Wire/Streams.antt =====
-- Which stream a client over QUIC writes the messages of a service to.
use nodehub.Base.{
  ℕ, ◌+◌, ◌%◌, ◌≡◌, ◌≢◌, ◌↔◌, refl, ◌∙◌, none, some, List, [], ◌∷◌, ◌++◌, ◌==◌, nat_eq,
  if◌then◌else◌, arith,
}
use nodehub.Base.Int.{ℤ, pos, negsuc, rem}
use nodehub.Codec.{send_bytes}
use nodehub.Gateway.Client.Wire.{
  write_to, write_at, quic_send, quic_send_all, new_streams, tcp_send,
}
use nodehub.Gateway.Client.Wire.Requests.{append_assoc, append_nil}

-- The messages to services with a remainder, in order, framed one behind the other.
abbrev pub stream_for : ℕ → List (ℕ × List ℕ) → List ℕ
stream_for i [] = []
stream_for i ((service, payload) ∷ sends) =
    let rest = stream_for i sends in if service % 3 == i then send_bytes payload ++ rest else rest

abbrev pub to_services : List (ℕ × List ℕ) → List (ℤ × List ℕ)
to_services [] = []
to_services ((service, payload) ∷ sends) = (pos service, payload) ∷ to_services sends

append_if :
    (s : List ℕ) (service : ℕ) (payload : List ℕ) (sends : List (ℕ × List ℕ)) (i : ℕ)
    → (if service % 3 == i then s ++ send_bytes payload else s) ++ stream_for i sends
      ≡ s ++ stream_for i ((service, payload) ∷ sends)
append_if s service payload sends i =
    let m = append_assoc s (send_bytes payload) (stream_for i sends) in ground (arith, m)

send_one :
    (service : ℕ) (payload a b c : List ℕ)
    → quic_send (pos service) payload (a ∷ b ∷ c ∷ [])
      ≡ some (
          (if service % 3 == 0 then a ++ send_bytes payload else a)
          ∷ (if service % 3 == 1 then b ++ send_bytes payload else b)
          ∷ (if service % 3 == 2 then c ++ send_bytes payload else c)
          ∷ [])
unfolding quic_send write_at write_to rem tcp_send
send_one service payload a b c = ground arith

send_all :
    (sends : List (ℕ × List ℕ)) (a b c : List ℕ)
    → quic_send_all (to_services sends) (a ∷ b ∷ c ∷ [])
      ≡ some
          ((a ++ stream_for 0 sends) ∷ (b ++ stream_for 1 sends) ∷ (c ++ stream_for 2 sends) ∷ [])
unfolding quic_send_all
send_all [] a b c = rw (append_nil a, append_nil b, append_nil c) refl
send_all ((service, payload) ∷ sends) a b c =
    let x = if service % 3 == 0 then a ++ send_bytes payload else a in
    let y = if service % 3 == 1 then b ++ send_bytes payload else b in
    let z = if service % 3 == 2 then c ++ send_bytes payload else c in
    rw (quic_send_all, send_one service payload a b c)
      (send_all sends x y z
        ∙ rw
            (
              append_if a service payload sends 0,
              append_if b service payload sends 1,
              append_if c service payload sends 2,
            )
            refl)

send-panics_iff :
    (n : ℕ) (payload a b c : List ℕ)
    → (quic_send (negsuc n) payload (a ∷ b ∷ c ∷ []) ≡ none) ↔ ((n + 1) % 3 ≢ 0)
unfolding quic_send write_at write_to rem
send-panics_iff n payload a b c = ground arith

-- What a new client over QUIC sends to services goes to the first, the second or the third stream
-- by the remainder of the service's code, so that the messages of a service are all on one stream,
-- in order; and a message to a service with a negative code panics if and only if three does not
-- divide the code, whatever has been written.
pub quic_send_all-new_streams :
    (sends : List (ℕ × List ℕ))
    → (quic_send_all (to_services sends) new_streams
        ≡ some (stream_for 0 sends ∷ stream_for 1 sends ∷ stream_for 2 sends ∷ []))
      × ((n : ℕ) (payload a b c : List ℕ)
          → (quic_send (negsuc n) payload (a ∷ b ∷ c ∷ []) ≡ none) ↔ ((n + 1) % 3 ≢ 0))
unfolding new_streams
quic_send_all-new_streams sends = (send_all sends [] [] [], send-panics_iff)
