-- ===== src/Gateway/Quic/Live.antt =====
-- Messages, streams and replies of a QUIC session however its goroutines interleave.
use nodehub.Base.{
  Bool, if◌then◌else◌, ℕ, ◌≡◌, ◌≢◌, refl, inl, inr, ◌⊎◌, some, List, [], ◌∷◌, ◌++◌, length, Memᴰ,
  nat_beq, nat_eq, if-cases, arith, false, subst, ok, err,
}
use nodehub.Base.Int.{pos}
use nodehub.Base.Map.{load}
use nodehub.Gateway.Quic.{
  Worker, reading, offering, stop_worker, stream_removed, write_failed, QuicSession, Reach, close,
  accept_stream, stop_accepting, offer, take_offer, end_stream, check_last, last_checked,
  new_quic_session, connected, stream_accepted, accept_failed, message_read, read_failed, saw_done,
  message_taken, hung_up, send, no_stream,
}
use nodehub.Gateway.Quic.Steps.{mem-keys, of_stream}
use nodehub.Gateway.Quic.Streams.{pick-pos}
use nodehub.Gateway.Quic.Ordered.{
  Behind, Flows, close-Flows, accept_stream-Flows, offer-Flows, take_offer-Flows, stop_worker-Flows,
  end_stream-Flows, check_last-Flows,
}

-- An open session without streams, of which no worker is about to look at their number, has never
-- had one.
abbrev pub Started : QuicSession → Type 0
Started qs = qs.closed ≡ false → qs.streams ≡ [] → qs.ending ≡ [] → qs.next_stream ≡ 0

close-Started : (qs : QuicSession) → Started (close qs)
unfolding close
close-Started qs =
    if-cases Started qs.closed _ _ (λ e c. absurd (ground (arith, e, c)))
      (λ e c. absurd (ground (arith, c)))

end_stream-Started : (id : ℕ) (qs : QuicSession) → Started (end_stream id qs)
unfolding end_stream
end_stream-Started id qs c e n = absurd (ground (arith, n))

check_last-Started : (id : ℕ) (qs : QuicSession) → Started (check_last id qs)
unfolding check_last
check_last-Started id qs =
    if-cases Started (nat_beq (length qs.streams) 0) _ _ (λ _. close-Started _)
      (λ ne _ e. absurd (ground (arith, ne, e)))

append_one : (ss : List ℕ) (s : ℕ) → ss ++ s ∷ [] ≢ []
append_one [] s e = absurd (ground (arith, e))
append_one (t ∷ ss) s e = absurd (ground (arith, e))

pub run-Flows :
    {qs : QuicSession} {read taken : List (ℕ × List ℕ)}
    → Reach qs read taken
    → Flows qs read taken × Started qs
unfolding new_quic_session accept_stream offer take_offer stop_worker stop_accepting load
run-Flows (connected now) = (
  record { alive = refl; fresh = λ id l. (refl, refl, refl); ordered = λ id. inl refl },
  λ _ _ _. refl,
)
run-Flows (stream_accepted h e) =
    let (f, s) = run-Flows h in (accept_stream-Flows _ f, λ _ e _. absurd (append_one _ _ e))
run-Flows (accept_failed h e) =
    let (f, s) = run-Flows h in
    (
      close-Flows _ (record { alive = f.alive; fresh = f.fresh; ordered = f.ordered }),
      close-Started _,
    )
run-Flows (message_read now id payload h e) =
    let (f, s) = run-Flows h in (offer-Flows _ now id payload e f, s)
run-Flows (read_failed id h e) =
    let (f, s) = run-Flows h in (stop_worker-Flows _ id reading e tt f, s)
run-Flows (saw_done id payload h e c) =
    let (f, s) = run-Flows h in (stop_worker-Flows _ id (offering payload) e c f, s)
run-Flows (stream_removed id h e) =
    let (f, s) = run-Flows h in (end_stream-Flows _ id e f, end_stream-Started id _)
run-Flows (last_checked id h m) =
    let (f, s) = run-Flows h in (check_last-Flows _ id f, check_last-Started id _)
run-Flows (message_taken id payload h e) =
    let (f, s) = run-Flows h in (take_offer-Flows _ id payload e f, s)
run-Flows (hung_up h) = let (f, s) = run-Flows h in (close-Flows _ f, close-Started _)

-- However the goroutines of a session interleave: of every stream, Recv has taken the messages that
-- its worker has read, in order and each once, but for at most the last one; a message is only ever
-- lost after the session is closed, and the last one of a live worker is still offered.
pub run-Ordered :
    {qs : QuicSession} {read taken : List (ℕ × List ℕ)} (id : ℕ)
    → Reach qs read taken
    → Behind (load qs.workers id) qs.closed (of_stream id read) (of_stream id taken)
run-Ordered id h = (run-Flows h).0.ordered id

-- A session that is open and has no stream, and of which no worker that has removed its stream is
-- still to look at the number of the others, has never had one: with its last stream it is closed.
pub run-Started :
    {qs : QuicSession} {read taken : List (ℕ × List ℕ)}
    → Reach qs read taken
    → qs.closed ≡ false
    → qs.streams ≡ []
    → qs.ending ≡ []
    → qs.next_stream ≡ 0
run-Started h = (run-Flows h).1

-- In every state that a session can come to, a reply with a service code that is not negative does
-- not panic. Either no stream is listed and Send answers so: then, if the session is open and no
-- worker that has removed its stream is still to look at the number of the others, there has never
-- been a stream. Or the reply goes to a listed stream, whose worker has not removed it yet, though
-- it may have left its loop: then Send fails exactly where the write fails, and it counts as
-- activity of the session only where it succeeds.
pub send-Live :
    {qs : QuicSession} {read taken : List (ℕ × List ℕ)} (written : Bool) (now n : ℕ)
    → Reach qs read taken
    → ((qs.streams ≡ [])
        × (send written now (pos n) qs ≡ err no_stream)
        × (qs.closed ≡ false → qs.ending ≡ [] → qs.next_stream ≡ 0))
      ⊎ ((s : ℕ) × Memᴰ s qs.streams
          × (w : Worker) × (load qs.workers s ≡ some w)
          × (send written now (pos n) qs
              ≡ (if written then ok (s, record qs { last_rw = now }) else err write_failed)))
unfolding send
send-Live {qs} written now n h = elim (pick-pos qs.streams n) [
  | inl (e, p) ↦ inl (e, rw (p, send) refl, λ c n. (run-Flows h).1 c e n)
  | inr (s, p, m) ↦
      let (w, l) = mem-keys qs.workers s (subst (Memᴰ s) (run-Flows h).0.alive m) in
      inr (s, m, w, l, rw (p, send) refl)
]
