-- ===== src/Gateway/Quic.antt =====
-- component/gateway/quic.go: a session over a QUIC connection, with a goroutine for each stream.
pub mod Streams
pub mod Steps
pub mod Ordered
pub mod Live
pub mod Agrees
pub mod Tests
use nodehub.Base.{
  ℕ, zero, suc, ◌+◌, String, ◌≡◌, Option, none, some, List, [], ◌∷◌, ◌++◌, Bool, true, false, not,
  Memᴰ, nat_beq, ltb, if◌then◌else◌, length, get_elem?, nat_eq, Outcome, ok, err, panic,
}
use nodehub.Base.Int.{ℤ, pos, negsuc, rem}
use nodehub.Base.Map.{Map, load, store, delete}

-- The goroutine of a stream: it reads, or offers a message to Recv, or has left its loop and has
-- not removed its stream yet.
pub data Worker : Type 0 where
  reading stopping : Worker
  offering : List ℕ → Worker

-- Streams are numbered in the order of AcceptStream, as their StreamID is. `workers` has the
-- goroutines of the streams that are listed, `ending` those that have removed their stream and have
-- not looked at the number of the others yet; `finished` are the streams that CloseAll has closed,
-- which it leaves listed.
pub record QuicSession : Type 0 where
  pub streams : List ℕ
  pub workers : Map ℕ Worker
  pub next_stream : ℕ
  pub accepting : Bool
  pub closed : Bool
  pub ending : List ℕ
  pub finished : List ℕ
  pub last_rw : ℕ

unfoldable pub new_quic_session : ℕ → QuicSession
new_quic_session now = record {
  streams = [];
  workers = [];
  next_stream = 0;
  accepting = true;
  closed = false;
  ending = [];
  finished = [];
  last_rw = now;
}

-- quicStreams.Remove
unfoldable pub remove_stream : ℕ → List ℕ → List ℕ
remove_stream id [] = []
remove_stream id (s ∷ ss) =
    let rest = remove_stream id ss in if nat_beq s id then rest else s ∷ rest

-- What quicStreams.Pick comes to; `unavailable` is its `false`, `out_of_range` a panic.
pub data Picked : Type 0 where
  picked : ℕ → Picked
  unavailable out_of_range : Picked

-- `ss[i]`
unfoldable pub stream_at : List ℕ → ℤ → Picked
stream_at ss (pos i) = elim (get_elem? ss i) [ some s ↦ picked s | none ↦ out_of_range ]
stream_at ss (negsuc i) = out_of_range

unfoldable pub pick : List ℕ → ℤ → Picked
pick ss service_code =
    if nat_beq (length ss) 0
    then unavailable
    else if nat_beq (length ss) 1
    then stream_at ss (pos 0)
    else stream_at ss (rem service_code (length ss))

-- `closeOnce` makes a second Close do nothing.
unfoldable pub close : QuicSession → QuicSession
close qs = if qs.closed then qs else record qs { closed = true; finished = qs.streams }

-- The loop of handleRequest: a stream is accepted, or AcceptStream fails.
unfoldable pub accept_stream : QuicSession → QuicSession
accept_stream qs = record qs {
  streams = qs.streams ++ qs.next_stream ∷ [];
  workers = store qs.workers qs.next_stream reading;
  next_stream = suc qs.next_stream;
}

unfoldable pub stop_accepting : QuicSession → QuicSession
stop_accepting qs = close (record qs { accepting = false })

-- The worker of a stream has read a message, and offers it.
unfoldable pub offer : ℕ → ℕ → List ℕ → QuicSession → QuicSession
offer now id payload qs = record qs {
  workers = store qs.workers id (offering payload);
  last_rw = now;
}

-- Recv takes the message that a worker offers, and the worker reads on.
unfoldable pub take_offer : ℕ → QuicSession → QuicSession
take_offer id qs = record qs { workers = store qs.workers id reading }

-- The loop of a worker ends: its read has failed, or it has seen `done`.
unfoldable pub stop_worker : ℕ → QuicSession → QuicSession
stop_worker id qs = record qs { workers = store qs.workers id stopping }

-- The deferred function of a worker: Remove, and from Len on, where the session is closed when
-- there are no streams left.
unfoldable pub end_stream : ℕ → QuicSession → QuicSession
end_stream id qs = record qs {
  streams = remove_stream id qs.streams;
  workers = delete qs.workers id;
  ending = id ∷ qs.ending;
}

unfoldable pub check_last : ℕ → QuicSession → QuicSession
check_last id qs =
    let left = record qs { ending = remove_stream id qs.ending } in
    if nat_beq (length qs.streams) 0 then close left else left

-- How the goroutines of a session interleave: the session, the messages that its workers have
-- read, and those that Recv has taken, each with its stream.
pub data Reach : QuicSession → List (ℕ × List ℕ) → List (ℕ × List ℕ) → Type 0 where
  connected : (now : ℕ) → Reach (new_quic_session now) [] []
  stream_accepted :
      {qs : QuicSession} {read taken : List (ℕ × List ℕ)}
      → Reach qs read taken
      → qs.accepting ≡ true
      → Reach (accept_stream qs) read taken
  accept_failed :
      {qs : QuicSession} {read taken : List (ℕ × List ℕ)}
      → Reach qs read taken
      → qs.accepting ≡ true
      → Reach (stop_accepting qs) read taken
  message_read :
      {qs : QuicSession} {read taken : List (ℕ × List ℕ)} (now id : ℕ) (payload : List ℕ)
      → Reach qs read taken
      → load qs.workers id ≡ some reading
      → Reach (offer now id payload qs) (read ++ (id, payload) ∷ []) taken
  read_failed :
      {qs : QuicSession} {read taken : List (ℕ × List ℕ)} (id : ℕ)
      → Reach qs read taken
      → load qs.workers id ≡ some reading
      → Reach (stop_worker id qs) read taken
  saw_done :
      {qs : QuicSession} {read taken : List (ℕ × List ℕ)} (id : ℕ) (payload : List ℕ)
      → Reach qs read taken
      → load qs.workers id ≡ some (offering payload)
      → qs.closed ≡ true
      → Reach (stop_worker id qs) read taken
  stream_removed :
      {qs : QuicSession} {read taken : List (ℕ × List ℕ)} (id : ℕ)
      → Reach qs read taken
      → load qs.workers id ≡ some stopping
      → Reach (end_stream id qs) read taken
  last_checked :
      {qs : QuicSession} {read taken : List (ℕ × List ℕ)} (id : ℕ)
      → Reach qs read taken
      → Memᴰ id qs.ending
      → Reach (check_last id qs) read taken
  message_taken :
      {qs : QuicSession} {read taken : List (ℕ × List ℕ)} (id : ℕ) (payload : List ℕ)
      → Reach qs read taken
      → load qs.workers id ≡ some (offering payload)
      → Reach (take_offer id qs) read (taken ++ (id, payload) ∷ [])
  hung_up :
      {qs : QuicSession} {read taken : List (ℕ × List ℕ)}
      → Reach qs read taken
      → Reach (close qs) read taken

-- What the `select` of Recv chooses: the closed `done`, a message, or a closed `msgC`.
pub data Choice : Type 0 where
  done channel_closed : Choice
  offered : List ℕ → Choice

-- `waiting`: Recv has not returned.
pub data Received (Request : Type 0) : Type 0 where
  request : Request → Received Request
  bad_request eof waiting : Received Request

-- `proto.Unmarshal` of a request is a parameter. An empty message is a ping.
module _ {Request : Type 0} (unmarshal : List ℕ → Option Request) where
  unfoldable pub recv : List Choice → Received Request
  recv [] = waiting
  recv (done ∷ choices) = eof
  recv (channel_closed ∷ choices) = eof
  recv (offered payload ∷ choices) =
      let rest = recv choices in
      if nat_beq (length payload) 0
      then rest
      else elim (unmarshal payload) [ some req ↦ request req | none ↦ bad_request ]

pub data SendError : Type 0 where
  no_stream write_failed : SendError

-- Send, with whether the write to the stream succeeds: the stream that was written to.
unfoldable pub send : Bool → ℕ → ℤ → QuicSession → Outcome SendError (ℕ × QuicSession)
send written now service_code qs = elim (pick qs.streams service_code) [
  | unavailable ↦ err no_stream
  | out_of_range ↦ panic
  | picked s ↦ if written then ok (s, record qs { last_rw = now }) else err write_failed
]

-- The errors of quic-go that matter here.
pub data QuicError : Type 0 where
  application_error : ℕ → QuicError
  idle_timeout other : QuicError

unfoldable pub is_unexpected_quic_error : Option QuicError → Bool
is_unexpected_quic_error none = false
is_unexpected_quic_error (some (application_error code)) = ltb 0 code
is_unexpected_quic_error (some idle_timeout) = false
is_unexpected_quic_error (some other) = true
