-- ===== src/Gateway/Downlink.antt =====
-- component/gateway/proxy.go: the messages that the cluster sends to the sessions, the removal of
-- dead sessions, and what the loop of handleSession does with the requests that it receives.
pub mod Targets
pub mod Tests
use nodehub.Base.{
  ℕ, ◌+◌, ◌*◌, String, Option, none, some, List, [], ◌∷◌, Bool, true, false, not, ◌==◌, string_eq,
  if◌then◌else◌, ltb,
}
use nodehub.Base.Map.{Map}
use nodehub.Gateway.SessionHub.{HubSession, SessionHub, look_up}
use nodehub.Gateway.Lifecycle.{hang_up_session}
use nodehub.Gateway.Proxy.{Request}
use nodehub.Multicast.{Dispatcher, Event, Message, hears, run}

unfoldable pub look_up_all : SessionHub → List String → List HubSession
look_up_all hub [] = []
look_up_all hub (id ∷ receiver) =
    let rest = look_up_all hub receiver in
    elim (look_up hub id) [ some sess ↦ sess ∷ rest | none ↦ rest ]

-- The sessions that `Range` meets.
unfoldable pub everyone : Map String HubSession → List HubSession
everyone [] = []
everyone ((id, sess) ∷ sessions) = sess ∷ everyone sessions

unfoldable pub targets : SessionHub → Message → List HubSession
targets hub msg = elim msg.receiver [
  | id ∷ receiver ↦ look_up_all hub (id ∷ receiver)
  | [] ↦ if msg.to_everyone then everyone hub.sessions else []
]

-- The sessions whose task is accepted; each task sends the content.
unfoldable pub submitted : (HubSession → Bool) → List HubSession → List HubSession
submitted accepts [] = []
submitted accepts (sess ∷ sessions) =
    let rest = submitted accepts sessions in if accepts sess then sess ∷ rest else rest

unfoldable pub deliver : (HubSession → Bool) → SessionHub → Message → List HubSession
deliver accepts hub msg = submitted accepts (targets hub msg)

-- A round of removeZombie: `last_rw` is the time at which a session was last read or written.
unfoldable pub remove_zombies :
    (HubSession → ℕ) → ℕ → ℕ → Map String HubSession → SessionHub → SessionHub
remove_zombies last_rw keepalive now [] hub = hub
remove_zombies last_rw keepalive now ((id, sess) ∷ sessions) hub =
    remove_zombies last_rw keepalive now sessions
      (if ltb (last_rw sess + keepalive) now then hang_up_session hub sess else hub)

-- What the loop of handleSession meets: a request, and whether its task is accepted; an error; the
-- end of the proxy.
pub data Received : Type 0 where
  got : Request → Bool → Received
  recv_failed proxy_done : Received

-- The requests that are handled at once, and those for the stream workers, each in order.
unfoldable pub session_loop : List Received → List Request × List Request
session_loop [] = ([], [])
session_loop (recv_failed ∷ events) = ([], [])
session_loop (proxy_done ∷ events) = ([], [])
session_loop (got req accepts ∷ events) =
    let rest = session_loop events in
    if req.stream == ""
    then (if accepts then (req ∷ rest.0, rest.1) else rest)
    else (rest.0, req ∷ rest.1)

abbrev pub request_capacity : ℕ
request_capacity = 10

abbrev pub request_idle : ℕ
request_idle = 1 * 60

-- The workers are those of Multicast; only requests with a stream come here.
unfoldable pub handle_request_stream :
    Dispatcher Request → List (Event Request) → Dispatcher Request
handle_request_stream d events = run (λ req. req.stream) request_capacity request_idle d events
