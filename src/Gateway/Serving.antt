-- ===== src/Gateway/Serving.antt =====
-- component/gateway/proxy.go: the loop of Start, the course of handleSession, and the counter of
-- sessions, for all the sessions of a proxy.
pub mod Counted
pub mod Tests
use nodehub.Base.{
  ℕ, ◌+◌, ◌-◌, ◌%◌, ◌^◌, ◌≡◌, Option, none, some, List, [], ◌∷◌, Bool, true, false, nat_eq, ltb,
  if◌then◌else◌,
}
use nodehub.Base.Int.{ℤ, pos, negsuc}
use nodehub.Base.Map.{Map, load, store}

-- Where handleSession is: in onConnect; behind it, before the counter goes up; in its loop; behind
-- the loop, before the counter goes back; in onDisconnect; or at its end, where the session has
-- been closed.
pub data Phase : Type 0 where
  connecting admitted serving leaving disconnecting closed : Phase

-- A session is the number of its object. `session_count` has the bits of the atomic.Int32.
pub record Serving : Type 0 where
  pub phases : Map ℕ Phase
  pub session_count : ℕ
  pub stopped : Bool

abbrev pub two32 : ℕ
two32 = 2 ^ 32

unfoldable pub new_serving : Serving
new_serving = record { phases = []; session_count = 0; stopped = false }

unfoldable pub enter : ℕ → Phase → Serving → Serving
enter sess phase s = record s { phases = store s.phases sess phase }

-- The loop of Start takes a session: where submitTask fails, it is closed.
unfoldable pub take_session : ℕ → Bool → Serving → Serving
take_session sess submitted s = enter sess (if submitted then connecting else closed) s

-- `sessionCount.Add(1)`; the loop follows.
unfoldable pub count_in : ℕ → Serving → Serving
count_in sess s = enter sess serving (record s { session_count = (s.session_count + 1) % two32 })

-- The deferred `sessionCount.Add(-1)`, which runs before the deferred onDisconnect.
unfoldable pub count_out : ℕ → Serving → Serving
count_out sess s =
    enter sess disconnecting (record s { session_count = (s.session_count + (two32 - 1)) % two32 })

unfoldable pub stop : Serving → Serving
stop s = record s { stopped = true }

-- `SessionCount`, which gwService answers too: the bits as an int32.
unfoldable pub count_sessions : Serving → ℤ
count_sessions s =
    if ltb s.session_count (2 ^ 31)
    then pos s.session_count
    else negsuc (two32 - 1 - s.session_count)

-- How the sessions of a proxy proceed, side by side. The select of Start may take a session that
-- waits even after the proxy was stopped.
pub data Reach : Serving → Type 0 where
  started : Reach new_serving
  taken :
      {s : Serving} (sess : ℕ) (submitted : Bool)
      → Reach s
      → load s.phases sess ≡ none
      → Reach (take_session sess submitted s)
  connect_failed :
      {s : Serving} (sess : ℕ)
      → Reach s
      → load s.phases sess ≡ some connecting
      → Reach (enter sess closed s)
  connected :
      {s : Serving} (sess : ℕ)
      → Reach s
      → load s.phases sess ≡ some connecting
      → Reach (enter sess admitted s)
  counted_in :
      {s : Serving} (sess : ℕ)
      → Reach s
      → load s.phases sess ≡ some admitted
      → Reach (count_in sess s)
  loop_ended :
      {s : Serving} (sess : ℕ)
      → Reach s
      → load s.phases sess ≡ some serving
      → Reach (enter sess leaving s)
  counted_out :
      {s : Serving} (sess : ℕ)
      → Reach s
      → load s.phases sess ≡ some leaving
      → Reach (count_out sess s)
  disconnected :
      {s : Serving} (sess : ℕ)
      → Reach s
      → load s.phases sess ≡ some disconnecting
      → Reach (enter sess closed s)
  stops : {s : Serving} → Reach s → Reach (stop s)
