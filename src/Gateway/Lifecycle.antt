-- ===== src/Gateway/Lifecycle.antt =====
-- component/gateway/proxy.go: a user's session from onConnect to onDisconnect, the job that cleans
-- its routes five minutes later, and the events of the cluster that the gateway subscribes to.
pub mod Sets
pub mod Sound
pub mod Ends
pub mod Leaks
pub mod Settled
pub mod Tests
use nodehub.Base.{
  ℕ, ◌+◌, String, Option, none, some, List, [], ◌∷◌, Bool, true, false, ◌&&◌, ◌||◌, not, ◌==◌,
  nat_eq, string_eq, if◌then◌else◌,
}
use nodehub.Base.Int.{ℤ}
use nodehub.Base.Map
use nodehub.Base.Map.{Map}
use nodehub.Gateway.StateTable.{
  StateTable, new_state_table, store, remove, clean_node, clean_session,
}
use nodehub.Gateway.SessionHub.{
  HubSession, SessionHub, new_session_hub, add, look_up, drop_session, close_hub,
}

abbrev pub Metadata : Type 0
Metadata = List (String × List String)

-- A timer of `time.AfterFunc` that was not stopped and whose function has not ended; once it has
-- expired, the function is under way.
pub record Timer : Type 0 where
  pub number : ℕ
  pub user : String
  pub expired : Bool

pub data UserEvent : Type 0 where
  user_connected user_disconnected : String → UserEvent

-- `live` lists the sessions whose onConnect succeeded and whose onDisconnect is still to come.
pub record Gateway : Type 0 where
  pub sessions : SessionHub
  pub state_table : StateTable
  pub clean_jobs : Map String ℕ
  pub timers : List Timer
  pub next_timer : ℕ
  pub metadata : Map ℕ Metadata
  pub live : List HubSession
  pub published : List UserEvent

unfoldable pub new_gateway : Gateway
new_gateway = record {
  sessions = new_session_hub;
  state_table = new_state_table;
  clean_jobs = [];
  timers = [];
  next_timer = 0;
  metadata = [];
  live = [];
  published = [];
}

-- `blocked` is the receive from the channel of a timer of AfterFunc, which never ends.
pub data Connected : Type 0 where
  connected denied empty_user intercepted blocked publish_failed : Connected

-- A timer is found by its user and its number.
unfoldable pub is_timer : String → ℕ → Timer → Bool
is_timer user number t = t.user == user && t.number == number

unfoldable pub is_pending : String → ℕ → List Timer → Bool
unfolding is_timer
is_pending user number [] = false
is_pending user number (t ∷ timers) =
    if is_timer user number t then not t.expired else is_pending user number timers

unfoldable pub drop_timer : String → ℕ → List Timer → List Timer
unfolding is_timer
drop_timer user number [] = []
drop_timer user number (t ∷ timers) =
    let rest = drop_timer user number timers in if is_timer user number t then rest else t ∷ rest

unfoldable pub hang_up_session : SessionHub → HubSession → SessionHub
hang_up_session hub sess = record hub { hung_up = sess.object ∷ hub.hung_up }

unfoldable pub close_previous : String → Gateway → Gateway
close_previous user g = elim (look_up g.sessions user) [
  | some prev ↦ record g { sessions = hang_up_session g.sessions prev }
  | none ↦ g
]

-- `none` is the receive that blocks.
unfoldable pub cancel_job : String → Gateway → Option Gateway
cancel_job user g = elim (Map.load g.clean_jobs user) [
  | none ↦ some g
  | some number ↦
      if is_pending user number g.timers
      then some (record g {
        timers = drop_timer user number g.timers;
        clean_jobs = Map.delete g.clean_jobs user;
      })
      else none
]

unfoldable pub enter : HubSession → Gateway → Gateway
enter sess g = record g {
  sessions = add g.sessions sess;
  live = sess ∷ g.live;
  published = user_connected sess.id ∷ g.published;
}

-- From the clean-up job on; `delivers` is whether the event bus takes the event.
unfoldable pub admit : HubSession → Bool → Gateway → Gateway × Connected
admit sess delivers g = elim (cancel_job sess.id g) [
  | none ↦ (g, blocked)
  | some g' ↦ if delivers then (enter sess g', connected) else (g', publish_failed)
]

-- `answer` is the initializer's, `passes` the connect interceptor's.
unfoldable pub on_connect :
    ℕ → Option (String × Option Metadata) → Bool → Bool → Gateway → Gateway × Connected
on_connect object none passes delivers g = (g, denied)
on_connect object (some (user, md)) passes delivers g =
    if user == ""
    then (g, empty_user)
    else (let md' : Metadata = elim md [ some m ↦ m | none ↦ [] ] in
        let g1 = record g { metadata = Map.store g.metadata object md' } in
        if not passes
        then (g1, intercepted)
        else admit (record { object = object; id = user }) delivers (close_previous user g1))

unfoldable pub drop_live : HubSession → List HubSession → List HubSession
drop_live sess [] = []
drop_live sess (s ∷ live) =
    let rest = drop_live sess live in
    if s.object == sess.object && s.id == sess.id then rest else s ∷ rest

unfoldable pub on_disconnect : HubSession → Gateway → Gateway
on_disconnect sess g = record g {
  sessions = drop_session g.sessions sess;
  clean_jobs = Map.store g.clean_jobs sess.id g.next_timer;
  timers = record { number = g.next_timer; user = sess.id; expired = false } ∷ g.timers;
  next_timer = g.next_timer + 1;
  live = drop_live sess g.live;
  published = user_disconnected sess.id ∷ g.published;
}

unfoldable pub expire : String → ℕ → List Timer → List Timer
unfolding is_timer
expire user number [] = []
expire user number (t ∷ timers) =
    if is_timer user number t
    then record t { expired = true } ∷ timers
    else t ∷ expire user number timers

-- The function of the timer.
unfoldable pub clean : Timer → Gateway → Gateway
clean t g =
    let done = record g {
      timers = drop_timer t.user t.number g.timers;
      clean_jobs = Map.delete g.clean_jobs t.user;
    } in
    elim (look_up g.sessions t.user) [
      | some _ ↦ done
      | none ↦ record done { state_table = clean_session g.state_table t.user }
    ]

-- The subscriber of UserConnected: the events of this gateway's own are passed over.
unfoldable pub hear_connected : String → String → String → Gateway → Gateway
hear_connected node_id gateway user g =
    if gateway == node_id
    then g
    else (let g' = close_previous user g in
        record g' { state_table = clean_session g'.state_table user })

unfoldable pub is_live : HubSession → List HubSession → Bool
is_live sess [] = false
is_live sess (s ∷ live) = s.object == sess.object && s.id == sess.id || is_live sess live

unfoldable pub expired_timer : String → ℕ → List Timer → Option Timer
unfolding is_timer
expired_timer user number [] = none
expired_timer user number (t ∷ timers) =
    if is_timer user number t && t.expired then some t else expired_timer user number timers

-- What happens to the gateway, in any order. A route is recorded by the deferred Store of
-- getUpstream or by SetServiceRoute; neither looks at that moment whether the user is still there.
pub data Event : Type 0 where
  connects : ℕ → Option (String × Option Metadata) → Bool → Bool → Event
  disconnects : HubSession → Event
  expires : String → ℕ → Event
  cleans : String → ℕ → Event
  routes : String → ℤ → ℕ → Event
  unroutes : String → ℤ → Event
  node_deleted : ℕ → Event
  hears : String → String → Event

module _ (node_id : String) where
  -- An event that cannot happen in the state changes nothing.
  unfoldable pub step : Gateway → Event → Gateway
  step g (connects object answer passes delivers) = (on_connect object answer passes delivers g).0
  step g (disconnects sess) = if is_live sess g.live then on_disconnect sess g else g
  step g (expires user number) = record g { timers = expire user number g.timers }
  step g (cleans user number) = elim (expired_timer user number g.timers) [
    | some t ↦ clean t g
    | none ↦ g
  ]
  step g (routes user code id) = record g { state_table = store g.state_table user code id }
  step g (unroutes user code) = record g { state_table = remove g.state_table user code }
  step g (node_deleted id) = record g { state_table = clean_node g.state_table id }
  step g (hears gateway user) = hear_connected node_id gateway user g

  unfoldable pub run : Gateway → List Event → Gateway
  run g [] = g
  run g (ev ∷ evs) = run (step g ev) evs
