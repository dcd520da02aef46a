-- ===== src/Gateway/SessionHub.antt =====
-- component/gateway/proxy.go: SessionHub, the sessions that the gateway has.
pub mod Replaced
pub mod Tests
use nodehub.Base.{
  ℕ, String, Option, none, some, List, [], ◌∷◌, Bool, true, false, ◌==◌, nat_eq, string_eq,
  if◌then◌else◌,
}
use nodehub.Base.Map
use nodehub.Base.Map.{Map}

-- The identity of the session, and the number of the object.
pub record HubSession : Type 0 where
  pub object : ℕ
  pub id : String

-- `hung_up` lists the objects on which `Close` was called, the last first.
pub record SessionHub : Type 0 where
  pub sessions : Map String HubSession
  pub closed : Bool
  pub hung_up : List ℕ

unfoldable pub new_session_hub : SessionHub
new_session_hub = record { sessions = []; closed = false; hung_up = [] }

unfoldable pub add : SessionHub → HubSession → SessionHub
add h sess = record h { sessions = Map.store h.sessions sess.id sess }

unfoldable pub look_up : SessionHub → String → Option HubSession
look_up h id = Map.load h.sessions id

-- `CompareAndDelete`
unfoldable pub drop_session : SessionHub → HubSession → SessionHub
drop_session h sess = elim (Map.load h.sessions sess.id) [
  | none ↦ h
  | some found ↦
      if found.object == sess.object
      then record h { sessions = Map.delete h.sessions sess.id }
      else h
]

-- The sessions that `Range` meets are closed in turn, and deleted.
unfoldable pub hang_up : Map String HubSession → List ℕ → List ℕ
hang_up [] hung_up = hung_up
hang_up ((id, sess) ∷ sessions) hung_up = hang_up sessions (sess.object ∷ hung_up)

unfoldable pub close_hub : SessionHub → SessionHub
close_hub h =
    if h.closed
    then h
    else record { sessions = []; closed = true; hung_up = hang_up h.sessions h.hung_up }
