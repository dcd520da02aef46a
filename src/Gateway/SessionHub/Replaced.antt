-- ===== src/Gateway/SessionHub/Replaced.antt =====
-- A session that signs in again, and the old connection of it that ends.
use nodehub.Base.{
  ◌≡◌, ◌≢◌, inl, inr, String, none, some, ◌&&◌, ◌==◌, nat_eq, string_eq, str_eq_iff, if◌then◌else◌,
  Option-cases, arith,
}
use nodehub.Base.Map
use nodehub.Gateway.SessionHub.{HubSession, SessionHub, add, look_up, drop_session}

-- Deleting a session takes away the entry of its identity if the object stored there is the same,
-- and no other entry.
pub look_up-drop_session :
    (h : SessionHub) (sess : HubSession) (id : String)
    → look_up (drop_session h sess) id ≡ (elim (look_up h id) [
      | none ↦ none
      | some found ↦ if sess.id == id && found.object == sess.object then none else some found
    ])
unfolding look_up drop_session
look_up-drop_session h sess id = elim (Option-cases (Map.load h.sessions sess.id)) [
  | inl e ↦ ground (arith, e, str_eq_iff sess.id id)
  | inr (found, e) ↦ ground (arith, e, str_eq_iff sess.id id, Map.load-delete h.sessions sess.id id)
]

-- After a session was replaced by another object under its identity, deleting the old one leaves
-- the new one to be found, and every other identity as it was before both.
pub drop_session-replaced :
    (h : SessionHub) (old new : HubSession) (id : String)
    → old.id ≡ new.id
    → old.object ≢ new.object
    → look_up (drop_session (add h new) old) id ≡ (if new.id == id then some new else look_up h id)
unfolding look_up drop_session add
drop_session-replaced h old new id e ne = ground (
  arith,
  e,
  str_eq_iff new.id old.id,
  Map.load-store h.sessions new.id old.id new,
  Map.load-store h.sessions new.id id new,
  Map.load-delete (Map.store h.sessions new.id new) old.id id,
)
