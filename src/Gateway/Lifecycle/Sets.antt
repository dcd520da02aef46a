-- ===== src/Gateway/Lifecycle/Sets.antt =====
-- The lists of live sessions and of timers.
use nodehub.Base.{
  ℕ, ◌≡◌, ◌≢◌, refl, String, some, List, [], ◌∷◌, Bool, true, false, ◌&&◌, ◌||◌, ◌==◌, nat_eq,
  string_eq, str_eq_iff, arith,
}
use nodehub.Gateway.SessionHub.{HubSession}
use nodehub.Gateway.Lifecycle.{
  Timer, is_timer, drop_timer, drop_live, expire, is_live, expired_timer,
}

-- Some session of the list is the user's.
unfoldable pub has_live : String → List HubSession → Bool
has_live user [] = false
has_live user (s ∷ live) = s.id == user || has_live user live

-- Some timer of the list is the user's.
unfoldable pub has_timer : String → List Timer → Bool
has_timer user [] = false
has_timer user (t ∷ timers) = t.user == user || has_timer user timers

pub has_live-is_live :
    (sess : HubSession) (live : List HubSession)
    → is_live sess live ≡ true
    → has_live sess.id live ≡ true
unfolding is_live has_live
has_live-is_live sess [] h = cc
has_live-is_live sess (s ∷ live) h =
    ground (arith, str_eq_iff s.id sess.id, has_live-is_live sess live)

pub has_live-drop_live :
    (sess : HubSession) (user : String) (live : List HubSession)
    → sess.id ≢ user
    → has_live user live ≡ true
    → has_live user (drop_live sess live) ≡ true
unfolding drop_live has_live
has_live-drop_live sess user [] ne h = cc
has_live-drop_live sess user (s ∷ live) ne h =
    ground
      (arith, str_eq_iff s.id sess.id, str_eq_iff s.id user, has_live-drop_live sess user live ne)

-- Another object under the identity, or another identity, stays.
pub is_live-drop_live :
    (sess other : HubSession) (live : List HubSession)
    → (other.object == sess.object && other.id == sess.id) ≡ false
    → is_live other live ≡ true
    → is_live other (drop_live sess live) ≡ true
unfolding drop_live is_live
is_live-drop_live sess other [] ne h = cc
is_live-drop_live sess other (s ∷ live) ne h = ground (
  arith,
  str_eq_iff s.id sess.id,
  str_eq_iff s.id other.id,
  str_eq_iff other.id sess.id,
  is_live-drop_live sess other live ne,
)

pub has_timer-drop_timer :
    (owner : String) (number : ℕ) (user : String) (timers : List Timer)
    → owner ≢ user
    → has_timer user timers ≡ true
    → has_timer user (drop_timer owner number timers) ≡ true
unfolding drop_timer is_timer has_timer
has_timer-drop_timer owner number user [] ne h = cc
has_timer-drop_timer owner number user (t ∷ timers) ne h = ground (
  arith,
  str_eq_iff t.user owner,
  str_eq_iff t.user user,
  has_timer-drop_timer owner number user timers ne,
)

pub has_timer-expire :
    (owner : String) (number : ℕ) (user : String) (timers : List Timer)
    → has_timer user (expire owner number timers) ≡ has_timer user timers
unfolding expire is_timer has_timer
has_timer-expire owner number user [] = refl
has_timer-expire owner number user (t ∷ timers) =
    ground (arith, has_timer-expire owner number user timers)

pub user-expired_timer :
    (user : String) (number : ℕ) (timers : List Timer) (t : Timer)
    → expired_timer user number timers ≡ some t
    → t.user ≡ user
unfolding expired_timer is_timer
user-expired_timer user number [] t h = cc
user-expired_timer user number (s ∷ timers) t h =
    ground (arith, str_eq_iff s.user user, user-expired_timer user number timers t)
