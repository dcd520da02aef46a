-- ===== src/Gateway/Lifecycle/Tests.antt =====
-- Runs of the sessions, the clean-up jobs and the routes of one user.
use nodehub.Base.{
  ℕ, String, ◌≡◌, inl, inr, refl, none, some, List, [], ◌∷◌, true, false, nat_eq, string_eq,
  str_eq_iff, arith,
}
use nodehub.Base.Int.{ℤ, pos, int_eq}
use nodehub.Base.Map
use nodehub.Gateway.StateTable.{find, new_state_table, store}
use nodehub.Gateway.SessionHub.{HubSession, new_session_hub, add, look_up, drop_session}
use nodehub.Gateway.Lifecycle.{
  Gateway, new_gateway, publish_failed, is_timer, is_pending, close_previous, cancel_job, enter,
  admit, on_connect, drop_live, on_disconnect, is_live, Event, connects, disconnects, routes, step,
  run,
}
use nodehub.Gateway.Lifecycle.Sets.{has_live, has_timer}
use nodehub.Gateway.Lifecycle.Sound.{Watched, Sound}
use nodehub.Gateway.Lifecycle.Leaks.{AllInTime, Stays, run-Sound, new_gateway-Sound, run-Watched}
use nodehub.Gateway.Lifecycle.Settled.{
  contains, numbered, numbers, settle, find-settle, on_connect-leaks,
}

abbrev alice : HubSession
alice = record { object = 1; id = "alice" }

-- Alice connects, has a route to the node 5, and leaves; a request that was still under way gives
-- her another one.
abbrev visit : List Event
visit =
    connects 1 (some ("alice", none)) true true
    ∷ routes "alice" (pos 1) 5
    ∷ disconnects alice
    ∷ routes "alice" (pos 2) 6
    ∷ []

abbrev left : Gateway
left = run "g1" new_gateway visit

find-left : find left.state_table "alice" (pos 1) ≡ some 5
unfolding run step on_connect admit cancel_job enter close_previous on_disconnect drop_live is_live
    new_gateway new_session_hub new_state_table look_up add drop_session find store Map.load
    Map.store Map.delete
find-left = refl

visit-AllInTime : AllInTime "g1" new_gateway visit
unfolding step on_connect admit cancel_job enter close_previous on_disconnect drop_live is_live
    new_gateway new_session_hub new_state_table look_up add drop_session store Map.load Map.store
    Map.delete has_live has_timer
visit-AllInTime = (refl, (inl refl, (tt, (inr refl, tt))))

run-Watched_example :
    Watched (run "g1" new_gateway visit) "alice"
    × ((g : Gateway) (other : String) (c : ℤ) (n : ℕ) → ¬ Watched g other → Stays "g1" g other c n)
run-Watched_example = run-Watched "g1" visit "alice" (pos 1) 5 visit-AllInTime find-left

left-Sound : Sound left
left-Sound = run-Sound "g1" new_gateway visit visit-AllInTime new_gateway-Sound

left-gone : has_live "alice" left.live ≡ false
unfolding run step on_connect admit cancel_job enter close_previous on_disconnect drop_live is_live
    new_gateway new_session_hub new_state_table look_up add drop_session find store Map.load
    Map.store Map.delete has_live
left-gone = refl

find-settle_example :
    find (run "g1" left (settle "alice" (numbers "alice" left.timers))).state_table "alice" (pos 1)
    ≡ none
find-settle_example = find-settle "g1" left "alice" (pos 1) left-Sound left-gone

abbrev waiting : Gateway
waiting = record new_gateway {
  state_table = record { routes = ("alice", (pos 1, 5) ∷ []) ∷ [] };
  clean_jobs = ("alice", 0) ∷ [];
  timers = record { number = 0; user = "alice"; expired = false } ∷ [];
  next_timer = 1;
}

waiting-gone : has_live "alice" waiting.live ≡ false
unfolding has_live new_gateway
waiting-gone = refl

load-waiting : Map.load waiting.clean_jobs "alice" ≡ some 0
unfolding Map.load
load-waiting = refl

is_pending-waiting : is_pending "alice" 0 waiting.timers ≡ true
unfolding is_pending is_timer
is_pending-waiting = refl

numbered-waiting : numbered "alice" (0 ∷ []) waiting.timers ≡ true
unfolding numbered contains
numbered-waiting = refl

on_connect-leaks_example :
    let (g', c) = on_connect 2 (some ("alice", none)) true false waiting in
    (c ≡ publish_failed) × (g'.state_table ≡ waiting.state_table) × ¬ Watched g' "alice"
on_connect-leaks_example =
    on_connect-leaks waiting 2 "alice" none 0 (λ e. ground (arith, e, str_eq_iff "alice" ""))
      waiting-gone load-waiting is_pending-waiting numbered-waiting
