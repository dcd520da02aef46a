-- ===== src/Gateway/Lifecycle/Leaks.antt =====
-- No route outlives its user for good: a live session or a timer stands for it.
use nodehub.Base.{
  ℕ, ◌≡◌, refl, String, some, List, [], ◌∷◌, true, nat_eq, string_eq, arith, Option-cases,
  Bool-cases, inl, inr,
}
use nodehub.Base.Int.{ℤ, int_eq}
use nodehub.Base.Map
use nodehub.Base.Map.{Map}
use nodehub.Gateway.StateTable.{find, new_state_table, remove, clean_node}
use nodehub.Gateway.StateTable.Laws.{find-remove}
use nodehub.Gateway.SessionHub.{new_session_hub, look_up}
use nodehub.Gateway.Lifecycle.{
  Gateway, new_gateway, expire, is_live, expired_timer, Event, connects, disconnects, expires,
  cleans, routes, unroutes, node_deleted, hears, step, run,
}
use nodehub.Gateway.Lifecycle.Sets.{has_timer-expire}
use nodehub.Gateway.Lifecycle.Sound.{
  Watched, Sound, Sound-fewer, on_connect-Sound, find-clean_node-some,
}
use nodehub.Gateway.Lifecycle.Ends.{
  on_disconnect-Sound, clean-Sound, hear_connected-Sound, routes-Sound, find-store_self,
}

-- The event bus takes what is published, and a route is recorded while its user has a live session
-- or a timer that will clean up.
abbrev pub InTime : Gateway → Event → Type 0
InTime g (connects object answer passes delivers) = delivers ≡ true
InTime g (routes user code id) = Watched g user
InTime g _ = Unit

-- Recording a route for the user leaves it in the table, and nothing stands for it.
abbrev pub Stays : String → Gateway → String → ℤ → ℕ → Type 0
Stays node_id g user code id =
    let g' = step node_id g (routes user code id) in
    (find g'.state_table user code ≡ some id) × ¬ Watched g' user

module _ (node_id : String) where
  -- Each event is in time where it happens.
  abbrev pub AllInTime : Gateway → List Event → Type 0
  AllInTime g [] = Unit
  AllInTime g (ev ∷ evs) = InTime g ev × AllInTime (step node_id g ev) evs

  pub step-Sound : (g : Gateway) (ev : Event) → InTime g ev → Sound g → Sound (step node_id g ev)
  unfolding step
  step-Sound g (connects object answer passes delivers) d s =
      rw d (on_connect-Sound object answer passes g s)
  step-Sound g (disconnects sess) d s = elim (Bool-cases (is_live sess g.live)) [
    | inl e ↦ rw e (on_disconnect-Sound sess g s)
    | inr e ↦ rw e s
  ]
  step-Sound g (expires user number) d s =
      Sound-fewer g (record g { timers = expire user number g.timers }) (λ u. refl) refl
        (λ u. has_timer-expire user number u g.timers) (λ u c id e. (id, e)) s
  step-Sound g (cleans user number) d s = elim (Option-cases (expired_timer user number g.timers)) [
    | inl e ↦ rw (e, step) s
    | inr (t, e) ↦ rw (e, step) (clean-Sound t g s)
  ]
  step-Sound g (routes user code id) d s = routes-Sound user code id g d s
  step-Sound g (unroutes user code) d s =
      Sound-fewer g (record g { state_table = remove g.state_table user code }) (λ u. refl) refl
        (λ u. refl) (λ u c id e. (id, ground (arith, e, find-remove g.state_table user u code c))) s
  step-Sound g (node_deleted n) d s =
      Sound-fewer g (record g { state_table = clean_node g.state_table n }) (λ u. refl) refl
        (λ u. refl) (λ u c id e. (id, find-clean_node-some g.state_table n u c id e)) s
  step-Sound g (hears gateway user) d s = hear_connected-Sound node_id gateway user g s

  pub run-Sound :
      (g : Gateway) (evs : List Event) → AllInTime g evs → Sound g → Sound (run node_id g evs)
  unfolding run
  run-Sound g [] d s = s
  run-Sound g (ev ∷ evs) d s = run-Sound (step node_id g ev) evs d.1 (step-Sound g ev d.0 s)

pub new_gateway-Sound : Sound new_gateway
unfolding new_gateway new_session_hub new_state_table look_up find Map.load
new_gateway-Sound = record { hub = λ user x e. cc; watched = λ user code id e. cc }

module _ (node_id : String) where
  step-routes-Stays :
      (g : Gateway) (user : String) (code : ℤ) (id : ℕ)
      → ¬ Watched g user
      → Stays node_id g user code id
  unfolding step
  step-routes-Stays g user code id n = (find-store_self g.state_table user code id, n)

  -- After any events on a new gateway, as long as the event bus took each connection's event and
  -- each route was recorded while its user had a live session or a timer that will clean up: a user
  -- with a route has a live session or such a timer. But in any state, a route that is recorded
  -- for a user who has neither is in the table then, and the user still has neither.
  pub run-Watched :
      (evs : List Event) (user : String) (code : ℤ) (id : ℕ)
      → AllInTime node_id new_gateway evs
      → find (run node_id new_gateway evs).state_table user code ≡ some id
      → Watched (run node_id new_gateway evs) user
        × ((g : Gateway) (other : String) (c : ℤ) (n : ℕ)
            → ¬ Watched g other
            → Stays node_id g other c n)
  run-Watched evs user code id d e = (
    (run-Sound node_id new_gateway evs d new_gateway-Sound).watched user code id e,
    step-routes-Stays,
  )
