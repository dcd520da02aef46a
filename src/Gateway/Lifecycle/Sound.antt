-- ===== src/Gateway/Lifecycle/Sound.antt =====
-- What every event of the gateway keeps: a user with a route has a live session or a timer.
use nodehub.Base.{
  ℕ, ◌≡◌, ◌≢◌, refl, ◌⊎◌, String, Option, none, some, [], Bool, true, false, ◌==◌, nat_eq,
  string_eq, str_eq_iff, arith, Option-cases, Bool-cases, inl, inr,
}
use nodehub.Base.Int.{ℤ, int_eq}
use nodehub.Base.Map
use nodehub.Base.Map.{Map}
use nodehub.Gateway.StateTable.{StateTable, first_route, clean_routes, find, clean_node}
use nodehub.Gateway.StateTable.Laws.{load-each_session}
use nodehub.Gateway.SessionHub.{HubSession, add, look_up}
use nodehub.Gateway.Lifecycle.{
  Metadata, Gateway, is_pending, drop_timer, hang_up_session, close_previous, cancel_job, enter,
  admit, on_connect, is_live,
}
use nodehub.Gateway.Lifecycle.Sets.{has_live, has_timer, has_timer-drop_timer}

-- The user has a live session, or a timer that will clean up.
abbrev pub Watched : Gateway → String → Type 0
Watched g user = (has_live user g.live ≡ true) ⊎ (has_timer user g.timers ≡ true)

-- What no event breaks, but for one: the sessions of the hub are live, under their identities, and
-- a user with a route is watched.
pub record Sound (g : Gateway) : Type 0 where
  pub hub :
      (user : String) (s : HubSession)
      → look_up g.sessions user ≡ some s
      → (s.id ≡ user) × (is_live s g.live ≡ true)
  pub watched :
      (user : String) (code : ℤ) (id : ℕ) → find g.state_table user code ≡ some id → Watched g user

-- A state with the same hub and live sessions, and the routes and timers of `g`, but for fewer.
pub Sound-fewer :
    (g g' : Gateway)
    → ((user : String) → look_up g'.sessions user ≡ look_up g.sessions user)
    → g'.live ≡ g.live
    → ((user : String) → has_timer user g'.timers ≡ has_timer user g.timers)
    → ((user : String) (code : ℤ) (id : ℕ)
        → find g'.state_table user code ≡ some id
        → (old : ℕ) × (find g.state_table user code ≡ some old))
    → Sound g
    → Sound g'
Sound-fewer g g' h l t r s = record {
  hub = λ user x e. rw l (s.hub user x (rw (h user) at e));
  watched = λ user code id e.
      let (old, k) = r user code id e in rw (l, t user) (s.watched user code old k);
}

pub find-clean_node-some :
    (st : StateTable) (n : ℕ) (s : String) (c : ℤ) (id : ℕ)
    → find (clean_node st n) s c ≡ some id
    → find st s c ≡ some id
unfolding find clean_node
find-clean_node-some st n s c id h = elim (Option-cases (Map.load st.routes s)) [
  | inl e ↦ absurd (ground (arith, h, e, load-each_session (clean_routes n) st.routes s))
  | inr (nodes, e) ↦ elim (Option-cases (first_route n nodes)) [
    | inl f ↦ ground (arith, h, e, f, load-each_session (clean_routes n) st.routes s)
    | inr (k, f) ↦
        ground (
          arith,
          h,
          e,
          f,
          load-each_session (clean_routes n) st.routes s,
          Map.load-delete nodes k c,
        )
  ]
]

look_up-hang_up :
    (user other : String) (g : Gateway)
    → look_up (close_previous user g).sessions other ≡ look_up g.sessions other
unfolding look_up close_previous hang_up_session
look_up-hang_up user other g = ground arith

pub close_previous-Sound : (user : String) (g : Gateway) → Sound g → Sound (close_previous user g)
unfolding close_previous
close_previous-Sound user g s =
    Sound-fewer g (close_previous user g) (λ other. look_up-hang_up user other g) (ground arith)
      (λ u. ground arith) (λ u c id e. (id, ground arith)) s

-- What is left once the job of the user is cancelled: only the user may be unwatched.
record Cancelled (user : String) (g g' : Gateway) : Type 0 where
  same_hub : g'.sessions ≡ g.sessions
  same_live : g'.live ≡ g.live
  same_table : g'.state_table ≡ g.state_table
  timers : (u : String) → user ≢ u → has_timer u g.timers ≡ true → has_timer u g'.timers ≡ true

cancel_job-Cancelled :
    (user : String) (g g' : Gateway) → cancel_job user g ≡ some g' → Cancelled user g g'
unfolding cancel_job
cancel_job-Cancelled user g g' h = elim (Option-cases (Map.load g.clean_jobs user)) [
  | inl e ↦
      let same : g ≡ g' = cc (rw (e, cancel_job) at h) in
      rw (← same)
        (record { same_hub = refl; same_live = refl; same_table = refl; timers = λ u ne k. k })
  | inr (number, e) ↦ elim (Bool-cases (is_pending user number g.timers)) [
    | inr b ↦ cc (rw (e, b, cancel_job) at h)
    | inl p ↦
        let same : record g {
          timers = drop_timer user number g.timers;
          clean_jobs = Map.delete g.clean_jobs user;
        }
            ≡ g' =
          cc (rw (e, p, cancel_job) at h) in
        rw (← same) (record {
          same_hub = refl;
          same_live = refl;
          same_table = refl;
          timers = λ u ne k. has_timer-drop_timer user number u g.timers ne k;
        })
  ]
]

enter-Sound :
    (sess : HubSession) (g g' : Gateway) → Cancelled sess.id g g' → Sound g → Sound (enter sess g')
unfolding enter add look_up has_live is_live
enter-Sound sess g g' k s = record {
  hub = λ user x e. elim (Bool-cases (sess.id == user)) [
    | inl same ↦
        let hit : sess ≡ x =
          ground (arith, e, same, Map.load-store g'.sessions.sessions sess.id user sess) in
        (ground (arith, hit, str_eq_iff sess.id user), ground (arith, hit, str_eq_iff sess.id x.id))
    | inr other ↦
        let old : look_up g.sessions user ≡ some x =
          rw (← k.same_hub)
            (ground (arith, e, other, Map.load-store g'.sessions.sessions sess.id user sess)) in
        let (i, l) = s.hub user x old in (i, rw k.same_live (ground (arith, l)))
  ];
  watched = λ user code id e. elim (Bool-cases (sess.id == user)) [
    | inl same ↦ inl (ground (arith, same))
    | inr other ↦ elim (s.watched user code id (rw k.same_table at e)) [
      | inl l ↦ inl (rw k.same_live (ground (arith, l)))
      | inr t ↦ inr (k.timers user (λ q. ground (arith, q, str_eq_iff sess.id user, other)) t)
    ]
  ];
}

admit-Sound : (sess : HubSession) (g : Gateway) → Sound g → Sound (admit sess true g).0
unfolding admit
admit-Sound sess g s = elim (Option-cases (cancel_job sess.id g)) [
  | inl e ↦ rw (e, admit) s
  | inr (g', e) ↦ rw (e, admit) (enter-Sound sess g g' (cancel_job-Cancelled sess.id g g' e) s)
]

pub on_connect-Sound :
    (object : ℕ) (answer : Option (String × Option Metadata)) (passes : Bool) (g : Gateway)
    → Sound g
    → Sound (on_connect object answer passes true g).0
unfolding on_connect
on_connect-Sound object none passes g s = s
on_connect-Sound object (some (user, md)) passes g s = elim (Bool-cases (user == "")) [
  | inl e ↦ rw e s
  | inr e ↦ elim passes as (λ b. Sound (on_connect object (some (user, md)) b true g).0) [
    | false ↦ rw (e, on_connect) told
    | true ↦
        rw (e, on_connect)
          (admit-Sound (record { object = object; id = user }) (close_previous user g1)
            (close_previous-Sound user g1 told))
  ]
]
  where
    g1 : Gateway
    g1 = record g { metadata = Map.store g.metadata object (elim md [ some m ↦ m | none ↦ [] ]) }

    told : Sound g1
    told = record { hub = s.hub; watched = s.watched }
