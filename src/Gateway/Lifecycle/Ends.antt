-- ===== src/Gateway/Lifecycle/Ends.antt =====
-- The end of a session, the job that cleans up after it, and the other events, keep what is sound.
use nodehub.Base.{
  ℕ, ◌≡◌, refl, ap, subst, ◌∙◌, ◌⊎◌, String, some, true, false, ◌==◌, nat_eq, string_eq, str_eq_iff,
  arith, Option-cases, Bool-cases, inl, inr,
}
use nodehub.Base.Int.{ℤ, int_eq, int_beq_iff}
use nodehub.Gateway.StateTable.{StateTable, find, store, clean_session}
use nodehub.Gateway.StateTable.Laws.{find-store, find-clean_session}
use nodehub.Gateway.SessionHub.{HubSession, look_up}
use nodehub.Gateway.SessionHub.Replaced.{look_up-drop_session}
use nodehub.Gateway.Lifecycle.{
  Timer, Gateway, drop_timer, close_previous, on_disconnect, clean, hear_connected,
}
use nodehub.Gateway.Lifecycle.Sets.{
  has_live, has_timer, has_live-is_live, has_live-drop_live, is_live-drop_live,
  has_timer-drop_timer,
}
use nodehub.Gateway.Lifecycle.Sound.{Watched, Sound, Sound-fewer, close_previous-Sound}

pub on_disconnect-Sound : (sess : HubSession) (g : Gateway) → Sound g → Sound (on_disconnect sess g)
unfolding on_disconnect has_timer
on_disconnect-Sound sess g s = record {
  hub = λ user x e.
      let law = look_up-drop_session g.sessions sess user in
      elim (Option-cases (look_up g.sessions user)) [
        | inl q ↦ absurd (ground (arith, e, q, law))
        | inr (found, q) ↦
            let same : found ≡ x = ground (arith, e, q, law) in
            let (i, l) = s.hub user x (q ∙ ap some same) in
            (
              i,
              is_live-drop_live sess x g.live
                  (ground
                    (arith, e, q, law, same, i, str_eq_iff x.id sess.id, str_eq_iff sess.id user))
                  l,
            )
      ];
  watched = λ user code id e. elim (Bool-cases (sess.id == user)) [
    | inl same ↦ inr (ground (arith, same))
    | inr other ↦ elim (s.watched user code id e) [
      | inl l ↦ inl (
          has_live-drop_live sess user g.live
            (λ q. ground (arith, q, str_eq_iff sess.id user, other)) l)
      | inr t ↦ inr (ground (arith, t))
    ]
  ];
}

pub clean-Sound : (t : Timer) (g : Gateway) → Sound g → Sound (clean t g)
unfolding clean
clean-Sound t g s = elim (Option-cases (look_up g.sessions t.user)) [
  | inl e ↦
      rw (e, clean)
        (record {
          hub = s.hub;
          watched = λ user code id f. elim (Bool-cases (t.user == user)) [
            | inl same ↦
                absurd (ground (arith, f, same, find-clean_session g.state_table t.user user code))
            | inr other ↦ kept user other (
                s.watched user code id
                  (ground (arith, f, other, find-clean_session g.state_table t.user user code)))
          ];
        })
  | inr (x, e) ↦
      rw (e, clean)
        (record {
          hub = s.hub;
          watched = λ user code id f. elim (Bool-cases (t.user == user)) [
            | inl same ↦
                let (i, l) = s.hub t.user x e in
                inl (
                  subst (λ u. has_live u g.live ≡ true) (i ∙ (str_eq_iff t.user user).0 same)
                    (has_live-is_live x g.live l))
            | inr other ↦ kept user other (s.watched user code id f)
          ];
        })
]
  where
    kept :
        (user : String)
        → (t.user == user) ≡ false
        → Watched g user
        → (has_live user g.live ≡ true)
          ⊎ (has_timer user (drop_timer t.user t.number g.timers) ≡ true)
    kept user other (inl l) = inl l
    kept user other (inr k) = inr (
        has_timer-drop_timer t.user t.number user g.timers
          (λ q. ground (arith, q, str_eq_iff t.user user, other)) k)

pub hear_connected-Sound :
    (node_id gateway user : String) (g : Gateway)
    → Sound g
    → Sound (hear_connected node_id gateway user g)
unfolding hear_connected
hear_connected-Sound node_id gateway user g s = elim (Bool-cases (gateway == node_id)) [
  | inl e ↦ rw e s
  | inr e ↦
      let g1 = close_previous user g in
      rw e (
        Sound-fewer g1 (record g1 { state_table = clean_session g1.state_table user }) (λ u. refl)
          refl (λ u. refl)
          (λ u c id f. (id, ground (arith, f, find-clean_session g1.state_table user u c)))
          (close_previous-Sound user g s))
]

pub find-store_self :
    (st : StateTable) (s : String) (c : ℤ) (n : ℕ) → find (store st s c n) s c ≡ some n
find-store_self st s c n = ground (arith, find-store st s s c c n, str_eq_iff s s, int_beq_iff c c)

pub routes-Sound :
    (user : String) (code : ℤ) (id : ℕ) (g : Gateway)
    → Watched g user
    → Sound g
    → Sound (record g { state_table = store g.state_table user code id })
routes-Sound user code id g w s = record {
  hub = s.hub;
  watched = λ other c n f. elim (Bool-cases (user == other)) [
    | inl same ↦ subst (Watched g) ((str_eq_iff user other).0 same) w
    | inr differs ↦
        s.watched other c n
          (ground (arith, f, differs, find-store g.state_table user other code c id))
  ];
}
