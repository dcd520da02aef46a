-- ===== src/Gateway/Lifecycle/Settled.antt =====
-- The timers of a user run out, and the routes are gone; and what a failed connection leaves.
use nodehub.Base.{
  ℕ, ◌≡◌, ◌≢◌, refl, ap, ◌∙◌, String, Option, none, some, List, [], ◌∷◌, Bool, true, false, not,
  ◌&&◌, ◌||◌, ◌==◌, nat_eq, string_eq, if◌then◌else◌, str_eq_iff, arith, Option-cases, inl, inr,
}
use nodehub.Base.Int.{ℤ, int_eq}
use nodehub.Base.Map
use nodehub.Gateway.StateTable.{find}
use nodehub.Gateway.SessionHub.{look_up}
use nodehub.Gateway.Lifecycle.{
  Metadata, Timer, Gateway, publish_failed, is_timer, is_pending, drop_timer, close_previous,
  cancel_job, admit, on_connect, expire, clean, expired_timer, Event, expires, cleans, step, run,
}
use nodehub.Gateway.Lifecycle.Sets.{has_live, has_timer, user-expired_timer}
use nodehub.Gateway.Lifecycle.Sound.{Watched, Sound}
use nodehub.Gateway.Lifecycle.Leaks.{AllInTime, run-Sound}

unfoldable pub contains : List ℕ → ℕ → Bool
contains [] n = false
contains (m ∷ ms) n = m == n || contains ms n

-- The timers of the user have their numbers among these.
unfoldable pub numbered : String → List ℕ → List Timer → Bool
numbered user ns [] = true
numbered user ns (t ∷ timers) =
    (not (t.user == user) || contains ns t.number) && numbered user ns timers

unfoldable pub numbers : String → List Timer → List ℕ
numbers user [] = []
numbers user (t ∷ timers) =
    let rest = numbers user timers in if t.user == user then t.number ∷ rest else rest

-- Each timer of the user expires, and its function runs.
unfoldable pub settle : String → List ℕ → List Event
settle user [] = []
settle user (n ∷ ns) = expires user n ∷ cleans user n ∷ settle user ns

numbered-cons :
    (user : String) (n : ℕ) (ns : List ℕ) (timers : List Timer)
    → numbered user ns timers ≡ true
    → numbered user (n ∷ ns) timers ≡ true
unfolding numbered contains
numbered-cons user n ns [] h = refl
numbered-cons user n ns (t ∷ timers) h = ground (arith, numbered-cons user n ns timers)

numbered-numbers :
    (user : String) (timers : List Timer) → numbered user (numbers user timers) timers ≡ true
unfolding numbered numbers contains
numbered-numbers user [] = refl
numbered-numbers user (t ∷ timers) =
    ground (
      arith,
      numbered-numbers user timers,
      numbered-cons user t.number (numbers user timers) timers,
    )

pub numbered-drop_timer :
    (user : String) (n : ℕ) (ns : List ℕ) (timers : List Timer)
    → numbered user (n ∷ ns) timers ≡ true
    → numbered user ns (drop_timer user n timers) ≡ true
unfolding numbered contains drop_timer is_timer
numbered-drop_timer user n ns [] h = refl
numbered-drop_timer user n ns (t ∷ timers) h = ground (arith, numbered-drop_timer user n ns timers)

numbered-expire :
    (user : String) (n : ℕ) (ns : List ℕ) (timers : List Timer)
    → numbered user ns (expire user n timers) ≡ numbered user ns timers
unfolding numbered expire is_timer
numbered-expire user n ns [] = refl
numbered-expire user n ns (t ∷ timers) = ground (arith, numbered-expire user n ns timers)

-- A timer that was set to expire is found, if there is one.
numbered-gone :
    (user : String) (n : ℕ) (ns : List ℕ) (timers : List Timer)
    → expired_timer user n (expire user n timers) ≡ none
    → numbered user (n ∷ ns) timers ≡ true
    → numbered user ns timers ≡ true
unfolding numbered contains expired_timer expire is_timer
numbered-gone user n ns [] e h = refl
numbered-gone user n ns (t ∷ timers) e h = ground (arith, numbered-gone user n ns timers)

number-expired_timer :
    (user : String) (n : ℕ) (timers : List Timer) (t : Timer)
    → expired_timer user n timers ≡ some t
    → t.number ≡ n
unfolding expired_timer is_timer
number-expired_timer user n [] t h = cc
number-expired_timer user n (s ∷ timers) t h = ground (arith, number-expired_timer user n timers t)

pub has_timer-numbered :
    (user : String) (timers : List Timer)
    → numbered user [] timers ≡ true
    → has_timer user timers ≡ false
unfolding numbered contains has_timer
has_timer-numbered user [] h = refl
has_timer-numbered user (t ∷ timers) h = ground (arith, has_timer-numbered user timers)

module _ (node_id : String) where
  -- One timer of the user runs out.
  abbrev once : Gateway → String → ℕ → Gateway
  once g user n = step node_id (step node_id g (expires user n)) (cleans user n)

  once-numbered :
      (g : Gateway) (user : String) (n : ℕ) (ns : List ℕ)
      → numbered user (n ∷ ns) g.timers ≡ true
      → (numbered user ns (once g user n).timers ≡ true) × ((once g user n).live ≡ g.live)
  unfolding step clean
  once-numbered g user n ns h =
      elim (Option-cases (expired_timer user n (expire user n g.timers))) [
        | inl e ↦
            rw (e, step)
              (rw (numbered-expire user n ns g.timers) (numbered-gone user n ns g.timers e h), refl)
        | inr (t, e) ↦
            let u = user-expired_timer user n (expire user n g.timers) t e in
            let k = number-expired_timer user n (expire user n g.timers) t e in
            let d =
              numbered-drop_timer user n ns (expire user n g.timers)
                (rw (numbered-expire user n (n ∷ ns) g.timers) h) in
            ground (arith, e, u, k, d)
      ]

  settle-numbered :
      (g : Gateway) (user : String) (ns : List ℕ)
      → numbered user ns g.timers ≡ true
      → let g' = run node_id g (settle user ns) in
        (numbered user [] g'.timers ≡ true) × (g'.live ≡ g.live)
  unfolding settle run
  settle-numbered g user [] h = (h, refl)
  settle-numbered g user (n ∷ ns) h =
      let (k, l) = once-numbered g user n ns h in
      let (a, b) = settle-numbered (once g user n) user ns k in (a, b ∙ l)

  settle-AllInTime :
      (g : Gateway) (user : String) (ns : List ℕ) → AllInTime node_id g (settle user ns)
  unfolding settle
  settle-AllInTime g user [] = tt
  settle-AllInTime g user (n ∷ ns) = (tt, (tt, settle-AllInTime (once g user n) user ns))

  -- In a sound gateway, once the timers of a user without a live session have run out, the user
  -- has no route.
  pub find-settle :
      (g : Gateway) (user : String) (code : ℤ)
      → Sound g
      → has_live user g.live ≡ false
      → find (run node_id g (settle user (numbers user g.timers))).state_table user code ≡ none
  find-settle g user code s l =
      let ns = numbers user g.timers in
      let g' = run node_id g (settle user ns) in
      let (a, b) = settle-numbered g user ns (numbered-numbers user g.timers) in
      let s' = run-Sound node_id g (settle user ns) (settle-AllInTime g user ns) s in
      elim (Option-cases (find g'.state_table user code)) [
        | inl e ↦ e
        | inr (id, e) ↦ elim (s'.watched user code id e) [
          | inl q ↦ cc (ap (has_live user) b)
          | inr q ↦ cc (has_timer-numbered user g'.timers a)
        ]
      ]

-- Where the only timer of a user without a live session is the one of the user's job, a connection
-- of the user that the event bus does not take cancels it, and leaves the routes: no live session
-- and no timer stands for them then.
pub on_connect-leaks :
    (g : Gateway) (object : ℕ) (user : String) (md : Option Metadata) (n : ℕ)
    → user ≢ ""
    → has_live user g.live ≡ false
    → Map.load g.clean_jobs user ≡ some n
    → is_pending user n g.timers ≡ true
    → numbered user (n ∷ []) g.timers ≡ true
    → let (g', c) = on_connect object (some (user, md)) true false g in
      (c ≡ publish_failed) × (g'.state_table ≡ g.state_table) × ¬ Watched g' user
unfolding on_connect admit cancel_job close_previous
on_connect-leaks g object user md n ne l j p h =
    let d = numbered-drop_timer user n [] g.timers h in
    let k = has_timer-numbered user (drop_timer user n g.timers) d in
    elim (Option-cases (look_up g.sessions user)) [
      | inl e ↦ ground (arith, str_eq_iff user "", e, j, p, k)
      | inr (x, e) ↦ ground (arith, str_eq_iff user "", e, j, p, k)
    ]
