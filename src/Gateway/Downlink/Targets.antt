-- ===== src/Gateway/Downlink/Targets.antt =====
-- Who is sent a message of the cluster.
use nodehub.Base.{
  ◌≡◌, ◌≢◌, ◌↔◌, refl, sym, ap, ◌∙◌, String, none, some, List, [], ◌∷◌, Memᴰ, true, if◌then◌else◌,
  Option-cases, inl, inr,
}
use nodehub.Gateway.SessionHub.{HubSession, SessionHub, look_up}
use nodehub.Gateway.Downlink.{look_up_all, everyone, targets, submitted, deliver}
use nodehub.Multicast.{Message}

-- The session of one of these users in the hub.
abbrev pub IsReceiver : SessionHub → List String → HubSession → Type 0
IsReceiver hub receiver sess = (id : String) × Memᴰ id receiver × (look_up hub id ≡ some sess)

look_up_all-IsReceiver :
    (hub : SessionHub) (receiver : List String) (sess : HubSession)
    → Memᴰ sess (look_up_all hub receiver) ↔ IsReceiver hub receiver sess
unfolding look_up_all
look_up_all-IsReceiver hub [] sess = (λ m. elim m [ ], λ (id, m, e). elim m [ ])
look_up_all-IsReceiver hub (id ∷ receiver) sess =
    let ih = look_up_all-IsReceiver hub receiver sess in
    elim (Option-cases (look_up hub id)) [
      | inl e ↦
          rw (e, look_up_all)
            (λ m. let (j, n, f) = ih.0 m in (j, Memᴰ.tail n, f), λ (j, n, f). ih.1 (skip j n f e))
      | inr (x, e) ↦ rw (e, look_up_all) (λ m. first ih x e m, λ (j, n, f). found ih x e j n f)
    ]
  where
    skip :
        (j : String)
        → Memᴰ j (id ∷ receiver)
        → look_up hub j ≡ some sess
        → look_up hub id ≡ none
        → IsReceiver hub receiver sess
    skip j (Memᴰ.head q) f e = cc (ap (look_up hub) q)
    skip j (Memᴰ.tail n) f e = (j, n, f)

    first :
        (Memᴰ sess (look_up_all hub receiver) ↔ IsReceiver hub receiver sess)
        → (x : HubSession) → look_up hub id ≡ some x
        → Memᴰ sess (x ∷ look_up_all hub receiver)
        → IsReceiver hub (id ∷ receiver) sess
    first ih x e (Memᴰ.head q) = (id, Memᴰ.head refl, e ∙ ap some (sym q))
    first ih x e (Memᴰ.tail m) = let (j, n, f) = ih.0 m in (j, Memᴰ.tail n, f)

    found :
        (Memᴰ sess (look_up_all hub receiver) ↔ IsReceiver hub receiver sess)
        → (x : HubSession) → look_up hub id ≡ some x
        → (j : String) → Memᴰ j (id ∷ receiver)
        → look_up hub j ≡ some sess
        → Memᴰ sess (x ∷ look_up_all hub receiver)
    found ih x e j (Memᴰ.head q) f = Memᴰ.head (cc (ap (look_up hub) q))
    found ih x e j (Memᴰ.tail n) f = Memᴰ.tail (ih.1 (j, n, f))

submitted-all : (sessions : List HubSession) → submitted (λ s. true) sessions ≡ sessions
unfolding submitted
submitted-all [] = refl
submitted-all (s ∷ sessions) = ap (◌∷◌ s) (submitted-all sessions)

-- Where every task is accepted, a message with receivers is sent to the sessions that the gateway
-- has of these users, and to no others, even if it is to everyone; and one without receivers to
-- every session of the hub if it is to everyone, and to none if it is not.
pub deliver-Receivers :
    (hub : SessionHub) (msg : Message) (sess : HubSession)
    → (msg.receiver ≢ []
        → Memᴰ sess (deliver (λ s. true) hub msg) ↔ IsReceiver hub msg.receiver sess)
      × (msg.receiver ≡ []
          → deliver (λ s. true) hub msg ≡ (if msg.to_everyone then everyone hub.sessions else []))
unfolding deliver targets
deliver-Receivers hub msg sess = by_receiver msg.receiver
  where
    by_receiver :
        (r : List String)
        → (r ≢ []
            → Memᴰ sess (deliver (λ s. true) hub (record msg { receiver = r }))
              ↔ IsReceiver hub r sess)
          × (r ≡ []
              → deliver (λ s. true) hub (record msg { receiver = r })
                ≡ (if msg.to_everyone then everyone hub.sessions else []))
    by_receiver [] = (λ n. absurd (n refl), λ e. submitted-all _)
    by_receiver (id ∷ receiver) = (
      λ n.
          rw (submitted-all (look_up_all hub (id ∷ receiver)))
            (look_up_all-IsReceiver hub (id ∷ receiver) sess),
      λ e. cc,
    )
