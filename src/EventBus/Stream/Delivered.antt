-- ===== src/EventBus/Stream/Delivered.antt =====
-- The subscribers of a type are called with the events of the type, in the order of publication.
use nodehub.Base.{
  ◌≡◌, refl, ap, ℕ, String, Option, some, List, [], ◌∷◌, Bool, nat_eq, string_eq, nat_beq,
  nat_beq_iff, arith, Option-cases, Bool-cases, inl, inr, Outcome, ok, err, if◌then◌else◌,
}
use nodehub.EventBus.{
  GoType, deref, Names, register_all, Payload, Event, PublishError, new_payload, subscribe, hand,
  publish, enqueue,
}
use nodehub.EventBus.Handed.{no_names, hand-new_payload}
use nodehub.EventBus.Stream.{observe, handled}

module _ {V : Type 0} (marshal : V → Option (List ℕ)) (encode : Payload → Option (List ℕ))
    (unmarshal : GoType → List ℕ → Option V) (enqueues : List ℕ → Bool) where
  -- The events that were published, each at its time, and the messages that the queue took.
  pub data Queued (n : Names) : List (ℕ × Event V) → List (List ℕ) → Type 0 where
    none_yet : Queued n [] []
    then_queued :
        {log : List (ℕ × Event V)} {msgs : List (List ℕ)} (now : ℕ) (ev : Event V) (msg : List ℕ)
        → publish marshal encode unmarshal enqueues n now ev ≡ ok msg
        → Queued n log msgs
        → Queued n ((now, ev) ∷ log) (msg ∷ msgs)

  -- The values and times of the events of a type.
  abbrev pub of_type : ℕ → List (ℕ × Event V) → List (V × ℕ)
  of_type t [] = []
  of_type t ((now, ev) ∷ log) =
      let rest = of_type t log in
      if nat_beq t (deref ev.go_type) then (ev.value, now) ∷ rest else rest

  queued-payload :
      (n : Names) (now : ℕ) (ev : Event V) (msg : List ℕ)
      → publish marshal encode unmarshal enqueues n now ev ≡ ok msg
      → (p : Payload) × (new_payload marshal encode unmarshal enqueues n now ev ≡ some p)
        × (encode p ≡ some msg)
  unfolding publish enqueue
  queued-payload n now ev msg h =
      elim (Option-cases (new_payload marshal encode unmarshal enqueues n now ev)) [
        | inl e ↦ cc (rw (e, publish) at h)
        | inr (p, e) ↦ elim (Option-cases (encode p)) [
          | inl f ↦ cc (rw (e, publish, f) at h)
          | inr (b, f) ↦ (p, e, taken p b f (rw (e, publish, f) at h))
        ]
      ]
    where
      taken :
          (p : Payload) (b : List ℕ)
          → encode p ≡ some b
          → ◌≡◌ {A = Outcome PublishError (List ℕ)}
              (if enqueues b then ok b else err nodehub.EventBus.not_queued)
              (ok msg)
          → encode p ≡ some msg
      taken p b f q = ground (arith, f, q)

  -- After registrations of which none panicked, and where json.Unmarshal reads back what
  -- json.Marshal wrote, of payloads and of events: however many events of whatever types were
  -- published, the handler of a type is called with the values and times of exactly the events of
  -- its type, in the order in which they were published.
  pub handled-Queued :
      (events : List (String × GoType)) (n : Names) (decode : List ℕ → Option Payload)
      (first_arg : GoType) (name : String) (log : List (ℕ × Event V)) (msgs : List (List ℕ))
      → register_all events no_names ≡ some n
      → ((p : Payload) (b : List ℕ) → encode p ≡ some b → decode b ≡ some p)
      → ((ev : Event V) (t : GoType) (b : List ℕ)
          → deref t ≡ deref ev.go_type
          → marshal ev.value ≡ some b
          → unmarshal t b ≡ some ev.value)
      → subscribe marshal encode unmarshal enqueues n first_arg ≡ some name
      → Queued n log msgs
      → handled marshal encode unmarshal enqueues first_arg name (observe decode msgs)
        ≡ of_type (deref first_arg) log
  unfolding handled observe
  handled-Queued events n decode first_arg name log msgs r d inv s none_yet = refl
  handled-Queued events n decode first_arg name (_ ∷ log) (_ ∷ msgs) r d inv s
        (then_queued now ev msg q rest) =
      let ih = handled-Queued events n decode first_arg name log msgs r d inv s rest in
      let (p, e, f) = queued-payload n now ev msg q in
      let (same, other) =
        hand-new_payload marshal encode unmarshal enqueues events n now ev p first_arg name r
          (inv ev) e s in
      elim (Bool-cases (nat_beq (deref first_arg) (deref ev.go_type))) [
        | inl t ↦
            rw (d p msg f, same ((nat_beq_iff (deref first_arg) (deref ev.go_type)).0 t), t)
              (ap (◌∷◌ (ev.value, now)) ih)
        | inr t ↦ rw (d p msg f, other (λ z. ground (arith, t, z)), t) ih
      ]
