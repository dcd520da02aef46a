-- ===== src/EventBus/Stream/Tests.antt =====
-- Three events, of which a subscriber is called with two.
use nodehub.Base.{
  ◌≡◌, refl, ℕ, Option, none, some, List, [], ◌∷◌, true, nat_eq, string_eq, arith, ◌==◌,
  if◌then◌else◌, str_eq_iff,
}
use nodehub.Base.Map
use nodehub.EventBus.{
  GoType, plain, pointer, deref, Payload, Event, new_payload, publish, enqueue, subscribe,
}
use nodehub.EventBus.Stream.{
  observe, handled, checked_handler, observable, observed, unknown_event, item, bus_channel,
  with_channel_name, apply_options,
}
use nodehub.EventBus.Stream.Delivered.{Queued, none_yet, then_queued, of_type, handled-Queued}
use nodehub.EventBus.Tests.{events, names, register_all-events, marshal, unmarshal, enqueues}

abbrev encode : Payload → Option (List ℕ)
encode p =
    if p.event_type == "user:connected"
    then some (0 ∷ p.time ∷ p.detail)
    else if p.event_type == "user:disconnected"
    then some (1 ∷ p.time ∷ p.detail)
    else none

abbrev decode : List ℕ → Option Payload
decode [] = none
decode (kind ∷ []) = none
decode (kind ∷ time ∷ detail) = some (record {
  time = time;
  event_type = if kind == 0 then "user:connected" else "user:disconnected";
  detail = detail;
})

decode-encode : (p : Payload) (b : List ℕ) → encode p ≡ some b → decode b ≡ some p
decode-encode p b e = ground (
  arith,
  e,
  str_eq_iff p.event_type "user:connected",
  str_eq_iff p.event_type "user:disconnected",
)

unmarshal-marshal :
    (ev : Event ℕ) (t : GoType) (b : List ℕ)
    → deref t ≡ deref ev.go_type
    → marshal ev.value ≡ some b
    → unmarshal t b ≡ some ev.value
unmarshal-marshal ev t b d e = ground (arith, e)

abbrev log : List (ℕ × Event ℕ)
log =
    (5, record { go_type = pointer 1; value = 42 })
    ∷ (6, record { go_type = plain 2; value = 43 })
    ∷ (7, record { go_type = plain 1; value = 44 })
    ∷ []

abbrev msgs : List (List ℕ)
msgs = (0 ∷ 5 ∷ 42 ∷ []) ∷ (1 ∷ 6 ∷ 43 ∷ []) ∷ (0 ∷ 7 ∷ 44 ∷ []) ∷ []

log-Queued : Queued marshal encode unmarshal enqueues names log msgs
unfolding publish enqueue new_payload deref Map.load
log-Queued =
    then_queued 5 (record { go_type = pointer 1; value = 42 }) (0 ∷ 5 ∷ 42 ∷ []) refl
      (then_queued 6 (record { go_type = plain 2; value = 43 }) (1 ∷ 6 ∷ 43 ∷ []) refl
        (then_queued 7 (record { go_type = plain 1; value = 44 }) (0 ∷ 7 ∷ 44 ∷ []) refl none_yet))

subscribe-names :
    subscribe marshal encode unmarshal enqueues names (plain 1) ≡ some "user:connected"
unfolding subscribe deref Map.load
subscribe-names = refl

handled-Queued_example :
    handled marshal encode unmarshal enqueues (plain 1) "user:connected" (observe decode msgs)
    ≡ of_type marshal encode unmarshal enqueues (deref (plain 1)) log
handled-Queued_example =
    handled-Queued marshal encode unmarshal enqueues events names decode (plain 1) "user:connected"
      log msgs register_all-events decode-encode unmarshal-marshal subscribe-names log-Queued

-- A handler of one argument is a panic, one of an event and a time is not.
checked_handler-names :
    (checked_handler marshal encode unmarshal enqueues names 9
        (record { is_function = true; arguments = plain 1 ∷ [] })
      ≡ none)
    × (checked_handler marshal encode unmarshal enqueues names 9
          (record { is_function = true; arguments = plain 1 ∷ plain 9 ∷ [] })
        ≡ some (plain 1, "user:connected"))
unfolding checked_handler subscribe deref Map.load
checked_handler-names = (refl, refl)

observable-names :
    (observable marshal encode unmarshal enqueues names
        (item (record { time = 5; event_type = "user:connected"; detail = 42 ∷ [] }))
      ≡ observed (pointer 1) 42)
    × (observable marshal encode unmarshal enqueues names
          (item (record { time = 5; event_type = "user:lost"; detail = 42 ∷ [] }))
        ≡ unknown_event)
unfolding observable Map.load
observable-names = (refl, refl)

bus_channel-default :
    (bus_channel [] ≡ "nodehub:events")
    × (bus_channel (with_channel_name "a" ∷ with_channel_name "b" ∷ []) ≡ "b")
unfolding bus_channel apply_options with_channel_name
bus_channel-default = (refl, refl)
