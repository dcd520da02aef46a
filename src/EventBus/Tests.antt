-- ===== src/EventBus/Tests.antt =====
-- The two events of a gateway, one of which is published.
use nodehub.Base.{
  ◌≡◌, refl, ℕ, String, Option, none, some, List, [], ◌∷◌, Bool, true, nat_eq, string_eq,
}
use nodehub.Base.Map
use nodehub.EventBus.{
  GoType, plain, pointer, deref, Names, register, register_all, Payload, Event, new_payload,
  subscribe,
}
use nodehub.EventBus.Handed.{no_names}

abbrev pub events : List (String × GoType)
events = ("user:connected", plain 1) ∷ ("user:disconnected", plain 2) ∷ []

abbrev pub names : Names
names = record {
  events = ("user:connected", 1) ∷ ("user:disconnected", 2) ∷ [];
  types = (1, "user:connected") ∷ (2, "user:disconnected") ∷ [];
}

pub register_all-events : register_all events no_names ≡ some names
unfolding register_all register deref Map.load Map.store
register_all-events = refl

abbrev pub marshal : ℕ → Option (List ℕ)
marshal v = some (v ∷ [])

abbrev encode : Payload → Option (List ℕ)
encode p = some p.detail

abbrev pub unmarshal : GoType → List ℕ → Option ℕ
unmarshal t [] = none
unmarshal t (b ∷ bytes) = some b

abbrev pub enqueues : List ℕ → Bool
enqueues bytes = true

abbrev event : Event ℕ
event = record { go_type = pointer 1; value = 42 }

abbrev payload : Payload
payload = record { time = 5; event_type = "user:connected"; detail = 42 ∷ [] }

new_payload-event : new_payload marshal encode unmarshal enqueues names 5 event ≡ some payload
unfolding new_payload deref Map.load
new_payload-event = refl

subscribe-names :
    subscribe marshal encode unmarshal enqueues names (plain 1) ≡ some "user:connected"
unfolding subscribe deref Map.load
subscribe-names = refl
