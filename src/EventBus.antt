-- ===== src/EventBus.antt =====
-- event/events.go and event/bus.go: the names of the events of the cluster, what is published for
-- an event, and which subscribers are handed it.
pub mod Handed
pub mod Stream
pub mod Tests
use nodehub.Base.{
  ◌≡◌, ℕ, String, Option, none, some, List, [], ◌∷◌, Bool, true, false, ◌==◌, nat_eq, string_eq,
  if◌then◌else◌, Outcome, ok, err, panic,
}
use nodehub.Base.Maybe.{◌>>=◌}
use nodehub.Base.Map
use nodehub.Base.Map.{Map}

-- A type of Go: a number, or a pointer to the type of that number.
pub data GoType : Type 0 where
  plain pointer : ℕ → GoType

unfoldable pub deref : GoType → ℕ
deref (plain t) = t
deref (pointer t) = t

-- The variables `events` and `types`.
pub record Names : Type 0 where
  pub events : Map String ℕ
  pub types : Map ℕ String

-- `none` is a panic.
unfoldable pub register : String → GoType → Names → Option Names
register event_type ev n = elim (Map.load n.events event_type) [
  | some _ ↦ none
  | none ↦ some (record {
    events = Map.store n.events event_type (deref ev);
    types = Map.store n.types (deref ev) event_type;
  })
]

unfoldable pub register_all : List (String × GoType) → Names → Option Names
register_all [] n = some n
register_all ((event_type, ev) ∷ events) n = do
  n' ← register event_type ev n
  register_all events n'

-- The time is in microseconds.
pub record Payload : Type 0 where
  pub time : ℕ
  pub event_type : String
  pub detail : List ℕ

-- An event is its type and its value.
pub record Event (V : Type 0) : Type 0 where
  pub go_type : GoType
  pub value : V

pub data PublishError : Type 0 where
  not_encoded not_queued : PublishError

-- Parameters: `json.Marshal` of a value and of a payload, `json.Unmarshal` into a value of a type,
-- and whether the queue takes a message.
module _ {V : Type 0} (marshal : V → Option (List ℕ)) (encode : Payload → Option (List ℕ))
    (unmarshal : GoType → List ℕ → Option V) (enqueues : List ℕ → Bool) where
  unfoldable pub new_payload : Names → ℕ → Event V → Option Payload
  new_payload n now ev = elim (Map.load n.types (deref ev.go_type)) [
    | none ↦ none
    | some event_type ↦ elim (marshal ev.value) [
      | none ↦ none
      | some detail ↦ some (record { time = now; event_type = event_type; detail = detail })
    ]
  ]

  unfoldable pub enqueue : Option (List ℕ) → Outcome PublishError (List ℕ)
  enqueue none = err not_encoded
  enqueue (some bytes) = if enqueues bytes then ok bytes else err not_queued

  -- The message that the queue was given; an event without a payload is a panic.
  unfoldable pub publish : Names → ℕ → Event V → Outcome PublishError (List ℕ)
  publish n now ev = elim (new_payload n now ev) [ none ↦ panic | some p ↦ enqueue (encode p) ]

  -- The name that a handler with a first argument of this type subscribes to; `none` is a panic.
  unfoldable pub subscribe : Names → GoType → Option String
  subscribe n first_arg = Map.load n.types (deref first_arg)

  -- What the handler of this type and name is called with for a payload, with its time.
  unfoldable pub hand : GoType → String → Payload → Option (V × ℕ)
  hand first_arg event_type p =
      if p.event_type == event_type
      then (elim (unmarshal first_arg p.detail) [ some v ↦ some (v, p.time) | none ↦ none ])
      else none
