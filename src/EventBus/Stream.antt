-- ===== src/EventBus/Stream.antt =====
-- event/bus.go: the messages of the queue as a stream of payloads, and who is called with them.
pub mod Delivered
pub mod Tests
use nodehub.Base.{
  ◌≡◌, ℕ, String, Option, none, some, List, [], ◌∷◌, Bool, true, false, not, ◌==◌, nat_eq,
  string_eq, if◌then◌else◌, Outcome, ok, err, panic,
}
use nodehub.Base.Map
use nodehub.EventBus.{GoType, plain, pointer, Names, Payload, subscribe, hand}

-- `Options`
pub record BusOptions : Type 0 where
  pub channel_name : String

abbrev pub BusOption : Type 0
BusOption = BusOptions → BusOptions

unfoldable pub with_channel_name : String → BusOption
with_channel_name name o = record o { channel_name = name }

unfoldable pub apply_options : List BusOption → BusOption
apply_options [] o = o
apply_options (fn ∷ options) o = apply_options options (fn o)

-- The channel of NewNatsBus and of NewRedisBus.
unfoldable pub bus_channel : List BusOption → String
bus_channel options =
    (apply_options options (record { channel_name = "nodehub:events" })).channel_name

-- What `observe` emits for a message: its payload, or an error.
pub data Item : Type 0 where
  item : Payload → Item
  bad_message : Item

-- `json.Unmarshal` into a payload is a parameter.
unfoldable pub observe : (List ℕ → Option Payload) → List (List ℕ) → List Item
observe decode [] = []
observe decode (msg ∷ msgs) =
    (elim (decode msg) [ some p ↦ item p | none ↦ bad_message ]) ∷ observe decode msgs

-- A handler, by its type: whether it is a function, and its arguments.
pub record HandlerType : Type 0 where
  pub is_function : Bool
  pub arguments : List GoType

-- What an observer of Observable is given.
pub data Observed (V : Type 0) : Type 0 where
  observed : GoType → V → Observed V
  unknown_event not_unmarshalled broken : Observed V

module _ {V : Type 0} (marshal : V → Option (List ℕ)) (encode : Payload → Option (List ℕ))
    (unmarshal : GoType → List ℕ → Option V) (enqueues : List ℕ → Bool) where
  -- The checks of Subscribe, in which the second argument is to be a time.Time: the type and the
  -- name to which the handler is subscribed. `none` is a panic.
  unfoldable pub checked_handler : Names → ℕ → HandlerType → Option (GoType × String)
  checked_handler n time_type h = if not h.is_function then none else elim h.arguments [
    | [] ↦ none
    | first_arg ∷ rest ↦ elim rest [
      | [] ↦ none
      | second_arg ∷ more ↦ elim more [
        | _ ∷ _ ↦ none
        | [] ↦ elim (subscribe marshal encode unmarshal enqueues n first_arg) [
          | none ↦ none
          | some name ↦ elim second_arg [
            | pointer t ↦ none
            | plain t ↦ if t == time_type then some (first_arg, name) else none
          ]
        ]
      ]
    ]
  ]

  -- The calls of the handler: an item that is an error, or that it cannot be called with, is
  -- logged and left out.
  unfoldable pub handled : GoType → String → List Item → List (V × ℕ)
  handled first_arg name [] = []
  handled first_arg name (bad_message ∷ items) = handled first_arg name items
  handled first_arg name (item p ∷ items) =
      let rest = handled first_arg name items in
      elim (hand marshal encode unmarshal enqueues first_arg name p) [
        | none ↦ rest
        | some call ↦ call ∷ rest
      ]

  -- Observable, one item: a pointer to a new value of the event's type.
  unfoldable pub observable : Names → Item → Observed V
  observable n bad_message = broken
  observable n (item p) = elim (Map.load n.events p.event_type) [
    | none ↦ unknown_event
    | some t ↦ elim (unmarshal (pointer t) p.detail) [
      | none ↦ not_unmarshalled
      | some v ↦ observed (pointer t) v
    ]
  ]
