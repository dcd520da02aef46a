-- ===== src/Node.antt =====
-- node.go and node_service.go: a node with its components, from the start to the shutdown.
pub mod States
pub mod Starts
pub mod Order
pub mod Assembly
pub mod Tests
use nodehub.Base.{
  ◌≡◌, ℕ, String, Option, none, some, List, [], ◌∷◌, ◌++◌, Bool, true, false, not, ◌==◌, string_eq,
  if◌then◌else◌, Outcome, ok, err,
}
use nodehub.Base.Int.{pos}
use nodehub.Cluster.Entry.{NodeEntry, node_ok, node_down}
use nodehub.Cluster.Publish.{Publisher, PutAnswer, Etcd, PutError, put, close_registry}

-- A component, with what its optional methods answer: `none` stands for a method that it does not
-- have.
pub record Component : Type 0 where
  pub name : String
  pub register_service : Bool
  pub before_start : Option (Option String)
  pub start : Option String
  pub after_start : Bool
  pub before_stop : Bool
  pub after_stop : Bool
  pub complete_node_entry : Option (NodeEntry → NodeEntry)

-- The calls of the components, by their names.
pub data Call : Type 0 where
  register_node_service before_starts starts after_starts before_stops stops after_stops :
      String → Call

pub record Node : Type 0 where
  pub entry : NodeEntry
  pub registry : Publisher
  pub components : List Component
  pub done : Bool

pub data NodeError : Type 0 where
  before_start_failed start_failed : String → String → NodeError
  register_failed : PutError → NodeError
  state_empty : NodeError

abbrev pub NodeOption : Type 0
NodeOption = Node → Node

unfoldable pub with_git_version : String → NodeOption
with_git_version version n = record n { entry = record n.entry { git_version = version } }

unfoldable pub with_state : String → NodeOption
with_state state n = record n { entry = record n.entry { state = state } }

unfoldable pub apply_options : List NodeOption → NodeOption
apply_options [] n = n
apply_options (opt ∷ options) n = apply_options options (opt n)

-- `id` is what `ulid.Make` answers.
unfoldable pub new_node : ℕ → String → Publisher → List NodeOption → Node
new_node id name registry options = apply_options options (record {
  entry = record {
    id = id;
    name = name;
    state = node_ok;
    entrance = "";
    metrics = "";
    grpc = record { endpoint = ""; services = [] };
    git_version = "";
  };
  registry = registry;
  components = [];
  done = false;
})

unfoldable pub add_component : Node → List Component → Node
add_component n c = record n { components = n.components ++ c }

unfoldable pub complete : List Component → NodeEntry → NodeEntry
complete [] entry = entry
complete (c ∷ components) entry =
    complete components (elim c.complete_node_entry [ some f ↦ f entry | none ↦ entry ])

unfoldable pub get_entry : Node → NodeEntry
get_entry n = complete n.components n.entry

unfoldable pub shutdown : Node → Node
shutdown n = record n { done = true }

unfoldable pub state : Node → String
state n = n.entry.state

-- Only the first component that takes services is given the node's.
unfoldable pub inject_service : List Component → List Call
inject_service [] = []
inject_service (c ∷ components) =
    if c.register_service then register_node_service c.name ∷ [] else inject_service components

-- From Start on, then the components that follow.
unfoldable pub start_component :
    Component → List Call × Option NodeError → List Call × Option NodeError
start_component c rest = elim c.start [
  | some e ↦ (starts c.name ∷ [], some (start_failed c.name e))
  | none ↦
      (starts c.name ∷ (if c.after_start then after_starts c.name ∷ rest.0 else rest.0), rest.1)
]

unfoldable pub start_each : List Component → List Call × Option NodeError
start_each [] = ([], none)
start_each (c ∷ components) =
    let started = start_component c (start_each components) in
    elim c.before_start [
      | none ↦ started
      | some (some e) ↦ (before_starts c.name ∷ [], some (before_start_failed c.name e))
      | some none ↦ (before_starts c.name ∷ started.0, started.1)
    ]

unfoldable pub start_all : List Component → List Call × Option NodeError
start_all components =
    let started = start_each components in (inject_service components ++ started.0, started.1)

-- The calls that the goroutine of a component makes to stop it.
unfoldable pub stop_component : Component → List Call
stop_component c =
    (if c.before_stop then before_stops c.name ∷ [] else [])
    ++ (stops c.name ∷ (if c.after_stop then after_stops c.name ∷ [] else []))

-- The goroutines run side by side: each step is the next call of one of them, and the timeout may
-- leave any of them unfinished.
pub data Interleaves : List (List Call) → List Call → Type 0 where
  ends : (rest : List (List Call)) → Interleaves rest []
  next :
      (before after : List (List Call)) (call : Call) (calls trace : List Call)
      → Interleaves (before ++ (calls ∷ after)) trace
      → Interleaves (before ++ ((call ∷ calls) ∷ after)) (call ∷ trace)

unfoldable pub stop_each : List Component → List (List Call)
stop_each [] = []
stop_each (c ∷ components) = stop_component c ∷ stop_each components

-- The traces of stopAll.
abbrev pub StopAll : List Component → List Call → Type 0
StopAll components trace = Interleaves (stop_each components) trace

module _ (hostname : String → Option String) (is_unspecified : String → Bool)
    (encodes : NodeEntry → Bool) (key : ℕ → String) where
  -- The deferred function puts the old state back on an error.
  unfoldable pub settled : String → Node → Publisher × Option PutError → Node × Option PutError
  settled old n (r, none) = (record n { registry = r }, none)
  settled old n (r, some e) =
      (record n { registry = r; entry = record n.entry { state = old } }, some e)

  unfoldable pub change_state : String → Etcd → Node → Node × Option PutError
  change_state new_state e n =
      if n.entry.state == new_state
      then (n, none)
      else (let changed = record n { entry = record n.entry { state = new_state } } in
          settled n.entry.state changed
            (put hostname is_unspecified encodes key (get_entry changed) e n.registry))

  -- `nodeService.ChangeState`
  unfoldable pub serve_change_state : String → Etcd → Node → Node × Option NodeError
  serve_change_state new_state e n =
      if new_state == ""
      then (n, some state_empty)
      else (let changed = change_state new_state e n in
          (changed.0, elim changed.1 [ some error ↦ some (register_failed error) | none ↦ none ]))

  -- The last step of Serve.
  unfoldable pub retire : Bool → Node → Node
  retire revoked n = record n { registry = close_registry revoked n.registry }

  -- How Serve ends: with an error, before or after the entry is put; or after the node was shut
  -- down, its state changed, its components stopped in some order, and its registry closed.
  pub data Serves (n : Node) : List Call → Node → Option NodeError → Type 0 where
    not_started :
        (trace : List Call) (e : NodeError)
        → start_all n.components ≡ (trace, some e)
        → Serves n trace n (some e)
    not_registered :
        (trace : List Call) (e : Etcd) (r : Publisher) (error : PutError)
        → start_all n.components ≡ (trace, none)
        → put hostname is_unspecified encodes key (get_entry n) e n.registry ≡ (r, some error)
        → Serves n trace (record n { registry = r }) (some (register_failed error))
    served :
        (trace : List Call) (e f : Etcd) (r : Publisher) (stopping : List Call)
        (done revoked : Bool)
        → start_all n.components ≡ (trace, none)
        → put hostname is_unspecified encodes key (get_entry n) e n.registry ≡ (r, none)
        → StopAll n.components stopping
        → Serves n
            (trace ++ stopping)
            (retire revoked (change_state node_down f (record n { registry = r; done = done })).0)
            none
