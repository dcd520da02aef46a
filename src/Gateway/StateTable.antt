-- ===== src/Gateway/StateTable.antt =====
-- component/gateway/state.go: which node serves which service of which session.
pub mod Laws
pub mod Nodes
pub mod Invariant
pub mod Tests
use nodehub.Base.{
  nat_eq, string_eq, ℕ, String, Option, none, some, List, [], ◌∷◌, map, ◌==◌, if◌then◌else◌,
}
use nodehub.Base.Int.{ℤ, int_eq}
use nodehub.Base.Map
use nodehub.Base.Map.{Map}

-- sessionID => serviceCode => nodeID. A ULID is the number that its 16 bytes spell, big end
-- first, so that `Compare` is the order of the numbers.
pub record StateTable : Type 0 where
  pub routes : Map String (Map ℤ ℕ)

unfoldable pub new_state_table : StateTable
new_state_table = record { routes = [] }

unfoldable pub find : StateTable → String → ℤ → Option ℕ
find st sess_id service_code = elim (Map.load st.routes sess_id) [
  | some nodes ↦ Map.load nodes service_code
  | none ↦ none
]

unfoldable pub store : StateTable → String → ℤ → ℕ → StateTable
store st sess_id service_code node_id =
    let nodes : Map ℤ ℕ = elim (Map.load st.routes sess_id) [ some nodes ↦ nodes | none ↦ [] ] in
    record { routes = Map.store st.routes sess_id (Map.store nodes service_code node_id) }

unfoldable pub remove : StateTable → String → ℤ → StateTable
remove st sess_id service_code = elim (Map.load st.routes sess_id) [
  | some nodes ↦ record { routes = Map.store st.routes sess_id (Map.delete nodes service_code) }
  | none ↦ st
]

-- The service at which `nodes.Range` meets the node; the callback returns false there, which
-- ends the iteration.
unfoldable pub first_route : ℕ → Map ℤ ℕ → Option ℤ
first_route node_id [] = none
first_route node_id ((service_code, id) ∷ nodes) =
    if node_id == id then some service_code else first_route node_id nodes

unfoldable pub clean_routes : ℕ → Map ℤ ℕ → Map ℤ ℕ
clean_routes node_id nodes = elim (first_route node_id nodes) [
  | some service_code ↦ Map.delete nodes service_code
  | none ↦ nodes
]

unfoldable pub replace_routes : ℕ → ℕ → Map ℤ ℕ → Map ℤ ℕ
replace_routes old_id new_id nodes = elim (first_route old_id nodes) [
  | some service_code ↦ Map.store nodes service_code new_id
  | none ↦ nodes
]

-- `routes.Range` with a callback that changes each session's routes in place.
unfoldable pub each_session : (Map ℤ ℕ → Map ℤ ℕ) → Map String (Map ℤ ℕ) → Map String (Map ℤ ℕ)
each_session f [] = []
each_session f ((sess_id, nodes) ∷ routes) = (sess_id, f nodes) ∷ each_session f routes

unfoldable pub clean_node : StateTable → ℕ → StateTable
unfolding clean_routes each_session
clean_node st node_id = record { routes = each_session (clean_routes node_id) st.routes }

unfoldable pub replace_node : StateTable → ℕ → ℕ → StateTable
unfolding replace_routes each_session
replace_node st old_id new_id = record {
  routes = each_session (replace_routes old_id new_id) st.routes;
}

unfoldable pub clean_session : StateTable → String → StateTable
clean_session st sess_id = record { routes = Map.delete st.routes sess_id }
