-- ===== src/Gateway/StateTable/Invariant.antt =====
-- Every history of calls of state.go keeps one route for a session and a service.
use nodehub.Base.{
  ℕ, String, inl, inr, List, [], ◌∷◌, arith, str_eq_iff, Option-cases, string_eq, nat_eq,
}
use nodehub.Base.Int.{ℤ, int_eq}
use nodehub.Base.Map
use nodehub.Base.Map.{Map, IsMap}
use nodehub.Gateway.StateTable.{
  StateTable, store, remove, first_route, clean_routes, replace_routes, each_session, clean_node,
  replace_node, clean_session, new_state_table,
}
use nodehub.Gateway.StateTable.Laws.{load-each_session}
use nodehub.Gateway.StateTable.Nodes.{IsTable}

store-IsTable :
    (st : StateTable) (s : String) (c : ℤ) (n : ℕ) → IsTable st → IsTable (store st s c n)
unfolding store
store-IsTable st s c n table t nodes h = elim (Option-cases (Map.load st.routes s)) [
  | inl e ↦ ground (
    arith,
    e,
    table t nodes,
    Map.load-store st.routes s t (Map.store [] c n),
    str_eq_iff s t,
    Map.store-IsMap [] c n,
  )
  | inr (old, e) ↦ ground (
    arith,
    e,
    table t nodes,
    table s old e,
    Map.load-store st.routes s t (Map.store old c n),
    str_eq_iff s t,
    Map.store-IsMap old c n,
  )
]

remove-IsTable : (st : StateTable) (s : String) (c : ℤ) → IsTable st → IsTable (remove st s c)
unfolding remove
remove-IsTable st s c table t nodes h = elim (Option-cases (Map.load st.routes s)) [
  | inl e ↦ ground (arith, e, table t nodes)
  | inr (old, e) ↦ ground (
    arith,
    e,
    table t nodes,
    table s old e,
    Map.load-store st.routes s t (Map.delete old c),
    Map.delete-IsMap old c,
  )
]

clean_session-IsTable : (st : StateTable) (s : String) → IsTable st → IsTable (clean_session st s)
unfolding clean_session
clean_session-IsTable st s table t nodes h =
    ground (arith, table t nodes, Map.load-delete st.routes s t)

each_session-IsTable :
    (f : Map ℤ ℕ → Map ℤ ℕ) (st : StateTable)
    → ((m : Map ℤ ℕ) → IsMap m → IsMap (f m))
    → IsTable st
    → IsTable (record { routes = each_session f st.routes })
each_session-IsTable f st keep table t nodes h = elim (Option-cases (Map.load st.routes t)) [
  | inl e ↦ ground (arith, e, load-each_session f st.routes t)
  | inr (old, e) ↦ ground (arith, e, load-each_session f st.routes t, keep old (table t old e))
]

clean_routes-IsMap : (n : ℕ) (m : Map ℤ ℕ) → IsMap m → IsMap (clean_routes n m)
unfolding clean_routes
clean_routes-IsMap n m h = elim (Option-cases (first_route n m)) [
  | inl e ↦ ground (arith, e)
  | inr (c, e) ↦ ground (arith, e, Map.delete-IsMap m c h)
]

replace_routes-IsMap : (old new : ℕ) (m : Map ℤ ℕ) → IsMap m → IsMap (replace_routes old new m)
unfolding replace_routes
replace_routes-IsMap old new m h = elim (Option-cases (first_route old m)) [
  | inl e ↦ ground (arith, e)
  | inr (c, e) ↦ ground (arith, e, Map.store-IsMap m c new h)
]

-- The calls that change a table.
pub data Call : Type 0 where
  stores : String → ℤ → ℕ → Call
  removes : String → ℤ → Call
  cleans_node : ℕ → Call
  replaces_node : ℕ → ℕ → Call
  cleans_session : String → Call

unfoldable pub step : StateTable → Call → StateTable
step st (stores s c n) = store st s c n
step st (removes s c) = remove st s c
step st (cleans_node n) = clean_node st n
step st (replaces_node old new) = replace_node st old new
step st (cleans_session s) = clean_session st s

unfoldable pub run : StateTable → List Call → StateTable
run st [] = st
run st (c ∷ cs) = run (step st c) cs

step-IsTable : (st : StateTable) (c : Call) → IsTable st → IsTable (step st c)
unfolding step clean_node replace_node
step-IsTable st (stores s c n) h = store-IsTable st s c n h
step-IsTable st (removes s c) h = remove-IsTable st s c h
step-IsTable st (cleans_node n) h =
    each_session-IsTable (clean_routes n) st (clean_routes-IsMap n) h
step-IsTable st (replaces_node old new) h =
    each_session-IsTable (replace_routes old new) st (replace_routes-IsMap old new) h
step-IsTable st (cleans_session s) h = clean_session-IsTable st s h

run_from-IsTable : (st : StateTable) (cs : List Call) → IsTable st → IsTable (run st cs)
unfolding run
run_from-IsTable st [] h = h
run_from-IsTable st (c ∷ cs) h = run_from-IsTable (step st c) cs (step-IsTable st c h)

-- After any calls on a new table, no session has two entries for one service.
pub run-IsTable : (cs : List Call) → IsTable (run new_state_table cs)
unfolding new_state_table Map.load
run-IsTable cs = run_from-IsTable new_state_table cs new
  where
    new : IsTable new_state_table
    new s nodes h = ground arith
