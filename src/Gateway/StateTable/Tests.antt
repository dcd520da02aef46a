-- ===== src/Gateway/StateTable/Tests.antt =====
-- Runs of state.go.
use nodehub.Base.{
  ◌≡◌, ◌≢◌, refl, none, some, List, [], ◌∷◌, ◌==◌, if◌then◌else◌, nat_eq, string_eq, arith,
}
use nodehub.Base.Int.{ℤ, pos, int_eq}
use nodehub.Base.Map
use nodehub.Base.Map.{Map}
use nodehub.Gateway.StateTable.{
  StateTable, new_state_table, find, store, remove, clean_node, replace_node, clean_session,
}
use nodehub.Gateway.StateTable.Nodes.{clean_node-removes_one, replace_node-moves_one}
use nodehub.Gateway.StateTable.Invariant.{Call, stores, cleans_node, run, run-IsTable}

-- Alice has two services on node 7 and one on node 8.
abbrev calls : List Call
calls = stores "alice" (pos 1) 7 ∷ stores "alice" (pos 2) 7 ∷ stores "alice" (pos 3) 8 ∷ []

abbrev table : StateTable
table = run new_state_table calls

route_1 : find table "alice" (pos 1) ≡ some 7
unfolding find Map.load run nodehub.Gateway.StateTable.Invariant.step store Map.store
    new_state_table
route_1 = refl

route_2 : find table "alice" (pos 2) ≡ some 7
unfolding find Map.load run nodehub.Gateway.StateTable.Invariant.step store Map.store
    new_state_table
route_2 = refl

route_3 : find table "alice" (pos 3) ≡ some 8
unfolding find Map.load run nodehub.Gateway.StateTable.Invariant.step store Map.store
    new_state_table
route_3 = refl

only_3 : (d : ℤ) → find table "alice" d ≡ some 8 → d ≡ pos 3
unfolding find Map.load run nodehub.Gateway.StateTable.Invariant.step store Map.store
    new_state_table
only_3 d h = ground arith

never_9 : (c : ℤ) → find table "alice" c ≢ some 9
unfolding find Map.load run nodehub.Gateway.StateTable.Invariant.step store Map.store
    new_state_table
never_9 c h = ground arith

clean_node-removes_one_example :
    (e : ℤ) × (find table "alice" e ≡ some 7)
    × ((d : ℤ)
        → find (clean_node table 7) "alice" d ≡ (if e == d then none else find table "alice" d))
clean_node-removes_one_example =
    clean_node-removes_one table 7 "alice" (pos 1) (run-IsTable calls) route_1

replace_node-moves_one_example :
    (e : ℤ) × (find table "alice" e ≡ some 8)
    × ((d : ℤ)
        → find (replace_node table 8 9) "alice" d
          ≡ (if e == d then some 9 else find table "alice" d))
replace_node-moves_one_example =
    replace_node-moves_one table 8 9 "alice" (pos 3) (run-IsTable calls) route_3
