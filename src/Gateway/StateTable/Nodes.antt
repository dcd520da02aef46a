-- ===== src/Gateway/StateTable/Nodes.antt =====
-- What CleanNode and ReplaceNode of state.go do to the routes, session by session.
use nodehub.Base.{
  ℕ, String, ◌≡◌, ◌≢◌, sym, subst, ◌∙◌, ◌⊎◌, inl, inr, none, some, [], ◌∷◌, arith, ◌==◌,
  if◌then◌else◌, Option-cases, Bool-cases, string_eq, nat_eq,
}
use nodehub.Base.Int.{ℤ, int_eq, int_beq_iff}
use nodehub.Base.Map
use nodehub.Base.Map.{Map, IsMap}
use nodehub.Gateway.StateTable.{
  StateTable, find, first_route, clean_routes, replace_routes, clean_node, replace_node,
}
use nodehub.Gateway.StateTable.Laws.{load-each_session}

-- Each session routes a service once.
abbrev pub IsTable : StateTable → Type 0
IsTable st = (s : String) (nodes : Map ℤ ℕ) → Map.load st.routes s ≡ some nodes → IsMap nodes

first_route-load :
    (n : ℕ) (nodes : Map ℤ ℕ) (c : ℤ)
    → IsMap nodes
    → first_route n nodes ≡ some c
    → Map.load nodes c ≡ some n
unfolding first_route Map.load
first_route-load n [] c m h = cc
first_route-load n ((d, k) ∷ nodes) c m h = ground (arith, first_route-load n nodes c m.1)

first_route-none :
    (n : ℕ) (nodes : Map ℤ ℕ) (c : ℤ) → first_route n nodes ≡ none → Map.load nodes c ≢ some n
unfolding first_route Map.load
first_route-none n [] c h = λ e. cc
first_route-none n ((d, k) ∷ nodes) c h = ground (arith, first_route-none n nodes c)

-- In a table with one entry for a session and a service, where a session has a route to the node,
-- CleanNode takes away exactly one such route of it.
pub clean_node-removes_one :
    (st : StateTable) (n : ℕ) (s : String) (c : ℤ)
    → IsTable st
    → find st s c ≡ some n
    → (e : ℤ) × (find st s e ≡ some n)
      × ((d : ℤ) → find (clean_node st n) s d ≡ (if e == d then none else find st s d))
unfolding find clean_node
clean_node-removes_one st n s c table h = elim (Option-cases (Map.load st.routes s)) [
  | inl e ↦ absurd (ground (arith, e))
  | inr (nodes, e) ↦ elim (Option-cases (first_route n nodes)) [
    | inl f ↦ absurd (ground (arith, e, f, first_route-none n nodes c f))
    | inr (k, f) ↦ (
      k,
      ground (arith, e, first_route-load n nodes k (table s nodes e) f),
      λ d.
          ground (
            arith,
            e,
            f,
            load-each_session (clean_routes n) st.routes s,
            Map.load-delete nodes k d,
          ),
    )
  ]
]

-- In a table with one entry for a session and a service, CleanNode leaves the routes of a session
-- that has no route to the node.
pub clean_node-keeps :
    (st : StateTable) (n : ℕ) (s : String)
    → IsTable st
    → ((c : ℤ) → find st s c ≢ some n)
    → (d : ℤ) → find (clean_node st n) s d ≡ find st s d
unfolding find clean_node
clean_node-keeps st n s table h d = elim (Option-cases (Map.load st.routes s)) [
  | inl e ↦ ground (arith, e, load-each_session (clean_routes n) st.routes s)
  | inr (nodes, e) ↦ elim (Option-cases (first_route n nodes)) [
    | inl f ↦ ground (arith, e, f, load-each_session (clean_routes n) st.routes s)
    | inr (k, f) ↦ absurd (h k (ground (arith, e, first_route-load n nodes k (table s nodes e) f)))
  ]
]

route-cases :
    (st : StateTable) (s : String) (c : ℤ) (n : ℕ) → (find st s c ≡ some n) ⊎ (find st s c ≢ some n)
route-cases st s c n = elim (Option-cases (find st s c)) [
  | inl e ↦ inr (λ h. cc)
  | inr (m, e) ↦ elim (Bool-cases (m == n)) [
    | inl same ↦ inl (ground arith)
    | inr other ↦ inr (λ h. ground arith)
  ]
]

-- In a table with one entry for a session and a service, after CleanNode no route of a session
-- leads to the node, if at most one did.
pub clean_node_complete :
    (st : StateTable) (n : ℕ) (s : String) (c : ℤ)
    → IsTable st
    → ((d : ℤ) → find st s d ≡ some n → d ≡ c)
    → (d : ℤ) → find (clean_node st n) s d ≢ some n
clean_node_complete st n s c table once d h = elim (route-cases st s c n) [
  | inl p ↦
      let (e, q, g) = clean_node-removes_one st n s c table p in
      ground (arith, g d, once d, once e q, int_beq_iff e d)
  | inr p ↦
      let k =
        clean_node-keeps st n s table (λ f q. p (subst (λ x. find st s x ≡ some n) (once f q) q))
          d in
      p (subst (λ x. find st s x ≡ some n) (once d (sym k ∙ h)) (sym k ∙ h))
]

-- In a table with one entry for a session and a service, a session with two services on the node
-- keeps a route to it after CleanNode.
pub clean_node-leaves_route :
    (st : StateTable) (n : ℕ) (s : String) (c d : ℤ)
    → IsTable st
    → c ≢ d
    → find st s c ≡ some n
    → find st s d ≡ some n
    → (find (clean_node st n) s c ≡ some n) ⊎ (find (clean_node st n) s d ≡ some n)
clean_node-leaves_route st n s c d table ne p q =
    let (e, _, g) = clean_node-removes_one st n s c table p in
    ground (arith, g c, g d, int_beq_iff e c, int_beq_iff e d)

-- In a table with one entry for a session and a service, where a session has a route to the old
-- node, ReplaceNode points exactly one such route of it to the new node.
pub replace_node-moves_one :
    (st : StateTable) (old new : ℕ) (s : String) (c : ℤ)
    → IsTable st
    → find st s c ≡ some old
    → (e : ℤ) × (find st s e ≡ some old)
      × ((d : ℤ) → find (replace_node st old new) s d ≡ (if e == d then some new else find st s d))
unfolding find replace_node
replace_node-moves_one st old new s c table h = elim (Option-cases (Map.load st.routes s)) [
  | inl e ↦ absurd (ground (arith, e))
  | inr (nodes, e) ↦ elim (Option-cases (first_route old nodes)) [
    | inl f ↦ absurd (ground (arith, e, f, first_route-none old nodes c f))
    | inr (k, f) ↦ (
      k,
      ground (arith, e, first_route-load old nodes k (table s nodes e) f),
      λ d. ground (
        arith,
        e,
        f,
        load-each_session (replace_routes old new) st.routes s,
        Map.load-store nodes k d new,
      ),
    )
  ]
]
