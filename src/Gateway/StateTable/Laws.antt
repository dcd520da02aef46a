-- ===== src/Gateway/StateTable/Laws.antt =====
-- What the operations of state.go do to the routes that `Find` reads.
use nodehub.Base.{
  ℕ, String, ◌≡◌, refl, inl, inr, none, some, [], ◌∷◌, ◌&&◌, arith, ◌==◌, if◌then◌else◌, str_eq_iff,
  Option-cases, string_eq, nat_eq,
}
use nodehub.Base.Int.{ℤ, int_eq}
use nodehub.Base.Map
use nodehub.Base.Map.{Map}
use nodehub.Gateway.StateTable.{StateTable, find, store, remove, each_session, clean_session}

-- A store is read back at its session and service, and every other route stays.
pub find-store :
    (st : StateTable) (s t : String) (c d : ℤ) (n : ℕ)
    → find (store st s c n) t d ≡ (if s == t && c == d then some n else find st t d)
unfolding find store Map.load
find-store st s t c d n = elim (Option-cases (Map.load st.routes s)) [
  | inl e ↦ ground (
    arith,
    e,
    Map.load-store st.routes s t (Map.store [] c n),
    Map.load-store [] c d n,
    str_eq_iff s t,
  )
  | inr (nodes, e) ↦ ground (
    arith,
    e,
    Map.load-store st.routes s t (Map.store nodes c n),
    Map.load-store nodes c d n,
    str_eq_iff s t,
  )
]

-- A removal takes away its own route only.
pub find-remove :
    (st : StateTable) (s t : String) (c d : ℤ)
    → find (remove st s c) t d ≡ (if s == t && c == d then none else find st t d)
unfolding find remove
find-remove st s t c d = elim (Option-cases (Map.load st.routes s)) [
  | inl e ↦ ground (arith, e, str_eq_iff s t)
  | inr (nodes, e) ↦ ground (
    arith,
    e,
    Map.load-store st.routes s t (Map.delete nodes c),
    Map.load-delete nodes c d,
    str_eq_iff s t,
  )
]

-- Cleaning a session takes away all of its routes and no other.
pub find-clean_session :
    (st : StateTable) (s t : String) (d : ℤ)
    → find (clean_session st s) t d ≡ (if s == t then none else find st t d)
unfolding find clean_session
find-clean_session st s t d = ground (arith, Map.load-delete st.routes s t)

pub load-each_session :
    (f : Map ℤ ℕ → Map ℤ ℕ) (m : Map String (Map ℤ ℕ)) (s : String)
    → Map.load (each_session f m) s
      ≡ (elim (Map.load m s) [ some nodes ↦ some (f nodes) | none ↦ none ])
unfolding each_session Map.load
load-each_session f [] s = refl
load-each_session f ((t, nodes) ∷ m) s = ground (arith, load-each_session f m s)
