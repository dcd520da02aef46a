-- ===== src/Cluster/Resolver/Alloc.antt =====
-- The nodes that a resolver hands out.
use nodehub.Base.{
  ℕ, ◌%◌, String, ◌≡◌, ◌≢◌, refl, sym, subst, ◌∙◌, ap, inl, inr, Option, none, some, List, [], ◌∷◌,
  true, nat_eq, string_eq, length, ok, err, arith, mem-perm, Memᴰ, Option-cases, Bool-cases,
  str_eq_iff,
}
use mathlib.Core.List.Permᴰ
use nodehub.Base.Int.{ℤ, int_eq, is_positive}
use nodehub.Base.Map
use nodehub.Base.Map.{Map, IsMap}
use nodehub.Cluster.Entry.{NodeEntry, node_ok}
use nodehub.Cluster.Balancer.{Balancer, Session, no_node_available}
use nodehub.Cluster.Balancer.Members.{OneOf, candidates, pick-candidates, Permᴰ-nil}
use nodehub.Cluster.Balancer.Hash.{node_at-lt}
use nodehub.Cluster.Balancer.Pick.{intn}
use nodehub.Cluster.Resolver.{Resolver, offers, is_available, available, ok_list}
use nodehub.Cluster.Resolver.Refresh.{IsPublic, Balanced, balancer_at}
use nodehub.Cluster.Resolver.Good.{Good}
use nodehub.Cluster.Resolver.Query.{alloc_node, pick_one, pick_node}

-- The identity is that of a node of the cluster that is up and offers the service.
abbrev pub Serves : Resolver → ℤ → ℕ → Type 0
Serves r c id =
    (n : NodeEntry) × (Map.load r.all_nodes id ≡ some n)
    × (n.state ≡ node_ok)
    × (offers c n.grpc.services ≡ true)

available-load :
    (c : ℤ) (m : Map ℕ NodeEntry) (n : NodeEntry)
    → IsMap m
    → Memᴰ n (available c m)
    → (id : ℕ) × (Map.load m id ≡ some n) × (is_available c n ≡ true)
unfolding available Map.load
available-load c [] n d h = elim h [ ]
available-load c ((j, x) ∷ m) n d h = elim (Bool-cases (is_available c x)) [
  | inl e ↦ first e (λ k. later (available-load c m n d.1 k)) (rw (e, available) at h)
  | inr e ↦ later (available-load c m n d.1 (rw (e, available) at h))
]
  where
    later :
        (id : ℕ) × (Map.load m id ≡ some n) × (is_available c n ≡ true)
        → (id : ℕ) × (Map.load ((j, x) ∷ m) id ≡ some n) × (is_available c n ≡ true)
    later (id, l, a) =
        let ne : j ≢ id = λ q. cc (subst (λ y. Map.load m y ≡ none) q d.0) in
        (id, rw (Map.beq_ne j id ne) l, a)

    first :
        is_available c x ≡ true
        → (Memᴰ n (available c m)
            → (id : ℕ) × (Map.load ((j, x) ∷ m) id ≡ some n) × (is_available c n ≡ true))
        → Memᴰ n (x ∷ available c m)
        → (id : ℕ) × (Map.load ((j, x) ∷ m) id ≡ some n) × (is_available c n ≡ true)
    first e f (Memᴰ.head q) = (j, rw (Map.beq_self j) (ap some (sym q)), rw q e)
    first e f (Memᴰ.tail k) = f k

available-serves :
    (c : ℤ) (n : NodeEntry)
    → is_available c n ≡ true
    → (n.state ≡ node_ok) × (offers c n.grpc.services ≡ true)
unfolding is_available
available-serves c n h = ground (arith, str_eq_iff n.state node_ok, h)

-- In a good resolver, a node that the list of a service has serves it.
listed-Serves :
    (r : Resolver) (c : ℤ) (id : ℕ)
    → Good r
    → is_positive c ≡ true
    → OneOf id (ok_list r.ok_nodes c)
    → Serves r c id
listed-Serves r c id g p (n, m, q) =
    let (j, l, a) =
      available-load c r.all_nodes n g.distinct (mem-perm (Permᴰ.symm (g.good c p).exact) m) in
    let (s, o) = available-serves c n a in
    (n, subst (λ k. Map.load r.all_nodes k ≡ some n) (sym (g.keyed j n l) ∙ q) l, s, o)

Balanced-OneOf :
    (nodes : List NodeEntry) (b : Balancer) (id : ℕ)
    → Balanced nodes (some b)
    → OneOf id (candidates b)
    → OneOf id nodes
Balanced-OneOf [] b id h (n, m, q) = cc
Balanced-OneOf (x ∷ nodes) b id h (n, m, q) = (n, h n m, q)

Balanced-empty :
    (nodes : List NodeEntry) (o : Option Balancer) → Balanced nodes o → nodes ≡ [] → o ≡ none
Balanced-empty [] o h e = h
Balanced-empty (x ∷ nodes) o h e = cc

module _ (sum64 : String → ℕ) (addr_bytes : String → Option (List ℕ)) where
  -- In a good resolver, a node that is allocated for a public service of the cluster (one with a
  -- positive code) is up and offers the service.
  pub alloc_node-Serves :
      (r : Resolver) (c : ℤ) (sess : Session) (draw id : ℕ)
      → Good r
      → is_positive c ≡ true
      → IsPublic r c
      → alloc_node sum64 addr_bytes r c sess draw ≡ ok id
      → Serves r c id
  unfolding alloc_node
  alloc_node-Serves r c sess draw id g p public e =
      elim (Option-cases (Map.load r.service_balancer c)) [
        | inl m ↦ cc (rw (m, alloc_node) at e)
        | inr (b, m) ↦ listed-Serves r c id g p (
            Balanced-OneOf (ok_list r.ok_nodes c) b id (rw m at ((g.good c p).balanced public))
              (pick-candidates sum64 addr_bytes b sess draw id (rw (m, alloc_node) at e)))
      ]

  -- In a good resolver, an allocation for a public service of the cluster is refused with
  -- no_node_available if no node is up and offers the service.
  pub alloc_node-none :
      (r : Resolver) (c : ℤ) (sess : Session) (draw : ℕ)
      → Good r
      → is_positive c ≡ true
      → IsPublic r c
      → available c r.all_nodes ≡ []
      → alloc_node sum64 addr_bytes r c sess draw ≡ err no_node_available
  unfolding alloc_node
  alloc_node-none r c sess draw g p public e =
      let q =
        Balanced-empty (ok_list r.ok_nodes c) (balancer_at r c) ((g.good c p).balanced public)
          (Permᴰ-nil (Permᴰ.symm (g.good c p).exact) e) in
      rw (q, alloc_node) refl

pick_one-OneOf :
    (nodes : List NodeEntry) (draw : ℕ)
    → nodes ≢ []
    → (id : ℕ) × (pick_one nodes draw ≡ ok id) × OneOf id nodes
unfolding pick_one intn
pick_one-OneOf [] draw h = absurd (h refl)
pick_one-OneOf (x ∷ []) draw h = (x.id, refl, (x, Memᴰ.head refl, refl))
pick_one-OneOf (x ∷ y ∷ nodes) draw h =
    let (n, m, _, e) = node_at-lt (x ∷ y ∷ nodes) (draw % length (x ∷ y ∷ nodes)) (omega arith) in
    (n.id, e, (n, m, refl))

-- In a good resolver, a service of the cluster that some node is up for is always given a node,
-- for every draw, and one that is up and offers the service.
pub pick_node-Serves :
    (r : Resolver) (c : ℤ) (draw : ℕ)
    → Good r
    → is_positive c ≡ true
    → available c r.all_nodes ≢ []
    → (id : ℕ) × (pick_node r c draw ≡ ok id) × Serves r c id
unfolding pick_node
pick_node-Serves r c draw g p h =
    let (id, e, o) =
      pick_one-OneOf (ok_list r.ok_nodes c) draw (λ z. h (Permᴰ-nil (g.good c p).exact z)) in
    (id, e, listed-Serves r c id g p o)
