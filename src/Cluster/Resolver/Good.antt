-- ===== src/Cluster/Resolver/Good.antt =====
-- A resolver in which every service is right, and the calls that keep it so.
use nodehub.Base.{
  ℕ, String, ◌≡◌, refl, sym, subst, inl, inr, none, some, List, [], ◌∷◌, true, false, ◌==◌, nat_eq,
  string_eq, arith, Option-cases, Bool-cases,
}
use mathlib.Core.List.{Permᴰ}
use nodehub.Base.Int.{ℤ, int_eq, is_positive}
use nodehub.Base.Map
use nodehub.Base.Map.{Map, IsMap}
use nodehub.Base.Maybe.{Ensures, >>=-Ensures}
use nodehub.Cluster.Entry.{NodeEntry, GrpcServiceDesc, node_down}
use nodehub.Cluster.Balancer.{BalancerFactory}
use nodehub.Cluster.Balancer.Members.{AllFactories}
use nodehub.Cluster.Resolver.{
  Resolver, offers, is_available, available, ok_list, update_services, remove_services,
  update_entry, remove_entry, update, remove, drop_conn, new_grpc_resolver,
}
use nodehub.Cluster.Resolver.Refresh.{GoodAt}
use nodehub.Cluster.Resolver.Invariant.{Looped, update_services-Ensures, remove_services-Ensures}

-- The nodes stand under their identities, once, and every service of the cluster is right.
pub record Good (r : Resolver) : Type 0 where
  pub distinct : IsMap r.all_nodes
  pub keyed : (id : ℕ) (node : NodeEntry) → Map.load r.all_nodes id ≡ some node → node.id ≡ id
  pub good : (c : ℤ) → is_positive c ≡ true → GoodAt r c

-- The node was known, if at all, by services that the entry still lists.
abbrev pub KeepsServices : Resolver → NodeEntry → Type 0
KeepsServices r node =
    (old : NodeEntry) (c : ℤ)
    → Map.load r.all_nodes node.id ≡ some old
    → is_positive c ≡ true
    → offers c old.grpc.services ≡ true
    → offers c node.grpc.services ≡ true

pub new_grpc_resolver-Good : Good new_grpc_resolver
unfolding new_grpc_resolver Map.load available ok_list
new_grpc_resolver-Good = record {
  distinct = tt;
  keyed = λ id node h. cc;
  good = λ c p. record { exact = Permᴰ.nil; balanced = λ (desc, e, b). cc };
}

available-store :
    (c : ℤ) (m : Map ℕ NodeEntry) (id : ℕ) (node : NodeEntry)
    → is_available c node ≡ false
    → ((old : NodeEntry) → Map.load m id ≡ some old → is_available c old ≡ false)
    → available c (Map.store m id node) ≡ available c m
unfolding available Map.store Map.load
available-store c [] id node h k = rw (h)
available-store c ((j, n) ∷ m) id node h k = elim (Bool-cases (j == id)) [
  | inl e ↦ rw (e, h, k n (rw e))
  | inr e ↦ let rest = available-store c m id node h (λ old f. k old (rw e f)) in rw (e, rest)
]

available-delete :
    (c : ℤ) (m : Map ℕ NodeEntry) (id : ℕ)
    → IsMap m
    → ((old : NodeEntry) → Map.load m id ≡ some old → is_available c old ≡ false)
    → available c (Map.delete m id) ≡ available c m
unfolding available Map.delete Map.load
available-delete c [] id d k = refl
available-delete c ((j, n) ∷ m) id d k = elim (Bool-cases (j == id)) [
  | inl e ↦
      let same : id ≡ j = ground (arith, e) in
      rw (e, k n (rw e))
        (available-delete c m id d.1
          (λ old f. cc (subst (λ x. Map.load m x ≡ none) (sym same) d.0)))
  | inr e ↦ let rest = available-delete c m id d.1 (λ old f. k old (rw e f)) in rw (e, rest)
]

not_available :
    (c : ℤ) (n : NodeEntry) → offers c n.grpc.services ≡ false → is_available c n ≡ false
unfolding is_available
not_available c n h = ground (arith, h)

silent :
    (r : Resolver) (node : NodeEntry)
    → KeepsServices r node
    → (old : NodeEntry) (c : ℤ) → Map.load r.all_nodes node.id ≡ some old
    → is_positive c ≡ true
    → offers c node.grpc.services ≡ false
    → offers c old.grpc.services ≡ false
silent r node keeps old c f p o = elim (Bool-cases (offers c old.grpc.services)) [
  | inl h ↦ cc (keeps old c f p h)
  | inr h ↦ h
]

Good-Looped :
    (ds : List GrpcServiceDesc) (r r0 r1 : Resolver)
    → Looped ds r0 r1
    → Good r
    → IsMap r0.all_nodes
    → ((id : ℕ) (node : NodeEntry) → Map.load r0.all_nodes id ≡ some node → node.id ≡ id)
    → ((c : ℤ) → is_positive c ≡ true → offers c ds ≡ false → GoodAt r c → GoodAt r0 c)
    → Good r1
Good-Looped ds r r0 r1 l g d k keep = record {
  distinct = rw l.same_nodes d;
  keyed = rw l.same_nodes k;
  good = λ c p. elim (Bool-cases (offers c ds)) [
    | inl o ↦ l.good c p (inl o)
    | inr o ↦ l.good c p (inr (keep c p o (g.good c p)))
  ];
}

GoodAt-nodes :
    (r : Resolver) (m : Map ℕ NodeEntry) (c : ℤ)
    → available c m ≡ available c r.all_nodes
    → GoodAt r c
    → GoodAt (record r { all_nodes = m }) c
GoodAt-nodes r m c e g = record { exact = rw e g.exact; balanced = g.balanced }

drop_conn-Good : (endpoint : String) (r : Resolver) → Good r → Good (drop_conn endpoint r)
unfolding drop_conn
drop_conn-Good endpoint r g = elim (Option-cases (Map.load r.conns endpoint)) [
  | inl e ↦ rw (e, drop_conn) g
  | inr (conn, e) ↦
      rw (e, drop_conn)
        (record {
          distinct = g.distinct;
          keyed = g.keyed;
          good = λ c p. record { exact = (g.good c p).exact; balanced = (g.good c p).balanced };
        })
]

module _ (to_lower : String → String) (registered : Map String BalancerFactory)
    (all : AllFactories registered) where
  update_entry-Good :
      (node : NodeEntry) (r : Resolver)
      → Good r
      → KeepsServices r node
      → Ensures Good (update_entry to_lower registered node r)
  unfolding update_entry
  update_entry-Good node r g keeps =
      let r0 = record r { all_nodes = Map.store r.all_nodes node.id node } in
      >>=-Ensures (Looped node.grpc.services r0) Good
        (update_services to_lower registered node.grpc.services r0) _
        (update_services-Ensures to_lower registered all node.grpc.services r0)
        (λ r1 l.
          let g1 : Good r1 =
            Good-Looped node.grpc.services r r0 r1 l g
              (Map.store-IsMap r.all_nodes node.id node g.distinct) (λ id n e. keyed id n e)
              (λ c p o. GoodAt-nodes r r0.all_nodes c (
                available-store c r.all_nodes node.id node (not_available c node o)
                  (λ old f. not_available c old (silent r node keeps old c f p o)))) in
          elim (Bool-cases (node.state == node_down)) [
            | inl e ↦ rw e (drop_conn-Good node.grpc.endpoint r1 g1)
            | inr e ↦ rw e g1
          ])
    where
      keyed :
          (id : ℕ) (n : NodeEntry)
          → Map.load (Map.store r.all_nodes node.id node) id ≡ some n
          → n.id ≡ id
      keyed id n e = elim (Bool-cases (node.id == id)) [
        | inl h ↦ ground (arith, h, e, Map.load-store r.all_nodes node.id id node)
        | inr h ↦ g.keyed id n (rw (Map.load-store r.all_nodes node.id id node, h) at e)
      ]

  -- Where each registered policy makes balancers of the nodes it is given and does not panic on
  -- some, an update of a good resolver by a node that keeps the services it was known by does not
  -- panic, and leaves a good resolver: the nodes stand once, under their identities, and each
  -- service of the cluster has exactly the available nodes and, if it is public, a balancer of
  -- them, or none if there are no nodes.
  pub update-Good :
      (node : NodeEntry) (r : Resolver)
      → Good r
      → KeepsServices r node
      → Ensures Good (update to_lower registered node r)
  unfolding update
  update-Good node r g keeps = go node.grpc.services refl
    where
      go :
          (ds : List GrpcServiceDesc)
          → node.grpc.services ≡ ds
          → Ensures Good (update to_lower registered node r)
      go [] e = rw (e, update) g
      go (d ∷ ds) e = rw (e, update) (update_entry-Good node r g keeps)

  remove_entry-Good :
      (node : NodeEntry) (r : Resolver)
      → Good r
      → KeepsServices r node
      → Ensures Good (remove_entry to_lower registered node r)
  unfolding remove_entry
  remove_entry-Good node r g keeps =
      let r0 = record r { all_nodes = Map.delete r.all_nodes node.id } in
      >>=-Ensures (Looped node.grpc.services r0) Good
        (remove_services to_lower registered node.grpc.services r0) _
        (remove_services-Ensures to_lower registered all node.grpc.services r0)
        (λ r1 l. drop_conn-Good node.grpc.endpoint r1 (
          Good-Looped node.grpc.services r r0 r1 l g
            (Map.delete-IsMap r.all_nodes node.id g.distinct) (λ id n e. keyed id n e)
            (λ c p o. GoodAt-nodes r r0.all_nodes c (
              available-delete c r.all_nodes node.id g.distinct
                (λ old f. not_available c old (silent r node keeps old c f p o))))))
    where
      keyed :
          (id : ℕ) (n : NodeEntry)
          → Map.load (Map.delete r.all_nodes node.id) id ≡ some n
          → n.id ≡ id
      keyed id n e = elim (Bool-cases (node.id == id)) [
        | inl h ↦ ground (arith, h, e, Map.load-delete r.all_nodes node.id id)
        | inr h ↦ g.keyed id n (rw (Map.load-delete r.all_nodes node.id id, h) at e)
      ]

  -- Where each registered policy makes balancers of the nodes it is given and does not panic on
  -- some, a removal, from a good resolver, of a node with the services it was known by does not
  -- panic, and leaves a good resolver.
  pub remove-Good :
      (node : NodeEntry) (r : Resolver)
      → Good r
      → KeepsServices r node
      → Ensures Good (remove to_lower registered node r)
  unfolding remove
  remove-Good node r g keeps = go node.grpc.services refl
    where
      go :
          (ds : List GrpcServiceDesc)
          → node.grpc.services ≡ ds
          → Ensures Good (remove to_lower registered node r)
      go [] e = rw (e, remove) g
      go (d ∷ ds) e = rw (e, remove) (remove_entry-Good node r g keeps)
