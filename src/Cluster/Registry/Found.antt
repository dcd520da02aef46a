-- ===== src/Cluster/Registry/Found.antt =====
-- From an event of etcd to the connections and the balancers of the resolver.
use nodehub.Base.{
  ℕ, ◌≡◌, refl, sym, subst, ◌∙◌, inl, inr, String, Option, none, some, List, [], ◌∷◌, Bool, true,
  false, ◌==◌, nat_eq, string_eq, Bool-cases, Option-cases, arith, Memᴰ, mem-perm, ok, str_eq_iff,
}
use nodehub.Base.Int.{ℤ, int_eq, is_positive}
use nodehub.Base.Maybe.{Ensures, >>=-Ensures, Ensures-map}
use nodehub.Base.Map
use nodehub.Base.Map.{Map}
use nodehub.Cluster.Entry.{NodeEntry, GrpcServiceDesc, node_ok, node_down}
use nodehub.Cluster.Balancer.{BalancerFactory}
use nodehub.Cluster.Balancer.Members.{AllFactories}
use nodehub.Cluster.Resolver.{
  Resolver, update, update_entry, update_services, offers, is_available, available, ok_list,
  drop_conn,
}
use nodehub.Cluster.Resolver.Good.{Good, KeepsServices, update-Good}
use nodehub.Cluster.Resolver.Invariant.{Looped, update_services-Ensures}
use nodehub.Cluster.Resolver.Query.{get_conn, get_endpoint_conn}
use nodehub.Cluster.Registry.{
  Registry, KeyValue, put, see_revision, is_stale, put_node, change, apply_new, apply,
}

Ensures-both :
    {A : Type 0} (P Q : A → Type 0) (m : Option A)
    → Ensures P m
    → Ensures Q m
    → Ensures (λ a. P a × Q a) m
Ensures-both P Q none h k = absurd h
Ensures-both P Q (some a) h k = (h, k)

mem-available :
    (c : ℤ) (m : Map ℕ NodeEntry) (id : ℕ) (n : NodeEntry)
    → Map.load m id ≡ some n
    → is_available c n ≡ true
    → Memᴰ n (available c m)
unfolding Map.load available
mem-available c [] id n l a = cc
mem-available c ((j, x) ∷ m) id n l a = elim (Bool-cases (j == id)) [
  | inl e ↦ let q : x ≡ n = ground (arith, e, l) in rw (q, a) (Memᴰ.head refl)
  | inr e ↦
      let k = mem-available c m id n (rw e at l) a in
      elim (Bool-cases (is_available c x)) [ inl b ↦ rw b (Memᴰ.tail k) | inr b ↦ rw b k ]
]

drop_conn-nodes :
    (endpoint : String) (r : Resolver) → (drop_conn endpoint r).all_nodes ≡ r.all_nodes
unfolding drop_conn
drop_conn-nodes endpoint r = ground arith

-- What a resolver makes of an entry that is up: it lists the entry for every service with a
-- positive code that the entry offers, and connects to it by its identity, over a connection that
-- it has or, if the endpoint can be dialled, one that it makes.
pub record Offers (can_dial : String → Bool) (node : NodeEntry) (r : Resolver) : Type 0 where
  pub good : Good r
  pub known : Map.load r.all_nodes node.id ≡ some node
  pub listed :
      (c : ℤ)
      → is_positive c ≡ true
      → offers c node.grpc.services ≡ true
      → Memᴰ node (ok_list r.ok_nodes c)
  pub connects :
      can_dial node.grpc.endpoint ≡ true → (conn : ℕ) × ((get_conn can_dial node.id r).1 ≡ ok conn)

Offers-known :
    (can_dial : String → Bool) (node : NodeEntry) (r : Resolver)
    → node.state ≡ node_ok
    → Good r
    → Map.load r.all_nodes node.id ≡ some node
    → Offers can_dial node r
unfolding is_available get_conn get_endpoint_conn
Offers-known can_dial node r s g k = record {
  good = g;
  known = k;
  listed = λ c p o.
      mem-perm (g.good c p).exact (mem-available c r.all_nodes node.id node k (available_node c o));
  connects = connection;
}
  where
    available_node : (c : ℤ) → offers c node.grpc.services ≡ true → is_available c node ≡ true
    available_node c o = ground (arith, s, o, str_eq_iff node.state node_ok)

    not_down : (node.state == node_down) ≡ false
    not_down = rw s refl

    connection :
        can_dial node.grpc.endpoint ≡ true
        → (conn : ℕ) × ((get_conn can_dial node.id r).1 ≡ ok conn)
    connection d = elim (Option-cases (Map.load r.conns node.grpc.endpoint)) [
      | inl e ↦ (r.next_conn, rw (get_conn, k, not_down, get_endpoint_conn, e, d) refl)
      | inr (conn, e) ↦ (conn, rw (get_conn, k, not_down, get_endpoint_conn, e) refl)
    ]

see_revision-resolver :
    (rev : ℕ) (r : Registry) → (see_revision rev r).grpc_resolver ≡ r.grpc_resolver
unfolding see_revision
see_revision-resolver rev r = ground arith

module _ (to_lower : String → String) (registered : Map String BalancerFactory)
    (all : AllFactories registered) where
  update-nodes :
      (node : NodeEntry) (d : GrpcServiceDesc) (ds : List GrpcServiceDesc) (r : Resolver)
      (nodes : Map ℕ NodeEntry)
      → node.grpc.services ≡ d ∷ ds
      → Map.store r.all_nodes node.id node ≡ nodes
      → Ensures (λ r'. r'.all_nodes ≡ nodes) (update to_lower registered node r)
  unfolding update update_entry
  update-nodes node d ds r nodes e q =
      let r0 = record r { all_nodes = Map.store r.all_nodes node.id node } in
      rw (e, update)
        (>>=-Ensures (Looped node.grpc.services r0) _
          (update_services to_lower registered node.grpc.services r0) _
          (update_services-Ensures to_lower registered all node.grpc.services r0)
          (λ r1 l. elim (Bool-cases (node.state == node_down)) [
            | inl b ↦ rw b (drop_conn-nodes node.grpc.endpoint r1 ∙ l.same_nodes ∙ q)
            | inr b ↦ rw b (l.same_nodes ∙ q)
          ]))

  update-Offers :
      (can_dial : String → Bool) (node : NodeEntry) (d : GrpcServiceDesc)
      (ds : List GrpcServiceDesc) (r : Resolver)
      → Good r
      → KeepsServices r node
      → node.grpc.services ≡ d ∷ ds
      → node.state ≡ node_ok
      → Ensures (Offers can_dial node) (update to_lower registered node r)
  update-Offers can_dial node d ds r g keeps e s =
      Ensures-map _ (Offers can_dial node) (update to_lower registered node r)
        (λ r' h.
          Offers-known can_dial node r' s h.0
            (rw h.1 (Map.load-store_self r.all_nodes node.id node)))
        (Ensures-both Good (λ r'. r'.all_nodes ≡ Map.store r.all_nodes node.id node) _
          (update-Good to_lower registered all node r g keeps)
          (update-nodes node d ds r (Map.store r.all_nodes node.id node) e refl))

  -- Where each registered policy makes balancers of the nodes it is given and does not panic on
  -- some: an event of a revision that is new to the registry brings a node that is up, offers
  -- services and keeps those it was known by. Then applying it to a good registry does not panic, and leaves one in which the node is known, is
  -- among the available nodes of each of its services whose code is positive, and is found for a
  -- connection by its identity, if its endpoint can be dialled.
  pub apply-Offers :
      (unmarshal : String → Option NodeEntry) (key_of : ℕ → String) (can_dial : String → Bool)
      (kv : KeyValue) (node : NodeEntry) (d : GrpcServiceDesc) (ds : List GrpcServiceDesc)
      (r : Registry)
      → Good r.grpc_resolver
      → KeepsServices r.grpc_resolver node
      → unmarshal kv.value ≡ some node
      → is_stale kv (see_revision kv.mod_revision r) ≡ false
      → node.grpc.services ≡ d ∷ ds
      → node.state ≡ node_ok
      → Ensures
          (λ r'.
            (Map.load r'.all_nodes node.id ≡ some node) × Offers can_dial node r'.grpc_resolver)
          (apply to_lower registered unmarshal key_of (put kv) r)
  unfolding apply apply_new change put_node
  apply-Offers unmarshal key_of can_dial kv node d ds r g keeps u fresh e s =
      let r1 = see_revision kv.mod_revision r in
      let same : r1.grpc_resolver ≡ r.grpc_resolver = see_revision-resolver kv.mod_revision r in
      rw (fresh, change, u)
        (>>=-Ensures (Offers can_dial node) _ (update to_lower registered node r1.grpc_resolver) _
          (subst (λ x. Ensures (Offers can_dial node) (update to_lower registered node x))
            (sym same) (update-Offers can_dial node d ds r.grpc_resolver g keeps e s))
          (λ resolver o. (Map.load-store_self r1.all_nodes node.id node, o)))
