-- ===== src/Cluster/Registry/Total.antt =====
-- What the updates of registry.go leave of the nodes.
use nodehub.Base.{
  ℕ, ◌≡◌, refl, inl, inr, String, Option, some, List, [], ◌∷◌, ◌==◌, nat_eq, string_eq, All,
  Bool-cases, Option-cases, arith,
}
use nodehub.Base.Maybe.{Ensures, >>=-Ensures, Ensures-map}
use nodehub.Base.Map
use nodehub.Base.Map.{Map}
use nodehub.Cluster.Entry.{NodeEntry}
use nodehub.Cluster.Balancer.{BalancerFactory}
use nodehub.Cluster.Balancer.Members.{AllFactories}
use nodehub.Cluster.Resolver.{
  Resolver, update, remove, update_entry, remove_entry, update_services, remove_services,
}
use nodehub.Cluster.Resolver.Invariant.{Looped, update_services-Ensures, remove_services-Ensures}
use nodehub.Cluster.Registry.{
  Registry, KeyValue, put, see_revision, is_stale, put_node, change, apply_new, apply, apply_all,
}

abbrev pub Any : Resolver → Type 0
Any r = Unit

module _ (to_lower : String → String) (registered : Map String BalancerFactory)
    (all : AllFactories registered) where
  pub update-Ensures :
      (node : NodeEntry) (r : Resolver) → Ensures Any (update to_lower registered node r)
  unfolding update update_entry
  update-Ensures node r = go node.grpc.services refl
    where
      go : (ds : List _) → node.grpc.services ≡ ds → Ensures Any (update to_lower registered node r)
      go [] e = rw (e, update) tt
      go (d ∷ ds) e =
          let r0 = record r { all_nodes = Map.store r.all_nodes node.id node } in
          rw (e, update)
            (>>=-Ensures (Looped node.grpc.services r0) Any
              (update_services to_lower registered node.grpc.services r0) _
              (update_services-Ensures to_lower registered all node.grpc.services r0) (λ r1 l. tt))

  pub remove-Ensures :
      (node : NodeEntry) (r : Resolver) → Ensures Any (remove to_lower registered node r)
  unfolding remove remove_entry
  remove-Ensures node r = go node.grpc.services refl
    where
      go : (ds : List _) → node.grpc.services ≡ ds → Ensures Any (remove to_lower registered node r)
      go [] e = rw (e, remove) tt
      go (d ∷ ds) e =
          let r0 = record r { all_nodes = Map.delete r.all_nodes node.id } in
          rw (e, remove)
            (>>=-Ensures (Looped node.grpc.services r0) Any
              (remove_services to_lower registered node.grpc.services r0) _
              (remove_services-Ensures to_lower registered all node.grpc.services r0) (λ r1 l. tt))

-- A node stands under its identity.
abbrev pub Keyed : ℕ × NodeEntry → Type 0
Keyed (id, n) = n.id ≡ id

store-Keyed : (m : Map ℕ NodeEntry) (n : NodeEntry) → All Keyed m → All Keyed (Map.store m n.id n)
unfolding Map.store
store-Keyed [] n h = (refl, tt)
store-Keyed ((j, x) ∷ m) n h = elim (Bool-cases (j == n.id)) [
  | inl e ↦ rw e (refl, h.1)
  | inr e ↦ rw e (h.0, store-Keyed m n h.1)
]

-- What an update makes of the nodes: none is lost.
pub record Grown (r r' : Registry) : Type 0 where
  pub keyed : All Keyed r.all_nodes → All Keyed r'.all_nodes
  pub kept :
      (id : ℕ) (n : NodeEntry)
      → Map.load r.all_nodes id ≡ some n
      → (n' : NodeEntry) × (Map.load r'.all_nodes id ≡ some n')

Grown-same : (r r' : Registry) → r'.all_nodes ≡ r.all_nodes → Grown r r'
Grown-same r r' e = record { keyed = λ h. rw e h; kept = λ id n h. (n, rw e h) }

Grown-trans : (a b c : Registry) → Grown a b → Grown b c → Grown a c
Grown-trans a b c g h = record {
  keyed = λ k. h.keyed (g.keyed k);
  kept = λ id n l. let (n', l') = g.kept id n l in h.kept id n' l';
}

Grown-store :
    (r r' : Registry) (entry : NodeEntry)
    → r'.all_nodes ≡ Map.store r.all_nodes entry.id entry
    → Grown r r'
Grown-store r r' entry e = record {
  keyed = λ h. rw e (store-Keyed r.all_nodes entry h);
  kept = λ id n h. elim (Bool-cases (entry.id == id)) [
    | inl same ↦ (entry, rw (e, Map.load-store r.all_nodes entry.id id entry, same) refl)
    | inr other ↦ (n, rw (e, Map.load-store r.all_nodes entry.id id entry, other) h)
  ];
}

see_revision-nodes : (rev : ℕ) (r : Registry) → (see_revision rev r).all_nodes ≡ r.all_nodes
unfolding see_revision
see_revision-nodes rev r = ground arith

module _ (to_lower : String → String) (registered : Map String BalancerFactory)
    (all : AllFactories registered) (unmarshal : String → Option NodeEntry)
    (key_of : ℕ → String) where
  put_node-Ensures :
      (entry : NodeEntry) (r : Registry)
      → Ensures (Grown r) (put_node to_lower registered unmarshal key_of entry r)
  unfolding put_node
  put_node-Ensures entry r =
      >>=-Ensures Any (Grown r) (update to_lower registered entry r.grpc_resolver) _
        (update-Ensures to_lower registered all entry r.grpc_resolver)
        (λ resolver u. Grown-store r _ entry refl)

  change-put-Ensures :
      (kv : KeyValue) (r : Registry)
      → Ensures (Grown r) (change to_lower registered unmarshal key_of (put kv) r)
  unfolding change
  change-put-Ensures kv r = elim (Option-cases (unmarshal kv.value)) [
    | inl e ↦ rw (e, change) (Grown-same r r refl)
    | inr (entry, e) ↦ rw (e, change) (put_node-Ensures entry r)
  ]

  apply-put-Ensures :
      (kv : KeyValue) (r : Registry)
      → Ensures (Grown r) (apply to_lower registered unmarshal key_of (put kv) r)
  unfolding apply apply_new
  apply-put-Ensures kv r =
      let r1 = see_revision kv.mod_revision r in
      let g : Grown r r1 = Grown-same r r1 (see_revision-nodes kv.mod_revision r) in
      elim (Bool-cases (is_stale kv r1)) [
        | inl e ↦ rw e g
        | inr e ↦
            let r2 = record r1 { versions = Map.store r1.versions kv.key kv.mod_revision } in
            rw e (
              Ensures-map (Grown r2) (Grown r) _
                (λ r'. Grown-trans r r2 r' (Grown-trans r r1 r2 g (Grown-same r1 r2 refl)))
                (change-put-Ensures kv r2))
      ]

  -- Applying the entries of a snapshot does not panic, and loses no node.
  pub apply_all-Ensures :
      (kvs : List KeyValue) (r : Registry)
      → Ensures (Grown r) (apply_all to_lower registered unmarshal key_of kvs r)
  unfolding apply_all
  apply_all-Ensures [] r = Grown-same r r refl
  apply_all-Ensures (kv ∷ kvs) r =
      >>=-Ensures (Grown r) (Grown r) (apply to_lower registered unmarshal key_of (put kv) r) _
        (apply-put-Ensures kv r)
        (λ r1 g.
          Ensures-map (Grown r1) (Grown r) _ (λ r2. Grown-trans r r1 r2 g)
            (apply_all-Ensures kvs r1))
