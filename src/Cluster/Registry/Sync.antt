-- ===== src/Cluster/Registry/Sync.antt =====
-- What a full synchronisation of registry.go leaves.
use nodehub.Base.{
  ℕ, ◌≤◌, ◌≡◌, refl, subst, inl, inr, String, Option, none, some, [], ◌∷◌, true, false, ◌==◌,
  nat_eq, string_eq, All, Bool-cases, str_eq_iff, arith,
}
use nodehub.Base.Maybe.{Ensures, >>=-Ensures, Ensures-map}
use nodehub.Base.Map
use nodehub.Base.Map.{Map}
use nodehub.Cluster.Entry.{NodeEntry}
use nodehub.Cluster.Balancer.{BalancerFactory}
use nodehub.Cluster.Balancer.Members.{AllFactories}
use nodehub.Cluster.Resolver.{remove}
use nodehub.Cluster.Registry.{
  Registry, Snapshot, Event, kv_of, see_revision, is_stale, has_key, remove_node, apply_new, apply,
  apply_all, remove_stale, forget_versions, sync,
}
use nodehub.Cluster.Registry.Total.{Any, remove-Ensures, Keyed, Grown, apply_all-Ensures}
use nodehub.Cluster.Registry.Swept.{load-mem, Swept, Removed, Swept-keep, Swept-remove}

forget_versions-nodes : (rev : ℕ) (r : Registry) → (forget_versions rev r).all_nodes ≡ r.all_nodes
unfolding forget_versions
forget_versions-nodes rev r = ground arith

-- Every node of the registry is in the snapshot.
abbrev pub Within : (ℕ → String) → Snapshot → Registry → Type 0
Within key_of s r =
    (id : ℕ) (n : NodeEntry) → Map.load r.all_nodes id ≡ some n → has_key (key_of id) s.kvs ≡ true

-- The node is gone, and its key is known at the snapshot's revision.
abbrev pub Buried : (ℕ → String) → Snapshot → ℕ → Registry → Type 0
Buried key_of s id r =
    (Map.load r.all_nodes id ≡ none) × (Map.load r.versions (key_of id) ≡ some s.revision)

module _ (to_lower : String → String) (registered : Map String BalancerFactory)
    (all : AllFactories registered) (unmarshal : String → Option NodeEntry)
    (key_of : ℕ → String) where
  remove_node-Ensures :
      (s : Snapshot) (n : NodeEntry) (r : Registry)
      → Ensures (Removed key_of s n r) (
          remove_node to_lower registered unmarshal key_of n
            (record r { versions = Map.store r.versions (key_of n.id) s.revision }))
  unfolding remove_node
  remove_node-Ensures s n r =
      >>=-Ensures Any (Removed key_of s n r) (remove to_lower registered n r.grpc_resolver) _
        (remove-Ensures to_lower registered all n r.grpc_resolver)
        (λ resolver u. record {
          fewer = λ id m h. elim (Bool-cases (n.id == id)) [
            | inl e ↦ cc (rw (Map.load-delete r.all_nodes n.id id, e) at h)
            | inr e ↦ rw (Map.load-delete r.all_nodes n.id id, e) at h
          ];
          gone = Map.load-delete_self r.all_nodes n.id;
          marked = Map.load-store_self r.versions (key_of n.id) s.revision;
          marks_kept = λ key h. elim (Bool-cases (key_of n.id == key)) [
            | inl e ↦ rw (Map.load-store r.versions (key_of n.id) key s.revision, e) refl
            | inr e ↦ rw (Map.load-store r.versions (key_of n.id) key s.revision, e) h
          ];
        })

  remove_stale-Ensures :
      (s : Snapshot) (nodes : Map ℕ NodeEntry) (r : Registry)
      → All Keyed nodes
      → Ensures
          (Swept key_of s nodes r)
          (remove_stale to_lower registered unmarshal key_of s nodes r)
  unfolding remove_stale
  remove_stale-Ensures s [] r k = record {
    fewer = λ id n h. h;
    gone = λ id n m f. elim m [ ];
    marked = λ id n m f. elim m [ ];
    marks_kept = λ key h. h;
  }
  remove_stale-Ensures s ((id, n) ∷ nodes) r k = elim (Bool-cases (has_key (key_of n.id) s.kvs)) [
    | inl e ↦ rw e (
        Ensures-map (Swept key_of s nodes r) (Swept key_of s ((id, n) ∷ nodes) r) _
          (λ r' w.
            subst (λ i. Swept key_of s ((i, n) ∷ nodes) r r') k.0
              (Swept-keep key_of s n nodes r r' e w))
          (remove_stale-Ensures s nodes r k.1))
    | inr e ↦ rw e (
        >>=-Ensures (Removed key_of s n r) (Swept key_of s ((id, n) ∷ nodes) r) _ _
          (remove_node-Ensures s n r)
          (λ r1 d.
            Ensures-map (Swept key_of s nodes r1) (Swept key_of s ((id, n) ∷ nodes) r) _
              (λ r' w.
                subst (λ i. Swept key_of s ((i, n) ∷ nodes) r r') k.0
                  (Swept-remove key_of s n nodes r r1 r' d w))
              (remove_stale-Ensures s nodes r1 k.1)))
  ]

  Swept-Within :
      (s : Snapshot) (r r' : Registry) → Swept key_of s r.all_nodes r r' → Within key_of s r'
  Swept-Within s r r' w id n h = elim (Bool-cases (has_key (key_of id) s.kvs)) [
    | inl e ↦ e
    | inr e ↦ cc (w.gone id n (load-mem r.all_nodes id n (w.fewer id n h)) e)
  ]

  -- Where each registered policy makes balancers of the nodes it is given and does not panic on
  -- some, a synchronisation of a registry whose nodes stand under their identities does not panic,
  -- and then the snapshot has the key of each node of the registry.
  pub sync-Within :
      (s : Snapshot) (r : Registry)
      → All Keyed r.all_nodes
      → Ensures (Within key_of s) (sync to_lower registered unmarshal key_of s r)
  unfolding sync
  sync-Within s r k =
      let r0 = forget_versions s.revision r in
      >>=-Ensures (Grown r0) (Within key_of s)
        (apply_all to_lower registered unmarshal key_of s.kvs r0) _
        (apply_all-Ensures to_lower registered all unmarshal key_of s.kvs r0)
        (λ r1 g.
          Ensures-map (Swept key_of s r1.all_nodes r1) (Within key_of s) _
            (λ r'. Swept-Within s r1 r')
            (remove_stale-Ensures s r1.all_nodes r1
              (g.keyed (rw (forget_versions-nodes s.revision r) k))))

  -- Under the same conditions, a synchronisation buries a node of the registry whose key the
  -- snapshot does not have: the node is gone, and its key is known at the revision of the
  -- snapshot.
  pub sync-Buried :
      (s : Snapshot) (r : Registry) (id : ℕ) (n : NodeEntry)
      → All Keyed r.all_nodes
      → Map.load r.all_nodes id ≡ some n
      → has_key (key_of id) s.kvs ≡ false
      → Ensures (Buried key_of s id) (sync to_lower registered unmarshal key_of s r)
  unfolding sync
  sync-Buried s r id n k l f =
      let r0 = forget_versions s.revision r in
      let same : r0.all_nodes ≡ r.all_nodes = forget_versions-nodes s.revision r in
      >>=-Ensures (Grown r0) (Buried key_of s id)
        (apply_all to_lower registered unmarshal key_of s.kvs r0) _
        (apply_all-Ensures to_lower registered all unmarshal key_of s.kvs r0)
        (λ r1 g.
          let (n', l') = g.kept id n (rw same l) in
          let m = load-mem r1.all_nodes id n' l' in
          Ensures-map (Swept key_of s r1.all_nodes r1) (Buried key_of s id) _
            (λ r' w. (w.gone id n' m f, w.marked id n' m f))
            (remove_stale-Ensures s r1.all_nodes r1 (g.keyed (rw same k))))

module _ (to_lower : String → String) (registered : Map String BalancerFactory)
    (unmarshal : String → Option NodeEntry) (key_of : ℕ → String) where
  -- An event with the key of a buried node, and of a revision no later than the snapshot's,
  -- changes at most the highest revision seen: the nodes, the resolver, the revisions of the keys
  -- and the events sent stay as they are.
  pub apply-Buried :
      (s : Snapshot) (id : ℕ) (r : Registry) (ev : Event)
      → Buried key_of s id r
      → (kv_of ev).key ≡ key_of id
      → (kv_of ev).mod_revision ≤ s.revision
      → apply to_lower registered unmarshal key_of ev r
        ≡ some (see_revision (kv_of ev).mod_revision r)
  unfolding apply apply_new is_stale see_revision
  apply-Buried s id r ev b e h = ground (arith, b.1, e, str_eq_iff (kv_of ev).key (key_of id))
