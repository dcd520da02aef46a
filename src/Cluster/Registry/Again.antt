-- ===== src/Cluster/Registry/Again.antt =====
-- An event that registry.go is given twice.
use nodehub.Base.{
  ℕ, ◌≤◌, ◌≡◌, refl, subst, inl, inr, String, Option, none, some, true, nat_eq, string_eq,
  Bool-cases, Option-cases, arith,
}
use nodehub.Base.Maybe.{OnSome, >>=-OnSome, OnSome-some}
use nodehub.Base.Map
use nodehub.Base.Map.{Map}
use nodehub.Cluster.Entry.{NodeEntry}
use nodehub.Cluster.Balancer.{BalancerFactory}
use nodehub.Cluster.Resolver.{Resolver, update, remove}
use nodehub.Cluster.Registry.{
  Registry, KeyValue, Event, put, deletion, kv_of, see_revision, is_stale, remove_node, put_node,
  change, apply_new, apply,
}
use nodehub.Cluster.Registry.Total.{Any}

-- The key is known at the revision or a later one, which was seen.
record Known (kv : KeyValue) (r : Registry) : Type 0 where
  stale : is_stale kv r ≡ true
  seen : kv.mod_revision ≤ r.max_rev

-- The revisions are those of `r`.
abbrev SameRevisions : Registry → Registry → Type 0
SameRevisions r r' = (r'.versions ≡ r.versions) × (r'.max_rev ≡ r.max_rev)

Known-same : (kv : KeyValue) (r r' : Registry) → SameRevisions r r' → Known kv r → Known kv r'
unfolding is_stale
Known-same kv r r' (v, m) k = record { stale = rw v k.stale; seen = rw m k.seen }

seen-see_revision : (rev : ℕ) (r : Registry) → rev ≤ (see_revision rev r).max_rev
unfolding see_revision
seen-see_revision rev r = ground arith

see_revision-seen : (rev : ℕ) (r : Registry) → rev ≤ r.max_rev → see_revision rev r ≡ r
unfolding see_revision
see_revision-seen rev r h = ground arith

stale-store :
    (kv : KeyValue) (r : Registry)
    → is_stale kv (record r { versions = Map.store r.versions kv.key kv.mod_revision }) ≡ true
unfolding is_stale
stale-store kv r = ground (arith, Map.load-store_self r.versions kv.key kv.mod_revision)

any : (o : Option Resolver) → OnSome Any o
any none = tt
any (some r) = tt

module _ (to_lower : String → String) (registered : Map String BalancerFactory)
    (unmarshal : String → Option NodeEntry) (key_of : ℕ → String) where
  put_node-SameRevisions :
      (n : NodeEntry) (r : Registry)
      → OnSome (SameRevisions r) (put_node to_lower registered unmarshal key_of n r)
  unfolding put_node
  put_node-SameRevisions n r =
      >>=-OnSome Any (SameRevisions r) (update to_lower registered n r.grpc_resolver) _
        (any (update to_lower registered n r.grpc_resolver)) (λ resolver u. (refl, refl))

  remove_node-SameRevisions :
      (n : NodeEntry) (r : Registry)
      → OnSome (SameRevisions r) (remove_node to_lower registered unmarshal key_of n r)
  unfolding remove_node
  remove_node-SameRevisions n r =
      >>=-OnSome Any (SameRevisions r) (remove to_lower registered n r.grpc_resolver) _
        (any (remove to_lower registered n r.grpc_resolver)) (λ resolver u. (refl, refl))

  change-SameRevisions :
      (ev : Event) (r : Registry)
      → OnSome (SameRevisions r) (change to_lower registered unmarshal key_of ev r)
  unfolding change
  change-SameRevisions (put kv) r = elim (Option-cases (unmarshal kv.value)) [
    | inl e ↦ rw (e, change) (refl, refl)
    | inr (n, e) ↦ rw (e, change) (put_node-SameRevisions n r)
  ]
  change-SameRevisions (deletion kv none) r = tt
  change-SameRevisions (deletion kv (some prev)) r = elim (Option-cases (unmarshal prev.value)) [
    | inl e ↦ rw (e, change) (refl, refl)
    | inr (n, e) ↦ rw (e, change) (remove_node-SameRevisions n r)
  ]

  apply-Known :
      (ev : Event) (r r' : Registry)
      → apply to_lower registered unmarshal key_of ev r ≡ some r'
      → Known (kv_of ev) r'
  unfolding apply apply_new
  apply-Known ev r r' h =
      let kv = kv_of ev in
      let r1 = see_revision kv.mod_revision r in
      let seen = seen-see_revision kv.mod_revision r in
      elim (Bool-cases (is_stale kv r1)) [
        | inl e ↦
            let same : some r1 ≡ some r' = rw (e, apply, apply_new) at h in
            let eq : r1 ≡ r' = cc in subst (Known kv) eq (record { stale = e; seen = seen })
        | inr e ↦
            let r2 = record r1 { versions = Map.store r1.versions kv.key kv.mod_revision } in
            let made : change to_lower registered unmarshal key_of ev r2 ≡ some r' =
              rw (e, apply, apply_new) at h in
            Known-same kv r2 r'
              (OnSome-some (SameRevisions r2) (change to_lower registered unmarshal key_of ev r2) r'
                (change-SameRevisions ev r2) made)
              (record { stale = stale-store kv r1; seen = seen })
      ]

  -- An event that was applied without a panic changes nothing when it is applied again.
  pub apply_again :
      (ev : Event) (r r' : Registry)
      → apply to_lower registered unmarshal key_of ev r ≡ some r'
      → apply to_lower registered unmarshal key_of ev r' ≡ some r'
  unfolding apply apply_new
  apply_again ev r r' h =
      let k = apply-Known ev r r' h in
      rw (see_revision-seen (kv_of ev).mod_revision r' k.seen, k.stale) refl
