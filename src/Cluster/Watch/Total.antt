-- ===== src/Cluster/Watch/Total.antt =====
-- No event of the watch makes the registry panic, if deletions come with the value before.
use nodehub.Base.{
  ◌≢◌, refl, ℕ, String, Option, none, some, List, [], ◌∷◌, nat_eq, string_eq, All, Option-cases,
  Bool-cases, inl, inr,
}
use nodehub.Base.Maybe.{Ensures, >>=-Ensures, Ensures-some}
use nodehub.Base.Map
use nodehub.Base.Map.{Map}
use nodehub.Cluster.Entry.{NodeEntry}
use nodehub.Cluster.Balancer.{BalancerFactory}
use nodehub.Cluster.Balancer.Members.{AllFactories}
use nodehub.Cluster.Resolver.{update, remove}
use nodehub.Cluster.Registry.{
  Registry, Event, put, deletion, kv_of, Snapshot, see_revision, is_stale, has_key, remove_node,
  put_node, change, apply_new, apply, apply_all, remove_stale, forget_versions, sync, resync,
}
use nodehub.Cluster.Registry.Total.{Any, update-Ensures, remove-Ensures, Grown, apply_all-Ensures}
use nodehub.Cluster.Watch.{Retry, WatchEvent, responds, apply_events, try_resync, created, respond}

abbrev pub AnyRegistry : Registry → Type 0
AnyRegistry r = Unit

-- A deletion comes with the value that it deleted.
abbrev pub WithPrev : Event → Type 0
WithPrev (put kv) = Unit
WithPrev (deletion kv prev) = prev ≢ none

abbrev pub WithPrevs : WatchEvent → Type 0
WithPrevs (responds creation events) = All WithPrev events
WithPrevs _ = Unit

module _ (to_lower : String → String) (registered : Map String BalancerFactory)
    (all : AllFactories registered) (unmarshal : String → Option NodeEntry) (key_of : ℕ → String)
    (retry : Retry) where
  remove_node-total :
      (n : NodeEntry) (r : Registry)
      → Ensures AnyRegistry (remove_node to_lower registered unmarshal key_of n r)
  unfolding remove_node
  remove_node-total n r =
      >>=-Ensures Any AnyRegistry (remove to_lower registered n r.grpc_resolver) _
        (remove-Ensures to_lower registered all n r.grpc_resolver) (λ x u. tt)

  put_node-total :
      (n : NodeEntry) (r : Registry)
      → Ensures AnyRegistry (put_node to_lower registered unmarshal key_of n r)
  unfolding put_node
  put_node-total n r =
      >>=-Ensures Any AnyRegistry (update to_lower registered n r.grpc_resolver) _
        (update-Ensures to_lower registered all n r.grpc_resolver) (λ x u. tt)

  remove_stale-total :
      (s : Snapshot) (nodes : Map ℕ NodeEntry) (r : Registry)
      → Ensures AnyRegistry (remove_stale to_lower registered unmarshal key_of s nodes r)
  unfolding remove_stale
  remove_stale-total s [] r = tt
  remove_stale-total s ((id, n) ∷ nodes) r = elim (Bool-cases (has_key (key_of n.id) s.kvs)) [
    | inl e ↦ rw e (remove_stale-total s nodes r)
    | inr e ↦ rw e (
        >>=-Ensures AnyRegistry AnyRegistry
          (remove_node to_lower registered unmarshal key_of n
            (record r { versions = Map.store r.versions (key_of n.id) s.revision }))
          _ (remove_node-total n _) (λ r' u. remove_stale-total s nodes r'))
  ]

  sync-total :
      (s : Snapshot) (r : Registry)
      → Ensures AnyRegistry (sync to_lower registered unmarshal key_of s r)
  unfolding sync
  sync-total s r =
      let r0 = forget_versions s.revision r in
      >>=-Ensures (Grown r0) AnyRegistry (apply_all to_lower registered unmarshal key_of s.kvs r0) _
        (apply_all-Ensures to_lower registered all unmarshal key_of s.kvs r0)
        (λ r1 g. remove_stale-total s r1.all_nodes r1)

  change-total :
      (ev : Event) (r : Registry)
      → WithPrev ev
      → Ensures AnyRegistry (change to_lower registered unmarshal key_of ev r)
  unfolding change
  change-total (put kv) r p = elim (Option-cases (unmarshal kv.value)) [
    | inl e ↦ rw (e, change) tt
    | inr (n, e) ↦ rw (e, change) (put_node-total n r)
  ]
  change-total (deletion kv none) r p = absurd (p refl)
  change-total (deletion kv (some prev)) r p = elim (Option-cases (unmarshal prev.value)) [
    | inl e ↦ rw (e, change) tt
    | inr (n, e) ↦ rw (e, change) (remove_node-total n r)
  ]

  apply-total :
      (ev : Event) (r : Registry)
      → WithPrev ev
      → Ensures AnyRegistry (apply to_lower registered unmarshal key_of ev r)
  unfolding apply apply_new
  apply-total ev r p =
      elim (Bool-cases (is_stale (kv_of ev) (see_revision (kv_of ev).mod_revision r))) [
        | inl e ↦ rw e tt
        | inr e ↦ rw e (change-total ev _ p)
      ]

  pub try_resync-total :
      (answer : Option Snapshot) (r : Registry)
      → Ensures AnyRegistry (try_resync to_lower registered unmarshal key_of retry answer r)
  unfolding try_resync resync
  try_resync-total none r = tt
  try_resync-total (some s) r =
      let (r', e, u) =
        Ensures-some AnyRegistry (sync to_lower registered unmarshal key_of s r) (sync-total s r) in
      rw (e, try_resync, resync) tt

  apply_events-total :
      (events : List Event) (r : Registry)
      → All WithPrev events
      → Ensures AnyRegistry (apply_events to_lower registered unmarshal key_of retry events r)
  unfolding apply_events
  apply_events-total [] r p = tt
  apply_events-total (ev ∷ events) r p =
      >>=-Ensures AnyRegistry AnyRegistry (apply to_lower registered unmarshal key_of ev r) _
        (apply-total ev r p.0) (λ r' u. apply_events-total events r' p.1)

  created-total :
      (creation : Option (Option Snapshot)) (r : Registry)
      → Ensures AnyRegistry (created to_lower registered unmarshal key_of retry creation r)
  unfolding created
  created-total none r = tt
  created-total (some answer) r = try_resync-total answer r

  pub respond-total :
      (creation : Option (Option Snapshot)) (events : List Event) (r : Registry)
      → All WithPrev events
      → Ensures AnyRegistry (respond to_lower registered unmarshal key_of retry creation events r)
  unfolding respond
  respond-total creation events r p =
      >>=-Ensures AnyRegistry AnyRegistry
        (created to_lower registered unmarshal key_of retry creation r) _ (created-total creation r)
        (λ r' u. apply_events-total events r' p)
