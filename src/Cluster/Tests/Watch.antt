-- ===== src/Cluster/Tests/Watch.antt =====
-- Runs of registry.go.
use nodehub.Base.{
  ℕ, ◌≡◌, refl, String, Option, none, some, [], ◌∷◌, false, true, ◌==◌, nat_eq, string_eq,
  if◌then◌else◌,
}
use nodehub.Base.Maybe.{Ensures}
use nodehub.Base.Map
use nodehub.Base.Map.{Map}
use nodehub.Cluster.Entry.{NodeEntry}
use nodehub.Cluster.Resolver.{
  new_grpc_resolver, remove, remove_entry, remove_services, refresh, update_balancer,
  update_service_nodes, available, drop_conn,
}
use nodehub.Cluster.Registry.Again.{apply_again}
use nodehub.Cluster.Registry.Found.{Offers, apply-Offers}
use nodehub.Cluster.Resolver.Good.{new_grpc_resolver-Good}
use nodehub.Cluster.Tests.Services.{KeepsServices-new}
use nodehub.Cluster.Registry.{
  KeyValue, delete_node, deletion, is_stale, apply_new, change, remove_node, Registry, Snapshot,
  Event, put, see_revision, has_key, apply, sync,
}
use nodehub.Cluster.Registry.Sync.{Within, Buried, sync-Within}
use nodehub.Cluster.Tests.{chat, first, second, to_lower, registered, registered-AllFactories}

abbrev pub key_of : ℕ → String
key_of id = if id == first.id then "/nodehub/node/first" else "/nodehub/node/second"

abbrev pub unmarshal : String → Option NodeEntry
unmarshal value =
    if value == "first" then some first else if value == "second" then some second else none

-- The registry knows the first node; the snapshot has the second.
abbrev pub watched : Registry
watched = record {
  grpc_resolver = new_grpc_resolver;
  all_nodes = (first.id, first) ∷ [];
  versions = ("/nodehub/node/first", 5) ∷ [];
  max_rev = 5;
  sent = [];
}

abbrev pub snapshot : Snapshot
snapshot = record {
  revision = 9;
  kvs = record { key = "/nodehub/node/second"; mod_revision = 7; value = "second" } ∷ [];
}

sync-Within_example :
    Ensures (Within key_of snapshot) (sync to_lower registered unmarshal key_of snapshot watched)
sync-Within_example =
    sync-Within to_lower registered registered-AllFactories unmarshal key_of snapshot watched
      (refl, tt)

load-watched : Map.load watched.all_nodes first.id ≡ some first
unfolding Map.load
load-watched = refl

has_key-snapshot : has_key (key_of first.id) snapshot.kvs ≡ false
unfolding has_key
has_key-snapshot = refl

-- The first node is buried, and an event from before the snapshot comes late.
abbrev buried : Registry
buried = record watched { all_nodes = []; versions = ("/nodehub/node/first", 9) ∷ []; max_rev = 9 }

abbrev late : Event
late = put (record { key = "/nodehub/node/first"; mod_revision = 8; value = "first" })

buried-Buried : Buried key_of snapshot first.id buried
unfolding Map.load
buried-Buried = (refl, refl)

-- The first node is deleted.
abbrev pub deleted : Event
deleted =
    deletion (record { key = "/nodehub/node/first"; mod_revision = 12; value = "" })
      (some (record { key = "/nodehub/node/first"; mod_revision = 5; value = "first" }))

abbrev without_first : Registry
without_first = record watched {
  all_nodes = [];
  versions = ("/nodehub/node/first", 12) ∷ [];
  max_rev = 12;
  sent = delete_node first ∷ [];
}

apply-deleted : apply to_lower registered unmarshal key_of deleted watched ≡ some without_first
unfolding apply apply_new see_revision is_stale change remove_node remove remove_entry
    remove_services refresh update_balancer update_service_nodes available drop_conn
    new_grpc_resolver Map.load Map.store Map.delete
apply-deleted = refl

apply_again_example :
    apply to_lower registered unmarshal key_of deleted without_first ≡ some without_first
apply_again_example =
    apply_again to_lower registered unmarshal key_of deleted watched without_first apply-deleted

-- The first node comes back, to a registry whose resolver does not know it yet.
abbrev back : KeyValue
back = record { key = "/nodehub/node/first"; mod_revision = 12; value = "first" }

back-fresh : is_stale back (see_revision 12 watched) ≡ false
unfolding is_stale see_revision Map.load
back-fresh = refl

apply-Offers_example :
    Ensures
      (λ r.
        (Map.load r.all_nodes first.id ≡ some first)
        × Offers (λ endpoint. true) first r.grpc_resolver)
      (apply to_lower registered unmarshal key_of (put back) watched)
apply-Offers_example =
    apply-Offers to_lower registered registered-AllFactories unmarshal key_of (λ endpoint. true)
      back first chat [] watched new_grpc_resolver-Good KeepsServices-new refl back-fresh refl refl
