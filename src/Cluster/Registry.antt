-- ===== src/Cluster/Registry.antt =====
-- cluster/registry.go: how the watch of etcd keeps the nodes of the cluster. `apply` and `resync`
-- hold one lock, so each is a step.
pub mod Total
pub mod Swept
pub mod Sync
pub mod Again
pub mod Found
use nodehub.Base.{
  ℕ, ◌≡◌, String, Option, none, some, List, [], ◌∷◌, Bool, true, false, ◌||◌, ◌==◌, nat_eq,
  string_eq, if◌then◌else◌, ltb, leb,
}
use nodehub.Base.Maybe.{◌>>=◌}
use nodehub.Base.Map
use nodehub.Base.Map.{Map}
use nodehub.Cluster.Entry.{NodeEntry}
use nodehub.Cluster.Balancer.{BalancerFactory}
use nodehub.Cluster.Resolver.{Resolver, update, remove}

pub data NodeEvent : Type 0 where
  update_node delete_node : NodeEntry → NodeEvent

-- `versions` and `max_rev` are the variables of runWatcher; `sent` lists the events that its
-- subscribers were sent, the last first.
pub record Registry : Type 0 where
  pub grpc_resolver : Resolver
  pub all_nodes : Map ℕ NodeEntry
  pub versions : Map String ℕ
  pub max_rev : ℕ
  pub sent : List NodeEvent

-- A revision of etcd is positive.
pub record KeyValue : Type 0 where
  pub key : String
  pub mod_revision : ℕ
  pub value : String

-- The deleted entry comes with the event unless etcd has compacted it.
pub data Event : Type 0 where
  put : KeyValue → Event
  deletion : KeyValue → Option KeyValue → Event

abbrev pub kv_of : Event → KeyValue
kv_of (put kv) = kv
kv_of (deletion kv prev) = kv

-- What `client.Get` answers.
pub record Snapshot : Type 0 where
  pub revision : ℕ
  pub kvs : List KeyValue

pub data RegistryError : Type 0 where
  get_failed : RegistryError

unfoldable pub see_revision : ℕ → Registry → Registry
see_revision rev r = if ltb r.max_rev rev then record r { max_rev = rev } else r

-- The key is known at this revision or a later one.
unfoldable pub is_stale : KeyValue → Registry → Bool
is_stale kv r = elim (Map.load r.versions kv.key) [
  | some ver ↦ leb kv.mod_revision ver
  | none ↦ false
]

unfoldable pub has_key : String → List KeyValue → Bool
has_key key [] = false
has_key key (kv ∷ kvs) = kv.key == key || has_key key kvs

-- The revisions are not to be trusted when etcd's revision has gone back.
unfoldable pub forget_versions : ℕ → Registry → Registry
forget_versions rev r = if ltb rev r.max_rev then record r { versions = []; max_rev = rev } else r

-- Parameters: `strings.ToLower`, the table of policies, `json.Unmarshal`, and
-- `path.Join(r.keyPrefix, id.String())`. `none` is a panic.
module _ (to_lower : String → String) (registered : Map String BalancerFactory)
    (unmarshal : String → Option NodeEntry) (key_of : ℕ → String) where
  unfoldable pub remove_node : NodeEntry → Registry → Option Registry
  remove_node entry r = do
    resolver ← remove to_lower registered entry r.grpc_resolver
    some (record r {
      grpc_resolver = resolver;
      all_nodes = Map.delete r.all_nodes entry.id;
      sent = delete_node entry ∷ r.sent;
    })

  unfoldable pub put_node : NodeEntry → Registry → Option Registry
  put_node entry r = do
    resolver ← update to_lower registered entry r.grpc_resolver
    some (record r {
      grpc_resolver = resolver;
      all_nodes = Map.store r.all_nodes entry.id entry;
      sent = update_node entry ∷ r.sent;
    })

  -- The part of apply behind the check of the revision; a value that is no entry is logged.
  unfoldable pub change : Event → Registry → Option Registry
  change (put kv) r = elim (unmarshal kv.value) [ some entry ↦ put_node entry r | none ↦ some r ]
  change (deletion kv none) r = none
  change (deletion kv (some prev)) r = elim (unmarshal prev.value) [
    | some entry ↦ remove_node entry r
    | none ↦ some r
  ]

  unfoldable pub apply_new : Event → Registry → Option Registry
  apply_new ev r =
      if is_stale (kv_of ev) r
      then some r
      else change ev
          (record r { versions = Map.store r.versions (kv_of ev).key (kv_of ev).mod_revision })

  unfoldable pub apply : Event → Registry → Option Registry
  apply ev r = apply_new ev (see_revision (kv_of ev).mod_revision r)

  -- The snapshot's entries.
  unfoldable pub apply_all : List KeyValue → Registry → Option Registry
  apply_all [] r = some r
  apply_all (kv ∷ kvs) r = do r' ← apply (put kv) r; apply_all kvs r'

  unfoldable pub remove_stale : Snapshot → Map ℕ NodeEntry → Registry → Option Registry
  remove_stale s [] r = some r
  remove_stale s ((id, entry) ∷ nodes) r =
      if has_key (key_of entry.id) s.kvs then remove_stale s nodes r else (do
        r' ←
            remove_node entry
              (record r { versions = Map.store r.versions (key_of entry.id) s.revision })
        remove_stale s nodes r')

  unfoldable pub sync : Snapshot → Registry → Option Registry
  sync s r = do r1 ← apply_all s.kvs (forget_versions s.revision r); remove_stale s r1.all_nodes r1

  unfoldable pub resync : Option Snapshot → Registry → Option (Registry × Option RegistryError)
  resync none r = some (r, some get_failed)
  resync (some s) r = do r' ← sync s r; some (r', none)
