-- ===== src/Cluster/Watch.antt =====
-- cluster/registry.go: the goroutine of runWatcher that consumes the watch of etcd and makes a new
-- one when it fails, the periodic synchronisation, and what the registry tells of its nodes.
pub mod Total
pub mod Alive
pub mod Tests
use nodehub.Base.{
  ◌≡◌, ℕ, ◌+◌, ◌*◌, String, Option, none, some, List, [], ◌∷◌, Bool, true, false, ◌==◌, nat_eq,
  string_eq, if◌then◌else◌, ltb, leb, Outcome, ok, err, panic,
}
use nodehub.Base.Int.{ℤ, is_positive}
use nodehub.Base.Maybe.{◌>>=◌}
use nodehub.Base.Map
use nodehub.Base.Map.{Map}
use nodehub.Cluster.Entry.{NodeEntry}
use nodehub.Cluster.Balancer.{BalancerFactory}
use nodehub.Cluster.Resolver.Query.{ConnError, node_not_found_or_down, get_endpoint_conn}
use nodehub.Cluster.Registry.{
  NodeEvent, update_node, delete_node, Registry, Event, Snapshot, apply, resync,
}

-- Fields of Registry; the interval is in seconds.
pub record Retry : Type 0 where
  pub retry_max : ℕ
  pub interval : ℕ

unfoldable pub default_retry : Retry
default_retry = record { retry_max = 10; interval = 30 }

-- `WithWatchRetry`, of a number and an interval that are not negative.
unfoldable pub with_watch_retry : ℕ → ℕ → Retry → Retry
with_watch_retry max_retries interval r = record {
  retry_max = if ltb 0 max_retries then max_retries else r.retry_max;
  interval = if ltb 0 interval then interval else r.interval;
}

-- `running` until the client is done, or the process is aborted.
pub data WatchState : Type 0 where
  running client_done aborted : WatchState

pub record Watcher : Type 0 where
  pub registry : Registry
  pub retries : ℕ
  pub state : WatchState

-- A response of the watch: whether it is the one of its creation, with what Get answers then, and
-- the events. A failure is a closed channel or an error. The periodic synchronisation comes with
-- what Get answers.
pub data WatchEvent : Type 0 where
  responds : Option (Option Snapshot) → List Event → WatchEvent
  fails cancels : WatchEvent
  syncs : Option Snapshot → WatchEvent

module _ (to_lower : String → String) (registered : Map String BalancerFactory)
    (unmarshal : String → Option NodeEntry) (key_of : ℕ → String) (retry : Retry) where
  unfoldable pub apply_events : List Event → Registry → Option Registry
  apply_events [] r = some r
  apply_events (ev ∷ events) r = do
    r' ← apply to_lower registered unmarshal key_of ev r
    apply_events events r'

  -- The error of a failed synchronisation is only logged.
  unfoldable pub try_resync : Option Snapshot → Registry → Option Registry
  try_resync answer r = do
    synced ← resync to_lower registered unmarshal key_of answer r
    some (synced.0)

  unfoldable pub created : Option (Option Snapshot) → Registry → Option Registry
  created none r = some r
  created (some answer) r = try_resync answer r

  unfoldable pub respond : Option (Option Snapshot) → List Event → Registry → Option Registry
  respond creation events r = do r' ← created creation r; apply_events events r'

  -- A panic of the goroutine ends the process.
  unfoldable pub changed : Watcher → ℕ → Option Registry → Watcher
  changed w retries none = record w { state = aborted }
  changed w retries (some r) = record w { registry = r; retries = retries }

  unfoldable pub fail : Watcher → Watcher
  fail w =
      if leb retry.retry_max w.retries
      then record w { state = aborted }
      else record w { retries = w.retries + 1 }

  unfoldable pub step : Watcher → WatchEvent → Watcher
  step w (responds creation events) = changed w 0 (respond creation events w.registry)
  step w fails = fail w
  step w cancels = record w { state = client_done }
  step w (syncs answer) = changed w w.retries (try_resync answer w.registry)

  -- Nothing happens after the end.
  unfoldable pub run : Watcher → List WatchEvent → Watcher
  run w [] = w
  run w (ev ∷ evs) =
      let rest = run (step w ev) evs in
      elim w.state [ running ↦ rest | client_done ↦ w | aborted ↦ w ]

-- GetGatewayClient and GetNodeClient: a connection to any node that is known.
module _ (can_dial : String → Bool) where
  unfoldable pub get_client_conn : ℕ → Registry → Registry × Outcome ConnError ℕ
  get_client_conn node_id r = elim (Map.load r.all_nodes node_id) [
    | none ↦ (r, err node_not_found_or_down)
    | some entry ↦
        let found = get_endpoint_conn can_dial entry.grpc.endpoint r.grpc_resolver in
        (record r { grpc_resolver = found.0 }, found.1)
  ]

-- The nodes that ForeachNodes hands to a function, of which it tells whether to go on.
unfoldable pub foreach_nodes : (NodeEntry → Bool) → Map ℕ NodeEntry → List NodeEntry
foreach_nodes f [] = []
foreach_nodes f ((id, entry) ∷ nodes) =
    let rest = foreach_nodes f nodes in if f entry then entry ∷ rest else entry ∷ []

-- The entries that the handlers of SubscribeUpdate and SubscribeDelete are called with.
unfoldable pub updates : List NodeEvent → List NodeEntry
updates [] = []
updates (update_node entry ∷ events) = entry ∷ updates events
updates (delete_node entry ∷ events) = updates events

unfoldable pub deletions : List NodeEvent → List NodeEntry
deletions [] = []
deletions (update_node entry ∷ events) = deletions events
deletions (delete_node entry ∷ events) = entry ∷ deletions events
