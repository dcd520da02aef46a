-- ===== src/Node/Tests.antt =====
-- A node with two components, that is served to the end; and a change of its state.
use nodehub.Base.{◌≡◌, refl, none, List, [], ◌∷◌, ◌++◌, ◌^◌, true, false, nat_eq, string_eq}
use nodehub.Base.Map
use nodehub.Cluster.Entry.{
  node_ok, node_down, node_lazy, validate, validate_grpc, validate_entrance,
}
use nodehub.Cluster.Publish.{stored, lost, Publisher, new_publisher, init_lease, write, leased, put}
use nodehub.Cluster.Publish.Tests.{hostname, is_unspecified, encodes, key, etcd}
use nodehub.Node.{
  Component, Call, register_node_service, starts, stops, after_stops, Node, new_node, apply_options,
  add_component, complete, get_entry, inject_service, start_component, start_each, start_all,
  stop_component, stop_each, Interleaves, ends, next, change_state, served, retire,
}
use nodehub.Node.States.{Registered, Changed, change_state-Changed}
use nodehub.Node.Order.{Ordered, Serves-Ordered}

abbrev proxy : Component
proxy = record {
  name = "proxy";
  register_service = false;
  before_start = none;
  start = none;
  after_start = false;
  before_stop = false;
  after_stop = false;
  complete_node_entry = none;
}

abbrev grpc : Component
grpc = record proxy { name = "grpc"; register_service = true; after_stop = true }

abbrev node : Node
node = record {
  entry = record {
    id = 2 ^ 90;
    name = "chat";
    state = node_ok;
    entrance = "";
    metrics = "";
    grpc = record { endpoint = ""; services = [] };
    git_version = "";
  };
  registry = record { lease_id = 0; published = []; client_closed = false };
  components = proxy ∷ grpc ∷ [];
  done = false;
}

new_node-chat : add_component (new_node (2 ^ 90) "chat" new_publisher []) (proxy ∷ grpc ∷ []) ≡ node
unfolding add_component new_node apply_options new_publisher
new_node-chat = refl

abbrev put_node : Publisher
put_node = record {
  lease_id = 77;
  published = (key (2 ^ 90), (node.entry, 77)) ∷ [];
  client_closed = false;
}

abbrev starting : List Call
starting = register_node_service "grpc" ∷ starts "proxy" ∷ starts "grpc" ∷ []

start_all-node : start_all node.components ≡ (starting, none)
unfolding start_all start_each start_component inject_service
start_all-node = refl

put-node :
    put hostname is_unspecified encodes key (get_entry node) (etcd stored) node.registry
    ≡ (put_node, none)
unfolding put leased init_lease write validate validate_grpc validate_entrance get_entry complete
    Map.store
put-node = refl

-- The proxy is stopped between the two calls of the other.
abbrev stopping : List Call
stopping = stops "grpc" ∷ stops "proxy" ∷ after_stops "grpc" ∷ []

stop-node : Interleaves (stop_each node.components) stopping
unfolding stop_each stop_component
stop-node =
    next ((stops "proxy" ∷ []) ∷ []) [] (stops "grpc") (after_stops "grpc" ∷ [])
      (stops "proxy" ∷ after_stops "grpc" ∷ [])
      (next [] ((after_stops "grpc" ∷ []) ∷ []) (stops "proxy") [] (after_stops "grpc" ∷ [])
        (next ([] ∷ []) [] (after_stops "grpc") [] [] (ends ([] ∷ [] ∷ []))))

abbrev downed : Node
downed =
    retire hostname is_unspecified encodes key true
      (change_state hostname is_unspecified encodes key node_down (etcd lost)
        (record node { registry = put_node; done = true })).0

Serves-Ordered_example : Ordered node (starting ++ stopping) downed none
Serves-Ordered_example =
    Serves-Ordered hostname is_unspecified encodes key node (starting ++ stopping) downed none (
      served starting (etcd stored) (etcd lost) put_node stopping true true start_all-node put-node
        stop-node)

abbrev running : Node
running = record node { registry = put_node }

running-Registered : Registered hostname is_unspecified encodes key running
unfolding Map.load
running-Registered = record { entry = node.entry; lease = 77; found = refl; same = refl }

change_state-Changed_example :
    Changed hostname is_unspecified encodes key node_lazy running
      (change_state hostname is_unspecified encodes key node_lazy (etcd stored) running)
change_state-Changed_example =
    change_state-Changed hostname is_unspecified encodes key node_lazy (etcd stored) running
      (λ f e entry. cc, (λ f e entry. cc, tt)) (λ e. cc) running-Registered
