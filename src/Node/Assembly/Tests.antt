-- ===== src/Node/Assembly/Tests.antt =====
-- A gateway node over TCP, with a metrics server.
use nodehub.Base.{
  ◌≡◌, ◌≢◌, ◌↔◌, ◌^◌, refl, sym, ◌∙◌, inr, String, Option, none, some, List, [], ◌∷◌, Bool, false,
  ◌==◌, string_eq, nat_eq, arith, if◌then◌else◌,
}
use nodehub.Base.Map
use nodehub.Cluster.Publish.{new_publisher}
use nodehub.Cluster.Entry.{NodeEntry, validate}
use nodehub.Gateway.Options
use nodehub.Gateway.Options.{
  ProxyOption, with_transporter, with_initializer, with_event_bus, with_multicast, new_options,
  with_registry, new_proxy, event_bus_nil, checked,
}
use nodehub.Gateway.Options.Required.{Has, Misses}
use nodehub.Gateway.Transport.{tcp_entry, new_tcp_server}
use nodehub.Node
use nodehub.Node.{
  Node, new_node, add_component, get_entry, complete, with_git_version, with_state, start_all,
}
use nodehub.Node.Assembly.{
  GatewayConfig, proxy_component, grpc_component, metrics_component, gateway_components,
  gateway_grpc, served_grpc, new_gateway_node,
}
use nodehub.Node.Assembly.Services.{
  Setting, git_version, state, to_options, slash, announcing, served, start,
}
use nodehub.Node.Assembly.Published.{
  Publishes, new_gateway_node-Publishes, new_gateway_node_panics_iff,
}
use nodehub.Rpc
use nodehub.Rpc.{
  GrpcServer, new_grpc_server, bind_grpc_server, set_endpoint, register_service, describe, values,
}
use nodehub.Rpc.Tests.{cut_prefix, net_listen, unix_path}

abbrev entrance : String
entrance = "tcp://10.0.0.7:8000"

abbrev hostname : String → Option String
hostname text = if text == entrance then some "10.0.0.7" else none

abbrev never : String → Bool
never text = false

announcing-tcp :
    (entry : NodeEntry)
    → tcp_entry (new_tcp_server "10.0.0.7:8000") entry ≡ record entry { entrance = entrance }
unfolding tcp_entry new_tcp_server
announcing-tcp entry = refl

abbrev options : List ProxyOption
options =
    with_transporter (some (announcing entrance none))
    ∷ with_initializer (some 1)
    ∷ with_event_bus (some 2)
    ∷ with_multicast (some 3)
    ∷ []

abbrev settings : List Setting
settings = git_version "2f61a0c" ∷ state "lazy" ∷ []

abbrev config : GatewayConfig
config = record {
  node_options = to_options settings;
  options = options;
  grpc_listen = "10.0.0.7:9000";
  grpc_endpoint = "gateway:9000";
  grpc_listener = none;
  metrics_listen = "10.0.0.7:9100";
}

options-Has : Has (Options.apply_options options new_options)
unfolding Options.apply_options new_options with_transporter with_initializer with_event_bus
    with_multicast
options-Has = ((λ e. cc), (λ e. cc), (λ e. cc), λ e. cc)

transporter-options :
    (Options.apply_options options new_options).transporter ≡ some (announcing entrance none)
unfolding Options.apply_options new_options with_transporter with_initializer with_event_bus
    with_multicast
transporter-options = refl

abbrev endpoint : String
endpoint =
    (Rpc.complete_node_entry (served cut_prefix net_listen unix_path never config)
      (new_node (2 ^ 90) "gateway" new_publisher config.node_options).entry).grpc.endpoint

endpoint-config : endpoint ≡ "gateway:9000"
unfolding Rpc.complete_node_entry served_grpc gateway_grpc Rpc.start Rpc.listening Rpc.new_listener
    new_grpc_server set_endpoint register_service Rpc.addr_from_listener
    nodehub.Cluster.Entry.validate_desc describe Rpc.apply_options Map.load Map.store
endpoint-config = refl

not_blank : ◌≢◌ {A = String} "gateway:9000" ""
not_blank e = cc

new_gateway_node-Publishes_example :
    (n : Node) × (new_gateway_node slash
        (2 ^ 90)
        new_publisher
        config
        (served_grpc slash (start cut_prefix net_listen unix_path never))
        none
      ≡ some n)
    × Publishes hostname never entrance (get_entry n)
new_gateway_node-Publishes_example =
    new_gateway_node-Publishes hostname never cut_prefix net_listen unix_path never (2 ^ 90)
      new_publisher settings config entrance none none refl (tt, ((λ e. cc), tt)) (omega arith)
      options-Has transporter-options (λ e. not_blank (sym endpoint-config ∙ e))
      (inr ("10.0.0.7", refl, (λ e. cc), refl))

-- The event bus is missing.
new_gateway_node_panics_iff_example :
    (new_gateway_node slash 7 new_publisher
        (record config { options = with_initializer (some 1) ∷ [] })
        (λ gs. gs)
        none
      ≡ none)
    ↔ Misses (Options.apply_options (with_initializer (some 1) ∷ []) new_options)
new_gateway_node_panics_iff_example =
    new_gateway_node_panics_iff slash 7 new_publisher
      (record config { options = with_initializer (some 1) ∷ [] }) (λ gs. gs) none

-- The components start in this order, and the gRPC server is the one that takes the node's service.
start_all-gateway :
    start_all (gateway_components (announcing entrance none) none (new_grpc_server "") "addr") ≡ (
      Node.register_node_service "grpc"
          ∷ Node.starts "proxy"
          ∷ Node.starts "grpc"
          ∷ Node.starts "metrics"
          ∷ [],
      none,
    )
unfolding start_all Node.start_each Node.start_component Node.inject_service gateway_components
    proxy_component grpc_component metrics_component
start_all-gateway = refl
