-- ===== src/Node/Assembly.antt =====
-- NewGatewayNode of node.go: the components of a gateway node. The metrics server is the one of
-- component/gateway/metrics/server.go.
pub mod Services
pub mod Published
pub mod Tests
use nodehub.Base.{
  ℕ, String, Option, none, some, List, [], ◌∷◌, ◌++◌, Bool, true, false, not, ◌==◌, string_eq,
  if◌then◌else◌, Outcome, ok, err, panic,
}
use Prim.Native.String.{◌++◌ as str_append}
use nodehub.Base.Int.{ℤ, negsuc}
use nodehub.Cluster.Entry.{NodeEntry}
use nodehub.Cluster.Publish.{Publisher}
use nodehub.Gateway.Options
use nodehub.Gateway.Options.{
  Transporter, Options, OptionError, ProxyOption, with_registry, new_proxy,
}
use nodehub.Node.{Node, NodeOption, Component, new_node, add_component}
use nodehub.Rpc
use nodehub.Rpc.{
  Listener, GrpcServer, new_grpc_server, bind_grpc_server, set_endpoint, register_service,
}

-- `GRPCListener`: the address and network of a listener that was bound before.
pub record GatewayConfig : Type 0 where
  pub node_options : List NodeOption
  pub options : List ProxyOption
  pub grpc_listen : String
  pub grpc_endpoint : String
  pub grpc_listener : Option Listener
  pub metrics_listen : String

abbrev pub node_service_code : ℤ
node_service_code = negsuc 0

abbrev pub gateway_service_code : ℤ
gateway_service_code = negsuc 1

abbrev pub gateway_service_name : String
gateway_service_name = "nodehub.Gateway"

abbrev pub node_service_name : String
node_service_name = "nodehub.Node"

-- The methods of a Proxy that a node calls: Start fails where Serve of the transporter does.
unfoldable pub proxy_component : Transporter → Component
proxy_component t = record {
  name = "proxy";
  register_service = false;
  before_start = none;
  start = t.serve;
  after_start = false;
  before_stop = false;
  after_stop = false;
  complete_node_entry = some t.complete_node_entry;
}

-- Those of a GRPCServer; `failure` is the error of its Start.
unfoldable pub grpc_component : Option String → GrpcServer → Component
grpc_component failure gs = record {
  name = "grpc";
  register_service = true;
  before_start = none;
  start = failure;
  after_start = false;
  before_stop = false;
  after_stop = false;
  complete_node_entry = some (Rpc.complete_node_entry gs);
}

unfoldable pub metrics_entry : String → NodeEntry → NodeEntry
metrics_entry addr entry = record entry {
  metrics = str_append "http://" (str_append addr "/metrics");
}

unfoldable pub metrics_component : String → Component
metrics_component addr = record {
  name = "metrics";
  register_service = false;
  before_start = none;
  start = none;
  after_start = false;
  before_stop = false;
  after_stop = false;
  complete_node_entry = some (metrics_entry addr);
}

-- The server is behind a pointer: its component is what the server is by then.
unfoldable pub gateway_components :
    Transporter → Option String → GrpcServer → String → List Component
gateway_components t failure gs metrics_listen =
    proxy_component t
    ∷ grpc_component failure gs
    ∷ (if metrics_listen == "" then [] else metrics_component metrics_listen ∷ [])

module _ (slashed : String → String) where
  -- The gRPC server of NewGatewayNode; the error of RegisterService is dropped.
  unfoldable pub gateway_grpc : GatewayConfig → GrpcServer
  gateway_grpc config =
      let gs : GrpcServer = elim config.grpc_listener [
        | none ↦ new_grpc_server config.grpc_listen
        | some l ↦ bind_grpc_server l
      ] in
      (register_service slashed gateway_service_code gateway_service_name []
        (if config.grpc_endpoint == "" then gs else set_endpoint config.grpc_endpoint gs)).0

  -- What Serve does to the server: the node's own service is registered, dropping the error, and
  -- the server is started.
  unfoldable pub served_grpc : (GrpcServer → GrpcServer) → GrpcServer → GrpcServer
  served_grpc start gs =
      start (register_service slashed node_service_code node_service_name [] gs).0

  -- `current` is what has happened to the server since, and `failure` the error of its Start.
  -- `none`: the options of the proxy are refused, which is a panic, as is a proxy without a
  -- transporter.
  unfoldable pub new_gateway_node :
      ℕ → Publisher → GatewayConfig → (GrpcServer → GrpcServer) → Option String → Option Node
  new_gateway_node id registry config current failure =
      elim (new_proxy (config.options ++ with_registry (some registry) ∷ [])) [
        | panic ↦ none
        | err e ↦ none
        | ok opt ↦ elim opt.transporter [
          | none ↦ none
          | some t ↦ some (
              add_component (new_node id "gateway" registry config.node_options) (
                gateway_components t failure (current (gateway_grpc config)) config.metrics_listen))
        ]
      ]
