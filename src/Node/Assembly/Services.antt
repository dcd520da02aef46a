-- ===== src/Node/Assembly/Services.antt =====
-- The parts of a gateway node: its own entry, and the services that it registers.
use nodehub.Base.{
  ℕ, ◌≡◌, ◌≢◌, refl, ap, ◌∙◌, String, Option, none, some, List, [], ◌∷◌, Bool, true, false, ◌==◌,
  string_eq, if◌then◌else◌, All, Option-cases, inl, inr,
}
use Prim.Native.String.{◌++◌ as str_append}
use nodehub.Base.Int.{int_eq}
use nodehub.Base.Map
use nodehub.Cluster.Entry.{GrpcServiceDesc, validate_desc}
use nodehub.Cluster.Entry.Valid.{IsDesc, validate_desc_iff}
use nodehub.Cluster.Publish.{Publisher}
use nodehub.Gateway.Options.{Transporter}
use nodehub.Node.{Node, NodeOption, new_node, with_git_version, with_state, apply_options}
use nodehub.Node.Assembly.{
  GatewayConfig, node_service_code, gateway_service_code, gateway_service_name, node_service_name,
  gateway_grpc, served_grpc,
}
use nodehub.Rpc
use nodehub.Rpc.{
  Listener, GrpcServer, new_grpc_server, bind_grpc_server, set_endpoint, register_service, describe,
  values,
}

-- The options of a node.
pub data Setting : Type 0 where
  git_version state : String → Setting

abbrev pub to_option : Setting → NodeOption
to_option (git_version v) = with_git_version v
to_option (state s) = with_state s

abbrev pub to_options : List Setting → List NodeOption
to_options [] = []
to_options (s ∷ settings) = to_option s ∷ to_options settings

abbrev pub Named : Setting → Type 0
Named (git_version v) = Unit
Named (state s) = s ≢ ""

-- A node before its components are added.
pub record Fresh (id : ℕ) (n : Node) : Type 0 where
  pub same_id : n.entry.id ≡ id
  pub same_name : n.entry.name ≡ "gateway"
  pub has_state : n.entry.state ≢ ""
  pub empty : n.components ≡ []

apply_options-Fresh :
    (id : ℕ) (settings : List Setting) (n : Node)
    → All Named settings
    → Fresh id n
    → Fresh id (apply_options (to_options settings) n)
unfolding apply_options with_git_version with_state
apply_options-Fresh id [] n a h = h
apply_options-Fresh id (git_version v ∷ settings) n a h =
    apply_options-Fresh id settings _ a.1 (record {
      same_id = h.same_id;
      same_name = h.same_name;
      has_state = h.has_state;
      empty = h.empty;
    })
apply_options-Fresh id (state s ∷ settings) n a h =
    apply_options-Fresh id settings _ a.1
      (record { same_id = h.same_id; same_name = h.same_name; has_state = a.0; empty = h.empty })

pub new_node-Fresh :
    (id : ℕ) (r : Publisher) (settings : List Setting)
    → All Named settings
    → Fresh id (new_node id "gateway" r (to_options settings))
unfolding new_node
new_node-Fresh id r settings a =
    apply_options-Fresh id settings _ a
      (record { same_id = refl; same_name = refl; has_state = λ e. cc; empty = refl })

abbrev pub slash : String → String
slash name = str_append "/" name

-- The services of a gateway node that is being served.
abbrev pub gateway_services : List GrpcServiceDesc
gateway_services =
    describe slash gateway_service_code gateway_service_name []
    ∷ describe slash node_service_code node_service_name []
    ∷ []

pub gateway_services-IsDesc : All IsDesc gateway_services
unfolding describe Rpc.apply_options validate_desc
gateway_services-IsDesc = ((validate_desc_iff _).0 refl, ((validate_desc_iff _).0 refl, tt))

-- A transporter that publishes an entrance.
abbrev pub announcing : String → Option String → Transporter
announcing e failure = record {
  complete_node_entry = λ entry. record entry { entrance = e };
  serve = failure;
}

register_two :
    (gs : GrpcServer)
    → gs.services ≡ []
    → values
        (register_service slash node_service_code node_service_name []
          (register_service slash gateway_service_code gateway_service_name [] gs).0).0.services
      ≡ gateway_services
unfolding register_service describe Rpc.apply_options validate_desc values Map.load Map.store
register_two gs h = rw h refl

module _ (cut_prefix : String → String → Option String)
    (net_listen : String → String → Option Listener) (unix_path : String → String)
    (is_unspecified_port : String → Bool) where
  abbrev pub start : GrpcServer → GrpcServer
  start gs = (Rpc.start cut_prefix net_listen unix_path is_unspecified_port gs).0

  started_services :
      (b : Bool) (failed served gs : GrpcServer) (error : Rpc.StartError)
      → failed.services ≡ gs.services
      → served.services ≡ gs.services
      → let p : GrpcServer × Option Rpc.StartError =
          if b then (failed, some error) else (served, none) in
        p.0.services ≡ gs.services
  started_services true failed served gs error h k = h
  started_services false failed served gs error h k = k

  start-services : (gs : GrpcServer) → (start gs).services ≡ gs.services
  unfolding Rpc.start
  start-services gs =
      elim (Option-cases (Rpc.listening cut_prefix net_listen unix_path is_unspecified_port gs)) [
        | inl e ↦ rw (e, start, Rpc.start) refl
        | inr (l, e) ↦ rw (e, start, Rpc.start) (started_services _ _ _ gs _ refl refl)
      ]

  -- The server of a gateway node, after Serve has started it.
  abbrev pub served : GatewayConfig → GrpcServer
  served config = served_grpc slash start (gateway_grpc slash config)

  bare-services :
      (l : Option Listener) (listen : String)
      → let gs : GrpcServer = elim l [
        | none ↦ new_grpc_server listen
        | some m ↦ bind_grpc_server m
      ] in
        gs.services ≡ []
  unfolding new_grpc_server bind_grpc_server
  bare-services none listen = refl
  bare-services (some m) listen = refl

  endpoint-services :
      (b : Bool) (gs : GrpcServer) (endpoint : String)
      → gs.services ≡ []
      → (if b then gs else set_endpoint endpoint gs).services ≡ []
  unfolding set_endpoint
  endpoint-services true gs endpoint h = h
  endpoint-services false gs endpoint h = h

  pub served-services :
      (config : GatewayConfig) → values (served config).services ≡ gateway_services
  unfolding served_grpc gateway_grpc
  served-services config =
      ap values (start-services _)
      ∙ register_two _ (
          endpoint-services (config.grpc_endpoint == "") _ config.grpc_endpoint
            (bare-services config.grpc_listener config.grpc_listen))
