-- ===== src/Rpc.antt =====
-- component/rpc/grpc_server.go: the services of a node, and the address under which it offers them.
pub mod Offered
pub mod Started
pub mod Interceptors
pub mod Tests
use nodehub.Base.{
  ◌≡◌, ℕ, String, Option, none, some, List, [], ◌∷◌, Bool, true, false, not, ◌&&◌, ◌==◌, string_eq,
  if◌then◌else◌, Outcome, ok, err, map,
}
use nodehub.Base.Int.{ℤ, pos, int_eq}
use nodehub.Base.Map
use nodehub.Base.Map.{Map}
use nodehub.Cluster.Entry.{
  GrpcServiceDesc, GrpcEntry, NodeEntry, EntryError, validate_desc, server_allocate,
}
use nodehub.Cluster.Balancer.{balancer_random}

-- What `Addr()` of a listener tells: its network and its text.
pub record Listener : Type 0 where
  pub network : String
  pub address : String

-- `served` lists the services that were given to grpc, the last first; `serving` is whether it
-- serves the listener.
pub record GrpcServer : Type 0 where
  pub listen : String
  pub endpoint : String
  pub listener : Option Listener
  pub services : Map ℤ GrpcServiceDesc
  pub served : List String
  pub serving : Bool

unfoldable pub new_grpc_server : String → GrpcServer
new_grpc_server listen_addr = record {
  listen = listen_addr;
  endpoint = "";
  listener = none;
  services = [];
  served = [];
  serving = false;
}

unfoldable pub bind_grpc_server : Listener → GrpcServer
bind_grpc_server l = record {
  listen = "";
  endpoint = "";
  listener = some l;
  services = [];
  served = [];
  serving = false;
}

unfoldable pub set_endpoint : String → GrpcServer → GrpcServer
set_endpoint endpoint gs = record gs { endpoint = endpoint }

abbrev pub ServiceOption : Type 0
ServiceOption = GrpcServiceDesc → GrpcServiceDesc

unfoldable pub with_public : ServiceOption
with_public desc = record desc { public = true }

unfoldable pub with_stateful : ServiceOption
with_stateful desc = record desc {
  stateful = true;
  allocation = if desc.allocation == "" then server_allocate else desc.allocation;
}

unfoldable pub with_allocation : String → ServiceOption
with_allocation allocation desc = record desc { allocation = allocation }

unfoldable pub with_balancer : String → ServiceOption
with_balancer balancer desc = record desc { balancer = balancer }

unfoldable pub with_weight : ℤ → ServiceOption
with_weight weight desc = record desc { weight = weight }

unfoldable pub apply_options : List ServiceOption → ServiceOption
apply_options [] desc = desc
apply_options (opt ∷ options) desc = apply_options options (opt desc)

pub data RegisterError : Type 0 where
  desc_invalid : EntryError → RegisterError
  already_registered : ℤ → RegisterError

-- `fmt.Sprintf("/%s", …)` is a parameter.
module _ (slashed : String → String) where
  unfoldable pub describe : ℤ → String → List ServiceOption → GrpcServiceDesc
  describe code service_name options = apply_options options (record {
    name = service_name;
    code = code;
    path = slashed service_name;
    public = false;
    balancer = balancer_random;
    weight = pos 0;
    stateful = false;
    allocation = "";
  })

  unfoldable pub register_service :
      ℤ → String → List ServiceOption → GrpcServer → GrpcServer × Option RegisterError
  register_service code service_name options gs =
      let sd = describe code service_name options in
      elim (validate_desc sd) [
        | some e ↦ (gs, some (desc_invalid e))
        | none ↦ elim (Map.load gs.services sd.code) [
          | some _ ↦ (gs, some (already_registered sd.code))
          | none ↦ (
            record gs {
              services = Map.store gs.services sd.code sd;
              served = service_name ∷ gs.served;
            },
            none,
          )
        ]
      ]

-- GracefulStop, and the listener is closed.
unfoldable pub stop : GrpcServer → GrpcServer
stop gs = record gs { serving = false }

unfoldable pub values : Map ℤ GrpcServiceDesc → List GrpcServiceDesc
values [] = []
values ((code, sd) ∷ services) = sd ∷ values services

unfoldable pub complete_node_entry : GrpcServer → NodeEntry → NodeEntry
complete_node_entry gs entry = record entry {
  grpc = record {
    endpoint = if not (gs.endpoint == "") then gs.endpoint else gs.listen;
    services = values gs.services;
  };
}

pub data StartError : Type 0 where
  listen_failed listen_unspecified : StartError

-- Parameters: what `strings.TrimPrefix` leaves, if the text has the prefix; `net.Listen`; the text
-- `unix:` before the absolute path of an address; and whether `netip.ParseAddrPort` reads a text
-- as an address that is unspecified when unmapped.
module _ (cut_prefix : String → String → Option String)
    (net_listen : String → String → Option Listener) (unix_path : String → String)
    (is_unspecified : String → Bool) where
  unfoldable pub new_listener : String → Option Listener
  new_listener addr = elim (cut_prefix addr "unix://") [
    | some path ↦ net_listen "unix" path
    | none ↦ elim (cut_prefix addr "unix:") [
      | some path ↦ net_listen "unix" path
      | none ↦ net_listen "tcp" addr
    ]
  ]

  -- A listener of the network `unix` is a UnixListener.
  unfoldable pub addr_from_listener : Listener → String
  addr_from_listener l = if l.network == "unix" then unix_path l.address else l.address

  unfoldable pub listening : GrpcServer → Option Listener
  listening gs = elim gs.listener [ some l ↦ some l | none ↦ new_listener gs.listen ]

  unfoldable pub start : GrpcServer → GrpcServer × Option StartError
  start gs = elim (listening gs) [
    | none ↦ (gs, some listen_failed)
    | some l ↦
        let started = record gs { listener = some l; listen = addr_from_listener l } in
        if gs.endpoint == "" && l.network == "tcp" && is_unspecified (addr_from_listener l)
        then (started, some listen_unspecified)
        else (record started { serving = true }, none)
  ]
