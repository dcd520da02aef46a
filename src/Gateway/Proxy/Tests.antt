-- ===== src/Gateway/Proxy/Tests.antt =====
-- Runs of getUpstream.
use nodehub.Base.{
  if◌then◌else◌, ◌==◌, string_eq, ℕ, ◌≡◌, refl, String, Option, none, some, [], ◌∷◌, Bool, true,
  false, ok,
}
use nodehub.Base.Int.{pos}
use nodehub.Base.Map
use nodehub.Cluster.Entry.{GrpcServiceDesc, auto_allocate}
use nodehub.Cluster.Balancer.{no_balancer}
use nodehub.Cluster.Balancer.Pick.{pick}
use nodehub.Cluster.Resolver.Query.{alloc_node, get_conn, get_endpoint_conn}
use nodehub.Cluster.Tests.{chat, first, alice, sum64, addr_bytes}
use nodehub.Gateway.StateTable.{find, store}
use nodehub.Gateway.Proxy.{
  Proxy, Request, allocated, alloc, routed, choose, finished, finish, get_upstream,
}
use nodehub.Gateway.Proxy.Sticky.{get_upstream_again}

abbrev room : GrpcServiceDesc
room = record chat { stateful = true; allocation = auto_allocate }

abbrev pub before : Proxy
before = record {
  grpc_resolver = record {
    services = (pos 1, room) ∷ [];
    all_nodes = (first.id, first) ∷ [];
    ok_nodes = (pos 1, first ∷ []) ∷ [];
    service_balancer = (pos 1, no_balancer first) ∷ [];
    conns = [];
    next_conn = 0;
    closed = [];
  };
  state_table = record { routes = [] };
}

abbrev after : Proxy
after = record {
  grpc_resolver = record before.grpc_resolver { conns = ("10.0.0.5:9000", 0) ∷ []; next_conn = 1 };
  state_table = record { routes = ("alice", (pos 1, first.id) ∷ []) ∷ [] };
}

abbrev pub asks : Request
asks = record {
  id = 7;
  service_code = pos 1;
  method = "Say";
  payload = [];
  node_id = "";
  no_reply = false;
  stream = "";
}

abbrev asks_again : Request
asks_again = record asks { id = 8; node_id = "ignored" }

abbrev pub parse_id : String → Option ℕ
parse_id s = if s == "g1" then some 4 else none

abbrev pub can_dial : String → Bool
can_dial s = true

finds_first :
    get_upstream sum64 addr_bytes parse_id can_dial before alice asks room 3 ≡ (after, ok 0)
unfolding get_upstream choose routed alloc allocated finish finished find store alloc_node get_conn
    get_endpoint_conn pick Map.load Map.store
finds_first = refl

get_upstream_again_example :
    get_upstream sum64 addr_bytes parse_id can_dial after alice asks_again room 4 ≡ (after, ok 0)
get_upstream_again_example =
    get_upstream_again sum64 addr_bytes parse_id can_dial before after alice asks asks_again room 3
      4 0 refl refl refl finds_first
