-- ===== src/Gateway/Service/Tests.antt =====
-- A route of one session, and a listing that breaks off.
use nodehub.Base.{
  ℕ, ◌≡◌, refl, String, Option, none, some, [], ◌∷◌, true, false, ◌==◌, string_eq, if◌then◌else◌,
  ok, err,
}
use nodehub.Base.Int.{pos}
use nodehub.Base.Map
use nodehub.Cluster.Entry.{GrpcServiceDesc, server_allocate}
use nodehub.Cluster.Tests.{alice, chat, sum64, addr_bytes}
use nodehub.Gateway.StateTable.{StateTable}
use nodehub.Gateway.SessionHub.{HubSession, look_up}
use nodehub.Gateway.Proxy.{no_node_allocated, choose}
use nodehub.Gateway.Proxy.Tests.{before, asks, can_dial}
use nodehub.Gateway.Service.{
  GwService, SessionInfo, SetServiceRouteRequest, set_service_route, remove_service_route,
}
use nodehub.Gateway.Service.Routes.{set_service_route-choose}

abbrev service : GwService
service = record {
  session_count = pos 2;
  session_hub = record {
    sessions =
        ("alice", record { object = 1; id = "alice" })
        ∷ ("bob", record { object = 2; id = "bob" })
        ∷ [];
    closed = false;
    hung_up = [];
  };
  state_table = record { routes = [] };
}

abbrev parse_id : String → Option ℕ
parse_id s = if s == "n5" then some 5 else none

abbrev sets : SetServiceRouteRequest
sets = record { session_id = "alice"; service_code = pos 1; node_id = "n5" }

abbrev table : GrpcServiceDesc
table = record chat { stateful = true; allocation = server_allocate }

look_up-alice : look_up service.session_hub "alice" ≡ some (record { object = 1; id = "alice" })
unfolding look_up Map.load
look_up-alice = refl

set_service_route-choose_example :
    let (set, answer) = set_service_route {E = ℕ} parse_id service sets in
    let removed =
      remove_service_route set (record { session_id = "alice"; service_code = pos 1 }) in
    let ask = λ (t : StateTable).
      choose sum64 addr_bytes parse_id can_dial
        (record before { state_table = t })
        alice
        asks
        table
        0 in
    (answer ≡ ok tt)
    × (ask set.state_table ≡ ok (record { node_id = 5; recorded = false }))
    × (ask removed.state_table ≡ err no_node_allocated)
set_service_route-choose_example =
    set_service_route-choose sum64 addr_bytes parse_id can_dial service
      (record { object = 1; id = "alice" }) sets 5 before alice asks table 0 look_up-alice refl refl
      refl refl refl refl

abbrev describe : HubSession → SessionInfo
describe sess = record {
  session_id = sess.id;
  remote_addr = "10.0.0.9";
  transport = "tcp";
  metadata = [];
}

abbrev refuses_bob : SessionInfo → Option ℕ
refuses_bob info = if info.session_id == "bob" then some 1 else none
