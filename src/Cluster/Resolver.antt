-- ===== src/Cluster/Resolver.antt =====
-- cluster/resolver.go: which nodes of the cluster serve a service, and the connections to them.
-- The methods run one at a time: Update and Remove hold the resolver's lock.
pub mod Refresh
pub mod Invariant
pub mod Good
pub mod Kept
pub mod Query
pub mod Alloc
use nodehub.Base.{
  ℕ, zero, suc, ◌+◌, String, Option, none, some, List, [], ◌∷◌, map, Bool, true, false, ◌&&◌, ◌||◌,
  ◌==◌, nat_eq, string_eq, if◌then◌else◌, length,
}
use nodehub.Base.Int.{ℤ, pos, int_eq, is_positive}
use nodehub.Base.Maybe.{◌>>=◌}
use nodehub.Base.Map
use nodehub.Base.Map.{Map}
use nodehub.Cluster.Entry.{NodeEntry, GrpcServiceDesc, node_ok, node_down}
use nodehub.Cluster.Balancer.{
  Session, PickError, no_node_available, Balancer, BalancerFactory, new_balancer,
}
use nodehub.Cluster.Balancer.Pick.{intn, node_at, pick}

-- A connection is a number; `closed` lists those on which `Close` was called, the last first.
pub record Resolver : Type 0 where
  pub services : Map ℤ GrpcServiceDesc
  pub all_nodes : Map ℕ NodeEntry
  pub ok_nodes : Map ℤ (List NodeEntry)
  pub service_balancer : Map ℤ Balancer
  pub conns : Map String ℕ
  pub next_conn : ℕ
  pub closed : List ℕ

unfoldable pub new_grpc_resolver : Resolver
new_grpc_resolver = record {
  services = [];
  all_nodes = [];
  ok_nodes = [];
  service_balancer = [];
  conns = [];
  next_conn = 0;
  closed = [];
}

-- `lo.SomeBy(services, desc.Code == serviceCode)`
unfoldable pub offers : ℤ → List GrpcServiceDesc → Bool
offers service_code [] = false
offers service_code (desc ∷ services) = desc.code == service_code || offers service_code services

unfoldable pub is_available : ℤ → NodeEntry → Bool
is_available service_code node = node.state == node_ok && offers service_code node.grpc.services

-- The nodes that updateServiceNodes collects.
unfoldable pub available : ℤ → Map ℕ NodeEntry → List NodeEntry
available service_code [] = []
available service_code ((id, node) ∷ nodes) =
    let rest = available service_code nodes in
    if is_available service_code node then node ∷ rest else rest

unfoldable pub update_service_nodes : ℤ → Resolver → Resolver
update_service_nodes service_code r = elim (available service_code r.all_nodes) [
  | [] ↦ record r { ok_nodes = Map.delete r.ok_nodes service_code }
  | node ∷ nodes ↦ record r { ok_nodes = Map.store r.ok_nodes service_code (node ∷ nodes) }
]

-- `nodes, _ := r.okNodes.Load(serviceCode)`
unfoldable pub ok_list : Map ℤ (List NodeEntry) → ℤ → List NodeEntry
ok_list ok_nodes service_code = elim (Map.load ok_nodes service_code) [
  | some nodes ↦ nodes
  | none ↦ []
]

-- The connection to an endpoint is closed and forgotten.
unfoldable pub drop_conn : String → Resolver → Resolver
drop_conn endpoint r = elim (Map.load r.conns endpoint) [
  | some conn ↦ record r { conns = Map.delete r.conns endpoint; closed = conn ∷ r.closed }
  | none ↦ r
]

-- Parameters: `strings.ToLower`, and the table of policies.
module _ (to_lower : String → String) (registered : Map String BalancerFactory) where
  -- The slice in `ok_nodes` is the one that NewBalancer sorts. `none` is a panic.
  unfoldable pub replace_balancer : ℤ → List NodeEntry → Resolver → Option Resolver
  replace_balancer service_code [] r =
      some (record r { service_balancer = Map.delete r.service_balancer service_code })
  replace_balancer service_code (node ∷ nodes) r =
      elim (new_balancer to_lower registered service_code (node ∷ nodes)) [
        | none ↦ none
        | some (balancer, sorted) ↦ some (record r {
          ok_nodes = Map.store r.ok_nodes service_code sorted;
          service_balancer = Map.store r.service_balancer service_code balancer;
        })
      ]

  unfoldable pub update_balancer : ℤ → Resolver → Option Resolver
  update_balancer service_code r = elim (Map.load r.services service_code) [
    | none ↦ some r
    | some desc ↦
        if desc.public
        then replace_balancer service_code (ok_list r.ok_nodes service_code) r
        else some r
  ]

  unfoldable pub refresh : ℤ → Resolver → Option Resolver
  refresh service_code r = update_balancer service_code (update_service_nodes service_code r)

  -- The loop of Update; a code that is not positive belongs to the framework.
  unfoldable pub update_services : List GrpcServiceDesc → Resolver → Option Resolver
  update_services [] r = some r
  update_services (desc ∷ services) r =
      if is_positive desc.code
      then (do
        r' ← refresh desc.code (record r { services = Map.store r.services desc.code desc })
        update_services services r')
      else update_services services r

  -- The loop of Remove.
  unfoldable pub remove_services : List GrpcServiceDesc → Resolver → Option Resolver
  remove_services [] r = some r
  remove_services (desc ∷ services) r =
      if is_positive desc.code
      then (do r' ← refresh desc.code r; remove_services services r')
      else remove_services services r

  unfoldable pub update_entry : NodeEntry → Resolver → Option Resolver
  update_entry node r = do
    r' ←
        update_services node.grpc.services
          (record r { all_nodes = Map.store r.all_nodes node.id node })
    some (if node.state == node_down then drop_conn node.grpc.endpoint r' else r')

  unfoldable pub update : NodeEntry → Resolver → Option Resolver
  update node r = elim node.grpc.services [ [] ↦ some r | _ ∷ _ ↦ update_entry node r ]

  unfoldable pub remove_entry : NodeEntry → Resolver → Option Resolver
  remove_entry node r = do
    r' ←
        remove_services node.grpc.services (record r { all_nodes = Map.delete r.all_nodes node.id })
    some (drop_conn node.grpc.endpoint r')

  unfoldable pub remove : NodeEntry → Resolver → Option Resolver
  remove node r = elim node.grpc.services [ [] ↦ some r | _ ∷ _ ↦ remove_entry node r ]
