-- ===== src/Cluster/Balancer.antt =====
-- cluster/balancer.go: which node of a service a session is sent to.
pub mod Sort
pub mod Pick
pub mod Members
pub mod Hash
pub mod Weights
pub mod Policies
use nodehub.Base.{
  ℕ, zero, suc, ◌+◌, ◌-◌, ◌*◌, ◌%◌, ◌^◌, String, Option, none, some, List, [], ◌∷◌, ◌++◌, Bool,
  true, false, ◌&&◌, ◌||◌, not, ◌==◌, nat_eq, string_eq, if◌then◌else◌, length, get_elem?, drop,
  ltb, foldl,
}
use nodehub.Base.Int.{
  ℤ, pos, negsuc, int_eq, is_positive, to_int64, rem, int64_add, int64_sub, int64_mul, two64,
}
use nodehub.Base.Maybe.{◌>>=◌}
use nodehub.Base.Map
use nodehub.Base.Map.{Map}
use nodehub.Cluster.Entry.{NodeEntry, GrpcServiceDesc}
use Sort.{sort_slice, older, newer}

abbrev pub balancer_random : String
balancer_random = "random"

abbrev pub balancer_round_robin : String
balancer_round_robin = "roundRobin"

abbrev pub balancer_ip_hash : String
balancer_ip_hash = "ipHash"

abbrev pub balancer_id_hash : String
balancer_id_hash = "idHash"

abbrev pub balancer_oldest : String
balancer_oldest = "oldest"

abbrev pub balancer_newest : String
balancer_newest = "newest"

pub record Session : Type 0 where
  pub id : String
  pub remote_addr : String

pub data PickError : Type 0 where
  no_node_available : PickError
  not_implemented : String → PickError
  bad_addr : PickError

pub record WeightedNode : Type 0 where
  pub entry : NodeEntry
  pub weight : ℤ

-- The implementations of the interface `Balancer`.
pub data Balancer : Type 0 where
  no_balancer : NodeEntry → Balancer
  error_balancer : PickError → Balancer
  random : List NodeEntry → Balancer
  round_robin : List WeightedNode → ℤ → Balancer
  ip_hash id_hash : List NodeEntry → Balancer
  oldest newest : NodeEntry → Balancer

-- A factory gets the slice of nodes and may sort it in place: the balancer, and the slice after
-- the call. `none` is a panic.
abbrev pub BalancerFactory : Type 0
BalancerFactory = ℤ → List NodeEntry → Option (Balancer × List NodeEntry)

unfoldable pub new_random_balancer : BalancerFactory
new_random_balancer service_code nodes = some (random nodes, nodes)

-- The first description of the service; a weight that is not positive counts as 1.
unfoldable pub weight_of : ℤ → List GrpcServiceDesc → Option ℤ
weight_of service_code [] = none
weight_of service_code (desc ∷ services) =
    if desc.code == service_code
    then some (int64_mul (if is_positive desc.weight then desc.weight else pos 1) (pos 10))
    else weight_of service_code services

unfoldable pub weighted_nodes : ℤ → List NodeEntry → List WeightedNode
weighted_nodes service_code [] = []
weighted_nodes service_code (node ∷ nodes) =
    let rest = weighted_nodes service_code nodes in
    elim (weight_of service_code node.grpc.services) [
      | some weight ↦ record { entry = node; weight = weight } ∷ rest
      | none ↦ rest
    ]

unfoldable pub sum_weights : ℤ → List WeightedNode → ℤ
sum_weights sum [] = sum
sum_weights sum (n ∷ ns) = sum_weights (int64_add sum n.weight) ns

unfoldable pub new_round_robin_balancer : BalancerFactory
new_round_robin_balancer service_code nodes =
    let wnodes = weighted_nodes service_code nodes in
    some (round_robin wnodes (sum_weights (pos 0) wnodes), nodes)

unfoldable pub new_ip_hash_balancer : BalancerFactory
new_ip_hash_balancer service_code nodes = some (ip_hash nodes, nodes)

unfoldable pub new_id_hash_balancer : BalancerFactory
new_id_hash_balancer service_code nodes = some (id_hash nodes, nodes)

-- `nodes[0]`
abbrev pub first_node : (NodeEntry → Balancer) → List NodeEntry → Option (Balancer × List NodeEntry)
first_node balancer [] = none
first_node balancer (node ∷ nodes) = some (balancer node, node ∷ nodes)

unfoldable pub new_oldest_balancer : BalancerFactory
new_oldest_balancer _ nodes = first_node oldest (sort_slice older nodes)

unfoldable pub new_newest_balancer : BalancerFactory
new_newest_balancer _ nodes = first_node newest (sort_slice newer nodes)

-- The loop of NewBalancer over the services of the newest node.
unfoldable pub policy_of : ℤ → List GrpcServiceDesc → String
policy_of service_code [] = ""
policy_of service_code (desc ∷ services) =
    if desc.code == service_code then desc.balancer else policy_of service_code services

-- `strings.ToLower` is a parameter.
module _ (to_lower : String → String) where
  -- `none` is the panic on a policy that is registered already.
  unfoldable pub register_balancer :
      Map String BalancerFactory → String → BalancerFactory → Option (Map String BalancerFactory)
  register_balancer registered policy factory = elim (Map.load registered (to_lower policy)) [
    | some _ ↦ none
    | none ↦ some (Map.store registered (to_lower policy) factory)
  ]

  -- The package's `init`.
  unfoldable pub init_balancers : Option (Map String BalancerFactory)
  init_balancers = do
    r ← register_balancer [] balancer_random new_random_balancer
    r ← register_balancer r balancer_round_robin new_round_robin_balancer
    r ← register_balancer r balancer_ip_hash new_ip_hash_balancer
    r ← register_balancer r balancer_id_hash new_id_hash_balancer
    r ← register_balancer r balancer_oldest new_oldest_balancer
    register_balancer r balancer_newest new_newest_balancer

  -- NewBalancer on two nodes or more, sorted newest first.
  unfoldable pub choose_balancer :
      Map String BalancerFactory → ℤ → List NodeEntry → Option (Balancer × List NodeEntry)
  choose_balancer registered service_code [] = none
  choose_balancer registered service_code (node ∷ nodes) =
      let policy = policy_of service_code node.grpc.services in
      elim (Map.load registered (to_lower policy)) [
        | some factory ↦ factory service_code (node ∷ nodes)
        | none ↦ some (error_balancer (not_implemented policy), node ∷ nodes)
      ]

  unfoldable pub new_balancer :
      Map String BalancerFactory → ℤ → List NodeEntry → Option (Balancer × List NodeEntry)
  new_balancer registered service_code [] = some (error_balancer no_node_available, [])
  new_balancer registered service_code (node ∷ []) = some (no_balancer node, node ∷ [])
  new_balancer registered service_code (a ∷ b ∷ nodes) =
      choose_balancer registered service_code (sort_slice newer (a ∷ b ∷ nodes))
