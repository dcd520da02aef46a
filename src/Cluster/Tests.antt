-- ===== src/Cluster/Tests.antt =====
-- Runs of the cluster's parts on two nodes.
pub mod Services
pub mod Watch
use nodehub.Base.{
  ℕ, ◌*◌, ◌+◌, ◌-◌, ◌^◌, ◌%◌, ◌≤◌, ◌<◌, ◌≡◌, ◌≢◌, ◌↔◌, refl, String, Option, none, some, List, [],
  ◌∷◌, ◌++◌, Bool, true, false, ◌==◌, string_eq, if◌then◌else◌, length, get_elem?, Outcome, ok, err,
  panic, Memᴰ, arith,
}
use nodehub.Base.Int.{ℤ, pos, two63, two64}
use nodehub.Base.Map
use nodehub.Base.Map.{Map}
use nodehub.Base.Maybe.{OnSome-some}
use nodehub.Cluster.Entry.{GrpcServiceDesc, GrpcEntry, NodeEntry, node_ok, validate}
use nodehub.Cluster.Entry.Valid.{IsEntry, validate_iff}
use nodehub.Cluster.Balancer.{
  Session, Balancer, BalancerFactory, WeightedNode, round_robin, ip_hash, id_hash, oldest, newest,
  sum_weights, new_random_balancer, new_round_robin_balancer, new_ip_hash_balancer,
  new_id_hash_balancer, new_oldest_balancer, new_newest_balancer, register_balancer, init_balancers,
  new_balancer, choose_balancer, policy_of,
}
use nodehub.Cluster.Balancer.Sort.{sort_slice, insert}
use nodehub.Cluster.Balancer.Pick.{pick}
use nodehub.Cluster.Balancer.Members.{OneOf, AllFactories}
use nodehub.Cluster.Balancer.Hash.{id_hash_panics_iff, ip_hash_v4}
use nodehub.Cluster.Balancer.Weights.{Weighted, total, round_robin-interval}
use nodehub.Cluster.Balancer.Policies.{
  load-register_balancer, init_balancers-AllFactories, new_balancer-pick, new_oldest_balancer-le,
  new_newest_balancer-le, new_balancer-by_age,
}

abbrev pub chat : GrpcServiceDesc
chat = record {
  name = "chat";
  code = pos 1;
  path = "/chat";
  public = true;
  balancer = "oldest";
  weight = pos 2;
  stateful = false;
  allocation = "";
}

abbrev pub node : ℕ → String → NodeEntry
node id endpoint = record {
  id = id;
  name = "node";
  state = node_ok;
  entrance = "";
  metrics = "";
  grpc = record { endpoint = endpoint; services = chat ∷ [] };
  git_version = "";
}

abbrev pub first : NodeEntry
first = node (5 * 2 ^ 80) "10.0.0.5:9000"

abbrev pub second : NodeEntry
second = node (6 * 2 ^ 80) "10.0.0.6:9000"

abbrev pub alice : Session
alice = record { id = "alice"; remote_addr = "10.0.0.1:4000" }

-- A hash with its top bit set, an address, and the lower case of the policies' names.
abbrev pub sum64 : String → ℕ
sum64 s = 2 ^ 63 + 1

abbrev pub addr_bytes : String → Option (List ℕ)
addr_bytes s = some (10 ∷ 0 ∷ 0 ∷ 1 ∷ [])

abbrev pub to_lower : String → String
to_lower s =
    if s == "roundRobin"
    then "roundrobin"
    else if s == "ipHash"
    then "iphash"
    else if s == "idHash"
    then "idhash"
    else s

abbrev pub registered : Map String BalancerFactory
registered =
    ("random", new_random_balancer)
    ∷ ("roundrobin", new_round_robin_balancer)
    ∷ ("iphash", new_ip_hash_balancer)
    ∷ ("idhash", new_id_hash_balancer)
    ∷ ("oldest", new_oldest_balancer)
    ∷ ("newest", new_newest_balancer)
    ∷ []

init_balancers-registered : init_balancers to_lower ≡ some registered
unfolding init_balancers register_balancer Map.load Map.store
init_balancers-registered = refl

pub registered-AllFactories : AllFactories registered
registered-AllFactories =
    OnSome-some AllFactories (init_balancers to_lower) registered
      (init_balancers-AllFactories to_lower) init_balancers-registered

validate_iff_example :
    (validate (λ _. none) (λ _. false) first ≡ none) ↔ IsEntry (λ _. none) (λ _. false) first
validate_iff_example = validate_iff (λ _. none) (λ _. false) first

id_hash_panics_iff_example :
    (pick sum64 addr_bytes (id_hash (first ∷ second ∷ [])) alice 0 ≡ panic)
    ↔ ((two63 ≤ sum64 alice.id) × ((two64 - sum64 alice.id) % 2 ≢ 0))
id_hash_panics_iff_example =
    id_hash_panics_iff sum64 addr_bytes first (second ∷ []) alice 0 (omega arith)

abbrev light : WeightedNode
light = record { entry = first; weight = pos 10 }

abbrev heavy : WeightedNode
heavy = record { entry = second; weight = pos 20 }

round_robin-interval_example :
    pick sum64 addr_bytes
      (round_robin (light ∷ heavy ∷ []) (sum_weights (pos 0) (light ∷ heavy ∷ [])))
      alice
      29
    ≡ ok second.id
round_robin-interval_example =
    round_robin-interval sum64 addr_bytes (light ∷ []) [] heavy alice 29 (refl, (refl, tt))
      (omega arith) (omega arith) (omega arith)

abbrev empty : Map String BalancerFactory
empty = []

registers_oldest :
    register_balancer to_lower empty "oldest" new_oldest_balancer
    ≡ some (("oldest", new_oldest_balancer) ∷ [])
unfolding register_balancer Map.load Map.store
registers_oldest = refl

chooses_oldest :
    new_balancer to_lower registered (pos 1) (first ∷ second ∷ [])
    ≡ some (oldest first, first ∷ second ∷ [])
unfolding new_balancer choose_balancer policy_of sort_slice insert Map.load new_oldest_balancer
chooses_oldest = refl

picks_first : pick sum64 addr_bytes (oldest first) alice 0 ≡ ok first.id
unfolding pick
picks_first = refl
