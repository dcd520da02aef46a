-- ===== src/Cluster/Resolver/Query.antt =====
-- The methods of resolver.go that answer a question: a description, a node, a connection.
use nodehub.Base.{
  ℕ, ◌+◌, String, Option, none, some, List, [], ◌∷◌, Bool, ◌==◌, nat_eq, string_eq, if◌then◌else◌,
  length, Outcome, ok, err, ◌>>=◌,
}
use nodehub.Base.Int.{ℤ, pos, int_eq}
use nodehub.Base.Map
use nodehub.Base.Map.{Map}
use nodehub.Cluster.Entry.{NodeEntry, GrpcServiceDesc, node_down}
use nodehub.Cluster.Balancer.{Session, PickError, no_node_available}
use nodehub.Cluster.Balancer.Pick.{intn, node_at, pick}
use nodehub.Cluster.Resolver.{Resolver, ok_list}

unfoldable pub get_desc : Resolver → ℤ → Option GrpcServiceDesc
get_desc r service_code = Map.load r.services service_code

module _ (sum64 : String → ℕ) (addr_bytes : String → Option (List ℕ)) where
  unfoldable pub alloc_node : Resolver → ℤ → Session → ℕ → Outcome PickError ℕ
  alloc_node r service_code sess draw = elim (Map.load r.service_balancer service_code) [
    | none ↦ err no_node_available
    | some balancer ↦ pick sum64 addr_bytes balancer sess draw
  ]

unfoldable pub pick_one : List NodeEntry → ℕ → Outcome PickError ℕ
pick_one [] draw = err no_node_available
pick_one (node ∷ []) draw = ok node.id
pick_one (a ∷ b ∷ nodes) draw = do
  i ← intn (pos (length (a ∷ b ∷ nodes))) draw
  node_at (a ∷ b ∷ nodes) (pos i)

unfoldable pub pick_node : Resolver → ℤ → ℕ → Outcome PickError ℕ
pick_node r service_code draw = pick_one (ok_list r.ok_nodes service_code) draw

pub data ConnError : Type 0 where
  node_not_found_or_down dial_failed : ConnError

-- Whether `grpc.NewClient` accepts an endpoint is a parameter.
module _ (can_dial : String → Bool) where
  unfoldable pub get_endpoint_conn : String → Resolver → Resolver × Outcome ConnError ℕ
  get_endpoint_conn endpoint r = elim (Map.load r.conns endpoint) [
    | some conn ↦ (r, ok conn)
    | none ↦
        if can_dial endpoint
        then (
          record r { conns = Map.store r.conns endpoint r.next_conn; next_conn = r.next_conn + 1 },
          ok r.next_conn,
        )
        else (r, err dial_failed)
  ]

  unfoldable pub get_conn : ℕ → Resolver → Resolver × Outcome ConnError ℕ
  get_conn node_id r = elim (Map.load r.all_nodes node_id) [
    | none ↦ (r, err node_not_found_or_down)
    | some node ↦
        if node.state == node_down
        then (r, err node_not_found_or_down)
        else get_endpoint_conn node.grpc.endpoint r
  ]

-- The connections that `Range` meets are closed in turn, and forgotten.
unfoldable pub close_conns : Map String ℕ → List ℕ → List ℕ
close_conns [] closed = closed
close_conns ((endpoint, conn) ∷ conns) closed = close_conns conns (conn ∷ closed)

unfoldable pub close : Resolver → Resolver
close r = record r { conns = []; closed = close_conns r.conns r.closed }
