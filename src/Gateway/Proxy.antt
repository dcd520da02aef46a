-- ===== src/Gateway/Proxy.antt =====
-- component/gateway/proxy.go: the node that a request is sent to.
pub mod Sticky
pub mod Tests
use nodehub.Base.{
  ℕ, String, Option, none, some, Bool, true, false, not, ◌&&◌, ◌==◌, string_eq, if◌then◌else◌, List,
  Outcome, ok, err, panic,
}
use nodehub.Base.Int.{ℤ}
use nodehub.Cluster.Entry.{GrpcServiceDesc, auto_allocate, client_allocate}
use nodehub.Cluster.Balancer.{Session, PickError}
use nodehub.Cluster.Resolver.{Resolver}
use nodehub.Cluster.Resolver.Query.{alloc_node, get_conn, ConnError}
use nodehub.Gateway.StateTable.{StateTable, find, store}

-- The resolver is that of `opts.Registry`, whose AllocGRPCNode and GetGRPCConn pass it the call.
pub record Proxy : Type 0 where
  pub grpc_resolver : Resolver
  pub state_table : StateTable

-- The message of the client protocol.
pub record Request : Type 0 where
  pub id : ℕ
  pub service_code : ℤ
  pub method : String
  pub payload : List ℕ
  pub node_id : String
  pub no_reply : Bool
  pub stream : String

pub data UpstreamError : Type 0 where
  pick_failed : PickError → UpstreamError
  invalid_node_id no_node_allocated : UpstreamError
  conn_failed : ConnError → UpstreamError

-- A node, and whether it is recorded once there is a connection.
pub record Choice : Type 0 where
  pub node_id : ℕ
  pub recorded : Bool

unfoldable pub allocated : Bool → Outcome PickError ℕ → Outcome UpstreamError Choice
allocated recorded (ok id) = ok (record { node_id = id; recorded = recorded })
allocated recorded (err e) = err (pick_failed e)
allocated recorded panic = panic

-- Parameters: those of AllocNode, `ulid.Parse`, and whether `grpc.NewClient` takes an endpoint.
module _ (sum64 : String → ℕ) (addr_bytes : String → Option (List ℕ)) (parse_id : String → Option ℕ)
    (can_dial : String → Bool) where
  unfoldable pub alloc : Proxy → Session → Request → Bool → ℕ → Outcome UpstreamError Choice
  alloc p sess req recorded draw =
      allocated recorded (alloc_node sum64 addr_bytes p.grpc_resolver req.service_code sess draw)

  -- The route of the table, or a node by the policy of the service. The node is still zero where
  -- the code looks at its time.
  unfoldable pub routed :
      Proxy → Session → Request → GrpcServiceDesc → ℕ → Outcome UpstreamError Choice
  routed p sess req desc draw = elim (find p.state_table sess.id req.service_code) [
    | some id ↦ ok (record { node_id = id; recorded = false })
    | none ↦
        if not (desc.allocation == auto_allocate)
        then err no_node_allocated
        else alloc p sess req true draw
  ]

  unfoldable pub named : Request → Outcome UpstreamError Choice
  named req = elim (parse_id req.node_id) [
    | some id ↦ ok (record { node_id = id; recorded = true })
    | none ↦ err invalid_node_id
  ]

  unfoldable pub choose :
      Proxy → Session → Request → GrpcServiceDesc → ℕ → Outcome UpstreamError Choice
  choose p sess req desc draw =
      if not desc.stateful
      then alloc p sess req false draw
      else if desc.allocation == client_allocate && not (req.node_id == "")
      then named req
      else routed p sess req desc draw

  -- The deferred calls, and the result.
  unfoldable pub finished :
      Proxy
      → Session
      → Request
      → Choice
      → Resolver × Outcome ConnError ℕ
      → Proxy × Outcome UpstreamError ℕ
  finished p sess req c (r, ok conn) = (
    record {
      grpc_resolver = r;
      state_table =
          if c.recorded
          then store p.state_table sess.id req.service_code c.node_id
          else p.state_table;
    },
    ok conn,
  )
  finished p sess req c (r, err e) = (record p { grpc_resolver = r }, err (conn_failed e))
  finished p sess req c (r, panic) = (record p { grpc_resolver = r }, panic)

  -- From the label FINISH.
  unfoldable pub finish :
      Proxy → Session → Request → Outcome UpstreamError Choice → Proxy × Outcome UpstreamError ℕ
  finish p sess req (ok c) = finished p sess req c (get_conn can_dial c.node_id p.grpc_resolver)
  finish p sess req (err e) = (p, err e)
  finish p sess req panic = (p, panic)

  unfoldable pub get_upstream :
      Proxy → Session → Request → GrpcServiceDesc → ℕ → Proxy × Outcome UpstreamError ℕ
  get_upstream p sess req desc draw = finish p sess req (choose p sess req desc draw)
