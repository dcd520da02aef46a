-- ===== src/Gateway/Proxy/Sticky.antt =====
-- A session with a service that has state stays on its node.
use nodehub.Base.{
  ℕ, ◌≡◌, refl, ◌⊎◌, inl, inr, String, Option, some, Bool, true, false, ◌==◌, nat_eq, string_eq,
  if◌then◌else◌, List, Outcome, ok, err, panic, Bool-cases, Option-cases, arith,
}
use nodehub.Base.Int.{int_eq}
use nodehub.Base.Map
use nodehub.Cluster.Entry.{GrpcServiceDesc, auto_allocate, client_allocate, node_down}
use nodehub.Cluster.Balancer.{Session, PickError}
use nodehub.Cluster.Resolver.{Resolver}
use nodehub.Cluster.Resolver.Query.{alloc_node, get_conn, get_endpoint_conn, ConnError}
use nodehub.Gateway.StateTable.{find, store}
use nodehub.Gateway.StateTable.Laws.{find-store}
use nodehub.Gateway.Proxy.{
  Proxy, Request, UpstreamError, Choice, allocated, alloc, routed, choose, finished, finish,
  get_upstream,
}

get_endpoint_conn_again :
    (can_dial : String → Bool) (endpoint : String) (r r' : Resolver) (conn : ℕ)
    → get_endpoint_conn can_dial endpoint r ≡ (r', ok conn)
    → (get_endpoint_conn can_dial endpoint r' ≡ (r', ok conn)) × (r'.all_nodes ≡ r.all_nodes)
unfolding get_endpoint_conn
get_endpoint_conn_again can_dial endpoint r r' conn h =
    ground (arith, h, Map.load-store_self r.conns endpoint r.next_conn)

get_conn_again :
    (can_dial : String → Bool) (id : ℕ) (r r' : Resolver) (conn : ℕ)
    → get_conn can_dial id r ≡ (r', ok conn)
    → get_conn can_dial id r' ≡ (r', ok conn)
unfolding get_conn
get_conn_again can_dial id r r' conn h = elim (Option-cases (Map.load r.all_nodes id)) [
  | inl e ↦ absurd (ground (arith, h, e))
  | inr (n, e) ↦ elim (Bool-cases (n.state == node_down)) [
    | inl d ↦ absurd (ground (arith, h, e, d))
    | inr u ↦
        let first : get_endpoint_conn can_dial n.grpc.endpoint r ≡ (r', ok conn) =
          ground (arith, h, e, u) in
        let (a, b) = get_endpoint_conn_again can_dial n.grpc.endpoint r r' conn first in
        ground (arith, a, b, e, u)
  ]
]

allocated-recorded :
    (o : Outcome PickError ℕ) (c : Choice) → allocated true o ≡ ok c → c.recorded ≡ true
unfolding allocated
allocated-recorded (ok id) c h = ground (arith, h)
allocated-recorded (err e) c h = cc
allocated-recorded panic c h = cc

module _ (sum64 : String → ℕ) (addr_bytes : String → Option (List ℕ)) (parse_id : String → Option ℕ)
    (can_dial : String → Bool) where
  routed-cases :
      (p : Proxy) (sess : Session) (req : Request) (desc : GrpcServiceDesc) (draw : ℕ) (c : Choice)
      → routed sum64 addr_bytes parse_id can_dial p sess req desc draw ≡ ok c
      → (c.recorded ≡ true) ⊎ (find p.state_table sess.id req.service_code ≡ some c.node_id)
  unfolding routed alloc
  routed-cases p sess req desc draw c h =
      elim (Option-cases (find p.state_table sess.id req.service_code)) [
        | inr (id, e) ↦ inr (ground (arith, h, e))
        | inl e ↦ elim (Bool-cases (desc.allocation == auto_allocate)) [
          | inl a ↦ inl (
              allocated-recorded
                (alloc_node sum64 addr_bytes p.grpc_resolver req.service_code sess draw) c
                (ground (arith, h, e, a)))
          | inr n ↦ absurd (ground (arith, h, e, n))
        ]
      ]

  choose-auto :
      (p : Proxy) (sess : Session) (req : Request) (desc : GrpcServiceDesc) (draw : ℕ)
      → desc.stateful ≡ true
      → desc.allocation ≡ auto_allocate
      → choose sum64 addr_bytes parse_id can_dial p sess req desc draw
        ≡ routed sum64 addr_bytes parse_id can_dial p sess req desc draw
  unfolding choose
  choose-auto p sess req desc draw s a =
      let other : (desc.allocation == client_allocate) ≡ false = rw a refl in rw (s, other) refl

  finish-ok :
      (p p' : Proxy) (sess : Session) (req : Request) (o : Outcome UpstreamError Choice) (conn : ℕ)
      → finish sum64 addr_bytes parse_id can_dial p sess req o ≡ (p', ok conn)
      → (c : Choice) × (o ≡ ok c)
        × (finished sum64 addr_bytes parse_id can_dial p sess req c
              (get_conn can_dial c.node_id p.grpc_resolver)
            ≡ (p', ok conn))
  unfolding finish
  finish-ok p p' sess req (ok c) conn h = (c, refl, h)
  finish-ok p p' sess req (err e) conn h = absurd (ground (arith, h))
  finish-ok p p' sess req panic conn h = absurd (ground (arith, h))

  finished-ok :
      (p p' : Proxy) (sess : Session) (req : Request) (c : Choice)
      (x : Resolver × Outcome ConnError ℕ) (conn : ℕ)
      → finished sum64 addr_bytes parse_id can_dial p sess req c x ≡ (p', ok conn)
      → (x ≡ (p'.grpc_resolver, ok conn))
        × (p'.state_table ≡ (
            if c.recorded
            then store p.state_table sess.id req.service_code c.node_id
            else p.state_table))
  unfolding finished
  finished-ok p p' sess req c (r, ok k) conn h = ground (arith, h)
  finished-ok p p' sess req c (r, err e) conn h = absurd (ground (arith, h))
  finished-ok p p' sess req c (r, panic) conn h = absurd (ground (arith, h))

  routed-stays :
      (p : Proxy) (sess : Session) (req : Request) (desc : GrpcServiceDesc) (draw : ℕ) (c : Choice)
      (conn : ℕ)
      → find p.state_table sess.id req.service_code ≡ some c.node_id
      → get_conn can_dial c.node_id p.grpc_resolver ≡ (p.grpc_resolver, ok conn)
      → finish sum64 addr_bytes parse_id can_dial p sess req
          (routed sum64 addr_bytes parse_id can_dial p sess req desc draw)
        ≡ (p, ok conn)
  unfolding routed finish finished
  routed-stays p sess req desc draw c conn l g = ground (arith, l, g)

  -- Where a request found a connection for a service with state that allocates by itself, a later
  -- request of the session to the service, with nothing in between, finds the same connection
  -- whatever it draws, and changes nothing.
  pub get_upstream_again :
      (p p' : Proxy) (sess : Session) (req req' : Request) (desc : GrpcServiceDesc)
      (draw draw' conn : ℕ)
      → desc.stateful ≡ true
      → desc.allocation ≡ auto_allocate
      → req'.service_code ≡ req.service_code
      → get_upstream sum64 addr_bytes parse_id can_dial p sess req desc draw ≡ (p', ok conn)
      → get_upstream sum64 addr_bytes parse_id can_dial p' sess req' desc draw' ≡ (p', ok conn)
  unfolding get_upstream
  get_upstream_again p p' sess req req' desc draw draw' conn s a same h =
      let (c, o, f) =
        finish-ok p p' sess req _ conn (rw (choose-auto p sess req desc draw s a) at h) in
      let (g, t) = finished-ok p p' sess req c _ conn f in
      let again = get_conn_again can_dial c.node_id p.grpc_resolver p'.grpc_resolver conn g in
      rw (choose-auto p' sess req' desc draw' s a) (
        routed-stays p' sess req' desc draw' c conn
          (route c (routed-cases p sess req desc draw c o) t) again)
    where
      stored :
          (c : Choice)
          → c.recorded ≡ true
          → p'.state_table ≡ (
              if c.recorded
              then store p.state_table sess.id req.service_code c.node_id
              else p.state_table)
          → find p'.state_table sess.id req'.service_code ≡ some c.node_id
      stored c r t =
          rw
            (
              t,
              r,
              same,
              find-store p.state_table sess.id sess.id req.service_code req.service_code c.node_id,
              Map.beq_self sess.id,
              Map.beq_self req.service_code,
            )
            refl

      route :
          (c : Choice)
          → (c.recorded ≡ true) ⊎ (find p.state_table sess.id req.service_code ≡ some c.node_id)
          → p'.state_table ≡ (
              if c.recorded
              then store p.state_table sess.id req.service_code c.node_id
              else p.state_table)
          → find p'.state_table sess.id req'.service_code ≡ some c.node_id
      route c (inl r) t = stored c r t
      route c (inr e) t = elim (Bool-cases c.recorded) [
        | inl r ↦ stored c r t
        | inr r ↦ rw (t, r, same) e
      ]
