-- ===== src/Gateway/Service/Routes.antt =====
-- A route that a node sets is the one that the next request takes.
use nodehub.Base.{
  ℕ, ◌≡◌, refl, ◌∙◌, String, Option, none, some, List, Bool, true, false, ◌==◌, nat_eq, string_eq,
  str_eq_iff, arith, ok, err,
}
use nodehub.Base.Int.{int_eq}
use nodehub.Cluster.Entry.{GrpcServiceDesc, auto_allocate, server_allocate, client_allocate}
use nodehub.Cluster.Balancer.{Session}
use nodehub.Gateway.StateTable.{StateTable, find, store, remove}
use nodehub.Gateway.StateTable.Laws.{find-store, find-remove}
use nodehub.Gateway.SessionHub.{HubSession, look_up}
use nodehub.Gateway.Proxy.{Proxy, Request, no_node_allocated, routed, choose}
use nodehub.Gateway.Service.{
  GwService, SetServiceRouteRequest, set_service_route, remove_service_route,
}

set_service_route-known :
    {E : Type 0} (parse_id : String → Option ℕ) (s : GwService) (sess : HubSession)
    (req : SetServiceRouteRequest) (id : ℕ)
    → look_up s.session_hub req.session_id ≡ some sess
    → parse_id req.node_id ≡ some id
    → (set_service_route {E = E} parse_id s req ≡ (
      record s { state_table = store s.state_table req.session_id req.service_code id },
      ok tt,
    ))
unfolding set_service_route
set_service_route-known parse_id s sess req id l e = rw (l, set_service_route, e) refl

module _ (sum64 : String → ℕ) (addr_bytes : String → Option (List ℕ)) (parse_id : String → Option ℕ)
    (can_dial : String → Bool) where
  choose-found :
      (p : Proxy) (user : Session) (q : Request) (desc : GrpcServiceDesc) (draw id : ℕ)
      → desc.stateful ≡ true
      → q.node_id ≡ ""
      → find p.state_table user.id q.service_code ≡ some id
      → choose sum64 addr_bytes parse_id can_dial p user q desc draw
        ≡ ok (record { node_id = id; recorded = false })
  unfolding choose routed
  choose-found p user q desc draw id s n f = ground (arith, s, f, str_eq_iff q.node_id "", n)

  choose-missing :
      (p : Proxy) (user : Session) (q : Request) (desc : GrpcServiceDesc) (draw : ℕ)
      → desc.stateful ≡ true
      → desc.allocation ≡ server_allocate
      → find p.state_table user.id q.service_code ≡ none
      → choose sum64 addr_bytes parse_id can_dial p user q desc draw ≡ err no_node_allocated
  unfolding choose routed
  choose-missing p user q desc draw s a f =
      let other : (desc.allocation == client_allocate) ≡ false = rw a refl in
      let auto : (desc.allocation == auto_allocate) ≡ false = rw a refl in
      ground (arith, s, f, other, auto)

  -- A node sets a route, with an identity that parses, for a session that the gateway has: then a
  -- request of that user to the service, a server-allocated one with state, goes to the node, if
  -- it names no node; and once the route is removed, such a request is refused.
  pub set_service_route-choose :
      {E : Type 0} (s : GwService) (sess : HubSession) (req : SetServiceRouteRequest) (id : ℕ)
      (p : Proxy) (user : Session) (q : Request) (desc : GrpcServiceDesc) (draw : ℕ)
      → look_up s.session_hub req.session_id ≡ some sess
      → parse_id req.node_id ≡ some id
      → user.id ≡ req.session_id
      → q.service_code ≡ req.service_code
      → q.node_id ≡ ""
      → desc.stateful ≡ true
      → desc.allocation ≡ server_allocate
      → let (set, answer) = set_service_route {E = E} parse_id s req in
        let removed =
          remove_service_route set
            (record { session_id = req.session_id; service_code = req.service_code }) in
        let ask = λ (table : StateTable).
          choose sum64 addr_bytes parse_id can_dial
            (record p { state_table = table })
            user
            q
            desc
            draw in
        (answer ≡ ok tt)
        × (ask set.state_table ≡ ok (record { node_id = id; recorded = false }))
        × (ask removed.state_table ≡ err no_node_allocated)
  unfolding remove_service_route
  set_service_route-choose s sess req id p user q desc draw l e u c n st a =
      let set = store s.state_table req.session_id req.service_code id in
      let removed = remove set req.session_id req.service_code in
      let found : find set user.id q.service_code ≡ some id =
        rw (u, c)
          (find-store s.state_table req.session_id req.session_id req.service_code req.service_code
              id
            ∙ ground (arith, str_eq_iff req.session_id req.session_id)) in
      let missing : find removed user.id q.service_code ≡ none =
        rw (u, c)
          (find-remove set req.session_id req.session_id req.service_code req.service_code
            ∙ ground (arith, str_eq_iff req.session_id req.session_id)) in
      rw (set_service_route-known parse_id s sess req id l e) (
        refl,
        choose-found (record p { state_table = set }) user q desc draw id st n found,
        choose-missing (record p { state_table = removed }) user q desc draw st a missing,
      )
