-- ===== src/Gateway/Requests/Guarded.antt =====
-- What stands behind a call of an upstream.
use nodehub.Base.{
  ℕ, ◌≡◌, refl, ap, ◌∙◌, Option, none, some, List, [], ◌∷◌, Bool, true, false, not, nat_eq,
  string_eq, if◌then◌else◌, str_eq_iff, arith, Outcome, ok, err, panic,
}
use nodehub.Base.Int.{int_eq}
use nodehub.Base.Map
use nodehub.Base.Map.{load-store_self, load-store_ne}
use nodehub.Cluster.Entry.{GrpcServiceDesc}
use nodehub.Cluster.Balancer.{Session}
use nodehub.Cluster.Resolver.Query.{get_desc}
use nodehub.Gateway.Proxy.{Proxy, Request, UpstreamError, get_upstream}
use nodehub.Gateway.Requests.{
  Call, Served, Answers, Outside, md_transaction_id, md_sess_id, md_gateway, outgoing,
  new_empty_message, invoke, forward, dispatch, screened, serve, interceptor_denied,
  private_service, handle_request,
}

module _ {E : Type 0} (o : Outside E) where
  -- What the calls of a request satisfy: there is one at most, to a method of the service.
  pub record Called (sess : Session) (req : Request) (desc : GrpcServiceDesc) (conn : ℕ)
      (call : Call) (rest : List Call) : Type 0 where
    pub single : rest ≡ []
    pub to_conn : call.conn ≡ conn
    pub to_method : call.method ≡ o.join desc.path req.method
    pub input : new_empty_message o req.payload ≡ ok call.input
    pub from_session : Map.load call.metadata md_sess_id ≡ some (sess.id ∷ [])
    pub from_gateway : Map.load call.metadata md_gateway ≡ some (o.node_id ∷ [])

  -- What stands behind the calls: the interceptor let the request pass, the service is known and
  -- public, and getUpstream came to the connection.
  pub record Guarded (p : Proxy) (sess : Session) (req : Request) (a : Answers E) (call : Call)
      (rest : List Call) : Type 0 where
    pub passed : a.pass ≡ ok true
    pub desc : GrpcServiceDesc
    pub known : get_desc p.grpc_resolver req.service_code ≡ some desc
    pub public : desc.public ≡ true
    pub after : Proxy
    pub conn : ℕ
    pub upstream :
        get_upstream o.sum64 o.addr_bytes o.parse_id o.can_dial p sess req desc a.draw
        ≡ (after, ok conn)
    pub called : Called sess req desc conn call rest

  load-outgoing_sess :
      (sess : Session) (a : Answers E)
      → Map.load (outgoing o sess a) md_sess_id ≡ some (sess.id ∷ [])
  unfolding outgoing Map.load
  load-outgoing_sess sess a =
      rw
        (load-store_ne
          (Map.store (Map.store a.metadata md_transaction_id (a.transaction_id ∷ [])) md_sess_id
            (sess.id ∷ []))
          md_gateway md_sess_id (o.node_id ∷ [])
          (λ e. ground (arith, e, str_eq_iff md_gateway md_sess_id)))
        (load-store_self (Map.store a.metadata md_transaction_id (a.transaction_id ∷ [])) md_sess_id
          (sess.id ∷ []))

  load-outgoing_gateway :
      (sess : Session) (a : Answers E)
      → Map.load (outgoing o sess a) md_gateway ≡ some (o.node_id ∷ [])
  unfolding outgoing
  load-outgoing_gateway sess a =
      load-store_self
        (Map.store (Map.store a.metadata md_transaction_id (a.transaction_id ∷ [])) md_sess_id
          (sess.id ∷ []))
        md_gateway (o.node_id ∷ [])

  invoke-Called :
      (sess : Session) (req : Request) (desc : GrpcServiceDesc) (a : Answers E) (p : Proxy)
      (conn : ℕ) (input : Outcome E (List ℕ)) (call : Call) (rest : List Call)
      → new_empty_message o req.payload ≡ input
      → (invoke o sess req desc a p conn input).calls ≡ call ∷ rest
      → Called sess req desc conn call rest
  unfolding invoke
  invoke-Called sess req desc a p conn (ok input) call rest i e =
      let s = load-outgoing_sess sess a in
      let g = load-outgoing_gateway sess a in
      record {
        single = cc;
        to_conn = cc;
        to_method = cc;
        input = cc;
        from_session = cc;
        from_gateway = cc;
      }
  invoke-Called sess req desc a p conn (err x) call rest i e = cc
  invoke-Called sess req desc a p conn panic call rest i e = cc

  forward-Called :
      (sess : Session) (req : Request) (desc : GrpcServiceDesc) (a : Answers E)
      (u : Proxy × Outcome UpstreamError ℕ) (call : Call) (rest : List Call)
      → (forward o sess req desc a u).calls ≡ call ∷ rest
      → (after : Proxy) × (conn : ℕ) × (u ≡ (after, ok conn)) × Called sess req desc conn call rest
  unfolding forward
  forward-Called sess req desc a (p, ok conn) call rest e = (
    p,
    conn,
    refl,
    invoke-Called sess req desc a p conn (new_empty_message o req.payload) call rest refl e,
  )
  forward-Called sess req desc a (p, err x) call rest e = cc
  forward-Called sess req desc a (p, panic) call rest e = cc

  calls-if :
      (b : Bool) (x y : Served E) (call : Call) (rest : List Call)
      → x.calls ≡ []
      → (if not b then x else y).calls ≡ call ∷ rest
      → (b ≡ true) × (y.calls ≡ call ∷ rest)
  calls-if true x y call rest h e = (refl, e)
  calls-if false x y call rest h e = cc

  dispatch-Guarded :
      (p : Proxy) (sess : Session) (req : Request) (a : Answers E) (d : Option GrpcServiceDesc)
      (call : Call) (rest : List Call)
      → a.pass ≡ ok true
      → get_desc p.grpc_resolver req.service_code ≡ d
      → (dispatch o p sess req a d).calls ≡ call ∷ rest
      → Guarded p sess req a call rest
  unfolding dispatch
  dispatch-Guarded p sess req a none call rest h k e = cc
  dispatch-Guarded p sess req a (some desc) call rest h k e =
      let u = get_upstream o.sum64 o.addr_bytes o.parse_id o.can_dial p sess req desc a.draw in
      let (q, f) =
        calls-if desc.public (record { proxy = p; calls = []; result = err private_service })
          (forward o sess req desc a u) call rest refl e in
      let (after, conn, v, c) = forward-Called sess req desc a u call rest f in
      record {
        passed = h;
        desc = desc;
        known = k;
        public = q;
        after = after;
        conn = conn;
        upstream = v;
        called = c;
      }

  screened-Guarded :
      (p : Proxy) (sess : Session) (req : Request) (a : Answers E) (r : Outcome E Bool)
      (call : Call) (rest : List Call)
      → a.pass ≡ r
      → (screened o p sess req a r).calls ≡ call ∷ rest
      → Guarded p sess req a call rest
  unfolding screened
  screened-Guarded p sess req a (err x) call rest h e = cc
  screened-Guarded p sess req a panic call rest h e = cc
  screened-Guarded p sess req a (ok pass) call rest h e =
      let d = get_desc p.grpc_resolver req.service_code in
      let (q, f) =
        calls-if pass (record { proxy = p; calls = []; result = err interceptor_denied })
          (dispatch o p sess req a d) call rest refl e in
      dispatch-Guarded p sess req a d call rest (h ∙ ap ok q) refl f

  -- Where handling a request calls an upstream, it makes this one call; the interceptor let the
  -- request pass, the service is known and public, getUpstream came to the connection, the method
  -- is joined to the path of the service, and the metadata name the session and this gateway,
  -- whatever the session's own metadata say.
  pub handle_request-Guarded :
      (p : Proxy) (sess : Session) (req : Request) (a : Answers E) (call : Call) (rest : List Call)
      → (handle_request o p sess req a).0.calls ≡ call ∷ rest
      → Guarded p sess req a call rest
  unfolding handle_request serve
  handle_request-Guarded p sess req a call rest e =
      screened-Guarded p sess req a a.pass call rest refl e
