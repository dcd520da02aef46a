-- ===== src/Node/Assembly/Published.antt =====
-- The entry that a gateway node publishes.
use nodehub.Base.{
  ℕ, ◌≡◌, ◌≢◌, ◌↔◌, refl, sym, ◌∙◌, String, Option, none, some, List, [], ◌∷◌, ◌++◌, Bool, ◌==◌,
  string_eq, All, Option-cases, inl, inr, if-cases, subst,
}
use nodehub.Base.Int.{int_eq}
use nodehub.Cluster.Entry.{NodeEntry, validate, ulid_time}
use nodehub.Cluster.Entry.Valid.{IsEntrance, validate_iff}
use nodehub.Cluster.Publish.{Publisher}
use nodehub.Gateway.Options
use nodehub.Gateway.Options.{Transporter, Options, with_registry, new_proxy, new_options, checked}
use nodehub.Gateway.Options.Required.{Has, Misses, new_proxy-registered}
use nodehub.Node.{Node, Component, new_node, add_component, get_entry, complete}
use nodehub.Node.Assembly.{
  GatewayConfig, proxy_component, grpc_component, metrics_component, metrics_entry,
  gateway_components, gateway_grpc, served_grpc, new_gateway_node,
}
use nodehub.Rpc
use nodehub.Rpc.{
  Listener, GrpcServer, new_grpc_server, bind_grpc_server, set_endpoint, register_service, describe,
  values,
}
use nodehub.Node.Assembly.Services.{
  Setting, to_options, Named, Fresh, new_node-Fresh, slash, gateway_services,
  gateway_services-IsDesc, announcing, served, served-services, start,
}

module _ (hostname : String → Option String) (is_unspecified : String → Bool) where
  -- The entry is valid, and holds the entrance and the two services.
  abbrev pub Publishes : String → NodeEntry → Type 0
  Publishes e entry =
      (validate hostname is_unspecified entry ≡ none)
      × (entry.entrance ≡ e)
      × (entry.grpc.services ≡ gateway_services)

  completed-Publishes :
      (gs : GrpcServer) (entry : NodeEntry) (e m : String)
      → ulid_time entry.id ≢ 0
      → entry.name ≡ "gateway"
      → entry.state ≢ ""
      → values gs.services ≡ gateway_services
      → (Rpc.complete_node_entry gs entry).grpc.endpoint ≢ ""
      → IsEntrance hostname is_unspecified e
      → Publishes e
          (record (Rpc.complete_node_entry gs (record entry { entrance = e })) { metrics = m })
  unfolding Rpc.complete_node_entry
  completed-Publishes gs entry e m i n s v p h = (
    (validate_iff hostname is_unspecified _).1 (record {
      has_id = i;
      has_name = λ z. cc;
      has_state = s;
      has_grpc = inr (p, rw v gateway_services-IsDesc);
      has_entrance = h;
    }),
    refl,
    v,
  )

  components-Publishes :
      (gs : GrpcServer) (entry : NodeEntry) (e addr : String) (f g : Option String)
      → ulid_time entry.id ≢ 0
      → entry.name ≡ "gateway"
      → entry.state ≢ ""
      → values gs.services ≡ gateway_services
      → (Rpc.complete_node_entry gs entry).grpc.endpoint ≢ ""
      → IsEntrance hostname is_unspecified e
      → Publishes e (complete (gateway_components (announcing e f) g gs addr) entry)
  unfolding gateway_components complete proxy_component grpc_component metrics_component
      metrics_entry Rpc.complete_node_entry
  components-Publishes gs entry e addr f g i n s v p h =
      if-cases
        (λ cs.
          Publishes e
            (complete (proxy_component (announcing e f) ∷ grpc_component g gs ∷ cs) entry))
        (addr == "") [] (metrics_component addr ∷ [])
        (λ _. completed-Publishes gs entry e entry.metrics i n s v p h)
        (λ _. completed-Publishes gs entry e _ i n s v p h)

Has-Misses : (o : Options) → Has o → Misses o → ⊥
Has-Misses o (t, i, b, m) (inl e) = t e
Has-Misses o (t, i, b, m) (inr (inl e)) = i e
Has-Misses o (t, i, b, m) (inr (inr (inl e))) = b e
Has-Misses o (t, i, b, m) (inr (inr (inr e))) = m e

made :
    (slashed : String → String) (id : ℕ) (registry : Publisher) (config : GatewayConfig)
    (current : GrpcServer → GrpcServer) (failure : Option String) (t : Transporter)
    → Has (Options.apply_options config.options new_options)
    → (Options.apply_options config.options new_options).transporter ≡ some t
    → new_gateway_node slashed id registry config current failure
      ≡ some (
          add_component (new_node id "gateway" registry config.node_options) (
            gateway_components t failure
              (current (gateway_grpc slashed config))
              config.metrics_listen))
unfolding new_gateway_node
made slashed id registry config current failure t h z =
    elim (new_proxy-registered config.options registry) [
      | inl (_, q) ↦ rw (q, new_gateway_node, z) refl
      | inr (m, _) ↦ absurd (Has-Misses (Options.apply_options config.options new_options) h m)
    ]

-- A gateway node cannot be made exactly where the options of its proxy lack a transporter, an
-- initializer, an event bus or a multicast subscriber: the registry is always that of the node.
pub new_gateway_node_panics_iff :
    (slashed : String → String) (id : ℕ) (registry : Publisher) (config : GatewayConfig)
    (current : GrpcServer → GrpcServer) (failure : Option String)
    → (new_gateway_node slashed id registry config current failure ≡ none)
      ↔ Misses (Options.apply_options config.options new_options)
unfolding new_gateway_node
new_gateway_node_panics_iff slashed id registry config current failure =
    let o = Options.apply_options config.options new_options in
    elim (new_proxy-registered config.options registry) [
      | inr (m, (e, q, n)) ↦ rw (q, new_gateway_node) ((λ _. m), (λ _. refl))
      | inl (h, q) ↦ elim (Option-cases o.transporter) [
        | inl z ↦ absurd (h.0 z)
        | inr (t, z) ↦ (
          (λ e. cc (sym (made slashed id registry config current failure t h z) ∙ e)),
          (λ m. absurd (Has-Misses o h m)),
        )
      ]
    ]

module _ (hostname : String → Option String) (is_unspecified : String → Bool)
    (cut_prefix : String → String → Option String) (net_listen : String → String → Option Listener)
    (unix_path : String → String) (is_unspecified_port : String → Bool) where
  -- A gateway node whose options hold what a proxy needs, with a transporter that publishes an
  -- entrance at a host that is not an unspecified address, under an identity, with states that are
  -- not empty, and with an endpoint once its gRPC server is started: the node is made, and the
  -- entry that it then puts into the registry is valid, has that entrance, and offers exactly the
  -- services of the gateway and of the node.
  pub new_gateway_node-Publishes :
      (id : ℕ) (registry : Publisher) (settings : List Setting) (config : GatewayConfig)
      (e : String) (f g : Option String)
      → let o = Options.apply_options config.options new_options in
        let gs = served cut_prefix net_listen unix_path is_unspecified_port config in
        let node = new_node id "gateway" registry config.node_options in
        config.node_options ≡ to_options settings
        → All Named settings
        → ulid_time id ≢ 0
        → Has o
        → o.transporter ≡ some (announcing e f)
        → (Rpc.complete_node_entry gs node.entry).grpc.endpoint ≢ ""
        → IsEntrance hostname is_unspecified e
        → (n : Node) × (new_gateway_node slash id registry config
              (served_grpc slash (start cut_prefix net_listen unix_path is_unspecified_port))
              g
            ≡ some n)
          × Publishes hostname is_unspecified e (get_entry n)
  unfolding new_gateway_node add_component get_entry
  new_gateway_node-Publishes id registry settings config e f g k a i h t p u =
      let gs = served cut_prefix net_listen unix_path is_unspecified_port config in
      let node = new_node id "gateway" registry config.node_options in
      let fresh : Fresh id node =
        subst (λ os. Fresh id (new_node id "gateway" registry os)) (sym k)
          (new_node-Fresh id registry settings a) in
      (
        _,
        made slash id registry config
            (served_grpc slash (start cut_prefix net_listen unix_path is_unspecified_port)) g
            (announcing e f) h t,
        appended-Publishes node.components _ node.entry e fresh.empty (
            components-Publishes hostname is_unspecified gs node.entry e config.metrics_listen f g
              (rw fresh.same_id i) fresh.same_name fresh.has_state
              (served-services cut_prefix net_listen unix_path is_unspecified_port config) p u),
      )
    where
      appended-Publishes :
          (ms cs : List Component) (entry : NodeEntry) (e : String)
          → ms ≡ []
          → Publishes hostname is_unspecified e (complete cs entry)
          → Publishes hostname is_unspecified e (complete (ms ++ cs) entry)
      appended-Publishes ms cs entry e z x = rw z x
