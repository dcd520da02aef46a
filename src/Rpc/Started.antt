-- ===== src/Rpc/Started.antt =====
-- The endpoint that a started server publishes.
use nodehub.Base.{
  ◌≡◌, ◌≢◌, refl, ap, subst, ◌∙◌, String, Option, none, some, Bool, true, false, ◌&&◌, ◌==◌,
  string_eq, if◌then◌else◌, str_eq_iff, arith, Option-cases, inl, inr,
}
use nodehub.Cluster.Entry.{NodeEntry}
use nodehub.Rpc.{
  Listener, GrpcServer, complete_node_entry, StartError, listen_unspecified, listening,
  addr_from_listener, start,
}

module _ (cut_prefix : String → String → Option String)
    (net_listen : String → String → Option Listener) (unix_path : String → String)
    (is_unspecified : String → Bool) where
  -- The endpoint is the one that was set, or where there is none the address of the listener,
  -- which on tcp is not unspecified.
  pub record Reachable (gs after : GrpcServer) (endpoint : String) : Type 0 where
    pub at : Listener
    pub listens : after.listener ≡ some at
    pub serves : after.serving ≡ true
    pub kept : gs.endpoint ≢ "" → endpoint ≡ gs.endpoint
    pub address :
        gs.endpoint ≡ ""
        → endpoint ≡ addr_from_listener cut_prefix net_listen unix_path is_unspecified at
    pub specified : gs.endpoint ≡ "" → at.network ≡ "tcp" → is_unspecified endpoint ≡ false

  succeeded :
      (b : Bool) (failed served after : GrpcServer) (error : StartError)
      → ◌≡◌ {A = GrpcServer × Option StartError}
          (if b then (failed, some error) else (served, none))
          (after, none)
      → (b ≡ false) × (served ≡ after)
  succeeded true failed served after error h = cc (ap (λ p. p.1) h)
  succeeded false failed served after error h = (refl, ap (λ p. p.0) h)

  endpoint-listener :
      (gs : GrpcServer) (l : Listener) (text : String) (entry : NodeEntry)
      → (gs.endpoint ≢ ""
          → (complete_node_entry
              (record gs { listener = some l; listen = text; serving = true })
              entry).grpc.endpoint
            ≡ gs.endpoint)
        × (gs.endpoint ≡ ""
            → (complete_node_entry
                (record gs { listener = some l; listen = text; serving = true })
                entry).grpc.endpoint
              ≡ text)
  unfolding complete_node_entry
  endpoint-listener gs l text entry = (
    λ e. ground (arith, e, str_eq_iff gs.endpoint ""),
    λ e. ground (arith, e, str_eq_iff gs.endpoint ""),
  )

  -- Where Start succeeds, the server serves a listener, and the entry that it completes then has
  -- the endpoint that was set; or, if none was, the address of the listener, which is not an
  -- unspecified one if the listener is of tcp.
  pub start-Reachable :
      (gs after : GrpcServer) (entry : NodeEntry)
      → start cut_prefix net_listen unix_path is_unspecified gs ≡ (after, none)
      → Reachable gs after (complete_node_entry after entry).grpc.endpoint
  unfolding start
  start-Reachable gs after entry h =
      elim (Option-cases (listening cut_prefix net_listen unix_path is_unspecified gs)) [
        | inl l ↦ cc (rw (l, start) at h)
        | inr (l, e) ↦
            let text = addr_from_listener cut_prefix net_listen unix_path is_unspecified l in
            let served = record gs { listener = some l; listen = text; serving = true } in
            let (b, t) =
              succeeded (gs.endpoint == "" && l.network == "tcp" && is_unspecified text)
                (record gs { listener = some l; listen = text }) served after listen_unspecified
                (rw (e, start) at h) in
            let (k, a) = endpoint-listener gs l text entry in
            subst (λ x. Reachable gs x (complete_node_entry x entry).grpc.endpoint) t
              (record {
                at = l;
                listens = refl;
                serves = refl;
                kept = k;
                address = a;
                specified = λ z n.
                    ap is_unspecified (a z)
                    ∙ ground
                        (arith, b, z, n, str_eq_iff gs.endpoint "", str_eq_iff l.network "tcp");
              })
      ]
