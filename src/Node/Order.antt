-- ===== src/Node/Order.antt =====
-- The order of the calls of Serve.
use nodehub.Base.{
  All-append, append_assoc, append_nil, ℕ, ◌≡◌, ◌≢◌, refl, sym, ap, ◌∙◌, String, Option, none, some,
  List, [], ◌++◌, Bool, true,
}
use nodehub.Cluster.Entry.{NodeEntry}
use nodehub.Node.{
  Component, Call, Node, NodeError, start_each, start_all, inject_service, stop_each, Serves,
  not_started, not_registered, served,
}
use nodehub.Node.Starts.{
  Started, start_each-Started, Stops, NoStops, Interleaves-All, stop_each-Stops, Started-NoStops,
  inject_service-NoStops,
}
use nodehub.Cluster.Publish.{close_registry}
use nodehub.Node.{retire}

-- The whole of what Serve calls: the node's service is registered first, then the components are
-- started in order until one fails; calls that stop components follow only where all have started.
pub record Ordered (n : Node) (trace : List Call) (after : Node) (r : Option NodeError)
    : Type 0 where
  pub starting : List Call
  pub stopping : List Call
  pub failed : Option NodeError
  pub whole : trace ≡ inject_service n.components ++ (starting ++ stopping)
  pub started : Started n.components starting failed
  pub no_stops : NoStops (inject_service n.components ++ starting)
  pub only_stops : Stops stopping
  pub unstopped : r ≢ none → stopping ≡ []
  pub closed : r ≡ none → (failed ≡ none) × (after.registry.client_closed ≡ true)

starts-NoStops : (n : Node) → NoStops (inject_service n.components ++ (start_each n.components).0)
starts-NoStops n =
    All-append _ (inject_service n.components) (start_each n.components).0
      (inject_service-NoStops n.components)
      (Started-NoStops n.components (start_each n.components).0 (start_each n.components).1
        (start_each-Started n.components))

start_all-cases :
    (components : List Component) (trace : List Call) (r : Option NodeError)
    → start_all components ≡ (trace, r)
    → (trace ≡ inject_service components ++ (start_each components).0)
      × ((start_each components).1 ≡ r)
unfolding start_all
start_all-cases components trace r h = (sym (ap (λ p. p.0) h), ap (λ p. p.1) h)

module _ (hostname : String → Option String) (is_unspecified : String → Bool)
    (encodes : NodeEntry → Bool) (key : ℕ → String) where
  -- However Serve ends: it first registers the node's own service, and then starts the components
  -- in the order in which they were added, until one fails; on an error of its own it stops no
  -- component, those that have started neither; without one, all have started, only calls that
  -- stop components follow, and the client of the registry is closed in the end.
  pub Serves-Ordered :
      (n : Node) (trace : List Call) (after : Node) (r : Option NodeError)
      → Serves hostname is_unspecified encodes key n trace after r
      → Ordered n trace after r
  unfolding retire close_registry
  Serves-Ordered n trace after r (not_started t e h) =
      let (w, f) = start_all-cases n.components t (some e) h in
      record {
        starting = (start_each n.components).0;
        stopping = [];
        failed = (start_each n.components).1;
        whole =
            w
            ∙ sym (
                ap (λ x. inject_service n.components ++ x)
                  (append_nil (start_each n.components).0));
        started = start_each-Started n.components;
        no_stops = starts-NoStops n;
        only_stops = tt;
        unstopped = λ q. refl;
        closed = λ q. cc;
      }
  Serves-Ordered n trace after r (not_registered t e s error h p) =
      let (w, f) = start_all-cases n.components t none h in
      record {
        starting = (start_each n.components).0;
        stopping = [];
        failed = (start_each n.components).1;
        whole =
            w
            ∙ sym (
                ap (λ x. inject_service n.components ++ x)
                  (append_nil (start_each n.components).0));
        started = start_each-Started n.components;
        no_stops = starts-NoStops n;
        only_stops = tt;
        unstopped = λ q. refl;
        closed = λ q. cc;
      }
  Serves-Ordered n trace after r (served t e f s stopping done revoked h p i) =
      let (w, g) = start_all-cases n.components t none h in
      record {
        starting = (start_each n.components).0;
        stopping = stopping;
        failed = (start_each n.components).1;
        whole =
            ap (λ x. x ++ stopping) w
            ∙ append_assoc (inject_service n.components) (start_each n.components).0 stopping;
        started = start_each-Started n.components;
        no_stops = starts-NoStops n;
        only_stops =
            Interleaves-All _ (stop_each n.components) stopping i (stop_each-Stops n.components);
        unstopped = λ q. absurd (q refl);
        closed = λ q. (g, refl);
      }
