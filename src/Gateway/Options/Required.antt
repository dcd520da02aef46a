-- ===== src/Gateway/Options/Required.antt =====
-- Which options a gateway cannot do without.
use nodehub.Base.{
  ◌≡◌, ◌≢◌, ◌⊎◌, refl, ap, ◌∙◌, Option, none, some, List, [], ◌∷◌, ◌++◌, ok, err, inl, inr,
}
use nodehub.Cluster.Publish.{Publisher}
use nodehub.Gateway.Options.{
  Options, new_options, validate, ProxyOption, with_registry, apply_options, new_proxy, checked,
  OptionError, registry_nil, transporter_nil, initializer_nil, event_bus_nil, multicast_nil,
  required, Handle, Transporter,
}

pub apply_options-append :
    (options later : List ProxyOption) (opt : Options)
    → apply_options (options ++ later) opt ≡ apply_options later (apply_options options opt)
unfolding apply_options
apply_options-append [] later opt = refl
apply_options-append (fn ∷ options) later opt = apply_options-append options later (fn opt)

-- One of the four options that only the caller can give is missing.
abbrev pub Misses : Options → Type 0
Misses o =
    (o.transporter ≡ none) ⊎ (o.initializer ≡ none) ⊎ (o.event_bus ≡ none) ⊎ (o.multicast ≡ none)

-- All four are there.
abbrev pub Has : Options → Type 0
Has o =
    (o.transporter ≢ none) × (o.initializer ≢ none) × (o.event_bus ≢ none) × (o.multicast ≢ none)

validate-with_registry :
    (r : Publisher) (o : Options)
    → ((validate (with_registry (some r) o) ≡ none) × Has o)
      ⊎ (Misses o
          × ((e : OptionError) × (validate (with_registry (some r) o) ≡ some e)
              × (e ≢ registry_nil)))
unfolding validate with_registry
validate-with_registry r o = by_options o.transporter o.initializer o.event_bus o.multicast
  where
    by_options :
        (t : Option Transporter) (i b m : Option Handle)
        → let v = required (some r) registry_nil (
            required t transporter_nil (
              required i initializer_nil
                (required b event_bus_nil (required m multicast_nil none)))) in
          ((v ≡ none) × ((t ≢ none) × (i ≢ none) × (b ≢ none) × (m ≢ none)))
          ⊎ (((t ≡ none) ⊎ (i ≡ none) ⊎ (b ≡ none) ⊎ (m ≡ none))
              × ((e : OptionError) × (v ≡ some e) × (e ≢ registry_nil)))
    by_options none i b m = inr (inl refl, (transporter_nil, refl, λ e. cc))
    by_options (some t) none b m = inr (inr (inl refl), (initializer_nil, refl, λ e. cc))
    by_options (some t) (some i) none m = inr (inr (inr (inl refl)), (event_bus_nil, refl, λ e. cc))
    by_options (some t) (some i) (some b) none =
        inr (inr (inr (inr refl)), (multicast_nil, refl, λ e. cc))
    by_options (some t) (some i) (some b) (some m) =
        inl (refl, ((λ e. cc), (λ e. cc), (λ e. cc), λ e. cc))

-- Options behind which the registry is set: the proxy is made, with these options and this
-- registry, where they hold a transporter, an initializer, an event bus and a multicast
-- subscriber; where one of these is missing it is refused, and never for the registry.
pub new_proxy-registered :
    (options : List ProxyOption) (r : Publisher)
    → let o = apply_options options new_options in
      let made = new_proxy (options ++ with_registry (some r) ∷ []) in
      (Has o × (made ≡ ok (record o { registry = some r })))
      ⊎ (Misses o × ((e : OptionError) × (made ≡ err e) × (e ≢ registry_nil)))
unfolding new_proxy apply_options with_registry checked
new_proxy-registered options r =
    let o = apply_options options new_options in
    let added =
      ap checked (apply_options-append options (with_registry (some r) ∷ []) new_options) in
    elim (validate-with_registry r o) [
      | inl (v, h) ↦ inl (h, added ∙ rw (v, checked) refl)
      | inr (m, (e, v, n)) ↦ inr (m, (e, added ∙ rw (v, checked) refl, n))
    ]
