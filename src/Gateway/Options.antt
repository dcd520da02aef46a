-- ===== src/Gateway/Options.antt =====
-- component/gateway/options.go, and the construction of a Proxy in proxy.go.
pub mod Required
use nodehub.Base.{
  ℕ, ◌+◌, ◌-◌, ◌*◌, ◌^◌, String, Option, none, some, List, [], ◌∷◌, Outcome, ok, err, ltb,
  if◌then◌else◌,
}
use nodehub.Base.Int.{ℤ, pos, negsuc, two63}
use nodehub.Base.Map.{Map}
use nodehub.Cluster.Entry.{NodeEntry}
use nodehub.Cluster.Publish.{Publisher}

-- A transporter: what it makes of an entry, and the error of its Serve.
pub record Transporter : Type 0 where
  pub complete_node_entry : NodeEntry → NodeEntry
  pub serve : Option String

-- A value that the options only keep is a number.
abbrev pub Handle : Type 0
Handle = ℕ

-- An interceptor: the default one, or that of an option, which may be nil.
pub data Interceptor : Type 0 where
  default_interceptor : Interceptor
  given : Option Handle → Interceptor

-- Durations are in nanoseconds.
pub record Options : Type 0 where
  pub transporter : Option Transporter
  pub initializer : Option Handle
  pub registry : Option Publisher
  pub event_bus : Option Handle
  pub multicast : Option Handle
  pub request_logger : Option Handle
  pub go_pool : Option Handle
  pub keepalive_interval : ℕ
  pub request_timeout : ℕ
  pub request_interceptor : Interceptor
  pub connect_interceptor : Interceptor
  pub disconnect_interceptor : Interceptor

abbrev pub second : ℕ
second = 10 ^ 9

unfoldable pub new_options : Options
new_options = record {
  transporter = none;
  initializer = none;
  registry = none;
  event_bus = none;
  multicast = none;
  request_logger = none;
  go_pool = none;
  keepalive_interval = 60 * second;
  request_timeout = 5 * second;
  request_interceptor = default_interceptor;
  connect_interceptor = default_interceptor;
  disconnect_interceptor = default_interceptor;
}

pub data OptionError : Type 0 where
  registry_nil transporter_nil initializer_nil event_bus_nil multicast_nil : OptionError

-- `opt == nil`, as an error.
abbrev pub required {ℓ} :
    {A : Type ℓ} → Option A → OptionError → Option OptionError → Option OptionError
required none e next = some e
required (some a) e next = next

unfoldable pub validate : Options → Option OptionError
validate opt = required opt.registry registry_nil (
    required opt.transporter transporter_nil (
      required opt.initializer initializer_nil
        (required opt.event_bus event_bus_nil (required opt.multicast multicast_nil none))))

abbrev pub ProxyOption : Type 0
ProxyOption = Options → Options

unfoldable pub with_registry : Option Publisher → ProxyOption
with_registry registry opt = record opt { registry = registry }

unfoldable pub with_transporter : Option Transporter → ProxyOption
with_transporter transporter opt = record opt { transporter = transporter }

unfoldable pub with_initializer : Option Handle → ProxyOption
with_initializer initializer opt = record opt { initializer = initializer }

unfoldable pub with_request_interceptor : Option Handle → ProxyOption
with_request_interceptor interceptor opt = record opt { request_interceptor = given interceptor }

unfoldable pub with_connect_interceptor : Option Handle → ProxyOption
with_connect_interceptor interceptor opt = record opt { connect_interceptor = given interceptor }

unfoldable pub with_disconnect_interceptor : Option Handle → ProxyOption
with_disconnect_interceptor interceptor opt = record opt {
  disconnect_interceptor = given interceptor;
}

unfoldable pub with_event_bus : Option Handle → ProxyOption
with_event_bus bus opt = record opt { event_bus = bus }

unfoldable pub with_multicast : Option Handle → ProxyOption
with_multicast multicast opt = record opt { multicast = multicast }

unfoldable pub with_request_logger : Option Handle → ProxyOption
with_request_logger logger opt = record opt { request_logger = logger }

unfoldable pub with_go_pool : Option Handle → ProxyOption
with_go_pool pool opt = record opt { go_pool = pool }

-- `time.Duration.Abs`: the least int64 becomes the greatest.
unfoldable pub duration_abs : ℤ → ℕ
duration_abs (pos n) = n
duration_abs (negsuc n) = if ltb (n + 1) two63 then n + 1 else two63 - 1

unfoldable pub with_keepalive_interval : ℤ → ProxyOption
with_keepalive_interval interval opt = record opt { keepalive_interval = duration_abs interval }

unfoldable pub with_request_timeout : ℤ → ProxyOption
with_request_timeout timeout opt = record opt { request_timeout = duration_abs timeout }

unfoldable pub apply_options : List ProxyOption → ProxyOption
apply_options [] opt = opt
apply_options (fn ∷ options) opt = apply_options options (fn opt)

unfoldable pub checked : Options → Outcome OptionError Options
checked opt = elim (validate opt) [ some e ↦ err e | none ↦ ok opt ]

-- The options of NewProxy; the rest of a proxy starts empty.
unfoldable pub new_proxy : List ProxyOption → Outcome OptionError Options
new_proxy options = checked (apply_options options new_options)
