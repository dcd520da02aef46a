-- ===== src/Rpc/Tests.antt =====
-- A server with two services, one of which is refused, that is started.
use nodehub.Base.{
  ◌≡◌, refl, String, Option, none, some, List, [], ◌∷◌, Bool, true, false, ◌==◌, string_eq,
}
use nodehub.Base.Int.{ℤ, pos, int_eq}
use nodehub.Cluster.Entry.{auto_allocate}
use nodehub.Rpc.{
  Listener, GrpcServer, ServiceOption, with_public, with_stateful, with_allocation, new_listener,
  listening, addr_from_listener, start,
}

abbrev slashed : String → String
slashed name = "/path"

abbrev services : List (ℤ × (String × List ServiceOption))
services =
    (pos 1, ("chat", with_public ∷ with_stateful ∷ []))
    ∷ (pos 1, ("room", with_allocation auto_allocate ∷ []))
    ∷ []

abbrev pub cut_prefix : String → String → Option String
cut_prefix text prefix = none

abbrev pub net_listen : String → String → Option Listener
net_listen network address = some (record { network = network; address = address })

abbrev pub unix_path : String → String
unix_path path = "unix:/path"

abbrev is_unspecified : String → Bool
is_unspecified text = text == "0.0.0.0:9000"

abbrev server : GrpcServer
server = record {
  listen = "10.0.0.5:9000";
  endpoint = "";
  listener = none;
  services = [];
  served = [];
  serving = false;
}

abbrev started : GrpcServer
started = record server {
  listener = some (record { network = "tcp"; address = "10.0.0.5:9000" });
  serving = true;
}

start-server : start cut_prefix net_listen unix_path is_unspecified server ≡ (started, none)
unfolding start listening new_listener addr_from_listener
start-server = refl
