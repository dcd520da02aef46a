-- ===== src/Gateway/Downlink/Tests.antt =====
-- A message to two users, one of whom is connected.
use nodehub.Base.{none, [], ◌∷◌, false}
use nodehub.Base.Int.{pos}
use nodehub.Gateway.SessionHub.{HubSession, SessionHub}
use nodehub.Multicast.{Message}

abbrev alice : HubSession
alice = record { object = 1; id = "alice" }

abbrev hub : SessionHub
hub = record { sessions = ("alice", alice) ∷ []; closed = false; hung_up = [] }

abbrev news : Message
news = record {
  receiver = "alice" ∷ "bob" ∷ [];
  to_everyone = false;
  stream = "";
  time = none;
  service_code = pos 1;
  code = pos 2;
  payload = [];
}
