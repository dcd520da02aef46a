-- ===== src/Gateway/SessionHub/Tests.antt =====
-- Runs of the session hub.
use nodehub.Base.{[], false, nat_eq, string_eq}
use nodehub.Gateway.SessionHub.{HubSession, SessionHub}

abbrev hub : SessionHub
hub = record { sessions = []; closed = false; hung_up = [] }

abbrev old_alice : HubSession
old_alice = record { object = 1; id = "alice" }

abbrev new_alice : HubSession
new_alice = record { object = 2; id = "alice" }
