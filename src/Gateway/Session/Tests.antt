-- ===== src/Gateway/Session/Tests.antt =====
-- Sessions over WebSocket and QUIC, one of each idle.
use nodehub.Base.{◌≡◌, List, [], ◌∷◌, false, arith}
use nodehub.Gateway.Session.{reap}
use nodehub.Gateway.Session.Reaped.{Reaped, reap-reap}
use nodehub.Gateway.Session.Transports.{ws_session, quic_session}
use nodehub.Gateway.Websocket.{WsSession}

abbrev sockets : List WsSession
sockets = record { closed = false; last_rw = 10 } ∷ record { closed = false; last_rw = 50 } ∷ []

reap-reap_example :
    Reaped ⦃c = ws_session⦄ 60 100 sockets (reap ⦃c = ws_session⦄ 60 100 sockets)
    × (reap ⦃c = ws_session⦄ 60 120 (reap ⦃c = ws_session⦄ 60 100 sockets)
        ≡ reap ⦃c = ws_session⦄ 60 120 sockets)
reap-reap_example = reap-reap ⦃c = ws_session⦄ 60 100 120 sockets (omega arith)
