-- ===== src/Gateway/Transport.antt =====
-- The servers of component/gateway/tcp.go, websocket.go and quic.go: the address under which each
-- is found, and how connections become sessions; and the loop of Proxy.Start that takes these.
pub mod Tests
use nodehub.Base.{
  ℕ, ◌+◌, String, Option, none, some, List, [], ◌∷◌, Bool, true, false, not, ◌==◌, string_eq,
  if◌then◌else◌, ◌++◌,
}
use Prim.Native.String.{◌++◌ as str_append}
use nodehub.Cluster.Entry.{NodeEntry}

-- A listener or a packet connection that was bound before is the text of its address.
pub record TcpServer : Type 0 where
  pub listen_addr : String
  pub listener : Option String

unfoldable pub new_tcp_server : String → TcpServer
new_tcp_server listen_addr = record { listen_addr = listen_addr; listener = none }

unfoldable pub bind_tcp_server : String → TcpServer
bind_tcp_server addr = record { listen_addr = addr; listener = some addr }

unfoldable pub tcp_entry : TcpServer → NodeEntry → NodeEntry
tcp_entry ts entry = record entry { entrance = str_append "tcp://" ts.listen_addr }

pub record QuicServer : Type 0 where
  pub listen_addr : String
  pub packet_conn : Option String

unfoldable pub new_quic_server : String → QuicServer
new_quic_server listen_addr = record { listen_addr = listen_addr; packet_conn = none }

unfoldable pub bind_quic_server : String → QuicServer
bind_quic_server addr = record { listen_addr = addr; packet_conn = some addr }

unfoldable pub quic_entry : QuicServer → NodeEntry → NodeEntry
quic_entry qs entry = record entry { entrance = str_append "quic://" qs.listen_addr }

-- The parts of net/url's URL that are set or read here.
pub record Url : Type 0 where
  pub scheme : String
  pub host : String
  pub path : String

pub record WsServer : Type 0 where
  pub url : Url
  pub listener : Option String

unfoldable pub new_ws_server : String → String → WsServer
new_ws_server listen_addr url_path = record {
  url = record { scheme = "ws"; host = listen_addr; path = url_path };
  listener = none;
}

unfoldable pub bind_ws_server : String → String → WsServer
bind_ws_server addr url_path = record {
  url = record { scheme = "ws"; host = addr; path = url_path };
  listener = some addr;
}

-- `URL.String` is a parameter.
unfoldable pub ws_entry : (Url → String) → WsServer → NodeEntry → NodeEntry
ws_entry url_string ws entry = record entry { entrance = url_string ws.url }

-- What the accept loop of a server meets: a connection, by its number; an error; the closed
-- listener; the end of the context.
pub data Accept : Type 0 where
  accepted : ℕ → Accept
  accept_failed listener_closed ctx_done : Accept

-- The connections that become sessions: one error does not end the loop of tcpServer.
unfoldable pub serve_tcp : List Accept → List ℕ
serve_tcp [] = []
serve_tcp (accepted conn ∷ events) = conn ∷ serve_tcp events
serve_tcp (accept_failed ∷ events) = serve_tcp events
serve_tcp (listener_closed ∷ events) = []
serve_tcp (ctx_done ∷ events) = []

-- Every error ends the loop of quicServer.
unfoldable pub serve_quic : List Accept → List ℕ
serve_quic [] = []
serve_quic (accepted conn ∷ events) = conn ∷ serve_quic events
serve_quic (accept_failed ∷ events) = []
serve_quic (listener_closed ∷ events) = []
serve_quic (ctx_done ∷ events) = []

-- wsServer.newSession: the address that a proxy in front of the gateway tells goes before that of
-- the connection. `none`: the upgrade failed.
unfoldable pub ws_remote_addr : Bool → String → String → Option String
ws_remote_addr upgraded remote_addr header =
    if upgraded then some (if header == "" then remote_addr else header) else none

-- wsSession.RemoteAddr
unfoldable pub session_remote_addr : String → String → String
session_remote_addr remote_addr conn_addr = if remote_addr == "" then conn_addr else remote_addr
