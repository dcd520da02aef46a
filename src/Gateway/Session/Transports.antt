-- ===== src/Gateway/Session/Transports.antt =====
-- The sessions of the three transports are sessions for the proxy.
use nodehub.Base.{◌≡◌, refl, Bool, true, false}
use nodehub.Gateway.Quic
use nodehub.Gateway.Quic.{QuicSession}
use nodehub.Gateway.Session.{Session}
use nodehub.Gateway.Tcp
use nodehub.Gateway.Tcp.{TcpSession}
use nodehub.Gateway.Websocket
use nodehub.Gateway.Websocket.{WsSession}

pub ts_closes : (b : Bool) (ts : TcpSession) → (Tcp.close (record ts { closed = b })).closed ≡ true
unfolding Tcp.close
ts_closes true ts = refl
ts_closes false ts = refl

pub ts_closes_once :
    (b : Bool) (ts : TcpSession)
    → let s = record ts { closed = b } in Tcp.close (Tcp.close s) ≡ Tcp.close s
unfolding Tcp.close
ts_closes_once true ts = refl
ts_closes_once false ts = refl

pub ts_keeps_time :
    (b : Bool) (ts : TcpSession) → (Tcp.close (record ts { closed = b })).last_rw ≡ ts.last_rw
unfolding Tcp.close
ts_keeps_time true ts = refl
ts_keeps_time false ts = refl

instance unfoldable pub tcp_session : Session TcpSession
tcp_session = record {
  close = Tcp.close;
  is_closed = λ ts. ts.closed;
  last_rw = λ ts. ts.last_rw;
  close-closed = λ ts. ts_closes ts.closed ts;
  close_again = λ ts. ts_closes_once ts.closed ts;
  close-last_rw = λ ts. ts_keeps_time ts.closed ts;
}

pub ws_closes :
    (b : Bool) (ws : WsSession) → (Websocket.close (record ws { closed = b })).closed ≡ true
unfolding Websocket.close
ws_closes true ws = refl
ws_closes false ws = refl

pub ws_closes_once :
    (b : Bool) (ws : WsSession)
    → let s = record ws { closed = b } in Websocket.close (Websocket.close s) ≡ Websocket.close s
unfolding Websocket.close
ws_closes_once true ws = refl
ws_closes_once false ws = refl

pub ws_keeps_time :
    (b : Bool) (ws : WsSession) → (Websocket.close (record ws { closed = b })).last_rw ≡ ws.last_rw
unfolding Websocket.close
ws_keeps_time true ws = refl
ws_keeps_time false ws = refl

instance unfoldable pub ws_session : Session WsSession
ws_session = record {
  close = Websocket.close;
  is_closed = λ ws. ws.closed;
  last_rw = λ ws. ws.last_rw;
  close-closed = λ ws. ws_closes ws.closed ws;
  close_again = λ ws. ws_closes_once ws.closed ws;
  close-last_rw = λ ws. ws_keeps_time ws.closed ws;
}

pub qs_closes :
    (b : Bool) (qs : QuicSession) → (Quic.close (record qs { closed = b })).closed ≡ true
unfolding Quic.close
qs_closes true qs = refl
qs_closes false qs = refl

pub qs_closes_once :
    (b : Bool) (qs : QuicSession)
    → let s = record qs { closed = b } in Quic.close (Quic.close s) ≡ Quic.close s
unfolding Quic.close
qs_closes_once true qs = refl
qs_closes_once false qs = refl

pub qs_keeps_time :
    (b : Bool) (qs : QuicSession) → (Quic.close (record qs { closed = b })).last_rw ≡ qs.last_rw
unfolding Quic.close
qs_keeps_time true qs = refl
qs_keeps_time false qs = refl

instance unfoldable pub quic_session : Session QuicSession
quic_session = record {
  close = Quic.close;
  is_closed = λ qs. qs.closed;
  last_rw = λ qs. qs.last_rw;
  close-closed = λ qs. qs_closes qs.closed qs;
  close_again = λ qs. qs_closes_once qs.closed qs;
  close-last_rw = λ qs. qs_keeps_time qs.closed qs;
}
