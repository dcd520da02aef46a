-- ===== src/Gateway/Client/Dial.antt =====
-- client.New and client.NewQUIC: which connection a URL stands for; and the way back from the
-- entrance that a gateway publishes.
use nodehub.Base.{
  ◌≡◌, refl, String, Option, none, some, Bool, ◌==◌, string_eq, if◌then◌else◌, Outcome, ok, err,
}
use Prim.Native.String.{◌++◌ as str_append}
use nodehub.Cluster.Entry.{NodeEntry}
use nodehub.Gateway.Transport.{
  Url, tcp_entry, quic_entry, ws_entry, new_tcp_server, new_quic_server, new_ws_server,
}

pub data Connection : Type 0 where
  tcp_conn quic_conn ws_conn : String → Connection

pub data DialError : Type 0 where
  parse_failed dial_failed : DialError
  unsupported_scheme : String → DialError

-- Parameters: `url.Parse`, and which connections can be made.
module _ (url_parse : String → Option Url) (reaches : Connection → Bool) where
  unfoldable pub connect : Connection → Outcome {0, 0} DialError Connection
  connect c = if reaches c then ok c else err dial_failed

  unfoldable pub new_client : String → Outcome {0, 0} DialError Connection
  new_client dial_url = elim (url_parse dial_url) [
    | none ↦ err parse_failed
    | some l ↦
        if l.scheme == "tcp"
        then connect (tcp_conn l.host)
        else if l.scheme == "ws"
        then connect (ws_conn dial_url)
        else err (unsupported_scheme l.scheme)
  ]

  unfoldable pub new_quic_client : String → Outcome {0, 0} DialError Connection
  new_quic_client dial_url = elim (url_parse dial_url) [
    | none ↦ err parse_failed
    | some l ↦
        if l.scheme == "quic" then connect (quic_conn l.host) else err (unsupported_scheme l.scheme)
  ]

  -- `url.Parse` splits the entrance of an address into the scheme and the address, and reads what
  -- `URL.String` prints.
  pub record Reads (url_string : Url → String) (addr path : String) : Type 0 where
    pub tcp_url :
        url_parse (str_append "tcp://" addr)
        ≡ some (record { scheme = "tcp"; host = addr; path = "" })
    pub quic_url :
        url_parse (str_append "quic://" addr)
        ≡ some (record { scheme = "quic"; host = addr; path = "" })
    pub ws_url :
        let u : Url = record { scheme = "ws"; host = addr; path = path } in
        url_parse (url_string u) ≡ some u

  -- Where URLs are read as they are printed: a client that is given the entrance in the entry of a
  -- gateway connects over the gateway's own transport and to the gateway's own address, if that can
  -- be reached, and otherwise fails to dial; only the entrance of a QUIC gateway is refused by New, and has to go to NewQUIC.
  pub new_client-entry :
      (url_string : Url → String) (addr path : String) (entry : NodeEntry)
      → Reads url_string addr path
      → let over_tcp = (tcp_entry (new_tcp_server addr) entry).entrance in
        let over_ws = (ws_entry url_string (new_ws_server addr path) entry).entrance in
        let over_quic = (quic_entry (new_quic_server addr) entry).entrance in
        (new_client over_tcp
          ≡ (if reaches (tcp_conn addr) then ok (tcp_conn addr) else err dial_failed))
        × (new_client over_ws
            ≡ (if reaches (ws_conn over_ws) then ok (ws_conn over_ws) else err dial_failed))
        × (new_client over_quic ≡ err (unsupported_scheme "quic"))
        × (new_quic_client over_quic
            ≡ (if reaches (quic_conn addr) then ok (quic_conn addr) else err dial_failed))
        × (new_quic_client over_tcp ≡ err (unsupported_scheme "tcp"))
        × (new_quic_client over_ws ≡ err (unsupported_scheme "ws"))
  unfolding connect new_client new_quic_client tcp_entry ws_entry quic_entry new_tcp_server
      new_ws_server new_quic_server
  new_client-entry url_string addr path entry r = (
    rw (r.tcp_url, new_client) refl,
    rw (r.ws_url, new_client) refl,
    rw (r.quic_url, new_client) refl,
    rw (r.quic_url, new_quic_client) refl,
    rw (r.tcp_url, new_quic_client) refl,
    rw (r.ws_url, new_quic_client) refl,
  )
