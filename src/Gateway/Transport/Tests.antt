-- ===== src/Gateway/Transport/Tests.antt =====
-- The servers of a gateway on concrete addresses, and the client that finds them.
use nodehub.Base.{
  ◌≡◌, refl, String, Option, none, some, [], ◌∷◌, Bool, true, ◌==◌, string_eq, ok, err,
  if◌then◌else◌,
}
use nodehub.Cluster.Tests.{first}
use nodehub.Gateway.Transport.{
  Url, tcp_entry, quic_entry, ws_entry, new_tcp_server, new_quic_server, new_ws_server, serve_tcp,
  serve_quic, accepted, accept_failed, listener_closed, ctx_done, ws_remote_addr,
  session_remote_addr,
}
use nodehub.Gateway.Client.Dial.{
  Connection, tcp_conn, ws_conn, quic_conn, dial_failed, new_client, new_quic_client,
  unsupported_scheme, new_client-entry,
}

abbrev url_string : Url → String
url_string u = "ws://gw:80/play"

abbrev url_parse : String → Option Url
url_parse text =
    if text == "tcp://gw:80"
    then some (record { scheme = "tcp"; host = "gw:80"; path = "" })
    else if text == "quic://gw:80"
    then some (record { scheme = "quic"; host = "gw:80"; path = "" })
    else if text == "ws://gw:80/play"
    then some (record { scheme = "ws"; host = "gw:80"; path = "/play" })
    else none

abbrev reaches : Connection → Bool
reaches c = true

new_client-entry_example :
    let over_tcp = (tcp_entry (new_tcp_server "gw:80") first).entrance in
    let over_ws = (ws_entry url_string (new_ws_server "gw:80" "/play") first).entrance in
    let over_quic = (quic_entry (new_quic_server "gw:80") first).entrance in
    (new_client url_parse reaches over_tcp
      ≡ (if reaches (tcp_conn "gw:80") then ok (tcp_conn "gw:80") else err dial_failed))
    × (new_client url_parse reaches over_ws
        ≡ (if reaches (ws_conn over_ws) then ok (ws_conn over_ws) else err dial_failed))
    × (new_client url_parse reaches over_quic ≡ err (unsupported_scheme "quic"))
    × (new_quic_client url_parse reaches over_quic
        ≡ (if reaches (quic_conn "gw:80") then ok (quic_conn "gw:80") else err dial_failed))
    × (new_quic_client url_parse reaches over_tcp ≡ err (unsupported_scheme "tcp"))
    × (new_quic_client url_parse reaches over_ws ≡ err (unsupported_scheme "ws"))
new_client-entry_example =
    new_client-entry url_parse reaches url_string "gw:80" "/play" first
      (record { tcp_url = refl; quic_url = refl; ws_url = refl })

-- A failed accept ends the server of QUIC, not that of TCP.
serve-accept_failed :
    (serve_tcp (accepted 1 ∷ accept_failed ∷ accepted 2 ∷ listener_closed ∷ []) ≡ 1 ∷ 2 ∷ [])
    × (serve_quic (accepted 1 ∷ accept_failed ∷ accepted 2 ∷ ctx_done ∷ []) ≡ 1 ∷ [])
unfolding serve_tcp serve_quic
serve-accept_failed = (refl, refl)

ws_remote_addr-header :
    (ws_remote_addr true "10.0.0.1:5" "203.0.113.9" ≡ some "203.0.113.9")
    × (ws_remote_addr true "10.0.0.1:5" "" ≡ some "10.0.0.1:5")
    × (session_remote_addr "" "10.0.0.1:5" ≡ "10.0.0.1:5")
unfolding ws_remote_addr session_remote_addr
ws_remote_addr-header = (refl, refl, refl)
