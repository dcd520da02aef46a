-- ===== src/Gateway.antt =====
-- component/gateway: the gateway node between the clients and the cluster.
pub mod StateTable
pub mod Tcp
pub mod Quic
pub mod Websocket
pub mod Options
pub mod Transport
pub mod Proxy
pub mod SessionHub
pub mod Lifecycle
pub mod Requests
pub mod Service
pub mod Downlink
pub mod Serving
pub mod Session
pub mod Client
