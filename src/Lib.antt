-- ===== src/Lib.antt =====
-- nodehub is a framework for game servers: nodes that offer gRPC services publish themselves in
-- etcd, a gateway keeps the clients' sessions and forwards their requests to the nodes.
--
-- The parts that are modelled, and where:
--   internal/codec/message.go      Codec: the frames of the client protocol. `send_bytes` is
--     SendBytes, `read_message` ReadMessage, cut at the reads of the stream (`read_sized`,
--     `read_data`); Codec/Pool has the pool of messages.
--   component/gateway/tcp.go       Gateway/Tcp: `recv` is tcpSession.Recv, over the codec.
--   component/gateway/websocket.go Gateway/Websocket: a session, on the frames of its connection.
--   component/gateway/quic.go      Gateway/Quic: a session with its streams. `Reach` is how the
--     goroutines of handleRequest, Recv and Close interleave; `pick` and `send` are Pick and Send.
--   component/gateway/{tcp,websocket,quic}.go  Gateway/Transport: the constructors of the servers,
--     their entries and their accept loops. component/gateway/client: Gateway/Client/Dial has New
--     and NewQUIC, which go the way back from an entry to a connection.
--   component/gateway/proxy.go     Gateway/Session: what the proxy asks of a session of any
--     transport (Gateway/Session/Transports has the three), and `reap`, a round of removeZombie.
--   component/gateway/options.go   Gateway/Options: the options, Validate and NewProxy.
--   component/gateway/state.go     Gateway/StateTable: which node a session's service is on.
--   component/gateway/proxy.go     Gateway/SessionHub: the type SessionHub. Gateway/Lifecycle:
--     onConnect, onDisconnect with its clean-up job, and the events of the cluster, as steps of a
--     gateway. Gateway/Requests: handleRequest, cut at its early returns into `screened`,
--     `dispatch`, `forward` and `invoke`. Gateway/Proxy: getUpstream, cut at its label FINISH into
--     `choose` and `finish`; what it defers is in `finished`. Gateway/Downlink: the messages of
--     the multicast bus, removeZombie, the loop of handleSession and handleRequestStream.
--     Gateway/Serving: the course of every session through Start and handleSession, and the counter.
--   component/gateway/grpc.go      Gateway/Service: the methods of gwService, over the session
--     hub and the state table of the proxy.
--   component/gateway/client       Gateway/Client: the calls of a client and their replies.
--     Gateway/Client/Wire has the connections: `tcp_send` and `reply_stream` are tcpConn's send and
--     replyStream, whose other end is Gateway/Tcp, and `quic_send` is quicConn's send.
--   component/rpc/grpc_server.go   Rpc: the services of a node, and the entry that they make.
--     Rpc/Interceptors: interceptors.go, error.go and context.go, around a handler.
--   proto/nh/helper.go             Protocol: the types of replies, and how they are packed.
--   event/events.go, event/bus.go  EventBus: the names of events, and who is handed which.
--     EventBus/Stream: the messages of the queue, the subscribed handlers and Observable.
--   multicast/bus.go               Multicast: `publish` is Publish; `step` is what the goroutine of
--     Subscribe and its workers do, and the workers of handleRequestStream too.
--   node.go, node_service.go       Node: components, Serve (a relation, since components stop side
--     by side) and the state of the node. Node/Assembly: NewGatewayNode, with the components that it
--     puts together.
--   cluster/entry.go               Cluster/Entry: what a node publishes, and its checks.
--   cluster/balancer.go            Cluster/Balancer: NewBalancer and the policies; Pick has the
--     methods Pick of all of them.
--   cluster/resolver.go            Cluster/Resolver: Update and Remove keep the tables of nodes
--     and balancers; Query has the methods that ask them.
--   cluster/registry.go            Cluster/Registry: the functions of runWatcher that its lock
--     protects. `apply` takes an event of etcd, `resync` an answer of its Get; both drive the
--     resolver's Update and Remove. Cluster/Watch: the loop around them, with its retries, and the
--     getters. Cluster/Publish: Put, its lease, and Close.
-- A node registers its services with its RPC server, which completes the entry that the node
-- publishes by Put. The watch of the other nodes' registries brings it to their resolvers. The
-- gateway asks its resolver for a node, which asks the balancer that the last update of the
-- service made; the node is kept in the state table for a service with state, where the nodes
-- may set and replace it through the gateway's own service.
--
-- Conventions. A ULID is the number its bytes spell. Go's maps are association lists whose order
-- is the order of Range. `int` has 64 bits, and its arithmetic wraps (Base/Int). A panic is a
-- value: `panic` of an Outcome, or `none`. Third-party functions (xxhash, net, net/url, net/netip,
-- path.Join, strings.ToLower, the encoders and decoders of protobuf and JSON, the text of a ULID,
-- status.FromError, grpc.NewClient) are parameters. What callbacks, etcd, sessions and components
-- answer, the draw of math/rand and the time are arguments. A locked method is one step; so are
-- onConnect and onDisconnect, whose calls into other code are not interleaved with other events.
--
-- Fuel: the loop of Recv takes as much as the model is given; each round that goes on takes four
-- bytes at least, so more fuel than bytes is enough.
--
-- Not modelled: the goroutines of the client's connections over QUIC and WebSocket, the HTTP
-- server of the WebSocket transport, the queues behind the buses, generated code, metrics, logging
-- and the examples.
pub mod Base
pub mod Cluster
pub mod Codec
pub mod EventBus
pub mod Gateway
pub mod Multicast
pub mod Node
pub mod Protocol
pub mod Rpc
