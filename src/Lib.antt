-- ===== src/Lib.antt =====
-- Tunely: a tunnel from a public relay to a local server.
--
-- A client's HTTP request comes to the relay under `/t/{tunnel_id}`. The relay looks up the agent
-- that has registered that tunnel over a websocket, sends it the request as JSON control messages
-- and binary chunk frames, and answers the client from the control messages and frames that come
-- back. The agent runs beside the local server, sends it each request, and reconnects when the
-- connection ends. Websockets of clients are tunnelled over the same connection.
--
-- Files and what they model:
--
--   Prelude, Prelude/*   names of the library, Boolean tests, lemmas on lists, bytes, maps
--   External             the `http` crate: header maps, names, values and status codes
--   Protocol             crates/protocol/src/lib.rs: versions and capabilities
--   Protocol/Http        crates/protocol/src/http.rs: hop-by-hop headers
--   Protocol/Message     crates/protocol/src/message.rs: control messages
--   Protocol/Frame       crates/protocol/src/frame.rs: chunk frames and websocket payloads
--   Relay/Events         crates/relay-server/src/state.rs (events) and src/ws_wire.rs
--   Relay/State          crates/relay-server/src/state.rs: the shared tables; Relay/State/Steps runs
--                        sequences of operations on them, and Relay/State/View says what they do
--                        as functions from identifiers to entries
--   Relay/Config         crates/relay-server/src/config.rs: arguments, file and validation
--   Relay/Server         crates/relay-server/src/main.rs and src/health.rs: from the arguments to
--                        the tables and routes that are served
--   Relay/Ingress        crates/relay-server/src/ingress.rs: websocket or HTTP
--   Relay/WsSession      crates/relay-server/src/ws_session.rs: the session of one agent
--   Relay/HttpIngress    crates/relay-server/src/http_ingress.rs: one request of a client
--   Relay/WsTunnel       crates/relay-server/src/ws_tunnel.rs: one websocket of a client, whose
--                        opening is in Relay/WsTunnel/Upgrade
--   Agent/Events         crates/agent/src/relay_client.rs (channels), src/inflight.rs (table)
--   Agent/Reconnect      crates/agent/src/relay_client.rs: `backoff_with_jitter`, the attempt counter
--   Agent/Run            crates/agent/src/relay_client.rs: `run`, over whole connections
--   Agent/Handshake      crates/agent/src/relay_client.rs: `send_register`, `wait_register_ack`
--   Agent/RelayClient    crates/agent/src/relay_client.rs: the loop of `run_once`, its handlers
--   Agent/Connection     crates/agent/src/relay_client.rs: `run_once`, its ping and writer tasks
--   Agent/WsStream       crates/agent/src/relay_client.rs: the loop of `run_one_ws_stream`; the rest
--                        of it and `handle_ws_connect` are in Agent/WsStream/Connect
--   Agent/PublicUrl      crates/agent/src/relay_client.rs: `derive_public_tunnel_url`
--   Agent/LocalProxy     crates/agent/src/local_proxy.rs: addresses and headers
--   Agent/Proxy          crates/agent/src/relay_client.rs: `proxy_one_request` and its task
--   Cli                  crates/tunely/src/main.rs: help, arguments and choice of the executable
--   EchoServer           examples/echo-server/src/main.rs: the handlers and the websocket loop
--   TestClient           examples/test-client/src/main.rs: the tests, their counters, the exit code
--   Exchange/*           both ends of one HTTP request together
--   Tunnel/*             both ends of one tunnelled websocket together
--
-- A module's child modules are named for what they prove, and `Examples` holds tests and concrete
-- instances. Functions keep the names of the source. Where a property joins both ends of the
-- connection, it stands in Exchange or Tunnel, or with the end that receives:
-- Agent/RelayClient/Upload for the body of a request, Agent/Proxy/Delivery for a response,
-- Agent/Handshake for a registration, Agent/Connection/KeepAlive for pings.
--
-- How the program is modelled:
--
--   * Byte strings are lists of numbers, a text is the list of its UTF-8 bytes and a `Uuid` the list
--     of its 16 bytes, and the `u32` sequence numbers of the two upload loops wrap at 2 ^ 32. Attempt
--     counters and powers saturate at the bounds of `u32` and `u64`. A `HashMap` or `DashMap` is an
--     association list from identifiers in which a key is looked up first to last; a `HashSet` is a
--     list.
--   * A channel is a number. Whether a send succeeds, that is, whether the receiver is still there,
--     is an argument `accepts`; what a function sends is the list of channel and packet that it
--     returns, in order.
--   * State is passed on explicitly. Each operation of the shared tables is one step, and where a
--     task waits, other tasks act: their acts are a list of operations (`Relay.State.Steps.Op`), an
--     argument of the session loop and of the handler of a request.
--   * What a task reads is an argument too: the rounds of a session, a connection or a websocket, the
--     events that a request waits for with the time that has passed (before the start of the answer
--     the end of the list is the deadline, after it the client reads no further), the items of a body. Every loop of the source is then recursion on such a list, so
--     that nothing is bounded by fuel and every function is total. A loop over rounds also returns
--     whether it has ended, since the rounds may be only those so far.
--   * `serde_json`, the `http` and `url` crates, the HTTP and websocket clients, the file system and
--     `serde_yaml` are records of functions that the model takes as arguments; what is assumed of
--     them stands as a hypothesis at each theorem. What the test client relies on to reach the
--     example server is in TestClient/Carried.
--   * Log lines are left out. Texts of errors that come from libraries are arguments.
--
-- Not modelled: the agent's entry point, which parses arguments and logs; the printed and logged
-- lines; the binding of addresses and the routing of requests, which are the web framework's;
-- scripts and packaging. The upgrade to a websocket, the sockets themselves and the scheduling of
-- tasks belong to libraries: the model takes what they answer, and in which order, as arguments.
pub mod Agent
pub mod Cli
pub mod EchoServer
pub mod Exchange
pub mod External
pub mod Prelude
pub mod Protocol
pub mod Relay
pub mod TestClient
pub mod Tunnel
