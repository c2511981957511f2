-- ===== src/Tunnel/Connect.antt =====
-- How a websocket is opened: `upgrade_client_ws` of crates/relay-server/src/ws_tunnel.rs asks the agent,
-- the handlers of crates/agent/src/relay_client.rs start a task, and its acknowledgement goes back.
use tunely.Prelude.{◌≡◌, refl, ap, true, none, some, [], ◌∷◌}
use tunely.Prelude.Bytes.{Text, contains}
use tunely.Prelude.Map.{lookup, insert, lookup-insert_self}
use tunely.External.{Http}
use tunely.Protocol.{cap_ws_tunnel_v1}
use tunely.Protocol.Message.{ControlMessage, Uuid}
use tunely.Agent.Events
use tunely.Agent.Events.{to_relay}
use tunely.Agent.Handshake.{IsFaithful}
use tunely.Agent.LocalProxy.{UrlLib}
use tunely.Agent.WsStream.{Sessions, apply_ops, stream_loop}
use tunely.Agent.WsStream.Connect as Stream
use tunely.Agent.WsStream.Connect.{WsLib, Phases}
use tunely.Agent.WsStream.Outcome.{ConnectsTo, chosen}
use tunely.Agent.RelayClient
use tunely.Agent.RelayClient.{
  RuntimeCtx, Tables, WsConnectRequest, handle_ws_connect, handle_control,
}
use tunely.Agent.Proxy.Replies
use tunely.Agent.Proxy.Replies.{take_replies}
use tunely.Relay.Events.{WsConnectAck, Sender, Accepts, connect_ack, send_control}
use tunely.Relay.State.{
  AppState, AgentHandle, WsPending, get_agent, add_ws_pending, remove_ws_pending,
  notify_ws_connect_ack,
}
use tunely.Relay.WsSession
use tunely.Relay.WsSession.{Session, turn, handle_text_message}
use tunely.Relay.WsTunnel.{Socket}
use tunely.Relay.WsTunnel.Upgrade.{
  Fresh, on_upgrade, flatten_ws_headers, parse_subprotocols, upgrade_client_ws,
}
use tunely.Exchange.Sending.{TakesAll, send_control-taken}
use tunely.Exchange.Failure
use tunely.Exchange.Failure.{control-taken}
use tunely.Exchange.Request.{take_sent, take_text}

-- The message that opens a websocket.
abbrev pub connect_message : (http : Http) → Fresh → Text → http.HeaderMap → ControlMessage
connect_message http f path_and_query headers =
    ControlMessage.ws_connect f.stream_id path_and_query (flatten_ws_headers http headers)
      (parse_subprotocols http headers)

-- An acknowledgement that the relay's session reads goes to the handler that waits for it.
take_ack :
    (s : Session) (ok : Accepts) (st : AppState) (id : Uuid) (pending : WsPending)
    (ack : WsConnectAck) (relay_tx : Sender) (text : Text)
    → lookup id st.ws_pending ≡ some pending
    → ok pending.tx (connect_ack ack) ≡ true
    → s.json.from_str text
      ≡ some (ControlMessage.ws_connect_ack id ack.accepted ack.selected_subprotocol ack.reason)
    → Replies.take_one s ok st (relay_tx, to_relay (Events.Message.text text))
      ≡ (remove_ws_pending st id, (pending.tx, connect_ack ack) ∷ [])
unfolding Replies.take_one turn handle_text_message WsSession.handle_control notify_ws_connect_ack
    remove_ws_pending
take_ack s ok st id pending ack relay_tx text waiting takes reads =
    rw (reads, handle_text_message, WsSession.handle_control)
      (rw (waiting, notify_ws_connect_ack) (rw takes refl))

-- The socket that the handler of the client gets.
abbrev pub socket_for : Fresh → Text → AgentHandle → Socket
socket_for f tunnel_id agent = record {
  json = f.json;
  tunnel_id = tunnel_id;
  stream_id = f.stream_id;
  agent_sender = agent.sender;
  agent_protocol_version = agent.protocol_version;
  event_tx = f.event_tx;
}

module _ (http : Http) (f : Fresh) (accepts : Accepts) (st : AppState) where
  upgrade_client_ws-asks :
      (tunnel_id path_and_query : Text) (headers : http.HeaderMap) (agent : AgentHandle)
      → get_agent st tunnel_id ≡ some agent
      → contains agent.capabilities cap_ws_tunnel_v1 ≡ true
      → TakesAll accepts agent.sender
      → IsFaithful f.json (connect_message http f path_and_query headers)
      → upgrade_client_ws http f accepts st tunnel_id path_and_query headers ≡ (
        add_ws_pending st f.stream_id tunnel_id f.ack_tx,
        (send_control f.json accepts agent.sender
            (connect_message http f path_and_query headers)).0,
        on_upgrade (parse_subprotocols http headers) (socket_for f tunnel_id agent),
      )
  unfolding upgrade_client_ws
  upgrade_client_ws-asks tunnel_id path_and_query headers agent present capable takes faithful =
      let (_, _, sent) = send_control-taken f.json accepts agent.sender _ takes faithful in
      rw (present, capable, sent, upgrade_client_ws) refl

  module _ (url : UrlLib) (s : Session) (ctx : RuntimeCtx) (p : Phases http url)
      (ws : WsLib http url) (m : Sessions) (request : WsConnectRequest)
      (answer : http.HeaderMap) where
    -- The acknowledgement of a stream whose local server has answered.
    abbrev pub opened : WsConnectAck
    opened = record {
      accepted = true;
      selected_subprotocol = chosen http url s.json ctx p ws m request answer;
      reason = none;
    }

    abbrev pub opened_message : ControlMessage
    opened_message =
        ControlMessage.ws_connect_ack request.stream_id true
          (chosen http url s.json ctx p ws m request answer) none

    -- The task of a stream up to its loop, when the local server has answered.
    abbrev up_to_loop : Text → Stream.Stream
    up_to_loop text = (
      insert request.stream_id p.in_tx (apply_ops m p.before),
      (ctx.relay_tx, to_relay (Events.Message.text text)) ∷ [],
      [],
      none,
    )

    run_connected-opens :
        (text : Text)
        → Events.send_control s.json p.ack_accepts ctx.relay_tx opened_message
          ≡ ((ctx.relay_tx, to_relay (Events.Message.text text)) ∷ [], true)
        → p.rounds ≡ []
        → Stream.run_connected http url s.json ctx p m request.stream_id answer ≡ up_to_loop text
    unfolding Stream.run_connected stream_loop
    run_connected-opens text sent no_rounds =
        rw (sent, no_rounds, Stream.run_connected, stream_loop) refl

    task-opens :
        (c : ConnectsTo http url s.json ctx p ws m request answer) (text : Text)
        → Events.send_control s.json p.ack_accepts ctx.relay_tx opened_message
          ≡ ((ctx.relay_tx, to_relay (Events.Message.text text)) ∷ [], true)
        → p.rounds ≡ []
        → Stream.handle_ws_connect http url ws s.json ctx p m request ≡ up_to_loop text
    unfolding Stream.handle_ws_connect Stream.run_one_ws_stream
    task-opens (local_url, client_request, good, made, connected) text sent no_rounds =
        let ran : Stream.run_one_ws_stream http url ws s.json ctx p m request ≡ up_to_loop text =
          rw (good, made, connected, Stream.run_one_ws_stream)
            (run_connected-opens text sent no_rounds) in
        let returned : (Stream.run_one_ws_stream http url ws s.json ctx p m request).3 ≡ none =
          ap (λ (r : Stream.Stream). r.3) ran in
        rw (returned, Stream.handle_ws_connect) (λ i. ((ran i).0, (ran i).1, (ran i).2, none))

  -- The request that the agent's task for the stream gets.
  abbrev pub connect_request : Text → http.HeaderMap → WsConnectRequest
  connect_request path_and_query headers = record {
    stream_id = f.stream_id;
    path_and_query = path_and_query;
    headers = flatten_ws_headers http headers;
    subprotocols = parse_subprotocols http headers;
  }

  -- A client's websocket is opened at both ends, if the tunnel has an agent that can tunnel websockets,
  -- the channels are open, the messages survive the JSON, the agent knows that the relay can tunnel
  -- websockets, and the local server takes the connection that the agent's task makes with the path,
  -- the headers that pass and the subprotocols. The client's request is upgraded with the subprotocols
  -- it offered; the agent's loop starts one task for the stream and keeps its tables; that task, up
  -- to its own loop, puts the stream into the agent's table, and from what it sends the relay's
  -- session tells the handler of the client, and nobody else, that the stream is accepted with the
  -- subprotocol that the local server chose; and the stream is then no longer among the pending ones.
  pub websocket_opens :
      (tunnel_id path_and_query : Text) (headers : http.HeaderMap) (agent : AgentHandle)
      → get_agent st tunnel_id ≡ some agent
      → contains agent.capabilities cap_ws_tunnel_v1 ≡ true
      → TakesAll accepts agent.sender
      → IsFaithful f.json (connect_message http f path_and_query headers)
      → (ctx : RuntimeCtx) (agent_accepts : Events.Accepts) (body : Sender) (t : Tables)
      → ctx.relay_supports_ws ≡ true
      → (url : UrlLib) (s : Session) (ok : Accepts) (p : Phases http url) (ws : WsLib http url)
        (m : Sessions) (answer : http.HeaderMap)
      → Failure.TakesAll p.ack_accepts ctx.relay_tx
      → p.rounds ≡ []
      → ConnectsTo http url s.json ctx p ws m (connect_request path_and_query headers) answer
      → IsFaithful s.json
          (opened_message url s ctx p ws m (connect_request path_and_query headers) answer)
      → ok f.ack_tx
          (connect_ack (opened url s ctx p ws m (connect_request path_and_query headers) answer))
        ≡ true
      → let request = connect_request path_and_query headers in
        let r = upgrade_client_ws http f accepts st tunnel_id path_and_query headers in
        let task = Stream.handle_ws_connect http url ws s.json ctx p m request in
        (r.2 ≡ on_upgrade (parse_subprotocols http headers) (socket_for f tunnel_id agent))
        × (take_sent f.json ctx agent_accepts body t r.1 ≡ (t, [], handle_ws_connect request ∷ []))
        × (lookup f.stream_id task.0 ≡ some p.in_tx)
        × (task.3 ≡ none)
        × (take_replies s ok r.0 task.1 ≡ (
          remove_ws_pending r.0 f.stream_id,
          (
            f.ack_tx,
            connect_ack (record {
              accepted = true;
              selected_subprotocol = chosen http url s.json ctx p ws m request answer;
              reason = none;
            }),
          )
              ∷ [],
        ))
  unfolding take_sent take_replies handle_control RelayClient.turn
  websocket_opens tunnel_id path_and_query headers agent present capable takes faithful ctx
        agent_accepts body t supported url s ok p ws m answer relay_takes no_rounds connects
        ack_faithful ack_takes =
      let request = connect_request path_and_query headers in
      let ack = opened url s ctx p ws m request answer in
      let asked =
        upgrade_client_ws-asks tunnel_id path_and_query headers agent present capable takes
          faithful in
      let (text, reads, sent) = send_control-taken f.json accepts agent.sender _ takes faithful in
      let (back, reads_back, sent_back) =
        control-taken s.json p.ack_accepts ctx.relay_tx _ relay_takes ack_faithful in
      let pending : WsPending = record { tunnel_id = tunnel_id; tx = f.ack_tx } in
      let waiting : lookup f.stream_id (add_ws_pending st f.stream_id tunnel_id f.ack_tx).ws_pending
          ≡ some pending =
        unfold add_ws_pending in lookup-insert_self f.stream_id pending st.ws_pending in
      let at_agent = take_text f.json ctx agent_accepts body t agent.sender text _ reads in
      let at_relay =
        take_ack s ok (add_ws_pending st f.stream_id tunnel_id f.ack_tx) f.stream_id pending ack
          ctx.relay_tx back waiting ack_takes reads_back in
      let task = task-opens url s ctx p ws m request answer connects back sent_back no_rounds in
      rw (asked, sent, task)
        (
          refl,
          rw at_agent (rw supported refl),
          lookup-insert_self f.stream_id p.in_tx (apply_ops m p.before),
          refl,
          rw at_relay refl,
        )
