-- ===== src/Agent/WsStream/Connect.antt =====
-- crates/agent/src/relay_client.rs: how the agent connects a stream to the local server, and the whole
-- of `run_one_ws_stream` and `handle_ws_connect`.
use tunely.Prelude.{
  true, false, not, Option, none, some, List, [], ◌∷◌, ◌++◌, if◌then◌else◌, is_empty,
}
use tunely.Prelude.Bytes.{Text, codes}
use tunely.Prelude.Map.{insert, remove}
use tunely.External.{Http}
use tunely.Protocol.Message.{ControlMessage, Json, Uuid, Headers}
use tunely.Agent.Events.{Message, Sender, Sent, Accepts, send_control}
use tunely.Agent.RelayClient.{RuntimeCtx, WsConnectRequest}
use tunely.Agent.LocalProxy.{UrlLib, compose_local_ws_url, should_skip_ws_forward_header}
use tunely.Agent.WsStream.{Sessions, SessionOp, apply_ops, cleanup_ws_session, Round, stream_loop}

-- `subprotocols.join(", ")`
unfoldable pub join_comma : List Text → Text
join_comma [] = []
join_comma (t ∷ []) = t
join_comma (t ∷ u ∷ rest) = t ++ codes ", " ++ join_comma (u ∷ rest)

-- A result, with the text of its error.
pub data Attempt {ℓ} (A : Type ℓ) : Type ℓ where
  ok : A → Attempt A
  err : Text → Attempt A

-- The table, what went to the relay and to the local server, and how the function returned, or
-- `none` if it has not yet.
abbrev pub Stream : Type 0
Stream = Sessions × List Sent × List Message × Option (Attempt (Unit {0}))

module _ (http : Http) where
  open http use {HeaderMap, HeaderValue, get, header_name, header_value, to_str}

  -- The headers that the loop puts on the request, in order.
  unfoldable pub ws_request_headers : Headers → List (Text × HeaderValue)
  unfolding should_skip_ws_forward_header
  ws_request_headers [] = []
  ws_request_headers ((key, text) ∷ headers) =
      if should_skip_ws_forward_header key
      then ws_request_headers headers
      else elim (header_name key) [
        | none ↦ ws_request_headers headers
        | some name ↦ elim (header_value text) [
          | none ↦ ws_request_headers headers
          | some value ↦ (name, value) ∷ ws_request_headers headers
        ]
      ]

  -- The value that `sec-websocket-protocol` is set to, if any.
  unfoldable pub ws_request_protocols : List Text → Option HeaderValue
  unfolding join_comma
  ws_request_protocols subprotocols =
      if is_empty subprotocols then none else header_value (join_comma subprotocols)

  module _ (url : UrlLib) where
    -- `into_client_request` and `connect_async`: the headers of the answer, or the text of the error.
    pub record WsLib : Type 1 where
      pub ClientRequest : Type 0
      pub into_client_request : url.Url → Attempt ClientRequest
      pub connect_async :
          ClientRequest → List (Text × HeaderValue) → Option HeaderValue → Attempt HeaderMap

    -- The fresh channel of the stream, the text of the error of a bad address, the channels' answers
    -- to the acknowledgement and to a refusal, and the phases between which other tasks act: until
    -- the stream is in the table, and from the end of the loop, or from an error, to the removal.
    pub record Phases : Type 0 where
      pub in_tx : Sender
      pub bad_address : Text
      pub ack_accepts : Accepts
      pub refusal_accepts : Accepts
      pub before : List SessionOp
      pub rounds : List Round
      pub closing : List SessionOp

    -- An error before the local server answered.
    abbrev pub failed_with : Phases → Sessions → Text → Stream
    failed_with p m text = (apply_ops m p.before, [], [], some (err text))

    -- `run_one_ws_stream` once it is connected.
    unfoldable pub run_connected : Json → RuntimeCtx → Phases → Sessions → Uuid → HeaderMap → Stream
    unfolding stream_loop cleanup_ws_session
    run_connected json ctx p m stream_id answer =
        let selected : Option Text = elim (get answer (codes "sec-websocket-protocol")) [
          | none ↦ none
          | some value ↦ to_str value
        ] in
        let (acked, delivered) =
          send_control json p.ack_accepts ctx.relay_tx
            (ControlMessage.ws_connect_ack stream_id true selected none) in
        let (m', sent, shown, over) =
          stream_loop json ctx stream_id (insert stream_id p.in_tx (apply_ops m p.before))
            p.rounds in
        if not delivered
        then (apply_ops m p.before, acked, [], some (err (codes "relay channel closed")))
        else if over
        then (
          cleanup_ws_session (apply_ops m' p.closing) stream_id,
          acked ++ sent,
          shown,
          some (ok tt),
        )
        else (m', acked ++ sent, shown, none)

    unfoldable pub run_one_ws_stream :
        WsLib → Json → RuntimeCtx → Phases → Sessions → WsConnectRequest → Stream
    unfolding run_connected ws_request_headers ws_request_protocols compose_local_ws_url
    run_one_ws_stream ws json ctx p m request =
        elim (compose_local_ws_url url ctx.local_base request.path_and_query) [
          | none ↦ failed_with p m p.bad_address
          | some local_url ↦ elim (ws.into_client_request local_url) [
            | err text ↦ failed_with p m text
            | ok client_request ↦
                elim (ws.connect_async client_request (ws_request_headers request.headers)
                  (ws_request_protocols request.subprotocols)) [
                    | err text ↦ failed_with p m text
                    | ok answer ↦ run_connected json ctx p m request.stream_id answer
                  ]
          ]
        ]

    unfoldable pub handle_ws_connect :
        WsLib → Json → RuntimeCtx → Phases → Sessions → WsConnectRequest → Stream
    unfolding run_one_ws_stream
    handle_ws_connect ws json ctx p m request =
        let (m', sent, shown, result) = run_one_ws_stream ws json ctx p m request in
        elim result [
          | some (err text) ↦ (
            remove request.stream_id (apply_ops m' p.closing),
            sent
                ++ (send_control json p.refusal_accepts ctx.relay_tx
                    (ControlMessage.ws_connect_ack request.stream_id false none (some text))).0,
            shown,
            some (err text),
          )
          | other ↦ (m', sent, shown, other)
        ]
