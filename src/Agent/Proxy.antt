-- ===== src/Agent/Proxy.antt =====
-- crates/agent/src/relay_client.rs: `proxy_one_request` and the task that calls it.
pub mod Replies
pub mod Delivery
use tunely.Prelude.{
  ℕ, ◌+◌, ◌%◌, ◌^◌, Bool, true, false, not, Option, none, some, List, [], ◌∷◌, ◌++◌, if◌then◌else◌,
  is_empty,
}
use tunely.Prelude.Bytes.{Bytes, Text, codes}
use tunely.External.{Http}
use tunely.Protocol.Message.{ControlMessage, Json, Uuid, Headers}
use tunely.Protocol.Frame.{ChunkHeader, StreamKind, encode_chunk_frame_with_version}
use tunely.Agent.Events.{Message, Sender, Sent, Accepts, send_control, to_relay}
use tunely.Agent.LocalProxy.{
  UrlLib, compose_local_url, apply_forward_headers, flatten_response_headers,
}
use tunely.Agent.RelayClient.{RuntimeCtx, ProxyRequest}

-- An item of the local server's response stream.
pub data BodyItem : Type 0 where
  chunk : Bytes → BodyItem
  failed : BodyItem

-- The loop over `byte_stream` from a sequence number on: what is on the channel, and whether the
-- whole body went out.
unfoldable pub stream_response_body :
    Accepts → Sender → Uuid → ℕ → ℕ → List BodyItem → List Sent × Bool
stream_response_body accepts relay_tx request_id version seq [] = ([], true)
stream_response_body accepts relay_tx request_id version seq (failed ∷ items) = ([], false)
stream_response_body accepts relay_tx request_id version seq (chunk bytes ∷ items) =
    let frame = to_relay (
      Message.binary (
        encode_chunk_frame_with_version version
          (record {
            kind = StreamKind.response_body;
            request_id = request_id;
            seq = seq;
            fin = false;
          })
          bytes)) in
    let rest =
      stream_response_body accepts relay_tx request_id version ((seq + 1) % 2 ^ 32) items in
    let skipped = stream_response_body accepts relay_tx request_id version seq items in
    if is_empty bytes
    then skipped
    else if accepts relay_tx frame
    then ((relay_tx, frame) ∷ rest.0, rest.1)
    else ([], false)

module _ (http : Http) where
  -- What the local server answers.
  pub record LocalResponse : Type 0 where
    pub status : ℕ
    pub headers : http.HeaderMap
    pub body : List BodyItem

  -- `proxy_one_request` from the response on.
  unfoldable pub relay_response :
      Json → Accepts → RuntimeCtx → Uuid → LocalResponse → List Sent × Bool
  relay_response json accepts ctx request_id response =
      let (start, started) = send_control json accepts ctx.relay_tx (
        ControlMessage.http_response_start request_id response.status
          (flatten_response_headers http response.headers)) in
      let (frames, whole) =
        stream_response_body accepts ctx.relay_tx request_id ctx.relay_frame_version 0
          response.body in
      let (last, ended) =
        send_control json accepts ctx.relay_tx (ControlMessage.http_response_end request_id) in
      if not started
      then (start, false)
      else if not whole
      then (start ++ frames, false)
      else (start ++ frames ++ last, ended)

  module _ (url : UrlLib) where
    -- `reqwest`: the parsing of a method, and an exchange with the local server.
    pub record Client : Type 0 where
      pub method_from_bytes : Text → Option Text
      pub exchange : Text → url.Url → List (Text × http.HeaderValue) → Sender → Option LocalResponse

    unfoldable pub proxy_one_request :
        Client → Json → Accepts → RuntimeCtx → ProxyRequest → List Sent × Bool
    unfolding relay_response
    proxy_one_request client json accepts ctx request =
        elim (compose_local_url url ctx.local_base request.path_and_query) [
          | none ↦ ([], false)
          | some local_url ↦ elim (client.method_from_bytes request.method) [
            | none ↦ ([], false)
            | some method ↦
                elim (client.exchange method local_url (apply_forward_headers http request.headers)
                  request.body_rx) [
                    | none ↦ ([], false)
                    | some response ↦ relay_response json accepts ctx request.request_id response
                  ]
          ]
        ]

    -- The task that `handle_text_message` starts, with the text of an error as an argument.
    unfoldable pub proxy_task :
        Client → Json → Accepts → RuntimeCtx → ProxyRequest → Text → List Sent
    proxy_task client json accepts ctx request error_text =
        let (out, succeeded) = proxy_one_request client json accepts ctx request in
        if succeeded
        then out
        else out
          ++ (send_control json accepts ctx.relay_tx (
              ControlMessage.error (some request.request_id) (codes "local_proxy_error")
                error_text)).0
