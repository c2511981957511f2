-- ===== src/Exchange/Request.antt =====
-- From the client to the agent: crates/relay-server/src/http_ingress.rs sends a request, and the
-- handlers of crates/agent/src/relay_client.rs take it.
use tunely.Prelude.{
  ℕ, ◌≡◌, refl, true, Option, some, List, [], ◌∷◌, ◌++◌, arith, length, append_assoc, append-nil,
}
use tunely.Prelude.Bytes.{Text, Bytes}
use tunely.Prelude.Map.{lookup, lookup-insert_self}
use tunely.External.{Http}
use tunely.Protocol.{is_supported_protocol_version}
use tunely.Protocol.Message.{ControlMessage, Json, Uuid, Headers}
use tunely.Agent.Events.{Sender, Sent, Accepts, body_chunk}
use tunely.Agent.Handshake.{IsFaithful}
use tunely.Agent.RelayClient.{
  RuntimeCtx, Tables, Spawned, proxy_one_request, turn, handle_text_message, handle_control,
  inflight_insert, inflight_remove,
}
use tunely.Agent.RelayClient.Upload.{one_chunk, body_chunks}
use tunely.Relay.Events
use tunely.Relay.State.{AppState, AgentHandle, get_agent}
use tunely.Relay.HttpIngress.{
  Wait, Context, Request, extract_target_path, flatten_headers, handle_ingress,
}
use tunely.Relay.HttpIngress.Upload.{numbered, Reads, HasFailure, stream_request_body-Uploaded}
use tunely.Tunnel.ToLocal.{read_as}
use tunely.Exchange.Sending.{
  TakesAll, start_message, end_message, send_control-taken, stream_request_body-whole,
  handle_ingress-whole,
}

-- What the agent's loop makes of messages: its tables, what it sends, and the tasks it starts.
abbrev pub Handled : Type 0
Handled = Tables × List Sent × List Spawned

module _ (json : Json) (ctx : RuntimeCtx) (accepts : Accepts) (body : Sender) where
  -- Every new request gets the channel `body`.
  unfoldable pub take_one : Tables → Events.Sent → Handled
  unfolding read_as
  take_one t (s, Events.message m) =
      let (t', out, tasks, _) = turn json ctx accepts t body (read_as m) in (t', out, tasks)
  take_one t (s, p) = (t, [], [])

  unfoldable pub take_sent : Tables → List Events.Sent → Handled
  unfolding take_one
  take_sent t [] = (t, [], [])
  take_sent t (e ∷ es) =
      let (t₁, out₁, tasks₁) = take_one t e in
      let (t₂, out₂, tasks₂) = take_sent t₁ es in (t₂, out₁ ++ out₂, tasks₁ ++ tasks₂)

  take_sent-append :
      (xs ys : List Events.Sent) (t : Tables)
      → let first = take_sent t xs in
        let second = take_sent first.0 ys in
        take_sent t (xs ++ ys) ≡ (second.0, first.1 ++ second.1, first.2 ++ second.2)
  unfolding take_sent
  take_sent-append [] ys t = refl
  take_sent-append (x ∷ xs) ys t =
      let one = take_one t x in
      rw (take_sent-append xs ys one.0) (rw (append_assoc one.1, append_assoc one.2) refl)

  take_sent-Reads :
      (t : Tables) (sender tx : Sender) (id : Uuid) (out : List Events.Sent)
      (chunks : List (ℕ × Bytes))
      → Reads sender id out chunks
      → lookup id t.inflight ≡ some tx
      → ((p : Bytes) → accepts tx (body_chunk p) ≡ true)
      → take_sent t out ≡ (t, body_chunks tx chunks, [])
  unfolding take_sent take_one turn
  take_sent-Reads t sender tx id [] [] reads known takes = refl
  take_sent-Reads t sender tx id [] (c ∷ cs) reads known takes = absurd reads
  take_sent-Reads t sender tx id ((s, p) ∷ out) [] reads known takes = absurd reads
  take_sent-Reads t sender tx id ((s, p) ∷ out) ((seq, bytes) ∷ cs) reads known takes =
      let (frame, here, decoded) = reads.0.1 in
      rw here (
        rw (one_chunk accepts t id frame bytes seq tx decoded known takes)
          (rw (take_sent-Reads t sender tx id out cs reads.1 known takes)))

  -- A text that is read as a message is handled as that message.
  pub take_text :
      (t : Tables) (s : Events.Sender) (text : Text) (msg : ControlMessage)
      → json.from_str text ≡ some msg
      → take_one t (s, Events.message (Events.Message.text text))
        ≡ handle_control json ctx accepts t body msg
  unfolding take_one turn handle_text_message
  take_text t s text msg reads = rw (reads, handle_text_message) refl

  -- The start of a request and the chunks after it.
  pub take_upload :
      (t : Tables) (sender : Events.Sender) (id : Uuid) (method path first : Text)
      (headers : Headers) (out : List Events.Sent) (chunks : List (ℕ × Bytes))
      → json.from_str first ≡ some (ControlMessage.http_request_start id method path headers)
      → Reads sender id out chunks
      → ((p : Bytes) → accepts body (body_chunk p) ≡ true)
      → take_sent t ((sender, Events.message (Events.Message.text first)) ∷ out) ≡ (
        record t { inflight = inflight_insert t.inflight id body },
        body_chunks body chunks,
        proxy_one_request (record {
          request_id = id;
          method = method;
          path_and_query = path;
          headers = headers;
          body_rx = body;
        })
            ∷ [],
      )
  unfolding take_sent handle_control turn
  take_upload t sender id method path first headers out chunks reads_first reads takes =
      let t₁ : Tables = record t { inflight = inflight_insert t.inflight id body } in
      let known : lookup id t₁.inflight ≡ some body =
        unfold inflight_insert in lookup-insert_self id body t.inflight in
      rw (take_text t sender first _ reads_first)
        (rw (take_sent-Reads t₁ sender body id out chunks reads known takes) refl)

  -- The three parts of a request in one go.
  take_request :
      (t : Tables) (sender : Events.Sender) (id : Uuid) (method path first last : Text)
      (headers : Headers) (out : List Events.Sent) (chunks : List (ℕ × Bytes))
      → json.from_str first ≡ some (ControlMessage.http_request_start id method path headers)
      → json.from_str last ≡ some (ControlMessage.http_request_end id)
      → Reads sender id out chunks
      → ((p : Bytes) → accepts body (body_chunk p) ≡ true)
      → take_sent t (
          ((sender, Events.message (Events.Message.text first)) ∷ out)
          ++ ((sender, Events.message (Events.Message.text last)) ∷ []))
        ≡ (
          record t { inflight = inflight_remove (inflight_insert t.inflight id body) id },
          body_chunks body chunks,
          proxy_one_request (record {
            request_id = id;
            method = method;
            path_and_query = path;
            headers = headers;
            body_rx = body;
          })
              ∷ [],
        )
  unfolding turn
  take_request t sender id method path first last headers out chunks reads_first reads_last reads
        takes =
      let t₁ : Tables = record t { inflight = inflight_insert t.inflight id body } in
      rw (take_sent-append ((sender, Events.message (Events.Message.text first)) ∷ out) _ t) (
        rw (take_upload t sender id method path first headers out chunks reads_first reads takes) (
          unfold take_sent in
          rw (take_text t₁ sender last _ reads_last)
            (unfold handle_control in rw (append-nil (body_chunks body chunks)) refl)))

module _ (http : Http) where
  -- A client's request reaches the agent whole, when the tunnel has an agent whose channel is open,
  -- the two control messages survive the JSON, no read of the client's body fails, the agent's
  -- version is supported, the identifier has 16 bytes and the new body channel is open. The agent
  -- starts one task, with the method of the client, the path under the tunnel and the headers that
  -- pass; it puts the non-empty chunks of the body, in order, on that task's channel, and then has
  -- the request no longer in its table.
  pub request_reaches_agent :
      (c : Context http) (st : AppState) (tunnel_id tail_path : Text) (path_and_query : Option Text)
      (request : Request http) (waits : List Wait) (agent : AgentHandle)
      → get_agent st tunnel_id ≡ some agent
      → TakesAll c.accepts agent.sender
      → IsFaithful c.json (start_message http c tunnel_id tail_path path_and_query request)
      → IsFaithful c.json (end_message http c)
      → ¬ HasFailure request.body
      → is_supported_protocol_version agent.protocol_version ≡ true
      → length c.request_id ≡ 16
      → (ctx : RuntimeCtx) (accepts : Accepts) (body : Sender) (t : Tables)
      → ((p : Bytes) → accepts body (body_chunk p) ≡ true)
      → take_sent c.json ctx accepts body t
          (handle_ingress http c st tunnel_id tail_path path_and_query request waits).1
        ≡ (
          record t {
            inflight = inflight_remove (inflight_insert t.inflight c.request_id body) c.request_id;
          },
          body_chunks body (numbered 0 request.body),
          proxy_one_request (record {
            request_id = c.request_id;
            method = request.method;
            path_and_query = extract_target_path path_and_query tunnel_id tail_path;
            headers = flatten_headers http request.headers;
            body_rx = body;
          })
              ∷ [],
        )
  request_reaches_agent c st tunnel_id tail_path path_and_query request waits agent present
        agent_takes starts ends readable supported l ctx accepts body t takes =
      let (sends, _) =
        handle_ingress-whole http c st tunnel_id tail_path path_and_query request waits agent
          present agent_takes starts ends readable in
      let (first, reads_first, at_first) =
        send_control-taken c.json c.accepts agent.sender _ agent_takes starts in
      let (last, reads_last, at_last) =
        send_control-taken c.json c.accepts agent.sender _ agent_takes ends in
      let (sent, unsent, reads, split, all_of_it) =
        stream_request_body-Uploaded c.accepts agent.sender c.request_id agent.protocol_version
          supported l request.body 0 (omega arith) in
      let whole =
        stream_request_body-whole c.accepts agent.sender c.request_id agent.protocol_version
          agent_takes request.body 0 readable in
      rw (sends, at_first, at_last)
        (rw (split, (all_of_it whole).0, append-nil sent)
          (take_request c.json ctx accepts body t agent.sender c.request_id request.method
            (extract_target_path path_and_query tunnel_id tail_path) first last
            (flatten_headers http request.headers) _ sent reads_first reads_last reads takes))
