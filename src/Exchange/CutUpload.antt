-- ===== src/Exchange/CutUpload.antt =====
-- A client that goes away while it uploads: crates/relay-server/src/http_ingress.rs, and what is left in
-- the table of crates/agent/src/inflight.rs.
use tunely.Prelude.{
  ℕ, Bool, ◌+◌, ◌%◌, ◌^◌, ◌≡◌, refl, ap, sym, ◌∙◌, true, false, Option, some, List, [], ◌∷◌, ◌++◌,
  arith, length, append-nil, Bool-cases, inl, inr,
}
use tunely.Prelude.Bytes.{Text, Bytes, codes}
use tunely.Prelude.Map.{lookup-insert_self}
use tunely.External.{Http}
use tunely.Protocol.{is_supported_protocol_version}
use tunely.Protocol.Message.{Uuid}
use tunely.Agent.Events.{Sender, Accepts, body_chunk}
use tunely.Agent.Handshake.{IsFaithful}
use tunely.Agent.RelayClient.{RuntimeCtx, Tables, proxy_one_request, inflight_insert, inflight_get}
use tunely.Agent.RelayClient.Upload.{body_chunks}
use tunely.Relay.Events
use tunely.Relay.Events.{send_control}
use tunely.Relay.State.{AppState, AgentHandle, get_agent}
use tunely.Relay.HttpIngress.{
  BodyItem, chunk, failed, Wait, Context, Request, simple, extract_target_path, flatten_headers,
  stream_request_body, relay_request, handle_ingress,
}
use tunely.Relay.HttpIngress.Upload.{numbered, HasFailure, stream_request_body-Uploaded}
use tunely.Exchange.Sending.{TakesAll, start_message, send_control-taken, stream_request_body-whole}
use tunely.Exchange.Request.{Handled, take_sent, take_upload}

-- The items of a body before a failure.
unfoldable readable_part : List BodyItem → List BodyItem
readable_part [] = []
readable_part (failed ∷ items) = []
readable_part (chunk bytes ∷ items) = chunk bytes ∷ readable_part items

readable_part-reads : (items : List BodyItem) → ¬ HasFailure (readable_part items)
unfolding readable_part
readable_part-reads [] = λ f. f
readable_part-reads (failed ∷ items) = λ f. f
readable_part-reads (chunk bytes ∷ items) = readable_part-reads items

numbered-readable_part :
    (items : List BodyItem) (seq : ℕ) → numbered seq (readable_part items) ≡ numbered seq items
unfolding readable_part numbered
numbered-readable_part [] seq = refl
numbered-readable_part (failed ∷ items) seq = refl
numbered-readable_part (chunk [] ∷ items) seq = numbered-readable_part items seq
numbered-readable_part (chunk (b ∷ bs) ∷ items) seq =
    ap (◌∷◌ (seq, b ∷ bs)) (numbered-readable_part items ((seq + 1) % 2 ^ 32))

module _ (accepts : Events.Accepts) (sender : Events.Sender) (id : Uuid) (version : ℕ) where
  stream_request_body-readable_part :
      TakesAll accepts sender
      → (items : List BodyItem) (seq : ℕ)
      → (stream_request_body accepts sender id version seq items).0
        ≡ (stream_request_body accepts sender id version seq (readable_part items)).0
  unfolding readable_part stream_request_body
  stream_request_body-readable_part takes [] seq = refl
  stream_request_body-readable_part takes (failed ∷ items) seq = refl
  stream_request_body-readable_part takes (chunk [] ∷ items) seq =
      stream_request_body-readable_part takes items seq
  stream_request_body-readable_part takes (chunk (b ∷ bs) ∷ items) seq =
      rw (takes _) (rw (stream_request_body-readable_part takes items _) refl)

  stream_request_body-cut :
      is_supported_protocol_version version ≡ true
      → length id ≡ 16
      → (items : List BodyItem) → HasFailure items
      → (stream_request_body accepts sender id version 0 items).1 ≡ false
  stream_request_body-cut supported l items fails =
      let (_, _, _, _, whole) =
        stream_request_body-Uploaded accepts sender id version supported l items 0 (omega arith) in
      elim (Bool-cases (stream_request_body accepts sender id version 0 items).1) [
        | inl all_of_it ↦ absurd ((whole all_of_it).1 fails)
        | inr cut ↦ cut
      ]

module _ (http : Http) where
  handle_ingress-cut :
      (c : Context http) (st : AppState) (tunnel_id tail_path : Text) (path_and_query : Option Text)
      (request : Request http) (waits : List Wait) (agent : AgentHandle)
      → get_agent st tunnel_id ≡ some agent
      → TakesAll c.accepts agent.sender
      → IsFaithful c.json (start_message http c tunnel_id tail_path path_and_query request)
      → (stream_request_body c.accepts agent.sender c.request_id agent.protocol_version 0
          request.body).1
        ≡ false
      → let r = handle_ingress http c st tunnel_id tail_path path_and_query request waits in
        let start =
          send_control c.json c.accepts agent.sender
            (start_message http c tunnel_id tail_path path_and_query request) in
        let frames =
          stream_request_body c.accepts agent.sender c.request_id agent.protocol_version 0
            request.body in
        (r.1 ≡ start.0 ++ frames.0) × (r.2 ≡ simple 502 (codes "failed to stream request body"))
  unfolding handle_ingress relay_request
  handle_ingress-cut c st tunnel_id tail_path path_and_query request waits agent present takes
        starts cut =
      let (first, _, at_first) = send_control-taken c.json c.accepts agent.sender _ takes starts in
      rw (present, handle_ingress) (rw (at_first, cut, relay_request) (refl, refl))

  -- If reading the body of the client fails, the client gets 502, if it is still there, and the agent
  -- is not told: after everything that the relay sent, the agent has started a task, has passed it
  -- the chunks that were read, and still has the request in its table, so that the channel of the
  -- body stays open. The tunnel has an agent whose channel is open, the start survives the JSON, the
  -- version is supported, the identifier has 16 bytes and the body channel is open.
  pub cut_upload_stays_open :
      (c : Context http) (st : AppState) (tunnel_id tail_path : Text) (path_and_query : Option Text)
      (request : Request http) (waits : List Wait) (agent : AgentHandle)
      → get_agent st tunnel_id ≡ some agent
      → TakesAll c.accepts agent.sender
      → IsFaithful c.json (start_message http c tunnel_id tail_path path_and_query request)
      → HasFailure request.body
      → is_supported_protocol_version agent.protocol_version ≡ true
      → length c.request_id ≡ 16
      → (ctx : RuntimeCtx) (accepts : Accepts) (body : Sender) (t : Tables)
      → ((p : Bytes) → accepts body (body_chunk p) ≡ true)
      → let r = handle_ingress http c st tunnel_id tail_path path_and_query request waits in
        let h = take_sent c.json ctx accepts body t r.1 in
        (r.2 ≡ simple 502 (codes "failed to stream request body"))
        × (inflight_get h.0.inflight c.request_id ≡ some body)
        × (h.1 ≡ body_chunks body (numbered 0 request.body))
        × (h.2
            ≡ proxy_one_request (record {
              request_id = c.request_id;
              method = request.method;
              path_and_query = extract_target_path path_and_query tunnel_id tail_path;
              headers = flatten_headers http request.headers;
              body_rx = body;
            })
              ∷ [])
  cut_upload_stays_open c st tunnel_id tail_path path_and_query request waits agent present
        agent_takes starts fails supported l ctx accepts body t takes =
      let (first, reads_first, at_first) =
        send_control-taken c.json c.accepts agent.sender _ agent_takes starts in
      let cut =
        stream_request_body-cut c.accepts agent.sender c.request_id agent.protocol_version supported
          l request.body fails in
      let same =
        stream_request_body-readable_part c.accepts agent.sender c.request_id agent.protocol_version
          agent_takes request.body 0 in
      let part = readable_part request.body in
      let (sent, unsent, reads, split, all_of_it) =
        stream_request_body-Uploaded c.accepts agent.sender c.request_id agent.protocol_version
          supported l part 0 (omega arith) in
      let whole =
        stream_request_body-whole c.accepts agent.sender c.request_id agent.protocol_version
          agent_takes part 0 (readable_part-reads request.body) in
      let numbers : numbered 0 request.body ≡ sent =
        sym (numbered-readable_part request.body 0)
        ∙ split
        ∙ ap (◌++◌ sent) (all_of_it whole).0
        ∙ append-nil sent in
      let known : inflight_get (inflight_insert t.inflight c.request_id body) c.request_id
          ≡ some body =
        unfold inflight_get in
        unfold inflight_insert in lookup-insert_self c.request_id body t.inflight in
      let outcome =
        handle_ingress-cut c st tunnel_id tail_path path_and_query request waits agent present
          agent_takes starts cut in
      let start : Events.Sent = (agent.sender, Events.message (Events.Message.text first)) in
      let frames =
        stream_request_body c.accepts agent.sender c.request_id agent.protocol_version 0 in
      let sends =
        outcome.0
        ∙ ap (λ (e : List Events.Sent × Bool). e.0 ++ (frames request.body).0) at_first
        ∙ ap (◌∷◌ start) same in
      let handled =
        ap (take_sent c.json ctx accepts body t) sends
        ∙ take_upload c.json ctx accepts body t agent.sender c.request_id request.method
            (extract_target_path path_and_query tunnel_id tail_path) first
            (flatten_headers http request.headers) _ sent reads_first reads takes in
      (
        outcome.1,
        ap (λ (h : Handled). inflight_get h.0.inflight c.request_id) handled ∙ known,
        ap (λ (h : Handled). h.1) handled ∙ ap (body_chunks body) (sym numbers),
        ap (λ (h : Handled). h.2) handled,
      )
