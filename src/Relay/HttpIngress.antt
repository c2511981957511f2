-- ===== src/Relay/HttpIngress.antt =====
-- crates/relay-server/src/http_ingress.rs: an HTTP request of a client, sent to the tunnel's agent
-- and answered from the agent's events. Logging is left out.
pub mod Paths
pub mod HeaderLists
pub mod Upload
pub mod Answer
pub mod Cleanup
mod Examples
use tunely.Prelude.{
  ℕ, suc, ◌+◌, ◌-◌, ◌*◌, ◌%◌, ◌^◌, Bool, true, false, not, Option, none, some, List, [], ◌∷◌, ◌++◌,
  ◌==◌, ◌||◌, if◌then◌else◌, is_empty, get_or_else,
}
use tunely.Prelude.Bytes.{Bytes, Text, codes, strip_prefix, eq_ignore_ascii_case}
use tunely.External.{Http}
use tunely.Protocol.Http.{is_hop_header}
use tunely.Protocol.Message.{ControlMessage, Json, Uuid, Headers}
use tunely.Protocol.Frame.{ChunkHeader, StreamKind, encode_chunk_frame_with_version}
use tunely.Relay.Events.{Message, RelayEvent, Sender, Sent, Accepts, message, send_control}
use tunely.Relay.State.{AppState, AgentHandle, get_agent, add_inflight, remove_inflight}
use tunely.Relay.State.Steps.{Op, run, run_sent}

unfoldable pub extract_target_path : Option Text → Text → Text → Text
extract_target_path (some pq) tunnel_id tail_path =
    let trimmed = get_or_else (strip_prefix (codes "/t/" ++ tunnel_id) pq) pq in
    if is_empty trimmed then codes "/" else trimmed
extract_target_path none tunnel_id tail_path =
    if is_empty tail_path then codes "/" else codes "/" ++ tail_path

-- An item of the client's body stream.
pub data BodyItem : Type 0 where
  chunk : Bytes → BodyItem
  failed : BodyItem

-- `stream_request_body` from a sequence number on: what is on the channel, and whether the whole
-- body went out.
unfoldable pub stream_request_body :
    Accepts → Sender → Uuid → ℕ → ℕ → List BodyItem → List Sent × Bool
stream_request_body accepts sender request_id version seq [] = ([], true)
stream_request_body accepts sender request_id version seq (failed ∷ items) = ([], false)
stream_request_body accepts sender request_id version seq (chunk bytes ∷ items) =
    let frame = message (
      Message.binary (
        encode_chunk_frame_with_version version
          (record {
            kind = StreamKind.request_body;
            request_id = request_id;
            seq = seq;
            fin = false;
          })
          bytes)) in
    let rest = stream_request_body accepts sender request_id version ((seq + 1) % 2 ^ 32) items in
    let skipped = stream_request_body accepts sender request_id version seq items in
    if is_empty bytes
    then skipped
    else if accepts sender frame
    then ((sender, frame) ∷ rest.0, rest.1)
    else ([], false)

-- What `timeout(remaining, rx.recv())` gives, and the time since `started_at` before it, in
-- nanoseconds.
pub data Received : Type 0 where
  event : RelayEvent → Received
  closed timed_out : Received

abbrev pub Wait : Type 0
Wait = ℕ × Received

pub data Outcome : Type 0 where
  -- status and headers of the answer, the chunks that came before it, and what is still to come
  started : ℕ → Headers → List Bytes → List Wait → Outcome
  -- status and text of the relay's own answer
  failed : ℕ → Text → Outcome

-- The loop that waits for `Start`. The end of the list stands for a deadline that has passed.
unfoldable pub await_start : ℕ → List Wait → List Bytes → Outcome
await_start deadline [] early_chunks = failed 504 (codes "agent response timeout")
await_start deadline ((elapsed, received) ∷ waits) early_chunks =
    if deadline - elapsed == 0 then failed 504 (codes "agent response timeout") else elim received [
      | closed ↦ failed 502 (codes "agent closed response stream")
      | timed_out ↦ failed 504 (codes "agent response timeout")
      | event (RelayEvent.start status headers) ↦ started status headers early_chunks waits
      | event (RelayEvent.body bytes) ↦ await_start deadline waits (early_chunks ++ (bytes ∷ []))
      | event RelayEvent.end ↦ failed 502 (codes "agent response ended before start")
      | event (RelayEvent.error code text) ↦ failed 502 (codes "agent request error")
    ]

-- The second loop of the body stream, which has no deadline.
unfoldable pub stream_rest : List Wait → List Bytes
stream_rest [] = []
stream_rest ((elapsed, closed) ∷ waits) = []
stream_rest ((elapsed, timed_out) ∷ waits) = stream_rest waits
stream_rest ((elapsed, event (RelayEvent.body bytes)) ∷ waits) = bytes ∷ stream_rest waits
stream_rest ((elapsed, event RelayEvent.end) ∷ waits) = []
stream_rest ((elapsed, event (RelayEvent.error code text)) ∷ waits) = []
stream_rest ((elapsed, event (RelayEvent.start status headers)) ∷ waits) = stream_rest waits

-- The tables after the body stream: at its end it removes the request. The end of the list stands for
-- a stream that is not read any further, and that has not come to its end.
unfoldable pub stream_tables : AppState → Uuid → List Wait → AppState
unfolding remove_inflight
stream_tables st id [] = st
stream_tables st id ((elapsed, closed) ∷ waits) = remove_inflight st id
stream_tables st id ((elapsed, timed_out) ∷ waits) = stream_tables st id waits
stream_tables st id ((elapsed, event (RelayEvent.body bytes)) ∷ waits) = stream_tables st id waits
stream_tables st id ((elapsed, event RelayEvent.end) ∷ waits) = remove_inflight st id
stream_tables st id ((elapsed, event (RelayEvent.error code text)) ∷ waits) = remove_inflight st id
stream_tables st id ((elapsed, event (RelayEvent.start status headers)) ∷ waits) =
    stream_tables st id waits

-- The tables after the answer, with the removal that each exit of the loop that waits for `Start` has
-- of its own, and that of the body stream.
unfoldable pub await_tables : AppState → Uuid → ℕ → List Wait → AppState
unfolding remove_inflight stream_tables
await_tables st id deadline [] = remove_inflight st id
await_tables st id deadline ((elapsed, received) ∷ waits) =
    let later = await_tables st id deadline waits in
    if deadline - elapsed == 0 then remove_inflight st id else elim received [
      | closed ↦ remove_inflight st id
      | timed_out ↦ remove_inflight st id
      | event (RelayEvent.start status headers) ↦ stream_tables st id waits
      | event (RelayEvent.body bytes) ↦ later
      | event RelayEvent.end ↦ remove_inflight st id
      | event (RelayEvent.error code text) ↦ remove_inflight st id
    ]

unfoldable pub body_stream : List Bytes → List Wait → List Bytes
body_stream early_chunks waits = early_chunks ++ stream_rest waits

module _ (http : Http) where
  open http use {
    HeaderMap, HeaderValue, entries, append, empty, header_name, header_value, to_str, from_u16,
  }

  unfoldable pub flatten_entries : List (Text × HeaderValue) → Headers
  flatten_entries [] = []
  flatten_entries ((name, value) ∷ rest) =
      if is_hop_header name || eq_ignore_ascii_case name (codes "host")
      then flatten_entries rest
      else elim (to_str value) [
        | none ↦ flatten_entries rest
        | some text ↦ (name, text) ∷ flatten_entries rest
      ]

  unfoldable pub flatten_headers : HeaderMap → Headers
  flatten_headers headers = flatten_entries (entries headers)

  unfoldable pub apply_forwarded_headers : HeaderMap → Headers → HeaderMap
  apply_forwarded_headers headers [] = headers
  apply_forwarded_headers headers ((key, text) ∷ forwarded) =
      let next : HeaderMap = elim (header_name key) [
        | none ↦ headers
        | some name ↦ elim (header_value text) [
          | none ↦ headers
          | some value ↦ append headers name value
        ]
      ] in
      apply_forwarded_headers (if is_hop_header key then headers else next) forwarded

  pub data Response : Type 0 where
    -- `simple_response`
    simple : ℕ → Text → Response
    streamed : ℕ → HeaderMap → List Bytes → Response

  pub record Request : Type 0 where
    pub method : Text
    pub headers : HeaderMap
    pub body : List BodyItem

  -- The fresh identifier, the request's own channel, the channels' answers, and what other tasks
  -- do before the request is registered and from then until it is removed or left.
  pub record Context : Type 0 where
    pub json : Json
    pub request_id : Uuid
    pub tx : Sender
    pub accepts : Accepts
    pub before : List (Accepts × Op)
    pub meanwhile : List (Accepts × Op)

  -- The answer from the first wait on.
  unfoldable pub respond : Outcome → Response
  respond (failed status text) = simple status text
  respond (started status headers early_chunks waits) =
      streamed (get_or_else (from_u16 status) 502) (apply_forwarded_headers empty headers)
        (body_stream early_chunks waits)

  -- The registration of a request whose start was sent, among the acts of other tasks: the tables, and
  -- what those tasks sent.
  unfoldable pub registered : Context → AppState → AppState × List Sent
  registered c st =
      let st₁ = add_inflight (run st c.before) c.request_id c.tx in
      (run st₁ c.meanwhile, run_sent st c.before ++ run_sent st₁ c.meanwhile)

  -- `handle_ingress` once the tunnel's agent is known and the start was sent.
  unfoldable pub relay_request :
      Context → AppState → AgentHandle → Request → List Wait → AppState × List Sent × Response
  unfolding registered
  relay_request c st agent request waits =
      let st₂ = (registered c st).0 in
      let (frames, whole) =
        stream_request_body c.accepts agent.sender c.request_id agent.protocol_version 0
          request.body in
      let (last, delivered) =
        send_control c.json c.accepts agent.sender (ControlMessage.http_request_end c.request_id) in
      if not whole
      then (
        remove_inflight st₂ c.request_id,
        frames,
        simple 502 (codes "failed to stream request body"),
      )
      else if not delivered
      then (
        remove_inflight st₂ c.request_id,
        frames ++ last,
        simple 502 (codes "failed to deliver request end to agent"),
      )
      else (
        await_tables st₂ c.request_id (st.request_timeout_secs * 1_000_000_000) waits,
        frames ++ last,
        respond (await_start (st.request_timeout_secs * 1_000_000_000) waits []),
      )

  unfoldable pub handle_ingress :
      Context
      → AppState
      → Text
      → Text
      → Option Text
      → Request
      → List Wait
      → AppState × List Sent × Response
  unfolding relay_request
  handle_ingress c st tunnel_id tail_path path_and_query request waits =
      elim (get_agent st tunnel_id) [
        | none ↦ (st, [], simple 502 (codes "no connected agent for tunnel"))
        | some agent ↦
            let (sent, delivered) = send_control c.json c.accepts agent.sender (
              ControlMessage.http_request_start c.request_id request.method
                (extract_target_path path_and_query tunnel_id tail_path)
                (flatten_headers request.headers)) in
            let (st', out, response) = relay_request c st agent request waits in
            if not delivered
            then (st, [], simple 502 (codes "failed to deliver request start to agent"))
            else (st', sent ++ out, response)
      ]
