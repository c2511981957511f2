-- ===== src/Exchange/Sending.antt =====
-- crates/relay-server/src/http_ingress.rs: a request whose agent is connected and takes every message.
use tunely.Prelude.{ℕ, ◌≡◌, ◌*◌, refl, true, Option, some, List, [], ◌∷◌, ◌++◌}
use tunely.Prelude.Bytes.{Text}
use tunely.External.{Http}
use tunely.Protocol.Message.{ControlMessage, Json, Uuid}
use tunely.Agent.Handshake.{IsFaithful}
use tunely.Relay.Events.{Message, Sender, Accepts, Packet, message, send_control}
use tunely.Relay.State.{AppState, AgentHandle, get_agent}
use tunely.Relay.HttpIngress.{
  BodyItem, chunk, failed, Wait, Context, Request, respond, await_start, extract_target_path,
  flatten_headers, stream_request_body, relay_request, handle_ingress,
}
use tunely.Relay.HttpIngress.Upload.{HasFailure}

-- The receiver of a channel is there.
abbrev pub TakesAll : Accepts → Sender → Type 0
TakesAll accepts sender = (p : Packet) → accepts sender p ≡ true

pub stream_request_body-whole :
    (accepts : Accepts) (sender : Sender) (id : Uuid) (version : ℕ)
    → TakesAll accepts sender
    → (items : List BodyItem) (seq : ℕ) → ¬ HasFailure items
    → (stream_request_body accepts sender id version seq items).1 ≡ true
unfolding stream_request_body
stream_request_body-whole accepts sender id version takes [] seq readable = refl
stream_request_body-whole accepts sender id version takes (failed ∷ items) seq readable =
    absurd (readable tt)
stream_request_body-whole accepts sender id version takes (chunk [] ∷ items) seq readable =
    stream_request_body-whole accepts sender id version takes items seq readable
stream_request_body-whole accepts sender id version takes (chunk (b ∷ bs) ∷ items) seq readable =
    rw (takes _) (stream_request_body-whole accepts sender id version takes items _ readable)

-- A control message that is written as JSON goes out.
pub send_control-taken :
    (json : Json) (accepts : Accepts) (sender : Sender) (msg : ControlMessage)
    → TakesAll accepts sender
    → IsFaithful json msg
    → (text : Text) × (json.from_str text ≡ some msg)
      × (send_control json accepts sender msg ≡ ((sender, message (Message.text text)) ∷ [], true))
unfolding send_control
send_control-taken json accepts sender msg takes faithful =
    let (text, writes, reads) = faithful in
    (text, reads, rw (writes, send_control) (rw (takes (message (Message.text text))) refl))

-- The two control messages of a request.
abbrev pub start_message :
    (http : Http) → Context http → Text → Text → Option Text → Request http → ControlMessage
start_message http c tunnel_id tail_path path_and_query request =
    ControlMessage.http_request_start c.request_id request.method
      (extract_target_path path_and_query tunnel_id tail_path)
      (flatten_headers http request.headers)

abbrev pub end_message : (http : Http) → Context http → ControlMessage
end_message http c = ControlMessage.http_request_end c.request_id

-- What a request puts on the agent's channel and how it is answered, when all of it goes out.
pub handle_ingress-whole :
    (http : Http) (c : Context http) (st : AppState) (tunnel_id tail_path : Text)
    (path_and_query : Option Text) (request : Request http) (waits : List Wait)
    (agent : AgentHandle)
    → get_agent st tunnel_id ≡ some agent
    → TakesAll c.accepts agent.sender
    → IsFaithful c.json (start_message http c tunnel_id tail_path path_and_query request)
    → IsFaithful c.json (end_message http c)
    → ¬ HasFailure request.body
    → let start =
        send_control c.json c.accepts agent.sender
          (start_message http c tunnel_id tail_path path_and_query request) in
      let frames =
        stream_request_body c.accepts agent.sender c.request_id agent.protocol_version 0
          request.body in
      let last = send_control c.json c.accepts agent.sender (end_message http c) in
      let r = handle_ingress http c st tunnel_id tail_path path_and_query request waits in
      (r.1 ≡ start.0 ++ frames.0 ++ last.0)
      × (r.2 ≡ respond http (await_start (st.request_timeout_secs * 1_000_000_000) waits []))
unfolding handle_ingress relay_request
handle_ingress-whole http c st tunnel_id tail_path path_and_query request waits agent present takes
      starts ends readable =
    let (first, _, at_first) = send_control-taken c.json c.accepts agent.sender _ takes starts in
    let (last, _, at_last) = send_control-taken c.json c.accepts agent.sender _ takes ends in
    let whole =
      stream_request_body-whole c.accepts agent.sender c.request_id agent.protocol_version takes
        request.body 0 readable in
    rw (present, handle_ingress) (rw (at_first, at_last, whole, relay_request) (refl, refl))
