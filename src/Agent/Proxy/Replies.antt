-- ===== src/Agent/Proxy/Replies.antt =====
-- crates/agent/src/relay_client.rs and crates/relay-server/src/ws_session.rs: how the relay takes the
-- messages that an agent sends, and the chunks of a response among them.
use tunely.Prelude.{
  ℕ, ◌≡◌, ◌+◌, ◌%◌, ◌^◌, ◌<◌, refl, true, false, List, [], ◌∷◌, ◌++◌, Option, none, some, map,
  arith, length, append_assoc, Bool-cases, inl, inr,
}
use tunely.Prelude.Bytes.{Bytes}
use tunely.Prelude.Map.{lookup}
use tunely.Protocol.{is_supported_protocol_version}
use tunely.Protocol.Message.{Uuid}
use tunely.Protocol.Frame.{ChunkHeader, StreamKind, encode_chunk_frame_with_version}
use tunely.Agent.Events.{Message, Sent, Accepts, to_relay}
use tunely.Agent.Proxy.{BodyItem, chunk, failed, stream_response_body}
use tunely.Relay.Events
use tunely.Relay.State.{AppState, notify_body, notify_open}
use tunely.Relay.WsSession.{Session, Incoming, turn}
use tunely.Relay.WsSession.Dispatch.{handle_binary_message-response_body}

-- What the relay receives for a message that the agent's websocket took; raw frames do not arrive as
-- such.
unfoldable pub received_as : Message → Option Events.Message
received_as (Message.text t) = some (Events.Message.text t)
received_as (Message.binary b) = some (Events.Message.binary b)
received_as (Message.ping b) = some (Events.Message.ping b)
received_as (Message.pong b) = some (Events.Message.pong b)
received_as (Message.close none) = some (Events.Message.close none)
received_as (Message.close (some (code, reason))) =
    some (Events.Message.close (some (record { code = code; reason = reason })))
received_as (Message.raw_frame b) = none

unfoldable pub take_one : Session → Events.Accepts → AppState → Sent → AppState × List Events.Sent
unfolding received_as
take_one s ok st (tx, to_relay m) = elim (received_as m) [
  | none ↦ (st, [])
  | some msg ↦ let (st', out, _) = turn s ok st (Incoming.received msg) in (st', out)
]
take_one s ok st (tx, p) = (st, [])

-- The relay's session handles, in order, what the agent sent.
unfoldable pub take_replies :
    Session → Events.Accepts → AppState → List Sent → AppState × List Events.Sent
take_replies s ok st [] = (st, [])
take_replies s ok st (e ∷ es) =
    let (st₁, out₁) = take_one s ok st e in
    let (st₂, out₂) = take_replies s ok st₁ es in (st₂, out₁ ++ out₂)

pub take_replies-append :
    (s : Session) (ok : Events.Accepts) (xs ys : List Sent) (st : AppState)
    → let first = take_replies s ok st xs in
      let second = take_replies s ok first.0 ys in
      take_replies s ok st (xs ++ ys) ≡ (second.0, first.1 ++ second.1)
unfolding take_replies
take_replies-append s ok [] ys st = refl
take_replies-append s ok (x ∷ xs) ys st =
    rw (take_replies-append s ok xs ys (take_one s ok st x).0)
      (rw (append_assoc (take_one s ok st x).1))

-- The non-empty chunks of a response before a read error.
unfoldable pub nonempty : List BodyItem → List Bytes
nonempty [] = []
nonempty (failed ∷ items) = []
nonempty (chunk [] ∷ items) = nonempty items
nonempty (chunk (b ∷ bs) ∷ items) = (b ∷ bs) ∷ nonempty items

-- Events on the channel of a request.
abbrev pub events : Events.Sender → List Events.RelayEvent → List Events.Sent
events tx = map (λ e. (tx, Events.relay_event e))

-- A request's channel is open.
abbrev pub IsOpen : Events.Accepts → Events.Sender → Type 0
IsOpen ok tx = (e : Events.RelayEvent) → ok tx (Events.relay_event e) ≡ true

module _ (s : Session) (ok : Events.Accepts) (st : AppState) (id : Uuid) (tx : Events.Sender) where
  take_chunk :
      lookup id st.inflight ≡ some tx
      → IsOpen ok tx
      → (relay_tx version seq : ℕ) (bytes : Bytes) → is_supported_protocol_version version ≡ true
      → length id ≡ 16
      → seq < 2 ^ 32
      → take_one s ok st (
        relay_tx,
        to_relay (
            Message.binary (
              encode_chunk_frame_with_version version
                (record {
                  kind = StreamKind.response_body;
                  request_id = id;
                  seq = seq;
                  fin = false;
                })
                bytes)),
      )
        ≡ (st, events tx (Events.RelayEvent.body bytes ∷ []))
  unfolding take_one turn
  take_chunk waiting takes relay_tx version seq bytes supported l h =
      let header : ChunkHeader = record {
        kind = StreamKind.response_body;
        request_id = id;
        seq = seq;
        fin = false;
      } in
      rw
        (handle_binary_message-response_body ok st version header bytes supported
          (record { id_length = l; seq_bound = h }) refl)
        (unfold notify_body in rw (waiting, notify_open) (rw (takes, notify_open)))

  pub take_body :
      lookup id st.inflight ≡ some tx
      → IsOpen ok tx
      → (accepts : Accepts) (relay_tx version : ℕ) → is_supported_protocol_version version ≡ true
      → length id ≡ 16
      → (items : List BodyItem) (seq : ℕ) → seq < 2 ^ 32
      → (stream_response_body accepts relay_tx id version seq items).1 ≡ true
      → take_replies s ok st (stream_response_body accepts relay_tx id version seq items).0
        ≡ (st, events tx (map Events.RelayEvent.body (nonempty items)))
  unfolding take_replies nonempty stream_response_body
  take_body waiting takes accepts relay_tx version supported l [] seq h whole = refl
  take_body waiting takes accepts relay_tx version supported l (failed ∷ items) seq h whole = cc
  take_body waiting takes accepts relay_tx version supported l (chunk [] ∷ items) seq h whole =
      take_body waiting takes accepts relay_tx version supported l items seq h whole
  take_body waiting takes accepts relay_tx version supported l (chunk (b ∷ bs) ∷ items) seq h
        whole =
      let rest =
        take_body waiting takes accepts relay_tx version supported l items ((seq + 1) % 2 ^ 32)
          (omega arith) in
      let one = take_chunk waiting takes relay_tx version seq (b ∷ bs) supported l h in
      let frame = to_relay (
        Message.binary (
          encode_chunk_frame_with_version version
            (record { kind = StreamKind.response_body; request_id = id; seq = seq; fin = false })
            (b ∷ bs))) in
      elim (Bool-cases (accepts relay_tx frame)) [
        | inl taken ↦ rw taken (rw one (rw (rest (rw taken at whole))))
        | inr refused ↦ let stopped : false ≡ true = rw refused at whole in cc stopped
      ]
