-- ===== src/Agent/Connection/Cleanup.antt =====
-- crates/agent/src/relay_client.rs: what `run_once` leaves behind when a connection ends.
use tunely.Prelude.{
  ℕ, ◌≡◌, ◌∙◌, refl, ap, Bool, true, false, Option, none, some, List, [], ◌∷◌, ◌++◌, arith,
  Option-cases, inl, inr,
}
use tunely.Prelude.Bytes.{Text}
use tunely.Protocol.{is_supported_protocol_version}
use tunely.Protocol.Message.{ControlMessage, Json}
use tunely.Agent.Events.{Message}
use tunely.Agent.Handshake.{
  Config, ok, err, RegisterError, RegisterAckInfo, AckRead, read_ack, wait_register_ack,
}
use tunely.Agent.RelayClient.{RuntimeCtx, Tables, turn}
use tunely.Agent.WsStream.{apply_ops}
use tunely.Agent.Connection.{
  Read, Round, Returned, Start, round, connection_loop, no_tables, context, finish, send_register,
  run_once,
}

read_ack-supported :
    (msg : ControlMessage) (info : RegisterAckInfo)
    → read_ack msg ≡ ok info
    → is_supported_protocol_version info.relay_protocol_version ≡ true
unfolding read_ack
read_ack-supported (ControlMessage.register_ack true reason version capabilities) info e =
    ground arith
read_ack-supported (ControlMessage.register_ack false reason version capabilities) info e =
    absurd (cc e)
read_ack-supported msg info e = absurd (cc e)

wait_register_ack-supported :
    (json : Json) (ack : AckRead) (info : RegisterAckInfo)
    → wait_register_ack json ack ≡ ok info
    → is_supported_protocol_version info.relay_protocol_version ≡ true
unfolding wait_register_ack
wait_register_ack-supported json AckRead.timed_out info e = absurd (cc e)
wait_register_ack-supported json AckRead.closed info e = absurd (cc e)
wait_register_ack-supported json AckRead.read_failed info e = absurd (cc e)
wait_register_ack-supported json (AckRead.received (Message.text text)) info e =
    elim (Option-cases (json.from_str text)) [
      | inl unread ↦ absurd (
          let bad : err RegisterError.invalid_json ≡ ok info =
            rw (unread, wait_register_ack) at e in
          cc bad)
      | inr (msg, read) ↦ read_ack-supported msg info (rw (read, wait_register_ack) at e)
    ]
wait_register_ack-supported json (AckRead.received msg) info e = absurd (cc e)

-- A loop that goes on through some rounds goes on from what they left.
connection_loop-append :
    (json : Json) (ctx : RuntimeCtx) (t : Tables) (before after : List Round)
    → (connection_loop json ctx t before).3 ≡ none
    → let rest = connection_loop json ctx (connection_loop json ctx t before).0 after in
      ((connection_loop json ctx t (before ++ after)).0 ≡ rest.0)
      × ((connection_loop json ctx t (before ++ after)).3 ≡ rest.3)
unfolding connection_loop
connection_loop-append json ctx t [] after h = (refl, refl)
connection_loop-append json ctx t (r ∷ before) after h =
    let t₁ = record t { ws_sessions = apply_ops t.ws_sessions r.others } in
    elim (Option-cases (round json ctx t₁ r r.read).3) [
      | inl goes_on ↦
          rw (goes_on, connection_loop)
            (connection_loop-append json ctx (round json ctx t₁ r r.read).0 before after
              (rw (goes_on, connection_loop) at h))
      | inr (how, returned) ↦
          absurd (let over : some how ≡ none = rw (returned, connection_loop) at h in cc over)
    ]

module _ (json : Json) (config : Config) (start : Start) (registered : Message)
    (info : RegisterAckInfo) (connects : start.connects ≡ true)
    (sent : send_register json start.takes config ≡ some registered)
    (acked : wait_register_ack json start.ack ≡ ok info) (before after : List Round)
    (goes_on : (connection_loop json (context config start.out_tx info) no_tables before).3
      ≡ none) where
  -- The tables and the return after a last round.
  run_once-last :
      (r : Round) (t : Tables) (how : Bool)
      → let here = (connection_loop json (context config start.out_tx info) no_tables before).0 in
        (connection_loop json (context config start.out_tx info) here (r ∷ after)).0 ≡ t
        → (connection_loop json (context config start.out_tx info) here (r ∷ after)).3 ≡ some how
        → ((run_once json config start (before ++ (r ∷ after))).0 ≡ finish t (some how))
          × ((run_once json config start (before ++ (r ∷ after))).3 ≡ some how)
  unfolding run_once
  run_once-last r t how left returned =
      let (tables, result) =
        connection_loop-append json (context config start.out_tx info) no_tables before (r ∷ after)
          goes_on in
      rw (connects, sent, acked, run_once)
        (
          ap (λ (x : Tables × Returned). finish x.0 x.1)
              (λ i. ((tables ∙ left) i, (result ∙ returned) i)),
          result ∙ returned,
        )

-- A registered connection that goes on through some rounds and then ends: `run_once` returns without
-- an error and with both tables empty if the relay closes the connection or its stream ends; but a
-- read error makes it return at once with an error, and while its own table of requests is dropped with
-- it, the table that it shares with the tasks of the streams keeps every stream. Either way the frame version that the connection used is a supported one.
pub run_once_last_round :
    (json : Json) (config : Config) (start : Start) (registered : Message) (info : RegisterAckInfo)
    (before after : List Round) (r : Round) (close : Option (ℕ × Text))
    → start.connects ≡ true
    → send_register json start.takes config ≡ some registered
    → wait_register_ack json start.ack ≡ ok info
    → (connection_loop json (context config start.out_tx info) no_tables before).3 ≡ none
    → let ctx = context config start.out_tx info in
      let t = connection_loop json ctx no_tables before in
      let run = λ (read : Read).
        run_once json config start (before ++ (record r { read = read } ∷ after)) in
      ((run Read.ended).0 ≡ no_tables)
      × ((run Read.ended).3 ≡ some true)
      × ((run (Read.received (Message.close close))).0 ≡ no_tables)
      × ((run (Read.received (Message.close close))).3 ≡ some true)
      × ((run Read.read_failed).0
          ≡ record { inflight = []; ws_sessions = apply_ops t.0.ws_sessions r.others })
      × ((run Read.read_failed).3 ≡ some false)
      × (is_supported_protocol_version ctx.relay_frame_version ≡ true)
unfolding connection_loop finish turn context
run_once_last_round json config start registered info before after r close connects sent acked
      goes_on =
    let here = (connection_loop json (context config start.out_tx info) no_tables before).0 in
    let t = record here { ws_sessions = apply_ops here.ws_sessions r.others } in
    let last =
      run_once-last json config start registered info connects sent acked before after goes_on in
    let (ended_tables, ended_result) = last (record r { read = Read.ended }) t true refl refl in
    let (closed_tables, closed_result) =
      last (record r { read = Read.received (Message.close close) }) t true refl refl in
    let (failed_tables, failed_result) =
      last (record r { read = Read.read_failed }) t false refl refl in
    (
      ended_tables,
      ended_result,
      closed_tables,
      closed_result,
      failed_tables,
      failed_result,
      wait_register_ack-supported json start.ack info acked,
    )
