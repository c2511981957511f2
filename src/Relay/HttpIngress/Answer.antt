-- ===== src/Relay/HttpIngress/Answer.antt =====
-- crates/relay-server/src/http_ingress.rs: the answer to the client, from the events of the agent.
use tunely.Prelude.{
  ℕ, ◌-◌, ◌≡◌, ◌<◌, ◌⊎◌, true, false, refl, ◌∙◌, ap, List, [], ◌∷◌, ◌++◌, arith, append_assoc,
  Bool-cases, inl, inr, if◌then◌else◌, ◌==◌,
}
use tunely.Prelude.Bytes.{Bytes, Text}
use tunely.Protocol.Message.{Headers}
use tunely.Relay.Events.{RelayEvent}
use tunely.Relay.HttpIngress.{
  Wait, Received, event, closed, timed_out, Outcome, await_start, stream_rest, body_stream,
}

-- The body chunks that come before the end of a response: its `End`, its error, or the closing of
-- its channel.
unfoldable pub chunks_before_end : List Wait → List Bytes
chunks_before_end [] = []
chunks_before_end ((t, event (RelayEvent.body bytes)) ∷ ws) = bytes ∷ chunks_before_end ws
chunks_before_end ((t, event (RelayEvent.start status headers)) ∷ ws) = chunks_before_end ws
chunks_before_end ((t, event RelayEvent.end) ∷ ws) = []
chunks_before_end ((t, event (RelayEvent.error code text)) ∷ ws) = []
chunks_before_end ((t, closed) ∷ ws) = []
chunks_before_end ((t, timed_out) ∷ ws) = chunks_before_end ws

-- `Start` with this status and these headers is the first event that is not a body chunk, and it
-- and the chunks before it come in time.
abbrev pub StartsWith : ℕ → List Wait → ℕ → Headers → Type 0
StartsWith deadline [] status headers = ⊥
StartsWith deadline ((t, event (RelayEvent.start s h)) ∷ ws) status headers =
    (t < deadline) × (s ≡ status) × (h ≡ headers)
StartsWith deadline ((t, event (RelayEvent.body bytes)) ∷ ws) status headers =
    (t < deadline) × StartsWith deadline ws status headers
StartsWith deadline (w ∷ ws) status headers = ⊥

stream_rest-chunks : (ws : List Wait) → stream_rest ws ≡ chunks_before_end ws
unfolding stream_rest chunks_before_end
stream_rest-chunks [] = refl
stream_rest-chunks ((t, event (RelayEvent.body bytes)) ∷ ws) =
    ap (◌∷◌ bytes) (stream_rest-chunks ws)
stream_rest-chunks ((t, event (RelayEvent.start status headers)) ∷ ws) = stream_rest-chunks ws
stream_rest-chunks ((t, event RelayEvent.end) ∷ ws) = refl
stream_rest-chunks ((t, event (RelayEvent.error code text)) ∷ ws) = refl
stream_rest-chunks ((t, closed) ∷ ws) = refl
stream_rest-chunks ((t, timed_out) ∷ ws) = stream_rest-chunks ws

-- What an answer amounts to, given all the events and the chunks read before them.
abbrev pub Answers : ℕ → List Wait → List Bytes → Outcome → Type 0
Answers deadline ws early (Outcome.started status headers chunks rest) =
    StartsWith deadline ws status headers
    × (body_stream chunks rest ≡ early ++ chunks_before_end ws)
Answers deadline ws early (Outcome.failed status text) =
    ((s : ℕ) (h : Headers) → ¬ StartsWith deadline ws s h) × ((status ≡ 502) ⊎ (status ≡ 504))

in_time : (deadline t : ℕ) → (deadline - t == 0) ≡ false → t < deadline
in_time deadline t h = ground arith

late : (deadline t : ℕ) → (deadline - t == 0) ≡ true → ¬ (t < deadline)
late deadline t h = λ k. ground arith

-- A chunk that comes in time joins the chunks read so far.
chunk-Answers :
    (deadline t : ℕ) (bytes : Bytes) (ws : List Wait) (early : List Bytes) (o : Outcome)
    → t < deadline
    → Answers deadline ws (early ++ (bytes ∷ [])) o
    → Answers deadline ((t, event (RelayEvent.body bytes)) ∷ ws) early o
unfolding chunks_before_end
chunk-Answers deadline t bytes ws early (Outcome.started status headers chunks rest) h (starts, e) =
    ((h, starts), e ∙ append_assoc early (bytes ∷ []) (chunks_before_end ws))
chunk-Answers deadline t bytes ws early (Outcome.failed status text) h (never, code) =
    (λ s hs k. never s hs k.1, code)

StartsWith-in_time :
    (deadline t : ℕ) (r : Received) (ws : List Wait) (status : ℕ) (headers : Headers)
    → StartsWith deadline ((t, r) ∷ ws) status headers
    → t < deadline
StartsWith-in_time deadline t (event (RelayEvent.start s h)) ws status headers k = k.0
StartsWith-in_time deadline t (event (RelayEvent.body bytes)) ws status headers k = k.0
StartsWith-in_time deadline t r ws status headers k = absurd k

-- After the deadline the relay answers by itself, whatever comes next.
timed-Answers :
    (deadline t : ℕ) (r : Received) (ws : List Wait) (early : List Bytes) (text : Text)
    (o : Outcome)
    → (t < deadline → Answers deadline ((t, r) ∷ ws) early o)
    → Answers deadline
        ((t, r) ∷ ws)
        early
        (if deadline - t == 0 then Outcome.failed 504 text else o)
timed-Answers deadline t r ws early text o soon = elim (Bool-cases (deadline - t == 0)) [
  | inl over ↦
      rw over (λ s h k. late deadline t over (StartsWith-in_time deadline t r ws s h k), inr refl)
  | inr not_over ↦ rw not_over (soon (in_time deadline t not_over))
]

await_start-Answers :
    (deadline : ℕ) (ws : List Wait) (early : List Bytes)
    → Answers deadline ws early (await_start deadline ws early)
unfolding await_start body_stream chunks_before_end
await_start-Answers deadline [] early = (λ s h k. k, inr refl)
await_start-Answers deadline ((t, event (RelayEvent.body bytes)) ∷ ws) early =
    timed-Answers deadline t (event (RelayEvent.body bytes)) ws early _ _ λ soon.
      chunk-Answers deadline t bytes ws early _ soon
        (await_start-Answers deadline ws (early ++ (bytes ∷ [])))
await_start-Answers deadline ((t, event (RelayEvent.start status headers)) ∷ ws) early =
    timed-Answers deadline t (event (RelayEvent.start status headers)) ws early _
      (Outcome.started status headers early ws)
      λ soon. ((soon, refl, refl), ap (◌++◌ early) (stream_rest-chunks ws))
await_start-Answers deadline ((t, event RelayEvent.end) ∷ ws) early =
    timed-Answers deadline t (event RelayEvent.end) ws early _ _ λ soon. (λ s h k. k, inl refl)
await_start-Answers deadline ((t, event (RelayEvent.error code text)) ∷ ws) early =
    timed-Answers deadline t (event (RelayEvent.error code text)) ws early _ _
      λ soon. (λ s h k. k, inl refl)
await_start-Answers deadline ((t, closed) ∷ ws) early =
    timed-Answers deadline t closed ws early _ _ λ soon. (λ s h k. k, inl refl)
await_start-Answers deadline ((t, timed_out) ∷ ws) early =
    timed-Answers deadline t timed_out ws early _ _ λ soon. (λ s h k. k, inr refl)

-- The relay passes the agent's answer on exactly when its start comes in time with nothing but body
-- chunks before it. The client then gets, in order and without loss, all the chunks that come
-- before the end of the response, also those that came before the start; in every other case the
-- relay answers by itself, with status 502 or 504.
pub await_start_lem :
    (deadline : ℕ) (waits : List Wait) → Answers deadline waits [] (await_start deadline waits [])
await_start_lem deadline waits = await_start-Answers deadline waits []
