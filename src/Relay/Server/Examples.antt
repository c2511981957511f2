-- ===== src/Relay/Server/Examples.antt =====
-- The start of the relay of crates/relay-server/src/main.rs at concrete arguments.
use tunely.Prelude.{◌≡◌, ◌↔◌, refl, true, false, none, some, List, [], ◌∷◌, is_empty, inl, inr}
use tunely.Prelude.Bytes.{Text, codes, uuid, text_eq}
use tunely.Prelude.Split.{trim, trim_start, trim_end, space_len}
use tunely.Protocol.Message.{ControlMessage, Json}
use tunely.Relay.Events.{Accepts}
use tunely.Relay.Config.{
  Config, FileConfig, Files, no_tokens, normalize_token_list, normalize_onto, insert_token,
  load_file_config, file_tokens, validate_resolved, apply_file, apply_arguments, from_file, resolve,
}
use tunely.Relay.State.{AppState, new}
use tunely.Relay.State.Steps.{Op, run}
use tunely.Relay.WsSession.{Session, register}
use tunely.Relay.WsSession.Register.{Admissible}
use tunely.Relay.Server.{app, main, serve, refused, not_bound, serving}
use tunely.Relay.Server.Tokens.{configured}
use tunely.Relay.Server.Start.{started_relay_admits}

abbrev file_cfg : FileConfig
file_cfg = record {
  listen = some (codes "0.0.0.0:9000");
  auth_tokens = some (codes " tok " ∷ codes "other" ∷ []);
  request_timeout_secs = none;
}

-- One file, which the YAML reader knows.
abbrev files : Files
files = record {
  Value = Text;
  read_to_string = λ path. some (codes "listen: x");
  from_str = λ raw. some raw;
  is_null = is_empty;
  from_value = λ v. some file_cfg;
}

abbrev arguments : Config
arguments = record {
  config = some (codes "relay.yaml");
  listen = none;
  auth_tokens = none;
  request_timeout_secs = none;
}

abbrev tables : AppState
tables = new (codes "other" ∷ codes "tok" ∷ []) 60

starts : main files (λ address. true) arguments ≡ serving (codes "0.0.0.0:9000") tables app
unfolding main serve resolve from_file load_file_config apply_file file_tokens apply_arguments
    validate_resolved normalize_token_list normalize_onto insert_token trim trim_start trim_end
    space_len text_eq
starts = refl

-- No tokens, no relay.
no_tokens_run :
    main files (λ address. true) (record arguments { config = none }) ≡ refused no_tokens
unfolding main serve resolve from_file apply_arguments validate_resolved trim trim_start trim_end
    space_len
no_tokens_run = refl

port_taken : main files (λ address. false) arguments ≡ not_bound (codes "0.0.0.0:9000")
unfolding main serve resolve from_file load_file_config apply_file file_tokens apply_arguments
    validate_resolved normalize_token_list normalize_onto insert_token trim trim_start trim_end
    space_len text_eq
port_taken = refl

abbrev register_demo : ControlMessage
register_demo = ControlMessage.register_agent (codes "demo") (codes "tok") (some 2) []

abbrev json : Json
json = record { to_string = λ msg. some (codes "{}"); from_str = λ text. some register_demo }

abbrev session : Session
session = record { json = json; digits = λ n. n ∷ []; out_tx = 10; connection_id = uuid 1 }

abbrev always : Accepts
always = λ s p. true

abbrev history : List (Accepts × Op)
history = (always, Op.add_inflight (uuid 3) 11) ∷ []

started_relay_admits_example :
    ((register session always (run tables history) register_demo).2 ≡ some (codes "demo"))
    ↔ Admissible
        (record (run tables history) { auth_tokens = configured none file_cfg })
        register_demo
        (codes "demo")
unfolding load_file_config trim trim_start trim_end space_len
started_relay_admits_example =
    started_relay_admits files (λ address. true) arguments none file_cfg (codes "0.0.0.0:9000")
      tables app history session always register_demo (codes "demo") (inl (refl, refl))
      (inr (codes "relay.yaml", refl, refl)) starts
