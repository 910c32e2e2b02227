-- ===== src/Tests/Toy.antt =====
-- A concrete host for packages/go/actionruntime, and a session with one tool.
use nova2sonici_osapp.Common.{ℕ, true, false, none, [], ◌==◌}
use nova2sonici_osapp.Common.Text.{codes}
use nova2sonici_osapp.Mcp.Types.{Json, Tool, unnamed, confirm_later}
use nova2sonici_osapp.Actions.Types.{Profile, Session, Host, Clock}
use nova2sonici_osapp.Actions.Discovery.{initial, bind_tool}
use nova2sonici_osapp.Actions.Planning.{Call}

abbrev pub toy_json : Json
toy_json = record {
  marshal = λ v. [];
  marshal_result = λ r. [];
  valid = λ t. true;
  canonical = λ t. t;
  object_members = λ t. none;
  string_value = λ t. none;
  schema_compiles = λ t. true;
  schema_accepts = λ s t. true;
}

abbrev pub toy : Host
toy = record {
  json = toy_json;
  sha256_hex = λ t. t;
  regexp_matches = λ p t. true;
  to_lower = λ t. t;
  is_punct = λ c. false;
  is_space = λ c. c == b' ';
  parse_rfc3339 = λ t. none;
}

abbrev pub cancel_tool : Tool
cancel_tool = record {
  server = codes "agenda";
  original_name = codes "cancel";
  host_policy = unnamed [];
  name = codes "agenda.cancel";
  description = codes "x";
  input_schema = codes "{}";
}

abbrev pub cancel_profile : Profile
cancel_profile = record {
  policy = confirm_later;
  direct = false;
  confirmation_phrase = codes "confirmo";
  allow_ui_confirmation = true;
  date_time_fields = [];
  intent_pattern = [];
}

abbrev pub offering : Session
offering =
    bind_tool (initial (codes "n")) (codes "agenda_cancel") cancel_tool (codes "{}") cancel_profile

abbrev pub at : ℕ → Clock
at n = record { first = n; second = n; third = n }

abbrev pub asks : Call
asks = record { id = codes "c1"; name = codes "agenda_cancel"; turn = codes "t1"; args = codes "7" }

abbrev pub asks_again : Call
asks_again = record {
  id = codes "c2";
  name = codes "agenda_cancel";
  turn = codes "t2";
  args = codes "7";
}
