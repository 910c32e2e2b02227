-- ===== src/Tests/Assistant.antt =====
-- apps/personal-assistant-agent/internal/agent: a session in which the model asks for the same mutation
-- twice.
use nova2sonici_osapp.Common.{
  ℕ, ◌≤◌, ◌≡◌, refl, true, false, some, List, [], ◌∷◌, ◌++◌, ◌+◌, arith, length,
}
use nova2sonici_osapp.Common.Assoc.{lookup, insert, delete, has}
use nova2sonici_osapp.Common.Text.{Text, codes, eq_text}
use nova2sonici_osapp.Mcp.Types.{explicit_intent, validate, eq_policy, text_result, failure}
use nova2sonici_osapp.Actions.Types.{Profile, Session}
use nova2sonici_osapp.Actions.Discovery.{initial, bind_tool, tool_key}
use nova2sonici_osapp.Actions.Run
use nova2sonici_osapp.Actions.Run.{Op}
use nova2sonici_osapp.Realtime.Types
use nova2sonici_osapp.Realtime.Types.{content_start, tool_use, content_end, state_name}
use nova2sonici_osapp.Realtime.Mapper.{new_mapper, is_responding, state_event}
use nova2sonici_osapp.Realtime.Mapping.{
  map_event, map_kind, start_content, find_content, on_content, use_tool, end_content,
}
use nova2sonici_osapp.Voice.Id.{valid_id}
use nova2sonici_osapp.Actions.Planning.{
  plan, check_dates, check_arguments, check_limits, check_cache, check_attempted, check_approval,
  conflicts, check_intent, admit, refuse,
}
use nova2sonici_osapp.Assistant.Calls.{observes_now, finish_words}
use nova2sonici_osapp.Assistant.State.{Config, State, World, Tools, Output, starts}
use nova2sonici_osapp.Assistant.Loop.{Signal, provider, turn_timed_out, step, run}
use nova2sonici_osapp.Assistant.Plain.{started}
use nova2sonici_osapp.Assistant.Once.{started-le-one, run-few}
use nova2sonici_osapp.Assistant.Awaited.{run-answered}
use nova2sonici_osapp.Assistant.Answered.{IsTimed}
use nova2sonici_osapp.Tests.Toy.{toy, cancel_tool, cancel_profile, at}
use nova2sonici_osapp.Tests.Voice.{toy_base64}

abbrev config : Config
config = record {
  session_id = codes "s1";
  has_evidence = false;
  host = toy;
  base64 = toy_base64;
  trim_space = λ t. t;
}

abbrev direct_profile : Profile
direct_profile = record cancel_profile { policy = explicit_intent; direct = true }

abbrev offering : Session
offering =
    bind_tool (initial (codes "n")) (codes "agenda_cancel") cancel_tool (codes "{}") direct_profile

abbrev tools : Tools
tools = record { session = offering; active = []; staged = [] }

abbrev world : World
world = record {
  machine = record { now = 1; elapsed = 1; fresh = codes "f" };
  clock = at 1;
  writes = λ e. true;
  takes_audio = true;
  takes_result = true;
  reopens = true;
  persists = true;
}

abbrev beginning : State
beginning = record {
  mapper = record (new_mapper []) { turn_id = codes "t1" };
  tools = some tools;
  input_id = [];
  input_sequence = 0;
  used_inputs = [];
  opened_at = 1;
  timed = false;
  user_texts = [];
  user_turns = [];
  completed_user = [];
  completed_user_turn = [];
  ended = false;
}

-- The provider's events of a call.
abbrev asks : Text → Text → List (World × Signal)
asks content id =
    (
      world,
      provider (record (Types.blank content_start) {
        content_id = content;
        content_type = codes "TOOL";
        role = codes "TOOL";
      }),
    )
    ∷ (
      world,
      provider (record (Types.blank tool_use) {
        content_id = content;
        tool_id = id;
        tool_name = codes "agenda_cancel";
        tool_arguments = codes "7";
      }),
    )
    ∷ (world, provider (record (Types.blank content_end) { content_id = content }))
    ∷ []

abbrev twice : List (World × Signal)
twice = asks (codes "x1") (codes "c1") ++ asks (codes "x2") (codes "c2")

abbrev key : Text
key = tool_key toy (codes "n") (codes "agenda.cancel") (codes "7")

started-le-one_example : started offering.tools key (run config twice beginning).1 ≤ 1
started-le-one_example = started-le-one config key twice tools beginning refl

run-few_example :
    (t' : Tools) × (ops : List Op) × ((run config twice beginning).0.tools ≡ some t')
    × (length t'.active ≤ 4)
    × (length t'.staged ≤ 32)
    × (t'.session ≡ Run.run toy ops offering)
run-few_example = run-few config twice tools beginning refl (omega arith) (omega arith)

abbrev jobs : List Output → ℕ
jobs [] = 0
jobs (starts j ∷ os) = 1 + jobs os
jobs (_ ∷ os) = jobs os

opened : Unit {0}
unfolding state_event state_name run map_event map_kind start_content new_mapper observes_now
    find_content on_content use_tool end_content finish_words plan valid_id lookup insert delete has
    eq_text check_dates check_arguments check_limits check_cache check_attempted check_approval
    conflicts validate eq_policy tool_key check_intent admit refuse text_result failure
opened = tt

-- The second call starts nothing.
started-run : started offering.tools key (run config twice beginning).1 ≡ 1
unfolding opened started
started-run = refl

jobs-run : jobs (run config twice beginning).1 ≡ 1
unfolding opened
jobs-run = refl

-- The provider starts to answer.
abbrev answering : List (World × Signal)
answering =
    (
      world,
      provider (record (Types.blank content_start) {
        content_id = codes "x1";
        content_type = codes "AUDIO";
        role = codes "ASSISTANT";
      }),
    )
    ∷ []

beginning-IsTimed : IsTimed beginning
unfolding opened
beginning-IsTimed = record { timed = λ r. cc; calls = refl }

goes_on : (run config answering beginning).0.ended ≡ false
unfolding opened
goes_on = refl

responds : is_responding (run config answering beginning).0.mapper.state ≡ true
unfolding opened
responds = refl

run-answered_example :
    ((run config answering beginning).0.timed ≡ true)
    × ((step config world turn_timed_out (run config answering beginning).0).0.ended ≡ true)
run-answered_example =
    run-answered config answering beginning world beginning-IsTimed goes_on responds
