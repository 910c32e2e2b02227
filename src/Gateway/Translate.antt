-- ===== src/Gateway/Translate.antt =====
-- apps/voice-gateway/internal/adapters/voice/agent_handler.go, agentCommandFromVoice and
-- voiceEventFromAgent: one contract translated into the other.
use nova2sonici_osapp.Common.{
  Bool, true, false, ◌&&◌, Option, none, some, [], is_nil, if◌then◌else◌,
}
use mathlib.Core.Option
use nova2sonici_osapp.Common.Fallible.{Fallible, ok, err, ◌>>=◌}
use nova2sonici_osapp.Common.Text.{codes}
use nova2sonici_osapp.Voice.Event
use nova2sonici_osapp.Voice.Event.{
  EventType, session_ready, session_state, session_stop, session_stopped, session_renewed,
  audio_append, turn_commit, turn_cancel, transcript, audio_output, tool_confirm, error, other,
  Base64, decode_audio, blank,
}
use nova2sonici_osapp.AgentWire.Types
use nova2sonici_osapp.AgentWire.Types.{
  Command, CommandType, input_audio, input_commit, input_cancel, input_confirmation, input_close,
  agent_session_ready, agent_session_state, agent_session_renewed, agent_session_closed,
  output_audio, output_transcript, agent_error, ui_a2ui, other_event,
}

abbrev pub command : CommandType → Event.Event → Command
command kind e = record {
  kind = kind;
  session_id = e.session_id;
  turn_id = e.turn_id;
  sequence = e.sequence;
  audio = [];
  operation_id = [];
  approved = false;
}

confirmation : Event.Event → Option (Fallible Command)
confirmation e = elim e.tool [
  | none ↦ none
  | some t ↦ elim t.approved [
    | none ↦ none
    | some approved ↦ some (
        ok (record (command input_confirmation e) {
          operation_id = t.operation_id;
          approved = approved;
        }))
  ]
]

command_of : Base64 → EventType → Event.Event → Option (Fallible Command)
unfolding confirmation
command_of b64 audio_append e =
    some (do pcm ← decode_audio b64 e.audio; ok (record (command input_audio e) { audio = pcm }))
command_of b64 turn_commit e = some (ok (command input_commit e))
command_of b64 turn_cancel e = some (ok (command input_cancel e))
command_of b64 tool_confirm e = confirmation e
command_of b64 session_stop e = some (ok (command input_close e))
command_of b64 _ e = some (err (codes "session is already started"))

-- `none` is a panic: Go follows the pointers `event.Tool` and `event.Tool.Approved` untested.
unfoldable pub agent_command_from_voice : Base64 → Event.Event → Option (Fallible Command)
unfolding command_of
agent_command_from_voice b64 e = command_of b64 e.kind e

abbrev ui_event : EventType
ui_event = other (codes "ui.a2ui")

-- The type of the client's event.
unfoldable pub voice_type : Types.EventType → Option EventType
voice_type agent_session_ready = some session_ready
voice_type agent_session_state = some session_state
voice_type agent_session_renewed = some session_renewed
voice_type agent_session_closed = some session_stopped
voice_type ui_a2ui = some ui_event
voice_type output_audio = some audio_output
voice_type output_transcript = some transcript
voice_type Types.turn_started = some Event.turn_started
voice_type Types.turn_completed = some Event.turn_completed
voice_type Types.turn_interrupted = some Event.turn_interrupted
voice_type Types.tool_started = some Event.tool_started
voice_type Types.tool_result = some Event.tool_result
voice_type Types.tool_confirmation = some Event.tool_confirmation
voice_type agent_error = some error
voice_type (other_event _) = none

abbrev is_ui : Types.EventType → Bool
is_ui ui_a2ui = true
is_ui _ = false

abbrev is_output : Types.EventType → Bool
is_output output_audio = true
is_output _ = false

abbrev voice_tool : Types.Tool → Event.Tool
voice_tool t = record {
  operation_id = t.operation_id;
  name = t.name;
  arguments = t.arguments;
  result = t.result;
  approved = none;
}

converted : Base64 → EventType → Types.Event → Event.Event
converted b64 kind e = record (blank kind) {
  turn_id = e.turn_id;
  sequence = e.sequence;
  provider = e.provider;
  state = e.state;
  sample_rate = e.sample_rate;
  text = e.text;
  role = e.role;
  stage = e.stage;
  code = e.code;
  message = e.message;
  ui = if is_ui e.kind then e.ui else [];
  audio = if is_output e.kind then b64.encode e.audio else [];
  metrics = e.metrics;
  tool = Option.map voice_tool e.tool;
}

unfoldable pub voice_event_from_agent : Base64 → Types.Event → Fallible Event.Event
unfolding converted
voice_event_from_agent b64 e = elim (voice_type e.kind) [
  | none ↦ err (codes "unsupported agent event")
  | some kind ↦
      if is_output e.kind && is_nil e.audio
      then err (codes "empty agent audio")
      else ok (converted b64 kind e)
]
