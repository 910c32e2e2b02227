-- ===== src/AgentWire/Protocol.antt =====
-- packages/go/agentwire/protocol.go: which messages are accepted. A method that returns an error
-- alone is a `Fallible Unit`.
use nova2sonici_osapp.Common.{
  ℕ, ◌%◌, ◌*◌, Bool, true, false, not, ◌&&◌, ◌||◌, Option, none, some, List, [], ◌∷◌, is_some,
  is_nil, ltb, leb, ◌==◌, all, length, if◌then◌else◌,
}
use nova2sonici_osapp.Common.Fallible.{Fallible, ok, err, reject_if, ◌>>=◌, ◌>>◌}
use nova2sonici_osapp.Common.Int.{positive}
use nova2sonici_osapp.Common.Text.{Text, codes, is_empty, eq_text, len}
use nova2sonici_osapp.Voice.Id.{is_alphanumeric}
use nova2sonici_osapp.AgentWire.Types.{
  CommandType, input_audio, input_commit, input_cancel, input_confirmation, input_close,
  other_command, EventType, agent_session_ready, agent_session_state, agent_session_renewed,
  agent_session_closed, output_audio, output_transcript, turn_started, turn_completed,
  turn_interrupted, tool_started, tool_result, tool_confirmation, agent_error, ui_a2ui, other_event,
  Kind, open_session, session_accepted, session_command, session_event, Protocol, v1, v2, Principal,
  Start, Command, Tool, Event, Message,
}

abbrev pub max_message_bytes : ℕ
max_message_bytes = 256 * 1024

abbrev pub max_audio_bytes : ℕ
max_audio_bytes = 128 * 1024

unfoldable pub is_identifier_code : ℕ → Bool
is_identifier_code c = is_alphanumeric c || c == b'.' || c == b'_' || c == b':' || c == b'-'

-- The expression ^[A-Za-z0-9][A-Za-z0-9._:-]{0,127}$.
unfoldable pub identifier : Text → Bool
unfolding is_identifier_code
identifier [] = false
identifier (c ∷ s) = is_alphanumeric c && leb (length s) 127 && all is_identifier_code s

bad_context : Text → Bool
unfolding identifier
bad_context v = not (is_empty v) && not (identifier v)

unfoldable pub validate_principal : Principal → Fallible (Unit {0})
unfolding bad_context
validate_principal p = do
  reject_if (not (identifier p.subject)) (codes "invalid Agent Session principal")
  reject_if (p.authenticated && (is_empty p.client_code || is_empty p.session_ref))
      (codes "incomplete authenticated principal")
  reject_if (bad_context p.client_code || bad_context p.session_ref || bad_context p.device_id)
      (codes "invalid principal context")

-- What the package takes from encoding/json.
pub record Decoder : Type 0 where
  pub message : Text → Option Message
  pub at_end : Text → Bool
  pub valid : Text → Bool

abbrev pub same_protocol : Protocol → Protocol → Bool
same_protocol v1 v1 = true
same_protocol v2 v2 = true
same_protocol _ _ = false

abbrev pub is_v1 : Protocol → Bool
is_v1 v1 = true
is_v1 _ = false

abbrev pub is_v2 : Protocol → Bool
is_v2 v2 = true
is_v2 _ = false

abbrev has_ui : Option Event → Bool
has_ui none = false
has_ui (some e) = not (is_empty e.ui)

abbrev has_identity : Option Start → Bool
has_identity none = false
has_identity (some s) =
    not (is_empty s.principal.client_code)
    || not (is_empty s.principal.session_ref)
    || not (is_empty s.principal.device_id)
    || s.principal.authenticated

-- DecodeProtocol. (A message of Go that quotes a part of the input is given without that part.)
unfoldable pub decode_protocol : Decoder → Text → Protocol → Fallible Message
decode_protocol d input expected = do
  reject_if (len input == 0 || ltb max_message_bytes (len input))
      (codes "invalid Agent Session message size")
  m ← elim (d.message input) [ none ↦ err (codes "invalid Agent Session JSON") | some m ↦ ok m ]
  reject_if (not (d.at_end input)) (codes "trailing Agent Session JSON")
  reject_if (not (same_protocol m.protocol expected)) (codes "unsupported Agent Session protocol")
  reject_if (is_v1 m.protocol && has_ui m.event) (codes "v2 event on v1")
  reject_if (is_v1 m.protocol && has_identity m.start) (codes "v2 identity on v1")
  ok m

abbrev is_kind : Kind → Kind → Bool
is_kind open_session open_session = true
is_kind session_accepted session_accepted = true
is_kind session_command session_command = true
is_kind session_event session_event = true
is_kind _ _ = false

open_start : Message → Start → Fallible (Unit {0})
open_start m s = do
  reject_if (is_some m.command || is_some m.event || not (eq_text m.agent_id s.agent_id))
      (codes "invalid Agent Session open message")
  reject_if (not (identifier m.agent_id) || not (identifier s.session_id))
      (codes "invalid Agent Session identity")
  reject_if (not (is_empty s.request_id) && not (identifier s.request_id))
      (codes "invalid Agent Session request identity")
  validate_principal s.principal

unfoldable pub validate_open : Message → Fallible (Unit {0})
unfolding open_start
validate_open m =
    if not (is_kind m.kind open_session)
    then err (codes "invalid Agent Session open message")
    else elim m.start [
      | none ↦ err (codes "invalid Agent Session open message")
      | some s ↦ open_start m s
    ]

unfoldable pub validate_accepted : Text → Message → Fallible (Unit {0})
validate_accepted expected_agent m =
    reject_if
      (not (is_kind m.kind session_accepted)
        || not (eq_text m.agent_id expected_agent)
        || is_some m.start
        || is_some m.command
        || is_some m.event)
      (codes "invalid Agent Session acceptance")

-- Nonempty PCM16 within the bound.
abbrev pub bad_pcm : List ℕ → Bool
bad_pcm pcm = is_nil pcm || ltb max_audio_bytes (length pcm) || not (length pcm % 2 == 0)

-- The `switch` of ValidateCommand.
unfoldable pub check_command : CommandType → Command → Fallible (Unit {0})
check_command input_audio c =
    reject_if (not (identifier c.turn_id) || c.sequence == 0 || bad_pcm c.audio)
      (codes "invalid Agent Session audio frame")
check_command input_commit c =
    reject_if (not (identifier c.turn_id) || not (c.sequence == 0) || not (is_nil c.audio))
      (codes "invalid Agent Session turn command")
check_command input_cancel c =
    reject_if (not (identifier c.turn_id) || not (c.sequence == 0) || not (is_nil c.audio))
      (codes "invalid Agent Session turn command")
check_command input_confirmation c =
    reject_if (not (identifier c.operation_id) || not (c.sequence == 0) || not (is_nil c.audio))
      (codes "invalid Agent Session confirmation")
check_command input_close c =
    reject_if (not (is_empty c.turn_id) || not (c.sequence == 0) || not (is_nil c.audio))
      (codes "invalid Agent Session close")
check_command (other_command _) c = err (codes "unsupported Agent Session command")

unfoldable pub validate_command : Text → Message → Fallible (Unit {0})
unfolding check_command
validate_command session_id m = elim m.command [
  | none ↦ err (codes "invalid Agent Session command")
  | some c ↦ do
    reject_if
        (not (is_kind m.kind session_command)
          || is_some m.start
          || is_some m.event
          || not (is_empty m.agent_id)
          || not (eq_text c.session_id session_id))
        (codes "invalid Agent Session command")
    check_command c.kind c
]

abbrev bad_tool : Option Tool → Bool
bad_tool none = true
bad_tool (some t) = not (identifier t.operation_id)

-- The `switch` of ValidateEvent.
unfoldable pub check_event : Decoder → Protocol → EventType → Event → Fallible (Unit {0})
check_event d p agent_session_ready e =
    reject_if (is_empty e.provider || is_empty e.state)
      (codes "invalid Agent Session lifecycle event")
check_event d p agent_session_renewed e =
    reject_if (is_empty e.provider || is_empty e.state)
      (codes "invalid Agent Session lifecycle event")
check_event d p agent_session_state e =
    reject_if (is_empty e.state) (codes "invalid Agent Session state event")
check_event d p agent_session_closed e =
    reject_if (is_empty e.state) (codes "invalid Agent Session state event")
check_event d p output_transcript e =
    reject_if (not (identifier e.turn_id)) (codes "invalid Agent Session turn event")
check_event d p turn_started e =
    reject_if (not (identifier e.turn_id)) (codes "invalid Agent Session turn event")
check_event d p turn_completed e =
    reject_if (not (identifier e.turn_id)) (codes "invalid Agent Session turn event")
check_event d p turn_interrupted e =
    reject_if (not (identifier e.turn_id)) (codes "invalid Agent Session turn event")
check_event d p tool_started e =
    reject_if (not (identifier e.turn_id) || bad_tool e.tool)
      (codes "invalid Agent Session tool event")
check_event d p tool_result e =
    reject_if (not (identifier e.turn_id) || bad_tool e.tool)
      (codes "invalid Agent Session tool event")
check_event d p tool_confirmation e =
    reject_if (not (identifier e.turn_id) || bad_tool e.tool)
      (codes "invalid Agent Session tool event")
check_event d p ui_a2ui e =
    reject_if (not (is_v2 p) || is_empty e.ui || ltb 16384 (len e.ui) || not (d.valid e.ui))
      (codes "invalid UI event")
check_event d p agent_error e =
    reject_if (is_empty e.code || is_empty e.message) (codes "invalid Agent Session error event")
check_event d p output_audio e =
    reject_if
      (not (identifier e.turn_id)
        || e.sequence == 0
        || bad_pcm e.audio
        || not (positive e.sample_rate))
      (codes "invalid Agent Session output audio")
check_event d p (other_event _) e = err (codes "unsupported Agent Session event")

unfoldable pub validate_event : Decoder → Message → Fallible (Unit {0})
unfolding check_event
validate_event d m = elim m.event [
  | none ↦ err (codes "invalid Agent Session event")
  | some e ↦ do
    reject_if
        (not (is_kind m.kind session_event)
          || is_some m.start
          || is_some m.command
          || not (is_empty m.agent_id))
        (codes "invalid Agent Session event")
    check_event d m.protocol e.kind e
]
