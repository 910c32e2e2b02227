-- ===== src/AgentWire/Link.antt =====
-- packages/go/agentwire/remote.go: the loops at the two ends of a session, Handler.ServeHTTP with
-- readCommands at the agent and remoteSession.read at the gateway, as functions of what they receive.
pub mod Carried
pub mod Order
use nova2sonici_osapp.Common.{
  ℕ, Bool, true, false, not, ◌&&◌, ◌||◌, Option, none, some, List, [], ◌∷◌, ◌⊎◌, inl, inr,
  if◌then◌else◌,
}
use nova2sonici_osapp.Common.Int.{pos}
use nova2sonici_osapp.Common.Fallible.{Fallible, ok, err, ◌>>=◌, ◌>>◌, reject_if}
use nova2sonici_osapp.Common.Text.{Text, codes}
use nova2sonici_osapp.AgentWire.Types.{
  Protocol, session_event, Command, Event, EventType, agent_session_closed, agent_error, Message,
}
use nova2sonici_osapp.AgentWire.Protocol.{
  Decoder, decode_protocol, validate_command, validate_event, same_protocol,
}
use nova2sonici_osapp.AgentWire.Handshake.{Frame}

abbrev pub remote_queue_depth : ℕ
remote_queue_depth = 8

-- An error event of the gateway's end.
abbrev pub error_event : Text → Text → Event
error_event code message = record {
  ui = [];
  kind = agent_error;
  turn_id = [];
  sequence = 0;
  provider = [];
  state = [];
  audio = [];
  sample_rate = pos 0;
  text = [];
  role = [];
  stage = [];
  code = code;
  message = message;
  metrics = none;
  tool = none;
}

abbrev pub event_message : Protocol → Event → Message
event_message p e = record {
  protocol = p;
  kind = session_event;
  agent_id = [];
  start = none;
  command = none;
  event = some e;
}

-- A message whose event is there; `message.Event` is not nil once ValidateEvent accepts it.
abbrev checked_event : Decoder → Protocol → Message → Fallible Event
checked_event d p m = do
  validate_event d m
  reject_if (not (same_protocol m.protocol p)) (codes "protocol")
  elim m.event [ none ↦ err (codes "event") | some e ↦ ok e ]

-- One round of the gateway's reader: an event, or the error event that it ends with. The frame is
-- none where reading failed.
unfoldable pub read_event : Decoder → Protocol → Option Frame → Event ⊎ Event
read_event d p none =
    inr (error_event (codes "agent_disconnected") (codes "agent session disconnected"))
read_event d p (some none) =
    inr (error_event (codes "agent_protocol_error") (codes "agent returned a non-text frame"))
read_event d p (some (some data_text)) =
    elim (decode_protocol d data_text p >>= checked_event d p) [
      | ok e ↦ inl e
      | err _ ↦
          inr (error_event (codes "agent_protocol_error") (codes "agent returned an invalid event"))
    ]

-- One round of readCommands; an error ends the session.
unfoldable pub read_command : Decoder → Protocol → Text → Option Frame → Fallible Command
read_command d p session_id (some (some data_text)) = do
  m ← decode_protocol d data_text p
  validate_command session_id m
  reject_if (not (same_protocol m.protocol p)) (codes "invalid agent command")
  elim m.command [ none ↦ err (codes "invalid agent command") | some c ↦ ok c ]
read_command d p session_id _ = err (codes "agent command stream closed")

-- What the server's loop selects, with what came of the writes and of the agent's Send.
pub data Signal : Type 0 where
  request_done events_closed read_failed : Signal
  heartbeat : (wrote : Bool) → Signal
  command : Command → (sent : Bool) → Signal
  event : Event → (wrote : Bool) → Signal

abbrev pub closes : EventType → Bool
closes agent_session_closed = true
closes _ = false

abbrev pub is_valid : Decoder → Protocol → Event → Bool
is_valid d p e = elim (validate_event d (event_message p e)) [ ok _ ↦ true | err _ ↦ false ]

-- Whether the loop goes on, and the event that it wrote.
unfoldable pub serve : Decoder → Protocol → Signal → Bool × Option Event
serve d p request_done = (false, none)
serve d p events_closed = (false, none)
serve d p read_failed = (false, none)
serve d p (heartbeat wrote) = (wrote, none)
serve d p (command c sent) = (sent, none)
serve d p (event e wrote) =
    if not (is_valid d p e)
    then (false, none)
    else if not wrote
    then (false, none)
    else (not (closes e.kind), some e)
