-- ===== src/Realtime/Types.antt =====
-- packages/go/realtime/stream.go and mapper.go: the provider's events and the state of the mapper.
use nova2sonici_osapp.Common.{ℕ, Bool, Option, none, List, []}
use nova2sonici_osapp.Common.Assoc.{Map}
use nova2sonici_osapp.Common.Text.{Text, codes}
use nova2sonici_osapp.Voice.Event.{Event as VoiceEvent}

-- The kinds that the stream makes, and any other string.
pub data Kind : Type 0 where
  interrupted completion_end content_start text_output audio_output tool_use content_end : Kind
  other_kind : Text → Kind

pub record Event : Type 0 where
  pub kind : Kind
  pub content_id : Text
  pub content_type : Text
  pub role : Text
  pub stage : Text
  pub text : Text
  pub audio : Text
  pub rate : ℕ
  pub stop_reason : Text
  pub tool_id : Text
  pub tool_name : Text
  pub tool_arguments : Text
  pub failure : Option Text

abbrev pub blank : Kind → Event
blank kind = record {
  kind = kind;
  content_id = [];
  content_type = [];
  role = [];
  stage = [];
  text = [];
  audio = [];
  rate = 0;
  stop_reason = [];
  tool_id = [];
  tool_name = [];
  tool_arguments = [];
  failure = none;
}

pub record HistoryMessage : Type 0 where
  pub role : Text
  pub content : Text

-- packages/go/agentwire/session.go; the mapper is in the first three only.
pub data State : Type 0 where
  idle listening responding : State

unfoldable pub state_name : State → Text
state_name idle = codes "idle"
state_name listening = codes "listening"
state_name responding = codes "responding"

pub record Content : Type 0 where
  pub turn : Text
  pub kind : Text
  pub role : Text
  pub stage : Text
  pub text : Text
  pub rate : ℕ

-- Times and durations are nanoseconds.
pub record Mapper : Type 0 where
  pub turn_id : Text
  pub state : State
  pub history : List HistoryMessage
  pub next_input : Text
  pub answered : Map Bool
  pub cancelled : Map Bool
  pub contents : Map Content
  pub users : Map Text
  pub sequence : ℕ
  pub started : ℕ
  pub first_audio : ℕ
  pub waiting_user : Bool

-- What an operation takes from the machine: the time, the time that an interruption takes, and a new
-- random id.
pub record World : Type 0 where
  pub now : ℕ
  pub elapsed : ℕ
  pub fresh : Text

-- What Map returns: events, an error, or a panic of a slice expression.
pub data Reply : Type 0 where
  emits : List VoiceEvent → Reply
  fails : Text → Reply
  panics : Reply
