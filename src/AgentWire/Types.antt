-- ===== src/AgentWire/Types.antt =====
-- packages/go/agentwire/session.go and protocol.go: the messages of the contract.
use nova2sonici_osapp.Common.{ℕ, Bool, Option, List}
use nova2sonici_osapp.Common.Int.{ℤ}
use nova2sonici_osapp.Common.Text.{Text}
use nova2sonici_osapp.Voice.Event.{Metrics}

pub data CommandType : Type 0 where
  input_audio input_commit input_cancel input_confirmation input_close : CommandType
  other_command : Text → CommandType

pub data EventType : Type 0 where
  agent_session_ready agent_session_state agent_session_renewed agent_session_closed : EventType
  output_audio output_transcript turn_started turn_completed turn_interrupted : EventType
  tool_started tool_result tool_confirmation agent_error ui_a2ui : EventType
  other_event : Text → EventType

pub data Kind : Type 0 where
  open_session session_accepted session_command session_event : Kind
  other_kind : Text → Kind

pub data Protocol : Type 0 where
  v1 v2 : Protocol
  other_protocol : Text → Protocol

pub record Principal : Type 0 where
  pub subject : Text
  pub client_code : Text
  pub session_ref : Text
  pub device_id : Text
  pub authenticated : Bool

-- The field `Protocol` of the source is not part of the JSON.
pub record Start : Type 0 where
  pub protocol : Text
  pub session_id : Text
  pub request_id : Text
  pub agent_id : Text
  pub provider : Text
  pub principal : Principal

pub record Command : Type 0 where
  pub kind : CommandType
  pub session_id : Text
  pub turn_id : Text
  pub sequence : ℕ
  pub audio : List ℕ
  pub operation_id : Text
  pub approved : Bool

pub record Tool : Type 0 where
  pub operation_id : Text
  pub name : Text
  pub arguments : Text
  pub result : Text

-- The metrics are those of the voice contract, field by field.
pub record Event : Type 0 where
  pub ui : Text
  pub kind : EventType
  pub turn_id : Text
  pub sequence : ℕ
  pub provider : Text
  pub state : Text
  pub audio : List ℕ
  pub sample_rate : ℤ
  pub text : Text
  pub role : Text
  pub stage : Text
  pub code : Text
  pub message : Text
  pub metrics : Option Metrics
  pub tool : Option Tool

pub record Message : Type 0 where
  pub protocol : Protocol
  pub kind : Kind
  pub agent_id : Text
  pub start : Option Start
  pub command : Option Command
  pub event : Option Event
