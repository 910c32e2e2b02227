-- ===== src/Voice/Event.antt =====
-- packages/go/voicewire/event.go: the events of the contract and the audio that they carry. Raw JSON
-- is text; a time that Go gives in milliseconds as a float64 is a number of microseconds.
use nova2sonici_osapp.Common.{
  ℕ, ◌+◌, ◌*◌, ◌/◌, ◌%◌, [], Bool, ◌||◌, not, Option, none, some, List, if◌then◌else◌, ltb, ◌==◌,
  length,
}
use nova2sonici_osapp.Common.Fallible.{Fallible, ok, err}
use nova2sonici_osapp.Common.Int.{ℤ, pos}
use nova2sonici_osapp.Common.Text.{Text, codes, len}

-- The constants of the contract, and any other string.
pub data EventType : Type 0 where
  session_start session_ready session_state session_stop session_stopped : EventType
  session_renewed audio_append turn_commit turn_cancel turn_started turn_completed : EventType
  turn_interrupted transcript audio_output tool_started tool_result : EventType
  tool_confirmation tool_confirm error : EventType
  other : Text → EventType

pub record Metrics : Type 0 where
  pub first_audio_us : ℕ
  pub duration_us : ℕ
  pub interruption_us : ℕ

pub record Tool : Type 0 where
  pub operation_id : Text
  pub name : Text
  pub arguments : Text
  pub result : Text
  pub approved : Option Bool

pub record Event : Type 0 where
  pub agent_id : Text
  pub ui : Text
  pub version : ℤ
  pub kind : EventType
  pub session_id : Text
  pub turn_id : Text
  pub sequence : ℕ
  pub provider : Text
  pub request_id : Text
  pub state : Text
  pub audio : Text
  pub sample_rate : ℤ
  pub text : Text
  pub role : Text
  pub stage : Text
  pub code : Text
  pub message : Text
  pub metrics : Option Metrics
  pub tool : Option Tool

abbrev pub blank : EventType → Event
blank kind = record {
  agent_id = [];
  ui = [];
  version = pos 0;
  kind = kind;
  session_id = [];
  turn_id = [];
  sequence = 0;
  provider = [];
  request_id = [];
  state = [];
  audio = [];
  sample_rate = pos 0;
  text = [];
  role = [];
  stage = [];
  code = [];
  message = [];
  metrics = none;
  tool = none;
}

-- encoding/base64, StdEncoding; decoding is strict.
pub record Base64 : Type 0 where
  pub decode : Text → Option (List ℕ)
  pub encode : List ℕ → Text

abbrev pub input_sample_rate : ℕ
input_sample_rate = 16000

abbrev pub max_audio_chunk_bytes : ℕ
max_audio_chunk_bytes = 32000

-- base64.StdEncoding.EncodedLen.
abbrev pub encoded_len : ℕ → ℕ
encoded_len n = (n + 2) / 3 * 4

unfoldable pub decode_audio : Base64 → Text → Fallible (List ℕ)
decode_audio b64 encoded =
    if ltb (encoded_len max_audio_chunk_bytes) (len encoded)
    then err (codes "audio chunk exceeds one second")
    else elim (b64.decode encoded) [
      | none ↦ err (codes "audio must be nonempty base64 PCM16")
      | some pcm ↦
          if length pcm == 0 || not (length pcm % 2 == 0)
          then err (codes "audio must be nonempty base64 PCM16")
          else ok pcm
    ]
