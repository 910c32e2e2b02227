-- ===== src/Voice/Decode.antt =====
-- packages/go/voicewire/event.go, DecodeClientVersion: which events of a client are accepted.
use nova2sonici_osapp.Common.{Bool, true, false, not, ◌&&◌, ◌||◌, Option, none, some, is_some, ◌==◌}
use nova2sonici_osapp.Common.Fallible.{Fallible, ok, err, reject_if, ◌>>=◌, ◌>>◌}
use nova2sonici_osapp.Common.Int.{ℤ, pos, eq_ℤ}
use nova2sonici_osapp.Common.Text.{Text, codes, is_empty}
use nova2sonici_osapp.Voice.Event.{
  Event, EventType, session_start, audio_append, turn_commit, turn_cancel, session_stop,
  tool_confirm, Tool, Base64, decode_audio, input_sample_rate,
}
use nova2sonici_osapp.Voice.Id.{valid_id}

-- The two calls of the JSON decoder, with unknown fields refused: the event, and whether nothing
-- follows it.
pub record Decoder : Type 0 where
  pub event : Text → Option Event
  pub at_end : Text → Bool

abbrev pub is_start : EventType → Bool
is_start session_start = true
is_start _ = false

abbrev pub is_audio : EventType → Bool
is_audio audio_append = true
is_audio _ = false

abbrev pub is_confirm : EventType → Bool
is_confirm tool_confirm = true
is_confirm _ = false

abbrev pub bad_id : Text → Bool
bad_id id = not (is_empty id) && not (valid_id id)

abbrev pub bad_tool : Option Tool → Bool
bad_tool none = true
bad_tool (some t) =
    not (valid_id t.operation_id)
    || not (is_some t.approved)
    || not (is_empty t.name)
    || not (is_empty t.arguments)
    || not (is_empty t.result)

-- The `switch` over the type.
unfoldable pub check_kind : Base64 → EventType → Event → Fallible (Unit {0})
check_kind b64 session_start e =
    reject_if (not (is_empty e.session_id) || not (is_empty e.turn_id) || not (e.sequence == 0))
      (codes "session.start cannot reuse identifiers")
check_kind b64 audio_append e = do
  reject_if
      (is_empty e.turn_id || e.sequence == 0 || not (eq_ℤ e.sample_rate (pos input_sample_rate)))
      (codes "audio requires turnId, sequence and sampleRate 16000")
  pcm ← decode_audio b64 e.audio
  ok tt
check_kind b64 turn_commit e = reject_if (is_empty e.turn_id) (codes "turnId is required")
check_kind b64 turn_cancel e = reject_if (is_empty e.turn_id) (codes "turnId is required")
check_kind b64 session_stop e = ok tt
check_kind b64 tool_confirm e =
    reject_if (bad_tool e.tool) (codes "confirmation requires operationId and approved only")
check_kind b64 _ e = err (codes "unsupported client event")

abbrev pub server_fields : Event → Bool
server_fields e =
    not (is_empty e.text)
    || not (is_empty e.state)
    || not (is_empty e.role)
    || not (is_empty e.stage)
    || not (is_empty e.code)
    || not (is_empty e.message)
    || is_some e.metrics
    || is_some e.tool && not (is_confirm e.kind)

-- The checks behind the decoder.
unfoldable pub check_event : Base64 → ℤ → Event → Fallible Event
unfolding check_kind
check_event b64 expected e = do
  reject_if
      (not (eq_ℤ expected (pos 1)) && not (eq_ℤ expected (pos 2)) || not (eq_ℤ e.version expected))
      (codes "unsupported protocol version")
  reject_if (bad_id e.session_id || bad_id e.turn_id)
      (codes "identifiers must be 1-128 ASCII letters, digits, underscores or hyphens")
  reject_if
      (not (is_empty e.ui)
        || not (is_empty e.agent_id)
          && (not (eq_ℤ e.version (pos 2)) || not (is_start e.kind) || not (valid_id e.agent_id)))
      (codes "invalid v2 fields")
  check_kind b64 e.kind e
  reject_if (not (is_start e.kind) && is_empty e.session_id) (codes "sessionId is required")
  reject_if (server_fields e) (codes "server fields are not allowed in client events")
  reject_if (not (is_audio e.kind) && (not (is_empty e.audio) || not (eq_ℤ e.sample_rate (pos 0))))
      (codes "audio fields require audio.append")
  reject_if (not (is_empty e.request_id) && (not (is_start e.kind) || not (valid_id e.request_id)))
      (codes "requestId requires session.start and a valid ID")
  reject_if (not (is_start e.kind) && not (is_empty e.provider))
      (codes "provider is only allowed in session.start")
  reject_if (not (is_audio e.kind) && not (e.sequence == 0))
      (codes "sequence is only allowed in audio.append")
  ok e

unfoldable pub decode_client_version : Base64 → Decoder → Text → ℤ → Fallible Event
decode_client_version b64 decoder input expected = elim (decoder.event input) [
  | none ↦ err (codes "invalid JSON event")
  | some e ↦
      reject_if (not (decoder.at_end input)) (codes "expected one JSON event")
      >> check_event b64 expected e
]

unfoldable pub decode_client : Base64 → Decoder → Text → Fallible Event
decode_client b64 decoder input = decode_client_version b64 decoder input (pos 1)
