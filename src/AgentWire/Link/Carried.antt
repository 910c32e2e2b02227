-- ===== src/AgentWire/Link/Carried.antt =====
-- packages/go/agentwire/session.go and remote.go: what becomes of an AgentEvent that WriteJSON writes and
-- json.Decoder reads back.
use nova2sonici_osapp.Common.{◌^◌, Bool, ◌&&◌, Option, none, some, true, all, ltb, leb}
use nova2sonici_osapp.Common.Int.{ℤ, pos, negsuc}
use nova2sonici_osapp.Common.Text.{Text, is_utf8}
use nova2sonici_osapp.Voice.Event.{Metrics}
use nova2sonici_osapp.AgentWire.Types.{Tool, Event}

-- Go's int.
abbrev is_int : ℤ → Bool
is_int (pos n) = ltb n (2 ^ 63)
is_int (negsuc n) = ltb n (2 ^ 63)

-- The whole numbers that a float64 tells apart.
abbrev is_metrics : Option Metrics → Bool
is_metrics none = true
is_metrics (some m) =
    leb m.first_audio_us (2 ^ 53) && leb m.duration_us (2 ^ 53) && leb m.interruption_us (2 ^ 53)

abbrev is_tool : Option Tool → Bool
is_tool none = true
is_tool (some t) =
    is_utf8 t.operation_id && is_utf8 t.name && is_utf8 t.arguments && is_utf8 t.result

-- Go has an AgentEvent with these fields: a uint64, an int, bytes, and strings that are valid UTF-8.
abbrev pub is_value : Event → Bool
is_value e =
    ltb e.sequence (2 ^ 64)
    && is_int e.sample_rate
    && all (λ b. ltb b 256) e.audio
    && is_utf8 e.ui
    && is_utf8 e.turn_id
    && is_utf8 e.provider
    && is_utf8 e.state
    && is_utf8 e.text
    && is_utf8 e.role
    && is_utf8 e.stage
    && is_utf8 e.code
    && is_utf8 e.message
    && is_metrics e.metrics
    && is_tool e.tool

abbrev raw_tool : (Text → Text) → Option Tool → Option Tool
raw_tool compact none = none
raw_tool compact (some t) =
    some (record t { arguments = compact t.arguments; result = compact t.result })

-- The event as the other end reads it: `compact` is what encoding/json does to a json.RawMessage, which
-- it compacts and escapes; the other fields are as they were.
abbrev pub read_back : (Text → Text) → Event → Event
read_back compact e = record e { ui = compact e.ui; tool = raw_tool compact e.tool }
