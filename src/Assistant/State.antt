-- ===== src/Assistant/State.antt =====
-- apps/personal-assistant-agent/internal/agent/runtime.go: what Run keeps between two things that its
-- loop selects, what it does to the outside, and its closures sendError, emit and rotate.
use nova2sonici_osapp.Common.{
  ℕ, ◌/◌, Bool, true, false, not, Option, none, some, List, [], ◌∷◌, ◌++◌, ◌==◌, if◌then◌else◌,
}
use nova2sonici_osapp.Common.Assoc.{Map}
use nova2sonici_osapp.Common.Fallible.{Fallible, ok, err}
use nova2sonici_osapp.Common.Text.{Text, codes, eq_text}
use nova2sonici_osapp.Voice.Event.{
  Event, EventType, Base64, blank, session_ready, session_state, session_renewed, audio_output,
  turn_interrupted, turn_completed, tool_result, error,
}
use nova2sonici_osapp.Mcp.Types.{Result}
use nova2sonici_osapp.Actions.Types.{Session, Job, Host, Clock}
use nova2sonici_osapp.Actions.Dialogue
use nova2sonici_osapp.Realtime.Types
use nova2sonici_osapp.Realtime.Types.{Mapper, HistoryMessage, idle, state_name}
use nova2sonici_osapp.Realtime.Mapper.{new_mapper, interrupt}

-- What is fixed: the id of the session, whether private evidence is kept, and what the packages take
-- from the Go libraries.
pub record Config : Type 0 where
  pub session_id : Text
  pub has_evidence : Bool
  pub host : Host
  pub base64 : Base64
  pub trim_space : Text → Text

-- toolRuntime.
pub record Tools : Type 0 where
  pub session : Session
  pub active : Map Bool
  pub staged : Map Event

-- `timed` says that turnTimeout is not nil.
pub record State : Type 0 where
  pub mapper : Mapper
  pub tools : Option Tools
  pub input_id : Text
  pub input_sequence : ℕ
  pub used_inputs : Map Bool
  pub opened_at : ℕ
  pub timed : Bool
  pub user_texts : Map Text
  pub user_turns : Map Text
  pub completed_user : Text
  pub completed_user_turn : Text
  pub ended : Bool

-- What the machine and the network do during one step: the times, whether a write to the client works,
-- whether the provider takes audio and results, whether it can be opened anew, and whether evidence
-- can be written.
pub record World : Type 0 where
  pub machine : Types.World
  pub clock : Clock
  pub writes : Event → Bool
  pub takes_audio : Bool
  pub takes_result : Bool
  pub reopens : Bool
  pub persists : Bool

pub data Hook : Type 0 where
  on_error on_completed on_interrupted : Hook
  on_first_audio : (micros : ℕ) → Hook

-- What a step does: a call of a hook, an event to the client, audio and results to the provider, a new
-- provider session with a history, a job that is started, evidence that is kept, and a panic.
pub data Output : Type 0 where
  hook : Hook → Output
  says : Event → Output
  hears : (audio : Text) → Output
  answers : (operation_id : Text) → Result → Output
  reopened : List HistoryMessage → Output
  starts : Job → Output
  keeps : Job → Result → Output
  panicked : Output

abbrev pub Step : Type 0
Step = State × List Output

-- The second part is done unless Run returned in the first.
unfoldable pub and_then : Step → (State → Step) → Step
and_then (s, os) f = if s.ended then (s, os) else let (s', os') = f s in (s', os ++ os')

abbrev pub end_run : State → State
end_run s = record s { ended = true }

abbrev pub panic : State → Step
panic s = (end_run s, panicked ∷ [])

unfoldable pub write : World → Event → State → Step
write w e s = if w.writes e then (s, says e ∷ []) else (end_run s, [])

abbrev pub error_event : Text → Text → Event
error_event code message = record (blank error) { code = code; message = message }

unfoldable pub send_error : World → Text → Text → State → Step
send_error w code message s = (
  s,
  hook on_error
      ∷ (if w.writes (error_event code message) then says (error_event code message) ∷ [] else []),
)

-- sendError and return.
unfoldable pub fail_with : World → Text → Text → State → Step
unfolding send_error
fail_with w code message s = send_error w code message (end_run s)

-- What emit does before it writes an event.
unfoldable pub announce : Event → EventType → State → Step
announce e session_state s =
    (if eq_text e.state (codes "responding") then record s { timed = true } else s, [])
announce e audio_output s =
    (s, if e.sequence == 1 then hook (on_first_audio (s.mapper.first_audio / 1000)) ∷ [] else [])
announce e turn_interrupted s = (record s { timed = false }, hook on_interrupted ∷ [])
announce e turn_completed s = elim e.metrics [
  | none ↦ (end_run s, hook on_completed ∷ panicked ∷ [])
  | some _ ↦ (record s { timed = false }, hook on_completed ∷ [])
]
announce e _ s = (s, [])

unfoldable pub emit : World → List Event → State → Step
unfolding announce write and_then
emit w [] s = (s, [])
emit w (e ∷ es) s = and_then (and_then (announce e e.kind s) (write w e)) (emit w es)

-- What is done with the tools; a nil pointer panics.
unfoldable pub using : State → (Tools → Step) → Step
using s f = elim s.tools [ none ↦ panic s | some t ↦ f t ]

abbrev pub cleared : Option Tools → Option Tools
cleared none = none
cleared (some t) = some (record t { session = Dialogue.interrupt t.session; staged = [] })

abbrev pub renewed_event : Event
renewed_event = record (blank session_renewed) { provider = codes "nova"; state = codes "idle" }

unfoldable pub rotate : World → State → Step
unfolding fail_with and_then write
rotate w s =
    let s' = record s { tools = cleared s.tools } in
    if not w.reopens
    then fail_with w (codes "provider_unavailable") (codes "Nova session renewal failed") s'
    else and_then
        (
          record s' { mapper = new_mapper s.mapper.history; opened_at = w.machine.now },
          reopened s.mapper.history ∷ [],
        )
        (write w renewed_event)

unfoldable pub interrupt_turn : World → State → Step
unfolding emit
interrupt_turn w s =
    let (m, events) = interrupt w.machine s.mapper in emit w events (record s { mapper = m })

unfoldable pub evidence_result : Config → World → Job → Result → State → Step
unfolding fail_with
evidence_result c w j r s =
    if not c.has_evidence
    then (s, [])
    else if w.persists
    then (s, keeps j r ∷ [])
    else fail_with w (codes "storage_failed") (codes "cannot persist private evidence") s

unfoldable pub tool_result_event : Host → Job → Result → Event
tool_result_event h j r = record (blank tool_result) {
  turn_id = j.turn_id;
  tool = some (record {
    operation_id = j.id;
    name = j.name;
    arguments = [];
    result = h.json.marshal_result r;
    approved = none;
  });
}

abbrev fresh_state : World → Option Tools → State
fresh_state w tools = record {
  mapper = new_mapper [];
  tools = tools;
  input_id = [];
  input_sequence = 0;
  used_inputs = [];
  opened_at = w.machine.now;
  timed = false;
  user_texts = [];
  user_turns = [];
  completed_user = [];
  completed_user_turn = [];
  ended = false;
}

-- Run before its loop, with what opening the tools and the provider gave.
unfoldable pub begin : World → Fallible (Option Tools) → Fallible (Unit {0}) → Step
unfolding fail_with write
begin w (err _) provider =
    fail_with w (codes "mcp_unavailable") (codes "MCP initialization or discovery failed")
      (fresh_state w none)
begin w (ok tools) (err message) =
    fail_with w (codes "provider_unavailable") message (fresh_state w tools)
begin w (ok tools) (ok _) =
    write w (record (blank session_ready) { provider = codes "nova"; state = codes "idle" })
      (fresh_state w tools)
