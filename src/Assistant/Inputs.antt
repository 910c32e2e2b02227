-- ===== src/Assistant/Inputs.antt =====
-- apps/personal-assistant-agent/internal/agent/runtime.go, Run: what the client sends.
use nova2sonici_osapp.Common.{
  ℕ, ◌+◌, ◌%◌, ◌^◌, Bool, true, false, not, ◌||◌, Option, none, some, [], ◌∷◌, is_nil, length, leb,
  ◌==◌, if◌then◌else◌,
}
use nova2sonici_osapp.Common.Assoc.{insert, has}
use nova2sonici_osapp.Common.Fallible.{Fallible, ok, err}
use nova2sonici_osapp.Common.Text.{Text, codes, eq_text}
use nova2sonici_osapp.Voice.Event.{
  Event, EventType, blank, audio_append, turn_commit, turn_cancel, session_stop, session_stopped,
  tool_confirm,
}
use nova2sonici_osapp.Actions.Dialogue.{confirm}
use nova2sonici_osapp.Realtime.Mapper.{is_idle, start_input, commit}
use nova2sonici_osapp.Assistant.State.{
  Config, State, World, Step, Tools, hears, and_then, end_run, panic, write, send_error, fail_with,
  emit, rotate, interrupt_turn,
}

abbrev pub max_turns : ℕ
max_turns = 128

-- The sequence is a uint64.
unfoldable pub next_chunk : World → Event → State → Step
unfolding send_error fail_with
next_chunk w e s =
    if not (e.sequence == (s.input_sequence + 1) % 2 ^ 64)
    then send_error w (codes "invalid_audio") (codes "unexpected input sequence") s
    else (let s' = record s { input_sequence = e.sequence } in
        if w.takes_audio
        then (s', hears e.audio ∷ [])
        else fail_with w (codes "provider_unavailable") (codes "Nova audio transport disconnected")
            s')

unfoldable pub new_input : World → Event → State → Step
unfolding emit
new_input w e s =
    let (m, events) = start_input w.machine e.turn_id s.mapper in
    emit w events (record s {
      input_id = e.turn_id;
      input_sequence = 0;
      used_inputs = insert e.turn_id true s.used_inputs;
      mapper = m;
    })

unfoldable pub append_audio : World → Event → State → Step
unfolding send_error and_then new_input next_chunk
append_audio w e s =
    if eq_text e.turn_id s.input_id
    then next_chunk w e s
    else if not (e.sequence == 1)
        || has e.turn_id s.used_inputs
        || leb max_turns (length s.used_inputs)
    then send_error w (codes "invalid_audio")
        (codes "new input requires an unused turnId and sequence 1") s
    else and_then (new_input w e s) (next_chunk w e)

unfoldable pub commit_turn : World → Event → State → Step
unfolding send_error
commit_turn w e s =
    if not (eq_text e.turn_id s.input_id) || s.input_sequence == 0
    then send_error w (codes "invalid_turn") (codes "no matching input to commit") s
    else (record s { mapper = commit w.machine s.mapper; timed = true }, [])

abbrev pub is_busy : Option Tools → Bool
is_busy none = false
is_busy (some t) = not (is_nil t.active)

unfoldable pub after_cancel : World → State → Step
unfolding fail_with rotate
after_cancel w s =
    if is_busy s.tools
    then fail_with w (codes "mcp_in_progress")
        (codes "output cancelled; operation outcome may be pending, retry with the same requestId")
        s
    else rotate w (record s { timed = false; input_id = []; input_sequence = 0 })

unfoldable pub cancel_turn : World → Event → State → Step
unfolding send_error and_then interrupt_turn after_cancel
cancel_turn w e s =
    if not (eq_text e.turn_id s.mapper.turn_id) || is_idle s.mapper.state
    then send_error w (codes "invalid_turn") (codes "no matching active turn") s
    else and_then (interrupt_turn w s) (after_cancel w)

abbrev pub stopped_event : Event
stopped_event = record (blank session_stopped) { state = codes "closed" }

-- The write's error is ignored, as Run returns anyway.
unfoldable pub stop : World → State → Step
unfolding write
stop w s = let (_, os) = write w stopped_event s in (end_run s, os)

unfoldable pub decide : World → Text → Bool → Tools → State → Step
unfolding send_error
decide w operation_id approved t s =
    let (session, accepted) = confirm w.machine.now operation_id approved t.session in
    let s' = record s { tools = some (record t { session = session }) } in
    if accepted
    then (s', [])
    else send_error w (codes "invalid_confirmation") (codes "no matching pending operation") s'

unfoldable pub confirm_tool : World → Event → State → Step
unfolding send_error decide
confirm_tool w e s = elim s.tools [
  | none ↦ send_error w (codes "invalid_confirmation") (codes "no matching pending operation") s
  | some t ↦ elim e.tool [
    | none ↦ panic s
    | some k ↦ elim k.approved [ none ↦ panic s | some a ↦ decide w k.operation_id a t s ]
  ]
]

-- The `switch` on the event's type.
unfoldable pub on_input : World → Event → EventType → State → Step
unfolding append_audio commit_turn cancel_turn stop confirm_tool send_error
on_input w e audio_append s = append_audio w e s
on_input w e turn_commit s = commit_turn w e s
on_input w e turn_cancel s = cancel_turn w e s
on_input w e session_stop s = stop w s
on_input w e tool_confirm s = confirm_tool w e s
on_input w e _ s = send_error w (codes "invalid_transition") (codes "session is already started") s

unfoldable pub take_input : Config → World → Fallible Event → State → Step
unfolding on_input send_error
take_input c w (err message) s = send_error w (codes "invalid_event") message s
take_input c w (ok e) s =
    if not (eq_text e.session_id c.session_id)
    then send_error w (codes "session_mismatch") (codes "sessionId does not match this connection")
        s
    else on_input w e e.kind s
