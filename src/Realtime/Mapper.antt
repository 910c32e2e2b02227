-- ===== src/Realtime/Mapper.antt =====
-- packages/go/realtime/mapper.go: the mapper's operations for the client's side of a turn. Each returns
-- the new mapper with the events to send. The proofs about the mapper are in the modules named below.
use nova2sonici_osapp.Common.{
  ◌-◌, ◌/◌, Bool, true, false, ◌||◌, some, List, [], ◌∷◌, ◌++◌, if◌then◌else◌,
}
use nova2sonici_osapp.Common.Assoc.{insert, has}
use nova2sonici_osapp.Common.Text.{Text, is_empty}
use nova2sonici_osapp.Voice.Event
use nova2sonici_osapp.Voice.Event.{Base64}
use nova2sonici_osapp.Realtime.Types.{
  HistoryMessage, State, idle, listening, responding, state_name, Mapper, World,
}

unfoldable pub new_mapper : List HistoryMessage → Mapper
new_mapper history = record {
  turn_id = [];
  state = idle;
  history = history;
  next_input = [];
  answered = [];
  cancelled = [];
  contents = [];
  users = [];
  sequence = 0;
  started = 0;
  first_audio = 0;
  waiting_user = false;
}

abbrev pub is_idle : State → Bool
is_idle idle = true
is_idle _ = false

abbrev pub is_responding : State → Bool
is_responding responding = true
is_responding _ = false

unfoldable pub state_event : Mapper → Event.Event
state_event m = record (Event.blank Event.session_state) {
  turn_id = m.turn_id;
  state = state_name m.state;
}

unfoldable pub turn_started : Text → Event.Event
turn_started id = record (Event.blank Event.turn_started) { turn_id = id }

abbrev pub Step : Type 0
Step = Mapper × List Event.Event

unfoldable pub interrupt : World → Mapper → Step
interrupt w m =
    if is_empty m.turn_id || has m.turn_id m.cancelled || is_idle m.state
    then (m, [])
    else let m' = record m { cancelled = insert m.turn_id true m.cancelled; state = idle } in
      (
        m',
        record (Event.blank Event.turn_interrupted) {
          turn_id = m.turn_id;
          metrics =
              some (record {
                first_audio_us = 0;
                duration_us = 0;
                interruption_us = w.elapsed / 1000;
              });
        }
            ∷ state_event m'
            ∷ [],
      )

unfoldable pub start_assistant : World → Text → Mapper → Step
start_assistant w id m =
    let m' = record m {
      turn_id = id;
      state = responding;
      started = w.now;
      waiting_user = false;
      sequence = 0;
    } in
    (m', turn_started id ∷ state_event m' ∷ [])

unfoldable pub queue_input : Text → Mapper → Mapper
queue_input id m = record m { next_input = id }

unfoldable pub interrupt_response : World → Mapper → Step
interrupt_response w m = if is_responding m.state then interrupt w m else (m, [])

unfoldable pub start_input : World → Text → Mapper → Step
start_input w id m =
    let (m₁, events) = interrupt_response w m in
    let m₂ = record m₁ {
      next_input = id;
      turn_id = id;
      state = listening;
      started = w.now;
      first_audio = 0;
      sequence = 0;
      waiting_user = true;
    } in
    (m₂, events ++ (turn_started id ∷ state_event m₂ ∷ []))

unfoldable pub commit : World → Mapper → Mapper
commit w m = record m { started = w.now }

unfoldable pub complete : World → Mapper → Step
complete w m =
    let m' = record m { state = idle; answered = insert m.turn_id true m.answered } in
    (
      m',
      record (Event.blank Event.turn_completed) {
        turn_id = m.turn_id;
        metrics = some (record {
          first_audio_us = m.first_audio / 1000;
          duration_us = (w.now - m.started) / 1000;
          interruption_us = 0;
        });
      }
          ∷ state_event m'
          ∷ [],
    )
