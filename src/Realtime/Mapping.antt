-- ===== src/Realtime/Mapping.antt =====
-- packages/go/realtime/mapper.go, Map: one event of the provider. `sequence` is a uint64.
use nova2sonici_osapp.Common.{
  ℕ, ◌+◌, ◌-◌, ◌*◌, ◌%◌, ◌^◌, Bool, true, false, not, ◌&&◌, ◌||◌, Option, none, some, List, [], ◌∷◌,
  ◌++◌, ltb, leb, ◌==◌, if◌then◌else◌, length,
}
use mathlib.Core.Option
use nova2sonici_osapp.Common.Assoc.{Map, lookup, insert, delete, has}
use nova2sonici_osapp.Common.Int.{pos}
use nova2sonici_osapp.Common.Text.{Text, codes, len, is_empty, eq_text}
use nova2sonici_osapp.Voice.Event
use nova2sonici_osapp.Voice.Event.{Base64}
use nova2sonici_osapp.Realtime.Types
use nova2sonici_osapp.Realtime.Types.{
  Kind, interrupted, completion_end, content_start, text_output, audio_output, tool_use,
  content_end, other_kind, HistoryMessage, State, idle, listening, responding, state_name, Content,
  Mapper, World, Reply, emits, fails, panics,
}
use nova2sonici_osapp.Realtime.Mapper.{
  Step, is_responding, state_event, turn_started, interrupt, interrupt_response, complete,
}

abbrev pub is_over : Mapper → Text → Bool
is_over m id = is_empty id || has id m.answered || has id m.cancelled

-- A user's speech outside a live turn opens the next one.
unfoldable pub open_turn : World → Mapper → Step
open_turn w m =
    if is_over m m.turn_id
    then (let id = if is_over m m.next_input then w.fresh else m.next_input in
        (
          record m { turn_id = id; started = w.now; first_audio = 0; sequence = 0 },
          turn_started id ∷ [],
        ))
    else (m, [])

abbrev max_turns : ℕ
max_turns = 128

abbrev pub content_of : Mapper → Types.Event → ℕ → Content
content_of m e rate = record {
  turn = m.turn_id;
  kind = e.content_type;
  role = e.role;
  stage = e.stage;
  text = [];
  rate = rate;
}

unfoldable pub start_user_content : World → Types.Event → Mapper → Mapper × Reply
start_user_content w e m =
    let (m₁, events₁) = interrupt_response w (record m { waiting_user = false }) in
    let (m₂, events₂) = open_turn w m₁ in
    let m₃ = record m₂ { state = listening } in
    if leb max_turns (length m₃.answered + length m₃.cancelled)
    then (m₃, fails (codes "Nova session turn limit reached"))
    else let m₄ = record m₃ { contents = insert e.content_id (content_of m₃ e 0) m₃.contents } in
      (m₄, emits (events₁ ++ events₂ ++ state_event m₄ ∷ []))

unfoldable pub start_content : Types.Event → Mapper → Mapper × Reply
start_content e m =
    if m.waiting_user
    then (m, emits [])
    else if leb 1024 (length m.contents)
    then (m, fails (codes "Nova content limit reached"))
    else let m₁ = record m { contents = insert e.content_id (content_of m e e.rate) m.contents } in
      if eq_text e.role (codes "ASSISTANT")
        && (eq_text e.content_type (codes "AUDIO") || eq_text e.stage (codes "SPECULATIVE"))
        && not (has m₁.turn_id m₁.cancelled)
      then (let m₂ = record m₁ { state = responding } in (m₂, emits (state_event m₂ ∷ [])))
      else (m₁, emits [])

unfoldable pub output_text : Types.Event → Content → Mapper → Mapper × Reply
output_text e c m =
    if ltb 8192 (len c.text + len e.text)
    then (m, fails (codes "Nova transcript limit reached"))
    else (
      record m { contents = insert e.content_id (record c { text = c.text ++ e.text }) m.contents },
      emits (
          record (Event.blank Event.transcript) {
            turn_id = c.turn;
            role = c.role;
            stage = c.stage;
            text = e.text;
          }
          ∷ []),
    )

good_pcm : Base64 → Types.Event → Content → Bool
good_pcm b64 e c = elim (b64.decode e.audio) [
  | none ↦ false
  | some pcm ↦ not (
      length pcm == 0
      || not (length pcm % 2 == 0)
      || ltb (256 * 1024) (length pcm)
      || not (c.rate == 24000))
]

unfoldable pub output_audio : Base64 → World → Types.Event → Content → Mapper → Mapper × Reply
unfolding good_pcm
output_audio b64 w e c m =
    if not (is_responding m.state)
    then (m, emits [])
    else if not (good_pcm b64 e c)
    then (m, fails (codes "invalid Nova PCM format"))
    else let next = (m.sequence + 1) % 2 ^ 64 in
      (
        record m {
          sequence = next;
          first_audio = if m.first_audio == 0 then w.now - m.started else m.first_audio;
        },
        emits (
            record (Event.blank Event.audio_output) {
              turn_id = c.turn;
              sequence = next;
              sample_rate = pos c.rate;
              audio = e.audio;
            }
            ∷ []),
      )

unfoldable pub use_tool : Types.Event → Content → Event.Event
use_tool e c = record (Event.blank Event.tool_started) {
  turn_id = c.turn;
  tool = some (record {
    operation_id = e.tool_id;
    name = e.tool_name;
    arguments = e.tool_arguments;
    result = [];
    approved = none;
  });
}

unfoldable pub history_bytes : List HistoryMessage → ℕ
history_bytes [] = 0
history_bytes (x ∷ xs) = len x.content + history_bytes xs

abbrev pub over_limits : List HistoryMessage → Bool
over_limits xs = ltb 32 (length xs) || ltb 65536 (history_bytes xs)

-- The loop that drops the oldest two messages while there are too many. `none` is the panic of
-- `m.History[2:]` on a shorter list.
unfoldable pub trim : List HistoryMessage → Option (List HistoryMessage)
unfolding history_bytes
trim [] = some []
trim (x ∷ []) = if over_limits (x ∷ []) then none else some (x ∷ [])
trim (x ∷ y ∷ xs) = elim (over_limits (x ∷ y ∷ xs)) [ true ↦ trim xs | false ↦ some (x ∷ y ∷ xs) ]

abbrev pub text_at : Text → Map Text → Text
text_at k m = elim (lookup k m) [ none ↦ [] | some t ↦ t ]

abbrev pub ends_turn : Types.Event → Bool
ends_turn e = eq_text e.stop_reason (codes "END_TURN")

unfoldable pub reply_of : Step → Mapper × Reply
reply_of (m, events) = (m, emits events)

unfoldable pub complete_if : Bool → World → Mapper → Mapper × Reply
unfolding reply_of
complete_if ready w m = if ready then reply_of (complete w m) else (m, emits [])

-- The end of a user's final text, which joins what the turn has of it.
unfoldable pub end_user_text : Content → Mapper → Mapper × Reply
end_user_text c m =
    let previous = text_at c.turn m.users in
    let text = if is_empty previous then c.text else previous ++ (b' ' ∷ c.text) in
    if ltb 8192 (len text)
    then (m, fails (codes "Nova user transcript limit reached"))
    else (record m { users = insert c.turn text m.users }, emits [])

abbrev pub exchange : Text → Text → List HistoryMessage
exchange said answer =
    record { role = codes "USER"; content = said }
    ∷ record { role = codes "ASSISTANT"; content = answer }
    ∷ []

-- The end of another final text: an assistant's, with the user's words, goes to the history.
unfoldable pub remember : Content → Mapper → Option Mapper
remember c m =
    if eq_text c.role (codes "ASSISTANT") && not (is_empty (text_at c.turn m.users))
    then Option.map (λ h. record m { history = h; users = delete c.turn m.users })
        (trim (m.history ++ exchange (text_at c.turn m.users) c.text))
    else some m

unfoldable pub end_text : World → Types.Event → Content → Mapper → Mapper × Reply
unfolding complete_if
end_text w e c m =
    if eq_text c.role (codes "USER") then end_user_text c m else elim (remember c m) [
      | none ↦ (m, panics)
      | some m' ↦
          complete_if
            (eq_text c.role (codes "ASSISTANT")
              && ends_turn e
              && is_responding m'.state
              && ltb 0 m'.sequence)
            w m'
    ]

unfoldable pub end_content : World → Types.Event → Content → Mapper → Mapper × Reply
unfolding complete_if
end_content w e c m =
    let m₁ = record m { contents = delete e.content_id m.contents } in
    if eq_text e.stop_reason (codes "INTERRUPTED")
    then reply_of (interrupt w m₁)
    else if eq_text c.kind (codes "TEXT") && eq_text c.stage (codes "FINAL")
    then end_text w e c m₁
    else complete_if (eq_text c.kind (codes "AUDIO") && ends_turn e && is_responding m₁.state) w m₁

-- The `switch` over the kinds that belong to a content.
unfoldable pub on_content : Base64 → World → Kind → Types.Event → Content → Mapper → Mapper × Reply
on_content b64 w text_output e c m = output_text e c m
on_content b64 w audio_output e c m = output_audio b64 w e c m
on_content b64 w tool_use e c m = (m, emits (use_tool e c ∷ []))
on_content b64 w content_end e c m = end_content w e c m
on_content b64 w _ e c m = (m, emits [])

unfoldable pub find_content : Base64 → World → Types.Event → Mapper → Mapper × Reply
find_content b64 w e m = elim (lookup e.content_id m.contents) [
  | none ↦ (m, emits [])
  | some c ↦
      if has c.turn m.cancelled || not (eq_text c.turn m.turn_id)
      then (m, emits [])
      else on_content b64 w e.kind e c m
]

abbrev pub may_complete : Types.Event → Mapper → Bool
may_complete e m = ends_turn e && is_responding m.state && ltb 0 m.sequence

unfoldable pub map_kind : Base64 → World → Kind → Types.Event → Mapper → Mapper × Reply
unfolding reply_of
map_kind b64 w interrupted e m = reply_of (interrupt w m)
map_kind b64 w completion_end e m =
    if may_complete e m then reply_of (complete w m) else find_content b64 w e m
map_kind b64 w content_start e m =
    if eq_text e.role (codes "USER") then start_user_content w e m else start_content e m
map_kind b64 w _ e m = find_content b64 w e m

-- Map.
unfoldable pub map_event : Base64 → World → Types.Event → Mapper → Mapper × Reply
map_event b64 w e m = elim e.failure [
  | some message ↦ (m, fails message)
  | none ↦ map_kind b64 w e.kind e m
]
