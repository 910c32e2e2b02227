-- ===== src/Assistant/Calls.antt =====
-- apps/personal-assistant-agent/internal/agent/runtime.go, Run: the user's words and the tool calls in
-- the provider's events.
use nova2sonici_osapp.Common.{
  ◌+◌, Bool, true, false, not, ◌&&◌, ◌||◌, Option, none, some, List, [], ◌∷◌, ◌++◌, is_nil, is_some,
  length, leb, ltb, if◌then◌else◌,
}
use nova2sonici_osapp.Common.Assoc.{Map, lookup, insert, delete, has}
use nova2sonici_osapp.Common.Text.{Text, codes, eq_text, is_empty, len}
use nova2sonici_osapp.Voice.Event
use nova2sonici_osapp.Voice.Event.{
  Event, EventType, blank, transcript, tool_started, tool_confirmation,
}
use nova2sonici_osapp.Mcp.Types.{Result, failure}
use nova2sonici_osapp.Actions.Types.{Job, Session, Pending}
use nova2sonici_osapp.Actions.Planning.{Plan, plan}
use nova2sonici_osapp.Actions.Dialogue.{observe_user, confirmation_phrase}
use nova2sonici_osapp.Realtime.Types
use nova2sonici_osapp.Realtime.Types.{Kind, content_start, content_end, tool_use}
use nova2sonici_osapp.Realtime.Mapping.{text_at}
use nova2sonici_osapp.Assistant.State.{
  Config, State, World, Step, starts, answers, and_then, panic, fail_with, emit, using,
  evidence_result, tool_result_event,
}

abbrev pub is_transcript : EventType → Bool
is_transcript transcript = true
is_transcript _ = false

abbrev pub is_user_final : Event → Bool
is_user_final v =
    is_transcript v.kind && eq_text v.role (codes "USER") && eq_text v.stage (codes "FINAL")

-- The loop that collects the final words of the user.
unfoldable pub hear : World → Text → List Event → State → Step
unfolding fail_with
hear w content_id [] s = (s, [])
hear w content_id (v ∷ vs) s =
    if not (is_user_final v)
    then hear w content_id vs s
    else if ltb 8192 (len (text_at content_id s.user_texts) + len v.text)
    then fail_with w (codes "provider_failed") (codes "user transcript too large") s
    else hear w content_id vs (record s {
      user_texts = insert content_id (text_at content_id s.user_texts ++ v.text) s.user_texts;
      user_turns = insert content_id v.turn_id s.user_turns;
    })

abbrev pub is_content_end : Kind → Bool
is_content_end content_end = true
is_content_end _ = false

abbrev pub is_content_start : Kind → Bool
is_content_start content_start = true
is_content_start _ = false

abbrev pub is_tool_use : Kind → Bool
is_tool_use tool_use = true
is_tool_use _ = false

unfoldable pub finish_words : Config → Text → State → State
finish_words c content_id s = elim (lookup content_id s.user_texts) [
  | none ↦ s
  | some text ↦
      let turn = text_at content_id s.user_turns in
      let before = if eq_text s.completed_user_turn turn then s.completed_user else [] in
      record s {
        completed_user = c.trim_space (before ++ b' ' ∷ text);
        completed_user_turn = turn;
        user_texts = delete content_id s.user_texts;
        user_turns = delete content_id s.user_turns;
      }
]

-- The content that follows the user's words is where they end.
unfoldable pub observes_now : Types.Event → State → Bool
observes_now e s =
    is_content_start e.kind
    && not (eq_text e.role (codes "USER"))
    && not (is_empty s.completed_user_turn)
    && is_nil s.user_texts

unfoldable pub observe : Config → World → State → Step
unfolding using
observe c w s = using s (λ t. (
  record s {
    tools = some (record t {
      session =
          (observe_user c.host w.machine.now s.completed_user_turn s.completed_user t.session).0;
    });
  },
  [],
))

abbrev pub is_tool_started : EventType → Bool
is_tool_started tool_started = true
is_tool_started _ = false

unfoldable pub stage_started : Text → List Event → Map Event → Map Event
stage_started content_id [] staged = staged
stage_started content_id (v ∷ vs) staged =
    stage_started content_id vs
      (if is_tool_started v.kind then insert content_id v staged else staged)

-- A call of a turn that is over.
unfoldable pub stale_call : Types.Event → Text → Event
stale_call e turn = record (blank tool_started) {
  turn_id = turn;
  code = codes "turn_cancelled";
  tool = some (record {
    operation_id = e.tool_id;
    name = e.tool_name;
    arguments = e.tool_arguments;
    result = [];
    approved = none;
  });
}

unfoldable pub stage : World → Types.Event → List Event → State → Step
unfolding using fail_with stage_started stale_call
stage w e events s = using s (λ t.
    if leb 32 (length t.staged)
    then fail_with w (codes "provider_failed") (codes "too many staged tool calls") s
    else (let staged = stage_started e.content_id events t.staged in
        let staged' =
          if is_some (lookup e.content_id staged)
          then staged
          else insert e.content_id (stale_call e s.mapper.turn_id) staged in
        (record s { tools = some (record t { staged = staged' }) }, [])))

-- A call of another turn is answered at once; any other is planned.
unfoldable pub plan_call : Config → World → Event → Event.Tool → Text → Session → Plan
plan_call c w call tool turn session =
    if eq_text call.code (codes "turn_cancelled") || not (eq_text call.turn_id turn)
    then (
      session,
      record {
        id = tool.operation_id;
        name = tool.name;
        key = [];
        turn_id = call.turn_id;
        args = [];
        confirmed = false;
      },
      some (failure c.host.json (codes "turn_cancelled")),
    )
    else plan c.host w.clock
        (record {
          id = tool.operation_id;
          name = tool.name;
          turn = call.turn_id;
          args = tool.arguments;
        })
        session

unfoldable pub confirmation_event : Session → Pending → Text → Event
confirmation_event session p turn = record (blank tool_confirmation) {
  turn_id = turn;
  tool = some (record {
    operation_id = p.operation_id;
    name = p.name;
    arguments = p.args;
    result = [];
    approved = none;
  });
  message =
      codes "Diga exatamente "
      ++ confirmation_phrase session
      ++ codes ", em um novo turno, para o alvo exibido.";
}

unfoldable pub ask_user : World → Text → State → Step
unfolding using emit confirmation_event
ask_user w turn s = using s (λ t. elim t.session.pending [
  | none ↦ (s, [])
  | some p ↦ emit w (confirmation_event t.session p turn ∷ []) s
])

-- A result goes to the provider and then to the client.
unfoldable pub deliver : Config → World → Text → Job → Result → State → Step
unfolding fail_with and_then emit tool_result_event
deliver c w complaint j r s =
    if w.takes_result
    then and_then (s, answers j.id r ∷ []) (emit w (tool_result_event c.host j r ∷ []))
    else fail_with w (codes "provider_unavailable") complaint s

unfoldable pub answer_call : Config → World → Text → Job → Result → State → Step
unfolding and_then evidence_result deliver ask_user
answer_call c w turn j r s = and_then (evidence_result c w j r s) (λ s₁.
    and_then (deliver c w (codes "Nova tool result delivery failed") j r s₁) (ask_user w turn))

unfoldable pub start_job : Job → State → Step
unfolding using
start_job j s = using s (λ t.
    (record s { tools = some (record t { active = insert j.id true t.active }) }, starts j ∷ []))

-- What becomes of a plan; four jobs at most run at a time.
unfoldable pub carry_out : Config → World → Text → Job → Option Result → State → Step
unfolding answer_call start_job using
carry_out c w turn j (some r) s = answer_call c w turn j r s
carry_out c w turn j none s = using s (λ t.
    if leb 4 (length t.active)
    then answer_call c w turn j (failure c.host.json (codes "tool_busy")) s
    else start_job j s)

unfoldable pub run_call : Config → World → Event → Event.Tool → State → Step
unfolding using and_then emit carry_out plan_call
run_call c w call tool s = using s (λ t.
    let (session, j, immediate) = plan_call c w call tool s.mapper.turn_id t.session in
    and_then (emit w (call ∷ []) (record s { tools = some (record t { session = session }) }))
      (carry_out c w call.turn_id j immediate))

-- The end of a content, which may be that of a staged call. A call that already runs is dropped, with
-- the events.
unfoldable pub close_content : Config → World → Types.Event → List Event → State → Step
unfolding using and_then emit run_call
close_content c w e events s = using s (λ t. elim (lookup e.content_id t.staged) [
  | none ↦ emit w events s
  | some call ↦
      let s' = record s { tools = some (record t { staged = delete e.content_id t.staged }) } in
      elim call.tool [
        | none ↦ panic s'
        | some tool ↦
            if has tool.operation_id t.active
            then (s', [])
            else and_then (run_call c w call tool s') (emit w events)
      ]
])
