-- ===== src/Assistant/Loop.antt =====
-- apps/personal-assistant-agent/internal/agent/runtime.go, Run: its loop, one step for each thing that
-- it selects.
use nova2sonici_osapp.Common.{
  ℕ, ◌-◌, ◌*◌, ◌^◌, not, ◌&&◌, none, some, List, [], ◌∷◌, ◌++◌, leb, if◌then◌else◌,
}
use nova2sonici_osapp.Common.Assoc.{delete}
use nova2sonici_osapp.Common.Fallible.{Fallible}
use nova2sonici_osapp.Common.Text.{codes}
use nova2sonici_osapp.Voice.Event.{Event}
use nova2sonici_osapp.Mcp.Types.{Result}
use nova2sonici_osapp.Actions.Types.{Job}
use nova2sonici_osapp.Actions.Dialogue.{complete}
use nova2sonici_osapp.Realtime.Types
use nova2sonici_osapp.Realtime.Types.{Reply, emits, fails, panics}
use nova2sonici_osapp.Realtime.Mapper.{is_idle}
use nova2sonici_osapp.Realtime.Mapping.{map_event}
use nova2sonici_osapp.Assistant.State.{
  Config, State, World, Step, and_then, end_run, panic, fail_with, emit, rotate, interrupt_turn,
  evidence_result,
}
use nova2sonici_osapp.Assistant.Inputs.{is_busy, take_input}
use nova2sonici_osapp.Assistant.Calls.{
  hear, is_content_end, is_tool_use, finish_words, observes_now, observe, stage, deliver,
  close_content,
}

pub data Signal : Type 0 where
  context_done turn_timed_out renew_due inputs_closed stream_closed : Signal
  input : Fallible Event → Signal
  tool_finished : Job → Result → Signal
  provider : Types.Event → Signal

-- 7 minutes and 50 seconds.
abbrev pub session_limit : ℕ
session_limit = 470 * 10 ^ 9

unfoldable pub time_out : World → State → Step
unfolding and_then interrupt_turn fail_with
time_out w s =
    and_then (interrupt_turn w s)
      (fail_with w (codes "provider_timeout") (codes "Nova did not complete the turn in time"))

unfoldable pub renew : World → State → Step
unfolding and_then interrupt_turn fail_with rotate
renew w s =
    let is_late = leb session_limit (w.machine.now - s.opened_at) in
    if is_busy s.tools
    then (if is_late
        then fail_with w (codes "mcp_in_progress")
            (codes "session limit reached while tool runs; retry with the same requestId") s
        else (s, []))
    else if not (is_idle s.mapper.state) && not is_late
    then (s, [])
    else and_then (if is_idle s.mapper.state then (s, []) else interrupt_turn w s) (rotate w)

unfoldable pub finish_tool : Config → World → Job → Result → State → Step
unfolding and_then evidence_result deliver
finish_tool c w j r s = elim s.tools [
  | none ↦ (s, [])
  | some t ↦
      let t' = record t { active = delete j.id t.active; session = complete j r t.session } in
      and_then (evidence_result c w j r (record s { tools = some t' })) (
        deliver c w
          (codes "Nova tool result delivery failed; retry mutations with the same requestId") j r)
]

-- What the tools make of the provider's event, and the events that the mapper made of it.
unfoldable pub observe_if : Config → World → Types.Event → State → Step
unfolding observe
observe_if c w e s = if observes_now e s then observe c w s else (s, [])

unfoldable pub finish_event : Config → World → Types.Event → List Event → State → Step
unfolding and_then stage close_content emit
finish_event c w e events s =
    if is_tool_use e.kind
    then stage w e events s
    else if is_content_end e.kind
    then close_content c w e events s
    else emit w events s

unfoldable pub after_words : Config → World → Types.Event → List Event → State → Step
unfolding and_then observe_if finish_event
after_words c w e events s₁ =
    let s = if is_content_end e.kind then finish_words c e.content_id s₁ else s₁ in
    and_then (observe_if c w e s) (finish_event c w e events)

unfoldable pub follow : Config → World → Types.Event → List Event → State → Step
unfolding and_then hear after_words
follow c w e events s = and_then (hear w e.content_id events s) (after_words c w e events)

unfoldable pub take_reply : Config → World → Types.Event → Reply → State → Step
unfolding fail_with follow emit
take_reply c w e (fails _) s =
    fail_with w (codes "provider_failed") (codes "Nova returned an invalid response") s
take_reply c w e panics s = panic s
take_reply c w e (emits events) s = elim s.tools [
  | none ↦ emit w events s
  | some _ ↦ follow c w e events s
]

unfoldable pub take_event : Config → World → Types.Event → State → Step
unfolding take_reply
take_event c w e s =
    let (m, reply) = map_event c.base64 w.machine e s.mapper in
    take_reply c w e reply (record s { mapper = m })

unfoldable pub select : Config → World → Signal → State → Step
unfolding time_out renew take_input finish_tool take_event fail_with
select c w context_done s = (end_run s, [])
select c w inputs_closed s = (end_run s, [])
select c w turn_timed_out s = if s.timed then time_out w s else (s, [])
select c w renew_due s = renew w s
select c w stream_closed s =
    fail_with w (codes "provider_unavailable") (codes "Nova stream disconnected") s
select c w (input i) s = take_input c w i s
select c w (tool_finished j r) s = finish_tool c w j r s
select c w (provider e) s = take_event c w e s

unfoldable pub step : Config → World → Signal → State → Step
unfolding select
step c w g s = if s.ended then (s, []) else select c w g s

-- A run: what is selected one after the other.
unfoldable pub run : Config → List (World × Signal) → State → Step
unfolding step
run c [] s = (s, [])
run c ((w, g) ∷ gs) s =
    let (s₁, first) = step c w g s in let (s₂, rest) = run c gs s₁ in (s₂, first ++ rest)
