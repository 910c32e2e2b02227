-- ===== src/Assistant/Awaited.antt =====
-- apps/personal-assistant-agent/internal/agent/runtime.go: the turn timer over a whole run.
use nova2sonici_osapp.Common.{
  ◌-◌, ◌≡◌, refl, sym, ap, ◌∙◌, inl, inr, Bool, true, false, some, List, [], ◌∷◌, arith, leb,
  Bool-cases, Option-cases, if◌then◌else◌,
}
use nova2sonici_osapp.Common.Assoc.{delete}
use nova2sonici_osapp.Common.Text.{codes}
use nova2sonici_osapp.Voice.Event.{Event}
use nova2sonici_osapp.Mcp.Types.{Result}
use nova2sonici_osapp.Actions.Types.{Job}
use nova2sonici_osapp.Actions.Dialogue.{complete}
use nova2sonici_osapp.Realtime.Types
use nova2sonici_osapp.Realtime.Types.{Mapper, Reply, emits, fails, panics}
use nova2sonici_osapp.Realtime.Mapper.{is_idle, is_responding}
use nova2sonici_osapp.Realtime.Mapping.{map_event}
use nova2sonici_osapp.Assistant.State.{
  Config, State, World, Tools, and_then, emit, fail_with, rotate, interrupt_turn, evidence_result,
}
use nova2sonici_osapp.Assistant.Inputs.{is_busy}
use nova2sonici_osapp.Assistant.Calls.{
  hear, is_content_end, is_content_start, is_tool_use, finish_words, stage, deliver, close_content,
}
use nova2sonici_osapp.Assistant.Loop.{
  Signal, context_done, turn_timed_out, renew_due, inputs_closed, stream_closed, input,
  tool_finished, provider, time_out, renew, finish_tool, observe_if, finish_event, after_words,
  follow, take_reply, take_event, select, step, run, session_limit,
}
use nova2sonici_osapp.Assistant.Timed.{
  Or, and_then-Or, arms, staged_calls, Still, same-Still, Still-and_then, fail_with-Or,
  evidence_result-Still, deliver-Still,
}
use nova2sonici_osapp.Assistant.Answered.{
  IsTimed, IsTimed-Or, emit-IsTimed, interrupt_turn-IsTimed, then-IsTimed, rotate-IsTimed,
  tools-IsTimed, take_input-IsTimed, close_content-IsTimed,
}
use nova2sonici_osapp.Assistant.Calm.{hear-Still, finish_words-Still, observe_if-Still, stage-Still}
use nova2sonici_osapp.Assistant.Armed.{map_event-ArmsReply, map_event-Ends}

-- What is known of an event of the provider and of what the mapper made of it: the events set the timer
-- if the mapper responds, or keep it, and only the start of a content makes the mapper respond.
record Fits (e : Types.Event) (events : List Event) (s : State) : Type 0 where
  calls : staged_calls s.tools ≡ true
  armed : is_responding s.mapper.state ≡ true → arms events s.timed ≡ true
  held : is_content_start e.kind ≡ false → is_responding s.mapper.state ≡ true → s.timed ≡ true
  keeps : is_responding s.mapper.state ≡ true → (b : Bool) → b ≡ true → arms events b ≡ true

Fits-Still :
    (e : Types.Event) (events : List Event) (s s' : State)
    → Fits e events s
    → Still s s'
    → Fits e events s'
Fits-Still e events s s' f still =
    let before : is_responding s'.mapper.state ≡ true → is_responding s.mapper.state ≡ true =
      λ r. ap (λ m. is_responding m.state) (sym still.mapper) ∙ r in
    record {
      calls = still.calls f.calls;
      armed = λ r. ap (arms events) still.timed ∙ f.armed (before r);
      held = λ other r. still.timed ∙ f.held other (before r);
      keeps = λ r. f.keeps (before r);
    }

held-IsTimed :
    (e : Types.Event) (events : List Event) (s : State)
    → Fits e events s
    → is_content_start e.kind ≡ false
    → IsTimed s
held-IsTimed e events s f other = record { timed = f.held other; calls = f.calls }

finish_event-IsTimed :
    (c : Config) (w : World) (e : Types.Event) (events : List Event) (s : State)
    → Fits e events s
    → Or IsTimed (finish_event c w e events s)
unfolding finish_event
finish_event-IsTimed c w e events s f = elim (Bool-cases (is_tool_use e.kind)) [
  | inl uses ↦
      let same : finish_event c w e events s ≡ stage w e events s = ground arith in
      let i = held-IsTimed e events s f (tool_not_start e.kind uses) in
      rw same (IsTimed-Or s (stage w e events s) i (stage-Still w e events s))
  | inr other ↦ elim (Bool-cases (is_content_end e.kind)) [
    | inl ends ↦
        let same : finish_event c w e events s ≡ close_content c w e events s = ground arith in
        let i = held-IsTimed e events s f (end_not_start e.kind ends) in
        rw same (close_content-IsTimed c w e events s i f.keeps)
    | inr goes_on ↦
        let same : finish_event c w e events s ≡ emit w events s = ground arith in
        rw same (emit-IsTimed w events s f.calls f.armed)
  ]
]
  where
    tool_not_start : (k : Types.Kind) → is_tool_use k ≡ true → is_content_start k ≡ false
    tool_not_start k h = ground arith

    end_not_start : (k : Types.Kind) → is_content_end k ≡ true → is_content_start k ≡ false
    end_not_start k h = ground arith

after_words-IsTimed :
    (c : Config) (w : World) (e : Types.Event) (events : List Event) (s : State)
    → Fits e events s
    → Or IsTimed (after_words c w e events s)
unfolding after_words
after_words-IsTimed c w e events s f =
    let s₁ = if is_content_end e.kind then finish_words c e.content_id s else s in
    and_then-Or (Still s₁) IsTimed (observe_if c w e s₁) (finish_event c w e events)
      (observe_if-Still c w e s₁)
      (λ s₂ still. finish_event-IsTimed c w e events s₂ (
        Fits-Still e events s₁ s₂ (Fits-Still e events s s₁ f (words (is_content_end e.kind)))
          still))
  where
    words : (b : Bool) → Still s (if b then finish_words c e.content_id s else s)
    words true = finish_words-Still c e.content_id s
    words false = same-Still s s refl

follow-IsTimed :
    (c : Config) (w : World) (e : Types.Event) (events : List Event) (s : State)
    → Fits e events s
    → Or IsTimed (follow c w e events s)
unfolding follow
follow-IsTimed c w e events s f =
    and_then-Or (Still s) IsTimed (hear w e.content_id events s) (after_words c w e events)
      (hear-Still w e.content_id events s)
      (λ s₁ still. after_words-IsTimed c w e events s₁ (Fits-Still e events s s₁ f still))

take_reply-IsTimed :
    (c : Config) (w : World) (e : Types.Event) (reply : Reply) (s : State)
    → ((events : List Event) → reply ≡ emits events → Fits e events s)
    → Or IsTimed (take_reply c w e reply s)
unfolding take_reply
take_reply-IsTimed c w e (fails m) s fits =
    fail_with-Or IsTimed w (codes "provider_failed") (codes "Nova returned an invalid response") s
take_reply-IsTimed c w e panics s fits = inl refl
take_reply-IsTimed c w e (emits events) s fits =
    let f = fits events refl in
    elim (Option-cases s.tools) [
      | inl nil ↦
          let same : take_reply c w e (emits events) s ≡ emit w events s = ground arith in
          rw same (emit-IsTimed w events s f.calls f.armed)
      | inr (t, found) ↦
          let same : take_reply c w e (emits events) s ≡ follow c w e events s = ground arith in
          rw same (follow-IsTimed c w e events s f)
    ]

take_event-IsTimed :
    (c : Config) (w : World) (e : Types.Event) (s : State)
    → IsTimed s
    → Or IsTimed (take_event c w e s)
unfolding take_event
take_event-IsTimed c w e s i =
    let m = map_event c.base64 w.machine e s.mapper in
    let arming = map_event-ArmsReply c.base64 w.machine e s.mapper in
    take_reply-IsTimed c w e m.1 (record s { mapper = m.0 })
      (λ events made. record {
        calls = i.calls;
        armed = arming events made s.timed i.timed;
        held = λ other r. i.timed (map_event-Ends c.base64 w.machine e s.mapper other r);
        keeps = λ r b on. arming events made b (λ h. on) r;
      })

finish_tool-IsTimed :
    (c : Config) (w : World) (j : Job) (r : Result) (s : State)
    → IsTimed s
    → Or IsTimed (finish_tool c w j r s)
unfolding finish_tool
finish_tool-IsTimed c w j r s i = elim (Option-cases s.tools) [
  | inl nil ↦ let same : finish_tool c w j r s ≡ (s, []) = ground arith in rw same (inr i)
  | inr (t, found) ↦
      let t' : Tools = record t {
        active = delete j.id t.active;
        session = complete j r t.session;
      } in
      let s' : State = record s { tools = some t' } in
      let m = codes "Nova tool result delivery failed; retry mutations with the same requestId" in
      let same : finish_tool c w j r s ≡ and_then (evidence_result c w j r s') (deliver c w m j r) =
        ground arith in
      rw same (
        IsTimed-Or s' (and_then (evidence_result c w j r s') (deliver c w m j r))
          (tools-IsTimed s t t' found refl i)
          (Still-and_then s' (evidence_result c w j r s') (deliver c w m j r)
            (evidence_result-Still c w j r s') (λ s₁ still. deliver-Still c w m j r s₁)))
]

-- The timer ends the run.
time_out-ends : (w : World) (s : State) → (time_out w s).0.ended ≡ true
unfolding time_out
time_out-ends w s =
    let code = codes "provider_timeout" in
    let m = codes "Nova did not complete the turn in time" in
    elim (and_then-Or (λ s₁. Unit {0}) (λ s₁. ⊥) (interrupt_turn w s) (fail_with w code m) (inr tt)
      (λ s₁ u. fail_with-Or (λ s₂. ⊥) w code m s₁)) [ inl over ↦ over | inr never ↦ absurd never ]

renew-IsTimed : (w : World) (s : State) → IsTimed s → Or IsTimed (renew w s)
unfolding renew
renew-IsTimed w s i =
    let is_late = leb session_limit (w.machine.now - s.opened_at) in
    let code = codes "mcp_in_progress" in
    let m = codes "session limit reached while tool runs; retry with the same requestId" in
    elim (Bool-cases (is_busy s.tools)) [
      | inl busy ↦ elim (Bool-cases is_late) [
        | inl late ↦
            let same : renew w s ≡ fail_with w code m s = ground arith in
            rw same (fail_with-Or IsTimed w code m s)
        | inr early ↦ let same : renew w s ≡ (s, []) = ground arith in rw same (inr i)
      ]
      | inr free ↦ elim (Bool-cases (is_idle s.mapper.state)) [
        | inl quiet_now ↦
            let same : renew w s ≡ and_then (s, []) (rotate w) = ground arith in
            rw same (then-IsTimed (s, []) (rotate w) (inr i) (λ s₁ i₁. rotate-IsTimed w s₁))
        | inr speaking ↦ elim (Bool-cases is_late) [
          | inr early ↦ let same : renew w s ≡ (s, []) = ground arith in rw same (inr i)
          | inl late ↦
              let same : renew w s ≡ and_then (interrupt_turn w s) (rotate w) = ground arith in
              rw same (
                then-IsTimed (interrupt_turn w s) (rotate w) (interrupt_turn-IsTimed w s i)
                  (λ s₁ i₁. rotate-IsTimed w s₁))
        ]
      ]
    ]

select-IsTimed :
    (c : Config) (w : World) (g : Signal) (s : State) → IsTimed s → Or IsTimed (select c w g s)
unfolding select
select-IsTimed c w context_done s i = inl refl
select-IsTimed c w inputs_closed s i = inl refl
select-IsTimed c w turn_timed_out s i = elim (Bool-cases s.timed) [
  | inl timed ↦
      let same : select c w turn_timed_out s ≡ time_out w s = ground arith in
      rw same (inl (time_out-ends w s))
  | inr untimed ↦ let same : select c w turn_timed_out s ≡ (s, []) = ground arith in rw same (inr i)
]
select-IsTimed c w renew_due s i = renew-IsTimed w s i
select-IsTimed c w stream_closed s i =
    fail_with-Or IsTimed w (codes "provider_unavailable") (codes "Nova stream disconnected") s
select-IsTimed c w (input x) s i = take_input-IsTimed c w x s i
select-IsTimed c w (tool_finished j r) s i = finish_tool-IsTimed c w j r s i
select-IsTimed c w (provider e) s i = take_event-IsTimed c w e s i

step-IsTimed :
    (c : Config) (w : World) (g : Signal) (s : State) → IsTimed s → Or IsTimed (step c w g s)
unfolding step
step-IsTimed c w g s i = elim (Bool-cases s.ended) [
  | inl over ↦ let same : step c w g s ≡ (s, []) = ground arith in rw same (inr i)
  | inr on ↦
      let same : step c w g s ≡ select c w g s = ground arith in rw same (select-IsTimed c w g s i)
]

-- A run that has returned stays so.
run-ended :
    (c : Config) (gs : List (World × Signal)) (s : State)
    → s.ended ≡ true
    → (run c gs s).0.ended ≡ true
unfolding run step
run-ended c [] s over = over
run-ended c ((w, g) ∷ gs) s over =
    let same : step c w g s ≡ (s, []) = ground arith in rw same (run-ended c gs s over)

run-IsTimed :
    (c : Config) (gs : List (World × Signal)) (s : State) → IsTimed s → Or IsTimed (run c gs s)
unfolding run
run-IsTimed c [] s i = inr i
run-IsTimed c ((w, g) ∷ gs) s i = elim (step-IsTimed c w g s i) [
  | inl over ↦ inl (run-ended c gs (step c w g s).0 over)
  | inr on ↦ run-IsTimed c gs (step c w g s).0 on
]

-- From a state in which the timer runs if the mapper responds, and the staged events are calls: where
-- the mapper responds after a run that has not returned, whatever was selected and whatever the network
-- did, the turn timer runs, and if it fires next, Run returns.
pub run-answered :
    (c : Config) (gs : List (World × Signal)) (s : State) (w : World)
    → IsTimed s
    → (run c gs s).0.ended ≡ false
    → is_responding (run c gs s).0.mapper.state ≡ true
    → ((run c gs s).0.timed ≡ true) × ((step c w turn_timed_out (run c gs s).0).0.ended ≡ true)
unfolding step select
run-answered c gs s w i on responds = elim (run-IsTimed c gs s i) [
  | inl over ↦ absurd (cc (over, on))
  | inr timed ↦
      let s' = (run c gs s).0 in
      let runs = timed.timed responds in
      let same : step c w turn_timed_out s' ≡ time_out w s' = ground arith in
      (runs, rw same (time_out-ends w s'))
]
