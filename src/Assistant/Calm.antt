-- ===== src/Assistant/Calm.antt =====
-- apps/personal-assistant-agent/internal/agent/runtime.go: the tool calls and the user's words leave the
-- turn timer.
use nova2sonici_osapp.Common.{
  ◌+◌, ◌≡◌, refl, sym, ap, ◌∙◌, inl, inr, Bool, true, Option, none, some, List, [], ◌∷◌, ◌++◌,
  arith, length, is_some, leb, ltb, Bool-cases, Option-cases, if◌then◌else◌,
}
use nova2sonici_osapp.Common.Assoc.{Map, lookup, insert, delete}
use nova2sonici_osapp.Common.Text.{Text, codes, eq_text, len}
use nova2sonici_osapp.Voice.Event
use nova2sonici_osapp.Voice.Event.{Event, EventType, tool_started}
use nova2sonici_osapp.Mcp.Types.{Result, failure}
use nova2sonici_osapp.Actions.Types.{Job}
use nova2sonici_osapp.Actions.Dialogue.{observe_user}
use nova2sonici_osapp.Realtime.Types
use nova2sonici_osapp.Realtime.Mapping.{text_at}
use nova2sonici_osapp.Assistant.State.{
  Config, State, World, Tools, starts, and_then, panic, fail_with, emit, using, evidence_result,
}
use nova2sonici_osapp.Assistant.Calls.{
  hear, is_user_final, finish_words, observe, observes_now, stage_started, is_tool_started,
  stale_call, stage, deliver, ask_user, confirmation_event, answer_call, start_job, carry_out,
  plan_call, run_call,
}
use nova2sonici_osapp.Assistant.Loop.{observe_if}
use nova2sonici_osapp.Assistant.Timed.{
  Or, arm, are_calls, staged_calls, Still, Still-trans, same-Still, Still-and_then, fail_with-Or,
  emit_one-Still, evidence_result-Still, deliver-Still,
}

-- Only the tools change, and their staged events stay calls.
tools-Still :
    (s : State) (tools : Option Tools)
    → (staged_calls s.tools ≡ true → staged_calls tools ≡ true)
    → Still s (record s { tools = tools })
tools-Still s tools h = record { mapper = refl; timed = refl; calls = h }

pub calls_of :
    (t : Tools) (s : State)
    → s.tools ≡ some t
    → staged_calls s.tools ≡ true
    → are_calls t.staged ≡ true
calls_of t s found h = ap staged_calls (sym found) ∙ h

are_calls-insert :
    (id : Text) (v : Event) (m : Map Event)
    → is_tool_started v.kind ≡ true
    → are_calls m ≡ true
    → are_calls (insert id v m) ≡ true
unfolding insert
are_calls-insert id v [] is_call h = ground arith
are_calls-insert id v ((j, x) ∷ m) is_call h = ground (arith, are_calls-insert id v m is_call)

pub are_calls-delete :
    (id : Text) (m : Map Event) → are_calls m ≡ true → are_calls (delete id m) ≡ true
unfolding delete
are_calls-delete id [] h = refl
are_calls-delete id ((j, x) ∷ m) h = ground (arith, are_calls-delete id m)

pub are_calls-lookup :
    (id : Text) (m : Map Event) (v : Event)
    → lookup id m ≡ some v
    → are_calls m ≡ true
    → is_tool_started v.kind ≡ true
unfolding lookup
are_calls-lookup id [] v found h = cc
are_calls-lookup id ((j, x) ∷ m) v found h = elim (Bool-cases (eq_text j id)) [
  | inl here ↦ let same : x ≡ v = ground arith in rw (← same) (ground arith)
  | inr there ↦ are_calls-lookup id m v (ground arith) (ground arith)
]

are_calls-stage_started :
    (id : Text) (vs : List Event) (m : Map Event)
    → are_calls m ≡ true
    → are_calls (stage_started id vs m) ≡ true
unfolding stage_started
are_calls-stage_started id [] m h = h
are_calls-stage_started id (v ∷ vs) m h = elim (Bool-cases (is_tool_started v.kind)) [
  | inl is_call ↦
      rw is_call (are_calls-stage_started id vs (insert id v m) (are_calls-insert id v m is_call h))
  | inr other ↦ rw other (are_calls-stage_started id vs m h)
]

call-arm : (v : Event) (k : EventType) (b : Bool) → is_tool_started k ≡ true → arm v k b ≡ b
call-arm v tool_started b h = refl
call-arm v k b h = ground arith

pub hear-Still :
    (w : World) (id : Text) (vs : List Event) (s : State) → Or (Still s) (hear w id vs s)
unfolding hear
hear-Still w id [] s = inr (same-Still s s refl)
hear-Still w id (v ∷ vs) s =
    let next : State = record s {
      user_texts = insert id (text_at id s.user_texts ++ v.text) s.user_texts;
      user_turns = insert id v.turn_id s.user_turns;
    } in
    elim (Bool-cases (is_user_final v)) [
      | inr other ↦
          let same : hear w id (v ∷ vs) s ≡ hear w id vs s = ground arith in
          rw same (hear-Still w id vs s)
      | inl words ↦ elim (Bool-cases (ltb 8192 (len (text_at id s.user_texts) + len v.text))) [
        | inl long ↦
            let code = codes "provider_failed" in
            let m = codes "user transcript too large" in
            let same : hear w id (v ∷ vs) s ≡ fail_with w code m s = ground arith in
            rw same (fail_with-Or (Still s) w code m s)
        | inr fits ↦
            let same : hear w id (v ∷ vs) s ≡ hear w id vs next = ground arith in
            rw same (elim (hear-Still w id vs next) [
              | inl over ↦ inl over
              | inr still ↦
                  inr (record { mapper = still.mapper; timed = still.timed; calls = still.calls })
            ])
      ]
    ]

pub finish_words-Still : (c : Config) (id : Text) (s : State) → Still s (finish_words c id s)
unfolding finish_words
finish_words-Still c id s = elim (Option-cases (lookup id s.user_texts)) [
  | inl silent ↦ same-Still s (finish_words c id s) (ground arith)
  | inr (text, spoken) ↦ record {
    mapper = ground arith;
    timed = ground arith;
    calls = λ h. ground arith;
  }
]

panic-Or : (P : State → Type 0) (s : State) → Or P (panic s)
panic-Or P s = inl refl

pub observe_if-Still :
    (c : Config) (w : World) (e : Types.Event) (s : State) → Or (Still s) (observe_if c w e s)
unfolding observe_if observe using
observe_if-Still c w e s = elim (Bool-cases (observes_now e s)) [
  | inr later ↦ inr (same-Still s (observe_if c w e s).0 (ground arith))
  | inl now ↦ elim (Option-cases s.tools) [
    | inl nil ↦ inl (ground arith)
    | inr (t, found) ↦
        let session =
          (observe_user c.host w.machine.now s.completed_user_turn s.completed_user t.session).0 in
        let tools = some (record t { session = session }) in
        let same : observe_if c w e s ≡ (record s { tools = tools }, []) = ground arith in
        rw same (inr (tools-Still s tools (calls_of t s found)))
  ]
]

stale_call-starts :
    (e : Types.Event) (turn : Text) → is_tool_started (stale_call e turn).kind ≡ true
unfolding stale_call
stale_call-starts e turn = refl

pub stage-Still :
    (w : World) (e : Types.Event) (events : List Event) (s : State)
    → Or (Still s) (stage w e events s)
unfolding stage using
stage-Still w e events s = elim (Option-cases s.tools) [
  | inl nil ↦ inl (ground arith)
  | inr (t, found) ↦ elim (Bool-cases (leb 32 (length t.staged))) [
    | inl full ↦
        let code = codes "provider_failed" in
        let m = codes "too many staged tool calls" in
        let same : stage w e events s ≡ fail_with w code m s = ground arith in
        rw same (fail_with-Or (Still s) w code m s)
    | inr free ↦
        let staged = stage_started e.content_id events t.staged in
        let staged' =
          if is_some (lookup e.content_id staged)
          then staged
          else insert e.content_id (stale_call e s.mapper.turn_id) staged in
        let same : stage w e events s
            ≡ (record s { tools = some (record t { staged = staged' }) }, []) =
          ground arith in
        rw same (
          inr (
            tools-Still s (some (record t { staged = staged' }))
              (λ h. kept t (calls_of t s found h))))
  ]
]
  where
    kept :
        (t : Tools)
        → are_calls t.staged ≡ true
        → are_calls (
            if is_some (lookup e.content_id (stage_started e.content_id events t.staged))
            then stage_started e.content_id events t.staged
            else insert e.content_id
                (stale_call e s.mapper.turn_id)
                (stage_started e.content_id events t.staged))
          ≡ true
    kept t h =
        let started = are_calls-stage_started e.content_id events t.staged h in
        ground (
          arith,
          started,
          are_calls-insert e.content_id (stale_call e s.mapper.turn_id)
              (stage_started e.content_id events t.staged) (stale_call-starts e s.mapper.turn_id)
              started,
        )

pub ask_user-Still : (w : World) (turn : Text) (s : State) → Or (Still s) (ask_user w turn s)
unfolding ask_user using confirmation_event
ask_user-Still w turn s = elim (Option-cases s.tools) [
  | inl nil ↦ inl (ground arith)
  | inr (t, found) ↦ elim (Option-cases t.session.pending) [
    | inl nothing ↦ inr (same-Still s (ask_user w turn s).0 (ground arith))
    | inr (p, waits) ↦
        let e = confirmation_event t.session p turn in
        let same : ask_user w turn s ≡ emit w (e ∷ []) s = ground arith in
        rw same (emit_one-Still w e s refl)
  ]
]

pub answer_call-Still :
    (c : Config) (w : World) (turn : Text) (j : Job) (r : Result) (s : State)
    → Or (Still s) (answer_call c w turn j r s)
unfolding answer_call
answer_call-Still c w turn j r s =
    let m = codes "Nova tool result delivery failed" in
    Still-and_then s (evidence_result c w j r s)
      (λ s₁. and_then (deliver c w m j r s₁) (ask_user w turn)) (evidence_result-Still c w j r s)
      (λ s₁ still.
        Still-and_then s₁ (deliver c w m j r s₁) (ask_user w turn) (deliver-Still c w m j r s₁)
          (λ s₂ still₂. ask_user-Still w turn s₂))

start_job-Still : (j : Job) (s : State) → Or (Still s) (start_job j s)
unfolding start_job using
start_job-Still j s = elim (Option-cases s.tools) [
  | inl nil ↦ inl (ground arith)
  | inr (t, found) ↦
      let tools = some (record t { active = insert j.id true t.active }) in
      let same : start_job j s ≡ (record s { tools = tools }, starts j ∷ []) = ground arith in
      rw same (inr (tools-Still s tools (calls_of t s found)))
]

carry_out-Still :
    (c : Config) (w : World) (turn : Text) (j : Job) (immediate : Option Result) (s : State)
    → Or (Still s) (carry_out c w turn j immediate s)
unfolding carry_out using
carry_out-Still c w turn j (some r) s = answer_call-Still c w turn j r s
carry_out-Still c w turn j none s = elim (Option-cases s.tools) [
  | inl nil ↦ inl (ground arith)
  | inr (t, found) ↦ elim (Bool-cases (leb 4 (length t.active))) [
    | inl busy ↦
        let r = failure c.host.json (codes "tool_busy") in
        let same : carry_out c w turn j none s ≡ answer_call c w turn j r s = ground arith in
        rw same (answer_call-Still c w turn j r s)
    | inr free ↦
        let same : carry_out c w turn j none s ≡ start_job j s = ground arith in
        rw same (start_job-Still j s)
  ]
]

pub run_call-Still :
    (c : Config) (w : World) (call : Event) (tool : Event.Tool) (s : State)
    → is_tool_started call.kind ≡ true
    → Or (Still s) (run_call c w call tool s)
unfolding run_call using
run_call-Still c w call tool s is_call = elim (Option-cases s.tools) [
  | inl nil ↦ inl (ground arith)
  | inr (t, found) ↦
      let p = plan_call c w call tool s.mapper.turn_id t.session in
      let tools = some (record t { session = p.0 }) in
      let s' : State = record s { tools = tools } in
      let same : run_call c w call tool s
          ≡ and_then (emit w (call ∷ []) s') (carry_out c w call.turn_id p.1 p.2) =
        ground arith in
      rw same (from s' (tools-Still s tools (calls_of t s found)) p.1 p.2)
]
  where
    from :
        (s' : State)
        → Still s s'
        → (j : Job) (immediate : Option Result)
        → Or (Still s) (and_then (emit w (call ∷ []) s') (carry_out c w call.turn_id j immediate))
    from s' still j immediate =
        Still-and_then s (emit w (call ∷ []) s') (carry_out c w call.turn_id j immediate)
          (elim (emit_one-Still w call s' (call-arm call call.kind s'.timed is_call)) [
            | inl over ↦ inl over
            | inr more ↦ inr (Still-trans s s' (emit w (call ∷ []) s').0 still more)
          ])
          (λ s₁ still₁. carry_out-Still c w call.turn_id j immediate s₁)
