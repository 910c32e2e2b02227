-- ===== src/Assistant/Answered.antt =====
-- apps/personal-assistant-agent/internal/agent/runtime.go: a turn that is answered is timed.
use nova2sonici_osapp.Common.{
  ◌+◌, ◌%◌, ◌^◌, ◌≡◌, refl, sym, ap, ◌∙◌, inl, inr, Bool, true, false, not, ◌||◌, Option, none,
  some, List, [], ◌∷◌, arith, length, leb, ◌==◌, Bool-cases, Option-cases,
}
use nova2sonici_osapp.Common.Assoc.{lookup, insert, delete, has}
use nova2sonici_osapp.Common.Fallible.{Fallible, ok, err}
use nova2sonici_osapp.Common.Text.{Text, codes, eq_text}
use nova2sonici_osapp.Voice.Event.{
  Event, EventType, audio_append, turn_commit, turn_cancel, session_stop, tool_confirm,
}
use nova2sonici_osapp.Actions.Dialogue.{confirm}
use nova2sonici_osapp.Realtime.Types
use nova2sonici_osapp.Realtime.Types.{Mapper, Reply, emits, fails, panics}
use nova2sonici_osapp.Realtime.Mapper.{
  new_mapper, is_idle, is_responding, interrupt, start_input, commit,
}
use nova2sonici_osapp.Assistant.State.{
  Config, State, World, Step, Tools, reopened, and_then, using, emit, write, fail_with, send_error,
  rotate, cleared, renewed_event, interrupt_turn,
}
use nova2sonici_osapp.Assistant.Inputs.{
  next_chunk, new_input, append_audio, commit_turn, is_busy, after_cancel, cancel_turn, stop,
  decide, confirm_tool, on_input, take_input, max_turns,
}
use nova2sonici_osapp.Assistant.Calls.{run_call, close_content}
use nova2sonici_osapp.Assistant.Timed.{
  Or, and_then-Or, arms, write-Or, emit-Or, staged_calls, Still, fail_with-Or, send_error-Still,
}
use nova2sonici_osapp.Assistant.Calm.{calls_of, are_calls-delete, are_calls-lookup, run_call-Still}
use nova2sonici_osapp.Assistant.Armed.{interrupt-Arms, start_input-Arms}

-- The turn timer runs while the mapper responds, and the staged events are calls.
pub record IsTimed (s : State) : Type 0 where
  pub timed : is_responding s.mapper.state ≡ true → s.timed ≡ true
  pub calls : staged_calls s.tools ≡ true

pub IsTimed-Still : (s s' : State) → IsTimed s → Still s s' → IsTimed s'
IsTimed-Still s s' i still = record {
  timed = λ r. still.timed ∙ i.timed (ap (λ m. is_responding m.state) (sym still.mapper) ∙ r);
  calls = still.calls i.calls;
}

pub IsTimed-Or : (s : State) (st : Step) → IsTimed s → Or (Still s) st → Or IsTimed st
IsTimed-Or s st i (inl over) = inl over
IsTimed-Or s st i (inr still) = inr (IsTimed-Still s st.0 i still)

pub emit-IsTimed :
    (w : World) (es : List Event) (s : State)
    → staged_calls s.tools ≡ true
    → (is_responding s.mapper.state ≡ true → arms es s.timed ≡ true)
    → Or IsTimed (emit w es s)
emit-IsTimed w es s calls armed = elim (emit-Or w es s) [
  | inl over ↦ inl over
  | inr made ↦ inr (rw made (record { timed = armed; calls = calls }))
]

pub interrupt_turn-IsTimed : (w : World) (s : State) → IsTimed s → Or IsTimed (interrupt_turn w s)
unfolding interrupt_turn
interrupt_turn-IsTimed w s i =
    emit-IsTimed w (interrupt w.machine s.mapper).1
      (record s { mapper = (interrupt w.machine s.mapper).0 }) i.calls
      (interrupt-Arms w.machine s.mapper s.timed i.timed)

pub then-IsTimed :
    (st : Step) (f : State → Step)
    → Or IsTimed st
    → ((s : State) → IsTimed s → Or IsTimed (f s))
    → Or IsTimed (and_then st f)
then-IsTimed st f p q = and_then-Or IsTimed IsTimed st f p q

complain-IsTimed :
    (w : World) (code m : Text) (s : State) → IsTimed s → Or IsTimed (send_error w code m s)
complain-IsTimed w code m s i = IsTimed-Or s (send_error w code m s) i (send_error-Still w code m s)

pub rotate-IsTimed : (w : World) (s : State) → Or IsTimed (rotate w s)
unfolding rotate new_mapper
rotate-IsTimed w s =
    let s' : State = record s { tools = cleared s.tools } in
    elim (Bool-cases w.reopens) [
      | inr lost ↦
          let code = codes "provider_unavailable" in
          let m = codes "Nova session renewal failed" in
          let same : rotate w s ≡ fail_with w code m s' = ground arith in
          rw same (fail_with-Or IsTimed w code m s')
      | inl on ↦
          let s₁ : State = record s' {
            mapper = new_mapper s.mapper.history;
            opened_at = w.machine.now;
          } in
          let st : Step = (s₁, reopened s.mapper.history ∷ []) in
          let same : rotate w s ≡ and_then st (write w renewed_event) = ground arith in
          rw same (
            then-IsTimed st (write w renewed_event)
              (inr (record { timed = λ r. cc; calls = cleared_calls s.tools }))
              (λ s₂ i₂. elim (write-Or w renewed_event s₂) [
                | inl over ↦ inl over
                | inr made ↦ inr (rw made i₂)
              ]))
    ]
  where
    cleared_calls : (tools : Option Tools) → staged_calls (cleared tools) ≡ true
    cleared_calls none = refl
    cleared_calls (some t) = refl

next_chunk-Still : (w : World) (e : Event) (s : State) → Or (Still s) (next_chunk w e s)
unfolding next_chunk
next_chunk-Still w e s = elim (Bool-cases (e.sequence == (s.input_sequence + 1) % 2 ^ 64)) [
  | inr jumps ↦
      let code = codes "invalid_audio" in
      let m = codes "unexpected input sequence" in
      let same : next_chunk w e s ≡ send_error w code m s = ground arith in
      rw same (send_error-Still w code m s)
  | inl fits ↦
      let s' : State = record s { input_sequence = e.sequence } in
      elim (Bool-cases w.takes_audio) [
        | inl on ↦
            let same : (next_chunk w e s).0 ≡ s' = ground arith in
            inr (rw same (record { mapper = refl; timed = refl; calls = λ h. h }))
        | inr off ↦
            let code = codes "provider_unavailable" in
            let m = codes "Nova audio transport disconnected" in
            let same : next_chunk w e s ≡ fail_with w code m s' = ground arith in
            rw same (fail_with-Or (Still s) w code m s')
      ]
]

new_input-IsTimed : (w : World) (e : Event) (s : State) → IsTimed s → Or IsTimed (new_input w e s)
unfolding new_input
new_input-IsTimed w e s i =
    let m = start_input w.machine e.turn_id s.mapper in
    emit-IsTimed w m.1
      (record s {
        input_id = e.turn_id;
        input_sequence = 0;
        used_inputs = insert e.turn_id true s.used_inputs;
        mapper = m.0;
      })
      i.calls (start_input-Arms w.machine e.turn_id s.mapper s.timed i.timed)

append_audio-IsTimed :
    (w : World) (e : Event) (s : State) → IsTimed s → Or IsTimed (append_audio w e s)
unfolding append_audio
append_audio-IsTimed w e s i = elim (Bool-cases (eq_text e.turn_id s.input_id)) [
  | inl same_input ↦
      let same : append_audio w e s ≡ next_chunk w e s = ground arith in
      rw same (IsTimed-Or s (next_chunk w e s) i (next_chunk-Still w e s))
  | inr other ↦
      elim (Bool-cases (
        not (e.sequence == 1)
        || has e.turn_id s.used_inputs
        || leb max_turns (length s.used_inputs))) [
          | inl bad ↦
              let code = codes "invalid_audio" in
              let m = codes "new input requires an unused turnId and sequence 1" in
              let same : append_audio w e s ≡ send_error w code m s = ground arith in
              rw same (complain-IsTimed w code m s i)
          | inr good ↦
              let same : append_audio w e s ≡ and_then (new_input w e s) (next_chunk w e) =
                ground arith in
              rw same (
                then-IsTimed (new_input w e s) (next_chunk w e) (new_input-IsTimed w e s i)
                  (λ s₁ i₁. IsTimed-Or s₁ (next_chunk w e s₁) i₁ (next_chunk-Still w e s₁)))
        ]
]

commit_turn-IsTimed :
    (w : World) (e : Event) (s : State) → IsTimed s → Or IsTimed (commit_turn w e s)
unfolding commit_turn
commit_turn-IsTimed w e s i =
    elim (Bool-cases (not (eq_text e.turn_id s.input_id) || s.input_sequence == 0)) [
      | inl bad ↦
          let code = codes "invalid_turn" in
          let m = codes "no matching input to commit" in
          let same : commit_turn w e s ≡ send_error w code m s = ground arith in
          rw same (complain-IsTimed w code m s i)
      | inr good ↦
          let s' : State = record s { mapper = commit w.machine s.mapper; timed = true } in
          let same : commit_turn w e s ≡ (s', []) = ground arith in
          rw same (inr (record { timed = λ r. refl; calls = i.calls }))
    ]

after_cancel-IsTimed : (w : World) (s : State) → Or IsTimed (after_cancel w s)
unfolding after_cancel
after_cancel-IsTimed w s = elim (Bool-cases (is_busy s.tools)) [
  | inl busy ↦
      let code = codes "mcp_in_progress" in
      let m =
        codes "output cancelled; operation outcome may be pending, retry with the same requestId" in
      let same : after_cancel w s ≡ fail_with w code m s = ground arith in
      rw same (fail_with-Or IsTimed w code m s)
  | inr free ↦
      let s' : State = record s { timed = false; input_id = []; input_sequence = 0 } in
      let same : after_cancel w s ≡ rotate w s' = ground arith in rw same (rotate-IsTimed w s')
]

cancel_turn-IsTimed :
    (w : World) (e : Event) (s : State) → IsTimed s → Or IsTimed (cancel_turn w e s)
unfolding cancel_turn
cancel_turn-IsTimed w e s i =
    elim (Bool-cases (not (eq_text e.turn_id s.mapper.turn_id) || is_idle s.mapper.state)) [
      | inl bad ↦
          let code = codes "invalid_turn" in
          let m = codes "no matching active turn" in
          let same : cancel_turn w e s ≡ send_error w code m s = ground arith in
          rw same (complain-IsTimed w code m s i)
      | inr good ↦
          let same : cancel_turn w e s ≡ and_then (interrupt_turn w s) (after_cancel w) =
            ground arith in
          rw same (
            then-IsTimed (interrupt_turn w s) (after_cancel w) (interrupt_turn-IsTimed w s i)
              (λ s₁ i₁. after_cancel-IsTimed w s₁))
    ]

stop-Or : (w : World) (s : State) → Or IsTimed (stop w s)
unfolding stop
stop-Or w s = inl refl

-- Only the tools change, and their staged events do not.
pub tools-IsTimed :
    (s : State) (t t' : Tools)
    → s.tools ≡ some t
    → t'.staged ≡ t.staged
    → IsTimed s
    → IsTimed (record s { tools = some t' })
tools-IsTimed s t t' found same i = record {
  timed = i.timed;
  calls = rw same (calls_of t s found i.calls);
}

decide-IsTimed :
    (w : World) (id : Text) (approved : Bool) (t : Tools) (s : State)
    → s.tools ≡ some t
    → IsTimed s
    → Or IsTimed (decide w id approved t s)
unfolding decide
decide-IsTimed w id approved t s found i =
    let t' : Tools = record t { session = (confirm w.machine.now id approved t.session).0 } in
    let s' : State = record s { tools = some t' } in
    let i' = tools-IsTimed s t t' found refl i in
    elim (Bool-cases (confirm w.machine.now id approved t.session).1) [
      | inl taken ↦
          let same : decide w id approved t s ≡ (s', []) = ground arith in rw same (inr i')
      | inr not_taken ↦
          let code = codes "invalid_confirmation" in
          let m = codes "no matching pending operation" in
          let same : decide w id approved t s ≡ send_error w code m s' = ground arith in
          rw same (complain-IsTimed w code m s' i')
    ]

confirm_tool-IsTimed :
    (w : World) (e : Event) (s : State) → IsTimed s → Or IsTimed (confirm_tool w e s)
unfolding confirm_tool
confirm_tool-IsTimed w e s i = elim (Option-cases s.tools) [
  | inl nil ↦
      let code = codes "invalid_confirmation" in
      let m = codes "no matching pending operation" in
      let same : confirm_tool w e s ≡ send_error w code m s = ground arith in
      rw same (complain-IsTimed w code m s i)
  | inr (t, found) ↦ elim (Option-cases e.tool) [
    | inl missing ↦ inl (ground arith)
    | inr (tool, there) ↦ elim (Option-cases tool.approved) [
      | inl missing ↦ inl (ground arith)
      | inr (a, said) ↦
          let same : confirm_tool w e s ≡ decide w tool.operation_id a t s = ground arith in
          rw same (decide-IsTimed w tool.operation_id a t s found i)
    ]
  ]
]

on_input-IsTimed :
    (w : World) (e : Event) (kind : EventType) (s : State)
    → IsTimed s
    → Or IsTimed (on_input w e kind s)
unfolding on_input
on_input-IsTimed w e audio_append s i = append_audio-IsTimed w e s i
on_input-IsTimed w e turn_commit s i = commit_turn-IsTimed w e s i
on_input-IsTimed w e turn_cancel s i = cancel_turn-IsTimed w e s i
on_input-IsTimed w e session_stop s i = stop-Or w s
on_input-IsTimed w e tool_confirm s i = confirm_tool-IsTimed w e s i
on_input-IsTimed w e kind s i =
    complain-IsTimed w (codes "invalid_transition") (codes "session is already started") s i

pub take_input-IsTimed :
    (c : Config) (w : World) (x : Fallible Event) (s : State)
    → IsTimed s
    → Or IsTimed (take_input c w x s)
unfolding take_input
take_input-IsTimed c w (err m) s i = complain-IsTimed w (codes "invalid_event") m s i
take_input-IsTimed c w (ok e) s i = elim (Bool-cases (eq_text e.session_id c.session_id)) [
  | inr other ↦
      let code = codes "session_mismatch" in
      let m = codes "sessionId does not match this connection" in
      let same : take_input c w (ok e) s ≡ send_error w code m s = ground arith in
      rw same (complain-IsTimed w code m s i)
  | inl own ↦
      let same : take_input c w (ok e) s ≡ on_input w e e.kind s = ground arith in
      rw same (on_input-IsTimed w e e.kind s i)
]

-- The end of a content, whose events keep a timer that runs while the mapper responds.
pub close_content-IsTimed :
    (c : Config) (w : World) (e : Types.Event) (events : List Event) (s : State)
    → IsTimed s
    → (is_responding s.mapper.state ≡ true → (b : Bool) → b ≡ true → arms events b ≡ true)
    → Or IsTimed (close_content c w e events s)
unfolding close_content using
close_content-IsTimed c w e events s i keeps = elim (Option-cases s.tools) [
  | inl nil ↦ inl (ground arith)
  | inr (t, found) ↦ elim (Option-cases (lookup e.content_id t.staged)) [
    | inl missing ↦
        let same : close_content c w e events s ≡ emit w events s = ground arith in
        rw same (emit-IsTimed w events s i.calls (λ r. keeps r s.timed (i.timed r)))
    | inr (call, staged) ↦
        let t' : Tools = record t { staged = delete e.content_id t.staged } in
        let s' : State = record s { tools = some t' } in
        let calls = calls_of t s found i.calls in
        let i' : IsTimed s' = record {
          timed = i.timed;
          calls = are_calls-delete e.content_id t.staged calls;
        } in
        elim (Option-cases call.tool) [
          | inl nil ↦ inl (ground arith)
          | inr (tool, there) ↦ elim (Bool-cases (has tool.operation_id t.active)) [
            | inl runs ↦
                let same : close_content c w e events s ≡ (s', []) = ground arith in
                rw same (inr i')
            | inr free ↦
                let same : close_content c w e events s
                    ≡ and_then (run_call c w call tool s') (emit w events) =
                  ground arith in
                let is_call = are_calls-lookup e.content_id t.staged call staged calls in
                rw same (
                  and_then-Or (Still s') IsTimed (run_call c w call tool s') (emit w events)
                    (run_call-Still c w call tool s' is_call)
                    (λ s₁ still.
                      let i₁ = IsTimed-Still s' s₁ i' still in
                      emit-IsTimed w events s₁ i₁.calls (λ r.
                        keeps (ap (λ m. is_responding m.state) (sym still.mapper) ∙ r) s₁.timed
                          (i₁.timed r))))
          ]
        ]
  ]
]
