-- ===== src/Assistant/Moved.antt =====
-- apps/personal-assistant-agent/internal/agent/runtime.go: what the client sends, as operations of the
-- tool session.
use nova2sonici_osapp.Common.{
  ◌≡◌, refl, ap, inl, inr, Bool, true, false, not, ◌||◌, some, List, [], ◌∷◌, arith, length, leb,
  Bool-cases, Option-cases, ◌==◌,
}
use nova2sonici_osapp.Common.Assoc.{Map, insert, has}
use nova2sonici_osapp.Common.Fallible.{Fallible, ok, err}
use nova2sonici_osapp.Common.Text.{Text, codes, eq_text}
use nova2sonici_osapp.Voice.Event.{
  Event, EventType, audio_append, turn_commit, turn_cancel, session_stop, tool_confirm,
}
use nova2sonici_osapp.Actions.Types.{Binding}
use nova2sonici_osapp.Actions.Dialogue
use nova2sonici_osapp.Actions.Dialogue.{confirm, observe_user, complete}
use nova2sonici_osapp.Actions.Run
use nova2sonici_osapp.Actions.Run.{Op, observes, confirms, interrupts, completes, mutations}
use nova2sonici_osapp.Realtime.Mapper.{new_mapper, is_idle, start_input}
use nova2sonici_osapp.Assistant.State.{
  Config, State, World, Step, Tools, Output, reopened, and_then, end_run, panic, panicked, emit,
  write, fail_with, send_error, rotate, cleared, renewed_event, interrupt_turn,
}
use nova2sonici_osapp.Assistant.Inputs.{
  next_chunk, new_input, append_audio, commit_turn, is_busy, after_cancel, cancel_turn, stop,
  decide, confirm_tool, on_input, take_input, max_turns,
}
use nova2sonici_osapp.Assistant.Plain.{
  started, Plain, and_then-Plain, write-Plain, send_error-Plain, fail_with-Plain, emit-Plain,
  interrupt_turn-Plain,
}
use nova2sonici_osapp.Assistant.Started.{Follows, moved-Follows, Plain-Follows, and_then-Follows}

module _ (c : Config) (bindings : Map Binding) (k : Text) (w : World) where
  abbrev pub Moves : Tools → Step → Type 0
  Moves = Follows c bindings k

  abbrev pub Quiet : State → Step → Type 0
  Quiet = Plain bindings k

  -- A state with the same tools that says nothing of jobs.
  pub quiet :
      (s s' : State) (os : List Output)
      → s'.tools ≡ s.tools
      → started bindings k os ≡ 0
      → Quiet s (s', os)
  quiet s s' os same none_started = record { tools = same; none_started = none_started }

  pub rotate-Follows : (t : Tools) (s : State) → s.tools ≡ some t → Moves t (rotate w s)
  unfolding rotate Run.run Run.step started
  rotate-Follows t s has =
      let t' : Tools = record t { session = Dialogue.interrupt t.session; staged = [] } in
      let s' : State = record s { tools = cleared s.tools } in
      let now_has : s'.tools ≡ some t' = ap cleared has in
      moved-Follows c bindings k t t' (interrupts ∷ []) s' (rotate w s) refl (λ h. h)
        (λ h. omega arith) now_has go
    where
      go : Quiet (record s { tools = cleared s.tools }) (rotate w s)
      go =
          let s' : State = record s { tools = cleared s.tools } in
          elim (Bool-cases w.reopens) [
            | inr lost ↦
                let code = codes "provider_unavailable" in
                let m = codes "Nova session renewal failed" in
                let same : rotate w s ≡ fail_with w code m s' = ground arith in
                rw same (fail_with-Plain bindings k w code m s')
            | inl on ↦
                let st : Step = (
                  record s' { mapper = new_mapper s.mapper.history; opened_at = w.machine.now },
                  reopened s.mapper.history ∷ [],
                ) in
                let same : rotate w s ≡ and_then st (write w renewed_event) = ground arith in
                rw same (
                  and_then-Plain bindings k s' st (write w renewed_event)
                    (quiet s' st.0 st.1 refl refl) (write-Plain bindings k w renewed_event))
          ]

  next_chunk-Plain : (e : Event) (s : State) → Quiet s (next_chunk w e s)
  unfolding next_chunk send_error fail_with started
  next_chunk-Plain e s = record { tools = ground arith; none_started = ground arith }

  new_input-Plain : (e : Event) (s : State) → Quiet s (new_input w e s)
  unfolding new_input
  new_input-Plain e s =
      let (m, events) = start_input w.machine e.turn_id s.mapper in
      let p = emit-Plain bindings k w (start_input w.machine e.turn_id s.mapper).1 (record s {
        input_id = e.turn_id;
        input_sequence = 0;
        used_inputs = insert e.turn_id true s.used_inputs;
        mapper = (start_input w.machine e.turn_id s.mapper).0;
      }) in
      record { tools = p.tools; none_started = p.none_started }

  pub append_audio-Plain : (e : Event) (s : State) → Quiet s (append_audio w e s)
  unfolding append_audio
  append_audio-Plain e s = elim (Bool-cases (eq_text e.turn_id s.input_id)) [
    | inl same_input ↦
        let same : append_audio w e s ≡ next_chunk w e s = ground arith in
        rw same (next_chunk-Plain e s)
    | inr other ↦
        elim (Bool-cases (
          not (e.sequence == 1)
          || has e.turn_id s.used_inputs
          || leb max_turns (length s.used_inputs))) [
            | inl bad ↦
                let code = codes "invalid_audio" in
                let m = codes "new input requires an unused turnId and sequence 1" in
                let same : append_audio w e s ≡ send_error w code m s = ground arith in
                rw same (send_error-Plain bindings k w code m s)
            | inr good ↦
                let same : append_audio w e s ≡ and_then (new_input w e s) (next_chunk w e) =
                  ground arith in
                rw same (
                  and_then-Plain bindings k s (new_input w e s) (next_chunk w e)
                    (new_input-Plain e s) (next_chunk-Plain e))
          ]
  ]

  pub commit_turn-Plain : (e : Event) (s : State) → Quiet s (commit_turn w e s)
  unfolding commit_turn send_error started
  commit_turn-Plain e s = record { tools = ground arith; none_started = ground arith }

  pub stop-Plain : (s : State) → Quiet s (stop w s)
  unfolding stop write started
  stop-Plain s = record { tools = ground arith; none_started = ground arith }

  nothing : started bindings k [] ≡ 0
  unfolding started
  nothing = refl

  pub panic-Follows : (t : Tools) (s : State) → s.tools ≡ some t → Moves t (panic s)
  unfolding started
  panic-Follows t s has =
      Plain-Follows c bindings k t s (panic s) has (quiet s (end_run s) (panicked ∷ []) refl refl)

  pub fail-Follows :
      (code m : Text) (t : Tools) (s : State) → s.tools ≡ some t → Moves t (fail_with w code m s)
  fail-Follows code m t s has =
      Plain-Follows c bindings k t s (fail_with w code m s) has
        (fail_with-Plain bindings k w code m s)

  pub complain-Follows :
      (code m : Text) (t : Tools) (s : State) → s.tools ≡ some t → Moves t (send_error w code m s)
  complain-Follows code m t s has =
      Plain-Follows c bindings k t s (send_error w code m s) has
        (send_error-Plain bindings k w code m s)

  pub emit-Follows :
      (es : List Event) (t : Tools) (s : State) → s.tools ≡ some t → Moves t (emit w es s)
  emit-Follows es t s has =
      Plain-Follows c bindings k t s (emit w es s) has (emit-Plain bindings k w es s)

  pub interrupt_turn-Follows :
      (t : Tools) (s : State) → s.tools ≡ some t → Moves t (interrupt_turn w s)
  interrupt_turn-Follows t s has =
      Plain-Follows c bindings k t s (interrupt_turn w s) has (interrupt_turn-Plain bindings k w s)

  -- A state with the same tools, and nothing done.
  pub still-Follows : (t : Tools) (s s' : State) → s'.tools ≡ some t → Moves t (s', [])
  still-Follows t s s' has =
      Plain-Follows c bindings k t s' (s', []) has (quiet s' s' [] refl nothing)

  after_cancel-Follows : (t : Tools) (s : State) → s.tools ≡ some t → Moves t (after_cancel w s)
  unfolding after_cancel
  after_cancel-Follows t s has = elim (Bool-cases (is_busy s.tools)) [
    | inl busy ↦
        let code = codes "mcp_in_progress" in
        let m =
          codes
            "output cancelled; operation outcome may be pending, retry with the same requestId" in
        let same : after_cancel w s ≡ fail_with w code m s = ground arith in
        rw same (fail-Follows code m t s has)
    | inr free ↦
        let s' : State = record s { timed = false; input_id = []; input_sequence = 0 } in
        let same : after_cancel w s ≡ rotate w s' = ground arith in
        rw same (rotate-Follows t s' has)
  ]

  pub cancel_turn-Follows :
      (e : Event) (t : Tools) (s : State) → s.tools ≡ some t → Moves t (cancel_turn w e s)
  unfolding cancel_turn
  cancel_turn-Follows e t s has =
      elim (Bool-cases (not (eq_text e.turn_id s.mapper.turn_id) || is_idle s.mapper.state)) [
        | inl bad ↦
            let code = codes "invalid_turn" in
            let m = codes "no matching active turn" in
            let same : cancel_turn w e s ≡ send_error w code m s = ground arith in
            rw same (complain-Follows code m t s has)
        | inr good ↦
            let same : cancel_turn w e s ≡ and_then (interrupt_turn w s) (after_cancel w) =
              ground arith in
            rw same (
              and_then-Follows c bindings k t (interrupt_turn w s) (after_cancel w)
                (interrupt_turn-Follows t s has)
                (λ t'. after_cancel-Follows t' (interrupt_turn w s).0))
      ]

  decide-Follows :
      (id : Text) (approved : Bool) (t : Tools) (s : State) → Moves t (decide w id approved t s)
  unfolding decide Run.run Run.step
  decide-Follows id approved t s =
      let session = (confirm w.machine.now id approved t.session).0 in
      let accepted = (confirm w.machine.now id approved t.session).1 in
      let t' : Tools = record t { session = session } in
      let s' : State = record s { tools = some t' } in
      let code = codes "invalid_confirmation" in
      let m = codes "no matching pending operation" in
      moved-Follows c bindings k t t' (confirms w.machine.now id approved ∷ []) s'
        (decide w id approved t s) refl (λ h. h) (λ h. h) refl
        (elim (Bool-cases accepted) [
          | inl taken ↦
              let same : decide w id approved t s ≡ (s', []) = ground arith in
              rw same (quiet s' s' [] refl nothing)
          | inr not_taken ↦
              let same : decide w id approved t s ≡ send_error w code m s' = ground arith in
              rw same (send_error-Plain bindings k w code m s')
        ])

  confirm_tool-Follows :
      (e : Event) (t : Tools) (s : State) → s.tools ≡ some t → Moves t (confirm_tool w e s)
  unfolding confirm_tool
  confirm_tool-Follows e t s has = elim (Option-cases e.tool) [
    | inl missing ↦
        let same : confirm_tool w e s ≡ panic s = ground arith in rw same (panic-Follows t s has)
    | inr (tool, there) ↦ elim (Option-cases tool.approved) [
      | inl missing ↦
          let same : confirm_tool w e s ≡ panic s = ground arith in rw same (panic-Follows t s has)
      | inr (a, said) ↦
          let same : confirm_tool w e s ≡ decide w tool.operation_id a t s = ground arith in
          rw same (decide-Follows tool.operation_id a t s)
    ]
  ]

  on_input-Follows :
      (e : Event) (kind : EventType) (t : Tools) (s : State)
      → s.tools ≡ some t
      → Moves t (on_input w e kind s)
  unfolding on_input
  on_input-Follows e audio_append t s has =
      Plain-Follows c bindings k t s (append_audio w e s) has (append_audio-Plain e s)
  on_input-Follows e turn_commit t s has =
      Plain-Follows c bindings k t s (commit_turn w e s) has (commit_turn-Plain e s)
  on_input-Follows e turn_cancel t s has = cancel_turn-Follows e t s has
  on_input-Follows e session_stop t s has =
      Plain-Follows c bindings k t s (stop w s) has (stop-Plain s)
  on_input-Follows e tool_confirm t s has = confirm_tool-Follows e t s has
  on_input-Follows e kind t s has =
      complain-Follows (codes "invalid_transition") (codes "session is already started") t s has

  pub take_input-Follows :
      (i : Fallible Event) (t : Tools) (s : State) → s.tools ≡ some t → Moves t (take_input c w i s)
  unfolding take_input
  take_input-Follows (err m) t s has = complain-Follows (codes "invalid_event") m t s has
  take_input-Follows (ok e) t s has = elim (Bool-cases (eq_text e.session_id c.session_id)) [
    | inr other ↦
        let code = codes "session_mismatch" in
        let m = codes "sessionId does not match this connection" in
        let same : take_input c w (ok e) s ≡ send_error w code m s = ground arith in
        rw same (complain-Follows code m t s has)
    | inl own ↦
        let same : take_input c w (ok e) s ≡ on_input w e e.kind s = ground arith in
        rw same (on_input-Follows e e.kind t s has)
  ]
