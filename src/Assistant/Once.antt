-- ===== src/Assistant/Once.antt =====
-- apps/personal-assistant-agent/internal/agent/runtime.go: over a whole run.
use nova2sonici_osapp.Common.{
  ◌-◌, ◌≤◌, ◌≡◌, refl, inl, inr, some, List, [], ◌∷◌, arith, length, leb, Bool-cases,
}
use nova2sonici_osapp.Common.Assoc.{Map, delete, length-delete-le}
use nova2sonici_osapp.Common.Text.{Text, codes}
use nova2sonici_osapp.Mcp.Types.{Result}
use nova2sonici_osapp.Actions.Types.{Binding, Job}
use nova2sonici_osapp.Actions.Dialogue.{complete}
use nova2sonici_osapp.Actions.Run
use nova2sonici_osapp.Actions.Run.{Op, observes, confirms, interrupts, completes, mutations}
use nova2sonici_osapp.Actions.Run.AtMostOnce.{mutations-le-one}
use nova2sonici_osapp.Realtime.Types
use nova2sonici_osapp.Realtime.Types.{Reply, emits, fails, panics}
use nova2sonici_osapp.Realtime.Mapper.{is_idle}
use nova2sonici_osapp.Realtime.Mapping.{map_event}
use nova2sonici_osapp.Assistant.State.{
  Config, State, World, Tools, and_then, end_run, fail_with, rotate, interrupt_turn,
  evidence_result,
}
use nova2sonici_osapp.Assistant.Inputs.{is_busy}
use nova2sonici_osapp.Assistant.Calls.{deliver}
use nova2sonici_osapp.Assistant.Loop.{
  Signal, context_done, turn_timed_out, renew_due, inputs_closed, stream_closed, input,
  tool_finished, provider, time_out, renew, finish_tool, follow, take_reply, take_event, select,
  step, run, session_limit,
}
use nova2sonici_osapp.Assistant.Plain.{
  started, and_then-Plain, evidence_result-Plain, deliver-Plain,
}
use nova2sonici_osapp.Assistant.Moved.{
  Moves, rotate-Follows, panic-Follows, fail-Follows, interrupt_turn-Follows, still-Follows,
  take_input-Follows,
}
use nova2sonici_osapp.Assistant.Heard.{follow-Follows}
use nova2sonici_osapp.Assistant.Started.{
  Follows, moved-Follows, Plain-Follows, and_then-Follows, sequel-Follows,
}

module _ (c : Config) (bindings : Map Binding) (k : Text) (w : World) where
  finish_tool-Follows :
      (j : Job) (r : Result) (t : Tools) (s : State)
      → s.tools ≡ some t
      → Moves c bindings k w t (finish_tool c w j r s)
  unfolding finish_tool Run.run Run.step
  finish_tool-Follows j r t s found =
      let t' : Tools = record t {
        active = delete j.id t.active;
        session = complete j r t.session;
      } in
      let s' : State = record s { tools = some t' } in
      let m = codes "Nova tool result delivery failed; retry mutations with the same requestId" in
      let st = and_then (evidence_result c w j r s') (deliver c w m j r) in
      let same : finish_tool c w j r s ≡ st = ground arith in
      rw same (
        moved-Follows c bindings k t t' (completes j r ∷ []) s' st refl
          (λ h. omega (arith, length-delete-le j.id t.active)) (λ h. h) refl
          (and_then-Plain bindings k s' (evidence_result c w j r s') (deliver c w m j r)
            (evidence_result-Plain bindings k c w j r s') (deliver-Plain bindings k c w m j r)))

  time_out-Follows :
      (t : Tools) (s : State) → s.tools ≡ some t → Moves c bindings k w t (time_out w s)
  unfolding time_out
  time_out-Follows t s found =
      let code = codes "provider_timeout" in
      let m = codes "Nova did not complete the turn in time" in
      and_then-Follows c bindings k t (interrupt_turn w s) (fail_with w code m)
        (interrupt_turn-Follows c bindings k w t s found)
        (λ t'. fail-Follows c bindings k w code m t' (interrupt_turn w s).0)

  renew-Follows : (t : Tools) (s : State) → s.tools ≡ some t → Moves c bindings k w t (renew w s)
  unfolding renew
  renew-Follows t s found =
      let is_late = leb session_limit (w.machine.now - s.opened_at) in
      let code = codes "mcp_in_progress" in
      let m = codes "session limit reached while tool runs; retry with the same requestId" in
      elim (Bool-cases (is_busy s.tools)) [
        | inl busy ↦ elim (Bool-cases is_late) [
          | inl late ↦
              let same : renew w s ≡ fail_with w code m s = ground arith in
              rw same (fail-Follows c bindings k w code m t s found)
          | inr early ↦
              let same : renew w s ≡ (s, []) = ground arith in
              rw same (still-Follows c bindings k w t s s found)
        ]
        | inr free ↦ elim (Bool-cases (is_idle s.mapper.state)) [
          | inl quiet_now ↦
              let same : renew w s ≡ and_then (s, []) (rotate w) = ground arith in
              rw same (
                and_then-Follows c bindings k t (s, []) (rotate w)
                  (still-Follows c bindings k w t s s found)
                  (λ t'. rotate-Follows c bindings k w t' s))
          | inr speaking ↦ elim (Bool-cases is_late) [
            | inr early ↦
                let same : renew w s ≡ (s, []) = ground arith in
                rw same (still-Follows c bindings k w t s s found)
            | inl late ↦
                let same : renew w s ≡ and_then (interrupt_turn w s) (rotate w) = ground arith in
                rw same (
                  and_then-Follows c bindings k t (interrupt_turn w s) (rotate w)
                    (interrupt_turn-Follows c bindings k w t s found)
                    (λ t'. rotate-Follows c bindings k w t' (interrupt_turn w s).0))
          ]
        ]
      ]

  take_reply-Follows :
      (e : Types.Event) (reply : Reply) (t : Tools) (s : State)
      → s.tools ≡ some t
      → Moves c bindings k w t (take_reply c w e reply s)
  unfolding take_reply
  take_reply-Follows e (fails m) t s found =
      fail-Follows c bindings k w (codes "provider_failed")
        (codes "Nova returned an invalid response") t s found
  take_reply-Follows e panics t s found = panic-Follows c bindings k w t s found
  take_reply-Follows e (emits events) t s found =
      let same : take_reply c w e (emits events) s ≡ follow c w e events s = ground arith in
      rw same (follow-Follows c bindings k w e events t s found)

  take_event-Follows :
      (e : Types.Event) (t : Tools) (s : State)
      → s.tools ≡ some t
      → Moves c bindings k w t (take_event c w e s)
  unfolding take_event
  take_event-Follows e t s found =
      let m = map_event c.base64 w.machine e s.mapper in
      take_reply-Follows e m.1 t (record s { mapper = m.0 }) found

  select-Follows :
      (g : Signal) (t : Tools) (s : State)
      → s.tools ≡ some t
      → Moves c bindings k w t (select c w g s)
  unfolding select
  select-Follows context_done t s found = still-Follows c bindings k w t s (end_run s) found
  select-Follows inputs_closed t s found = still-Follows c bindings k w t s (end_run s) found
  select-Follows turn_timed_out t s found = elim (Bool-cases s.timed) [
    | inl timed ↦
        let same : select c w turn_timed_out s ≡ time_out w s = ground arith in
        rw same (time_out-Follows t s found)
    | inr untimed ↦
        let same : select c w turn_timed_out s ≡ (s, []) = ground arith in
        rw same (still-Follows c bindings k w t s s found)
  ]
  select-Follows renew_due t s found = renew-Follows t s found
  select-Follows stream_closed t s found =
      fail-Follows c bindings k w (codes "provider_unavailable") (codes "Nova stream disconnected")
        t s found
  select-Follows (input i) t s found = take_input-Follows c bindings k w i t s found
  select-Follows (tool_finished j r) t s found = finish_tool-Follows j r t s found
  select-Follows (provider e) t s found = take_event-Follows e t s found

  step-Follows :
      (g : Signal) (t : Tools) (s : State)
      → s.tools ≡ some t
      → Moves c bindings k w t (step c w g s)
  unfolding step
  step-Follows g t s found = elim (Bool-cases s.ended) [
    | inl over ↦
        let same : step c w g s ≡ (s, []) = ground arith in
        rw same (still-Follows c bindings k w t s s found)
    | inr on ↦
        let same : step c w g s ≡ select c w g s = ground arith in
        rw same (select-Follows g t s found)
  ]

run-Follows :
    (c : Config) (bindings : Map Binding) (k : Text) (gs : List (World × Signal)) (t : Tools)
    (s : State)
    → s.tools ≡ some t
    → Follows c bindings k t (run c gs s)
unfolding run Run.run started
run-Follows c bindings k [] t s found =
    Plain-Follows c bindings k t s (s, []) found (record { tools = refl; none_started = refl })
run-Follows c bindings k ((w, g) ∷ gs) t s found =
    let first = step c w g s in
    let a = step-Follows c bindings k w g t s found in
    sequel-Follows c bindings k t first (run c gs first.0) a
      (run-Follows c bindings k gs a.after first.0 a.has)

-- In a run of the assistant, whatever is selected and whatever the network does, at most one job is
-- started under a given key for tools whose policy is not read_only, over all renewals of the
-- provider's session.
pub started-le-one :
    (c : Config) (k : Text) (gs : List (World × Signal)) (t : Tools) (s : State)
    → s.tools ≡ some t
    → started t.session.tools k (run c gs s).1 ≤ 1
started-le-one c k gs t s found =
    let f = run-Follows c t.session.tools k gs t s found in
    omega (arith, f.counted refl, mutations-le-one c.host k f.ops t.session)

-- At most four jobs run at a time and at most 32 calls are staged, after any run from a state in which
-- this holds, and the tool session is then one that operations of actionruntime make of the first.
pub run-few :
    (c : Config) (gs : List (World × Signal)) (t : Tools) (s : State)
    → s.tools ≡ some t
    → length t.active ≤ 4
    → length t.staged ≤ 32
    → (t' : Tools) × (ops : List Op) × ((run c gs s).0.tools ≡ some t')
      × (length t'.active ≤ 4)
      × (length t'.staged ≤ 32)
      × (t'.session ≡ Run.run c.host ops t.session)
run-few c gs t s found active staged =
    let f = run-Follows c [] [] gs t s found in
    (f.after, f.ops, f.has, f.room active, f.few staged, f.session)
