-- ===== src/Assistant/Heard.antt =====
-- apps/personal-assistant-agent/internal/agent/runtime.go: the provider's events, as operations of the
-- tool session.
use nova2sonici_osapp.Common.{
  ◌+◌, ◌≤◌, ◌≡◌, refl, ap, ◌∙◌, ◌⊎◌, inl, inr, Bool, true, false, some, List, [], ◌∷◌, arith,
  length, is_some, leb, Bool-cases, Option-cases, if◌then◌else◌,
}
use nova2sonici_osapp.Common.Assoc.{
  Map, lookup, insert, delete, has, lookup-insert_self, length-insert, length-delete-le,
}
use nova2sonici_osapp.Common.Text.{Text, codes}
use nova2sonici_osapp.Voice.Event.{Event}
use nova2sonici_osapp.Actions.Types.{Binding}
use nova2sonici_osapp.Actions.Dialogue.{observe_user}
use nova2sonici_osapp.Actions.Run
use nova2sonici_osapp.Actions.Run.{Op, observes, confirms, interrupts, completes, mutations}
use nova2sonici_osapp.Realtime.Types
use nova2sonici_osapp.Realtime.Types.{Reply, emits, fails, panics}
use nova2sonici_osapp.Assistant.State.{
  Config, State, World, Step, Tools, and_then, panic, using, emit, fail_with,
}
use nova2sonici_osapp.Assistant.Calls.{
  hear, is_content_end, is_tool_use, finish_words, observe, observes_now, stage_started,
  is_tool_started, stale_call, stage, run_call, close_content,
}
use nova2sonici_osapp.Assistant.Loop.{observe_if, finish_event, after_words, follow}
use nova2sonici_osapp.Assistant.Plain.{started, hear-Plain}
use nova2sonici_osapp.Assistant.Moved.{
  Moves, quiet, panic-Follows, fail-Follows, emit-Follows, still-Follows,
}
use nova2sonici_osapp.Assistant.Started.{
  moved-Follows, Plain-Follows, and_then-Follows, run_call-Follows,
}

-- Staging the calls of one content adds at most that content.
stage_started-again :
    (id : Text) (vs : List Event) (m : Map Event)
    → is_some (lookup id m) ≡ true
    → (is_some (lookup id (stage_started id vs m)) ≡ true)
      × (length (stage_started id vs m) ≡ length m)
unfolding stage_started
stage_started-again id [] m h = (h, refl)
stage_started-again id (v ∷ vs) m h = elim (Bool-cases (is_tool_started v.kind)) [
  | inr other ↦ rw other (stage_started-again id vs m h)
  | inl starts ↦
      let there : is_some (lookup id (insert id v m)) ≡ true =
        rw (lookup-insert_self id v m) refl in
      let (kept, same) = stage_started-again id vs (insert id v m) there in
      rw starts (kept, ground (arith, length-insert id v m))
]

length-stage_started :
    (id : Text) (vs : List Event) (m : Map Event)
    → (stage_started id vs m ≡ m)
      ⊎ ((is_some (lookup id (stage_started id vs m)) ≡ true)
          × (length (stage_started id vs m) ≤ length m + 1))
unfolding stage_started
length-stage_started id [] m = inl refl
length-stage_started id (v ∷ vs) m = elim (Bool-cases (is_tool_started v.kind)) [
  | inr other ↦ rw other (length-stage_started id vs m)
  | inl starts ↦
      let there : is_some (lookup id (insert id v m)) ≡ true =
        rw (lookup-insert_self id v m) refl in
      let (kept, same) = stage_started-again id vs (insert id v m) there in
      rw starts (inr (kept, ground (arith, length-insert id v m)))
]

module _ (c : Config) (bindings : Map Binding) (k : Text) (w : World) where
  observe-Follows :
      (t : Tools) (s : State) → s.tools ≡ some t → Moves c bindings k w t (observe c w s)
  unfolding observe using Run.run Run.step started
  observe-Follows t s has =
      let session =
        (observe_user c.host w.machine.now s.completed_user_turn s.completed_user t.session).0 in
      let t' : Tools = record t { session = session } in
      let s' : State = record s { tools = some t' } in
      let same : observe c w s ≡ (s', []) = rw has refl in
      rw same (
        moved-Follows c bindings k t t'
          (observes w.machine.now s.completed_user_turn s.completed_user ∷ []) s' (s', []) refl
          (λ h. h) (λ h. h) refl (quiet c bindings k w s' s' [] refl refl))

  stage-Follows :
      (e : Types.Event) (events : List Event) (t : Tools) (s : State)
      → s.tools ≡ some t
      → Moves c bindings k w t (stage w e events s)
  unfolding stage using Run.run started
  stage-Follows e events t s has = elim (Bool-cases (leb 32 (length t.staged))) [
    | inl full ↦
        let code = codes "provider_failed" in
        let m = codes "too many staged tool calls" in
        let same : stage w e events s ≡ fail_with w code m s = rw (has, full) refl in
        rw same (fail-Follows c bindings k w code m t s has)
    | inr free ↦
        let staged = stage_started e.content_id events t.staged in
        let staged' =
          if is_some (lookup e.content_id staged)
          then staged
          else insert e.content_id (stale_call e s.mapper.turn_id) staged in
        let t' : Tools = record t { staged = staged' } in
        let s' : State = record s { tools = some t' } in
        let same : stage w e events s ≡ (s', []) = rw (has, free) refl in
        let most = length-stage_started e.content_id events t.staged in
        let one = length-insert e.content_id (stale_call e s.mapper.turn_id) staged in
        let few : length staged' ≤ 32 = elim most [
          | inl none_new ↦ ground (arith, ap length none_new)
          | inr (kept, bound) ↦ ground arith
        ] in
        rw same (
          moved-Follows c bindings k t t' [] s' (s', []) refl (λ h. h) (λ h. few) refl
            (quiet c bindings k w s' s' [] refl refl))
  ]

  -- What is done after a call has left the staged ones.
  unstaged-Follows :
      (id : Text) (t : Tools) (st : Step)
      → Moves c bindings k w (record t { staged = delete id t.staged }) st
      → Moves c bindings k w t st
  unstaged-Follows id t st b = record {
    after = b.after;
    has = b.has;
    ops = b.ops;
    session = b.session;
    counted = b.counted;
    room = b.room;
    few = λ h. b.few (omega (arith, length-delete-le id t.staged));
  }

  close_content-Follows :
      (e : Types.Event) (events : List Event) (t : Tools) (s : State)
      → s.tools ≡ some t
      → Moves c bindings k w t (close_content c w e events s)
  unfolding close_content using Run.run started
  close_content-Follows e events t s found = elim (Option-cases (lookup e.content_id t.staged)) [
    | inl missing ↦
        let same : close_content c w e events s ≡ emit w events s = ground arith in
        rw same (emit-Follows c bindings k w events t s found)
    | inr (call, staged) ↦
        let t' : Tools = record t { staged = delete e.content_id t.staged } in
        let s' : State = record s { tools = some t' } in
        elim (Option-cases call.tool) [
          | inl nil ↦
              let same : close_content c w e events s ≡ panic s' = ground arith in
              rw same (
                unstaged-Follows e.content_id t (panic s')
                  (panic-Follows c bindings k w t' s' refl))
          | inr (tool, there) ↦ elim (Bool-cases (has tool.operation_id t.active)) [
            | inl runs ↦
                let same : close_content c w e events s ≡ (s', []) = ground arith in
                rw same (
                  unstaged-Follows e.content_id t (s', [])
                    (still-Follows c bindings k w t' s' s' refl))
            | inr free ↦
                let same : close_content c w e events s
                    ≡ and_then (run_call c w call tool s') (emit w events) =
                  ground arith in
                rw same (
                  unstaged-Follows e.content_id t
                    (and_then (run_call c w call tool s') (emit w events))
                    (and_then-Follows c bindings k t' (run_call c w call tool s') (emit w events)
                      (run_call-Follows c bindings k w call tool t' s' refl)
                      (λ t₂. emit-Follows c bindings k w events t₂ (run_call c w call tool s').0)))
          ]
        ]
  ]

  finish_words-tools : (id : Text) (s : State) → (finish_words c id s).tools ≡ s.tools
  unfolding finish_words
  finish_words-tools id s = elim (Option-cases (lookup id s.user_texts)) [
    | inl silent ↦ ground arith
    | inr (text, spoken) ↦ ground arith
  ]

  observe_if-Follows :
      (e : Types.Event) (t : Tools) (s : State)
      → s.tools ≡ some t
      → Moves c bindings k w t (observe_if c w e s)
  unfolding observe_if
  observe_if-Follows e t s found = elim (Bool-cases (observes_now e s)) [
    | inl now ↦
        let same : observe_if c w e s ≡ observe c w s = ground arith in
        rw same (observe-Follows t s found)
    | inr later ↦
        let same : observe_if c w e s ≡ (s, []) = ground arith in
        rw same (still-Follows c bindings k w t s s found)
  ]

  finish_event-Follows :
      (e : Types.Event) (events : List Event) (t : Tools) (s : State)
      → s.tools ≡ some t
      → Moves c bindings k w t (finish_event c w e events s)
  unfolding finish_event
  finish_event-Follows e events t s found = elim (Bool-cases (is_tool_use e.kind)) [
    | inl uses ↦
        let same : finish_event c w e events s ≡ stage w e events s = ground arith in
        rw same (stage-Follows e events t s found)
    | inr other ↦ elim (Bool-cases (is_content_end e.kind)) [
      | inl ends ↦
          let same : finish_event c w e events s ≡ close_content c w e events s = ground arith in
          rw same (close_content-Follows e events t s found)
      | inr goes_on ↦
          let same : finish_event c w e events s ≡ emit w events s = ground arith in
          rw same (emit-Follows c bindings k w events t s found)
    ]
  ]

  after_words-Follows :
      (e : Types.Event) (events : List Event) (t : Tools) (s : State)
      → s.tools ≡ some t
      → Moves c bindings k w t (after_words c w e events s)
  unfolding after_words
  after_words-Follows e events t s found =
      let s₁ = if is_content_end e.kind then finish_words c e.content_id s else s in
      and_then-Follows c bindings k t (observe_if c w e s₁) (finish_event c w e events)
        (observe_if-Follows e t s₁ (kept (is_content_end e.kind) ∙ found))
        (λ t'. finish_event-Follows e events t' (observe_if c w e s₁).0)
    where
      kept : (b : Bool) → (if b then finish_words c e.content_id s else s).tools ≡ s.tools
      kept true = finish_words-tools e.content_id s
      kept false = refl

  pub follow-Follows :
      (e : Types.Event) (events : List Event) (t : Tools) (s : State)
      → s.tools ≡ some t
      → Moves c bindings k w t (follow c w e events s)
  unfolding follow
  follow-Follows e events t s found =
      and_then-Follows c bindings k t (hear w e.content_id events s) (after_words c w e events)
        (Plain-Follows c bindings k t s (hear w e.content_id events s) found
          (hear-Plain bindings k w e.content_id events s))
        (λ t'. after_words-Follows e events t' (hear w e.content_id events s).0)
