-- ===== src/Assistant/Plain.antt =====
-- apps/personal-assistant-agent/internal/agent/runtime.go: the parts of Run that neither start a job
-- nor touch the tools.
use nova2sonici_osapp.Common.{
  ℕ, suc, ◌+◌, ◌≡◌, refl, ◌⊎◌, inl, inr, Bool, not, ◌&&◌, ◌||◌, List, [], ◌∷◌, ◌++◌, all, arith,
  Bool-cases, Option-cases, if◌then◌else◌, ◌∙◌,
}
use nova2sonici_osapp.Common.Assoc.{Map, insert}
use nova2sonici_osapp.Common.Text.{Text, codes, eq_text}
use nova2sonici_osapp.Voice.Event.{Event, EventType, turn_completed}
use nova2sonici_osapp.Mcp.Types.{Result}
use nova2sonici_osapp.Actions.Types.{Binding, Job}
use nova2sonici_osapp.Actions.Planning.{mutates}
use nova2sonici_osapp.Realtime.Mapper.{interrupt}
use nova2sonici_osapp.Realtime.Mapping.{text_at}
use nova2sonici_osapp.Assistant.State.{
  Config, State, World, Step, Output, hook, says, hears, answers, reopened, starts, keeps, panicked,
  and_then, panic, write, send_error, fail_with, announce, emit, using, interrupt_turn,
  evidence_result, tool_result_event,
}
use nova2sonici_osapp.Assistant.Calls.{hear, ask_user, confirmation_event, deliver, answer_call}

-- A job of a tool that is not read_only.
abbrev pub is_mutation : Map Binding → Job → Bool
is_mutation bindings j = all (λ e. not (eq_text (e.1).tool.name j.name) || mutates e.1) bindings

-- How many such jobs with a key are started.
unfoldable pub started : Map Binding → Text → List Output → ℕ
started bindings k [] = 0
started bindings k (starts j ∷ os) =
    let rest = started bindings k os in
    if is_mutation bindings j && eq_text j.key k then suc rest else rest
started bindings k (_ ∷ os) = started bindings k os

pub started-append :
    (bindings : Map Binding) (k : Text) (os ps : List Output)
    → started bindings k (os ++ ps) ≡ started bindings k os + started bindings k ps
unfolding started
started-append bindings k [] ps = omega arith
started-append bindings k (starts j ∷ os) ps = ground (arith, started-append bindings k os ps)
started-append bindings k (hook x ∷ os) ps = started-append bindings k os ps
started-append bindings k (says x ∷ os) ps = started-append bindings k os ps
started-append bindings k (hears x ∷ os) ps = started-append bindings k os ps
started-append bindings k (answers i r ∷ os) ps = started-append bindings k os ps
started-append bindings k (reopened x ∷ os) ps = started-append bindings k os ps
started-append bindings k (keeps j r ∷ os) ps = started-append bindings k os ps
started-append bindings k (panicked ∷ os) ps = started-append bindings k os ps

-- The two ways of and_then.
pub and_then-cases :
    (st : Step) (f : State → Step)
    → (and_then st f ≡ st) ⊎ (and_then st f ≡ ((f st.0).0, st.1 ++ (f st.0).1))
unfolding and_then
and_then-cases (s₁, os) f = elim (Bool-cases s₁.ended) [
  | inl over ↦ inl (ground arith)
  | inr on ↦ inr (ground arith)
]

module _ (bindings : Map Binding) (k : Text) where
  pub record Plain (s : State) (st : Step) : Type 0 where
    pub tools : st.0.tools ≡ s.tools
    pub none_started : started bindings k st.1 ≡ 0

  pub and_then-Plain :
      (s : State) (st : Step) (f : State → Step)
      → Plain s st
      → ((s' : State) → Plain s' (f s'))
      → Plain s (and_then st f)
  and_then-Plain s st f p q = elim (and_then-cases st f) [
    | inl over ↦ rw over p
    | inr on ↦
        let n = q st.0 in
        rw on (record {
          tools = n.tools ∙ p.tools;
          none_started =
              omega
                (arith, started-append bindings k st.1 (f st.0).1, p.none_started, n.none_started);
        })
  ]

  pub write-Plain : (w : World) (e : Event) (s : State) → Plain s (write w e s)
  unfolding write started
  write-Plain w e s = record { tools = ground arith; none_started = ground arith }

  pub send_error-Plain : (w : World) (code m : Text) (s : State) → Plain s (send_error w code m s)
  unfolding send_error started
  send_error-Plain w code m s = record { tools = ground arith; none_started = ground arith }

  pub fail_with-Plain : (w : World) (code m : Text) (s : State) → Plain s (fail_with w code m s)
  unfolding fail_with send_error started
  fail_with-Plain w code m s = record { tools = ground arith; none_started = ground arith }

  announce-Plain : (e : Event) (kind : EventType) (s : State) → Plain s (announce e kind s)
  unfolding announce started
  announce-Plain e turn_completed s = elim (Option-cases e.metrics) [
    | inl missing ↦ record { tools = ground arith; none_started = ground arith }
    | inr (m, has) ↦ record { tools = ground arith; none_started = ground arith }
  ]
  announce-Plain e kind s = record { tools = ground arith; none_started = ground arith }

  pub emit-Plain : (w : World) (es : List Event) (s : State) → Plain s (emit w es s)
  unfolding emit started
  emit-Plain w [] s = record { tools = refl; none_started = refl }
  emit-Plain w (e ∷ es) s =
      and_then-Plain s (and_then (announce e e.kind s) (write w e)) (emit w es)
        (and_then-Plain s (announce e e.kind s) (write w e) (announce-Plain e e.kind s)
          (write-Plain w e))
        (emit-Plain w es)

  pub interrupt_turn-Plain : (w : World) (s : State) → Plain s (interrupt_turn w s)
  unfolding interrupt_turn
  interrupt_turn-Plain w s =
      let p =
        emit-Plain w (interrupt w.machine s.mapper).1
          (record s { mapper = (interrupt w.machine s.mapper).0 }) in
      record { tools = p.tools; none_started = p.none_started }

  pub evidence_result-Plain :
      (c : Config) (w : World) (j : Job) (r : Result) (s : State)
      → Plain s (evidence_result c w j r s)
  unfolding evidence_result fail_with send_error started
  evidence_result-Plain c w j r s = record { tools = ground arith; none_started = ground arith }

  pub hear-Plain :
      (w : World) (content_id : Text) (vs : List Event) (s : State)
      → Plain s (hear w content_id vs s)
  unfolding hear started
  hear-Plain w content_id [] s = record { tools = refl; none_started = refl }
  hear-Plain w content_id (v ∷ vs) s =
      let next : State = heard content_id v s in
      let p = hear-Plain w content_id vs next in
      let q = hear-Plain w content_id vs s in
      let x = fail_with-Plain w (codes "provider_failed") (codes "user transcript too large") s in
      record {
        tools = ground (arith, p.tools, q.tools, x.tools);
        none_started = ground (arith, p.none_started, q.none_started, x.none_started);
      }
    where
      heard : Text → Event → State → State
      heard content_id v s = record s {
        user_texts = insert content_id (text_at content_id s.user_texts ++ v.text) s.user_texts;
        user_turns = insert content_id v.turn_id s.user_turns;
      }

  pub deliver-Plain :
      (c : Config) (w : World) (m : Text) (j : Job) (r : Result) (s : State)
      → Plain s (deliver c w m j r s)
  unfolding deliver started
  deliver-Plain c w m j r s = elim (Bool-cases w.takes_result) [
    | inr lost ↦
        let same : deliver c w m j r s ≡ fail_with w (codes "provider_unavailable") m s =
          ground arith in
        rw same (fail_with-Plain w (codes "provider_unavailable") m s)
    | inl on ↦
        let e = tool_result_event c.host j r in
        let same : deliver c w m j r s ≡ and_then (s, answers j.id r ∷ []) (emit w (e ∷ [])) =
          ground arith in
        rw same (
          and_then-Plain s (s, answers j.id r ∷ []) (emit w (e ∷ []))
            (record { tools = refl; none_started = refl }) (emit-Plain w (e ∷ [])))
  ]

  pub ask_user-Plain : (w : World) (turn : Text) (s : State) → Plain s (ask_user w turn s)
  unfolding ask_user using started
  ask_user-Plain w turn s = elim (Option-cases s.tools) [
    | inl nil ↦
        let same : ask_user w turn s ≡ panic s = ground arith in
        rw same (record { tools = refl; none_started = refl })
    | inr (t, has) ↦ elim (Option-cases t.session.pending) [
      | inl nothing ↦
          let same : ask_user w turn s ≡ (s, []) = ground arith in
          rw same (record { tools = refl; none_started = refl })
      | inr (p, waits) ↦
          let es = confirmation_event t.session p turn ∷ [] in
          let same : ask_user w turn s ≡ emit w es s = ground arith in rw same (emit-Plain w es s)
    ]
  ]

  pub answer_call-Plain :
      (c : Config) (w : World) (turn : Text) (j : Job) (r : Result) (s : State)
      → Plain s (answer_call c w turn j r s)
  unfolding answer_call
  answer_call-Plain c w turn j r s =
      and_then-Plain s (evidence_result c w j r s) _ (evidence_result-Plain c w j r s) (λ s₁.
        and_then-Plain s₁ (deliver c w (codes "Nova tool result delivery failed") j r s₁)
          (ask_user w turn) (deliver-Plain c w (codes "Nova tool result delivery failed") j r s₁)
          (ask_user-Plain w turn))
