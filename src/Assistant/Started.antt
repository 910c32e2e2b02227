-- ===== src/Assistant/Started.antt =====
-- apps/personal-assistant-agent/internal/agent/runtime.go: what Run does to the tool session is a
-- sequence of the session's own operations, and the jobs that it starts are ones that Plan handed out.
use nova2sonici_osapp.Common.{
  ◌+◌, ◌≤◌, ◌≡◌, refl, sym, ap, ◌∙◌, inl, inr, Bool, true, false, not, ◌&&◌, ◌||◌, Option, none,
  some, List, [], ◌∷◌, ◌++◌, all, arith, length, leb, Bool-cases,
}
use nova2sonici_osapp.Common.Assoc.{Map, lookup, insert, length-insert}
use nova2sonici_osapp.Common.Text.{Text, codes, eq_text, eq_text_refl}
use nova2sonici_osapp.Voice.Event
use nova2sonici_osapp.Voice.Event.{Event}
use nova2sonici_osapp.Mcp.Types.{Result, failure}
use nova2sonici_osapp.Actions.Types.{Binding, Session, Job, Host, Clock}
use nova2sonici_osapp.Actions.Planning.{Plan, Call, mutates, admit, plan}
use nova2sonici_osapp.Actions.Release.{plan-none}
use nova2sonici_osapp.Actions.Release.Stages.{Cleared, unasked, approved}
use nova2sonici_osapp.Actions.Run
use nova2sonici_osapp.Actions.Run.{Op, plans, mutations, releases_mutation}
use nova2sonici_osapp.Actions.Run.Frame.{step-Frame}
use nova2sonici_osapp.Assistant.State.{
  Config, State, World, Step, Tools, Output, starts, and_then, using, emit,
}
use nova2sonici_osapp.Assistant.Calls.{plan_call, start_job, carry_out, run_call, answer_call}
use nova2sonici_osapp.Assistant.Plain.{
  is_mutation, started, started-append, Plain, and_then-cases, emit-Plain, answer_call-Plain,
}

run-append :
    (h : Host) (os ps : List Op) (s : Session)
    → Run.run h (os ++ ps) s ≡ Run.run h ps (Run.run h os s)
unfolding Run.run
run-append h [] ps s = refl
run-append h (o ∷ os) ps s = run-append h os ps (Run.step h o s)

mutations-append :
    (h : Host) (k : Text) (os ps : List Op) (s : Session)
    → mutations h k (os ++ ps) s ≡ mutations h k os s + mutations h k ps (Run.run h os s)
unfolding mutations Run.run
mutations-append h k [] ps s = omega arith
mutations-append h k (o ∷ os) ps s = ground (arith, mutations-append h k os ps (Run.step h o s))

run-tools : (h : Host) (os : List Op) (s : Session) → (Run.run h os s).tools ≡ s.tools
unfolding Run.run
run-tools h [] s = refl
run-tools h (o ∷ os) s = run-tools h os (Run.step h o s) ∙ (step-Frame h o s).tools

all-lookup :
    (p : Binding → Bool) (name : Text) (m : Map Binding) (b : Binding)
    → lookup name m ≡ some b
    → all (λ e. p e.1) m ≡ true
    → p b ≡ true
unfolding lookup
all-lookup p name [] b found h = cc
all-lookup p name ((j, v) ∷ m) b found h = elim (Bool-cases (eq_text j name)) [
  | inl here ↦ let same : v ≡ b = ground arith in rw (← same) (ground arith)
  | inr there ↦ all-lookup p name m b (ground arith) (ground arith)
]

-- A job has the name of the tool that it was planned for.
Cleared-name :
    {h : Host} {t : Clock} {s : Session} {b : Binding} {j : Job} {p : Plan}
    → Cleared h t s b j p
    → p.1.name ≡ j.name
unfolding admit
Cleared-name (unasked _ e) = rw e refl
Cleared-name (approved _ _ e) = rw e refl

-- A job that Plan hands out is one that the count of mutations takes up.
counted-once :
    (h : Host) (t : Clock) (c : Call) (s : Session) (k : Text)
    → (plan h t c s).2 ≡ none
    → is_mutation s.tools (plan h t c s).1 ≡ true
    → eq_text (plan h t c s).1.key k ≡ true
    → mutations h k (plans t c ∷ []) s ≡ 1
unfolding mutations releases_mutation
counted-once h t c s k free mutation key =
    let (b, found, a) = plan-none h t c s free in
    let name = Cleared-name a.cleared in
    let p =
      all-lookup (λ b. not (eq_text b.tool.name (plan h t c s).1.name) || mutates b) c.name s.tools
        b found mutation in
    ground (arith, found, free, key, p, eq_text_refl b.tool.name, name)

module _ (c : Config) (bindings : Map Binding) (k : Text) where
  -- From the tools `t`, a part of Run leaves tools whose session comes of operations that hand out at
  -- least the mutations with this key that the part started. At most four jobs run and at most 32
  -- calls are staged, if so before.
  pub record Follows (t : Tools) (st : Step) : Type 0 where
    pub after : Tools
    pub has : st.0.tools ≡ some after
    pub ops : List Op
    pub session : after.session ≡ Run.run c.host ops t.session
    pub counted :
        t.session.tools ≡ bindings → started bindings k st.1 ≤ mutations c.host k ops t.session
    pub room : length t.active ≤ 4 → length after.active ≤ 4
    pub few : length t.staged ≤ 32 → length after.staged ≤ 32

  -- The session is moved on by operations, and the rest is plain.
  pub moved-Follows :
      (t t' : Tools) (ops : List Op) (s : State) (st : Step)
      → t'.session ≡ Run.run c.host ops t.session
      → (length t.active ≤ 4 → length t'.active ≤ 4)
      → (length t.staged ≤ 32 → length t'.staged ≤ 32)
      → s.tools ≡ some t'
      → Plain bindings k s st
      → Follows t st
  moved-Follows t t' ops s st session room few has p = record {
    after = t';
    has = p.tools ∙ has;
    ops = ops;
    session = session;
    counted = λ e. omega (arith, p.none_started);
    room = room;
    few = few;
  }

  pub Plain-Follows :
      (t : Tools) (s : State) (st : Step) → s.tools ≡ some t → Plain bindings k s st → Follows t st
  unfolding Run.run
  Plain-Follows t s st has p = moved-Follows t t [] s st refl (λ h. h) (λ h. h) has p

  -- One part after the other.
  pub sequel-Follows :
      (t : Tools) (st st' : Step)
      → (a : Follows t st) → Follows a.after st'
      → Follows t (st'.0, st.1 ++ st'.1)
  sequel-Follows t st st' a b = record {
    after = b.after;
    has = b.has;
    ops = a.ops ++ b.ops;
    session =
        b.session
        ∙ ap (Run.run c.host b.ops) a.session
        ∙ sym (run-append c.host a.ops b.ops t.session);
    counted = λ e.
        let first = a.counted e in
        let later =
          b.counted (ap (λ x. x.tools) a.session ∙ run-tools c.host a.ops t.session ∙ e) in
        let same : mutations c.host k b.ops a.after.session
            ≡ mutations c.host k b.ops (Run.run c.host a.ops t.session) =
          ap (mutations c.host k b.ops) a.session in
        omega (
          arith,
          first,
          later,
          same,
          started-append bindings k st.1 st'.1,
          mutations-append c.host k a.ops b.ops t.session,
        );
    room = λ h. b.room (a.room h);
    few = λ h. b.few (a.few h);
  }

  pub and_then-Follows :
      (t : Tools) (st : Step) (f : State → Step)
      → Follows t st
      → ((t' : Tools) → st.0.tools ≡ some t' → Follows t' (f st.0))
      → Follows t (and_then st f)
  and_then-Follows t st f a q = elim (and_then-cases st f) [
    | inl over ↦ rw over a
    | inr on ↦ rw on (sequel-Follows t st (f st.0) a (q a.after a.has))
  ]

  -- A plan of a call is what the session's own Plan makes, if any.
  record Planned (session : Session) (p : Plan) : Type 0 where
    ops : List Op
    same : p.0 ≡ Run.run c.host ops session
    counted :
        session.tools ≡ bindings
        → p.2 ≡ none
        → (is_mutation bindings p.1 && eq_text p.1.key k) ≡ true
        → mutations c.host k ops session ≡ 1

  plan_call-Planned :
      (w : World) (call : Event) (tool : Event.Tool) (turn : Text) (session : Session)
      → Planned session (plan_call c w call tool turn session)
  unfolding plan_call Run.run Run.step
  plan_call-Planned w call tool turn session =
      let asked : Call = record {
        id = tool.operation_id;
        name = tool.name;
        turn = call.turn_id;
        args = tool.arguments;
      } in
      elim (Bool-cases
        (eq_text call.code (codes "turn_cancelled") || not (eq_text call.turn_id turn))) [
          | inl stale ↦ record {
            ops = [];
            same = ground arith;
            counted = λ e free m. absurd (ground arith);
          }
          | inr live ↦
              let same : plan_call c w call tool turn session ≡ plan c.host w.clock asked session =
                ground arith in
              rw same (record {
                ops = plans w.clock asked ∷ [];
                same = refl;
                counted = λ e free m.
                    counted-once c.host w.clock asked session k free (rw e (ground arith))
                      (ground arith);
              })
        ]

  -- The tools while a call is carried out.
  abbrev planned_tools : Tools → Session → Tools
  planned_tools t session = record t { session = session }

  abbrev planned_state : State → Tools → Session → State
  planned_state s t session = record s { tools = some (planned_tools t session) }

  start_job-Follows :
      (t t' : Tools) (s : State) (j : Job) (os : List Output)
      (p : Planned t.session (t'.session, j, none))
      → s.tools ≡ some t'
      → t'.active ≡ t.active
      → t'.staged ≡ t.staged
      → started bindings k os ≡ 0
      → leb 4 (length t'.active) ≡ false
      → Follows t ((start_job j s).0, os ++ (start_job j s).1)
  unfolding start_job using started
  start_job-Follows t t' s j os p has active staged quiet free =
      let made : start_job j s ≡ (
        record s { tools = some (record t' { active = insert j.id true t'.active }) },
        starts j ∷ [],
      ) =
        rw has refl in
      rw made (record {
        after = record t' { active = insert j.id true t'.active };
        has = refl;
        ops = p.ops;
        session = p.same;
        counted = λ e.
            let one = p.counted e refl in
            ground (arith, started-append bindings k os (starts j ∷ []), one);
        room = λ h. ground (arith, length-insert j.id true t'.active);
        few = λ h. rw staged h;
      })

  -- Answering at once, after the call was written.
  answered-Follows :
      (t t' : Tools) (s : State) (e st : Step) (ops : List Op)
      → t'.session ≡ Run.run c.host ops t.session
      → t'.active ≡ t.active
      → t'.staged ≡ t.staged
      → s.tools ≡ some t'
      → Plain bindings k s e
      → Plain bindings k e.0 st
      → Follows t (st.0, e.1 ++ st.1)
  answered-Follows t t' s e st ops session active staged has p q =
      moved-Follows t t' ops s (st.0, e.1 ++ st.1) session (λ h. rw active h) (λ h. rw staged h) has
        (record {
          tools = q.tools ∙ p.tools;
          none_started =
              omega (arith, started-append bindings k e.1 st.1, p.none_started, q.none_started);
        })

  carry_out-Follows :
      (w : World) (turn : Text) (t t' : Tools) (s : State) (e : Step) (j : Job)
      (immediate : Option Result)
      → Planned t.session (t'.session, j, immediate)
      → t'.active ≡ t.active
      → t'.staged ≡ t.staged
      → s.tools ≡ some t'
      → Plain bindings k s e
      → let st = carry_out c w turn j immediate e.0 in Follows t (st.0, e.1 ++ st.1)
  unfolding carry_out using
  carry_out-Follows w turn t t' s e j (some r) p active staged has plain =
      answered-Follows t t' s e (answer_call c w turn j r e.0) p.ops p.same active staged has plain
        (answer_call-Plain bindings k c w turn j r e.0)
  carry_out-Follows w turn t t' s e j none p active staged has plain =
      let now_has : e.0.tools ≡ some t' = plain.tools ∙ has in
      elim (Bool-cases (leb 4 (length t'.active))) [
        | inl busy ↦
            let r = failure c.host.json (codes "tool_busy") in
            let same : carry_out c w turn j none e.0 ≡ answer_call c w turn j r e.0 =
              ground arith in
            rw same (
              answered-Follows t t' s e (answer_call c w turn j r e.0) p.ops p.same active staged
                has plain (answer_call-Plain bindings k c w turn j r e.0))
        | inr free ↦
            let same : carry_out c w turn j none e.0 ≡ start_job j e.0 = ground arith in
            rw same
              (start_job-Follows t t' e.0 j e.1 p now_has active staged plain.none_started free)
      ]

  pub run_call-Follows :
      (w : World) (call : Event) (tool : Event.Tool) (t : Tools) (s : State)
      → s.tools ≡ some t
      → Follows t (run_call c w call tool s)
  unfolding run_call using
  run_call-Follows w call tool t s has =
      let p = plan_call c w call tool s.mapper.turn_id t.session in
      let planned = plan_call-Planned w call tool s.mapper.turn_id t.session in
      let s' = planned_state s t p.0 in
      let t' = planned_tools t p.0 in
      let e = emit w (call ∷ []) s' in
      let plain = emit-Plain bindings k w (call ∷ []) s' in
      let same : run_call c w call tool s ≡ and_then e (carry_out c w call.turn_id p.1 p.2) =
        rw has refl in
      elim (and_then-cases e (carry_out c w call.turn_id p.1 p.2)) [
        | inl over ↦
            rw (same, over)
              (moved-Follows t t' planned.ops s' e planned.same (λ h. h) (λ h. h) refl plain)
        | inr on ↦
            rw (same, on)
              (carry_out-Follows w call.turn_id t t' s' e p.1 p.2 planned refl refl refl plain)
      ]
