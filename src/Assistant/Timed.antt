-- ===== src/Assistant/Timed.antt =====
-- apps/personal-assistant-agent/internal/agent/runtime.go: what the parts of Run do to the turn timer.
use nova2sonici_osapp.Common.{
  ◌≡◌, refl, ap, ◌∙◌, ◌⊎◌, inl, inr, Bool, true, false, Option, none, some, List, [], ◌∷◌, ◌++◌,
  all, arith, Bool-cases, Option-cases, if◌then◌else◌,
}
use nova2sonici_osapp.Common.Assoc.{Map}
use nova2sonici_osapp.Common.Text.{Text, codes, eq_text}
use nova2sonici_osapp.Voice.Event.{
  Event, EventType, session_state, turn_interrupted, turn_completed,
}
use nova2sonici_osapp.Mcp.Types.{Result}
use nova2sonici_osapp.Actions.Types.{Job}
use nova2sonici_osapp.Assistant.State.{
  Config, State, World, Step, Tools, answers, and_then, write, send_error, fail_with, announce,
  emit, evidence_result, tool_result_event,
}
use nova2sonici_osapp.Assistant.Calls.{is_tool_started, deliver}

-- Run has returned, or the state is such.
abbrev pub Or : (State → Type 0) → Step → Type 0
Or P st = (st.0.ended ≡ true) ⊎ P st.0

pub and_then-Or :
    (P Q : State → Type 0) (st : Step) (f : State → Step)
    → Or P st
    → ((s : State) → P s → Or Q (f s))
    → Or Q (and_then st f)
unfolding and_then
and_then-Or P Q (s, os) f p q = elim (Bool-cases s.ended) [
  | inl over ↦ let same : and_then (s, os) f ≡ (s, os) = ground arith in rw same (inl over)
  | inr on ↦
      let same : and_then (s, os) f ≡ ((f s).0, os ++ (f s).1) = ground arith in
      elim p [ inl ends ↦ absurd (cc (ends, on)) | inr holds ↦ rw same (q s holds) ]
]

-- The timer after an event that emit sends, and after several.
abbrev pub arm : Event → EventType → Bool → Bool
arm e session_state b = if eq_text e.state (codes "responding") then true else b
arm e turn_interrupted b = false
arm e turn_completed b = false
arm e _ b = b

unfoldable pub arms : List Event → Bool → Bool
arms [] b = b
arms (e ∷ es) b = arms es (arm e e.kind b)

abbrev pub timed_as : State → Bool → State
timed_as s b = record s { timed = b }

announce-Or :
    (e : Event) (kind : EventType) (s : State)
    → Or (λ s'. s' ≡ timed_as s (arm e kind s.timed)) (announce e kind s)
unfolding announce
announce-Or e session_state s = elim (Bool-cases (eq_text e.state (codes "responding"))) [
  | inl responding ↦ inr (ground arith)
  | inr other ↦ inr (ground arith)
]
announce-Or e turn_interrupted s = inr refl
announce-Or e turn_completed s = elim (Option-cases e.metrics) [
  | inl missing ↦ inl (ground arith)
  | inr (m, there) ↦ inr (ground arith)
]
announce-Or e kind s = inr refl

pub write-Or : (w : World) (e : Event) (s : State) → Or (λ s'. s' ≡ s) (write w e s)
unfolding write
write-Or w e s = elim (Bool-cases (w.writes e)) [
  | inl on ↦ inr (ground arith)
  | inr off ↦ inl (ground arith)
]

pub emit-Or :
    (w : World) (es : List Event) (s : State)
    → Or (λ s'. s' ≡ timed_as s (arms es s.timed)) (emit w es s)
unfolding emit arms
emit-Or w [] s = inr refl
emit-Or w (e ∷ es) s =
    let b = arm e e.kind s.timed in
    and_then-Or (λ s'. s' ≡ timed_as s b) (λ s'. s' ≡ timed_as s (arms es b))
      (and_then (announce e e.kind s) (write w e)) (emit w es)
      (and_then-Or (λ s'. s' ≡ timed_as s b) (λ s'. s' ≡ timed_as s b) (announce e e.kind s)
        (write w e) (announce-Or e e.kind s) (λ s₁ same. rw same (write-Or w e (timed_as s b))))
      (λ s₁ same. rw same (emit-Or w es (timed_as s b)))

-- Every staged event is the start of a call.
abbrev pub are_calls : Map Event → Bool
are_calls staged = all (λ e. is_tool_started (e.1).kind) staged

abbrev pub staged_calls : Option Tools → Bool
staged_calls none = true
staged_calls (some t) = are_calls t.staged

-- A part leaves the mapper, the timer, and that the staged events are calls.
pub record Still (s : State) (s' : State) : Type 0 where
  pub mapper : s'.mapper ≡ s.mapper
  pub timed : s'.timed ≡ s.timed
  pub calls : staged_calls s.tools ≡ true → staged_calls s'.tools ≡ true

pub same-Still : (s s' : State) → s' ≡ s → Still s s'
same-Still s s' same = rw same (record { mapper = refl; timed = refl; calls = λ h. h })

pub Still-trans : (s s' s'' : State) → Still s s' → Still s' s'' → Still s s''
Still-trans s s' s'' a b = record {
  mapper = b.mapper ∙ a.mapper;
  timed = b.timed ∙ a.timed;
  calls = λ h. b.calls (a.calls h);
}

pub Still-and_then :
    (s : State) (st : Step) (f : State → Step)
    → Or (Still s) st
    → ((s' : State) → Still s s' → Or (Still s') (f s'))
    → Or (Still s) (and_then st f)
Still-and_then s st f p q = and_then-Or (Still s) (Still s) st f p (λ s' still. elim (q s' still) [
  | inl over ↦ inl over
  | inr more ↦ inr (Still-trans s s' (f s').0 still more)
])

pub fail_with-Or :
    (P : State → Type 0) (w : World) (code m : Text) (s : State) → Or P (fail_with w code m s)
unfolding fail_with send_error
fail_with-Or P w code m s = inl refl

pub send_error-Still :
    (w : World) (code m : Text) (s : State) → Or (Still s) (send_error w code m s)
unfolding send_error
send_error-Still w code m s = inr (same-Still s s refl)

-- An event that is not about a turn leaves the timer.
pub emit_one-Still :
    (w : World) (e : Event) (s : State)
    → arm e e.kind s.timed ≡ s.timed
    → Or (Still s) (emit w (e ∷ []) s)
unfolding arms
emit_one-Still w e s same = elim (emit-Or w (e ∷ []) s) [
  | inl over ↦ inl over
  | inr made ↦ inr (same-Still s (emit w (e ∷ []) s).0 (made ∙ ap (timed_as s) same))
]

pub evidence_result-Still :
    (c : Config) (w : World) (j : Job) (r : Result) (s : State)
    → Or (Still s) (evidence_result c w j r s)
unfolding evidence_result fail_with send_error
evidence_result-Still c w j r s = elim (Bool-cases c.has_evidence) [
  | inr unkept ↦
      let same : evidence_result c w j r s ≡ (s, []) = ground arith in
      rw same (inr (same-Still s s refl))
  | inl kept ↦ elim (Bool-cases w.persists) [
    | inl on ↦ inr (same-Still s (evidence_result c w j r s).0 (ground arith))
    | inr off ↦ inl (ground arith)
  ]
]

pub deliver-Still :
    (c : Config) (w : World) (m : Text) (j : Job) (r : Result) (s : State)
    → Or (Still s) (deliver c w m j r s)
unfolding deliver tool_result_event
deliver-Still c w m j r s = elim (Bool-cases w.takes_result) [
  | inr lost ↦
      let code = codes "provider_unavailable" in
      let same : deliver c w m j r s ≡ fail_with w code m s = ground arith in
      rw same (fail_with-Or (Still s) w code m s)
  | inl on ↦
      let e = tool_result_event c.host j r in
      let same : deliver c w m j r s ≡ and_then (s, answers j.id r ∷ []) (emit w (e ∷ [])) =
        ground arith in
      rw same (
        Still-and_then s (s, answers j.id r ∷ []) (emit w (e ∷ [])) (inr (same-Still s s refl))
          (λ s' still. emit_one-Still w e s' refl))
]
