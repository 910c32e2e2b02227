-- ===== src/Actions/Run/Limits.antt =====
-- packages/go/actionruntime/tools.go: the bound on calls, and the ids that stay bound to their keys.
use nova2sonici_osapp.Common.{
  ◌+◌, ◌≤◌, ◌<◌, ◌≡◌, refl, ◌⊎◌, inl, inr, false, some, List, [], ◌∷◌, arith, Bool-cases, length,
  leb,
}
use nova2sonici_osapp.Common.Assoc.{lookup, insert, lookup-insert, length-insert}
use nova2sonici_osapp.Common.Text.{Text, eq_text_iff}
use nova2sonici_osapp.Actions.Types.{Binding, Session, Job, Host, Clock}
use nova2sonici_osapp.Actions.Discovery.{tool_key}
use nova2sonici_osapp.Actions.Planning.{
  Plan, Call, plan, admit, refuse, check_intent, ask, check_approval, check_attempted, check_cache,
  check_limits, conflicts,
}
use nova2sonici_osapp.Actions.Dialogue.{observe_user, answer, confirm, interrupt, complete, hear}
use nova2sonici_osapp.Actions.Release.Cases.{plan_cases}
use nova2sonici_osapp.Actions.Run.{Op, plans, observes, confirms, interrupts, completes, step, run}

-- The calls are counted up to 128, and no id is remembered that was not counted.
pub record IsBounded (s : Session) : Type 0 where
  pub calls_capped : s.calls ≤ 128
  pub seen_counted : length s.seen ≤ s.calls

-- The stages behind the limits leave the counters alone.
check_cache-counters :
    (h : Host) (t : Clock) (s : Session) (b : Binding) (c : Call) (j : Job)
    → ((check_cache h t s b c j).0.calls ≡ s.calls) × ((check_cache h t s b c j).0.seen ≡ s.seen)
unfolding check_cache check_attempted check_approval ask check_intent admit refuse
check_cache-counters h t s b c j = ground arith

-- A call is refused uncounted, or counted under its key.
abbrev Counts : Call → Session → Plan → Type 0
Counts c s p =
    ((p.0.calls ≡ s.calls) × (p.0.seen ≡ s.seen))
    ⊎ ((key : Text) × (s.calls < 128)
        × (conflicts s c.id key ≡ false)
        × (p.0.calls ≡ s.calls + 1)
        × (p.0.seen ≡ insert c.id key s.seen))

check_limits-Counts :
    (h : Host) (t : Clock) (s : Session) (b : Binding) (c : Call) (key : Text)
    → Counts c s (check_limits h t s b c key)
unfolding check_limits refuse
check_limits-Counts h t s b c key =
    let counted = record s { calls = s.calls + 1; seen = insert c.id key s.seen } in
    let j : Job = record {
      id = c.id;
      name = b.tool.name;
      key = key;
      turn_id = c.turn;
      args = c.args;
      confirmed = false;
    } in
    elim (Bool-cases (conflicts s c.id key)) [
      | inl clash ↦ inl (ground arith, ground arith)
      | inr own ↦ elim (Bool-cases (leb 128 s.calls)) [
        | inl full ↦ inl (ground arith, ground arith)
        | inr room ↦ inr (
          key,
          ground arith,
          own,
          ground (arith, check_cache-counters h t counted b c j),
          ground (arith, check_cache-counters h t counted b c j),
        )
      ]
    ]

plan-Counts : (h : Host) (t : Clock) (c : Call) (s : Session) → Counts c s (plan h t c s)
plan-Counts h t c s =
    plan_cases h t c s (Counts c s) (λ j r. inl (refl, refl))
      (λ b _. check_limits-Counts h t s b c (tool_key h s.namespace b.tool.name c.args))

pub plan-IsBounded :
    (h : Host) (t : Clock) (c : Call) (s : Session) → IsBounded s → IsBounded (plan h t c s).0
plan-IsBounded h t c s v = elim (plan-Counts h t c s) [
  | inl same ↦ record { calls_capped = ground arith; seen_counted = ground arith }
  | inr (key, room, own, calls, seen) ↦ record {
    calls_capped = ground arith;
    seen_counted = ground (arith, length-insert c.id key s.seen);
  }
]

step-IsBounded : (h : Host) (o : Op) (s : Session) → IsBounded s → IsBounded (step h o s)
unfolding step observe_user answer hear confirm interrupt complete
step-IsBounded h (plans t c) s v = plan-IsBounded h t c s v
step-IsBounded h (observes now turn text) s v = ground arith
step-IsBounded h (confirms now id choice) s v = ground arith
step-IsBounded h interrupts s v = ground arith
step-IsBounded h (completes j r) s v = ground arith

-- Over any operations the number of accepted calls stays at most 128, and the number of call ids that
-- the session remembers stays at most the number of accepted calls.
pub run-IsBounded : (h : Host) (os : List Op) (s : Session) → IsBounded s → IsBounded (run h os s)
unfolding run
run-IsBounded h [] s v = v
run-IsBounded h (o ∷ os) s v = run-IsBounded h os (step h o s) (step-IsBounded h o s v)

plan-seen :
    (h : Host) (t : Clock) (c : Call) (s : Session) (id k : Text)
    → lookup id s.seen ≡ some k
    → lookup id (plan h t c s).0.seen ≡ some k
unfolding conflicts
plan-seen h t c s id k e = elim (plan-Counts h t c s) [
  | inl (calls, seen) ↦ rw seen e
  | inr (key, room, own, calls, seen) ↦
      rw seen
        (ground (arith, lookup-insert c.id id key s.seen, eq_text_iff c.id id, eq_text_iff k key))
]

step-seen :
    (h : Host) (o : Op) (s : Session) (id k : Text)
    → lookup id s.seen ≡ some k
    → lookup id (step h o s).seen ≡ some k
unfolding step observe_user answer hear confirm interrupt complete
step-seen h (plans t c) s id k e = plan-seen h t c s id k e
step-seen h (observes now turn text) s id k e = ground arith
step-seen h (confirms now i choice) s id k e = ground arith
step-seen h interrupts s id k e = e
step-seen h (completes j r) s id k e = ground arith

-- Once a call id stands for one operation (a tool with canonical arguments), it stands for that one
-- after any further operations.
pub run-seen :
    (h : Host) (os : List Op) (s : Session) (id k : Text)
    → lookup id s.seen ≡ some k
    → lookup id (run h os s).seen ≡ some k
unfolding run
run-seen h [] s id k e = e
run-seen h (o ∷ os) s id k e = run-seen h os (step h o s) id k (step-seen h o s id k e)
