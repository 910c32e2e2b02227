-- ===== src/Actions/Run/AtMostOnce.antt =====
-- packages/go/actionruntime/tools.go: a mutation is handed out at most once in a session's life.
use nova2sonici_osapp.Common.{
  ◌≤◌, ◌≡◌, refl, sym, ◌∙◌, inl, inr, true, false, none, List, [], ◌∷◌, arith, Option-cases,
  Bool-cases,
}
use nova2sonici_osapp.Common.Assoc.{has, has-insert}
use nova2sonici_osapp.Common.Text.{Text, eq_text_iff, eq_text_refl}
use nova2sonici_osapp.Actions.Types.{Binding, Session, Job, Host, Clock}
use nova2sonici_osapp.Actions.Discovery.{tool_key}
use nova2sonici_osapp.Actions.Planning.{Plan, mutates, admit, plan}
use nova2sonici_osapp.Actions.Dialogue.{observe_user, answer, confirm, interrupt, complete, hear}
use nova2sonici_osapp.Actions.Release.{plan-none}
use nova2sonici_osapp.Actions.Release.Stages.{Cleared, unasked, approved}
use nova2sonici_osapp.Actions.Run.{
  Op, plans, observes, confirms, interrupts, completes, step, releases_mutation, mutations,
}
use nova2sonici_osapp.Actions.Run.Frame.{plan-attempted}

-- What a hand-over writes down of the keys that were attempted.
record Marks (s : Session) (b : Binding) (key : Text) (p : Plan) : Type 0 where
  own_key : p.1.key ≡ key
  marked : mutates b ≡ true → has key p.0.attempted ≡ true
  kept : (k : Text) → has k s.attempted ≡ true → has k p.0.attempted ≡ true

admit-Marks : (s : Session) (b : Binding) (j : Job) → Marks s b j.key (admit s b j)
unfolding admit
admit-Marks s b j = record {
  own_key = refl;
  marked = λ m. ground (arith, has-insert j.key j.key s.attempted, eq_text_refl j.key);
  kept = λ k e. ground (arith, has-insert j.key k s.attempted);
}

Cleared-Marks :
    {h : Host} {t : Clock} {s : Session} {b : Binding} {j : Job} {p : Plan}
    → Cleared h t s b j p
    → Marks s b j.key p
Cleared-Marks {s} {b} {j} (unasked _ e) = rw e (admit-Marks s b j)
Cleared-Marks {s} {b} {j} (approved _ _ e) =
    let m = admit-Marks (record s { pending = none }) b (record j { confirmed = true }) in
    rw e (record { own_key = m.own_key; marked = m.marked; kept = m.kept })

-- What was attempted stays attempted.
attempted-step :
    (h : Host) (k : Text) (o : Op) (s : Session)
    → has k s.attempted ≡ true
    → has k (step h o s).attempted ≡ true
unfolding step observe_user answer hear confirm interrupt complete
attempted-step h k (plans t c) s e = elim (plan-attempted h t c s) [
  | inr same ↦ rw same e
  | inl free ↦ let (b, _, a) = plan-none h t c s free in (Cleared-Marks a.cleared).kept k e
]
attempted-step h k (observes now turn text) s e = ground arith
attempted-step h k (confirms now id choice) s e = ground arith
attempted-step h k interrupts s e = e
attempted-step h k (completes j r) s e = ground arith

-- A hand-over of a mutation finds its key free and marks it.
releases-marks :
    (h : Host) (k : Text) (o : Op) (s : Session)
    → releases_mutation h k o s ≡ true
    → (has k s.attempted ≡ false) × (has k (step h o s).attempted ≡ true)
unfolding releases_mutation step
releases-marks h k (plans t c) s e = elim (Option-cases (plan h t c s).2) [
  | inr (r, busy) ↦ absurd (ground arith)
  | inl free ↦
      let (b, found, a) = plan-none h t c s free in
      let m = Cleared-Marks a.cleared in
      let mutating : mutates b ≡ true = ground arith in
      let same : (plan h t c s).1.key ≡ k = ground (arith, eq_text_iff (plan h t c s).1.key k) in
      let key : tool_key h s.namespace b.tool.name c.args ≡ k = sym m.own_key ∙ same in
      (rw (← key) (a.fresh mutating), rw (← key) (m.marked mutating))
]
releases-marks h k (observes now turn text) s e = cc
releases-marks h k (confirms now id choice) s e = cc
releases-marks h k interrupts s e = cc
releases-marks h k (completes j r) s e = cc

attempted-mutations :
    (h : Host) (k : Text) (os : List Op) (s : Session)
    → has k s.attempted ≡ true
    → mutations h k os s ≡ 0
unfolding mutations
attempted-mutations h k [] s e = refl
attempted-mutations h k (o ∷ os) s e = elim (Bool-cases (releases_mutation h k o s)) [
  | inl out ↦ let (free, _) = releases-marks h k o s out in absurd (ground arith)
  | inr not_out ↦ rw not_out (attempted-mutations h k os (step h o s) (attempted-step h k o s e))
]

-- Whatever the operations on a session, in any order, with any clock readings and with any results
-- completed in between, at most one job under a given key is handed out by Plan for tools whose
-- policy is not read_only: the model cannot make the backend repeat a mutation.
pub mutations-le-one : (h : Host) (k : Text) (os : List Op) (s : Session) → mutations h k os s ≤ 1
unfolding mutations
mutations-le-one h k [] s = omega arith
mutations-le-one h k (o ∷ os) s = elim (Bool-cases (releases_mutation h k o s)) [
  | inl out ↦
      let (_, marked) = releases-marks h k o s out in
      rw out (omega (arith, attempted-mutations h k os (step h o s) marked))
  | inr not_out ↦ rw not_out (mutations-le-one h k os (step h o s))
]
