-- ===== src/Actions/Run/Approval.antt =====
-- packages/go/actionruntime/tools.go: who lets a job of a confirm_later tool run.
use nova2sonici_osapp.Common.{
  ℕ, ◌<◌, ◌≡◌, sym, subst, ◌∙◌, ap, ◌⊎◌, inl, inr, Bool, true, false, not, ◌&&◌, none, some, List,
  [], ◌∷◌, arith, Option-cases, Bool-cases, ltb,
}
use nova2sonici_osapp.Common.Assoc.{lookup}
use nova2sonici_osapp.Common.Text.{Text, eq_text, eq_text_iff, contains_any}
use nova2sonici_osapp.Mcp.Types.{confirm_later, eq_policy}
use nova2sonici_osapp.Actions.Types.{Binding, Pending, Session, Job, Host, Clock}
use nova2sonici_osapp.Actions.Normalize.{normalize, quotes}
use nova2sonici_osapp.Actions.Discovery.{tool_key}
use nova2sonici_osapp.Actions.Planning.{
  Plan, Call, plan, admit, refuse, is_approved, check_intent, ask, check_approval, check_attempted,
  check_cache, check_limits, check_arguments, check_dates,
}
use nova2sonici_osapp.Actions.Dialogue.{
  observe_user, answer, confirm, interrupt, complete, hear, confirmation_phrase, forbids_ui,
}
use nova2sonici_osapp.Actions.Release.{plan-none}
use nova2sonici_osapp.Actions.Release.Stages.{Cleared, unasked, approved}
use nova2sonici_osapp.Actions.Run.{Op, plans, observes, confirms, interrupts, completes, step, run}

-- The operation is the user's consent to `p`, which is pending in `s`: the confirmation phrase, said
-- in another turn than the model's call and without quotes, or the client's button for this very
-- operation, where the tool's profile allows the button. Both before `p` expires.
unfoldable pub consents : Host → Op → Session → Pending → Bool
consents h (plans _ _) s p = false
consents h (observes now turn text) s p =
    not (eq_text turn p.turn_id)
    && not (ltb p.expires now)
    && eq_text (normalize h text) (normalize h (confirmation_phrase s))
    && not (contains_any text quotes)
consents h (confirms now id choice) s p =
    choice
    && eq_text p.operation_id id
    && not (ltb p.expires now)
    && not (forbids_ui s.tools p.name)
consents h interrupts s p = false
consents h (completes _ _) s p = false

-- Somewhere in the run of `os` from `s` the user consents to `p` while it is pending.
pub data Consented (h : Host) (p : Pending) : Session → List Op → Type 0 where
  here :
      {s : Session} {o : Op} {os : List Op}
      → s.pending ≡ some p
      → consents h o s p ≡ true
      → Consented h p s (o ∷ os)
  later :
      {s : Session} {o : Op} {os : List Op}
      → Consented h p (step h o s) os
      → Consented h p s (o ∷ os)

abbrev approve : Pending → Pending
approve p = record p { approved = true }

abbrev Source : Host → Op → Session → Pending → Type 0
Source h o s q =
    (s.pending ≡ some q)
    ⊎ ((p : Pending) × (s.pending ≡ some p) × (consents h o s p ≡ true) × (q ≡ approve p))

-- A planned call leaves the pending operation, drops it, or puts an unapproved one in its place.
plan-pending :
    (h : Host) (t : Clock) (c : Call) (s : Session) (q : Pending)
    → (plan h t c s).0.pending ≡ some q
    → q.approved ≡ true
    → s.pending ≡ some q
unfolding plan check_dates check_arguments check_limits check_cache check_attempted check_approval
    ask check_intent admit refuse
plan-pending h t c s q e a = ground arith

confirm-pending :
    (h : Host) (now : ℕ) (id : Text) (choice : Bool) (s : Session) (q : Pending)
    → (confirm now id choice s).0.pending ≡ some q
    → Source h (confirms now id choice) s q
unfolding confirm consents
confirm-pending h now id choice s q e = elim (Option-cases s.pending) [
  | inl idle ↦ inl (ground arith)
  | inr (p, busy) ↦ elim (Bool-cases (consents h (confirms now id choice) s p)) [
    | inl said ↦ inr (p, busy, said, ground arith)
    | inr unsaid ↦ inl (ground arith)
  ]
]

answer-pending :
    (h : Host) (now : ℕ) (turn text : Text) (s : Session) (q : Pending)
    → (observe_user h now turn text s).0.pending ≡ some q
    → Source h (observes now turn text) s q
unfolding observe_user answer hear consents confirmation_phrase
answer-pending h now turn text s q e = elim (Option-cases s.pending) [
  | inl idle ↦ inl (ground arith)
  | inr (p, busy) ↦ elim (Bool-cases (consents h (observes now turn text) s p)) [
    | inl said ↦ inr (p, busy, said, ground arith)
    | inr unsaid ↦ inl (ground arith)
  ]
]

step-Source :
    (h : Host) (o : Op) (s : Session) (q : Pending)
    → (step h o s).pending ≡ some q
    → q.approved ≡ true
    → Source h o s q
unfolding step interrupt complete
step-Source h (plans t c) s q e a = inl (plan-pending h t c s q e a)
step-Source h (observes now turn text) s q e a = answer-pending h now turn text s q e
step-Source h (confirms now id choice) s q e a = confirm-pending h now id choice s q e
step-Source h interrupts s q e a = cc
step-Source h (completes j r) s q e a = inl (ground arith)

run-Consented :
    (h : Host) (os : List Op) (s : Session) (q : Pending)
    → (run h os s).pending ≡ some q
    → q.approved ≡ true
    → (s.pending ≡ some q) ⊎ ((p : Pending) × Consented h p s os × (q ≡ approve p))
unfolding run
run-Consented h [] s q e a = inl e
run-Consented h (o ∷ os) s q e a = elim (run-Consented h os (step h o s) q e a) [
  | inr (p, c, same) ↦ inr (p, later c, same)
  | inl kept ↦ elim (step-Source h o s q kept a) [
    | inl before ↦ inl before
    | inr (p, busy, said, same) ↦ inr (p, here busy said, same)
  ]
]

is_approved-pending :
    (h : Host) (t : Clock) (s : Session) (j : Job)
    → is_approved h t s j ≡ true
    → (q : Pending) × (s.pending ≡ some q)
      × (q.approved ≡ true)
      × (t.first < q.expires)
      × (q.name ≡ j.name)
      × (tool_key h s.namespace q.name q.args ≡ j.key)
unfolding is_approved
is_approved-pending h t s j e = elim (Option-cases s.pending) [
  | inl idle ↦ absurd (ground arith)
  | inr (q, busy) ↦ (
    q,
    busy,
    ground arith,
    ground arith,
    ground (arith, eq_text_iff q.name j.name),
    ground (arith, eq_text_iff (tool_key h s.namespace q.name q.args) j.key),
  )
]

-- What a job of a confirm_later tool rests on: an operation `p` of the same tool and arguments to
-- which the user consented in the run, and whose time is not over; the consent is used up.
pub record Warrant (h : Host) (t : Clock) (os : List Op) (s : Session) (b : Binding) (c : Call)
    (result : Plan) (p : Pending) : Type 0 where
  pub consented : Consented h p s os
  pub unexpired : t.first < p.expires
  pub same_tool : p.name ≡ b.tool.name
  pub same_key :
      let ns = (run h os s).namespace in
      tool_key h ns p.name p.args ≡ tool_key h ns b.tool.name c.args
  pub marked : result.1.confirmed ≡ true
  pub used_up : result.0.pending ≡ none

Cleared-approved :
    {h : Host} {t : Clock} {s : Session} {b : Binding} {j : Job} {r : Plan}
    → Cleared h t s b j r
    → b.policy ≡ confirm_later
    → (is_approved h t s j ≡ true) × (r.1.confirmed ≡ true) × (r.0.pending ≡ none)
unfolding admit eq_policy
Cleared-approved (unasked other e) l = absurd (ground arith)
Cleared-approved (approved _ ready e) l = (ready, rw e, ground arith)

-- A warrant for the operation that the user consented to, from what is pending after it.
approved-Warrant :
    (h : Host) (t : Clock) (c : Call) (os : List Op) (s : Session) (b : Binding) (r : Plan)
    (p q : Pending)
    → q ≡ approve p
    → Consented h p s os
    → t.first < q.expires
    → q.name ≡ b.tool.name
    → (let ns = (run h os s).namespace in
        tool_key h ns q.name q.args ≡ tool_key h ns b.tool.name c.args)
    → r.1.confirmed ≡ true
    → r.0.pending ≡ none
    → Warrant h t os s b c r p
approved-Warrant h t c os s b r p q same consented unexpired name key marked used = record {
  consented = consented;
  unexpired = subst (λ x. t.first < x.expires) same unexpired;
  same_tool = ap (λ x. x.name) (sym same) ∙ name;
  same_key = ap (λ x. tool_key h (run h os s).namespace x.name x.args) (sym same) ∙ key;
  marked = marked;
  used_up = used;
}

-- In a session that starts with nothing pending, after any operations, Plan hands out a job of a
-- confirm_later tool only on a warrant: the user consented, in the run, to a pending operation of
-- the same tool and the same canonical arguments, by the phrase in a turn other than the one of the
-- model's call or by the button where the profile allows it, and it has not expired. The job is
-- marked as confirmed, and nothing is pending afterwards, so the next one needs a new consent.
pub plan-Warrant :
    (h : Host) (t : Clock) (c : Call) (os : List Op) (s : Session) (b : Binding)
    → s.pending ≡ none
    → lookup c.name (run h os s).tools ≡ some b
    → b.policy ≡ confirm_later
    → (plan h t c (run h os s)).2 ≡ none
    → (p : Pending) × Warrant h t os s b c (plan h t c (run h os s)) p
plan-Warrant h t c os s b start offered policy free =
    let (b', offered', a) = plan-none h t c (run h os s) free in
    let same : b' ≡ b = cc in
    let later' : b'.policy ≡ confirm_later = rw same policy in
    let (ready, marked, used) = Cleared-approved a.cleared later' in
    let (q, busy, yes', unexpired, name, key) = is_approved-pending h t _ _ ready in
    elim (run-Consented h os s q busy yes') [
      | inl early ↦ absurd (cc)
      | inr (p, consented, same_pending) ↦ (
        p,
        subst (λ x. Warrant h t os s x c (plan h t c (run h os s)) p) same
            (approved-Warrant h t c os s b' (plan h t c (run h os s)) p q same_pending consented
              unexpired name key marked used),
      )
    ]
