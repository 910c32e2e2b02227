-- ===== src/Actions/Release.antt =====
-- packages/go/actionruntime/tools.go, Plan: when a call becomes a job, and what it leaves behind.
pub mod Stages
pub mod Cases
use nova2sonici_osapp.Common.{
  ℕ, ◌+◌, ◌≤◌, ◌<◌, ◌≡◌, refl, sym, subst, ap, ◌∙◌, ◌⊎◌, inl, inr, Bool, true, false, not, ◌&&◌,
  Option, none, some, List, [], ◌∷◌, arith, Bool-cases, Option-cases, if◌then◌else◌,
}
use nova2sonici_osapp.Common.Assoc.{lookup, insert, has, has-insert}
use nova2sonici_osapp.Common.Text.{Text, eq_text, eq_text_refl}
use nova2sonici_osapp.Voice.Id.{valid_id}
use nova2sonici_osapp.Mcp.Types.{confirm_later, read_only, explicit_intent, eq_policy, validate}
use nova2sonici_osapp.Actions.Types.{Binding, Pending, Session, Job, Host, Clock}
use nova2sonici_osapp.Actions.Discovery.{tool_key}
use nova2sonici_osapp.Actions.Planning.{
  Plan, Call, mutates, admit, is_approved, check_intent, check_approval, check_attempted,
  check_cache, check_limits, check_arguments, check_dates, plan, refuse, conflicts,
}
use Stages.{Admitted, counted, keyed_job, check_dates-Admitted}

-- A call that becomes a job names an offered tool, and its arguments passed every check.
pub plan-none :
    (h : Host) (t : Clock) (c : Call) (s : Session)
    → (plan h t c s).2 ≡ none
    → (b : Binding) × (lookup c.name s.tools ≡ some b) × Admitted h t s b c (plan h t c s)
unfolding plan refuse
plan-none h t c s e = elim (Bool-cases (valid_id c.id)) [
  | inr bad ↦ absurd (ground arith)
  | inl good ↦ elim (Option-cases (lookup c.name s.tools)) [
    | inl missing ↦ absurd (ground arith)
    | inr (b, found) ↦
        let same : plan h t c s ≡ check_dates h t s b c = ground arith in
        (
          b,
          found,
          subst (Admitted h t s b c) (sym same)
              (check_dates-Admitted h t s b c (ap (λ p. p.2) (sym same) ∙ e)),
        )
  ]
]
