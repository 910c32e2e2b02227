-- ===== src/Actions/Release/Cases.antt =====
-- packages/go/actionruntime/tools.go, Plan: a split on the checks that leave the session as it was.
use nova2sonici_osapp.Common.{◌≡◌, inl, inr, Option, some, Option-cases, Bool-cases, is_nil}
use nova2sonici_osapp.Common.Assoc.{lookup}
use nova2sonici_osapp.Mcp.Types.{Result, validate}
use nova2sonici_osapp.Voice.Id.{valid_id}
use nova2sonici_osapp.Actions.DateFormat.{date_time_format_error}
use nova2sonici_osapp.Actions.Types.{Binding, Session, Job, Host, Clock}
use nova2sonici_osapp.Actions.Discovery.{tool_key}
use nova2sonici_osapp.Actions.Planning.{
  Plan, Call, plan, refuse, check_limits, check_arguments, check_dates,
}

pub check_dates_cases :
    (h : Host) (t : Clock) (s : Session) (b : Binding) (c : Call) (P : Plan → Type 0)
    → ((j : Job) (r : Option Result) → P (s, j, r))
    → P (check_limits h t s b c (tool_key h s.namespace b.tool.name c.args))
    → P (check_dates h t s b c)
unfolding check_dates check_arguments refuse
check_dates_cases h t s b c P early late = elim (Bool-cases (validate h.json b.schema c.args)) [
  | inr bad ↦ elim (Bool-cases (is_nil b.profile.date_time_fields)) [
    | inl plain ↦ rw (plain, check_dates) (rw (bad, check_arguments) (early _ _))
    | inr dated ↦
        rw (dated, check_dates)
          (elim (Option-cases (date_time_format_error h c.args b.profile.date_time_fields)) [
            | inl fine ↦ rw fine (rw (bad, check_arguments) (early _ _))
            | inr (report, e) ↦ rw e (early _ _)
          ])
  ]
  | inl good ↦ elim (Bool-cases (is_nil b.profile.date_time_fields)) [
    | inl plain ↦ rw (plain, check_dates) (rw (good, check_arguments) late)
    | inr dated ↦
        rw (dated, check_dates)
          (elim (Option-cases (date_time_format_error h c.args b.profile.date_time_fields)) [
            | inl fine ↦ rw fine (rw (good, check_arguments) late)
            | inr (report, e) ↦ rw e (early _ _)
          ])
  ]
]

-- Either the tool session refuses a call and stays as it is, or it goes on to the limits with the binding of the tool.
pub plan_cases :
    (h : Host) (t : Clock) (c : Call) (s : Session) (P : Plan → Type 0)
    → ((j : Job) (r : Option Result) → P (s, j, r))
    → ((b : Binding)
        → lookup c.name s.tools ≡ some b
        → P (check_limits h t s b c (tool_key h s.namespace b.tool.name c.args)))
    → P (plan h t c s)
unfolding plan refuse
plan_cases h t c s P early late = elim (Bool-cases (valid_id c.id)) [
  | inr bad ↦ rw (bad, plan) (early _ _)
  | inl good ↦
      rw (good, plan)
        (elim (Option-cases (lookup c.name s.tools)) [
          | inl missing ↦ rw missing (early _ _)
          | inr (b, found) ↦ rw found (check_dates_cases h t s b c P early (late b found))
        ])
]
