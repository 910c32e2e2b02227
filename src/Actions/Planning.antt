-- ===== src/Actions/Planning.antt =====
-- packages/go/actionruntime/tools.go, Plan: whether a tool call of the model becomes a job. The early
-- returns are cut into stages, one function each. A stage returns the session, the job, and the
-- immediate result; no immediate result means that the caller runs the job.
use nova2sonici_osapp.Common.{
  ℕ, ◌+◌, ◌*◌, ◌^◌, Bool, true, false, not, ◌&&◌, ◌||◌, Option, none, some, [], ◌++◌, ltb, leb,
  if◌then◌else◌, is_nil,
}
use nova2sonici_osapp.Common.Assoc.{lookup, insert, has}
use nova2sonici_osapp.Common.Text.{Text, codes, eq_text, is_empty}
use nova2sonici_osapp.Voice.Id.{valid_id}
use nova2sonici_osapp.Mcp.Types.{
  read_only, confirm_later, explicit_intent, eq_policy, str, raw, obj, end, field, Result,
  text_result, failure, validate,
}
use nova2sonici_osapp.Actions.Types.{Binding, Pending, Session, Job, Host, Clock}
use nova2sonici_osapp.Actions.DateFormat.{date_time_format_error}
use nova2sonici_osapp.Actions.Discovery.{tool_key}
use nova2sonici_osapp.Actions.Dialogue.{confirmation_phrase}

abbrev pub Plan : Type 0
Plan = Session × Job × Option Result

-- A tool call of the model.
pub record Call : Type 0 where
  pub id : Text
  pub name : Text
  pub turn : Text
  pub args : Text

abbrev max_calls : ℕ
max_calls = 128

abbrev confirmation_window : ℕ
confirmation_window = 60 * 10 ^ 9

unfoldable pub resolved_name : Session → Text → Text
resolved_name s name = elim (lookup name s.tools) [ none ↦ name | some b ↦ b.tool.name ]

abbrev bare_job : Call → Text → Job
bare_job c name = record {
  id = c.id;
  name = name;
  key = [];
  turn_id = c.turn;
  args = c.args;
  confirmed = false;
}

-- The closure `fail`.
unfoldable pub refuse : Host → Session → Call → Text → Plan
refuse h s c code = (s, bare_job c (resolved_name s c.name), some (failure h.json code))

abbrev pub mutates : Binding → Bool
mutates b = not (eq_policy b.policy read_only)

-- The end of Plan: a mutation is attempted once.
unfoldable pub admit : Session → Binding → Job → Plan
admit s b j =
    (if mutates b then record s { attempted = insert j.key true s.attempted } else s, j, none)

unfoldable pub matches_intent : Host → Text → Text → Bool
matches_intent h text pattern = if is_empty pattern then false else h.regexp_matches pattern text

unfoldable pub check_intent : Host → Session → Binding → Call → Job → Plan
unfolding matches_intent
check_intent h s b c j =
    if eq_policy b.policy explicit_intent
      && not b.profile.direct
      && (not (eq_text s.intent_turn c.turn)
          || not (matches_intent h s.intent_text b.profile.intent_pattern))
    then refuse h s c (codes "clarification_required")
    else admit s b j

same_operation : Host → Session → Pending → Job → Bool
same_operation h s p j =
    eq_text p.name j.name && eq_text (tool_key h s.namespace p.name p.args) j.key

-- The approval that lets a job of a confirm_later tool run.
unfoldable pub is_approved : Host → Clock → Session → Job → Bool
unfolding same_operation
is_approved h t s j = elim s.pending [
  | none ↦ false
  | some p ↦ ltb t.first p.expires && same_operation h s p j && p.approved
]

unfoldable pub must_ask_anew : Host → Clock → Session → Job → Bool
unfolding same_operation
must_ask_anew h t s j = elim s.pending [
  | none ↦ true
  | some p ↦ not (same_operation h s p j) || ltb p.expires t.second
]

abbrev asked : Clock → Job → Pending
asked t j = record {
  operation_id = j.id;
  name = j.name;
  args = j.args;
  turn_id = j.turn_id;
  expires = t.third + confirmation_window;
  approved = false;
}

confirmation_request : Host → Session → Pending → Result
confirmation_request h s p =
    text_result h.json
      (obj (
        field (codes "status") (str (codes "confirmation_required")) (
          field (codes "operation_id") (str p.operation_id) (
            field (codes "target") (raw p.args) (
              field (codes "instruction")
                (str (
                  codes "Peça confirmação explícita em um novo turno: "
                  ++ (confirmation_phrase s
                      ++ codes
                          ". Não anuncie sucesso. Após confirmação, chame novamente a mesma ferramenta com o mesmo alvo.")))
                end)))))
      false

-- Repeated calls leave the pending operation, and so its turn, as it was.
unfoldable pub ask : Host → Clock → Session → Job → Plan
unfolding confirmation_request
ask h t s j =
    let p = if must_ask_anew h t s j then some (asked t j) else s.pending in
    let s' = record s { pending = p } in
    (s', j, elim p [ none ↦ none | some q ↦ some (confirmation_request h s' q) ])

unfoldable pub check_approval : Host → Clock → Session → Binding → Call → Job → Plan
check_approval h t s b c j =
    if eq_policy b.policy confirm_later
    then if is_approved h t s j
      then check_intent h (record s { pending = none }) b c (record j { confirmed = true })
      else ask h t s j
    else check_intent h s b c j

unfoldable pub check_attempted : Host → Clock → Session → Binding → Call → Job → Plan
check_attempted h t s b c j =
    if mutates b && has j.key s.attempted
    then refuse h s c (codes "mutation_outcome_pending_or_unknown")
    else check_approval h t s b c j

unfoldable pub check_cache : Host → Clock → Session → Binding → Call → Job → Plan
check_cache h t s b c j =
    if mutates b
    then elim (lookup j.key s.cache) [
      | some cached ↦ (s, j, some cached)
      | none ↦ check_attempted h t s b c j
    ]
    else check_attempted h t s b c j

unfoldable pub conflicts : Session → Text → Text → Bool
conflicts s id key = elim (lookup id s.seen) [ none ↦ false | some k ↦ not (eq_text k key) ]

-- `key` is the digest of the call.
unfoldable pub check_limits : Host → Clock → Session → Binding → Call → Text → Plan
check_limits h t s b c key =
    if conflicts s c.id key
    then refuse h s c (codes "tool_id_conflict")
    else if leb max_calls s.calls
    then refuse h s c (codes "tool_limit_reached")
    else check_cache h t (record s { calls = s.calls + 1; seen = insert c.id key s.seen }) b c
        (record (bare_job c b.tool.name) { key = key })

unfoldable pub check_arguments : Host → Clock → Session → Binding → Call → Plan
check_arguments h t s b c =
    if not (validate h.json b.schema c.args)
    then refuse h s c (codes "invalid_arguments")
    else check_limits h t s b c (tool_key h s.namespace b.tool.name c.args)

unfoldable pub check_dates : Host → Clock → Session → Binding → Call → Plan
check_dates h t s b c =
    if is_nil b.profile.date_time_fields
    then check_arguments h t s b c
    else elim (date_time_format_error h c.args b.profile.date_time_fields) [
      | some report ↦ (s, bare_job c b.tool.name, some report)
      | none ↦ check_arguments h t s b c
    ]

unfoldable pub plan : Host → Clock → Call → Session → Plan
plan h t c s =
    if not (valid_id c.id)
    then refuse h s c (codes "invalid_tool_id")
    else elim (lookup c.name s.tools) [
      | none ↦ refuse h s c (codes "tool_not_allowed")
      | some b ↦ check_dates h t s b c
    ]
