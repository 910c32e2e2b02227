-- ===== src/Actions/Replies.antt =====
-- packages/go/actionruntime/tools.go: what the model is answered at once, and what a job's run yields.
use nova2sonici_osapp.Common.{
  ◌≤◌, ◌<◌, ◌≡◌, ◌∙◌, ◌⊎◌, inl, inr, Bool, true, false, none, some, arith, Bool-cases, length,
  is_nil, all, ltb, ◌==◌, ◌||◌,
}
use nova2sonici_osapp.Common.Assoc.{lookup, insert, lookup-insert_self}
use nova2sonici_osapp.Common.Fallible.{Fallible, ok, Fallible-cases}
use nova2sonici_osapp.Common.Text.{Text, codes, len, eq_text, eq_text_iff}
use nova2sonici_osapp.Voice.Id.{valid_id}
use nova2sonici_osapp.Mcp.Types.{Result, read_only, eq_policy, validate, failure}
use nova2sonici_osapp.Actions.DateFormat.{date_time_format_error}
use nova2sonici_osapp.Actions.Types.{Binding, Pending, Session, Job, Host, Clock}
use nova2sonici_osapp.Actions.Discovery.{tool_key}
use nova2sonici_osapp.Actions.Planning.{
  Call, mutates, plan, admit, refuse, check_intent, ask, must_ask_anew, check_approval,
  check_attempted, check_cache, check_limits, check_arguments, check_dates, conflicts,
}
use nova2sonici_osapp.Actions.Dialogue.{complete, policy_of, execute}
use nova2sonici_osapp.Actions.Release.Cases.{plan_cases}
use nova2sonici_osapp.Actions.Release.Stages.{counted, keyed_job}

-- The call passes every check that comes before the tool's policy.
pub record Passes (h : Host) (s : Session) (c : Call) (b : Binding) : Type 0 where
  pub id_valid : valid_id c.id ≡ true
  pub offered : lookup c.name s.tools ≡ some b
  pub dates_valid :
      (is_nil b.profile.date_time_fields ≡ true)
      ⊎ (date_time_format_error h c.args b.profile.date_time_fields ≡ none)
  pub arguments_valid : validate h.json b.schema c.args ≡ true
  pub id_own : conflicts s c.id (tool_key h s.namespace b.tool.name c.args) ≡ false
  pub room : s.calls < 128

plan-Passes :
    (h : Host) (t : Clock) (s : Session) (c : Call) (b : Binding)
    → Passes h s c b
    → let key = tool_key h s.namespace b.tool.name c.args in
      plan h t c s ≡ check_cache h t (counted s c key) b c (keyed_job b c key)
unfolding plan check_dates check_arguments check_limits
plan-Passes h t s c b v = ground arith

complete-stored :
    (s : Session) (j : Job) (r : Result)
    → eq_policy (policy_of s.tools j.name) read_only ≡ false
    → complete j r s ≡ record s { cache = insert j.key r s.cache }
unfolding complete
complete-stored s j r p = ground arith

cached-reply :
    (h : Host) (t : Clock) (s : Session) (b : Binding) (c : Call) (j : Job) (r : Result)
    → mutates b ≡ true
    → lookup j.key s.cache ≡ some r
    → check_cache h t s b c j ≡ (s, j, some r)
unfolding check_cache
cached-reply h t s b c j r m e = ground arith

Passes-cache :
    (h : Host) (s : Session) (c : Call) (b : Binding) (k : Text) (r : Result)
    → Passes h s c b
    → Passes h (record s { cache = insert k r s.cache }) c b
unfolding conflicts
Passes-cache h s c b k r v = record {
  id_valid = v.id_valid;
  offered = v.offered;
  dates_valid = v.dates_valid;
  arguments_valid = v.arguments_valid;
  id_own = v.id_own;
  room = v.room;
}

-- After a job of a tool that is not read_only is completed, a call of that tool whose arguments have
-- the job's key, and which passes the checks before the policy, is answered at once with the stored
-- result, for every policy; it is counted, starts nothing, and asks for no confirmation.
pub plan-complete :
    (h : Host) (t : Clock) (s : Session) (c : Call) (b : Binding) (j : Job) (r : Result)
    → Passes h s c b
    → mutates b ≡ true
    → eq_policy (policy_of s.tools j.name) read_only ≡ false
    → j.key ≡ tool_key h s.namespace b.tool.name c.args
    → plan h t c (complete j r s)
      ≡ (counted (record s { cache = insert j.key r s.cache }) c j.key, keyed_job b c j.key, some r)
plan-complete h t s c b j r v m p k =
    let s' = record s { cache = insert j.key r s.cache } in
    rw (complete-stored s j r p, k)
      (plan-Passes h t
          (record s { cache = insert (tool_key h s.namespace b.tool.name c.args) r s.cache }) c b
          (Passes-cache h s c b _ r v)
        ∙ cached-reply h t _ b c _ r m (lookup-insert_self _ r s.cache))

check_approval-kept :
    (h : Host) (t : Clock) (s : Session) (b : Binding) (c : Call) (j : Job) (p : Pending)
    → s.pending ≡ some p
    → p.name ≡ j.name
    → tool_key h s.namespace p.name p.args ≡ j.key
    → t.second ≤ p.expires
    → ((check_approval h t s b c j).2 ≡ none) ⊎ ((check_approval h t s b c j).0.pending ≡ some p)
unfolding check_approval ask must_ask_anew check_intent admit refuse eq_policy
check_approval-kept h t s b c j p busy name key fresh =
    ground
      (arith, eq_text_iff p.name j.name, eq_text_iff (tool_key h s.namespace p.name p.args) j.key)

check_limits-kept :
    (h : Host) (t : Clock) (s : Session) (b : Binding) (c : Call) (k : Text) (p : Pending)
    → s.pending ≡ some p
    → p.name ≡ b.tool.name
    → tool_key h s.namespace p.name p.args ≡ k
    → t.second ≤ p.expires
    → ((check_limits h t s b c k).2 ≡ none) ⊎ ((check_limits h t s b c k).0.pending ≡ some p)
unfolding check_limits check_cache check_attempted refuse
check_limits-kept h t s b c k p busy name key fresh =
    ground
      (arith, check_approval-kept h t (counted s c k) b c (keyed_job b c k) p busy name key fresh)

-- A call for the operation that is already pending and not expired becomes a job or leaves the
-- pending operation as it is, whatever its id and turn: the model cannot renew a confirmation.
pub plan-pending_kept :
    (h : Host) (t : Clock) (s : Session) (c : Call) (b : Binding) (p : Pending)
    → s.pending ≡ some p
    → lookup c.name s.tools ≡ some b
    → p.name ≡ b.tool.name
    → tool_key h s.namespace p.name p.args ≡ tool_key h s.namespace b.tool.name c.args
    → t.second ≤ p.expires
    → ((plan h t c s).2 ≡ none) ⊎ ((plan h t c s).0.pending ≡ some p)
plan-pending_kept h t s c b p busy offered name key fresh =
    plan_cases h t c s (λ r. (r.2 ≡ none) ⊎ (r.0.pending ≡ some p)) (λ j r. inr busy)
      λ b' found.
        let same : b ≡ b' = cc in
        check_limits-kept h t s b' c _ p busy (ground arith) (ground arith) fresh

-- Execute returns a failure report of its own, or what the backend returned without an error; and
-- then it has between 1 and 16 parts, all of them text, and at most 65536 bytes of JSON.
pub execute_bounded :
    (h : Host) (call : Text → Text → Text → Bool → Fallible Result) (j : Job)
    → let r = execute h call j in
      ((code : Text) × (r ≡ failure h.json code))
      ⊎ ((call j.name j.args j.key j.confirmed ≡ ok r)
          × (1 ≤ length r.content)
          × (length r.content ≤ 16)
          × (len (h.json.marshal_result r) ≤ 65536)
          × (all (λ c. eq_text c.kind (codes "text")) r.content ≡ true))
unfolding execute
execute_bounded h call j = elim (Fallible-cases (call j.name j.args j.key j.confirmed)) [
  | inl (e, failed) ↦ inl (codes "mcp_unavailable_or_timeout", rw (failed, execute))
  | inr (r, came) ↦
      let few = length r.content == 0 || ltb 16 (length r.content) in
      let texts = all (λ c. eq_text c.kind (codes "text")) r.content in
      elim (Bool-cases few) [
        | inl bad ↦ inl (codes "invalid_result_content", ground arith)
        | inr fine ↦ elim (Bool-cases (ltb 65536 (len (h.json.marshal_result r)))) [
          | inl large ↦ inl (codes "result_too_large", ground arith)
          | inr small ↦ elim (Bool-cases texts) [
            | inr other ↦ inl (codes "unsupported_result_content", ground arith)
            | inl plain ↦
                let same : execute h call j ≡ r = ground arith in
                inr (rw same (came, ground arith, ground arith, ground arith, plain))
          ]
        ]
      ]
]
