-- ===== src/Actions/Dialogue.antt =====
-- packages/go/actionruntime/tools.go: what the user's speech and the client's buttons do to a pending
-- confirmation, and how a job's result is taken.
use nova2sonici_osapp.Common.{
  ℕ, Bool, true, false, not, ◌&&◌, ◌||◌, none, some, [], ◌∷◌, ltb, ◌==◌, if◌then◌else◌, length, all,
  any,
}
use nova2sonici_osapp.Common.Assoc.{Map, insert}
use nova2sonici_osapp.Common.Fallible.{Fallible, ok, err}
use nova2sonici_osapp.Common.Text.{Text, codes, len, eq_text, contains_any, has_prefix}
use nova2sonici_osapp.Mcp.Types.{Policy, read_only, unnamed, eq_policy, Result, failure}
use nova2sonici_osapp.Actions.Types.{Binding, Pending, Session, Job, Host}
use nova2sonici_osapp.Actions.Normalize.{normalize, quotes}

phrase_of : Map Binding → Text → Text
phrase_of [] name = codes "confirmo executar"
phrase_of ((_, b) ∷ m) name =
    if eq_text b.tool.name name then b.profile.confirmation_phrase else phrase_of m name

-- A Go map is read in no fixed order; tool names differ, so the order does not matter.
unfoldable pub confirmation_phrase : Session → Text
unfolding phrase_of
confirmation_phrase s = elim s.pending [
  | none ↦ codes "confirmo executar"
  | some p ↦ phrase_of s.tools p.name
]

abbrev is_refusal : Text → Bool
is_refusal phrase =
    eq_text phrase (codes "nao")
    || has_prefix phrase (codes "nao ")
    || eq_text phrase (codes "cancela")
    || eq_text phrase (codes "cancelar")
    || eq_text phrase (codes "cancele")

-- The user's words against a pending operation that is neither of this turn nor expired.
unfoldable pub answer : Host → Text → Session → Pending → Session × Bool
answer h text s p =
    let phrase = normalize h text in
    if eq_text phrase (normalize h (confirmation_phrase s)) && not (contains_any text quotes)
    then (record s { pending = some (record p { approved = true }) }, true)
    else if is_refusal phrase
    then (record s { pending = none }, false)
    else (s, false)

unfoldable pub hear : Host → Text → Text → Session → Session
hear h turn text s = record s {
  intent_turn = turn;
  intent_text = if contains_any text quotes then [] else normalize h text;
}

unfoldable pub observe_user : Host → ℕ → Text → Text → Session → Session × Bool
unfolding hear answer
observe_user h now turn text s =
    let heard = hear h turn text s in
    elim s.pending [
      | none ↦ (heard, false)
      | some p ↦
          if eq_text turn p.turn_id
          then (heard, false)
          else if ltb p.expires now
          then (record heard { pending = none }, false)
          else answer h text heard p
    ]

unfoldable pub forbids_ui : Map Binding → Text → Bool
forbids_ui m name =
    any (λ e. eq_text (e.1).tool.name name && not (e.1).profile.allow_ui_confirmation) m

unfoldable pub confirm : ℕ → Text → Bool → Session → Session × Bool
confirm now operation_id approved s = elim s.pending [
  | none ↦ (s, false)
  | some p ↦
      if not (eq_text p.operation_id operation_id) || ltb p.expires now
      then (s, false)
      else if forbids_ui s.tools p.name
      then (s, false)
      else if approved
      then (record s { pending = some (record p { approved = true }) }, true)
      else (record s { pending = none }, true)
]

unfoldable pub interrupt : Session → Session
interrupt s = record s { pending = none; intent_text = [] }

-- Execute; `call` is the backend's Call, and the session is not changed.
unfoldable pub execute : Host → (Text → Text → Text → Bool → Fallible Result) → Job → Result
execute h call j = elim (call j.name j.args j.key j.confirmed) [
  | err _ ↦ failure h.json (codes "mcp_unavailable_or_timeout")
  | ok result ↦
      if length result.content == 0 || ltb 16 (length result.content)
      then failure h.json (codes "invalid_result_content")
      else if ltb 65536 (len (h.json.marshal_result result))
      then failure h.json (codes "result_too_large")
      else if not (all (λ c. eq_text c.kind (codes "text")) result.content)
      then failure h.json (codes "unsupported_result_content")
      else result
]

-- The policy of the tool of that name; Go's zero value, "", if there is none.
unfoldable pub policy_of : Map Binding → Text → Policy
policy_of [] name = unnamed []
policy_of ((_, b) ∷ m) name = if eq_text b.tool.name name then b.policy else policy_of m name

unfoldable pub complete : Job → Result → Session → Session
complete j r s =
    if not (eq_policy (policy_of s.tools j.name) read_only)
    then record s { cache = insert j.key r s.cache }
    else s
