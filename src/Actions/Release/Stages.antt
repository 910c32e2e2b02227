-- ===== src/Actions/Release/Stages.antt =====
-- One lemma for each stage of Plan: what holds if it returns no immediate result.
use nova2sonici_osapp.Common.{
  ◌+◌, ◌<◌, ◌≡◌, sym, subst, ◌∙◌, inl, inr, true, false, none, arith, Bool-cases,
}
use nova2sonici_osapp.Common.Assoc.{lookup, insert, has}
use nova2sonici_osapp.Common.Text.{Text, eq_text}
use nova2sonici_osapp.Mcp.Types.{confirm_later, explicit_intent, eq_policy, validate}
use nova2sonici_osapp.Actions.Types.{Binding, Session, Job, Host, Clock}
use nova2sonici_osapp.Actions.Discovery.{tool_key}
use nova2sonici_osapp.Actions.Planning.{
  Plan, Call, mutates, admit, matches_intent, is_approved, must_ask_anew, check_intent, ask,
  check_approval, check_attempted, check_cache, check_limits, check_arguments, check_dates, refuse,
  conflicts,
}

-- The session after the call is counted and its id is bound to its key.
abbrev pub counted : Session → Call → Text → Session
counted s c key = record s { calls = s.calls + 1; seen = insert c.id key s.seen }

abbrev pub keyed_job : Binding → Call → Text → Job
keyed_job b c key = record {
  id = c.id;
  name = b.tool.name;
  key = key;
  turn_id = c.turn;
  args = c.args;
  confirmed = false;
}

-- The user's own words allow a job of an explicit_intent tool, or the profile waives them.
abbrev pub Intended : Host → Session → Binding → Call → Type 0
Intended h s b c =
    eq_policy b.policy explicit_intent ≡ true
    → b.profile.direct ≡ false
    → (eq_text s.intent_turn c.turn ≡ true)
      × (matches_intent h s.intent_text b.profile.intent_pattern ≡ true)

-- A job of a confirm_later tool uses the approval up; any other leaves the session.
pub data Cleared (h : Host) (t : Clock) (s : Session) (b : Binding) (j : Job) : Plan → Type 0 where
  unasked :
      {p : Plan} → eq_policy b.policy confirm_later ≡ false → p ≡ admit s b j → Cleared h t s b j p
  approved :
      {p : Plan}
      → eq_policy b.policy confirm_later ≡ true
      → is_approved h t s j ≡ true
      → p ≡ admit (record s { pending = none }) b (record j { confirmed = true })
      → Cleared h t s b j p

pub record Admitted (h : Host) (t : Clock) (s : Session) (b : Binding) (c : Call) (p : Plan)
    : Type 0 where
  pub valid : validate h.json b.schema c.args ≡ true
  pub own_id : conflicts s c.id (tool_key h s.namespace b.tool.name c.args) ≡ false
  pub room : s.calls < 128
  pub uncached :
      mutates b ≡ true → lookup (tool_key h s.namespace b.tool.name c.args) s.cache ≡ none
  pub fresh : mutates b ≡ true → has (tool_key h s.namespace b.tool.name c.args) s.attempted ≡ false
  pub intended : Intended h s b c
  pub cleared :
      let key = tool_key h s.namespace b.tool.name c.args in
      Cleared h t (counted s c key) b (keyed_job b c key) p

module _ (h : Host) (t : Clock) (s : Session) (b : Binding) (c : Call) (j : Job) where
  check_intent-none :
      (check_intent h s b c j).2 ≡ none → Intended h s b c × (check_intent h s b c j ≡ admit s b j)
  unfolding check_intent refuse
  check_intent-none e = (λ x d. ground arith, ground arith)

  ask-some : (ask h t s j).2 ≡ none → ⊥
  unfolding ask must_ask_anew
  ask-some e = ground arith

module _ (h : Host) (t : Clock) (s : Session) (b : Binding) (c : Call) (j : Job) where
  check_approval-none :
      (check_approval h t s b c j).2 ≡ none
      → Intended h s b c × Cleared h t s b j (check_approval h t s b c j)
  unfolding check_approval
  check_approval-none e = elim (Bool-cases (eq_policy b.policy confirm_later)) [
    | inr other ↦
        let (i, a) = check_intent-none h t s b c j (ground arith) in
        (i, unasked other (ground (arith, a)))
    | inl later ↦ elim (Bool-cases (is_approved h t s j)) [
      | inr unapproved ↦ absurd (ask-some h t s b c j (ground arith))
      | inl ready ↦
          let (i, a) =
            check_intent-none h t (record s { pending = none }) b c (record j { confirmed = true })
              (ground arith) in
          (i, approved later ready (ground (arith, a)))
    ]
  ]

  check_attempted-none :
      (check_attempted h t s b c j).2 ≡ none
      → (mutates b ≡ true → has j.key s.attempted ≡ false)
        × ((check_approval h t s b c j).2 ≡ none)
        × (check_attempted h t s b c j ≡ check_approval h t s b c j)
  unfolding check_attempted refuse
  check_attempted-none e = (λ m. ground arith, ground arith, ground arith)

module _ (h : Host) (t : Clock) (s : Session) (b : Binding) (c : Call) (j : Job) where
  check_cache-none :
      (check_cache h t s b c j).2 ≡ none
      → (mutates b ≡ true → lookup j.key s.cache ≡ none)
        × ((check_attempted h t s b c j).2 ≡ none)
        × (check_cache h t s b c j ≡ check_attempted h t s b c j)
  unfolding check_cache
  check_cache-none e = (λ m. ground arith, ground arith, ground arith)

module _ (h : Host) (t : Clock) (s : Session) (b : Binding) (c : Call) where
  check_limits-none :
      (key : Text)
      → (check_limits h t s b c key).2 ≡ none
      → (conflicts s c.id key ≡ false)
        × (s.calls < 128)
        × ((check_cache h t (counted s c key) b c (keyed_job b c key)).2 ≡ none)
        × (check_limits h t s b c key ≡ check_cache h t (counted s c key) b c (keyed_job b c key))
  unfolding check_limits refuse
  check_limits-none key e = (ground arith, ground arith, ground arith, ground arith)

  check_dates-none :
      (check_dates h t s b c).2 ≡ none
      → (validate h.json b.schema c.args ≡ true)
        × ((check_limits h t s b c (tool_key h s.namespace b.tool.name c.args)).2 ≡ none)
        × (check_dates h t s b c
            ≡ check_limits h t s b c (tool_key h s.namespace b.tool.name c.args))
  unfolding check_dates check_arguments refuse
  check_dates-none e = (ground arith, ground arith, ground arith)

  -- The stages together.
  pub check_dates-Admitted :
      (check_dates h t s b c).2 ≡ none → Admitted h t s b c (check_dates h t s b c)
  check_dates-Admitted e =
      let key = tool_key h s.namespace b.tool.name c.args in
      let (valid, e₁, p₁) = check_dates-none e in
      let (own, room, e₂, p₂) = check_limits-none key e₁ in
      let (uncached, e₃, p₃) = check_cache-none h t (counted s c key) b c (keyed_job b c key) e₂ in
      let (fresh, e₄, p₄) = check_attempted-none h t (counted s c key) b c (keyed_job b c key) e₃ in
      let (intended, cleared) =
        check_approval-none h t (counted s c key) b c (keyed_job b c key) e₄ in
      record {
        valid = valid;
        own_id = own;
        room = room;
        uncached = uncached;
        fresh = fresh;
        intended = intended;
        cleared =
            subst (Cleared h t (counted s c key) b (keyed_job b c key)) (sym (p₁ ∙ p₂ ∙ p₃ ∙ p₄))
              cleared;
      }
