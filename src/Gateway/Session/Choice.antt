-- ===== src/Gateway/Session/Choice.antt =====
-- apps/voice-gateway/internal/adapters/voice/agent_handler.go: which agent a session opens.
use nova2sonici_osapp.Common.{
  ◌≡◌, refl, sym, ap, ◌∙◌, ◌⊎◌, inl, inr, Bool, true, false, not, ◌&&◌, List, [], ◌∷◌, any, arith,
  Bool-cases, if◌then◌else◌,
}
use nova2sonici_osapp.Common.Int.{ℤ, pos, eq_ℤ}
use nova2sonici_osapp.Common.Text.{Text, eq_text, eq_text_iff}
use nova2sonici_osapp.AgentWire.Types.{Principal}
use nova2sonici_osapp.AgentWire.Protocol.{is_v2}
use nova2sonici_osapp.AgentWire.Endpoint.{Endpoint}
use nova2sonici_osapp.Gateway.Session.{select_agent}

-- Some element has the property.
abbrev pub Any {ℓ} : {A : Type ℓ} → (A → Type 0) → List A → Type 0
Any P [] = ⊥
Any P (x ∷ xs) = P x ⊎ Any P xs

-- The catalog has an agent of protocol 1 under this name.
abbrev pub has_first : Text → List Endpoint → Bool
has_first selected es = any (λ e. eq_text e.agent_id selected && not (is_v2 e.protocol)) es

-- An endpoint that a session of this version may open under this name: a client of version 1 reaches no
-- agent of protocol 2.
pub record IsChoice (version : ℤ) (selected : Text) (e : Endpoint) : Type 0 where
  pub named : e.agent_id ≡ selected
  pub apart : (eq_ℤ version (pos 1) && is_v2 e.protocol) ≡ false

-- The principal of the configuration is for agents of protocol 1, the client's own for the others.
select_agent-principal :
    (version : ℤ) (selected : Text) (configured p : Principal) (es : List Endpoint) (found : Bool)
    → (select_agent version selected configured es (found, p)).1
      ≡ (if has_first selected es then configured else p)
unfolding select_agent
select_agent-principal version selected configured p [] found = refl
select_agent-principal version selected configured p (e ∷ es) found =
    let here = eq_text e.agent_id selected in
    let found' = if here then not (eq_ℤ version (pos 1) && is_v2 e.protocol) else found in
    let p' = if here && not (is_v2 e.protocol) then configured else p in
    let rest = select_agent-principal version selected configured p' es found' in
    elim (Bool-cases (here && not (is_v2 e.protocol))) [
      | inl first ↦ ground (arith, rest)
      | inr other ↦ ground (arith, rest)
    ]

select_agent-IsChoice :
    (version : ℤ) (selected : Text) (configured p : Principal) (es : List Endpoint) (found : Bool)
    → (select_agent version selected configured es (found, p)).0 ≡ true
    → Any (IsChoice version selected) es ⊎ (found ≡ true)
unfolding select_agent
select_agent-IsChoice version selected configured p [] found h = inr h
select_agent-IsChoice version selected configured p (e ∷ es) found h =
    let here = eq_text e.agent_id selected in
    let v2 = is_v2 e.protocol in
    let found' = if here then not (eq_ℤ version (pos 1) && v2) else found in
    let p' = if here && not v2 then configured else p in
    elim (select_agent-IsChoice version selected configured p' es found' h) [
      | inl later ↦ inl (inr later)
      | inr this ↦ elim (Bool-cases here) [
        | inr other ↦ inr (ground arith)
        | inl at ↦
            inl (
              inl (record { named = (eq_text_iff e.agent_id selected).0 at; apart = ground arith }))
      ]
    ]

-- An agent that is found is one of the catalog.
pub select_agent-found :
    (version : ℤ) (selected : Text) (configured p q : Principal) (es : List Endpoint)
    → select_agent version selected configured es (false, p) ≡ (true, q)
    → Any (IsChoice version selected) es × (q ≡ (if has_first selected es then configured else p))
select_agent-found version selected configured p q es h = (
  elim (select_agent-IsChoice version selected configured p es false (ap (λ x. x.0) h)) [
    | inl some_agent ↦ some_agent
    | inr never ↦ absurd (cc never)
  ],
  sym (ap (λ x. x.1) h) ∙ select_agent-principal version selected configured p es false,
)
