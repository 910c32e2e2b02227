-- ===== src/Actions/Offered.antt =====
-- packages/go/actionruntime/tools.go, New: what a session offers to the model.
use nova2sonici_osapp.Common.{
  ◌+◌, ◌≤◌, ◌≡◌, ◌≢◌, refl, sym, subst, inl, inr, true, false, none, some, List, [], ◌∷◌, arith,
  Option-cases, Bool-cases, length, length-append,
}
use nova2sonici_osapp.Common.Assoc.{Map, lookup, insert, lookup-insert, length-insert}
use nova2sonici_osapp.Common.Fallible.{Fallible, ok, >>=-eq-ok, Fallible-cases}
use nova2sonici_osapp.Common.Text.{Text, len, eq_text, eq_text_iff}
use nova2sonici_osapp.Mcp.Types.{Tool, compile, eq_policy}
use nova2sonici_osapp.Actions.Types.{Profile, Binding, Session, Host}
use nova2sonici_osapp.Actions.Discovery.{
  model_name, model_tool_name, permitted, original_of, add_tool, add_tools, initial, new,
  is_unnamed, bind_tool, some_specs, describe,
}

-- The host allowed the tool under this name and gave it its policy.
pub record IsOffered (h : Host) (allowed : List Text) (profiles : Map Profile) (name : Text)
    (b : Binding) : Type 0 where
  pub own_name : name ≡ model_name b.tool.name
  pub well_named : model_tool_name name ≡ true
  pub short : len name ≤ 64
  pub is_allowed : permitted allowed b.tool.name ≡ true
  pub trusted : lookup (original_of b.tool) profiles ≡ some b.profile
  pub policy_trusted : b.policy ≡ b.profile.policy
  pub policy_agrees :
      is_unnamed b.tool.host_policy ≡ false → eq_policy b.tool.host_policy b.policy ≡ true
  pub compiled : compile h.json b.tool.input_schema ≡ ok b.schema

-- Every offered tool is so, there is one specification for each, and no call has been made.
pub record IsNew (h : Host) (allowed : List Text) (profiles : Map Profile) (s : Session)
    : Type 0 where
  pub offered :
      (name : Text) (b : Binding)
      → lookup name s.tools ≡ some b
      → IsOffered h allowed profiles name b
  pub as_many : length s.specs ≡ length s.tools
  pub idle : s.pending ≡ none
  pub no_calls : s.calls ≡ 0
  pub no_ids : s.seen ≡ []
  pub none_attempted : s.attempted ≡ []

abbrev bound : Tool → Text → Profile → Binding
bound tool schema profile = record {
  tool = tool;
  schema = schema;
  policy = profile.policy;
  original = original_of tool;
  profile = profile;
}

-- What a successful round of the loop found out about its tool.
record Added (h : Host) (profiles : Map Profile) (tool : Tool) (s s' : Session) (schema : Text)
    (profile : Profile) : Type 0 where
  well_named : model_tool_name (model_name tool.name) ≡ true
  short : len (model_name tool.name) ≤ 64
  new_name : lookup (model_name tool.name) s.tools ≡ none
  compiled : compile h.json tool.input_schema ≡ ok schema
  trusted : lookup (original_of tool) profiles ≡ some profile
  agrees : is_unnamed tool.host_policy ≡ false → eq_policy tool.host_policy profile.policy ≡ true
  result : s' ≡ bind_tool s (model_name tool.name) tool schema profile

add_tool-Added :
    (h : Host) (profiles : Map Profile) (tool : Tool) (s s' : Session)
    → add_tool h profiles tool s ≡ ok s'
    → (schema : Text) × (profile : Profile) × Added h profiles tool s s' schema profile
unfolding add_tool
add_tool-Added h profiles tool s s' e = elim (Fallible-cases (compile h.json tool.input_schema)) [
  | inl (_, broken) ↦ absurd (ground arith)
  | inr (schema, compiled) ↦ elim (Option-cases (lookup (original_of tool) profiles)) [
    | inl missing ↦ absurd (ground arith)
    | inr (profile, trusted) ↦ (
      schema,
      profile,
      record {
        well_named = ground arith;
        short = ground arith;
        new_name = ground arith;
        compiled = compiled;
        trusted = trusted;
        agrees = λ u. ground arith;
        result = ground arith;
      },
    )
  ]
]

module _ (h : Host) (allowed : List Text) (profiles : Map Profile) where
  insert-offered :
      (tool : Tool) (s s' : Session) (schema : Text) (profile : Profile)
      → permitted allowed tool.name ≡ true
      → Added h profiles tool s s' schema profile
      → IsNew h allowed profiles s
      → (name : Text) (b : Binding)
      → lookup name (insert (model_name tool.name) (bound tool schema profile) s.tools) ≡ some b
      → IsOffered h allowed profiles name b
  insert-offered tool s s' schema profile fine_name a v name b found =
      let written = lookup-insert (model_name tool.name) name (bound tool schema profile) s.tools in
      elim (Bool-cases (eq_text (model_name tool.name) name)) [
        | inr other ↦ v.offered name b (ground (arith, written))
        | inl same ↦
            let this : bound tool schema profile ≡ b = ground (arith, written) in
            let that : model_name tool.name ≡ name =
              (eq_text_iff (model_name tool.name) name).0 same in
            subst (λ n. IsOffered h allowed profiles n b) that
              (subst (IsOffered h allowed profiles (model_name tool.name)) this (record {
                own_name = refl;
                well_named = a.well_named;
                short = a.short;
                is_allowed = fine_name;
                trusted = a.trusted;
                policy_trusted = refl;
                policy_agrees = a.agrees;
                compiled = a.compiled;
              }))
      ]

  add_tool-IsNew :
      (tool : Tool) (s s' : Session) (schema : Text) (profile : Profile)
      → permitted allowed tool.name ≡ true
      → Added h profiles tool s s' schema profile
      → IsNew h allowed profiles s
      → IsNew h allowed profiles s'
  add_tool-IsNew tool s s' schema profile fine_name a v =
      let name = model_name tool.name in
      let grows : length (insert name (bound tool schema profile) s.tools) ≡ length s.tools + 1 =
        ground (arith, length-insert name (bound tool schema profile) s.tools, a.new_name) in
      subst (IsNew h allowed profiles) (sym a.result) (record {
        offered = insert-offered tool s s' schema profile fine_name a v;
        as_many = omega (
          arith,
          length-append s.specs (
              record {
                name = model_name tool.name;
                description = describe tool profile;
                parameters = tool.input_schema;
              }
              ∷ []),
          v.as_many,
          grows,
        );
        idle = v.idle;
        no_calls = v.no_calls;
        no_ids = v.no_ids;
        none_attempted = v.none_attempted;
      })

  add_tools-IsNew :
      (tools : List Tool) (s s' : Session)
      → add_tools h allowed profiles tools s ≡ ok s'
      → IsNew h allowed profiles s
      → IsNew h allowed profiles s'
  unfolding add_tools
  add_tools-IsNew [] s s' e v = subst (IsNew h allowed profiles) (cc) v
  add_tools-IsNew (tool ∷ rest) s s' e v = elim (Bool-cases (permitted allowed tool.name)) [
    | inr other ↦ add_tools-IsNew rest s s' (rw other at e) v
    | inl fine ↦
        let (s₁, first, others) =
          >>=-eq-ok (add_tool h profiles tool s) (add_tools h allowed profiles rest)
            (rw fine at e) in
        let (schema, profile, a) = add_tool-Added h profiles tool s s₁ first in
        add_tools-IsNew rest s₁ s' others (add_tool-IsNew tool s s₁ schema profile fine a v)
  ]

nothing : (name : Text) (b : Binding) → lookup name [] ≡ some b → ⊥
unfolding lookup
nothing name b e = cc

-- If New succeeds, every tool that the session offers is one that the host allowed and profiled: it
-- stands under its own model name, which is short and well formed, its policy is the one of its trusted
-- profile and contradicts no host policy, and its schema compiles. There is a specification for each,
-- at least one, and the session has made no call and waits for no confirmation.
pub new-IsNew :
    (h : Host) (discovered : Fallible (List Tool)) (allowed : List Text) (namespace : Text)
    (profiles : Map Profile) (s : Session)
    → new h discovered allowed namespace profiles ≡ ok s
    → IsNew h allowed profiles s × (s.specs ≢ [])
unfolding new some_specs
new-IsNew h discovered allowed namespace profiles s e =
    let (tools, _, e₁) = >>=-eq-ok discovered _ e in
    let (s₁, added, e₂) =
      >>=-eq-ok (add_tools h allowed profiles tools (initial namespace)) some_specs e₁ in
    let same : s₁ ≡ s = ground arith in
    (
      subst (IsNew h allowed profiles) same (
          add_tools-IsNew h allowed profiles tools (initial namespace) s₁ added (record {
            offered = λ name b found. absurd (nothing name b found);
            as_many = refl;
            idle = refl;
            no_calls = refl;
            no_ids = refl;
            none_attempted = refl;
          })),
      λ bare. ground arith,
    )
