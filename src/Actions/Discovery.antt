-- ===== src/Actions/Discovery.antt =====
-- packages/go/actionruntime/tools.go, New and key: which discovered tools a session offers.
use nova2sonici_osapp.Common.{
  ℕ, Bool, true, false, not, ◌&&◌, ◌||◌, none, some, List, [], ◌∷◌, ◌++◌, map, ltb, ◌==◌,
  if◌then◌else◌, is_nil, all, any, is_some,
}
use nova2sonici_osapp.Common.Assoc.{Map, lookup, insert}
use nova2sonici_osapp.Common.Fallible.{Fallible, ok, err, ◌>>=◌}
use nova2sonici_osapp.Common.Text.{Text, codes, len, eq_text, is_empty}
use nova2sonici_osapp.Voice.Id.{within}
use nova2sonici_osapp.Mcp.Types.{Policy, confirm_later, unnamed, eq_policy, Tool, compile}
use nova2sonici_osapp.Actions.Types.{Profile, Session, Host}

-- `key`: the digest that names one operation.
unfoldable pub tool_key : Host → Text → Text → Text → Text
tool_key h namespace name args =
    h.sha256_hex (namespace ++ (0 ∷ name ++ (0 ∷ h.json.canonical args)))

model_code : ℕ → ℕ
model_code c = if c == b'.' || c == b'-' then b'_' else c

-- strings.ReplaceAll twice: "." and "-" become "_".
unfoldable pub model_name : Text → Text
unfolding model_code
model_name = map model_code

letter : ℕ → Bool
letter c = within b'a' b'z' c || within b'A' b'Z' c

word_code : ℕ → Bool
unfolding letter
word_code c = letter c || within b'0' b'9' c || c == b'_'

-- The expression ^[a-zA-Z][a-zA-Z0-9_]*$.
unfoldable pub model_tool_name : Text → Bool
unfolding word_code
model_tool_name [] = false
model_tool_name (c ∷ s) = letter c && all word_code s

unfoldable pub permitted : List Text → Text → Bool
permitted allowed name = any (λ a. eq_text a name) allowed

abbrev pub original_of : Tool → Text
original_of tool = if is_empty tool.original_name then tool.name else tool.original_name

abbrev pub is_unnamed : Policy → Bool
is_unnamed (unnamed []) = true
is_unnamed _ = false

abbrev pub describe : Tool → Profile → Text
describe tool profile =
    if eq_policy profile.policy confirm_later
    then tool.description
      ++ (codes
            " Esta ação exige confirmação do usuário em um turno posterior. Se receber confirmation_required, peça "
          ++ (profile.confirmation_phrase
              ++ codes ", depois chame novamente com os mesmos argumentos."))
    else tool.description

abbrev pub bind_tool : Session → Text → Tool → Text → Profile → Session
bind_tool s name tool schema profile = record s {
  tools =
      insert name
        (record {
          tool = tool;
          schema = schema;
          policy = profile.policy;
          original = original_of tool;
          profile = profile;
        })
        s.tools;
  specs =
      s.specs
      ++ record { name = name; description = describe tool profile; parameters = tool.input_schema }
        ∷ [];
}

-- The body of the loop for a tool that is permitted.
unfoldable pub add_tool : Host → Map Profile → Tool → Session → Fallible Session
unfolding eq_policy
add_tool h profiles tool s =
    let name = model_name tool.name in
    if not (model_tool_name name) || ltb 64 (len name) || ltb 4096 (len tool.description)
    then err (codes "unsupported tool metadata")
    else if is_some (lookup name s.tools)
    then err (codes "tool name mapping collision")
    else elim (compile h.json tool.input_schema) [
      | err _ ↦ err (codes "invalid MCP tool schema")
      | ok schema ↦ elim (lookup (original_of tool) profiles) [
        | none ↦ err (codes "missing trusted tool profile")
        | some profile ↦
            if not (is_unnamed tool.host_policy) && not (eq_policy tool.host_policy profile.policy)
            then err (codes "tool policy differs from host profile")
            else ok (bind_tool s name tool schema profile)
      ]
    ]

unfoldable pub add_tools : Host → List Text → Map Profile → List Tool → Session → Fallible Session
add_tools h allowed profiles [] s = ok s
add_tools h allowed profiles (tool ∷ rest) s =
    (if permitted allowed tool.name then add_tool h profiles tool s else ok s)
    >>= add_tools h allowed profiles rest

abbrev pub initial : Text → Session
initial namespace = record {
  intent_turn = [];
  intent_text = [];
  tools = [];
  specs = [];
  namespace = namespace;
  pending = none;
  seen = [];
  cache = [];
  calls = 0;
  attempted = [];
}

unfoldable pub some_specs : Session → Fallible Session
some_specs s = if is_nil s.specs then err (codes "no allowed MCP tools discovered") else ok s

-- `discovered` is what the backend's Tools returned.
unfoldable pub new : Host → Fallible (List Tool) → List Text → Text → Map Profile → Fallible Session
unfolding add_tools some_specs
new h discovered allowed namespace profiles = do
  tools ← discovered
  s ← add_tools h allowed profiles tools (initial namespace)
  some_specs s
