-- ===== src/Router/Servers.antt =====
-- apps/personal-assistant-agent/internal/adapters/mcpclient/router.go. Starting a process and asking
-- it for its tools is outside: a server's `Started` is what came of it.
use nova2sonici_osapp.Common.{
  ℕ, Bool, true, false, not, ◌&&◌, ◌||◌, Option, none, some, List, [], ◌∷◌, ◌++◌, length, all, any,
  is_nil, is_some, ltb, leb, ◌==◌, if◌then◌else◌,
}
use nova2sonici_osapp.Common.Int.{ℤ, positive}
use nova2sonici_osapp.Common.Assoc.{Map, lookup, insert, has}
use nova2sonici_osapp.Common.Fallible.{Fallible, ok, err, ◌>>=◌, ◌>>◌, reject_if}
use nova2sonici_osapp.Common.Text.{Text, codes, eq_text, is_empty, has_prefix}
use nova2sonici_osapp.Mcp.Types.{
  Policy, read_only, explicit_intent, confirm_later, unnamed, eq_policy, Tool,
}
use nova2sonici_osapp.Mcp.Envelope.{is_alias}

pub record ServerConfig : Type 0 where
  pub cwd : Text
  pub env : Map Text
  pub alias : Text
  pub command : Text
  pub allowed_tools : List Text
  pub policies : Map Policy

-- os.LookupEnv, and the check of a policy against the trusted integration profiles.
pub record Host : Type 0 where
  pub has_env : Text → Bool
  pub policy_trusted : Text → Policy → Bool

abbrev is_letter : ℕ → Bool
is_letter c = (leb b'A' c && leb c b'Z') || (leb b'a' c && leb c b'z') || c == b'_'

-- `^[A-Za-z_][A-Za-z0-9_]*$`
unfoldable pub is_env_name : Text → Bool
is_env_name [] = false
is_env_name (c ∷ s) = is_letter c && all (λ d. is_letter d || (leb b'0' d && leb d b'9')) s

-- filepath.IsAbs on Unix.
unfoldable pub is_absolute : Text → Bool
unfolding has_prefix
is_absolute p = has_prefix p (codes "/")

-- A missing policy is Go's "".
unfoldable pub policy_for : ServerConfig → Text → Policy
policy_for s n = elim (lookup n s.policies) [ none ↦ unnamed [] | some p ↦ p ]

unfoldable pub check_env : Host → Map Text → Fallible (Unit {0})
unfolding is_env_name
check_env h [] = ok tt
check_env h ((target, source) ∷ env) = do
  reject_if (not (is_env_name target) || not (is_env_name source))
      (codes "invalid MCP environment reference")
  reject_if (not (h.has_env source)) (codes "missing MCP environment reference")
  check_env h env

abbrev is_policy : Policy → Bool
is_policy p = eq_policy p read_only || eq_policy p explicit_intent || eq_policy p confirm_later

-- The tools that were seen come back.
unfoldable pub check_allowed : Host → ServerConfig → List Text → Map Bool → Fallible (Map Bool)
unfolding policy_for
check_allowed h s [] seen = ok seen
check_allowed h s (n ∷ names) seen = do
  reject_if (is_empty n || has n seen || not (is_policy (policy_for s n)))
      (codes "each allowed tool requires an explicit host policy")
  reject_if (not (h.policy_trusted n (policy_for s n))) (codes "untrusted host policy")
  check_allowed h s names (insert n true seen)

unfoldable pub check_server : Host → ServerConfig → Map Bool → Fallible (Map Bool)
unfolding is_absolute check_env check_allowed
check_server h s aliases = do
  reject_if
      (not (is_alias s.alias)
        || has s.alias aliases
        || not (is_absolute s.command)
        || is_nil s.allowed_tools)
      (codes "invalid MCP server configuration")
  reject_if (not (is_empty s.cwd) && not (is_absolute s.cwd)) (codes "MCP cwd must be absolute")
  check_env h s.env
  seen ← check_allowed h s s.allowed_tools []
  reject_if (not (all (λ p. has p.0 seen) s.policies)) (codes "policy outside allowlist")
  ok (insert s.alias true aliases)

unfoldable pub check_servers : Host → List ServerConfig → Map Bool → Fallible (Unit {0})
unfolding check_server
check_servers h [] aliases = ok tt
check_servers h (s ∷ servers) aliases = do
  aliases' ← check_server h s aliases
  check_servers h servers aliases'

unfoldable pub validate_servers : Host → List ServerConfig → Fallible (Unit {0})
unfolding check_servers
validate_servers h servers = do
  reject_if (ltb 8 (length servers)) (codes "at most eight MCP servers")
  check_servers h servers []

-- `client` is none where the server's process is not there.
pub record Route : Type 0 where
  pub client : Option ℕ
  pub original : Text

pub record Router : Type 0 where
  pub tools : List Tool
  pub routes : Map Route

-- A server that runs, with the tools that it names; none where starting it or asking it failed.
abbrev pub Started : Type 0
Started = Option (ℕ × List Tool)

unfoldable pub placeholder : Text → Tool
placeholder n = record {
  server = [];
  original_name = [];
  host_policy = unnamed [];
  name = n;
  description = codes "Servidor indisponível. Não invente resultados; informe o erro. ";
  input_schema = codes "{\"type\":\"object\",\"additionalProperties\":true}";
}

unfoldable pub placeholders : List Text → List Tool
unfolding placeholder
placeholders [] = []
placeholders (n ∷ names) = placeholder n ∷ placeholders names

unfoldable pub discovered : ServerConfig → Started → List Tool
unfolding placeholders
discovered s none = placeholders s.allowed_tools
discovered s (some (client, tools)) = tools

abbrev pub client_of : Started → Option ℕ
client_of none = none
client_of (some (client, tools)) = some client

-- The tool as the assistant sees it.
unfoldable pub routed_tool : ServerConfig → Tool → Tool
unfolding policy_for
routed_tool s t = record t {
  name = s.alias ++ codes "." ++ t.name;
  server = s.alias;
  original_name = t.name;
  host_policy = policy_for s t.name;
}

unfoldable pub add_route : ServerConfig → Option ℕ → Tool → Router → Fallible Router
unfolding routed_tool
add_route s client t r =
    let u = routed_tool s t in
    if is_some (lookup u.name r.routes)
    then err (codes "duplicate route")
    else ok (record {
      tools = r.tools ++ u ∷ [];
      routes = insert u.name (record { client = client; original = t.name }) r.routes;
    })

unfoldable pub add_discovered :
    ServerConfig → Option ℕ → List Tool → Map Bool → Router → Fallible Router
unfolding add_route
add_discovered s client [] seen r = ok r
add_discovered s client (t ∷ tools) seen r =
    if not (any (eq_text t.name) s.allowed_tools)
    then add_discovered s client tools seen r
    else if has t.name seen
    then err (codes "duplicate MCP tool")
    else (add_route s client t r >>= add_discovered s client tools (insert t.name true seen))

unfoldable pub add_servers : List (ServerConfig × Started) → Router → Fallible Router
unfolding discovered add_discovered
add_servers [] r = ok r
add_servers ((s, started) ∷ servers) r = do
  r' ← add_discovered s (client_of started) (discovered s started) [] r
  add_servers servers r'

abbrev configs : List (ServerConfig × Started) → List ServerConfig
configs [] = []
configs ((s, started) ∷ servers) = s ∷ configs servers

unfoldable pub start_servers : Host → List (ServerConfig × Started) → ℤ → Fallible Router
unfolding validate_servers add_servers
start_servers h servers timeout = do
  validate_servers h (configs servers)
  reject_if (not (positive timeout)) (codes "MCP timeout must be positive")
  r ← add_servers servers (record { tools = []; routes = [] })
  reject_if (ltb 32 (length r.tools)) (codes "union exceeds 32 tools")
  ok r

-- The client that is asked, and for which of its tools.
unfoldable pub call : Router → Text → Fallible (ℕ × Text)
call r name = elim (lookup name r.routes) [
  | none ↦ err (codes "MCP unavailable")
  | some b ↦ elim b.client [
    | none ↦ err (codes "MCP unavailable")
    | some client ↦ ok (client, b.original)
  ]
]
