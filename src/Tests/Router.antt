-- ===== src/Tests/Router.antt =====
-- A concrete set of MCP servers for apps/personal-assistant-agent.
use nova2sonici_osapp.Common.{◌≤◌, ◌≡◌, refl, true, none, some, List, [], ◌∷◌, length, All}
use nova2sonici_osapp.Common.Int.{pos}
use nova2sonici_osapp.Common.Assoc.{lookup, insert, has}
use nova2sonici_osapp.Common.Fallible.{ok}
use nova2sonici_osapp.Common.Text.{codes, eq_text, has_prefix}
use nova2sonici_osapp.Mcp.Types.{read_only, eq_policy}
use nova2sonici_osapp.Mcp.Envelope.{is_alias}
use nova2sonici_osapp.Router.Servers.{
  ServerConfig, Host, Started, Router, is_env_name, is_absolute, policy_for, check_env,
  check_allowed, check_server, check_servers, validate_servers, placeholder, placeholders,
  discovered, routed_tool, add_route, add_discovered, add_servers, start_servers, call,
}
use nova2sonici_osapp.Router.Routed.{IsRouted, start_servers-IsRouted}
use nova2sonici_osapp.Tests.Toy.{cancel_tool}

abbrev agenda : ServerConfig
agenda = record {
  cwd = [];
  env = (codes "A", codes "B") ∷ [];
  alias = codes "agenda";
  command = codes "/bin/agenda";
  allowed_tools = codes "agenda.cancel" ∷ [];
  policies = (codes "agenda.cancel", read_only) ∷ [];
}

abbrev notes : ServerConfig
notes = record agenda { alias = codes "notes"; env = [] }

abbrev host : Host
host = record { has_env = λ n. true; policy_trusted = λ n p. true }

-- The agenda runs, the notes do not.
abbrev servers : List (ServerConfig × Started)
servers = (agenda, some (3, cancel_tool ∷ [])) ∷ (notes, none) ∷ []

opened : Unit {0}
unfolding lookup insert has eq_text has_prefix eq_policy is_alias is_env_name is_absolute policy_for
    check_env check_allowed check_server check_servers validate_servers placeholder placeholders
    discovered routed_tool add_route add_discovered add_servers start_servers call
opened = tt

router : Router
unfolding opened
router = elim (start_servers host servers (pos 1)) [
  | ok r ↦ r
  | _ ↦ record { tools = []; routes = [] }
]

start_servers-IsRouted_example :
    All (IsRouted servers router.routes) router.tools × (length router.tools ≤ 32)
unfolding opened router
start_servers-IsRouted_example = start_servers-IsRouted host servers (pos 1) router refl

asks_the_agenda : call router (codes "agenda.agenda.cancel") ≡ ok (3, codes "agenda.cancel")
unfolding opened router
asks_the_agenda = refl
