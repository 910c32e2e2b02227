-- ===== src/Router/Routed.antt =====
-- apps/personal-assistant-agent/internal/adapters/mcpclient/router.go: every tool has its route.
use nova2sonici_osapp.Common.{
  ◌≤◌, ◌≡◌, refl, inl, inr, Bool, true, none, some, List, [], ◌∷◌, ◌++◌, length, any, All,
  All-append, arith, Bool-cases, Option-cases,
}
use mathlib.Core.List.{Mem, mem-cons_self, mem-cons_of_mem}
use nova2sonici_osapp.Common.Int.{ℤ}
use nova2sonici_osapp.Common.Assoc.{Map, lookup, insert, lookup-insert, lookup-insert_self}
use nova2sonici_osapp.Common.Fallible.{ok, Fallible-cases}
use nova2sonici_osapp.Common.Text.{Text, codes, eq_text, eq_text_iff}
use nova2sonici_osapp.Mcp.Types.{Tool}
use nova2sonici_osapp.Router.Servers.{
  ServerConfig, Host, Route, Router, Started, policy_for, routed_tool, add_route, add_discovered,
  add_servers, discovered, client_of, start_servers,
}

-- The tool `u` is a tool `t` that the server `s` named and allows, under the name of the server
-- before its own and the policy of the configuration, and the route under the new name leads to the
-- client of that very server and the name that the server knows.
pub record IsRouted (servers : List (ServerConfig × Started)) (routes : Map Route) (u : Tool)
    : Type 0 where
  pub s : ServerConfig
  pub started : Started
  pub t : Tool
  pub configured : Mem (s, started) servers
  pub named : Mem t (discovered s started)
  pub allowed : any (eq_text t.name) s.allowed_tools ≡ true
  pub name : u.name ≡ s.alias ++ codes "." ++ t.name
  pub server : u.server ≡ s.alias
  pub original_name : u.original_name ≡ t.name
  pub host_policy : u.host_policy ≡ policy_for s t.name
  pub route : lookup u.name routes ≡ some (record { client = client_of started; original = t.name })

abbrev AllRouted : List (ServerConfig × Started) → Router → Type 0
AllRouted servers r = All (IsRouted servers r.routes) r.tools

-- A new route leaves the routes of the tools that have one.
insert-IsRouted :
    (servers : List (ServerConfig × Started)) (k : Text) (q : Route) (routes : Map Route) (u : Tool)
    → lookup k routes ≡ none
    → IsRouted servers routes u
    → IsRouted servers (insert k q routes) u
insert-IsRouted servers k q routes u fresh i = record {
  s = i.s;
  started = i.started;
  t = i.t;
  configured = i.configured;
  named = i.named;
  allowed = i.allowed;
  name = i.name;
  server = i.server;
  original_name = i.original_name;
  host_policy = i.host_policy;
  route = kept;
}
  where
    kept :
        lookup u.name (insert k q routes)
        ≡ some (record { client = client_of i.started; original = i.t.name })
    kept = elim (Bool-cases (eq_text k u.name)) [
      | inl same ↦
          let key : k ≡ u.name = (eq_text_iff k u.name).0 same in
          absurd (ground (arith, i.route, fresh, key))
      | inr other ↦ rw (lookup-insert k u.name q routes, other) i.route
    ]

insert-AllRouted :
    (servers : List (ServerConfig × Started)) (k : Text) (q : Route) (routes : Map Route)
    (tools : List Tool)
    → lookup k routes ≡ none
    → All (IsRouted servers routes) tools
    → All (IsRouted servers (insert k q routes)) tools
insert-AllRouted servers k q routes [] fresh done = tt
insert-AllRouted servers k q routes (u ∷ tools) fresh done = (
  insert-IsRouted servers k q routes u fresh done.0,
  insert-AllRouted servers k q routes tools fresh done.1,
)

-- A server of the configuration, with what came of its start.
module _ (servers : List (ServerConfig × Started)) (s : ServerConfig) (started : Started)
    (configured : Mem (s, started) servers) where
  add_route-AllRouted :
      (t : Tool) (r r' : Router)
      → Mem t (discovered s started)
      → any (eq_text t.name) s.allowed_tools ≡ true
      → AllRouted servers r
      → add_route s (client_of started) t r ≡ ok r'
      → AllRouted servers r'
  unfolding add_route routed_tool
  add_route-AllRouted t r r' named allowed done added =
      let u = routed_tool s t in
      let q : Route = record { client = client_of started; original = t.name } in
      elim (Option-cases (lookup u.name r.routes)) [
        | inr (q', used) ↦ absurd (ground arith)
        | inl fresh ↦
            let tools : r'.tools ≡ r.tools ++ u ∷ [] = ground arith in
            let routes : r'.routes ≡ insert u.name q r.routes = ground arith in
            rw (tools, routes)
              (All-append (IsRouted servers (insert u.name q r.routes)) r.tools (u ∷ [])
                (insert-AllRouted servers u.name q r.routes r.tools fresh done)
                (
                  record {
                    s = s;
                    started = started;
                    t = t;
                    configured = configured;
                    named = named;
                    allowed = allowed;
                    name = refl;
                    server = refl;
                    original_name = refl;
                    host_policy = refl;
                    route = lookup-insert_self u.name q r.routes;
                  },
                  tt,
                ))
      ]

  add_discovered-AllRouted :
      (tools : List Tool) (seen : Map Bool) (r r' : Router)
      → ((u : Tool) → Mem u tools → Mem u (discovered s started))
      → AllRouted servers r
      → add_discovered s (client_of started) tools seen r ≡ ok r'
      → AllRouted servers r'
  unfolding add_discovered
  add_discovered-AllRouted [] seen r r' named done added =
      let same : r' ≡ r = ground arith in rw same done
  add_discovered-AllRouted (t ∷ tools) seen r r' named done added =
      elim (Bool-cases (any (eq_text t.name) s.allowed_tools)) [
        | inr other ↦
            add_discovered-AllRouted tools seen r r' (λ u m. named u (mem-cons_of_mem t m)) done
              (ground arith)
        | inl allowed ↦ elim (Fallible-cases (add_route s (client_of started) t r)) [
          | inl (e, bad) ↦ absurd (ground arith)
          | inr (r₁, good) ↦
              add_discovered-AllRouted tools (insert t.name true seen) r₁ r'
                (λ u m. named u (mem-cons_of_mem t m))
                (add_route-AllRouted t r r₁ (named t mem-cons_self) allowed done good)
                (ground arith)
        ]
      ]

add_servers-AllRouted :
    (all rest : List (ServerConfig × Started)) (r r' : Router)
    → ((p : ServerConfig × Started) → Mem p rest → Mem p all)
    → AllRouted all r
    → add_servers rest r ≡ ok r'
    → AllRouted all r'
unfolding add_servers
add_servers-AllRouted all [] r r' from done added = let same : r' ≡ r = ground arith in rw same done
add_servers-AllRouted all ((s, started) ∷ rest) r r' from done added =
    elim (Fallible-cases (add_discovered s (client_of started) (discovered s started) [] r)) [
      | inl (e, bad) ↦ absurd (ground arith)
      | inr (r₁, good) ↦
          add_servers-AllRouted all rest r₁ r' (λ p m. from p (mem-cons_of_mem (s, started) m))
            (add_discovered-AllRouted all s started (from (s, started) mem-cons_self)
              (discovered s started) [] r r₁ (λ _ m. m) done good)
            (ground arith)
    ]

-- A router that starts has at most 32 tools. Each is a tool that a configured server named (or that
-- stands for one while the server is not there) and that its configuration allows, under the alias and
-- the policy of that server, and the route under its name leads to the client of that very server and
-- to the tool's original name.
pub start_servers-IsRouted :
    (h : Host) (servers : List (ServerConfig × Started)) (timeout : ℤ) (r : Router)
    → start_servers h servers timeout ≡ ok r
    → All (IsRouted servers r.routes) r.tools × (length r.tools ≤ 32)
unfolding start_servers
start_servers-IsRouted h servers timeout r started =
    elim (Fallible-cases (add_servers servers (record { tools = []; routes = [] }))) [
      | inl (e, bad) ↦ absurd (ground arith)
      | inr (r₁, good) ↦
          let same : r ≡ r₁ = ground arith in
          (rw same (add_servers-AllRouted servers servers _ r₁ (λ _ m. m) tt good), ground arith)
    ]
