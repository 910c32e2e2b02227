-- ===== src/AgentWire/Endpoint.antt =====
-- packages/go/agentwire/remote.go: the catalog of agents, and what the two ends of a connection
-- prove to each other. net/url, net.ParseIP, HMAC and encoding/hex are the functions of `Host`.
use nova2sonici_osapp.Common.{
  ℕ, Bool, true, false, not, ◌&&◌, ◌||◌, Option, none, some, List, [], ◌∷◌, ◌++◌, length, is_some,
  ltb, ◌==◌, if◌then◌else◌,
}
use nova2sonici_osapp.Common.Assoc.{Map, lookup, insert}
use nova2sonici_osapp.Common.Fallible.{Fallible, ok, err, ◌>>=◌, ◌>>◌, reject_if}
use nova2sonici_osapp.Common.Text.{Text, codes, eq_text, is_empty}
use nova2sonici_osapp.AgentWire.Types.{Protocol, v1, v2, other_protocol}
use nova2sonici_osapp.AgentWire.Protocol.{identifier}

-- What url.Parse says of a URL.
pub record Url : Type 0 where
  pub has_user : Bool
  pub raw_query : Text
  pub fragment : Text
  pub host : Text
  pub hostname : Text
  pub scheme : Text

pub record Host : Type 0 where
  pub parse_url : Text → Option Url
  pub is_loopback : Text → Bool
  pub hmac_sha256 : Text → Text → List ℕ
  pub hex_encode : List ℕ → Text
  pub hex_decode : Text → Option (List ℕ)

-- The protocol's name on the wire.
abbrev pub protocol_name : Protocol → Text
protocol_name v1 = codes "agent-session/v1"
protocol_name v2 = codes "agent-session/v2"
protocol_name (other_protocol s) = s

unfoldable pub proof : Host → Protocol → Text → Text → Text → Text
proof h p token agent_id nonce =
    h.hex_encode (h.hmac_sha256 token (protocol_name p ++ 0 ∷ agent_id ++ 0 ∷ nonce))

unfoldable pub credential : Host → Protocol → Text → Text → Text
credential h p token agent_id =
    h.hex_encode
      (h.hmac_sha256 token (protocol_name p ++ 0 ∷ codes "client-bearer" ++ 0 ∷ agent_id))

pub record Endpoint : Type 0 where
  pub protocol : Protocol
  pub agent_id : Text
  pub url : Text
  pub token : Text

abbrev pub is_ws : Text → Bool
is_ws scheme = eq_text scheme (codes "ws")

abbrev pub bad_url : Url → Bool
bad_url u =
    u.has_user
    || not (is_empty u.raw_query)
    || not (is_empty u.fragment)
    || is_empty u.host
    || not (is_ws u.scheme) && not (eq_text u.scheme (codes "wss"))

unfoldable pub validate_endpoint : Host → Endpoint → Fallible (Unit {0})
validate_endpoint h e = do
  reject_if (not (identifier e.agent_id) || is_empty e.token)
      (codes "agent endpoint requires trusted identity and token")
  u ← elim (h.parse_url e.url) [ none ↦ err (codes "invalid agent endpoint URL") | some u ↦ ok u ]
  reject_if (bad_url u) (codes "invalid agent endpoint URL")
  reject_if
      (is_ws u.scheme
        && not (eq_text u.hostname (codes "localhost"))
        && not (h.is_loopback u.hostname))
      (codes "unencrypted Agent Session endpoint must be loopback")

-- A missing protocol is the first.
abbrev pub default_protocol : Protocol → Protocol
default_protocol v1 = v1
default_protocol v2 = v2
default_protocol (other_protocol s) = if is_empty s then v1 else other_protocol s

abbrev pub is_known : Protocol → Bool
is_known v1 = true
is_known v2 = true
is_known (other_protocol s) = false

unfoldable pub add_endpoint : Host → Endpoint → Map Endpoint → Fallible (Map Endpoint)
unfolding validate_endpoint
add_endpoint h e₀ m = do
  let e = record e₀ { protocol = default_protocol e₀.protocol }
  reject_if (not (is_known e.protocol)) (codes "unsupported agent protocol")
  validate_endpoint h e
  reject_if (is_some (lookup e.agent_id m)) (codes "duplicate agent identity")
  ok (insert e.agent_id e m)

unfoldable pub add_endpoints : Host → List Endpoint → Map Endpoint → Fallible (Map Endpoint)
unfolding add_endpoint
add_endpoints h [] m = ok m
add_endpoints h (e ∷ es) m = do m' ← add_endpoint h e m; add_endpoints h es m'

-- The factory is its map of endpoints.
unfoldable pub new_remote_factory : Host → List Endpoint → Fallible (Map Endpoint)
unfolding add_endpoints
new_remote_factory h es = do
  reject_if (length es == 0 || ltb 16 (length es))
      (codes "agent catalog requires one to sixteen endpoints")
  add_endpoints h es []
