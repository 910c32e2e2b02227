-- ===== src/AgentWire/Trust.antt =====
-- packages/go/agentwire/remote.go: what a catalog, an open session and an admitted request vouch for.
use nova2sonici_osapp.Common.{
  ◌≡◌, refl, inl, inr, Bool, true, false, not, ◌&&◌, none, some, List, [], ◌∷◌, arith, Bool-cases,
  Option-cases,
}
use nova2sonici_osapp.Common.Assoc.{Map, lookup, insert, lookup-insert}
use nova2sonici_osapp.Common.Fallible.{ok, Fallible-cases}
use nova2sonici_osapp.Common.Text.{Text, codes, eq_text, eq_text_iff, is_empty}
use nova2sonici_osapp.AgentWire.Types.{Start}
use nova2sonici_osapp.AgentWire.Protocol.{Decoder, identifier}
use nova2sonici_osapp.AgentWire.Endpoint.{
  Host, Url, Endpoint, is_ws, bad_url, proof, default_protocol, is_known, validate_endpoint,
  add_endpoint, add_endpoints, new_remote_factory,
}
use nova2sonici_osapp.AgentWire.Handshake.{
  Dialled, unreachable, refused, connected, RemoteSession, accepts_reply, finish_open,
  open_connection, open_remote,
}

-- An endpoint that the catalog may hold under a name: it has an identity, a token and a plain
-- WebSocket URL, which is encrypted unless it leads to this machine.
pub record IsTrusted (h : Host) (k : Text) (e : Endpoint) (u : Url) : Type 0 where
  pub named : e.agent_id ≡ k
  pub known : is_known e.protocol ≡ true
  pub identity : identifier e.agent_id ≡ true
  pub secret : is_empty e.token ≡ false
  pub parsed : h.parse_url e.url ≡ some u
  pub plain : bad_url u ≡ false
  pub private :
      (is_ws u.scheme
        && not (eq_text u.hostname (codes "localhost"))
        && not (h.is_loopback u.hostname))
      ≡ false

validate_endpoint-IsTrusted :
    (h : Host) (e : Endpoint)
    → is_known e.protocol ≡ true
    → validate_endpoint h e ≡ ok tt
    → (u : Url) × IsTrusted h e.agent_id e u
unfolding validate_endpoint
validate_endpoint-IsTrusted h e known checked = elim (Option-cases (h.parse_url e.url)) [
  | inl bad ↦ absurd (ground arith)
  | inr (u, parsed) ↦ (
    u,
    record {
      named = refl;
      known = known;
      identity = ground arith;
      secret = ground arith;
      parsed = parsed;
      plain = ground arith;
      private = ground arith;
    },
  )
]

-- Every endpoint of the map is trusted.
abbrev pub AreTrusted : Host → Map Endpoint → Type 0
AreTrusted h m = (k : Text) (e : Endpoint) → lookup k m ≡ some e → (u : Url) × IsTrusted h k e u

add_endpoint-AreTrusted :
    (h : Host) (e₀ : Endpoint) (m m' : Map Endpoint)
    → AreTrusted h m
    → add_endpoint h e₀ m ≡ ok m'
    → AreTrusted h m'
unfolding add_endpoint
add_endpoint-AreTrusted h e₀ m m' trusted added k e found =
    let new = record e₀ { protocol = default_protocol e₀.protocol } in
    elim (Fallible-cases (validate_endpoint h new)) [
      | inl (x, bad) ↦ absurd (ground arith)
      | inr (tt, checked) ↦
          let made : m' ≡ insert new.agent_id new m = ground arith in
          let known : is_known new.protocol ≡ true = ground arith in
          let looked : lookup k (insert new.agent_id new m) ≡ some e = rw (← made) found in
          let read = lookup-insert new.agent_id k new m in
          elim (Bool-cases (eq_text new.agent_id k)) [
            | inl same ↦
                let e_new : e ≡ new = ground arith in
                let name : new.agent_id ≡ k = (eq_text_iff new.agent_id k).0 same in
                rw (e_new, ← name) (validate_endpoint-IsTrusted h new known checked)
            | inr other ↦ trusted k e (ground arith)
          ]
    ]

add_endpoints-AreTrusted :
    (h : Host) (es : List Endpoint) (m m' : Map Endpoint)
    → AreTrusted h m
    → add_endpoints h es m ≡ ok m'
    → AreTrusted h m'
unfolding add_endpoints
add_endpoints-AreTrusted h [] m m' trusted added =
    let same : m' ≡ m = ground arith in rw same trusted
add_endpoints-AreTrusted h (e ∷ es) m m' trusted added =
    elim (Fallible-cases (add_endpoint h e m)) [
      | inl (x, bad) ↦ absurd (ground arith)
      | inr (m₁, good) ↦
          add_endpoints-AreTrusted h es m₁ m' (add_endpoint-AreTrusted h e m m₁ trusted good)
            (ground arith)
    ]

nothing-AreTrusted : (h : Host) → AreTrusted h []
unfolding lookup
nothing-AreTrusted h k e found = cc

-- Each endpoint of a factory that was made stands under its own identity, speaks a protocol that the
-- package knows, and has a token and a plain WebSocket URL that is encrypted or leads to this machine.
pub new_remote_factory-IsTrusted :
    (h : Host) (es : List Endpoint) (m : Map Endpoint) (k : Text) (e : Endpoint)
    → new_remote_factory h es ≡ ok m
    → lookup k m ≡ some e
    → (u : Url) × IsTrusted h k e u
unfolding new_remote_factory
new_remote_factory-IsTrusted h es m k e made found =
    let added : add_endpoints h es [] ≡ ok m = ground arith in
    add_endpoints-AreTrusted h es [] m (nothing-AreTrusted h) added k e found

-- What a gateway knows of a session that it opened: the catalog has the agent, the other end knew the
-- token under this very nonce, and it accepted the session for this agent in the endpoint's protocol.
pub record Opened (h : Host) (d : Decoder) (m : Map Endpoint) (nonce : Text) (start : Start)
    (s : RemoteSession) (e : Endpoint) (reply : Text) : Type 0 where
  pub listed : lookup start.agent_id m ≡ some e
  pub accepted : accepts_reply d e.protocol start.agent_id reply ≡ true
  pub session : s.session_id ≡ start.session_id
  pub protocol : s.protocol ≡ e.protocol

open_reply-Opened :
    (h : Host) (d : Decoder) (m : Map Endpoint) (nonce proved reply : Text) (start : Start)
    (wrote : Bool) (s : RemoteSession)
    → open_remote h d m nonce start (connected proved wrote (some (some reply))) ≡ ok s
    → (e : Endpoint) × Opened h d m nonce start s e reply
      × (proved ≡ proof h e.protocol e.token e.agent_id nonce)
      × (wrote ≡ true)
unfolding open_remote open_connection finish_open
open_reply-Opened h d m nonce proved reply start wrote s done =
    elim (Option-cases (lookup start.agent_id m)) [
      | inl missing ↦ absurd (ground arith)
      | inr (e, listed) ↦ (
        e,
        record {
          listed = listed;
          accepted = ground arith;
          session = ground arith;
          protocol = ground arith;
        },
        ground (arith, eq_text_iff proved (proof h e.protocol e.token e.agent_id nonce)),
        ground arith,
      )
    ]

-- Whatever dialling gives, a session that Open returns is one that the catalog lists, over a
-- connection whose other end answered this nonce with the proof that takes the endpoint's token, and
-- then accepted the session for this agent in the endpoint's protocol.
pub open_remote-Opened :
    (h : Host) (d : Decoder) (m : Map Endpoint) (nonce : Text) (start : Start) (dialled : Dialled)
    (s : RemoteSession)
    → open_remote h d m nonce start dialled ≡ ok s
    → (e : Endpoint) × (reply : Text) × Opened h d m nonce start s e reply
      × (dialled ≡ connected (proof h e.protocol e.token e.agent_id nonce) true (some (some reply)))
unfolding open_remote open_connection finish_open
open_remote-Opened h d m nonce start unreachable s done = absurd (ground arith)
open_remote-Opened h d m nonce start refused s done = absurd (ground arith)
open_remote-Opened h d m nonce start (connected proved wrote none) s done = absurd (ground arith)
open_remote-Opened h d m nonce start (connected proved wrote (some none)) s done =
    absurd (ground arith)
open_remote-Opened h d m nonce start (connected proved wrote (some (some reply))) s done =
    let (e, o, same, wrote) = open_reply-Opened h d m nonce proved reply start wrote s done in
    (e, reply, o, rw (same, wrote) refl)
