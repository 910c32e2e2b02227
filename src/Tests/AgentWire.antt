-- ===== src/Tests/AgentWire.antt =====
-- packages/go/agentwire/remote.go: an agent's session that is opened, served and read.
use nova2sonici_osapp.Common.{
  ◌≡◌, refl, inl, inr, Bool-cases, Bool, true, false, ◌&&◌, none, some, [], ◌∷◌, ◌++◌, arith,
  is_some, not, ◌==◌, if◌then◌else◌,
}
use nova2sonici_osapp.Common.Int.{ℤ, pos}
use nova2sonici_osapp.Common.Fallible.{ok, err}
use nova2sonici_osapp.Common.Assoc.{Map, lookup, insert}
use nova2sonici_osapp.Common.Text.{Text, codes, eq_text, is_empty}
use nova2sonici_osapp.AgentWire.Types.{
  v2, Principal, Start, Message, Event, EventType, agent_session_state,
}
use nova2sonici_osapp.AgentWire.Protocol.{
  Decoder, is_identifier_code, identifier, validate_principal, decode_protocol, validate_open,
  validate_accepted, validate_event, check_event,
}
use nova2sonici_osapp.AgentWire.Endpoint.{
  Host, Url, Endpoint, proof, credential, validate_endpoint, add_endpoint, add_endpoints,
  new_remote_factory,
}
use nova2sonici_osapp.AgentWire.Handshake.{
  open_request, connected, RemoteSession, ServerConfig, upgrades, open_message, accepts_reply,
  finish_open, open_connection, open_remote, session_path, admit, read_open, accepted_message,
}
use nova2sonici_osapp.AgentWire.Trust.{
  IsTrusted, Opened, new_remote_factory-IsTrusted, open_remote-Opened,
}
use nova2sonici_osapp.AgentWire.Meeting.{Agrees, handshake}
use nova2sonici_osapp.AgentWire.Link.{read_event, serve, event_message}
use nova2sonici_osapp.AgentWire.Link.Carried.{read_back}
use nova2sonici_osapp.AgentWire.Link.Order.{
  System, Reach, writes, reads, takes, here, next, begin, IsSound, IsOrdered, Reach-IsOrdered,
}

-- The host's parser gives the same parts for each URL, and the hash keeps the key and the text.
abbrev pub toy_host : Host
toy_host = record {
  parse_url = λ t. some (record {
    has_user = false;
    raw_query = [];
    fragment = [];
    host = codes "localhost:1";
    hostname = codes "localhost";
    scheme = codes "ws";
  });
  is_loopback = λ t. true;
  hmac_sha256 = λ key t. key ++ t;
  hex_encode = λ bytes. bytes;
  hex_decode = λ t. some t;
}

abbrev pub agent : Endpoint
agent = record {
  protocol = v2;
  agent_id = codes "a";
  url = codes "ws://localhost:1/v2/session";
  token = codes "k";
}

abbrev pub catalog : Map Endpoint
catalog = (codes "a", agent) ∷ []

abbrev pub anyone : Principal
anyone = record {
  subject = codes "p";
  client_code = [];
  session_ref = [];
  device_id = [];
  authenticated = false;
}

abbrev pub wanted : Start
wanted = record {
  protocol = [];
  session_id = codes "s1";
  request_id = [];
  agent_id = codes "a";
  provider = codes "fake";
  principal = anyone;
}

abbrev server : ServerConfig
server = record {
  protocol = v2;
  agent_id = codes "a";
  token = codes "k";
  read_timeout = pos 1;
  write_timeout = pos 1;
  idle_timeout = pos 1;
  max_sessions = pos 2;
}

-- "o" is the gateway's first message, "r" the agent's reply.
abbrev pub toy_decoder : Decoder
toy_decoder = record {
  message = λ t.
      if eq_text t (codes "o")
      then some (open_message v2 wanted)
      else some (accepted_message server);
  at_end = λ t. true;
  valid = λ t. true;
}

abbrev pub nonce : Text
nonce = codes "0123456789abcdef0123456789abcdef"

abbrev pub proved : Text
proved = proof toy_host v2 (codes "k") (codes "a") nonce

abbrev pub remote : RemoteSession
remote = record { protocol = v2; session_id = codes "s1" }

opened : Unit {0}
unfolding is_identifier_code identifier validate_principal decode_protocol validate_open
    validate_accepted validate_event check_event proof credential validate_endpoint add_endpoint
    add_endpoints new_remote_factory open_request open_message accepts_reply finish_open
    open_connection open_remote session_path admit read_open accepted_message read_event serve
    lookup insert eq_text
opened = tt

made : new_remote_factory toy_host (agent ∷ []) ≡ ok catalog
unfolding opened
made = refl

listed : lookup (codes "a") catalog ≡ some agent
unfolding opened
listed = refl

new_remote_factory-IsTrusted_example : (u : Url) × IsTrusted toy_host (codes "a") agent u
new_remote_factory-IsTrusted_example =
    new_remote_factory-IsTrusted toy_host (agent ∷ []) catalog (codes "a") agent made listed

pub opens_remote :
    open_remote toy_host toy_decoder catalog nonce wanted
      (connected proved true (some (some (codes "r"))))
    ≡ ok remote
unfolding opened
opens_remote = refl

open_remote-Opened_example :
    (e : Endpoint) × (reply : Text) × Opened toy_host toy_decoder catalog nonce wanted remote e
      reply
    × (connected proved true (some (some (codes "r")))
        ≡ connected (proof toy_host e.protocol e.token e.agent_id nonce) true (some (some reply)))
open_remote-Opened_example =
    open_remote-Opened toy_host toy_decoder catalog nonce wanted
      (connected proved true (some (some (codes "r")))) remote opens_remote

-- An impostor, which does not know the token, is told apart.
impostor :
    open_remote toy_host toy_decoder catalog nonce wanted
      (connected (proof toy_host v2 (codes "x") (codes "a") nonce) true (some (some (codes "r"))))
    ≡ err (codes "agent endpoint identity mismatch")
unfolding opened
impostor = refl

agreed : Agrees agent server
agreed = record { protocol = refl; agent = refl; token = refl }

opening_valid : validate_open (open_message v2 wanted) ≡ ok tt
unfolding opened
opening_valid = refl

opening_carried : decode_protocol toy_decoder (codes "o") v2 ≡ ok (open_message v2 wanted)
unfolding opened
opening_carried = refl

reply_carried : decode_protocol toy_decoder (codes "r") v2 ≡ ok (accepted_message server)
unfolding opened
reply_carried = refl

handshake_example :
    (admit toy_host server 1 (open_request toy_host agent (session_path v2) nonce)
      ≡ upgrades proved)
    × (read_open toy_decoder server (some (some (codes "o")))
        ≡ ok (record wanted { protocol = codes "agent-session/v2" }))
    × (open_remote toy_host toy_decoder catalog nonce wanted
          (connected proved true (some (some (codes "r"))))
        ≡ ok (record { protocol = v2; session_id = codes "s1" }))
handshake_example =
    handshake toy_host toy_decoder agent server agreed catalog 1 (session_path v2) nonce (codes "o")
      (codes "r") wanted listed refl refl refl refl refl opening_valid opening_carried reply_carried

-- The server writes the state of a state event, and nothing of another one.
abbrev pub state_event : Text → Event
state_event state = record {
  ui = [];
  kind = agent_session_state;
  turn_id = [];
  sequence = 0;
  provider = [];
  state = state;
  audio = [];
  sample_rate = pos 0;
  text = [];
  role = [];
  stage = [];
  code = [];
  message = [];
  metrics = none;
  tool = none;
}

abbrev is_state : EventType → Bool
is_state agent_session_state = true
is_state _ = false

abbrev is_zero : ℤ → Bool
is_zero (pos n) = n == 0
is_zero _ = false

abbrev is_plain : Event → Bool
is_plain e =
    is_empty e.ui
    && is_state e.kind
    && is_empty e.turn_id
    && e.sequence == 0
    && is_empty e.provider
    && is_empty e.audio
    && is_zero e.sample_rate
    && is_empty e.text
    && is_empty e.role
    && is_empty e.stage
    && is_empty e.code
    && is_empty e.message
    && not (is_some e.metrics)
    && not (is_some e.tool)

is_state-same : (k : EventType) → is_state k ≡ true → k ≡ agent_session_state
is_state-same agent_session_state h = refl
is_state-same _ h = cc

is_zero-same : (n : ℤ) → is_zero n ≡ true → n ≡ pos 0
is_zero-same (pos n) h = ground arith
is_zero-same _ h = cc

is_plain-same : (e : Event) → is_plain e ≡ true → e ≡ state_event e.state
is_plain-same e h =
    let ui : e.ui ≡ [] = ground arith in
    let kind : e.kind ≡ agent_session_state = is_state-same e.kind (ground arith) in
    let turn_id : e.turn_id ≡ [] = ground arith in
    let sequence : e.sequence ≡ 0 = ground arith in
    let provider : e.provider ≡ [] = ground arith in
    let audio : e.audio ≡ [] = ground arith in
    let sample_rate : e.sample_rate ≡ pos 0 = is_zero-same e.sample_rate (ground arith) in
    let text : e.text ≡ [] = ground arith in
    let role : e.role ≡ [] = ground arith in
    let stage : e.stage ≡ [] = ground arith in
    let code : e.code ≡ [] = ground arith in
    let message : e.message ≡ [] = ground arith in
    let metrics : e.metrics ≡ none = ground arith in let tool : e.tool ≡ none = ground arith in cc

abbrev write : Event → Text
write e = if is_plain e then e.state else []

abbrev pub states : Decoder
states = record {
  message = λ t. some (event_message v2 (state_event t));
  at_end = λ t. true;
  valid = λ t. true;
}

-- The raw JSON loses its blanks.
abbrev without_blanks : Text → Text
without_blanks [] = []
without_blanks (c ∷ t) = let rest = without_blanks t in if c == b' ' then rest else c ∷ rest

carries :
    (e : Event) (m : Message)
    → IsSound states v2 write e
    → decode_protocol states (write e) v2 ≡ ok m
    → m ≡ event_message v2 (read_back without_blanks e)
unfolding opened
carries e m sound h = elim (Bool-cases (is_plain e)) [
  | inl plain ↦ let same = is_plain-same e plain in ground arith
  | inr other ↦ absurd (ground arith)
]

-- The server writes a state, and the gateway reads and takes it.
abbrev before : System
before = record (begin states v2 write) {
  emitted = state_event (codes "idle") ∷ [];
  wire = codes "idle" ∷ [];
}

abbrev after : System
after = record before { wire = []; queue = []; taken = state_event (codes "idle") ∷ [] }

reached : Reach states v2 write after
unfolding opened
reached =
    next
      (next (next here (writes (state_event (codes "idle")) refl refl refl))
        (reads (codes "idle") [] (state_event (codes "idle")) refl refl (omega arith) refl))
      (takes (state_event (codes "idle")) [] refl)

Reach-IsOrdered_example : IsOrdered states v2 write without_blanks after
Reach-IsOrdered_example = Reach-IsOrdered states v2 write without_blanks carries reached
