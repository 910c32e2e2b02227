-- ===== src/AgentWire/Handshake.antt =====
-- packages/go/agentwire/remote.go: how a gateway opens a session at an agent, RemoteFactory.Open, and
-- how the agent's server admits it, Handler.ServeHTTP. What the network did is an argument.
use nova2sonici_osapp.Common.{
  ℕ, Bool, true, false, not, ◌||◌, Option, none, some, ◌++◌, length, ltb, ◌==◌, if◌then◌else◌,
}
use nova2sonici_osapp.Common.Int.{ℤ, pos, positive}
use nova2sonici_osapp.Common.Assoc.{Map, lookup}
use nova2sonici_osapp.Common.Fallible.{Fallible, ok, err, ◌>>=◌, ◌>>◌, reject_if}
use nova2sonici_osapp.Common.Text.{Text, codes, eq_text, is_empty}
use nova2sonici_osapp.AgentWire.Types.{Protocol, open_session, session_accepted, Start, Message}
use nova2sonici_osapp.AgentWire.Protocol.{
  Decoder, decode_protocol, validate_open, validate_accepted, identifier, is_v2, same_protocol,
}
use nova2sonici_osapp.AgentWire.Endpoint.{
  Host, Endpoint, proof, credential, protocol_name, default_protocol, is_known,
}

-- The headers of the request that opens a connection, with its path.
pub record Request : Type 0 where
  pub path : Text
  pub is_get : Bool
  pub authorization : Text
  pub protocol : Text
  pub nonce : Text

abbrev pub bearer : Text → Text
bearer credential = codes "Bearer " ++ credential

-- The headers that Open sets; the path is that of the endpoint's URL.
unfoldable pub open_request : Host → Endpoint → Text → Text → Request
open_request h e path nonce = record {
  path = path;
  is_get = true;
  authorization = bearer (credential h e.protocol e.token e.agent_id);
  protocol = protocol_name e.protocol;
  nonce = nonce;
}

-- A frame that was read: its data if it is a text frame.
abbrev pub Frame : Type 0
Frame = Option Text

-- What came of dialling: no response, a refusal, or a connection with the proof of the response;
-- then whether the message was written, and the frame that was read, if any was.
pub data Dialled : Type 0 where
  unreachable refused : Dialled
  connected : (proof_header : Text) (wrote : Bool) (reply : Option Frame) → Dialled

pub record RemoteSession : Type 0 where
  pub protocol : Protocol
  pub session_id : Text

unfoldable pub open_message : Protocol → Start → Message
open_message p start = record {
  protocol = p;
  kind = open_session;
  agent_id = start.agent_id;
  start = some start;
  command = none;
  event = none;
}

abbrev pub text_frame : Option Frame → Fallible Text
text_frame (some (some data_text)) = ok data_text
text_frame _ = err (codes "agent session handshake failed")

-- The checks of a reply, whose errors are one.
unfoldable pub accepts_reply : Decoder → Protocol → Text → Text → Bool
accepts_reply d p agent_id data_text =
    elim (do m ← decode_protocol d data_text p; validate_accepted agent_id m >> ok m) [
      | err _ ↦ false
      | ok m ↦ same_protocol m.protocol p
    ]

unfoldable pub finish_open :
    Decoder → Endpoint → Start → Bool → Option Frame → Fallible RemoteSession
unfolding accepts_reply
finish_open d e start wrote reply = do
  reject_if (not wrote) (codes "agent session open failed")
  data_text ← text_frame reply
  reject_if (not (accepts_reply d e.protocol start.agent_id data_text))
      (codes "agent session protocol mismatch")
  ok (record { protocol = e.protocol; session_id = start.session_id })

unfoldable pub open_connection :
    Host → Decoder → Endpoint → Text → Start → Dialled → Fallible RemoteSession
unfolding finish_open
open_connection h d e nonce start unreachable = err (codes "agent endpoint unavailable")
open_connection h d e nonce start refused = err (codes "agent endpoint rejected session")
open_connection h d e nonce start (connected proved wrote reply) =
    if not (eq_text proved (proof h e.protocol e.token e.agent_id nonce))
    then err (codes "agent endpoint identity mismatch")
    else finish_open d e start wrote reply

-- Open, at a nonce from the random source.
unfoldable pub open_remote :
    Host → Decoder → Map Endpoint → Text → Start → Dialled → Fallible RemoteSession
unfolding open_connection
open_remote h d endpoints nonce start dialled = elim (lookup start.agent_id endpoints) [
  | none ↦ err (codes "unknown agent identity")
  | some e ↦ open_connection h d e nonce start dialled
]

pub record ServerConfig : Type 0 where
  pub protocol : Protocol
  pub agent_id : Text
  pub token : Text
  pub read_timeout : ℤ
  pub write_timeout : ℤ
  pub idle_timeout : ℤ
  pub max_sessions : ℤ

abbrev max_remote_sessions : ℕ
max_remote_sessions = 32

abbrev pub beyond : ℕ → ℤ → Bool
beyond n (pos k) = ltb n k
beyond n _ = false

-- The configuration that a new handler keeps.
unfoldable pub new_handler : ServerConfig → Bool → Fallible ServerConfig
new_handler c₀ has_factory = do
  let c = record c₀ { protocol = default_protocol c₀.protocol }
  reject_if (not (is_known c.protocol)) (codes "unsupported agent protocol")
  reject_if
      (not (identifier c.agent_id)
        || is_empty c.token
        || not has_factory
        || not (positive c.read_timeout)
        || not (positive c.write_timeout)
        || not (positive c.idle_timeout)
        || not (positive c.max_sessions)
        || beyond max_remote_sessions c.max_sessions)
      (codes "invalid Agent Session server configuration")
  ok c

-- What a request is answered with: a status, or the proof header of an upgrade.
pub data Answer : Type 0 where
  not_found unauthorized bad_challenge at_capacity : Answer
  upgrades : (proof_header : Text) → Answer

unfoldable pub session_path : Protocol → Text
session_path p = if is_v2 p then codes "/v2/session" else codes "/v1/session"

abbrev pub bad_nonce : Host → Text → Bool
bad_nonce h nonce = elim (h.hex_decode nonce) [
  | none ↦ true
  | some bytes ↦ not (length bytes == 32)
]

abbrev pub full : ServerConfig → ℕ → Bool
full c in_use = not (beyond in_use c.max_sessions)

-- The part of ServeHTTP before the upgrade, with the number of slots in use.
unfoldable pub admit : Host → ServerConfig → ℕ → Request → Answer
unfolding session_path
admit h c in_use r =
    if not (eq_text r.path (session_path c.protocol)) || not r.is_get
    then not_found
    else if not (eq_text r.authorization (bearer (credential h c.protocol c.token c.agent_id)))
        || not (eq_text r.protocol (protocol_name c.protocol))
    then unauthorized
    else if bad_nonce h r.nonce
    then bad_challenge
    else if full c in_use
    then at_capacity
    else upgrades (proof h c.protocol c.token c.agent_id r.nonce)

-- The first frame of a connection: the session that the agent's factory is asked for.
unfoldable pub read_open : Decoder → ServerConfig → Option Frame → Fallible Start
read_open d c frame = do
  data_text ← text_frame frame
  m ← decode_protocol d data_text c.protocol
  validate_open m
  reject_if (not (eq_text m.agent_id c.agent_id) || not (same_protocol m.protocol c.protocol))
      (codes "invalid session open")
  elim m.start [
    | none ↦ err (codes "invalid session open")
    | some s ↦ ok (record s { protocol = protocol_name c.protocol })
  ]

-- The message that the server accepts a session with.
unfoldable pub accepted_message : ServerConfig → Message
accepted_message c = record {
  protocol = c.protocol;
  kind = session_accepted;
  agent_id = c.agent_id;
  start = none;
  command = none;
  event = none;
}
