-- ===== src/Gateway/Session.antt =====
-- apps/voice-gateway/internal/adapters/voice/agent_handler.go, handleVoice behind the upgrade: one
-- session as a state, and what its loops do with each thing that they select.
pub mod Choice
pub mod Sound
pub mod Passage
use nova2sonici_osapp.Common.{
  ℕ, ◌+◌, Bool, true, false, not, ◌&&◌, ◌||◌, Option, none, some, List, [], ◌∷◌, ltb, if◌then◌else◌,
}
use nova2sonici_osapp.Common.Int.{ℤ, pos, eq_ℤ}
use nova2sonici_osapp.Common.Assoc.{Map}
use nova2sonici_osapp.Common.Fallible.{Fallible, ok, err}
use nova2sonici_osapp.Common.Text.{Text, codes, eq_text, is_empty}
use nova2sonici_osapp.Voice.Event
use nova2sonici_osapp.Voice.Event.{Base64, EventType, error, blank}
use nova2sonici_osapp.Voice.Decode
use nova2sonici_osapp.Voice.Decode.{decode_client_version, is_start}
use nova2sonici_osapp.AgentWire.Types
use nova2sonici_osapp.AgentWire.Types.{
  Principal, Start, Command, Protocol, turn_completed, turn_interrupted, agent_error,
}
use nova2sonici_osapp.AgentWire.Protocol
use nova2sonici_osapp.AgentWire.Protocol.{is_v2}
use nova2sonici_osapp.AgentWire.Endpoint
use nova2sonici_osapp.AgentWire.Endpoint.{Endpoint}
use nova2sonici_osapp.AgentWire.Handshake.{Frame, Dialled, RemoteSession, open_remote}
use nova2sonici_osapp.AgentWire.Link.{closes}
use nova2sonici_osapp.AgentWire.Remote.{send_checks}
use nova2sonici_osapp.Gateway.Translate.{agent_command_from_voice, voice_event_from_agent}
use nova2sonici_osapp.Gateway.Latency.{Window, add}

-- The configuration; `endpoints` is the agent factory that was made of the catalog. `micros` makes
-- microseconds of the float64 that a metric is, by way of time.Duration.
pub record Config : Type 0 where
  pub provider : Text
  pub default_agent_id : Text
  pub catalog : List Endpoint
  pub principal : Principal
  pub endpoints : Map Endpoint
  pub base64 : Base64
  pub agents : Endpoint.Host
  pub decoder : Protocol.Decoder
  pub micros : ℕ → ℕ

pub record Metrics : Type 0 where
  pub completed : ℕ
  pub interrupted : ℕ
  pub errors : ℕ
  pub first_audio_count : ℕ
  pub first_audio_micros : ℕ
  pub window : Window

pub record Session : Type 0 where
  pub version : ℤ
  pub id : Text
  pub principal : Principal
  pub agent : Option RemoteSession
  pub ended : Bool
  pub metrics : Metrics

-- What a loop selects. An input is what readVoiceEvents has made of a frame.
pub data Signal : Type 0 where
  context_done start_timeout client_gone agent_gone : Signal
  ping : (wrote : Bool) → Signal
  input : Fallible Event.Event → Signal
  agent_event : Types.Event → Signal

-- What the network does meanwhile: whether a write to the client works, the nonce and the outcome of
-- dialling the agent, and whether the agent's connection takes a command.
pub record World : Type 0 where
  pub writes : Bool
  pub nonce : Text
  pub dialled : Dialled
  pub delivers : Bool

-- What a session does: frames to the client, an opened agent session, commands to it, and a panic.
pub data Output : Type 0 where
  frame : Event.Event → Output
  opened : Start → Output
  sent : Command → Output
  panicked : Output

abbrev pub Step : Type 0
Step = Session × List Output

-- readVoiceEvents: the input that a frame becomes; its data is decoded also if it is not text.
unfoldable pub read_input :
    Base64 → Decode.Decoder → ℤ → (is_text : Bool) → Text → Fallible Event.Event
read_input b64 d version is_text data_text =
    if not is_text
    then err (codes "only JSON text frames are accepted")
    else elim (decode_client_version b64 d data_text version) [
      | err e ↦ err e
      | ok e ↦ if eq_ℤ e.version version then ok e else err (codes "protocol version mismatch")
    ]

abbrev pub end_session : Session → Session
end_session s = record s { ended = true }

-- `write`: the event gets the version and the id of the session.
unfoldable pub stamp : Session → Event.Event → Event.Event
stamp s e = record e { version = s.version; session_id = s.id }

abbrev pub written : World → Session → Event.Event → List Output
written w s e = if w.writes then frame (stamp s e) ∷ [] else []

abbrev pub error_event : Text → Text → Event.Event
error_event code message = record (blank error) { code = code; message = message }

abbrev pub count_error : Session → Session
count_error s = record s { metrics = record s.metrics { errors = s.metrics.errors + 1 } }

-- sendError, after which the loop goes on if the write worked.
unfoldable pub complain : World → Text → Text → Session → Step
unfolding stamp
complain w code message s =
    (record (count_error s) { ended = not w.writes }, written w s (error_event code message))

-- sendError, after which the session ends.
unfoldable pub fail : World → Text → Text → Session → Step
unfolding stamp
fail w code message s = (end_session (count_error s), written w s (error_event code message))

-- The loop over the catalog: whether the agent was found, and the principal for it.
unfoldable pub select_agent :
    ℤ → Text → Principal → List Endpoint → Bool × Principal → Bool × Principal
select_agent version selected configured [] found = found
select_agent version selected configured (e ∷ es) (found, principal) =
    let here = eq_text e.agent_id selected in
    let v2 = is_v2 e.protocol in
    select_agent version selected configured es (
      if here then not (eq_ℤ version (pos 1) && v2) else found,
      if here && not v2 then configured else principal,
    )

abbrev selected_agent : Config → Session → Event.Event → Text
selected_agent c s e =
    if eq_ℤ s.version (pos 2) && not (is_empty e.agent_id) then e.agent_id else c.default_agent_id

unfoldable pub start_of : Config → Session → Event.Event → Principal → Start
start_of c s e principal = record {
  protocol = [];
  session_id = s.id;
  request_id = e.request_id;
  agent_id = selected_agent c s e;
  provider = c.provider;
  principal = principal;
}

unfoldable pub open_agent : Config → World → Event.Event → Session → Step
unfolding select_agent start_of fail
open_agent c w e s =
    let (found, principal) =
      select_agent s.version (selected_agent c s e) c.principal c.catalog (false, s.principal) in
    let start = start_of c s e principal in
    if not found
    then fail w (codes "agent_unavailable") (codes "agent is not available") s
    else elim (open_remote c.agents c.decoder c.endpoints w.nonce start w.dialled) [
      | err _ ↦ fail w (codes "provider_unavailable") (codes "agent session could not start") s
      | ok agent ↦ (record s { agent = some agent }, opened start ∷ [])
    ]

-- An event before the session has started.
unfoldable pub first_event : Config → World → Event.Event → Session → Step
unfolding open_agent complain
first_event c w e s =
    if not (is_start e.kind)
    then complain w (codes "session_required") (codes "first event must be session.start") s
    else if not (is_empty e.provider) && not (eq_text e.provider c.provider)
    then complain w (codes "provider_unavailable") (codes "requested provider is not selected") s
    else open_agent c w e s

unfoldable pub forward : Config → World → RemoteSession → Event.Event → Session → Step
unfolding complain fail
forward c w agent e s =
    if not (eq_text e.session_id s.id)
    then complain w (codes "session_mismatch") (codes "sessionId does not match this connection") s
    else elim (agent_command_from_voice c.base64 e) [
      | none ↦ (end_session s, panicked ∷ [])
      | some (err m) ↦ complain w (codes "invalid_transition") m s
      | some (ok command) ↦ elim (send_checks agent.protocol agent.session_id command) [
        | err _ ↦ fail w (codes "provider_unavailable") (codes "agent session disconnected") s
        | ok _ ↦
            if w.delivers
            then (s, sent command ∷ [])
            else fail w (codes "provider_unavailable") (codes "agent session disconnected") s
      ]
    ]

unfoldable pub record_first_audio : ℕ → Metrics → Metrics
record_first_audio micros m = record m {
  first_audio_count = m.first_audio_count + 1;
  first_audio_micros = m.first_audio_micros + micros;
  window = add micros m.window;
}

-- The counters that an agent's event adds to.
unfoldable pub measure : Config → Types.Event → Metrics → Metrics
unfolding record_first_audio
measure c e m = go e.kind
  where
    go : Types.EventType → Metrics
    go turn_completed =
        let done = record m { completed = m.completed + 1 } in
        elim e.metrics [
          | none ↦ done
          | some t ↦
              if ltb 0 t.first_audio_us
              then record_first_audio (c.micros t.first_audio_us) done
              else done
        ]
    go turn_interrupted = record m { interrupted = m.interrupted + 1 }
    go agent_error = record m { errors = m.errors + 1 }
    go _ = m

unfoldable pub relay : Config → World → Types.Event → Session → Step
unfolding measure stamp fail
relay c w e s₀ =
    let s = record s₀ { metrics = measure c e s₀.metrics } in
    elim (voice_event_from_agent c.base64 e) [
      | err _ ↦ fail w (codes "provider_failed") (codes "agent returned an invalid event") s
      | ok v ↦ (record s { ended = not w.writes || closes e.kind }, written w s v)
    ]

-- The first loop, which waits for session.start.
unfoldable pub waiting : Config → World → Signal → Session → Step
unfolding first_event complain fail
waiting c w context_done s = (end_session s, [])
waiting c w client_gone s = (end_session s, [])
waiting c w start_timeout s =
    fail w (codes "session_timeout") (codes "session.start was not received in time") s
waiting c w (ping wrote) s = (record s { ended = not wrote }, [])
waiting c w (input (err m)) s = complain w (codes "invalid_event") m s
waiting c w (input (ok e)) s = first_event c w e s
waiting c w _ s = (s, [])

-- The second, with the agent's session.
unfoldable pub serving : Config → World → RemoteSession → Signal → Session → Step
unfolding forward relay complain
serving c w agent context_done s = (end_session s, [])
serving c w agent client_gone s = (end_session s, [])
serving c w agent agent_gone s = (end_session s, [])
serving c w agent (ping wrote) s = (record s { ended = not wrote }, [])
serving c w agent (input (err m)) s = complain w (codes "invalid_event") m s
serving c w agent (input (ok e)) s = forward c w agent e s
serving c w agent (agent_event e) s = relay c w e s
serving c w agent start_timeout s = (s, [])

unfoldable pub step : Config → World → Signal → Session → Step
unfolding waiting serving
step c w g s =
    if s.ended
    then (s, [])
    else elim s.agent [ none ↦ waiting c w g s | some agent ↦ serving c w agent g s ]
