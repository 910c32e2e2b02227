-- ===== src/Tests/Gateway.antt =====
-- apps/voice-gateway/internal/adapters/voice: a session that opens an agent and sends it audio, and the
-- samples of its latency.
use nova2sonici_osapp.Common.{
  ℕ, ◌≡◌, refl, true, false, none, some, List, [], ◌∷◌, arith, inl, if◌then◌else◌,
}
use nova2sonici_osapp.Common.Int.{pos}
use nova2sonici_osapp.Common.Fallible.{ok}
use nova2sonici_osapp.Common.Assoc.{lookup}
use nova2sonici_osapp.Common.Text.{codes, eq_text}
use nova2sonici_osapp.Voice.Event
use nova2sonici_osapp.Voice.Event.{decode_audio}
use nova2sonici_osapp.Voice.Id.{valid_id}
use nova2sonici_osapp.Voice.Decode
use nova2sonici_osapp.Voice.Decode.{decode_client_version}
use nova2sonici_osapp.Voice.Message.{Message, start as start_message, append, encode, IsAllowed}
use nova2sonici_osapp.AgentWire.Types.{Command, v2}
use nova2sonici_osapp.AgentWire.Protocol.{
  is_identifier_code, identifier, decode_protocol, validate_accepted, validate_command,
  validate_event, check_event,
}
use nova2sonici_osapp.AgentWire.Endpoint.{proof}
use nova2sonici_osapp.AgentWire.Handshake.{
  connected, accepts_reply, finish_open, open_connection, open_remote, open_message,
  accepted_message,
}
use nova2sonici_osapp.AgentWire.Link.{read_event}
use nova2sonici_osapp.AgentWire.Remote.{send_checks}
use nova2sonici_osapp.AgentWire.Identifier.{starts_alphanumeric}
use nova2sonici_osapp.Gateway.Translate.{
  agent_command_from_voice, voice_event_from_agent, voice_type,
}
use nova2sonici_osapp.Gateway.Commands.{Means, fits_agent}
use nova2sonici_osapp.Gateway.Latency.{
  Window, set_at, add, place, sorted, get_elem, percentile, percentiles,
}
use nova2sonici_osapp.Gateway.Latency.Rank.{IsPercentile, percentile-IsPercentile}
use nova2sonici_osapp.Gateway.Latency.Recent.{recent, IsWindow, adds, enqueues, recent-adds}
use nova2sonici_osapp.Gateway.Session.{
  Config, Metrics, Session, Signal, input, World, Output, opened, sent, read_input, stamp, complain,
  fail, select_agent, start_of, open_agent, first_event, forward, waiting, serving, step,
}
use nova2sonici_osapp.Gateway.Session.Sound.{Abides, opens, run, run-Abides}
use nova2sonici_osapp.Gateway.Session.Passage.{forward-Message, read_event-translates}
use nova2sonici_osapp.Tests.Voice.{toy_base64, toy_base64-IsBounded}
use nova2sonici_osapp.Tests.AgentWire.{
  toy_host, agent, catalog, anyone, toy_decoder, nonce, proved, remote, states, state_event,
}

abbrev window : Window
window = record { values = 30 ∷ 10 ∷ 20 ∷ []; next = 0 }

percentile-IsPercentile_example :
    (v : ℕ) × (percentile 95 window ≡ some v) × IsPercentile 95 v (30 ∷ 10 ∷ 20 ∷ [])
percentile-IsPercentile_example = percentile-IsPercentile 95 window (omega arith) (omega arith)

window-IsWindow : IsWindow window
window-IsWindow = record { bounded = omega arith; inside = omega arith; filling = λ less. refl }

recent-adds_example :
    (recent (adds (40 ∷ 50 ∷ []) window) ≡ enqueues (40 ∷ 50 ∷ []) (recent window))
    × IsWindow (adds (40 ∷ 50 ∷ []) window)
recent-adds_example = recent-adds (40 ∷ 50 ∷ []) window window-IsWindow

made : Unit {0}
unfolding place sorted get_elem percentile percentiles set_at add
made = tt

percentiles_run : percentiles window ≡ some (20, 30)
unfolding made
percentiles_run = refl

abbrev config : Config
config = record {
  provider = codes "fake";
  default_agent_id = codes "a";
  catalog = agent ∷ [];
  principal = anyone;
  endpoints = catalog;
  base64 = toy_base64;
  agents = toy_host;
  decoder = toy_decoder;
  micros = λ n. n;
}

abbrev none_counted : Metrics
none_counted = record {
  completed = 0;
  interrupted = 0;
  errors = 0;
  first_audio_count = 0;
  first_audio_micros = 0;
  window = record { values = []; next = 0 };
}

abbrev fresh : Session
fresh = record {
  version = pos 2;
  id = codes "s1";
  principal = anyone;
  agent = none;
  ended = false;
  metrics = none_counted;
}

abbrev answering : World
answering = record {
  writes = true;
  nonce = nonce;
  dialled = connected proved true (some (some (codes "r")));
  delivers = true;
}

-- The client starts a session and sends audio with a turn id that the agent reads.
abbrev beginning : Message
beginning = start_message [] [] []

abbrev audio : Message
audio = append (codes "s1") (codes "t") 1 (codes "AQI=")

abbrev decoder_of : Message → Decode.Decoder
decoder_of m = record { event = λ t. some (encode (pos 2) m); at_end = λ t. true }

abbrev says : Message → World × Signal
says m = (answering, input (ok (encode (pos 2) m)))

ready : Unit {0}
unfolding Decode.check_event validate_command encode valid_id decode_audio decode_client_version
    read_input is_identifier_code identifier decode_protocol validate_accepted proof open_message
    accepted_message accepts_reply finish_open open_connection open_remote lookup eq_text
    send_checks starts_alphanumeric agent_command_from_voice stamp complain fail select_agent
    start_of open_agent first_event forward waiting serving step opens run validate_event
    check_event read_event voice_event_from_agent voice_type
ready = tt

begins :
    read_input toy_base64 (decoder_of beginning) (pos 2) true (codes "{}")
    ≡ ok (encode (pos 2) beginning)
unfolding ready
begins = refl

speaks :
    read_input toy_base64 (decoder_of audio) (pos 2) true (codes "{}") ≡ ok (encode (pos 2) audio)
unfolding ready
speaks = refl

run-Abides_example :
    let (s', os) = run config (says beginning ∷ says audio ∷ []) fresh in Abides config fresh s' os
run-Abides_example =
    run-Abides config (says beginning ∷ says audio ∷ []) fresh (λ a h. cc)
      (
        (decoder_of beginning, true, codes "{}", begins),
        ((decoder_of audio, true, codes "{}", speaks), tt),
      )

-- The run opens the agent and sends it one command.
abbrev kinds : List Output → List ℕ
kinds [] = []
kinds (opened s ∷ os) = 1 ∷ kinds os
kinds (sent k ∷ os) = 2 ∷ kinds os
kinds (_ ∷ os) = 3 ∷ kinds os

kinds-run : kinds (run config (says beginning ∷ says audio ∷ []) fresh).1 ≡ 1 ∷ 2 ∷ []
unfolding ready
kinds-run = refl

audio-IsAllowed : IsAllowed toy_base64 (pos 2) audio
unfolding ready
audio-IsAllowed = (refl, refl, λ e. cc, ((1 ∷ 2 ∷ []), refl))

abbrev started : Session
started = record fresh { agent = some remote }

forward-Message_example :
    (k : Command) × Means toy_base64 audio k
    × (forward config answering remote (encode (pos 2) audio) started ≡ (
        if fits_agent audio
        then (started, sent k ∷ [])
        else fail answering
            (codes "provider_unavailable")
            (codes "agent session disconnected")
            started))
forward-Message_example =
    forward-Message config answering remote started (pos 2) audio toy_base64-IsBounded
      audio-IsAllowed refl refl refl refl

reads_idle : read_event states v2 (some (some (codes "idle"))) ≡ inl (state_event (codes "idle"))
unfolding ready
reads_idle = refl

read_event-translates_example :
    (v : Event.Event) × (voice_event_from_agent toy_base64 (state_event (codes "idle")) ≡ ok v)
read_event-translates_example =
    read_event-translates toy_base64 states v2 (some (some (codes "idle")))
      (state_event (codes "idle")) reads_idle
