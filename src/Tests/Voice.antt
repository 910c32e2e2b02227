-- ===== src/Tests/Voice.antt =====
-- packages/go/voicewire and packages/go/agentwire: a chunk of audio on its way to an agent.
use nova2sonici_osapp.Common.{
  ◌≡◌, ◌↔◌, refl, true, false, none, some, [], ◌∷◌, arith, leb, if◌then◌else◌,
}
use nova2sonici_osapp.Common.Fallible.{ok}
use nova2sonici_osapp.Common.Int.{pos}
use nova2sonici_osapp.Common.Text.{codes, len}
use nova2sonici_osapp.Voice.Event.{Base64, decode_audio}
use nova2sonici_osapp.Voice.Id.{valid_id}
use nova2sonici_osapp.Voice.Decode.{Decoder, decode_client_version}
use nova2sonici_osapp.Voice.Message.{Message, append, encode, IsAllowed, IsVersion}
use nova2sonici_osapp.Voice.Accepted.{decode_client_version_iff}
use nova2sonici_osapp.AgentWire.Types.{Command, input_audio, v1}
use nova2sonici_osapp.AgentWire.Identifier.{starts_alphanumeric}
use nova2sonici_osapp.AgentWire.Remote.{send_checks}
use nova2sonici_osapp.Gateway.Translate.{agent_command_from_voice}
use nova2sonici_osapp.Gateway.Commands.{
  IsBounded, Means, fits_agent, agent_command-Means, send_checks-Means,
}

-- Four characters or more give two bytes.
abbrev pub toy_base64 : Base64
toy_base64 = record {
  decode = λ s. if leb 4 (len s) then some (1 ∷ 2 ∷ []) else none;
  encode = λ pcm. codes "AQI=";
}

pub toy_base64-IsBounded : IsBounded toy_base64
toy_base64-IsBounded = record { decode_length = λ s pcm e. ground arith }

abbrev pub chunk : Message
chunk = append (codes "s1") (codes "_t") 1 (codes "AQI=")

opened : Unit {0}
unfolding valid_id decode_audio encode decode_client_version agent_command_from_voice send_checks
    starts_alphanumeric
opened = tt

chunk-IsAllowed : IsAllowed toy_base64 (pos 1) chunk
unfolding opened
chunk-IsAllowed = (refl, refl, λ e. cc, ((1 ∷ 2 ∷ []), refl))

abbrev decoder : Decoder
decoder = record { event = λ input. some (encode (pos 1) chunk); at_end = λ input. true }

decode_client_version_iff_example :
    (decode_client_version toy_base64 decoder (codes "{}") (pos 1) ≡ ok (encode (pos 1) chunk)) ↔ (
      (decoder.event (codes "{}") ≡ some (encode (pos 1) chunk))
      × (decoder.at_end (codes "{}") ≡ true)
      × ((m : Message) × (IsVersion (pos 1)
            × IsAllowed toy_base64 (pos 1) m
            × (encode (pos 1) chunk ≡ encode (pos 1) m))))
decode_client_version_iff_example =
    decode_client_version_iff toy_base64 decoder (codes "{}") (pos 1) (encode (pos 1) chunk)

agent_command-Means_example :
    (c : Command) × (agent_command_from_voice toy_base64 (encode (pos 1) chunk) ≡ some (ok c))
    × Means toy_base64 chunk c
agent_command-Means_example = agent_command-Means toy_base64 (pos 1) chunk refl chunk-IsAllowed

abbrev pub chunk_command : Command
chunk_command = record {
  kind = input_audio;
  session_id = codes "s1";
  turn_id = codes "_t";
  sequence = 1;
  audio = 1 ∷ 2 ∷ [];
  operation_id = [];
  approved = false;
}

chunk-Means : Means toy_base64 chunk chunk_command
unfolding opened
chunk-Means = (refl, refl)

send_checks-Means_example :
    (send_checks v1 (codes "s1") chunk_command ≡ ok tt) ↔ (fits_agent chunk ≡ true)
send_checks-Means_example =
    send_checks-Means toy_base64 (pos 1) v1 chunk chunk_command toy_base64-IsBounded chunk-IsAllowed
      chunk-Means

-- The agent's end of the edge refuses this turn id.
chunk_is_refused : fits_agent chunk ≡ false
unfolding opened
chunk_is_refused = refl
