-- ===== src/Gateway/Commands.antt =====
-- apps/voice-gateway/internal/adapters/voice/agent_handler.go: a client's message on its way to the
-- agent, through both contracts.
use nova2sonici_osapp.Common.{
  ℕ, ◌*◌, ◌%◌, ◌≤◌, ◌≡◌, ◌≢◌, ◌↔◌, inl, inr, refl, Bool, true, false, some, List, [], ◌∷◌, arith,
  length, Option-cases,
}
use nova2sonici_osapp.Common.Fallible.{ok}
use nova2sonici_osapp.Common.Int.{ℤ}
use nova2sonici_osapp.Common.Text.{Text, is_empty, eq_text_refl, len}
use nova2sonici_osapp.Voice.Event.{Base64, decode_audio}
use nova2sonici_osapp.Voice.Message.{
  Message, start, append, commit, cancel, stop, confirm, encode, IsAllowed,
}
use nova2sonici_osapp.AgentWire.Types.{
  Command, input_audio, input_commit, input_cancel, input_confirmation, input_close, Protocol,
}
use nova2sonici_osapp.AgentWire.Protocol.{validate_command, check_command, bad_pcm}
use nova2sonici_osapp.AgentWire.Identifier.{identifier-valid_id, starts_alphanumeric}
use nova2sonici_osapp.AgentWire.Remote.{send_checks}
use nova2sonici_osapp.Gateway.Translate.{agent_command_from_voice}

abbrev pub is_session_start : Message → Bool
is_session_start (start _ _ _) = true
is_session_start _ = false

abbrev pub session_of : Message → Text
session_of (start _ _ _) = []
session_of (append s _ _ _) = s
session_of (commit s _) = s
session_of (cancel s _) = s
session_of (stop s _) = s
session_of (confirm s _ _ _) = s

-- The command says what the message says.
abbrev pub Means : Base64 → Message → Command → Type 0
Means b64 (start _ _ _) c = ⊥
Means b64 (append s t n a) c =
    (decode_audio b64 a ≡ ok c.audio)
    × (c ≡ record {
      kind = input_audio;
      session_id = s;
      turn_id = t;
      sequence = n;
      audio = c.audio;
      operation_id = [];
      approved = false;
    })
Means b64 (commit s t) c = c ≡ record {
  kind = input_commit;
  session_id = s;
  turn_id = t;
  sequence = 0;
  audio = [];
  operation_id = [];
  approved = false;
}
Means b64 (cancel s t) c = c ≡ record {
  kind = input_cancel;
  session_id = s;
  turn_id = t;
  sequence = 0;
  audio = [];
  operation_id = [];
  approved = false;
}
Means b64 (stop s t) c = c ≡ record {
  kind = input_close;
  session_id = s;
  turn_id = t;
  sequence = 0;
  audio = [];
  operation_id = [];
  approved = false;
}
Means b64 (confirm s t o a) c = c ≡ record {
  kind = input_confirmation;
  session_id = s;
  turn_id = t;
  sequence = 0;
  audio = [];
  operation_id = o;
  approved = a;
}

-- Every accepted message of a client, but session.start, becomes a command that says the same: the
-- translation neither fails nor follows a nil pointer.
pub agent_command-Means :
    (b64 : Base64) (v : ℤ) (m : Message)
    → is_session_start m ≡ false
    → IsAllowed b64 v m
    → (c : Command) × (agent_command_from_voice b64 (encode v m) ≡ some (ok c)) × Means b64 m c
unfolding agent_command_from_voice encode
agent_command-Means b64 v (start a r p) e h = cc
agent_command-Means b64 v (append s t n a) e h =
    let (pcm, decoded) = h.3 in
    (
      record {
        kind = input_audio;
        session_id = s;
        turn_id = t;
        sequence = n;
        audio = pcm;
        operation_id = [];
        approved = false;
      },
      rw decoded,
      (decoded, refl),
    )
agent_command-Means b64 v (commit s t) e h = (_, refl, refl)
agent_command-Means b64 v (cancel s t) e h = (_, refl, refl)
agent_command-Means b64 v (stop s t) e h = (_, refl, refl)
agent_command-Means b64 v (confirm s t o a) e h = (_, refl, refl)

-- The ids that the agent contract reads in a command start with a letter or a digit, and a command to
-- close names no turn.
abbrev pub fits_agent : Message → Bool
fits_agent (start _ _ _) = false
fits_agent (append s t n a) = starts_alphanumeric t
fits_agent (commit s t) = starts_alphanumeric t
fits_agent (cancel s t) = starts_alphanumeric t
fits_agent (stop s t) = is_empty t
fits_agent (confirm s t o a) = starts_alphanumeric o

-- What base64 decoding is documented to do: four characters give at most three bytes.
pub record IsBounded (b64 : Base64) : Type 0 where
  pub decode_length :
      (s : Text) (pcm : List ℕ) → b64.decode s ≡ some pcm → length pcm * 4 ≤ len s * 3

decode_audio-parts :
    (b64 : Base64) (s : Text) (pcm : List ℕ)
    → decode_audio b64 s ≡ ok pcm
    → (b64.decode s ≡ some pcm) × (len s ≤ 42668) × (length pcm ≢ 0) × (length pcm % 2 ≡ 0)
unfolding decode_audio
decode_audio-parts b64 s pcm h = elim (Option-cases (b64.decode s)) [
  | inl broken ↦ absurd (ground arith)
  | inr (pcm', read) ↦
      let same : pcm' ≡ pcm = ground arith in
      (ground arith, ground arith, ground arith, ground arith)
]

-- The audio of one voice chunk is nonempty PCM16 and within the agent contract's larger bound.
decode_audio-fits :
    (b64 : Base64)
    → IsBounded b64
    → (s : Text) (pcm : List ℕ) → decode_audio b64 s ≡ ok pcm
    → bad_pcm pcm ≡ false
decode_audio-fits b64 bounded s [] h =
    let (_, _, some_bytes, _) = decode_audio-parts b64 s [] h in absurd (some_bytes refl)
decode_audio-fits b64 bounded s (x ∷ xs) h =
    let (read, short, _, even) = decode_audio-parts b64 s (x ∷ xs) h in
    let small = bounded.decode_length s (x ∷ xs) read in ground arith

-- Where base64 decoding makes at most three bytes of four characters, the checks of Send let the command
-- that means an accepted message pass, in the message's own session, exactly if the turn id of audio, a
-- commit or a cancel, or the operation id of a confirmation, starts with a letter or a digit, and a stop
-- names no turn. (No command means a session.start.)
pub send_checks-Means :
    (b64 : Base64) (v : ℤ) (p : Protocol) (m : Message) (c : Command)
    → IsBounded b64
    → IsAllowed b64 v m
    → Means b64 m c
    → (send_checks p (session_of m) c ≡ ok tt) ↔ (fits_agent m ≡ true)
unfolding send_checks validate_command check_command
send_checks-Means b64 v p (start a r q) c bounded h means = absurd means
send_checks-Means b64 v p (append s t n a) c bounded h (decoded, said) =
    let fits = decode_audio-fits b64 bounded a c.audio decoded in
    rw said (ground (arith, identifier-valid_id t, eq_text_refl s))
send_checks-Means b64 v p (commit s t) c bounded h means =
    rw means (ground (arith, identifier-valid_id t, eq_text_refl s))
send_checks-Means b64 v p (cancel s t) c bounded h means =
    rw means (ground (arith, identifier-valid_id t, eq_text_refl s))
send_checks-Means b64 v p (stop s t) c bounded h means = rw means (ground (arith, eq_text_refl s))
send_checks-Means b64 v p (confirm s t o a) c bounded h means =
    rw means (ground (arith, identifier-valid_id o, eq_text_refl s))
