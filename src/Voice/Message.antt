-- ===== src/Voice/Message.antt =====
-- packages/go/voicewire/event.go: the client's messages as a type of their own. The decoder accepts
-- exactly their images, so each accepted event has one meaning and no stray field.
use nova2sonici_osapp.Common.{
  ℕ, ◌≡◌, ◌≢◌, refl, Bool, true, false, ◌&&◌, ◌||◌, some, List, [], arith,
}
use nova2sonici_osapp.Common.Fallible.{ok}
use nova2sonici_osapp.Common.Int.{ℤ, pos, eq_ℤ}
use nova2sonici_osapp.Common.Text.{Text, is_empty}
use nova2sonici_osapp.Voice.Event.{
  Event, session_start, audio_append, turn_commit, turn_cancel, session_stop, tool_confirm, Base64,
  decode_audio, input_sample_rate, blank,
}
use nova2sonici_osapp.Voice.Decode.{check_event}
use nova2sonici_osapp.Voice.Id.{valid_id}

pub data Message : Type 0 where
  start : (agent_id request_id provider : Text) → Message
  append : (session_id turn_id : Text) (sequence : ℕ) (audio : Text) → Message
  commit cancel stop : (session_id turn_id : Text) → Message
  confirm : (session_id turn_id operation_id : Text) (approved : Bool) → Message

-- The event that carries a message in version `v` of the protocol.
unfoldable pub encode : ℤ → Message → Event
encode v (start agent_id request_id provider) = record (blank session_start) {
  version = v;
  agent_id = agent_id;
  request_id = request_id;
  provider = provider;
}
encode v (append session_id turn_id sequence audio) = record (blank audio_append) {
  version = v;
  session_id = session_id;
  turn_id = turn_id;
  sequence = sequence;
  sample_rate = pos input_sample_rate;
  audio = audio;
}
encode v (commit session_id turn_id) = record (blank turn_commit) {
  version = v;
  session_id = session_id;
  turn_id = turn_id;
}
encode v (cancel session_id turn_id) = record (blank turn_cancel) {
  version = v;
  session_id = session_id;
  turn_id = turn_id;
}
encode v (stop session_id turn_id) = record (blank session_stop) {
  version = v;
  session_id = session_id;
  turn_id = turn_id;
}
encode v (confirm session_id turn_id operation_id approved) = record (blank tool_confirm) {
  version = v;
  session_id = session_id;
  turn_id = turn_id;
  tool = some (record {
    operation_id = operation_id;
    name = [];
    arguments = [];
    result = [];
    approved = some approved;
  });
}

-- Present or left out.
abbrev pub IsOptionalId : Text → Type 0
IsOptionalId id = (is_empty id || valid_id id) ≡ true

-- What a message of version `v` must satisfy.
abbrev pub IsAllowed : Base64 → ℤ → Message → Type 0
IsAllowed b64 v (start agent_id request_id provider) =
    ((is_empty agent_id || eq_ℤ v (pos 2) && valid_id agent_id) ≡ true) × IsOptionalId request_id
IsAllowed b64 v (append session_id turn_id sequence audio) =
    (valid_id session_id ≡ true)
    × (valid_id turn_id ≡ true)
    × (sequence ≢ 0)
    × ((pcm : List ℕ) × (decode_audio b64 audio ≡ ok pcm))
IsAllowed b64 v (commit session_id turn_id) =
    (valid_id session_id ≡ true) × (valid_id turn_id ≡ true)
IsAllowed b64 v (cancel session_id turn_id) =
    (valid_id session_id ≡ true) × (valid_id turn_id ≡ true)
IsAllowed b64 v (stop session_id turn_id) = (valid_id session_id ≡ true) × IsOptionalId turn_id
IsAllowed b64 v (confirm session_id turn_id operation_id approved) =
    (valid_id session_id ≡ true) × IsOptionalId turn_id × (valid_id operation_id ≡ true)

abbrev pub IsVersion : ℤ → Type 0
IsVersion v = (eq_ℤ v (pos 1) || eq_ℤ v (pos 2)) ≡ true

-- The empty text is no id.
valid_id-nil : valid_id [] ≡ false
unfolding valid_id
valid_id-nil = refl

-- Every allowed message is accepted, in both versions.
pub check_event-encode :
    (b64 : Base64) (v : ℤ) (m : Message)
    → IsVersion v
    → IsAllowed b64 v m
    → check_event b64 v (encode v m) ≡ ok (encode v m)
unfolding check_event encode
check_event-encode b64 v (start a r p) hv h = ground (arith, valid_id-nil)
check_event-encode b64 v (append s t n a) hv h = ground (arith, valid_id-nil)
check_event-encode b64 v (commit s t) hv h = ground (arith, valid_id-nil)
check_event-encode b64 v (cancel s t) hv h = ground (arith, valid_id-nil)
check_event-encode b64 v (stop s t) hv h = ground (arith, valid_id-nil)
check_event-encode b64 v (confirm s t o a) hv h = ground (arith, valid_id-nil)
