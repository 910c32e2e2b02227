-- ===== src/Gateway/Session/Passage.antt =====
-- apps/voice-gateway/internal/adapters/voice/agent_handler.go: what becomes of a message of the client
-- and of an event of the agent in a session that has started.
use nova2sonici_osapp.Common.{
  ◌≡◌, refl, sym, ◌∙◌, inl, inr, true, false, Option, none, some, [], ◌∷◌, arith, Bool-cases,
  Option-cases, if◌then◌else◌,
}
use nova2sonici_osapp.Common.Int.{ℤ}
use nova2sonici_osapp.Common.Fallible.{ok, err, Fallible-cases}
use nova2sonici_osapp.Common.Text.{Text, codes, eq_text, eq_text_iff}
use nova2sonici_osapp.Voice.Event
use nova2sonici_osapp.Voice.Event.{Base64}
use nova2sonici_osapp.Voice.Message.{
  Message, IsAllowed, start as start_message, append, commit, cancel, stop, confirm, encode,
}
use nova2sonici_osapp.AgentWire.Types
use nova2sonici_osapp.AgentWire.Types.{
  Protocol, Command, agent_session_ready, agent_session_state, agent_session_renewed,
  agent_session_closed, output_audio, output_transcript, agent_error, ui_a2ui, other_event,
}
use nova2sonici_osapp.AgentWire.Protocol.{Decoder, decode_protocol, validate_event, check_event}
use nova2sonici_osapp.AgentWire.Handshake.{RemoteSession, Frame}
use nova2sonici_osapp.AgentWire.Link.{read_event}
use nova2sonici_osapp.AgentWire.Remote.{send_checks}
use nova2sonici_osapp.Gateway.Translate.{voice_event_from_agent, voice_type}
use nova2sonici_osapp.Gateway.Commands.{
  Means, IsBounded, is_session_start, session_of, fits_agent, agent_command-Means,
  send_checks-Means,
}
use nova2sonici_osapp.Gateway.Session.{Config, World, Session, sent, forward, fail}

-- Every message names its session as the event that carries it does.
encode-session_id :
    (v : ℤ) (m : Message) → is_session_start m ≡ false → (encode v m).session_id ≡ session_of m
unfolding encode
encode-session_id v (start_message a r p) h = cc
encode-session_id v (append s t n a) h = refl
encode-session_id v (commit s t) h = refl
encode-session_id v (cancel s t) h = refl
encode-session_id v (stop s t) h = refl
encode-session_id v (confirm s t o a) h = refl

-- An accepted message of this session, other than session.start, reaches the agent as the command that
-- says the same, over a connection that takes it, if its ids are ones that the agent's contract reads;
-- if not, the client is told that the provider is unavailable and the session ends.
pub forward-Message :
    (c : Config) (w : World) (a : RemoteSession) (s : Session) (v : ℤ) (m : Message)
    → IsBounded c.base64
    → IsAllowed c.base64 v m
    → is_session_start m ≡ false
    → session_of m ≡ s.id
    → a.session_id ≡ s.id
    → w.delivers ≡ true
    → (k : Command) × Means c.base64 m k
      × (forward c w a (encode v m) s ≡ (
          if fits_agent m
          then (s, sent k ∷ [])
          else fail w (codes "provider_unavailable") (codes "agent session disconnected") s))
unfolding forward
forward-Message c w a s v m bounded allowed other here linked delivers =
    let (k, made, means) = agent_command-Means c.base64 v m other allowed in
    let passes = send_checks-Means c.base64 v a.protocol m k bounded allowed means in
    let named : eq_text (encode v m).session_id s.id ≡ true =
      (eq_text_iff (encode v m).session_id s.id).1 (encode-session_id v m other ∙ here) in
    let same : a.session_id ≡ session_of m = linked ∙ sym here in
    (
      k,
      means,
      elim (Bool-cases (fits_agent m)) [
        | inl fits ↦
            let accepted = passes.1 fits in
            rw (forward, named, made, same, accepted, delivers, fits) refl
        | inr unfit ↦ elim (Fallible-cases (send_checks a.protocol (session_of m) k)) [
          | inl (e, refused) ↦ rw (forward, named, made, same, refused, unfit) refl
          | inr (tt, accepted) ↦ let fits = passes.0 accepted in absurd (cc (fits, unfit))
        ]
      ],
    )

-- The events that the contract names have a type for the client.
validated-translates :
    (b64 : Base64) (d : Decoder) (p : Protocol) (k : Types.EventType) (e : Types.Event)
    → e.kind ≡ k
    → check_event d p k e ≡ ok tt
    → (v : Event.Event) × (voice_event_from_agent b64 e ≡ ok v)
unfolding voice_event_from_agent voice_type check_event
validated-translates b64 d p k e same valid = elim (Fallible-cases (voice_event_from_agent b64 e)) [
  | inr (v, made) ↦ (v, made)
  | inl (m, bad) ↦ absurd (no_error k same valid m bad)
]
  where
    no_error :
        (k : Types.EventType)
        → e.kind ≡ k
        → check_event d p k e ≡ ok tt
        → (m : Text) → voice_event_from_agent b64 e ≡ err m
        → ⊥
    no_error (other_event t) same valid m bad = cc
    no_error _ same valid m bad = ground arith

-- An event that the gateway's end of the agent's connection hands on is one that the gateway
-- translates for the client, so that the session does not end over it.
pub read_event-translates :
    (b64 : Base64) (d : Decoder) (p : Protocol) (frame : Option Frame) (e : Types.Event)
    → read_event d p frame ≡ inl e
    → (v : Event.Event) × (voice_event_from_agent b64 e ≡ ok v)
unfolding read_event validate_event
read_event-translates b64 d p none e read = cc
read_event-translates b64 d p (some none) e read = cc
read_event-translates b64 d p (some (some t)) e read =
    elim (Fallible-cases (decode_protocol d t p)) [
      | inl (m, bad) ↦ absurd (ground arith)
      | inr (m, decoded) ↦ elim (Option-cases m.event) [
        | inl missing ↦ absurd (ground arith)
        | inr (e', has) ↦
            let same : e' ≡ e = ground arith in
            let valid : check_event d m.protocol e'.kind e' ≡ ok tt = ground arith in
            rw (← same) (validated-translates b64 d m.protocol e'.kind e' refl valid)
      ]
    ]
