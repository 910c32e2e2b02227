-- ===== src/Gateway/Session/Sound.antt =====
-- apps/voice-gateway/internal/adapters/voice/agent_handler.go: all that a session does is in order.
use nova2sonici_osapp.Common.{
  ℕ, suc, ◌+◌, is_some, ◌≡◌, ◌≢◌, refl, ap, subst, ◌∙◌, inl, inr, Bool, true, false, not, ◌&&◌,
  none, some, List, [], ◌∷◌, ◌++◌, All, All-append, arith, Bool-cases, Option-cases, if◌then◌else◌,
}
use nova2sonici_osapp.Common.Int.{ℤ}
use nova2sonici_osapp.Common.Fallible.{ok, err, Fallible-cases}
use nova2sonici_osapp.Common.Text.{Text, codes, eq_text, is_empty}
use nova2sonici_osapp.Voice.Event
use nova2sonici_osapp.Voice.Decode
use nova2sonici_osapp.Voice.Decode.{decode_client_version, is_start}
use nova2sonici_osapp.Voice.Message.{
  Message, IsAllowed, start as start_message, append, commit, cancel, stop, confirm, encode,
}
use nova2sonici_osapp.Voice.Accepted.{decode_client_version_iff}
use nova2sonici_osapp.AgentWire.Types
use nova2sonici_osapp.AgentWire.Types.{Protocol, Start, Command, Principal}
use nova2sonici_osapp.AgentWire.Handshake.{RemoteSession, open_remote}
use nova2sonici_osapp.AgentWire.Trust.{open_remote-Opened}
use nova2sonici_osapp.AgentWire.Remote.{send_checks}
use nova2sonici_osapp.Gateway.Translate.{agent_command_from_voice, voice_event_from_agent}
use nova2sonici_osapp.Gateway.Commands.{agent_command-Means}
use nova2sonici_osapp.Gateway.Session.{
  Config, Session, Signal, context_done, start_timeout, client_gone, agent_gone, ping, input,
  agent_event, World, Output, frame, opened, sent, panicked, Step, read_input, stamp, written,
  error_event, complain, fail, select_agent, selected_agent, start_of, open_agent, first_event,
  forward, relay, waiting, serving, step,
}
use nova2sonici_osapp.Gateway.Session.Choice.{Any, IsChoice, has_first, select_agent-found}

-- What a session of this version and id, of a client with this principal, may do: a frame says the
-- version and the id, an agent is one that the session may open, with the principal of the configuration
-- if the catalog has an agent of protocol 1 under its name and that of the client if not, a command is
-- one that the agent's server accepts for the session, and nothing panics.
abbrev pub IsSound : Config → ℤ → Text → Principal → Output → Type 0
IsSound c v id own (frame e) = (e.version ≡ v) × (e.session_id ≡ id)
IsSound c v id own (opened start) =
    (start.session_id ≡ id)
    × Any (IsChoice v start.agent_id) c.catalog
    × (start.principal ≡ (if has_first start.agent_id c.catalog then c.principal else own))
IsSound c v id own (sent command) = (p : Protocol) × (send_checks p id command ≡ ok tt)
IsSound c v id own panicked = ⊥

-- An agent's session has the id of the client's session.
abbrev pub IsLinked : Session → Type 0
IsLinked s = (a : RemoteSession) → s.agent ≡ some a → a.session_id ≡ s.id

unfoldable pub opens : List Output → ℕ
opens [] = 0
opens (opened start ∷ os) = suc (opens os)
opens (_ ∷ os) = opens os

abbrev pub held : Session → ℕ
held s = if is_some s.agent then 1 else 0

opens-append : (os ps : List Output) → opens (os ++ ps) ≡ opens os + opens ps
unfolding opens
opens-append [] ps = omega arith
opens-append (frame e ∷ os) ps = opens-append os ps
opens-append (opened x ∷ os) ps = omega (arith, opens-append os ps)
opens-append (sent k ∷ os) ps = opens-append os ps
opens-append (panicked ∷ os) ps = opens-append os ps

pub record Abides (c : Config) (s : Session) (s' : Session) (os : List Output) : Type 0 where
  pub version : s'.version ≡ s.version
  pub id : s'.id ≡ s.id
  pub principal : s'.principal ≡ s.principal
  pub linked : IsLinked s'
  pub sound : All (IsSound c s.version s.id s.principal) os
  -- An agent is opened exactly where the session gets one.
  pub once : opens os + held s ≡ held s'

-- An event that readVoiceEvents has decoded.
abbrev pub IsDecoded : Config → ℤ → Signal → Type 0
IsDecoded c v (input (ok e)) =
    (d : Decode.Decoder) × (is_text : Bool) × (data_text : Text) × (read_input c.base64 d v is_text
        data_text
      ≡ ok e)
IsDecoded c v _ = Unit

read_input-decodes :
    (c : Config) (v : ℤ) (d : Decode.Decoder) (is_text : Bool) (data_text : Text) (e : Event.Event)
    → read_input c.base64 d v is_text data_text ≡ ok e
    → decode_client_version c.base64 d data_text v ≡ ok e
unfolding read_input
read_input-decodes c v d is_text data_text e h =
    elim (Fallible-cases (decode_client_version c.base64 d data_text v)) [
      | inl (m, bad) ↦ absurd (ground arith)
      | inr (e', good) ↦ ground arith
    ]

-- The translation of an accepted event does not follow a nil pointer.
decoded-translates :
    (c : Config) (v : ℤ) (d : Decode.Decoder) (data_text : Text) (e : Event.Event)
    → decode_client_version c.base64 d data_text v ≡ ok e
    → agent_command_from_voice c.base64 e ≢ none
unfolding agent_command_from_voice encode
decoded-translates c v d data_text e h =
    let (_, _, (m, (_, allowed, same))) =
      (decode_client_version_iff c.base64 d data_text v e).0 h in
    rw same (go m allowed)
  where
    go :
        (m : Message)
        → IsAllowed c.base64 v m
        → agent_command_from_voice c.base64 (encode v m) ≢ none
    go (start_message a r p) allowed = λ h. ground arith
    go (append s t n a) allowed =
        let (k, made, _) = agent_command-Means c.base64 v (append s t n a) refl allowed in
        λ h. ground arith
    go (commit s t) allowed = λ h. ground arith
    go (cancel s t) allowed = λ h. ground arith
    go (stop s t) allowed = λ h. ground arith
    go (confirm s t o a) allowed = λ h. ground arith

module _ (c : Config) (w : World) (s : Session) (linked : IsLinked s) where
  -- A write of one event, with what changes neither the version nor the ids.
  writes-Abides :
      (s' : Session) (e : Event.Event)
      → s'.version ≡ s.version
      → s'.id ≡ s.id
      → s'.principal ≡ s.principal
      → s'.agent ≡ s.agent
      → Abides c s s' (written w s e)
  unfolding stamp opens
  writes-Abides s' e version id principal agent = record {
    version = version;
    id = id;
    principal = principal;
    linked = rw (id, agent) linked;
    sound = elim (Bool-cases w.writes) [ inl on ↦ rw on ((refl, refl), tt) | inr off ↦ rw off tt ];
    once = ground (arith, agent);
  }

  complain-Abides : (code m : Text) → let (s', os) = complain w code m s in Abides c s s' os
  unfolding complain
  complain-Abides code m = writes-Abides _ (error_event code m) refl refl refl refl

  fail-Abides : (code m : Text) → let (s', os) = fail w code m s in Abides c s s' os
  unfolding fail
  fail-Abides code m = writes-Abides _ (error_event code m) refl refl refl refl

  -- Nothing is done.
  quiet-Abides : (ended : Bool) → Abides c s (record s { ended = ended }) []
  unfolding opens
  quiet-Abides ended = record {
    version = refl;
    id = refl;
    principal = refl;
    linked = linked;
    sound = tt;
    once = omega arith;
  }

  open_agent-Abides :
      (e : Event.Event) → s.agent ≡ none → let (s', os) = open_agent c w e s in Abides c s s' os
  unfolding open_agent start_of opens
  open_agent-Abides e none_yet =
      let selected = selected_agent c s e in
      let chosen = select_agent s.version selected c.principal c.catalog (false, s.principal) in
      let start = start_of c s e chosen.1 in
      elim (Bool-cases chosen.0) [
        | inr unknown ↦
            rw (open_agent, unknown)
              (fail-Abides (codes "agent_unavailable") (codes "agent is not available"))
        | inl found ↦
            elim (Fallible-cases
              (open_remote c.agents c.decoder c.endpoints w.nonce start w.dialled)) [
                | inl (m, bad) ↦
                    rw (open_agent, found, bad)
                      (fail-Abides (codes "provider_unavailable")
                        (codes "agent session could not start"))
                | inr (agent, good) ↦
                    let meant =
                      select_agent-found s.version selected c.principal s.principal chosen.1
                        c.catalog (ap (λ b. (b, chosen.1)) found) in
                    let (_, _, o, _) =
                      open_remote-Opened c.agents c.decoder c.endpoints w.nonce start w.dialled
                        agent good in
                    rw (open_agent, found, good)
                      (record {
                        version = refl;
                        id = refl;
                        principal = refl;
                        linked = λ a h. ground (arith, o.session);
                        sound = ((refl, meant.0, meant.1), tt);
                        once = ground (arith, none_yet);
                      })
              ]
      ]

  first_event-Abides :
      (e : Event.Event) → s.agent ≡ none → let (s', os) = first_event c w e s in Abides c s s' os
  unfolding first_event
  first_event-Abides e none_yet = elim (Bool-cases (is_start e.kind)) [
    | inr other ↦
        rw (first_event, other)
          (complain-Abides (codes "session_required") (codes "first event must be session.start"))
    | inl starts ↦
        elim (Bool-cases (not (is_empty e.provider) && not (eq_text e.provider c.provider))) [
          | inl wrong ↦
              rw (first_event, starts, wrong)
                (complain-Abides (codes "provider_unavailable")
                  (codes "requested provider is not selected"))
          | inr right ↦ rw (first_event, starts, right) (open_agent-Abides e none_yet)
        ]
  ]

  forward-Abides :
      (a : RemoteSession) (e : Event.Event)
      → s.agent ≡ some a
      → agent_command_from_voice c.base64 e ≢ none
      → let (s', os) = forward c w a e s in Abides c s s' os
  unfolding forward opens
  forward-Abides a e has translates = elim (Bool-cases (eq_text e.session_id s.id)) [
    | inr other ↦
        rw (forward, other)
          (complain-Abides (codes "session_mismatch")
            (codes "sessionId does not match this connection"))
    | inl same ↦ elim (Option-cases (agent_command_from_voice c.base64 e)) [
      | inl nil ↦ absurd (translates nil)
      | inr (result, made) ↦ elim (Fallible-cases result) [
        | inl (m, bad) ↦
            rw (forward, same, made, bad) (complain-Abides (codes "invalid_transition") m)
        | inr (command, good) ↦
            elim (Fallible-cases (send_checks a.protocol a.session_id command)) [
              | inl (m, refused) ↦
                  rw (forward, same, made, good, refused)
                    (fail-Abides (codes "provider_unavailable")
                      (codes "agent session disconnected"))
              | inr (tt, accepted) ↦ elim (Bool-cases w.delivers) [
                | inr broken ↦
                    rw (forward, same, made, good, accepted, broken)
                      (fail-Abides (codes "provider_unavailable")
                        (codes "agent session disconnected"))
                | inl delivered ↦
                    rw (forward, same, made, good, accepted, delivered)
                      (record {
                        version = refl;
                        id = refl;
                        principal = refl;
                        linked = linked;
                        sound = ((a.protocol, rw (← linked a has) accepted), tt);
                        once = omega arith;
                      })
              ]
            ]
      ]
    ]
  ]

  relay-Abides : (e : Types.Event) → let (s', os) = relay c w e s in Abides c s s' os
  unfolding relay fail
  relay-Abides e = elim (Fallible-cases (voice_event_from_agent c.base64 e)) [
    | inl (m, bad) ↦
        rw (relay, bad)
          (writes-Abides _
            (error_event (codes "provider_failed") (codes "agent returned an invalid event")) refl
            refl refl refl)
    | inr (v, good) ↦ rw (relay, good) (writes-Abides _ v refl refl refl refl)
  ]

  waiting-Abides :
      (g : Signal)
      → s.agent ≡ none
      → IsDecoded c s.version g
      → let (s', os) = waiting c w g s in Abides c s s' os
  unfolding waiting
  waiting-Abides context_done none_yet d = quiet-Abides true
  waiting-Abides client_gone none_yet d = quiet-Abides true
  waiting-Abides start_timeout none_yet d =
      fail-Abides (codes "session_timeout") (codes "session.start was not received in time")
  waiting-Abides (ping wrote) none_yet d = quiet-Abides (not wrote)
  waiting-Abides (input (err m)) none_yet d = complain-Abides (codes "invalid_event") m
  waiting-Abides (input (ok e)) none_yet d = first_event-Abides e none_yet
  waiting-Abides agent_gone none_yet d = quiet-Abides s.ended
  waiting-Abides (agent_event e) none_yet d = quiet-Abides s.ended

  serving-Abides :
      (a : RemoteSession) (g : Signal)
      → s.agent ≡ some a
      → IsDecoded c s.version g
      → let (s', os) = serving c w a g s in Abides c s s' os
  unfolding serving
  serving-Abides a context_done has d = quiet-Abides true
  serving-Abides a client_gone has d = quiet-Abides true
  serving-Abides a agent_gone has d = quiet-Abides true
  serving-Abides a start_timeout has d = quiet-Abides s.ended
  serving-Abides a (ping wrote) has d = quiet-Abides (not wrote)
  serving-Abides a (input (err m)) has d = complain-Abides (codes "invalid_event") m
  serving-Abides a (input (ok e)) has (decoder, is_text, data_text, read) = forward-Abides a e has (
      decoded-translates c s.version decoder data_text e
        (read_input-decodes c s.version decoder is_text data_text e read))
  serving-Abides a (agent_event e) has d = relay-Abides e

  step-Abides :
      (g : Signal) → IsDecoded c s.version g → let (s', os) = step c w g s in Abides c s s' os
  unfolding step
  step-Abides g d = elim (Bool-cases s.ended) [
    | inl over ↦ let same : step c w g s ≡ (s, []) = ground arith in rw same (quiet-Abides s.ended)
    | inr on ↦ elim (Option-cases s.agent) [
      | inl none_yet ↦
          let same : step c w g s ≡ waiting c w g s = ground arith in
          rw same (waiting-Abides g none_yet d)
      | inr (a, has) ↦
          let same : step c w g s ≡ serving c w a g s = ground arith in
          rw same (serving-Abides a g has d)
    ]
  ]

-- A run: what is selected one after the other, each with what the network does meanwhile.
unfoldable pub run : Config → List (World × Signal) → Session → Step
unfolding step
run c [] s = (s, [])
run c ((w, g) ∷ gs) s =
    let (s₁, first) = step c w g s in let (s₂, rest) = run c gs s₁ in (s₂, first ++ rest)

-- A session whose agent's session, if it has one, has its id, whatever is selected in whatever order
-- and whatever the network does, where its inputs are events that readVoiceEvents decoded for its
-- version: it keeps its version, its id and the principal of its client; each frame says the version
-- and the id; each agent that it opens is one of the catalog, and not one of protocol 2 if the client's
-- version is 1; it is opened with the configured principal if the catalog has an agent of protocol 1
-- under its name, and with the client's principal if not; each command is one that ValidateCommand
-- accepts for this session; and nothing panics. It opens an agent exactly once if it has one at the end
-- and none at the start.
pub run-Abides :
    (c : Config) (gs : List (World × Signal)) (s : Session)
    → IsLinked s
    → All (λ g. IsDecoded c s.version g.1) gs
    → let (s', os) = run c gs s in Abides c s s' os
unfolding run opens
run-Abides c [] s linked decoded = record {
  version = refl;
  id = refl;
  principal = refl;
  linked = linked;
  sound = tt;
  once = omega arith;
}
run-Abides c ((w, g) ∷ gs) s linked decoded =
    let one = step-Abides c w s linked g decoded.0 in
    let s₁ = (step c w g s).0 in
    let later = run-Abides c gs s₁ one.linked (rw one.version decoded.1) in
    let sound : All (IsSound c s.version s.id s.principal) (run c gs s₁).1 =
      subst (λ v. All (IsSound c v s.id s.principal) (run c gs s₁).1) one.version
        (subst (λ i. All (IsSound c s₁.version i s.principal) (run c gs s₁).1) one.id
          (subst (λ p. All (IsSound c s₁.version s₁.id p) (run c gs s₁).1) one.principal
            later.sound)) in
    record {
      version = later.version ∙ one.version;
      id = later.id ∙ one.id;
      principal = later.principal ∙ one.principal;
      linked = later.linked;
      sound = All-append (IsSound c s.version s.id s.principal) (step c w g s).1 _ one.sound sound;
      once = omega (arith, opens-append (step c w g s).1 (run c gs s₁).1, one.once, later.once);
    }
