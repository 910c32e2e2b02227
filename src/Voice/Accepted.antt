-- ===== src/Voice/Accepted.antt =====
-- packages/go/voicewire/event.go, DecodeClientVersion: every accepted event is the image of a message.
use nova2sonici_osapp.Common.{
  ◌≡◌, ◌↔◌, inl, inr, refl, sym, subst, Option-cases, Bool-cases, Bool, true, false, not, ◌&&◌,
  ◌||◌, Option, none, some, [], arith, ◌==◌,
}
use nova2sonici_osapp.Common.Fallible.{ok, reject_if-eq-ok, >>=-eq-ok, Fallible-cases}
use nova2sonici_osapp.Common.Int.{ℤ, pos, eq_ℤ}
use nova2sonici_osapp.Common.Text.{Text, is_empty}
use nova2sonici_osapp.Voice.Event.{
  Event, EventType, session_start, session_stop, audio_append, turn_commit, turn_cancel,
  tool_confirm, Tool, Base64, decode_audio,
}
use nova2sonici_osapp.Voice.Decode.{
  Decoder, check_kind, check_event, is_start, is_audio, server_fields, bad_id,
  decode_client_version,
}
use nova2sonici_osapp.Voice.Id.{valid_id}
use nova2sonici_osapp.Voice.Message.{
  Message, start, append, commit, cancel, stop, confirm, encode, IsAllowed, IsVersion,
  check_event-encode,
}

-- The tests that an accepted event has passed, in the order of the code.
record Passed (b64 : Base64) (v : ℤ) (e : Event) : Type 0 where
  version_test : (not (eq_ℤ v (pos 1)) && not (eq_ℤ v (pos 2)) || not (eq_ℤ e.version v)) ≡ false
  id_test : (bad_id e.session_id || bad_id e.turn_id) ≡ false
  v2_test :
      (not (is_empty e.ui)
        || not (is_empty e.agent_id)
          && (not (eq_ℤ e.version (pos 2)) || not (is_start e.kind) || not (valid_id e.agent_id)))
      ≡ false
  kind_test : check_kind b64 e.kind e ≡ ok tt
  session_test : (not (is_start e.kind) && is_empty e.session_id) ≡ false
  server_test : server_fields e ≡ false
  audio_test :
      (not (is_audio e.kind) && (not (is_empty e.audio) || not (eq_ℤ e.sample_rate (pos 0))))
      ≡ false
  request_test :
      (not (is_empty e.request_id) && (not (is_start e.kind) || not (valid_id e.request_id)))
      ≡ false
  provider_test : (not (is_start e.kind) && not (is_empty e.provider)) ≡ false
  sequence_test : (not (is_audio e.kind) && not (e.sequence == 0)) ≡ false

check_event-Passed :
    (b64 : Base64) (v : ℤ) (e e' : Event) → check_event b64 v e ≡ ok e' → Passed b64 v e × (e ≡ e')
unfolding check_event
check_event-Passed b64 v e e' h =
    let (t₁, h₁) = reject_if-eq-ok _ _ _ h in
    let (t₂, h₂) = reject_if-eq-ok _ _ _ h₁ in
    let (t₃, h₃) = reject_if-eq-ok _ _ _ h₂ in
    let (u, t₄, h₄) = >>=-eq-ok _ _ h₃ in
    let (t₅, h₅) = reject_if-eq-ok _ _ _ h₄ in
    let (t₆, h₆) = reject_if-eq-ok _ _ _ h₅ in
    let (t₇, h₇) = reject_if-eq-ok _ _ _ h₆ in
    let (t₈, h₈) = reject_if-eq-ok _ _ _ h₇ in
    let (t₉, h₉) = reject_if-eq-ok _ _ _ h₈ in
    let (t₁₀, h₁₀) = reject_if-eq-ok _ _ _ h₉ in
    (
      record {
        version_test = t₁;
        id_test = t₂;
        v2_test = t₃;
        kind_test = t₄;
        session_test = t₅;
        server_test = t₆;
        audio_test = t₇;
        request_test = t₈;
        provider_test = t₉;
        sequence_test = t₁₀;
      },
      ground arith,
    )

operation_of : Option Tool → Text
operation_of none = []
operation_of (some t) = t.operation_id

approval_of : Option Tool → Bool
approval_of none = false
approval_of (some t) = elim t.approved [ none ↦ false | some b ↦ b ]

-- The message that an accepted event carries.
unfoldable pub message_of : EventType → Event → Message
unfolding operation_of approval_of
message_of audio_append e = append e.session_id e.turn_id e.sequence e.audio
message_of turn_commit e = commit e.session_id e.turn_id
message_of turn_cancel e = cancel e.session_id e.turn_id
message_of session_stop e = stop e.session_id e.turn_id
message_of tool_confirm e =
    confirm e.session_id e.turn_id (operation_of e.tool) (approval_of e.tool)
message_of _ e = start e.agent_id e.request_id e.provider

abbrev Carries : Base64 → ℤ → Event → Message → Type 0
Carries b64 v e m = IsVersion v × IsAllowed b64 v m × (e ≡ encode v m)

module _ (b64 : Base64) (v : ℤ) (e : Event) (p : Passed b64 v e) where
  Passed-IsVersion : IsVersion v
  Passed-IsVersion = let t = p.version_test in ground arith

  Passed-start : e.kind ≡ session_start → Carries b64 v e (message_of session_start e)
  unfolding message_of encode check_kind
  Passed-start k = (Passed-IsVersion, (ground arith, ground arith), ground arith)

  Passed-append : e.kind ≡ audio_append → Carries b64 v e (message_of audio_append e)
  unfolding message_of encode check_kind
  Passed-append k = elim (Fallible-cases (decode_audio b64 e.audio)) [
    | inl (_, broken) ↦ absurd (ground arith)
    | inr pcm ↦ (Passed-IsVersion, (ground arith, ground arith, ground arith, pcm), ground arith)
  ]

  Passed-commit : e.kind ≡ turn_commit → Carries b64 v e (message_of turn_commit e)
  unfolding message_of encode check_kind
  Passed-commit k = (Passed-IsVersion, (ground arith, ground arith), ground arith)

  Passed-cancel : e.kind ≡ turn_cancel → Carries b64 v e (message_of turn_cancel e)
  unfolding message_of encode check_kind
  Passed-cancel k = (Passed-IsVersion, (ground arith, ground arith), ground arith)

  Passed-stop : e.kind ≡ session_stop → Carries b64 v e (message_of session_stop e)
  unfolding message_of encode check_kind
  Passed-stop k = (Passed-IsVersion, (ground arith, ground arith), ground arith)

  Passed-confirm : e.kind ≡ tool_confirm → Carries b64 v e (message_of tool_confirm e)
  unfolding message_of encode check_kind
  Passed-confirm k = (Passed-IsVersion, (ground arith, ground arith, ground arith), ground arith)

  Passed-Carries : (k : EventType) → e.kind ≡ k → (m : Message) × Carries b64 v e m
  unfolding check_kind
  Passed-Carries session_start k = (message_of session_start e, Passed-start k)
  Passed-Carries audio_append k = (message_of audio_append e, Passed-append k)
  Passed-Carries turn_commit k = (message_of turn_commit e, Passed-commit k)
  Passed-Carries turn_cancel k = (message_of turn_cancel e, Passed-cancel k)
  Passed-Carries session_stop k = (message_of session_stop e, Passed-stop k)
  Passed-Carries tool_confirm k = (message_of tool_confirm e, Passed-confirm k)
  Passed-Carries _ k = let t = p.kind_test in absurd (ground arith)

-- The gateway accepts a frame in version `v` exactly if it is one JSON event and that event is the
-- image of an allowed message: then the version is 1 or 2, and every field that the message does not
-- use has its zero value.
pub decode_client_version_iff :
    (b64 : Base64) (d : Decoder) (input : Text) (v : ℤ) (e : Event)
    → (decode_client_version b64 d input v ≡ ok e)
      ↔ ((d.event input ≡ some e) × (d.at_end input ≡ true) × ((m : Message) × Carries b64 v e m))
unfolding decode_client_version
decode_client_version_iff b64 d input v e = (sound, complete)
  where
    sound :
        decode_client_version b64 d input v ≡ ok e
        → (d.event input ≡ some e) × (d.at_end input ≡ true) × ((m : Message) × Carries b64 v e m)
    sound h = elim (Option-cases (d.event input)) [
      | inl broken ↦ absurd (ground arith)
      | inr (e₀, read) ↦ elim (Bool-cases (d.at_end input)) [
        | inr more ↦ absurd (ground arith)
        | inl done ↦
            let checked : check_event b64 v e₀ ≡ ok e = ground arith in
            let (p, same) = check_event-Passed b64 v e₀ e checked in
            (
              ground arith,
              done,
              subst (λ x. (m : Message) × Carries b64 v x m) same
                  (Passed-Carries b64 v e₀ p e₀.kind refl),
            )
      ]
    ]

    complete :
        (d.event input ≡ some e) × (d.at_end input ≡ true) × ((m : Message) × Carries b64 v e m)
        → decode_client_version b64 d input v ≡ ok e
    complete (read, done, (m, (version, allowed, image))) =
        let checked : check_event b64 v e ≡ ok e =
          subst (λ x. check_event b64 v x ≡ ok x) (sym image)
            (check_event-encode b64 v m version allowed) in
        ground arith
