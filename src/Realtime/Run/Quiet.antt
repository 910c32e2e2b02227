-- ===== src/Realtime/Run/Quiet.antt =====
-- packages/go/realtime/mapper.go: what each part of an operation says in a turn that is cancelled.
use nova2sonici_osapp.Common.{
  ◌+◌, ◌≡◌, refl, inl, inr, Bool, true, false, not, ◌&&◌, some, List, [], ◌∷◌, ◌++◌, arith, leb,
  length, all, Bool-cases, Option-cases,
}
use nova2sonici_osapp.Common.Assoc.{delete, has, has-insert}
use nova2sonici_osapp.Common.Text.{Text, codes, eq_text, eq_text_iff}
use nova2sonici_osapp.Voice.Event.{Base64, Event as VoiceEvent, EventType}
use nova2sonici_osapp.Voice.Event
use nova2sonici_osapp.Realtime.Types
use nova2sonici_osapp.Realtime.Types.{Mapper, World, Reply, Content, Kind, emits, fails, panics}
use nova2sonici_osapp.Realtime.Mapper.{
  interrupt, interrupt_response, start_assistant, start_input, complete, is_responding, state_event,
  turn_started,
}
use nova2sonici_osapp.Realtime.Mapping.{
  end_content, end_text, end_user_text, remember, complete_if, reply_of, use_tool, output_audio,
  output_text, start_content, start_user_content, open_turn,
}
use nova2sonici_osapp.Realtime.Run.{events_of}

-- The events by which a turn speaks, acts or ends.
abbrev pub speaks : EventType → Bool
speaks Event.transcript = true
speaks Event.audio_output = true
speaks Event.tool_started = true
speaks Event.turn_completed = true
speaks Event.turn_interrupted = true
speaks _ = false

-- The event is not one of those for the turn `t`.
abbrev pub silent : Text → VoiceEvent → Bool
silent t e = not (speaks e.kind && eq_text e.turn_id t)

-- A response in a turn that is cancelled already has sent no audio.
pub record IsQuiet (m : Mapper) : Type 0 where
  pub unsent : is_responding m.state ≡ true → has m.turn_id m.cancelled ≡ true → m.sequence ≡ 0

-- After the operation `t` is still cancelled, and nothing was said in it.
pub record Stays (t : Text) (m : Mapper) (es : List VoiceEvent) : Type 0 where
  pub cancelled : has t m.cancelled ≡ true
  pub said_nothing : all (silent t) es ≡ true
  pub quiet : IsQuiet m

module _ (t : Text) (w : World) (m : Mapper) (gone : has t m.cancelled ≡ true) (q : IsQuiet m) where
  pub interrupt-Stays : let (m', es) = interrupt w m in Stays t m' es
  unfolding interrupt state_event
  interrupt-Stays = ground (arith, eq_text_iff m.turn_id t, has-insert m.turn_id t m.cancelled)

  pub complete-Stays :
      has m.turn_id m.cancelled ≡ false → let (m', es) = complete w m in Stays t m' es
  unfolding complete state_event
  complete-Stays live = ground (arith, eq_text_iff m.turn_id t)

  pub start_assistant-Stays : (id : Text) → let (m', es) = start_assistant w id m in Stays t m' es
  unfolding start_assistant state_event turn_started
  start_assistant-Stays id = ground arith

  pub start_content-Stays :
      (e : Types.Event) → let (m', r) = start_content e m in Stays t m' (events_of r)
  unfolding start_content state_event
  start_content-Stays e = ground arith

  interrupt_response-Stays : let (m', es) = interrupt_response w m in Stays t m' es
  unfolding interrupt_response
  interrupt_response-Stays = elim (Bool-cases (is_responding m.state)) [
    | inl busy ↦ rw (busy, interrupt_response) interrupt-Stays
    | inr free ↦
        rw (free, interrupt_response) (record { cancelled = gone; said_nothing = refl; quiet = q })
  ]

module _ (t : Text) where
  pub all-append :
      (xs ys : List VoiceEvent)
      → all (silent t) xs ≡ true
      → all (silent t) ys ≡ true
      → all (silent t) (xs ++ ys) ≡ true
  all-append [] ys h k = k
  all-append (x ∷ xs) ys h k = ground (arith, all-append xs ys)

module _ (t : Text) (w : World) (m : Mapper) (gone : has t m.cancelled ≡ true) (q : IsQuiet m) where
  pub start_input-Stays : (id : Text) → let (m', es) = start_input w id m in Stays t m' es
  unfolding start_input state_event turn_started
  start_input-Stays id =
      let s = interrupt_response-Stays t w m gone q in
      record {
        cancelled = s.cancelled;
        said_nothing = all-append t (interrupt_response w m).1 _ s.said_nothing refl;
        quiet = record { unsent = λ r. cc };
      }

  open_turn-Stays : let (m', es) = open_turn w m in Stays t m' es
  unfolding open_turn turn_started
  open_turn-Stays = ground arith

  pub output_text-Stays :
      (e : Types.Event) (c : Content)
      → has c.turn m.cancelled ≡ false
      → let (m', r) = output_text e c m in Stays t m' (events_of r)
  unfolding output_text
  output_text-Stays e c live = ground (arith, eq_text_iff c.turn t)

  pub output_audio-Stays :
      (b64 : Base64) (e : Types.Event) (c : Content)
      → has c.turn m.cancelled ≡ false
      → eq_text c.turn m.turn_id ≡ true
      → let (m', r) = output_audio b64 w e c m in Stays t m' (events_of r)
  unfolding output_audio
  output_audio-Stays b64 e c live current =
      ground (arith, eq_text_iff c.turn t, eq_text_iff c.turn m.turn_id)

  pub use_tool-Stays :
      (e : Types.Event) (c : Content)
      → has c.turn m.cancelled ≡ false
      → Stays t m (use_tool e c ∷ [])
  unfolding use_tool
  use_tool-Stays e c live = ground (arith, eq_text_iff c.turn t)

module _ (t : Text) (w : World) (m : Mapper) (gone : has t m.cancelled ≡ true) (q : IsQuiet m) where
  pub start_user_content-Stays :
      (e : Types.Event) → let (m', r) = start_user_content w e m in Stays t m' (events_of r)
  unfolding start_user_content state_event
  start_user_content-Stays e =
      let m₁ = (interrupt_response w (record m { waiting_user = false })).0 in
      let s =
        interrupt_response-Stays t w (record m { waiting_user = false }) gone
          (record { unsent = q.unsent }) in
      let o = open_turn-Stays t w m₁ s.cancelled s.quiet in
      let events₁ = (interrupt_response w (record m { waiting_user = false })).1 in
      let events₂ = (open_turn w m₁).1 in
      elim (Bool-cases
        (leb 128 (length (open_turn w m₁).0.answered + length (open_turn w m₁).0.cancelled))) [
          | inl full ↦
              rw (full, start_user_content)
                (record {
                  cancelled = o.cancelled;
                  said_nothing = refl;
                  quiet = record { unsent = λ r. cc };
                })
          | inr room ↦
              rw (room, start_user_content)
                (record {
                  cancelled = o.cancelled;
                  said_nothing =
                      all-append t (events₁ ++ events₂) _
                        (all-append t events₁ events₂ s.said_nothing o.said_nothing) refl;
                  quiet = record { unsent = λ r. cc };
                })
        ]

  complete_if-Stays :
      (ready : Bool)
      → has m.turn_id m.cancelled ≡ false
      → let (m', r) = complete_if ready w m in Stays t m' (events_of r)
  unfolding complete_if reply_of
  complete_if-Stays true live = complete-Stays t w m gone q live
  complete_if-Stays false live = record { cancelled = gone; said_nothing = refl; quiet = q }

-- `remember` moves words to the history and changes nothing else that counts here.
remember-same :
    (c : Content) (m m' : Mapper)
    → remember c m ≡ some m'
    → (m'.cancelled ≡ m.cancelled)
      × (m'.turn_id ≡ m.turn_id)
      × (m'.state ≡ m.state)
      × (m'.sequence ≡ m.sequence)
unfolding remember
remember-same c m m' e = (ground arith, ground arith, ground arith, ground arith)

module _ (t : Text) (w : World) (m : Mapper) (gone : has t m.cancelled ≡ true) (q : IsQuiet m) where
  end_text-Stays :
      (e : Types.Event) (c : Content)
      → has m.turn_id m.cancelled ≡ false
      → let (m', r) = end_text w e c m in Stays t m' (events_of r)
  unfolding end_text end_user_text
  end_text-Stays e c live = elim (Bool-cases (eq_text c.role (codes "USER"))) [
    | inl user ↦ ground arith
    | inr other ↦ elim (Option-cases (remember c m)) [
      | inl broken ↦ ground arith
      | inr (m₁, kept) ↦
          let (same, turn, state, sequence) = remember-same c m m₁ kept in
          rw (other, end_text)
            (rw (kept, end_text)
              (complete_if-Stays t w m₁ (rw same gone) (record { unsent = λ r l. ground arith }) _
                (ground arith)))
    ]
  ]

module _ (t : Text) (w : World) (m : Mapper) (gone : has t m.cancelled ≡ true) (q : IsQuiet m) where
  pub end_content-Stays :
      (e : Types.Event) (c : Content)
      → has m.turn_id m.cancelled ≡ false
      → let (m', r) = end_content w e c m in Stays t m' (events_of r)
  unfolding end_content reply_of
  end_content-Stays e c live =
      let m₁ = record m { contents = delete e.content_id m.contents } in
      let quiet : IsQuiet m₁ = record { unsent = q.unsent } in
      ground (
        arith,
        interrupt-Stays t w m₁ gone quiet,
        complete_if-Stays t w m₁ gone quiet
            (eq_text c.kind (codes "AUDIO")
              && eq_text e.stop_reason (codes "END_TURN")
              && is_responding m₁.state)
            live,
        end_text-Stays t w m₁ gone quiet e c live,
      )
