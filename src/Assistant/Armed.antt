-- ===== src/Assistant/Armed.antt =====
-- apps/personal-assistant-agent/internal/agent/runtime.go with packages/go/realtime/mapper.go: the events of
-- the mapper set the turn timer whenever it begins to respond.
use nova2sonici_osapp.Common.{
  ◌≡◌, refl, sym, ap, ◌∙◌, inl, inr, Bool, true, false, not, ◌&&◌, ◌||◌, some, List, [], ◌∷◌, ◌++◌,
  arith, length, leb, Bool-cases, Option-cases,
}
use nova2sonici_osapp.Common.Assoc.{lookup, insert, delete, has}
use nova2sonici_osapp.Common.Text.{Text, codes, eq_text}
use nova2sonici_osapp.Voice.Event.{Base64, Event}
use nova2sonici_osapp.Realtime.Types
use nova2sonici_osapp.Realtime.Types.{
  Mapper, World, Content, Kind, interrupted, completion_end, content_start, text_output,
  audio_output, tool_use, content_end, other_kind, Reply, emits, fails, panics, state_name, State,
  idle, listening, responding,
}
use nova2sonici_osapp.Realtime.Mapper.{
  is_responding, state_event, interrupt, interrupt_response, start_input, complete,
}
use nova2sonici_osapp.Realtime.Mapping.{
  map_event, map_kind, find_content, on_content, end_content, end_text, end_user_text, remember,
  complete_if, reply_of, output_text, output_audio, start_content, start_user_content, use_tool,
  may_complete, content_of, trim, exchange, text_at,
}
use nova2sonici_osapp.Assistant.Calls.{is_content_start}
use nova2sonici_osapp.Assistant.Timed.{arms}

-- What a step of the mapper does to the timer: a mapper that responds keeps it, or sets it.
abbrev pub Arms : Mapper → Mapper → List Event → Type 0
Arms m m' es =
    (b : Bool)
    → (is_responding m.state ≡ true → b ≡ true)
    → is_responding m'.state ≡ true
    → arms es b ≡ true

-- The same for a reply; what fails sends nothing.
abbrev pub ArmsReply : Mapper → Mapper × Reply → Type 0
ArmsReply m p = (es : List Event) → p.1 ≡ emits es → Arms m p.0 es

abbrev pub Ends : Mapper → Mapper → Type 0
Ends m m' = is_responding m'.state ≡ true → is_responding m.state ≡ true

pub interrupt-Arms : (w : World) (m : Mapper) → Arms m (interrupt w m).0 (interrupt w m).1
unfolding interrupt state_event arms
interrupt-Arms w m b h r = ground (arith, h, r)

pub interrupt-Ends : (w : World) (m : Mapper) → Ends m (interrupt w m).0
unfolding interrupt
interrupt-Ends w m r = ground (arith, r)

complete-Ends : (w : World) (m : Mapper) → Ends m (complete w m).0
unfolding complete
complete-Ends w m r = ground arith

complete-Arms : (w : World) (m m₀ : Mapper) → Arms m₀ (complete w m).0 (complete w m).1
unfolding complete state_event arms
complete-Arms w m m₀ b h r = ground arith

pub start_input-Arms :
    (w : World) (id : Text) (m : Mapper) → Arms m (start_input w id m).0 (start_input w id m).1
unfolding start_input interrupt_response
start_input-Arms w id m b h r = ground arith

emits-inj : (es fs : List Event) → emits es ≡ emits fs → es ≡ fs
emits-inj es fs h = cc

module _ (b64 : Base64) (w : World) (e : Types.Event) where
  output_text-ArmsReply : (c : Content) (m : Mapper) → ArmsReply m (output_text e c m)
  unfolding output_text arms
  output_text-ArmsReply c m es sent b h r = ground (arith, h, r)

  output_audio-ArmsReply : (c : Content) (m : Mapper) → ArmsReply m (output_audio b64 w e c m)
  unfolding output_audio arms
  output_audio-ArmsReply c m es sent b h r = ground (arith, h, r)

  start_user-ArmsReply : (m : Mapper) → ArmsReply m (start_user_content w e m)
  unfolding start_user_content
  start_user-ArmsReply m es sent b h r = ground arith

  start_content-ArmsReply : (m : Mapper) → ArmsReply m (start_content e m)
  unfolding start_content arms state_event state_name eq_text
  start_content-ArmsReply m es sent b h r = elim (Bool-cases m.waiting_user) [
    | inl waits ↦
        let same : start_content e m ≡ (m, emits []) = ground arith in
        let none_sent : [] ≡ es = emits-inj [] es (ap (λ p. p.1) (sym same) ∙ sent) in
        rw (← none_sent) (h (ap (λ p. is_responding p.0.state) (sym same) ∙ r))
    | inr heard ↦ elim (Bool-cases (leb 1024 (length m.contents))) [
      | inl full ↦ absurd (ground arith)
      | inr room ↦ elim (Bool-cases answers) [
        | inl answering ↦
            let m₁ = record m {
              contents = insert e.content_id (content_of m e e.rate) m.contents;
            } in
            let m₂ = record m₁ { state = responding } in
            let same : start_content e m ≡ (m₂, emits (state_event m₂ ∷ [])) = ground arith in
            let one_sent : state_event m₂ ∷ [] ≡ es =
              emits-inj (state_event m₂ ∷ []) es (ap (λ p. p.1) (sym same) ∙ sent) in
            rw (← one_sent) refl
        | inr others ↦
            let m₁ = record m {
              contents = insert e.content_id (content_of m e e.rate) m.contents;
            } in
            let same : start_content e m ≡ (m₁, emits []) = ground arith in
            let none_sent : [] ≡ es = emits-inj [] es (ap (λ p. p.1) (sym same) ∙ sent) in
            rw (← none_sent) (h (ap (λ p. is_responding p.0.state) (sym same) ∙ r))
      ]
    ]
  ]
    where
      answers : Bool
      answers =
          eq_text e.role (codes "ASSISTANT")
          && (eq_text e.content_type (codes "AUDIO") || eq_text e.stage (codes "SPECULATIVE"))
          && not (has m.turn_id m.cancelled)

  end_user_text-Ends : (c : Content) (m : Mapper) → Ends m (end_user_text c m).0
  unfolding end_user_text
  end_user_text-Ends c m r = ground (arith, r)

  remember-state : (c : Content) (m m' : Mapper) → remember c m ≡ some m' → m'.state ≡ m.state
  unfolding remember
  remember-state c m m' h =
      elim (Option-cases (trim (m.history ++ exchange (text_at c.turn m.users) c.text))) [
        | inl long ↦ ground arith
        | inr (kept, short) ↦ ground arith
      ]

  end_text-Ends : (c : Content) (m : Mapper) → Ends m (end_text w e c m).0
  unfolding end_text complete_if reply_of complete
  end_text-Ends c m r = elim (Option-cases (remember c m)) [
    | inl long ↦ ground (arith, r, end_user_text-Ends c m)
    | inr (m', kept) ↦ ground (arith, r, end_user_text-Ends c m, remember-state c m m' kept)
  ]

  end_content-Ends : (c : Content) (m : Mapper) → Ends m (end_content w e c m).0
  unfolding end_content complete_if reply_of complete
  end_content-Ends c m r =
      let m₁ = record m { contents = delete e.content_id m.contents } in
      ground (arith, r, interrupt-Ends w m₁, end_text-Ends c m₁)

  end_text-Arms : (c : Content) (m : Mapper) → ArmsReply m (end_text w e c m)
  unfolding end_text complete_if reply_of complete end_user_text arms
  end_text-Arms c m es sent b h r = elim (Option-cases (remember c m)) [
    | inl long ↦ ground (arith, h, r)
    | inr (m', kept) ↦ ground (arith, h, r, remember-state c m m' kept)
  ]

  end_content-ArmsReply : (c : Content) (m : Mapper) → ArmsReply m (end_content w e c m)
  unfolding end_content complete_if reply_of complete arms
  end_content-ArmsReply c m es sent b h r =
      let m₁ = record m { contents = delete e.content_id m.contents } in
      elim (Bool-cases (eq_text e.stop_reason (codes "INTERRUPTED"))) [
        | inl stops ↦ ground (arith, r, h, sent, interrupt-Arms w m₁ b)
        | inr goes ↦
            elim (Bool-cases (eq_text c.kind (codes "TEXT") && eq_text c.stage (codes "FINAL"))) [
              | inl text ↦
                  let same : end_content w e c m ≡ end_text w e c m₁ = ground arith in
                  end_text-Arms c m₁ es (ap (λ p. p.1) (sym same) ∙ sent) b h
                    (ap (λ p. is_responding p.0.state) (sym same) ∙ r)
              | inr other ↦ ground (arith, r, h, sent)
            ]
      ]

  -- A content of the live turn.
  on_content-ArmsReply :
      (k : Kind) (c : Content) (m : Mapper) → ArmsReply m (on_content b64 w k e c m)
  unfolding on_content arms use_tool
  on_content-ArmsReply text_output c m es sent b h r = output_text-ArmsReply c m es sent b h r
  on_content-ArmsReply audio_output c m es sent b h r = output_audio-ArmsReply c m es sent b h r
  on_content-ArmsReply tool_use c m es sent b h r = ground (arith, h, r)
  on_content-ArmsReply content_end c m es sent b h r = end_content-ArmsReply c m es sent b h r
  on_content-ArmsReply k c m es sent b h r = ground (arith, h, r)

  find_content-ArmsReply : (m : Mapper) → ArmsReply m (find_content b64 w e m)
  unfolding find_content arms
  find_content-ArmsReply m es sent b h r = elim (Option-cases (lookup e.content_id m.contents)) [
    | inl missing ↦ ground (arith, h, r)
    | inr (c, found) ↦
        elim (Bool-cases (has c.turn m.cancelled || not (eq_text c.turn m.turn_id))) [
          | inl over ↦ ground (arith, h, r)
          | inr live ↦
              let same : find_content b64 w e m ≡ on_content b64 w e.kind e c m = ground arith in
              on_content-ArmsReply e.kind c m es (ap (λ p. p.1) (sym same) ∙ sent) b h
                (ap (λ p. is_responding p.0.state) (sym same) ∙ r)
        ]
  ]

  map_kind-ArmsReply : (k : Kind) (m : Mapper) → ArmsReply m (map_kind b64 w k e m)
  unfolding map_kind reply_of
  map_kind-ArmsReply interrupted m es sent b h r = ground (arith, h, r, sent, interrupt-Arms w m b)
  map_kind-ArmsReply completion_end m es sent b h r = elim (Bool-cases (may_complete e m)) [
    | inl completes ↦ ground (arith, r, complete-Ends w m, complete-Arms w m m b h, sent)
    | inr goes ↦
        let same : map_kind b64 w completion_end e m ≡ find_content b64 w e m = ground arith in
        find_content-ArmsReply m es (ap (λ p. p.1) (sym same) ∙ sent) b h
          (ap (λ p. is_responding p.0.state) (sym same) ∙ r)
  ]
  map_kind-ArmsReply content_start m es sent b h r =
      elim (Bool-cases (eq_text e.role (codes "USER"))) [
        | inl user ↦
            let same : map_kind b64 w content_start e m ≡ start_user_content w e m = ground arith in
            start_user-ArmsReply m es (ap (λ p. p.1) (sym same) ∙ sent) b h
              (ap (λ p. is_responding p.0.state) (sym same) ∙ r)
        | inr other ↦
            let same : map_kind b64 w content_start e m ≡ start_content e m = ground arith in
            start_content-ArmsReply m es (ap (λ p. p.1) (sym same) ∙ sent) b h
              (ap (λ p. is_responding p.0.state) (sym same) ∙ r)
      ]
  map_kind-ArmsReply k m es sent b h r = find_content-ArmsReply m es sent b h r

  pub map_event-ArmsReply : (m : Mapper) → ArmsReply m (map_event b64 w e m)
  unfolding map_event
  map_event-ArmsReply m es sent b h r = elim (Option-cases e.failure) [
    | inr (message, failed) ↦ absurd (ground arith)
    | inl fine ↦
        let same : map_event b64 w e m ≡ map_kind b64 w e.kind e m = ground arith in
        map_kind-ArmsReply e.kind m es (ap (λ p. p.1) (sym same) ∙ sent) b h
          (ap (λ p. is_responding p.0.state) (sym same) ∙ r)
  ]

  on_content-Ends : (k : Kind) (c : Content) (m : Mapper) → Ends m (on_content b64 w k e c m).0
  unfolding on_content output_text output_audio
  on_content-Ends content_end c m r = end_content-Ends c m r
  on_content-Ends k c m r = ground (arith, r)

  find_content-Ends : (m : Mapper) → Ends m (find_content b64 w e m).0
  unfolding find_content
  find_content-Ends m r = elim (Option-cases (lookup e.content_id m.contents)) [
    | inl missing ↦ ground (arith, r)
    | inr (c, found) ↦ ground (arith, r, on_content-Ends e.kind c m)
  ]

  -- An event that is not the start of a content does not make the mapper respond.
  pub map_event-Ends :
      (m : Mapper) → is_content_start e.kind ≡ false → Ends m (map_event b64 w e m).0
  unfolding map_event map_kind reply_of
  map_event-Ends m other r = elim (Option-cases e.failure) [
    | inr (message, failed) ↦ ground (arith, r)
    | inl fine ↦ ground (arith, r, find_content-Ends m, interrupt-Ends w m, complete-Ends w m)
  ]
