-- ===== src/Realtime/Run/History.antt =====
-- packages/go/realtime/mapper.go: the history keeps whole exchanges within its limits.
use nova2sonici_osapp.Common.{
  ◌≡◌, ◌≢◌, refl, inl, inr, Bool, true, false, not, ◌&&◌, ◌||◌, some, List, [], ◌∷◌, ◌++◌, arith,
  Bool-cases, Option-cases, &&-true,
}
use nova2sonici_osapp.Common.Assoc.{lookup, has, delete}
use nova2sonici_osapp.Common.Text.{Text, codes, eq_text, is_empty}
use nova2sonici_osapp.Voice.Event.{Base64}
use nova2sonici_osapp.Realtime.Types
use nova2sonici_osapp.Realtime.Types.{
  HistoryMessage, Mapper, World, Reply, Content, Kind, emits, fails, panics,
}
use nova2sonici_osapp.Realtime.Mapper.{
  interrupt, start_assistant, start_input, interrupt_response, queue_input, commit, complete,
}
use nova2sonici_osapp.Realtime.Mapping.{
  open_turn, start_user_content, start_content, output_text, output_audio, history_bytes,
  over_limits, trim, exchange, text_at, reply_of, complete_if, may_complete, end_user_text,
  remember, end_text, end_content, on_content, find_content, map_kind, map_event,
}
use nova2sonici_osapp.Realtime.Run.{
  Op, receives, opens_input, opens_assistant, queues, commits, interrupts, step, run,
}

-- A message of the user, which is not empty, and one of the assistant.
abbrev pub is_exchange : HistoryMessage → HistoryMessage → Bool
is_exchange x y =
    eq_text x.role (codes "USER") && not (is_empty x.content) && eq_text y.role (codes "ASSISTANT")

unfoldable pub is_paired : List HistoryMessage → Bool
is_paired [] = true
is_paired (x ∷ []) = false
is_paired (x ∷ y ∷ h) = is_exchange x y && is_paired h

-- Exchanges, at most 32 messages and at most 65536 bytes.
pub record IsWithin (h : List HistoryMessage) : Type 0 where
  pub paired : is_paired h ≡ true
  pub within : over_limits h ≡ false

paired-append :
    (h : List HistoryMessage) (said answer : Text)
    → is_empty said ≡ false
    → is_paired h ≡ true
    → is_paired (h ++ exchange said answer) ≡ true
unfolding is_paired eq_text
paired-append [] said answer spoken p = rw spoken refl
paired-append (x ∷ []) said answer spoken p = cc
paired-append (x ∷ y ∷ h) said answer spoken p =
    let (whole, rest) = &&-true (is_exchange x y) (is_paired h) p in
    rw (whole, paired-append h said answer spoken rest) refl

-- On whole exchanges the loop never cuts a list that is too short.
trim-IsWithin :
    (h : List HistoryMessage)
    → is_paired h ≡ true
    → (h' : List HistoryMessage) × (trim h ≡ some h') × IsWithin h'
unfolding is_paired trim history_bytes
trim-IsWithin [] p = ([], refl, record { paired = refl; within = refl })
trim-IsWithin (x ∷ []) p = cc
trim-IsWithin (x ∷ y ∷ h) p = elim (Bool-cases (over_limits (x ∷ y ∷ h))) [
  | inl over ↦
      let (h', made, w) = trim-IsWithin h (&&-true (is_exchange x y) (is_paired h) p).1 in
      (h', rw (trim, over) made, w)
  | inr fine ↦ (x ∷ y ∷ h, rw (trim, fine) refl, record { paired = p; within = fine })
]

-- A mapper and a reply: the history is within its limits and the reply is no panic.
pub record Holds (m : Mapper) (r : Reply) : Type 0 where
  pub history : IsWithin m.history
  pub returns : r ≢ panics

-- What keeps the history and replies with events.
kept :
    (m m' : Mapper) (r : Reply)
    → IsWithin m.history
    → m'.history ≡ m.history
    → r ≢ panics
    → Holds m' r
kept m m' r w same fine = record { history = rw same w; returns = fine }

interrupt-history : (w : World) (m : Mapper) → (interrupt w m).0.history ≡ m.history
unfolding interrupt
interrupt-history w m = ground arith

interrupt_response-history :
    (w : World) (m : Mapper) → (interrupt_response w m).0.history ≡ m.history
unfolding interrupt_response
interrupt_response-history w m = ground (arith, interrupt-history w m)

open_turn-history : (w : World) (m : Mapper) → (open_turn w m).0.history ≡ m.history
unfolding open_turn
open_turn-history w m = ground arith

start_user_content-Holds :
    (w : World) (e : Types.Event) (m : Mapper)
    → ((start_user_content w e m).0.history ≡ m.history) × ((start_user_content w e m).1 ≢ panics)
unfolding start_user_content
start_user_content-Holds w e m =
    let m₀ = record m { waiting_user = false } in
    let first = interrupt_response-history w m₀ in
    let second = open_turn-history w (interrupt_response w m₀).0 in
    (ground (arith, first, second), λ p. ground arith)

start_input-history :
    (w : World) (id : Text) (m : Mapper) → (start_input w id m).0.history ≡ m.history
unfolding start_input interrupt_response interrupt
start_input-history w id m = ground arith

start_assistant-history :
    (w : World) (id : Text) (m : Mapper) → (start_assistant w id m).0.history ≡ m.history
unfolding start_assistant
start_assistant-history w id m = ground arith

complete-history : (w : World) (m : Mapper) → (complete w m).0.history ≡ m.history
unfolding complete
complete-history w m = ground arith

complete_if-Holds :
    (b : Bool) (w : World) (m : Mapper)
    → IsWithin m.history
    → let (m', r) = complete_if b w m in Holds m' r
unfolding complete_if reply_of
complete_if-Holds true w m h = kept m _ _ h (complete-history w m) (λ e. cc)
complete_if-Holds false w m h = kept m m _ h refl (λ e. cc)

remember-IsWithin :
    (c : Content) (m : Mapper)
    → IsWithin m.history
    → (m' : Mapper) × (remember c m ≡ some m') × IsWithin m'.history
unfolding remember
remember-IsWithin c m h =
    elim (Bool-cases
      (eq_text c.role (codes "ASSISTANT") && not (is_empty (text_at c.turn m.users)))) [
        | inr other ↦ (m, rw (remember, other) refl, h)
        | inl both ↦
            let said = text_at c.turn m.users in
            let (h', made, w) =
              trim-IsWithin (m.history ++ exchange said c.text)
                (paired-append m.history said c.text (ground arith) h.paired) in
            (
              record m { history = h'; users = delete c.turn m.users },
              rw (remember, both, made) refl,
              w,
            )
      ]

end_text-Holds :
    (w : World) (e : Types.Event) (c : Content) (m : Mapper)
    → IsWithin m.history
    → let (m', r) = end_text w e c m in Holds m' r
unfolding end_text end_user_text
end_text-Holds w e c m h = elim (Bool-cases (eq_text c.role (codes "USER"))) [
  | inl user ↦
      rw (end_text, user)
        (kept m (end_user_text c m).0 (end_user_text c m).1 h (ground arith) (λ p. ground arith))
  | inr other ↦
      let (m', made, within) = remember-IsWithin c m h in
      rw (end_text, other, made) (complete_if-Holds _ w m' within)
]

end_content-Holds :
    (w : World) (e : Types.Event) (c : Content) (m : Mapper)
    → IsWithin m.history
    → let (m', r) = end_content w e c m in Holds m' r
unfolding end_content reply_of
end_content-Holds w e c m h =
    let m₁ = record m { contents = delete e.content_id m.contents } in
    elim (Bool-cases (eq_text e.stop_reason (codes "INTERRUPTED"))) [
      | inl cut ↦ rw (end_content, cut) (kept m₁ _ _ h (interrupt-history w m₁) (λ p. cc))
      | inr on ↦
          elim (Bool-cases (eq_text c.kind (codes "TEXT") && eq_text c.stage (codes "FINAL"))) [
            | inl text ↦ rw (end_content, on, text) (end_text-Holds w e c m₁ h)
            | inr other ↦ rw (end_content, on, other) (complete_if-Holds _ w m₁ h)
          ]
    ]

module _ (b64 : Base64) (w : World) (e : Types.Event) (m : Mapper) (h : IsWithin m.history) where
  on_content-Holds : (k : Kind) (c : Content) → let (m', r) = on_content b64 w k e c m in Holds m' r
  unfolding on_content output_text output_audio
  on_content-Holds Types.text_output c =
      kept m (output_text e c m).0 (output_text e c m).1 h (ground arith) (λ p. ground arith)
  on_content-Holds Types.audio_output c =
      kept m (output_audio b64 w e c m).0 (output_audio b64 w e c m).1 h (ground arith)
        (λ p. ground arith)
  on_content-Holds Types.tool_use c = kept m m _ h refl (λ p. cc)
  on_content-Holds Types.content_end c = end_content-Holds w e c m h
  on_content-Holds _ c = kept m m _ h refl (λ p. cc)

  find_content-Holds : let (m', r) = find_content b64 w e m in Holds m' r
  unfolding find_content
  find_content-Holds = elim (Option-cases (lookup e.content_id m.contents)) [
    | inl missing ↦ rw (missing, find_content) (kept m m _ h refl (λ p. cc))
    | inr (c, found) ↦
        rw (found, find_content)
          (elim (Bool-cases (has c.turn m.cancelled || not (eq_text c.turn m.turn_id))) [
            | inl stale ↦ rw stale (kept m m _ h refl (λ p. cc))
            | inr live ↦ rw live (on_content-Holds e.kind c)
          ])
  ]

  map_kind-Holds : (k : Kind) → let (m', r) = map_kind b64 w k e m in Holds m' r
  unfolding map_kind reply_of start_content
  map_kind-Holds Types.interrupted = kept m _ _ h (interrupt-history w m) (λ p. cc)
  map_kind-Holds Types.completion_end = elim (Bool-cases (may_complete e m)) [
    | inr early ↦ rw (early, map_kind) find_content-Holds
    | inl done ↦ rw (done, map_kind) (kept m _ _ h (complete-history w m) (λ p. cc))
  ]
  map_kind-Holds Types.content_start = elim (Bool-cases (eq_text e.role (codes "USER"))) [
    | inl user ↦
        rw (user, map_kind)
          (let (same, fine) = start_user_content-Holds w e m in kept m _ _ h same fine)
    | inr other ↦
        rw (other, map_kind)
          (kept m (start_content e m).0 (start_content e m).1 h (ground arith) (λ p. ground arith))
  ]
  map_kind-Holds _ = find_content-Holds

  map_event-Holds : let (m', r) = map_event b64 w e m in Holds m' r
  unfolding map_event
  map_event-Holds = elim (Option-cases e.failure) [
    | inl fine ↦ rw (fine, map_event) (map_kind-Holds e.kind)
    | inr (message, broken) ↦ rw (broken, map_event) (kept m m _ h refl (λ p. cc))
  ]

step-IsWithin :
    (b64 : Base64) (o : Op) (m : Mapper) → IsWithin m.history → IsWithin (step b64 o m).0.history
unfolding step queue_input commit
step-IsWithin b64 (receives w e) m h = (map_event-Holds b64 w e m h).history
step-IsWithin b64 (opens_input w id) m h = rw (start_input-history w id m) h
step-IsWithin b64 (opens_assistant w id) m h = rw (start_assistant-history w id m) h
step-IsWithin b64 (queues id) m h = h
step-IsWithin b64 (commits w) m h = h
step-IsWithin b64 (interrupts w) m h = rw (interrupt-history w m) h

run-IsWithin :
    (b64 : Base64) (os : List Op) (m : Mapper)
    → IsWithin m.history
    → IsWithin (run b64 os m).0.history
unfolding run
run-IsWithin b64 [] m h = h
run-IsWithin b64 (o ∷ os) m h = run-IsWithin b64 os (step b64 o m).0 (step-IsWithin b64 o m h)

-- A history in which a message of the role USER, which is not empty, and one of the role ASSISTANT take
-- turns, of at most 32 messages and at most 65536 bytes, stays one over any operations of the provider
-- and of the client, and after them no event makes Map panic.
pub run-Holds :
    (b64 : Base64) (os : List Op) (m : Mapper) (w : World) (e : Types.Event)
    → IsWithin m.history
    → IsWithin (run b64 os m).0.history × ((map_event b64 w e (run b64 os m).0).1 ≢ panics)
run-Holds b64 os m w e h =
    let within = run-IsWithin b64 os m h in
    (within, (map_event-Holds b64 w e (run b64 os m).0 within).returns)
