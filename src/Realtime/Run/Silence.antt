-- ===== src/Realtime/Run/Silence.antt =====
-- packages/go/realtime/mapper.go: a turn that was interrupted stays silent.
use nova2sonici_osapp.Common.{
  ◌≡◌, refl, inl, inr, true, false, not, ◌&&◌, ◌||◌, List, [], ◌∷◌, arith, ltb, all, Bool-cases,
  Option-cases,
}
use nova2sonici_osapp.Common.Assoc.{lookup, has}
use nova2sonici_osapp.Common.Text.{Text, codes, eq_text, eq_text_iff}
use nova2sonici_osapp.Voice.Event.{Base64}
use nova2sonici_osapp.Realtime.Types
use nova2sonici_osapp.Realtime.Types.{Mapper, World, Reply, Content, Kind, emits, fails, panics}
use nova2sonici_osapp.Realtime.Mapper.{queue_input, commit, is_responding}
use nova2sonici_osapp.Realtime.Mapping.{map_event, map_kind, find_content, on_content, reply_of}
use nova2sonici_osapp.Realtime.Run.{
  Op, receives, opens_input, opens_assistant, queues, commits, interrupts, events_of, step, run,
}
use nova2sonici_osapp.Realtime.Run.Quiet.{
  silent, IsQuiet, Stays, all-append, interrupt-Stays, complete-Stays, start_assistant-Stays,
  start_content-Stays, start_input-Stays, start_user_content-Stays, output_text-Stays,
  output_audio-Stays, use_tool-Stays, end_content-Stays,
}

module _ (t : Text) (w : World) (m : Mapper) (gone : has t m.cancelled ≡ true) (q : IsQuiet m) where
  -- An operation that does nothing.
  unchanged : Stays t m []
  unchanged = record { cancelled = gone; said_nothing = refl; quiet = q }

  on_content-Stays :
      (b64 : Base64) (k : Kind) (e : Types.Event) (c : Content)
      → has c.turn m.cancelled ≡ false
      → eq_text c.turn m.turn_id ≡ true
      → let (m', r) = on_content b64 w k e c m in Stays t m' (events_of r)
  unfolding on_content
  on_content-Stays b64 Types.text_output e c live now = output_text-Stays t w m gone q e c live
  on_content-Stays b64 Types.audio_output e c live now =
      output_audio-Stays t w m gone q b64 e c live now
  on_content-Stays b64 Types.tool_use e c live now = use_tool-Stays t w m gone q e c live
  on_content-Stays b64 Types.content_end e c live now =
      let same : c.turn ≡ m.turn_id = (eq_text_iff c.turn m.turn_id).0 now in
      end_content-Stays t w m gone q e c (rw (← same) live)
  on_content-Stays b64 _ e c live now = unchanged

  find_content-Stays :
      (b64 : Base64) (e : Types.Event)
      → let (m', r) = find_content b64 w e m in Stays t m' (events_of r)
  unfolding find_content
  find_content-Stays b64 e = elim (Option-cases (lookup e.content_id m.contents)) [
    | inl missing ↦ rw (missing, find_content) unchanged
    | inr (c, found) ↦
        rw (found, find_content)
          (elim (Bool-cases (has c.turn m.cancelled || not (eq_text c.turn m.turn_id))) [
            | inl stale ↦ rw stale unchanged
            | inr live ↦ rw live (on_content-Stays b64 e.kind e c (ground arith) (ground arith))
          ])
  ]

  map_kind-Stays :
      (b64 : Base64) (k : Kind) (e : Types.Event)
      → let (m', r) = map_kind b64 w k e m in Stays t m' (events_of r)
  unfolding map_kind reply_of
  map_kind-Stays b64 Types.interrupted e = interrupt-Stays t w m gone q
  map_kind-Stays b64 Types.completion_end e =
      let ready =
        eq_text e.stop_reason (codes "END_TURN") && is_responding m.state && ltb 0 m.sequence in
      elim (Bool-cases ready) [
        | inr early ↦ rw (early, map_kind) (find_content-Stays b64 e)
        | inl done ↦
            let live : has m.turn_id m.cancelled ≡ false = ground (arith, q.unsent) in
            rw (done, map_kind) (complete-Stays t w m gone q live)
      ]
  map_kind-Stays b64 Types.content_start e = elim (Bool-cases (eq_text e.role (codes "USER"))) [
    | inl user ↦ rw (user, map_kind) (start_user_content-Stays t w m gone q e)
    | inr other ↦ rw (other, map_kind) (start_content-Stays t w m gone q e)
  ]
  map_kind-Stays b64 _ e = find_content-Stays b64 e

  map_event-Stays :
      (b64 : Base64) (e : Types.Event)
      → let (m', r) = map_event b64 w e m in Stays t m' (events_of r)
  unfolding map_event
  map_event-Stays b64 e = elim (Option-cases e.failure) [
    | inl fine ↦ rw (fine, map_event) (map_kind-Stays b64 e.kind e)
    | inr (message, broken) ↦ rw (broken, map_event) unchanged
  ]

step-Stays :
    (t : Text) (b64 : Base64) (o : Op) (m : Mapper)
    → has t m.cancelled ≡ true
    → IsQuiet m
    → let (m', es) = step b64 o m in Stays t m' es
unfolding step queue_input commit
step-Stays t b64 (receives w e) m gone q = map_event-Stays t w m gone q b64 e
step-Stays t b64 (opens_input w id) m gone q = start_input-Stays t w m gone q id
step-Stays t b64 (opens_assistant w id) m gone q = start_assistant-Stays t w m gone q id
step-Stays t b64 (queues id) m gone q = record {
  cancelled = gone;
  said_nothing = refl;
  quiet = record { unsent = q.unsent };
}
step-Stays t b64 (commits w) m gone q = record {
  cancelled = gone;
  said_nothing = refl;
  quiet = record { unsent = q.unsent };
}
step-Stays t b64 (interrupts w) m gone q = interrupt-Stays t w m gone q

-- Once a turn is cancelled it stays so and is silent: over any further operations, of the provider and
-- of the client, in any order, no transcript, no audio, no tool call, no completion and no second
-- interruption is sent for it. The hypothesis `IsQuiet` holds again at the end.
pub run-Stays :
    (t : Text) (b64 : Base64) (os : List Op) (m : Mapper)
    → has t m.cancelled ≡ true
    → IsQuiet m
    → let (m', es) = run b64 os m in
      (has t m'.cancelled ≡ true) × (all (silent t) es ≡ true) × IsQuiet m'
unfolding run
run-Stays t b64 [] m gone q = (gone, refl, q)
run-Stays t b64 (o ∷ os) m gone q =
    let s = step-Stays t b64 o m gone q in
    let (still, said, quiet) = run-Stays t b64 os (step b64 o m).0 s.cancelled s.quiet in
    (still, all-append t (step b64 o m).1 _ s.said_nothing said, quiet)
