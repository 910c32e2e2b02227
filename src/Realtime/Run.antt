-- ===== src/Realtime/Run.antt =====
-- packages/go/realtime/mapper.go: a mapper's life as a sequence of operations.
pub mod Quiet
pub mod Silence
pub mod History
use nova2sonici_osapp.Common.{ℕ, List, [], ◌∷◌, ◌++◌}
use nova2sonici_osapp.Common.Text.{Text}
use nova2sonici_osapp.Voice.Event.{Base64, Event as VoiceEvent}
use nova2sonici_osapp.Realtime.Types.{Event, Mapper, World, Reply, emits, fails, panics}
use nova2sonici_osapp.Realtime.Mapper.{interrupt, start_assistant, start_input, queue_input, commit}
use nova2sonici_osapp.Realtime.Mapping.{map_event}

pub data Op : Type 0 where
  receives : World → Event → Op
  opens_input : World → Text → Op
  opens_assistant : World → Text → Op
  queues : Text → Op
  commits interrupts : World → Op

-- The events of a reply; an error has none.
abbrev pub events_of : Reply → List VoiceEvent
events_of (emits es) = es
events_of (fails _) = []
events_of panics = []

unfoldable pub step : Base64 → Op → Mapper → Mapper × List VoiceEvent
step b64 (receives w e) m = let (m', r) = map_event b64 w e m in (m', events_of r)
step b64 (opens_input w id) m = start_input w id m
step b64 (opens_assistant w id) m = start_assistant w id m
step b64 (queues id) m = (queue_input id m, [])
step b64 (commits w) m = (commit w m, [])
step b64 (interrupts w) m = interrupt w m

-- All events of a run, in order.
unfoldable pub run : Base64 → List Op → Mapper → Mapper × List VoiceEvent
run b64 [] m = (m, [])
run b64 (o ∷ os) m =
    let (m₁, first) = step b64 o m in let (m₂, rest) = run b64 os m₁ in (m₂, first ++ rest)
