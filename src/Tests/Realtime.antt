-- ===== src/Tests/Realtime.antt =====
-- packages/go/realtime: a turn that the user interrupts.
use nova2sonici_osapp.Common.{◌≡◌, ◌≢◌, refl, true, List, [], ◌∷◌, all, none}
use nova2sonici_osapp.Common.Assoc.{lookup, insert, has}
use nova2sonici_osapp.Common.Text.{codes, eq_text}
use nova2sonici_osapp.Voice.Event.{Base64}
use nova2sonici_osapp.Realtime.Types.{Mapper, World, panics, content_start, audio_output, blank}
use nova2sonici_osapp.Realtime.Mapper.{new_mapper, start_input, interrupt, interrupt_response}
use nova2sonici_osapp.Realtime.Run.{Op, receives, interrupts, run}
use nova2sonici_osapp.Realtime.Run.Quiet.{silent, IsQuiet}
use nova2sonici_osapp.Realtime.Run.Silence.{run-Stays}
use nova2sonici_osapp.Realtime.Run.History.{IsWithin, is_paired, run-Holds}
use nova2sonici_osapp.Realtime.Mapping.{map_event, history_bytes, exchange}

abbrev toy_base64 : Base64
toy_base64 = record { decode = λ s. none; encode = λ pcm. [] }

abbrev world : World
world = record { now = 5; elapsed = 1; fresh = codes "r1" }

-- The user starts to speak in turn "a" and cancels it.
abbrev hung_up : Mapper
hung_up = (interrupt world (start_input world (codes "a") (new_mapper [])).0).0

abbrev late_events : List Op
late_events =
    receives world
      (record (blank content_start) { content_id = codes "x"; role = codes "ASSISTANT" })
    ∷ receives world (record (blank audio_output) { content_id = codes "x" })
    ∷ interrupts world
    ∷ []

hung_up-cancelled : has (codes "a") hung_up.cancelled ≡ true
unfolding interrupt start_input new_mapper has lookup insert eq_text interrupt_response
hung_up-cancelled = refl

hung_up-IsQuiet : IsQuiet hung_up
unfolding interrupt start_input new_mapper has lookup insert eq_text interrupt_response
hung_up-IsQuiet = record { unsent = λ r c. refl }

run-Stays_example :
    let (m', es) = run toy_base64 late_events hung_up in
    (has (codes "a") m'.cancelled ≡ true) × (all (silent (codes "a")) es ≡ true) × IsQuiet m'
run-Stays_example =
    run-Stays (codes "a") toy_base64 late_events hung_up hung_up-cancelled hung_up-IsQuiet

-- The same after one exchange.
abbrev spoken : Mapper
spoken = record hung_up { history = exchange (codes "oi") (codes "ola") }

spoken-IsWithin : IsWithin spoken.history
unfolding is_paired history_bytes eq_text
spoken-IsWithin = record { paired = refl; within = refl }

run-Holds_example :
    IsWithin (run toy_base64 late_events spoken).0.history
    × ((map_event toy_base64 world (blank audio_output) (run toy_base64 late_events spoken).0).1
        ≢ panics)
run-Holds_example =
    run-Holds toy_base64 late_events spoken world (blank audio_output) spoken-IsWithin
