-- ===== src/Tests/Agenda.antt =====
-- Concrete agendas for the theorems on apps/mcp-agenda.
use nova2sonici_osapp.Common.{
  ◌≤◌, ◌≡◌, refl, true, false, some, none, Option, [], ◌∷◌, arith, All, length,
}
use nova2sonici_osapp.Common.Int.{pos}
use nova2sonici_osapp.Common.Assoc.{insert, lookup}
use nova2sonici_osapp.Common.Fallible.{ok}
use nova2sonici_osapp.Common.Text.{Text, codes, eq_text}
use nova2sonici_osapp.Agenda.Scheduling.{
  Time, Host, AgendaInput, interval, refused, available, local_times,
}
use nova2sonici_osapp.Agenda.Store.{
  Agenda, Fresh, Mutation, occupies, agenda_conflict, new_event, event_value, insert_event,
  create_event, cancel_row, affected, cancel_event, apply, transact, attempt, mutate_agenda,
}
use nova2sonici_osapp.Agenda.Slots.{slot_at, slots_from, slots}
use nova2sonici_osapp.Agenda.Booked.{
  IsBooked, no_overlap, in_order, clashes, mutate_agenda-IsBooked,
}
use nova2sonici_osapp.Agenda.Replay.{run, mutate_agenda-replays}
use nova2sonici_osapp.Agenda.Bookable.{ReadsBack, booking, succeeds, slots-succeeds, slots-bounds}
use nova2sonici_osapp.Tests.Toy.{toy_json}

-- A time is written as the number of its seconds.
parse_seconds : Text → Option Time
parse_seconds [] = none
parse_seconds (n ∷ s) = some (record { unix = n; nanosecond = 0 })

abbrev asks_for : AgendaInput
asks_for = record {
  id = [];
  title = codes "x";
  start = 7200 ∷ [];
  end = 9000 ∷ [];
  duration = pos 15;
}

-- It is always Monday, 10 o'clock.
unfoldable host : Host
unfolding parse_seconds
host = record {
  json = toy_json;
  decode_input = λ t. some asks_for;
  is_space = λ c. false;
  parse = parse_seconds;
  zero = record { unix = 0; nanosecond = 0 };
  format = λ t. t.unix ∷ [];
  format_local = λ t. [];
  local = λ t. record { weekday = 1; date = []; hour = 10; minute = 0; second = 0 };
}

abbrev one_row : Agenda
one_row = record {
  agenda_events =
      record {
        id = codes "a";
        title = codes "t";
        start = 3600;
        end = 7200;
        status = codes "active";
      }
      ∷ [];
  agenda_operations = [];
}

abbrev fresh : Fresh
fresh = record { id = codes "b"; completed_at = [] }

abbrev creates : Mutation
creates = record {
  key = codes "k";
  name = codes "agenda.create_event";
  args = [];
  confirmed = false;
}

opened : Unit {0}
unfolding host parse_seconds lookup insert eq_text interval refused available local_times occupies
    agenda_conflict new_event event_value insert_event create_event cancel_row affected cancel_event
    apply transact attempt mutate_agenda slot_at slots_from slots no_overlap in_order clashes run
opened = tt

mutate_agenda-IsBooked_example : IsBooked (mutate_agenda host fresh creates one_row).0.agenda_events
unfolding opened
mutate_agenda-IsBooked_example =
    mutate_agenda-IsBooked host fresh creates one_row (record { apart = refl; ordered = refl })

adds_a_row : length (mutate_agenda host fresh creates one_row).0.agenda_events ≡ 2
unfolding opened
adds_a_row = refl

abbrev two_rows : Agenda
two_rows = (mutate_agenda host fresh creates one_row).0

mutate_agenda-replays_example :
    mutate_agenda host fresh creates (run host ((fresh, creates) ∷ []) two_rows)
    ≡ (run host ((fresh, creates) ∷ []) two_rows, ok [])
unfolding opened
mutate_agenda-replays_example =
    mutate_agenda-replays host fresh fresh creates one_row two_rows [] ((fresh, creates) ∷ []) refl

reads_back : ReadsBack host 100000
unfolding opened
reads_back t whole le = rw whole refl

two_slots :
    slots host asks_for one_row
    ≡ ok (
        slot_at host
          (record { unix = 7200; nanosecond = 0 })
          (record { unix = 8100; nanosecond = 0 })
        ∷ slot_at host
            (record { unix = 8100; nanosecond = 0 })
            (record { unix = 9000; nanosecond = 0 })
        ∷ [])
unfolding opened
two_slots = refl

ends_early : (a b : Time) → interval host asks_for.start asks_for.end ≡ ok (a, b) → b.unix ≤ 100000
unfolding opened
ends_early a b h = ground arith

slots-succeeds_example :
    All
      (λ e. succeeds (create_event host fresh (booking (codes "x") e) one_row.agenda_events) ≡ true)
      (slot_at host
          (record { unix = 7200; nanosecond = 0 })
          (record { unix = 8100; nanosecond = 0 })
        ∷ slot_at host
            (record { unix = 8100; nanosecond = 0 })
            (record { unix = 9000; nanosecond = 0 })
        ∷ [])
unfolding opened
slots-succeeds_example =
    slots-succeeds host 100000 reads_back fresh (codes "x") refl (omega arith) asks_for one_row _
      refl ends_early two_slots

slots-bounds_example :
    (length (
        slot_at host
          (record { unix = 7200; nanosecond = 0 })
          (record { unix = 8100; nanosecond = 0 })
        ∷ slot_at host
            (record { unix = 8100; nanosecond = 0 })
            (record { unix = 9000; nanosecond = 0 })
        ∷ [])
      ≤ 100)
    × (slots_from host one_row.agenda_events 900
          (record { unix = 9000; nanosecond = 0 })
          5
          100
          (record { unix = 7200; nanosecond = 0 })
        ≡ slot_at host
            (record { unix = 7200; nanosecond = 0 })
            (record { unix = 8100; nanosecond = 0 })
          ∷ slot_at host
              (record { unix = 8100; nanosecond = 0 })
              (record { unix = 9000; nanosecond = 0 })
          ∷ [])
unfolding opened
slots-bounds_example =
    slots-bounds host asks_for one_row _ (record { unix = 7200; nanosecond = 0 })
      (record { unix = 9000; nanosecond = 0 }) 15 5 refl refl two_slots (omega arith)
