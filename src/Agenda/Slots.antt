-- ===== src/Agenda/Slots.antt =====
-- apps/mcp-agenda/internal/adapters/sqlite/store.go, func Slots: the free times of an interval.
use nova2sonici_osapp.Common.{
  ℕ, zero, suc, ◌+◌, ◌-◌, ◌*◌, ◌/◌, ◌%◌, not, ◌||◌, List, [], ◌∷◌, ltb, ◌==◌, if◌then◌else◌,
}
use nova2sonici_osapp.Common.Int.{ℤ, pos, negsuc}
use nova2sonici_osapp.Common.Fallible.{Fallible, ok, err, ◌>>=◌}
use nova2sonici_osapp.Common.Text.{codes}
use nova2sonici_osapp.Agenda.Scheduling.{
  Time, Host, AgendaEvent, AgendaInput, nanoseconds, interval, available, local_times,
}
use nova2sonici_osapp.Agenda.Store.{Row, Agenda, agenda_conflict}

abbrev pub after : Time → ℕ → Time
after t seconds = record t { unix = t.unix + seconds }

unfoldable pub slot_at : Host → Time → Time → AgendaEvent
unfolding local_times
slot_at h x y = local_times h (record {
  start_local = [];
  end_local = [];
  id = [];
  title = [];
  start = h.format x;
  end = h.format y;
  status = codes "available";
})

-- The loop of Slots on fuel, with the number of slots that may still be taken.
unfoldable pub slots_from : Host → List Row → ℕ → Time → ℕ → ℕ → Time → List AgendaEvent
unfolding slot_at available agenda_conflict
slots_from h rows duration b zero room x = []
slots_from h rows duration b (suc fuel) zero x = []
slots_from h rows duration b (suc fuel) (suc room) x =
    let y = after x duration in
    let skip = slots_from h rows duration b fuel (suc room) (after x (15 * 60)) in
    let taken = slots_from h rows duration b fuel room (after x (15 * 60)) in
    if ltb (nanoseconds b) (nanoseconds y)
    then []
    else if not (available h x y)
    then skip
    else if agenda_conflict rows x y
    then skip
    else slot_at h x y ∷ taken

abbrev pub minutes : ℤ → Fallible ℕ
minutes (negsuc n) = err (codes "invalid_duration")
minutes (pos n) =
    if ltb n 15 || ltb 240 n || not (n % 15 == 0) then err (codes "invalid_duration") else ok n

-- A step of fuel for each start on the grid of fifteen minutes.
unfoldable pub slots : Host → AgendaInput → Agenda → Fallible (List AgendaEvent)
unfolding interval slots_from
slots h i s = do
  (a, b) ← interval h i.start i.end
  n ← minutes i.duration
  ok (slots_from h s.agenda_events (n * 60) b ((b.unix - a.unix) / 900 + 1) 100 a)
