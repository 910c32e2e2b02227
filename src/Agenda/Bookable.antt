-- ===== src/Agenda/Bookable.antt =====
-- apps/mcp-agenda/internal/adapters/sqlite/store.go: a slot that Slots offers can be booked.
use nova2sonici_osapp.Common.{
  ℕ, zero, suc, ◌+◌, ◌-◌, ◌*◌, ◌/◌, ◌≤◌, ◌<◌, ◌≡◌, refl, inl, inr, Bool, true, false, some, List,
  [], arith, length, ltb, all, any, All, Bool-cases,
}
use nova2sonici_osapp.Common.Int.{ℤ, pos, negsuc}
use nova2sonici_osapp.Common.Fallible.{Fallible, ok, err, Fallible-cases}
use nova2sonici_osapp.Common.Text.{Text, len, eq_text}
use nova2sonici_osapp.Agenda.Scheduling.{
  Time, Host, AgendaEvent, AgendaInput, nanoseconds, interval, refused, available, local_times,
}
use nova2sonici_osapp.Agenda.Store.{Row, Agenda, Fresh, agenda_conflict, create_event}
use nova2sonici_osapp.Agenda.Slots.{after, slot_at, slots_from, minutes, slots}

-- The input that asks for a slot under a title.
abbrev pub booking : Text → AgendaEvent → AgendaInput
booking title e = record { id = []; title = title; start = e.start; end = e.end; duration = pos 0 }

abbrev pub succeeds {ℓ} : {A : Type ℓ} → Fallible A → Bool
succeeds (ok a) = true
succeeds (err e) = false

-- RFC3339 text is read back as the time that it was written from, up to the last second.
abbrev pub ReadsBack : Host → ℕ → Type 0
ReadsBack h last = (t : Time) → t.nanosecond ≡ 0 → t.unix ≤ last → h.parse (h.format t) ≡ some t

minutes-bounds : (d : ℤ) (n : ℕ) → minutes d ≡ ok n → (0 < n) × (n ≤ 240)
minutes-bounds (pos k) n h = ground arith
minutes-bounds (negsuc k) n h = cc

interval-whole :
    (h : Host) (s e : Text) (a b : Time)
    → interval h s e ≡ ok (a, b)
    → (a.nanosecond ≡ 0) × (b.nanosecond ≡ 0)
unfolding interval refused
interval-whole h s e a b good = ground arith

module _ (h : Host) (last : ℕ) (reads : ReadsBack h last) (f : Fresh) (title : Text)
    (spaced : all h.is_space title ≡ false) (short : len title ≤ 256) where
  slot-succeeds :
      (rows : List Row) (x : Time) (n : ℕ)
      → any (λ r. eq_text r.id f.id) rows ≡ false
      → x.nanosecond ≡ 0
      → 0 < n
      → n ≤ 240 * 60
      → x.unix + n ≤ last
      → available h x (after x n) ≡ true
      → agenda_conflict rows x (after x n) ≡ false
      → succeeds (create_event h f (booking title (slot_at h x (after x n))) rows) ≡ true
  unfolding create_event slot_at local_times interval refused
  slot-succeeds rows x n fresh whole some_time short_time early opened free =
      ground (arith, reads x, reads (after x n))

  slots_from-succeeds :
      (rows : List Row) (b : Time) (n : ℕ) (fuel room : ℕ) (x : Time)
      → any (λ r. eq_text r.id f.id) rows ≡ false
      → x.nanosecond ≡ 0
      → b.nanosecond ≡ 0
      → 0 < n
      → n ≤ 240 * 60
      → b.unix ≤ last
      → All
          (λ e. succeeds (create_event h f (booking title e) rows) ≡ true)
          (slots_from h rows n b fuel room x)
  unfolding slots_from
  slots_from-succeeds rows b n zero room x fresh whole ends some_time short_time early = tt
  slots_from-succeeds rows b n (suc fuel) zero x fresh whole ends some_time short_time early = tt
  slots_from-succeeds rows b n (suc fuel) (suc room) x fresh whole ends some_time short_time early =
      let next = λ (k : ℕ).
        slots_from-succeeds rows b n fuel k (after x 900) fresh whole ends some_time short_time
          early in
      elim (Bool-cases (ltb (nanoseconds b) (nanoseconds (after x n)))) [
        | inl over ↦ rw over tt
        | inr in_time ↦ elim (Bool-cases (available h x (after x n))) [
          | inr shut ↦ rw (in_time, shut) (next (suc room))
          | inl opened ↦ elim (Bool-cases (agenda_conflict rows x (after x n))) [
            | inl taken ↦ rw (in_time, opened, taken) (next (suc room))
            | inr free ↦
                rw (in_time, opened, free)
                  (
                    slot-succeeds rows x n fresh whole some_time short_time (ground arith) opened
                        free,
                    next room,
                  )
          ]
        ]
      ]

  -- Where RFC3339 text up to a last second is read back and the interval ends by then, each slot
  -- that Slots answers with is one that create_event then accepts, under a title that is neither
  -- blank nor longer than 256 bytes and an id that no row has.
  pub slots-succeeds :
      (i : AgendaInput) (s : Agenda) (es : List AgendaEvent)
      → any (λ r. eq_text r.id f.id) s.agenda_events ≡ false
      → ((a b : Time) → interval h i.start i.end ≡ ok (a, b) → b.unix ≤ last)
      → slots h i s ≡ ok es
      → All (λ e. succeeds (create_event h f (booking title e) s.agenda_events) ≡ true) es
  unfolding slots
  slots-succeeds i s es fresh early done = elim (Fallible-cases (interval h i.start i.end)) [
    | inl (e, bad) ↦ absurd (ground arith)
    | inr ((a, b), good) ↦ elim (Fallible-cases (minutes i.duration)) [
      | inl (e, bad) ↦ absurd (ground arith)
      | inr (n, counted) ↦
          let (n_some, n_short) = minutes-bounds i.duration n counted in
          let (a_whole, b_whole) = interval-whole h i.start i.end a b good in
          let made : es
              ≡ slots_from h s.agenda_events (n * 60) b ((b.unix - a.unix) / 900 + 1) 100 a =
            ground arith in
          rw made (
            slots_from-succeeds s.agenda_events b (n * 60) _ 100 a fresh a_whole b_whole
              (omega arith) (omega arith) (early a b good))
    ]
  ]

slots_from-bounds :
    (h : Host) (rows : List Row) (b : Time) (n fuel more room : ℕ) (x : Time)
    → x.nanosecond ≡ 0
    → b.nanosecond ≡ 0
    → 0 < n
    → b.unix < x.unix + fuel * 900
    → fuel ≤ more
    → (length (slots_from h rows n b fuel room x) ≤ room)
      × (slots_from h rows n b more room x ≡ slots_from h rows n b fuel room x)
unfolding slots_from
slots_from-bounds h rows b n zero zero room x whole ends some_time past le = (omega arith, refl)
slots_from-bounds h rows b n zero (suc more) zero x whole ends some_time past le =
    (omega arith, refl)
slots_from-bounds h rows b n zero (suc more) (suc room) x whole ends some_time past le =
    let over : ltb (nanoseconds b) (nanoseconds (after x n)) ≡ true = ground arith in
    (omega arith, rw over refl)
slots_from-bounds h rows b n (suc fuel) zero room x whole ends some_time past le =
    absurd (omega arith)
slots_from-bounds h rows b n (suc fuel) (suc more) zero x whole ends some_time past le =
    (omega arith, refl)
slots_from-bounds h rows b n (suc fuel) (suc more) (suc room) x whole ends some_time past le =
    let skip =
      slots_from-bounds h rows b n fuel more (suc room) (after x 900) whole ends some_time
        (omega arith) (omega arith) in
    let take =
      slots_from-bounds h rows b n fuel more room (after x 900) whole ends some_time (omega arith)
        (omega arith) in
    ground (arith, skip, take)

-- Slots that answers gives at most a hundred slots, and the fuel of its loop is enough: with more
-- it would give the same.
pub slots-bounds :
    (h : Host) (i : AgendaInput) (s : Agenda) (es : List AgendaEvent) (a b : Time) (n more : ℕ)
    → interval h i.start i.end ≡ ok (a, b)
    → minutes i.duration ≡ ok n
    → slots h i s ≡ ok es
    → (b.unix - a.unix) / 900 + 1 ≤ more
    → (length es ≤ 100) × (slots_from h s.agenda_events (n * 60) b more 100 a ≡ es)
unfolding slots
slots-bounds h i s es a b n more good counted done le =
    let (n_some, _) = minutes-bounds i.duration n counted in
    let (a_whole, b_whole) = interval-whole h i.start i.end a b good in
    let made : es ≡ slots_from h s.agenda_events (n * 60) b ((b.unix - a.unix) / 900 + 1) 100 a =
      ground arith in
    rw made (
      slots_from-bounds h s.agenda_events b (n * 60) _ more 100 a a_whole b_whole (omega arith)
        (omega arith) le)
