-- ===== src/Agenda/Booked.antt =====
-- apps/mcp-agenda/internal/adapters/sqlite/store.go: no two active appointments share a time.
use nova2sonici_osapp.Common.{
  ◌≡◌, refl, inl, inr, Bool, true, false, some, not, ◌&&◌, List, [], ◌∷◌, map, arith, ltb, all, any,
  Bool-cases, Option-cases,
}
use nova2sonici_osapp.Common.Assoc.{lookup}
use nova2sonici_osapp.Common.Fallible.{ok, Fallible-cases}
use nova2sonici_osapp.Common.Text.{Text, codes, eq_text}
use nova2sonici_osapp.Mcp.Types.{Value}
use nova2sonici_osapp.Agenda.Scheduling.{
  Time, Host, AgendaEvent, AgendaInput, interval, refused, available,
}
use nova2sonici_osapp.Agenda.Store.{
  Row, Agenda, Fresh, Mutation, is_active, occupies, agenda_conflict, cancel_row, cancel_event,
  create_event, insert_event, new_event, apply, transact, attempt, mutate_agenda,
}

-- Two active rows at one time.
unfoldable pub clashes : Row → Row → Bool
unfolding occupies
clashes r s = is_active r && occupies r.start r.end s

unfoldable pub no_overlap : List Row → Bool
unfolding clashes
no_overlap [] = true
no_overlap (r ∷ rows) = all (λ s. not (clashes r s)) rows && no_overlap rows

-- An appointment ends after it starts.
unfoldable pub in_order : List Row → Bool
in_order rows = all (λ r. ltb r.start r.end) rows

pub record IsBooked (rows : List Row) : Type 0 where
  pub apart : no_overlap rows ≡ true
  pub ordered : in_order rows ≡ true

clear-new :
    (r : Row) (rows : List Row)
    → any (occupies r.start r.end) rows ≡ false
    → all (λ s. not (clashes r s)) rows ≡ true
unfolding clashes
clear-new r [] h = refl
clear-new r (s ∷ rows) h = ground (arith, clear-new r rows)

-- A cancelled row clashes with nothing that it did not clash with before.
clashes-cancel :
    (i : Text) (r s : Row) → clashes r s ≡ false → clashes (cancel_row i r) (cancel_row i s) ≡ false
unfolding clashes occupies cancel_row
clashes-cancel i r s h = ground arith

clear-cancel :
    (i : Text) (r : Row) (rows : List Row)
    → all (λ s. not (clashes r s)) rows ≡ true
    → all (λ s. not (clashes (cancel_row i r) s)) (map (cancel_row i) rows) ≡ true
clear-cancel i r [] h = refl
clear-cancel i r (s ∷ rows) h = ground (arith, clashes-cancel i r s, clear-cancel i r rows)

no_overlap-cancel :
    (i : Text) (rows : List Row)
    → no_overlap rows ≡ true
    → no_overlap (map (cancel_row i) rows) ≡ true
unfolding no_overlap
no_overlap-cancel i [] h = refl
no_overlap-cancel i (r ∷ rows) h = ground (arith, clear-cancel i r rows, no_overlap-cancel i rows)

in_order-cancel :
    (i : Text) (rows : List Row) → in_order rows ≡ true → in_order (map (cancel_row i) rows) ≡ true
unfolding in_order cancel_row
in_order-cancel i [] h = refl
in_order-cancel i (r ∷ rows) h = ground (arith, in_order-cancel i rows)

-- What an interval that is not refused says of its whole seconds.
interval-before :
    (h : Host) (s e : Text) (a b : Time) → interval h s e ≡ ok (a, b) → ltb a.unix b.unix ≡ true
unfolding interval refused
interval-before h s e a b good = ground arith

-- What a creation that succeeds has passed, and what it gives.
pub record Created (h : Host) (f : Fresh) (i : AgendaInput) (rows : List Row) (p : List Row × Value)
    (a b : Time) : Type 0 where
  pub good : interval h i.start i.end ≡ ok (a, b)
  pub opened : available h a b ≡ true
  pub free : agenda_conflict rows a b ≡ false
  pub made : p ≡ insert_event (new_event h f i a b) a b rows

create_event-Created :
    (h : Host) (f : Fresh) (i : AgendaInput) (rows : List Row) (p : List Row × Value)
    → create_event h f i rows ≡ ok p
    → (a : Time) × (b : Time) × Created h f i rows p a b
unfolding create_event
create_event-Created h f i rows p done = elim (Fallible-cases (interval h i.start i.end)) [
  | inl (e, bad) ↦ absurd (ground arith)
  | inr ((a, b), good) ↦ (
    a,
    b,
    record { good = good; opened = ground arith; free = ground arith; made = ground arith },
  )
]

insert_event-IsBooked :
    (e : AgendaEvent) (a b : Time) (rows : List Row)
    → IsBooked rows
    → ltb a.unix b.unix ≡ true
    → agenda_conflict rows a b ≡ false
    → IsBooked (insert_event e a b rows).0
unfolding insert_event agenda_conflict no_overlap in_order
insert_event-IsBooked e a b rows booked less free = record {
  apart =
      rw
        (clear-new
          (record { id = e.id; title = e.title; start = a.unix; end = b.unix; status = e.status })
          rows free)
        booked.apart;
  ordered = rw less booked.ordered;
}

create_event-IsBooked :
    (h : Host) (f : Fresh) (i : AgendaInput) {rows : List Row} {p : List Row × Value}
    → IsBooked rows
    → create_event h f i rows ≡ ok p
    → IsBooked p.0
create_event-IsBooked h f i {rows} {p} booked done =
    let (a, b, c) = create_event-Created h f i rows p done in
    rw c.made
      (insert_event-IsBooked _ a b rows booked (interval-before h i.start i.end a b c.good) c.free)

cancel_event-IsBooked :
    (i : AgendaInput) {rows : List Row} {p : List Row × Value}
    → IsBooked rows
    → cancel_event i rows ≡ ok p
    → IsBooked p.0
unfolding cancel_event
cancel_event-IsBooked i {rows} {p} booked done =
    let made : p.0 ≡ map (cancel_row i.id) rows = ground arith in
    rw made (record {
      apart = no_overlap-cancel i.id rows booked.apart;
      ordered = in_order-cancel i.id rows booked.ordered;
    })

apply-IsBooked :
    (h : Host) (f : Fresh) (name : Text) (i : AgendaInput) {rows : List Row} {p : List Row × Value}
    → IsBooked rows
    → apply h f name i rows ≡ ok p
    → IsBooked p.0
unfolding apply
apply-IsBooked h f name i {rows} {p} booked done =
    elim (Bool-cases (eq_text name (codes "agenda.create_event"))) [
      | inl creates ↦ create_event-IsBooked h f i {p = p} booked (ground arith)
      | inr other ↦ elim (Bool-cases (eq_text name (codes "agenda.cancel_event"))) [
        | inl cancels ↦ cancel_event-IsBooked i {p = p} booked (ground arith)
        | inr unknown ↦ absurd (ground arith)
      ]
    ]

transact-IsBooked :
    (h : Host) (f : Fresh) (key name canonical : Text) (i : AgendaInput) (s : Agenda)
    {p : Agenda × Text}
    → IsBooked s.agenda_events
    → transact h f key name canonical i s ≡ ok p
    → IsBooked p.0.agenda_events
unfolding transact
transact-IsBooked h f key name canonical i s {p} booked done =
    elim (Option-cases (lookup key s.agenda_operations)) [
      | inr (old, found) ↦ let same : p.0 ≡ s = ground arith in rw same booked
      | inl new ↦ elim (Fallible-cases (apply h f name i s.agenda_events)) [
        | inl (e, bad) ↦ absurd (ground arith)
        | inr (q, good) ↦
            let rows : p.0.agenda_events ≡ q.0 = ground arith in
            rw rows (apply-IsBooked h f name i booked good)
      ]
    ]

-- A mutation that succeeds has passed the checks, and its transaction has succeeded.
pub attempt-transact :
    (h : Host) (f : Fresh) (m : Mutation) (s : Agenda) (p : Agenda × Text)
    → attempt h f m s ≡ ok p
    → (i : AgendaInput) × (h.decode_input m.args ≡ some i)
      × (transact h f m.key m.name (h.json.canonical m.args) i s ≡ ok p)
unfolding attempt
attempt-transact h f m s p done = elim (Option-cases (h.decode_input m.args)) [
  | inl bad ↦ absurd (ground arith)
  | inr (i, read) ↦ (i, read, ground arith)
]

-- A mutation, whatever it is and whether it succeeds or fails, leaves an agenda in which the
-- active appointments neither overlap nor end before they start, if it was one before.
pub mutate_agenda-IsBooked :
    (h : Host) (f : Fresh) (m : Mutation) (s : Agenda)
    → IsBooked s.agenda_events
    → IsBooked (mutate_agenda h f m s).0.agenda_events
unfolding mutate_agenda
mutate_agenda-IsBooked h f m s booked = elim (Fallible-cases (attempt h f m s)) [
  | inl (e, bad) ↦ rw (mutate_agenda, bad) booked
  | inr (p, good) ↦
      let (i, _, moved) = attempt-transact h f m s p good in
      rw (mutate_agenda, good) (transact-IsBooked h f m.key m.name _ i s booked moved)
]
