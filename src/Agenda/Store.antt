-- ===== src/Agenda/Store.antt =====
-- apps/mcp-agenda/internal/adapters/sqlite/store.go over tables as lists. A failed mutation rolls
-- its transaction back. Of the errors of the database only a second row with one key is modelled.
use nova2sonici_osapp.Common.{
  ℕ, suc, Bool, true, false, not, ◌&&◌, ◌||◌, none, some, List, [], ◌∷◌, map, take, all, any, ltb,
  ◌==◌, if◌then◌else◌,
}
use nova2sonici_osapp.Common.Assoc.{Map, lookup, insert}
use nova2sonici_osapp.Common.Fallible.{Fallible, ok, err, ◌>>=◌, ◌>>◌, reject_if}
use nova2sonici_osapp.Common.Text.{Text, codes, len, eq_text, is_empty}
use nova2sonici_osapp.Mcp.Types.{Value, str, obj, end, field}
use nova2sonici_osapp.Agenda.Scheduling.{
  Time, Host, AgendaEvent, AgendaInput, interval, available, local_times,
}

-- A row of agenda_events: its times are whole seconds.
pub record Row : Type 0 where
  pub id : Text
  pub title : Text
  pub start : ℕ
  pub end : ℕ
  pub status : Text

-- A row of agenda_operations, without its key.
pub record Operation : Type 0 where
  pub name : Text
  pub arguments : Text
  pub result : Text
  pub completed_at : Text

pub record Agenda : Type 0 where
  pub agenda_events : List Row
  pub agenda_operations : Map Operation

abbrev pub active : Text
active = codes "active"

abbrev pub is_active : Row → Bool
is_active r = eq_text r.status active

-- `status='active' AND start<? AND end>?`, at the bounds of a time that is asked for.
unfoldable pub occupies : ℕ → ℕ → Row → Bool
occupies from to r = is_active r && ltb r.start to && ltb from r.end

unfoldable pub agenda_conflict : List Row → Time → Time → Bool
unfolding occupies
agenda_conflict rows a b = any (occupies a.unix b.unix) rows

abbrev at : ℕ → Time
at seconds = record { unix = seconds; nanosecond = 0 }

-- The order of ids in SQLite: by bytes, which is by code points.
unfoldable precedes_text : Text → Text → Bool
precedes_text [] t = true
precedes_text (a ∷ s) [] = false
precedes_text (a ∷ s) (b ∷ t) = ltb a b || (a == b && precedes_text s t)

-- ORDER BY start, id
unfoldable precedes : Row → Row → Bool
unfolding precedes_text
precedes r s = ltb r.start s.start || (r.start == s.start && precedes_text r.id s.id)

unfoldable place : Row → List Row → List Row
unfolding precedes
place r [] = r ∷ []
place r (s ∷ rows) = if precedes r s then r ∷ s ∷ rows else s ∷ place r rows

unfoldable ordered : List Row → List Row
unfolding place
ordered [] = []
ordered (r ∷ rows) = place r (ordered rows)

-- The rows that meet the bounds, active or not.
unfoldable within : ℕ → ℕ → List Row → List Row
within from to [] = []
within from to (r ∷ rows) =
    let rest = within from to rows in if ltb r.start to && ltb from r.end then r ∷ rest else rest

unfoldable event_of : Host → Row → AgendaEvent
unfolding local_times
event_of h r = local_times h (record {
  start_local = [];
  end_local = [];
  id = r.id;
  title = r.title;
  start = h.format (at r.start);
  end = h.format (at r.end);
  status = r.status;
})

unfoldable pub events : Host → Text → Text → Agenda → Fallible (List AgendaEvent)
unfolding interval precedes_text precedes ordered within event_of
events h from to s = do
  (a, b) ← interval h from to
  ok (map (event_of h) (take 100 (ordered (within a.unix b.unix s.agenda_events))))

-- What a mutation takes from its surroundings: `rand.Text()` and the time of its completion.
pub record Fresh : Type 0 where
  pub id : Text
  pub completed_at : Text

abbrev has_id : Text → Row → Bool
has_id i r = eq_text r.id i

unfoldable pub new_event : Host → Fresh → AgendaInput → Time → Time → AgendaEvent
unfolding local_times
new_event h f i a b = local_times h (record {
  start_local = [];
  end_local = [];
  id = f.id;
  title = i.title;
  start = h.format a;
  end = h.format b;
  status = active;
})

unfoldable pub event_value : AgendaEvent → Value
event_value e = obj (
    field (codes "start_local") (str e.start_local) (
      field (codes "end_local") (str e.end_local) (
        field (codes "id") (str e.id) (
          field (codes "title") (str e.title) (
            field (codes "start") (str e.start)
              (field (codes "end") (str e.end) (field (codes "status") (str e.status) end)))))))

-- INSERT INTO agenda_events, and the value that the mutation returns.
unfoldable pub insert_event : AgendaEvent → Time → Time → List Row → List Row × Value
unfolding event_value
insert_event e a b rows = (
  record { id = e.id; title = e.title; start = a.unix; end = b.unix; status = e.status } ∷ rows,
  obj (
      field (codes "status") (str (codes "created")) (
        field (codes "event") (event_value e)
          (field (codes "timezone") (str (codes "America/Sao_Paulo")) end))),
)

unfoldable pub create_event : Host → Fresh → AgendaInput → List Row → Fallible (List Row × Value)
unfolding interval available agenda_conflict new_event insert_event
create_event h f i rows = do
  (a, b) ← interval h i.start i.end
  reject_if (all h.is_space i.title || ltb 256 (len i.title)) (codes "invalid_title")
  reject_if (not (available h a b)) (codes "outside_availability")
  reject_if (agenda_conflict rows a b) (codes "slot_conflict")
  let event = new_event h f i a b
  reject_if (any (has_id f.id) rows) (codes "UNIQUE constraint failed: agenda_events.id")
  ok (insert_event event a b rows)

-- `UPDATE agenda_events SET status='cancelled' WHERE id=? AND status='active'`
unfoldable pub cancel_row : Text → Row → Row
cancel_row i r = if has_id i r && is_active r then record r { status = codes "cancelled" } else r

unfoldable pub affected : Text → List Row → ℕ
affected i [] = 0
affected i (r ∷ rows) =
    let rest = affected i rows in if has_id i r && is_active r then suc rest else rest

unfoldable pub cancel_event : AgendaInput → List Row → Fallible (List Row × Value)
unfolding cancel_row affected
cancel_event i rows = do
  reject_if (not (affected i.id rows == 1)) (codes "event_not_found")
  ok (
    map (cancel_row i.id) rows,
    obj (field (codes "status") (str (codes "cancelled")) (field (codes "id") (str i.id) end)),
  )

unfoldable pub apply : Host → Fresh → Text → AgendaInput → List Row → Fallible (List Row × Value)
unfolding create_event cancel_event
apply h f name i rows =
    if eq_text name (codes "agenda.create_event")
    then create_event h f i rows
    else if eq_text name (codes "agenda.cancel_event")
    then cancel_event i rows
    else err (codes "unknown_mutation")

-- The transaction: what an earlier mutation with the key gave, or a new effect and its record.
unfoldable pub transact :
    Host → Fresh → Text → Text → Text → AgendaInput → Agenda → Fallible (Agenda × Text)
unfolding apply
transact h f key name canonical i s = elim (lookup key s.agenda_operations) [
  | some old ↦
      if not (eq_text old.name name) || not (eq_text old.arguments canonical)
      then err (codes "idempotency_conflict")
      else ok (s, old.result)
  | none ↦ do
    (rows, value) ← apply h f name i s.agenda_events
    let result = h.json.marshal value
    ok (
      record {
        agenda_events = rows;
        agenda_operations =
            insert key
              (record {
                name = name;
                arguments = canonical;
                result = result;
                completed_at = f.completed_at;
              })
              s.agenda_operations;
      },
      result,
    )
]

-- One request of MutateAgenda.
pub record Mutation : Type 0 where
  pub key : Text
  pub name : Text
  pub args : Text
  pub confirmed : Bool

unfoldable pub attempt : Host → Fresh → Mutation → Agenda → Fallible (Agenda × Text)
unfolding transact
attempt h f m s = do
  reject_if (is_empty m.key || ltb 256 (len m.key)) (codes "invalid_key")
  i ← elim (h.decode_input m.args) [ none ↦ err (codes "invalid_arguments") | some i ↦ ok i ]
  reject_if (eq_text m.name (codes "agenda.cancel_event") && not m.confirmed)
      (codes "confirmation_required")
  transact h f m.key m.name (h.json.canonical m.args) i s

-- The agenda after a mutation, and its result; an error leaves the agenda as it was.
unfoldable pub mutate_agenda : Host → Fresh → Mutation → Agenda → Agenda × Fallible Text
unfolding attempt
mutate_agenda h f m s = elim (attempt h f m s) [
  | err e ↦ (s, err e)
  | ok (s', result) ↦ (s', ok result)
]
