-- ===== src/Agenda/Replay.antt =====
-- apps/mcp-agenda/internal/adapters/sqlite/store.go, func MutateAgenda: a mutation that is sent
-- again changes nothing and gets the answer of the first time.
use nova2sonici_osapp.Common.{◌≡◌, refl, inl, inr, some, List, [], ◌∷◌, arith, Option-cases}
use nova2sonici_osapp.Common.Assoc.{lookup, insert, lookup-insert}
use nova2sonici_osapp.Common.Fallible.{ok, Fallible-cases}
use nova2sonici_osapp.Common.Text.{Text, eq_text_iff, eq_text_refl}
use nova2sonici_osapp.Agenda.Scheduling.{Host, AgendaInput}
use nova2sonici_osapp.Agenda.Booked.{attempt-transact}
use nova2sonici_osapp.Agenda.Store.{
  Operation, Agenda, Fresh, Mutation, apply, transact, attempt, mutate_agenda,
}

-- Mutations one after the other, each with what it takes from its surroundings.
unfoldable pub run : Host → List (Fresh × Mutation) → Agenda → Agenda
unfolding mutate_agenda
run h [] s = s
run h ((f, m) ∷ ms) s = run h ms (mutate_agenda h f m s).0

-- The ledger holds the operation under the key, with these arguments and this result.
record Kept (s : Agenda) (key name canonical result : Text) : Type 0 where
  old : Operation
  found : lookup key s.agenda_operations ≡ some old
  named : old.name ≡ name
  asked : old.arguments ≡ canonical
  answered : old.result ≡ result

transact-Kept :
    (h : Host) (f : Fresh) (key name canonical : Text) (i : AgendaInput) (s s' : Agenda) (r : Text)
    → transact h f key name canonical i s ≡ ok (s', r)
    → Kept s' key name canonical r
unfolding transact
transact-Kept h f key name canonical i s s' r done =
    elim (Option-cases (lookup key s.agenda_operations)) [
      | inr (old, found) ↦
          let same : s' ≡ s = ground arith in
          record {
            old = old;
            found = rw same found;
            named = ground (arith, eq_text_iff old.name name);
            asked = ground (arith, eq_text_iff old.arguments canonical);
            answered = ground arith;
          }
      | inl new ↦ elim (Fallible-cases (apply h f name i s.agenda_events)) [
        | inl (e, bad) ↦ absurd (ground arith)
        | inr (q, good) ↦
            let o : Operation = record {
              name = name;
              arguments = canonical;
              result = h.json.marshal q.1;
              completed_at = f.completed_at;
            } in
            let ops : s'.agenda_operations ≡ insert key o s.agenda_operations = ground arith in
            record {
              old = o;
              found =
                  rw ops (rw (lookup-insert key key o s.agenda_operations, eq_text_refl key) refl);
              named = refl;
              asked = refl;
              answered = ground arith;
            }
      ]
    ]

-- An operation stays in the ledger whatever comes later.
transact-keeps :
    (h : Host) (f : Fresh) (key name canonical : Text) (i : AgendaInput) (s s' : Agenda) (r : Text)
    (k : Text) (o : Operation)
    → transact h f key name canonical i s ≡ ok (s', r)
    → lookup k s.agenda_operations ≡ some o
    → lookup k s'.agenda_operations ≡ some o
unfolding transact
transact-keeps h f key name canonical i s s' r k o done there =
    elim (Option-cases (lookup key s.agenda_operations)) [
      | inr (old, found) ↦ let same : s' ≡ s = ground arith in rw same there
      | inl new ↦ elim (Fallible-cases (apply h f name i s.agenda_events)) [
        | inl (e, bad) ↦ absurd (ground arith)
        | inr (q, good) ↦
            let o' : Operation = record {
              name = name;
              arguments = canonical;
              result = h.json.marshal q.1;
              completed_at = f.completed_at;
            } in
            let ops : s'.agenda_operations ≡ insert key o' s.agenda_operations = ground arith in
            rw ops (ground (arith, lookup-insert key k o' s.agenda_operations, eq_text_iff key k))
      ]
    ]

mutate_agenda-keeps :
    (h : Host) (f : Fresh) (m : Mutation) (s : Agenda) (k : Text) (o : Operation)
    → lookup k s.agenda_operations ≡ some o
    → lookup k (mutate_agenda h f m s).0.agenda_operations ≡ some o
unfolding mutate_agenda
mutate_agenda-keeps h f m s k o there = elim (Fallible-cases (attempt h f m s)) [
  | inl (e, bad) ↦ rw (mutate_agenda, bad) there
  | inr ((s', r), good) ↦
      let (i, _, moved) = attempt-transact h f m s (s', r) good in
      rw (mutate_agenda, good) (transact-keeps h f m.key m.name _ i s s' r k o moved there)
]

run-keeps :
    (h : Host) (ms : List (Fresh × Mutation)) (s : Agenda) (k : Text) (o : Operation)
    → lookup k s.agenda_operations ≡ some o
    → lookup k (run h ms s).agenda_operations ≡ some o
unfolding run
run-keeps h [] s k o there = there
run-keeps h ((f, m) ∷ ms) s k o there =
    run-keeps h ms (mutate_agenda h f m s).0 k o (mutate_agenda-keeps h f m s k o there)

-- The same mutation on an agenda whose ledger holds it.
attempt-Kept :
    (h : Host) (f f' : Fresh) (m : Mutation) (s s' : Agenda) (p : Agenda × Text) (r : Text)
    → attempt h f m s ≡ ok p
    → Kept s' m.key m.name (h.json.canonical m.args) r
    → attempt h f' m s' ≡ ok (s', r)
unfolding attempt transact
attempt-Kept h f f' m s s' p r done k = elim (Option-cases (h.decode_input m.args)) [
  | inl bad ↦ absurd (ground arith)
  | inr (i, read) ↦ ground (
    arith,
    eq_text_iff k.old.name m.name,
    eq_text_iff k.old.arguments (h.json.canonical m.args),
    k.found,
    k.named,
    k.asked,
    k.answered,
  )
]

-- Where a mutation succeeded, the same mutation after any others, with a new id and a new time at
-- hand, leaves the agenda as it finds it and returns the result of the first time.
pub mutate_agenda-replays :
    (h : Host) (f f' : Fresh) (m : Mutation) (s s' : Agenda) (r : Text)
    (ms : List (Fresh × Mutation))
    → mutate_agenda h f m s ≡ (s', ok r)
    → mutate_agenda h f' m (run h ms s') ≡ (run h ms s', ok r)
unfolding mutate_agenda
mutate_agenda-replays h f f' m s s' r ms done = elim (Fallible-cases (attempt h f m s)) [
  | inl (e, bad) ↦ absurd (ground arith)
  | inr (p, good) ↦
      let first : attempt h f m s ≡ ok (s', r) = ground arith in
      let (i, _, moved) = attempt-transact h f m s (s', r) first in
      let k = transact-Kept h f m.key m.name _ i s s' r moved in
      let again : attempt h f' m (run h ms s') ≡ ok (run h ms s', r) =
        attempt-Kept h f f' m s (run h ms s') p r good (record {
          old = k.old;
          found = run-keeps h ms s' m.key k.old k.found;
          named = k.named;
          asked = k.asked;
          answered = k.answered;
        }) in
      rw (mutate_agenda, again) refl
]
