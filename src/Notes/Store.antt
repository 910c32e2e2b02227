-- ===== src/Notes/Store.antt =====
-- apps/mcp-notes/internal/notes/model.go and internal/adapters/sqlite/store.go, over tables as
-- lists. A failed mutation rolls its transaction back. Of the errors of the database only a second
-- row with one key is modelled.
use nova2sonici_osapp.Common.{
  ℕ, suc, Bool, true, false, not, ◌&&◌, ◌||◌, Option, none, some, List, [], ◌∷◌, ◌++◌, take, all,
  any, ltb, ◌==◌, if◌then◌else◌,
}
use nova2sonici_osapp.Common.Assoc.{Map, lookup, insert}
use nova2sonici_osapp.Common.Fallible.{Fallible, ok, err, ◌>>=◌, ◌>>◌, reject_if}
use nova2sonici_osapp.Common.Text.{Text, codes, len, eq_text, is_empty}
use nova2sonici_osapp.Mcp.Types.{Json, Value, str, obj, end, field}

pub record Note : Type 0 where
  pub id : Text
  pub title : Text
  pub content : Text
  pub created_at : Text

pub record Input : Type 0 where
  pub title : Text
  pub content : Text
  pub id : Text

-- A row of notes_operations, without its key.
pub record Operation : Type 0 where
  pub name : Text
  pub arguments : Text
  pub result : Text
  pub completed_at : Text

pub record Store : Type 0 where
  pub notes : List Note
  pub notes_operations : Map Operation

-- `matches text query` is SQLite's `instr(lower(text), lower(query)) > 0`.
pub record Host : Type 0 where
  pub json : Json
  pub decode_input : Text → Option Input
  pub is_space : ℕ → Bool
  pub matches : Text → Text → Bool

-- A note that Validate accepts: not blank once it is trimmed, and within its limits.
unfoldable pub validates : Host → Text → Text → Bool
validates h title content = not (
    all h.is_space title || ltb 256 (len title) || all h.is_space content || ltb 8192 (len content))

-- The order of texts in SQLite: by bytes, which is by code points.
unfoldable precedes_text : Text → Text → Bool
precedes_text [] t = true
precedes_text (a ∷ s) [] = false
precedes_text (a ∷ s) (b ∷ t) = ltb a b || (a == b && precedes_text s t)

-- ORDER BY created_at, id
unfoldable precedes : Note → Note → Bool
unfolding precedes_text
precedes m n =
    if eq_text m.created_at n.created_at
    then precedes_text m.id n.id
    else precedes_text m.created_at n.created_at

unfoldable place : Note → List Note → List Note
unfolding precedes
place n [] = n ∷ []
place n (m ∷ notes) = if precedes n m then n ∷ m ∷ notes else m ∷ place n notes

unfoldable ordered : List Note → List Note
unfolding place
ordered [] = []
ordered (n ∷ notes) = place n (ordered notes)

unfoldable matching : Host → Text → List Note → List Note
matching h query [] = []
matching h query (n ∷ notes) =
    let rest = matching h query notes in
    if h.matches (n.title ++ codes " " ++ n.content) query then n ∷ rest else rest

unfoldable pub list : Host → Text → Store → List Note
unfolding precedes_text precedes ordered matching
list h query s = take 100 (ordered (matching h query s.notes))

-- What a mutation takes from its surroundings: `rand.Text()` and the times of the note and of the
-- operation.
pub record Fresh : Type 0 where
  pub id : Text
  pub created_at : Text
  pub completed_at : Text

abbrev has_id : Text → Note → Bool
has_id i n = eq_text n.id i

unfoldable pub note_value : Note → Value
note_value n = obj (
    field (codes "id") (str n.id) (
      field (codes "title") (str n.title) (
        field (codes "content") (str n.content)
          (field (codes "created_at") (str n.created_at) end))))

unfoldable pub create : Host → Fresh → Input → List Note → Fallible (List Note × Value)
unfolding validates note_value
create h f i notes = do
  reject_if (not (validates h i.title i.content)) (codes "invalid note")
  let n : Note = record {
    id = f.id;
    title = i.title;
    content = i.content;
    created_at = f.created_at;
  }
  reject_if (any (has_id f.id) notes) (codes "UNIQUE constraint failed: notes.id")
  ok (
    n ∷ notes,
    obj (field (codes "status") (str (codes "created")) (field (codes "note") (note_value n) end)),
  )

-- `DELETE FROM notes WHERE id=?`, and the number of rows that it takes away.
unfoldable pub delete_row : Text → List Note → List Note
delete_row i [] = []
delete_row i (n ∷ notes) = let rest = delete_row i notes in if has_id i n then rest else n ∷ rest

unfoldable pub affected : Text → List Note → ℕ
affected i [] = 0
affected i (n ∷ notes) = let rest = affected i notes in if has_id i n then suc rest else rest

unfoldable pub delete_note : Input → List Note → Fallible (List Note × Value)
unfolding delete_row affected
delete_note i notes = do
  reject_if (is_empty i.id) (codes "note id required")
  reject_if (not (affected i.id notes == 1)) (codes "note not found")
  ok (
    delete_row i.id notes,
    obj (field (codes "status") (str (codes "deleted")) (field (codes "id") (str i.id) end)),
  )

unfoldable pub apply : Host → Fresh → Text → Input → List Note → Fallible (List Note × Value)
unfolding create delete_note
apply h f name i notes =
    if eq_text name (codes "notes.create")
    then create h f i notes
    else if eq_text name (codes "notes.delete")
    then delete_note i notes
    else err (codes "unknown mutation")

-- The transaction: what an earlier mutation with the key gave, or a new effect and its record.
unfoldable pub transact :
    Host → Fresh → Text → Text → Text → Input → Store → Fallible (Store × Text)
unfolding apply
transact h f key name encoded i s = elim (lookup key s.notes_operations) [
  | some old ↦
      if not (eq_text old.name name) || not (eq_text old.arguments encoded)
      then err (codes "idempotency conflict")
      else ok (s, old.result)
  | none ↦ do
    (notes, value) ← apply h f name i s.notes
    let result = h.json.marshal value
    ok (
      record {
        notes = notes;
        notes_operations =
            insert key
              (record {
                name = name;
                arguments = encoded;
                result = result;
                completed_at = f.completed_at;
              })
              s.notes_operations;
      },
      result,
    )
]

-- One request of Mutate.
pub record Mutation : Type 0 where
  pub key : Text
  pub name : Text
  pub args : Text

unfoldable pub attempt : Host → Fresh → Mutation → Store → Fallible (Store × Text)
unfolding transact
attempt h f m s = do
  reject_if (is_empty m.key || ltb 256 (len m.key)) (codes "invalid idempotency key")
  i ← elim (h.decode_input m.args) [ none ↦ err (codes "invalid arguments") | some i ↦ ok i ]
  transact h f m.key m.name (h.json.canonical m.args) i s

-- The store after a mutation, and its result; an error leaves the store as it was.
unfoldable pub mutate : Host → Fresh → Mutation → Store → Store × Fallible Text
unfolding attempt
mutate h f m s = elim (attempt h f m s) [ err e ↦ (s, err e) | ok (s', result) ↦ (s', ok result) ]
