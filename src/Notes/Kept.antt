-- ===== src/Notes/Kept.antt =====
-- apps/mcp-notes/internal/adapters/sqlite/store.go: every note that is kept is valid.
use nova2sonici_osapp.Common.{
  ◌≡◌, refl, inl, inr, Bool, true, false, not, ◌&&◌, List, [], ◌∷◌, arith, all, any, Bool-cases,
  Option-cases,
}
use nova2sonici_osapp.Common.Assoc.{lookup}
use nova2sonici_osapp.Common.Fallible.{ok, Fallible-cases}
use nova2sonici_osapp.Common.Text.{Text, codes, eq_text}
use nova2sonici_osapp.Mcp.Types.{Value}
use nova2sonici_osapp.Notes.Store.{
  Note, Input, Store, Host, Fresh, Mutation, validates, create, delete_row, delete_note, apply,
  transact, attempt, mutate,
}

-- Each note is one that Validate accepts.
unfoldable pub all_valid : Host → List Note → Bool
all_valid h notes = all (λ n. validates h n.title n.content) notes

-- No two notes have one id.
unfoldable pub distinct : List Note → Bool
distinct [] = true
distinct (n ∷ notes) = not (any (λ m. eq_text m.id n.id) notes) && distinct notes

pub record IsKept (h : Host) (notes : List Note) : Type 0 where
  pub valid : all_valid h notes ≡ true
  pub apart : distinct notes ≡ true

create-IsKept :
    (h : Host) (f : Fresh) (i : Input) {notes : List Note} {p : List Note × Value}
    → IsKept h notes
    → create h f i notes ≡ ok p
    → IsKept h p.0
unfolding create all_valid distinct
create-IsKept h f i {notes} {p} kept done = elim (Bool-cases (any (λ m. eq_text m.id f.id) notes)) [
  | inl used ↦ absurd (ground arith)
  | inr unused ↦
      let n : Note = record {
        id = f.id;
        title = i.title;
        content = i.content;
        created_at = f.created_at;
      } in
      let good : validates h i.title i.content ≡ true = ground arith in
      let made : p.0 ≡ n ∷ notes = ground arith in
      rw made (record { valid = rw good kept.valid; apart = rw unused kept.apart })
]

any-delete :
    (i j : Text) (notes : List Note)
    → any (λ m. eq_text m.id j) notes ≡ false
    → any (λ m. eq_text m.id j) (delete_row i notes) ≡ false
unfolding delete_row
any-delete i j [] h = refl
any-delete i j (n ∷ notes) h = ground (arith, any-delete i j notes)

valid-delete :
    (h : Host) (i : Text) (notes : List Note)
    → all_valid h notes ≡ true
    → all_valid h (delete_row i notes) ≡ true
unfolding delete_row all_valid
valid-delete h i [] v = refl
valid-delete h i (n ∷ notes) v = ground (arith, valid-delete h i notes)

distinct-delete :
    (i : Text) (notes : List Note) → distinct notes ≡ true → distinct (delete_row i notes) ≡ true
unfolding delete_row distinct
distinct-delete i [] d = refl
distinct-delete i (n ∷ notes) d = ground (arith, any-delete i n.id notes, distinct-delete i notes)

delete_note-IsKept :
    (h : Host) (i : Input) {notes : List Note} {p : List Note × Value}
    → IsKept h notes
    → delete_note i notes ≡ ok p
    → IsKept h p.0
unfolding delete_note
delete_note-IsKept h i {notes} {p} kept done =
    let made : p.0 ≡ delete_row i.id notes = ground arith in
    rw made (record {
      valid = valid-delete h i.id notes kept.valid;
      apart = distinct-delete i.id notes kept.apart;
    })

apply-IsKept :
    (h : Host) (f : Fresh) (name : Text) (i : Input) {notes : List Note} {p : List Note × Value}
    → IsKept h notes
    → apply h f name i notes ≡ ok p
    → IsKept h p.0
unfolding apply
apply-IsKept h f name i {notes} {p} kept done =
    elim (Bool-cases (eq_text name (codes "notes.create"))) [
      | inl creates ↦ create-IsKept h f i {p = p} kept (ground arith)
      | inr other ↦ elim (Bool-cases (eq_text name (codes "notes.delete"))) [
        | inl deletes ↦ delete_note-IsKept h i {p = p} kept (ground arith)
        | inr unknown ↦ absurd (ground arith)
      ]
    ]

attempt-IsKept :
    (h : Host) (f : Fresh) (m : Mutation) (s : Store) (p : Store × Text)
    → IsKept h s.notes
    → attempt h f m s ≡ ok p
    → IsKept h p.0.notes
unfolding attempt transact
attempt-IsKept h f m s p kept done = elim (Option-cases (h.decode_input m.args)) [
  | inl bad ↦ absurd (ground arith)
  | inr (i, read) ↦ elim (Option-cases (lookup m.key s.notes_operations)) [
    | inr (old, found) ↦ let same : p.0 ≡ s = ground arith in rw same kept
    | inl new ↦ elim (Fallible-cases (apply h f m.name i s.notes)) [
      | inl (e, bad) ↦ absurd (ground arith)
      | inr (q, good) ↦
          let notes : p.0.notes ≡ q.0 = ground arith in
          rw notes (apply-IsKept h f m.name i kept good)
    ]
  ]
]

-- A mutation, whatever it is and whether it succeeds or fails, leaves notes that Validate accepts
-- and whose ids differ, if they were so before.
pub mutate-IsKept :
    (h : Host) (f : Fresh) (m : Mutation) (s : Store)
    → IsKept h s.notes
    → IsKept h (mutate h f m s).0.notes
unfolding mutate
mutate-IsKept h f m s kept = elim (Fallible-cases (attempt h f m s)) [
  | inl (e, bad) ↦ rw (mutate, bad) kept
  | inr (p, good) ↦ rw (mutate, good) (attempt-IsKept h f m s p kept good)
]
